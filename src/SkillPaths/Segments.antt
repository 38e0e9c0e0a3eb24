-- ===== src/SkillPaths/Segments.antt =====
-- Texts as lists of code units, and their segments between slashes: `replaceAll`, `split` and `join`
-- as src/skill-package/path-admission.ts calls them.
use Prim.Native.Char.{code}
use mosoo_agent_driver.Base.{
  ℕ, ◌≡◌, refl, sym, subst, String, Bool, true, false, List, [], ◌∷◌, ◌++◌, map, ◌==◌,
  if◌then◌else◌, arith,
}

abbrev pub SkillPath : Type 0
SkillPath = List ℕ

-- the code units of an ASCII text
abbrev pub codes : String → SkillPath
codes String.[] = []
codes (String.◌∷◌ c s) = code c ∷ codes s

-- `\` becomes `/`
abbrev pub slashed : ℕ → ℕ
slashed c = if c == 92 then 47 else c

abbrev pub normalize : SkillPath → SkillPath
normalize path = map slashed path

abbrev pub prepend : ℕ → List SkillPath → List SkillPath
prepend c [] = (c ∷ []) ∷ []
prepend c (s ∷ ss) = (c ∷ s) ∷ ss

-- `split("/")`
unfoldable pub split : SkillPath → List SkillPath
split [] = [] ∷ []
split (c ∷ cs) = let rest = split cs in if c == 47 then [] ∷ rest else prepend c rest

-- `join("/")`
unfoldable pub join : List SkillPath → SkillPath
join [] = []
join (s ∷ []) = s
join (s ∷ t ∷ ss) = s ++ (47 ∷ join (t ∷ ss))

prepend-cons :
    (c : ℕ) (ss : List SkillPath)
    → (t : SkillPath) × (ts : List SkillPath) × (prepend c ss ≡ (c ∷ t) ∷ ts)
prepend-cons c [] = ([], [], refl)
prepend-cons c (s ∷ ss) = (s, ss, refl)

-- There is at least one segment.
pub split-cons : (p : SkillPath) → (s : SkillPath) × (ss : List SkillPath) × (split p ≡ s ∷ ss)
unfolding split
split-cons [] = ([], [], refl)
split-cons (c ∷ cs) = by_slash (c == 47)
  where
    by_slash :
        (b : Bool)
        → (s : SkillPath) × (ss : List SkillPath) × ((if b
              then [] ∷ split cs
              else prepend c (split cs))
            ≡ s ∷ ss)
    by_slash true = ([], split cs, refl)
    by_slash false = let (t, ts, e) = prepend-cons c (split cs) in (c ∷ t, ts, e)

join-prepend :
    (c : ℕ) (s : SkillPath) (ss : List SkillPath) → join (prepend c (s ∷ ss)) ≡ c ∷ join (s ∷ ss)
unfolding join
join-prepend c s [] = refl
join-prepend c s (t ∷ ss) = refl

join-split_cons :
    (c : ℕ) (cs s : SkillPath) (ss : List SkillPath)
    → join (s ∷ ss) ≡ cs
    → join (if c == 47 then [] ∷ (s ∷ ss) else prepend c (s ∷ ss)) ≡ c ∷ cs
unfolding join
join-split_cons c cs s ss h = let j = join-prepend c s ss in ground arith

pub join-split : (p : SkillPath) → join (split p) ≡ p
unfolding split join
join-split [] = refl
join-split (c ∷ cs) =
    let (s, ss, e) = split-cons cs in
    let later : join (s ∷ ss) ≡ cs = subst (λ x. join x ≡ cs) e (join-split cs) in
    subst (λ x. join (if c == 47 then [] ∷ x else prepend c x) ≡ c ∷ cs) (sym e)
      (join-split_cons c cs s ss later)

-- a path, a slash and a rest have the segments of both
pub split-append : (p r : SkillPath) → split (p ++ (47 ∷ r)) ≡ split p ++ split r
unfolding split
split-append [] r = refl
split-append (c ∷ cs) r =
    let (s, ss, e) = split-cons cs in let later = split-append cs r in ground arith
