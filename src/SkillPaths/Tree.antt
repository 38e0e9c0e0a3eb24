-- ===== src/SkillPaths/Tree.antt =====
-- The paths that an admission has admitted form a tree: a file has no children
-- (`createSkillPackagePathAdmission` of src/skill-package/path-admission.ts).
use mosoo_agent_driver.Base.{
  ℕ, zero, suc, ◌+◌, ◌-◌, ◌≤◌, ◌<◌, ◌≡◌, refl, ap, ◌∙◌, subst, ◌⊎◌, inl, inr, true, false, not,
  ◌&&◌, none, some, List, [], ◌∷◌, ◌++◌, length, length-append, take, ◌==◌, if◌then◌else◌, arith,
  Result, ok, err, guard, for_each, >>=-eq-ok, guard-eq-ok, is_some, Bool-cases,
}
use mosoo_agent_driver.SkillPaths.Segments.{
  SkillPath, split, join, split-cons, join-split, split-append,
}
use mosoo_agent_driver.SkillPaths.Canonical.{admitted_again}
use mosoo_agent_driver.SkillPaths.{
  SkillPackagePathKind, file, AdmittedSkillPackagePath, SkillPackageError, duplicate_path,
  file_with_children, same_path, starts_with, is_file, admit_skill_package_path, Entries, get,
  has_descendant, joins, read_ancestor_paths, is_file?, reject_duplicate_or_collision, admit,
}

pub same_path→eq : (a b : SkillPath) → same_path a b ≡ true → a ≡ b
same_path→eq [] [] h = refl
same_path→eq [] (b ∷ bs) h = cc
same_path→eq (a ∷ as') [] h = cc
same_path→eq (a ∷ as') (b ∷ bs) h = let later = same_path→eq as' bs in ground arith

same_path_self : (a : SkillPath) → same_path a a ≡ true
same_path_self [] = refl
same_path_self (a ∷ as') = let later = same_path_self as' in ground arith

starts_with→append :
    (p f : SkillPath)
    → starts_with p (f ++ (47 ∷ [])) ≡ true
    → (r : SkillPath) × (p ≡ f ++ (47 ∷ r))
starts_with→append [] [] h = cc
starts_with→append [] (c ∷ cs) h = cc
starts_with→append (a ∷ as') [] h = (as', ground arith)
starts_with→append (a ∷ as') (c ∷ cs) h =
    let (r, e) = starts_with→append as' cs ground arith in (r, ground arith)

not_below_self : (p : SkillPath) → starts_with p (p ++ (47 ∷ [])) ≡ false
not_below_self [] = refl
not_below_self (c ∷ cs) = let later = not_below_self cs in ground arith

take-append : (xs ys : List SkillPath) → take (length xs) (xs ++ ys) ≡ xs
take-append [] ys = refl
take-append (x ∷ xs) ys = ap (λ r. x ∷ r) (take-append xs ys)

-- a check of each join holds of each
joins_checked :
    (g : SkillPath → Result SkillPackageError (Unit {0})) (n index i : ℕ) (ss : List SkillPath)
    → for_each g (joins n index ss) ≡ ok tt
    → index ≤ i
    → i < index + n
    → g (join (take i ss)) ≡ ok tt
joins_checked g zero index i ss h low high = absurd (omega arith)
joins_checked g (suc n) index i ss h low high =
    let (u, first, rest) =
      >>=-eq-ok (g (join (take index ss))) (λ _. for_each g (joins n (index + 1) ss)) h in
    elim (Bool-cases (index == i)) [
      | inl e ↦
          (let same : index ≡ i = ground arith in
            subst (λ x. g (join (take x ss)) ≡ ok tt) same first)
      | inr e ↦
          (let other : index + 1 ≤ i = ground arith in
            joins_checked g n (index + 1) i ss rest other (omega arith))
    ]

-- A check of each ancestor holds of each path that it is below.
ancestors_checked :
    (g : SkillPath → Result SkillPackageError (Unit {0})) (p f : SkillPath)
    → for_each g (read_ancestor_paths p) ≡ ok tt
    → starts_with p (f ++ (47 ∷ [])) ≡ true
    → g f ≡ ok tt
unfolding read_ancestor_paths
ancestors_checked g p f h below =
    let (r, e) = starts_with→append p f below in
    let segments : split p ≡ split f ++ split r = ap split e ∙ split-append f r in
    let (s, ss, e_f) = split-cons f in
    let (t, ts, e_r) = split-cons r in
    let first : 1 ≤ length (split f) = rw e_f (omega arith) in
    let last : length (split p) ≡ length (split f) + suc (length ts) =
      ap length segments
      ∙ length-append (split f) (split r)
      ∙ ap (λ x. length (split f) + length x) e_r in
    let checked =
      joins_checked g (length (split p) - 1) 1 (length (split f)) (split p) h first (omega arith) in
    let same : join (take (length (split f)) (split p)) ≡ f =
      ap (λ x. join (take (length (split f)) x)) segments
      ∙ ap join (take-append (split f) (split r))
      ∙ join-split f in
    subst (λ x. g x ≡ ok tt) same checked

get-append :
    (d : Entries) (p x : SkillPath) (k : SkillPackagePathKind)
    → get (d ++ ((p, k) ∷ [])) x
      ≡ (if is_some (get d x) then get d x else if same_path p x then some k else none)
unfolding get
get-append [] p x k = refl
get-append ((q, l) ∷ rest) p x k = let later = get-append rest p x k in ground arith

not_descendant :
    (d : Entries) (p e : SkillPath) (kind : SkillPackagePathKind)
    → has_descendant d p ≡ false
    → get d e ≡ some kind
    → starts_with e (p ++ (47 ∷ [])) ≡ false
unfolding has_descendant get
not_descendant [] p e kind h found = cc
not_descendant ((q, l) ∷ rest) p e kind h found = elim (Bool-cases (same_path q e)) [
  | inl s ↦
      (let same = same_path→eq q e s in
        subst (λ x. starts_with x (p ++ (47 ∷ [])) ≡ false) same ground arith)
  | inr s ↦ not_descendant rest p e kind ground arith ground arith
]

-- No entry is below that of a file, and each entry is admitted as it is.
pub record IsTree (lower : SkillPath → SkillPath) (entries : Entries) : Type 0 where
  pub childless :
      (f e : SkillPath) (kind : SkillPackagePathKind)
      → get entries f ≡ some file
      → get entries e ≡ some kind
      → starts_with e (f ++ (47 ∷ [])) ≡ false
  pub canonical :
      (e : SkillPath) (kind : SkillPackagePathKind)
      → get entries e ≡ some kind
      → admit_skill_package_path lower e kind ≡ ok (record { entry_kind = kind; path = e })

-- the paths that were handed to `admit`, with their kinds; one that is refused changes nothing
abbrev pub admit_one :
    (SkillPath → SkillPath) → Entries → SkillPath × SkillPackagePathKind → Entries
unfolding admit
admit_one lower d (path, kind) = elim (admit lower d path kind) [ ok (e, a) ↦ e | err x ↦ d ]

unfoldable pub admit_all :
    (SkillPath → SkillPath) → Entries → List (SkillPath × SkillPackagePathKind) → Entries
unfolding admit
admit_all lower d [] = d
admit_all lower d (p ∷ ps) = admit_all lower (admit_one lower d p) ps

module _ (lower : SkillPath → SkillPath) where
  -- an entry of the grown map is an old one or the new one
  entry-cases :
      (d : Entries) (p x : SkillPath) (k l : SkillPackagePathKind)
      → get (d ++ ((p, k) ∷ [])) x ≡ some l
      → (get d x ≡ some l) ⊎ ((p ≡ x) × (k ≡ l))
  entry-cases d p x k l h =
      let g = get-append d p x k in let same = same_path→eq p x in ground arith

  no_file_above :
      (d : Entries) (p f : SkillPath)
      → for_each
          (λ ancestor. guard (not (is_file? (get d ancestor))) file_with_children)
          (read_ancestor_paths p)
        ≡ ok tt
      → get d f ≡ some file
      → starts_with p (f ++ (47 ∷ [])) ≡ false
  no_file_above d p f h is_f = elim (Bool-cases (starts_with p (f ++ (47 ∷ [])))) [
    | inl below ↦
        (let checked =
            ancestors_checked
              (λ ancestor. guard (not (is_file? (get d ancestor))) file_with_children) p f h
              below in
          absurd ground arith)
    | inr e ↦ e
  ]

  childless_grown :
      (d : Entries) (p f e : SkillPath) (k kind : SkillPackagePathKind)
      → is_file k && has_descendant d p ≡ false
      → for_each
          (λ ancestor. guard (not (is_file? (get d ancestor))) file_with_children)
          (read_ancestor_paths p)
        ≡ ok tt
      → IsTree lower d
      → (get d f ≡ some file) ⊎ ((p ≡ f) × (k ≡ file))
      → (get d e ≡ some kind) ⊎ ((p ≡ e) × (k ≡ kind))
      → starts_with e (f ++ (47 ∷ [])) ≡ false
  childless_grown d p f e k kind alone h v (inl is_f) (inl is_e) = v.childless f e kind is_f is_e
  childless_grown d p f e k kind alone h v (inl is_f) (inr (same, l)) =
      subst (λ x. starts_with x (f ++ (47 ∷ [])) ≡ false) same (no_file_above d p f h is_f)
  childless_grown d p f e k kind alone h v (inr (same, l)) (inl is_e) =
      subst (λ x. starts_with e (x ++ (47 ∷ [])) ≡ false) same
        (not_descendant d p e kind (cc (alone, ap is_file l)) is_e)
  childless_grown d p f e k kind alone h v (inr (same, l)) (inr (same_e, l_e)) =
      subst (λ x. starts_with x (f ++ (47 ∷ [])) ≡ false) same_e
        (subst (λ x. starts_with p (x ++ (47 ∷ [])) ≡ false) same (not_below_self p))

  grown-IsTree :
      (d : Entries) (a : AdmittedSkillPackagePath)
      → reject_duplicate_or_collision d a.path a.entry_kind ≡ ok tt
      → admit_skill_package_path lower a.path a.entry_kind ≡ ok a
      → IsTree lower d
      → IsTree lower (d ++ ((a.path, a.entry_kind) ∷ []))
  unfolding reject_duplicate_or_collision
  grown-IsTree d a h again v =
      let (fresh, h1) = guard-eq-ok (not (is_some (get d a.path))) duplicate_path _ h in
      let (alone, h2) =
        guard-eq-ok (not (is_file a.entry_kind && has_descendant d a.path)) file_with_children _
          h1 in
      record {
        childless = λ f e kind is_f is_e.
            childless_grown d a.path f e a.entry_kind kind ground arith h2 v
              (entry-cases d a.path f a.entry_kind file is_f)
              (entry-cases d a.path e a.entry_kind kind is_e);
        canonical = λ e kind is_e. elim (entry-cases d a.path e a.entry_kind kind is_e) [
          | inl old ↦ v.canonical e kind old
          | inr (same, l) ↦
              subst
                (λ x.
                  admit_skill_package_path lower x kind
                  ≡ ok (record { entry_kind = kind; path = x }))
                same
                (subst
                  (λ x.
                    admit_skill_package_path lower a.path x
                    ≡ ok (record { entry_kind = x; path = a.path }))
                  l again)
        ];
      }

  admit_one-IsTree :
      (d : Entries) (p : SkillPath × SkillPackagePathKind)
      → IsTree lower d
      → IsTree lower (admit_one lower d p)
  unfolding admit
  admit_one-IsTree d (path, kind) v = by_result (admit lower d path kind) refl
    where
      by_result :
          (r : Result SkillPackageError (Entries × AdmittedSkillPackagePath))
          → admit lower d path kind ≡ r
          → IsTree lower (elim r [ ok (e, a) ↦ e | err x ↦ d ])
      by_result (err x) h = v
      by_result (ok (e, a)) h =
          let (b, is_b, h1) = >>=-eq-ok (admit_skill_package_path lower path kind) _ h in
          let (u, checked, h2) =
            >>=-eq-ok (reject_duplicate_or_collision d b.path b.entry_kind) _ h1 in
          let grown : d ++ ((b.path, b.entry_kind) ∷ []) ≡ e = cc in
          subst (IsTree lower) grown
            (grown-IsTree d b checked (admitted_again lower path kind b is_b) v)

  admit_all-IsTree :
      (d : Entries) (ps : List (SkillPath × SkillPackagePathKind))
      → IsTree lower d
      → IsTree lower (admit_all lower d ps)
  unfolding admit_all
  admit_all-IsTree d [] v = v
  admit_all-IsTree d (p ∷ ps) v = admit_all-IsTree (admit_one lower d p) ps (admit_one-IsTree d p v)

-- Whatever paths are handed to a new admission, in any order, those that it admits form a tree: none
-- is below one that is admitted as a file, and each would be admitted as it is on its own.
pub admitted-IsTree :
    (lower : SkillPath → SkillPath) (ps : List (SkillPath × SkillPackagePathKind))
    → IsTree lower (admit_all lower [] ps)
unfolding get
admitted-IsTree lower ps =
    admit_all-IsTree lower [] ps
      (record { childless = λ f e kind h k. cc; canonical = λ e kind h. cc })
