-- ===== src/SkillPaths/Canonical.antt =====
-- An admitted path is canonical (src/skill-package/path-admission.ts).
use mosoo_agent_driver.Base.{
  ◌≡◌, refl, ap, sym, ◌∙◌, subst, Bool, true, false, not, ◌||◌, List, [], ◌∷◌, any, ◌==◌,
  if◌then◌else◌, arith, ok, for_each, >>=-eq-ok, guard-eq-ok,
}
use mosoo_agent_driver.SkillPaths.Segments.{
  SkillPath, slashed, normalize, prepend, split, join, split-cons, join-split,
}
use mosoo_agent_driver.SkillPaths.{
  SkillPackagePathKind, directory, file, AdmittedSkillPackagePath, empty_path, invalid_path,
  ends_with_slash, without_last, is_absolute_path, is_unsafe, has_unsafe_path_character,
  segment_source, read_path_segments, is_empty, assert_segment, admit_skill_package_path,
}

normalize_idem : (q : SkillPath) → normalize (normalize q) ≡ normalize q
normalize_idem [] = refl
normalize_idem (c ∷ cs) = let later = normalize_idem cs in ground arith

normalize-without_last : (q : SkillPath) → normalize (without_last q) ≡ without_last (normalize q)
normalize-without_last [] = refl
normalize-without_last (c ∷ []) = refl
normalize-without_last (c ∷ d ∷ cs) = ap (λ r. slashed c ∷ r) (normalize-without_last (d ∷ cs))

absolute-normalize : (q : SkillPath) → is_absolute_path (normalize q) ≡ is_absolute_path q
unfolding is_absolute_path
absolute-normalize [] = refl
absolute-normalize (c ∷ []) = ground arith
absolute-normalize (c ∷ d ∷ cs) = ground arith

unsafe-normalize : (q : SkillPath) → any is_unsafe (normalize q) ≡ any is_unsafe q
unsafe-normalize [] = refl
unsafe-normalize (c ∷ cs) = let later = unsafe-normalize cs in ground arith

absolute-without_last :
    (p : SkillPath) → is_absolute_path p ≡ false → is_absolute_path (without_last p) ≡ false
unfolding is_absolute_path
absolute-without_last [] h = refl
absolute-without_last (c ∷ []) h = refl
absolute-without_last (c ∷ d ∷ []) h = ground arith
absolute-without_last (c ∷ d ∷ e ∷ cs) h = h

unsafe-without_last :
    (p : SkillPath) → any is_unsafe p ≡ false → any is_unsafe (without_last p) ≡ false
unsafe-without_last [] h = refl
unsafe-without_last (c ∷ []) h = refl
unsafe-without_last (c ∷ d ∷ cs) h =
    let later : any is_unsafe (d ∷ cs) ≡ false → any is_unsafe (without_last (d ∷ cs)) ≡ false =
      unsafe-without_last (d ∷ cs) in
    ground arith

-- What is split is safe when the path is.
source-cases :
    (p : SkillPath) (kind : SkillPackagePathKind)
    → is_absolute_path p || any is_unsafe p ≡ false
    → (q : SkillPath) × (segment_source kind (normalize p) ≡ normalize q)
      × (is_absolute_path q || any is_unsafe q ≡ false)
source-cases p file h = (p, refl, h)
source-cases p directory h = by_slash (ends_with_slash (normalize p))
  where
    shorter : is_absolute_path (without_last p) || any is_unsafe (without_last p) ≡ false
    shorter = let a = absolute-without_last p in let b = unsafe-without_last p in ground arith

    by_slash :
        (b : Bool)
        → (q : SkillPath) × ((if b then without_last (normalize p) else normalize p) ≡ normalize q)
          × (is_absolute_path q || any is_unsafe q ≡ false)
    by_slash true = (without_last p, sym (normalize-without_last p), shorter)
    by_slash false = (p, refl, h)

-- A slash at the end leaves an empty segment behind the first.
slash-split :
    (p s : SkillPath) (ss : List SkillPath)
    → split p ≡ s ∷ ss
    → ends_with_slash p ≡ true
    → any is_empty ss ≡ true
unfolding split
slash-split [] s ss e h = cc
slash-split (c ∷ []) s ss e h = ground arith
slash-split (c ∷ d ∷ cs) s ss e h =
    let (t, ts, e') = split-cons (d ∷ cs) in
    behind (split (d ∷ cs)) t ts e' (slash-split (d ∷ cs) t ts e' h) e
  where
    next :
        (t : SkillPath) (ts : List SkillPath)
        → (if c == 47 then [] ∷ (t ∷ ts) else (c ∷ t) ∷ ts) ≡ s ∷ ss
        → any is_empty ts ≡ true
        → any is_empty ss ≡ true
    next t ts h later = ground arith

    behind :
        (ys : List SkillPath) (t : SkillPath) (ts : List SkillPath)
        → ys ≡ t ∷ ts
        → any is_empty ts ≡ true
        → (if c == 47 then [] ∷ ys else prepend c ys) ≡ s ∷ ss
        → any is_empty ss ≡ true
    behind ys t ts e later h =
        next t ts (subst (λ x. (if c == 47 then [] ∷ x else prepend c x) ≡ s ∷ ss) e h) later

-- the tests of the segments
nonempty_segments :
    (lower : SkillPath → SkillPath) (ss : List SkillPath)
    → for_each (assert_segment lower) ss ≡ ok tt
    → any is_empty ss ≡ false
nonempty_segments lower [] h = refl
nonempty_segments lower (s ∷ ss) h =
    let (u, first, rest) =
      >>=-eq-ok (assert_segment lower s) (λ _. for_each (assert_segment lower) ss) h in
    let later = nonempty_segments lower ss rest in ground arith

admit_skill_package_path-ok :
    (lower : SkillPath → SkillPath) (path : SkillPath) (kind : SkillPackagePathKind)
    → is_empty path ≡ false
    → is_absolute_path path || any is_unsafe path ≡ false
    → for_each (assert_segment lower) (read_path_segments kind path) ≡ ok tt
    → admit_skill_package_path lower path kind
      ≡ ok (record { entry_kind = kind; path = join (read_path_segments kind path) })
unfolding admit_skill_package_path has_unsafe_path_character
admit_skill_package_path-ok lower path kind nonempty safe segments = cc

-- What an admitted path went through.
pub admitted :
    (lower : SkillPath → SkillPath) (path : SkillPath) (kind : SkillPackagePathKind)
    (a : AdmittedSkillPackagePath)
    → admit_skill_package_path lower path kind ≡ ok a
    → (a ≡ record { entry_kind = kind; path = segment_source kind (normalize path) })
      × (is_absolute_path path || any is_unsafe path ≡ false)
      × (for_each (assert_segment lower) (split (segment_source kind (normalize path))) ≡ ok tt)
unfolding admit_skill_package_path has_unsafe_path_character read_path_segments
admitted lower path kind a h =
    let (e1, h1) = guard-eq-ok (not (is_empty path)) empty_path _ h in
    let (e2, h2) =
      guard-eq-ok (not (is_absolute_path path || any is_unsafe path)) invalid_path _ h1 in
    let (u, e3, h3) =
      >>=-eq-ok (for_each (assert_segment lower) (read_path_segments kind path)) _ h2 in
    let j = join-split (segment_source kind (normalize path)) in
    let out : record {
      entry_kind = kind;
      path = join (split (segment_source kind (normalize path)));
    }
        ≡ a =
      cc in
    (sym out ∙ ap (λ r. record { entry_kind = kind; path = r }) j, ground arith, e3)

nonempty-split : (p : SkillPath) → any is_empty (split p) ≡ false → is_empty p ≡ false
unfolding split
nonempty-split [] h = cc
nonempty-split (c ∷ cs) h = refl

no_slash_at_end : (p : SkillPath) → any is_empty (split p) ≡ false → ends_with_slash p ≡ false
no_slash_at_end p h =
    let (s, ss, e) = split-cons p in let behind = slash-split p s ss e in ground arith

same_source :
    (k : SkillPackagePathKind) (x : SkillPath) → ends_with_slash x ≡ false → segment_source k x ≡ x
same_source file x h = refl
same_source directory x h = ground arith

canonical :
    (lower : SkillPath → SkillPath) (kind : SkillPackagePathKind) (q : SkillPath)
    → is_absolute_path q || any is_unsafe q ≡ false
    → for_each (assert_segment lower) (split (normalize q)) ≡ ok tt
    → admit_skill_package_path lower (normalize q) kind
      ≡ ok (record { entry_kind = kind; path = normalize q })
unfolding read_path_segments
canonical lower kind q safe segments =
    let nonempty = nonempty_segments lower (split (normalize q)) segments in
    let same : segment_source kind (normalize (normalize q)) ≡ normalize q =
      ap (segment_source kind) (normalize_idem q)
      ∙ same_source kind (normalize q) (no_slash_at_end (normalize q) nonempty) in
    admit_skill_package_path-ok lower (normalize q) kind (nonempty-split (normalize q) nonempty)
      (cc (absolute-normalize q, unsafe-normalize q, safe))
      (subst (λ x. for_each (assert_segment lower) (split x) ≡ ok tt) (sym same) segments)
    ∙ ap (λ r. ok (record { entry_kind = kind; path = r }))
        (ap (λ x. join (split x)) same ∙ join-split (normalize q))

-- A path that is admitted is admitted again as it is: the path that the admission returns is admitted
-- with the same kind and returned unchanged, whatever `toLowerCase` does.
pub admitted_again :
    (lower : SkillPath → SkillPath) (path : SkillPath) (kind : SkillPackagePathKind)
    (a : AdmittedSkillPackagePath)
    → admit_skill_package_path lower path kind ≡ ok a
    → admit_skill_package_path lower a.path a.entry_kind ≡ ok a
admitted_again lower path kind a h =
    let (out, safe, segments) = admitted lower path kind a h in
    subst (λ x. admit_skill_package_path lower x.path x.entry_kind ≡ ok x) (sym out)
      (again (source-cases path kind safe) segments)
  where
    again :
        (q : SkillPath) × (segment_source kind (normalize path) ≡ normalize q)
          × (is_absolute_path q || any is_unsafe q ≡ false)
        → for_each (assert_segment lower) (split (segment_source kind (normalize path))) ≡ ok tt
        → admit_skill_package_path lower (segment_source kind (normalize path)) kind
          ≡ ok (record { entry_kind = kind; path = segment_source kind (normalize path) })
    again (q, e, safe) segments =
        subst
          (λ x. admit_skill_package_path lower x kind ≡ ok (record { entry_kind = kind; path = x }))
          (sym e)
          (canonical lower kind q safe
            (subst (λ x. for_each (assert_segment lower) (split x) ≡ ok tt) e segments))
