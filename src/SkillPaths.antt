-- ===== src/SkillPaths.antt =====
-- The paths of a skill package (src/skill-package/path-admission.ts). A path is the list of its UTF-16
-- code units. `toLowerCase` is the host's, a parameter.
pub mod Segments
pub mod Canonical
pub mod Tree
mod Examples
use Prim.Native.Char.{code}
use mosoo_agent_driver.Base.{
  ℕ, zero, suc, ◌+◌, ◌-◌, String, Bool, true, false, not, ◌&&◌, ◌||◌, Option, none, some, List, [],
  ◌∷◌, ◌++◌, map, any, length, take, leb, ltb, ◌==◌, if◌then◌else◌, is_some, Result, ok, err, guard,
  ◌>>=◌, ◌>>◌, for_each,
}
use mosoo_agent_driver.SkillPaths.Segments.{SkillPath, split, join, normalize, codes}

pub data SkillPackagePathKind : Type 0 where
  directory file : SkillPackagePathKind

pub record AdmittedSkillPackagePath : Type 0 where
  pub entry_kind : SkillPackagePathKind
  pub path : SkillPath

pub data SkillPackageError : Type 0 where
  empty_path invalid_path reserved_key duplicate_path file_with_children : SkillPackageError
  manifest_not_a_file manifest_with_children : SkillPackageError

abbrev pub same_path : SkillPath → SkillPath → Bool
same_path [] [] = true
same_path [] (b ∷ bs) = false
same_path (a ∷ as') [] = false
same_path (a ∷ as') (b ∷ bs) = a == b && same_path as' bs

-- `path.startsWith(prefix)`
abbrev pub starts_with : SkillPath → SkillPath → Bool
starts_with path [] = true
starts_with [] (b ∷ bs) = false
starts_with (a ∷ as') (b ∷ bs) = a == b && starts_with as' bs

-- `path.endsWith(suffix)`
abbrev pub ends_with : SkillPath → SkillPath → Bool
ends_with [] suffix = same_path [] suffix
ends_with (a ∷ as') suffix = same_path (a ∷ as') suffix || ends_with as' suffix

abbrev pub is_file : SkillPackagePathKind → Bool
is_file file = true
is_file directory = false

abbrev pub ends_with_slash : SkillPath → Bool
ends_with_slash [] = false
ends_with_slash (c ∷ []) = c == 47
ends_with_slash (c ∷ d ∷ cs) = ends_with_slash (d ∷ cs)

-- `slice(0, -1)`
abbrev pub without_last : SkillPath → SkillPath
without_last [] = []
without_last (c ∷ []) = []
without_last (c ∷ d ∷ cs) = c ∷ without_last (d ∷ cs)

abbrev pub is_letter : ℕ → Bool
is_letter c = leb 65 c && leb c 90 || leb 97 c && leb c 122

unfoldable pub is_absolute_path : SkillPath → Bool
is_absolute_path [] = false
is_absolute_path (c ∷ []) = c == 47 || c == 92
is_absolute_path (c ∷ d ∷ cs) = c == 47 || c == 92 || is_letter c && d == 58

abbrev pub is_unsafe : ℕ → Bool
is_unsafe c = ltb c 32 || c == 127 || c == 65533

unfoldable pub has_unsafe_path_character : SkillPath → Bool
has_unsafe_path_character path = any is_unsafe path

unfoldable pub infer_skill_package_path_kind : SkillPath → SkillPackagePathKind
infer_skill_package_path_kind path = if ends_with_slash (normalize path) then directory else file

-- what is split
abbrev pub segment_source : SkillPackagePathKind → SkillPath → SkillPath
segment_source file path = path
segment_source directory path = if ends_with_slash path then without_last path else path

unfoldable pub read_path_segments : SkillPackagePathKind → SkillPath → List SkillPath
read_path_segments kind path = split (segment_source kind (normalize path))

abbrev reserved_path_keys : List String
reserved_path_keys =
    "__proto__" ∷ "constructor" ∷ "credential" ∷ "credentials" ∷ "private" ∷ "prototype"
    ∷ "provenance" ∷ "runtime-state" ∷ "secret" ∷ "secrets" ∷ "session" ∷ "sessions" ∷ "token"
    ∷ "tokens" ∷ "vault" ∷ []

-- `_` becomes `-`
abbrev dashed : ℕ → ℕ
dashed c = if c == 95 then 45 else c

abbrev pub is_dots : SkillPath → Bool
is_dots segment = same_path segment (codes ".") || same_path segment (codes "..")

abbrev pub is_empty : SkillPath → Bool
is_empty [] = true
is_empty (c ∷ cs) = false

module _ (lower : SkillPath → SkillPath) where
  unfoldable pub is_reserved : SkillPath → Bool
  is_reserved segment =
      let normalized = map dashed (lower segment) in
      any (λ key. same_path normalized (codes key)) reserved_path_keys
      || starts_with normalized (codes ".")
      || starts_with normalized (codes ".env")
      || starts_with normalized (codes ".state")
      || ends_with normalized (codes ".key")
      || ends_with normalized (codes ".pem")

  abbrev pub assert_segment : SkillPath → Result SkillPackageError (Unit {0})
  assert_segment segment = do
    guard (not (is_empty segment || is_dots segment)) invalid_path
    guard (not (is_reserved segment)) reserved_key

  -- the kind is inferred by the caller of a path without one; `split` returns at least one segment
  unfoldable pub admit_skill_package_path :
      SkillPath → SkillPackagePathKind → Result SkillPackageError AdmittedSkillPackagePath
  unfolding read_path_segments
  admit_skill_package_path path kind = do
    guard (not (is_empty path)) empty_path
    guard (not (is_absolute_path path || has_unsafe_path_character path)) invalid_path
    for_each assert_segment (read_path_segments kind path)
    ok (record { entry_kind = kind; path = join (read_path_segments kind path) })

-- the map from admitted paths to kinds
abbrev pub Entries : Type 0
Entries = List (SkillPath × SkillPackagePathKind)

unfoldable pub get : Entries → SkillPath → Option SkillPackagePathKind
get [] path = none
get ((p, k) ∷ rest) path = if same_path p path then some k else get rest path

unfoldable pub has_descendant : Entries → SkillPath → Bool
has_descendant entries path =
    any (λ (e : SkillPath × SkillPackagePathKind). starts_with e.0 (path ++ (47 ∷ []))) entries

-- the joins of the first `index`, `index + 1`, … segments, `n` of them
abbrev pub joins : ℕ → ℕ → List SkillPath → List SkillPath
joins zero index segments = []
joins (suc n) index segments = join (take index segments) ∷ joins n (index + 1) segments

unfoldable pub read_ancestor_paths : SkillPath → List SkillPath
read_ancestor_paths path = joins (length (split path) - 1) 1 (split path)

abbrev pub is_file? : Option SkillPackagePathKind → Bool
is_file? none = false
is_file? (some kind) = is_file kind

unfoldable pub reject_duplicate_or_collision :
    Entries → SkillPath → SkillPackagePathKind → Result SkillPackageError (Unit {0})
unfolding get has_descendant read_ancestor_paths
reject_duplicate_or_collision entries path kind = do
  guard (not (is_some (get entries path))) duplicate_path
  guard (not (is_file kind && has_descendant entries path)) file_with_children
  for_each (λ ancestor. guard (not (is_file? (get entries ancestor))) file_with_children)
      (read_ancestor_paths path)

-- `admit` of `createSkillPackagePathAdmission`
unfoldable pub admit :
    (SkillPath → SkillPath)
    → Entries
    → SkillPath
    → SkillPackagePathKind
    → Result SkillPackageError (Entries × AdmittedSkillPackagePath)
unfolding admit_skill_package_path reject_duplicate_or_collision
admit lower entries path kind = do
  admitted ← admit_skill_package_path lower path kind
  reject_duplicate_or_collision entries admitted.path admitted.entry_kind
  ok (entries ++ ((admitted.path, admitted.entry_kind) ∷ []), admitted)

abbrev skill_package_manifest_path : SkillPath
skill_package_manifest_path = codes "SKILL.md"

unfoldable pub reject_unsupported_archive_path :
    AdmittedSkillPackagePath → Result SkillPackageError (Unit {0})
reject_unsupported_archive_path admitted =
    if same_path admitted.path skill_package_manifest_path
    then guard (is_file admitted.entry_kind) manifest_not_a_file
    else guard (not (starts_with admitted.path (skill_package_manifest_path ++ (47 ∷ []))))
        manifest_with_children
