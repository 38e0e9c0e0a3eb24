-- ===== src/SkillPaths/Examples.antt =====
-- Tests of the paths of skill packages (src/skill-package/path-admission.ts), with a `toLowerCase` of
-- ASCII.
use mosoo_agent_driver.Base.{◌+◌, ◌≡◌, refl, ◌&&◌, leb, if◌then◌else◌, List, [], ◌∷◌, map, ok, err}
use mosoo_agent_driver.SkillPaths.Segments.{SkillPath, codes, split, join}
use mosoo_agent_driver.SkillPaths.{
  SkillPackagePathKind, directory, file, AdmittedSkillPackagePath, is_absolute_path,
  has_unsafe_path_character, infer_skill_package_path_kind, read_path_segments, is_reserved,
  admit_skill_package_path, get, has_descendant, read_ancestor_paths, reject_duplicate_or_collision,
  admit, reserved_key, reject_unsupported_archive_path, manifest_with_children,
}
use mosoo_agent_driver.SkillPaths.Canonical.{admitted_again}
use mosoo_agent_driver.SkillPaths.Tree.{IsTree, admit_all, admitted-IsTree}

abbrev lower : SkillPath → SkillPath
lower path = map (λ c. if leb 65 c && leb c 90 then c + 32 else c) path

abbrev admitted_docs : AdmittedSkillPackagePath
admitted_docs = record { entry_kind = directory; path = codes "docs/api" }

docs_admitted : admit_skill_package_path lower (codes "docs\\api/") directory ≡ ok admitted_docs
unfolding admit_skill_package_path is_absolute_path has_unsafe_path_character read_path_segments
    is_reserved split join
docs_admitted = refl

-- a reserved name in capitals
secrets_refused : admit_skill_package_path lower (codes "docs/Secrets") file ≡ err reserved_key
unfolding admit_skill_package_path is_absolute_path has_unsafe_path_character read_path_segments
    is_reserved split join
secrets_refused = refl

inferred : infer_skill_package_path_kind (codes "docs\\") ≡ directory
unfolding infer_skill_package_path_kind
inferred = refl

manifest_child :
    reject_unsupported_archive_path (record { entry_kind = file; path = codes "SKILL.md/x" })
    ≡ err manifest_with_children
unfolding reject_unsupported_archive_path
manifest_child = refl

admitted_again_example :
    admit_skill_package_path lower (codes "docs/api") directory ≡ ok admitted_docs
admitted_again_example =
    admitted_again lower (codes "docs\\api/") directory admitted_docs docs_admitted

abbrev paths : List (SkillPath × SkillPackagePathKind)
paths =
    (codes "docs/a", file)
    ∷ (codes "docs", file)
    ∷ (codes "docs/a/b", file)
    ∷ (codes "docs/", directory)
    ∷ []

-- the file above another and the one below it are refused
paths_admitted : admit_all lower [] paths ≡ (codes "docs/a", file) ∷ (codes "docs", directory) ∷ []
unfolding admit_skill_package_path is_absolute_path has_unsafe_path_character read_path_segments
    is_reserved split join get has_descendant read_ancestor_paths reject_duplicate_or_collision
    admit admit_all
paths_admitted = refl

admitted-IsTree_example : IsTree lower (admit_all lower [] paths)
admitted-IsTree_example = admitted-IsTree lower paths
