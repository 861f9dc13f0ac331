-- ===== src/Deployer/Sources.antt =====
-- `_validate_source_files` of acme_api/deployer.py: which source files may be deployed.
use acme_api.Common.{
  String, Option, none, some, List, [], ◌∷◌, Bool, true, false, not, any, ◌||◌, not_empty,
  if◌then◌else◌, str_eq,
}
use acme_api.Common.Dict.{Dict}
use acme_api.Common.Text.{starts_with}
use acme_api.Models.World.{Result, ok, err, deployment}
use acme_api.Deployer.Artifacts.{Outside}
use Prim.Native.String.{◌++◌}

-- `Path.is_relative_to`, of absolute paths without links.
abbrev pub is_relative_to : String → String → Bool
is_relative_to path root =
    str_eq path root || starts_with path (if str_eq root "/" then "/" else root ++ "/")

-- `", ".join(...)`
abbrev pub joined : List String → String
joined [] = ""
joined (x ∷ []) = x
joined (x ∷ y ∷ rest) = x ++ ", " ++ joined (y ∷ rest)

abbrev pub labelled : String → String → String
labelled name path = name ++ ": " ++ path

abbrev pub cons_if : Bool → String → List String → List String
cons_if true x xs = x ∷ xs
cons_if false x xs = xs

abbrev pub roots_of : Option (List String) → List String
roots_of none = []
roots_of (some roots) = roots

abbrev pub report : String → Option String → List String → List String
report label none rest = rest
report label (some reason) rest = (label ++ reason) ∷ rest

module _ (out : Outside) where
  abbrev pub missing_sources : Dict String → List String
  missing_sources [] = []
  missing_sources ((name, path) ∷ rest) =
      cons_if (not (out.source path).is_file) (labelled name path) (missing_sources rest)

  abbrev pub is_within : List String → String → Bool
  is_within roots path =
      any (λ root. is_relative_to (out.source path).resolved (out.resolve root)) roots

  -- What is wrong with a source file, if anything.
  abbrev pub defect : List String → String → Option String
  defect roots path =
      if (out.source path).is_symlink
      then some " (symlinks are not allowed)"
      else if not (out.source path).is_regular
      then some " (not a regular file)"
      else if not_empty roots
      then if is_within roots path then none else some " (outside allowed source roots)"
      else none

  abbrev pub unsafe_sources : List String → Dict String → List String
  unsafe_sources roots [] = []
  unsafe_sources roots ((name, path) ∷ rest) =
      report (labelled name path) (defect roots path) (unsafe_sources roots rest)

  unfoldable pub validate_source_files : Dict String → Option (List String) → Result (Unit {0})
  validate_source_files sources allowed =
      let missing = missing_sources sources in
      let unsafe = unsafe_sources (roots_of allowed) sources in
      if not_empty missing
      then err (deployment ("missing certificate source artifact(s): " ++ joined missing))
      else if not_empty unsafe
      then err (deployment ("unsafe certificate source artifact(s): " ++ joined unsafe))
      else ok tt
