-- ===== src/Deployer/Names.antt =====
-- `deployment_directory_name` of acme_api/deployer.py, and the property `deployment_directory` of
-- acme_api/models/certificate.py.
use acme_api.Common.{String, none, some, List, [], ◌∷◌, Bool, ◌||◌, str_eq, if◌then◌else◌}
use acme_api.Common.Text.{after_prefix, has_char}
use acme_api.Models.World.{Result, ok, err, deployment, index_error}
use Prim.Native.String.{◌++◌}

-- A name that is no single component of a path.
abbrev pub is_unsafe : String → Bool
is_unsafe s = has_char 47 s || has_char 92 s || (str_eq s "" || str_eq s "." || str_eq s "..")

abbrev pub directory_of_safe : String → String
directory_of_safe s = elim (after_prefix "*." s) [ none ↦ s | some rest ↦ "@wildcard@." ++ rest ]

-- `repr` is Python's, for the text of the error.
unfoldable pub deployment_directory_name : (String → String) → String → Result String
deployment_directory_name repr s =
    if is_unsafe s
    then err (deployment ("unsafe primary domain for deployment: " ++ repr s))
    else ok (directory_of_safe s)

-- `deployment_directory`, from the domains of the row, which the schema keeps from being empty.
unfoldable pub directory_of : (String → String) → List String → Result String
unfolding deployment_directory_name
directory_of repr [] = err index_error
directory_of repr (primary ∷ rest) = deployment_directory_name repr primary
