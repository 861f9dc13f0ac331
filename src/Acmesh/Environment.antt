-- ===== src/Acmesh/Environment.antt =====
-- The environment of acme.sh: `_load_env_vars` of acme_api/backend/acmesh_backend.py, and the
-- variables that `_run` adds.
use acme_api.Common.{
  ℕ, String, Option, none, some, List, [], ◌∷◌, Bool, true, false, not, ◌&&◌, ◌||◌, ◌==◌, leb,
  str_eq, contains, if◌then◌else◌,
}
use acme_api.Common.Dict.{Dict, insert}
use acme_api.Common.Text.{remove_prefix, starts_with, strip}
use Prim.Native.Char.{Char, code}

-- Where `str.splitlines` ends a line.
abbrev is_line_break : ℕ → Bool
is_line_break n =
    (leb 10 n && leb n 13) || (leb 28 n && leb n 30) || n == 133 || n == 8232 || n == 8233

abbrev begin_with : Char → List String → List String
begin_with c [] = String.◌∷◌ c "" ∷ []
begin_with c (line ∷ lines) = String.◌∷◌ c line ∷ lines

-- `text.splitlines()`, where "\r\n" ends one line.
abbrev pub split_lines : String → List String
split_lines String.[] = []
split_lines (String.◌∷◌ c cs) =
    let rest = split_lines cs in
    if not (is_line_break (code c))
    then begin_with c rest
    else if code c == 13 && starts_with cs "\n"
    then rest
    else "" ∷ rest

abbrev extend : Char → Option (String × String) → Option (String × String)
extend c none = none
extend c (some (k, v)) = some (String.◌∷◌ c k, v)

-- `line.partition("=")`, with `none` where there is no separator.
abbrev pub partition : String → Option (String × String)
partition String.[] = none
partition (String.◌∷◌ c cs) =
    let rest = partition cs in if code c == 61 then some ("", cs) else extend c rest

abbrev is_capital : ℕ → Bool
is_capital n = leb 65 n && leb n 90

abbrev is_small : ℕ → Bool
is_small n = leb 97 n && leb n 122

abbrev is_name_start : ℕ → Bool
is_name_start n = is_capital n || is_small n || n == 95

abbrev is_name_rest : String → Bool
is_name_rest String.[] = true
is_name_rest (String.◌∷◌ c cs) =
    (is_name_start (code c) || (leb 48 (code c) && leb (code c) 57)) && is_name_rest cs

-- `_ENV_KEY_PATTERN.fullmatch`
abbrev pub is_env_key : String → Bool
is_env_key String.[] = false
is_env_key (String.◌∷◌ c cs) = is_name_start (code c) && is_name_rest cs

abbrev small_letters : String
small_letters = "abcdefghijklmnopqrstuvwxyz"

abbrev capital_letters : String
capital_letters = "ABCDEFGHIJKLMNOPQRSTUVWXYZ"

abbrev translate : Char → String → String → Char
translate c (String.◌∷◌ l ls) (String.◌∷◌ u us) =
    let rest = translate c ls us in if code c == code l then u else rest
translate c _ _ = c

-- `key.upper()`, on the ASCII letters that a key may have.
abbrev pub upper : String → String
upper String.[] = ""
upper (String.◌∷◌ c cs) = String.◌∷◌ (translate c small_letters capital_letters) (upper cs)

abbrev pub blocked_env_keys : List String
blocked_env_keys =
    "PATH" ∷ "HOME" ∷ "LD_PRELOAD" ∷ "LD_LIBRARY_PATH" ∷ "PYTHONPATH" ∷ "PYTHONHOME" ∷ "VIRTUAL_ENV"
    ∷ "IFS" ∷ "ENV" ∷ "BASH_ENV" ∷ "SHELL" ∷ []

-- A name that the program may get from the file.
unfoldable pub is_allowed : String → Bool
is_allowed key = is_env_key key && not (contains (upper key) blocked_env_keys)

-- `first_word` is `shlex.split(value)[0]`; `none` is its error for a value with an open quote.
module _ (first_word : String → Option String) where
  abbrev pub value_of : String → Option String
  value_of v = if str_eq v "" then some "" else first_word v

  abbrev pub set_value : String → Option String → Dict String → Option (Dict String)
  set_value key none env = none
  set_value key (some v) env = some (insert key v env)

  abbrev pub assign : Option (String × String) → Dict String → Option (Dict String)
  assign none env = some env
  assign (some (k, v)) env =
      if is_allowed (strip k) then set_value (strip k) (value_of (strip v)) env else some env

  abbrev pub read_line : String → Dict String → Option (Dict String)
  read_line line env =
      if str_eq line "" || starts_with line "#"
      then some env
      else assign (partition (remove_prefix line "export ")) env

  abbrev pub read_lines : List String → Option (Dict String) → Option (Dict String)
  read_lines lines none = none
  read_lines [] (some env) = some env
  read_lines (raw ∷ lines) (some env) = read_lines lines (read_line (strip raw) env)

  -- `none` as the content is a file that does not exist.
  unfoldable pub load_env_vars : Option String → Option (Dict String)
  unfolding is_allowed
  load_env_vars none = some []
  load_env_vars (some content) = read_lines (split_lines content) (some [])

-- `{**base, **env}`
abbrev pub merge_env : Dict String → Dict String → Dict String
merge_env base [] = base
merge_env base ((k, v) ∷ env) = merge_env (insert k v base) env

abbrev with_log : Option String → Dict String → Dict String
with_log none env = env
with_log (some log) env = insert "LOG_FILE" log env

-- The environment of the process, from that of the server and the credentials of a provider.
unfoldable pub run_environment : Dict String → Dict String → Option String → Dict String
run_environment base env log = with_log log (merge_env base env)
