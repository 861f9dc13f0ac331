-- ===== src/Common/Text.antt =====
-- The methods of Python's `str` that the program uses, on native texts.
use Prim.Native.Nat.{ℕ}
use Prim.Native.Char.{Char, code}
use Prim.Native.String.{String}
use mathlib.Core.Bool.{Bool, true, false, ◌||◌, ◌&&◌}
use mathlib.Core.Option.{Option, none, some}
use acme_api.Common.Tests.{◌==◌, str_eq, leb, if◌then◌else◌}

-- What follows the prefix, if the text starts with it.
abbrev pub after_prefix : String → String → Option String
after_prefix String.[] s = some s
after_prefix (String.◌∷◌ p ps) String.[] = none
after_prefix (String.◌∷◌ p ps) (String.◌∷◌ c cs) = elim (code p == code c) [
  | true ↦ after_prefix ps cs
  | false ↦ none
]

-- `s.startswith(p)`
abbrev pub starts_with : String → String → Bool
starts_with s p = elim (after_prefix p s) [ none ↦ false | some _ ↦ true ]

-- `s.removeprefix(p)`
abbrev pub remove_prefix : String → String → String
remove_prefix s p = elim (after_prefix p s) [ none ↦ s | some rest ↦ rest ]

-- `s.endswith(t)`
abbrev pub ends_with : String → String → Bool
ends_with String.[] t = str_eq "" t
ends_with (String.◌∷◌ c cs) t = str_eq (String.◌∷◌ c cs) t || ends_with cs t

-- `c in s`, for a character given by its code.
abbrev pub has_char : ℕ → String → Bool
has_char n String.[] = false
has_char n (String.◌∷◌ c cs) = code c == n || has_char n cs

-- `str.isspace` on a character.
abbrev pub is_space : ℕ → Bool
is_space n =
    (leb 9 n && leb n 13)
    || (leb 28 n && leb n 32)
    || (n == 133 || n == 160 || n == 5760)
    || (leb 8192 n && leb n 8202)
    || (n == 8232 || n == 8233 || n == 8239 || n == 8287 || n == 12288)

abbrev pub lstrip : String → String
lstrip String.[] = ""
lstrip (String.◌∷◌ c cs) =
    let rest = lstrip cs in if is_space (code c) then rest else String.◌∷◌ c cs

abbrev strip_end : Char → String → String
strip_end c rest = if is_space (code c) && str_eq rest "" then "" else String.◌∷◌ c rest

abbrev pub rstrip : String → String
rstrip String.[] = ""
rstrip (String.◌∷◌ c cs) = strip_end c (rstrip cs)

-- `s.strip()`
abbrev pub strip : String → String
strip s = rstrip (lstrip s)
