-- ===== src/Acmesh/Exits.antt =====
-- `_classify_exit` of acme_api/backend/acmesh_backend.py: the meaning of an exit of acme.sh,
-- without the texts of the errors. Lower case is taken on ASCII letters, the only ones in the
-- tokens.
use acme_api.Common.{
  ℕ, ◌+◌, String, List, [], ◌∷◌, Bool, true, false, ◌&&◌, ◌||◌, leb, ◌==◌, if◌then◌else◌,
}
use Prim.Native.Char.{code}
use Prim.Native.String.{◌++◌}

abbrev lower_code : ℕ → ℕ
lower_code n = if leb 65 n && leb n 90 then n + 32 else n

-- Whether the text in lower case begins with the token.
abbrev begins_with : String → String → Bool
begins_with String.[] s = true
begins_with (String.◌∷◌ t ts) String.[] = false
begins_with (String.◌∷◌ t ts) (String.◌∷◌ c cs) = code t == lower_code (code c) && begins_with ts cs

-- `token in text.lower()`
abbrev pub has_token : String → String → Bool
has_token String.[] token = begins_with token ""
has_token (String.◌∷◌ c cs) token = begins_with token (String.◌∷◌ c cs) || has_token cs token

abbrev pub has_any : String → List String → Bool
has_any s [] = false
has_any s (t ∷ ts) = has_token s t || has_any s ts

-- One constructor for each error that is returned.
pub data Exit : Type 0 where
  dns_propagating rate_limited account_invalid misconfigured transient_code failed : Exit

-- Which of the two classes of errors it is.
abbrev pub is_transient : Exit → Bool
is_transient dns_propagating = true
is_transient rate_limited = true
is_transient transient_code = true
is_transient _ = false

abbrev pub dns_tokens : List String
dns_tokens = "dns validation failed" ∷ "txt record not found" ∷ "timeout" ∷ []

abbrev pub rate_tokens : List String
rate_tokens = "rate limit reached" ∷ "429" ∷ "too many requests" ∷ []

abbrev pub account_tokens : List String
account_tokens = "account key invalid" ∷ "server returned 403" ∷ "unauthorized" ∷ []

abbrev pub configuration_tokens : List String
configuration_tokens = "domain not match" ∷ "misconfiguration" ∷ "invalid domain" ∷ []

abbrev pub combined : String → String → String
combined out err = out ++ ("\n" ++ err)

unfoldable pub classify_exit : ℕ → String → String → Exit
classify_exit exit_code out err =
    if has_any (combined out err) dns_tokens
    then dns_propagating
    else if has_any (combined out err) rate_tokens
    then rate_limited
    else if has_any (combined out err) account_tokens
    then account_invalid
    else if has_any (combined out err) configuration_tokens
    then misconfigured
    else if exit_code == 75
    then transient_code
    else failed
