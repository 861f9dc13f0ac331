-- ===== src/Acmesh/Retryable.antt =====
-- Which exits of acme.sh are retried (acme_api/backend/acmesh_backend.py).
use acme_api.Common.{ℕ, String, ◌≡◌, Bool, ◌&&◌, ◌||◌, not, ◌==◌, arith, if◌then◌else◌}
use acme_api.Acmesh.Exits.{
  is_transient, dns_propagating, rate_limited, account_invalid, misconfigured, transient_code,
  failed, has_any, dns_tokens, rate_tokens, account_tokens, configuration_tokens, combined,
  classify_exit,
}

chosen :
    (dns rate account configuration code : Bool)
    → is_transient (
        if dns
        then dns_propagating
        else if rate
        then rate_limited
        else if account
        then account_invalid
        else if configuration
        then misconfigured
        else if code
        then transient_code
        else failed)
      ≡ (dns || rate || (not (account || configuration) && code))
chosen dns rate account configuration code = ground arith

-- An exit is retried exactly if its output has a token of DNS propagation or of rate limits, or if
-- it has no token of a terminal error and the exit code is 75.
transient_exit_iff :
    (exit_code : ℕ) (out err : String)
    → is_transient (classify_exit exit_code out err) ≡ (
        has_any (combined out err) dns_tokens
        || has_any (combined out err) rate_tokens
        || (not (
              has_any (combined out err) account_tokens
              || has_any (combined out err) configuration_tokens)
            && exit_code == 75))
unfolding classify_exit
transient_exit_iff exit_code out err =
    chosen (has_any (combined out err) dns_tokens) (has_any (combined out err) rate_tokens)
      (has_any (combined out err) account_tokens) (has_any (combined out err) configuration_tokens)
      (exit_code == 75)
