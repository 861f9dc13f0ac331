-- ===== src/Deployer/Distinct.antt =====
-- Directories of different certificates (acme_api/deployer.py).
use acme_api.Common.{
  String, none, ◌≡◌, ◌⊎◌, refl, sym, ap, ◌∙◌, Bool, true, false, arith, Option-cases, inl, inr,
  if◌then◌else◌,
}
use acme_api.Common.Text.{after_prefix, starts_with}
use acme_api.Common.TextLaws.{after_prefix-append, append-after_prefix}
use acme_api.Models.World.{ok, err, Failure}
use acme_api.Deployer.Names.{is_unsafe, directory_of_safe, deployment_directory_name}
use Prim.Native.String.{◌++◌}
use text.Mathlib.TextLemmas.{append_cancel_left}

-- The name as it is, or the name of a wildcard.
safe_name :
    (s : String)
    → ((after_prefix "*." s ≡ none) × (directory_of_safe s ≡ s))
      ⊎ ((rest : String) × (s ≡ "*." ++ rest) × (directory_of_safe s ≡ "@wildcard@." ++ rest))
safe_name s = elim (Option-cases (after_prefix "*." s)) [
  | inl e ↦ inl (e, rw (directory_of_safe, e) refl)
  | inr (rest, e) ↦ inr (rest, append-after_prefix "*." s rest e, rw (directory_of_safe, e) refl)
]

marked : (rest : String) → starts_with ("@wildcard@." ++ rest) "@wildcard@." ≡ true
marked rest = rw (starts_with, after_prefix-append "@wildcard@." rest) refl

directory_of_safe_injective :
    (s t : String)
    → starts_with s "@wildcard@." ≡ false
    → starts_with t "@wildcard@." ≡ false
    → directory_of_safe s ≡ directory_of_safe t
    → s ≡ t
directory_of_safe_injective s t hs ht e = by_case (safe_name s) (safe_name t)
  where
    clash :
        (u rest : String) → starts_with u "@wildcard@." ≡ false → u ≡ "@wildcard@." ++ rest → s ≡ t
    clash u rest h p =
        let m : starts_with u "@wildcard@." ≡ true = rw p (marked rest) in ground arith

    by_case :
        ((after_prefix "*." s ≡ none) × (directory_of_safe s ≡ s))
          ⊎ ((r : String) × (s ≡ "*." ++ r) × (directory_of_safe s ≡ "@wildcard@." ++ r))
        → ((after_prefix "*." t ≡ none) × (directory_of_safe t ≡ t))
          ⊎ ((r : String) × (t ≡ "*." ++ r) × (directory_of_safe t ≡ "@wildcard@." ++ r))
        → s ≡ t
    by_case (inl (_, p)) (inl (_, q)) = sym p ∙ e ∙ q
    by_case (inl (_, p)) (inr (r, _, q)) = clash s r hs (sym p ∙ e ∙ q)
    by_case (inr (r, _, p)) (inl (_, q)) = clash t r ht (sym q ∙ sym e ∙ p)
    by_case (inr (r, p', p)) (inr (u, q', q)) =
        p' ∙ ap (λ x. "*." ++ x) (append_cancel_left "@wildcard@." r u (sym p ∙ e ∙ q)) ∙ sym q'

accepted :
    (b : Bool) (m : Failure) (x d : String)
    → (if b then err m else ok x) ≡ ok d
    → (b ≡ false) × (x ≡ d)
accepted true m x d h = ground arith
accepted false m x d h = (refl, cc)

deployed_name :
    (repr : String → String) (s d : String)
    → deployment_directory_name repr s ≡ ok d
    → (is_unsafe s ≡ false) × (directory_of_safe s ≡ d)
unfolding deployment_directory_name
deployed_name repr s d h = accepted (is_unsafe s) _ _ d h

-- Two names that the deployer accepts and that do not begin with its own mark for wildcards, as no
-- DNS name does, have the same directory only if they are the same name.
pub directory_name_injective :
    (repr : String → String) (s t d : String)
    → starts_with s "@wildcard@." ≡ false
    → starts_with t "@wildcard@." ≡ false
    → deployment_directory_name repr s ≡ ok d
    → deployment_directory_name repr t ≡ ok d
    → s ≡ t
directory_name_injective repr s t d hs ht es et =
    let (_, p) = deployed_name repr s d es in
    let (_, q) = deployed_name repr t d et in directory_of_safe_injective s t hs ht (p ∙ sym q)
