-- ===== src/Common/TextLaws.antt =====
-- Lemmas on prefixes and characters of texts.
use Prim.Native.Nat.{ℕ}
use Prim.Native.Char.{code}
use Prim.Native.String.{String, ◌++◌}
use mathlib.Core.Path.{◌≡◌, refl, ap, sym, ◌∙◌}
use mathlib.Core.Logic.{inl, inr}
use mathlib.Core.Bool.{◌||◌}
use mathlib.Core.Option.{some, some-injective}
use text.Mathlib.TextLemmas.{nil-append, cons-append}
use text.Mathlib.TextEquality.{Char-path}
use native.Mathlib.Omega.{arith}
use acme_api.Common.Tests.{◌==◌, ==_refl, ==-eq, Bool-cases}
use acme_api.Common.Text.{after_prefix, has_char}

pub after_prefix-append : (p s : String) → after_prefix p (p ++ s) ≡ some s
after_prefix-append String.[] s = rw (nil-append s) refl
after_prefix-append (String.◌∷◌ c cs) s =
    rw (cons-append c cs s, after_prefix, ==_refl (code c)) (after_prefix-append cs s)

pub has_char-append : (n : ℕ) (s t : String) → has_char n (s ++ t) ≡ (has_char n s || has_char n t)
has_char-append n String.[] t = rw (nil-append t) refl
has_char-append n (String.◌∷◌ c cs) t =
    rw (cons-append c cs t, has_char-append n cs t) (ground arith)

pub append-after_prefix : (p s r : String) → after_prefix p s ≡ some r → s ≡ p ++ r
append-after_prefix String.[] s r h = some-injective s r h ∙ sym (nil-append r)
append-after_prefix (String.◌∷◌ c cs) String.[] r h = ground arith
append-after_prefix (String.◌∷◌ c cs) (String.◌∷◌ d ds) r h = elim (Bool-cases (code c == code d)) [
  | inl g ↦
      let e : c ≡ d = Char-path c d (==-eq (code c) (code d) g) in
      let rest : after_prefix cs ds ≡ some r = ground arith in
      rw (cons-append c cs r, e) (ap (String.◌∷◌ d) (append-after_prefix cs ds r rest))
  | inr g ↦ ground arith
]
