-- ===== src/Deployer/Retention.antt =====
-- `cleanup_generations` of acme_api/deployer.py: which retained generations are removed. The
-- entries of the directory are an argument; instants are nanoseconds.
use acme_api.Common.{
  ℕ, suc, ◌+◌, ◌*◌, String, Option, none, some, List, [], ◌∷◌, Bool, true, false, not, ◌&&◌, ◌||◌,
  ltb, leb, ◌==◌, is_none, holds_text, contains, if◌then◌else◌,
}
use acme_api.Common.Text.{starts_with}
use Prim.Native.String.{compare}
use Prim.Native.Nat.{Ordering}

pub record Generation : Type 0 where
  pub name : String
  pub is_directory : Bool
  pub modified : ℕ

abbrev pub nanoseconds_per_day : ℕ
nanoseconds_per_day = 86400000000000

abbrev pub is_after : String → String → Bool
is_after s t = elim (compare s t) [ Ordering.gt ↦ true | _ ↦ false ]

-- The order of the sort key, the latest first.
abbrev pub is_newer : Generation → Generation → Bool
is_newer a b = ltb b.modified a.modified || (a.modified == b.modified && is_after a.name b.name)

abbrev pub insert : Generation → List Generation → List Generation
insert g [] = g ∷ []
insert g (h ∷ hs) = if is_newer h g then h ∷ insert g hs else g ∷ h ∷ hs

abbrev pub sort_generations : List Generation → List Generation
sort_generations [] = []
sort_generations (g ∷ gs) = insert g (sort_generations gs)

abbrev pub visible_generations : List Generation → List Generation
visible_generations [] = []
visible_generations (g ∷ gs) =
    if g.is_directory && not (starts_with g.name ".")
    then g ∷ visible_generations gs
    else visible_generations gs

-- Retention by count, at a place in the order.
abbrev pub exceeds_count : Option ℕ → ℕ → Bool
exceeds_count none index = true
exceeds_count (some count) index = leb count index

-- Retention by age: older than the cutoff.
abbrev pub exceeds_age : Option ℕ → ℕ → Generation → Bool
exceeds_age none now g = true
exceeds_age (some days) now g = ltb (g.modified + days * nanoseconds_per_day) now

-- The current generation and the pinned ones.
abbrev pub is_protected : Option String → List String → Generation → Bool
is_protected current pinned g = holds_text current g.name || contains g.name pinned

module _ (count days : Option ℕ) (now : ℕ) (current : Option String) (pinned : List String) where
  abbrev pub removable : ℕ → Generation → Bool
  removable index g =
      not (is_protected current pinned g) && (exceeds_count count index && exceeds_age days now g)

  -- The loop, from a place in the order on.
  abbrev pub remove_from : ℕ → List Generation → List Generation
  remove_from index [] = []
  remove_from index (g ∷ gs) =
      let rest = remove_from (suc index) gs in if removable index g then g ∷ rest else rest

  -- The generations that `cleanup_generations` removes.
  unfoldable pub cleanup_generations : List Generation → List Generation
  cleanup_generations entries =
      if is_none count && is_none days
      then []
      else remove_from 0 (sort_generations (visible_generations entries))
