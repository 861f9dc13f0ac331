-- ===== src/Deployer/Cleaning.antt =====
-- What the retention of acme_api/deployer.py keeps on the disk, whichever of its calls fail.
use acme_api.Common.{
  ℕ, String, Option, some, List, [], ◌∷◌, ◌≡◌, ◌≢◌, refl, ap, ◌∙◌, true, false, ◌||◌, ◌&&◌, not,
  All, Bool-cases, inl, inr, arith, holds_text, contains, is_none, eq_iff,
}
use acme_api.Common.Dict.{lookup}
use acme_api.Common.Text.{has_char}
use acme_api.Common.TextLaws.{has_char-append}
use acme_api.Deployer.Disk.{Tree, Folder, Entry, symlink}
use acme_api.Deployer.Retention.{Generation, is_protected, cleanup_generations}
use acme_api.Deployer.Kept.{IsRemovable, removed-IsRemovable}
use acme_api.Deployer.Removal.{
  current_id, link_component, last_component, pinned_ids, obsolete, chosen, remove_each,
  sync_if_removed, clean_up, too_long, listing,
}
use acme_api.Deployer.Shown.{Shows, rmtree-Shows, fsync-Shows}
use acme_api.Deployer.Triples.{
  Triple, PostTree, Keeps, call_rule, bind_rule, bind-Keeps, pure-Keeps,
}
use Prim.Native.String.{◌++◌}
use text.Mathlib.TextLemmas.{nil-append, cons-append, append_assoc}

-- The generation is the current one or is pinned.
abbrev pub IsProtected : String → Tree → Type 0
IsProtected k t = (holds_text (current_id t) k || contains k (pinned_ids t)) ≡ true

All-weaken {ℓ} :
    {A : Type 0} (P Q : A → Type ℓ) → ((a : A) → P a → Q a) → (xs : List A) → All P xs → All Q xs
All-weaken P Q f [] h = tt
All-weaken P Q f (x ∷ xs) (p, ps) = (f x p, All-weaken P Q f xs ps)

unprotected :
    (count days : Option ℕ) (now : ℕ) (current : Option String) (pinned : List String)
    (gs : List Generation)
    → All
        (λ g. is_protected current pinned g ≡ false)
        (cleanup_generations count days now current pinned gs)
unfolding cleanup_generations
unprotected count days now current pinned gs = elim (Bool-cases (is_none count && is_none days)) [
  | inl h ↦ rw h tt
  | inr h ↦ rw h (
      All-weaken (IsRemovable days now current pinned) _ (λ g p. p.0) _
        (removed-IsRemovable count days now current pinned 0 _))
]

spared :
    (k : String) (t : Tree) (g : Generation)
    → IsProtected k t
    → is_protected (current_id t) (pinned_ids t) g ≡ false
    → g.name ≢ k
spared k t g h r e =
    let same : (holds_text (current_id t) g.name || contains g.name (pinned_ids t)) ≡ true =
      rw e h in
    ground arith

obsolete-spares :
    (count days : Option ℕ) (k : String) (t : Tree)
    → IsProtected k t
    → All (λ g. g.name ≢ k) (obsolete count days t)
unfolding obsolete
obsolete-spares count days k t h =
    All-weaken (λ g. is_protected (current_id t) (pinned_ids t) g ≡ false) _
      (λ g r. spared k t g h r) _
      (unprotected count days t.now (current_id t) (pinned_ids t) (listing t.generations))

module _ (link : Option Entry) (k : String) (v : Option Folder) where
  remove_each-Shows :
      (gs : List Generation) → All (λ g. g.name ≢ k) gs → Keeps (Shows link k v) (remove_each gs)
  unfolding remove_each
  remove_each-Shows [] h = pure-Keeps tt
  remove_each-Shows (g ∷ gs) (ne, rest) =
      bind-Keeps _ _ (rmtree-Shows g.name ne) λ _. remove_each-Shows gs rest

  Chosen : List Generation → Tree → Type 0
  Chosen gs t = Shows link k v t × All (λ g. g.name ≢ k) gs

  chosen-spares :
      (count days : Option ℕ) (t : Tree)
      → Shows link k v t
      → IsProtected k t
      → PostTree Chosen (Shows link k v) (chosen count days t)
  unfolding chosen Chosen
  chosen-spares count days t p h =
      elim (Bool-cases ((is_none count && is_none days) || not t.has_generations)) [
        | inl q ↦ rw q (p, tt)
        | inr q ↦ elim (Bool-cases (too_long days t.now)) [
          | inl r ↦ rw (q, r) p
          | inr r ↦ rw (q, r) (p, obsolete-spares count days k t h)
        ]
      ]

  sync_if_removed-Shows : (gs : List Generation) → Keeps (Shows link k v) (sync_if_removed gs)
  unfolding sync_if_removed
  sync_if_removed-Shows [] = pure-Keeps tt
  sync_if_removed-Shows (_ ∷ _) = fsync-Shows

  -- The cleanup, complete or not, leaves `current` and a protected generation as they are.
  pub clean_up-Shows :
      (count days : Option ℕ)
      → Triple
          (λ t. Shows link k v t × IsProtected k t)
          (clean_up count days)
          (λ _ t. Shows link k v t)
          (Shows link k v)
  unfolding clean_up Chosen
  clean_up-Shows count days =
      bind_rule Chosen _ _
        (call_rule Chosen (Shows link k v) (chosen count days)
          (λ t (p, h). chosen-spares count days t p h) (λ t p. p.0))
        λ removed. record {
          apply = λ d (p, spares).
              (bind-Keeps _ _ (remove_each-Shows removed spares)
                  λ _. bind-Keeps _ _ (sync_if_removed-Shows removed) λ _. pure-Keeps removed).apply
                d p;
        }

-- A name without "/" is its own last component.
last_component-flat : (s : String) → has_char 47 s ≡ false → last_component s ≡ s
unfolding last_component
last_component-flat String.[] h = refl
last_component-flat (String.◌∷◌ c cs) h = rw h refl

-- The last component of a path is what follows its last "/".
last_component-append :
    (p s : String) → has_char 47 s ≡ false → last_component (p ++ ("/" ++ s)) ≡ s
unfolding last_component
last_component-append String.[] s h =
    rw (nil-append ("/" ++ s), cons-append "/" "" s, nil-append s) (last_component-flat s h)
last_component-append (String.◌∷◌ c cs) s h =
    let rest : has_char 47 (cs ++ ("/" ++ s)) ≡ true =
      rw (has_char-append 47 cs ("/" ++ s), has_char-append 47 "/" s) (ground arith) in
    let e : has_char 47 (String.◌∷◌ c (cs ++ ("/" ++ s))) ≡ true = ground arith in
    rw (cons-append c cs ("/" ++ s), e) (last_component-append cs s h)

-- The generation that `current` points to is protected.
pub current-IsProtected :
    (id : String) (t : Tree)
    → has_char 47 id ≡ false
    → lookup "current" t.entries ≡ some (symlink ("generations/" ++ id))
    → IsProtected id t
unfolding current_id link_component
current-IsProtected id t flat e =
    let last : last_component ("generations/" ++ id) ≡ id =
      ap last_component (append_assoc "generations" "/" id)
      ∙ last_component-append "generations" id flat in
    rw (e, last, (eq_iff id id).1 refl) refl
