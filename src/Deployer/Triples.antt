-- ===== src/Deployer/Triples.antt =====
-- What holds after a run of acme_api/deployer.py, whichever of its calls fail: rules for programs
-- over the disk, so that a proof follows the program.
use acme_api.Common.{String, Option, none, some, List, [], ◌∷◌}
use acme_api.Models.World.{Result, ok, err, os_error, overflow}
use acme_api.Models.World
use acme_api.Deployer.Disk.{
  Disk, Tree, Io, ◌>>=◌, pure, call, finally, rewrap, as_deployment_error, attempt, on_tree,
}
use acme_api.Deployer.Directories.{observe, ignoring}

module _ {A : Type 0} where
  -- `Q` of the result and the tree, or `R` of the tree that an exception leaves.
  abbrev pub Post : (A → Tree → Type 0) → (Tree → Type 0) → Result A × Disk → Type 0
  Post Q R (ok a, d) = Q a d.tree
  Post Q R (err e, d) = R d.tree

  abbrev pub PostTree : (A → Tree → Type 0) → (Tree → Type 0) → Result A × Tree → Type 0
  PostTree Q R (ok a, t) = Q a t
  PostTree Q R (err e, t) = R t

  -- If `P` holds before a run of `m`, then `Q` or `R` holds after it.
  pub record Triple (P : Tree → Type 0) (m : Io A) (Q : A → Tree → Type 0) (R : Tree → Type 0)
      : Type 0 where
    pub apply : (d : Disk) → P d.tree → Post Q R (m d)

  Post-on_tree :
      (Q : A → Tree → Type 0) (R : Tree → Type 0) (fs : List (Option String)) (r : Result A × Tree)
      → PostTree Q R r
      → Post Q R (on_tree fs r)
  Post-on_tree Q R fs (ok a, t) h = h
  Post-on_tree Q R fs (err e, t) h = h

  Post-attempt :
      (Q : A → Tree → Type 0) (R : Tree → Type 0) (f : Tree → Result A × Tree)
      (fs : List (Option String)) (t : Tree)
      → PostTree Q R (f t)
      → R t
      → Post Q R (attempt fs f t)
  Post-attempt Q R f [] t h g = Post-on_tree Q R [] (f t) h
  Post-attempt Q R f (none ∷ fs) t h g = Post-on_tree Q R fs (f t) h
  Post-attempt Q R f (some m ∷ fs) t h g = g

  -- A call keeps `R` if it fails, and does what it does otherwise.
  pub call_rule :
      {P : Tree → Type 0} (Q : A → Tree → Type 0) (R : Tree → Type 0) (f : Tree → Result A × Tree)
      → ((t : Tree) → P t → PostTree Q R (f t))
      → ((t : Tree) → P t → R t)
      → Triple P (call f) Q R
  unfolding call
  call_rule Q R f step keep = record {
    apply = λ d p. Post-attempt Q R f d.faults d.tree (step d.tree p) (keep d.tree p);
  }

  Post-weaken :
      (Q Q' : A → Tree → Type 0) (R R' : Tree → Type 0)
      → ((a : A) (t : Tree) → Q a t → Q' a t)
      → ((t : Tree) → R t → R' t)
      → (r : Result A × Disk) → Post Q R r
      → Post Q' R' r
  Post-weaken Q Q' R R' f g (ok a, d) h = f a d.tree h
  Post-weaken Q Q' R R' f g (err e, d) h = g d.tree h

  pub weaken :
      {P : Tree → Type 0} (Q Q' : A → Tree → Type 0) (R R' : Tree → Type 0) (m : Io A)
      → ((a : A) (t : Tree) → Q a t → Q' a t)
      → ((t : Tree) → R t → R' t)
      → Triple P m Q R
      → Triple P m Q' R'
  weaken Q Q' R R' m f g h = record { apply = λ d p. Post-weaken Q Q' R R' f g (m d) (h.apply d p) }

  Post-finally :
      (Q : A → Tree → Type 0) (R : Tree → Type 0) (c : Io (Unit {0}))
      → ((a : A) (d : Disk) → Q a d.tree → Q a (c d).1.tree)
      → ((d : Disk) → R d.tree → R (c d).1.tree)
      → (r : Result A × Disk) → Post Q R r
      → Post Q R (r.0, (c r.1).1)
  Post-finally Q R c f g (ok a, d) h = f a d h
  Post-finally Q R c f g (err e, d) h = g d h

  pub finally_rule :
      {P : Tree → Type 0} (Q : A → Tree → Type 0) (R : Tree → Type 0) (m : Io A) (c : Io (Unit {0}))
      → ((a : A) (d : Disk) → Q a d.tree → Q a (c d).1.tree)
      → ((d : Disk) → R d.tree → R (c d).1.tree)
      → Triple P m Q R
      → Triple P (finally m c) Q R
  unfolding finally
  finally_rule Q R m c f g h = record { apply = λ d p. Post-finally Q R c f g (m d) (h.apply d p) }

  Post-rewrap :
      (Q : A → Tree → Type 0) (R : Tree → Type 0) (prefix : String) (r : Result A × Disk)
      → Post Q R r
      → Post Q R (as_deployment_error prefix r.0, r.1)
  Post-rewrap Q R prefix (ok a, d) h = h
  Post-rewrap Q R prefix (err (os_error m), d) h = h
  Post-rewrap Q R prefix (err overflow, d) h = h
  Post-rewrap Q R prefix (err (World.lifecycle m), d) h = h
  Post-rewrap Q R prefix (err (World.conflict m), d) h = h
  Post-rewrap Q R prefix (err (World.unavailable m), d) h = h
  Post-rewrap Q R prefix (err (World.not_found m), d) h = h
  Post-rewrap Q R prefix (err (World.not_renewable m), d) h = h
  Post-rewrap Q R prefix (err (World.deployment m), d) h = h
  Post-rewrap Q R prefix (err (World.integrity m), d) h = h
  Post-rewrap Q R prefix (err (World.value_error m), d) h = h
  Post-rewrap Q R prefix (err World.index_error, d) h = h

  pub rewrap_rule :
      {P : Tree → Type 0} (Q : A → Tree → Type 0) (R : Tree → Type 0) (prefix : String) (m : Io A)
      → Triple P m Q R
      → Triple P (rewrap prefix m) Q R
  unfolding rewrap
  rewrap_rule Q R prefix m h = record { apply = λ d p. Post-rewrap Q R prefix (m d) (h.apply d p) }

module _ {A B : Type 0} where
  Post-bind :
      (Q : A → Tree → Type 0) (S : B → Tree → Type 0) (R : Tree → Type 0) (f : A → Io B)
      → ((a : A) → Triple (Q a) (f a) S R)
      → (r : Result A × Disk) → Post Q R r
      → Post S R (elim r.0 [ ok a ↦ f a r.1 | err e ↦ (err e, r.1) ])
  Post-bind Q S R f h (ok a, d) p = (h a).apply d p
  Post-bind Q S R f h (err e, d) p = p

  -- Composition: what the first part ensures is what the second part needs.
  pub bind_rule :
      {P : Tree → Type 0} (Q : A → Tree → Type 0) {S : B → Tree → Type 0} {R : Tree → Type 0}
      (m : Io A) (f : A → Io B)
      → Triple P m Q R
      → ((a : A) → Triple (Q a) (f a) S R)
      → Triple P (m >>= f) S R
  bind_rule Q {S} {R} m f g h = record { apply = λ d p. Post-bind Q S R f h (m d) (g.apply d p) }

-- A program that keeps a property, whatever fails.
abbrev pub Keeps : {A : Type 0} → (Tree → Type 0) → Io A → Type 0
Keeps P m = Triple P m (λ _ t. P t) P

PostTree-kept :
    {A : Type 0} (P : Tree → Type 0) (r : Result A × Tree) → P r.1 → PostTree (λ _ t. P t) P r
PostTree-kept P (ok a, t) p = p
PostTree-kept P (err e, t) p = p

Post-kept :
    {A : Type 0} (P : Tree → Type 0) (r : Result A × Disk) → Post (λ _ t. P t) P r → P r.1.tree
Post-kept P (ok a, d) h = h
Post-kept P (err e, d) h = h

module _ {P : Tree → Type 0} where
  pub call-Keeps :
      {A : Type 0} (f : Tree → Result A × Tree) → ((t : Tree) → P t → P (f t).1) → Keeps P (call f)
  call-Keeps f h = call_rule (λ _ t. P t) P f (λ t p. PostTree-kept P (f t) (h t p)) (λ t p. p)

  pub observe-Keeps : {A : Type 0} (f : Tree → A) → Keeps P (observe f)
  unfolding observe
  observe-Keeps f = record { apply = λ d p. p }

  pub pure-Keeps : {A : Type 0} (a : A) → Keeps P (pure a)
  pure-Keeps a = record { apply = λ d p. p }

  pub bind-Keeps :
      {A B : Type 0} (m : Io A) (f : A → Io B)
      → Keeps P m
      → ((a : A) → Keeps P (f a))
      → Keeps P (m >>= f)
  bind-Keeps m f g h = bind_rule (λ _ t. P t) m f g h

  -- The tree after a program that keeps a property has it.
  pub after_keeps : {A : Type 0} (m : Io A) → Keeps P m → (d : Disk) → P d.tree → P (m d).1.tree
  after_keeps m h d p = Post-kept P (m d) (h.apply d p)

  pub ignoring-Keeps : (m : Io (Unit {0})) → Keeps P m → Keeps P (ignoring m)
  unfolding ignoring
  ignoring-Keeps m h = record { apply = λ d p. after_keeps m h d p }

module _ {A B : Type 0} {P : Tree → Type 0} {Q : B → Tree → Type 0} {R : Tree → Type 0} where
  Post-read :
      (a : A) (f : A → Io B)
      → ((t : Tree) → P t → R t)
      → Triple P (f a) Q R
      → (fs : List (Option String)) (t : Tree) → P t
      → Post Q R (elim (attempt fs (λ t'. (ok a, t')) t).0 [
        | ok a' ↦ f a' (attempt fs (λ t'. (ok a, t')) t).1
        | err e ↦ (err e, (attempt fs (λ t'. (ok a, t')) t).1)
      ])
  Post-read a f keep h [] t p = h.apply (record { tree = t; faults = [] }) p
  Post-read a f keep h (none ∷ fs) t p = h.apply (record { tree = t; faults = fs }) p
  Post-read a f keep h (some m ∷ fs) t p = keep t p

  -- A call that only reads, and what follows it.
  pub read_rule :
      (a : A) (f : A → Io B)
      → ((t : Tree) → P t → R t)
      → Triple P (f a) Q R
      → Triple P (call (λ t. (ok a, t)) >>= f) Q R
  unfolding call
  read_rule a f keep h = record { apply = λ d p. Post-read a f keep h d.faults d.tree p }

-- Two properties that a program keeps are kept together.
Post-both :
    {A : Type 0} (P Q : Tree → Type 0) (r : Result A × Disk)
    → Post (λ _ t. P t) P r
    → Post (λ _ t. Q t) Q r
    → Post (λ _ t. P t × Q t) (λ t. P t × Q t) r
Post-both P Q (ok a, d) p q = (p, q)
Post-both P Q (err e, d) p q = (p, q)

pub both-Keeps :
    {A : Type 0} {P Q : Tree → Type 0} (m : Io A) → Keeps P m → Keeps Q m → Keeps (λ t. P t × Q t) m
both-Keeps {P} {Q} m h k = record {
  apply = λ d (p, q). Post-both P Q (m d) (h.apply d p) (k.apply d q);
}

-- A program that keeps a property after one part of a longer one.
pub strengthen :
    {A : Type 0} {P P' : Tree → Type 0} {Q : A → Tree → Type 0} {R : Tree → Type 0} (m : Io A)
    → ((t : Tree) → P' t → P t)
    → Triple P m Q R
    → Triple P' m Q R
strengthen m f h = record { apply = λ d p. h.apply d (f d.tree p) }
