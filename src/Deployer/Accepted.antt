-- ===== src/Deployer/Accepted.antt =====
-- Which source files acme_api/deployer.py deploys, and the links that it cannot make again.
use acme_api.Common.{
  ne-str_eq, String, Option, none, some, List, [], ◌∷◌, ◌≡◌, ◌↔◌, refl, Bool, true, false, not,
  ◌||◌, All, arith, not_empty,
}
use acme_api.Common.Dict.{lookup-insert_self, lookup-insert_ne, Dict, lookup, insert}
use acme_api.Models.World.{ok, err}
use acme_api.Deployer.Disk.{
  replace_entry, Disk, Tree, Entry, symlink, call, perform, change, make_link, exists_already,
}
use acme_api.Deployer.Directories.{observe}
use acme_api.Deployer.Artifacts.{Outside}
use acme_api.Deployer.Migration.{
  ensure_compatibility_links, link_each, make_compatibility_link, is_link,
}
use acme_api.Deployer.Sources.{
  missing_sources, unsafe_sources, defect, report, cons_if, labelled, is_within, roots_of,
  validate_source_files,
}

module _ (out : Outside) (allowed : Option (List String)) where
  -- A regular file that is no link and, if roots are given, lies below one of them.
  abbrev pub IsDeployable : String × String → Type 0
  IsDeployable (name, path) =
      ((out.source path).is_file ≡ true)
      × ((out.source path).is_symlink ≡ false)
      × ((out.source path).is_regular ≡ true)
      × ((not (not_empty (roots_of allowed)) || is_within out (roots_of allowed) path) ≡ true)

  abbrev IsFile : String × String → Type 0
  IsFile (name, path) = (out.source path).is_file ≡ true

  abbrev IsFaultless : String × String → Type 0
  IsFaultless (name, path) = defect out (roots_of allowed) path ≡ none

  none_missing :
      (sources : Dict String)
      → (not_empty (missing_sources out sources) ≡ false) ↔ All IsFile sources
  none_missing [] = (λ h. tt, λ h. refl)
  none_missing ((name, path) ∷ rest) =
      by_file (out.source path).is_file (missing_sources out rest) (none_missing rest)
    where
      by_file :
          (b : Bool) (missing : List String)
          → (not_empty missing ≡ false) ↔ All IsFile rest
          → (not_empty (cons_if (not b) (labelled name path) missing) ≡ false)
            ↔ ((b ≡ true) × All IsFile rest)
      by_file true missing (f, g) = (λ k. (refl, f k), λ (k, l). g l)
      by_file false missing (f, g) = (λ k. absurd (ground arith), λ (k, l). absurd (ground arith))

  none_unsafe :
      (sources : Dict String)
      → (not_empty (unsafe_sources out (roots_of allowed) sources) ≡ false)
        ↔ All IsFaultless sources
  none_unsafe [] = (λ h. tt, λ h. refl)
  none_unsafe ((name, path) ∷ rest) =
      by_defect (defect out (roots_of allowed) path) (unsafe_sources out (roots_of allowed) rest)
        (none_unsafe rest)
    where
      by_defect :
          (o : Option String) (unsafe : List String)
          → (not_empty unsafe ≡ false) ↔ All IsFaultless rest
          → (not_empty (report (labelled name path) o unsafe) ≡ false)
            ↔ ((o ≡ none) × All IsFaultless rest)
      by_defect none unsafe (f, g) = (λ k. (refl, f k), λ (k, l). g l)
      by_defect (some r) unsafe (f, g) =
          (λ k. absurd (ground arith), λ (k, l). absurd (ground arith))

  deployable : (x : String × String) → (IsFile x × IsFaultless x) ↔ IsDeployable x
  deployable (name, path) = ground arith

  All-IsDeployable :
      (sources : Dict String)
      → (All IsFile sources × All IsFaultless sources) ↔ All IsDeployable sources
  All-IsDeployable [] = (λ h. tt, λ h. (tt, tt))
  All-IsDeployable (x ∷ rest) =
      let (f, g) = deployable x in
      let (fs, gs) = All-IsDeployable rest in
      (
        λ ((p, ps), (q, qs)). (f (p, q), fs (ps, qs)),
        λ (r, rs). (((g r).0, (gs rs).0), ((g r).1, (gs rs).1)),
      )

  validated :
      (sources : Dict String)
      → (validate_source_files out sources allowed ≡ ok tt) ↔ (
          (not_empty (missing_sources out sources) ≡ false)
          × (not_empty (unsafe_sources out (roots_of allowed) sources) ≡ false))
  unfolding validate_source_files
  validated sources = ground arith

  -- The validation accepts exactly the sources that are all regular files, no links and, if roots
  -- are given, below one of these after resolution.
  pub validate_accepts :
      (sources : Dict String)
      → (validate_source_files out sources allowed ≡ ok tt) ↔ All IsDeployable sources
  validate_accepts sources =
      let (v, w) = validated sources in
      let (m, n) = none_missing sources in
      let (u, x) = none_unsafe sources in
      let (f, g) = All-IsDeployable sources in
      (λ h. f (m (v h).0, u (v h).1), λ h. w (n (g h).0, x (g h).1))

blocked :
    (t : Tree) (x : Entry)
    → is_link "cert.pem" t.entries ≡ false
    → lookup ".cert.pem.pending" t.entries ≡ some x
    → ensure_compatibility_links (record { tree = t; faults = [] })
      ≡ (err (exists_already ".cert.pem.pending"), record { tree = t; faults = [] })
unfolding ensure_compatibility_links link_each make_compatibility_link perform change make_link
    observe call
blocked t x h k = ground arith

cut_off :
    (t : Tree) (m : String)
    → is_link "cert.pem" t.entries ≡ false
    → lookup ".cert.pem.pending" t.entries ≡ none
    → (ensure_compatibility_links (record { tree = t; faults = none ∷ some m ∷ [] })).1.tree
      ≡ record t { entries = insert ".cert.pem.pending" (symlink "current/cert.pem") t.entries }
unfolding ensure_compatibility_links link_each make_compatibility_link perform change make_link
    observe call replace_entry
cut_off t m h k = ground arith

-- After one run that is cut off between making the link of cert.pem and renaming it, every later
-- run fails at that link, with no call of its own failing, and changes nothing.
pub interrupted_link_blocks :
    (t : Tree) (m : String)
    → is_link "cert.pem" t.entries ≡ false
    → lookup ".cert.pem.pending" t.entries ≡ none
    → let d : Disk = record {
      tree = (ensure_compatibility_links (record { tree = t; faults = none ∷ some m ∷ [] })).1.tree;
      faults = [];
    } in
      ensure_compatibility_links d ≡ (err (exists_already ".cert.pem.pending"), d)
interrupted_link_blocks t m h k =
    let f = insert ".cert.pem.pending" (symlink "current/cert.pem") t.entries in
    let e : lookup "cert.pem" f ≡ lookup "cert.pem" t.entries =
      lookup-insert_ne t.entries "cert.pem" ".cert.pem.pending" (symlink "current/cert.pem")
        (ne-str_eq ".cert.pem.pending" "cert.pem" refl) in
    rw (cut_off t m h k) (
      blocked (record t { entries = f }) (symlink "current/cert.pem") (rw e h)
        (lookup-insert_self t.entries ".cert.pem.pending" (symlink "current/cert.pem")))
