-- ===== src/Linux/Load.antt =====
-- What a new tree of get_augeas of src/dutil_linux.c has loaded.
use fbsd_netcf.Prelude.{
  ℕ, ◌≡◌, refl, sym, ◌∙◌, inl, inr, true, List, [], ◌∷◌, ◌++◌, Option, none, some, codes, is_neg,
  arith, Bool-cases, Option-cases,
}
use fbsd_netcf.Netcf.{Netcf, allocate}
use fbsd_netcf.Linux.{
  Augeas, AugeasPv, LinuxDriver, ensure_augeas, set_table, set_tables, copy_tables, load_files,
  get_augeas,
}
use fbsd_netcf.Linux.Tables.{live}
use fbsd_netcf.Linux.Instance.{or_close-eq-some}

module _ {A V : Type 0} (L : Augeas A V) (contents : ℕ → List AugeasPv) where
  -- The entries of all tables.
  pub entries : List ℕ → List AugeasPv
  entries [] = []
  entries (t ∷ ts) = contents t ++ entries ts

  set_table-append :
      (pvs pvs' : List AugeasPv) (aug : A)
      → set_table L contents aug (pvs ++ pvs') ≡ elim (set_table L contents aug pvs) [
        | none ↦ none
        | some aug' ↦ set_table L contents aug' pvs'
      ]
  unfolding set_table
  set_table-append [] pvs' aug = refl
  set_table-append (pv ∷ pvs) pvs' aug =
      elim (Bool-cases (is_neg (L.aug_set aug pv.path (some pv.value)).0)) [
        | inl refused ↦ rw refused refl
        | inr done ↦ rw done (set_table-append pvs pvs' (L.aug_set aug pv.path (some pv.value)).1)
      ]

  -- The loops over the slots and over each table set the entries of the tables that are there, one after the other.
  pub set_tables-entries :
      (slots : List (Option ℕ)) (aug : A)
      → set_tables L contents aug slots ≡ set_table L contents aug (entries (live slots))
  unfolding set_tables entries live set_table
  set_tables-entries [] aug = refl
  set_tables-entries (none ∷ slots) aug = set_tables-entries slots aug
  set_tables-entries (some t ∷ slots) aug =
      elim (Option-cases (set_table L contents aug (contents t))) [
        | inl refused ↦
            rw (set_table-append (contents t) (entries (live slots)) aug, refused, set_tables) refl
        | inr (aug', done) ↦
            rw (set_table-append (contents t) (entries (live slots)) aug, done, set_tables)
              (set_tables-entries slots aug')
      ]

  ensure_augeas-fresh :
      (n : Netcf (LinuxDriver A V)) {aug : A} {n' : Netcf (LinuxDriver A V)}
      → n.world.augeas ≡ none
      → ensure_augeas L contents n ≡ (some aug, n')
      → (L.aug_init n.world.system n.root (n.data_dir ++ codes "/lenses") ≡ some aug)
        × (n'.world.copy_augeas_xfm ≡ true)
        × (n'.world.augeas_xfm_tables ≡ n.world.augeas_xfm_tables)
        × (n'.world.system ≡ n.world.system)
  unfolding ensure_augeas allocate
  ensure_augeas-fresh n missing e = ground arith

  copy_tables-sets :
      (aug : A) (n : Netcf (LinuxDriver A V)) {aug' : A} {n' : Netcf (LinuxDriver A V)}
      → n.world.copy_augeas_xfm ≡ true
      → copy_tables L contents aug n ≡ (some aug', n')
      → (set_tables L contents (L.aug_rm aug (codes "/augeas/load/*")).1 n.world.augeas_xfm_tables
          ≡ some aug')
        × (n'.world.load_augeas ≡ true)
        × (n'.world.system ≡ n.world.system)
  unfolding copy_tables
  copy_tables-sets aug n copy e = ground arith

  load_files-loads :
      (aug : A) (n : Netcf (LinuxDriver A V)) {aug' : A} {n' : Netcf (LinuxDriver A V)}
      → n.world.load_augeas ≡ true
      → load_files L contents aug n ≡ (some aug', n')
      → aug' ≡ (L.aug_load n.world.system aug).1
  unfolding load_files
  load_files-loads aug n load e = ground arith

  -- A tree that get_augeas gives on a handle that had none is a new one of aug_init, from which the old transformations
  -- were removed, in which the entries of all registered tables were set in order, and which was then loaded.
  pub get_augeas_fresh :
      (n : Netcf (LinuxDriver A V)) {aug : A} {n' : Netcf (LinuxDriver A V)}
      → n.world.augeas ≡ none
      → get_augeas L contents n ≡ (some aug, n')
      → (new set_up : A) × (L.aug_init n.world.system n.root (n.data_dir ++ codes "/lenses")
          ≡ some new)
        × (set_table L contents
              (L.aug_rm new (codes "/augeas/load/*")).1
              (entries (live n.world.augeas_xfm_tables))
            ≡ some set_up)
        × (aug ≡ (L.aug_load n.world.system set_up).1)
  unfolding get_augeas
  get_augeas_fresh n {aug} {n'} missing e =
      let (new, n₁, ensured, e₁) = or_close-eq-some (ensure_augeas L contents n) _ e in
      let (set_up, n₂, copied, e₂) = or_close-eq-some (copy_tables L contents new n₁) _ e₁ in
      let (last, n₃, loaded, e₃) = or_close-eq-some (load_files L contents set_up n₂) _ e₂ in
      let (made, copy, tables, system₁) = ensure_augeas-fresh n missing ensured in
      let (sets, load, system₂) = copy_tables-sets new n₁ copy copied in
      let same : last ≡ aug = cc in
      (
        new,
        set_up,
        made,
        sym (set_tables-entries n.world.augeas_xfm_tables (L.aug_rm new (codes "/augeas/load/*")).1)
            ∙ (rw tables at sets),
        sym same ∙ (rw (system₂ ∙ system₁) at (load_files-loads set_up n₂ load loaded)),
      )
