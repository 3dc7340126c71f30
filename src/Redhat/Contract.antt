-- ===== src/Redhat/Contract.antt =====
-- What the look-up by name of src/drv_redhat.c does to the count of references of the handle.
use fbsd_netcf.Prelude.{
  ℕ, ◌≡◌, refl, ap, ◌∙◌, inl, inr, true, false, List, ◌++◌, codes, Option, none, some, Text,
  if◌then◌else◌, ℤ, is_zero, arith, Bool-cases,
}
use fbsd_netcf.Netcf.{Netcf, NetcfIf, noerror, set_errcode, allocate, failed}
use fbsd_netcf.Netcf.Handles.{count_after, IsNew}
use fbsd_netcf.System.Counts.{bail_out-make_netcf_if}
use fbsd_netcf.Linux.{Augeas, AugeasPv, LinuxDriver, get_augeas}
use fbsd_netcf.Linux.Format.{aug_fmt_match}
use fbsd_netcf.Linux.Paths.{no_error, aug_fmt_match-Agrees}
use fbsd_netcf.Redhat.Find.{follow, is_slave, find_ifcfg_path}
use fbsd_netcf.Redhat.Held.{Ends, get_augeas-IsReady, no_failure, get_augeas_count, is_slave_count}
use fbsd_netcf.Redhat.Defined.{HasValues, find_ifcfg_path-Ends}
use fbsd_netcf.Redhat.Lookup.{make_named, drv_lookup_by_name}

-- A look-up comes to an end that C defines, with a reference to the handle for the interface that it gives, which is new, and no
-- other.
abbrev pub LooksUp :
    {A V : Type 0}
    → Netcf (LinuxDriver A V)
    → Option (Option NetcfIf × Netcf (LinuxDriver A V))
    → Type 0
LooksUp n none = ⊥
LooksUp n (some (nif, n')) = (n'.count ≡ count_after nif n.count) × IsNew nif

module _ {A V : Type 0} (L : Augeas A V) (contents : ℕ → List AugeasPv) where
  -- Where aug_fmt_match finds nothing it leaves no error.
  match_zero :
      (path : Text) (n : Netcf (LinuxDriver A V))
      → n.errcode ≡ noerror
      → is_zero (aug_fmt_match L contents path n).0.0 ≡ true
      → (aug_fmt_match L contents path n).1.errcode ≡ noerror
  match_zero path n fresh zero = elim (aug_fmt_match-Agrees L contents path n fresh) [
    | inl (_, clean) ↦ clean
    | inr (r, _) ↦ absurd (ground (arith, zero, r))
  ]

  -- Where is_slave finds none it leaves no error.
  is_slave_clean :
      (intf : Text) (n : Netcf (LinuxDriver A V))
      → n.errcode ≡ noerror
      → (is_slave L contents intf n).0 ≡ false
      → (is_slave L contents intf n).1.errcode ≡ noerror
  unfolding is_slave
  is_slave_clean intf n fresh top = elim (Bool-cases (is_zero masters.0.0)) [
    | inr some_masters ↦ absurd (ground (arith, top, some_masters))
    | inl no_masters ↦
        elim (Bool-cases
          (is_zero (aug_fmt_match L contents (intf ++ codes "/BRIDGE") masters.1).0.0)) [
            | inr some_bridges ↦ absurd (ground (arith, top, no_masters, some_bridges))
            | inl no_bridges ↦ rw no_masters (
                match_zero (intf ++ codes "/BRIDGE") masters.1
                  (match_zero (intf ++ codes "/MASTER") n fresh no_masters) no_bridges)
          ]
  ]
    where
      masters : (ℤ × List Text) × Netcf (LinuxDriver A V)
      masters = aug_fmt_match L contents (intf ++ codes "/MASTER") n

  make_named_counts :
      (name : Text) (n : Netcf (LinuxDriver A V))
      → n.errcode ≡ noerror
      → ((make_named L contents name n).1.count
          ≡ count_after (make_named L contents name n).0 n.count)
        × IsNew (make_named L contents name n).0
  unfolding make_named allocate set_errcode
  make_named_counts name n fresh = elim (Bool-cases (allocate n).0) [
    | inl ok ↦ rw ok (bail_out-make_netcf_if name (allocate n).1 fresh)
    | inr fails ↦ rw fails (refl, tt)
  ]

module _ {A V : Type 0} (L : Augeas A V) (contents : ℕ → List AugeasPv) where
  -- On a handle without an error, if in the tree that get_augeas gives, where it gives one, the node of the interface's address has a
  -- value, if it is there, and so have the nodes that libaugeas finds for HWADDR, drv_lookup_by_name comes to an end that C defines; it
  -- has then taken a reference to the handle for the interface that it gives, which is new, and no other.
  pub drv_lookup_by_name-LooksUp :
      (name : Text) (n : Netcf (LinuxDriver A V))
      → n.errcode ≡ noerror
      → ((aug : A) → (get_augeas L contents n).0 ≡ some aug → HasValues L contents name aug)
      → LooksUp n (drv_lookup_by_name L contents name n)
  unfolding drv_lookup_by_name follow
  drv_lookup_by_name-LooksUp name n fresh values = elim (get_augeas-IsReady L contents n fresh) [
    | inl bad ↦ rw (bad, drv_lookup_by_name) (get_augeas_count L contents n, tt)
    | inr (aug, got, (clean, settled)) ↦
        rw (no_failure L contents (get_augeas L contents n).1 clean, drv_lookup_by_name)
          (looked (find_ifcfg_path L contents name (get_augeas L contents n).1) (
            find_ifcfg_path-Ends L contents name aug (get_augeas L contents n).1 (clean, settled)
              (values aug got)))
  ]
    where
      top_level :
          (pathx : Text) (m : Netcf (LinuxDriver A V))
          → m.count ≡ n.count
          → m.errcode ≡ noerror
          → LooksUp n (
              let (slave, m') = is_slave L contents pathx m in
              if slave then some (none, m') else some (make_named L contents name m'))
      top_level pathx m e clean = elim (Bool-cases (is_slave L contents pathx m).0) [
        | inl slave ↦ rw slave (is_slave_count L contents pathx m ∙ e, tt)
        | inr top ↦
            let (count, new) =
              make_named_counts L contents name (is_slave L contents pathx m).1
                (is_slave_clean L contents pathx m clean top) in
            rw top (
              count
                  ∙ ap (count_after (make_named L contents name (is_slave L contents pathx m).1).0)
                      (is_slave_count L contents pathx m ∙ e),
              new,
            )
      ]

      looked :
          (o : Option (Option Text × Netcf (LinuxDriver A V)))
          → Ends (get_augeas L contents n).1 o
          → LooksUp n (
              follow o (λ path n₂.
                if failed n₂
                then some (none, n₂)
                else (let r : Option (Option NetcfIf × Netcf (LinuxDriver A V)) = elim path [
                  | none ↦ some (none, n₂)
                  | some pathx ↦
                      let (slave, n₃) = is_slave L contents pathx n₂ in
                      if slave then some (none, n₃) else some (make_named L contents name n₃)
                ] in
                    r)))
      looked none e = e
      looked (some (none, m)) e = elim (Bool-cases (failed m)) [
        | inl bad ↦ rw bad (e ∙ get_augeas_count L contents n, tt)
        | inr fine ↦ rw fine (e ∙ get_augeas_count L contents n, tt)
      ]
      looked (some (some pathx, m)) e = elim (Bool-cases (failed m)) [
        | inl bad ↦ rw bad (e ∙ get_augeas_count L contents n, tt)
        | inr fine ↦
            rw fine
              (top_level pathx m (e ∙ get_augeas_count L contents n) (no_error m.errcode fine))
      ]
