-- ===== src/Redhat/Held.antt =====
-- get_augeas, and the functions of src/drv_redhat.c that work with it: the count of references, and the tree that a handle
-- holds.
use fbsd_netcf.Prelude.{
  ℕ, ◌⊎◌, ◌≡◌, refl, ◌∙◌, inl, inr, true, false, List, [], ◌++◌, codes, Option, none, some, Text,
  negsuc, arith,
}
use fbsd_netcf.Netcf.{Netcf, noerror, report_error, set_errcode, allocate, failed}
use fbsd_netcf.Linux.{
  Augeas, AugeasPv, LinuxDriver, or_close, ensure_augeas, copy_tables, load_files, get_augeas,
}
use fbsd_netcf.Linux.Format.{formatted, match_path, check_result, aug_fmt_match}
use fbsd_netcf.Linux.Instance.{
  IsSettled, Closes, get_augeas-Closes, get_augeas-IsSettled, get_augeas_settled,
}
use fbsd_netcf.Linux.Paths.{formatted-elim}
use fbsd_netcf.Redhat.Find.{ifcfg_path, follow, with_augeas, is_slave, find_ifcfg_path_by_device}

-- A function of the handle comes to an end that C defines, and leaves the count.
abbrev pub Ends :
    {R A V : Type 0} → Netcf (LinuxDriver A V) → Option (R × Netcf (LinuxDriver A V)) → Type 0
Ends n none = ⊥
Ends n (some (r, n')) = n'.count ≡ n.count

module _ {A V : Type 0} (L : Augeas A V) (contents : ℕ → List AugeasPv) where
  or_close_count :
      (r : Option A × Netcf (LinuxDriver A V))
      (k : A → Netcf (LinuxDriver A V) → Option A × Netcf (LinuxDriver A V)) (c : ℕ)
      → r.1.count ≡ c
      → ((aug : A) (n : Netcf (LinuxDriver A V)) → n.count ≡ c → (k aug n).1.count ≡ c)
      → (or_close r k).1.count ≡ c
  unfolding or_close
  or_close_count (none, n) k c e rest = e
  or_close_count (some aug, n) k c e rest = rest aug n e

  ensure_augeas_count :
      (n : Netcf (LinuxDriver A V)) → (ensure_augeas L contents n).1.count ≡ n.count
  unfolding ensure_augeas report_error set_errcode allocate
  ensure_augeas_count n = ground arith

  copy_tables_count :
      (aug : A) (n : Netcf (LinuxDriver A V)) → (copy_tables L contents aug n).1.count ≡ n.count
  unfolding copy_tables report_error
  copy_tables_count aug n = ground arith

  load_files_count :
      (aug : A) (n : Netcf (LinuxDriver A V)) → (load_files L contents aug n).1.count ≡ n.count
  unfolding load_files report_error
  load_files_count aug n = ground arith

  pub get_augeas_count : (n : Netcf (LinuxDriver A V)) → (get_augeas L contents n).1.count ≡ n.count
  unfolding get_augeas
  get_augeas_count n =
      or_close_count (ensure_augeas L contents n) _ n.count (ensure_augeas_count n) (λ aug₁ n₁ e₁.
        or_close_count (copy_tables L contents aug₁ n₁) _ n.count (copy_tables_count aug₁ n₁ ∙ e₁)
          (λ aug₂ n₂ e₂.
            or_close_count (load_files L contents aug₂ n₂) _ n.count (load_files_count aug₂ n₂ ∙ e₂)
              (λ aug₃ n₃ e₃. e₃)))

  pub aug_fmt_match_count :
      (path : Text) (n : Netcf (LinuxDriver A V))
      → (aug_fmt_match L contents path n).1.count ≡ n.count
  unfolding aug_fmt_match formatted match_path check_result set_errcode allocate
  aug_fmt_match_count path n = ground (arith, get_augeas_count n)

  pub no_failure : (n : Netcf (LinuxDriver A V)) → n.errcode ≡ noerror → failed n ≡ false
  no_failure n clean = rw (clean, failed) refl

  -- A match on a handle that holds the loaded tree is one in this tree, and leaves it.
  pub aug_fmt_match_ready :
      (aug : A) (path : Text) (n : Netcf (LinuxDriver A V))
      → n.errcode ≡ noerror
      → IsSettled aug n
      → ((aug_fmt_match L contents path n).1.world.augeas ≡ some aug)
        × ((failed (aug_fmt_match L contents path n).1 ≡ true)
            ⊎ ((aug_fmt_match L contents path n).0.1 ≡ (L.aug_match aug path).1))
  unfolding aug_fmt_match formatted match_path check_result set_errcode allocate
  aug_fmt_match_ready aug path n fresh settled =
      ground (arith, get_augeas_settled L contents aug n settled, no_failure n fresh, settled.held)

  -- Behind a match without an error the handle holds the tree.
  abbrev Holds : {R : Type 0} → R × Netcf (LinuxDriver A V) → Type 0
  Holds (r, n) = failed n ≡ false → (aug : A) × (n.world.augeas ≡ some aug)

  pub aug_fmt_match_held :
      (path : Text) (n : Netcf (LinuxDriver A V))
      → n.errcode ≡ noerror
      → failed (aug_fmt_match L contents path n).1 ≡ false
      → (aug : A) × ((aug_fmt_match L contents path n).1.world.augeas ≡ some aug)
  unfolding aug_fmt_match match_path check_result set_errcode
  aug_fmt_match_held path n fresh =
      formatted-elim L contents Holds (negsuc 0, []) n (match_path L contents path) fresh
        (λ m bad fine. absurd (ground (arith, bad, fine)))
        (λ aug m good held fine. (aug, ground (arith, held)))

  -- A handle that holds the loaded tree and has no error.
  abbrev pub IsReady : A → Netcf (LinuxDriver A V) → Type 0
  IsReady aug n = (n.errcode ≡ noerror) × IsSettled aug n

  pub get_augeas-IsReady :
      (n : Netcf (LinuxDriver A V))
      → n.errcode ≡ noerror
      → (failed (get_augeas L contents n).1 ≡ true)
        ⊎ ((aug : A) × ((get_augeas L contents n).0 ≡ some aug)
            × IsReady aug (get_augeas L contents n).1)
  get_augeas-IsReady n fresh =
      ready (get_augeas L contents n) refl (get_augeas-Closes L contents n fresh)
    where
      ready :
          (r : Option A × Netcf (LinuxDriver A V))
          → get_augeas L contents n ≡ r
          → Closes r
          → (failed r.1 ≡ true) ⊎ ((aug : A) × (r.0 ≡ some aug) × IsReady aug r.1)
      ready (none, n₁) e (bad, closed) = inl (ground (arith, bad))
      ready (some aug, n₁) e clean = inr (aug, refl, (clean, get_augeas-IsSettled L contents n e))

  pub with_augeas-Ends :
      {R : Type 0} (m n : Netcf (LinuxDriver A V)) (rest : A → Option (R × Netcf (LinuxDriver A V)))
      (aug : A)
      → n.world.augeas ≡ some aug
      → Ends m (rest aug)
      → Ends m (with_augeas n rest)
  unfolding with_augeas
  with_augeas-Ends m n rest aug held e = rw (held, with_augeas) e

  pub follow-Ends :
      {R S : Type 0} (m : Netcf (LinuxDriver A V)) (o : Option (R × Netcf (LinuxDriver A V)))
      (rest : R → Netcf (LinuxDriver A V) → Option (S × Netcf (LinuxDriver A V)))
      → Ends m o
      → ((r : R) (n : Netcf (LinuxDriver A V)) → n.count ≡ m.count → Ends m (rest r n))
      → Ends m (follow o rest)
  unfolding follow
  follow-Ends m none rest e more = e
  follow-Ends m (some (r, n)) rest e more = more r n e

  pub find_ifcfg_path_by_device_count :
      (name : Text) (n : Netcf (LinuxDriver A V))
      → (find_ifcfg_path_by_device L contents name n).1.count ≡ n.count
  unfolding find_ifcfg_path_by_device set_errcode
  find_ifcfg_path_by_device_count name n =
      let n₁ = (get_augeas L contents n).1 in
      ground (
        arith,
        get_augeas_count n,
        aug_fmt_match_count (ifcfg_path ++ (codes "[DEVICE = '" ++ (name ++ codes "']"))) n₁,
      )

  pub is_slave_count :
      (intf : Text) (n : Netcf (LinuxDriver A V)) → (is_slave L contents intf n).1.count ≡ n.count
  unfolding is_slave
  is_slave_count intf n = ground (
    arith,
    aug_fmt_match_count (intf ++ codes "/MASTER") n,
    aug_fmt_match_count (intf ++ codes "/BRIDGE")
        (aug_fmt_match L contents (intf ++ codes "/MASTER") n).1,
  )
