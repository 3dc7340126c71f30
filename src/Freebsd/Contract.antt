-- ===== src/Freebsd/Contract.antt =====
-- The functions of src/drv_freebsd.c as a backend of the library.
use fbsd_netcf.Prelude.{◌≡◌, refl, Text, Bool-cases, inl, inr}
use fbsd_netcf.Netcf.{noerror, Netcf, allocate, make_netcf_if, set_errcode}
use fbsd_netcf.Netcf.Handles.{Counts, Switches, count_after, IsNew}
use fbsd_netcf.Driver.{Driver}
use fbsd_netcf.Posix.{Exit}
use fbsd_netcf.Freebsd.{
  drv_init, drv_close, drv_entry, drv_lookup_by_name, drv_mac_string, drv_if_status, drv_if_up,
  drv_if_down, drv_change_begin, drv_change_rollback, drv_change_commit, probe_interface,
}
use fbsd_netcf.System.Counts.{bail_out-make_netcf_if}
use fbsd_netcf.System.{Kernel}

-- The backend, with the functions that are not modelled here, or not in this form, as another gives them.
pub freebsd_driver : {W : Type 0} → Kernel W → Exit → Driver W → Driver W
freebsd_driver k stale others = record others {
  drv_init = drv_init k;
  drv_close = drv_close k;
  drv_entry = drv_entry k;
  drv_lookup_by_name = drv_lookup_by_name k;
  drv_mac_string = drv_mac_string k;
  drv_if_status = drv_if_status k;
  drv_if_up = drv_if_up k;
  drv_if_down = drv_if_down k;
  drv_change_begin = drv_change_begin k stale;
  drv_change_rollback = drv_change_rollback k stale;
  drv_change_commit = drv_change_commit k stale;
}

module _ {W : Type 0} where
  pub make_count :
      (name : Text) (n : Netcf W)
      → ((make_netcf_if name n).1.count ≡ count_after (make_netcf_if name n).0 n.count)
        × IsNew (make_netcf_if name n).0
  unfolding make_netcf_if allocate set_errcode
  make_count name n = elim (Bool-cases (allocate n).0) [
    | inl ok ↦ rw ok (refl, refl)
    | inr fails ↦ rw fails (refl, tt)
  ]

  lookup_counts :
      (k : Kernel W) (name : Text) (n : Netcf W)
      → n.errcode ≡ noerror
      → ((drv_lookup_by_name k name n).1.count
          ≡ count_after (drv_lookup_by_name k name n).0 n.count)
        × IsNew (drv_lookup_by_name k name n).0
  unfolding drv_lookup_by_name allocate set_errcode
  lookup_counts k name n fresh = elim (Bool-cases (probe_interface k name n.world)) [
    | inr unknown ↦ rw unknown (refl, tt)
    | inl known ↦ elim (Bool-cases (allocate n).0) [
      | inl ok ↦
          rw (known, ok, drv_lookup_by_name) (bail_out-make_netcf_if name (allocate n).1 fresh)
      | inr fails ↦ rw (known, fails, drv_lookup_by_name) (refl, tt)
    ]
  ]

  -- On a handle without an error, drv_lookup_by_name of the backend takes a reference to it for the
  -- interface that it gives, which is new, and no other; drv_entry and drv_close leave the count.
  pub freebsd_driver-Counts :
      (k : Kernel W) (stale : Exit) (others : Driver W) → Counts (freebsd_driver k stale others)
  unfolding freebsd_driver drv_entry drv_close
  freebsd_driver-Counts k stale others = record {
    entry_count = λ n. refl;
    entry_errcode = λ n. refl;
    close_count = λ n. refl;
    lookup_count = λ name n fresh. (lookup_counts k name n fresh).0;
    lookup_new = λ name n fresh. (lookup_counts k name n fresh).1;
  }

  -- drv_if_up and drv_if_down of the backend leave the count.
  pub freebsd_driver-Switches :
      (k : Kernel W) (stale : Exit) (others : Driver W) → Switches (freebsd_driver k stale others)
  unfolding freebsd_driver drv_if_up drv_if_down
  freebsd_driver-Switches k stale others = record {
    counts = freebsd_driver-Counts k stale others;
    up_count = λ nif n. refl;
    down_count = λ nif n. refl;
  }
