-- ===== src/System/Counts.antt =====
-- The count of references behind bail_out, the end that drv_lookup_by_name has in each backend.
use fbsd_netcf.Prelude.{◌≡◌, refl, Text, Bool-cases, inl, inr}
use fbsd_netcf.Netcf.{Netcf, noerror, allocate, make_netcf_if, set_errcode}
use fbsd_netcf.Netcf.Handles.{count_after, IsNew}
use fbsd_netcf.System.{bail_out}

module _ {W : Type 0} where
  -- On a handle without an error, a new interface has a reference to it, and no other reference was taken.
  pub bail_out-make_netcf_if :
      (name : Text) (n : Netcf W)
      → n.errcode ≡ noerror
      → ((bail_out (make_netcf_if name n)).1.count
          ≡ count_after (bail_out (make_netcf_if name n)).0 n.count)
        × IsNew (bail_out (make_netcf_if name n)).0
  unfolding make_netcf_if bail_out allocate set_errcode
  bail_out-make_netcf_if name n fresh = elim (Bool-cases (allocate n).0) [
    | inl ok ↦ rw ok (rw fresh (refl, refl))
    | inr fails ↦ rw fails (refl, tt)
  ]
