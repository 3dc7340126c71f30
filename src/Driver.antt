-- ===== src/Driver.antt =====
-- The interface to a backend, the drv_* functions of src/internal.h. One is chosen when the library
-- is built; the functions of Netcf/Api take it as a parameter, and Freebsd fills it.
use fbsd_netcf.Prelude.{ℕ, Bool, List, Option, Text, ℤ}
use fbsd_netcf.Netcf.{Netcf, NetcfIf}

-- A function of a handle returns its result and the handle as it leaves it. An array that a function
-- fills is a list of its slots; a flag word is returned beside the result, if it was written.
pub record Driver (W : Type 0) : Type 0 where
  pub drv_init : Netcf W → ℤ × Netcf W
  pub drv_close : Netcf W → Netcf W
  pub drv_entry : Netcf W → Netcf W
  pub drv_num_of_interfaces : ℕ → Netcf W → ℤ × Netcf W
  pub drv_list_interfaces : ℕ → ℕ → Netcf W → (ℤ × List (Option Text)) × Netcf W
  pub drv_lookup_by_name : Text → Netcf W → Option NetcfIf × Netcf W
  pub drv_lookup_by_mac_string : Text → ℕ → Netcf W → (ℤ × List (Option NetcfIf)) × Netcf W
  pub drv_xml_desc : NetcfIf → Netcf W → Option Text × Netcf W
  pub drv_xml_state : NetcfIf → Netcf W → (Option Text × NetcfIf) × Netcf W
  pub drv_if_status : NetcfIf → Bool → Netcf W → (ℤ × Option ℕ) × Netcf W
  pub drv_change_begin : ℕ → Netcf W → ℤ × Netcf W
  pub drv_change_rollback : ℕ → Netcf W → ℤ × Netcf W
  pub drv_change_commit : ℕ → Netcf W → ℤ × Netcf W
  pub drv_mac_string : NetcfIf → Netcf W → (Option Text × NetcfIf) × Netcf W
  pub drv_define : Text → Netcf W → Option NetcfIf × Netcf W
  pub drv_undefine : NetcfIf → Netcf W → ℤ × Netcf W
  pub drv_if_up : NetcfIf → Netcf W → ℤ × Netcf W
  pub drv_if_down : NetcfIf → Netcf W → ℤ × Netcf W
