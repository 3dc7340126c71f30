-- ===== src/NcfTool/Run/Listing.antt =====
-- cmd_list of src/ncftool.c.
use fbsd_netcf.Prelude.{
  ℕ, Bool, true, false, List, [], ◌∷◌, Option, none, some, Text, codes, take, ℤ, pos, negsuc,
  if◌then◌else◌,
}
use fbsd_netcf.Netcf.{Netcf, NetcfIf, allocate}
use fbsd_netcf.Netcf.Api.{
  ncf_num_of_interfaces, ncf_list_interfaces, ncf_lookup_by_name, ncf_if_mac_string,
}
use fbsd_netcf.Driver.{Driver}
use fbsd_netcf.NcfTool.Command.{CommandResult, res_ok, res_err, res_enomem}
use fbsd_netcf.NcfTool.Run.{out, Ran, ran, stopped, prepend, freed_then}

module _ {W : Type 0} (d : Driver W) where
  -- Behind ncf_if_mac_string, in the branch for `--macs`.
  unfoldable pub mac_printed : Text → (Option Text × NetcfIf) × Netcf W → Ran CommandResult W
  mac_printed name ((none, nif), n) =
      freed_then nif res_ok n (out (codes "%-8s could not get MAC\n") (name ∷ []) ∷ [])
  mac_printed name ((some mac, nif), n) =
      freed_then nif res_ok n (out (codes "%-8s %s\n") (name ∷ mac ∷ []) ∷ [])

  unfoldable pub mac_looked_up : Text → Option NetcfIf × Netcf W → Ran CommandResult W
  mac_looked_up name (none, n) = ran res_ok n (out (codes "%-8s lookup failed\n") (name ∷ []) ∷ [])
  mac_looked_up name (some nif, n) = mac_printed name (ncf_if_mac_string d nif n)

  -- A round of the loop. A name that is NULL is not to be looked up.
  unfoldable pub list_entry : Bool → Option Text → Netcf W → Ran CommandResult W
  list_entry true none n = stopped
  list_entry true (some name) n = mac_looked_up name (ncf_lookup_by_name d name n)
  list_entry false none n = ran res_ok n (out (codes "%s\n") (codes "(none)" ∷ []) ∷ [])
  list_entry false (some name) n = ran res_ok n (out (codes "%s\n") (name ∷ []) ∷ [])

  unfoldable pub list_entries : Bool → List (Option Text) → Netcf W → Ran CommandResult W
  list_entries macs [] n = ran res_ok n []
  list_entries macs (name ∷ intf) n = elim (list_entry macs name n) [
    | ran _ n' prints ↦ prepend prints (list_entries macs intf n')
    | stopped ↦ stopped
  ]

  -- Behind ncf_list_interfaces.
  unfoldable pub listed_names : Bool → (ℤ × List (Option Text)) × Netcf W → Ran CommandResult W
  listed_names macs ((negsuc k, intf), n) = ran res_err n []
  listed_names macs ((pos nint, intf), n) = list_entries macs (take nint intf) n

  -- Behind ncf_num_of_interfaces.
  unfoldable pub list_counted : Bool → ℕ → ℤ × Netcf W → Ran CommandResult W
  list_counted macs flags (negsuc k, n) = ran res_err n []
  list_counted macs flags (pos nint, n) =
      let (ok, n') = allocate n in
      if ok then listed_names macs (ncf_list_interfaces d nint flags n') else ran res_enomem n' []

  -- cmd_list, by the presence of its options; NETCF_IFACE_ACTIVE is 2 and NETCF_IFACE_INACTIVE 1.
  unfoldable pub list_flags : Bool → Bool → ℕ
  list_flags inactive all = if all then 3 else (if inactive then 1 else 2)

  unfoldable pub list_with : Bool → Bool → Bool → Netcf W → Ran CommandResult W
  list_with macs inactive all n =
      list_counted macs (list_flags inactive all)
        (ncf_num_of_interfaces d (list_flags inactive all) n)
