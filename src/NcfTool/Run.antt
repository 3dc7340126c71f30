-- ===== src/NcfTool/Run.antt =====
-- The handlers of src/ncftool.c that look interfaces up. A print is its
-- format and the texts that it prints. The program's allocations are those of its handle.
pub mod Listing
pub mod Help
pub mod Shell
pub mod Balance
pub mod Lines
mod Tests
use fbsd_netcf.Prelude.{
  ℕ, zero, suc, Bool, true, false, List, [], ◌∷◌, ◌++◌, Option, none, some, Text, codes, take, ℤ,
  pos, negsuc, is_neg, is_zero, if◌then◌else◌, map, ltb,
}
use fbsd_netcf.Netcf.{
  ErrCode, noerror, einternal, eother, enomem, exmlparser, exmlinvalid, enoent, eexec, einuse,
  exsltfailed, efile, eioctl, enetlink, einvalidop, is_noerror, Netcf, NetcfIf, Released, left,
  gone, asserted, allocate,
}
use fbsd_netcf.Netcf.Api.{
  ncf_num_of_interfaces, ncf_list_interfaces, ncf_lookup_by_name, ncf_lookup_by_mac_string,
  ncf_define, ncf_if_name, ncf_if_mac_string, ncf_if_undefine, ncf_if_up, ncf_if_down,
  ncf_if_xml_desc, ncf_if_xml_state, ncf_change_begin, ncf_change_rollback, ncf_change_commit,
  ncf_if_free,
}
use fbsd_netcf.Driver.{Driver}
use fbsd_netcf.NcfTool.Command.{
  CommandResult, res_ok, res_err, res_enomem, res_quit, res_unknown, Handler, cmd_list,
  cmd_dump_xml, cmd_define, cmd_undefine, cmd_if_up, cmd_if_down, cmd_change_begin,
  cmd_change_commit, cmd_change_rollback, cmd_help, cmd_quit, Command, opt_present, param_value,
}
use fbsd_netcf.NcfTool.Parse.{
  Complaint, Status, going, failed, Progress, Parsed, parseline, command_of,
}

-- A line on stdout or stderr, or one that the parser writes.
pub data Print : Type 0 where
  out err : Text → List Text → Print
  complaint : Complaint → Print

-- How a part of the tool ends: it returns, or the process ends in it, by exit, by an assertion, or by the
-- use of a handle that was freed or of a NULL.
pub data Ran (A : Type 0) (W : Type 0) : Type 0 where
  ran : A → Netcf W → List Print → Ran A W
  stopped : Ran A W

module _ {W : Type 0} where
  -- What was printed before, in front of what a part prints.
  unfoldable pub prepend : {A : Type 0} → List Print → Ran A W → Ran A W
  prepend before (ran a n prints) = ran a n (before ++ prints)
  prepend before stopped = stopped

  -- ncf_if_free at the end of a handler, and its `return`.
  unfoldable pub freed_then : NetcfIf → CommandResult → Netcf W → List Print → Ran CommandResult W
  freed_then nif result n prints = elim (ncf_if_free nif n).1 [
    | left n' ↦ ran result n' prints
    | gone ↦ stopped
    | asserted ↦ stopped
  ]

  -- The same of a pointer that may be NULL.
  unfoldable pub freed_if :
      Option NetcfIf → CommandResult → Netcf W → List Print → Ran CommandResult W
  unfolding freed_then
  freed_if none result n prints = ran result n prints
  freed_if (some nif) result n prints = freed_then nif result n prints

  -- arg_value: the rest of the handler with the value; without one, exit(2).
  unfoldable pub arg_value : Command → Text → (Text → Ran CommandResult W) → Ran CommandResult W
  arg_value cmd name rest = elim (param_value cmd name) [ none ↦ stopped | some value ↦ rest value ]

abbrev no_interface : Text → List Print
no_interface name =
    err (codes "Interface %s does not exist or is not a toplevel interface\n") (name ∷ []) ∷ []

module _ {W : Type 0} (d : Driver W) (read_file : W → Text → Option Text) where
  -- What cmd_if_up and cmd_if_down do with the interface that was looked up; `change` is ncf_if_up or ncf_if_down.
  unfoldable pub switch_found :
      (NetcfIf → Netcf W → ℤ × Netcf W)
      → Text
      → Text
      → Text
      → Option NetcfIf × Netcf W
      → Ran CommandResult W
  unfolding freed_then
  switch_found change done refused name (none, n) = ran res_err n (no_interface name)
  switch_found change done refused name (some nif, n) =
      let (r, n') = change nif n in
      if is_zero r
      then freed_then nif res_ok n' (err done (name ∷ []) ∷ [])
      else freed_then nif res_err n' (err refused (name ∷ []) ∷ [])

  unfoldable pub if_up_named : Text → Netcf W → Ran CommandResult W
  unfolding switch_found
  if_up_named name n =
      switch_found (ncf_if_up d) (codes "Interface %s successfully brought up\n")
        (codes "Interface %s bring-up failed!\n") name (ncf_lookup_by_name d name n)

  unfoldable pub if_down_named : Text → Netcf W → Ran CommandResult W
  unfolding switch_found
  if_down_named name n =
      switch_found (ncf_if_down d) (codes "Interface %s successfully brought down\n")
        (codes "Interface %s bring-down failed!\n") name (ncf_lookup_by_name d name n)

  unfoldable pub undefine_found : Text → Option NetcfIf × Netcf W → Ran CommandResult W
  unfolding freed_then
  undefine_found name (none, n) = ran res_err n []
  undefine_found name (some nif, n) =
      let (r, n') = ncf_if_undefine d nif n in
      if is_neg r
      then freed_then nif res_err n' []
      else freed_then nif res_ok n' (out (codes "%s undefined\n") (name ∷ []) ∷ [])

  unfoldable pub undefine_named : Text → Netcf W → Ran CommandResult W
  unfolding undefine_found
  undefine_named name n = undefine_found name (ncf_lookup_by_name d name n)

  unfoldable pub defined : Option NetcfIf × Netcf W → Ran CommandResult W
  unfolding freed_then
  defined (none, n) = ran res_err n []
  defined (some nif, n) =
      let (name, n') = ncf_if_name d nif n in
      freed_then nif res_ok n' (out (codes "Defined interface %s\n") (name ∷ []) ∷ [])

  unfoldable pub define_file : Text → Netcf W → Ran CommandResult W
  unfolding defined
  define_file fname n = elim (read_file n.world fname) [
    | none ↦ ran res_err n (err (codes "Failed to read %s\n") (fname ∷ []) ∷ [])
    | some xml ↦ defined (ncf_define d xml n)
  ]

  -- The end of cmd_dump_xml, with the XML and the interface.
  unfoldable pub dumped : (Option Text × NetcfIf) × Netcf W → Ran CommandResult W
  unfolding freed_then
  dumped ((none, nif), n) = freed_then nif res_err n []
  dumped ((some xml, nif), n) = freed_then nif res_ok n (out (codes "%s\n") (xml ∷ []) ∷ [])

  unfoldable pub dump_found : Bool → Text → Option NetcfIf × Netcf W → Ran CommandResult W
  unfolding dumped
  dump_found live name (none, n) = ran res_err n (no_interface name)
  dump_found live name (some nif, n) =
      let (xml, n') = ncf_if_xml_desc d nif n in
      if live then dumped (ncf_if_xml_state d nif n) else dumped ((xml, nif), n')

  -- The array of one slot that is handed to ncf_lookup_by_mac_string.
  unfoldable pub first_slot : List (Option NetcfIf) → Option NetcfIf
  first_slot [] = none
  first_slot (nif ∷ slots) = nif

  -- maxifaces > 1
  unfoldable pub is_several : ℤ → Bool
  is_several (pos k) = ltb 1 k
  is_several (negsuc k) = false

  -- The number in the warning is left out of the print.
  unfoldable pub dump_xml_named : Bool → Bool → Text → Netcf W → Ran CommandResult W
  unfolding dump_found first_slot is_several freed_if
  dump_xml_named mac live name n =
      let ((maxifaces, slots), n') = ncf_lookup_by_mac_string d name 1 n in
      let found : Ran CommandResult W = dump_found live name (first_slot slots, n') in
      let warning : List Print =
        err (codes "warning: %d interfaces have MAC %s, only showing one\n") (name ∷ []) ∷ [] in
      let looked_up : Ran CommandResult W =
        if is_neg maxifaces
        then freed_if (first_slot slots) res_err n'
            (err (codes "error looking up interface with MAC %s\n") (name ∷ []) ∷ [])
        else if is_several maxifaces
        then prepend warning found
        else found in
      if mac then looked_up else dump_found live name (ncf_lookup_by_name d name n)
