-- ===== src/NcfTool/Run/Shell.antt =====
-- run_command_line and main_loop of src/ncftool.c, with ncf_error of src/netcf.c.
use fbsd_netcf.Prelude.{
  List, [], ◌∷◌, Option, none, some, Text, codes, ℤ, pos, negsuc, is_neg, is_zero, if◌then◌else◌,
  map,
}
use fbsd_netcf.Netcf.{
  ErrCode, noerror, einternal, eother, enomem, exmlparser, exmlinvalid, enoent, eexec, einuse,
  exsltfailed, efile, eioctl, enetlink, einvalidop, is_noerror, Netcf, allocate,
}
use fbsd_netcf.Netcf.Api.{ncf_change_begin, ncf_change_rollback, ncf_change_commit}
use fbsd_netcf.Driver.{Driver}
use fbsd_netcf.NcfTool.Command.{
  CommandResult, res_ok, res_err, res_enomem, res_quit, res_unknown, Handler, cmd_list,
  cmd_dump_xml, cmd_define, cmd_undefine, cmd_if_up, cmd_if_down, cmd_change_begin,
  cmd_change_commit, cmd_change_rollback, cmd_help, cmd_quit, CommandDef, Command, opt_present,
  param_value,
}
use fbsd_netcf.NcfTool.Parse.{Status, going, failed, Progress, Parsed, parseline, command_of}
use fbsd_netcf.NcfTool.Run.{
  Print, out, err, complaint, Ran, ran, stopped, prepend, arg_value, if_up_named, if_down_named,
  undefine_named, define_file, dump_xml_named,
}
use fbsd_netcf.NcfTool.Run.Listing.{list_with}
use fbsd_netcf.NcfTool.Run.Help.{help_with}

-- errmsgs
unfoldable pub errmsg : ErrCode → Text
errmsg noerror = codes "no error"
errmsg einternal = codes "internal error"
errmsg eother = codes "unspecified error"
errmsg enomem = codes "allocation failed"
errmsg exmlparser = codes "XML parser failed"
errmsg exmlinvalid = codes "XML invalid"
errmsg enoent = codes "required entry missing"
errmsg eexec = codes "failed to execute external program"
errmsg einuse = codes "instance still in use"
errmsg exsltfailed = codes "XSLT transformation failed"
errmsg efile = codes "File operation failed"
errmsg eioctl = codes "ioctl operation failed"
errmsg enetlink = codes "NETLINK socket operation failed"
errmsg einvalidop = codes "Operation invalid in this state"

-- The print of the details, if there are any.
unfoldable pub print_details : Option Text → List Print
print_details none = []
print_details (some details) = err (codes "error: %s\n") (details ∷ []) ∷ []

module _ {W : Type 0} where
  -- ncf_error: the code, its message and the details. The code is always in the table.
  unfoldable pub ncf_error : Netcf W → ErrCode × Text × Option Text
  ncf_error n = (n.errcode, errmsg n.errcode, n.errdetails)

  unfoldable pub print_netcf_error : Netcf W → List Print
  print_netcf_error n =
      let (errcode, message, details) = ncf_error n in
      if is_noerror errcode
      then []
      else err (codes "error: %s\n") (message ∷ []) ∷ print_details details

  -- The three handlers for a change, behind the call.
  unfoldable pub changed_with : Text → ℤ × Netcf W → Ran CommandResult W
  changed_with done (r, n) = if is_neg r then ran res_err n [] else ran res_ok n (out done [] ∷ [])

  -- The switch of run_command_line over the result of the handler. A handler does not give
  -- CMD_RES_UNKNOWN; the switch has no case for it and `ret` stays 0.
  unfoldable pub settle : CommandResult → Netcf W → Ran (ℤ × CommandResult) W
  settle res_ok n = ran (pos 0, res_ok) n []
  settle res_err n = ran (negsuc 0, res_err) n (print_netcf_error n)
  settle res_enomem n =
      ran (negsuc 0, res_enomem) n (err (codes "error: allocation failed\n") [] ∷ [])
  settle res_quit n = ran (pos 0, res_quit) n []
  settle res_unknown n = ran (pos 0, res_unknown) n []

  unfoldable pub settle_ran : Ran CommandResult W → Ran (ℤ × CommandResult) W
  settle_ran (ran result n prints) = prepend prints (settle result n)
  settle_ran stopped = stopped

module _ {W : Type 0} (d : Driver W) (read_file : W → Text → Option Text) where
  -- cmd.def->handler(&cmd)
  unfoldable pub handle : Handler → Command → Netcf W → Ran CommandResult W
  handle cmd_list cmd n =
      list_with d (opt_present cmd (codes "macs")) (opt_present cmd (codes "inactive"))
        (opt_present cmd (codes "all")) n
  handle cmd_dump_xml cmd n = arg_value cmd (codes "name") (λ name.
      dump_xml_named d read_file (opt_present cmd (codes "mac")) (opt_present cmd (codes "live"))
        name n)
  handle cmd_define cmd n =
      arg_value cmd (codes "xmlfile") (λ fname. define_file d read_file fname n)
  handle cmd_undefine cmd n =
      arg_value cmd (codes "iface") (λ name. undefine_named d read_file name n)
  handle cmd_if_up cmd n = arg_value cmd (codes "iface") (λ name. if_up_named d read_file name n)
  handle cmd_if_down cmd n =
      arg_value cmd (codes "iface") (λ name. if_down_named d read_file name n)
  handle cmd_change_begin cmd n =
      changed_with (codes "config change transaction started\n") (ncf_change_begin d 0 n)
  handle cmd_change_commit cmd n =
      changed_with (codes "config change transaction committed\n") (ncf_change_commit d 0 n)
  handle cmd_change_rollback cmd n =
      changed_with (codes "config change transaction rolled back\n") (ncf_change_rollback d 0 n)
  handle cmd_help cmd n =
      let (result, prints) = help_with (param_value cmd (codes "command")) in ran result n prints
  handle cmd_quit cmd n = ran res_quit n []

  -- Behind parseline, by how it ended.
  unfoldable pub dispatch :
      Status → Option CommandDef → Progress → Netcf W → Ran (ℤ × CommandResult) W
  dispatch going (some def) p n = settle_ran (handle def.handler (command_of def p) n)
  dispatch failed def p n = ran (negsuc 0, res_unknown) n []
  dispatch _ def p n = stopped

  unfoldable pub parsed_line : Parsed → Netcf W → Ran (ℤ × CommandResult) W
  parsed_line parsed n = prepend (map complaint parsed.progress.stderr) (
      dispatch parsed.status parsed.def parsed.progress
        (record n { allocs = parsed.progress.allocs }))

  -- run_command_line, with the value that `*cmdstatus` has before: its result and `*cmdstatus`.
  unfoldable pub run_command_line : Text → CommandResult → Netcf W → Ran (ℤ × CommandResult) W
  run_command_line line cmdstatus n =
      let (ok, n') = allocate n in
      if ok
      then parsed_line (parseline n'.allocs line) n'
      else ran (negsuc 0, cmdstatus) n' (err (codes "Out of memory\n") [] ∷ [])

  -- The loop of main_loop over the lines that readline gives before NULL, with the `ret` so far.
  unfoldable pub main_loop : List Text → ℤ → Netcf W → Ran ℤ W
  main_loop [] ret n = ran ret n []
  main_loop (line ∷ lines) ret n = elim (run_command_line line res_ok n) [
    | stopped ↦ stopped
    | ran (cmdret, cmdstatus) n' prints ↦
        let rest : Ran ℤ W = main_loop lines cmdret n' in
        prepend prints (elim cmdstatus [
          | res_quit ↦ (if is_zero cmdret then ran ret n' [] else rest)
          | _ ↦ rest
        ])
  ]
