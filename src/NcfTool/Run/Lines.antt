-- ===== src/NcfTool/Run/Lines.antt =====
-- A command line of src/ncftool.c, from its text to the end of the handler.
use fbsd_netcf.Prelude.{
  ℕ, ◌+◌, ◌<◌, ◌≡◌, refl, ◌⊎◌, inl, inr, true, false, List, Option, some, Text, codes, map,
}
use fbsd_netcf.Ref.{ref_max}
use fbsd_netcf.Netcf.{Netcf, allocate}
use fbsd_netcf.Driver.{Driver}
use fbsd_netcf.Netcf.Handles.{Switches}
use fbsd_netcf.NcfTool.Command.{
  CommandResult, res_ok, res_err, res_enomem, res_quit, res_unknown, CommandDef, Command, Handler,
  cmd_list, cmd_dump_xml, cmd_define, cmd_undefine, cmd_if_up, cmd_if_down, cmd_change_begin,
  cmd_change_commit, cmd_change_rollback, cmd_help, cmd_quit, opt_present, param_value,
}
use fbsd_netcf.NcfTool.Parse.{Status, Progress, going, parseline, command_of}
use fbsd_netcf.NcfTool.Parse.Arguments.{needed_arg, parseline_argument}
use fbsd_netcf.NcfTool.Run.{Print, complaint, Ran, ran, stopped, prepend, arg_value}
use fbsd_netcf.NcfTool.Run.Shell.{
  handle, settle, settle_ran, dispatch, parsed_line, run_command_line,
}
use fbsd_netcf.NcfTool.Run.Balance.{
  Steady, KeepsCount, if_up_named-KeepsCount, if_down_named-KeepsCount, undefine_named-KeepsCount,
  define_file-KeepsCount, dump_xml_named-KeepsCount,
}

arg_value-KeepsCount :
    {W : Type 0} (c : ℕ) (cmd : Command) (m n v : Text) (rest : Text → Ran CommandResult W)
    → some m ≡ some n
    → param_value cmd n ≡ some v
    → KeepsCount c (rest v)
    → KeepsCount c (arg_value cmd m rest)
unfolding arg_value
arg_value-KeepsCount c cmd m n v rest same found ok =
    let equal : m ≡ n = cc in
    let here : param_value cmd m ≡ some v = rw equal found in rw (here, KeepsCount, arg_value) ok

prepend-KeepsCount :
    {A W : Type 0} (c : ℕ) (before : List Print) (r : Ran A W)
    → KeepsCount c r
    → KeepsCount c (prepend before r)
unfolding prepend
prepend-KeepsCount c before (ran a n prints) h = h
prepend-KeepsCount c before stopped h = h

settle-KeepsCount :
    {W : Type 0} (c : ℕ) (result : CommandResult) (n : Netcf W)
    → n.count ≡ c
    → KeepsCount c (settle result n)
unfolding settle
settle-KeepsCount c res_ok n e = e
settle-KeepsCount c res_err n e = e
settle-KeepsCount c res_enomem n e = e
settle-KeepsCount c res_quit n e = e
settle-KeepsCount c res_unknown n e = e

settle_ran-KeepsCount :
    {W : Type 0} (c : ℕ) (r : Ran CommandResult W) → KeepsCount c r → KeepsCount c (settle_ran r)
unfolding settle_ran
settle_ran-KeepsCount c (ran result n prints) e =
    prepend-KeepsCount c prints (settle result n) (settle-KeepsCount c result n e)
settle_ran-KeepsCount c stopped h = h

module _ {W : Type 0} {d : Driver W} (s : Steady d) (read_file : W → Text → Option Text) (c : ℕ)
    (held : 0 < c) (room : c + 1 < ref_max) where
  -- Over a backend that is steady, on a handle whose count leaves room for one more, a handler that
  -- needs an argument and finds it returns and gives back the interfaces that it looks up or defines,
  -- on all its branches, if the command does not have the option mac.
  pub handle-KeepsCount :
      (h : Handler) (cmd : Command) (n : Netcf W) {m v : Text}
      → needed_arg h ≡ some m
      → param_value cmd m ≡ some v
      → opt_present cmd (codes "mac") ≡ false
      → n.count ≡ c
      → KeepsCount c (handle d read_file h cmd n)
  unfolding handle needed_arg
  handle-KeepsCount cmd_dump_xml cmd n {m} {v} needs found no_mac e =
      arg_value-KeepsCount c cmd (codes "name") m v _ needs found (
        rw no_mac (
          dump_xml_named-KeepsCount s read_file c held room (opt_present cmd (codes "live")) v n e))
  handle-KeepsCount cmd_define cmd n {m} {v} needs found no_mac e =
      arg_value-KeepsCount c cmd (codes "xmlfile") m v _ needs found
        (define_file-KeepsCount s read_file c held room v n e)
  handle-KeepsCount cmd_undefine cmd n {m} {v} needs found no_mac e =
      arg_value-KeepsCount c cmd (codes "iface") m v _ needs found
        (undefine_named-KeepsCount s read_file c held room v n e)
  handle-KeepsCount cmd_if_up cmd n {m} {v} needs found no_mac e =
      arg_value-KeepsCount c cmd (codes "iface") m v _ needs found
        (if_up_named-KeepsCount s.switches read_file c held room v n e)
  handle-KeepsCount cmd_if_down cmd n {m} {v} needs found no_mac e =
      arg_value-KeepsCount c cmd (codes "iface") m v _ needs found
        (if_down_named-KeepsCount s.switches read_file c held room v n e)
  handle-KeepsCount cmd_list cmd n needs found no_mac e = absurd (cc)
  handle-KeepsCount cmd_change_begin cmd n needs found no_mac e = absurd (cc)
  handle-KeepsCount cmd_change_commit cmd n needs found no_mac e = absurd (cc)
  handle-KeepsCount cmd_change_rollback cmd n needs found no_mac e = absurd (cc)
  handle-KeepsCount cmd_help cmd n needs found no_mac e = absurd (cc)
  handle-KeepsCount cmd_quit cmd n needs found no_mac e = absurd (cc)

module _ {W : Type 0} (d : Driver W) (read_file : W → Text → Option Text) (c : ℕ) where
  dispatch-KeepsCount :
      (status : Status) (o : Option CommandDef) (p : Progress) (n : Netcf W) {def : CommandDef}
      → status ≡ going
      → o ≡ some def
      → KeepsCount c (settle_ran (handle d read_file def.handler (command_of def p) n))
      → KeepsCount c (dispatch d read_file status o p n)
  unfolding dispatch
  dispatch-KeepsCount status o p n fine known handled =
      rw (fine, known, KeepsCount, dispatch) handled

  -- A line whose handler, called with the command that parseline makes of the line, keeps the count.
  line-KeepsCount :
      (line : Text) (cmdstatus : CommandResult) (n : Netcf W) {def : CommandDef}
      → (allocate n).0 ≡ true
      → (parseline (allocate n).1.allocs line).def ≡ some def
      → (parseline (allocate n).1.allocs line).status ≡ going
      → KeepsCount c (
          handle d read_file def.handler
            (command_of def (parseline (allocate n).1.allocs line).progress)
            (record (allocate n).1 {
              allocs = (parseline (allocate n).1.allocs line).progress.allocs;
            }))
      → KeepsCount c (run_command_line d read_file line cmdstatus n)
  unfolding run_command_line parsed_line dispatch allocate
  line-KeepsCount line cmdstatus n {def} ok known fine handled =
      let n' = (allocate n).1 in
      let parsed = parseline n'.allocs line in
      rw (ok, KeepsCount, run_command_line)
        (prepend-KeepsCount c (map complaint parsed.progress.stderr) _ (
          dispatch-KeepsCount parsed.status parsed.def parsed.progress
            (record n' { allocs = parsed.progress.allocs }) {def = def} fine known
            (settle_ran-KeepsCount c
              (handle d read_file def.handler (command_of def parsed.progress)
                (record n' { allocs = parsed.progress.allocs }))
              handled)))

module _ {W : Type 0} {d : Driver W} (s : Switches d) (read_file : W → Text → Option Text) (c : ℕ)
    (held : 0 < c) (room : c + 1 < ref_max) where
  handle_switch-KeepsCount :
      (h : Handler) (cmd : Command) (n : Netcf W) {v : Text}
      → (h ≡ cmd_if_up) ⊎ (h ≡ cmd_if_down)
      → param_value cmd (codes "iface") ≡ some v
      → n.count ≡ c
      → KeepsCount c (handle d read_file h cmd n)
  unfolding handle
  handle_switch-KeepsCount h cmd n {v} (inl up) found e = rw up (
      arg_value-KeepsCount c cmd (codes "iface") (codes "iface") v _ refl found
        (if_up_named-KeepsCount s read_file c held room v n e))
  handle_switch-KeepsCount h cmd n {v} (inr down) found e = rw down (
      arg_value-KeepsCount c cmd (codes "iface") (codes "iface") v _ refl found
        (if_down_named-KeepsCount s read_file c held room v n e))

  needed_switch :
      (h : Handler) → (h ≡ cmd_if_up) ⊎ (h ≡ cmd_if_down) → needed_arg h ≡ some (codes "iface")
  unfolding needed_arg
  needed_switch h (inl up) = rw up refl
  needed_switch h (inr down) = rw down refl

  -- Over a backend that counts its references and whose drv_if_up and drv_if_down leave the count, on a handle whose count is not 0 and
  -- leaves room for one more, run_command_line of a line that can be copied, that parseline takes and whose handler is cmd_if_up or
  -- cmd_if_down returns, and the count of the handle is what it was: the interface that is looked up is given back, whether there
  -- is one and whether the backend switches it or not.
  pub run_switch_line-KeepsCount :
      (line : Text) (cmdstatus : CommandResult) (n : Netcf W) {def : CommandDef}
      → (allocate n).0 ≡ true
      → (parseline (allocate n).1.allocs line).def ≡ some def
      → (parseline (allocate n).1.allocs line).status ≡ going
      → (def.handler ≡ cmd_if_up) ⊎ (def.handler ≡ cmd_if_down)
      → n.count ≡ c
      → KeepsCount c (run_command_line d read_file line cmdstatus n)
  unfolding allocate
  run_switch_line-KeepsCount line cmdstatus n {def} ok known fine switch e =
      let n' = (allocate n).1 in
      let parsed = parseline n'.allocs line in
      let needs = needed_switch def.handler switch in
      let (v, found) =
        parseline_argument n'.allocs line {c = def} {n = codes "iface"} known fine needs in
      line-KeepsCount d read_file c line cmdstatus n {def = def} ok known fine (
        handle_switch-KeepsCount def.handler (command_of def parsed.progress)
          (record n' { allocs = parsed.progress.allocs }) switch found e)

module _ {W : Type 0} {d : Driver W} (s : Steady d) (read_file : W → Text → Option Text) (c : ℕ)
    (held : 0 < c) (room : c + 1 < ref_max) where
  -- Over a backend that is steady, on a handle whose count leaves room for one more: run_command_line of
  -- a line that can be copied and that parseline
  -- takes, whose handler needs an argument and which does not have the option mac, returns and leaves
  -- the count of the handle.
  pub run_command_line-KeepsCount :
      (line : Text) (cmdstatus : CommandResult) (n : Netcf W) {def : CommandDef} {m : Text}
      → (allocate n).0 ≡ true
      → (parseline (allocate n).1.allocs line).def ≡ some def
      → (parseline (allocate n).1.allocs line).status ≡ going
      → needed_arg def.handler ≡ some m
      → opt_present (command_of def (parseline (allocate n).1.allocs line).progress) (codes "mac")
        ≡ false
      → n.count ≡ c
      → KeepsCount c (run_command_line d read_file line cmdstatus n)
  unfolding allocate
  run_command_line-KeepsCount line cmdstatus n {def} {m} ok known fine needs no_mac e =
      let n' = (allocate n).1 in
      let parsed = parseline n'.allocs line in
      let (v, found) = parseline_argument n'.allocs line {c = def} {n = m} known fine needs in
      line-KeepsCount d read_file c line cmdstatus n {def = def} ok known fine (
        handle-KeepsCount s read_file c held room def.handler (command_of def parsed.progress)
          (record n' { allocs = parsed.progress.allocs }) needs found no_mac e)
