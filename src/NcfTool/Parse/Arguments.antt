-- ===== src/NcfTool/Parse/Arguments.antt =====
-- The arguments that parseline of src/ncftool.c hands to a handler.
use fbsd_netcf.Prelude.{
  ◌≡◌, refl, inl, inr, List, [], arith, Text, codes, Option, none, some, Bool, Option-cases, All,
  streq,
}
use fbsd_netcf.NcfTool.Token.{nexttoken}
use fbsd_netcf.NcfTool.Command.{
  cmd_dump_xml_def, cmd_define_def, cmd_undefine_def, cmd_if_up_def, cmd_if_down_def, CommandDef,
  opt_def_is_arg, commands, lookup_cmd_def, opt_arg, Handler, cmd_dump_xml, cmd_define,
  cmd_undefine, cmd_if_up, cmd_if_down, value_in, param_value,
}
use fbsd_netcf.NcfTool.Parse.{
  going, skip_to_arg, count_args, parse_command, parseline, start, command_of,
}
use fbsd_netcf.NcfTool.Parse.Tokens.{tokens, run_tokens, parse_command-tokens}
use fbsd_netcf.NcfTool.Parse.Outcomes.{lookup_cmd_def-All}
use fbsd_netcf.NcfTool.Parse.Takes.{Takes, run-Holds, check-Holds}

-- The name that a handler hands to arg_value, which exits if the argument has no value.
unfoldable pub needed_arg : Handler → Option Text
needed_arg cmd_dump_xml = some (codes "name")
needed_arg cmd_define = some (codes "xmlfile")
needed_arg cmd_undefine = some (codes "iface")
needed_arg cmd_if_up = some (codes "iface")
needed_arg cmd_if_down = some (codes "iface")
needed_arg _ = none

cmd_dump_xml_def-Takes : Takes cmd_dump_xml_def (codes "name")
unfolding skip_to_arg opt_def_is_arg streq count_args
cmd_dump_xml_def-Takes = record {
  first = record {
    tag = opt_arg;
    name = codes "name";
    help = some (codes "the name of the interface");
  };
  others = [];
  stored = refl;
  named = refl;
  counted = refl;
  options = ground arith;
}

cmd_define_def-Takes : Takes cmd_define_def (codes "xmlfile")
unfolding skip_to_arg opt_def_is_arg streq count_args
cmd_define_def-Takes = record {
  first = record {
    tag = opt_arg;
    name = codes "xmlfile";
    help = some (codes "file containing the XML description of the interface");
  };
  others = [];
  stored = refl;
  named = refl;
  counted = refl;
  options = ground arith;
}

cmd_undefine_def-Takes : Takes cmd_undefine_def (codes "iface")
unfolding skip_to_arg opt_def_is_arg streq count_args
cmd_undefine_def-Takes = record {
  first = record {
    tag = opt_arg;
    name = codes "iface";
    help = some (codes "the name of the interface");
  };
  others = [];
  stored = refl;
  named = refl;
  counted = refl;
  options = ground arith;
}

cmd_if_up_def-Takes : Takes cmd_if_up_def (codes "iface")
unfolding skip_to_arg opt_def_is_arg streq count_args
cmd_if_up_def-Takes = record {
  first = record {
    tag = opt_arg;
    name = codes "iface";
    help = some (codes "the name of the interface");
  };
  others = [];
  stored = refl;
  named = refl;
  counted = refl;
  options = ground arith;
}

cmd_if_down_def-Takes : Takes cmd_if_down_def (codes "iface")
unfolding skip_to_arg opt_def_is_arg streq count_args
cmd_if_down_def-Takes = record {
  first = record {
    tag = opt_arg;
    name = codes "iface";
    help = some (codes "the name of the interface");
  };
  others = [];
  stored = refl;
  named = refl;
  counted = refl;
  options = ground arith;
}

-- A name that is needed is the one that the table has.
needed_arg-Takes : (c : CommandDef) (m n : Text) → Takes c m → some m ≡ some n → Takes c n
needed_arg-Takes c m n t e = let same : m ≡ n = cc in rw (← same) t

commands-Takes : All (λ c. (n : Text) → needed_arg c.handler ≡ some n → Takes c n) commands
unfolding needed_arg
commands-Takes = (
  λ n e. absurd (cc),
  (
    λ n e. needed_arg-Takes cmd_dump_xml_def (codes "name") n cmd_dump_xml_def-Takes e,
    (
      λ n e. needed_arg-Takes cmd_define_def (codes "xmlfile") n cmd_define_def-Takes e,
      (
        λ n e. needed_arg-Takes cmd_undefine_def (codes "iface") n cmd_undefine_def-Takes e,
        (
          λ n e. needed_arg-Takes cmd_if_up_def (codes "iface") n cmd_if_up_def-Takes e,
          (
            λ n e. needed_arg-Takes cmd_if_down_def (codes "iface") n cmd_if_down_def-Takes e,
            (
              λ n e. absurd (cc),
              (
                λ n e. absurd (cc),
                (λ n e. absurd (cc), (λ n e. absurd (cc), (λ n e. absurd (cc), tt))),
              ),
            ),
          ),
        ),
      ),
    ),
  ),
)

command_argument :
    (c : CommandDef) (n line : Text) (allocs : List Bool)
    → Takes c n
    → (parse_command c line (start allocs)).1 ≡ going
    → (v : Text) × (value_in (parse_command c line (start allocs)).0.opt n ≡ some v)
command_argument c n line allocs t = rw (parse_command-tokens c line (start allocs) t.counted) (
    check-Holds c n t (run_tokens c 1 (tokens line) (start allocs))
      (run-Holds c n t (tokens line) (start allocs) (inr (refl, tt))))

-- If parseline returns 0, then a handler that needs an argument finds a value under its name, so
-- that arg_value does not exit.
pub parseline_argument :
    (allocs : List Bool) (line : Text) {c : CommandDef} {n : Text}
    → (parseline allocs line).def ≡ some c
    → (parseline allocs line).status ≡ going
    → needed_arg c.handler ≡ some n
    → (v : Text) × (param_value (command_of c (parseline allocs line).progress) n ≡ some v)
unfolding parseline param_value command_of
parseline_argument allocs line {c} {n} =
    let (tok, line') = nexttoken line in
    elim (Option-cases (lookup_cmd_def tok)) [
      | inl unknown ↦ rw (unknown, parseline) (λ known ok needs. absurd (cc))
      | inr (d, found) ↦
          rw (found, parseline)
            (λ known ok needs.
              let same : d ≡ c = cc in
              let takes : Takes d n =
                lookup_cmd_def-All (λ x. (m : Text) → needed_arg x.handler ≡ some m → Takes x m) tok
                  commands-Takes found n (rw same needs) in
              command_argument d n line' allocs takes ok)
    ]
