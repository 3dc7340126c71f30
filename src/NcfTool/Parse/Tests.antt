-- ===== src/NcfTool/Parse/Tests.antt =====
-- The theorems on the command line of src/ncftool.c at concrete lines.
use fbsd_netcf.Prelude.{◌≡◌, refl, false, List, [], ◌∷◌, none, some, Text, codes, streq}
use fbsd_netcf.NcfTool.Token.{nexttoken, command_line, isblank}
use fbsd_netcf.NcfTool.Command.{
  cmd_if_up_def, OptDef, opt_arg, param_value, lookup_cmd_def, opt_def_is_arg,
}
use fbsd_netcf.NcfTool.Parse.{
  parseline, parse_token, parse_command, command_of, count_args, arg_def, parse_loop, parse_arg,
  skip_to_arg,
}
use fbsd_netcf.NcfTool.Parse.Tokens.{tokens, tokens-command_line}
use fbsd_netcf.NcfTool.Parse.Outcomes.{Ends, parseline-Ends}
use fbsd_netcf.NcfTool.Parse.Arguments.{parseline_argument, needed_arg}

abbrev if_up_line : Text
if_up_line = codes "ifup em0"

parseline_argument_example :
    (v : Text) × (param_value
        (command_of cmd_if_up_def (parseline [] if_up_line).progress)
        (codes "iface")
      ≡ some v)
unfolding parseline lookup_cmd_def streq nexttoken parse_command parse_loop parse_token parse_arg
    count_args skip_to_arg arg_def opt_def_is_arg needed_arg
parseline_argument_example =
    parseline_argument [] if_up_line {c = cmd_if_up_def} {n = codes "iface"} refl refl refl

parseline-Ends_example : Ends (parseline (false ∷ []) if_up_line).status
parseline-Ends_example = parseline-Ends (false ∷ []) if_up_line

abbrev two_words : List Text
two_words = codes "ifup" ∷ codes "em0" ∷ []

tokens-command_line_example : tokens (command_line two_words) ≡ two_words
unfolding isblank
tokens-command_line_example =
    tokens-command_line two_words
      ((refl, (refl, (refl, (refl, (refl, tt))))), ((refl, (refl, (refl, (refl, tt)))), tt))

abbrev two_args : List OptDef
two_args =
    record { tag = opt_arg; name = codes "src"; help = none }
    ∷ record { tag = opt_arg; name = codes "dst"; help = none }
    ∷ []
