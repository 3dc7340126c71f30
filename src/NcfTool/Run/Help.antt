-- ===== src/NcfTool/Run/Help.antt =====
-- cmd_help of src/ncftool.c.
use fbsd_netcf.Prelude.{List, [], ◌∷◌, ◌++◌, Option, none, some, Text, codes, take, map}
use fbsd_netcf.NcfTool.Command.{
  opt_bool, opt_arg, opt_param, OptDef, CommandDef, CommandResult, res_ok, res_err, commands,
  lookup_cmd_def,
}
use fbsd_netcf.NcfTool.Run.{Print, out, err}

-- The loop of the synopsis.
unfoldable pub option_synopsis : OptDef → Print
option_synopsis odef = elim odef.tag [
  | opt_bool ↦ out (codes " [--%s]") (odef.name ∷ [])
  | opt_arg ↦ out (codes " <%s>") (odef.name ∷ [])
  | opt_param ↦ out (codes " [<%s>]") (odef.name ∷ [])
]

-- The help of an option, or the empty text.
unfoldable pub help_of : Option Text → Text
help_of none = []
help_of (some help) = help

-- The loop over the options. snprintf cuts the name in brackets after 99 bytes.
unfoldable pub option_help : OptDef → Print
option_help odef = elim odef.tag [
  | opt_bool ↦ out (codes "    --%-8s %s\n") (odef.name ∷ help_of odef.help ∷ [])
  | _ ↦
      out (codes "    %-10s %s\n")
        (take 99 (codes "<" ++ (odef.name ++ codes ">")) ∷ help_of odef.help ∷ [])
]

unfoldable pub command_summary : CommandDef → Print
command_summary def = out (codes "    %-10s - %s\n") (def.name ∷ def.synopsis ∷ [])

unfoldable pub help_on : Text → CommandDef → List Print
help_on name def =
    (out (codes "  COMMAND\n") []
      ∷ out (codes "    %s - %s\n\n") (name ∷ def.synopsis ∷ [])
      ∷ out (codes "  SYNOPSIS\n") []
      ∷ out (codes "    %s") (name ∷ [])
      ∷ map option_synopsis def.opts)
    ++ ((out (codes "\n\n") []
          ∷ out (codes "  DESCRIPTION\n    %s\n\n") (def.help ∷ [])
          ∷ out (codes "  OPTIONS\n") []
          ∷ map option_help def.opts)
        ++ (out (codes "\n") [] ∷ []))

-- cmd_help, with the command's name if it is given: its result and what it prints.
unfoldable pub help_with : Option Text → CommandResult × List Print
help_with none = (
  res_ok,
  out (codes "Commands:\n\n") []
      ∷ (map command_summary commands
          ++ (out (codes "\nType 'help <command>' for more information on a command\n\n") [] ∷ [])),
)
help_with (some name) = elim (lookup_cmd_def name) [
  | none ↦ (res_err, err (codes "unknown command %s\n") (name ∷ []) ∷ [])
  | some def ↦ (res_ok, help_on name def)
]
