-- ===== src/NcfTool/Command.antt =====
-- The command table of src/ncftool.c and the lookups in it and in a parsed command. The entries that
-- end a table in C, `cmd_def_last` and CMD_OPT_DEF_LAST, are the ends of the lists.
use fbsd_netcf.Prelude.{
  Bool, true, false, ◌||◌, List, [], ◌∷◌, Option, none, some, Text, codes, streq, if◌then◌else◌,
}

-- enum command_opt_tag, without CMD_OPT_NONE, which only the end of a table has
pub data OptTag : Type 0 where
  opt_bool opt_arg opt_param : OptTag

pub record OptDef : Type 0 where
  pub tag : OptTag
  pub name : Text
  pub help : Option Text

-- The handlers by name.
pub data Handler : Type 0 where
  cmd_list cmd_dump_xml cmd_define cmd_undefine cmd_if_up cmd_if_down : Handler
  cmd_change_begin cmd_change_commit cmd_change_rollback cmd_help cmd_quit : Handler

-- enum command_result
pub data CommandResult : Type 0 where
  res_ok res_err res_enomem res_quit res_unknown : CommandResult

pub record CommandDef : Type 0 where
  pub name : Text
  pub opts : List OptDef
  pub handler : Handler
  pub synopsis : Text
  pub help : Text

-- The union of struct command_opt: `bvalue` of an option, `string` of an argument.
pub data OptValue : Type 0 where
  flag : OptValue
  string : Text → OptValue

pub record CommandOpt : Type 0 where
  pub def : OptDef
  pub value : OptValue

pub record Command : Type 0 where
  pub def : CommandDef
  pub opt : List CommandOpt

abbrev pub cmd_list_opts : List OptDef
cmd_list_opts =
    record { tag = opt_bool; name = codes "macs"; help = some (codes "show MAC addresses") }
    ∷ record {
      tag = opt_bool;
      name = codes "all";
      help = some (codes "show all (up & down) interfaces");
    }
    ∷ record {
      tag = opt_bool;
      name = codes "inactive";
      help = some (codes "show only inactive (down) interfaces");
    }
    ∷ []

abbrev pub cmd_dump_xml_opts : List OptDef
cmd_dump_xml_opts =
    record {
      tag = opt_bool;
      name = codes "mac";
      help = some (codes "interpret the name as a MAC address");
    }
    ∷ record {
      tag = opt_bool;
      name = codes "live";
      help = some (codes "include information about the live interface");
    }
    ∷ record { tag = opt_arg; name = codes "name"; help = some (codes "the name of the interface") }
    ∷ []

abbrev pub cmd_if_up_opts : List OptDef
cmd_if_up_opts =
    record { tag = opt_arg; name = codes "iface"; help = some (codes "the name of the interface") }
    ∷ []

abbrev pub cmd_if_down_opts : List OptDef
cmd_if_down_opts =
    record { tag = opt_arg; name = codes "iface"; help = some (codes "the name of the interface") }
    ∷ []

abbrev pub cmd_define_opts : List OptDef
cmd_define_opts =
    record {
      tag = opt_arg;
      name = codes "xmlfile";
      help = some (codes "file containing the XML description of the interface");
    }
    ∷ []

abbrev pub cmd_undefine_opts : List OptDef
cmd_undefine_opts =
    record { tag = opt_arg; name = codes "iface"; help = some (codes "the name of the interface") }
    ∷ []

abbrev pub cmd_change_begin_opts : List OptDef
cmd_change_begin_opts = []

abbrev pub cmd_change_commit_opts : List OptDef
cmd_change_commit_opts = []

abbrev pub cmd_change_rollback_opts : List OptDef
cmd_change_rollback_opts = []

abbrev pub cmd_help_opts : List OptDef
cmd_help_opts = record { tag = opt_param; name = codes "command"; help = none } ∷ []

abbrev pub cmd_quit_opts : List OptDef
cmd_quit_opts = []

abbrev pub cmd_list_def : CommandDef
cmd_list_def = record {
  name = codes "list";
  opts = cmd_list_opts;
  handler = cmd_list;
  synopsis = codes "list network interfaces";
  help = codes "list the currently configured toplevel network interfaces";
}

abbrev pub cmd_dump_xml_def : CommandDef
cmd_dump_xml_def = record {
  name = codes "dumpxml";
  opts = cmd_dump_xml_opts;
  handler = cmd_dump_xml;
  synopsis = codes "dump the XML description of an interface";
  help = codes "dump the XML description of an interface";
}

abbrev pub cmd_if_up_def : CommandDef
cmd_if_up_def = record {
  name = codes "ifup";
  opts = cmd_if_up_opts;
  handler = cmd_if_up;
  synopsis = codes "bring up an interface";
  help = codes "bring up an interface";
}

abbrev pub cmd_if_down_def : CommandDef
cmd_if_down_def = record {
  name = codes "ifdown";
  opts = cmd_if_down_opts;
  handler = cmd_if_down;
  synopsis = codes "bring down an interface";
  help = codes "bring down an interface";
}

abbrev pub cmd_define_def : CommandDef
cmd_define_def = record {
  name = codes "define";
  opts = cmd_define_opts;
  handler = cmd_define;
  synopsis = codes "define an interface from an XML file";
  help = codes "define an interface from an XML file";
}

abbrev pub cmd_undefine_def : CommandDef
cmd_undefine_def = record {
  name = codes "undefine";
  opts = cmd_undefine_opts;
  handler = cmd_undefine;
  synopsis = codes "undefine an interface";
  help = codes "remove the configuration of an interface";
}

abbrev pub cmd_change_begin_def : CommandDef
cmd_change_begin_def = record {
  name = codes "change-begin";
  opts = cmd_change_begin_opts;
  handler = cmd_change_begin;
  synopsis = codes "mark the beginning of a set of revertible network config changes";
  help = codes "marks the beginning of a set of revertible network config changes";
}

abbrev pub cmd_change_commit_def : CommandDef
cmd_change_commit_def = record {
  name = codes "change-commit";
  opts = cmd_change_commit_opts;
  handler = cmd_change_commit;
  synopsis = codes "commit the pending network config changes";
  help = codes "commits (makes permanent) of a set of network config changes";
}

abbrev pub cmd_change_rollback_def : CommandDef
cmd_change_rollback_def = record {
  name = codes "change-rollback";
  opts = cmd_change_rollback_opts;
  handler = cmd_change_rollback;
  synopsis = codes "rollback (revert) a set of network config changes";
  help = codes "rollback (revert) a set of network config changes";
}

abbrev pub cmd_help_def : CommandDef
cmd_help_def = record {
  name = codes "help";
  opts = cmd_help_opts;
  handler = cmd_help;
  synopsis = codes "print help";
  help = codes "list all commands or print details about one command";
}

abbrev pub cmd_quit_def : CommandDef
cmd_quit_def = record {
  name = codes "quit";
  opts = cmd_quit_opts;
  handler = cmd_quit;
  synopsis = codes "exit the program";
  help = codes "exit this interactive program";
}

abbrev pub commands : List CommandDef
commands =
    cmd_list_def ∷ cmd_dump_xml_def ∷ cmd_define_def ∷ cmd_undefine_def ∷ cmd_if_up_def
    ∷ cmd_if_down_def ∷ cmd_change_begin_def ∷ cmd_change_commit_def ∷ cmd_change_rollback_def
    ∷ cmd_help_def ∷ cmd_quit_def ∷ []

unfoldable pub opt_def_is_arg : OptDef → Bool
opt_def_is_arg def = elim def.tag [ opt_arg ↦ true | opt_param ↦ true | opt_bool ↦ false ]

unfoldable pub lookup_in : List CommandDef → Text → Option CommandDef
lookup_in [] name = none
lookup_in (c ∷ cs) name = if streq name c.name then some c else lookup_in cs name

unfoldable pub lookup_cmd_def : Text → Option CommandDef
unfolding lookup_in
lookup_cmd_def = lookup_in commands

unfoldable pub present_in : List CommandOpt → Text → Bool
present_in [] name = false
present_in (o ∷ os) name = streq o.def.name name || present_in os name

unfoldable pub opt_present : Command → Text → Bool
unfolding present_in
opt_present cmd = present_in cmd.opt

-- `o->string`. Of an option with a Boolean value it is no text.
unfoldable pub string_of : OptValue → Option Text
string_of flag = none
string_of (string s) = some s

unfoldable pub value_in : List CommandOpt → Text → Option Text
unfolding string_of
value_in [] name = none
value_in (o ∷ os) name = if streq o.def.name name then string_of o.value else value_in os name

-- `none` where the code returns NULL.
unfoldable pub param_value : Command → Text → Option Text
unfolding value_in
param_value cmd = value_in cmd.opt
