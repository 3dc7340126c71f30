-- ===== src/NcfTool/Parse.antt =====
-- parseline of src/ncftool.c. `allocs` says of each coming allocation whether it succeeds; behind its
-- end all do. What goes to stderr is a list of complaints.
pub mod Tokens
pub mod Outcomes
pub mod Takes
pub mod Arguments
pub mod Quirks
mod Tests
use fbsd_netcf.Prelude.{
  ℕ, zero, suc, ◌+◌, Bool, true, false, ◌&&◌, List, [], ◌∷◌, ◌++◌, Option, none, some, Text, ltb,
  ◌==◌, if◌then◌else◌, length, streq,
}
use fbsd_netcf.Alloc.{alloc}
use fbsd_netcf.NcfTool.Token.{nexttoken}
use fbsd_netcf.NcfTool.Command.{
  OptTag, opt_bool, opt_arg, opt_param, OptDef, CommandDef, CommandOpt, OptValue, flag, string,
  Command, opt_def_is_arg, lookup_cmd_def,
}

pub data Complaint : Type 0 where
  unknown_command : Text → Complaint
  mandatory_after_optional : Complaint
  illegal_option : Text → Complaint
  too_many_arguments : Text → ℕ → Complaint
  not_enough_arguments : Text → Complaint
  allocation_failed : Complaint

-- How far the parse is: going on, or at `return -1`, at `exit(2)`, at the failing `assert(0)` or at the
-- store through the NULL that make_command_opt gave (`null_opt`), which C leaves undefined.
-- `out_of_fuel` and `dangling` (the table entry at which an argument is stored is the end of the
-- table) are of the model.
pub data Status : Type 0 where
  going failed exited aborted null_opt out_of_fuel dangling : Status

-- The variables of the loop: `cmd->opt`, `curarg`, stderr, and the allocator.
pub record Progress : Type 0 where
  pub opt : List CommandOpt
  pub curarg : ℕ
  pub stderr : List Complaint
  pub allocs : List Bool

-- list_append
unfoldable pub list_append : List CommandOpt → CommandOpt → List CommandOpt
list_append [] tail = tail ∷ []
list_append (p ∷ head) tail = p ∷ list_append head tail

abbrev complain : Complaint → Progress → Progress
complain c p = record p { stderr = p.stderr ++ (c ∷ []) }

-- make_command_opt, together with the store of the value in the new entry.
unfoldable pub make_command_opt : OptDef → OptValue → Progress → Progress × Status
unfolding list_append
make_command_opt def value p =
    let (ok, allocs) = alloc p.allocs in
    let made : Progress = record p {
      opt = list_append p.opt (record { def = def; value = value });
      allocs = allocs;
    } in
    let refused : Progress = record (complain allocation_failed p) { allocs = allocs } in
    if ok then (made, going) else (refused, failed)

-- for (def = cmd->def->opts; def->name != NULL; def++) if (STREQ(opt, def->name))
unfoldable pub find_option : Text → List OptDef → Option OptDef
find_option opt [] = none
find_option opt (d ∷ ds) = if streq opt d.name then some d else find_option opt ds

-- The name behind one or two dashes.
unfoldable pub option_name : Text → Text
option_name [] = []
option_name (c ∷ opt) = if c == b'-' then opt else c ∷ opt

-- assert(0), once the entry is there.
unfoldable pub assert_bool : Progress × Status → Progress × Status
assert_bool (p, going) = (p, aborted)
assert_bool (p, other) = (p, other)

-- What is done for an option of this tag.
unfoldable pub store_option : OptTag → OptDef → Progress → Progress × Status
unfolding make_command_opt assert_bool
store_option opt_bool def p = make_command_opt def flag p
store_option _ def p = assert_bool (make_command_opt def flag p)

-- The rest of the loop's body for a token with a dash in front, `opt` being the token behind it.
unfoldable pub parse_option : CommandDef → Text → Text → Progress → Progress × Status
unfolding find_option option_name store_option
parse_option c tok opt p = elim (find_option (option_name opt) c.opts) [
  | none ↦ (complain (illegal_option tok) p, going)
  | some def ↦ store_option def.tag def p
]

-- for (; def->name != NULL && !opt_def_is_arg(def); def++);
unfoldable pub skip_to_arg : List OptDef → List OptDef
skip_to_arg [] = []
skip_to_arg (d ∷ ds) = if opt_def_is_arg d then d ∷ ds else skip_to_arg ds

-- The search for the definition of argument number `curarg`: the two loops of the code.
unfoldable pub arg_def : ℕ → List OptDef → List OptDef
unfolding skip_to_arg
arg_def zero ds = skip_to_arg ds
arg_def (suc curarg) ds = skip_to_arg (arg_def curarg ds)

-- opt->string = tok; curarg += 1; without a test of the pointer.
unfoldable pub count_arg : Progress × Status → Progress × Status
count_arg (p, going) = (record p { curarg = p.curarg + 1 }, going)
count_arg (p, failed) = (p, null_opt)
count_arg (p, other) = (p, other)

-- The definition that was found is the first of the list.
unfoldable pub store_arg : List OptDef → Text → Progress → Progress × Status
unfolding count_arg make_command_opt
store_arg [] tok p = (p, dangling)
store_arg (def ∷ _) tok p = count_arg (make_command_opt def (string tok) p)

-- The rest of the loop's body for an argument. `max` is `narg + nparam`.
unfoldable pub parse_arg : CommandDef → ℕ → Text → Progress → Progress × Status
unfolding store_arg
parse_arg c max tok p =
    if ltb p.curarg max
    then store_arg (arg_def p.curarg c.opts) tok p
    else (complain (too_many_arguments c.name max) p, failed)

-- One round of the loop, on the token that it takes off the line.
unfoldable pub parse_token : CommandDef → ℕ → Text → Progress → Progress × Status
parse_token c max [] p = parse_arg c max [] p
parse_token c max (d ∷ opt) p =
    if d == b'-' then parse_option c (d ∷ opt) opt p else parse_arg c max (d ∷ opt) p

-- while (*line != '\0'), on fuel.
unfoldable pub parse_loop : CommandDef → ℕ → ℕ → Text → Progress → Progress × Status
parse_loop c max fuel [] p = (p, going)
parse_loop c max zero (d ∷ line) p = (p, out_of_fuel)
parse_loop c max (suc fuel) (d ∷ line) p =
    let (tok, line') = nexttoken (d ∷ line) in
    let (p', status) = parse_token c max tok p in
    elim status [ going ↦ parse_loop c max fuel line' p' | other ↦ (p', other) ]

-- The loop that counts into `narg` and `nparam`; `none` at a mandatory argument after an optional
-- one.
unfoldable pub count_args : List OptDef → ℕ → ℕ → Option (ℕ × ℕ)
count_args [] narg nparam = some (narg, nparam)
count_args (d ∷ ds) narg nparam = elim d.tag [
  | opt_arg ↦ if ltb 0 nparam then none else count_args ds (narg + 1) nparam
  | opt_param ↦ count_args ds narg (nparam + 1)
  | opt_bool ↦ count_args ds narg nparam
]

-- A parse ends with `*cmd` (`none` where the command is unknown), the progress and a status; `going`
-- stands for `return 0`.
pub record Parsed : Type 0 where
  pub def : Option CommandDef
  pub progress : Progress
  pub status : Status

-- if (curarg < narg)
unfoldable pub check_count : CommandDef → ℕ → Progress × Status → Progress × Status
check_count c narg (p, going) =
    if ltb p.curarg narg then (complain (not_enough_arguments c.name) p, failed) else (p, going)
check_count c narg (p, failed) = (p, failed)
check_count c narg (p, exited) = (p, exited)
check_count c narg (p, aborted) = (p, aborted)
check_count c narg (p, null_opt) = (p, null_opt)
check_count c narg (p, out_of_fuel) = (p, out_of_fuel)
check_count c narg (p, dangling) = (p, dangling)

-- What follows once the command is known, on the line behind its name.
unfoldable pub parse_command : CommandDef → Text → Progress → Progress × Status
unfolding check_count
parse_command c line p = elim (count_args c.opts 0 0) [
  | none ↦ (complain mandatory_after_optional p, exited)
  | some (narg, nparam) ↦ check_count c narg (parse_loop c (narg + nparam) (length line) line p)
]

-- MEMZERO(cmd, 1), no argument seen, nothing said.
abbrev pub start : List Bool → Progress
start allocs = record { opt = []; curarg = 0; stderr = []; allocs = allocs }

unfoldable pub parseline : List Bool → Text → Parsed
parseline allocs line =
    let (tok, line') = nexttoken line in
    elim (lookup_cmd_def tok) [
      | none ↦ record {
        def = none;
        progress = complain (unknown_command tok) (start allocs);
        status = failed;
      }
      | some c ↦
          let (p, status) = parse_command c line' (start allocs) in
          record { def = some c; progress = p; status = status }
    ]

-- The command that the handler is called with.
unfoldable pub command_of : CommandDef → Progress → Command
command_of c p = record { def = c; opt = p.opt }
