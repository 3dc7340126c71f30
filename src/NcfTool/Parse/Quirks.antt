-- ===== src/NcfTool/Parse/Quirks.antt =====
-- Lines that parseline of src/ncftool.c does not take as its comments and messages suggest.
use fbsd_netcf.Prelude.{ℕ, ◌≡◌, ◌≢◌, refl, Text, true, codes, some, ◌++◌}
use fbsd_netcf.Alloc.{alloc}
use fbsd_netcf.NcfTool.Command.{CommandDef, OptDef, OptTag, opt_bool, opt_arg, opt_param}
use fbsd_netcf.NcfTool.Parse.{
  Progress, aborted, parse_option, parse_token, find_option, store_option, make_command_opt,
  assert_bool,
}

stores_nothing :
    (t : OptTag) (d : OptDef) (p : Progress)
    → t ≢ opt_bool
    → (alloc p.allocs).0 ≡ true
    → (store_option t d p).1 ≡ aborted
unfolding store_option
stores_nothing opt_bool d p arg ok = absurd (arg refl)
stores_nothing opt_arg d p arg ok = rw (ok, assert_bool, make_command_opt)
stores_nothing opt_param d p arg ok = rw (ok, assert_bool, make_command_opt)

-- A token "--name", where the first entry of the command's table with that name is no Boolean
-- option, runs into assert(0), unless the allocation fails before.
named_argument_aborts :
    (c : CommandDef) (max : ℕ) (name : Text) (p : Progress) {d : OptDef}
    → find_option name c.opts ≡ some d
    → d.tag ≢ opt_bool
    → (alloc p.allocs).0 ≡ true
    → (parse_token c max (codes "--" ++ name) p).1 ≡ aborted
unfolding parse_token parse_option
named_argument_aborts c max name p {d} found arg ok =
    rw (found, parse_option) (stores_nothing d.tag d p arg ok)
