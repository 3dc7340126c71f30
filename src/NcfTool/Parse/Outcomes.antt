-- ===== src/NcfTool/Parse/Outcomes.antt =====
-- How a call of parseline in src/ncftool.c ends.
use fbsd_netcf.Prelude.{
  ℕ, zero, suc, ◌+◌, ◌≡◌, ◌≢◌, refl, ◌⊎◌, inl, inr, ◌<◌, List, [], ◌∷◌, arith, Text, none, some,
  ltb, ltb→lt, Bool, Bool-cases, Option-cases, All, streq,
}
use fbsd_netcf.NcfTool.Token.{nexttoken}
use fbsd_netcf.NcfTool.Command.{
  CommandDef, OptDef, opt_def_is_arg, commands, lookup_cmd_def, lookup_in,
}
use fbsd_netcf.NcfTool.Parse.{
  Progress, Status, going, failed, exited, aborted, null_opt, out_of_fuel, dangling, parse_token,
  parse_option, parse_arg, make_command_opt, skip_to_arg, arg_def, check_count, count_args,
  parse_command, parseline, start, store_arg,
}
use fbsd_netcf.NcfTool.Parse.Tokens.{tokens, run_tokens, parse_command-tokens}

-- The ends that a call can come to.
abbrev pub Ends : Status → Type 0
Ends s = (s ≡ going) ⊎ ((s ≡ failed) ⊎ ((s ≡ aborted) ⊎ (s ≡ null_opt)))

skip_to_arg_idem : (ds : List OptDef) → skip_to_arg (skip_to_arg ds) ≡ skip_to_arg ds
unfolding skip_to_arg
skip_to_arg_idem [] = refl
skip_to_arg_idem (d ∷ ds) = ground (arith, skip_to_arg_idem ds)

-- The inner loop of the search for an argument's definition does not step over the definition at
-- which it stands, so every argument, whatever its number, is stored at the first one.
pub arg_def_first : (curarg : ℕ) (ds : List OptDef) → arg_def curarg ds ≡ arg_def 0 ds
unfolding arg_def
arg_def_first zero ds = refl
arg_def_first (suc k) ds = rw (arg_def_first k ds) (skip_to_arg_idem ds)

-- Where no definition is one of an argument, none is counted.
count_without_args :
    (ds : List OptDef) (a b : ℕ) {n m : ℕ}
    → skip_to_arg ds ≡ []
    → count_args ds a b ≡ some (n, m)
    → n + m ≡ a + b
unfolding skip_to_arg count_args opt_def_is_arg
count_without_args [] a b e f = ground arith
count_without_args (d ∷ ds) a b {n} {m} e f =
    ground (arith, count_without_args ds a b {n = n} {m = m})

make-Ends : (d : OptDef) (v : _) (p : Progress) → Ends (make_command_opt d v p).1
unfolding make_command_opt
make-Ends d v p = ground arith

option-Ends : (c : CommandDef) (tok opt : Text) (p : Progress) → Ends (parse_option c tok opt p).1
unfolding parse_option
option-Ends c tok opt p = ground arith

store-Ends : (ds : List OptDef) (tok : Text) (p : Progress) → ds ≢ [] → Ends (store_arg ds tok p).1
unfolding store_arg
store-Ends [] tok p h = absurd (h refl)
store-Ends (d ∷ ds) tok p h = ground arith

-- Some definition is one of an argument, if arguments are admitted at all.
abbrev pub HasArg : CommandDef → ℕ → Type 0
HasArg c max = 0 < max → skip_to_arg c.opts ≢ []

arg-Ends :
    (c : CommandDef) (max : ℕ) (tok : Text) (p : Progress)
    → HasArg c max
    → Ends (parse_arg c max tok p).1
unfolding parse_arg arg_def
arg-Ends c max tok p h = elim (Bool-cases (ltb p.curarg max)) [
  | inr many ↦ rw many (inr (inl refl))
  | inl few ↦
      rw (few, arg_def_first p.curarg c.opts)
        (store-Ends (skip_to_arg c.opts) tok p (h (omega (arith, ltb→lt p.curarg max few))))
]

token-Ends :
    (c : CommandDef) (max : ℕ) (tok : Text) (p : Progress)
    → HasArg c max
    → Ends (parse_token c max tok p).1
unfolding parse_token
token-Ends c max [] p h = arg-Ends c max [] p h
token-Ends c max (d ∷ opt) p h =
    ground (arith, option-Ends c (d ∷ opt) opt p, arg-Ends c max (d ∷ opt) p h)

run-Ends :
    (c : CommandDef) (max : ℕ) (ts : List Text) (p : Progress)
    → HasArg c max
    → Ends (run_tokens c max ts p).1
unfolding run_tokens
run-Ends c max [] p h = inl refl
run-Ends c max (t ∷ ts) p h =
    ground (arith, token-Ends c max t p h, run-Ends c max ts (parse_token c max t p).0 h)

check-Ends :
    (c : CommandDef) (n : ℕ) (r : Progress × Status) → Ends r.1 → Ends (check_count c n r).1
unfolding check_count
check-Ends c n (p, going) h = ground arith
check-Ends c n (p, failed) h = h
check-Ends c n (p, exited) h = h
check-Ends c n (p, aborted) h = h
check-Ends c n (p, null_opt) h = h
check-Ends c n (p, out_of_fuel) h = h
check-Ends c n (p, dangling) h = h

-- A command whose mandatory arguments all come first is parsed to an end, with the length of the
-- line for fuel.
pub parse_command-Ends :
    (c : CommandDef) (line : Text) (p : Progress)
    → count_args c.opts 0 0 ≢ none
    → Ends (parse_command c line p).1
parse_command-Ends c line p counted = elim (Option-cases (count_args c.opts 0 0)) [
  | inl e ↦ absurd (counted e)
  | inr ((narg, nparam), e) ↦ rw (parse_command-tokens c line p e) (
      check-Ends c narg (run_tokens c (narg + nparam) (tokens line) p) (
        run-Ends c (narg + nparam) (tokens line) p
          (λ pos none_there. absurd (omega (arith, count_without_args c.opts 0 0 none_there e)))))
]

-- What holds of every command of a table holds of the one that is found.
pub lookup_in-All :
    (P : CommandDef → Type 0) (cs : List CommandDef) (name : Text) {c : CommandDef}
    → All P cs
    → lookup_in cs name ≡ some c
    → P c
unfolding lookup_in
lookup_in-All P [] name all e = absurd (cc)
lookup_in-All P (d ∷ cs) name {c} all e = elim (Bool-cases (streq name d.name)) [
  | inl this ↦
      let e_this : some d ≡ some c = rw this at e in let same : d ≡ c = cc in rw (← same) all.0
  | inr other ↦ lookup_in-All P cs name all.1 (rw other at e)
]

pub lookup_cmd_def-All :
    (P : CommandDef → Type 0) (name : Text) {c : CommandDef}
    → All P commands
    → lookup_cmd_def name ≡ some c
    → P c
unfolding lookup_cmd_def
lookup_cmd_def-All P name all e = lookup_in-All P commands name all e

table_counted : All (λ c. count_args c.opts 0 0 ≢ none) commands
unfolding count_args
table_counted = ground arith

-- Every line, whatever allocations fail, is parsed to an end: the command is called, or an error is
-- reported, or the assertion fails, or the code stores an argument through the NULL that it got for a
-- failed allocation, which C leaves undefined. No argument is stored at the end of the table, and the fuel of
-- the model lasts.
pub parseline-Ends : (allocs : List Bool) (line : Text) → Ends (parseline allocs line).status
unfolding parseline
parseline-Ends allocs line =
    let (tok, line') = nexttoken line in
    elim (Option-cases (lookup_cmd_def tok)) [
      | inl unknown ↦ rw (unknown, parseline) (inr (inl refl))
      | inr (c, known) ↦
          rw (known, parseline)
            (parse_command-Ends c line' (start allocs)
              (lookup_cmd_def-All (λ d. count_args d.opts 0 0 ≢ none) tok table_counted known))
    ]
