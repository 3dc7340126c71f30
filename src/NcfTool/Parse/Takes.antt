-- ===== src/NcfTool/Parse/Takes.antt =====
-- Tables of src/ncftool.c with one mandatory argument: parseline stores it under its name.
use fbsd_netcf.Prelude.{
  ◌≡◌, refl, ◌⊎◌, inl, inr, List, [], ◌∷◌, arith, Text, some, ltb, ◌==◌, true, false, Bool-cases,
  Option-cases, All, streq,
}
use fbsd_netcf.Alloc.{alloc}
use fbsd_netcf.NcfTool.Command.{
  CommandDef, CommandOpt, OptDef, OptTag, OptValue, flag, string, opt_bool, opt_arg, opt_param,
  value_in,
}
use fbsd_netcf.NcfTool.Parse.{
  Progress, Status, going, failed, exited, aborted, null_opt, out_of_fuel, dangling, parse_token,
  parse_option, parse_arg, list_append, find_option, make_command_opt, skip_to_arg, arg_def,
  check_count, count_args, count_arg, store_arg, store_option, option_name,
}
use fbsd_netcf.NcfTool.Parse.Tokens.{run_tokens}
use fbsd_netcf.NcfTool.Parse.Outcomes.{arg_def_first}

-- The command has one mandatory argument, of this name, and no option has that name.
pub record Takes (c : CommandDef) (n : Text) : Type 0 where
  pub first : OptDef
  pub others : List OptDef
  pub stored : skip_to_arg c.opts ≡ first ∷ others
  pub named : streq first.name n ≡ true
  pub counted : count_args c.opts 0 0 ≡ some (1, 0)
  pub options : All (λ d. (d.tag ≡ opt_bool) → streq d.name n ≡ false) c.opts

-- The argument is there, or none has come yet and no entry has its name.
abbrev pub Holds : Text → Progress → Type 0
Holds n p =
    ((v : Text) × (value_in p.opt n ≡ some v))
    ⊎ ((p.curarg ≡ 0) × All (λ o. streq o.def.name n ≡ false) p.opt)

value_in-append :
    (os : List CommandOpt) (o : CommandOpt) (n v : Text)
    → value_in os n ≡ some v
    → value_in (list_append os o) n ≡ some v
unfolding value_in list_append
value_in-append [] o n v h = absurd (cc)
value_in-append (x ∷ os) o n v h = ground (arith, value_in-append os o n v)

value_in-new :
    (os : List CommandOpt) (o : CommandOpt) (n v : Text)
    → All (λ x. streq x.def.name n ≡ false) os
    → streq o.def.name n ≡ true
    → o.value ≡ string v
    → value_in (list_append os o) n ≡ some v
unfolding value_in list_append
value_in-new [] o n v all e f = rw (e, f)
value_in-new (x ∷ os) o n v all e f = rw all.0 (value_in-new os o n v all.1 e f)

All-append :
    (os : List CommandOpt) (o : CommandOpt) (n : Text)
    → All (λ x. streq x.def.name n ≡ false) os
    → streq o.def.name n ≡ false
    → All (λ x. streq x.def.name n ≡ false) (list_append os o)
unfolding list_append
All-append [] o n all e = (e, tt)
All-append (x ∷ os) o n all e = (all.0, All-append os o n all.1 e)

find_option-All :
    (P : OptDef → Type 0) (opt : Text) (ds : List OptDef) {d : OptDef}
    → All P ds
    → find_option opt ds ≡ some d
    → P d
unfolding find_option
find_option-All P opt [] all e = absurd (cc)
find_option-All P opt (x ∷ ds) {d} all e = elim (Bool-cases (streq opt x.name)) [
  | inl this ↦
      let e_this : some x ≡ some d = rw this at e in let same : x ≡ d = cc in rw (← same) all.0
  | inr other ↦ find_option-All P opt ds all.1 (rw other at e)
]

-- An entry for an option keeps what holds of the entries before it.
flag-Holds :
    (n : Text) (d : OptDef) (p : Progress)
    → streq d.name n ≡ false
    → Holds n p
    → Holds n (make_command_opt d flag p).0
unfolding make_command_opt
flag-Holds n d p e (inl (v, has)) = elim (Bool-cases (alloc p.allocs).0) [
  | inl ok ↦ inl (v, rw (ok, make_command_opt) (value_in-append p.opt _ n v has))
  | inr refused ↦ inl (v, rw (refused, make_command_opt) has)
]
flag-Holds n d p e (inr (none_yet, all)) = elim (Bool-cases (alloc p.allocs).0) [
  | inl ok ↦ inr (rw (ok, make_command_opt) (none_yet, All-append p.opt _ n all e))
  | inr refused ↦ inr (rw (refused, make_command_opt) (none_yet, all))
]

option-Holds :
    (n : Text) (d : OptDef) (t : OptTag) (p : Progress)
    → (t ≡ opt_bool → streq d.name n ≡ false)
    → Holds n p
    → (store_option t d p).1 ≡ going
    → Holds n (store_option t d p).0
unfolding store_option
option-Holds n d opt_bool p other h e = flag-Holds n d p (other refl) h
option-Holds n d opt_arg p other h e = absurd (ground arith)
option-Holds n d opt_param p other h e = absurd (ground arith)

make_ok :
    (d : OptDef) (v : OptValue) (p : Progress)
    → (alloc p.allocs).0 ≡ true
    → (make_command_opt d v p).0.opt ≡ list_append p.opt (record { def = d; value = v })
unfolding make_command_opt
make_ok d v p ok = rw (ok, make_command_opt)

make_refused :
    (d : OptDef) (v : OptValue) (p : Progress)
    → (alloc p.allocs).0 ≡ false
    → ((make_command_opt d v p).0.opt ≡ p.opt) × ((make_command_opt d v p).1 ≡ failed)
unfolding make_command_opt
make_refused d v p refused = ground arith

stored_value :
    (n : Text) (d : OptDef) (tok : Text) (p : Progress)
    → streq d.name n ≡ true
    → Holds n p
    → (v : Text) × (value_in (list_append p.opt (record { def = d; value = string tok })) n
        ≡ some v)
stored_value n d tok p name (inl (v, has)) = (v, value_in-append p.opt _ n v has)
stored_value n d tok p name (inr (none_yet, all)) = (tok, value_in-new p.opt _ n tok all name refl)

count_arg-opt : (r : Progress × Status) → (count_arg r).0.opt ≡ r.0.opt
unfolding count_arg
count_arg-opt (p, going) = refl
count_arg-opt (p, failed) = refl
count_arg-opt (p, other) = refl

count_arg-failed : (r : Progress × Status) → r.1 ≡ failed → (count_arg r).1 ≡ going → ⊥
unfolding count_arg
count_arg-failed (p, going) f e = cc
count_arg-failed (p, failed) f e = cc
count_arg-failed (p, other) f e = cc

-- The entry for an argument is found under the name of the argument.
store-Holds :
    (n : Text) (d : OptDef) (ds : List OptDef) (tok : Text) (p : Progress)
    → streq d.name n ≡ true
    → Holds n p
    → (store_arg (d ∷ ds) tok p).1 ≡ going
    → (v : Text) × (value_in (store_arg (d ∷ ds) tok p).0.opt n ≡ some v)
unfolding store_arg
store-Holds n d ds tok p name h e = elim (Bool-cases (alloc p.allocs).0) [
  | inl ok ↦
      let (v, has) = stored_value n d tok p name h in
      (
        v,
        rw (count_arg-opt (make_command_opt d (string tok) p))
            (rw (make_ok d (string tok) p ok) has),
      )
  | inr refused ↦ absurd (
      count_arg-failed (make_command_opt d (string tok) p) (make_refused d (string tok) p refused).1
        e)
]

module _ (c : CommandDef) (n : Text) (t : Takes c n) where
  arg-Holds :
      (tok : Text) (p : Progress)
      → Holds n p
      → (parse_arg c 1 tok p).1 ≡ going
      → Holds n (parse_arg c 1 tok p).0
  unfolding parse_arg arg_def
  arg-Holds tok p h = elim (Bool-cases (ltb p.curarg 1)) [
    | inl few ↦
        rw (few, arg_def_first p.curarg c.opts, t.stored)
          (λ e. inl (store-Holds n t.first t.others tok p t.named h e))
    | inr many ↦ rw many (λ e. absurd (cc))
  ]

  found-Holds :
      (tok opt : Text) (p : Progress)
      → Holds n p
      → (parse_option c tok opt p).1 ≡ going
      → Holds n (parse_option c tok opt p).0
  unfolding parse_option
  found-Holds tok opt p h = elim (Option-cases (find_option (option_name opt) c.opts)) [
    | inl illegal ↦ rw (illegal, parse_option) (λ e. h)
    | inr (d, found) ↦
        rw (found, parse_option)
          (option-Holds n d d.tag p
            (find_option-All (λ x. x.tag ≡ opt_bool → streq x.name n ≡ false) (option_name opt)
              c.opts t.options found)
            h)
  ]

  token-Holds :
      (tok : Text) (p : Progress)
      → Holds n p
      → (parse_token c 1 tok p).1 ≡ going
      → Holds n (parse_token c 1 tok p).0
  unfolding parse_token
  token-Holds [] p h = arg-Holds [] p h
  token-Holds (d ∷ opt) p h = elim (Bool-cases (d == b'-')) [
    | inl dash ↦ rw (dash, parse_token) (found-Holds (d ∷ opt) opt p h)
    | inr word ↦ rw (word, parse_token) (arg-Holds (d ∷ opt) p h)
  ]

  pub run-Holds :
      (ts : List Text) (p : Progress)
      → Holds n p
      → (run_tokens c 1 ts p).1 ≡ going
      → Holds n (run_tokens c 1 ts p).0
  unfolding run_tokens
  run-Holds [] p h e = h
  run-Holds (tok ∷ ts) p h e =
      ground (arith, token-Holds tok p h, run-Holds ts (parse_token c 1 tok p).0)

  -- The count at the end leaves a parse that goes on only with its argument.
  pub check-Holds :
      (r : Progress × Status)
      → (r.1 ≡ going → Holds n r.0)
      → (check_count c 1 r).1 ≡ going
      → (v : Text) × (value_in (check_count c 1 r).0.opt n ≡ some v)
  unfolding check_count
  check-Holds (p, going) h = elim (Bool-cases (ltb p.curarg 1)) [
    | inl few ↦ rw few (λ e. absurd (cc))
    | inr enough ↦
        rw enough (λ e. elim (h refl) [ inl has ↦ has | inr (none_yet, _) ↦ absurd (ground arith) ])
  ]
  check-Holds (p, failed) h = λ e. absurd (cc)
  check-Holds (p, exited) h = λ e. absurd (cc)
  check-Holds (p, aborted) h = λ e. absurd (cc)
  check-Holds (p, null_opt) h = λ e. absurd (cc)
  check-Holds (p, out_of_fuel) h = λ e. absurd (cc)
  check-Holds (p, dangling) h = λ e. absurd (cc)
