-- ===== src/NcfTool/Parse/Tokens.antt =====
-- The loop of parseline in src/ncftool.c over a line does what a loop over its tokens does.
use fbsd_netcf.Prelude.{
  ℕ, zero, suc, ◌+◌, ◌≡◌, refl, ap, All, length-append, ◌≤◌, List, [], ◌∷◌, arith, Text, length,
  some,
}
use fbsd_netcf.NcfTool.Token.{nexttoken, command_line}
use fbsd_netcf.NcfTool.Token.Laws.{nexttoken-length, nexttoken_plain, IsPlain}
use fbsd_netcf.NcfTool.Command.{CommandDef}
use fbsd_netcf.NcfTool.Parse.{
  Progress, Status, going, parse_token, parse_loop, count_args, check_count, parse_command,
}

-- All tokens of a line, on fuel.
tokens_on : ℕ → Text → List Text
tokens_on fuel [] = []
tokens_on zero (c ∷ s) = []
tokens_on (suc fuel) (c ∷ s) = let (tok, rest) = nexttoken (c ∷ s) in tok ∷ tokens_on fuel rest

pub tokens : Text → List Text
unfolding tokens_on
tokens line = tokens_on (length line) line

-- The rounds of the loop for a list of tokens.
unfoldable pub run_tokens : CommandDef → ℕ → List Text → Progress → Progress × Status
run_tokens c max [] p = (p, going)
run_tokens c max (t ∷ ts) p =
    let (p', status) = parse_token c max t p in
    elim status [ going ↦ run_tokens c max ts p' | other ↦ (p', other) ]

-- With fuel for the length of the line, the loop runs through the tokens and ends.
loop_tokens :
    (c : CommandDef) (max fuel : ℕ) (line : Text) (p : Progress)
    → length line ≤ fuel
    → parse_loop c max fuel line p ≡ run_tokens c max (tokens_on fuel line) p
unfolding parse_loop run_tokens tokens_on
loop_tokens c max fuel [] p h = refl
loop_tokens c max zero (d ∷ line) p h = absurd (omega arith)
loop_tokens c max (suc fuel) (d ∷ line) p h =
    let (tok, rest) = nexttoken (d ∷ line) in
    let (p', status) = parse_token c max tok p in
    let ih = loop_tokens c max fuel rest p' (omega (arith, nexttoken-length d line)) in
    λ i. elim status [ going ↦ ih i | other ↦ (p', other) ]

-- A command's line is parsed as its tokens are, one round for each, and then counted.
pub parse_command-tokens :
    (c : CommandDef) (line : Text) (p : Progress) {narg nparam : ℕ}
    → count_args c.opts 0 0 ≡ some (narg, nparam)
    → parse_command c line p ≡ check_count c narg (run_tokens c (narg + nparam) (tokens line) p)
unfolding parse_command tokens
parse_command-tokens c line p {narg} {nparam} e =
    rw (e, parse_command, loop_tokens c (narg + nparam) (length line) line p (omega arith)) refl

tokens_on-command_line :
    (fuel : ℕ) (args : List Text)
    → All IsPlain args
    → length (command_line args) ≤ fuel
    → tokens_on fuel (command_line args) ≡ args
unfolding tokens_on command_line
tokens_on-command_line fuel [] plain h = refl
tokens_on-command_line fuel ([] ∷ as') plain h = absurd plain.0
tokens_on-command_line zero ((c ∷ a) ∷ as') plain h = absurd (omega arith)
tokens_on-command_line (suc fuel) ((c ∷ a) ∷ as') plain h =
    rw (nexttoken_plain (c ∷ a) (command_line as') plain.0) (
      ap (λ (ts : List Text). (c ∷ a) ∷ ts)
        (tokens_on-command_line fuel as' plain.1
          (omega (arith, length-append a (b' ' ∷ command_line as')))))

-- The line that main makes of its arguments is cut into these arguments, if each is a word with no
-- blank and no quote in front.
pub tokens-command_line : (args : List Text) → All IsPlain args → tokens (command_line args) ≡ args
unfolding tokens
tokens-command_line args plain =
    tokens_on-command_line (length (command_line args)) args plain (omega arith)
