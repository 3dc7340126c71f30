-- ===== src/NcfTool/Token.antt =====
-- nexttoken of src/ncftool.c: it cuts one token off a line. The C code writes a NUL over the
-- character that ends the token; here the token and the line behind it are two texts. Also the loop
-- of `main` that joins its arguments to a line.
pub mod Laws
use fbsd_netcf.Prelude.{ℕ, Bool, ◌||◌, List, [], ◌∷◌, ◌++◌, Text, ◌==◌, if◌then◌else◌}

unfoldable pub isblank : ℕ → Bool
isblank c = c == b' ' || c == 9

-- while (*s && isblank(*s)) s+= 1;
unfoldable pub skip_blanks : Text → Text
unfolding isblank
skip_blanks [] = []
skip_blanks (c ∷ s) = if isblank c then skip_blanks s else c ∷ s

-- The loop up to the end of the token: what it passed over, and the line behind the character at
-- which it stopped.
unfoldable pub scan : (ℕ → Bool) → Text → Text × Text
scan stop [] = ([], [])
scan stop (c ∷ s) = if stop c then ([], s) else let (r, line) = scan stop s in (c ∷ r, line)

-- From the first character that is no blank.
unfoldable pub token_from : Text → Text × Text
unfolding scan isblank
token_from [] = ([], [])
token_from (c ∷ s) = if c == 39 || c == b'"' then scan (λ d. d == c) s else scan isblank (c ∷ s)

-- The token, and the new `*line`.
unfoldable pub nexttoken : Text → Text × Text
unfolding skip_blanks token_from
nexttoken line = token_from (skip_blanks line)

-- What `main` joins of its arguments: each is followed by a blank.
unfoldable pub command_line : List Text → Text
command_line [] = []
command_line (a ∷ as') = a ++ (b' ' ∷ command_line as')
