-- ===== src/NcfTool/Token/Laws.antt =====
-- Tokens come off a line one by one: each makes the line shorter, and those of a line that quotes or
-- separates its words are the words.
use fbsd_netcf.Prelude.{
  ℕ, suc, ◌≡◌, refl, ◌≤◌, ◌<◌, Bool, true, false, ◌||◌, [], ◌∷◌, ◌++◌, arith, Text, ◌==◌, length,
  All, ==_self,
}
use fbsd_netcf.NcfTool.Token.{isblank, skip_blanks, scan, token_from, nexttoken}

scan-length : (stop : ℕ → Bool) (s : Text) → length (scan stop s).1 ≤ length s
unfolding scan
scan-length stop [] = omega arith
scan-length stop (c ∷ s) = ground (arith, scan-length stop s)

scan-lt : (stop : ℕ → Bool) (c : ℕ) (s : Text) → length (scan stop (c ∷ s)).1 < suc (length s)
unfolding scan
scan-lt stop c s = ground (arith, scan-length stop s)

pub skip_blanks-length : (s : Text) → length (skip_blanks s) ≤ length s
unfolding skip_blanks
skip_blanks-length [] = omega arith
skip_blanks-length (c ∷ s) = ground (arith, skip_blanks-length s)

token_from-length : (s : Text) → length (token_from s).1 ≤ length s
unfolding token_from
token_from-length [] = omega arith
token_from-length (c ∷ s) = ground (arith, scan-length (λ d. d == c) s, scan-lt isblank c s)

token_from-lt : (c : ℕ) (s : Text) → length (token_from (c ∷ s)).1 < suc (length s)
unfolding token_from
token_from-lt c s = ground (arith, scan-length (λ d. d == c) s, scan-lt isblank c s)

-- A token that is taken from a line that is not empty makes the line shorter.
pub nexttoken-length : (c : ℕ) (s : Text) → length (nexttoken (c ∷ s)).1 < length (c ∷ s)
unfolding nexttoken
nexttoken-length c s =
    ground (arith, token_from-lt c s, token_from-length (skip_blanks s), skip_blanks-length s)

-- The scan stops at the first character that the test holds of.
scan-append :
    (stop : ℕ → Bool) (t : Text) (c : ℕ) (rest : Text)
    → All (λ d. stop d ≡ false) t
    → stop c ≡ true
    → scan stop (t ++ (c ∷ rest)) ≡ (t, rest)
unfolding scan
scan-append stop [] c rest clean stops = rw stops
scan-append stop (d ∷ t) c rest clean stops = rw (clean.0, scan-append stop t c rest clean.1 stops)

-- A word in quotes is one token, blanks included, if it does not hold the quote itself.
nexttoken_quoted :
    (q : ℕ) (t rest : Text)
    → (q == 39 || q == b'"') ≡ true
    → All (λ d. (d == q) ≡ false) t
    → nexttoken (q ∷ (t ++ (q ∷ rest))) ≡ (t, rest)
unfolding nexttoken
nexttoken_quoted q t rest quote clean =
    ground (arith, scan-append (λ d. d == q) t q rest clean (==_self q))

-- A word that the shell's user needs no quotes for: it is not empty, has no blank and does not begin
-- with a quote.
abbrev pub IsPlain : Text → Type 0
IsPlain [] = ⊥
IsPlain (c ∷ t) = ((c == 39 || c == b'"') ≡ false) × All (λ d. isblank d ≡ false) (c ∷ t)

pub nexttoken_plain : (a rest : Text) → IsPlain a → nexttoken (a ++ (b' ' ∷ rest)) ≡ (a, rest)
unfolding nexttoken
nexttoken_plain [] rest h = absurd h
nexttoken_plain (c ∷ t) rest h = rw (h.1.0, h.0) (scan-append isblank (c ∷ t) b' ' rest h.1 refl)

-- A blank that is left on the line is a token of its own, the empty one.
pub nexttoken_blank : nexttoken (b' ' ∷ []) ≡ ([], [])
unfolding nexttoken
nexttoken_blank = refl
