-- ===== src/Prelude/Strings.antt =====
-- C strings as lists of bytes without the final NUL, and the string functions of the C library
-- that the program uses on them.
use Prim.Native.Nat.{ℕ}
use Prim.Native.Char.{code}
use Prim.Native.String.{String}
use mathlib.Core.Path.{◌≡◌, refl}
use mathlib.Core.Logic.{◌↔◌}
use mathlib.Core.Bool.{Bool, true, false, ◌&&◌}
use mathlib.Core.List.{List, [], ◌∷◌}
use mathlib.Core.Option.{Option, none, some}
use native.Mathlib.Omega.{arith}
use fbsd_netcf.Prelude.Tests.{◌==◌, if◌then◌else◌}

abbrev pub Text : Type 0
Text = List ℕ

abbrev pub codes : String → Text
codes String.[] = []
codes (String.◌∷◌ c s) = code c ∷ codes s

-- STREQ
unfoldable pub streq : Text → Text → Bool
streq [] [] = true
streq [] (y ∷ ys) = false
streq (x ∷ xs) [] = false
streq (x ∷ xs) (y ∷ ys) = x == y && streq xs ys

pub streq_sound : (xs ys : Text) → streq xs ys ≡ true → xs ≡ ys
unfolding streq
streq_sound [] [] h = refl
streq_sound [] (y ∷ ys) h = cc
streq_sound (x ∷ xs) [] h = cc
streq_sound (x ∷ xs) (y ∷ ys) h = ground (arith, streq_sound xs ys)

pub streq_self : (xs : Text) → streq xs xs ≡ true
unfolding streq
streq_self [] = refl
streq_self (x ∷ xs) = ground (arith, streq_self xs)

pub streq_iff : (xs ys : Text) → (streq xs ys ≡ true) ↔ (xs ≡ ys)
streq_iff xs ys = (streq_sound xs ys, λ e. rw e (streq_self ys))

-- strncmp (p, s, strlen (p)) == 0: the text `s` begins with `p`.
unfoldable pub has_prefix : Text → Text → Bool
has_prefix [] s = true
has_prefix (x ∷ p) [] = false
has_prefix (x ∷ p) (y ∷ s) = x == y && has_prefix p s

-- strstr (s, p), as the text from the first occurrence on.
unfoldable pub strstr : Text → Text → Option Text
unfolding has_prefix
strstr [] p = if has_prefix p [] then some [] else none
strstr (y ∷ s) p = if has_prefix p (y ∷ s) then some (y ∷ s) else strstr s p
