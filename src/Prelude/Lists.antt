-- ===== src/Prelude/Lists.antt =====
-- Lists measured and indexed by native numbers, under the library's names, and predicates on them.
use Prim.Native.Nat.{ℕ, zero, suc, ◌+◌, ◌-◌, ◌≤◌, ◌<◌}
use mathlib.Core.Path.{◌≡◌, refl}
use mathlib.Core.Bool.{Bool}
use mathlib.Core.List.{List, [], ◌∷◌, ◌++◌, append_assoc, append-nil}
use mathlib.Core.Option.{Option, none, some}
use native.Mathlib.Omega.{arith}
use fbsd_netcf.Prelude.Tests.{if◌then◌else◌}

module _ {ℓ} {A : Type ℓ} where
  abbrev pub length : List A → ℕ
  length [] = 0
  length (x ∷ xs) = suc (length xs)

  abbrev pub get_elem? : List A → ℕ → Option A
  get_elem? [] i = none
  get_elem? (x ∷ xs) zero = some x
  get_elem? (x ∷ xs) (suc i) = get_elem? xs i

  abbrev pub take : ℕ → List A → List A
  take zero xs = []
  take (suc n) [] = []
  take (suc n) (x ∷ xs) = x ∷ take n xs

  abbrev pub drop : ℕ → List A → List A
  drop zero xs = xs
  drop (suc n) [] = []
  drop (suc n) (x ∷ xs) = drop n xs

  -- The elements that pass a Boolean test, in order.
  abbrev pub keep : (A → Bool) → List A → List A
  keep p [] = []
  keep p (x ∷ xs) = if p x then x ∷ keep p xs else keep p xs

  -- A predicate at every element. It computes to a tuple.
  abbrev pub All {κ} : (A → Type κ) → List A → Type κ
  All P [] = Unit
  All P (x ∷ xs) = P x × All P xs

  pub length-append : (xs ys : List A) → length (xs ++ ys) ≡ length xs + length ys
  length-append [] ys = omega arith
  length-append (x ∷ xs) ys = omega (arith, length-append xs ys)

  pub take-append-drop : (n : ℕ) (xs : List A) → take n xs ++ drop n xs ≡ xs
  take-append-drop zero xs = refl
  take-append-drop (suc n) [] = refl
  take-append-drop (suc n) (x ∷ xs) = rw (take-append-drop n xs)

  pub take-append : (xs ys : List A) → take (length xs) (xs ++ ys) ≡ xs
  take-append [] ys = refl
  take-append (x ∷ xs) ys = rw (take-append xs ys)

  -- A list that is filled up to `max` elements from another one.
  pub take_none :
      (max : ℕ) (filled rest : List A)
      → max ≤ length filled
      → filled ++ take (max - length filled) rest ≡ filled
  take_none max filled rest h =
      let none_left : max - length filled ≡ 0 = omega arith in rw none_left (append-nil filled)

  pub take_empty : (j : ℕ) (filled : List A) → filled ++ take j [] ≡ filled
  take_empty zero filled = append-nil filled
  take_empty (suc j) filled = append-nil filled

  pub take_next :
      (max : ℕ) (x : A) (filled rest : List A)
      → length filled < max
      → filled ++ take (max - length filled) (x ∷ rest)
        ≡ (filled ++ (x ∷ [])) ++ take (max - length (filled ++ (x ∷ []))) rest
  take_next max x filled rest h =
      let longer : length (filled ++ (x ∷ [])) ≡ length filled + 1 =
        omega (arith, length-append filled (x ∷ [])) in
      let left : max - length filled ≡ suc (max - (length filled + 1)) = omega arith in
      rw (longer, left, append_assoc) refl
