-- ===== src/Bits.antt =====
-- The lowest bit under `&` and `|`, from the digit recursion that defines the native operations.
use Prim.Native.Nat.{max, min, bit_and, bit_or, digits, bit_and-bitwise, bit_or-bitwise}
use fbsd_netcf.Prelude.{ℕ, zero, suc, ◌+◌, ◌*◌, ◌/◌, ◌%◌, ◌≤◌, ◌≡◌, refl, arith}

abbrev both_bits : ℕ → ℕ → ℕ → ℕ
both_bits rounds x y = digits (λ left_over. zero) min rounds x y

abbrev any_bits : ℕ → ℕ → ℕ → ℕ
any_bits rounds x y = digits (λ left_over. left_over) max rounds x y

-- Against 0, with rounds for all digits: none are in both, and all are in one.
against_zero : (x rounds : ℕ) → x ≤ rounds → (both_bits rounds x 0 ≡ 0) × (any_bits rounds x 0 ≡ x)
against_zero zero zero enough = (refl, refl)
against_zero zero (suc rounds) enough = (refl, refl)
against_zero (suc x) zero enough = absurd (omega arith)
against_zero (suc x) (suc rounds) enough =
    let (both, any_one) = against_zero (suc x / 2) rounds (omega arith) in
    (omega (arith, both), omega (arith, any_one))

-- x & 1
pub bit_and-one : (x : ℕ) → bit_and x 1 ≡ x % 2
bit_and-one zero = refl
bit_and-one (suc x) =
    let higher = against_zero (suc x / 2) x (omega arith) in
    omega (arith, bit_and-bitwise (suc x) 1, higher.0)

-- x | 1
pub bit_or-one : (x : ℕ) → bit_or x 1 ≡ x / 2 * 2 + 1
bit_or-one zero = refl
bit_or-one (suc x) =
    let higher = against_zero (suc x / 2) x (omega arith) in
    omega (arith, bit_or-bitwise (suc x) 1, higher.1)
