-- ===== src/XsltExt/Prefix.antt =====
-- The prefix that the loop of ipcalc_prefix in src/xslt_ext.c finds for any address but 0.
use fbsd_netcf.Prelude.{
  ℕ, zero, suc, ◌+◌, ◌-◌, ◌*◌, ◌%◌, ◌^◌, ◌≤◌, ◌<◌, ◌≡◌, refl, sym, ◌∙◌, ap, inl, inr, arith, ltb,
  ◌==◌, Bool-cases, ltb→lt,
}
use native.Mathlib.Nat.{
  add-zero, add-suc, mul_assoc, add-mul-mod_self_right, dvd-mul_left, mul-mod_left, mod-mod_of_dvd,
  mod-eq_of_lt, pow-suc,
}
use Prim.Native.Nat.{◌∣◌}
use native.Mathlib.Numerals.{add-one}
use fbsd_netcf.XsltExt.{dec32, prefix_loop, prefix_of}

pow-add : (i d : ℕ) → 2 ^ (i + d) ≡ 2 ^ i * 2 ^ d
pow-add i zero = simp (add-zero) (omega arith)
pow-add i (suc d) = simp (add-suc, pow-suc, pow-add i d, mul_assoc)

pow_pos : (k : ℕ) → 0 < 2 ^ k
pow_pos zero = omega arith
pow_pos (suc k) = grind (arith, pow-suc, pow_pos k)

pow_step : (k : ℕ) → 2 ^ (k + 1) ≡ 2 * 2 ^ k
pow_step k = rw add-one (grind (arith, pow-suc))

pow_split : (i k : ℕ) → i ≤ k → 2 ^ k ≡ 2 ^ (k - i) * 2 ^ i
pow_split i k h = rw (← pow-add (k - i) i) (ap (λ (t : ℕ). 2 ^ t) (omega arith))

-- An odd multiple of 2 ^ k ends in exactly k zero bits.
low_zero : (q k j : ℕ) → j < k → (2 * q + 1) * 2 ^ k % 2 ^ (j + 1) ≡ 0
low_zero q k j h =
    let d : ℕ = k - (j + 1) in
    let split : 2 ^ k ≡ 2 ^ d * 2 ^ (j + 1) = pow_split (j + 1) k (omega arith) in
    rw (split, ← mul_assoc (2 * q + 1) (2 ^ d) (2 ^ (j + 1)))
      (mul-mod_left ((2 * q + 1) * 2 ^ d) (2 ^ (j + 1)))

pow_dvd : (k j : ℕ) → k ≤ j → 2 ^ (k + 1) ∣ 2 ^ (j + 1)
pow_dvd k j h =
    let split : 2 ^ (j + 1) ≡ 2 ^ (j + 1 - (k + 1)) * 2 ^ (k + 1) =
      pow_split (k + 1) (j + 1) (omega arith) in
    rw split (dvd-mul_left (2 ^ (k + 1)) (2 ^ (j + 1 - (k + 1))))

low_nonzero : (q k j : ℕ) → k ≤ j → (2 * q + 1) * 2 ^ k % 2 ^ (j + 1) ≡ 0 → ⊥
low_nonzero q k j h e =
    let a : ℕ = (2 * q + 1) * 2 ^ k in
    let c : ℕ = 2 ^ (k + 1) in
    let smaller : a % c ≡ 0 = sym (mod-mod_of_dvd c a (pow_dvd k j h)) ∙ rw e (omega arith) in
    let odd : a ≡ 2 ^ k + q * c = rw (pow_step k) (grind arith) in
    let half : a % c ≡ 2 ^ k =
      rw (odd, add-mul-mod_self_right (2 ^ k) q c)
        (mod-eq_of_lt (rw (pow_step k) (omega (arith, pow_pos k)))) in
    absurd (omega (arith, smaller, half, pow_pos k))

-- One round for each zero bit at the end, and no other, lowers the prefix.
loop_counts :
    (n i addr k p : ℕ)
    → ((j : ℕ) → (addr % 2 ^ (j + 1) == 0) ≡ ltb j k)
    → k ≤ i + n
    → k ≤ i + p
    → p < 2 ^ 32
    → prefix_loop n i addr p ≡ p - (k - i)
unfolding prefix_loop dec32
loop_counts zero i addr k p h a b c = omega arith
loop_counts (suc n) i addr k p h a b c = elim (Bool-cases (ltb i k)) [
  | inl low ↦
      rw (h i, low)
        (omega (
          arith,
          ltb→lt i k low,
          loop_counts n (i + 1) addr k ((p + 2 ^ 32 - 1) % 2 ^ 32) h (ground arith) (ground arith)
              (ground arith),
        ))
  | inr high ↦ rw (h i, high) (ground (arith, loop_counts n (i + 1) addr k p h))
]

zero_test : (q k j : ℕ) → ((2 * q + 1) * 2 ^ k % 2 ^ (j + 1) == 0) ≡ ltb j k
zero_test q k j = elim (Bool-cases (ltb j k)) [
  | inl low ↦ rw (low, low_zero q k j (ltb→lt j k low)) refl
  | inr high ↦ ground (arith, low_nonzero q k j)
]

-- The prefix of an address that ends in exactly k zero bits is 32 - k, whether or not its one bits
-- are contiguous.
pub prefix_of_odd : (q k : ℕ) → k ≤ 32 → prefix_of ((2 * q + 1) * 2 ^ k) ≡ 32 - k
unfolding prefix_of
prefix_of_odd q k h = ground (arith, loop_counts 32 0 ((2 * q + 1) * 2 ^ k) k 32 (zero_test q k))
