-- ===== src/Ref/Balance.antt =====
-- References that are taken and given back balance, up to the count that pins an object.
use fbsd_netcf.Prelude.{ℕ, zero, suc, ◌+◌, ◌-◌, ◌<◌, ◌≤◌, ◌≡◌, refl, ap, ◌∙◌, arith}
use fbsd_netcf.Ref.{ref, unref, ref_max, Unref, kept, freed}

-- ref, n times
unfoldable pub refs : ℕ → ℕ → ℕ
refs zero count = count
refs (suc n) count = refs n (ref count)

-- unref, n times, as long as the object is there
pub unrefs : ℕ → ℕ → Unref
unrefs zero count = kept count
unrefs (suc n) count = elim (unref count) [ kept count' ↦ unrefs n count' | other ↦ other ]

refs_add : (n count : ℕ) → count + n ≤ ref_max → refs n count ≡ count + n
unfolding refs ref
refs_add zero count h = omega arith
refs_add (suc n) count h = ground (arith, refs_add n (count + 1))

unrefs_sub : (n count : ℕ) → n < count → count < ref_max → unrefs n count ≡ kept (count - n)
unfolding unrefs unref
unrefs_sub zero count h k = ground arith
unrefs_sub (suc n) count h k = ground (arith, unrefs_sub n (count - 1))

all_released : (n : ℕ) → n + 1 < ref_max → unrefs (suc n) (1 + n) ≡ freed
unfolding unrefs unref
all_released zero h = refl
all_released (suc n) h = ground (arith, all_released n)

-- As long as the count stays below UINT_MAX, n more references to an object and n releases leave
-- its one reference, and the release of that frees it.
pub refs_balance :
    (n : ℕ) → n + 1 < ref_max → (unrefs n (refs n 1) ≡ kept 1) × (unrefs (suc n) (refs n 1) ≡ freed)
refs_balance n h = (
  rw (refs_add n 1 (omega arith))
      (unrefs_sub n (1 + n) (omega arith) (omega arith) ∙ ap kept (omega arith)),
  rw (refs_add n 1 (omega arith)) (all_released n (omega arith)),
)

-- At UINT_MAX the object is pinned: no number of references and releases changes its count.
pinned : (n : ℕ) → (refs n ref_max ≡ ref_max) × (unrefs n ref_max ≡ kept ref_max)
unfolding refs unrefs ref unref
pinned zero = (refl, refl)
pinned (suc n) = pinned n
