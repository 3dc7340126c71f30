-- ===== src/Netcf/Memory.antt =====
-- Handles of src/internal.h of which every allocation succeeds.
use fbsd_netcf.Prelude.{◌≡◌, true, [], arith}
use fbsd_netcf.Netcf.{Netcf, allocate}

-- Every allocation succeeds from here on.
abbrev pub HasMemory : {W : Type 0} → Netcf W → Type 0
HasMemory n = n.allocs ≡ []

module _ {W : Type 0} where
  pub allocate_ok : (n : Netcf W) → HasMemory n → allocate n ≡ (true, n)
  unfolding allocate
  allocate_ok n m = ground arith
