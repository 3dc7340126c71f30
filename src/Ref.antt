-- ===== src/Ref.antt =====
-- src/ref.h: reference counts. The count is an unsigned int, so its largest value is UINT_MAX.
pub mod Balance
use fbsd_netcf.Prelude.{ℕ, ◌+◌, ◌-◌, ◌^◌, ◌==◌, if◌then◌else◌}

abbrev pub ref_max : ℕ
ref_max = 2 ^ 32 - 1

-- ref, on the count of a pointer that is not NULL
unfoldable pub ref : ℕ → ℕ
ref count = if count == ref_max then count else count + 1

-- What unref does to the object behind a pointer that is not NULL.
pub data Unref : Type 0 where
  kept : ℕ → Unref
  freed : Unref
  assertion_failed : Unref

unfoldable pub unref : ℕ → Unref
unref count =
    if count == ref_max
    then kept count
    else if count == 0
    then assertion_failed
    else if count - 1 == 0
    then freed
    else kept (count - 1)
