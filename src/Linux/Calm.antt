-- ===== src/Linux/Calm.antt =====
-- aug_fmt_match of src/dutil_linux.c on a handle that holds the loaded tree, has no error, and does not run out of memory.
use fbsd_netcf.Prelude.{ℕ, ◌≡◌, refl, false, List, Text, pos, arith}
use fbsd_netcf.Netcf.{Netcf, noerror, failed}
use fbsd_netcf.Netcf.Memory.{HasMemory, allocate_ok}
use fbsd_netcf.Linux.{Augeas, AugeasPv, LinuxDriver}
use fbsd_netcf.Linux.Format.{aug_fmt_match, formatted, match_path, check_result}
use fbsd_netcf.Linux.Instance.{IsSettled, get_augeas_settled}

-- A handle that holds the loaded tree, has no error, and does not run out of memory.
pub record IsCalm {A V : Type 0} (aug : A) (n : Netcf (LinuxDriver A V)) : Type 0 where
  pub clean : n.errcode ≡ noerror
  pub settled : IsSettled aug n
  pub memory : HasMemory n

module _ {A V : Type 0} (L : Augeas A V) (contents : ℕ → List AugeasPv) where
  -- The nodes that libaugeas finds for a path.
  abbrev pub nodes_at : A → Text → List Text
  nodes_at aug path = (L.aug_match aug path).1

  pub not_failed : (n : Netcf (LinuxDriver A V)) → n.errcode ≡ noerror → failed n ≡ false
  not_failed n clean = rw (clean, failed) refl

  pub aug_fmt_match_calm :
      (aug : A) (path : Text) (n : Netcf (LinuxDriver A V)) (k : ℕ)
      → IsCalm aug n
      → (L.aug_match aug path).0 ≡ pos k
      → aug_fmt_match L contents path n ≡ ((pos k, nodes_at aug path), n)
  unfolding aug_fmt_match formatted match_path check_result
  aug_fmt_match_calm aug path n k calm counted = ground (
    arith,
    get_augeas_settled L contents aug n calm.settled,
    allocate_ok n calm.memory,
    not_failed n calm.clean,
    counted,
  )
