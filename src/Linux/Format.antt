-- ===== src/Linux/Format.antt =====
-- The functions of src/dutil_linux.c that format a path and work on the tree: aug_fmt_set, aug_fmt_rm, aug_fmt_match, defnode.
use fbsd_netcf.Prelude.{
  ℕ, not, List, [], Option, none, some, Text, codes, if◌then◌else◌, ℤ, negsuc, is_neg,
}
use fbsd_netcf.Netcf.{enomem, eother, Netcf, report_error, set_errcode, allocate, failed}
use fbsd_netcf.Linux.{Augeas, AugeasPv, LinuxDriver, get_augeas, holding}

module _ {A V : Type 0} (L : Augeas A V) (contents : ℕ → List AugeasPv) where
  open L use {
    aug_init, aug_load, aug_save, aug_rm, aug_set, aug_insert, aug_get, aug_match, aug_defnode,
  }

  -- The common start of the functions that format a path: the rest with the tree if the handle has no error,
  -- behind get_augeas and vasprintf, or what is returned at `error`. A tree that is NULL without an
  -- error is treated in the same way.
  unfoldable pub formatted :
      {R : Type 0}
      → R
      → Netcf (LinuxDriver A V)
      → (A → Netcf (LinuxDriver A V) → R × Netcf (LinuxDriver A V))
      → R × Netcf (LinuxDriver A V)
  formatted error n rest =
      let (aug, n₁) = get_augeas L contents n in
      let (ok, n₂) = allocate n₁ in
      if failed n₁
      then (error, n₁)
      else if not ok
      then (error, set_errcode enomem n₂)
      else (let r : _ = elim aug [ none ↦ (error, n₂) | some a ↦ rest a n₂ ] in r)

  -- ERR_COND_BAIL (r < 0, ncf, EOTHER) and the return of r, or of -1 at `error`.
  unfoldable pub check_result : ℤ → Netcf (LinuxDriver A V) → ℤ × Netcf (LinuxDriver A V)
  check_result r n =
      let n' : Netcf (LinuxDriver A V) = if is_neg r then set_errcode eother n else n in
      (if failed n' then negsuc 0 else r, n')

  -- What aug_fmt_set, aug_fmt_rm and aug_fmt_match do with the path; the last gives no paths at `error`.
  unfoldable pub set_path :
      Option Text → Text → A → Netcf (LinuxDriver A V) → ℤ × Netcf (LinuxDriver A V)
  set_path value path aug n =
      let (r, aug') = aug_set aug path value in check_result r (holding aug' n)

  unfoldable pub rm_path : Text → A → Netcf (LinuxDriver A V) → ℤ × Netcf (LinuxDriver A V)
  rm_path path aug n = let (r, aug') = aug_rm aug path in check_result r (holding aug' n)

  unfoldable pub match_path :
      Text → A → Netcf (LinuxDriver A V) → (ℤ × List Text) × Netcf (LinuxDriver A V)
  match_path path aug n =
      let (r, matches) = aug_match aug path in
      let (r', n') = check_result r n in ((r', if failed n' then [] else matches), n')

  unfoldable pub aug_fmt_set :
      Option Text → Text → Netcf (LinuxDriver A V) → ℤ × Netcf (LinuxDriver A V)
  aug_fmt_set value path n = formatted (negsuc 0) n (set_path value path)

  unfoldable pub aug_fmt_rm : Text → Netcf (LinuxDriver A V) → ℤ × Netcf (LinuxDriver A V)
  aug_fmt_rm path n = formatted (negsuc 0) n (rm_path path)

  unfoldable pub aug_fmt_match :
      Text → Netcf (LinuxDriver A V) → (ℤ × List Text) × Netcf (LinuxDriver A V)
  aug_fmt_match path n = formatted (negsuc 0, []) n (match_path path)

  -- defnode. Where get_augeas fails, `r` has not been assigned: `stale` is what it holds, and `unset`
  -- what `created` holds.
  unfoldable pub defnode :
      ℤ → ℤ → Text → Option Text → Text → Netcf (LinuxDriver A V) → ℤ × Netcf (LinuxDriver A V)
  unfolding check_result
  defnode stale unset name value expr n =
      let (aug, n₁) = get_augeas L contents n in
      let (ok, n₂) = allocate n₁ in
      if failed n₁
      then (if is_neg stale then negsuc 0 else unset, n₁)
      else if not ok
      then (negsuc 0, set_errcode enomem n₂)
      else (let result : ℤ × Netcf (LinuxDriver A V) = elim aug [
        | none ↦ (negsuc 0, n₂)
        | some a ↦
            let ((r, created), a') = aug_defnode a name expr value in
            if is_neg r
            then (
              negsuc 0,
              report_error eother (some (codes "failed to define node %s")) (holding a' n₂),
            )
            else (created, holding a' n₂)
      ] in
          result)
