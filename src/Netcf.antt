-- ===== src/Netcf.antt =====
-- The handles of the library, src/internal.h, and the functions of src/dutil.c that work on them. A
-- handle has a field `world` for what lies outside: files, kernel, child processes.
pub mod Api
pub mod Errors
pub mod Handles
pub mod Memory
mod Tests
use fbsd_netcf.Prelude.{
  ℕ, Bool, true, false, List, [], ◌∷◌, Option, none, some, Text, if◌then◌else◌,
}
use fbsd_netcf.Alloc.{alloc}
use fbsd_netcf.Ref.{Unref, kept, freed, assertion_failed, ref, unref}

-- netcf_errcode_t
pub data ErrCode : Type 0 where
  noerror einternal eother enomem exmlparser exmlinvalid enoent eexec : ErrCode
  einuse exsltfailed efile eioctl enetlink einvalidop : ErrCode

abbrev pub is_noerror : ErrCode → Bool
is_noerror noerror = true
is_noerror _ = false

-- struct netcf. `driver` says whether the pointer of that name is not NULL, `rng` whether the schema
-- was read. `allocs` says of each coming allocation whether it succeeds; behind its end all do.
pub record Netcf (W : Type 0) : Type 0 where
  pub count : ℕ
  pub root : Text
  pub data_dir : Text
  pub rng : Bool
  pub errcode : ErrCode
  pub errdetails : Option Text
  pub driver : Bool
  pub debug : Bool
  pub allocs : List Bool
  pub world : W

-- struct netcf_if. Its `ncf` is the one handle that every function passes on.
pub record NetcfIf : Type 0 where
  pub count : ℕ
  pub name : Text
  pub mac : Option Text

-- What a release of the handle leaves of it; `asserted` is the failing assertion in unref.
pub data Released (W : Type 0) : Type 0 where
  left : Netcf W → Released W
  gone : Released W
  asserted : Released W

module _ {W : Type 0} where
  -- An allocation on behalf of the handle.
  unfoldable pub allocate : Netcf W → Bool × Netcf W
  allocate n = let (ok, allocs) = alloc n.allocs in (ok, record n { allocs = allocs })

  -- vreport_error: only the first error is kept, and `none` is the failing assertion that there are no
  -- details without an error. `details` is `none` where there is no format, or where vasprintf fails.
  pub vreport_error : ErrCode → Option Text → Netcf W → Option (Netcf W)
  vreport_error errcode details n =
      let reported : Netcf W = record n { errcode = errcode; errdetails = details } in
      let checked : Option (Netcf W) = elim n.errdetails [ none ↦ some reported | some _ ↦ none ] in
      if is_noerror n.errcode then checked else some n

  -- report_error, as the callers use it: where the assertion of vreport_error holds.
  unfoldable pub report_error : ErrCode → Option Text → Netcf W → Netcf W
  report_error errcode details n =
      if is_noerror n.errcode then record n { errcode = errcode; errdetails = details } else n

  -- The assignment of ERR_COND and of ERR_NOMEM, which overwrites an error.
  unfoldable pub set_errcode : ErrCode → Netcf W → Netcf W
  set_errcode errcode n = record n { errcode = errcode }

  -- ERR_BAIL: whether the code goes to its label `error`.
  abbrev pub failed : Netcf W → Bool
  failed n = elim (is_noerror n.errcode) [ true ↦ false | false ↦ true ]

  -- unref (ncf, netcf)
  unfoldable pub release : Netcf W → Released W
  release n = elim (unref n.count) [
    | kept count ↦ left (record n { count = count })
    | freed ↦ gone
    | assertion_failed ↦ asserted
  ]

  -- make_netcf_if
  unfoldable pub make_netcf_if : Text → Netcf W → Option NetcfIf × Netcf W
  unfolding allocate set_errcode
  make_netcf_if name n =
      let (ok, n') = allocate n in
      if ok
      then (
        some (record { count = 1; name = name; mac = none }),
        record n' { count = ref n'.count },
      )
      else (none, set_errcode enomem n')
