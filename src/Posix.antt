-- ===== src/Posix.antt =====
-- src/dutil_posix.c: running external programs, and the socket for ioctls; and argv_to_string of
-- src/dutil.c. What the system does in one run of a program is a record of the outcomes of the calls.
-- The details of an error are its format, without the values that are printed into it.
pub mod Run
mod Tests
use fbsd_netcf.Prelude.{
  ℕ, suc, ◌+◌, Bool, true, false, List, [], ◌∷◌, ◌++◌, Option, none, some, Text, codes, length,
  ◌==◌, not, if◌then◌else◌, ℤ, pos, negsuc,
}
use fbsd_netcf.Netcf.{
  ErrCode, enomem, eexec, einvalidop, einternal, Netcf, report_error, set_errcode, allocate, failed,
}

-- What waitpid tells of a child.
pub data Exit : Type 0 where
  exited : ℕ → Exit
  signaled : ℕ → Exit
  improper : Exit

-- The codes that exec_program's child exits with where it cannot run the program, and the one of the
-- transaction script.
abbrev pub exit_sigmask : ℕ
exit_sigmask = 125

abbrev pub exit_dup2 : ℕ
exit_dup2 = 124

abbrev pub exit_invalid_in_this_state : ℕ
exit_invalid_in_this_state = 199

abbrev pub exit_cannot_invoke : ℕ
exit_cannot_invoke = 126

abbrev pub exit_enoent : ℕ
exit_enoent = 127

-- The outcomes of the system calls in one run. `waited` is `none` where waitpid fails with another
-- error than EINTR.
pub record Process : Type 0 where
  pub pipe_ok : Bool
  pub block_ok : Bool
  pub fork_ok : Bool
  pub restore_ok : Bool
  pub stream_ok : Bool
  pub output : Option Text
  pub waited : Option Exit

-- The system calls of init_ioctl_fd: the descriptor of the new socket, and whether each fcntl is
-- refused.
pub record SocketCalls : Type 0 where
  pub socket : Option ℕ
  pub getfd_ok : Bool
  pub setfd_ok : Bool

-- The space that argv_to_string allocates: its first loop.
pub argv_size : List Text → ℕ
argv_size [] = 1
argv_size (a ∷ as') = argv_size as' + (length a + 1)

-- The second loop, behind the first word: a blank before each word.
pub argv_rest : List Text → Text
argv_rest [] = []
argv_rest (a ∷ as') = b' ' ∷ (a ++ argv_rest as')

-- What it writes, without the NUL.
pub argv_to_string : List Text → Text
unfolding argv_rest
argv_to_string [] = []
argv_to_string (a ∷ as') = a ++ argv_rest as'

module _ {W : Type 0} where
  -- exec_program in the parent: its result, whether signals are left blocked, and the handle.
  unfoldable pub exec_program : Process → Netcf W → ℤ × Bool × Netcf W
  exec_program p n =
      if not p.pipe_ok
      then (
        negsuc 0,
        false,
        report_error eexec (some (codes "failed to create pipe while forking for '%s': %s")) n,
      )
      else if not p.block_ok
      then (
        negsuc 0,
        false,
        report_error eexec (some (codes "failed to set signal mask while forking for '%s': %s")) n,
      )
      else if not p.fork_ok
      then (negsuc 0, true, report_error eexec (some (codes "failed to fork for '%s': %s")) n)
      else if not p.restore_ok
      then (
        negsuc 0,
        true,
        report_error eexec (some (codes "failed to restore signal mask while forking for '%s': %s"))
            n,
      )
      else (pos 0, false, n)

  -- The tests of the child's status, in their order.
  unfoldable pub check_status : Exit → Netcf W → ℤ × Netcf W
  check_status (signaled sig) n =
      (negsuc 0, report_error eexec (some (codes "'%s' terminated by signal: %d")) n)
  check_status improper n =
      (negsuc 0, report_error eexec (some (codes "'%s' terminated improperly")) n)
  check_status (exited k) n =
      if k == exit_enoent
      then (negsuc 0, report_error eexec (some (codes "Running '%s' program not found")) n)
      else if k == exit_cannot_invoke
      then (
        negsuc 0,
        report_error eexec (some (codes "Running '%s' program located but not usable")) n,
      )
      else if k == exit_sigmask
      then (
        negsuc 0,
        report_error eexec (some (codes "Running '%s' failed to reset child process signal mask"))
            n,
      )
      else if k == exit_dup2
      then (
        negsuc 0,
        report_error eexec (some (codes "Running '%s' failed to dup2 child process stdout/stderr"))
            n,
      )
      else if k == exit_invalid_in_this_state
      then (
        negsuc 0,
        report_error einvalidop (some (codes "Running '%s' operation is invalid in this state")) n,
      )
      else if not (k == 0)
      then (
        negsuc 0,
        report_error eexec (some (codes "Running '%s' failed with exit code %d: %s")) n,
      )
      else (pos 0, n)

  -- The part behind exec_program. `waitret` is 0 or 1, never -1: the assignment takes the result of
  -- the comparison. So a failure of waitpid is not seen, and `stale` is what `exitstatus` holds then.
  unfoldable pub collect : Exit → Process → Netcf W → ℤ × Netcf W
  unfolding check_status
  collect stale p n =
      if not p.stream_ok
      then (
        negsuc 0,
        report_error eexec
            (some (codes "Failed to create file stream for output while executing '%s': %s")) n,
      )
      else (let r : ℤ × Netcf W = elim p.output [
        | none ↦ (
          negsuc 0,
          report_error eexec (some (codes "Error while reading output from execution of '%s': %s"))
              n,
        )
        | some text ↦ elim p.waited [
          | none ↦ check_status stale n
          | some exit ↦ check_status exit n
        ]
      ] in
          r)

  -- run_program. The first allocation is that of argv_to_string; ERR_BAIL behind exec_program looks
  -- at the error of the handle, not at the result.
  unfoldable pub run_program : Exit → Process → Netcf W → ℤ × Netcf W
  unfolding set_errcode
  run_program stale p n =
      let (ok, n₁) = allocate n in
      let (_, _, n₂) = exec_program p n₁ in
      if not ok
      then (negsuc 0, set_errcode enomem n₁)
      else if failed n₂
      then (negsuc 0, n₂)
      else collect stale p n₂

  -- init_ioctl_fd: the descriptor or -1.
  unfoldable pub init_ioctl_fd : SocketCalls → Netcf W → ℤ × Netcf W
  init_ioctl_fd calls n = elim calls.socket [
    | none ↦ (
      negsuc 0,
      report_error einternal (some (codes "failed to open socket for interface ioctl")) n,
    )
    | some fd ↦
        if not calls.getfd_ok
        then (
          negsuc 0,
          report_error einternal (some (codes "failed to get flags for ioctl socket")) n,
        )
        else if not calls.setfd_ok
        then (
          negsuc 0,
          report_error einternal (some (codes "failed to set FD_CLOEXEC flag on ioctl socket")) n,
        )
        else (pos fd, n)
  ]
