-- ===== src/Posix/Run.antt =====
-- How run_program of src/dutil_posix.c ends.
use fbsd_netcf.Prelude.{
  ℕ, ◌+◌, ◌≤◌, ◌≡◌, ◌≢◌, refl, ◌⊎◌, true, false, List, [], ◌∷◌, Option, none, some, Text, length,
  length-append, ◌==◌, if◌then◌else◌, ℤ, pos, negsuc, arith,
}
use fbsd_netcf.Netcf.{noerror, is_noerror, eexec, einvalidop, Netcf, report_error, allocate, failed}
use fbsd_netcf.Posix.{
  Exit, exited, signaled, improper, exit_invalid_in_this_state, Process, argv_size, argv_rest,
  argv_to_string, exec_program, check_status, collect, run_program,
}

argv_rest-length : (as' : List Text) → length (argv_rest as') + 1 ≤ argv_size as'
unfolding argv_rest argv_size
argv_rest-length [] = omega arith
argv_rest-length (a ∷ as') = omega (arith, argv_rest-length as', length-append a (argv_rest as'))

-- The words of a command line, joined by blanks and ended by a NUL, fit into the space that
-- argv_to_string allocates for them.
pub argv_to_string-fits : (argv : List Text) → length (argv_to_string argv) + 1 ≤ argv_size argv
unfolding argv_to_string argv_size
argv_to_string-fits [] = omega arith
argv_to_string-fits (a ∷ as') = omega (arith, argv_rest-length as', length-append a (argv_rest as'))

-- The result agrees with the error of the handle: 0 and none, or -1 and some.
abbrev pub Agrees : {W : Type 0} → ℤ × Netcf W → Type 0
Agrees (r, n) =
    ((r ≡ pos 0) × (n.errcode ≡ noerror)) ⊎ ((r ≡ negsuc 0) × (is_noerror n.errcode ≡ false))

module _ {W : Type 0} where
  status-Agrees : (e : Exit) (n : Netcf W) → n.errcode ≡ noerror → Agrees (check_status e n)
  unfolding check_status report_error
  status-Agrees (signaled s) n fresh = ground arith
  status-Agrees improper n fresh = ground arith
  status-Agrees (exited k) n fresh = ground arith

  collect-Agrees :
      (stale : Exit) (p : Process) (n : Netcf W) → n.errcode ≡ noerror → Agrees (collect stale p n)
  unfolding collect report_error
  collect-Agrees stale p n fresh = go p.waited
    where
      go : (w : Option Exit) → Agrees (collect stale (record p { waited = w }) n)
      go none = ground (arith, status-Agrees stale n fresh)
      go (some e) = ground (arith, status-Agrees e n fresh)

  exec_program-errcode :
      (p : Process) (n : Netcf W)
      → n.errcode ≡ noerror
      → ((exec_program p n).2.errcode ≡ noerror) ⊎ (is_noerror (exec_program p n).2.errcode ≡ false)
  unfolding exec_program report_error
  exec_program-errcode p n fresh = ground arith

  -- Started without an error, run_program gives 0 and leaves none, or gives -1 and leaves one.
  pub run_program-Agrees :
      (stale : Exit) (p : Process) (n : Netcf W)
      → n.errcode ≡ noerror
      → Agrees (run_program stale p n)
  unfolding run_program allocate
  run_program-Agrees stale p n fresh =
      let n₁ = (allocate n).1 in
      ground (arith, exec_program-errcode p n₁, collect-Agrees stale p (exec_program p n₁).2)

  exec_same : (p : Process) (n : Netcf W) → (exec_program p n).0 ≡ pos 0 → (exec_program p n).2 ≡ n
  unfolding exec_program
  exec_same p n ran = ground arith

  -- An exit code other than 0 is an error.
  status_exit :
      (k : ℕ) (n : Netcf W)
      → n.errcode ≡ noerror
      → k ≢ 0
      → ((check_status (exited k) n).0 ≡ negsuc 0)
        × ((check_status (exited k) n).1.errcode
            ≡ (if k == exit_invalid_in_this_state then einvalidop else eexec))
  unfolding check_status report_error
  status_exit k n fresh bad = ground arith

  collect_exit :
      (stale : Exit) (p : Process) (n : Netcf W) (k : ℕ) {text : Text}
      → p.stream_ok ≡ true
      → p.output ≡ some text
      → p.waited ≡ some (exited k)
      → collect stale p n ≡ check_status (exited k) n
  unfolding collect
  collect_exit stale p n k stream out wait = rw (stream, out, wait, collect) refl

  -- A program that was run and whose exit code is not 0 is never taken for a success: run_program
  -- gives -1, and EINVALIDOP for the one code that says so, EEXEC for all others.
  pub run_program_exit :
      (stale : Exit) (p : Process) (n : Netcf W) (k : ℕ) {text : Text}
      → n.errcode ≡ noerror
      → (allocate n).0 ≡ true
      → (exec_program p (allocate n).1).0 ≡ pos 0
      → p.stream_ok ≡ true
      → p.output ≡ some text
      → p.waited ≡ some (exited k)
      → k ≢ 0
      → ((run_program stale p n).0 ≡ negsuc 0)
        × ((run_program stale p n).1.errcode
            ≡ (if k == exit_invalid_in_this_state then einvalidop else eexec))
  unfolding run_program allocate
  run_program_exit stale p n k fresh ok ran stream out wait bad =
      let n₁ = (allocate n).1 in
      let same : (exec_program p n₁).2 ≡ n₁ = exec_same p n₁ ran in
      let clean : failed (exec_program p n₁).2 ≡ false = rw (same, fresh) refl in
      rw (ok, clean, run_program)
        (rw (same, collect_exit stale p n₁ k stream out wait) (status_exit k n₁ fresh bad))
