-- ===== src/Posix/Tests.antt =====
-- The theorems on src/dutil_posix.c at concrete runs of a program.
use fbsd_netcf.Prelude.{ℕ, ◌+◌, ◌≤◌, refl, true, false, [], ◌∷◌, none, some, codes, length}
use fbsd_netcf.Netcf.{Netcf, noerror}
use fbsd_netcf.Posix.{Process, exited, improper, argv_to_string, argv_size, run_program}
use fbsd_netcf.Posix.Run.{Agrees, argv_to_string-fits, run_program-Agrees}

abbrev handle : Netcf ℕ
handle = record {
  count = 1;
  root = codes "/";
  data_dir = codes "/usr/share/netcf";
  rng = true;
  errcode = noerror;
  errdetails = none;
  driver = true;
  debug = false;
  allocs = [];
  world = 0;
}

-- A program that ends with the code of a transaction script in the wrong state.
abbrev refusal : Process
refusal = record {
  pipe_ok = true;
  block_ok = true;
  fork_ok = true;
  restore_ok = true;
  stream_ok = true;
  output = some [];
  waited = some (exited 199);
}

argv_to_string-fits_example :
    length (argv_to_string (codes "ifup" ∷ codes "em0" ∷ [])) + 1
    ≤ argv_size (codes "ifup" ∷ codes "em0" ∷ [])
argv_to_string-fits_example = argv_to_string-fits (codes "ifup" ∷ codes "em0" ∷ [])

run_program-Agrees_example : Agrees (run_program improper refusal handle)
run_program-Agrees_example = run_program-Agrees improper refusal handle refl
