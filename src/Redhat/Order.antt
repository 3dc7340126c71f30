-- ===== src/Redhat/Order.antt =====
-- The order in which drv_if_up and drv_if_down of src/drv_redhat.c run programs, and what they report.
use fbsd_netcf.Prelude.{
  ℕ, suc, ◌<◌, length, ap, ◌∙◌, ◌≡◌, refl, ◌⊎◌, inl, inr, Bool, true, false, List, [], ◌∷◌, ◌++◌,
  Option, none, some, Text, codes, map, if◌then◌else◌, ℤ, pos, negsuc, arith, Bool-cases,
}
use fbsd_netcf.Netcf.{Netcf, NetcfIf, noerror, is_noerror, report_error, failed}
use fbsd_netcf.Posix.{Exit}
use fbsd_netcf.System.{Kernel, if_is_active, run_words, run1}
use fbsd_netcf.Linux.{Augeas, AugeasPv, LinuxDriver}
use fbsd_netcf.Redhat.Find.{follow, ifcfg_path}
use fbsd_netcf.Linux.Calm.{IsCalm, nodes_at, not_failed}
use fbsd_netcf.Redhat.Enslaved.{
  bridge_pattern, slave_pattern, value_of, is_bridge_calm, bridge_slaves_calm,
}
use fbsd_netcf.Linux.Paths.{no_error, aug_fmt_match-Agrees}
use fbsd_netcf.Redhat.Bridge.{
  is_bridge, bridge_slaves, run_slaves, run_bridge, check_active, drv_if_up, drv_if_down,
}

-- The words of a run: a slave whose name is NULL gives none.
abbrev pub words : Text → Option Text → List Text
words prog none = prog ∷ []
words prog (some name) = prog ∷ name ∷ []

module _ {A V : Type 0} (L : Augeas A V) (contents : ℕ → List AugeasPv)
    (k : Kernel (LinuxDriver A V)) (stale : Exit) (beyond : ℕ → Bool) where
  -- Runs of programs one after the other, up to the first that fails.
  unfoldable pub run_all : List (List Text) → Netcf (LinuxDriver A V) → Netcf (LinuxDriver A V)
  run_all [] n = n
  run_all (argv ∷ argvs) n =
      if failed (run_words k stale argv n)
      then run_words k stale argv n
      else run_all argvs (run_words k stale argv n)

  run_slaves_all :
      (prog : Text) (slaves : List (Option Text)) (n : Netcf (LinuxDriver A V))
      → run_slaves L contents k stale beyond prog slaves n ≡ run_all (map (words prog) slaves) n
  unfolding run_slaves run_all run1
  run_slaves_all prog [] n = refl
  run_slaves_all prog (none ∷ slaves) n =
      rw (run_slaves_all prog slaves (run_words k stale (prog ∷ []) n)) refl
  run_slaves_all prog (some name ∷ slaves) n =
      rw (run_slaves_all prog slaves (run_words k stale (prog ∷ name ∷ []) n)) refl

  run_all-append :
      (argvs : List (List Text)) (argv : List Text) (n : Netcf (LinuxDriver A V))
      → failed n ≡ false
      → run_all (argvs ++ (argv ∷ [])) n ≡ (
          if failed (run_all argvs n)
          then run_all argvs n
          else run_words k stale argv (run_all argvs n))
  unfolding run_all
  run_all-append [] argv n fine = rw fine (elim (Bool-cases (failed (run_words k stale argv n))) [
    | inl bad ↦ rw bad refl
    | inr good ↦ rw good refl
  ])
  run_all-append (first ∷ argvs) argv n fine =
      elim (Bool-cases (failed (run_words k stale first n))) [
        | inl bad ↦ rw bad (rw bad refl)
        | inr good ↦ rw good (run_all-append argvs argv (run_words k stale first n) good)
      ]

  run_bridge_slaves :
      (prog name : Text) (n n₂ : Netcf (LinuxDriver A V)) (slaves : List (Option Text))
      → (is_bridge L contents name n).0 ≡ true
      → bridge_slaves L contents beyond name (is_bridge L contents name n).1
        ≡ some (some slaves, n₂)
      → failed n₂ ≡ false
      → run_bridge L contents k stale beyond prog name n
        ≡ some (tt, run_all (map (words prog) slaves) n₂)
  unfolding run_bridge follow
  run_bridge_slaves prog name n n₂ slaves bridge found fine =
      rw (bridge, run_bridge)
        (rw (found, follow) (rw fine (rw (run_slaves_all prog slaves n₂) refl)))

  -- is_bridge finds no bridge where libaugeas fails.
  is_bridge-failed :
      (name : Text) (n : Netcf (LinuxDriver A V))
      → failed n ≡ false
      → failed (is_bridge L contents name n).1 ≡ true
      → (is_bridge L contents name n).0 ≡ false
  unfolding is_bridge
  is_bridge-failed name n fine failure =
      let path : Text =
        ifcfg_path ++ (codes "[ DEVICE = '" ++ (name ++ codes "' and TYPE = 'Bridge']")) in
      elim (aug_fmt_match-Agrees L contents path n (no_error n.errcode fine)) [
        | inl (_, clean) ↦ absurd (ground (arith, clean, failure))
        | inr (r, _) ↦ rw r refl
      ]

  -- drv_if_up of a bridge with these slaves.
  drv_if_up_runs :
      (nif : NetcfIf) (n n₂ : Netcf (LinuxDriver A V)) (slaves : List (Option Text))
      → (is_bridge L contents nif.name n).0 ≡ true
      → bridge_slaves L contents beyond nif.name (is_bridge L contents nif.name n).1
        ≡ some (some slaves, n₂)
      → failed n₂ ≡ false
      → drv_if_up L contents k stale beyond nif n
        ≡ some (
            check_active L contents k stale beyond nif.name (
              run_all
                (map (words (codes "ifup")) slaves ++ ((codes "ifup" ∷ nif.name ∷ []) ∷ []))
                n₂))
  unfolding drv_if_up run_bridge follow check_active run1
  drv_if_up_runs nif n n₂ slaves bridge found fine =
      let all = run_bridge_slaves (codes "ifup") nif.name n n₂ slaves bridge found fine in
      rw (all, drv_if_up)
        (rw
          (
            bridge,
            run_all-append (map (words (codes "ifup")) slaves) (codes "ifup" ∷ nif.name ∷ []) n₂
                fine,
          )
          (elim (Bool-cases (failed (run_all (map (words (codes "ifup")) slaves) n₂))) [
            | inl bad ↦ rw bad (rw (bad, check_active) refl)
            | inr good ↦ rw good refl
          ]))

  words-some :
      (prog : Text) (names : List Text)
      → map (words prog) (map (λ (slave : Text). some slave) names)
        ≡ map (λ slave. prog ∷ slave ∷ []) names
  words-some prog [] = refl
  words-some prog (name ∷ names) = ap (λ l. (prog ∷ name ∷ []) ∷ l) (words-some prog names)

  -- On a handle that holds the loaded tree, has no error and does not run out of memory, if libaugeas finds a file that makes the
  -- interface a bridge, aug_get gives 1 and a value for each of the nodes that it finds for the DEVICE of the bridge's slaves, and,
  -- for each of them but the first, the word is not NULL that bridge_slaves tests in place of the pointer that strdup gave,
  -- drv_if_up runs ifup for each of the values, in the order in which libaugeas gives the nodes, and then for the bridge, up to the first
  -- run that fails; it then tests whether the bridge is active.
  pub drv_if_up_bridge :
      (aug : A) (nif : NetcfIf) (names : List Text) (n : Netcf (LinuxDriver A V)) {files count : ℕ}
      → IsCalm aug n
      → (L.aug_match aug (bridge_pattern nif.name)).0 ≡ pos (suc files)
      → (L.aug_match aug (slave_pattern nif.name)).0 ≡ pos count
      → map (L.aug_get aug) (nodes_at L contents aug (slave_pattern nif.name)) ≡ map value_of names
      → ((j : ℕ) → 0 < j → j < length names → beyond j ≡ false)
      → drv_if_up L contents k stale beyond nif n
        ≡ some (
            check_active L contents k stale beyond nif.name (
              run_all
                (map (λ slave. codes "ifup" ∷ slave ∷ []) names
                  ++ ((codes "ifup" ∷ nif.name ∷ []) ∷ []))
                n))
  drv_if_up_bridge aug nif names n {files} {count} calm bridge slaves values in_array =
      let is = is_bridge_calm L contents beyond aug nif.name n calm bridge in
      let found =
        bridge_slaves_calm L contents beyond aug nif.name names n calm slaves values in_array in
      let here = ap (λ (r : Bool × Netcf (LinuxDriver A V)). r.0) is in
      let same = ap (λ (r : Bool × Netcf (LinuxDriver A V)). r.1) is in
      drv_if_up_runs nif n n (map (λ (slave : Text). some slave) names) here
        (ap (bridge_slaves L contents beyond nif.name) same ∙ found)
        (not_failed L contents n calm.clean)
      ∙ ap
          (λ (argvs : List (List Text)). some (
            check_active L contents k stale beyond nif.name
              (run_all (argvs ++ ((codes "ifup" ∷ nif.name ∷ []) ∷ [])) n)))
          (words-some (codes "ifup") names)

  -- drv_if_down of a bridge runs ifdown for the bridge, and behind that for each slave, up to the first run that fails; it gives 0
  -- exactly where none has failed.
  pub drv_if_down_bridge :
      (nif : NetcfIf) (n n₂ : Netcf (LinuxDriver A V)) (slaves : List (Option Text))
      → failed (run1 k stale (codes "ifdown") nif.name n) ≡ false
      → (is_bridge L contents nif.name (run1 k stale (codes "ifdown") nif.name n)).0 ≡ true
      → bridge_slaves L contents beyond nif.name
          (is_bridge L contents nif.name (run1 k stale (codes "ifdown") nif.name n)).1
        ≡ some (some slaves, n₂)
      → failed n₂ ≡ false
      → drv_if_down L contents k stale beyond nif n ≡ (
          let n' = run_all (map (words (codes "ifdown")) slaves) n₂ in
          some (if failed n' then negsuc 0 else pos 0, n'))
  unfolding drv_if_down run_bridge follow run_all
  drv_if_down_bridge nif n n₂ slaves fine bridge found fine' =
      let all =
        run_bridge_slaves (codes "ifdown") nif.name (run1 k stale (codes "ifdown") nif.name n) n₂
          slaves bridge found fine' in
      rw (fine, drv_if_down)
        (rw (all, bridge)
          (elim (Bool-cases (failed (run_all (map (words (codes "ifdown")) slaves) n₂))) [
            | inl bad ↦ rw bad refl
            | inr good ↦ rw good refl
          ]))

  -- Where drv_if_up comes to an end, it gives 0 without an error and with the interface active, or -1 with an error.
  pub drv_if_up_result :
      (nif : NetcfIf) (n : Netcf (LinuxDriver A V)) {r : ℤ} {n' : Netcf (LinuxDriver A V)}
      → drv_if_up L contents k stale beyond nif n ≡ some (r, n')
      → ((r ≡ pos 0) × (n'.errcode ≡ noerror) × (if_is_active k nif.name n'.world ≡ true))
        ⊎ ((r ≡ negsuc 0) × (is_noerror n'.errcode ≡ false))
  unfolding drv_if_up follow check_active report_error
  drv_if_up_result nif n e = ground arith

  -- If libaugeas fails in is_bridge, drv_if_down takes no slave down and gives 0, although an error is left.
  pub drv_if_down_unseen :
      (nif : NetcfIf) (n : Netcf (LinuxDriver A V))
      → failed (run1 k stale (codes "ifdown") nif.name n) ≡ false
      → failed (is_bridge L contents nif.name (run1 k stale (codes "ifdown") nif.name n)).1 ≡ true
      → (n' : Netcf (LinuxDriver A V)) × (drv_if_down L contents k stale beyond nif n
          ≡ some (pos 0, n'))
        × (failed n' ≡ true)
        × (n' ≡ (is_bridge L contents nif.name (run1 k stale (codes "ifdown") nif.name n)).1)
  unfolding drv_if_down run_bridge follow
  drv_if_down_unseen nif n fine failure =
      let no_bridge =
        is_bridge-failed nif.name (run1 k stale (codes "ifdown") nif.name n) fine failure in
      (
        (is_bridge L contents nif.name (run1 k stale (codes "ifdown") nif.name n)).1,
        rw (fine, no_bridge, drv_if_down) refl,
        failure,
        refl,
      )
