-- ===== src/Redhat/Bridge.antt =====
-- Bringing interfaces up and down, the aliases of bonds, and the removal of a configuration, in src/drv_redhat.c.
-- `stale` is what `exitstatus` holds in run1 where waitpid fails, in each run of a program. `beyond` says
-- for i ≥ 1 whether the word behind the pointer `slaves` at index i is NULL, which bridge_slaves tests in place of (*slaves)[i].
use fbsd_netcf.Prelude.{
  ℕ, ◌+◌, Bool, false, not, ◌&&◌, List, [], ◌∷◌, ◌++◌, Option, none, some, Text, codes,
  if◌then◌else◌, ℤ, pos, negsuc, is_neg, ltb,
}
use fbsd_netcf.Netcf.{Netcf, NetcfIf, enomem, eother, report_error, set_errcode, allocate, failed}
use fbsd_netcf.System.{Kernel, if_is_active, run_words, run1}
use fbsd_netcf.Posix.{Exit}
use fbsd_netcf.Linux.{Augeas, AugeasPv, LinuxDriver, get_augeas, is_pos, holding}
use fbsd_netcf.Linux.Format.{aug_fmt_match}
use fbsd_netcf.Linux.Modprobe.{modprobed_alias_bond, modprobed_unalias_bond}
use fbsd_netcf.Redhat.Find.{follow, with_augeas, err_cond, ifcfg_path, mentions}

module _ {A V : Type 0} (L : Augeas A V) (contents : ℕ → List AugeasPv) where
  unfoldable pub is_bond : Text → Netcf (LinuxDriver A V) → Bool × Netcf (LinuxDriver A V)
  is_bond name n =
      let ((nmatches, _), n₁) =
        aug_fmt_match L contents (ifcfg_path ++ (codes "[ MASTER = '" ++ (name ++ codes "']"))) n in
      (is_pos L contents nmatches, n₁)

  unfoldable pub is_bridge : Text → Netcf (LinuxDriver A V) → Bool × Netcf (LinuxDriver A V)
  is_bridge name n =
      let ((nmatches, _), n₁) =
        aug_fmt_match L contents
          (ifcfg_path ++ (codes "[ DEVICE = '" ++ (name ++ codes "' and TYPE = 'Bridge']"))) n in
      (is_pos L contents nmatches, n₁)

  -- The loop of bridge_slaves from index i on: the names, where a strdup that fails stores NULL, or `none` at error. strdup
  -- of a value of NULL is undefined.
  unfoldable pub slave_names :
      (ℕ → Bool)
      → A
      → ℕ
      → List Text
      → Netcf (LinuxDriver A V)
      → Option (Option (List (Option Text)) × Netcf (LinuxDriver A V))
  slave_names beyond aug i [] n = some (some [], n)
  slave_names beyond aug i (p ∷ ps) n =
      let (r, dev) = L.aug_get aug p in
      let (ok, n₁) = allocate n in
      let rest = slave_names beyond aug (i + 1) ps n₁ in
      let all : Option (Option (List (Option Text)) × Netcf (LinuxDriver A V)) = elim dev [
        | none ↦ none
        | some name ↦
            if ltb 0 i && beyond i
            then some (none, set_errcode enomem n₁)
            else follow rest (λ names n₂. some (
              elim names [ none ↦ none | some l ↦ some ((if ok then some name else none) ∷ l) ],
              n₂,
            ))
      ] in
      if is_neg r then some (none, set_errcode eother n) else all

  -- bridge_slaves, `none` inside where it gives -1.
  unfoldable pub bridge_slaves :
      (ℕ → Bool)
      → Text
      → Netcf (LinuxDriver A V)
      → Option (Option (List (Option Text)) × Netcf (LinuxDriver A V))
  unfolding slave_names
  bridge_slaves beyond name n =
      let (_, n₁) = get_augeas L contents n in
      let ((_, slaves), n₂) =
        aug_fmt_match L contents
          (ifcfg_path ++ (codes "[ BRIDGE = '" ++ (name ++ codes "' ]/DEVICE"))) n₁ in
      if failed n₁
      then some (none, n₁)
      else if failed n₂
      then some (none, n₂)
      else with_augeas n₂ (λ aug. slave_names beyond aug 0 slaves n₂)

  -- rm_interface
  unfoldable pub rm_interface : Text → Netcf (LinuxDriver A V) → Netcf (LinuxDriver A V)
  rm_interface name n =
      let (aug, n₁) = get_augeas L contents n in
      let (ok, n₂) = allocate n₁ in
      let removed : Netcf (LinuxDriver A V) = elim aug [
        | none ↦ n₂
        | some a ↦
            let (r, a') = L.aug_rm a (mentions (codes " ") (codes " ") (codes "     ") name) in
            err_cond (is_neg r) eother (holding a' n₂)
      ] in
      if failed n₁ then n₁ else if not ok then set_errcode enomem n₂ else removed

  -- setup of bond_setup
  unfoldable pub setup : Bool → Text → Netcf (LinuxDriver A V) → Netcf (LinuxDriver A V)
  setup alias name n =
      if alias
      then modprobed_alias_bond L contents name n
      else modprobed_unalias_bond L contents name n

  -- The loop over the slaves. is_bond prints its name, also a NULL.
  unfoldable pub setup_slaves :
      Bool
      → List (Option Text)
      → Netcf (LinuxDriver A V)
      → Option (Unit {0} × Netcf (LinuxDriver A V))
  unfolding is_bond setup
  setup_slaves alias [] n = some (tt, n)
  setup_slaves alias (none ∷ slaves) n = none
  setup_slaves alias (some name ∷ slaves) n =
      let (bond, n₁) = is_bond name n in
      let n₂ = if bond then setup alias name n₁ else n₁ in
      let rest = setup_slaves alias slaves n₂ in if bond && failed n₂ then some (tt, n₂) else rest

  unfoldable pub bond_setup :
      (ℕ → Bool)
      → Text
      → Bool
      → Netcf (LinuxDriver A V)
      → Option (Unit {0} × Netcf (LinuxDriver A V))
  unfolding is_bond is_bridge setup follow bridge_slaves setup_slaves
  bond_setup beyond name alias n =
      let (bond, n₁) = is_bond name n in
      let n₂ = if bond then setup alias name n₁ else n₁ in
      let (bridge, n₃) = is_bridge name n₂ in
      if bond && failed n₂
      then some (tt, n₂)
      else if not bridge
      then some (tt, n₃)
      else follow (bridge_slaves beyond name n₃) (λ slaves n₄.
        if failed n₄
        then some (tt, n₄)
        else (let r : Option (Unit {0} × Netcf (LinuxDriver A V)) = elim slaves [
          | none ↦ some (tt, n₄)
          | some names ↦ setup_slaves alias names n₄
        ] in
            r))

  -- drv_undefine
  unfoldable pub drv_undefine :
      (ℕ → Bool) → NetcfIf → Netcf (LinuxDriver A V) → Option (ℤ × Netcf (LinuxDriver A V))
  unfolding bond_setup rm_interface
  drv_undefine beyond nif n =
      let (_, n₁) = get_augeas L contents n in
      if failed n₁
      then some (negsuc 0, n₁)
      else follow (bond_setup beyond nif.name false n₁) (λ _ n₂.
        let n₃ = rm_interface nif.name n₂ in
        if failed n₂
        then some (negsuc 0, n₂)
        else if failed n₃
        then some (negsuc 0, n₃)
        else with_augeas n₃ (λ aug.
          let (r, aug', system) = L.aug_save n₃.world.system aug in
          let n₄ : Netcf (LinuxDriver A V) = record n₃ {
            world = record n₃.world { augeas = some aug'; system = system };
          } in
          if is_neg r then some (negsuc 0, set_errcode eother n₄) else some (pos 0, n₄)))

module _ {A V : Type 0} (L : Augeas A V) (contents : ℕ → List AugeasPv)
    (k : Kernel (LinuxDriver A V)) (stale : Exit) (beyond : ℕ → Bool) where
  -- run1 with a slave, whose name may be NULL: the program then has no argument.
  abbrev pub run_slave : Text → Option Text → Netcf (LinuxDriver A V) → Netcf (LinuxDriver A V)
  run_slave prog none n = run_words k stale (prog ∷ []) n
  run_slave prog (some slave) n = run1 k stale prog slave n

  -- The loops over the slaves, each run followed by ERR_BAIL.
  unfoldable pub run_slaves :
      Text → List (Option Text) → Netcf (LinuxDriver A V) → Netcf (LinuxDriver A V)
  run_slaves prog [] n = n
  run_slaves prog (slave ∷ slaves) n =
      let n₁ = run_slave prog slave n in
      let rest = run_slaves prog slaves n₁ in if failed n₁ then n₁ else rest

  -- The part for a bridge: nothing for another interface.
  unfoldable pub run_bridge :
      Text → Text → Netcf (LinuxDriver A V) → Option (Unit {0} × Netcf (LinuxDriver A V))
  unfolding follow bridge_slaves is_bridge run_slaves
  run_bridge prog name n =
      let (bridge, n₁) = is_bridge L contents name n in
      if not bridge
      then some (tt, n₁)
      else follow (bridge_slaves L contents beyond name n₁) (λ slaves n₂.
        if failed n₂
        then some (tt, n₂)
        else (let r : Option (Unit {0} × Netcf (LinuxDriver A V)) = elim slaves [
          | none ↦ some (tt, n₂)
          | some names ↦ some (tt, run_slaves prog names n₂)
        ] in
            r))

  -- The test behind ifup.
  unfoldable pub check_active : Text → Netcf (LinuxDriver A V) → ℤ × Netcf (LinuxDriver A V)
  check_active name n =
      if failed n then (negsuc 0, n) else if if_is_active k name n.world then (pos 0, n) else (
        negsuc 0,
        report_error eother
            (some (codes "interface %s failed to become active - possible disconnected cable.")) n,
      )

  -- An error behind the part for a bridge ends drv_if_up only in that part: the code does not test for one that
  -- is_bridge leaves.
  unfoldable pub drv_if_up :
      NetcfIf → Netcf (LinuxDriver A V) → Option (ℤ × Netcf (LinuxDriver A V))
  unfolding run_bridge check_active follow
  drv_if_up nif n =
      let (bridge, _) = is_bridge L contents nif.name n in
      follow (run_bridge (codes "ifup") nif.name n) (λ _ n₁.
        if bridge && failed n₁
        then some (negsuc 0, n₁)
        else some (check_active nif.name (run1 k stale (codes "ifup") nif.name n₁)))

  unfoldable pub drv_if_down :
      NetcfIf → Netcf (LinuxDriver A V) → Option (ℤ × Netcf (LinuxDriver A V))
  unfolding run_bridge follow is_bridge
  drv_if_down nif n =
      let n₁ = run1 k stale (codes "ifdown") nif.name n in
      let (bridge, _) = is_bridge L contents nif.name n₁ in
      if failed n₁
      then some (negsuc 0, n₁)
      else follow (run_bridge (codes "ifdown") nif.name n₁)
          (λ _ n₂. if bridge && failed n₂ then some (negsuc 0, n₂) else some (pos 0, n₂))
