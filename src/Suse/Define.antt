-- ===== src/Suse/Define.antt =====
-- Definitions of interfaces, their removal, and bringing them up and down, in src/drv_suse.c. libxml2 makes and reads documents. `stale` and
-- `beyond` are those of the backend for Red Hat.
use fbsd_netcf.Prelude.{
  ℕ, Bool, true, false, not, ◌&&◌, List, [], ◌∷◌, ◌++◌, Option, none, some, Text, codes,
  if◌then◌else◌, ℤ, pos, negsuc, is_neg,
}
use fbsd_netcf.Netcf.{Netcf, NetcfIf, enomem, eother, einternal, set_errcode, allocate, failed}
use fbsd_netcf.Posix.{Exit}
use fbsd_netcf.System.{Kernel, run1}
use fbsd_netcf.Linux.{Augeas, AugeasPv, LinuxDriver, get_augeas, holding, is_pos}
use fbsd_netcf.Linux.Format.{aug_fmt_match, formatted}
use fbsd_netcf.Xml.{LibXml, apply_stylesheet, apply_stylesheet_to_string, rng_validate, parse_xml}
use fbsd_netcf.Redhat.Find.{follow, with_augeas, err_cond}
use fbsd_netcf.Redhat.Forest.{Forest}
use fbsd_netcf.Redhat.Bridge.{slave_names, setup, run_slaves, check_active}
use fbsd_netcf.Redhat.Define.{Documents, system_of, device_name_from_xml, save_and_make}
use fbsd_netcf.Suse.Files.{
  Dirent, aug_files, ifcfg_path, ifcfg_file, ifcfg_below, udev_netrule_path,
}
use fbsd_netcf.Suse.Forest.{aug_put_xml}
use fbsd_netcf.Suse.Forest.Get.{aug_get_xml_for_nif}

module _ {A V : Type 0} (L : Augeas A V) (contents : ℕ → List AugeasPv) where
  unfoldable pub is_bond : Text → Netcf (LinuxDriver A V) → Bool × Netcf (LinuxDriver A V)
  is_bond name n =
      let ((nmatches, _), n₁) =
        aug_fmt_match L contents
          (ifcfg_path ++ (codes "[ BONDING_MASTER = '" ++ (name ++ codes "']"))) n in
      (is_pos L contents nmatches, n₁)

  unfoldable pub is_bridge : Text → Netcf (LinuxDriver A V) → Bool × Netcf (LinuxDriver A V)
  is_bridge name n =
      let ((nmatches, _), n₁) =
        aug_fmt_match L contents (ifcfg_file name ++ codes "[ BRIDGE = 'yes' ]") n in
      (is_pos L contents nmatches, n₁)

  -- bridge_slaves, `none` inside where it gives -1.
  unfoldable pub bridge_slaves :
      (ℕ → Bool)
      → Text
      → Netcf (LinuxDriver A V)
      → Option (Option (List (Option Text)) × Netcf (LinuxDriver A V))
  unfolding slave_names with_augeas
  bridge_slaves beyond name n =
      let (_, n₁) = get_augeas L contents n in
      let ((_, slaves), n₂) =
        aug_fmt_match L contents
          (ifcfg_path ++ (codes "[ BRIDGE = '" ++ (name ++ codes "' ]/DEVICE"))) n₁ in
      if failed n₁
      then some (none, n₁)
      else if failed n₂
      then some (none, n₂)
      else with_augeas n₂ (λ aug. slave_names L contents beyond aug 0 slaves n₂)

  -- The loop of rm_interface over the rules, from the last one on. What aug_rm gives is not tested.
  unfoldable pub rm_rules : List Text → A → A
  rm_rules [] aug = aug
  rm_rules (rule ∷ rules) aug = (L.aug_rm (rm_rules rules aug) rule).1

  -- rm_interface: the file, then the rules of udev.
  unfoldable pub rm_interface : Text → Netcf (LinuxDriver A V) → Netcf (LinuxDriver A V)
  unfolding rm_rules
  rm_interface name n =
      let (_, n₁) = formatted L contents tt n (λ aug m.
        let (r, aug') = L.aug_rm aug (ifcfg_below name) in
        (tt, err_cond (is_neg r) eother (holding aug' m))) in
      let ((nrules, rules), n₂) =
        aug_fmt_match L contents (aug_files ++ (b'/' ∷ (udev_netrule_path ++ (b'/' ∷ name)))) n₁ in
      let n₃ = err_cond (is_neg nrules) einternal n₂ in
      let removed : Netcf (LinuxDriver A V) = elim n₃.world.augeas [
        | none ↦ n₃
        | some aug ↦ holding (rm_rules rules aug) n₃
      ] in
      if failed n₁ then n₁ else if failed n₃ then n₃ else removed

  -- The loop of rm_all_interfaces. A name that is missing counts as no memory.
  unfoldable pub rm_interfaces :
      List (Option Text) → Netcf (LinuxDriver A V) → Netcf (LinuxDriver A V)
  unfolding rm_interface
  rm_interfaces [] n = n
  rm_interfaces (none ∷ names) n = set_errcode enomem n
  rm_interfaces (some name ∷ names) n =
      let n₁ = rm_interface name n in
      let rest = rm_interfaces names n₁ in if failed n₁ then n₁ else rest

  -- The loop of bond_setup over the slaves. is_bond prints its name, also a NULL.
  unfoldable pub setup_slaves :
      Bool
      → List (Option Text)
      → Netcf (LinuxDriver A V)
      → Option (Unit {0} × Netcf (LinuxDriver A V))
  unfolding is_bond setup
  setup_slaves alias [] n = some (tt, n)
  setup_slaves alias (none ∷ slaves) n = none
  setup_slaves alias (some name ∷ slaves) n =
      let (bond, n₁) = is_bond name n in
      let n₂ = if bond then setup L contents alias name n₁ else n₁ in
      let rest = setup_slaves alias slaves n₂ in if bond && failed n₂ then some (tt, n₂) else rest

  unfoldable pub bond_setup :
      (ℕ → Bool)
      → Text
      → Bool
      → Netcf (LinuxDriver A V)
      → Option (Unit {0} × Netcf (LinuxDriver A V))
  unfolding is_bond is_bridge setup follow bridge_slaves setup_slaves
  bond_setup beyond name alias n =
      let (bond, n₁) = is_bond name n in
      let n₂ = if bond then setup L contents alias name n₁ else n₁ in
      let (bridge, n₃) = is_bridge name n₂ in
      if bond && failed n₂
      then some (tt, n₂)
      else if not bridge
      then some (tt, n₃)
      else follow (bridge_slaves beyond name n₃) (λ slaves n₄.
        if failed n₄
        then some (tt, n₄)
        else (let r : Option (Unit {0} × Netcf (LinuxDriver A V)) = elim slaves [
          | none ↦ some (tt, n₄)
          | some names ↦ setup_slaves alias names n₄
        ] in
            r))

  -- drv_undefine
  unfoldable pub drv_undefine :
      (ℕ → Bool) → NetcfIf → Netcf (LinuxDriver A V) → Option (ℤ × Netcf (LinuxDriver A V))
  unfolding bond_setup rm_interface with_augeas follow
  drv_undefine beyond nif n =
      let (_, n₁) = get_augeas L contents n in
      if failed n₁
      then some (negsuc 0, n₁)
      else follow (bond_setup beyond nif.name false n₁) (λ _ n₂.
        let n₃ = rm_interface nif.name n₂ in
        if failed n₂
        then some (negsuc 0, n₂)
        else if failed n₃
        then some (negsuc 0, n₃)
        else with_augeas n₃ (λ aug.
          let (r, aug', system) = L.aug_save n₃.world.system aug in
          let n₄ : Netcf (LinuxDriver A V) = record n₃ {
            world = record n₃.world { augeas = some aug'; system = system };
          } in
          if is_neg r then some (negsuc 0, set_errcode eother n₄) else some (pos 0, n₄)))

-- `all_interfaces` are the names of the interfaces //interface of a document.
module _ {A V D S : Type 0} (L : Augeas A V) (contents : ℕ → List AugeasPv) (X : LibXml D S V)
    (M : Documents D Forest) (all_interfaces : D → List (Option Text))
    (get_hwaddr : V → Text → Option (List ℕ)) (os113 : Bool) where
  -- rm_all_interfaces, with the context and the set of nodes.
  unfoldable pub rm_all_interfaces : D → Netcf (LinuxDriver A V) → Netcf (LinuxDriver A V)
  unfolding rm_interfaces
  rm_all_interfaces doc n =
      let (ok₁, n₁) = allocate n in
      let (ok₂, n₂) = allocate n₁ in
      if not ok₁
      then set_errcode enomem n₁
      else if not ok₂
      then set_errcode enomem n₂
      else rm_interfaces L contents (all_interfaces doc) n₂

  -- drv_xml_desc
  unfoldable pub drv_xml_desc :
      (V → Option (List Dirent))
      → S
      → NetcfIf
      → Netcf (LinuxDriver A V)
      → Option (Option Text × Netcf (LinuxDriver A V))
  unfolding aug_get_xml_for_nif follow
  drv_xml_desc directory put nif n =
      follow (aug_get_xml_for_nif L contents directory nif.name n) (λ aug_xml n₁.
        if failed n₁
        then some (none, n₁)
        else (let r : Option (Option Text × Netcf (LinuxDriver A V)) = elim aug_xml [
          | none ↦ none
          | some forest ↦ some (apply_stylesheet_to_string X system_of put (M.of_forest forest) n₁)
        ] in
            r))

  -- The part of drv_define behind device_name_from_xml.
  unfoldable pub define_named :
      (ℕ → Bool)
      → S
      → Text
      → D
      → Netcf (LinuxDriver A V)
      → Option (Option NetcfIf × Netcf (LinuxDriver A V))
  unfolding rm_all_interfaces aug_put_xml save_and_make follow bond_setup
  define_named beyond get name doc n =
      let n₁ = rm_all_interfaces doc n in
      let (aug_xml, n₂) = apply_stylesheet X system_of get doc n₁ in
      let forest : Option Forest = elim aug_xml [ none ↦ none | some d ↦ M.root_of d ] in
      if failed n₁
      then some (none, n₁)
      else if failed n₂
      then some (none, n₂)
      else follow (aug_put_xml L contents get_hwaddr os113 forest n₂) (λ _ n₃.
        if failed n₃
        then some (none, n₃)
        else follow (bond_setup L contents beyond name true n₃)
            (λ _ n₄. if failed n₄ then some (none, n₄) else save_and_make L contents name n₄))

  unfoldable pub drv_define :
      (ℕ → Bool)
      → S
      → Text
      → Netcf (LinuxDriver A V)
      → Option (Option NetcfIf × Netcf (LinuxDriver A V))
  unfolding define_named device_name_from_xml
  drv_define beyond get xml_str n =
      let (_, n₁) = get_augeas L contents n in
      let (ncf_xml, n₂) = parse_xml X system_of xml_str n₁ in
      let rest : Option (Option NetcfIf × Netcf (LinuxDriver A V)) = elim ncf_xml [
        | none ↦ none
        | some doc ↦
            let n₃ = rng_validate X system_of doc n₂ in
            let ((name, doc'), n₄) = device_name_from_xml M doc n₃ in
            let named : Option (Option NetcfIf × Netcf (LinuxDriver A V)) = elim name [
              | none ↦ some (none, set_errcode einternal n₄)
              | some nm ↦ if failed n₄ then some (none, n₄) else define_named beyond get nm doc' n₄
            ] in
            if failed n₃ then some (none, n₃) else named
      ] in
      if failed n₁ then some (none, n₁) else if failed n₂ then some (none, n₂) else rest

module _ {A V : Type 0} (L : Augeas A V) (contents : ℕ → List AugeasPv)
    (k : Kernel (LinuxDriver A V)) (stale : Exit) (beyond : ℕ → Bool) where
  -- The part for a bridge: nothing for another interface.
  unfoldable pub run_bridge :
      Text → Text → Netcf (LinuxDriver A V) → Option (Unit {0} × Netcf (LinuxDriver A V))
  unfolding follow bridge_slaves is_bridge run_slaves
  run_bridge prog name n =
      let (bridge, n₁) = is_bridge L contents name n in
      if not bridge
      then some (tt, n₁)
      else follow (bridge_slaves L contents beyond name n₁) (λ slaves n₂.
        if failed n₂
        then some (tt, n₂)
        else (let r : Option (Unit {0} × Netcf (LinuxDriver A V)) = elim slaves [
          | none ↦ some (tt, n₂)
          | some names ↦ some (tt, run_slaves L contents k stale beyond prog names n₂)
        ] in
            r))

  -- drv_if_up
  unfoldable pub drv_if_up :
      NetcfIf → Netcf (LinuxDriver A V) → Option (ℤ × Netcf (LinuxDriver A V))
  unfolding run_bridge check_active follow is_bridge
  drv_if_up nif n =
      let (bridge, _) = is_bridge L contents nif.name n in
      follow (run_bridge (codes "ifup") nif.name n) (λ _ n₁.
        if bridge && failed n₁
        then some (negsuc 0, n₁)
        else some (
            check_active L contents k stale beyond nif.name
              (run1 k stale (codes "ifup") nif.name n₁)))

  -- drv_if_down
  unfoldable pub drv_if_down :
      NetcfIf → Netcf (LinuxDriver A V) → Option (ℤ × Netcf (LinuxDriver A V))
  unfolding run_bridge follow is_bridge
  drv_if_down nif n =
      let n₁ = run1 k stale (codes "ifdown") nif.name n in
      let (bridge, _) = is_bridge L contents nif.name n₁ in
      if failed n₁
      then some (negsuc 0, n₁)
      else follow (run_bridge (codes "ifdown") nif.name n₁)
          (λ _ n₂. if bridge && failed n₂ then some (negsuc 0, n₂) else some (pos 0, n₂))
