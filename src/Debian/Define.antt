-- ===== src/Debian/Define.antt =====
-- Definitions of interfaces, their removal, and bringing them up and down, in src/drv_debian.c. libxml2 makes and reads documents.
-- `stale` is what `exitstatus` holds in run1 where waitpid fails.
use fbsd_netcf.Prelude.{
  ℕ, Bool, true, false, not, ◌&&◌, List, [], ◌∷◌, ◌++◌, Option, none, some, Text, codes,
  if◌then◌else◌, ℤ, pos, negsuc, is_neg,
}
use fbsd_netcf.Netcf.{Netcf, NetcfIf, enomem, eother, einternal, set_errcode, allocate, failed}
use fbsd_netcf.Posix.{Exit}
use fbsd_netcf.System.{Kernel, run1}
use fbsd_netcf.Linux.{Augeas, AugeasPv, LinuxDriver, get_augeas}
use fbsd_netcf.Linux.Format.{aug_fmt_rm}
use fbsd_netcf.Linux.Modprobe.{modprobed_alias_bond, modprobed_unalias_bond}
use fbsd_netcf.Xml.{LibXml, apply_stylesheet, apply_stylesheet_to_string, rng_validate, parse_xml}
use fbsd_netcf.Redhat.Find.{follow, with_augeas, err_cond}
use fbsd_netcf.Redhat.Bridge.{check_active}
use fbsd_netcf.Redhat.Define.{Documents, system_of, device_name_from_xml, save_and_make}
use fbsd_netcf.Debian.Deps.{network_interfaces_path, iface_named, is_bond, is_bridge, bridge_ports}
use fbsd_netcf.Debian.Forest.{Forest, aug_get_xml}
use fbsd_netcf.Debian.Forest.Put.{aug_put_xml}

module _ {A V : Type 0} (L : Augeas A V) (contents : ℕ → List AugeasPv) where
  -- rm_interface: the mention of the interface under `auto`, then its own entries.
  unfoldable pub rm_interface : Text → Netcf (LinuxDriver A V) → Netcf (LinuxDriver A V)
  rm_interface name n =
      let (r, n₁) =
        aug_fmt_rm L contents
          (network_interfaces_path ++ (codes "/auto[./1 = '" ++ (name ++ codes "']"))) n in
      let n₂ = err_cond (is_neg r) eother n₁ in
      let (r', n₃) = aug_fmt_rm L contents (iface_named name ++ codes "]") n₂ in
      if failed n₂ then n₂ else err_cond (is_neg r') eother n₃

  -- The loop of rm_all_interfaces. A name that is missing counts as no memory.
  unfoldable pub rm_interfaces :
      List (Option Text) → Netcf (LinuxDriver A V) → Netcf (LinuxDriver A V)
  unfolding rm_interface
  rm_interfaces [] n = n
  rm_interfaces (none ∷ names) n = set_errcode enomem n
  rm_interfaces (some name ∷ names) n =
      let n₁ = rm_interface name n in
      let rest = rm_interfaces names n₁ in if failed n₁ then n₁ else rest

  -- setup of bond_setup
  unfoldable pub setup : Bool → Text → Netcf (LinuxDriver A V) → Netcf (LinuxDriver A V)
  setup alias name n =
      if alias
      then modprobed_alias_bond L contents name n
      else modprobed_unalias_bond L contents name n

  -- The call of setup for a bond, nothing for another interface.
  unfoldable pub setup_bond : Bool → Text → Netcf (LinuxDriver A V) → Netcf (LinuxDriver A V)
  unfolding setup is_bond
  setup_bond alias name n =
      let (bond, n₁) = is_bond L contents name n in if bond then setup alias name n₁ else n₁

  -- The loop over the ports of a bridge. Only behind setup does it test for an error.
  unfoldable pub setup_ports : Bool → List Text → Netcf (LinuxDriver A V) → Netcf (LinuxDriver A V)
  unfolding setup_bond is_bond
  setup_ports alias [] n = n
  setup_ports alias (port ∷ ports) n =
      let (bond, _) = is_bond L contents port n in
      let n₁ = setup_bond alias port n in
      let rest = setup_ports alias ports n₁ in if bond && failed n₁ then n₁ else rest

  unfoldable pub bond_setup :
      Text → Bool → Netcf (LinuxDriver A V) → Option (Unit {0} × Netcf (LinuxDriver A V))
  unfolding setup_bond setup_ports is_bond is_bridge bridge_ports follow
  bond_setup name alias n =
      let (bond, _) = is_bond L contents name n in
      let n₁ = setup_bond alias name n in
      let (bridge, n₂) = is_bridge L contents name n₁ in
      if bond && failed n₁
      then some (tt, n₁)
      else if not bridge
      then some (tt, n₂)
      else follow (bridge_ports L contents name n₂) (λ ports n₃.
        if failed n₃
        then some (tt, n₃)
        else (let r : Option (Unit {0} × Netcf (LinuxDriver A V)) = elim ports [
          | none ↦ some (tt, n₃)
          | some names ↦ some (tt, setup_ports alias names n₃)
        ] in
            r))

  -- drv_undefine
  unfoldable pub drv_undefine :
      NetcfIf → Netcf (LinuxDriver A V) → Option (ℤ × Netcf (LinuxDriver A V))
  unfolding bond_setup rm_interface
  drv_undefine nif n =
      let (_, n₁) = get_augeas L contents n in
      if failed n₁
      then some (negsuc 0, n₁)
      else follow (bond_setup nif.name false n₁) (λ _ n₂.
        let n₃ = rm_interface nif.name n₂ in
        if failed n₂
        then some (negsuc 0, n₂)
        else if failed n₃
        then some (negsuc 0, n₃)
        else with_augeas n₃ (λ aug.
          let (r, aug', system) = L.aug_save n₃.world.system aug in
          let n₄ : Netcf (LinuxDriver A V) = record n₃ {
            world = record n₃.world { augeas = some aug'; system = system };
          } in
          if is_neg r then some (negsuc 0, set_errcode eother n₄) else some (pos 0, n₄)))

module _ {A V D S : Type 0} (L : Augeas A V) (contents : ℕ → List AugeasPv) (X : LibXml D S V)
    (M : Documents D Forest) (decimal : ℕ → Text) (strtol : Text → ℕ) where
  -- rm_all_interfaces, with the context and the set of nodes.
  unfoldable pub rm_all_interfaces : D → Netcf (LinuxDriver A V) → Netcf (LinuxDriver A V)
  unfolding rm_interfaces
  rm_all_interfaces doc n =
      let (ok₁, n₁) = allocate n in
      let (ok₂, n₂) = allocate n₁ in
      if not ok₁
      then set_errcode enomem n₁
      else if not ok₂
      then set_errcode enomem n₂
      else rm_interfaces L contents (M.interfaces doc) n₂

  -- drv_xml_desc
  unfoldable pub drv_xml_desc :
      S → NetcfIf → Netcf (LinuxDriver A V) → Option (Option Text × Netcf (LinuxDriver A V))
  unfolding aug_get_xml follow
  drv_xml_desc put nif n = follow (aug_get_xml L contents nif.name n) (λ aug_xml n₁.
      if failed n₁
      then some (none, n₁)
      else (let r : Option (Option Text × Netcf (LinuxDriver A V)) = elim aug_xml [
        | none ↦ none
        | some forest ↦ some (apply_stylesheet_to_string X system_of put (M.of_forest forest) n₁)
      ] in
          r))

  -- The part of drv_define behind device_name_from_xml.
  unfoldable pub define_named :
      S → Text → D → Netcf (LinuxDriver A V) → Option (Option NetcfIf × Netcf (LinuxDriver A V))
  unfolding rm_all_interfaces aug_put_xml save_and_make follow bond_setup
  define_named get name doc n =
      let n₁ = rm_all_interfaces doc n in
      let (aug_xml, n₂) = apply_stylesheet X system_of get doc n₁ in
      let forest : Option Forest = elim aug_xml [ none ↦ none | some d ↦ M.root_of d ] in
      if failed n₁
      then some (none, n₁)
      else if failed n₂
      then some (none, n₂)
      else follow (aug_put_xml L contents decimal strtol forest n₂) (λ _ n₃.
        if failed n₃
        then some (none, n₃)
        else follow (bond_setup L contents name true n₃)
            (λ _ n₄. if failed n₄ then some (none, n₄) else save_and_make L contents name n₄))

  unfoldable pub drv_define :
      S → Text → Netcf (LinuxDriver A V) → Option (Option NetcfIf × Netcf (LinuxDriver A V))
  unfolding define_named device_name_from_xml
  drv_define get xml_str n =
      let (_, n₁) = get_augeas L contents n in
      let (ncf_xml, n₂) = parse_xml X system_of xml_str n₁ in
      let rest : Option (Option NetcfIf × Netcf (LinuxDriver A V)) = elim ncf_xml [
        | none ↦ none
        | some doc ↦
            let n₃ = rng_validate X system_of doc n₂ in
            let ((name, doc'), n₄) = device_name_from_xml M doc n₃ in
            let named : Option (Option NetcfIf × Netcf (LinuxDriver A V)) = elim name [
              | none ↦ some (none, set_errcode einternal n₄)
              | some nm ↦ if failed n₄ then some (none, n₄) else define_named get nm doc' n₄
            ] in
            if failed n₃ then some (none, n₃) else named
      ] in
      if failed n₁ then some (none, n₁) else if failed n₂ then some (none, n₂) else rest

module _ {A V : Type 0} (L : Augeas A V) (contents : ℕ → List AugeasPv)
    (k : Kernel (LinuxDriver A V)) (stale : Exit) (ifup ifdown : Text) where
  -- drv_if_up and drv_if_down. The build sets `ifup` and `ifdown`, IFUP and IFDOWN.
  unfoldable pub drv_if_up : NetcfIf → Netcf (LinuxDriver A V) → ℤ × Netcf (LinuxDriver A V)
  unfolding check_active
  drv_if_up nif n =
      check_active L contents k stale (λ _. false) nif.name (run1 k stale ifup nif.name n)

  unfoldable pub drv_if_down : NetcfIf → Netcf (LinuxDriver A V) → ℤ × Netcf (LinuxDriver A V)
  drv_if_down nif n =
      let n₁ = run1 k stale ifdown nif.name n in (if failed n₁ then negsuc 0 else pos 0, n₁)
