-- ===== src/Suse/Listing.antt =====
-- The lists of interfaces and the look-ups, in src/drv_suse.c.
use fbsd_netcf.Prelude.{
  ℕ, Bool, true, false, not, ◌&&◌, List, [], ◌∷◌, ◌++◌, Option, none, some, Text, codes, length,
  if◌then◌else◌, ℤ, pos, negsuc, is_zero,
}
use fbsd_netcf.Netcf.{Netcf, NetcfIf, enomem, set_errcode, allocate, failed}
use fbsd_netcf.System.{Kernel}
use fbsd_netcf.Linux.{Augeas, AugeasPv, LinuxDriver, get_augeas}
use fbsd_netcf.Linux.Sysfs.{aug_match_mac}
use fbsd_netcf.Redhat.Find.{follow}
use fbsd_netcf.Redhat.Listing.{Round, failure}
use fbsd_netcf.Redhat.Lookup.{make_named, make_all}
use fbsd_netcf.Debian.Listing.{list_loop}
use fbsd_netcf.Suse.Files.{
  Dirent, ifcfg_path, find_ifcfg_files, is_slave, has_ifcfg_file, find_ifcfg_path,
}

module _ {A V : Type 0} (L : Augeas A V) (contents : ℕ → List AugeasPv) where
  -- The loop of list_interfaces that takes the slaves out.
  unfoldable pub drop_slaves :
      List Text → Netcf (LinuxDriver A V) → List Text × Netcf (LinuxDriver A V)
  unfolding is_slave
  drop_slaves [] n = ([], n)
  drop_slaves (name ∷ intf) n =
      let (slave, n₁) = is_slave L contents name n in
      let (kept, n₂) = drop_slaves intf n₁ in (if slave then kept else name ∷ kept, n₂)

  -- drv_lookup_by_name
  unfoldable pub drv_lookup_by_name :
      Text → Netcf (LinuxDriver A V) → Option NetcfIf × Netcf (LinuxDriver A V)
  unfolding find_ifcfg_path is_slave make_named
  drv_lookup_by_name name n =
      let (_, n₁) = get_augeas L contents n in
      let (path, n₂) = find_ifcfg_path L contents name n₁ in
      let (slave, n₃) = is_slave L contents name n₂ in
      let looked : Option NetcfIf × Netcf (LinuxDriver A V) = elim path [
        | none ↦ (none, n₂)
        | some pathx ↦ if slave then (none, n₃) else make_named L contents name n₃
      ] in
      if failed n₁ then (none, n₁) else if failed n₂ then (none, n₂) else looked

  -- The first loop of drv_lookup_by_mac_string; `none` at error. is_slave is asked about a pattern in place of a name.
  unfoldable pub toplevel_names :
      List Text → Netcf (LinuxDriver A V) → Option (List Text) × Netcf (LinuxDriver A V)
  unfolding has_ifcfg_file is_slave
  toplevel_names [] n = (some [], n)
  toplevel_names (name ∷ matches) n =
      let (has_file, n₁) = has_ifcfg_file L contents name n in
      let (ok, n₂) = allocate n₁ in
      let (slave, n₃) =
        is_slave L contents (ifcfg_path ++ (codes "[DEVICE = '" ++ (name ++ codes "']"))) n₂ in
      let (names, n₄) = toplevel_names matches (if has_file then n₃ else n₁) in
      let all : Option (List Text) = elim names [
        | none ↦ none
        | some rest ↦ some (if has_file && not slave then name ∷ rest else rest)
      ] in
      if has_file && not ok then (none, set_errcode enomem n₂) else (all, n₄)

  unfoldable pub drv_lookup_by_mac_string :
      Text → ℕ → Netcf (LinuxDriver A V) → (ℤ × List NetcfIf) × Netcf (LinuxDriver A V)
  unfolding make_all toplevel_names
  drv_lookup_by_mac_string mac maxifaces n =
      let (_, n₁) = get_augeas L contents n in
      let ((nmatches, matches), n₂) = aug_match_mac L contents mac n₁ in
      let (ok, n₃) = allocate n₂ in
      if failed n₁
      then ((negsuc 0, []), n₁)
      else if failed n₂
      then ((negsuc 0, []), n₂)
      else if is_zero nmatches
      then ((pos 0, []), n₂)
      else if not ok
      then ((negsuc 0, []), set_errcode enomem n₃)
      else make_all L contents maxifaces (toplevel_names matches n₃)

module _ {A V : Type 0} (L : Augeas A V) (contents : ℕ → List AugeasPv)
    (directory : V → Option (List Dirent)) where
  -- list_interfaces, `none` inside where it gives -1.
  unfoldable pub list_interfaces :
      Netcf (LinuxDriver A V) → Option (Option (List Text) × Netcf (LinuxDriver A V))
  unfolding find_ifcfg_files drop_slaves follow
  list_interfaces n =
      let (_, n₁) = get_augeas L contents n in
      if failed n₁
      then some (none, n₁)
      else follow (find_ifcfg_files L contents directory n₁) (λ intf n₂. some (
          if failed n₂
          then (none, n₂)
          else (let r : Option (List Text) × Netcf (LinuxDriver A V) = elim intf [
            | none ↦ (none, n₂)
            | some names ↦ let (kept, n₃) = drop_slaves L contents names n₂ in (some kept, n₃)
          ] in
              r)))

  -- list_interface_ids
  unfoldable pub list_interface_ids :
      Kernel (LinuxDriver A V)
      → ℕ
      → Bool
      → ℕ
      → Netcf (LinuxDriver A V)
      → Option (Round × Netcf (LinuxDriver A V))
  unfolding list_interfaces list_loop follow
  list_interface_ids k maxnames has_names flags n =
      let (_, n₁) = get_augeas L contents n in
      if failed n₁
      then some (failure, n₁)
      else follow (list_interfaces n₁) (λ intf n₂.
        if failed n₂
        then some (failure, n₂)
        else (let r : Option (Round × Netcf (LinuxDriver A V)) = elim intf [
          | none ↦ some (failure, n₂)
          | some names ↦
              list_loop L contents k flags (if has_names then maxnames else length names) has_names
                names [] 0 n₂
        ] in
            r))

  unfoldable pub drv_list_interfaces :
      Kernel (LinuxDriver A V)
      → ℕ
      → ℕ
      → Netcf (LinuxDriver A V)
      → Option (Round × Netcf (LinuxDriver A V))
  unfolding list_interface_ids
  drv_list_interfaces k maxnames flags = list_interface_ids k maxnames true flags

  unfoldable pub drv_num_of_interfaces :
      Kernel (LinuxDriver A V)
      → ℕ
      → Netcf (LinuxDriver A V)
      → Option (Round × Netcf (LinuxDriver A V))
  unfolding list_interface_ids
  drv_num_of_interfaces k flags = list_interface_ids k 0 false flags
