-- ===== src/Debian/Listing.antt =====
-- The lists of interfaces and the look-up by name and by MAC, in src/drv_debian.c.
use fbsd_netcf.Prelude.{
  ℕ, Bool, true, false, not, List, [], ◌∷◌, ◌++◌, Option, none, some, Text, codes, length, ltb,
  if◌then◌else◌, ℤ, pos, negsuc, is_neg, is_zero,
}
use fbsd_netcf.Netcf.{Netcf, NetcfIf, enomem, enoent, eother, set_errcode, allocate, failed}
use fbsd_netcf.System.{Kernel}
use fbsd_netcf.Linux.{Augeas, AugeasPv, LinuxDriver, get_augeas}
use fbsd_netcf.Linux.Format.{aug_fmt_match}
use fbsd_netcf.Linux.Sysfs.{aug_match_mac}
use fbsd_netcf.Redhat.Sort.{qsort, has}
use fbsd_netcf.Redhat.Find.{Search, err_cond, follow, found, null_value, refused, with_augeas}
use fbsd_netcf.Redhat.Paths.{unique_names}
use fbsd_netcf.Redhat.Listing.{Round, counted, failure, qualify}
use fbsd_netcf.Redhat.Lookup.{make_named, make_all}
use fbsd_netcf.Debian.Deps.{network_interfaces_path, follow_bail, is_slave, has_config}

module _ {A V : Type 0} (L : Augeas A V) (contents : ℕ → List AugeasPv) where
  -- The second loop of uniq_device_names: whether each name could be copied.
  unfoldable pub copy_names : List Text → Netcf (LinuxDriver A V) → Bool × Netcf (LinuxDriver A V)
  copy_names [] n = (true, n)
  copy_names (name ∷ names) n =
      let (ok, n₁) = allocate n in
      let rest = copy_names names n₁ in if ok then rest else (false, set_errcode enomem n₁)

  -- The names that the first loop found, sorted and copied into a new array.
  unfoldable pub sorted_names :
      Search (List Text)
      → Netcf (LinuxDriver A V)
      → Option (Option (List Text) × Netcf (LinuxDriver A V))
  unfolding copy_names
  sorted_names (found devnames) n =
      let (ok, n₁) = allocate n in
      let (copied, n₂) = copy_names (qsort devnames) n₁ in
      if not ok
      then some (none, set_errcode enomem n₁)
      else some (if copied then some (qsort devnames) else none, n₂)
  sorted_names refused n = some (none, set_errcode eother n)
  sorted_names null_value n = none

  -- uniq_device_names. Its first loop is that of uniq_ifcfg_paths.
  unfoldable pub uniq_device_names :
      List Text → Netcf (LinuxDriver A V) → Option (Option (List Text) × Netcf (LinuxDriver A V))
  unfolding sorted_names unique_names with_augeas
  uniq_device_names devs n =
      let (_, n₁) = get_augeas L contents n in
      let (ok, n₂) = allocate n₁ in
      if failed n₁
      then some (none, n₁)
      else if not ok
      then some (none, set_errcode enomem n₂)
      else with_augeas n₂ (λ aug. sorted_names (unique_names L contents aug devs []) n₂)

  -- The loop of list_interfaces that takes the slaves out. It does not test for an error in is_slave.
  unfoldable pub drop_slaves :
      List Text → Netcf (LinuxDriver A V) → Option (List Text × Netcf (LinuxDriver A V))
  unfolding is_slave follow
  drop_slaves [] n = some ([], n)
  drop_slaves (name ∷ intf) n = follow (is_slave L contents name n) (λ slave n₁.
      follow (drop_slaves intf n₁) (λ kept n₂. some (if slave then kept else name ∷ kept, n₂)))

  -- list_interfaces, `none` inside where it gives -1.
  unfoldable pub list_interfaces :
      Netcf (LinuxDriver A V) → Option (Option (List Text) × Netcf (LinuxDriver A V))
  unfolding uniq_device_names follow_bail drop_slaves follow
  list_interfaces n =
      let ((ndevs, devs), n₁) =
        aug_fmt_match L contents (network_interfaces_path ++ codes "/iface") n in
      let n₂ = err_cond (is_neg ndevs) eother n₁ in
      if failed n₂
      then some (none, n₂)
      else follow_bail (uniq_device_names devs n₂)
          (λ intf n₃. follow (drop_slaves intf n₃) (λ kept n₄. some (some kept, n₄)))

  -- The first loop of drv_lookup_by_mac_string.
  unfoldable pub configured :
      List Text → Netcf (LinuxDriver A V) → Option (List Text × Netcf (LinuxDriver A V))
  unfolding has_config follow
  configured [] n = some ([], n)
  configured (name ∷ matches) n = follow (has_config L contents name n) (λ config n₁.
      follow (configured matches n₁)
        (λ names n₂. some (if config then name ∷ names else names, n₂)))

  -- drv_lookup_by_mac_string: its result, and the interfaces in the array. Its second loop is that of the backend for Red Hat.
  unfoldable pub drv_lookup_by_mac_string :
      Text → ℕ → Netcf (LinuxDriver A V) → Option ((ℤ × List NetcfIf) × Netcf (LinuxDriver A V))
  unfolding configured make_all follow
  drv_lookup_by_mac_string mac maxifaces n =
      let ((nmatches, matches), n₁) = aug_match_mac L contents mac n in
      let (ok, n₂) = allocate n₁ in
      if failed n₁
      then some ((negsuc 0, []), n₁)
      else if is_zero nmatches
      then some ((pos 0, []), n₁)
      else if not ok
      then some ((negsuc 0, []), set_errcode enomem n₂)
      else follow (configured matches n₂)
          (λ names n₃. some (make_all L contents maxifaces (some names, n₃)))

module _ {A V : Type 0} (L : Augeas A V) (contents : ℕ → List AugeasPv)
    (k : Kernel (LinuxDriver A V)) where
  -- The loop of list_interface_ids. Its body is the last part of that of the backend for Red Hat.
  unfoldable pub list_loop :
      ℕ
      → ℕ
      → Bool
      → List Text
      → List Text
      → ℕ
      → Netcf (LinuxDriver A V)
      → Option (Round × Netcf (LinuxDriver A V))
  unfolding qualify
  list_loop flags maxnames has_names [] names nqualified n = some (counted names nqualified, n)
  list_loop flags maxnames has_names (name ∷ intf) names nqualified n =
      let rest : Option (Round × Netcf (LinuxDriver A V)) =
        elim (qualify L contents k flags has_names (some name) names nqualified n) [
          | none ↦ none
          | some (failure, n₁) ↦ some (failure, n₁)
          | some (counted names' nqualified', n₁) ↦
              list_loop flags maxnames has_names intf names' nqualified' n₁
        ] in
      if ltb nqualified maxnames then rest else some (counted names nqualified, n)

  -- list_interface_ids
  unfoldable pub list_interface_ids :
      ℕ → Bool → ℕ → Netcf (LinuxDriver A V) → Option (Round × Netcf (LinuxDriver A V))
  unfolding list_interfaces list_loop follow
  list_interface_ids maxnames has_names flags n =
      if failed n
      then some (failure, n)
      else follow (list_interfaces L contents n) (λ intf n₁.
        if failed n₁
        then some (failure, n₁)
        else (let r : Option (Round × Netcf (LinuxDriver A V)) = elim intf [
          | none ↦ some (failure, n₁)
          | some names ↦
              list_loop flags (if has_names then maxnames else length names) has_names names [] 0 n₁
        ] in
            r))

  unfoldable pub drv_list_interfaces :
      ℕ → ℕ → Netcf (LinuxDriver A V) → Option (Round × Netcf (LinuxDriver A V))
  unfolding list_interface_ids
  drv_list_interfaces maxnames flags = list_interface_ids maxnames true flags

  unfoldable pub drv_num_of_interfaces :
      ℕ → Netcf (LinuxDriver A V) → Option (Round × Netcf (LinuxDriver A V))
  unfolding list_interface_ids
  drv_num_of_interfaces flags = list_interface_ids 0 false flags

  -- The search of drv_lookup_by_name through the names, and the interface.
  unfoldable pub make_listed :
      Text → List Text → Netcf (LinuxDriver A V) → Option NetcfIf × Netcf (LinuxDriver A V)
  unfolding make_named has
  make_listed name names n =
      if has name names then make_named L contents name n else (none, set_errcode enoent n)

  -- drv_lookup_by_name, which lists the interfaces twice.
  unfoldable pub drv_lookup_by_name :
      Text → Netcf (LinuxDriver A V) → Option (Option NetcfIf × Netcf (LinuxDriver A V))
  unfolding list_interface_ids make_listed follow
  drv_lookup_by_name name n = follow (list_interface_ids 0 false 3 n) (λ results n₁.
      let (ok, n₂) = allocate n₁ in
      if failed n₁
      then some (none, n₁)
      else if not ok
      then some (none, set_errcode enomem n₂)
      else (let r : Option (Option NetcfIf × Netcf (LinuxDriver A V)) = elim results [
        | failure ↦ none
        | counted _ maxnames ↦ follow (list_interface_ids maxnames true 3 n₂) (λ listed n₃.
            if failed n₃
            then some (none, n₃)
            else (let r' : Option (Option NetcfIf × Netcf (LinuxDriver A V)) = elim listed [
              | failure ↦ none
              | counted names _ ↦ some (make_listed name names n₃)
            ] in
                r'))
      ] in
          r))
