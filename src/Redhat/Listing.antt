-- ===== src/Redhat/Listing.antt =====
-- The lists of interfaces of src/drv_redhat.c.
use Prim.Native.Nat.{bit_and}
use fbsd_netcf.Prelude.{
  ℕ, ◌+◌, Bool, true, false, not, ◌&&◌, ◌||◌, List, [], ◌∷◌, ◌++◌, Option, none, some, Text, codes,
  length, ltb, ◌==◌, if◌then◌else◌, is_neg,
}
use fbsd_netcf.Netcf.{Netcf, enomem, eother, set_errcode, allocate, failed}
use fbsd_netcf.System.{Kernel, if_is_active, iface_active, iface_inactive}
use fbsd_netcf.Linux.{Augeas, AugeasPv, LinuxDriver, get_augeas, is_pos}
use fbsd_netcf.Linux.Format.{aug_fmt_match}
use fbsd_netcf.Redhat.Sort.{last_of}
use fbsd_netcf.Redhat.Find.{follow, with_augeas, is_slave}
use fbsd_netcf.Redhat.Paths.{list_ifcfg_paths}

-- How a round of list_interface_ids ends: with the names and their number, or at a label error.
pub data Round : Type 0 where
  counted : List Text → ℕ → Round
  failure : Round

module _ {A V : Type 0} (L : Augeas A V) (contents : ℕ → List AugeasPv) where
  -- The loop of list_interfaces that takes the slaves out of the array. A path of NULL would be printed.
  unfoldable pub drop_slaves :
      List (Option Text) → Netcf (LinuxDriver A V) → Option (List Text × Netcf (LinuxDriver A V))
  drop_slaves [] n = some ([], n)
  drop_slaves (none ∷ intf) n = none
  drop_slaves (some path ∷ intf) n =
      let (slave, n₁) = is_slave L contents path n in
      follow (drop_slaves intf n₁) (λ paths n₂. some (if slave then paths else path ∷ paths, n₂))

  -- list_interfaces, `none` inside where it gives -1.
  unfoldable pub list_interfaces :
      Netcf (LinuxDriver A V) → Option (Option (List Text) × Netcf (LinuxDriver A V))
  unfolding follow drop_slaves
  list_interfaces n =
      let (_, n₁) = get_augeas L contents n in
      if failed n₁
      then some (none, n₁)
      else follow (list_ifcfg_paths L contents n₁) (λ intf n₂.
        if failed n₂
        then some (none, n₂)
        else (let r : Option (Option (List Text) × Netcf (LinuxDriver A V)) = elim intf [
          | none ↦ some (none, n₂)
          | some paths ↦ follow (drop_slaves paths n₂) (λ kept n₃. some (some kept, n₃))
        ] in
            r))

module _ {A V : Type 0} (L : Augeas A V) (contents : ℕ → List AugeasPv)
    (k : Kernel (LinuxDriver A V)) where
  -- The store of a name, if the caller gave an array.
  unfoldable pub take_name :
      Bool → Text → List Text → ℕ → Netcf (LinuxDriver A V) → Round × Netcf (LinuxDriver A V)
  take_name has_names name names nqualified n =
      let (ok, n₁) = allocate n in
      if not has_names
      then (counted names (nqualified + 1), n)
      else if ok
      then (counted (names ++ (name ∷ [])) (nqualified + 1), n₁)
      else (failure, set_errcode enomem n₁)

  -- The test of the flags and the store. A value of NULL is given to if_is_active or strdup, except where neither is called.
  unfoldable pub qualify :
      ℕ
      → Bool
      → Option Text
      → List Text
      → ℕ
      → Netcf (LinuxDriver A V)
      → Option (Round × Netcf (LinuxDriver A V))
  unfolding take_name if_is_active
  qualify flags has_names none names nqualified n =
      if bit_and flags 3 == 3 && not has_names
      then some (counted names (nqualified + 1), n)
      else none
  qualify flags has_names (some name) names nqualified n =
      if bit_and flags 3 == 3
        || (if if_is_active k name n.world
            then not (bit_and flags iface_active == 0)
            else not (bit_and flags iface_inactive == 0))
      then some (take_name has_names name names nqualified n)
      else some (counted names nqualified, n)

  -- The body of the loop.
  unfoldable pub visit :
      ℕ
      → Bool
      → Text
      → Text
      → List Text
      → ℕ
      → Netcf (LinuxDriver A V)
      → Option (Round × Netcf (LinuxDriver A V))
  unfolding qualify with_augeas
  visit flags has_names id_attr path names nqualified n =
      let ((nmatches, matches), n₁) = aug_fmt_match L contents (path ++ (b'/' ∷ id_attr)) n in
      if failed n₁
      then some (failure, n₁)
      else if not (is_pos L contents nmatches)
      then some (counted names nqualified, n₁)
      else with_augeas n₁ (λ aug.
        let r : Option (Round × Netcf (LinuxDriver A V)) = elim (last_of matches) [
          | none ↦ none
          | some node ↦
              let (got, name) = L.aug_get aug node in
              if is_neg got
              then some (failure, set_errcode eother n₁)
              else qualify flags has_names name names nqualified n₁
        ] in
        r)

  -- The loop over the paths.
  unfoldable pub list_loop :
      ℕ
      → ℕ
      → Bool
      → Text
      → List Text
      → List Text
      → ℕ
      → Netcf (LinuxDriver A V)
      → Option (Round × Netcf (LinuxDriver A V))
  unfolding visit
  list_loop flags maxnames has_names id_attr [] names nqualified n =
      some (counted names nqualified, n)
  list_loop flags maxnames has_names id_attr (path ∷ intf) names nqualified n =
      let rest : Option (Round × Netcf (LinuxDriver A V)) =
        elim (visit flags has_names id_attr path names nqualified n) [
          | none ↦ none
          | some (failure, n₁) ↦ some (failure, n₁)
          | some (counted names' nqualified', n₁) ↦
              list_loop flags maxnames has_names id_attr intf names' nqualified' n₁
        ] in
      if ltb nqualified maxnames then rest else some (counted names nqualified, n)

  -- list_interface_ids. Without an array the bound is the number of the interfaces.
  unfoldable pub list_interface_ids :
      ℕ → Bool → ℕ → Text → Netcf (LinuxDriver A V) → Option (Round × Netcf (LinuxDriver A V))
  unfolding list_interfaces list_loop
  list_interface_ids maxnames has_names flags id_attr n =
      let (_, n₁) = get_augeas L contents n in
      if failed n₁
      then some (failure, n₁)
      else follow (list_interfaces L contents n₁) (λ intf n₂.
        if failed n₂
        then some (failure, n₂)
        else (let r : Option (Round × Netcf (LinuxDriver A V)) = elim intf [
          | none ↦ some (failure, n₂)
          | some paths ↦
              list_loop flags (if has_names then maxnames else length paths) has_names id_attr paths
                [] 0 n₂
        ] in
            r))

  unfoldable pub drv_list_interfaces :
      ℕ → ℕ → Netcf (LinuxDriver A V) → Option (Round × Netcf (LinuxDriver A V))
  drv_list_interfaces maxnames flags = list_interface_ids maxnames true flags (codes "DEVICE")

  unfoldable pub drv_num_of_interfaces :
      ℕ → Netcf (LinuxDriver A V) → Option (Round × Netcf (LinuxDriver A V))
  drv_num_of_interfaces flags = list_interface_ids 0 false flags (codes "DEVICE")
