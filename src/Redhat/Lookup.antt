-- ===== src/Redhat/Lookup.antt =====
-- The look-ups by name and by MAC, and drv_mac_string, in src/drv_redhat.c.
use fbsd_netcf.Prelude.{
  ℕ, zero, suc, Bool, false, not, ◌&&◌, List, [], ◌∷◌, ◌++◌, Option, none, some, Text, codes,
  length, if◌then◌else◌, ℤ, pos, negsuc, is_neg, is_zero, streq,
}
use fbsd_netcf.Netcf.{
  Netcf, NetcfIf, enomem, eother, report_error, set_errcode, allocate, failed, make_netcf_if,
  release, left, gone, asserted,
}
use fbsd_netcf.System.{bail_out}
use fbsd_netcf.Linux.{Augeas, AugeasPv, LinuxDriver, get_augeas}
use fbsd_netcf.Linux.Sysfs.{aug_match_mac, aug_get_mac}
use fbsd_netcf.Redhat.Find.{follow, ifcfg_path, is_slave, has_ifcfg_file, find_ifcfg_path}

module _ {A V : Type 0} (L : Augeas A V) (contents : ℕ → List AugeasPv) where
  -- The part of drv_lookup_by_name behind is_slave.
  unfoldable pub make_named :
      Text → Netcf (LinuxDriver A V) → Option NetcfIf × Netcf (LinuxDriver A V)
  unfolding bail_out
  make_named name n =
      let (ok, n₁) = allocate n in
      if ok then bail_out (make_netcf_if name n₁) else (none, set_errcode enomem n₁)

  unfoldable pub drv_lookup_by_name :
      Text → Netcf (LinuxDriver A V) → Option (Option NetcfIf × Netcf (LinuxDriver A V))
  unfolding make_named follow
  drv_lookup_by_name name n =
      let (_, n₁) = get_augeas L contents n in
      if failed n₁
      then some (none, n₁)
      else follow (find_ifcfg_path L contents name n₁) (λ path n₂.
        if failed n₂
        then some (none, n₂)
        else (let r : Option (Option NetcfIf × Netcf (LinuxDriver A V)) = elim path [
          | none ↦ some (none, n₂)
          | some pathx ↦
              let (slave, n₃) = is_slave L contents pathx n₂ in
              if slave then some (none, n₃) else some (make_named name n₃)
        ] in
            r))

  -- The first loop of drv_lookup_by_mac_string: the names of interfaces that have a file and are no slaves; `none` at error.
  unfoldable pub toplevel_names :
      List Text → Netcf (LinuxDriver A V) → Option (List Text) × Netcf (LinuxDriver A V)
  toplevel_names [] n = (some [], n)
  toplevel_names (name ∷ matches) n =
      let (has_file, n₁) = has_ifcfg_file L contents name n in
      let (ok, n₂) = allocate n₁ in
      let (slave, n₃) =
        is_slave L contents (ifcfg_path ++ (codes "[DEVICE = '" ++ (name ++ codes "']"))) n₂ in
      let (names, n₄) = toplevel_names matches (if has_file then n₃ else n₁) in
      let all : Option (List Text) = elim names [
        | none ↦ none
        | some rest ↦ some (if has_file && not slave then name ∷ rest else rest)
      ] in
      if has_file && not ok then (none, set_errcode enomem n₂) else (all, n₄)

  -- unref of an interface that was made, as far as the handle goes.
  abbrev give_back : Netcf (LinuxDriver A V) → Netcf (LinuxDriver A V)
  give_back n = elim (release n) [ left n' ↦ n' | gone ↦ n | asserted ↦ n ]

  -- The second loop, for the slots that are there: the interfaces, or `none` at error. What was made is then given back.
  unfoldable pub make_ifaces :
      ℕ → List Text → Netcf (LinuxDriver A V) → Option (List NetcfIf) × Netcf (LinuxDriver A V)
  make_ifaces slots [] n = (some [], n)
  make_ifaces zero (name ∷ names) n = (some [], n)
  make_ifaces (suc slots) (name ∷ names) n =
      let (made, n₁) = make_named name n in
      let (rest, n₂) = make_ifaces slots names n₁ in
      elim made [
        | none ↦ (none, n₁)
        | some nif ↦ elim rest [
          | none ↦ (none, give_back n₂)
          | some ifaces ↦ (some (nif ∷ ifaces), n₂)
        ]
      ]

  -- The parts behind aug_match_mac: the number of the names, and the interfaces in the array.
  unfoldable pub make_all :
      ℕ
      → Option (List Text) × Netcf (LinuxDriver A V)
      → (ℤ × List NetcfIf) × Netcf (LinuxDriver A V)
  unfolding make_ifaces
  make_all maxifaces (none, n) = ((negsuc 0, []), n)
  make_all maxifaces (some names, n) =
      let (made, n₁) = make_ifaces maxifaces names n in
      elim made [ none ↦ ((negsuc 0, []), n₁) | some ifaces ↦ ((pos (length names), ifaces), n₁) ]

  unfoldable pub drv_lookup_by_mac_string :
      Text → ℕ → Netcf (LinuxDriver A V) → (ℤ × List NetcfIf) × Netcf (LinuxDriver A V)
  unfolding make_all toplevel_names
  drv_lookup_by_mac_string mac maxifaces n =
      let (_, n₁) = get_augeas L contents n in
      let ((nmatches, matches), n₂) = aug_match_mac L contents mac n₁ in
      let (ok, n₃) = allocate n₂ in
      if failed n₁
      then ((negsuc 0, []), n₁)
      else if failed n₂
      then ((negsuc 0, []), n₂)
      else if is_zero nmatches
      then ((pos 0, []), n₂)
      else if not ok
      then ((negsuc 0, []), set_errcode enomem n₃)
      else make_all maxifaces (toplevel_names matches n₃)

  -- The store of a MAC in the interface, which is kept if it is the same.
  unfoldable pub store_mac :
      Option Text → NetcfIf → Netcf (LinuxDriver A V) → NetcfIf × Netcf (LinuxDriver A V)
  store_mac none nif n = (record nif { mac = none }, n)
  store_mac (some mac) nif n =
      let (ok, n₁) = allocate n in
      let same : Bool = elim nif.mac [ none ↦ false | some old ↦ streq old mac ] in
      if same
      then (nif, n)
      else if ok
      then (record nif { mac = some mac }, n₁)
      else (record nif { mac = none }, set_errcode enomem n₁)

  -- drv_mac_string, which gives the MAC in the interface.
  unfoldable pub drv_mac_string :
      NetcfIf → Netcf (LinuxDriver A V) → Option (NetcfIf × Netcf (LinuxDriver A V))
  unfolding store_mac follow
  drv_mac_string nif n = follow (aug_get_mac L contents nif.name n) (λ got n₁.
      if is_neg got.0
      then some (nif, report_error eother (some (codes "could not lookup MAC of %s")) n₁)
      else some (store_mac got.1 nif n₁))
