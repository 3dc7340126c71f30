-- ===== src/Debian/Deps.antt =====
-- The interfaces that others are made of, in src/drv_debian.c: is_bond, is_bridge, interface_deps and what uses it up to
-- has_config. Where C leaves undefined what happens, as behind a NULL that strcmp is given, a function gives `none`.
use fbsd_netcf.Prelude.{
  ℕ, zero, suc, Bool, not, ◌&&◌, List, [], ◌∷◌, ◌++◌, Option, none, some, Text, codes, length, ◌==◌,
  if◌then◌else◌, is_neg, is_zero, streq, true, false,
}
use fbsd_netcf.Netcf.{Netcf, enomem, eother, set_errcode, allocate, failed}
use fbsd_netcf.Linux.{Augeas, AugeasPv, LinuxDriver, is_pos}
use fbsd_netcf.Linux.Format.{aug_fmt_match}
use fbsd_netcf.Redhat.Sort.{has}
use fbsd_netcf.Redhat.Find.{follow, with_augeas}

abbrev pub network_interfaces_path : Text
network_interfaces_path = codes "/files/etc/network/interfaces"

-- "%s/iface[. = '%s'" with the path and a name.
abbrev pub iface_named : Text → Text
iface_named name = network_interfaces_path ++ (codes "/iface[. = '" ++ (name ++ codes "'"))

-- strchr (devs, ' '): what stands before the first blank and, if there is one, what stands behind it.
unfoldable pub split_at_blank : Text → Text × Option Text
split_at_blank [] = ([], none)
split_at_blank (c ∷ s) =
    let (word, skip) = split_at_blank s in if c == b' ' then ([], some s) else (c ∷ word, skip)

-- The names that the inner loop of interface_deps takes out of a value, at most as many as the fuel.
unfoldable pub dep_names : ℕ → Text → List Text
unfolding split_at_blank
dep_names zero devs = []
dep_names (suc fuel) devs =
    let (word, skip) = split_at_blank devs in
    elim skip [
      | none ↦ word ∷ []
      | some [] ↦ word ∷ []
      | some (c ∷ s) ↦ word ∷ dep_names fuel (c ∷ s)
    ]

-- The names of one value. Each round of the loop but the last leaves out a blank.
unfoldable pub deps_of : Text → List Text
unfolding dep_names
deps_of devs = if streq devs (codes "none") then [] else dep_names (suc (length devs)) devs

module _ {A V : Type 0} where
  -- The realloc and the copy for each name: whether there was memory.
  unfoldable pub store_names : List Text → Netcf (LinuxDriver A V) → Bool × Netcf (LinuxDriver A V)
  store_names [] n = (true, n)
  store_names (word ∷ words) n =
      let (grown, n₁) = allocate n in
      let (copied, n₂) = allocate n₁ in
      let rest = store_names words n₂ in
      if not grown
      then (grown, set_errcode enomem n₁)
      else if not copied
      then (copied, set_errcode enomem n₂)
      else rest

  -- The rest behind a call and its ERR_BAIL. Where it gives no result it has left an error.
  unfoldable pub follow_bail :
      {R S : Type 0}
      → Option (Option R × Netcf (LinuxDriver A V))
      → (R → Netcf (LinuxDriver A V) → Option (Option S × Netcf (LinuxDriver A V)))
      → Option (Option S × Netcf (LinuxDriver A V))
  follow_bail none rest = none
  follow_bail (some (none, n)) rest = some (none, n)
  follow_bail (some (some r, n)) rest = if failed n then some (none, n) else rest r n

module _ {A V : Type 0} (L : Augeas A V) (contents : ℕ → List AugeasPv) where
  unfoldable pub is_bond : Text → Netcf (LinuxDriver A V) → Bool × Netcf (LinuxDriver A V)
  is_bond name n =
      let ((nmatches, _), n₁) =
        aug_fmt_match L contents (iface_named name ++ codes " and count(./bond_slaves)> 0]") n in
      (is_pos L contents nmatches, n₁)

  unfoldable pub is_bridge : Text → Netcf (LinuxDriver A V) → Bool × Netcf (LinuxDriver A V)
  is_bridge name n =
      let ((nmatches, _), n₁) =
        aug_fmt_match L contents (iface_named name ++ codes " and count(./bridge_ports)> 0]") n in
      (is_pos L contents nmatches, n₁)

  -- The outer loop of interface_deps: the names from the matches on, or `none` inside at error.
  unfoldable pub deps_loop :
      A
      → List Text
      → Netcf (LinuxDriver A V)
      → Option (Option (List Text) × Netcf (LinuxDriver A V))
  unfolding deps_of store_names follow
  deps_loop aug [] n = some (some [], n)
  deps_loop aug (match ∷ matches) n =
      let (r, devs) = L.aug_get aug match in
      elim devs [
        | none ↦ if is_neg r then some (none, set_errcode eother n) else none
        | some value ↦
            let (ok, n₁) = store_names (deps_of value) n in
            let rest = deps_loop aug matches n₁ in
            if is_neg r
            then some (none, set_errcode eother n)
            else if not ok
            then some (none, n₁)
            else follow rest (λ names n₂.
              some (elim names [ none ↦ none | some l ↦ some (deps_of value ++ l) ], n₂))
      ]

  -- interface_deps with the formatted path: the names, or `none` inside where it gives -1. It starts like aug_fmt_match.
  unfoldable pub interface_deps :
      Text → Netcf (LinuxDriver A V) → Option (Option (List Text) × Netcf (LinuxDriver A V))
  unfolding deps_loop with_augeas
  interface_deps path n =
      let ((nmatches, matches), n₁) = aug_fmt_match L contents path n in
      if failed n₁
      then some (none, n₁)
      else if is_zero nmatches
      then some (some [], n₁)
      else with_augeas n₁ (λ aug. deps_loop aug matches n₁)

  unfoldable pub bridge_ports :
      Text → Netcf (LinuxDriver A V) → Option (Option (List Text) × Netcf (LinuxDriver A V))
  unfolding interface_deps
  bridge_ports name = interface_deps (iface_named name ++ codes "]/bridge_ports")

  unfoldable pub bond_slaves :
      Text → Netcf (LinuxDriver A V) → Option (Option (List Text) × Netcf (LinuxDriver A V))
  unfolding interface_deps
  bond_slaves name = interface_deps (iface_named name ++ codes "]/bond_slaves")

  -- all_slaves: the ports of the bridges, then the slaves of the bonds.
  unfoldable pub all_slaves :
      Netcf (LinuxDriver A V) → Option (Option (List Text) × Netcf (LinuxDriver A V))
  unfolding interface_deps follow_bail
  all_slaves n =
      follow_bail (interface_deps (network_interfaces_path ++ codes "/iface/bridge_ports") n)
        (λ ports n₁.
          follow_bail (interface_deps (network_interfaces_path ++ codes "/iface/bond_slaves") n₁)
            (λ slaves n₂.
              let (ok, n₃) = allocate n₂ in
              if ok then some (some (ports ++ slaves), n₃) else some (none, set_errcode enomem n₃)))

  -- is_slave. At an error in all_slaves it gives false.
  unfoldable pub is_slave : Text → Netcf (LinuxDriver A V) → Option (Bool × Netcf (LinuxDriver A V))
  unfolding all_slaves follow has
  is_slave intf n =
      follow (all_slaves n) (λ slaves n₁.
        some (not (failed n₁) && has intf (elim slaves [ none ↦ [] | some l ↦ l ]), n₁))

  -- has_config. A failure of aug_fmt_match, which is not 0, counts as a match.
  unfoldable pub has_config :
      Text → Netcf (LinuxDriver A V) → Option (Bool × Netcf (LinuxDriver A V))
  unfolding is_slave follow
  has_config name n =
      let ((nmatches, _), n₁) = aug_fmt_match L contents (iface_named name ++ codes "]") n in
      let top : Option (Bool × Netcf (LinuxDriver A V)) =
        follow (is_slave name n₁) (λ slave n₂. some (not slave, n₂)) in
      if is_zero nmatches then some (false, n₁) else top
