-- ===== src/Debian/Settled.antt =====
-- The functions of src/drv_debian.c on a handle that holds the loaded tree, has no error, and does not run out of memory.
use fbsd_netcf.Prelude.{
  ℕ, suc, ◌≡◌, refl, ap, ◌∙◌, true, false, not, List, [], ◌∷◌, ◌++◌, Option, none, some, Text,
  codes, length, keep, pos, arith, ℤ, is_zero, is_neg, ◌&&◌, negsuc, Bool,
}
use fbsd_netcf.Netcf.{Netcf}
use fbsd_netcf.Netcf.Memory.{HasMemory, allocate_ok}
use fbsd_netcf.Linux.{Augeas, AugeasPv, LinuxDriver}
use fbsd_netcf.Linux.Instance.{get_augeas_settled}
use fbsd_netcf.Linux.Calm.{IsCalm, nodes_at, not_failed, aug_fmt_match_calm}
use fbsd_netcf.Redhat.Kept.{keep-IsSorted, keep-IsDistinct, has-keep}
use fbsd_netcf.Redhat.Sort.{qsort, has, IsSorted, IsDistinct}
use fbsd_netcf.Redhat.Find.{found, follow, is_one, with_augeas}
use fbsd_netcf.Redhat.Paths.{unique_names}
use fbsd_netcf.Redhat.Unique.{values, Readable, unique_names_lem}
use fbsd_netcf.Debian.Deps.{
  network_interfaces_path, store_names, deps_of, deps_loop, interface_deps, all_slaves, is_slave,
  follow_bail,
}
use fbsd_netcf.Debian.Listing.{
  copy_names, sorted_names, uniq_device_names, drop_slaves, list_interfaces,
}

module _ {A V : Type 0} (L : Augeas A V) (contents : ℕ → List AugeasPv) where
  -- libaugeas finds the nodes of a path, gives their number, and each has a value.
  abbrev pub Answers : A → Text → Type 0
  Answers aug path =
      ((L.aug_match aug path).0 ≡ pos (length (nodes_at L contents aug path)))
      × Readable L contents aug (nodes_at L contents aug path)

  store_names_calm :
      (words : List Text) (n : Netcf (LinuxDriver A V))
      → HasMemory n
      → store_names words n ≡ (true, n)
  unfolding store_names
  store_names_calm [] n memory = refl
  store_names_calm (word ∷ words) n memory =
      ground (arith, allocate_ok n memory, store_names_calm words n memory)

  -- The names in the values of some nodes.
  unfoldable pub deps_in : A → List Text → List Text
  unfolding deps_of
  deps_in aug [] = []
  deps_in aug (node ∷ nodes) = elim (L.aug_get aug node).1 [
    | none ↦ deps_in aug nodes
    | some value ↦ deps_of value ++ deps_in aug nodes
  ]

  not_negative : (r : ℤ) → is_one r ≡ true → is_neg r ≡ false
  not_negative (pos r) e = refl
  not_negative (negsuc r) e = absurd (cc)

  deps_loop_calm :
      (aug : A) (nodes : List Text) (n : Netcf (LinuxDriver A V))
      → HasMemory n
      → Readable L contents aug nodes
      → deps_loop L contents aug nodes n ≡ some (some (deps_in aug nodes), n)
  unfolding deps_loop deps_in follow
  deps_loop_calm aug [] n memory read = refl
  deps_loop_calm aug (node ∷ nodes) n memory ((v, value, one), read) =
      rw
        (
          value,
          not_negative (L.aug_get aug node).0 one,
          store_names_calm (deps_of v) n memory,
          deps_loop,
        )
        (rw (deps_loop_calm aug nodes n memory read) (rw (value, deps_in) refl))

  with_augeas_held :
      {R : Type 0} (n : Netcf (LinuxDriver A V)) (aug : A)
      (rest : A → Option (R × Netcf (LinuxDriver A V)))
      → n.world.augeas ≡ some aug
      → with_augeas n rest ≡ rest aug
  unfolding with_augeas
  with_augeas_held n aug rest held =
      ap
        (λ (o : Option A). elim o as (λ _. Option (_ × Netcf (LinuxDriver A V))) [
          | none ↦ none
          | some a ↦ rest a
        ])
        held

  interface_deps_calm :
      (aug : A) (path : Text) (n : Netcf (LinuxDriver A V))
      → IsCalm aug n
      → Answers aug path
      → interface_deps L contents path n
        ≡ some (some (deps_in aug (nodes_at L contents aug path)), n)
  unfolding interface_deps deps_in
  interface_deps_calm aug path n calm (counted, read) = go (nodes_at L contents aug path) refl
    where
      go :
          (nodes : List Text)
          → nodes_at L contents aug path ≡ nodes
          → interface_deps L contents path n ≡ some (some (deps_in aug nodes), n)
      go [] e =
          let none_found : (L.aug_match aug path).0 ≡ pos 0 = rw e at counted in
          rw
            (
              aug_fmt_match_calm L contents aug path n 0 calm none_found,
              not_failed L contents n calm.clean,
            )
            refl
      go (node ∷ nodes) e =
          let found_some : (L.aug_match aug path).0 ≡ pos (suc (length nodes)) = rw e at counted in
          let readable : Readable L contents aug (node ∷ nodes) = rw e at read in
          let several : is_zero (pos (suc (length nodes))) ≡ false = ground arith in
          rw
            (
              aug_fmt_match_calm L contents aug path n (suc (length nodes)) calm found_some,
              not_failed L contents n calm.clean,
              several,
              with_augeas_held n aug
                  (λ aug'. deps_loop L contents aug' (nodes_at L contents aug path) n)
                  calm.settled.held,
            )
            (rw e (deps_loop_calm aug (node ∷ nodes) n calm.memory readable))

  -- The names that the tree has as ports of bridges and as slaves of bonds.
  abbrev pub slaves_in : A → List Text
  slaves_in aug =
      deps_in aug (nodes_at L contents aug (network_interfaces_path ++ codes "/iface/bridge_ports"))
      ++ deps_in aug
          (nodes_at L contents aug (network_interfaces_path ++ codes "/iface/bond_slaves"))

  -- libaugeas answers for the paths that the lists are made from.
  pub record HasAnswers (aug : A) : Type 0 where
    pub ifaces : Answers aug (network_interfaces_path ++ codes "/iface")
    pub ports : Answers aug (network_interfaces_path ++ codes "/iface/bridge_ports")
    pub slaves : Answers aug (network_interfaces_path ++ codes "/iface/bond_slaves")

  all_slaves_calm :
      (aug : A) (n : Netcf (LinuxDriver A V))
      → IsCalm aug n
      → HasAnswers aug
      → all_slaves L contents n ≡ some (some (slaves_in aug), n)
  unfolding all_slaves follow_bail
  all_slaves_calm aug n calm answers = ground (
    arith,
    interface_deps_calm aug (network_interfaces_path ++ codes "/iface/bridge_ports") n calm
        answers.ports,
    interface_deps_calm aug (network_interfaces_path ++ codes "/iface/bond_slaves") n calm
        answers.slaves,
    not_failed L contents n calm.clean,
    allocate_ok n calm.memory,
  )

  is_slave_calm :
      (aug : A) (intf : Text) (n : Netcf (LinuxDriver A V))
      → IsCalm aug n
      → HasAnswers aug
      → is_slave L contents intf n ≡ some (has intf (slaves_in aug), n)
  unfolding is_slave follow
  is_slave_calm aug intf n calm answers =
      rw (all_slaves_calm aug n calm answers, not_failed L contents n calm.clean) refl

  copy_names_calm :
      (names : List Text) (n : Netcf (LinuxDriver A V))
      → HasMemory n
      → copy_names L contents names n ≡ (true, n)
  unfolding copy_names
  copy_names_calm [] n memory = refl
  copy_names_calm (name ∷ names) n memory =
      ground (arith, allocate_ok n memory, copy_names_calm names n memory)

  uniq_device_names_calm :
      (aug : A) (nodes names : List Text) (n : Netcf (LinuxDriver A V))
      → IsCalm aug n
      → unique_names L contents aug nodes [] ≡ found names
      → uniq_device_names L contents nodes n ≡ some (some (qsort names), n)
  unfolding uniq_device_names sorted_names
  uniq_device_names_calm aug nodes names n calm uniq =
      rw
        (
          get_augeas_settled L contents aug n calm.settled,
          allocate_ok n calm.memory,
          not_failed L contents n calm.clean,
          with_augeas_held n aug
              (λ aug'. sorted_names L contents (unique_names L contents aug' nodes []) n)
              calm.settled.held,
          uniq,
        )
        (rw (allocate_ok n calm.memory, copy_names_calm (qsort names) n calm.memory) refl)

  drop_slaves_calm :
      (aug : A) (names : List Text) (n : Netcf (LinuxDriver A V))
      → IsCalm aug n
      → HasAnswers aug
      → drop_slaves L contents names n
        ≡ some (keep (λ name. not (has name (slaves_in aug))) names, n)
  unfolding drop_slaves follow
  drop_slaves_calm aug [] n calm answers = refl
  drop_slaves_calm aug (name ∷ names) n calm answers =
      rw (is_slave_calm aug name n calm answers, drop_slaves_calm aug names n calm answers)
        (ground arith)

  -- On such a handle list_interfaces gives the names of the entries `iface`, sorted and each once, without those of slaves, and leaves
  -- the handle as it is.
  pub list_interfaces_calm :
      (aug : A) (n : Netcf (LinuxDriver A V))
      → IsCalm aug n
      → HasAnswers aug
      → (l : List Text) × (list_interfaces L contents n ≡ some (some l, n))
        × IsSorted l
        × IsDistinct l
        × ((name : Text)
            → has name l ≡ (
                has name (
                  values L contents aug
                    (nodes_at L contents aug (network_interfaces_path ++ codes "/iface")))
                && not (has name (slaves_in aug))))
  unfolding list_interfaces follow_bail follow
  list_interfaces_calm aug n calm answers =
      let nodes : List Text = nodes_at L contents aug (network_interfaces_path ++ codes "/iface") in
      let (names, uniq, sorted, distinct, members) =
        unique_names_lem L contents aug nodes answers.ifaces.1 in
      let test : Text → Bool = λ name. not (has name (slaves_in aug)) in
      (
        keep test (qsort names),
        ground (
          arith,
          aug_fmt_match_calm L contents aug (network_interfaces_path ++ codes "/iface") n
              (length nodes) calm answers.ifaces.0,
          not_failed L contents n calm.clean,
          uniq_device_names_calm aug nodes names n calm uniq,
          drop_slaves_calm aug (qsort names) n calm answers,
        ),
        keep-IsSorted test (qsort names) sorted,
        keep-IsDistinct test (qsort names) distinct,
        λ name. has-keep test name (qsort names) ∙ ap (λ (b : Bool). b && test name) (members name),
      )
