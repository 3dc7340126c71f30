-- ===== src/Suse/Slaves.antt =====
-- What the lists and the look-up by MAC of src/drv_suse.c do with slaves.
use fbsd_netcf.Prelude.{
  All, ℕ, ◌≡◌, refl, ap, ◌∙◌, true, false, not, ◌&&◌, ◌||◌, Bool, List, [], ◌∷◌, ◌++◌, Option, some,
  Text, codes, take, keep, pos, is_zero, arith, streq_self, if◌then◌else◌,
}
use fbsd_netcf.Netcf.{Netcf, allocate}
use fbsd_netcf.Netcf.Memory.{HasMemory, allocate_ok}
use fbsd_netcf.System.{Kernel}
use fbsd_netcf.Linux.{Augeas, AugeasPv, LinuxDriver, is_pos}
use fbsd_netcf.Linux.Format.{formatted}
use fbsd_netcf.Linux.Instance.{get_augeas_settled}
use fbsd_netcf.Linux.Calm.{IsCalm, not_failed, aug_fmt_match_calm}
use fbsd_netcf.Redhat.Sort.{qsort, has, IsSorted, has-qsort, qsort-IsSorted}
use fbsd_netcf.Redhat.Kept.{keep-IsSorted, has-keep}
use fbsd_netcf.Redhat.Find.{follow}
use fbsd_netcf.Debian.Lookup.{selected, filled_by, loop_fills}
use fbsd_netcf.Suse.Files.{
  Dirent, ifcfg_path, ifcfg_file, ifcfg_below, names_in, print_names, find_ifcfg_files, is_slave,
  has_ifcfg_file,
}
use fbsd_netcf.Suse.Listing.{
  drop_slaves, list_interfaces, list_interface_ids, drv_list_interfaces, toplevel_names,
}

module _ {A V : Type 0} (L : Augeas A V) (contents : ℕ → List AugeasPv) where
  -- libaugeas gives a number of nodes for a path.
  abbrev pub Counts : A → Text → Type 0
  Counts aug path = (k : ℕ) × ((L.aug_match aug path).0 ≡ pos k)

  -- It does so for the two entries of a file that is_slave looks for.
  abbrev pub CountsEntries : A → Text → Type 0
  CountsEntries aug name =
      Counts aug (ifcfg_file name ++ codes "/BONDING_MASTER")
      × Counts aug (ifcfg_file name ++ codes "/BRIDGE")

  -- Whether the file of an interface has one of the entries.
  abbrev pub has_entries : A → Text → Bool
  has_entries aug name =
      not (is_zero (L.aug_match aug (ifcfg_file name ++ codes "/BONDING_MASTER")).0)
      || not (is_zero (L.aug_match aug (ifcfg_file name ++ codes "/BRIDGE")).0)

  is_slave_calm :
      (aug : A) (name : Text) (n : Netcf (LinuxDriver A V))
      → IsCalm aug n
      → CountsEntries aug name
      → is_slave L contents name n ≡ (has_entries aug name, n)
  unfolding is_slave
  is_slave_calm aug name n calm ((k, masters), (j, bridges)) = ground (
    arith,
    aug_fmt_match_calm L contents aug (ifcfg_file name ++ codes "/BONDING_MASTER") n k calm masters,
    aug_fmt_match_calm L contents aug (ifcfg_file name ++ codes "/BRIDGE") n j calm bridges,
    masters,
    bridges,
  )

  drop_slaves_calm :
      (aug : A) (names : List Text) (n : Netcf (LinuxDriver A V))
      → IsCalm aug n
      → ((name : Text) → has name names ≡ true → CountsEntries aug name)
      → drop_slaves L contents names n ≡ (keep (λ name. not (has_entries aug name)) names, n)
  unfolding drop_slaves has
  drop_slaves_calm aug [] n calm counts = refl
  drop_slaves_calm aug (name ∷ names) n calm counts =
      let own : CountsEntries aug name = counts name (rw (streq_self name) refl) in
      let others =
        drop_slaves_calm aug names n calm (λ other inside. counts other (ground (arith, inside))) in
      rw (is_slave_calm aug name n calm own) (rw others (ground arith))

  print_names_calm :
      (names : List Text) (n : Netcf (LinuxDriver A V))
      → HasMemory n
      → print_names names n ≡ (true, n)
  unfolding print_names
  print_names_calm [] n memory = refl
  print_names_calm (name ∷ names) n memory =
      ground (arith, allocate_ok n memory, print_names_calm names n memory)

  -- The pattern that drv_lookup_by_mac_string makes of a name.
  abbrev pub device_pattern : Text → Text
  device_pattern name = ifcfg_path ++ (codes "[DEVICE = '" ++ (name ++ codes "']"))

  has_ifcfg_file_calm :
      (aug : A) (name : Text) (n : Netcf (LinuxDriver A V))
      → IsCalm aug n
      → Counts aug (ifcfg_below name)
      → has_ifcfg_file L contents name n
        ≡ (is_pos L contents (L.aug_match aug (ifcfg_below name)).0, n)
  unfolding has_ifcfg_file formatted
  has_ifcfg_file_calm aug name n calm (k, counted) = ground (
    arith,
    get_augeas_settled L contents aug n calm.settled,
    allocate_ok n calm.memory,
    not_failed L contents n calm.clean,
    counted,
  )

  toplevel_round :
      (name : Text) (names : List Text) (n : Netcf (LinuxDriver A V)) (file : Bool)
      (rest : List Text)
      → has_ifcfg_file L contents name n ≡ (file, n)
      → allocate n ≡ (true, n)
      → is_slave L contents (device_pattern name) n ≡ (false, n)
      → toplevel_names L contents names n ≡ (some rest, n)
      → toplevel_names L contents (name ∷ names) n ≡ (some (if file then name ∷ rest else rest), n)
  unfolding toplevel_names
  toplevel_round name names n true rest file ok top others =
      rw (file, ok, top, others) (rw (file, ok, top) refl)
  toplevel_round name names n false rest file ok top others = rw (file, others) (rw file refl)

  -- On a handle that holds the loaded tree, has no error and does not run out of memory, if for each of the names libaugeas counts
  -- the nodes of its file that has_ifcfg_file looks for, and the entries that is_slave looks for in a file named like the pattern that
  -- drv_lookup_by_mac_string hands to it, and finds none of the latter, the first loop of that function takes every one of the names
  -- with a file, whether or not that file says that the interface is a slave.
  pub toplevel_names_lem :
      (aug : A) (names : List Text) (n : Netcf (LinuxDriver A V))
      → IsCalm aug n
      → All (λ name. Counts aug (ifcfg_below name)) names
      → All (λ name. has_entries aug (device_pattern name) ≡ false) names
      → All (λ name. CountsEntries aug (device_pattern name)) names
      → toplevel_names L contents names n
        ≡ (some (keep (λ name. is_pos L contents (L.aug_match aug (ifcfg_below name)).0) names), n)
  unfolding toplevel_names
  toplevel_names_lem aug [] n calm files unseen counts = refl
  toplevel_names_lem aug (name ∷ names) n calm files unseen counts =
      toplevel_round name names n (is_pos L contents (L.aug_match aug (ifcfg_below name)).0)
        (keep (λ other. is_pos L contents (L.aug_match aug (ifcfg_below other)).0) names)
        (has_ifcfg_file_calm aug name n calm files.0) (allocate_ok n calm.memory)
        (is_slave_calm aug (device_pattern name) n calm counts.0
          ∙ ap (λ (b : Bool). (b, n)) unseen.0)
        (toplevel_names_lem aug names n calm files.1 unseen.1 counts.1)

module _ {A V : Type 0} (L : Augeas A V) (contents : ℕ → List AugeasPv)
    (directory : V → Option (List Dirent)) (k : Kernel (LinuxDriver A V)) where
  list_interfaces_calm :
      (aug : A) (entries : List Dirent) (n : Netcf (LinuxDriver A V))
      → IsCalm aug n
      → directory n.world.system ≡ some entries
      → ((name : Text) → has name (names_in entries) ≡ true → CountsEntries L contents aug name)
      → list_interfaces L contents directory n
        ≡ some (
          some (keep (λ name. not (has_entries L contents aug name)) (qsort (names_in entries))),
          n,
        )
  unfolding list_interfaces find_ifcfg_files follow
  list_interfaces_calm aug entries n calm there counts =
      let names = names_in entries in
      let dropped =
        drop_slaves_calm L contents aug (qsort names) n calm
          (λ name inside. counts name (rw (has-qsort name names) at inside)) in
      ground (
        arith,
        get_augeas_settled L contents aug n calm.settled,
        not_failed L contents n calm.clean,
        there,
        allocate_ok n calm.memory,
        print_names_calm L contents names n calm.memory,
        dropped,
      )

  -- On such a handle, if the directory can be read and libaugeas counts the entries of its files that is_slave looks for,
  -- drv_list_interfaces fills the caller's array with the first `maxnames` of the interfaces that the flags ask for, in the order of
  -- strcmp, of those with a file that has none of the entries, and leaves the handle as it is.
  pub drv_list_interfaces_files :
      (aug : A) (entries : List Dirent) (maxnames flags : ℕ) (n : Netcf (LinuxDriver A V))
      → IsCalm aug n
      → directory n.world.system ≡ some entries
      → ((name : Text) → has name (names_in entries) ≡ true → CountsEntries L contents aug name)
      → (l : List Text) × (drv_list_interfaces L contents directory k maxnames flags n
          ≡ filled_by L contents k (take maxnames (keep (selected L contents k flags n.world) l)) n)
        × IsSorted l
        × ((name : Text)
            → has name l ≡ (has name (names_in entries) && not (has_entries L contents aug name)))
  unfolding drv_list_interfaces list_interface_ids follow
  drv_list_interfaces_files aug entries maxnames flags n calm there counts =
      let test : Text → Bool = λ name. not (has_entries L contents aug name) in
      let l : List Text = keep test (qsort (names_in entries)) in
      let fine = not_failed L contents n calm.clean in
      (
        l,
        rw
            (
              get_augeas_settled L contents aug n calm.settled,
              fine,
              list_interfaces_calm aug entries n calm there counts,
            )
            (rw fine (
              loop_fills L contents k flags maxnames l [] n calm.memory (omega arith)
              ∙ ap
                  (λ (j : ℕ).
                    filled_by L contents k (take j (keep (selected L contents k flags n.world) l))
                      n)
                  (omega arith))),
        keep-IsSorted test (qsort (names_in entries)) (qsort-IsSorted (names_in entries)),
        λ name.
            has-keep test name (qsort (names_in entries))
            ∙ ap (λ (b : Bool). b && test name) (has-qsort name (names_in entries)),
      )
