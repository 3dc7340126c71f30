-- ===== src/Suse/Files.antt =====
-- The files of interfaces and what they say, in src/drv_suse.c, up to find_ifcfg_path. Where C leaves undefined what happens, as
-- behind a NULL that is written to, a function gives `none`.
use fbsd_netcf.Prelude.{
  ℕ, Bool, true, false, not, ◌&&◌, List, [], ◌∷◌, ◌++◌, Option, none, some, Text, codes, drop,
  length, if◌then◌else◌, is_neg, is_zero, streq, has_prefix,
}
use fbsd_netcf.Netcf.{Netcf, enomem, eother, set_errcode, allocate, failed}
use fbsd_netcf.Linux.{Augeas, AugeasPv, LinuxDriver, get_augeas, is_pos}
use fbsd_netcf.Linux.Format.{aug_fmt_match, formatted}
use fbsd_netcf.Redhat.Sort.{qsort}
use fbsd_netcf.Redhat.Find.{err_cond, is_one}

abbrev pub aug_files : Text
aug_files = codes "/files"

abbrev pub network_scripts_path : Text
network_scripts_path = codes "/etc/sysconfig/network"

abbrev pub ifcfg_path : Text
ifcfg_path = codes "/files/etc/sysconfig/network/*"

abbrev pub udev_netrule_path : Text
udev_netrule_path = codes "/etc/udev/rules.d/70-persistent-net.rules"

abbrev pub ifcfg_prefix : Text
ifcfg_prefix = codes "ifcfg-"

-- "%s%s/ifcfg-%s", and "%s/%s/ifcfg-%s" with its two slashes.
abbrev pub ifcfg_file : Text → Text
ifcfg_file name = aug_files ++ (network_scripts_path ++ (codes "/ifcfg-" ++ name))

abbrev pub ifcfg_below : Text → Text
ifcfg_below name = aug_files ++ (b'/' ∷ (network_scripts_path ++ (codes "/ifcfg-" ++ name)))

-- An entry of a directory: whether it is a regular file, and its name.
pub record Dirent : Type 0 where
  pub regular : Bool
  pub d_name : Text

-- Whether the loops over the directory take an entry: a regular file whose name starts with `ifcfg-`.
unfoldable pub is_ifcfg : Dirent → Bool
unfolding has_prefix
is_ifcfg ent = ent.regular && has_prefix ifcfg_prefix ent.d_name

-- The names of the interfaces that the directory has a file for, in its order.
unfoldable pub names_in : List Dirent → List Text
unfolding is_ifcfg
names_in [] = []
names_in (ent ∷ entries) =
    let rest = names_in entries in
    if is_ifcfg ent then drop (length ifcfg_prefix) ent.d_name ∷ rest else rest

module _ {A V : Type 0} where
  -- An xasprintf for each name: whether there was memory.
  unfoldable pub print_names : List Text → Netcf (LinuxDriver A V) → Bool × Netcf (LinuxDriver A V)
  print_names [] n = (true, n)
  print_names (name ∷ names) n =
      let (ok, n₁) = allocate n in
      let rest = print_names names n₁ in if ok then rest else (false, set_errcode enomem n₁)

-- The names that are the one looked for.
unfoldable pub same_names : Text → List Text → List Text
same_names name [] = []
same_names name (other ∷ names) =
    let rest = same_names name names in if streq other name then other ∷ rest else rest

-- `directory` is what opendir and readdir give of network_scripts_path, `none` if opendir fails.
module _ {A V : Type 0} (L : Augeas A V) (contents : ℕ → List AugeasPv)
    (directory : V → Option (List Dirent)) where
  -- find_ifcfg_file_by_name: the names in the array, none of them where it gives -1 without an error, or `none` inside at error.
  -- At its label `error` it frees an element of the array, which is NULL if opendir has failed. It does not test whether
  -- the array was allocated.
  unfoldable pub find_ifcfg_file_by_name :
      Text → Netcf (LinuxDriver A V) → Option (Option (List Text) × Netcf (LinuxDriver A V))
  unfolding names_in same_names print_names
  find_ifcfg_file_by_name name n = elim (directory n.world.system) [
    | none ↦ none
    | some entries ↦
        let (ok, n₁) = allocate n in
        let same : List Text = same_names name (names_in entries) in
        let (printed, n₂) = print_names same n₁ in
        elim same [
          | [] ↦ some (some [], n₁)
          | first ∷ others ↦
              if not ok then none else some (if printed then some (first ∷ []) else none, n₂)
        ]
  ]

  -- find_ifcfg_files: the names, or `none` inside where it gives -1. At its label `error` it frees an element of the array, which
  -- is NULL if opendir or the allocation of the array has failed.
  unfoldable pub find_ifcfg_files :
      Netcf (LinuxDriver A V) → Option (Option (List Text) × Netcf (LinuxDriver A V))
  unfolding names_in print_names qsort
  find_ifcfg_files n = elim (directory n.world.system) [
    | none ↦ none
    | some entries ↦
        let (ok, n₁) = allocate n in
        let (printed, n₂) = print_names (names_in entries) n₁ in
        if not ok
        then none
        else some (if printed then some (qsort (names_in entries)) else none, n₂)
  ]

module _ {A V : Type 0} (L : Augeas A V) (contents : ℕ → List AugeasPv) where
  -- is_slave, as the test of its result against 0: so -1 counts.
  unfoldable pub is_slave : Text → Netcf (LinuxDriver A V) → Bool × Netcf (LinuxDriver A V)
  is_slave intf n =
      let ((masters, _), n₁) =
        aug_fmt_match L contents (ifcfg_file intf ++ codes "/BONDING_MASTER") n in
      let ((bridges, _), n₂) = aug_fmt_match L contents (ifcfg_file intf ++ codes "/BRIDGE") n₁ in
      if not (is_zero masters) then (true, n₁) else (not (is_zero bridges), n₂)

  -- has_ifcfg_file
  unfoldable pub has_ifcfg_file : Text → Netcf (LinuxDriver A V) → Bool × Netcf (LinuxDriver A V)
  has_ifcfg_file name n = formatted L contents false n (λ aug n₁.
      let nmatches = (L.aug_match aug (ifcfg_below name)).0 in
      (is_pos L contents nmatches, err_cond (is_neg nmatches) eother n₁))

  -- find_hwaddr_by_device: the value behind `addr` where it gives 1.
  unfoldable pub find_hwaddr_by_device :
      Text → Netcf (LinuxDriver A V) → Option (Option Text) × Netcf (LinuxDriver A V)
  find_hwaddr_by_device name n =
      let (_, n₁) = get_augeas L contents n in
      let ((nmatches, matches), n₂) =
        aug_fmt_match L contents
          (aug_files
            ++ (b'/' ∷ (udev_netrule_path ++ (codes "/*[ NAME = '" ++ (name ++ codes "']")))))
          n₁ in
      let n₃ = err_cond (is_neg nmatches) eother n₂ in
      let (ok, n₄) = allocate n₃ in
      let found : Option (Option Text) = elim matches [
        | [] ↦ none
        | match ∷ _ ↦ elim n₄.world.augeas [
          | none ↦ none
          | some aug ↦ some (L.aug_get aug (match ++ codes "/ATTR{address}")).1
        ]
      ] in
      if failed n₁
      then (none, n₁)
      else if failed n₃
      then (none, n₃)
      else if not (is_one nmatches)
      then (none, n₃)
      else if not ok
      then (none, set_errcode enomem n₄)
      else (found, n₄)

  -- find_ifcfg_path: the file ifcfg-NAME, if there is the one.
  unfoldable pub find_ifcfg_path :
      Text → Netcf (LinuxDriver A V) → Option Text × Netcf (LinuxDriver A V)
  find_ifcfg_path name n = formatted L contents none n (λ aug n₁.
      let nmatches = (L.aug_match aug (ifcfg_below name)).0 in
      (
        if is_one nmatches then some (ifcfg_below name) else none,
        err_cond (is_neg nmatches) eother n₁,
      ))
