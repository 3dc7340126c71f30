-- ===== src/Redhat/Find.antt =====
-- The search for the configuration of an interface, in src/drv_redhat.c: is_slave, has_ifcfg_file, and find_ifcfg_path
-- with what it is made of. Where C leaves undefined what happens, as behind
-- a NULL that strcmp or printf is given, a function gives `none`.
use fbsd_netcf.Prelude.{
  ℕ, ◌-◌, Bool, true, false, not, List, [], ◌∷◌, ◌++◌, Option, none, some, Text, codes, map, length,
  take, ◌==◌, if◌then◌else◌, ℤ, pos, negsuc, is_neg, is_zero, streq,
}
use fbsd_netcf.Netcf.{ErrCode, Netcf, enomem, eother, set_errcode, allocate, failed}
use fbsd_netcf.Linux.{Augeas, AugeasPv, LinuxDriver, get_augeas, is_pos}
use fbsd_netcf.Linux.Format.{aug_fmt_match}
use fbsd_netcf.Linux.Sysfs.{c_tolower, aug_get_mac}
use fbsd_netcf.Redhat.Sort.{qsort, last_of}

abbrev pub network_scripts_path : Text
network_scripts_path = codes "/files/etc/sysconfig/network-scripts"

abbrev pub ifcfg_path : Text
ifcfg_path = codes "/files/etc/sysconfig/network-scripts/*"

-- r == 1
abbrev pub is_one : ℤ → Bool
is_one (pos r) = r == 1
is_one (negsuc _) = false

-- The rest behind a call, unless the call is undefined.
unfoldable pub follow :
    {R S W : Type 0}
    → Option (R × Netcf W)
    → (R → Netcf W → Option (S × Netcf W))
    → Option (S × Netcf W)
follow none rest = none
follow (some (r, n)) rest = rest r n

-- STRCASEEQ
unfoldable pub strcaseeq : Text → Text → Bool
strcaseeq s t = streq (map c_tolower s) (map c_tolower t)

-- What a loop over values of the tree comes to: what it found, an aug_get that does not give the one node, or a
-- value of NULL, which the code hands to strcmp, strcasecmp or printf.
pub data Search (R : Type 0) : Type 0 where
  found : R → Search R
  refused : Search R
  null_value : Search R

-- The nodes of an interface and of those below it: the pattern of has_ifcfg_file, aug_get_xml_for_nif and
-- rm_interface, which differ in the blanks before each `or`.
pub mentions : Text → Text → Text → Text → Text
mentions blanks₁ blanks₂ blanks₃ name =
    let slaves : Text = codes "or MASTER = ../*[BRIDGE = '" ++ (name ++ codes "']/DEVICE ]") in
    let masters : Text = codes "or MASTER = '" ++ (name ++ (codes "'" ++ (blanks₃ ++ slaves))) in
    let bridges : Text = codes "or BRIDGE = '" ++ (name ++ (codes "'" ++ (blanks₂ ++ masters))) in
    ifcfg_path ++ (codes "[ DEVICE = '" ++ (name ++ (codes "'" ++ (blanks₁ ++ bridges))))

-- The path without its "/HWADDR".
unfoldable pub cut_hwaddr : Text → Text
cut_hwaddr path = take (length path - 7) path

module _ {A V : Type 0} where
  -- The result of a loop over the tree that the handle holds. It holds one, since there was no error.
  unfoldable pub with_augeas :
      {R : Type 0}
      → Netcf (LinuxDriver A V)
      → (A → Option (R × Netcf (LinuxDriver A V)))
      → Option (R × Netcf (LinuxDriver A V))
  with_augeas n rest = elim n.world.augeas [ none ↦ none | some aug ↦ rest aug ]

  -- ERR_COND_BAIL: the handle with the error, if the condition holds.
  abbrev pub err_cond : Bool → ErrCode → Netcf (LinuxDriver A V) → Netcf (LinuxDriver A V)
  err_cond cond errcode n = if cond then set_errcode errcode n else n

  unfoldable pub hwaddr_result :
      Search (Option Text)
      → Netcf (LinuxDriver A V)
      → Option (Option Text × Netcf (LinuxDriver A V))
  unfolding cut_hwaddr
  hwaddr_result (found match) n =
      some (elim match [ none ↦ none | some path ↦ some (cut_hwaddr path) ], n)
  hwaddr_result refused n = some (none, set_errcode eother n)
  hwaddr_result null_value n = none

module _ {A V : Type 0} (L : Augeas A V) (contents : ℕ → List AugeasPv) where
  open L use {aug_get, aug_match}

  -- is_slave, as the test of its result against 0: so -1 counts.
  unfoldable pub is_slave : Text → Netcf (LinuxDriver A V) → Bool × Netcf (LinuxDriver A V)
  is_slave intf n =
      let ((masters, _), n₁) = aug_fmt_match L contents (intf ++ codes "/MASTER") n in
      let ((bridges, _), n₂) = aug_fmt_match L contents (intf ++ codes "/BRIDGE") n₁ in
      if not (is_zero masters) then (true, n₁) else (not (is_zero bridges), n₂)

  unfoldable pub has_ifcfg_file : Text → Netcf (LinuxDriver A V) → Bool × Netcf (LinuxDriver A V)
  has_ifcfg_file name n =
      let ((nmatches, _), n₁) =
        aug_fmt_match L contents
          (mentions (codes "    ") (codes "    ") (codes "    ") name ++ codes "/DEVICE") n in
      (is_pos L contents nmatches, n₁)

  -- The loop of find_ifcfg_path_by_hwaddr, with the match so far.
  unfoldable pub match_hwaddr : A → Text → List Text → Option Text → Search (Option Text)
  unfolding strcaseeq
  match_hwaddr aug mac [] match = found match
  match_hwaddr aug mac (path ∷ hwaddr) match =
      let (r, addr) = aug_get aug path in
      elim addr [
        | none ↦ if is_one r then null_value else refused
        | some a ↦
            let rest = match_hwaddr aug mac hwaddr (if strcaseeq a mac then some path else match) in
            if is_one r then rest else refused
      ]

  unfoldable pub find_ifcfg_path_by_hwaddr :
      Text → Netcf (LinuxDriver A V) → Option (Option Text × Netcf (LinuxDriver A V))
  unfolding with_augeas hwaddr_result
  find_ifcfg_path_by_hwaddr mac n =
      let (_, n₁) = get_augeas L contents n in
      let ((nhwaddr, hwaddr), n₂) = aug_fmt_match L contents (ifcfg_path ++ codes "/HWADDR") n₁ in
      let n₃ = err_cond (is_neg nhwaddr) eother n₂ in
      if failed n₁
      then some (none, n₁)
      else if failed n₃
      then some (none, n₃)
      else with_augeas n₃ (λ aug. hwaddr_result (match_hwaddr aug mac (qsort hwaddr) none) n₃)

  unfoldable pub find_ifcfg_path_by_device :
      Text → Netcf (LinuxDriver A V) → Option Text × Netcf (LinuxDriver A V)
  find_ifcfg_path_by_device name n =
      let (_, n₁) = get_augeas L contents n in
      let ((ndevs, devs), n₂) =
        aug_fmt_match L contents (ifcfg_path ++ (codes "[DEVICE = '" ++ (name ++ codes "']"))) n₁ in
      let n₃ = err_cond (is_neg ndevs) eother n₂ in
      if failed n₁
      then (none, n₁)
      else if failed n₃
      then (none, n₃)
      else if is_zero ndevs
      then (none, n₃)
      else (last_of (qsort devs), n₃)

  -- The part of find_ifcfg_path behind aug_get_mac. A MAC of NULL is compared with each HWADDR.
  unfoldable pub find_by_mac :
      Text
      → ℤ × Option Text
      → Netcf (LinuxDriver A V)
      → Option (Option Text × Netcf (LinuxDriver A V))
  unfolding follow
  find_by_mac name (r, mac) n =
      let n₁ = err_cond (is_neg r) eother n in
      let by_mac : Option (Option Text × Netcf (LinuxDriver A V)) = elim mac [
        | none ↦ none
        | some m ↦ find_ifcfg_path_by_hwaddr m n₁
      ] in
      if failed n₁
      then some (none, n₁)
      else if is_pos L contents r
      then follow by_mac (λ path n₂.
        if failed n₂
        then some (none, n₂)
        else (let next : Option (Option Text × Netcf (LinuxDriver A V)) = elim path [
          | none ↦ some (find_ifcfg_path_by_device name n₂)
          | some p ↦ some (some p, n₂)
        ] in
            next))
      else some (find_ifcfg_path_by_device name n₁)

  -- The file ifcfg-NAME, or the one with the MAC of the interface, or the one with DEVICE=NAME.
  unfoldable pub find_ifcfg_path :
      Text → Netcf (LinuxDriver A V) → Option (Option Text × Netcf (LinuxDriver A V))
  unfolding find_by_mac
  find_ifcfg_path name n =
      let (_, n₁) = get_augeas L contents n in
      let (ok, n₂) = allocate n₁ in
      let path : Text = network_scripts_path ++ (codes "/ifcfg-" ++ name) in
      if failed n₁
      then some (none, n₁)
      else if not ok
      then some (none, set_errcode enomem n₂)
      else with_augeas n₂ (λ aug.
        let nmatches = (aug_match aug path).0 in
        if is_neg nmatches
        then some (none, set_errcode eother n₂)
        else if is_one nmatches
        then some (some path, n₂)
        else follow (aug_get_mac L contents name n₂) (find_by_mac name))
