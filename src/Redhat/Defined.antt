-- ===== src/Redhat/Defined.antt =====
-- find_ifcfg_path of src/drv_redhat.c: whether it comes to an end that C defines, and the count of references.
use fbsd_netcf.Prelude.{
  ℕ, All, sym, streq_self, ◌⊎◌, ◌≡◌, refl, ◌∙◌, inl, inr, true, false, List, [], ◌∷◌, ◌++◌, codes,
  Option, none, some, Text, if◌then◌else◌, ℤ, negsuc, is_neg, arith, Bool-cases, Option-cases,
}
use fbsd_netcf.Netcf.{Netcf, enomem, eother, set_errcode, allocate, failed}
use fbsd_netcf.Linux.{Augeas, AugeasPv, LinuxDriver, is_pos}
use fbsd_netcf.Linux.Format.{aug_fmt_match}
use fbsd_netcf.Linux.Instance.{get_augeas_settled}
use fbsd_netcf.Linux.Sysfs.{aug_get_mac}
use fbsd_netcf.Redhat.Sort.{qsort, has, has-qsort, All-has}
use fbsd_netcf.Redhat.Find.{
  Search, found, refused, null_value, is_one, ifcfg_path, network_scripts_path, strcaseeq, follow,
  match_hwaddr, hwaddr_result, find_ifcfg_path_by_hwaddr, find_ifcfg_path_by_device, find_by_mac,
  find_ifcfg_path,
}
use fbsd_netcf.Redhat.Held.{
  Ends, aug_fmt_match_count, aug_fmt_match_ready, IsReady, no_failure, with_augeas-Ends,
  follow-Ends, find_ifcfg_path_by_device_count,
}

-- The node of the address of an interface.
abbrev pub address_path : Text → Text
address_path intf = codes "/files/sys/class/net/" ++ (intf ++ codes "/address/content")

-- In this tree the node of the interface's address has a value, if it is there, and so have the nodes of HWADDR.
pub record HasValues {A V : Type 0} (L : Augeas A V) (contents : ℕ → List AugeasPv) (intf : Text)
    (aug : A) : Type 0 where
  pub address :
      is_pos L contents (L.aug_get aug (address_path intf)).0 ≡ true
      → (v : Text) × ((L.aug_get aug (address_path intf)).1 ≡ some v)
  pub hwaddrs :
      All
        (λ u. is_one (L.aug_get aug u).0 ≡ true → (v : Text) × ((L.aug_get aug u).1 ≡ some v))
        (L.aug_match aug (ifcfg_path ++ codes "/HWADDR")).1

module _ {A V : Type 0} (L : Augeas A V) (contents : ℕ → List AugeasPv) where
  match_hwaddr_defined :
      (aug : A) (mac : Text) (paths : List Text) (match : Option Text)
      → ((u : Text)
          → has u paths ≡ true
          → is_one (L.aug_get aug u).0 ≡ true
          → (v : Text) × ((L.aug_get aug u).1 ≡ some v))
      → match_hwaddr L contents aug mac paths match ≡ null_value
      → ⊥
  unfolding match_hwaddr has
  match_hwaddr_defined aug mac [] match values e = absurd (cc)
  match_hwaddr_defined aug mac (path ∷ paths) match values e =
      elim (Bool-cases (is_one (L.aug_get aug path).0)) [
        | inl one ↦
            let (v, value) = values path (rw (streq_self path) refl) one in
            match_hwaddr_defined aug mac paths (if strcaseeq v mac then some path else match)
              (λ u inside. values u (ground (arith, inside))) (ground (arith, value, one, e))
        | inr other ↦ elim (Option-cases (L.aug_get aug path).1) [
          | inl missing ↦ absurd (ground (arith, other, missing, e))
          | inr (v, value) ↦ absurd (ground (arith, other, value, e))
        ]
      ]

  Ends-count :
      {R : Type 0} (m n : Netcf (LinuxDriver A V)) (o : Option (R × Netcf (LinuxDriver A V)))
      → m.count ≡ n.count
      → Ends m o
      → Ends n o
  Ends-count m n none e h = h
  Ends-count m n (some (r, n')) e h = h ∙ e

  hwaddr_result-Ends :
      (s : Search (Option Text)) (m n : Netcf (LinuxDriver A V))
      → (s ≡ null_value → ⊥)
      → m.count ≡ n.count
      → Ends n (hwaddr_result s m)
  unfolding hwaddr_result set_errcode
  hwaddr_result-Ends (found match) m n defined e = e
  hwaddr_result-Ends refused m n defined e = e
  hwaddr_result-Ends null_value m n defined e = defined refl

  find_ifcfg_path_by_hwaddr-Ends :
      (intf mac : Text) (aug : A) (n : Netcf (LinuxDriver A V))
      → IsReady L contents aug n
      → HasValues L contents intf aug
      → Ends n (find_ifcfg_path_by_hwaddr L contents mac n)
  unfolding find_ifcfg_path_by_hwaddr set_errcode
  find_ifcfg_path_by_hwaddr-Ends intf mac aug n (clean, settled) values =
      let path : Text = ifcfg_path ++ codes "/HWADDR" in
      let r = aug_fmt_match L contents path n in
      let count : r.1.count ≡ n.count = aug_fmt_match_count L contents path n in
      let same = get_augeas_settled L contents aug n settled in
      let okay : failed n ≡ false = no_failure L contents n clean in
      let (held, matches) = aug_fmt_match_ready L contents aug path n clean settled in
      elim (Bool-cases (is_neg r.0.0)) [
        | inl refused_match ↦
            rw (same, find_ifcfg_path_by_hwaddr) (rw okay (rw refused_match count))
        | inr matched ↦ elim (Bool-cases (failed r.1)) [
          | inl bad ↦ rw (same, find_ifcfg_path_by_hwaddr) (rw okay (rw matched (rw bad count)))
          | inr fine ↦ elim matches [
            | inl bad ↦ absurd (cc)
            | inr nodes ↦
                let defined = match_hwaddr_defined aug mac (qsort r.0.1) none (λ u inside.
                  All-has _ u (L.aug_match aug path).1 values.hwaddrs
                    (rw (← nodes) (sym (has-qsort u r.0.1) ∙ inside))) in
                rw (same, find_ifcfg_path_by_hwaddr)
                  (rw okay (
                    rw matched (
                      rw fine (
                        with_augeas-Ends L contents n r.1 _ aug held (
                          hwaddr_result-Ends (match_hwaddr L contents aug mac (qsort r.0.1) none)
                            r.1 n defined count)))))
          ]
        ]
      ]

  aug_get_mac-IsReady :
      (intf : Text) (aug : A) (n : Netcf (LinuxDriver A V))
      → IsReady L contents aug n
      → HasValues L contents intf aug
      → (got : ℤ × Option Text) × (n' : Netcf (LinuxDriver A V)) × (aug_get_mac L contents intf n
          ≡ some (got, n'))
        × (n'.count ≡ n.count)
        × ((is_neg got.0 ≡ true)
            ⊎ (IsReady L contents aug n'
                × (is_pos L contents got.0 ≡ true → (v : Text) × (got.1 ≡ some v))))
  unfolding aug_get_mac set_errcode allocate
  aug_get_mac-IsReady intf aug n (clean, settled) values =
      let same = get_augeas_settled L contents aug n settled in
      let okay = no_failure L contents n clean in
      elim (Bool-cases (allocate n).0) [
        | inr fails ↦ (
          (negsuc 0, none),
          set_errcode enomem (allocate n).1,
          rw (same, aug_get_mac) (rw okay (rw fails refl)),
          refl,
          inl refl,
        )
        | inl ok ↦ (
          L.aug_get aug (address_path intf),
          (allocate n).1,
          rw (same, aug_get_mac) (rw okay (rw ok (rw same refl))),
          refl,
          inr (
            (
              clean,
              record { held = settled.held; copied = settled.copied; loaded = settled.loaded },
            ),
            values.address,
          ),
        )
      ]

  after_hwaddr-Ends :
      (name : Text) (path : Option Text) (m n : Netcf (LinuxDriver A V))
      → m.count ≡ n.count
      → Ends n (
          if failed m
          then some (none, m)
          else (let next : Option (Option Text × Netcf (LinuxDriver A V)) = elim path [
            | none ↦ some (find_ifcfg_path_by_device L contents name m)
            | some p ↦ some (some p, m)
          ] in
              next))
  after_hwaddr-Ends name path m n e = elim (Bool-cases (failed m)) [
    | inl bad ↦ rw bad e
    | inr fine ↦ rw fine (elim (Option-cases path) [
      | inl missing ↦ rw missing (find_ifcfg_path_by_device_count L contents name m ∙ e)
      | inr (p, there) ↦ rw there e
    ])
  ]

  find_by_mac-Ends :
      (name : Text) (got : ℤ × Option Text) (aug : A) (m n : Netcf (LinuxDriver A V))
      → m.count ≡ n.count
      → HasValues L contents name aug
      → ((is_neg got.0 ≡ true)
          ⊎ (IsReady L contents aug m
              × (is_pos L contents got.0 ≡ true → (v : Text) × (got.1 ≡ some v))))
      → Ends n (find_by_mac L contents name got m)
  unfolding find_by_mac set_errcode
  find_by_mac-Ends name (r, mac) aug m n count values h = elim (Bool-cases (is_neg r)) [
    | inl negative ↦ rw (negative, find_by_mac) count
    | inr other ↦ elim h [
      | inl negative ↦ absurd (cc)
      | inr (ready, value) ↦
          let okay = no_failure L contents m ready.0 in
          elim (Bool-cases (is_pos L contents r)) [
            | inr absent ↦
                rw (other, absent, find_by_mac)
                  (rw okay (find_ifcfg_path_by_device_count L contents name m ∙ count))
            | inl present ↦
                let (v, there) = value present in
                rw (there, other, present, find_by_mac)
                  (rw okay (
                    follow-Ends L contents n (find_ifcfg_path_by_hwaddr L contents v m) _
                      (Ends-count m n _ count
                        (find_ifcfg_path_by_hwaddr-Ends name v aug m ready values))
                      (λ path n₂ e. after_hwaddr-Ends name path n₂ n e)))
          ]
    ]
  ]

  -- On a handle that holds the loaded tree and has no error, find_ifcfg_path comes to an end that C defines, if the nodes that it reads
  -- have a value in that tree, and leaves the count.
  pub find_ifcfg_path-Ends :
      (name : Text) (aug : A) (n : Netcf (LinuxDriver A V))
      → IsReady L contents aug n
      → HasValues L contents name aug
      → Ends n (find_ifcfg_path L contents name n)
  unfolding find_ifcfg_path set_errcode allocate
  find_ifcfg_path-Ends name aug n (clean, settled) values =
      let path : Text = network_scripts_path ++ (codes "/ifcfg-" ++ name) in
      let same = get_augeas_settled L contents aug n settled in
      let okay = no_failure L contents n clean in
      let n₂ = (allocate n).1 in
      elim (Bool-cases (allocate n).0) [
        | inr fails ↦ rw (same, find_ifcfg_path) (rw okay (rw fails refl))
        | inl ok ↦
            rw (same, find_ifcfg_path)
              (rw okay (
                rw ok (
                  with_augeas-Ends L contents n n₂ _ aug settled.held (
                    named n₂ path refl (
                      clean,
                      record {
                        held = settled.held;
                        copied = settled.copied;
                        loaded = settled.loaded;
                      },
                    )))))
      ]
    where
      named :
          (m : Netcf (LinuxDriver A V)) (path : Text)
          → m.count ≡ n.count
          → IsReady L contents aug m
          → Ends n (
              let nmatches = (L.aug_match aug path).0 in
              if is_neg nmatches
              then some (none, set_errcode eother m)
              else if is_one nmatches
              then some (some path, m)
              else follow (aug_get_mac L contents name m) (find_by_mac L contents name))
      named m path count ready = elim (Bool-cases (is_neg (L.aug_match aug path).0)) [
        | inl negative ↦ rw negative count
        | inr other ↦ elim (Bool-cases (is_one (L.aug_match aug path).0)) [
          | inl one ↦ rw (other, one) count
          | inr several ↦
              let (got, m', made, same', value) = aug_get_mac-IsReady name aug m ready values in
              rw (other, several, made, follow)
                (find_by_mac-Ends name got aug m' n (same' ∙ count) values value)
        ]
      ]
