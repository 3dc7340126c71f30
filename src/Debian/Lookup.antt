-- ===== src/Debian/Lookup.antt =====
-- What drv_list_interfaces and drv_lookup_by_name of src/drv_debian.c give on a handle that holds the loaded tree.
use Prim.Native.Nat.{bit_and}
use fbsd_netcf.Prelude.{
  ℕ, suc, ◌+◌, ◌-◌, ◌≤◌, ◌<◌, ◌≡◌, refl, ap, sym, ◌∙◌, inl, inr, true, false, not, ◌||◌, ◌&&◌, Bool,
  List, [], ◌∷◌, ◌++◌, Option, none, some, Text, codes, length, take, keep, ltb, ltb→lt, lt→ltb,
  ◌==◌, arith, Bool-cases, length-append, if◌then◌else◌, take_none, take_empty, take_next,
}
use fbsd_netcf.Ref.{ref}
use fbsd_netcf.Netcf.{make_netcf_if, Netcf, enoent, set_errcode, noerror}
use fbsd_netcf.Netcf.Memory.{HasMemory, allocate_ok}
use fbsd_netcf.System.{Kernel, bail_out, if_is_active, iface_active, iface_inactive}
use fbsd_netcf.Linux.{Augeas, AugeasPv, LinuxDriver}
use fbsd_netcf.Redhat.Sort.{has, IsSorted, IsDistinct}
use fbsd_netcf.Redhat.Find.{follow}
use fbsd_netcf.Redhat.Listing.{Round, counted, qualify, take_name}
use fbsd_netcf.Redhat.Unique.{values}
use fbsd_netcf.Redhat.Lookup.{make_named}
use fbsd_netcf.Debian.Deps.{network_interfaces_path}
use fbsd_netcf.Debian.Listing.{
  list_interfaces, list_loop, list_interface_ids, drv_list_interfaces, make_listed,
  drv_lookup_by_name,
}
use fbsd_netcf.Linux.Calm.{IsCalm, nodes_at, not_failed}
use fbsd_netcf.Debian.Settled.{HasAnswers, slaves_in, list_interfaces_calm}

module _ {A V : Type 0} (L : Augeas A V) (contents : ℕ → List AugeasPv)
    (k : Kernel (LinuxDriver A V)) where
  -- Whether the flags ask for an interface.
  unfoldable pub selected : ℕ → LinuxDriver A V → Text → Bool
  unfolding if_is_active
  selected flags w name =
      (bit_and flags 3 == 3)
      || (if if_is_active k name w
          then not (bit_and flags iface_active == 0)
          else not (bit_and flags iface_inactive == 0))

  qualify_store :
      (flags : ℕ) (name : Text) (names : List Text) (q : ℕ) (n : Netcf (LinuxDriver A V))
      → HasMemory n
      → selected flags n.world name ≡ true
      → qualify L contents k flags true (some name) names q n
        ≡ some (counted (names ++ (name ∷ [])) (q + 1), n)
  unfolding qualify take_name selected
  qualify_store flags name names q n memory up = rw (up, allocate_ok n memory) refl

  qualify_count :
      (flags : ℕ) (name : Text) (names : List Text) (q : ℕ) (n : Netcf (LinuxDriver A V))
      → selected flags n.world name ≡ true
      → qualify L contents k flags false (some name) names q n ≡ some (counted names (q + 1), n)
  unfolding qualify take_name selected
  qualify_count flags name names q n up = rw up refl

  qualify_pass :
      (flags : ℕ) (has_names : Bool) (name : Text) (names : List Text) (q : ℕ)
      (n : Netcf (LinuxDriver A V))
      → selected flags n.world name ≡ false
      → qualify L contents k flags has_names (some name) names q n ≡ some (counted names q, n)
  unfolding qualify selected
  qualify_pass flags has_names name names q n down = rw down refl

  -- A caller's array that is filled by these names.
  abbrev pub filled_by :
      List Text → Netcf (LinuxDriver A V) → Option (Round × Netcf (LinuxDriver A V))
  filled_by names n = some (counted names (length names), n)

  pub loop_fills :
      (flags max : ℕ) (intf filled : List Text) (n : Netcf (LinuxDriver A V))
      → HasMemory n
      → length filled ≤ max
      → list_loop L contents k flags max true intf filled (length filled) n
        ≡ filled_by (filled ++ take (max - length filled) (keep (selected flags n.world) intf)) n
  unfolding list_loop
  loop_fills flags max [] filled n m h =
      ap (λ (l : List Text). filled_by l n) (sym (take_empty (max - length filled) filled))
  loop_fills flags max (name ∷ intf) filled n m h = elim (Bool-cases (ltb (length filled) max)) [
    | inr full ↦
        rw (full, list_loop)
          (ap (λ (l : List Text). filled_by l n) (sym (take_none max filled _ (ground arith))))
    | inl room ↦ elim (Bool-cases (selected flags n.world name)) [
      | inr down ↦
          rw (room, qualify_pass flags true name filled (length filled) n down, list_loop)
            (rw down (loop_fills flags max intf filled n m h))
      | inl up ↦
          let longer : length (filled ++ (name ∷ [])) ≡ length filled + 1 =
            omega (arith, length-append filled (name ∷ [])) in
          let fits : length filled < max = ltb→lt _ _ room in
          rw (room, qualify_store flags name filled (length filled) n m up, list_loop)
            (rw (up, take_next max name filled (keep (selected flags n.world) intf) fits, ← longer)
              (loop_fills flags max intf (filled ++ (name ∷ [])) n m (omega (arith, longer, fits))))
    ]
  ]

  loop_counts :
      (flags max : ℕ) (intf : List Text) (q : ℕ) (n : Netcf (LinuxDriver A V))
      → q + length intf ≤ max
      → list_loop L contents k flags max false intf [] q n
        ≡ some (counted [] (q + length (keep (selected flags n.world) intf)), n)
  unfolding list_loop
  loop_counts flags max [] q n h = ap (λ (j : ℕ). some (counted [] j, n)) (omega arith)
  loop_counts flags max (name ∷ intf) q n h =
      let room : ltb q max ≡ true = lt→ltb q max (omega (arith, h)) in
      elim (Bool-cases (selected flags n.world name)) [
        | inr down ↦
            rw (room, qualify_pass flags false name [] q n down, list_loop)
              (rw down (loop_counts flags max intf q n (omega (arith, h))))
        | inl up ↦
            let next : (q + 1) + length (keep (selected flags n.world) intf)
                ≡ q + suc (length (keep (selected flags n.world) intf)) =
              omega arith in
            rw (room, qualify_count flags name [] q n up, list_loop)
              (rw (up, ← next) (loop_counts flags max intf (q + 1) n (omega (arith, h))))
      ]

  -- Whether the file has an entry for an interface that is no slave.
  abbrev pub is_listed : A → Text → Bool
  is_listed aug name =
      has name (
        values L contents aug (nodes_at L contents aug (network_interfaces_path ++ codes "/iface")))
      && not (has name (slaves_in L contents aug))

  list_ids_fill :
      (max flags : ℕ) (n : Netcf (LinuxDriver A V)) (l : List Text)
      → HasMemory n
      → n.errcode ≡ noerror
      → list_interfaces L contents n ≡ some (some l, n)
      → list_interface_ids L contents k max true flags n
        ≡ filled_by (take max (keep (selected flags n.world) l)) n
  unfolding list_interface_ids follow
  list_ids_fill max flags n l memory clean lists =
      rw (not_failed L contents n clean, lists)
        (rw (not_failed L contents n clean) (
          loop_fills flags max l [] n memory (omega arith)
          ∙ ap (λ (j : ℕ). filled_by (take j (keep (selected flags n.world) l)) n) (omega arith)))

  list_ids_count :
      (flags : ℕ) (n : Netcf (LinuxDriver A V)) (l : List Text)
      → n.errcode ≡ noerror
      → list_interfaces L contents n ≡ some (some l, n)
      → list_interface_ids L contents k 0 false flags n
        ≡ some (counted [] (length (keep (selected flags n.world) l)), n)
  unfolding list_interface_ids follow
  list_ids_count flags n l clean lists =
      rw (not_failed L contents n clean, lists)
        (rw (not_failed L contents n clean) (
          loop_counts flags (length l) l 0 n (omega arith)
          ∙ ap (λ (j : ℕ). some (counted [] j, n)) (omega arith)))

  -- On a handle that holds the loaded tree, has no error and does not run out of memory, if libaugeas finds the nodes of the interfaces,
  -- ports and slaves and each has a value, drv_list_interfaces fills the caller's array with the first `maxnames` of the interfaces
  -- that the flags ask for, in the order of strcmp, each once, of those with an entry that are no slaves, and leaves the handle as it is.
  pub drv_list_interfaces_settled :
      (aug : A) (maxnames flags : ℕ) (n : Netcf (LinuxDriver A V))
      → IsCalm aug n
      → HasAnswers L contents aug
      → (l : List Text) × (drv_list_interfaces L contents k maxnames flags n
          ≡ filled_by (take maxnames (keep (selected flags n.world) l)) n)
        × IsSorted l
        × IsDistinct l
        × ((name : Text) → has name l ≡ is_listed aug name)
  unfolding drv_list_interfaces
  drv_list_interfaces_settled aug maxnames flags n calm answers =
      let (l, lists, sorted, distinct, members) =
        list_interfaces_calm L contents aug n calm answers in
      (l, list_ids_fill maxnames flags n l calm.memory calm.clean lists, sorted, distinct, members)

  keep-selected : (w : LinuxDriver A V) (l : List Text) → keep (selected 3 w) l ≡ l
  unfolding selected
  keep-selected w [] = refl
  keep-selected w (name ∷ l) = ap (λ (names : List Text). name ∷ names) (keep-selected w l)

  take_all : (l : List Text) → take (length l) l ≡ l
  take_all [] = refl
  take_all (name ∷ l) = ap (λ (names : List Text). name ∷ names) (take_all l)

  make_named_calm :
      (name : Text) (n : Netcf (LinuxDriver A V))
      → HasMemory n
      → n.errcode ≡ noerror
      → make_named L contents name n
        ≡ (some (record { count = 1; name = name; mac = none }), record n { count = ref n.count })
  unfolding make_named bail_out make_netcf_if
  make_named_calm name n memory clean =
      ground (arith, allocate_ok n memory, not_failed L contents n clean)

  -- On such a handle drv_lookup_by_name gives a new interface, with a reference to the handle, for a name that has an entry and is no
  -- slave, and ENOENT for every other.
  pub drv_lookup_by_name_lem :
      (aug : A) (name : Text) (n : Netcf (LinuxDriver A V))
      → IsCalm aug n
      → HasAnswers L contents aug
      → drv_lookup_by_name L contents k name n
        ≡ some (
            if is_listed aug name
            then (
              some (record { count = 1; name = name; mac = none }),
              record n { count = ref n.count },
            )
            else (none, set_errcode enoent n))
  unfolding drv_lookup_by_name make_listed follow
  drv_lookup_by_name_lem aug name n calm answers =
      let (l, lists, sorted, distinct, members) =
        list_interfaces_calm L contents aug n calm answers in
      let fine = not_failed L contents n calm.clean in
      let number : list_interface_ids L contents k 0 false 3 n ≡ some (counted [] (length l), n) =
        list_ids_count 3 n l calm.clean lists ∙ rw (keep-selected n.world l) refl in
      let all : list_interface_ids L contents k (length l) true 3 n ≡ filled_by l n =
        list_ids_fill (length l) 3 n l calm.memory calm.clean lists
        ∙ rw (keep-selected n.world l, take_all l) refl in
      rw (number, fine, allocate_ok n calm.memory)
        (rw (all, fine, members name, make_named_calm name n calm.memory calm.clean) refl)
