-- ===== src/Freebsd/Listing.antt =====
-- Listing interfaces and looking them up by MAC address, in src/drv_freebsd.c.
use fbsd_netcf.Prelude.{
  ℕ, ◌+◌, ◌-◌, ◌≤◌, ◌<◌, ◌≡◌, refl, ap, List, [], ◌∷◌, ◌++◌, Option, none, some, Text, pos, arith,
  keep, take, length, true, false, ltb, lt→ltb, ltb→lt, sym, Bool-cases, inl, inr, length-append,
  subst, take_none, take_empty, take_next,
}
use fbsd_netcf.Netcf.{Netcf, failed}
use fbsd_netcf.Freebsd.{
  Names, Listed, listed, overflow, store_name, add_name, is_qualified, visit, list_loop,
  list_interfaces, list_interface_ids, pass, drv_list_interfaces, drv_num_of_interfaces,
}
use fbsd_netcf.System.{Kernel}
use fbsd_netcf.Netcf.Memory.{HasMemory, allocate_ok}

module _ {W : Type 0} (k : Kernel W) where
  -- The names that list_interfaces finds.
  unfoldable pub found : W → List Text
  found w = (pass k (k.getifaddrs w)).1

  store_ok :
      (name : Text) (names : Names) (q : ℕ) (n : Netcf W)
      → HasMemory n
      → q < names.capacity
      → store_name k name names q n
        ≡ (listed (some (record names { filled = names.filled ++ (name ∷ []) })) (q + 1), n)
  unfolding store_name
  store_ok name names q n m room =
      rw (allocate_ok n m, lt→ltb q names.capacity room, store_name) refl

  visit_store :
      (flags : ℕ) (name : Text) (names : Names) (q : ℕ) (n : Netcf W)
      → HasMemory n
      → q < names.capacity
      → is_qualified k flags name n.world ≡ true
      → visit k flags name (some names) q n
        ≡ (listed (some (record names { filled = names.filled ++ (name ∷ []) })) (q + 1), n)
  unfolding visit
  visit_store flags name names q n m room up = rw (up, visit) (store_ok name names q n m room)

  visit_pass :
      (flags : ℕ) (name : Text) (names : Option Names) (q : ℕ) (n : Netcf W)
      → is_qualified k flags name n.world ≡ false
      → visit k flags name names q n ≡ (listed names q, n)
  unfolding visit
  visit_pass flags name names q n down = rw (down, visit) refl

  -- An array of `max` slots whose first are filled by these names, all counted.
  abbrev pub holding : ℕ → List Text → Listed
  holding max names = listed (some (record { capacity = max; filled = names })) (length names)

  -- The names that pass the test on the flags, in order.
  unfoldable pub qualified : ℕ → W → List Text → List Text
  qualified flags w = keep (λ name. is_qualified k flags name w)

  -- The loop fills the array with the first names that are qualified, as many as there is room for.
  loop_fills :
      (flags max : ℕ) (intf filled : List Text) (n : Netcf W)
      → HasMemory n
      → length filled ≤ max
      → list_loop k flags max intf
          (some (record { capacity = max; filled = filled }))
          (length filled)
          n
        ≡ (holding max (filled ++ take (max - length filled) (qualified flags n.world intf)), n)
  unfolding list_loop qualified
  loop_fills flags max [] filled n m h =
      ap (λ (l : List Text). (holding max l, n)) (sym (take_empty (max - length filled) filled))
  loop_fills flags max (name ∷ intf) filled n m h = elim (Bool-cases (ltb (length filled) max)) [
    | inr full ↦
        rw (full, list_loop)
          (ap (λ (l : List Text). (holding max l, n)) (sym (take_none max filled _ (ground arith))))
    | inl room ↦ elim (Bool-cases (is_qualified k flags name n.world)) [
      | inr down ↦
          rw
            (
              room,
              visit_pass flags name (some (record { capacity = max; filled = filled }))
                  (length filled) n down,
              list_loop,
            )
            (rw
              (visit_pass flags name (some (record { capacity = max; filled = filled }))
                (length filled) n down)
              (rw down (loop_fills flags max intf filled n m h)))
      | inl up ↦
          let longer : length (filled ++ (name ∷ [])) ≡ length filled + 1 =
            omega (arith, length-append filled (name ∷ [])) in
          let fits : length filled < max = ltb→lt _ _ room in
          rw
            (
              room,
              visit_store flags name (record { capacity = max; filled = filled }) (length filled) n
                  m fits up,
              list_loop,
            )
            (rw
              (visit_store flags name (record { capacity = max; filled = filled }) (length filled) n
                m fits up)
              (rw (up, take_next max name filled (qualified flags n.world intf) fits, ← longer)
                (loop_fills flags max intf (filled ++ (name ∷ [])) n m
                  (omega (arith, longer, fits)))))
    ]
  ]

  pub list_ok :
      (n : Netcf W)
      → HasMemory n
      → list_interfaces k n ≡ ((pos (pass k (k.getifaddrs n.world)).0, found n.world), n)
  unfolding list_interfaces found
  list_ok n m = rw (allocate_ok n m, list_interfaces) refl

  -- drv_list_interfaces without an error before it and with memory: the array has the first `maxnames` of the
  -- interfaces that the flags select, the result is their number, and the handle is unchanged.
  pub drv_list_interfaces_lem :
      (maxnames flags : ℕ) (n : Netcf W)
      → HasMemory n
      → failed n ≡ false
      → drv_list_interfaces k maxnames flags n
        ≡ (holding maxnames (take maxnames (qualified flags n.world (found n.world))), n)
  unfolding drv_list_interfaces list_interface_ids
  drv_list_interfaces_lem maxnames flags n m clean =
      let all : maxnames - 0 ≡ maxnames = omega arith in
      let names : List Text = qualified flags n.world (found n.world) in
      rw (list_ok n m, clean, list_interface_ids)
        (subst
          (λ j.
            list_loop k flags maxnames (found n.world)
              (some (record { capacity = maxnames; filled = [] })) 0 n
            ≡ (holding maxnames (take j names), n))
          all (loop_fills flags maxnames (found n.world) [] n m (omega arith)))

  visit_overflow :
      (flags : ℕ) (name : Text) (names : Names) (q : ℕ) (n : Netcf W)
      → HasMemory n
      → ltb q names.capacity ≡ false
      → is_qualified k flags name n.world ≡ true
      → visit k flags name (some names) q n ≡ (overflow, n)
  unfolding visit add_name store_name
  visit_overflow flags name names q n m full up =
      rw (up, visit) (rw (allocate_ok n m, full, store_name) refl)

  visit_first :
      (flags : ℕ) (name : Text) (n : Netcf W)
      → HasMemory n
      → is_qualified k flags name n.world ≡ true
      → visit k flags name none 0 n ≡ (holding 1 (name ∷ []), n)
  unfolding visit add_name
  visit_first flags name n m up =
      rw (up, visit)
        (rw (allocate_ok n m, add_name)
          (store_ok name (record { capacity = 1; filled = [] }) 0 n m (omega arith)))

  -- What an array of one slot makes of the names that are to be stored in it after the first one.
  unfoldable after_first : Text → List Text → Listed
  after_first name [] = holding 1 (name ∷ [])
  after_first name (_ ∷ _) = overflow

  unfoldable pub one_slot : List Text → Listed
  unfolding after_first
  one_slot [] = listed none 0
  one_slot (name ∷ names) = after_first name names

  loop_after_first :
      (flags max : ℕ) (intf : List Text) (name : Text) (n : Netcf W)
      → HasMemory n
      → length intf + 1 ≤ max
      → list_loop k flags max intf (some (record { capacity = 1; filled = name ∷ [] })) 1 n
        ≡ (after_first name (qualified flags n.world intf), n)
  unfolding list_loop qualified after_first
  loop_after_first flags max [] name n m h = refl
  loop_after_first flags max (other ∷ intf) name n m h =
      let names : Names = record { capacity = 1; filled = name ∷ [] } in
      let room : ltb 1 max ≡ true = lt→ltb 1 max (omega arith) in
      elim (Bool-cases (is_qualified k flags other n.world)) [
        | inr down ↦
            rw (room, visit_pass flags other (some names) 1 n down, list_loop)
              (rw (visit_pass flags other (some names) 1 n down)
                (rw down (loop_after_first flags max intf name n m (omega arith))))
        | inl up ↦
            rw (room, visit_overflow flags other names 1 n m refl up, list_loop)
              (rw (visit_overflow flags other names 1 n m refl up) (rw up refl))
      ]

  loop_one_slot :
      (flags max : ℕ) (intf : List Text) (n : Netcf W)
      → HasMemory n
      → length intf ≤ max
      → list_loop k flags max intf none 0 n ≡ (one_slot (qualified flags n.world intf), n)
  unfolding list_loop qualified one_slot
  loop_one_slot flags max [] n m h = refl
  loop_one_slot flags max (name ∷ intf) n m h =
      let room : ltb 0 max ≡ true = lt→ltb 0 max (omega arith) in
      elim (Bool-cases (is_qualified k flags name n.world)) [
        | inr down ↦
            rw (room, visit_pass flags name none 0 n down, list_loop)
              (rw (visit_pass flags name none 0 n down)
                (rw down (loop_one_slot flags max intf n m (omega arith))))
        | inl up ↦
            rw (room, visit_first flags name n m up, list_loop)
              (rw (visit_first flags name n m up)
                (rw up (loop_after_first flags max intf name n m (omega arith))))
      ]

  -- drv_num_of_interfaces without an error before it and with memory: if at most one interface is selected,
  -- the result is their number; with more of them, the code writes behind the array of one slot.
  pub drv_num_of_interfaces_lem :
      (flags : ℕ) (n : Netcf W)
      → HasMemory n
      → failed n ≡ false
      → drv_num_of_interfaces k flags n ≡ (one_slot (qualified flags n.world (found n.world)), n)
  unfolding drv_num_of_interfaces list_interface_ids
  drv_num_of_interfaces_lem flags n m clean =
      rw (list_ok n m, clean, list_interface_ids)
        (loop_one_slot flags (length (found n.world)) (found n.world) n m (omega arith))
