-- ===== src/Freebsd.antt =====
-- src/drv_freebsd.c, the backend for FreeBSD, with if_is_active and free_matches of
-- src/dutil_linux.c. The kernel is a parameter: ioctls, getifaddrs and what the child processes do.
pub mod Flags
pub mod Listing
pub mod RcConf
pub mod Mac
pub mod Contract
mod Tests
use fbsd_netcf.Prelude.{
  ℕ, zero, suc, ◌+◌, ◌-◌, ◌*◌, ◌/◌, ◌%◌, ◌^◌, ◌≡◌, ◌≢◌, Bool, true, false, not, ◌&&◌, ◌||◌, List,
  [], ◌∷◌, ◌++◌, Option, none, some, Text, codes, length, take, ltb, ◌==◌, if◌then◌else◌, ℤ, pos,
  negsuc, streq, has_prefix, strstr,
}
use Prim.Native.Nat.{bit_and, bit_or}
use fbsd_netcf.Netcf.{
  ErrCode, enomem, eother, Netcf, NetcfIf, report_error, set_errcode, allocate, failed,
  make_netcf_if, release, left, gone, asserted,
}
use fbsd_netcf.System.{
  LinkType, ift_ether, ift_l2vlan, ift_bridge, ift_other, IfAddr, Kernel, ifr_name, iff_up,
  iff_running, iface_inactive, iface_active, if_is_active, run1, change, bail_out,
}
use fbsd_netcf.Posix.{Exit, Process, run_program, SocketCalls, init_ioctl_fd}

-- An array of names: `capacity` slots, of which the first are filled.
pub record Names : Type 0 where
  pub capacity : ℕ
  pub filled : List Text

-- How a part of list_interface_ids ends: with the array (`none` is NULL) and `nqualified`, at a failed
-- strdup, or with a write behind the end of the array.
pub data Listed : Type 0 where
  listed : Option Names → ℕ → Listed
  no_memory : Listed
  overflow : Listed

-- The change of the flag word in setifflags: `set` for a value that is not negative, `clear` for a
-- negative one, of which `value` is the amount.
pub data Change : Type 0 where
  set clear : ℕ → Change

pub change_flags : Change → ℕ → ℕ
change_flags (set value) flags = bit_or flags value
change_flags (clear value) flags = flags - bit_and flags value

-- The types of which drv_mac_string takes a MAC.
pub is_mac_type : LinkType → Bool
is_mac_type ift_other = false
is_mac_type _ = true

module _ {W : Type 0} (k : Kernel W) where
  open k use {get_flags, set_flags, getifaddrs, spawn, socket_calls}

  -- probe_interface, as the test of its result against 0.
  pub probe_interface : Text → W → Bool
  probe_interface name w = elim (get_flags w (ifr_name name)) [ none ↦ false | some _ ↦ true ]

  -- setifflags
  pub setifflags : Text → Change → W → ℤ × W
  unfolding change_flags
  setifflags vname change w = elim (get_flags w (ifr_name vname)) [
    | none ↦ (negsuc 0, w)
    | some (lo, hi) ↦
        let flags : ℕ = change_flags change (lo % 2 ^ 16 + hi * 2 ^ 16) in
        elim (set_flags w (ifr_name vname) (flags % 2 ^ 16) (flags / 2 ^ 16)) [
          | none ↦ (negsuc 0, w)
          | some w' ↦ (pos 0, w')
        ]
  ]

  -- An operation of the kernel on the world of a handle.
  on_world : {A : Type 0} → (W → A × W) → Netcf W → A × Netcf W
  on_world f n = let (a, w) = f n.world in (a, record n { world = w })

  pub drv_if_up : NetcfIf → Netcf W → ℤ × Netcf W
  unfolding on_world
  drv_if_up nif = on_world (setifflags nif.name (set iff_up))

  pub drv_if_down : NetcfIf → Netcf W → ℤ × Netcf W
  unfolding on_world
  drv_if_down nif = on_world (setifflags nif.name (clear iff_up))

  -- drv_init: the allocation of the driver, and the socket.
  pub drv_init : Netcf W → ℤ × Netcf W
  drv_init n =
      let (ok, n₁) = allocate n in
      let n₂ : Netcf W = record n₁ { driver = true } in
      let (fd, n₃) = init_ioctl_fd (socket_calls n₂.world) n₂ in
      let r : ℤ = elim fd [ pos _ ↦ pos 0 | negsuc _ ↦ negsuc 0 ] in
      if ok then (r, n₃) else (negsuc 0, n₁)

  pub drv_close : Netcf W → Netcf W
  drv_close n = record n { driver = false }

  -- drv_entry does nothing.
  pub drv_entry : Netcf W → Netcf W
  drv_entry n = n

  -- The test in both passes of list_interfaces.
  pub is_listed : IfAddr → Bool
  is_listed a = a.is_link && not a.cant_config

  -- One pass over the addresses: the number of interfaces, which sizes the array in the first pass,
  -- and the names that the second stores.
  pub pass : List IfAddr → ℕ × List Text
  unfolding is_listed
  pass [] = (0, [])
  pass (a ∷ as') =
      let (nint, intf) = pass as' in if is_listed a then (nint + 1, a.name ∷ intf) else (nint, intf)

  -- list_interfaces: -1 if the array cannot be allocated. calloc of no bytes is taken to succeed, and
  -- so is strndup, whose result the code does not test.
  pub list_interfaces : Netcf W → (ℤ × List Text) × Netcf W
  unfolding pass
  list_interfaces n =
      let (nint, intf) = pass (getifaddrs n.world) in
      let (ok, n') = allocate n in
      if ok then ((pos nint, intf), n') else ((negsuc 0, []), set_errcode enomem n')

  -- The test on the flags and the activity of an interface.
  pub is_qualified : ℕ → Text → W → Bool
  unfolding if_is_active
  is_qualified flags name w =
      bit_and flags 3 == 3
      || (if if_is_active k name w
          then not (bit_and flags iface_active == 0)
          else not (bit_and flags iface_inactive == 0))

  -- names[nqualified] = strdup(name); nqualified++;
  pub store_name : Text → Names → ℕ → Netcf W → Listed × Netcf W
  store_name name names nqualified n =
      let (ok, n') = allocate n in
      if not (ltb nqualified names.capacity)
      then (overflow, n')
      else if ok
      then (
        listed (some (record names { filled = names.filled ++ (name ∷ []) })) (nqualified + 1),
        n',
      )
      else (no_memory, set_errcode enomem n')

  -- What is done for an interface that is qualified. If there is no array, one slot is allocated.
  pub add_name : Text → Option Names → ℕ → Netcf W → Listed × Netcf W
  unfolding store_name
  add_name name (some names) nqualified n = store_name name names nqualified n
  add_name name none nqualified n =
      let (ok, n') = allocate n in
      if ok
      then store_name name (record { capacity = 1; filled = [] }) nqualified n'
      else (listed none (nqualified + 1), n')

  -- The body of the loop of list_interface_ids.
  pub visit : ℕ → Text → Option Names → ℕ → Netcf W → Listed × Netcf W
  unfolding add_name
  visit flags name names nqualified n =
      if is_qualified flags name n.world
      then add_name name names nqualified n
      else (listed names nqualified, n)

  -- The loop over the names that are left.
  pub list_loop : ℕ → ℕ → List Text → Option Names → ℕ → Netcf W → Listed × Netcf W
  list_loop flags maxnames [] names nqualified n = (listed names nqualified, n)
  list_loop flags maxnames (name ∷ intf) names nqualified n =
      let (r, n') = visit flags name names nqualified n in
      let rest : Listed × Netcf W = elim r [
        | listed names' nqualified' ↦ list_loop flags maxnames intf names' nqualified' n'
        | no_memory ↦ (no_memory, n')
        | overflow ↦ (overflow, n')
      ] in
      if ltb nqualified maxnames then rest else (listed names nqualified, n)

  -- list_interface_ids with the caller's array of `maxnames` slots, or with none.
  pub list_interface_ids : ℕ → Option Names → ℕ → Netcf W → Listed × Netcf W
  list_interface_ids maxnames names flags n =
      let ((nint, intf), n') = list_interfaces n in
      if failed n'
      then (no_memory, n')
      else list_loop flags (elim names [ none ↦ length intf | some _ ↦ maxnames ]) intf names 0 n'

  pub drv_list_interfaces : ℕ → ℕ → Netcf W → Listed × Netcf W
  drv_list_interfaces maxnames flags =
      list_interface_ids maxnames (some (record { capacity = maxnames; filled = [] })) flags

  pub drv_num_of_interfaces : ℕ → Netcf W → Listed × Netcf W
  drv_num_of_interfaces flags = list_interface_ids 0 none flags

  pub drv_lookup_by_name : Text → Netcf W → Option NetcfIf × Netcf W
  unfolding bail_out
  drv_lookup_by_name name n =
      if probe_interface name n.world
      then (let (ok, n') = allocate n in
          if ok then bail_out (make_netcf_if name n') else (none, set_errcode enomem n'))
      else (none, n)

  -- Whether an address is one that drv_mac_string takes the MAC from: the name of the address is
  -- compared over its own length only.
  pub has_mac : Text → IfAddr → Bool
  has_mac name a =
      has_prefix a.name name && (ltb 0 a.sdl_alen && (is_mac_type a.sdl_type && a.sdl_alen == 6))

  -- The loop of drv_mac_string, with the MAC that it starts with.
  pub mac_from : Text → List IfAddr → Option Text → Netcf W → Option Text × Netcf W
  mac_from name [] mac n = (mac, n)
  mac_from name (a ∷ as') mac n =
      let (ok, n') = allocate n in
      let next : Option Text × Netcf W =
        if has_mac name a then (if ok then some a.ether else none, n') else (mac, n) in
      mac_from name as' next.0 next.1

  pub drv_mac_string : NetcfIf → Netcf W → (Option Text × NetcfIf) × Netcf W
  drv_mac_string nif n =
      let (mac, n') = mac_from nif.name (getifaddrs n.world) nif.mac n in
      ((mac, record nif { mac = mac }), n')

  -- The body of the loop in drv_lookup_by_mac_string, behind drv_mac_string: the interface, if it is stored.
  -- One that is not stored is given to free, or to nothing, and its reference to the handle stays.
  pub compare_mac : Text → (Option Text × NetcfIf) × Netcf W → Option NetcfIf × Netcf W
  compare_mac mac ((none, nif), n) = (none, n)
  compare_mac mac ((some curr_iface_mac, nif), n) =
      (if streq curr_iface_mac mac then some nif else none, n)

  -- The body behind drv_lookup_by_name.
  pub probe_found : Text → Option NetcfIf × Netcf W → Option NetcfIf × Netcf W
  probe_found mac (none, n) = (none, n)
  probe_found mac (some temp, n) = compare_mac mac (drv_mac_string temp n)

  pub probe_mac : Text → Text → Netcf W → Option NetcfIf × Netcf W
  unfolding probe_found compare_mac
  probe_mac mac name n = probe_found mac (drv_lookup_by_name name n)

  -- The assignment to the next slot of `ifaces`, of which that many are filled, in an array of `maxifaces`
  -- slots; `none` where the slot is behind the end of the array, which the code does not test.
  pub store_iface : ℕ → Option NetcfIf → List NetcfIf → Option (List NetcfIf)
  store_iface maxifaces none ifaces = some ifaces
  store_iface maxifaces (some nif) ifaces =
      if ltb (length ifaces) maxifaces then some (ifaces ++ (nif ∷ [])) else none

  -- The loop, with the slots filled so far.
  pub mac_loop : ℕ → Text → List Text → List NetcfIf → Netcf W → Option (List NetcfIf × Netcf W)
  mac_loop maxifaces mac [] ifaces n = some (ifaces, n)
  mac_loop maxifaces mac (name ∷ intf_ids) ifaces n =
      let (temp, n') = probe_mac mac name n in
      elim (store_iface maxifaces temp ifaces) [
        | none ↦ none
        | some ifaces' ↦ mac_loop maxifaces mac intf_ids ifaces' n'
      ]

  -- drv_lookup_by_mac_string, for an array of `maxifaces` slots: what it stores in it, from the first slot
  -- on; it returns their number. If list_interfaces gives -1 the loop has no round.
  pub drv_lookup_by_mac_string : ℕ → Text → Netcf W → Option (List NetcfIf × Netcf W)
  drv_lookup_by_mac_string maxifaces mac n =
      let ((result, intf_ids), n') = list_interfaces n in mac_loop maxifaces mac intf_ids [] n'

  -- drv_if_status: the result and, if the caller gave a pointer, the flags.
  pub drv_if_status : NetcfIf → Bool → Netcf W → (ℤ × Option ℕ) × Netcf W
  drv_if_status nif has_flags n =
      if has_flags
      then (
        (pos 0, some (if if_is_active k nif.name n.world then iface_active else iface_inactive)),
        n,
      )
      else (
        (negsuc 0, none),
        report_error eother (some (codes "NULL pointer for flags in ncf_if_status")) n,
      )

  pub drv_change_begin : Exit → ℕ → Netcf W → ℤ × Netcf W
  unfolding change
  drv_change_begin stale = change k stale (codes "/usr/bin/false") (codes "change-begin")

  pub drv_change_rollback : Exit → ℕ → Netcf W → ℤ × Netcf W
  unfolding change
  drv_change_rollback stale = change k stale (codes "/usr/bin/false") (codes "change-rollback")

  pub drv_change_commit : Exit → ℕ → Netcf W → ℤ × Netcf W
  unfolding change
  drv_change_commit stale = change k stale (codes "/usr/bin/false") (codes "change-commit")
