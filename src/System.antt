-- ===== src/System.antt =====
-- What the backends share of the system: a kernel as a parameter, if_is_active of src/dutil_linux.c, run1 of
-- src/dutil_posix.c, and the body of the drv_change_* functions.
pub mod Counts
use fbsd_netcf.Prelude.{
  ℕ, Bool, false, not, List, [], ◌∷◌, Option, none, some, Text, codes, take, ◌==◌, if◌then◌else◌, ℤ,
  pos, negsuc,
}
use Prim.Native.Nat.{bit_and, bit_or}
use fbsd_netcf.Netcf.{
  eother, Netcf, NetcfIf, report_error, allocate, failed, release, left, gone, asserted,
}
use fbsd_netcf.Posix.{Exit, Process, run_program, SocketCalls}

-- The link-level address types that the code tells apart.
pub data LinkType : Type 0 where
  ift_ether ift_l2vlan ift_bridge ift_other : LinkType

-- An entry of getifaddrs: its name, whether its address is of AF_LINK, whether IFF_CANTCONFIG is
-- set, and, read as a sockaddr_dl, the type, the length of the address and ether_ntoa of it.
pub record IfAddr : Type 0 where
  pub name : Text
  pub is_link : Bool
  pub cant_config : Bool
  pub sdl_type : LinkType
  pub sdl_alen : ℕ
  pub ether : Text

-- The kernel. `get_flags` is SIOCGIFFLAGS: the low and the high 16 bits of the flags of an interface,
-- or `none` where the ioctl fails. `set_flags` is SIOCSIFFLAGS, `none` where it fails.
pub record Kernel (W : Type 0) : Type 0 where
  pub get_flags : W → Text → Option (ℕ × ℕ)
  pub set_flags : W → Text → ℕ → ℕ → Option W
  pub getifaddrs : W → List IfAddr
  pub spawn : W → List Text → Process × W
  pub socket_calls : W → SocketCalls

-- The name field of an ifreq holds 16 bytes with its NUL: strlcpy, and strncpy with a NUL behind it.
unfoldable pub ifr_name : Text → Text
ifr_name name = take 15 name

abbrev pub iff_up : ℕ
iff_up = 0x1

abbrev pub iff_running : ℕ
iff_running = 0x40

-- NETCF_IFACE_INACTIVE and NETCF_IFACE_ACTIVE
abbrev pub iface_inactive : ℕ
iface_inactive = 1

abbrev pub iface_active : ℕ
iface_active = 2

module _ {W : Type 0} where
  -- ERR_BAIL behind make_netcf_if. If the handle has an error already, the new interface is given
  -- back, and its name is then freed a second time, which C leaves undefined.
  unfoldable pub bail_out : Option NetcfIf × Netcf W → Option NetcfIf × Netcf W
  bail_out (none, n) = (none, n)
  bail_out (some nif, n) =
      let n' : Netcf W = elim (release n) [ left released ↦ released | gone ↦ n | asserted ↦ n ] in
      if failed n then (none, n') else (some nif, n)

module _ {W : Type 0} (k : Kernel W) where
  open k use {get_flags, spawn}

  -- if_is_active
  unfoldable pub if_is_active : Text → W → Bool
  if_is_active intf w = elim (get_flags w (ifr_name intf)) [
    | none ↦ false
    | some (lo, hi) ↦ bit_and lo (bit_or iff_up iff_running) == bit_or iff_up iff_running
  ]

  -- run_program for these words. No program is run if argv_to_string gets no memory.
  unfoldable pub run_words : Exit → List Text → Netcf W → Netcf W
  run_words stale argv n =
      let (p, w) = spawn n.world argv in
      (run_program stale p (if (allocate n).0 then record n { world = w } else n)).1

  -- run1 of src/dutil_posix.c
  unfoldable pub run1 : Exit → Text → Text → Netcf W → Netcf W
  unfolding run_words
  run1 stale prog arg = run_words stale (prog ∷ arg ∷ [])

  -- The body that the functions for a change share in each backend, with the program and its argument.
  unfoldable pub change : Exit → Text → Text → ℕ → Netcf W → ℤ × Netcf W
  unfolding run1
  change stale prog arg flags n =
      if not (flags == 0)
      then (negsuc 0, report_error eother (some (codes "unsupported flags value %d")) n)
      else let n' = run1 stale prog arg n in (if failed n' then negsuc 0 else pos 0, n')
