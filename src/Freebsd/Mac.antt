-- ===== src/Freebsd/Mac.antt =====
-- Looking an interface up by its MAC address: drv_mac_string and drv_lookup_by_mac_string of src/drv_freebsd.c.
use fbsd_netcf.Prelude.{
  ℕ, ltb, Bool, false, ◌&&◌, List, [], ◌∷◌, Option, none, some, Text, length, keep, if◌then◌else◌,
  streq,
}
use fbsd_netcf.Netcf.{Netcf, NetcfIf}
use fbsd_netcf.Freebsd.{probe_interface, has_mac}
use fbsd_netcf.System.{Kernel, IfAddr}

module _ {W : Type 0} (k : Kernel W) where
  -- The MAC of the last address that has one for the name, or the one to start with.
  last_mac : Text → List IfAddr → Option Text → Option Text
  last_mac name [] mac = mac
  last_mac name (a ∷ as') mac = last_mac name as' (if has_mac k name a then some a.ether else mac)

  -- Whether the kernel gives this MAC for an interface.
  abbrev is_this_mac : Text → Option Text → Bool
  is_this_mac mac none = false
  is_this_mac mac (some m) = streq m mac

  unfoldable pub mac_of : W → Text → Option Text
  unfolding last_mac
  mac_of w name = last_mac name (k.getifaddrs w) none

  -- What a round makes of the MAC.
  chosen : Text → Text → Option Text → Option NetcfIf
  chosen mac name m =
      if is_this_mac mac m then some (record { count = 1; name = name; mac = m }) else none

  -- The interfaces that the loop should give: those that the kernel knows, with this MAC.
  unfoldable pub with_mac : Text → W → List Text → List NetcfIf
  unfolding chosen
  with_mac mac w [] = []
  with_mac mac w (name ∷ names) =
      let rest = with_mac mac w names in
      if probe_interface k name w && is_this_mac mac (mac_of w name)
      then record { count = 1; name = name; mac = mac_of w name } ∷ rest
      else rest

  -- The interfaces that the kernel knows.
  pub known_names : W → List Text → List Text
  known_names w = keep (λ name. probe_interface k name w)

  -- What an array of that many slots makes of the interfaces: it has them, or they go behind its end.
  unfoldable pub within : ℕ → List NetcfIf → Netcf W → Option (List NetcfIf × Netcf W)
  within maxifaces ifaces n = if ltb maxifaces (length ifaces) then none else some (ifaces, n)
