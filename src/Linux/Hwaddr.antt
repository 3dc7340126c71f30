-- ===== src/Linux/Hwaddr.antt =====
-- The MAC of an interface that the kernel knows: if_hwaddr of src/dutil_linux.c.
use fbsd_netcf.Prelude.{List, Option, none, some, Text, ℕ}
use fbsd_netcf.System.{ifr_name}
use fbsd_netcf.Linux.Kinds.{format_mac_addr}

-- if_hwaddr for a buffer with room for the text: the text, where it gives 0. The ioctl SIOCGIFHWADDR gives the six bytes.
unfoldable pub if_hwaddr : {W : Type 0} → (W → Text → Option (List ℕ)) → Text → W → Option Text
unfolding ifr_name
if_hwaddr get_hwaddr intf w = elim (get_hwaddr w (ifr_name intf)) [
  | none ↦ none
  | some bytes ↦ some (format_mac_addr bytes)
]
