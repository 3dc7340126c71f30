-- ===== src/Mswindows/Tests.antt =====
-- The theorems on src/drv_mswindows.c for a host with two adapters.
use fbsd_netcf.Prelude.{
  ℕ, ◌-◌, ◌+◌, ◌/◌, ◌%◌, ◌≡◌, refl, true, false, List, [], ◌∷◌, some, none, Text, codes, ltb,
  if◌then◌else◌, pos, streq,
}
use fbsd_netcf.Netcf.{Netcf, NetcfIf, noerror}
use fbsd_netcf.Mswindows.{Adapter, WindowsApi, drv_lookup_by_name}
use fbsd_netcf.Mswindows.Mac.{drv_mac_string, address_of, colon_separated, drv_mac_string_twice}
use fbsd_netcf.Mswindows.Names.{new_if, ConvertsAll, drv_lookup_by_name_any}

abbrev hex_digit : ℕ → ℕ
hex_digit d = if ltb d 10 then b'0' + d else b'A' + (d - 10)

abbrev hex : ℕ → Text
hex b = hex_digit (b / 16) ∷ hex_digit (b % 16) ∷ []

abbrev lan : Adapter
lan = record { friendly_name = some (codes "LAN"); physical_address = 0 ∷ 27 ∷ 255 ∷ [] }

abbrev loopback : Adapter
loopback = record { friendly_name = some (codes "Loopback"); physical_address = [] }

abbrev adapters : List Adapter
adapters = loopback ∷ lan ∷ []

abbrev api : WindowsApi Unit
api = record {
  adapters = λ w. some adapters;
  null_converts = λ w. false;
  windir = λ w. some (codes "C:\\WINDOWS");
  spawnl = λ w argv. (pos 0, w);
}

abbrev handle : Netcf Unit
handle = record {
  count = 1;
  root = codes "/";
  data_dir = codes "/usr";
  rng = true;
  errcode = noerror;
  errdetails = none;
  driver = true;
  debug = false;
  allocs = [];
  world = tt;
}

abbrev lan_if : NetcfIf
lan_if = record { count = 1; name = codes "LAN"; mac = none }

drv_mac_string_twice_example :
    drv_mac_string hex api lan_if handle
    ≡ some (
      (
        some (codes "00:00:1B:FF"),
        record { count = 1; name = codes "LAN"; mac = some (codes "00:00:1B:FF") },
      ),
      handle,
    )
unfolding streq address_of colon_separated
drv_mac_string_twice_example =
    drv_mac_string_twice hex api adapters 0 (27 ∷ 255 ∷ []) lan_if handle refl refl refl refl

drv_lookup_by_name_any_example :
    drv_lookup_by_name api (codes "no such name") handle
    ≡ some (new_if (codes "no such name") handle)
unfolding ConvertsAll
drv_lookup_by_name_any_example =
    drv_lookup_by_name_any api (codes "no such name") adapters handle refl refl refl
      ((codes "Loopback", refl), ((codes "LAN", refl), tt))
