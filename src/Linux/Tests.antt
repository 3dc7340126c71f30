-- ===== src/Linux/Tests.antt =====
-- The theorems on src/dutil_linux.c at a small tree.
use fbsd_netcf.Prelude.{
  ℕ, ◌≡◌, refl, ◌⊎◌, inl, inr, Bool, true, false, List, [], ◌∷◌, ◌++◌, Option, none, some, Text,
  codes, map, length, pos, negsuc,
}
use fbsd_netcf.Netcf.{Netcf, noerror, is_noerror}
use fbsd_netcf.Linux.{
  AugeasPv, LinuxDriver, get_augeas, set_table, add_augeas_xfm_table, remove_augeas_xfm_table,
}
use fbsd_netcf.Linux.Tables.{
  live, registered, tables_of, remove_augeas_xfm_table-add_augeas_xfm_table,
}
use fbsd_netcf.Linux.Instance.{Loads, get_augeas_lem}
use fbsd_netcf.Linux.Load.{entries, get_augeas_fresh}
use fbsd_netcf.Linux.Sysfs.{behind_last_slash, aug_match_mac, mac_nodes, aug_match_mac_lem}
use fbsd_netcf.Linux.Sample.{Nodes, sample_augeas, entries_of, new_handle}

abbrev eth0_address : Text
eth0_address = codes "/files/sys/class/net/eth0/address/content"

abbrev files : Nodes
files = (eth0_address, some (codes "0a:1b")) ∷ []

abbrev patterns : List (Text × List Text)
patterns =
    (
      codes "/files/sys/class/net/*[address/content = '0a:1b']",
      codes "/files/sys/class/net/eth0" ∷ codes "/files/sys/class/net/br0" ∷ [],
    )
    ∷ []

abbrev loaded_nodes : Nodes
loaded_nodes = files ++ ((codes "/augeas/load/Ifcfg/lens", some (codes "Sysconfig.lns")) ∷ [])

abbrev handle : Netcf (LinuxDriver Nodes Nodes)
handle = new_handle files

abbrev loaded_handle : Netcf (LinuxDriver Nodes Nodes)
loaded_handle = record handle {
  world = record handle.world {
    augeas = some loaded_nodes;
    load_augeas = false;
    copy_augeas_xfm = false;
  };
}

loads_files :
    get_augeas (sample_augeas patterns) entries_of handle ≡ (some loaded_nodes, loaded_handle)
unfolding get_augeas fbsd_netcf.Linux.ensure_augeas fbsd_netcf.Netcf.allocate
    fbsd_netcf.Linux.copy_tables fbsd_netcf.Linux.set_tables set_table fbsd_netcf.Linux.load_files
    fbsd_netcf.Prelude.streq
loads_files = refl

get_augeas_lem_example :
    Loads
      (sample_augeas patterns)
      entries_of
      (get_augeas (sample_augeas patterns) entries_of handle)
get_augeas_lem_example = get_augeas_lem (sample_augeas patterns) entries_of handle refl

get_augeas_fresh_example :
    (new set_up : Nodes) × (◌≡◌ {A = Option Nodes} (some []) (some new))
    × (set_table
          (sample_augeas patterns)
          entries_of
          new
          (entries (sample_augeas patterns) entries_of (live handle.world.augeas_xfm_tables))
        ≡ some set_up)
    × (loaded_nodes ≡ files ++ set_up)
get_augeas_fresh_example =
    get_augeas_fresh (sample_augeas patterns) entries_of handle {aug = loaded_nodes}
      {n' = loaded_handle} refl loads_files

remove_augeas_xfm_table-add_augeas_xfm_table_example :
    (n' : Netcf (LinuxDriver Nodes Nodes)) × (remove_augeas_xfm_table 7
        (add_augeas_xfm_table 7 handle).1
      ≡ some (pos 0, n'))
    × ((t : ℕ) → registered t (tables_of n') ≡ registered t (tables_of handle))
unfolding add_augeas_xfm_table
remove_augeas_xfm_table-add_augeas_xfm_table_example =
    remove_augeas_xfm_table-add_augeas_xfm_table 7 handle refl

aug_match_mac_lem_example :
    ((names : List Text) × ((aug_match_mac
          (sample_augeas patterns)
          entries_of
          (codes "0A:1b")
          handle).0
        ≡ (pos (length names), names))
      × ((aug_match_mac (sample_augeas patterns) entries_of (codes "0A:1b") handle).1.errcode
          ≡ noerror)
      × (map (λ name. some name) names
          ≡ map behind_last_slash
              (mac_nodes (sample_augeas patterns) entries_of (codes "0A:1b") handle).0.1))
    ⊎ (((aug_match_mac (sample_augeas patterns) entries_of (codes "0A:1b") handle).0.0 ≡ negsuc 0)
        × (is_noerror
              (aug_match_mac (sample_augeas patterns) entries_of (codes "0A:1b") handle).1.errcode
            ≡ false))
aug_match_mac_lem_example =
    aug_match_mac_lem (sample_augeas patterns) entries_of (codes "0A:1b") handle refl
