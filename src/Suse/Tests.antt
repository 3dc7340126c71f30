-- ===== src/Suse/Tests.antt =====
-- The theorems on src/drv_suse.c for a bridge over one of two cards.
use fbsd_netcf.Prelude.{
  ◌≡◌, refl, true, false, not, ◌&&◌, List, [], ◌∷◌, ◌++◌, Option, none, some, Text, codes, take,
  keep, streq,
}
use fbsd_netcf.Netcf.{Netcf, allocate}
use fbsd_netcf.Posix.{Process, exited}
use fbsd_netcf.System.{Kernel}
use fbsd_netcf.Linux.{Augeas, LinuxDriver, get_augeas, ensure_augeas, copy_tables, load_files}
use fbsd_netcf.Linux.Sample.{Nodes, sample_augeas, entries_of, new_handle}
use fbsd_netcf.Linux.Calm.{IsCalm}
use fbsd_netcf.Redhat.Sort.{has, IsSorted}
use fbsd_netcf.Redhat.Find.{with_augeas, follow}
use fbsd_netcf.Redhat.Forest.{Tree, put_node}
use fbsd_netcf.Debian.Lookup.{selected, filled_by}
use fbsd_netcf.Suse.Files.{Dirent, ifcfg_file, ifcfg_below, names_in}
use fbsd_netcf.Suse.Listing.{drv_list_interfaces, toplevel_names}
use fbsd_netcf.Suse.Forest.{
  aug_put_xml, put_trees, put_tree, noted_nodes, put_noted, note, note_slave, has_dot,
}
use fbsd_netcf.Suse.Slaves.{has_entries, drv_list_interfaces_files, toplevel_names_lem}
use fbsd_netcf.Suse.Put.{has_slave, some_slave, marks_slave, aug_put_xml_slave}

abbrev bridge_entry : Text
bridge_entry = ifcfg_file (codes "eth1") ++ codes "/BRIDGE"

abbrev files : Nodes
files = (bridge_entry, some (codes "br0")) ∷ []

-- eth1 is a slave of br0.
abbrev patterns : List (Text × List Text)
patterns =
    (bridge_entry, bridge_entry ∷ [])
    ∷ (ifcfg_below (codes "eth1"), ifcfg_file (codes "eth1") ∷ [])
    ∷ (ifcfg_below (codes "eth0"), ifcfg_file (codes "eth0") ∷ [])
    ∷ []

abbrev tree : Augeas Nodes Nodes
tree = sample_augeas patterns

abbrev entries : List Dirent
entries =
    record { regular = true; d_name = codes "ifcfg-eth1" }
    ∷ record { regular = false; d_name = codes "ifcfg-old" }
    ∷ record { regular = true; d_name = codes "ifcfg-eth0" }
    ∷ record { regular = true; d_name = codes "routes" }
    ∷ []

abbrev directory : Nodes → Option (List Dirent)
directory system = some entries

-- A handle that has loaded the files.
abbrev handle : Netcf (LinuxDriver Nodes Nodes)
handle = record (new_handle files) {
  world = record {
    augeas = some files;
    load_augeas = false;
    copy_augeas_xfm = false;
    augeas_xfm_tables = [];
    system = [];
  };
}

abbrev success : Process
success = record {
  pipe_ok = true;
  block_ok = true;
  fork_ok = true;
  restore_ok = true;
  stream_ok = true;
  output = some [];
  waited = some (exited 0);
}

abbrev kernel : Kernel (LinuxDriver Nodes Nodes)
kernel = record {
  get_flags = λ d name. some (0x41, 0);
  set_flags = λ d name lo hi. none;
  getifaddrs = λ d. [];
  spawn = λ d argv. (success, d);
  socket_calls = λ d. record { socket = none; getfd_ok = true; setfd_ok = true };
}

calm : IsCalm files handle
calm = record {
  clean = refl;
  settled = record { held = refl; copied = refl; loaded = refl };
  memory = refl;
}

drv_list_interfaces_files_example :
    (l : List Text) × (drv_list_interfaces tree entries_of directory kernel 8 3 handle
      ≡ filled_by tree entries_of kernel
          (take 8 (keep (selected tree entries_of kernel 3 handle.world) l))
          handle)
    × IsSorted l
    × ((name : Text)
        → has name l
          ≡ (has name (names_in entries) && not (has_entries tree entries_of files name)))
drv_list_interfaces_files_example =
    drv_list_interfaces_files tree entries_of directory kernel files entries 8 3 handle calm refl
      (λ name inside. ((_, refl), (_, refl)))

toplevel_names_lem_example :
    toplevel_names tree entries_of (codes "eth1" ∷ codes "eth0" ∷ codes "eth2" ∷ []) handle
    ≡ (some (codes "eth1" ∷ codes "eth0" ∷ []), handle)
unfolding streq
toplevel_names_lem_example =
    toplevel_names_lem tree entries_of files (codes "eth1" ∷ codes "eth0" ∷ codes "eth2" ∷ [])
      handle calm ((_, refl), ((_, refl), ((_, refl), tt))) (refl, (refl, (refl, tt)))
      (((_, refl), (_, refl)), (((_, refl), (_, refl)), (((_, refl), (_, refl)), tt)))

abbrev slave_tree : Tree
slave_tree = record {
  name = codes "tree";
  path = some (ifcfg_file (codes "eth1"));
  nodes =
      record { label = some (codes "DEVICE"); value = some (codes "eth1") }
      ∷ record { label = some (codes "BRIDGE"); value = some (codes "br0") }
      ∷ record { label = some (codes "HWADDR"); value = some (codes "0a:1b") }
      ∷ [];
}

abbrev put_handle : Netcf (LinuxDriver Nodes Nodes)
put_handle = record handle {
  world = record handle.world { augeas = some ((bridge_entry, some (codes "br0")) ∷ files) };
}

aug_put_xml_slave_example :
    aug_put_xml tree entries_of
      (λ system name. none)
      false
      (some (record { name = codes "forest"; trees = slave_tree ∷ [] }))
      handle
    ≡ some (tt, put_handle)
unfolding streq has_slave some_slave marks_slave put_trees put_tree noted_nodes put_noted note
    note_slave has_dot put_node follow with_augeas allocate get_augeas ensure_augeas copy_tables
    load_files
aug_put_xml_slave_example =
    aug_put_xml_slave tree entries_of (λ system name. none) false (slave_tree ∷ [])
      (record {
        device = some (codes "eth1");
        mac = some (codes "0a:1b");
        gateway = none;
        ethphysical = true;
        toplevel = false;
      })
      handle put_handle refl refl refl refl
