-- ===== src/Redhat/Tests.antt =====
-- The theorems on src/drv_redhat.c for a bridge with two slaves.
use fbsd_netcf.Prelude.{
  All, ℕ, ◌≡◌, refl, Bool, true, false, List, [], ◌∷◌, ◌++◌, none, some, Text, codes, pos, negsuc,
  streq,
}
use fbsd_netcf.Netcf.{Netcf, NetcfIf, failed, allocate, set_errcode}
use fbsd_netcf.Posix.{Process, exited, run_program, exec_program, collect, check_status}
use fbsd_netcf.System.{Kernel, run1, run_words}
use fbsd_netcf.Linux.{Augeas, LinuxDriver, get_augeas, ensure_augeas, copy_tables, load_files}
use fbsd_netcf.Linux.Format.{formatted, aug_fmt_match, match_path, check_result}
use fbsd_netcf.Linux.Sample.{Nodes, sample_augeas, entries_of, new_handle}
use fbsd_netcf.Linux.Sysfs.{c_tolower}
use fbsd_netcf.Redhat.Sort.{qsort, insert_text, has, text_leb, IsSorted, IsDistinct}
use fbsd_netcf.Redhat.Find.{
  found, follow, with_augeas, match_hwaddr, strcaseeq, hwaddr_result, cut_hwaddr,
  find_ifcfg_path_by_hwaddr,
}
use fbsd_netcf.Redhat.Paths.{unique_names}
use fbsd_netcf.Redhat.Bridge.{
  is_bridge, bridge_slaves, slave_names, check_active, drv_if_up, drv_if_down,
}
use fbsd_netcf.Redhat.Defined.{HasValues}
use fbsd_netcf.Redhat.Contract.{LooksUp, drv_lookup_by_name-LooksUp}
use fbsd_netcf.Redhat.Lookup.{drv_lookup_by_name}
use fbsd_netcf.Redhat.Unique.{values, unique_names_lem}
use fbsd_netcf.Redhat.Choice.{hwaddr_nodes, ChosenFile, find_ifcfg_path_by_hwaddr_lem}
use fbsd_netcf.Linux.Calm.{IsCalm}
use fbsd_netcf.Redhat.Order.{run_all, drv_if_up_bridge, drv_if_down_unseen}

abbrev script : Text → Text
script name = codes "/files/etc/sysconfig/network-scripts/" ++ name

abbrev eth0_device : Text
eth0_device = script (codes "ifcfg-eth0/DEVICE")

abbrev eth1_device : Text
eth1_device = script (codes "ifcfg-eth1/DEVICE")

abbrev eth0_hwaddr : Text
eth0_hwaddr = script (codes "ifcfg-eth0/HWADDR")

abbrev old_hwaddr : Text
old_hwaddr = script (codes "ifcfg-Auto/HWADDR")

abbrev files : Nodes
files =
    (eth0_device, some (codes "eth0"))
    ∷ (eth1_device, some (codes "eth1"))
    ∷ (eth0_hwaddr, some (codes "0a:1b"))
    ∷ (old_hwaddr, some (codes "0A:1B"))
    ∷ []

abbrev patterns : List (Text × List Text)
patterns =
    (script (codes "*[ DEVICE = 'br0' and TYPE = 'Bridge']"), script (codes "ifcfg-br0") ∷ [])
    ∷ (script (codes "*[ BRIDGE = 'br0' ]/DEVICE"), eth1_device ∷ eth0_device ∷ [])
    ∷ (script (codes "*/HWADDR"), eth0_hwaddr ∷ old_hwaddr ∷ [])
    ∷ (
      script (codes "*[DEVICE = 'eth0']"),
      script (codes "ifcfg-eth0") ∷ script (codes "ifcfg-Auto") ∷ [],
    )
    ∷ []

abbrev tree : Augeas Nodes Nodes
tree = sample_augeas patterns

abbrev broken_tree : Augeas Nodes Nodes
broken_tree = record tree { aug_match = λ nodes pattern. (negsuc 0, []) }

-- A handle that has loaded the files.
abbrev handle : Netcf (LinuxDriver Nodes Nodes)
handle = record (new_handle files) {
  world = record {
    augeas = some files;
    load_augeas = false;
    copy_augeas_xfm = false;
    augeas_xfm_tables = [];
    system = [];
  };
}

abbrev success : Process
success = record {
  pipe_ok = true;
  block_ok = true;
  fork_ok = true;
  restore_ok = true;
  stream_ok = true;
  output = some [];
  waited = some (exited 0);
}

-- The words of a run, put together.
abbrev joined : List Text → Text
joined [] = []
joined (word ∷ argv) = word ++ joined argv

-- A kernel that notes what was run.
abbrev kernel : Kernel (LinuxDriver Nodes Nodes)
kernel = record {
  get_flags = λ d name. some (0x41, 0);
  set_flags = λ d name lo hi. none;
  getifaddrs = λ d. [];
  spawn = λ d argv. (success, record d { system = (joined argv, none) ∷ d.system });
  socket_calls = λ d. record { socket = none; getfd_ok = true; setfd_ok = true };
}

abbrev beyond : ℕ → Bool
beyond i = false

abbrev br0 : NetcfIf
br0 = record { count = 1; name = codes "br0"; mac = none }

unique_names_lem_example :
    (l : List Text) × (unique_names tree entries_of files
        (eth1_device ∷ eth0_device ∷ eth1_device ∷ [])
        []
      ≡ found l)
    × IsSorted (qsort l)
    × IsDistinct (qsort l)
    × ((name : Text)
        → has name (qsort l)
          ≡ has name (values tree entries_of files (eth1_device ∷ eth0_device ∷ eth1_device ∷ [])))
unfolding streq
unique_names_lem_example =
    unique_names_lem tree entries_of files (eth1_device ∷ eth0_device ∷ eth1_device ∷ [])
      ((codes "eth1", refl, refl), ((codes "eth0", refl, refl), ((codes "eth1", refl, refl), tt)))

hwaddr_found :
    find_ifcfg_path_by_hwaddr tree entries_of (codes "0a:1B") handle
    ≡ some (some (script (codes "ifcfg-eth0")), handle)
unfolding find_ifcfg_path_by_hwaddr qsort text_leb insert_text streq match_hwaddr strcaseeq
    hwaddr_result cut_hwaddr with_augeas c_tolower get_augeas ensure_augeas copy_tables load_files
    formatted aug_fmt_match match_path check_result allocate
hwaddr_found = refl

hwaddr_named :
    All (λ u. (file : Text) × (u ≡ file ++ codes "/HWADDR")) (hwaddr_nodes tree entries_of handle)
unfolding get_augeas ensure_augeas copy_tables load_files formatted aug_fmt_match match_path
    check_result allocate streq
hwaddr_named = ((script (codes "ifcfg-eth0"), refl), ((script (codes "ifcfg-Auto"), refl), tt))

find_ifcfg_path_by_hwaddr_lem_example :
    (aug : Nodes) × (handle.world.augeas ≡ some aug)
    × ChosenFile tree entries_of aug
        (codes "0a:1B")
        (hwaddr_nodes tree entries_of handle)
        (some (script (codes "ifcfg-eth0")))
find_ifcfg_path_by_hwaddr_lem_example =
    find_ifcfg_path_by_hwaddr_lem tree entries_of (codes "0a:1B") handle (hwaddr_named) hwaddr_found
      refl

calm : IsCalm files handle
calm = record {
  clean = refl;
  settled = record { held = refl; copied = refl; loaded = refl };
  memory = refl;
}

drv_if_up_bridge_example :
    drv_if_up tree entries_of kernel (exited 0) beyond br0 handle
    ≡ some (
        check_active tree entries_of kernel (exited 0) beyond (codes "br0") (
          run_all tree entries_of kernel
            (exited 0)
            beyond
            ((codes "ifup" ∷ codes "eth1" ∷ [])
              ∷ (codes "ifup" ∷ codes "eth0" ∷ [])
              ∷ (codes "ifup" ∷ codes "br0" ∷ [])
              ∷ [])
            handle))
unfolding streq
drv_if_up_bridge_example =
    drv_if_up_bridge tree entries_of kernel (exited 0) beyond files br0
      (codes "eth1" ∷ codes "eth0" ∷ []) handle {files = 0} {count = 2} calm refl refl refl
      (λ j behind below. refl)

-- The handle behind ifdown br0.
abbrev taken_down : Netcf (LinuxDriver Nodes Nodes)
taken_down = record handle {
  world = record handle.world { system = (codes "ifdownbr0", none) ∷ [] };
}

br0_down : run1 kernel (exited 0) (codes "ifdown") (codes "br0") handle ≡ taken_down
unfolding run1 run_words run_program exec_program collect check_status allocate
br0_down = refl

down_fine : failed (run1 kernel (exited 0) (codes "ifdown") (codes "br0") handle) ≡ false
down_fine = rw br0_down refl

bridge_below : (is_bridge tree entries_of (codes "br0") taken_down).0 ≡ true
unfolding is_bridge streq get_augeas ensure_augeas copy_tables load_files formatted aug_fmt_match
    match_path check_result allocate
bridge_below = refl

slaves_below :
    bridge_slaves tree entries_of beyond
      (codes "br0")
      (is_bridge tree entries_of (codes "br0") taken_down).1
    ≡ some (some (some (codes "eth1") ∷ some (codes "eth0") ∷ []), taken_down)
unfolding is_bridge bridge_slaves slave_names with_augeas follow streq get_augeas ensure_augeas
    copy_tables load_files formatted aug_fmt_match match_path check_result allocate
slaves_below = refl

broken_below : failed (is_bridge broken_tree entries_of (codes "br0") taken_down).1 ≡ true
unfolding is_bridge streq set_errcode get_augeas ensure_augeas copy_tables load_files formatted
    aug_fmt_match match_path check_result allocate
broken_below = refl

down_bridge :
    (is_bridge tree entries_of
      (codes "br0")
      (run1 kernel (exited 0) (codes "ifdown") (codes "br0") handle)).0
    ≡ true
down_bridge = rw br0_down bridge_below

down_slaves :
    bridge_slaves tree entries_of beyond
      (codes "br0")
      (is_bridge tree entries_of
        (codes "br0")
        (run1 kernel (exited 0) (codes "ifdown") (codes "br0") handle)).1
    ≡ some (some (some (codes "eth1") ∷ some (codes "eth0") ∷ []), taken_down)
down_slaves = rw br0_down slaves_below

broken_bridge :
    failed
      (is_bridge broken_tree entries_of
        (codes "br0")
        (run1 kernel (exited 0) (codes "ifdown") (codes "br0") handle)).1
    ≡ true
broken_bridge = rw br0_down broken_below

drv_if_down_unseen_example :
    (n' : Netcf (LinuxDriver Nodes Nodes)) × (drv_if_down broken_tree entries_of kernel
        (exited 0)
        beyond
        br0
        handle
      ≡ some (pos 0, n'))
    × (failed n' ≡ true)
    × (n'
        ≡ (is_bridge broken_tree entries_of
            (codes "br0")
            (run1 kernel (exited 0) (codes "ifdown") (codes "br0") handle)).1)
drv_if_down_unseen_example =
    drv_if_down_unseen broken_tree entries_of kernel (exited 0) beyond br0 handle down_fine
      broken_bridge

-- eth0 has an address, which a file has for HWADDR.
abbrev addressed : Nodes
addressed = (codes "/files/sys/class/net/eth0/address/content", some (codes "0a:1b")) ∷ files

abbrev addressed_handle : Netcf (LinuxDriver Nodes Nodes)
addressed_handle = record handle { world = record handle.world { augeas = some addressed } }

addressed_nodes :
    (nodes : Nodes)
    → (get_augeas tree entries_of addressed_handle).0 ≡ some nodes
    → addressed ≡ nodes
unfolding get_augeas ensure_augeas copy_tables load_files
addressed_nodes nodes e = cc

addressed-HasValues : HasValues tree entries_of (codes "eth0") addressed
unfolding streq
addressed-HasValues = record {
  address = λ there. (codes "0a:1b", refl);
  hwaddrs = ((λ there. (codes "0a:1b", refl)), ((λ there. (codes "0A:1B", refl)), tt));
}

drv_lookup_by_name-LooksUp_example :
    LooksUp addressed_handle (drv_lookup_by_name tree entries_of (codes "eth0") addressed_handle)
drv_lookup_by_name-LooksUp_example =
    drv_lookup_by_name-LooksUp tree entries_of (codes "eth0") addressed_handle refl
      (λ nodes e. rw (← addressed_nodes nodes e) addressed-HasValues)
