-- ===== src/Debian/Tests.antt =====
-- The theorems on src/drv_debian.c for a bridge over one of two cards.
use fbsd_netcf.Prelude.{
  ℕ, ◌+◌, arith, ◌≡◌, refl, true, false, List, [], ◌∷◌, ◌++◌, none, some, Text, codes, take, keep,
  streq,
}
use fbsd_netcf.Netcf.{Netcf}
use fbsd_netcf.Ref.{ref}
use fbsd_netcf.Posix.{Process, exited}
use fbsd_netcf.System.{Kernel}
use fbsd_netcf.Linux.{Augeas, LinuxDriver}
use fbsd_netcf.Linux.Sample.{Nodes, sample_augeas, entries_of, new_handle}
use fbsd_netcf.Redhat.Sort.{has, IsSorted, IsDistinct}
use fbsd_netcf.Redhat.Unique.{values}
use fbsd_netcf.Debian.Deps.{network_interfaces_path, split_at_blank, dep_names, deps_of}
use fbsd_netcf.Debian.Listing.{drv_list_interfaces, drv_lookup_by_name}
use fbsd_netcf.Debian.Words.{separated, deps_of-separated}
use fbsd_netcf.Linux.Calm.{IsCalm}
use fbsd_netcf.Debian.Forest.{Element}
use fbsd_netcf.Debian.Forest.Put.{put_elements, array_path}
use fbsd_netcf.Debian.Writes.{
  set_all, element_writes, own_writes, node_writes, put_elements-set_all,
}
use fbsd_netcf.Debian.Settled.{HasAnswers, deps_in}
use fbsd_netcf.Debian.Lookup.{
  filled_by, selected, is_listed, drv_list_interfaces_settled, drv_lookup_by_name_lem,
}

abbrev entry : Text → Text
entry rest = network_interfaces_path ++ rest

abbrev files : Nodes
files =
    (entry (codes "/iface[1]"), some (codes "eth1"))
    ∷ (entry (codes "/iface[2]"), some (codes "br0"))
    ∷ (entry (codes "/iface[3]"), some (codes "eth0"))
    ∷ (entry (codes "/iface[2]/bridge_ports"), some (codes "eth1 tap0"))
    ∷ []

abbrev patterns : List (Text × List Text)
patterns =
    (
      entry (codes "/iface"),
      entry (codes "/iface[1]") ∷ entry (codes "/iface[2]") ∷ entry (codes "/iface[3]") ∷ [],
    )
    ∷ (entry (codes "/iface/bridge_ports"), entry (codes "/iface[2]/bridge_ports") ∷ [])
    ∷ []

abbrev tree : Augeas Nodes Nodes
tree = sample_augeas patterns

-- A handle that has loaded the files.
abbrev handle : Netcf (LinuxDriver Nodes Nodes)
handle = record (new_handle files) {
  world = record {
    augeas = some files;
    load_augeas = false;
    copy_augeas_xfm = false;
    augeas_xfm_tables = [];
    system = [];
  };
}

abbrev success : Process
success = record {
  pipe_ok = true;
  block_ok = true;
  fork_ok = true;
  restore_ok = true;
  stream_ok = true;
  output = some [];
  waited = some (exited 0);
}

abbrev kernel : Kernel (LinuxDriver Nodes Nodes)
kernel = record {
  get_flags = λ d name. some (0x41, 0);
  set_flags = λ d name lo hi. none;
  getifaddrs = λ d. [];
  spawn = λ d argv. (success, d);
  socket_calls = λ d. record { socket = none; getfd_ok = true; setfd_ok = true };
}

calm : IsCalm files handle
calm = record {
  clean = refl;
  settled = record { held = refl; copied = refl; loaded = refl };
  memory = refl;
}

answers : HasAnswers tree entries_of files
unfolding streq
answers = record {
  ifaces = (
    refl,
    ((codes "eth1", refl, refl), ((codes "br0", refl, refl), ((codes "eth0", refl, refl), tt))),
  );
  ports = (refl, ((codes "eth1 tap0", refl, refl), tt));
  slaves = (refl, tt);
}

drv_lookup_by_name_lem_example :
    drv_lookup_by_name tree entries_of kernel (codes "br0") handle
    ≡ some
        (some (record { count = 1; name = codes "br0"; mac = none }), record handle { count = 2 })
unfolding streq has values deps_in deps_of dep_names split_at_blank ref
drv_lookup_by_name_lem_example =
    drv_lookup_by_name_lem tree entries_of kernel files (codes "br0") handle calm answers

drv_list_interfaces_settled_example :
    (l : List Text) × (drv_list_interfaces tree entries_of kernel 1 3 handle
      ≡ filled_by tree entries_of kernel
          (take 1 (keep (selected tree entries_of kernel 3 handle.world) l))
          handle)
    × IsSorted l
    × IsDistinct l
    × ((name : Text) → has name l ≡ is_listed tree entries_of kernel files name)
drv_list_interfaces_settled_example =
    drv_list_interfaces_settled tree entries_of kernel files 1 3 handle calm answers

deps_of-separated_example : deps_of (codes "eth1 tap0") ≡ codes "eth1" ∷ codes "tap0" ∷ []
unfolding streq separated
deps_of-separated_example =
    deps_of-separated (codes "eth1") (codes "tap0" ∷ [])
      (
        ((λ e. absurd (cc)), (refl, (refl, (refl, (refl, tt))))),
        (((λ e. absurd (cc)), (refl, (refl, (refl, (refl, tt))))), tt),
      )
      refl

blanks_kept : deps_of (codes "a  b ") ≡ codes "a" ∷ [] ∷ codes "b" ∷ []
unfolding streq deps_of dep_names split_at_blank
blanks_kept = refl

-- What vasprintf prints for a number below 10.
abbrev digit : ℕ → Text
digit i = (b'0' + i) ∷ []

abbrev elements : List Element
elements =
    record {
      name = codes "element";
      key = some (codes "eth0");
      nodes = record { label = some (codes "method"); value = some (codes "dhcp") } ∷ [];
    }
    ∷ record { name = codes "element"; key = none; nodes = [] }
    ∷ []

put_elements-set_all_example :
    put_elements tree entries_of digit (λ start. 3) (codes "iface") 3 elements handle
    ≡ some (
      tt,
      set_all tree entries_of
          ((entry (codes "/iface[4]"), some (codes "eth0"))
            ∷ (entry (codes "/iface[4]/method[last()+1]"), some (codes "dhcp"))
            ∷ [])
          handle,
    )
unfolding streq element_writes own_writes node_writes array_path
put_elements-set_all_example =
    put_elements-set_all tree entries_of digit (λ start. 3) (codes "iface") 3 elements handle refl
      (refl, (refl, tt)) (omega arith)
