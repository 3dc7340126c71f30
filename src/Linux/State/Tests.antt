-- ===== src/Linux/State/Tests.antt =====
-- The theorems on the XML of the live state for a bond with two slaves.
use fbsd_netcf.Prelude.{
  ℕ, ◌+◌, ◌≡◌, refl, Bool, true, false, ◌==◌, List, [], ◌∷◌, ◌++◌, Option, none, some, Text, codes,
  length, streq, if◌then◌else◌, pos, arith, All,
}
use fbsd_netcf.Netcf.{Netcf, NetcfIf, noerror, allocate}
use fbsd_netcf.Linux.Kinds.{FileKind, directory, missing, if_type, if_type_str}
use fbsd_netcf.Linux.State.{
  Dom, Link, LinkCaches, find_child, xml_new_node, xml_node, add_ethernet_loop,
}
use fbsd_netcf.Linux.State.Links.{
  add_type_specific_info, drv_xml_state, master_of, add_type_body, add_info, add_bond_info,
  add_bond_loop, add_slave, add_ethernet_info,
}
use fbsd_netcf.Linux.State.Ends.{Ends, AllBelow, HasMasterBelow}
use fbsd_netcf.Linux.State.Fuel.{add_type_specific_info-Ends}
use fbsd_netcf.Linux.State.Result.{GivesText, drv_xml_state-GivesText}

-- A tree: each node with its parent, its name and its properties. The root is its own parent.
record Node : Type 0 where
  parent : ℕ
  name : Text
  props : List (Text × Text)

abbrev Tree : Type 0
Tree = List Node

abbrev with_prop_at : ℕ → Text × Text → Tree → Tree
with_prop_at i prop [] = []
with_prop_at Prim.Native.Nat.zero prop (x ∷ xs) = record x { props = x.props ++ (prop ∷ []) } ∷ xs
with_prop_at (Prim.Native.Nat.suc i) prop (x ∷ xs) = x ∷ with_prop_at i prop xs

abbrev at : ℕ → Tree → Option Node
at i [] = none
at Prim.Native.Nat.zero (x ∷ xs) = some x
at (Prim.Native.Nat.suc i) (x ∷ xs) = at i xs

abbrev below : ℕ → ℕ → Tree → List ℕ
below parent i [] = []
below parent i (x ∷ xs) =
    let rest = below parent (i + 1) xs in if x.parent == parent then i ∷ rest else rest

abbrev prop_of : Text → List (Text × Text) → Option Text
prop_of key [] = none
prop_of key ((k, v) ∷ props) = if streq k key then some v else prop_of key props

abbrev tree : Dom Tree ℕ
tree = record {
  new_doc = some [];
  new_root = λ d name. some (record { parent = 0; name = name; props = [] } ∷ []);
  root = λ d. some 0;
  node_name = λ d i. elim (at i d) [ none ↦ none | some x ↦ some x.name ];
  children = λ d i. below i 0 d;
  get_prop = λ d i key. elim (at i d) [ none ↦ none | some x ↦ prop_of key x.props ];
  new_prop = λ d i key value. some (with_prop_at i (key, value) d);
  set_prop = λ d i key value. some (with_prop_at i (key, value) d);
  new_child = λ d parent name.
      some (length d, d ++ (record { parent = parent; name = name; props = [] } ∷ []));
}

abbrev slave : Text → ℕ → Text → Link
slave name i addr = record {
  name = some name;
  ifindex = i;
  addr = some addr;
  link_type = none;
  link = none;
  vlan_id = 0;
  is_slave = true;
  master = 3;
}

abbrev eth0 : Link
eth0 = slave (codes "eth0") 1 (codes "00:1b")

abbrev eth1 : Link
eth1 = slave (codes "eth1") 2 (codes "00:1c")

abbrev links : LinkCaches ℕ
links = record {
  refill_links = λ w. (true, w);
  refill_addrs = λ w. (true, w);
  all_links = λ w. eth0 ∷ eth1 ∷ [];
  links_of = λ w i. elim (i == 1) [ true ↦ eth0 ∷ [] | false ↦ [] ];
  addrs_of = λ w i. [];
  name2i = λ w name. if streq name (codes "bond0") then some 3 else none;
  link_get = λ w i. none;
}

abbrev stat : ℕ → Text → FileKind
stat w path = if streq path (codes "/sys/class/net/bond0/bonding") then directory else missing

abbrev readdir : ℕ → Text → List Text
readdir w path = []

abbrev handle : Netcf ℕ
handle = record {
  count = 1;
  root = codes "/";
  data_dir = codes "/usr";
  rng = true;
  errcode = noerror;
  errdetails = none;
  driver = true;
  debug = false;
  allocs = [];
  world = 0;
}

abbrev decimal : ℕ → Text
decimal n = (b'0' + n) ∷ []

abbrev start : Tree
start = record { parent = 0; name = codes "interface"; props = [] } ∷ []

abbrev rank : Text → Option ℕ → ℕ
rank name none = 0
rank name (some i) = if 3 == i then 1 else 0

no_master :
    (bound : ℕ) (b : Bool)
    → All (HasMasterBelow links 0 rank bound) (elim b [ true ↦ eth0 ∷ [] | false ↦ [] ])
unfolding master_of
no_master bound true = ((λ m k e. absurd (cc)), tt)
no_master bound false = tt

layered :
    (name : Text) (ifindex : Option ℕ)
    → AllBelow links stat readdir 0 rank (rank name ifindex) name ifindex
unfolding master_of
layered name ifindex = record {
  ports = tt;
  masters = λ i e. no_master (rank name ifindex) (i == 1);
  slaves = λ i e. (
    (λ h. (codes "eth0", refl, ground (arith, e, h))),
    ((λ h. (codes "eth1", refl, ground (arith, e, h))), tt),
  );
}

add_type_specific_info-Ends_example : Ends 0 (
    add_type_specific_info tree links stat readdir decimal 2
      (codes "bond0")
      (some 3)
      0
      (start, handle))
add_type_specific_info-Ends_example =
    add_type_specific_info-Ends tree links stat readdir decimal rank 0 layered 2 (codes "bond0")
      (some 3) 0 start handle (omega arith) refl

abbrev bond0 : NetcfIf
bond0 = record { count = 1; name = codes "bond0"; mac = none }

drv_xml_state-GivesText_example : GivesText (
    drv_xml_state tree links stat readdir decimal (λ d. (pos 0, some (codes "xml"))) 2 bond0 handle)
unfolding streq
drv_xml_state-GivesText_example =
    drv_xml_state-GivesText tree links stat readdir decimal (λ d. (pos 0, some (codes "xml"))) rank
      2 bond0 handle layered (omega arith)

abbrev child : ℕ → Text → List (Text × Text) → Node
child parent name props = record { parent = parent; name = name; props = props }

-- The document for the bond: a node for each slave, with its type and its MAC.
bond_tree :
    add_type_specific_info tree links stat readdir decimal 2
      (codes "bond0")
      (some 3)
      0
      (start, handle)
    ≡ some (
      child 0
            (codes "interface")
            ((codes "name", codes "bond0") ∷ (codes "type", codes "bond") ∷ [])
          ∷ child 0 (codes "bond") []
          ∷ child 1
              (codes "interface")
              ((codes "name", codes "eth0") ∷ (codes "type", codes "ethernet") ∷ [])
          ∷ child 2 (codes "mac") ((codes "address", codes "00:1b") ∷ [])
          ∷ child 1
              (codes "interface")
              ((codes "name", codes "eth1") ∷ (codes "type", codes "ethernet") ∷ [])
          ∷ [],
      handle,
    )
unfolding streq add_type_specific_info add_type_body if_type allocate if_type_str add_info
    add_bond_info add_bond_loop add_slave xml_node find_child xml_new_node add_ethernet_info
    add_ethernet_loop
bond_tree = refl
