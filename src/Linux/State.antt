-- ===== src/Linux/State.antt =====
-- The XML of the live state: xml_new_node and xml_node of src/dutil.c and, of src/dutil_linux.c, the addresses of an interface;
-- Linux/State/Links has what leads to further interfaces. The tree of libxml2 and the caches of libnl are parameters.
pub mod Links
pub mod Ends
pub mod Fuel
pub mod Result
mod Tests
use fbsd_netcf.Prelude.{
  ℕ, zero, suc, Bool, true, false, not, ◌&&◌, ◌==◌, List, [], ◌∷◌, Option, none, some, Text, codes,
  streq, is_neg, if◌then◌else◌, ℤ,
}
use fbsd_netcf.Netcf.{
  Netcf, enomem, einternal, enetlink, report_error, set_errcode, allocate, failed,
}

-- The tree of libxml2 with pointers to its nodes. Each function that allocates gives `none` where that fails. `node_name` is `none` for
-- a node that is no element.
pub record Dom (D N : Type 0) : Type 0 where
  pub new_doc : Option D
  pub new_root : D → Text → Option D
  pub root : D → Option N
  pub node_name : D → N → Option Text
  pub children : D → N → List N
  pub get_prop : D → N → Text → Option Text
  pub new_prop : D → N → Text → Text → Option D
  pub set_prop : D → N → Text → Text → Option D
  pub new_child : D → N → Text → Option (N × D)

-- A link of the cache: its address as nl_addr2str prints it, `none` for one that is missing or zero, its type, the index of the link that it
-- is above, and the index of its master.
pub record Link : Type 0 where
  pub name : Option Text
  pub ifindex : ℕ
  pub addr : Option Text
  pub link_type : Option Text
  pub link : Option ℕ
  pub vlan_id : ℕ
  pub is_slave : Bool
  pub master : ℕ

pub data Family : Type 0 where
  af_inet af_inet6 af_other : Family

pub record LinkAddr : Type 0 where
  pub family : Family
  pub local_addr : Text
  pub prefix : ℕ

-- The caches. `links_of` and `addrs_of` are what nl_cache_foreach_filter goes through for an index; RTNL_LINK_NOT_FOUND is `none`.
pub record LinkCaches (W : Type 0) : Type 0 where
  pub refill_links : W → Bool × W
  pub refill_addrs : W → Bool × W
  pub all_links : W → List Link
  pub links_of : W → ℕ → List Link
  pub addrs_of : W → Option ℕ → List LinkAddr
  pub name2i : W → Text → Option ℕ
  pub link_get : W → ℕ → Option Link

-- The first element of a name among nodes.
unfoldable pub find_child : {D N : Type 0} → Dom D N → D → Text → List N → Option N
find_child dom d name [] = none
find_child dom d name (cur ∷ next) = elim (dom.node_name d cur) [
  | none ↦ find_child dom d name next
  | some found ↦ if streq found name then some cur else find_child dom d name next
]

-- The first element `protocol` of a family.
unfoldable pub find_protocol : {D N : Type 0} → Dom D N → D → Text → List N → Option N
find_protocol dom d family [] = none
find_protocol dom d family (cur ∷ next) =
    let rest = find_protocol dom d family next in
    elim (dom.node_name d cur) [
      | none ↦ rest
      | some found ↦ elim (dom.get_prop d cur (codes "family")) [
        | none ↦ rest
        | some node_family ↦
            if streq found (codes "protocol") && streq node_family family then some cur else rest
      ]
    ]

-- The document and the handle between two calls.
abbrev pub State : Type 0 → Type 0 → Type 0
State D W = D × Netcf W

-- ERR_NOMEM of a call that gave NULL.
abbrev pub no_memory : {D W : Type 0} → D → Netcf W → State D W
no_memory d n = (d, set_errcode enomem n)

module _ {D N : Type 0} (dom : Dom D N) where
  -- xml_new_node
  unfoldable pub xml_new_node : D → N → Text → Option (N × D)
  xml_new_node d parent name = dom.new_child d parent name

  -- xml_node
  unfoldable pub xml_node : D → N → Text → Option (N × D)
  xml_node d parent name = elim (find_child dom d name (dom.children d parent)) [
    | none ↦ xml_new_node d parent name
    | some ret ↦ some (ret, d)
  ]

module _ {D N W : Type 0} (dom : Dom D N) where
  -- add_ethernet_info_cb for the links, behind which `mac` is not NULL.
  unfoldable pub add_ethernet_loop : N → List Link → State D W → State D W
  add_ethernet_loop root [] s = s
  add_ethernet_loop root (iflink ∷ links) (d, n) =
      let next = add_ethernet_loop root links in
      elim iflink.addr [
        | none ↦ next (d, n)
        | some mac_str ↦ elim (xml_node dom d root (codes "mac")) [
          | none ↦ next (no_memory d n)
          | some (mac, d₁) ↦ elim (dom.set_prop d₁ mac (codes "address") mac_str) [
            | none ↦ no_memory d₁ n
            | some d₂ ↦ (d₂, n)
          ]
        ]
      ]

-- `decimal` is the number that snprintf prints for %d.
module _ {D N W : Type 0} (dom : Dom D N) (decimal : ℕ → Text) where
  -- The end of add_ip_info_cb: the node for an address, below that of its family.
  unfoldable pub add_ip_node : LinkAddr → N → State D W → State D W
  add_ip_node addr proto (d, n) = elim (xml_new_node dom d proto (codes "ip")) [
    | none ↦ no_memory d n
    | some (ip_node, d₁) ↦ elim (dom.set_prop d₁ ip_node (codes "address") addr.local_addr) [
      | none ↦ no_memory d₁ n
      | some d₂ ↦ elim (dom.set_prop d₂ ip_node (codes "prefix") (decimal addr.prefix)) [
        | none ↦ no_memory d₂ n
        | some d₃ ↦ (d₃, n)
      ]
    ]
  ]

  -- add_ip_info_cb for a family, with the pointer to its node before and after.
  unfoldable pub add_ip_family : N → LinkAddr → Text → Option N → State D W → Option N × State D W
  add_ip_family root addr family proto (d, n) =
      let known : Option N = elim proto [
        | some node ↦ some node
        | none ↦ find_protocol dom d family (dom.children d root)
      ] in
      elim known [
        | some node ↦ (some node, add_ip_node addr node (d, n))
        | none ↦ elim (xml_new_node dom d root (codes "protocol")) [
          | none ↦ (none, no_memory d n)
          | some (node, d₁) ↦ elim (dom.set_prop d₁ node (codes "family") family) [
            | none ↦ (some node, no_memory d₁ n)
            | some d₂ ↦ (some node, add_ip_node addr node (d₂, n))
          ]
        ]
      ]

  -- add_ip_info_cb for the addresses; it goes on behind an error.
  unfoldable pub add_ip_loop : N → List LinkAddr → Option N → Option N → State D W → State D W
  add_ip_loop root [] protov4 protov6 s = s
  add_ip_loop root (addr ∷ addrs) protov4 protov6 s = elim addr.family [
    | af_inet ↦
        let (proto, s') = add_ip_family root addr (codes "ipv4") protov4 s in
        add_ip_loop root addrs proto protov6 s'
    | af_inet6 ↦
        let (proto, s') = add_ip_family root addr (codes "ipv6") protov6 s in
        add_ip_loop root addrs protov4 proto s'
    | af_other ↦ add_ip_loop root addrs protov4 protov6 s
  ]
