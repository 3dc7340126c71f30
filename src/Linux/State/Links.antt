-- ===== src/Linux/State/Links.antt =====
-- The interfaces below an interface: add_type_specific_info of src/dutil_linux.c, which calls itself for the links of a bridge, a VLAN and a
-- bond, add_state_to_xml_doc, and drv_xml_state, whose text is the same in the backends for Linux. A depth bounds the calls; `none`
-- is where it is not enough, or where a slave has no name and snprintf is to print NULL.
use fbsd_netcf.Prelude.{
  ℕ, zero, suc, Bool, true, false, not, ◌&&◌, ◌==◌, List, [], ◌∷◌, Option, none, some, Text, codes,
  streq, is_neg, if◌then◌else◌, ℤ,
}
use fbsd_netcf.Netcf.{
  Netcf, NetcfIf, enomem, einternal, enetlink, report_error, set_errcode, allocate, failed,
}
use fbsd_netcf.Linux.Kinds.{
  FileKind, IfType, type_none, type_ethernet, type_bond, type_bridge, type_vlan, if_type,
  if_type_str, if_bridge_phys_name,
}
use fbsd_netcf.Linux.State.{
  Dom, Link, LinkCaches, State, no_memory, xml_new_node, xml_node, add_ethernet_loop, add_ip_loop,
}

abbrev pub is_interface : Option Text → Bool
is_interface none = false
is_interface (some name) = streq name (codes "interface")

module _ {W : Type 0} (nl : LinkCaches W) where
  -- The name of the link below a VLAN, as far as add_vlan_info_cb looks for it.
  unfoldable pub master_of : W → Link → Option Text
  master_of w iflink = elim iflink.link_type [
    | none ↦ none
    | some link_type ↦
        let master : Option Text = elim iflink.link [
          | none ↦ none
          | some l_link ↦ elim (nl.link_get w l_link) [
            | none ↦ none
            | some master_link ↦ master_link.name
          ]
        ] in
        if streq link_type (codes "vlan") then master else none
  ]

module _ {D N W : Type 0} (dom : Dom D N) (nl : LinkCaches W) (stat : W → Text → FileKind)
    (readdir : W → Text → List Text) (decimal : ℕ → Text) where
  -- add_ethernet_info
  unfoldable pub add_ethernet_info : Option ℕ → N → State D W → State D W
  add_ethernet_info none root s = s
  add_ethernet_info (some ifindex) root (d, n) =
      let (ok, n₁) = allocate n in
      if ok
      then add_ethernet_loop dom root (nl.links_of n₁.world ifindex) (d, n₁)
      else no_memory d n₁

  -- add_ip_info
  unfoldable pub add_ip_info : Option ℕ → N → State D W → State D W
  add_ip_info ifindex root (d, n) =
      let (ok, n₁) = allocate n in
      if ok
      then add_ip_loop dom decimal root (nl.addrs_of n₁.world ifindex) none none (d, n₁)
      else no_memory d n₁

  -- `rec` is add_type_specific_info.
  module _ (rec : Text → Option ℕ → N → State D W → Option (State D W)) where
    -- The part of add_vlan_info_cb behind the node for the VLAN.
    unfoldable pub add_master : Link → Text → N → State D W → Option (State D W)
    add_master iflink master_name vlan (d, n) =
        elim (dom.set_prop d vlan (codes "tag") (decimal iflink.vlan_id)) [
          | none ↦ some (no_memory d n)
          | some d₁ ↦ elim (xml_new_node dom d₁ vlan (codes "interface")) [
            | none ↦ some (no_memory d₁ n)
            | some (interface_node, d₂) ↦ elim (nl.name2i n.world master_name) [
              | none ↦ some (
                d₂,
                report_error enetlink
                    (some (codes "couldn't find ifindex for vlan master interface `%s`")) n,
              )
              | some master_ifindex ↦ rec master_name (some master_ifindex) interface_node (d₂, n)
            ]
          ]
        ]

    -- add_vlan_info_cb for the links, behind which `vlan` is not NULL.
    unfoldable pub add_vlan_loop : N → List Link → State D W → Option (State D W)
    add_vlan_loop root [] s = some s
    add_vlan_loop root (iflink ∷ links) (d, n) =
        let next = add_vlan_loop root links in
        elim (master_of nl n.world iflink) [
          | none ↦ next (d, n)
          | some master_name ↦ elim (xml_node dom d root (codes "vlan")) [
            | none ↦ next (no_memory d n)
            | some (vlan, d₁) ↦ add_master iflink master_name vlan (d₁, n)
          ]
        ]

    -- add_vlan_info
    unfoldable pub add_vlan_info : Option ℕ → N → State D W → Option (State D W)
    add_vlan_info none root s = some s
    add_vlan_info (some ifindex) root (d, n) =
        let (ok, n₁) = allocate n in
        if ok
        then add_vlan_loop root (nl.links_of n₁.world ifindex) (d, n₁)
        else some (no_memory d n₁)

    -- The loop of add_bridge_info; an error in the part of an interface does not end it.
    unfoldable pub add_ports : N → List Text → State D W → Option (State D W)
    add_ports bridge_node [] s = some s
    add_ports bridge_node (phys_name ∷ phys_names) (d, n) =
        elim (xml_new_node dom d bridge_node (codes "interface")) [
          | none ↦ some (no_memory d n)
          | some (interface_node, d₁) ↦
              elim (rec phys_name (nl.name2i n.world phys_name) interface_node (d₁, n)) [
                | none ↦ none
                | some s ↦ add_ports bridge_node phys_names s
              ]
        ]

    -- add_bridge_info
    unfoldable pub add_bridge_info : Text → N → State D W → Option (State D W)
    add_bridge_info ifname root (d, n) = elim (xml_node dom d root (codes "bridge")) [
      | none ↦ some (no_memory d n)
      | some (bridge_node, d₁) ↦
          let (phys_names, n₁) = if_bridge_phys_name stat readdir ifname n in
          elim phys_names [
            | none ↦ some (d₁, n₁)
            | some names ↦ add_ports bridge_node names (d₁, n₁)
          ]
    ]

    -- add_bond_info_cb for a slave
    unfoldable pub add_slave : N → Link → State D W → Option (State D W)
    add_slave root iflink (d, n) = elim (xml_node dom d root (codes "bond")) [
      | none ↦ some (no_memory d n)
      | some (bond, d₁) ↦ elim (xml_new_node dom d₁ bond (codes "interface")) [
        | none ↦ some (no_memory d₁ n)
        | some (interface_node, d₂) ↦ elim iflink.name [
          | none ↦ none
          | some name ↦ rec name (some iflink.ifindex) interface_node (d₂, n)
        ]
      ]
    ]

    -- add_bond_info_cb for all links
    unfoldable pub add_bond_loop : N → ℕ → List Link → State D W → Option (State D W)
    add_bond_loop root master_ifindex [] s = some s
    add_bond_loop root master_ifindex (iflink ∷ links) s =
        elim (iflink.is_slave && iflink.master == master_ifindex) [
          | true ↦ elim (add_slave root iflink s) [
            | none ↦ none
            | some s' ↦ add_bond_loop root master_ifindex links s'
          ]
          | false ↦ add_bond_loop root master_ifindex links s
        ]

    -- add_bond_info
    unfoldable pub add_bond_info : Option ℕ → N → State D W → Option (State D W)
    add_bond_info none root s = some s
    add_bond_info (some ifindex) root (d, n) =
        add_bond_loop root ifindex (nl.all_links n.world) (d, n)

    -- The switch of add_type_specific_info.
    unfoldable pub add_info : IfType → Text → Option ℕ → N → State D W → Option (State D W)
    add_info type_ethernet ifname ifindex root s = some (add_ethernet_info ifindex root s)
    add_info type_bridge ifname ifindex root s = add_bridge_info ifname root s
    add_info type_vlan ifname ifindex root s = add_vlan_info ifindex root s
    add_info type_bond ifname ifindex root s = add_bond_info ifindex root s
    add_info type_none ifname ifindex root s = some s

    -- The body of add_type_specific_info.
    unfoldable pub add_type_body : Text → Option ℕ → N → State D W → Option (State D W)
    add_type_body ifname ifindex root (d, n) = elim (dom.new_prop d root (codes "name") ifname) [
      | none ↦ some (no_memory d n)
      | some d₁ ↦
          let (iftype, n₁) = if_type stat readdir ifname n in
          let typed : Option (State D W) = elim (if_type_str iftype) [
            | none ↦ add_info iftype ifname ifindex root (d₁, n₁)
            | some iftype_str ↦ elim (dom.set_prop d₁ root (codes "type") iftype_str) [
              | none ↦ some (no_memory d₁ n₁)
              | some d₂ ↦ add_info iftype ifname ifindex root (d₂, n₁)
            ]
          ] in
          if failed n₁ then some (d₁, n₁) else typed
    ]

  -- add_type_specific_info
  unfoldable pub add_type_specific_info : ℕ → Text → Option ℕ → N → State D W → Option (State D W)
  add_type_specific_info zero ifname ifindex root s = none
  add_type_specific_info (suc depth) ifname ifindex root s =
      add_type_body (add_type_specific_info depth) ifname ifindex root s

  -- add_state_to_xml_doc, behind the refills of the caches.
  unfoldable pub add_refilled : ℕ → Text → N → State D W → Option (State D W)
  add_refilled depth name root (d, n) =
      let ifindex = nl.name2i n.world name in
      elim (add_type_specific_info depth name ifindex root (d, n)) [
        | none ↦ none
        | some (d₁, n₁) ↦ some (if failed n₁ then (d₁, n₁) else add_ip_info ifindex root (d₁, n₁))
      ]

  -- add_state_to_xml_doc
  unfoldable pub add_state_to_xml_doc : ℕ → NetcfIf → State D W → Option (State D W)
  add_state_to_xml_doc depth nif (d, n) = elim (dom.root d) [
    | none ↦ some (d, report_error einternal (some (codes "failed to get document root element")) n)
    | some root ↦
        let (links_ok, w₁) = nl.refill_links n.world in
        let n₁ : Netcf W = record n { world = w₁ } in
        let (addrs_ok, w₂) = nl.refill_addrs w₁ in
        let n₂ : Netcf W = record n { world = w₂ } in
        if not (is_interface (dom.node_name d root))
        then some (d, report_error einternal (some (codes "root document is not an interface")) n)
        else if not links_ok
        then some
            (d, report_error enetlink (some (codes "failed to refill interface index cache")) n₁)
        else if not addrs_ok
        then some
            (d, report_error enetlink (some (codes "failed to refill interface address cache")) n₂)
        else add_refilled depth nif.name root (d, n₂)
  ]

  -- drv_xml_state; `save` is xsltSaveResultToString with the stylesheet of the driver.
  unfoldable pub drv_xml_state :
      (D → ℤ × Option Text) → ℕ → NetcfIf → Netcf W → Option (Option Text × Netcf W)
  drv_xml_state save depth nif n = elim dom.new_doc [
    | none ↦ some (none, set_errcode enomem n)
    | some ncf_xml ↦ elim (dom.new_root ncf_xml (codes "interface")) [
      | none ↦ some (none, set_errcode enomem n)
      | some d ↦ elim (add_state_to_xml_doc depth nif (d, n)) [
        | none ↦ none
        | some (d₁, n₁) ↦
            let (r, result) = save d₁ in
            some (
              if failed n₁
              then (none, n₁)
              else if is_neg r
              then (none, set_errcode enomem n₁)
              else (result, n₁))
      ]
    ]
  ]
