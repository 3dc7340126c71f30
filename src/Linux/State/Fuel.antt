-- ===== src/Linux/State/Fuel.antt =====
-- How deep add_type_specific_info of src/dutil_linux.c goes.
use fbsd_netcf.Prelude.{
  ℕ, zero, suc, ◌<◌, ◌≡◌, ◌∙◌, ap, sym, refl, ◌&&◌, ◌==◌, List, [], ◌∷◌, Option, none, some, Text,
  codes, All, arith,
}
use fbsd_netcf.Netcf.{Netcf, enomem, report_error, set_errcode, allocate, failed}
use fbsd_netcf.Linux.Kinds.{
  FileKind, IfType, type_none, type_ethernet, type_bond, type_bridge, type_vlan, if_type,
  if_type_str, if_bridge_phys_name, if_type_world, ports_of, if_bridge_phys_name_world,
  if_bridge_phys_name-ports_of,
}
use fbsd_netcf.Linux.State.{Dom, Link, LinkCaches, State, xml_new_node, xml_node}
use fbsd_netcf.Linux.State.Links.{
  add_ethernet_info, master_of, add_master, add_vlan_loop, add_vlan_info, add_ports,
  add_bridge_info, add_slave, add_bond_loop, add_bond_info, add_info, add_type_body,
  add_type_specific_info,
}
use fbsd_netcf.Linux.State.Ends.{
  Ends, Ends-option, Ends-bind, Ends-bool, Ends-if, HasMasterBelow, HasNameBelow, AllBelow,
  add_ethernet_loop_world,
}

module _ {D N W : Type 0} (dom : Dom D N) (nl : LinkCaches W) (stat : W → Text → FileKind)
    (readdir : W → Text → List Text) (decimal : ℕ → Text) (w : W)
    (rec : Text → Option ℕ → N → State D W → Option (State D W)) (rank : Text → Option ℕ → ℕ)
    (bound : ℕ) where
  -- `rec` comes to an end for an interface.
  abbrev EndsFor : Text → Option ℕ → Type 0
  EndsFor name ifindex =
      (root : N) (d : D) (n : Netcf W) → n.world ≡ w → Ends w (rec name ifindex root (d, n))

  -- `rec` comes to an end for every interface below a rank.
  abbrev EndsBelow : Type 0
  EndsBelow = (name : Text) (ifindex : Option ℕ) → rank name ifindex < bound → EndsFor name ifindex

  add_ethernet_info-Ends :
      (ifindex : Option ℕ) (root : N) (d : D) (n : Netcf W)
      → n.world ≡ w
      → Ends w (some (add_ethernet_info dom nl stat readdir decimal ifindex root (d, n)))
  unfolding add_ethernet_info Ends allocate set_errcode
  add_ethernet_info-Ends none root d n e = e
  add_ethernet_info-Ends (some i) root d n e = ground (
    arith,
    add_ethernet_loop_world dom root (nl.links_of (allocate n).1.world i) d (allocate n).1,
  )

  add_master-Ends :
      (l : Link) (m : Text) (vlan : N) (d : D) (n : Netcf W)
      → EndsBelow
      → n.world ≡ w
      → ((k : ℕ) → nl.name2i w m ≡ some k → rank m (some k) < bound)
      → Ends w (add_master dom nl stat readdir decimal rec l m vlan (d, n))
  unfolding add_master Ends set_errcode report_error xml_new_node
  add_master-Ends l m vlan d n below e small =
      Ends-option w _ _ (dom.set_prop d vlan (codes "tag") (decimal l.vlan_id)) e λ d₁ x.
        Ends-option w _ _ (dom.new_child d₁ vlan (codes "interface")) e λ made y.
          Ends-option w _ _ (nl.name2i n.world m) (ground (arith, e)) λ k z.
            below m (some k) (small k (ap (λ v. nl.name2i v m) (sym e) ∙ z)) made.0 made.1 n e

  add_vlan_loop-Ends :
      (root : N) (links : List Link) (d : D) (n : Netcf W)
      → EndsBelow
      → n.world ≡ w
      → All (HasMasterBelow nl w rank bound) links
      → Ends w (add_vlan_loop dom nl stat readdir decimal rec root links (d, n))
  unfolding add_vlan_loop Ends set_errcode
  add_vlan_loop-Ends root [] d n below e small = e
  add_vlan_loop-Ends root (l ∷ links) d n below e (here, there) =
      Ends-option w _ _ (master_of nl n.world l) (add_vlan_loop-Ends root links d n below e there)
        λ m x.
          Ends-option w _ _ (xml_node dom d root (codes "vlan"))
            (add_vlan_loop-Ends root links d (set_errcode enomem n) below e there)
            λ made y.
              add_master-Ends l m made.0 made.1 n below e
                (λ k z. here m k (ap (λ v. master_of nl v l) (sym e) ∙ x) z)

  add_ports-Ends :
      (bridge_node : N) (names : List Text) (d : D) (n : Netcf W)
      → EndsBelow
      → n.world ≡ w
      → All (λ p. rank p (nl.name2i w p) < bound) names
      → Ends w (add_ports dom nl stat readdir decimal rec bridge_node names (d, n))
  unfolding add_ports Ends set_errcode xml_new_node
  add_ports-Ends bridge_node [] d n below e small = e
  add_ports-Ends bridge_node (p ∷ names) d n below e (here, there) =
      Ends-option w _ _ (dom.new_child d bridge_node (codes "interface")) e λ made y.
        Ends-bind w (rec p (nl.name2i n.world p) made.0 (made.1, n)) _
          (below p (nl.name2i n.world p) (rw e here) made.0 made.1 n e)
          λ d' n' e'. add_ports-Ends bridge_node names d' n' below e' there

  add_slave-Ends :
      (root : N) (l : Link) (d : D) (n : Netcf W)
      → EndsBelow
      → n.world ≡ w
      → (s : Text) × (l.name ≡ some s) × (rank s (some l.ifindex) < bound)
      → Ends w (add_slave dom nl stat readdir decimal rec root l (d, n))
  unfolding add_slave Ends set_errcode xml_new_node
  add_slave-Ends root l d n below e (s, named, small) =
      Ends-option w _ _ (xml_node dom d root (codes "bond")) e λ made y.
        Ends-option w _ _ (dom.new_child made.1 made.0 (codes "interface")) e
          λ made' y'. rw named (below s (some l.ifindex) small made'.0 made'.1 n e)

  add_bond_loop-Ends :
      (root : N) (i : ℕ) (links : List Link) (d : D) (n : Netcf W)
      → EndsBelow
      → n.world ≡ w
      → All (HasNameBelow rank bound i) links
      → Ends w (add_bond_loop dom nl stat readdir decimal rec root i links (d, n))
  unfolding add_bond_loop Ends
  add_bond_loop-Ends root i [] d n below e small = e
  add_bond_loop-Ends root i (l ∷ links) d n below e (here, there) =
      Ends-bool w _ _ (l.is_slave && l.master == i)
        (λ slave.
          Ends-bind w (add_slave dom nl stat readdir decimal rec root l (d, n)) _
            (add_slave-Ends root l d n below e (here slave))
            λ d' n' e'. add_bond_loop-Ends root i links d' n' below e' there)
        λ other. add_bond_loop-Ends root i links d n below e there

  -- What lies below an interface has a lower rank.
  add_info-Ends :
      (kind : IfType) (name : Text) (ifindex : Option ℕ) (root : N) (d : D) (n : Netcf W)
      → EndsBelow
      → n.world ≡ w
      → AllBelow nl stat readdir w rank bound name ifindex
      → Ends w (add_info dom nl stat readdir decimal rec kind name ifindex root (d, n))
  unfolding add_info Ends add_bridge_info add_vlan_info add_bond_info allocate set_errcode
  add_info-Ends type_none name ifindex root d n below e all = e
  add_info-Ends type_ethernet name ifindex root d n below e all =
      add_ethernet_info-Ends ifindex root d n e
  add_info-Ends type_vlan name none root d n below e all = e
  add_info-Ends type_vlan name (some i) root d n below e all =
      Ends-if w _ _ (allocate n).0
        (add_vlan_loop-Ends root (nl.links_of n.world i) d (allocate n).1 below e
          (rw e (all.masters i refl)))
        e
  add_info-Ends type_bond name none root d n below e all = e
  add_info-Ends type_bond name (some i) root d n below e all =
      add_bond_loop-Ends root i (nl.all_links n.world) d n below e (rw e (all.slaves i refl))
  add_info-Ends type_bridge name ifindex root d n below e all =
      let (e', _) = if_bridge_phys_name_world stat readdir name n in
      let n₁ = (if_bridge_phys_name stat readdir name n).1 in
      Ends-option w _ _ (xml_node dom d root (codes "bridge")) e λ made y.
        Ends-option w _ _ (if_bridge_phys_name stat readdir name n).0 (e' ∙ e) λ found z.
          let same : ports_of stat readdir name w ≡ found =
            ap (ports_of stat readdir name) (sym e)
            ∙ if_bridge_phys_name-ports_of stat readdir name n found z in
          add_ports-Ends made.0 found made.1 n₁ below (e' ∙ e) (rw (← same) all.ports)

  add_type_body-Ends :
      (name : Text) (ifindex : Option ℕ) (root : N) (d : D) (n : Netcf W)
      → EndsBelow
      → n.world ≡ w
      → AllBelow nl stat readdir w rank bound name ifindex
      → Ends w (add_type_body dom nl stat readdir decimal rec name ifindex root (d, n))
  unfolding add_type_body Ends set_errcode
  add_type_body-Ends name ifindex root d n below e all =
      let (kind, n₁) = if_type stat readdir name n in
      let e' = if_type_world stat readdir name n ∙ e in
      let goes = λ (d' : D). add_info-Ends kind name ifindex root d' n₁ below e' all in
      Ends-option w _ _ (dom.new_prop d root (codes "name") name) e λ d₁ x.
        Ends-if w _ _ (failed n₁) e' (
          Ends-option w _ _ (if_type_str kind) (goes d₁) λ text y.
            Ends-option w _ _ (dom.set_prop d₁ root (codes "type") text) e' λ d₂ z. goes d₂)

module _ {D N W : Type 0} (dom : Dom D N) (nl : LinkCaches W) (stat : W → Text → FileKind)
    (readdir : W → Text → List Text) (decimal : ℕ → Text) where
  -- If interfaces have ranks such that the interfaces of a bridge, the link below a VLAN and the slaves of a bond have a lower rank than it, and
  -- every slave has a name, add_type_specific_info comes to an end for every interface, within calls as deep as one more than its rank, whatever
  -- allocations fail, and leaves the world as it was.
  pub add_type_specific_info-Ends :
      (rank : Text → Option ℕ → ℕ) (w : W)
      → ((name : Text) (ifindex : Option ℕ)
          → AllBelow nl stat readdir w rank (rank name ifindex) name ifindex)
      → (depth : ℕ) (name : Text) (ifindex : Option ℕ) (root : N) (d : D) (n : Netcf W)
      → rank name ifindex < depth
      → n.world ≡ w
      → Ends w (add_type_specific_info dom nl stat readdir decimal depth name ifindex root (d, n))
  unfolding add_type_specific_info
  add_type_specific_info-Ends rank w layered zero name ifindex root d n deep e =
      absurd (omega (arith, deep))
  add_type_specific_info-Ends rank w layered (suc depth) name ifindex root d n deep e =
      add_type_body-Ends dom nl stat readdir decimal w
        (add_type_specific_info dom nl stat readdir decimal depth) rank (rank name ifindex) name
        ifindex root d n
        (λ m k small root' d' n' e'.
          add_type_specific_info-Ends rank w layered depth m k root' d' n'
            (omega (arith, small, deep)) e')
        e (layered name ifindex)
