-- ===== src/Suse/Forest.antt =====
-- A document put into the tree: aug_put_xml of src/drv_suse.c; Suse/Forest/Get has aug_get_xml and aug_get_xml_for_nif. A document is the `Forest` of the
-- backend for Red Hat.
use fbsd_netcf.Prelude.{
  ℕ, Bool, true, false, not, ◌&&◌, ◌||◌, ◌==◌, List, [], ◌∷◌, ◌++◌, Option, none, some, Text, codes,
  if◌then◌else◌, is_neg, streq, has_prefix,
}
use fbsd_netcf.Netcf.{Netcf, eother, einternal, report_error, set_errcode, allocate, failed}
use fbsd_netcf.Linux.{Augeas, AugeasPv, LinuxDriver, get_augeas, holding}
use fbsd_netcf.Linux.Format.{aug_fmt_match}
use fbsd_netcf.Linux.Hwaddr.{if_hwaddr}
use fbsd_netcf.Redhat.Find.{follow, with_augeas}
use fbsd_netcf.Redhat.Forest.{Node, Tree, Forest, node_loop, put_node, put_nodes}
use fbsd_netcf.Suse.Files.{
  Dirent, aug_files, network_scripts_path, udev_netrule_path, ifcfg_file, find_ifcfg_file_by_name,
  find_hwaddr_by_device,
}
pub mod Get

-- What aug_put_xml keeps from one node to the next. A pointer that is NULL is `none`.
pub record PutState : Type 0 where
  pub device : Option Text
  pub mac : Option Text
  pub gateway : Option Text
  pub ethphysical : Bool
  pub toplevel : Bool

abbrev pub no_nodes : PutState
no_nodes = record {
  device = none;
  mac = none;
  gateway = none;
  ethphysical = false;
  toplevel = true;
}

-- strchr (s, '.') != NULL
unfoldable pub has_dot : Text → Bool
has_dot [] = false
has_dot (c ∷ s) = if c == b'.' then true else has_dot s

-- The assignments for a node with this label: the new state, `none` inside where the node is to be set in the tree. A value of NULL is
-- searched for a dot.
unfoldable pub note : Text → Option Text → PutState → Option (Option PutState)
unfolding has_dot has_prefix
note label value s =
    let named : Option (Option PutState) = elim value [
      | none ↦ none
      | some v ↦ some (
          some (record s {
            device = some v;
            ethphysical = s.ethphysical || (not (has_dot v) && has_prefix (codes "eth") v);
          }))
    ] in
    if streq label (codes "DEVICE")
    then named
    else if streq label (codes "HWADDR")
    then some (some (record s { mac = value }))
    else if streq label (codes "GATEWAY")
    then some (some (record s { gateway = value }))
    else some none

-- The state behind the test for a slave.
unfoldable pub note_slave : Text → PutState → PutState
note_slave label s =
    if streq label (codes "BRIDGE") || streq label (codes "BONDING_MASTER")
    then record s { toplevel = false }
    else s

-- The nodes for the default route, and those for the rule of udev; `os113` says whether OS113 is defined.
unfoldable pub route_nodes : Text → Text → List Node
route_nodes device gateway =
    record { label = some (codes "gateway"); value = some gateway }
    ∷ record { label = some (codes "netmask"); value = some (codes "-") }
    ∷ record { label = some (codes "device"); value = some device }
    ∷ []

unfoldable pub rule_nodes : Bool → Text → List Node
rule_nodes os113 mac =
    record { label = some (codes "SUBSYSTEM"); value = some (codes "net") }
    ∷ record { label = some (codes "ACTION"); value = some (codes "add") }
    ∷ record { label = some (codes "DRIVERS"); value = some (codes "?*") }
    ∷ record { label = some (codes "ATTR{address}"); value = some mac }
    ∷ ((if os113
          then record { label = some (codes "ATTR{dev_id}"); value = some (codes "0x0") } ∷ []
          else [])
        ++ (record { label = some (codes "ATTR{type}"); value = some (codes "1") }
            ∷ record { label = some (codes "KERNEL"); value = some (codes "eth*") }
            ∷ []))

module _ {A V : Type 0} (L : Augeas A V) (contents : ℕ → List AugeasPv) where
  -- The body of the loop of aug_put_xml over the nodes of a tree. A label of NULL is handed to strcmp.
  unfoldable pub put_noted :
      Text → Node → PutState → Netcf (LinuxDriver A V) → Option (PutState × Netcf (LinuxDriver A V))
  unfolding note note_slave put_node follow
  put_noted path node s n = elim node.label [
    | none ↦ none
    | some label ↦ elim (note label node.value (note_slave label s)) [
      | none ↦ none
      | some (some s') ↦ some (s', n)
      | some none ↦ follow (put_node L contents path node n) (λ _ n'. some (note_slave label s, n'))
    ]
  ]

  unfoldable pub noted_nodes :
      Text
      → List Node
      → PutState
      → Netcf (LinuxDriver A V)
      → Option (PutState × Netcf (LinuxDriver A V))
  unfolding put_noted
  noted_nodes path [] s n = some (s, n)
  noted_nodes path (node ∷ nodes) s n = elim (put_noted path node s n) [
    | none ↦ none
    | some (s₁, n₁) ↦
        let rest = noted_nodes path nodes s₁ n₁ in if failed n₁ then some (s₁, n₁) else rest
  ]

  -- A tree: its old nodes are removed. A path of NULL is handed to libaugeas.
  unfoldable pub put_tree :
      Tree → PutState → Netcf (LinuxDriver A V) → Option (PutState × Netcf (LinuxDriver A V))
  unfolding noted_nodes with_augeas
  put_tree tree s n =
      let removed : Option (PutState × Netcf (LinuxDriver A V)) = elim tree.path [
        | none ↦ none
        | some path ↦ with_augeas n (λ aug.
            let (r, aug') = L.aug_rm aug path in
            if is_neg r
            then some
                (s, report_error einternal (some (codes "aug_rm of '%s' failed")) (holding aug' n))
            else noted_nodes path tree.nodes s (holding aug' n))
      ] in
      if not (streq tree.name (codes "tree"))
      then some
          (s, report_error einternal (some (codes "expected node labeled 'tree', not '%s'")) n)
      else removed

  unfoldable pub put_trees :
      List Tree → PutState → Netcf (LinuxDriver A V) → Option (PutState × Netcf (LinuxDriver A V))
  unfolding put_tree
  put_trees [] s n = some (s, n)
  put_trees (tree ∷ trees) s n = elim (put_tree tree s n) [
    | none ↦ none
    | some (s₁, n₁) ↦ let rest = put_trees trees s₁ n₁ in if failed n₁ then some (s₁, n₁) else rest
  ]

-- `get_hwaddr` is the ioctl of if_hwaddr.
module _ {A V : Type 0} (L : Augeas A V) (contents : ℕ → List AugeasPv)
    (get_hwaddr : V → Text → Option (List ℕ)) (os113 : Bool) where
  -- The MAC for the rule of udev: the one of the document, or that of the kernel. The result of malloc is not tested.
  unfoldable pub mac_of_device :
      Text → PutState → Netcf (LinuxDriver A V) → Option (Option Text × Netcf (LinuxDriver A V))
  unfolding if_hwaddr
  mac_of_device device s n =
      let (ok, n₁) = allocate n in
      elim s.mac [
        | some mac ↦ some (some mac, n)
        | none ↦
            if not (s.ethphysical && s.toplevel)
            then some (none, n)
            else if not ok
            then none
            else some (if_hwaddr get_hwaddr device n₁.world.system, n₁)
      ]

  -- The default route and the rule of udev, for a device that is a card of its own.
  unfoldable pub put_device :
      Text → PutState → Netcf (LinuxDriver A V) → Option (Unit {0} × Netcf (LinuxDriver A V))
  unfolding mac_of_device route_nodes rule_nodes put_nodes follow
  put_device device s n = follow (mac_of_device device s n) (λ mac n₁.
      let routed : Option (Unit {0} × Netcf (LinuxDriver A V)) = elim s.gateway [
        | none ↦ some (tt, n₁)
        | some gateway ↦
            put_nodes L contents (aug_files ++ (network_scripts_path ++ codes "/routes/default"))
              (route_nodes device gateway) n₁
      ] in
      if not (s.ethphysical && s.toplevel)
      then some (tt, n₁)
      else follow routed (λ _ n₂.
        if failed n₂
        then some (tt, n₂)
        else (let r : Option (Unit {0} × Netcf (LinuxDriver A V)) = elim mac [
          | none ↦ some (tt, n₂)
          | some address ↦
              put_nodes L contents (aug_files ++ (udev_netrule_path ++ (b'/' ∷ device)))
                (rule_nodes os113 address) n₂
        ] in
            r)))

  -- aug_put_xml, whose result the caller leaves: it is -1 exactly where there is an error.
  unfoldable pub aug_put_xml :
      Option Forest → Netcf (LinuxDriver A V) → Option (Unit {0} × Netcf (LinuxDriver A V))
  unfolding put_trees put_device follow
  aug_put_xml xml n =
      let (_, n₁) = get_augeas L contents n in
      let put : Option (Unit {0} × Netcf (LinuxDriver A V)) = elim xml [
        | none ↦ some (tt, report_error einternal (some (codes "missing root element")) n₁)
        | some forest ↦
            if not (streq forest.name (codes "forest"))
            then some (
              tt,
              report_error einternal (some (codes "expected root node labeled 'forest', not '%s'"))
                  n₁,
            )
            else follow (put_trees L contents forest.trees no_nodes n₁) (λ s n₂.
              if failed n₂
              then some (tt, n₂)
              else (let r : Option (Unit {0} × Netcf (LinuxDriver A V)) = elim s.device [
                | none ↦ some (tt, n₂)
                | some device ↦ put_device device s n₂
              ] in
                  r))
      ] in
      if failed n₁ then some (tt, n₁) else put
