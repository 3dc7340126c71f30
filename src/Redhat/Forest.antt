-- ===== src/Redhat/Forest.antt =====
-- The tree as a document and back, in src/drv_redhat.c: aug_get_xml, aug_get_xml_for_nif and aug_put_xml. Of a document that
-- the stylesheets read and write, the code uses the view `Forest`.
use fbsd_netcf.Prelude.{
  ℕ, ◌+◌, not, List, [], ◌∷◌, ◌++◌, Option, none, some, Text, codes, drop, length, if◌then◌else◌,
  is_neg, streq,
}
use fbsd_netcf.Netcf.{Netcf, enomem, eother, einternal, report_error, set_errcode, allocate, failed}
use fbsd_netcf.Linux.{Augeas, AugeasPv, LinuxDriver, get_augeas, holding}
use fbsd_netcf.Linux.Format.{aug_fmt_match}
use fbsd_netcf.Redhat.Find.{follow, with_augeas, mentions}
use fbsd_netcf.Redhat.Paths.{uniq_ifcfg_paths}

-- A node of a tree, by its attributes, of which one that is missing is NULL.
pub record Node : Type 0 where
  pub label : Option Text
  pub value : Option Text

pub record Tree : Type 0 where
  pub name : Text
  pub path : Option Text
  pub nodes : List Node

pub record Forest : Type 0 where
  pub name : Text
  pub trees : List Tree

module _ {A V : Type 0} (L : Augeas A V) (contents : ℕ → List AugeasPv) where
  -- The inner loop of aug_get_xml: the nodes, or `none` at error.
  unfoldable pub node_loop : A → Text → List Text → Option (List Node)
  node_loop aug path [] = some []
  node_loop aug path (match ∷ matches) =
      let (r, value) = L.aug_get aug match in
      let node : Node = record { label = some (drop (length path + 1) match); value = value } in
      let rest = node_loop aug path matches in
      let all : Option (List Node) = elim rest [ none ↦ none | some nodes ↦ some (node ∷ nodes) ] in
      if is_neg r then none else all

  -- The outer loop. A path of NULL is printed.
  unfoldable pub tree_loop :
      List (Option Text)
      → Netcf (LinuxDriver A V)
      → Option (Option (List Tree) × Netcf (LinuxDriver A V))
  unfolding node_loop follow with_augeas
  tree_loop [] n = some (some [], n)
  tree_loop (none ∷ intf) n = none
  tree_loop (some path ∷ intf) n =
      let ((_, matches), n₁) = aug_fmt_match L contents (path ++ codes "/*") n in
      let rest = tree_loop intf n₁ in
      if failed n₁
      then some (none, n₁)
      else with_augeas n₁ (λ aug.
        let r : Option (Option (List Tree) × Netcf (LinuxDriver A V)) =
          elim (node_loop aug path matches) [
            | none ↦ some (none, set_errcode eother n₁)
            | some nodes ↦ follow rest (λ trees n₂. some (
              elim trees [
                | none ↦ none
                | some l ↦
                    some (record { name = codes "tree"; path = some path; nodes = nodes } ∷ l)
              ],
              n₂,
            ))
          ] in
        r)

  unfoldable pub aug_get_xml :
      List (Option Text)
      → Netcf (LinuxDriver A V)
      → Option (Option Forest × Netcf (LinuxDriver A V))
  unfolding tree_loop
  aug_get_xml intf n =
      let (_, n₁) = get_augeas L contents n in
      if failed n₁
      then some (none, n₁)
      else follow (tree_loop intf n₁) (λ trees n₂. some (
        elim trees [ none ↦ none | some l ↦ some (record { name = codes "forest"; trees = l }) ],
        n₂,
      ))

  unfoldable pub aug_get_xml_for_nif :
      Text → Netcf (LinuxDriver A V) → Option (Option Forest × Netcf (LinuxDriver A V))
  unfolding aug_get_xml
  aug_get_xml_for_nif name n =
      let ((_, devs), n₁) =
        aug_fmt_match L contents
          (mentions (codes " ") (codes " ") (codes "    ") name ++ codes "/DEVICE") n in
      if failed n₁
      then some (none, n₁)
      else follow (uniq_ifcfg_paths L contents devs n₁) (λ intf n₂.
        if failed n₂
        then some (none, n₂)
        else (let r : Option (Option Forest × Netcf (LinuxDriver A V)) = elim intf [
          | none ↦ some (none, n₂)
          | some paths ↦ aug_get_xml paths n₂
        ] in
            r))

  -- aug_set for a node, at a path that is formatted.
  unfoldable pub put_node :
      Text → Node → Netcf (LinuxDriver A V) → Option (Unit {0} × Netcf (LinuxDriver A V))
  put_node path node n =
      let (ok, n₁) = allocate n in
      elim node.label [
        | none ↦ none
        | some label ↦
            if not ok
            then some (tt, set_errcode enomem n₁)
            else with_augeas n₁ (λ aug.
              let (r, aug') = L.aug_set aug (path ++ (b'/' ∷ label)) node.value in
              let n₂ : Netcf (LinuxDriver A V) = holding aug' n₁ in
              some (
                tt,
                if is_neg r
                    then report_error eother (some (codes "aug_set of '%s' failed")) n₂
                    else n₂,
              ))
      ]

  unfoldable pub put_nodes :
      Text → List Node → Netcf (LinuxDriver A V) → Option (Unit {0} × Netcf (LinuxDriver A V))
  unfolding put_node
  put_nodes path [] n = some (tt, n)
  put_nodes path (node ∷ nodes) n = elim (put_node path node n) [
    | none ↦ none
    | some (_, n₁) ↦ let rest = put_nodes path nodes n₁ in if failed n₁ then some (tt, n₁) else rest
  ]

  -- A tree: its old nodes are removed, then the new ones are set. A path of NULL is handed to libaugeas.
  unfoldable pub put_tree :
      Tree → Netcf (LinuxDriver A V) → Option (Unit {0} × Netcf (LinuxDriver A V))
  unfolding put_nodes with_augeas
  put_tree tree n =
      let removed : Option (Unit {0} × Netcf (LinuxDriver A V)) = elim tree.path [
        | none ↦ none
        | some path ↦ with_augeas n (λ aug.
            let (r, aug') = L.aug_rm aug path in
            if is_neg r
            then some
                (tt, report_error einternal (some (codes "aug_rm of '%s' failed")) (holding aug' n))
            else put_nodes path tree.nodes (holding aug' n))
      ] in
      if not (streq tree.name (codes "tree"))
      then some
          (tt, report_error einternal (some (codes "expected node labeled 'tree', not '%s'")) n)
      else removed

  unfoldable pub put_trees :
      List Tree → Netcf (LinuxDriver A V) → Option (Unit {0} × Netcf (LinuxDriver A V))
  unfolding put_tree
  put_trees [] n = some (tt, n)
  put_trees (tree ∷ trees) n = elim (put_tree tree n) [
    | none ↦ none
    | some (_, n₁) ↦ let rest = put_trees trees n₁ in if failed n₁ then some (tt, n₁) else rest
  ]

  -- aug_put_xml, whose result the caller leaves: it is -1 exactly where there is an error.
  unfoldable pub aug_put_xml :
      Option Forest → Netcf (LinuxDriver A V) → Option (Unit {0} × Netcf (LinuxDriver A V))
  unfolding put_trees
  aug_put_xml xml n =
      let (_, n₁) = get_augeas L contents n in
      let put : Option (Unit {0} × Netcf (LinuxDriver A V)) = elim xml [
        | none ↦ some (tt, report_error einternal (some (codes "missing root element")) n₁)
        | some forest ↦
            if not (streq forest.name (codes "forest"))
            then some (
              tt,
              report_error einternal (some (codes "expected root node labeled 'forest', not '%s'"))
                  n₁,
            )
            else put_trees forest.trees n₁
      ] in
      if failed n₁ then some (tt, n₁) else put
