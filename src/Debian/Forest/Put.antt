-- ===== src/Debian/Forest/Put.antt =====
-- A document put into the tree: aug_put_xml of src/drv_debian.c.
use fbsd_netcf.Prelude.{
  ℕ, ◌+◌, ◌-◌, ◌^◌, not, List, [], ◌∷◌, ◌++◌, Option, none, some, Text, codes, ltb, ◌==◌,
  if◌then◌else◌, is_neg, streq,
}
use fbsd_netcf.Netcf.{Netcf, eother, einternal, report_error, failed}
use fbsd_netcf.Linux.{Augeas, AugeasPv, LinuxDriver}
use fbsd_netcf.Linux.Format.{aug_fmt_match, aug_fmt_set}
use fbsd_netcf.Redhat.Sort.{last_of}
use fbsd_netcf.Redhat.Find.{err_cond}
use fbsd_netcf.Redhat.Forest.{Node}
use fbsd_netcf.Debian.Deps.{network_interfaces_path}
use fbsd_netcf.Debian.Forest.{Element, Array, Tree, Forest}

-- strrchr (s, '[') + 1; `none` if there is no bracket.
unfoldable pub behind_last_bracket : Text → Option Text
behind_last_bracket [] = none
behind_last_bracket (c ∷ s) = elim (behind_last_bracket s) [
  | some rest ↦ some rest
  | none ↦ if c == b'[' then some s else none
]

-- The loops of aug_put_xml. `decimal` is the number that vasprintf prints for %d, and `strtol` the number that a text starts with,
-- here the index of a node.
module _ {A V : Type 0} (L : Augeas A V) (contents : ℕ → List AugeasPv) (decimal : ℕ → Text)
    (strtol : Text → ℕ) where
  -- "%s/%s[%d]" with the path of the file
  unfoldable pub array_path : Text → ℕ → Text
  array_path arraylabel i =
      network_interfaces_path ++ (b'/' ∷ (arraylabel ++ (b'[' ∷ (decimal i ++ codes "]"))))

  -- The loop over the nodes of an element.
  unfoldable pub put_nodes :
      Text → ℕ → List Node → Netcf (LinuxDriver A V) → Netcf (LinuxDriver A V)
  unfolding array_path
  put_nodes arraylabel i [] n = n
  put_nodes arraylabel i (node ∷ nodes) n =
      let label : Text = elim node.label [ none ↦ codes "1" | some l ↦ l ] in
      let (r, n₁) =
        aug_fmt_set L contents node.value
          (array_path arraylabel i ++ (b'/' ∷ (label ++ codes "[last()+1]"))) n in
      let n₂ = err_cond (is_neg r) eother n₁ in
      let rest = put_nodes arraylabel i nodes n₂ in if failed n₂ then n₂ else rest

  -- An element, with the number of the node that it becomes.
  unfoldable pub put_element :
      Text → ℕ → Element → Netcf (LinuxDriver A V) → Netcf (LinuxDriver A V)
  unfolding put_nodes array_path
  put_element arraylabel i element n = elim element.key [
    | none ↦ put_nodes arraylabel i element.nodes n
    | some key ↦
        let (r, n₁) = aug_fmt_set L contents (some key) (array_path arraylabel i) n in
        let n₂ = err_cond (is_neg r) eother n₁ in
        if failed n₂ then n₂ else put_nodes arraylabel i element.nodes n₂
  ]

  -- The loop over the elements behind the node with number i. The counter is an int, whose overflow is undefined.
  unfoldable pub put_elements :
      Text
      → ℕ
      → List Element
      → Netcf (LinuxDriver A V)
      → Option (Unit {0} × Netcf (LinuxDriver A V))
  unfolding put_element
  put_elements arraylabel i [] n = some (tt, n)
  put_elements arraylabel i (element ∷ elements) n =
      let n₁ = put_element arraylabel (i + 1) element n in
      let rest = put_elements arraylabel (i + 1) elements n₁ in
      if not (streq element.name (codes "element"))
      then some
          (tt, report_error einternal (some (codes "expected node labeled 'element', not '%s'")) n)
      else if not (ltb i (2 ^ 31 - 1))
      then none
      else if failed n₁
      then some (tt, n₁)
      else rest

  -- The number of the last node with the label, 0 if there is none.
  unfoldable pub last_index : List Text → ℕ
  unfolding last_of behind_last_bracket
  last_index matches = elim (last_of matches) [
    | none ↦ 0
    | some match ↦ elim (behind_last_bracket match) [ none ↦ 1 | some start ↦ strtol start ]
  ]

  -- An array. A label of NULL is printed.
  unfoldable pub put_array :
      Array → Netcf (LinuxDriver A V) → Option (Unit {0} × Netcf (LinuxDriver A V))
  unfolding put_elements last_index
  put_array array n =
      let put : Option (Unit {0} × Netcf (LinuxDriver A V)) = elim array.label [
        | none ↦ none
        | some arraylabel ↦
            let ((nmatches, matches), n₁) =
              aug_fmt_match L contents
                (network_interfaces_path ++ (b'/' ∷ (arraylabel ++ codes "[last()]"))) n in
            let n₂ = err_cond (is_neg nmatches) eother n₁ in
            if failed n₂
            then some (tt, n₂)
            else put_elements arraylabel (last_index matches) array.elements n₂
      ] in
      if not (streq array.name (codes "array"))
      then some
          (tt, report_error einternal (some (codes "expected node labeled 'array', not '%s'")) n)
      else put

  unfoldable pub put_arrays :
      List Array → Netcf (LinuxDriver A V) → Option (Unit {0} × Netcf (LinuxDriver A V))
  unfolding put_array
  put_arrays [] n = some (tt, n)
  put_arrays (array ∷ arrays) n = elim (put_array array n) [
    | none ↦ none
    | some (_, n₁) ↦ let rest = put_arrays arrays n₁ in if failed n₁ then some (tt, n₁) else rest
  ]

  unfoldable pub put_trees :
      List Tree → Netcf (LinuxDriver A V) → Option (Unit {0} × Netcf (LinuxDriver A V))
  unfolding put_arrays
  put_trees [] n = some (tt, n)
  put_trees (tree ∷ trees) n =
      let arrays : Option (Unit {0} × Netcf (LinuxDriver A V)) = elim (put_arrays tree.arrays n) [
        | none ↦ none
        | some (_, n₁) ↦ let rest = put_trees trees n₁ in if failed n₁ then some (tt, n₁) else rest
      ] in
      if not (streq tree.name (codes "tree"))
      then some
          (tt, report_error einternal (some (codes "expected node labeled 'tree', not '%s'")) n)
      else arrays

  -- aug_put_xml, whose result the caller leaves: it is -1 exactly where there is an error.
  unfoldable pub aug_put_xml :
      Option Forest → Netcf (LinuxDriver A V) → Option (Unit {0} × Netcf (LinuxDriver A V))
  unfolding put_trees
  aug_put_xml none n = some (tt, report_error einternal (some (codes "missing root element")) n)
  aug_put_xml (some forest) n =
      if not (streq forest.name (codes "forest"))
      then some (
        tt,
        report_error einternal (some (codes "expected root node labeled 'forest', not '%s'")) n,
      )
      else put_trees forest.trees n
