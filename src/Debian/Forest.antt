-- ===== src/Debian/Forest.antt =====
-- The tree as a document, in src/drv_debian.c: aug_get_xml_for_intf and aug_get_xml. Of a document that the
-- stylesheets read and write, the code uses the view `Forest`.
use fbsd_netcf.Prelude.{
  ℕ, ◌+◌, ◌-◌, ◌^◌, not, List, [], ◌∷◌, ◌++◌, Option, none, some, Text, codes, ltb, ◌==◌,
  if◌then◌else◌, is_neg, is_zero, streq,
}
use fbsd_netcf.Netcf.{Netcf, eother, einternal, report_error, set_errcode, failed}
use fbsd_netcf.Linux.{Augeas, AugeasPv, LinuxDriver, get_augeas}
use fbsd_netcf.Linux.Format.{aug_fmt_match, aug_fmt_set}
use fbsd_netcf.Redhat.Sort.{last_of}
use fbsd_netcf.Redhat.Find.{follow, with_augeas, err_cond}
use fbsd_netcf.Redhat.Forest.{Node, node_loop}
use fbsd_netcf.Debian.Deps.{
  network_interfaces_path, iface_named, follow_bail, is_bond, is_bridge, bond_slaves, bridge_ports,
}
pub mod Put

-- The elements, by their names and attributes, of which one that is missing is NULL.
pub record Element : Type 0 where
  pub name : Text
  pub key : Option Text
  pub nodes : List Node

pub record Array : Type 0 where
  pub name : Text
  pub label : Option Text
  pub elements : List Element

pub record Tree : Type 0 where
  pub name : Text
  pub path : Option Text
  pub arrays : List Array

pub record Forest : Type 0 where
  pub name : Text
  pub trees : List Tree

-- The array of the element `auto`, which has the name of the interface as its only node.
abbrev auto_array : Text → Array
auto_array name = record {
  name = codes "array";
  label = some (codes "auto");
  elements =
      record {
        name = codes "element";
        key = none;
        nodes = record { label = none; value = some name } ∷ [];
      }
      ∷ [];
}

-- The document of aug_get_xml with the elements of the interfaces; `auto` says whether the file has that entry.
unfoldable pub document_of : List Array → List Element → Forest
document_of auto elements = record {
  name = codes "forest";
  trees =
      record {
        name = codes "tree";
        path = some network_interfaces_path;
        arrays =
            auto
            ++ (record { name = codes "array"; label = some (codes "iface"); elements = elements }
                ∷ []);
      }
      ∷ [];
}

module _ {A V : Type 0} (L : Augeas A V) (contents : ℕ → List AugeasPv) where
  -- The loop of aug_get_xml_for_intf: an element for each node, or `none` inside at error.
  unfoldable pub element_loop :
      Text
      → List Text
      → Netcf (LinuxDriver A V)
      → Option (Option (List Element) × Netcf (LinuxDriver A V))
  unfolding node_loop follow with_augeas
  element_loop name [] n = some (some [], n)
  element_loop name (path ∷ intf) n =
      let ((_, matches), n₁) = aug_fmt_match L contents (path ++ codes "/*") n in
      let rest = element_loop name intf n₁ in
      if failed n₁
      then some (none, n₁)
      else with_augeas n₁ (λ aug.
        let r : Option (Option (List Element) × Netcf (LinuxDriver A V)) =
          elim (node_loop L contents aug path matches) [
            | none ↦ some (none, set_errcode eother n₁)
            | some nodes ↦ follow rest (λ elements n₂. some (
              elim elements [
                | none ↦ none
                | some l ↦
                    some (record { name = codes "element"; key = some name; nodes = nodes } ∷ l)
              ],
              n₂,
            ))
          ] in
        r)

  -- aug_get_xml_for_intf: the elements that it puts into the array, or `none` inside where it gives -1.
  unfoldable pub aug_get_xml_for_intf :
      Text → Netcf (LinuxDriver A V) → Option (Option (List Element) × Netcf (LinuxDriver A V))
  unfolding element_loop
  aug_get_xml_for_intf name n =
      let (_, n₁) = get_augeas L contents n in
      let ((_, intf), n₂) = aug_fmt_match L contents (iface_named name ++ codes "]") n₁ in
      if failed n₁
      then some (none, n₁)
      else if failed n₂
      then some (none, n₂)
      else element_loop name intf n₂

  -- The loop over the slaves of a bond.
  unfoldable pub slaves_loop :
      List Text → Netcf (LinuxDriver A V) → Option (Option (List Element) × Netcf (LinuxDriver A V))
  unfolding aug_get_xml_for_intf follow_bail
  slaves_loop [] n = some (some [], n)
  slaves_loop (slave ∷ slaves) n = follow_bail (aug_get_xml_for_intf slave n) (λ elements n₁.
      follow_bail (slaves_loop slaves n₁) (λ others n₂. some (some (elements ++ others), n₂)))

  -- The loop over the ports of a bridge, each with the slaves that it has as a bond.
  unfoldable pub ports_loop :
      List Text → Netcf (LinuxDriver A V) → Option (Option (List Element) × Netcf (LinuxDriver A V))
  unfolding slaves_loop bond_slaves
  ports_loop [] n = some (some [], n)
  ports_loop (port ∷ ports) n = follow_bail (aug_get_xml_for_intf port n) (λ elements n₁.
      follow_bail (bond_slaves L contents port n₁) (λ slaves n₂.
        follow_bail (slaves_loop slaves n₂) (λ below n₃.
          follow_bail (ports_loop ports n₃)
            (λ others n₄. some (some (elements ++ (below ++ others)), n₄)))))

  -- The elements of the interfaces below.
  unfoldable pub below_loop :
      Text → Netcf (LinuxDriver A V) → Option (Option (List Element) × Netcf (LinuxDriver A V))
  unfolding slaves_loop ports_loop bridge_ports bond_slaves is_bond is_bridge follow_bail
  below_loop name n =
      let (bond, n₁) = is_bond L contents name n in
      let (bridge, n₂) = is_bridge L contents name n₁ in
      if bond
      then follow_bail (bond_slaves L contents name n₁) slaves_loop
      else if bridge
      then follow_bail (bridge_ports L contents name n₂) ports_loop
      else some (some [], n₂)

  -- aug_get_xml, which tests for an error of its first two calls only at its end.
  unfoldable pub aug_get_xml :
      Text → Netcf (LinuxDriver A V) → Option (Option Forest × Netcf (LinuxDriver A V))
  unfolding below_loop aug_get_xml_for_intf follow document_of
  aug_get_xml name n =
      let ((nmatches, _), n₁) =
        aug_fmt_match L contents (network_interfaces_path ++ codes "/auto") n in
      let auto : List Array = if is_zero nmatches then [] else auto_array name ∷ [] in
      follow (aug_get_xml_for_intf name n₁) (λ own n₂. follow (below_loop name n₂) (λ below n₃.
        let elements : Option (List Element) = elim own [
          | none ↦ none
          | some l ↦ elim below [ none ↦ none | some l' ↦ some (l ++ l') ]
        ] in
        some (
          if failed n₃
              then none
              else elim elements [ none ↦ none | some l ↦ some (document_of auto l) ],
          n₃,
        )))
