-- ===== src/Suse/Forest/Get.antt =====
-- The tree as a document: aug_get_xml and aug_get_xml_for_nif of src/drv_suse.c.
use fbsd_netcf.Prelude.{ℕ, List, [], ◌∷◌, ◌++◌, Option, none, some, Text, codes, if◌then◌else◌}
use fbsd_netcf.Netcf.{Netcf, eother, set_errcode, failed}
use fbsd_netcf.Linux.{Augeas, AugeasPv, LinuxDriver, get_augeas}
use fbsd_netcf.Linux.Format.{aug_fmt_match}
use fbsd_netcf.Redhat.Find.{follow, with_augeas}
use fbsd_netcf.Redhat.Forest.{Node, Tree, Forest, node_loop}
use fbsd_netcf.Suse.Files.{Dirent, ifcfg_file, find_ifcfg_file_by_name, find_hwaddr_by_device}

-- The nodes that are added to those of the file: its DEVICE and, if the rules of udev have it, its HWADDR.
unfoldable pub device_nodes : Text → Option (Option Text) → List Node
device_nodes name mac = record { label = some (codes "DEVICE"); value = some name } ∷ elim mac [
  | none ↦ []
  | some value ↦ record { label = some (codes "HWADDR"); value = value } ∷ []
]

module _ {A V : Type 0} (L : Augeas A V) (contents : ℕ → List AugeasPv) where
  -- aug_get_xml for the interface `name`, whose files are those of the names `intf`.
  unfoldable pub tree_loop :
      Text
      → List Text
      → Netcf (LinuxDriver A V)
      → Option (Option (List Tree) × Netcf (LinuxDriver A V))
  unfolding node_loop find_hwaddr_by_device device_nodes follow with_augeas
  tree_loop name [] n = some (some [], n)
  tree_loop name (file ∷ intf) n =
      let ((_, matches), n₁) = aug_fmt_match L contents (ifcfg_file file ++ codes "/*") n in
      let (mac, n₂) = find_hwaddr_by_device L contents name n₁ in
      let rest = tree_loop name intf n₂ in
      if failed n₁
      then some (none, n₁)
      else with_augeas n₁ (λ aug.
        let r : Option (Option (List Tree) × Netcf (LinuxDriver A V)) =
          elim (node_loop L contents aug (ifcfg_file file) matches) [
            | none ↦ some (none, set_errcode eother n₁)
            | some nodes ↦ follow rest (λ trees n₃. some (
              elim trees [
                | none ↦ none
                | some l ↦ some (
                    record {
                      name = codes "tree";
                      path = some file;
                      nodes = nodes ++ device_nodes name mac;
                    }
                    ∷ l)
              ],
              n₃,
            ))
          ] in
        r)

  unfoldable pub aug_get_xml :
      Text → List Text → Netcf (LinuxDriver A V) → Option (Option Forest × Netcf (LinuxDriver A V))
  unfolding tree_loop follow
  aug_get_xml name intf n =
      let (_, n₁) = get_augeas L contents n in
      if failed n₁
      then some (none, n₁)
      else follow (tree_loop name intf n₁) (λ trees n₂. some (
        elim trees [ none ↦ none | some l ↦ some (record { name = codes "forest"; trees = l }) ],
        n₂,
      ))

  unfoldable pub aug_get_xml_for_nif :
      (V → Option (List Dirent))
      → Text
      → Netcf (LinuxDriver A V)
      → Option (Option Forest × Netcf (LinuxDriver A V))
  unfolding find_ifcfg_file_by_name aug_get_xml follow
  aug_get_xml_for_nif directory name n =
      follow (find_ifcfg_file_by_name L contents directory name n) (λ intf n₁.
        if failed n₁
        then some (none, n₁)
        else (let r : Option (Option Forest × Netcf (LinuxDriver A V)) = elim intf [
          | none ↦ some (none, n₁)
          | some files ↦ aug_get_xml name files n₁
        ] in
            r))
