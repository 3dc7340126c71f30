-- ===== src/Redhat/Define.antt =====
-- Definitions of interfaces in src/drv_redhat.c: drv_xml_desc and drv_define, the status, the changes, and the functions for
-- tests. libxml2 makes and reads documents.
use fbsd_netcf.Prelude.{
  ℕ, Bool, true, not, List, [], ◌∷◌, Option, none, some, Text, codes, length, ◌==◌, if◌then◌else◌,
  ℤ, pos, negsuc, is_neg,
}
use fbsd_netcf.Netcf.{
  Netcf, NetcfIf, enomem, eother, einternal, report_error, set_errcode, allocate, failed,
  make_netcf_if,
}
use fbsd_netcf.Posix.{Exit}
use fbsd_netcf.System.{Kernel, if_is_active, iface_active, iface_inactive, change, bail_out}
use fbsd_netcf.Linux.{Augeas, AugeasPv, LinuxDriver, get_augeas}
use fbsd_netcf.Xml.{LibXml, apply_stylesheet, apply_stylesheet_to_string, rng_validate, parse_xml}
use fbsd_netcf.Redhat.Find.{follow, with_augeas}
use fbsd_netcf.Redhat.Forest.{Forest, aug_get_xml_for_nif, aug_put_xml}
use fbsd_netcf.Redhat.Bridge.{rm_interface, bond_setup}

-- libxml2 and XPath on the documents `D`: the root element as a forest `F`, a document of a forest, the content of
-- /interface/@name, or where that is empty of the name built for a VLAN, and the names of the interfaces
-- //interface[count(parent::vlan) = 0].
pub record Documents (D F : Type 0) : Type 0 where
  pub root_of : D → Option F
  pub of_forest : F → D
  pub interface_name : D → Text
  pub vlan_name : D → Text
  pub has_element : D → Bool
  pub set_name : D → Option Text → D
  pub interfaces : D → List (Option Text)

module _ {A V : Type 0} (L : Augeas A V) (contents : ℕ → List AugeasPv) where
  -- The loop of rm_all_interfaces. A name that is missing counts as no memory.
  unfoldable pub rm_interfaces :
      List (Option Text) → Netcf (LinuxDriver A V) → Netcf (LinuxDriver A V)
  unfolding rm_interface
  rm_interfaces [] n = n
  rm_interfaces (none ∷ names) n = set_errcode enomem n
  rm_interfaces (some name ∷ names) n =
      let n₁ = rm_interface L contents name n in
      let rest = rm_interfaces names n₁ in if failed n₁ then n₁ else rest

  -- The save at the end of drv_define, and the new interface. What is printed for debugging is left out.
  unfoldable pub save_and_make :
      Text → Netcf (LinuxDriver A V) → Option (Option NetcfIf × Netcf (LinuxDriver A V))
  unfolding with_augeas bail_out
  save_and_make name n = with_augeas n (λ aug.
      let (r, aug', system) = L.aug_save n.world.system aug in
      let n₁ : Netcf (LinuxDriver A V) = record n {
        world = record n.world { augeas = some aug'; system = system };
      } in
      if is_neg r
      then some (none, report_error eother (some (codes "aug_save failed")) n₁)
      else some (bail_out (make_netcf_if name n₁)))

-- The system that the functions on XML look at.
abbrev pub system_of : {A V : Type 0} → LinuxDriver A V → V
system_of d = d.system

-- drv_entry: the next get_augeas loads the files again.
unfoldable pub drv_entry : {A V : Type 0} → Netcf (LinuxDriver A V) → Netcf (LinuxDriver A V)
drv_entry n = record n { world = record n.world { load_augeas = true } }

module _ {A V D F : Type 0} (M : Documents D F) where
  -- xmlStrdup at the end of device_name_from_xml.
  abbrev copied : Text → D → Netcf (LinuxDriver A V) → (Option Text × D) × Netcf (LinuxDriver A V)
  copied name doc n = let (ok, n₁) = allocate n in ((if ok then some name else none, doc), n₁)

  -- device_name_from_xml: the name, and the document as it leaves it. What libxml2 allocates is an allocation each.
  -- The attribute that it sets for a VLAN gets the value of `result`, which is still NULL.
  unfoldable pub device_name_from_xml :
      D → Netcf (LinuxDriver A V) → (Option Text × D) × Netcf (LinuxDriver A V)
  device_name_from_xml doc n =
      let (ok₁, n₁) = allocate n in
      let (ok₂, n₂) = allocate n₁ in
      let (ok₃, n₃) = allocate n₂ in
      let vlan : Text = M.vlan_name doc in
      if not ok₁
      then ((none, doc), set_errcode enomem n₁)
      else if not ok₂
      then ((none, doc), set_errcode enomem n₂)
      else if not (length (M.interface_name doc) == 0)
      then copied (M.interface_name doc) doc n₂
      else if not ok₃
      then ((none, doc), set_errcode enomem n₃)
      else if length vlan == 0
      then ((none, doc), set_errcode einternal n₃)
      else if not (M.has_element doc)
      then ((none, doc), set_errcode einternal n₃)
      else copied vlan (M.set_name doc none) n₃

module _ {A V D S : Type 0} (L : Augeas A V) (contents : ℕ → List AugeasPv) (X : LibXml D S V)
    (M : Documents D Forest) where
  -- rm_all_interfaces, with the context and the set of nodes.
  unfoldable pub rm_all_interfaces : D → Netcf (LinuxDriver A V) → Netcf (LinuxDriver A V)
  unfolding rm_interfaces
  rm_all_interfaces doc n =
      let (ok₁, n₁) = allocate n in
      let (ok₂, n₂) = allocate n₁ in
      if not ok₁
      then set_errcode enomem n₁
      else if not ok₂
      then set_errcode enomem n₂
      else rm_interfaces L contents (M.interfaces doc) n₂

  -- drv_xml_desc
  unfoldable pub drv_xml_desc :
      S → NetcfIf → Netcf (LinuxDriver A V) → Option (Option Text × Netcf (LinuxDriver A V))
  unfolding aug_get_xml_for_nif follow
  drv_xml_desc put nif n = follow (aug_get_xml_for_nif L contents nif.name n) (λ aug_xml n₁.
      if failed n₁
      then some (none, n₁)
      else (let r : Option (Option Text × Netcf (LinuxDriver A V)) = elim aug_xml [
        | none ↦ none
        | some forest ↦ some (apply_stylesheet_to_string X system_of put (M.of_forest forest) n₁)
      ] in
          r))

  -- The part of drv_define behind device_name_from_xml.
  unfoldable pub define_named :
      (ℕ → Bool)
      → S
      → Text
      → D
      → Netcf (LinuxDriver A V)
      → Option (Option NetcfIf × Netcf (LinuxDriver A V))
  unfolding rm_all_interfaces aug_put_xml save_and_make follow
  define_named beyond get name doc n =
      let n₁ = rm_all_interfaces doc n in
      let (aug_xml, n₂) = apply_stylesheet X system_of get doc n₁ in
      let forest : Option Forest = elim aug_xml [ none ↦ none | some d ↦ M.root_of d ] in
      if failed n₁
      then some (none, n₁)
      else if failed n₂
      then some (none, n₂)
      else follow (aug_put_xml L contents forest n₂) (λ _ n₃.
        if failed n₃
        then some (none, n₃)
        else follow (bond_setup L contents beyond name true n₃)
            (λ _ n₄. if failed n₄ then some (none, n₄) else save_and_make L contents name n₄))

  unfoldable pub drv_define :
      (ℕ → Bool)
      → S
      → Text
      → Netcf (LinuxDriver A V)
      → Option (Option NetcfIf × Netcf (LinuxDriver A V))
  unfolding define_named device_name_from_xml
  drv_define beyond get xml_str n =
      let (_, n₁) = get_augeas L contents n in
      let (ncf_xml, n₂) = parse_xml X system_of xml_str n₁ in
      let rest : Option (Option NetcfIf × Netcf (LinuxDriver A V)) = elim ncf_xml [
        | none ↦ none
        | some doc ↦
            let n₃ = rng_validate X system_of doc n₂ in
            let ((name, doc'), n₄) = device_name_from_xml M doc n₃ in
            let named : Option (Option NetcfIf × Netcf (LinuxDriver A V)) = elim name [
              | none ↦ some (none, set_errcode einternal n₄)
              | some nm ↦ if failed n₄ then some (none, n₄) else define_named beyond get nm doc' n₄
            ] in
            if failed n₃ then some (none, n₃) else named
      ] in
      if failed n₁ then some (none, n₁) else if failed n₂ then some (none, n₂) else rest

module _ {A V D S : Type 0} (X : LibXml D S V) where
  -- drv_get_aug and drv_put_aug (parse_xml gives no document only with an error): the result, and what is stored for the caller.
  unfoldable pub drv_get_aug :
      S → Text → Netcf (LinuxDriver A V) → Option ((ℤ × Option Text) × Netcf (LinuxDriver A V))
  drv_get_aug get ncf_xml n =
      let (ncf_doc, n₁) = parse_xml X system_of ncf_xml n in
      let rest : Option ((ℤ × Option Text) × Netcf (LinuxDriver A V)) = elim ncf_doc [
        | none ↦ none
        | some doc ↦
            let n₂ = rng_validate X system_of doc n₁ in
            let (aug_xml, n₃) = apply_stylesheet_to_string X system_of get doc n₂ in
            if failed n₂
            then some ((negsuc 0, none), n₂)
            else some ((if failed n₃ then negsuc 0 else pos 0, aug_xml), n₃)
      ] in
      if failed n₁ then some ((negsuc 0, none), n₁) else rest

  unfoldable pub drv_put_aug :
      S → Text → Netcf (LinuxDriver A V) → Option ((ℤ × Option Text) × Netcf (LinuxDriver A V))
  drv_put_aug put aug_xml n =
      let (aug_doc, n₁) = parse_xml X system_of aug_xml n in
      let rest : Option ((ℤ × Option Text) × Netcf (LinuxDriver A V)) = elim aug_doc [
        | none ↦ none
        | some doc ↦
            let (ncf_xml, n₂) = apply_stylesheet_to_string X system_of put doc n₁ in
            some ((if failed n₂ then negsuc 0 else pos 0, ncf_xml), n₂)
      ] in
      if failed n₁ then some ((negsuc 0, none), n₁) else rest

module _ {A V : Type 0} (k : Kernel (LinuxDriver A V)) where
  -- drv_if_status: the result and, if the caller gave a pointer, the flags.
  unfoldable pub drv_if_status :
      NetcfIf → Bool → Netcf (LinuxDriver A V) → (ℤ × Option ℕ) × Netcf (LinuxDriver A V)
  drv_if_status nif has_flags n =
      if has_flags
      then (
        (pos 0, some (if if_is_active k nif.name n.world then iface_active else iface_inactive)),
        n,
      )
      else (
        (negsuc 0, none),
        report_error eother (some (codes "NULL pointer for flags in ncf_if_status")) n,
      )

  -- The build sets `transaction`, NETCF_TRANSACTION.
  unfoldable pub drv_change_begin :
      Exit → Text → ℕ → Netcf (LinuxDriver A V) → ℤ × Netcf (LinuxDriver A V)
  unfolding change
  drv_change_begin stale transaction = change k stale transaction (codes "change-begin")

  unfoldable pub drv_change_rollback :
      Exit → Text → ℕ → Netcf (LinuxDriver A V) → ℤ × Netcf (LinuxDriver A V)
  unfolding change
  drv_change_rollback stale transaction = change k stale transaction (codes "change-rollback")

  unfoldable pub drv_change_commit :
      Exit → Text → ℕ → Netcf (LinuxDriver A V) → ℤ × Netcf (LinuxDriver A V)
  unfolding change
  drv_change_commit stale transaction = change k stale transaction (codes "change-commit")
