-- ===== src/Mswindows.antt =====
-- src/drv_mswindows.c, the backend for Windows. What the API of Windows, the environment and the child processes do is a
-- parameter, and so is the text that asprintf prints for %.2X. Where C leaves undefined what happens, a function gives `none`.
pub mod Mac
pub mod Names
mod Tests
use fbsd_netcf.Prelude.{
  ℕ, ◌+◌, is_zero, zero, suc, Bool, true, false, not, List, [], ◌∷◌, ◌++◌, Option, none, some, Text,
  codes, ltb, if◌then◌else◌, ℤ, pos, negsuc, streq,
}
use fbsd_netcf.Netcf.{
  Netcf, NetcfIf, enomem, eother, eexec, report_error, set_errcode, allocate, failed, make_netcf_if,
}

-- An entry of the table of GetAdaptersAddresses: FriendlyName as WideCharToMultiByte writes it into a buffer of 8192 bytes, `none`
-- where that gives 0, and PhysicalAddress, as long as PhysicalAddressLength says.
pub record Adapter : Type 0 where
  pub friendly_name : Option Text
  pub physical_address : List ℕ

-- `adapters` is the table of the second call of GetAdaptersAddresses, `none` where that is not NO_ERROR. `null_converts` says whether
-- WideCharToMultiByte gives a result other than 0 where it is to write to NULL. `spawnl` is the result of _spawnl.
pub record WindowsApi (W : Type 0) : Type 0 where
  pub adapters : W → Option (List Adapter)
  pub null_converts : W → Bool
  pub windir : W → Option Text
  pub spawnl : W → List Text → ℤ × W

abbrev pub not_implemented : Text
not_implemented = codes "not implemented on this platform"

-- The loop of list_interface_ids without an array: the number of interfaces.
unfoldable pub count_loop : ℕ → List Adapter → ℕ
count_loop zero adapter = 0
count_loop (suc maxnames) [] = 0
count_loop (suc maxnames) (a ∷ adapter) = count_loop maxnames adapter + 1

module _ {W : Type 0} where
  -- drv_init
  unfoldable pub drv_init : Netcf W → ℤ × Netcf W
  drv_init n =
      let (ok, n₁) = allocate n in
      if ok then (pos 0, record n₁ { driver = true }) else (negsuc 0, record n₁ { driver = false })

  -- drv_close
  unfoldable pub drv_close : Netcf W → Netcf W
  drv_close n = record n { driver = false }

  -- drv_entry does nothing.
  unfoldable pub drv_entry : Netcf W → Netcf W
  drv_entry n = n

  -- The functions that are not there, by the type of their result: those with a number,
  unfoldable pub refuse : Netcf W → ℤ × Netcf W
  refuse n = (negsuc 0, report_error eother (some not_implemented) n)

  -- and those with a pointer.
  unfoldable pub refuse_null : {A : Type 0} → Netcf W → Option A × Netcf W
  refuse_null n = (none, report_error eother (some not_implemented) n)

  unfoldable pub drv_define : Text → Netcf W → Option NetcfIf × Netcf W
  unfolding refuse_null
  drv_define xml_str = refuse_null

  unfoldable pub drv_undefine : NetcfIf → Netcf W → ℤ × Netcf W
  unfolding refuse
  drv_undefine nif = refuse

  unfoldable pub drv_xml_desc : NetcfIf → Netcf W → Option Text × Netcf W
  unfolding refuse_null
  drv_xml_desc nif = refuse_null

  unfoldable pub drv_xml_state : NetcfIf → Netcf W → Option Text × Netcf W
  unfolding refuse_null
  drv_xml_state nif = refuse_null

  unfoldable pub drv_if_status : NetcfIf → Netcf W → (ℤ × Option ℕ) × Netcf W
  unfolding refuse
  drv_if_status nif n = let (r, n') = refuse n in ((r, none), n')

  unfoldable pub drv_lookup_by_mac_string :
      Text → ℕ → Netcf W → (ℤ × List (Option NetcfIf)) × Netcf W
  unfolding refuse
  drv_lookup_by_mac_string mac maxifaces n = let (r, n') = refuse n in ((r, []), n')

  unfoldable pub drv_change_begin : ℕ → Netcf W → ℤ × Netcf W
  unfolding refuse
  drv_change_begin flags = refuse

  unfoldable pub drv_change_rollback : ℕ → Netcf W → ℤ × Netcf W
  unfolding refuse
  drv_change_rollback flags = refuse

  unfoldable pub drv_change_commit : ℕ → Netcf W → ℤ × Netcf W
  unfolding refuse
  drv_change_commit flags = refuse

  -- An error label behind a failing allocation, with free (adapter). `first` says whether `adapter` is the table or NULL; if not, free is
  -- given a pointer into the table.
  unfoldable pub no_memory : {A : Type 0} → Bool → A → Netcf W → Option (A × Netcf W)
  no_memory first result n = if first then some (result, set_errcode enomem n) else none

  -- The end of drv_lookup_by_name with a name. If the handle has an error already, the name is freed twice.
  unfoldable pub make_adapter_if : Bool → Text → Netcf W → Option (Option NetcfIf × Netcf W)
  unfolding no_memory
  make_adapter_if first name n =
      let (ok, n₁) = allocate n in
      let (nif, n₂) = make_netcf_if name n₁ in
      if not ok then no_memory first none n₁ else elim nif [
        | none ↦ if first then some (none, n₂) else none
        | some made ↦ if failed n₂ then none else some (some made, n₂)
      ]

  -- The loop of drv_lookup_by_name. The name of an adapter that is not there is taken as well.
  unfoldable pub lookup_loop :
      Text → Bool → List Adapter → Netcf W → Option (Option NetcfIf × Netcf W)
  lookup_loop name first [] n = make_adapter_if true name n
  lookup_loop name first (a ∷ adapter) n =
      let rest = lookup_loop name false adapter n in
      elim a.friendly_name [
        | none ↦ no_memory first none n
        | some friendly ↦ if streq name friendly then make_adapter_if first friendly n else rest
      ]

module _ {W : Type 0} (api : WindowsApi W) where
  -- build_adapter_table
  unfoldable pub build_adapter_table : Netcf W → Option (List Adapter) × Netcf W
  build_adapter_table n =
      let (ok, n₁) = allocate n in
      let table : Option (List Adapter) × Netcf W = elim (api.adapters n₁.world) [
        | none ↦ (none, set_errcode eother n₁)
        | some adapters ↦ if failed n₁ then (none, n₁) else (some adapters, n₁)
      ] in
      if ok then table else (none, set_errcode enomem n₁)

  -- list_interface_ids. With an array, the first round converts the name of the first adapter to NULL; a copy of NULL is undefined.
  unfoldable pub list_interface_ids : ℕ → Bool → Netcf W → Option ((ℤ × List Text) × Netcf W)
  list_interface_ids maxnames names n =
      let (table, n₁) = build_adapter_table n in
      elim table [
        | none ↦ some ((negsuc 0, []), set_errcode eother n₁)
        | some adapter ↦
            if not names
            then some ((pos (count_loop maxnames adapter), []), n₁)
            else if ltb 0 (count_loop maxnames adapter)
            then if api.null_converts n₁.world
              then none
              else some ((negsuc 0, []), set_errcode enomem n₁)
            else some ((pos 0, []), n₁)
      ]

  -- drv_list_interfaces
  unfoldable pub drv_list_interfaces : ℕ → ℕ → Netcf W → Option ((ℤ × List Text) × Netcf W)
  drv_list_interfaces maxnames flags = list_interface_ids maxnames true

  -- drv_num_of_interfaces
  unfoldable pub drv_num_of_interfaces : ℕ → Netcf W → Option ((ℤ × List Text) × Netcf W)
  drv_num_of_interfaces flags = list_interface_ids 0 false

  -- drv_lookup_by_name
  unfoldable pub drv_lookup_by_name : Text → Netcf W → Option (Option NetcfIf × Netcf W)
  drv_lookup_by_name name n =
      let (table, n₁) = build_adapter_table n in
      elim table [
        | none ↦ some (none, set_errcode eother n₁)
        | some adapter ↦ lookup_loop name true adapter n₁
      ]

  -- drv_if_up and drv_if_down, with the last word for netsh.
  unfoldable pub set_interface : Text → NetcfIf → Netcf W → Option (ℤ × Netcf W)
  set_interface state nif n = elim (api.windir n.world) [
    | none ↦ none
    | some p ↦
        let (ok, n₁) = allocate n in
        let exe_path : Text = p ++ codes "\\system32\\netsh" in
        let (r, w) = api.spawnl n₁.world (
          exe_path ∷ codes "interface" ∷ codes "set" ∷ codes "interface" ∷ nif.name ∷ state ∷ []) in
        let n₂ : Netcf W = record n₁ { world = w } in
        let n₃ : Netcf W = if is_zero r then n₂ else set_errcode eexec n₂ in
        if not ok then none else some (if failed n₃ then negsuc 0 else pos 0, n₃)
  ]

  unfoldable pub drv_if_down : NetcfIf → Netcf W → Option (ℤ × Netcf W)
  unfolding set_interface
  drv_if_down = set_interface (codes "disabled")

  unfoldable pub drv_if_up : NetcfIf → Netcf W → Option (ℤ × Netcf W)
  unfolding set_interface
  drv_if_up = set_interface (codes "enabled")
