-- ===== src/Mswindows/Names.antt =====
-- The lists and the look-up by name of src/drv_mswindows.c.
use fbsd_netcf.Prelude.{
  ℕ, suc, ◌+◌, ltb, ◌≡◌, ◌∙◌, ap, sym, refl, inl, inr, Bool, true, false, List, [], ◌∷◌, Option,
  none, some, Text, pos, negsuc, streq, streq_sound, arith, Bool-cases,
}
use fbsd_netcf.Ref.{ref}
use fbsd_netcf.Netcf.{Netcf, NetcfIf, enomem, set_errcode, failed, make_netcf_if}
use fbsd_netcf.Netcf.Memory.{HasMemory, allocate_ok}
use fbsd_netcf.Mswindows.{
  Adapter, WindowsApi, list_interface_ids, count_loop, drv_list_interfaces, drv_num_of_interfaces,
  make_adapter_if, lookup_loop, drv_lookup_by_name,
}
use fbsd_netcf.Mswindows.Mac.{build_adapter_table_ok}

-- Each name of the table can be converted.
unfoldable pub ConvertsAll : List Adapter → Type 0
ConvertsAll [] = Unit
ConvertsAll (a ∷ adapter) =
    ((friendly : Text) × (a.friendly_name ≡ some friendly)) × ConvertsAll adapter

-- The interface that drv_lookup_by_name makes, and the handle with its reference.
abbrev pub new_if : {W : Type 0} → Text → Netcf W → Option NetcfIf × Netcf W
new_if name n =
    (some (record { count = 1; name = name; mac = none }), record n { count = ref n.count })

module _ {W : Type 0} where
  make_adapter_if_ok :
      (first : Bool) (name : Text) (n : Netcf W)
      → HasMemory n
      → failed n ≡ false
      → make_adapter_if first name n ≡ some (new_if name n)
  unfolding make_adapter_if make_netcf_if
  make_adapter_if_ok first name n m clean = ground (arith, allocate_ok n m, clean)

  lookup_loop_any :
      (name : Text) (first : Bool) (adapter : List Adapter) (n : Netcf W)
      → HasMemory n
      → failed n ≡ false
      → ConvertsAll adapter
      → lookup_loop name first adapter n ≡ some (new_if name n)
  unfolding lookup_loop ConvertsAll
  lookup_loop_any name first [] n m clean all = make_adapter_if_ok true name n m clean
  lookup_loop_any name first (a ∷ adapter) n m clean ((friendly, named), all) =
      elim (Bool-cases (streq name friendly)) [
        | inl same ↦
            let e : name ≡ friendly = streq_sound name friendly same in
            let made : lookup_loop name first (a ∷ adapter) n ≡ make_adapter_if first friendly n =
              rw (named, same) refl in
            made
            ∙ make_adapter_if_ok first friendly n m clean
            ∙ ap (λ taken. some (new_if taken n)) (sym e)
        | inr other ↦ rw (named, other) (lookup_loop_any name false adapter n m clean all)
      ]

module _ {W : Type 0} (api : WindowsApi W) where
  -- On a handle without an error that does not run out of memory, if the table can be read and each name in it can be converted,
  -- drv_lookup_by_name of the Windows backend gives an interface of the name that it is given, whatever adapters there are, and takes a
  -- reference to the handle for it.
  pub drv_lookup_by_name_any :
      (name : Text) (adapter : List Adapter) (n : Netcf W)
      → HasMemory n
      → failed n ≡ false
      → api.adapters n.world ≡ some adapter
      → ConvertsAll adapter
      → drv_lookup_by_name api name n ≡ some (new_if name n)
  unfolding drv_lookup_by_name
  drv_lookup_by_name_any name adapter n m clean table all =
      let read = build_adapter_table_ok api adapter n m clean table in
      rw (drv_lookup_by_name, read, read) (lookup_loop_any name true adapter n m clean all)

  -- On such a handle, if the table has an adapter and WideCharToMultiByte refuses to write to NULL, drv_num_of_interfaces of the Windows
  -- backend gives 0, and drv_list_interfaces for one name or more gives -1 and ENOMEM.
  pub list_interface_ids_unlisted :
      (flags maxnames : ℕ) (a : Adapter) (adapter : List Adapter) (n : Netcf W)
      → HasMemory n
      → failed n ≡ false
      → api.adapters n.world ≡ some (a ∷ adapter)
      → api.null_converts n.world ≡ false
      → (drv_num_of_interfaces api flags n ≡ some ((pos 0, []), n))
        × (drv_list_interfaces api (suc maxnames) flags n
            ≡ some ((negsuc 0, []), set_errcode enomem n))
  unfolding drv_num_of_interfaces drv_list_interfaces list_interface_ids count_loop
  list_interface_ids_unlisted flags maxnames a adapter n m clean table refuses =
      let read = build_adapter_table_ok api (a ∷ adapter) n m clean table in
      let positive : ltb 0 (count_loop maxnames adapter + 1) ≡ true = ground arith in
      (
        rw (drv_num_of_interfaces, list_interface_ids, read, read) refl,
        rw (drv_list_interfaces, list_interface_ids, read, read, positive, refuses) refl,
      )
