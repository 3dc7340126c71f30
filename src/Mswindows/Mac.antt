-- ===== src/Mswindows/Mac.antt =====
-- drv_mac_string of src/drv_mswindows.c. Its label `error` frees `buf`, which is undefined if no MAC was printed before.
use fbsd_netcf.Prelude.{
  ℕ, ◌≡◌, ◌∙◌, ap, refl, inl, inr, Option-cases, Bool-cases, Bool, true, false, not, List, [], ◌∷◌,
  ◌++◌, Option, none, some, Text, codes, ◌||◌, if◌then◌else◌, streq, arith,
}
use mathlib.Core.List.{append_assoc}
use fbsd_netcf.Netcf.{Netcf, NetcfIf, enomem, set_errcode, allocate, failed}
use fbsd_netcf.Netcf.Memory.{HasMemory, allocate_ok}
use fbsd_netcf.Mswindows.{Adapter, WindowsApi, build_adapter_table}

-- `hex` prints a byte for %.2X.
module _ (hex : ℕ → Text) where
  -- What strcpy and strcat make of `mac` in a round: `start` is whether i is 0, `bs` the bytes behind `b`.
  unfoldable pub add_byte : Bool → Text → ℕ → List ℕ → Text
  add_byte start mac b [] = (if start then hex b ++ codes ":" else mac) ++ hex b
  add_byte start mac b (c ∷ bs) =
      (if start then hex b ++ codes ":" else mac) ++ (hex b ++ codes ":")

  module _ {W : Type 0} where
    -- The loop over the bytes of the address.
    unfoldable pub bytes_loop :
        Bool → Bool → Text → List ℕ → NetcfIf → Netcf W → Option ((Option Text × NetcfIf) × Netcf W)
    unfolding add_byte
    bytes_loop first start mac [] nif n = some ((nif.mac, nif), n)
    bytes_loop first start mac (b ∷ bs) nif n =
        let (ok₁, n₁) = if start then allocate n else (true, n) in
        let (ok₂, n₂) = allocate n₁ in
        let (ok₃, n₃) = allocate n₂ in
        let text = add_byte start mac b bs in
        let rest = bytes_loop first false text bs (record nif { mac = some text }) n₃ in
        if not ok₁ || not ok₂
        then none
        else if ok₃
        then rest
        else if first
        then some ((none, record nif { mac = none }), set_errcode enomem n₃)
        else none

    -- The loop over the adapters; `first` says whether `adapter` is the table.
    unfoldable pub adapter_loop :
        Bool → List Adapter → NetcfIf → Netcf W → Option ((Option Text × NetcfIf) × Netcf W)
    unfolding bytes_loop
    adapter_loop first [] nif n = none
    adapter_loop first (a ∷ adapter) nif n =
        let rest = adapter_loop false adapter nif n in
        elim a.friendly_name [
          | none ↦ none
          | some friendly ↦
              if streq nif.name friendly
              then bytes_loop first true [] a.physical_address nif n
              else rest
        ]

    -- drv_mac_string
    unfoldable pub drv_mac_string :
        WindowsApi W → NetcfIf → Netcf W → Option ((Option Text × NetcfIf) × Netcf W)
    unfolding build_adapter_table adapter_loop
    drv_mac_string api nif n =
        let (table, n₁) = build_adapter_table api n in
        elim table [ none ↦ none | some adapter ↦ adapter_loop true adapter nif n₁ ]

-- The address of the first adapter of a name, where each name before it can be converted.
unfoldable pub address_of : Text → List Adapter → Option (List ℕ)
address_of name [] = none
address_of name (a ∷ adapter) = elim a.friendly_name [
  | none ↦ none
  | some friendly ↦ if streq name friendly then some a.physical_address else address_of name adapter
]

-- Bytes in hexadecimal, with a colon between each and the next.
unfoldable pub colon_separated : (ℕ → Text) → List ℕ → Text
colon_separated hex [] = []
colon_separated hex (b ∷ []) = hex b
colon_separated hex (b ∷ c ∷ bs) = hex b ++ (codes ":" ++ colon_separated hex (c ∷ bs))

module _ {W : Type 0} where
  -- The table of the adapters on a handle without an error.
  pub build_adapter_table_ok :
      (api : WindowsApi W) (adapter : List Adapter) (n : Netcf W)
      → HasMemory n
      → failed n ≡ false
      → api.adapters n.world ≡ some adapter
      → build_adapter_table api n ≡ (some adapter, n)
  unfolding build_adapter_table
  build_adapter_table_ok api adapter n m clean table = ground (arith, allocate_ok n m, table, clean)

module _ {W : Type 0} (hex : ℕ → Text) where
  bytes_loop_step :
      (first start : Bool) (mac : Text) (b : ℕ) (bs : List ℕ) (nif : NetcfIf) (n : Netcf W)
      → HasMemory n
      → bytes_loop hex first start mac (b ∷ bs) nif n
        ≡ bytes_loop hex first false
            (add_byte hex start mac b bs)
            bs
            (record nif { mac = some (add_byte hex start mac b bs) })
            n
  unfolding bytes_loop
  bytes_loop_step first true mac b bs nif n m =
      rw (allocate_ok n m, allocate_ok n m, allocate_ok n m) refl
  bytes_loop_step first false mac b bs nif n m = rw (allocate_ok n m, allocate_ok n m) refl

  bytes_loop_rest :
      (first : Bool) (mac : Text) (b : ℕ) (bs : List ℕ) (nif : NetcfIf) (n : Netcf W)
      → HasMemory n
      → let text = mac ++ colon_separated hex (b ∷ bs) in
        bytes_loop hex first false mac (b ∷ bs) nif n
        ≡ some ((some text, record nif { mac = some text }), n)
  unfolding bytes_loop add_byte colon_separated
  bytes_loop_rest first mac b [] nif n m = rw (bytes_loop_step first false mac b [] nif n m) refl
  bytes_loop_rest first mac b (c ∷ bs) nif n m =
      let next = mac ++ (hex b ++ codes ":") in
      let same : next ++ colon_separated hex (c ∷ bs) ≡ mac ++ colon_separated hex (b ∷ c ∷ bs) =
        simp append_assoc in
      bytes_loop_step first false mac b (c ∷ bs) nif n m
      ∙ bytes_loop_rest first next c bs (record nif { mac = some next }) n m
      ∙ ap (λ text. some ((some text, record nif { mac = some text }), n)) same

  bytes_loop_all :
      (first : Bool) (b : ℕ) (bs : List ℕ) (nif : NetcfIf) (n : Netcf W)
      → HasMemory n
      → let text = hex b ++ (codes ":" ++ colon_separated hex (b ∷ bs)) in
        bytes_loop hex first true [] (b ∷ bs) nif n
        ≡ some ((some text, record nif { mac = some text }), n)
  unfolding bytes_loop add_byte colon_separated
  bytes_loop_all first b [] nif n m =
      let same : (hex b ++ codes ":") ++ hex b ≡ hex b ++ (codes ":" ++ hex b) =
        simp append_assoc in
      bytes_loop_step first true [] b [] nif n m
      ∙ ap (λ text. some ((some text, record nif { mac = some text }), n)) same
  bytes_loop_all first b (c ∷ bs) nif n m =
      let next = (hex b ++ codes ":") ++ (hex b ++ codes ":") in
      let same : next ++ colon_separated hex (c ∷ bs)
          ≡ hex b ++ (codes ":" ++ colon_separated hex (b ∷ c ∷ bs)) =
        simp append_assoc in
      bytes_loop_step first true [] b (c ∷ bs) nif n m
      ∙ bytes_loop_rest first next c bs (record nif { mac = some next }) n m
      ∙ ap (λ text. some ((some text, record nif { mac = some text }), n)) same

  adapter_loop_found :
      (first : Bool) (adapter : List Adapter) (address : List ℕ) (nif : NetcfIf) (n : Netcf W)
      → address_of nif.name adapter ≡ some address
      → (where_first : Bool) × (adapter_loop hex first adapter nif n
          ≡ bytes_loop hex where_first true [] address nif n)
  unfolding adapter_loop address_of
  adapter_loop_found first [] address nif n e = absurd (cc)
  adapter_loop_found first (a ∷ adapter) address nif n e = elim (Option-cases a.friendly_name) [
    | inl refused ↦ absurd (ground (arith, e, refused))
    | inr (friendly, named) ↦ elim (Bool-cases (streq nif.name friendly)) [
      | inl same ↦
          let e' : a.physical_address ≡ address = ground (arith, e, named, same) in
          (first, rw (named, same, e') refl)
      | inr other ↦
          let (where_first, found) =
            adapter_loop_found false adapter address nif n (ground (arith, e, named, other)) in
          (where_first, rw (named, other) found)
    ]
  ]

  -- On a handle without an error that does not run out of memory, if the table can be read and has an adapter of the interface's name with an
  -- address, and each name before it can be converted, drv_mac_string of the Windows backend gives and stores the address with its first byte
  -- twice.
  pub drv_mac_string_twice :
      (api : WindowsApi W) (adapter : List Adapter) (b : ℕ) (bs : List ℕ) (nif : NetcfIf)
      (n : Netcf W)
      → HasMemory n
      → failed n ≡ false
      → api.adapters n.world ≡ some adapter
      → address_of nif.name adapter ≡ some (b ∷ bs)
      → let text = hex b ++ (codes ":" ++ colon_separated hex (b ∷ bs)) in
        drv_mac_string hex api nif n ≡ some ((some text, record nif { mac = some text }), n)
  unfolding drv_mac_string
  drv_mac_string_twice api adapter b bs nif n m clean table address =
      let (where_first, found) = adapter_loop_found true adapter (b ∷ bs) nif n address in
      let read = build_adapter_table_ok api adapter n m clean table in
      rw (drv_mac_string, read, read) (found ∙ bytes_loop_all where_first b bs nif n m)
