-- ===== src/Linux/Kinds.antt =====
-- What an interface is, and what it is made of: if_type, if_type_str, format_mac_addr and
-- if_bridge_phys_name of src/dutil_linux.c.
use fbsd_netcf.Prelude.{
  ℕ, ◌+◌, ◌*◌, ◌/◌, ◌%◌, ◌≡◌, refl, inl, inr, ◌⊎◌, Bool, true, false, not, ◌||◌, List, [], ◌∷◌,
  ◌++◌, Option, none, some, Text, codes, length, ltb, streq, if◌then◌else◌, keep, arith, Bool-cases,
}
use fbsd_netcf.Netcf.{Netcf, noerror, is_noerror, enomem, set_errcode, allocate}
use fbsd_netcf.Netcf.Memory.{allocate_ok}

-- netcf_if_type_t
pub data IfType : Type 0 where
  type_none type_ethernet type_bond type_bridge type_vlan : IfType

unfoldable pub if_type_str : IfType → Option Text
if_type_str type_ethernet = some (codes "ethernet")
if_type_str type_bond = some (codes "bond")
if_type_str type_bridge = some (codes "bridge")
if_type_str type_vlan = some (codes "vlan")
if_type_str type_none = none

-- What stat says of a path.
pub data FileKind : Type 0 where
  missing regular directory other : FileKind

abbrev is_regular : FileKind → Bool
is_regular regular = true
is_regular _ = false

abbrev is_directory : FileKind → Bool
is_directory directory = true
is_directory _ = false

-- snprintf with "%02x", of a byte
pub hex_digit : ℕ → ℕ
hex_digit d = if ltb d 10 then b'0' + d else 87 + d

pub hex_byte : ℕ → Text
unfolding hex_digit
hex_byte b = hex_digit (b / 16) ∷ hex_digit (b % 16) ∷ []

-- format_mac_addr, in a buffer that is long enough, without the NUL.
pub format_mac_addr : List ℕ → Text
unfolding hex_byte
format_mac_addr [] = []
format_mac_addr (b ∷ []) = hex_byte b
format_mac_addr (b ∷ c ∷ addr) = hex_byte b ++ (b':' ∷ format_mac_addr (c ∷ addr))

module _ {W : Type 0} (stat : W → Text → FileKind) (readdir : W → Text → List Text) where
  -- if_type; where xasprintf fails it leaves the code ENOMEM and gives what it has found so far.
  unfoldable pub if_type : Text → Netcf W → IfType × Netcf W
  if_type intf n =
      let (ok₁, n₁) = allocate n in
      let (ok₂, n₂) = allocate n₁ in
      let (ok₃, n₃) = allocate n₂ in
      if not ok₁
      then (type_none, set_errcode enomem n₁)
      else if is_regular (stat n.world (codes "/proc/net/vlan/" ++ intf))
      then (type_vlan, n₁)
      else if not ok₂
      then (type_none, set_errcode enomem n₂)
      else if is_directory (stat n.world (codes "/sys/class/net/" ++ (intf ++ codes "/bridge")))
      then (type_bridge, n₂)
      else if not ok₃
      then (type_none, set_errcode enomem n₃)
      else if is_directory (stat n.world (codes "/sys/class/net/" ++ (intf ++ codes "/bonding")))
      then (type_bond, n₃)
      else (type_ethernet, n₃)

  abbrev is_dot : Text → Bool
  is_dot name = streq name (codes ".") || streq name (codes "..")

  -- The loop of if_bridge_phys_name; each name is allocated twice, in the array and for itself.
  pub phys_names_loop : List Text → Netcf W → Option (List Text) × Netcf W
  phys_names_loop [] n = (some [], n)
  phys_names_loop (name ∷ names) n =
      let (ok₁, n₁) = allocate n in
      let (ok₂, n₂) = allocate n₁ in
      let skipped = phys_names_loop names n in
      let (rest, n₃) = phys_names_loop names n₂ in
      let all : Option (List Text) = elim rest [ none ↦ none | some more ↦ some (name ∷ more) ] in
      if is_dot name
      then skipped
      else if not ok₁
      then (none, set_errcode enomem n₁)
      else if not ok₂
      then (none, set_errcode enomem n₂)
      else (all, n₃)

  -- if_bridge_phys_name: the names, `none` where it gives -1. A directory that cannot be opened has no names.
  pub if_bridge_phys_name : Text → Netcf W → Option (List Text) × Netcf W
  unfolding phys_names_loop
  if_bridge_phys_name intf n =
      let (ok, n₁) = allocate n in
      let r =
        phys_names_loop (readdir n.world (codes "/sys/class/net/" ++ (intf ++ codes "/brif"))) n₁ in
      if ok then r else (none, set_errcode enomem n₁)

  abbrev pub is_named : IfType → Bool
  is_named kind = elim (if_type_str kind) [ none ↦ false | some _ ↦ true ]

  -- On a handle without an error, if_type gives a type that if_type_str has a text for, or it leaves an error, and never both.
  pub if_type-if_type_str :
      (intf : Text) (n : Netcf W)
      → n.errcode ≡ noerror
      → is_named (if_type intf n).0 ≡ is_noerror (if_type intf n).1.errcode
  unfolding if_type if_type_str allocate set_errcode
  if_type-if_type_str intf n fresh = ground arith

  phys_names_loop_kept :
      (names : List Text) (n : Netcf W)
      → n.allocs ≡ []
      → phys_names_loop names n ≡ (some (keep (λ name. not (is_dot name)) names), n)
  unfolding phys_names_loop
  phys_names_loop_kept [] n m = refl
  phys_names_loop_kept (name ∷ names) n m = elim (Bool-cases (is_dot name)) [
    | inl dot ↦ rw (dot, phys_names_loop) (phys_names_loop_kept names n m)
    | inr entry ↦
        rw (entry, phys_names_loop)
          (rw (allocate_ok n m) (rw (allocate_ok n m) (rw (phys_names_loop_kept names n m) refl)))
  ]

  -- With memory, if_bridge_phys_name gives the entries of the directory without the two that begin every one.
  pub if_bridge_phys_name_lem :
      (intf : Text) (n : Netcf W)
      → n.allocs ≡ []
      → if_bridge_phys_name intf n ≡ (
        some (
            keep
              (λ name. not (is_dot name))
              (readdir n.world (codes "/sys/class/net/" ++ (intf ++ codes "/brif")))),
        n,
      )
  unfolding if_bridge_phys_name
  if_bridge_phys_name_lem intf n m =
      rw (allocate_ok n m, if_bridge_phys_name) (phys_names_loop_kept _ n m)

  -- if_type looks at the system only.
  pub if_type_world : (intf : Text) (n : Netcf W) → (if_type intf n).1.world ≡ n.world
  unfolding if_type allocate set_errcode
  if_type_world intf n = ground arith

  -- The interfaces of a bridge.
  abbrev pub ports_of : Text → W → List Text
  ports_of intf w =
      keep (λ name. not (is_dot name))
        (readdir w (codes "/sys/class/net/" ++ (intf ++ codes "/brif")))

  phys_names_loop_world :
      (names : List Text) (n : Netcf W)
      → ((phys_names_loop names n).1.world ≡ n.world)
        × (((phys_names_loop names n).0 ≡ none)
            ⊎ ((phys_names_loop names n).0 ≡ some (keep (λ name. not (is_dot name)) names)))
  unfolding phys_names_loop allocate set_errcode
  phys_names_loop_world [] n = (refl, inr refl)
  phys_names_loop_world (name ∷ names) n = ground (
    arith,
    phys_names_loop_world names n,
    phys_names_loop_world names (allocate (allocate n).1).1,
  )

  -- Whatever allocations fail, if_bridge_phys_name gives all interfaces of the bridge or none.
  pub if_bridge_phys_name_world :
      (intf : Text) (n : Netcf W)
      → ((if_bridge_phys_name intf n).1.world ≡ n.world)
        × (((if_bridge_phys_name intf n).0 ≡ none)
            ⊎ ((if_bridge_phys_name intf n).0 ≡ some (ports_of intf n.world)))
  unfolding if_bridge_phys_name allocate set_errcode
  if_bridge_phys_name_world intf n = ground (
    arith,
    phys_names_loop_world (readdir n.world (codes "/sys/class/net/" ++ (intf ++ codes "/brif")))
        (allocate n).1,
  )

  pub if_bridge_phys_name-ports_of :
      (intf : Text) (n : Netcf W) (names : List Text)
      → (if_bridge_phys_name intf n).0 ≡ some names
      → ports_of intf n.world ≡ names
  if_bridge_phys_name-ports_of intf n names e = ground (arith, if_bridge_phys_name_world intf n)

-- format_mac_addr of a number of bytes, with the NUL, needs three bytes for each.
pub format_mac_addr-length :
    (b : ℕ) (addr : List ℕ) → length (format_mac_addr (b ∷ addr)) + 1 ≡ 3 * length (b ∷ addr)
unfolding format_mac_addr hex_byte
format_mac_addr-length b [] = omega arith
format_mac_addr-length b (c ∷ addr) = omega (arith, format_mac_addr-length c addr)
