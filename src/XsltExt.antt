-- ===== src/XsltExt.antt =====
-- src/xslt_ext.c: the functions that the stylesheets call, ipcalc:netmask, ipcalc:prefix and
-- bond:option. What libxml2 and the C library do is a parameter: the double that XPath hands over,
-- inet_ntop and inet_pton, asprintf and xmlStrstr. Addresses are in host order, since the code
-- applies htonl and ntohl at each end.
pub mod Prefix
pub mod Roundtrip
pub mod BondOption
mod Tests
use fbsd_netcf.Prelude.{
  ℕ, zero, suc, ◌+◌, ◌-◌, ◌/◌, ◌%◌, ◌^◌, ◌<◌, ◌≡◌, Bool, true, false, ◌||◌, not, List, [], ◌∷◌,
  ◌++◌, Option, none, some, Text, ltb, ◌==◌, if◌then◌else◌, length, take, drop, ℤ, pos, is_neg,
}

-- The messages given to xsltTransformError.
pub data Message : Type 0 where
  not_number not_int out_of_range ntop_failed illegal_netmask : Message

-- What an extension function leaves for the XPath evaluator.
pub data Outcome : Type 0 where
  arity_error : Outcome
  transform_error : Message → Outcome
  returned : Text → Outcome
  nothing : Outcome

-- The doubles of XPath: the cast to unsigned long, the cast back, and the comparison.
pub record Doubles : Type 1 where
  pub Double : Type 0
  pub truncate : Double → ℕ
  pub of_ulong : ℕ → Double
  pub eq : Double → Double → Bool
  pub truncate-of_ulong : (n : ℕ) → n < 2 ^ 53 → truncate (of_ulong n) ≡ n
  pub eq-of_ulong : (n : ℕ) → eq (of_ulong n) (of_ulong n) ≡ true

-- inet_ntop and inet_pton of AF_INET. The second gives its result and, where that is 1, the address.
pub record Inet : Type 0 where
  pub ntop : ℕ → Option Text
  pub pton : Text → ℤ × Option ℕ
  pub pton-ntop :
      (a : ℕ) {s : Text}
      → a < 2 ^ 32
      → ntop a ≡ some s
      → (pton s ≡ (pos 1, some a)) × ((length s == 0) ≡ false)

-- 0xffffffffu >> k. C leaves a shift by the width or more undefined: `oversized` is what it gives.
pub shift_ones : ℕ → ℕ → ℕ
shift_ones oversized k = if ltb k 32 then (2 ^ 32 - 1) / 2 ^ k else oversized

-- ~(0xffffffffu >> prefix)
pub netmask_of : ℕ → ℕ → ℕ
unfolding shift_ones
netmask_of oversized prefix = 2 ^ 32 - 1 - shift_ones oversized prefix

module _ (D : Doubles) (I : Inet) (oversized : ℕ) where
  open D use {Double, truncate, of_ulong, eq}

  -- `raw_prefix` is what xmlXPathPopNumber gives, `failed` what xmlXPathCheckError says of it.
  pub ipcalc_netmask : ℕ → Double → Bool → Outcome
  unfolding netmask_of
  ipcalc_netmask nargs raw_prefix failed =
      if not (nargs == 1)
      then arity_error
      else if failed
      then transform_error not_number
      else let prefix = truncate raw_prefix in
        if not (eq (of_ulong prefix) raw_prefix)
        then transform_error not_int
        else if prefix == 0 || ltb 32 prefix
        then transform_error out_of_range
        else let o : Outcome = elim (I.ntop (netmask_of oversized prefix)) [
          | none ↦ transform_error ntop_failed
          | some netmask_str ↦ returned netmask_str
        ] in
          o

-- prefix-- on an unsigned int
pub dec32 : ℕ → ℕ
dec32 x = (x + 2 ^ 32 - 1) % 2 ^ 32

-- The loop of ipcalc_prefix with `n` rounds left, at round `i`: `addr & ((2 << i) - 1)` are the
-- lowest i + 1 bits of the address.
pub prefix_loop : ℕ → ℕ → ℕ → ℕ → ℕ
unfolding dec32
prefix_loop zero i addr prefix = prefix
prefix_loop (suc n) i addr prefix =
    prefix_loop n (i + 1) addr (if addr % 2 ^ (i + 1) == 0 then dec32 prefix else prefix)

-- The number that the loop leaves, of 8 * sizeof (netmask.s_addr) rounds.
pub prefix_of : ℕ → ℕ
unfolding prefix_loop
prefix_of addr = prefix_loop 32 0 addr 32

-- `stale` is what the stack holds where inet_pton has written no address.
pub address_or : ℕ → Option ℕ → ℕ
address_or stale none = stale
address_or stale (some a) = a

module _ (I : Inet) (asprintf_d : ℕ → Option Text) (stale : ℕ) where
  pub ipcalc_prefix : ℕ → Text → Outcome
  unfolding prefix_of address_or
  ipcalc_prefix nargs netmask_str =
      if not (nargs == 1)
      then arity_error
      else if length netmask_str == 0
      then returned []
      else let (r, written) = I.pton netmask_str in
        if is_neg r
        then transform_error illegal_netmask
        else let o : Outcome = elim (asprintf_d (prefix_of (address_or stale written))) [
          | none ↦ nothing
          | some prefix_str ↦ returned prefix_str
        ] in
          o

-- xmlStrchr (" \t'\"", c) != NULL
pub is_delimiter : ℕ → Bool
is_delimiter c = c == b' ' || c == 9 || c == 39 || c == 34

-- The loop that moves `val_end` from `val` to the end of the value.
pub value_end : Text → Text
unfolding is_delimiter
value_end [] = []
value_end (c ∷ s) = if is_delimiter c then c ∷ s else value_end s

-- xmlStrstr, as the text from the first occurrence on.
pub record Search : Type 0 where
  pub strstr : Text → Text → Option Text
  pub strstr-found :
      (s p : Text) {t : Text}
      → strstr s p ≡ some t
      → (pre rest : Text) × (s ≡ pre ++ t) × (t ≡ p ++ rest)

-- The value behind the name: nothing but a text that begins with '=' has one.
pub option_value : Text → Text
unfolding value_end
option_value [] = []
option_value (c ∷ val) = if c == b'=' then take (length val - length (value_end val)) val else []

module _ (S : Search) where
  pub bond_option : ℕ → Text → Text → Outcome
  unfolding option_value
  bond_option nargs bond_opts name =
      if not (nargs == 2)
      then arity_error
      else let o : Outcome = elim (S.strstr bond_opts name) [
        | none ↦ returned []
        | some val ↦ returned (option_value (drop (length name) val))
      ] in
        o
