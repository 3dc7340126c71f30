-- ===== src/XsltExt/Tests.antt =====
-- The theorems on src/xslt_ext.c at concrete inputs. The parameters are given by functions that do what is documented.
use fbsd_netcf.Prelude.{
  ℕ, ◌+◌, ◌*◌, ◌/◌, ◌%◌, ◌^◌, ◌≡◌, refl, ap, sym, ◌∙◌, ◌⊎◌, true, false, ◌==◌, ==_iff, [], ◌∷◌,
  ◌++◌, Option, none, some, Text, codes, ℤ, pos, arith, length, has_prefix, strstr, Bool-cases, inl,
  inr,
}
use fbsd_netcf.XsltExt.{
  Doubles, Inet, Search, returned, netmask_of, ipcalc_netmask, ipcalc_prefix, bond_option,
  shift_ones,
}
use fbsd_netcf.XsltExt.Roundtrip.{ipcalc_prefix-ipcalc_netmask}
use fbsd_netcf.XsltExt.BondOption.{bond_option_value, IsValueOf}

-- Doubles that are whole numbers.
abbrev whole_doubles : Doubles
whole_doubles = record {
  Double = ℕ;
  truncate = λ d. d;
  of_ulong = λ n. n;
  eq = λ a b. a == b;
  truncate-of_ulong = λ n h. refl;
  eq-of_ulong = λ n. (==_iff n n).1 refl;
}

-- Addresses as texts of four bytes, the highest first.
abbrev read_bytes : Text → ℤ × Option ℕ
read_bytes (a ∷ b ∷ c ∷ d ∷ []) = (pos 1, some (a * 2 ^ 24 + b * 2 ^ 16 + c * 2 ^ 8 + d))
read_bytes _ = (pos 0, none)

abbrev write_bytes : ℕ → Text
write_bytes a = a / 2 ^ 24 ∷ a / 2 ^ 16 % 2 ^ 8 ∷ a / 2 ^ 8 % 2 ^ 8 ∷ a % 2 ^ 8 ∷ []

bytes_read :
    (a : ℕ) (s : Text)
    → some (write_bytes a) ≡ some s
    → (read_bytes s ≡ (pos 1, some a)) × ((length s == 0) ≡ false)
bytes_read a s e =
    let same : write_bytes a ≡ s = cc in
    rw (← same) (ap (λ (b : ℕ). (pos 1, some b)) (omega arith), refl)

abbrev byte_inet : Inet
byte_inet = record {
  ntop = λ a. some (write_bytes a);
  pton = read_bytes;
  pton-ntop = λ a {s} h e. bytes_read a s e;
}

prefix_rest : (p s : Text) → has_prefix p s ≡ true → (rest : Text) × (s ≡ p ++ rest)
unfolding has_prefix
prefix_rest [] s h = (s, refl)
prefix_rest (x ∷ p) [] h = absurd (cc)
prefix_rest (x ∷ p) (y ∷ s) h =
    let both : (x ≡ y) × (has_prefix p s ≡ true) = ground (arith) in
    let (rest, e) = prefix_rest p s both.1 in (rest, rw (both.0, e) refl)

strstr_splits :
    (s p t : Text) → strstr s p ≡ some t → (pre rest : Text) × (s ≡ pre ++ t) × (t ≡ p ++ rest)
unfolding strstr
strstr_splits [] p t h = elim (Bool-cases (has_prefix p [])) [
  | inl here ↦
      let (rest, e) = prefix_rest p [] here in
      let h' : some [] ≡ some t = rw here at h in
      let same : [] ≡ t = cc in ([], rest, same, sym same ∙ e)
  | inr elsewhere ↦ let h' : none ≡ some t = rw elsewhere at h in absurd (cc)
]
strstr_splits (y ∷ s) p t h = elim (Bool-cases (has_prefix p (y ∷ s))) [
  | inl here ↦
      let (rest, e) = prefix_rest p (y ∷ s) here in
      let h' : some (y ∷ s) ≡ some t = rw here at h in
      let same : y ∷ s ≡ t = cc in ([], rest, same, sym same ∙ e)
  | inr elsewhere ↦
      let h' : strstr s p ≡ some t = rw elsewhere at h in
      let (pre, rest, split, begins) = strstr_splits s p t h' in
      (y ∷ pre, rest, ap (λ (l : Text). y ∷ l) split, begins)
]

abbrev c_search : Search
c_search = record { strstr = strstr; strstr-found = λ s p {t} h. strstr_splits s p t h }

-- The prefix 24, which is printed as the text of one byte.
ipcalc_prefix-ipcalc_netmask_example :
    (ipcalc_netmask whole_doubles byte_inet 0 1 24 false ≡ returned (255 ∷ 255 ∷ 255 ∷ 0 ∷ []))
    × (ipcalc_prefix byte_inet (λ n. some (n ∷ [])) 0 1 (255 ∷ 255 ∷ 255 ∷ 0 ∷ [])
        ≡ returned (24 ∷ []))
unfolding netmask_of shift_ones
ipcalc_prefix-ipcalc_netmask_example =
    ipcalc_prefix-ipcalc_netmask whole_doubles byte_inet (λ n. some (n ∷ [])) 0 0 24
      {s = 255 ∷ 255 ∷ 255 ∷ 0 ∷ []} {t = 24 ∷ []} (omega arith) (omega arith) refl refl

abbrev bond_opts : Text
bond_opts = codes "mode=1 miimon=100"

bond_option_value_example :
    (v : Text) × (bond_option c_search 2 bond_opts (codes "miimon") ≡ returned v)
    × ((v ≡ []) ⊎ ((pre s : Text) × (bond_opts ≡ pre ++ (codes "miimon" ++ s)) × IsValueOf v s))
bond_option_value_example = bond_option_value c_search bond_opts (codes "miimon")

-- The value is read up to the end of the text, or to a delimiter.
last_value : bond_option c_search 2 bond_opts (codes "miimon") ≡ returned (codes "100")
unfolding bond_option strstr
last_value = refl

first_value : bond_option c_search 2 bond_opts (codes "mode") ≡ returned (codes "1")
unfolding bond_option strstr
first_value = refl
