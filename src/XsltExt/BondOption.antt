-- ===== src/XsltExt/BondOption.antt =====
-- What bond:option of src/xslt_ext.c returns.
use fbsd_netcf.Prelude.{
  ℕ, ◌-◌, ◌≡◌, refl, ap, ap₂, ==_iff, true, false, ◌⊎◌, inl, inr, [], ◌∷◌, ◌++◌, Option-cases,
  arith, Text, ◌==◌, Bool-cases, length, length-append, take, drop, All,
}
use fbsd_netcf.XsltExt.{Search, returned, is_delimiter, value_end, option_value, bond_option}

-- The value ends where the text does or before a delimiter.
abbrev pub EndsValue : Text → Type 0
EndsValue [] = Unit
EndsValue (c ∷ s) = is_delimiter c ≡ true

-- A text that begins with "=v" and goes on with a delimiter, or with nothing.
abbrev pub IsValueOf : Text → Text → Type 0
IsValueOf v s =
    (rest : Text) × (s ≡ b'=' ∷ (v ++ rest)) × All (λ c. is_delimiter c ≡ false) v × EndsValue rest

drop-length : (p rest : Text) → drop (length p) (p ++ rest) ≡ rest
drop-length [] rest = refl
drop-length (c ∷ p) rest = drop-length p rest

take-length : (p rest : Text) → take (length p) (p ++ rest) ≡ p
take-length [] rest = refl
take-length (c ∷ p) rest = ap (λ (t : Text). c ∷ t) (take-length p rest)

value_end_splits :
    (s : Text)
    → (v : Text) × (s ≡ v ++ value_end s)
      × All (λ c. is_delimiter c ≡ false) v
      × EndsValue (value_end s)
unfolding value_end
value_end_splits [] = ([], refl, tt, tt)
value_end_splits (c ∷ s) =
    let (v, e, clean, ends) = value_end_splits s in
    elim (Bool-cases (is_delimiter c)) [
      | inl stop ↦ ([], rw stop refl, tt, rw stop stop)
      | inr go ↦ (c ∷ v, rw go (ap (λ (t : Text). c ∷ t) e), (go, clean), rw go ends)
    ]

take_front : (v rest s : Text) → s ≡ v ++ rest → take (length s - length rest) s ≡ v
take_front v rest s e = rw e (
    let n : length (v ++ rest) - length rest ≡ length v = omega (arith, length-append v rest) in
    rw n (take-length v rest))

option_value_splits : (s : Text) → (option_value s ≡ []) ⊎ IsValueOf (option_value s) s
unfolding option_value
option_value_splits [] = inl refl
option_value_splits (c ∷ val) = elim (Bool-cases (c == b'=')) [
  | inr other ↦ inl (rw other refl)
  | inl eq ↦
      let (v, e, clean, ends) = value_end_splits val in
      let found : take (length val - length (value_end val)) val ≡ v =
        take_front v (value_end val) val e in
      inr (
        rw (eq, found)
          (value_end val, ap₂ (λ (x : ℕ) (t : Text). x ∷ t) ((==_iff c b'=').0 eq) e, clean, ends))
]

-- With two arguments bond:option returns a text. If it is not empty, the options hold the name, an
-- equals sign and that text, which has no delimiter and is followed by one or by nothing.
pub bond_option_value :
    (S : Search) (bond_opts name : Text)
    → (v : Text) × (bond_option S 2 bond_opts name ≡ returned v)
      × ((v ≡ []) ⊎ ((pre s : Text) × (bond_opts ≡ pre ++ (name ++ s)) × IsValueOf v s))
unfolding bond_option
bond_option_value S opts name = elim (Option-cases (S.strstr opts name)) [
  | inl missing ↦ ([], rw missing refl, inl refl)
  | inr (t, found) ↦
      let (pre, rest, split, begins) = S.strstr-found opts name found in
      let behind : drop (length name) t ≡ rest = rw begins (drop-length name rest) in
      (
        option_value rest,
        rw (found, behind) refl,
        elim (option_value_splits rest) [
          | inl empty ↦ inl empty
          | inr value ↦ inr (pre, rest, rw (split, begins) refl, value)
        ],
      )
]
