-- ===== src/Debian/Words.antt =====
-- How interface_deps of src/drv_debian.c cuts the value of a node into names.
use mathlib.Core.List.{append_assoc}
use fbsd_netcf.Prelude.{
  ℕ, zero, suc, ◌<◌, ◌≡◌, ◌⊎◌, ◌≢◌, refl, ap, sym, ◌∙◌, inl, inr, false, List, [], ◌∷◌, ◌++◌,
  Option, none, some, Text, codes, length, ◌==◌, ==_iff, streq, arith, Bool-cases, Option-cases,
  All, length-append,
}
use fbsd_netcf.Debian.Deps.{split_at_blank, dep_names, deps_of}

-- A text without a blank.
abbrev pub IsBlankFree : Text → Type 0
IsBlankFree = All (λ c. (c == b' ') ≡ false)

-- A name that a list of names separated by blanks can hold.
abbrev pub IsName : Text → Type 0
IsName name = (length name ≢ 0) × IsBlankFree name

-- The names with a blank between each and the next.
unfoldable pub separated : List Text → Text
separated [] = []
separated (name ∷ []) = name
separated (name ∷ other ∷ names) = name ++ (b' ' ∷ separated (other ∷ names))

split_at_blank-word : (word : Text) → IsBlankFree word → split_at_blank word ≡ (word, none)
unfolding split_at_blank
split_at_blank-word [] free = refl
split_at_blank-word (c ∷ word) (other, free) =
    rw (other, split_at_blank-word word free, split_at_blank) refl

split_at_blank-words :
    (word rest : Text)
    → IsBlankFree word
    → split_at_blank (word ++ (b' ' ∷ rest)) ≡ (word, some rest)
unfolding split_at_blank
split_at_blank-words [] rest free = refl
split_at_blank-words (c ∷ word) rest (other, free) =
    rw (other, split_at_blank-words word rest free, split_at_blank) refl

-- A text that is cut at its first blank: the word before it has none, and makes the text with the blank and what is behind.
abbrev Parts : Text → Text × Option Text → Type 0
Parts devs (word, none) = IsBlankFree word × (devs ≡ word)
Parts devs (word, some rest) = IsBlankFree word × (devs ≡ word ++ (b' ' ∷ rest))

Parts-cons :
    (c : ℕ) (s : Text) (r : Text × Option Text)
    → (c == b' ') ≡ false
    → Parts s r
    → Parts (c ∷ s) (c ∷ r.0, r.1)
Parts-cons c s (word, none) other (free, same) = ((other, free), ap (λ (t : Text). c ∷ t) same)
Parts-cons c s (word, some rest) other (free, same) = ((other, free), ap (λ (t : Text). c ∷ t) same)

split_at_blank-Parts : (devs : Text) → Parts devs (split_at_blank devs)
unfolding split_at_blank
split_at_blank-Parts [] = (tt, refl)
split_at_blank-Parts (c ∷ s) = elim (Bool-cases (c == b' ')) [
  | inl blank ↦
      let same : c ≡ b' ' = (==_iff c b' ').0 blank in rw blank (tt, ap (λ (d : ℕ). d ∷ s) same)
  | inr other ↦ rw other (Parts-cons c s (split_at_blank s) other (split_at_blank-Parts s))
]

dep_names_last :
    (fuel : ℕ) (devs word : Text)
    → split_at_blank devs ≡ (word, none)
    → dep_names (suc fuel) devs ≡ word ∷ []
unfolding dep_names
dep_names_last fuel devs word e = rw (e, dep_names) (ap (λ (r : Text × Option Text). r.0 ∷ []) e)

dep_names_more :
    (fuel : ℕ) (devs word rest : Text)
    → split_at_blank devs ≡ (word, some rest)
    → length rest ≢ 0
    → dep_names (suc fuel) devs ≡ word ∷ dep_names fuel rest
unfolding dep_names
dep_names_more fuel devs word [] e more = absurd (more refl)
dep_names_more fuel devs word (c ∷ s) e more =
    rw (e, dep_names) (ap (λ (r : Text × Option Text). r.0 ∷ dep_names fuel (c ∷ s)) e)

length-separated :
    (name : Text) (names : List Text) → IsName name → length (separated (name ∷ names)) ≢ 0
unfolding separated
length-separated name [] (filled, free) e = filled e
length-separated name (other ∷ names) (filled, free) e =
    omega (arith, e, length-append name (b' ' ∷ separated (other ∷ names)))

dep_names-separated :
    (fuel : ℕ) (name : Text) (names : List Text)
    → length (separated (name ∷ names)) < fuel
    → All IsName (name ∷ names)
    → dep_names fuel (separated (name ∷ names)) ≡ name ∷ names
unfolding separated
dep_names-separated zero name names enough named = absurd (omega (arith, enough))
dep_names-separated (suc fuel) name [] enough (named, rest) =
    dep_names_last fuel name name (split_at_blank-word name named.1)
dep_names-separated (suc fuel) name (other ∷ names) enough (named, rest) =
    let behind : Text = separated (other ∷ names) in
    let shorter : length behind < fuel =
      omega (arith, enough, length-append name (b' ' ∷ behind)) in
    dep_names_more fuel (name ++ (b' ' ∷ behind)) name behind
      (split_at_blank-words name behind named.1) (length-separated other names rest.0)
    ∙ ap (λ (l : List Text). name ∷ l) (dep_names-separated fuel other names shorter rest)

-- The loop of interface_deps takes a list of names, none of them empty or with a blank, back from their text with a blank between
-- each and the next, unless that text is "none".
pub deps_of-separated :
    (name : Text) (names : List Text)
    → All IsName (name ∷ names)
    → streq (separated (name ∷ names)) (codes "none") ≡ false
    → deps_of (separated (name ∷ names)) ≡ name ∷ names
unfolding deps_of
deps_of-separated name names named some_name =
    rw (some_name, deps_of)
      (dep_names-separated (suc (length (separated (name ∷ names)))) name names (omega arith) named)

-- How a value relates to the names in it: their text, perhaps with a blank behind.
abbrev pub Spells : Text → List Text → Type 0
Spells devs names =
    All IsBlankFree names × ((devs ≡ separated names) ⊎ (devs ≡ separated names ++ (b' ' ∷ [])))

Spells-cons :
    (word rest : Text) (names : List Text)
    → IsBlankFree word
    → length names ≢ 0
    → Spells rest names
    → Spells (word ++ (b' ' ∷ rest)) (word ∷ names)
unfolding separated
Spells-cons word rest [] free filled spelt = absurd (filled refl)
Spells-cons word rest (name ∷ names) free filled (others, inl same) =
    ((free, others), inl (ap (λ (t : Text). word ++ (b' ' ∷ t)) same))
Spells-cons word rest (name ∷ names) free filled (others, inr same) = (
  (free, others),
  inr (
      ap (λ (t : Text). word ++ (b' ' ∷ t)) same
      ∙ sym (append_assoc word (b' ' ∷ separated (name ∷ names)) (b' ' ∷ []))),
)

-- The names that come after a cut.
length-dep_names : (fuel : ℕ) (devs : Text) → length (dep_names (suc fuel) devs) ≢ 0
unfolding dep_names
length-dep_names fuel devs e = elim (Option-cases (split_at_blank devs).1) [
  | inl end ↦ absurd (ground (arith, end, e))
  | inr (rest, cut) ↦ at_rest rest cut
]
  where
    at_rest : (rest : Text) → (split_at_blank devs).1 ≡ some rest → ⊥
    at_rest [] cut = absurd (ground (arith, cut, e))
    at_rest (c ∷ s) cut = absurd (ground (arith, cut, e))

length-dep_names_more :
    (fuel : ℕ) (devs : Text) → length devs < fuel → length (dep_names fuel devs) ≢ 0
length-dep_names_more zero devs enough e = omega (arith, enough)
length-dep_names_more (suc fuel) devs enough e = length-dep_names fuel devs e

dep_names-Spells : (fuel : ℕ) (devs : Text) → length devs < fuel → Spells devs (dep_names fuel devs)
unfolding separated dep_names
dep_names-Spells zero devs enough = absurd (omega (arith, enough))
dep_names-Spells (suc fuel) devs enough =
    go (λ rest shorter. dep_names-Spells fuel rest shorter) (split_at_blank devs) refl
      (split_at_blank-Parts devs)
  where
    go :
        ((rest : Text) → length rest < fuel → Spells rest (dep_names fuel rest))
        → (r : Text × Option Text) → split_at_blank devs ≡ r
        → Parts devs r
        → Spells devs (dep_names (suc fuel) devs)
    go spell (word, none) e (free, same) =
        rw (dep_names_last fuel devs word e) ((free, tt), inl same)
    go spell (word, some []) e (free, same) =
        let last : dep_names (suc fuel) devs ≡ word ∷ [] =
          rw (e, dep_names) (ap (λ (r : Text × Option Text). r.0 ∷ []) e) in
        rw last ((free, tt), inr same)
    go spell (word, some (c ∷ s)) e (free, same) =
        let shorter : length (c ∷ s) < fuel =
          omega (arith, enough, ap length same, length-append word (b' ' ∷ (c ∷ s))) in
        rw (dep_names_more fuel devs word (c ∷ s) e (λ f. absurd (cc)), same)
          (Spells-cons word (c ∷ s) (dep_names fuel (c ∷ s)) free
            (length-dep_names_more fuel (c ∷ s) shorter) (spell (c ∷ s) shorter))

-- Of a value that is not "none", interface_deps takes names without a blank; with a blank between each and the next they are the
-- value again, but for one blank at its end.
pub deps_of-Spells : (devs : Text) → streq devs (codes "none") ≡ false → Spells devs (deps_of devs)
unfolding deps_of
deps_of-Spells devs some_name =
    rw (some_name, deps_of) (dep_names-Spells (suc (length devs)) devs (omega arith))
