-- ===== src/Linux/Tables.antt =====
-- The tables of transformations that a handle of src/dutil_linux.c keeps, as the list of those that are there.
use fbsd_netcf.Prelude.{
  ℕ, ◌+◌, ◌≡◌, refl, sym, ◌∙◌, ◌⊎◌, inl, inr, true, List, [], ◌∷◌, ◌++◌, Option, none, some, ◌==◌,
  ==_iff, if◌then◌else◌, pos, negsuc, arith, Bool-cases, Option-cases,
}
use fbsd_netcf.Netcf.{Netcf, enomem, set_errcode, allocate}
use fbsd_netcf.Linux.{
  LinuxDriver, fill_slot, clear_slot, with_tables, add_augeas_xfm_table, remove_augeas_xfm_table,
}

-- The tables, without the slots that are NULL.
unfoldable pub live : List (Option ℕ) → List ℕ
live [] = []
live (none ∷ slots) = live slots
live (some t ∷ slots) = t ∷ live slots

-- How often a table is there.
unfoldable pub registered : ℕ → List (Option ℕ) → ℕ
registered xfm [] = 0
registered xfm (none ∷ slots) = registered xfm slots
registered xfm (some t ∷ slots) = (if t == xfm then 1 else 0) + registered xfm slots

registered-append :
    (xfm t : ℕ) (slots : List (Option ℕ))
    → registered t (slots ++ (some xfm ∷ [])) ≡ (if xfm == t then 1 else 0) + registered t slots
unfolding registered
registered-append xfm t [] = omega arith
registered-append xfm t (none ∷ slots) = registered-append xfm t slots
registered-append xfm t (some u ∷ slots) = omega (arith, registered-append xfm t slots)

registered-fill_slot :
    (slots : List (Option ℕ)) (xfm t : ℕ) {filled : List (Option ℕ)}
    → fill_slot slots xfm ≡ some filled
    → registered t filled ≡ (if xfm == t then 1 else 0) + registered t slots
unfolding registered fill_slot
registered-fill_slot [] xfm t e = absurd (cc)
registered-fill_slot (none ∷ slots) xfm t {filled} e =
    let same : some xfm ∷ slots ≡ filled = cc in rw (← same) refl
registered-fill_slot (some u ∷ slots) xfm t {filled} e = elim (Option-cases (fill_slot slots xfm)) [
  | inl full ↦ let e' : none ≡ some filled = rw full at e in absurd (cc)
  | inr (rest, found) ↦
      let e' : some (some u ∷ rest) ≡ some filled = rw found at e in
      let same : some u ∷ rest ≡ filled = cc in
      rw (← same) (omega (arith, registered-fill_slot slots xfm t found))
]

registered-clear_slot :
    (slots : List (Option ℕ)) (xfm t : ℕ) {cleared : List (Option ℕ)}
    → clear_slot slots xfm ≡ some cleared
    → registered t slots ≡ (if xfm == t then 1 else 0) + registered t cleared
unfolding registered clear_slot
registered-clear_slot [] xfm t e = absurd (cc)
registered-clear_slot (none ∷ slots) xfm t {cleared} e =
    elim (Option-cases (clear_slot slots xfm)) [
      | inl missing ↦ let e' : none ≡ some cleared = rw missing at e in absurd (cc)
      | inr (rest, found) ↦
          let e' : some (none ∷ rest) ≡ some cleared = rw found at e in
          let same : none ∷ rest ≡ cleared = cc in
          rw (← same) (registered-clear_slot slots xfm t found)
    ]
registered-clear_slot (some u ∷ slots) xfm t {cleared} e = elim (Bool-cases (u == xfm)) [
  | inl here ↦
      let e' : some (none ∷ slots) ≡ some cleared = rw here at e in
      let same : none ∷ slots ≡ cleared = cc in
      let equal : u ≡ xfm = (==_iff u xfm).0 here in rw (← same, ← equal) refl
  | inr elsewhere ↦ elim (Option-cases (clear_slot slots xfm)) [
    | inl missing ↦ let e' : none ≡ some cleared = rw (elsewhere, missing) at e in absurd (cc)
    | inr (rest, found) ↦
        let e' : some (some u ∷ rest) ≡ some cleared = rw (elsewhere, found) at e in
        let same : some u ∷ rest ≡ cleared = cc in
        rw (← same) (omega (arith, registered-clear_slot slots xfm t found))
  ]
]

clear_slot-none :
    (slots : List (Option ℕ)) (xfm : ℕ) → clear_slot slots xfm ≡ none → registered xfm slots ≡ 0
unfolding registered clear_slot
clear_slot-none [] xfm e = refl
clear_slot-none (none ∷ slots) xfm e = ground (arith, clear_slot-none slots xfm)
clear_slot-none (some u ∷ slots) xfm e = ground (arith, clear_slot-none slots xfm)

module _ {A V : Type 0} where
  abbrev pub tables_of : Netcf (LinuxDriver A V) → List (Option ℕ)
  tables_of n = n.world.augeas_xfm_tables

  -- If add_augeas_xfm_table gives 0, the table is registered once more than before and every other one as
  -- often as before, and the next get_augeas copies the tables; otherwise the tables are as before.
  pub add_augeas_xfm_table_lem :
      (xfm t : ℕ) (n : Netcf (LinuxDriver A V))
      → (((add_augeas_xfm_table xfm n).0 ≡ pos 0)
          × ((add_augeas_xfm_table xfm n).1.world.copy_augeas_xfm ≡ true)
          × (registered t (tables_of (add_augeas_xfm_table xfm n).1)
              ≡ (if xfm == t then 1 else 0) + registered t (tables_of n)))
        ⊎ (((add_augeas_xfm_table xfm n).0 ≡ negsuc 0)
            × (tables_of (add_augeas_xfm_table xfm n).1 ≡ tables_of n))
  unfolding add_augeas_xfm_table allocate set_errcode
  add_augeas_xfm_table_lem xfm t n = elim (Option-cases (fill_slot n.world.augeas_xfm_tables xfm)) [
    | inr (filled, found) ↦
        let e : add_augeas_xfm_table xfm n ≡ (pos 0, with_tables filled n) =
          rw (found, add_augeas_xfm_table) refl in
        inl (rw e (refl, refl, registered-fill_slot n.world.augeas_xfm_tables xfm t found))
    | inl full ↦ elim (Bool-cases (allocate n).0) [
      | inl ok ↦
          let e : add_augeas_xfm_table xfm n
              ≡ (pos 0, with_tables (n.world.augeas_xfm_tables ++ (some xfm ∷ [])) (allocate n).1) =
            rw (full, ok, add_augeas_xfm_table) refl in
          inl (rw e (refl, refl, registered-append xfm t n.world.augeas_xfm_tables))
      | inr fails ↦
          let e : add_augeas_xfm_table xfm n ≡ (negsuc 0, set_errcode enomem (allocate n).1) =
            rw (full, fails, add_augeas_xfm_table) refl in
          inr (rw e (refl, refl))
    ]
  ]

  -- remove_augeas_xfm_table gives 0 and takes one registration of the table away, leaving the others, if it
  -- is registered; otherwise it reads behind the end of the array.
  pub remove_augeas_xfm_table_lem :
      (xfm : ℕ) (n : Netcf (LinuxDriver A V))
      → ((n' : Netcf (LinuxDriver A V)) × (remove_augeas_xfm_table xfm n ≡ some (pos 0, n'))
          × (n'.world.copy_augeas_xfm ≡ true)
          × ((t : ℕ)
              → registered t (tables_of n)
                ≡ (if xfm == t then 1 else 0) + registered t (tables_of n')))
        ⊎ ((remove_augeas_xfm_table xfm n ≡ none) × (registered xfm (tables_of n) ≡ 0))
  unfolding remove_augeas_xfm_table
  remove_augeas_xfm_table_lem xfm n =
      elim (Option-cases (clear_slot n.world.augeas_xfm_tables xfm)) [
        | inl missing ↦ inr (
          rw (missing, remove_augeas_xfm_table) refl,
          clear_slot-none n.world.augeas_xfm_tables xfm missing,
        )
        | inr (cleared, found) ↦ inl (
          with_tables cleared n,
          rw (found, remove_augeas_xfm_table) refl,
          refl,
          λ t. registered-clear_slot n.world.augeas_xfm_tables xfm t found,
        )
      ]

  -- A table that was added is removed again: every table is registered as often as before.
  pub remove_augeas_xfm_table-add_augeas_xfm_table :
      (xfm : ℕ) (n : Netcf (LinuxDriver A V))
      → (add_augeas_xfm_table xfm n).0 ≡ pos 0
      → (n' : Netcf (LinuxDriver A V)) × (remove_augeas_xfm_table xfm (add_augeas_xfm_table xfm n).1
          ≡ some (pos 0, n'))
        × ((t : ℕ) → registered t (tables_of n') ≡ registered t (tables_of n))
  remove_augeas_xfm_table-add_augeas_xfm_table xfm n added =
      elim (remove_augeas_xfm_table_lem xfm (add_augeas_xfm_table xfm n).1) [
        | inl (n', removed, _, fewer) ↦ (n', removed, λ t. omega (arith, fewer t, add_more t))
        | inr (_, absent) ↦ absurd (ground (arith, absent, add_more xfm))
      ]
    where
      add_more :
          (t : ℕ)
          → registered t (tables_of (add_augeas_xfm_table xfm n).1)
            ≡ (if xfm == t then 1 else 0) + registered t (tables_of n)
      add_more t = elim (add_augeas_xfm_table_lem xfm t n) [
        | inl (_, _, e) ↦ e
        | inr (failed, _) ↦ let clash : pos 0 ≡ negsuc 0 = sym added ∙ failed in absurd (cc)
      ]
