-- ===== src/Redhat/Unique.antt =====
-- The names that uniq_ifcfg_paths of src/drv_redhat.c looks up.
use fbsd_netcf.Prelude.{
  ℕ, ◌≡◌, refl, ◌∙◌, true, false, List, [], ◌∷◌, ◌++◌, none, some, Text, if◌then◌else◌, streq,
  streq_sound, streq_self, arith, Bool-cases, inl, inr, All,
}
use fbsd_netcf.Linux.{Augeas, AugeasPv}
use fbsd_netcf.Redhat.Sort.{
  qsort, has, IsSorted, IsDistinct, has-qsort, qsort-IsSorted, qsort-IsDistinct,
}
use fbsd_netcf.Redhat.Find.{found, is_one}
use fbsd_netcf.Redhat.Paths.{unique_names}

has-append :
    (s t : Text) (ts : List Text) → has s (ts ++ (t ∷ [])) ≡ (if streq s t then true else has s ts)
unfolding has
has-append s t [] = refl
has-append s t (u ∷ ts) = ground (arith, has-append s t ts)

append-IsDistinct :
    (t : Text) (ts : List Text) → has t ts ≡ false → IsDistinct ts → IsDistinct (ts ++ (t ∷ []))
unfolding has
append-IsDistinct t [] e h = (refl, tt)
append-IsDistinct t (u ∷ ts) e h = elim (Bool-cases (streq u t)) [
  | inl same ↦
      let equal : u ≡ t = streq_sound u t same in
      let self : streq t u ≡ true = rw equal (streq_self t) in absurd (ground (arith, self, e))
  | inr differ ↦
      (has-append u t ts ∙ rw (differ, h.0) refl, append-IsDistinct t ts (ground (arith, e)) h.1)
]

-- A name that is known already adds none.
old_member :
    (name v : Text) (acc vs : List Text)
    → has v acc ≡ true
    → (if has name acc then true else has name vs)
      ≡ (if has name acc then true else has name (v ∷ vs))
unfolding has
old_member name v acc vs known = elim (Bool-cases (streq name v)) [
  | inr differ ↦ rw differ refl
  | inl same ↦
      let equal : name ≡ v = streq_sound name v same in
      let old : has name acc ≡ true = rw equal known in rw old refl
]

module _ {A V : Type 0} (L : Augeas A V) (contents : ℕ → List AugeasPv) where
  -- The values of the nodes, as far as they have one.
  unfoldable pub values : A → List Text → List Text
  values aug [] = []
  values aug (dev ∷ devs) = elim (L.aug_get aug dev).1 [
    | none ↦ values aug devs
    | some v ↦ v ∷ values aug devs
  ]

  -- Whether libaugeas gives one node with a value for each path.
  abbrev pub Readable : A → List Text → Type 0
  Readable aug =
      All (λ dev.
        (v : Text) × ((L.aug_get aug dev).1 ≡ some v) × (is_one (L.aug_get aug dev).0 ≡ true))

  unique_names_acc :
      (aug : A) (devs acc : List Text)
      → IsDistinct acc
      → Readable aug devs
      → (l : List Text) × (unique_names L contents aug devs acc ≡ found l)
        × IsDistinct l
        × ((name : Text) → has name l ≡ (if has name acc then true else has name (values aug devs)))
  unfolding unique_names values has
  unique_names_acc aug [] acc distinct read = (acc, refl, distinct, λ name. ground arith)
  unique_names_acc aug (dev ∷ devs) acc distinct ((v, value, one), read) =
      elim (Bool-cases (has v acc)) [
        | inl known ↦
            let (l, same, unique, members) = unique_names_acc aug devs acc distinct read in
            (
              l,
              rw (value, one, known, unique_names) same,
              unique,
              λ name.
                  members name ∙ rw (value, values) (old_member name v acc (values aug devs) known),
            )
        | inr new ↦
            let (l, same, unique, members) =
              unique_names_acc aug devs (acc ++ (v ∷ [])) (append-IsDistinct v acc new distinct)
                read in
            (
              l,
              rw (value, one, new, unique_names) same,
              unique,
              λ name. members name ∙ rw (value, values) (rw (has-append name v acc) (ground arith)),
            )
      ]

  -- If every node that uniq_ifcfg_paths is given has a value, its first loop and qsort give the values of the nodes: sorted, each
  -- once, and no others.
  pub unique_names_lem :
      (aug : A) (devs : List Text)
      → Readable aug devs
      → (l : List Text) × (unique_names L contents aug devs [] ≡ found l)
        × IsSorted (qsort l)
        × IsDistinct (qsort l)
        × ((name : Text) → has name (qsort l) ≡ has name (values aug devs))
  unfolding has
  unique_names_lem aug devs read =
      let (l, same, unique, members) = unique_names_acc aug devs [] tt read in
      (
        l,
        same,
        qsort-IsSorted l,
        qsort-IsDistinct l unique,
        λ name. has-qsort name l ∙ members name,
      )
