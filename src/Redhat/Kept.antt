-- ===== src/Redhat/Kept.antt =====
-- Sorted lists of names, each once, of which some are left out: the loops of the Linux backends that take slaves out of an array.
use fbsd_netcf.Prelude.{
  ◌≡◌, refl, ap, ◌∙◌, Bool, true, false, ◌&&◌, List, [], ◌∷◌, Text, keep, All, Bool-cases, inl, inr,
  streq, streq_sound, arith,
}
use fbsd_netcf.Redhat.Sort.{has, text_leb, IsSorted, IsDistinct}

All-keep : (P : Text → Type 0) (test : Text → Bool) (l : List Text) → All P l → All P (keep test l)
All-keep P test [] h = tt
All-keep P test (t ∷ l) (p, h) = elim (Bool-cases (test t)) [
  | inl kept ↦ rw kept (p, All-keep P test l h)
  | inr left_out ↦ rw left_out (All-keep P test l h)
]

pub keep-IsSorted : (test : Text → Bool) (l : List Text) → IsSorted l → IsSorted (keep test l)
keep-IsSorted test [] h = tt
keep-IsSorted test (t ∷ l) (first, h) = elim (Bool-cases (test t)) [
  | inl kept ↦ rw kept (All-keep (λ u. text_leb t u ≡ true) test l first, keep-IsSorted test l h)
  | inr left_out ↦ rw left_out (keep-IsSorted test l h)
]

pub has-keep :
    (test : Text → Bool) (s : Text) (l : List Text) → has s (keep test l) ≡ (has s l && test s)
unfolding has
has-keep test s [] = refl
has-keep test s (t ∷ l) = elim (Bool-cases (streq s t)) [
  | inr differ ↦ ground (arith, has-keep test s l, differ)
  | inl same ↦
      let equal : s ≡ t = streq_sound s t same in
      let alike : test s ≡ test t = ap test equal in ground (arith, has-keep test s l, same, alike)
]

pub keep-IsDistinct : (test : Text → Bool) (l : List Text) → IsDistinct l → IsDistinct (keep test l)
keep-IsDistinct test [] h = tt
keep-IsDistinct test (t ∷ l) (new, h) = elim (Bool-cases (test t)) [
  | inl kept ↦
      let absent : has t (keep test l) ≡ false = has-keep test t l ∙ rw new refl in
      rw kept (absent, keep-IsDistinct test l h)
  | inr left_out ↦ rw left_out (keep-IsDistinct test l h)
]
