-- ===== src/Redhat/Sort.antt =====
-- qsort with cmpstrp of src/drv_redhat.c: the order of strcmp on texts, and sorting by it.
use fbsd_netcf.Prelude.{
  ℕ, ◌≡◌, refl, ◌∙◌, sym, ap₂, inl, inr, Bool, true, false, List, [], ◌∷◌, Option, none, some, Text,
  ltb, ◌==◌, ==_iff, if◌then◌else◌, arith, Bool-cases, subst, All, streq, streq_sound, streq_self,
}

-- Whether strcmp gives no positive number.
unfoldable pub text_leb : Text → Text → Bool
text_leb [] t = true
text_leb (c ∷ s) [] = false
text_leb (c ∷ s) (d ∷ t) = if c == d then text_leb s t else ltb c d

unfoldable pub insert_text : Text → List Text → List Text
insert_text s [] = s ∷ []
insert_text s (t ∷ ts) = if text_leb s t then s ∷ t ∷ ts else t ∷ insert_text s ts

-- The C library does not say how it sorts. Texts that cmpstrp finds equal are equal, so that any way to
-- sort gives this list.
unfoldable pub qsort : List Text → List Text
unfolding insert_text
qsort [] = []
qsort (s ∷ ts) = insert_text s (qsort ts)

-- The last element of an array, `none` if it has none.
unfoldable pub last_of {ℓ} : {A : Type ℓ} → List A → Option A
last_of [] = none
last_of (x ∷ xs) = elim (last_of xs) [ none ↦ some x | some y ↦ some y ]

pub text_leb-total : (s t : Text) → text_leb s t ≡ false → text_leb t s ≡ true
unfolding text_leb
text_leb-total [] t e = absurd (cc)
text_leb-total (c ∷ s) [] e = refl
text_leb-total (c ∷ s) (d ∷ t) e = ground (arith, text_leb-total s t)

pub text_leb_trans :
    (s t u : Text) → text_leb s t ≡ true → text_leb t u ≡ true → text_leb s u ≡ true
unfolding text_leb
text_leb_trans [] t u e f = refl
text_leb_trans (c ∷ s) [] u e f = absurd (cc)
text_leb_trans (c ∷ s) (d ∷ t) [] e f = absurd (cc)
text_leb_trans (c ∷ s) (d ∷ t) (x ∷ u) e f = ground (arith, text_leb_trans s t u)

pub text_leb_refl : (s : Text) → text_leb s s ≡ true
unfolding text_leb
text_leb_refl [] = refl
text_leb_refl (c ∷ s) = ground (arith, text_leb_refl s)

pub text_leb-antisym : (s t : Text) → text_leb s t ≡ true → text_leb t s ≡ true → s ≡ t
unfolding text_leb
text_leb-antisym [] [] e f = refl
text_leb-antisym [] (d ∷ t) e f = absurd (cc)
text_leb-antisym (c ∷ s) [] e f = absurd (cc)
text_leb-antisym (c ∷ s) (d ∷ t) e f = elim (Bool-cases (c == d)) [
  | inl same ↦
      let equal : c ≡ d = (==_iff c d).0 same in
      ap₂ (λ (x : ℕ) (l : Text). x ∷ l) equal (text_leb-antisym s t (ground arith) (ground arith))
  | inr differ ↦ absurd (ground arith)
]

-- Whether a text is in a list: the loop with STREQ of uniq_ifcfg_paths.
unfoldable pub has : Text → List Text → Bool
has s [] = false
has s (t ∷ ts) = if streq s t then true else has s ts

-- Each text is before or equal to all behind it.
abbrev pub IsSorted : List Text → Type 0
IsSorted [] = Unit
IsSorted (t ∷ ts) = All (λ u. text_leb t u ≡ true) ts × IsSorted ts

-- No text is there twice.
abbrev pub IsDistinct : List Text → Type 0
IsDistinct [] = Unit
IsDistinct (t ∷ ts) = (has t ts ≡ false) × IsDistinct ts

pub has-insert_text :
    (u s : Text) (ts : List Text)
    → has u (insert_text s ts) ≡ (if streq u s then true else has u ts)
unfolding has insert_text
has-insert_text u s [] = refl
has-insert_text u s (t ∷ ts) = ground (arith, has-insert_text u s ts)

-- Sorting keeps the members.
pub has-qsort : (u : Text) (ts : List Text) → has u (qsort ts) ≡ has u ts
unfolding has qsort
has-qsort u [] = refl
has-qsort u (t ∷ ts) = has-insert_text u t (qsort ts) ∙ rw (has-qsort u ts) refl

pub All-mono :
    {P Q : Text → Type 0} (ts : List Text) → ((u : Text) → P u → Q u) → All P ts → All Q ts
All-mono [] f h = tt
All-mono (t ∷ ts) f (p, h) = (f t p, All-mono ts f h)

All-insert_text :
    (P : Text → Type 0) (s : Text) (ts : List Text) → P s → All P ts → All P (insert_text s ts)
unfolding insert_text
All-insert_text P s [] p h = (p, tt)
All-insert_text P s (t ∷ ts) p h = elim (Bool-cases (text_leb s t)) [
  | inl e ↦ rw e (p, h)
  | inr e ↦ rw e (h.0, All-insert_text P s ts p h.1)
]

insert_text-IsSorted : (s : Text) (ts : List Text) → IsSorted ts → IsSorted (insert_text s ts)
unfolding insert_text
insert_text-IsSorted s [] h = (tt, tt)
insert_text-IsSorted s (t ∷ ts) h = elim (Bool-cases (text_leb s t)) [
  | inl e ↦ rw e ((e, All-mono ts (λ (u : Text) le. text_leb_trans s t u e le) h.0), h)
  | inr e ↦ rw e (All-insert_text _ s ts (text_leb-total s t e) h.0, insert_text-IsSorted s ts h.1)
]

pub qsort-IsSorted : (ts : List Text) → IsSorted (qsort ts)
unfolding qsort
qsort-IsSorted [] = tt
qsort-IsSorted (t ∷ ts) = insert_text-IsSorted t (qsort ts) (qsort-IsSorted ts)

streq_flip : (s t : Text) → streq s t ≡ false → streq t s ≡ false
streq_flip s t e = elim (Bool-cases (streq t s)) [
  | inr f ↦ f
  | inl f ↦
      let same : t ≡ s = streq_sound t s f in
      let equal : streq s t ≡ true = rw same (streq_self s) in absurd (cc)
]

insert_text-IsDistinct :
    (s : Text) (ts : List Text) → has s ts ≡ false → IsDistinct ts → IsDistinct (insert_text s ts)
unfolding insert_text has
insert_text-IsDistinct s [] e h = (refl, tt)
insert_text-IsDistinct s (t ∷ ts) e h = elim (Bool-cases (text_leb s t)) [
  | inl le ↦ rw le (e, h)
  | inr gt ↦
      let differ : streq t s ≡ false = streq_flip s t (ground arith) in
      rw gt
        (has-insert_text t s ts ∙ (rw differ h.0), insert_text-IsDistinct s ts (ground arith) h.1)
]

pub qsort-IsDistinct : (ts : List Text) → IsDistinct ts → IsDistinct (qsort ts)
unfolding qsort
qsort-IsDistinct [] h = tt
qsort-IsDistinct (t ∷ ts) h =
    insert_text-IsDistinct t (qsort ts) (has-qsort t ts ∙ h.0) (qsort-IsDistinct ts h.1)

last_of-append-has :
    (t : Text) (ts : List Text) → (s : Text) × (last_of (t ∷ ts) ≡ some s) × (has s (t ∷ ts) ≡ true)
unfolding last_of has
last_of-append-has t [] = (t, refl, rw (streq_self t) refl)
last_of-append-has t (u ∷ ts) =
    let (s, last, inside) = last_of-append-has u ts in (s, rw last refl, ground (arith, inside))

-- What holds of all texts of a list holds of one that is in it.
pub All-has : (P : Text → Type 0) (s : Text) (ts : List Text) → All P ts → has s ts ≡ true → P s
unfolding has
All-has P s [] h e = absurd (cc)
All-has P s (t ∷ ts) h e = elim (Bool-cases (streq s t)) [
  | inl same ↦ subst P (sym (streq_sound s t same)) h.0
  | inr differ ↦ All-has P s ts h.1 (rw differ at e)
]

-- The last of a sorted list is the greatest.
pub last_of-IsSorted :
    (ts : List Text) (s : Text)
    → IsSorted ts
    → last_of ts ≡ some s
    → (has s ts ≡ true) × All (λ u. text_leb u s ≡ true) ts
unfolding last_of has
last_of-IsSorted [] s h e = absurd (cc)
last_of-IsSorted (t ∷ []) s h e =
    let same : t ≡ s = cc in rw same (rw (streq_self s) refl, (text_leb_refl s, tt))
last_of-IsSorted (t ∷ u ∷ ts) s h e =
    let (s', last, inside) = last_of-append-has u ts in
    let e' : some s' ≡ some s = rw last at e in
    let (found, greatest) = last_of-IsSorted (u ∷ ts) s h.1 (last ∙ e') in
    (ground (arith, found), (All-has (λ x. text_leb t x ≡ true) s (u ∷ ts) h.0 found, greatest))

All-insert_text_iff :
    (P : Text → Type 0) (s : Text) (ts : List Text) → All P (insert_text s ts) → P s × All P ts
unfolding insert_text
All-insert_text_iff P s [] h = h
All-insert_text_iff P s (t ∷ ts) h = elim (Bool-cases (text_leb s t)) [
  | inl e ↦ (rw e at h)
  | inr e ↦
      let h' : P t × All P (insert_text s ts) = rw e at h in
      let (p, rest) = All-insert_text_iff P s ts h'.1 in (p, (h'.0, rest))
]

pub All-qsort : (P : Text → Type 0) (ts : List Text) → All P (qsort ts) → All P ts
unfolding qsort
All-qsort P [] h = tt
All-qsort P (t ∷ ts) h =
    let (p, rest) = All-insert_text_iff P t (qsort ts) h in (p, All-qsort P ts rest)
