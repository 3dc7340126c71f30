-- ===== src/Freebsd/RcConf/Absent.antt =====
-- drv_undefine of src/drv_freebsd.c on an rc.conf that does not mention the interface.
use fbsd_netcf.Prelude.{
  ℕ, zero, suc, ◌≤◌, ◌≡◌, refl, ap, ◌∙◌, ◌≢◌, true, false, [], ◌∷◌, ◌++◌, none, some, Text, length,
  arith, has_prefix, strstr, Bool-cases, inl, inr,
}
use fbsd_netcf.Netcf.{NetcfIf}
use fbsd_netcf.Freebsd.RcConf.{
  RcFiles, drv_undefine, fgets, copy_loop, is_dropped, fgets-append, fgets-rest,
}

has_prefix-append : (p a b : Text) → has_prefix p a ≡ true → has_prefix p (a ++ b) ≡ true
unfolding has_prefix
has_prefix-append [] a b h = refl
has_prefix-append (x ∷ p) [] b h = cc
has_prefix-append (x ∷ p) (y ∷ a) b h = ground (arith, has_prefix-append p a b)

strstr_found : (s p : Text) → has_prefix p s ≡ true → strstr s p ≢ none
unfolding strstr
strstr_found [] p h = rw h (λ e. cc)
strstr_found (y ∷ s) p h = rw h (λ e. cc)

strstr_tail : (y : ℕ) (s p : Text) → strstr (y ∷ s) p ≡ none → strstr s p ≡ none
unfolding strstr
strstr_tail y s p h = ground arith

-- A text that is not found is not found in the front part, and not in the back part.
strstr_front : (a b p : Text) → strstr (a ++ b) p ≡ none → strstr a p ≡ none
unfolding strstr
strstr_front [] b p h = elim (Bool-cases (has_prefix p [])) [
  | inl begins ↦ absurd (strstr_found b p (has_prefix-append p [] b begins) h)
  | inr other ↦ rw other refl
]
strstr_front (y ∷ a) b p h = elim (Bool-cases (has_prefix p (y ∷ a))) [
  | inl begins ↦ absurd (strstr_found (y ∷ (a ++ b)) p (has_prefix-append p (y ∷ a) b begins) h)
  | inr other ↦ rw other (strstr_front a b p (strstr_tail y (a ++ b) p h))
]

strstr_back : (a b p : Text) → strstr (a ++ b) p ≡ none → strstr b p ≡ none
unfolding strstr
strstr_back [] b p h = h
strstr_back (y ∷ a) b p h = strstr_back a b p (ground arith)

copy_loop_same :
    (fuel : ℕ) (name s : Text) → length s ≤ fuel → strstr s name ≡ none → copy_loop fuel name s ≡ s
unfolding copy_loop is_dropped
copy_loop_same zero name [] h absent = refl
copy_loop_same zero name (c ∷ s) h absent = absurd (omega arith)
copy_loop_same (suc fuel) name [] h absent = refl
copy_loop_same (suc fuel) name (c ∷ s) h absent =
    let line : Text = (fgets 255 (c ∷ s)).0 in
    let rest : Text = (fgets 255 (c ∷ s)).1 in
    let parts : line ++ rest ≡ c ∷ s = fgets-append 255 (c ∷ s) in
    let absent' : strstr (line ++ rest) name ≡ none = rw parts absent in
    let stays : is_dropped name line ≡ false =
      rw (strstr_front line rest name absent', is_dropped) (ground arith) in
    rw (stays, copy_loop)
      (ap (λ (l : Text). line ++ l)
          (copy_loop_same fuel name rest (omega (arith, fgets-rest 254 c s))
            (strstr_back line rest name absent'))
        ∙ parts)

-- drv_undefine does not change an rc.conf that does not mention the interface.
drv_undefine_absent :
    (nif : NetcfIf) (files : RcFiles) (text : Text)
    → files.rc_conf ≡ some text
    → strstr text nif.name ≡ none
    → (drv_undefine nif files).1.rc_conf ≡ some text
unfolding drv_undefine
drv_undefine_absent nif files text there absent =
    let same = copy_loop_same (length text) nif.name text (omega arith) absent in
    rw (there, drv_undefine) (rw same (ground (arith, there)))
