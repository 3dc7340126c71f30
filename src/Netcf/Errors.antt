-- ===== src/Netcf/Errors.antt =====
-- How src/dutil.c and the macros of src/internal.h record errors in a handle, and the root that
-- ncf_init of src/netcf.c gives it.
use fbsd_netcf.Prelude.{
  ℕ, ◌≡◌, ◌≢◌, refl, inl, inr, ◌∷◌, [], List, Option, none, some, Text, true, false, ◌==◌, arith,
  All, Bool-cases, ==_iff, ◌++◌,
}
use fbsd_netcf.Netcf.{ErrCode, noerror, is_noerror, Netcf, report_error, vreport_error, set_errcode}
use fbsd_netcf.Netcf.Api.{root_of, last_byte}

-- What a function may do to the error of a handle, in the order in which it does it.
pub data Event : Type 0 where
  reported : ErrCode → Option Text → Event
  assigned : ErrCode → Event

-- The code of the event is an error.
abbrev pub IsError : Event → Type 0
IsError (reported c details) = is_noerror c ≡ false
IsError (assigned c) = is_noerror c ≡ false

abbrev pub IsReport : Event → Type 0
IsReport (reported c details) = Unit
IsReport (assigned c) = ⊥

-- What the assertion in vreport_error wants when it is reached.
abbrev pub IsClean : {W : Type 0} → Netcf W → Type 0
IsClean n = is_noerror n.errcode ≡ true → n.errdetails ≡ none

module _ {W : Type 0} where
  pub happen : Event → Netcf W → Netcf W
  unfolding report_error set_errcode
  happen (reported c details) n = report_error c details n
  happen (assigned c) n = set_errcode c n

  pub happen_all : List Event → Netcf W → Netcf W
  happen_all [] n = n
  happen_all (e ∷ es) n = happen_all es (happen e n)

  -- The same with the assertion.
  pub raise : Event → Netcf W → Option (Netcf W)
  unfolding vreport_error
  raise (reported c details) n = vreport_error c details n
  raise (assigned c) n = some (set_errcode c n)

  pub raise_all : List Event → Netcf W → Option (Netcf W)
  raise_all [] n = some n
  raise_all (e ∷ es) n = elim (raise e n) [ none ↦ none | some n' ↦ raise_all es n' ]

  raise-happen : (e : Event) (n : Netcf W) → IsClean n → raise e n ≡ some (happen e n)
  unfolding raise happen
  raise-happen (reported c details) n clean = elim (Bool-cases (is_noerror n.errcode)) [
    | inl first ↦ rw (first, vreport_error, clean first, report_error) refl
    | inr later ↦ rw (later, vreport_error, report_error) refl
  ]
  raise-happen (assigned c) n clean = refl

  happen-IsClean : (e : Event) (n : Netcf W) → IsError e → IsClean n → IsClean (happen e n)
  unfolding happen
  happen-IsClean (reported c details) n bad clean = ground arith
  happen-IsClean (assigned c) n bad clean = ground arith

  -- On a handle that has no details without an error, no list of errors, each reported by vreport_error
  -- or assigned, makes the assertion in vreport_error fail: all run to their end, as they would
  -- without the assertion, and the handle has no details without an error again.
  pub happen_all-IsClean :
      (es : List Event) (n : Netcf W)
      → All IsError es
      → IsClean n
      → (raise_all es n ≡ some (happen_all es n)) × IsClean (happen_all es n)
  unfolding happen_all raise_all
  happen_all-IsClean [] n bad clean = (refl, clean)
  happen_all-IsClean (e ∷ es) n bad clean =
      let (same, after) =
        happen_all-IsClean es (happen e n) bad.1 (happen-IsClean e n bad.0 clean) in
      (rw (raise-happen e n clean, raise_all) same, after)

  reports_kept :
      (es : List Event) (n : Netcf W)
      → All IsReport es
      → is_noerror n.errcode ≡ false
      → happen_all es n ≡ n
  unfolding happen_all happen
  reports_kept [] n r bad = refl
  reports_kept (reported c details ∷ es) n r bad =
      rw (bad, report_error) (reports_kept es n r.1 bad)
  reports_kept (assigned c ∷ es) n r bad = absurd r.0

  -- Of errors that are all reported, the first is kept, its code and its details.
  first_error :
      (c : ErrCode) (details : Option Text) (es : List Event) (n : Netcf W)
      → n.errcode ≡ noerror
      → is_noerror c ≡ false
      → All IsReport es
      → ((happen_all (reported c details ∷ es) n).errcode ≡ c)
        × ((happen_all (reported c details ∷ es) n).errdetails ≡ details)
  unfolding happen_all happen
  first_error c details es n fresh bad r =
      let kept : happen_all es (report_error c details n) ≡ report_error c details n =
        reports_kept es (report_error c details n) r (rw (fresh, report_error) bad) in
      rw (kept, fresh, report_error) (refl, refl)

last_byte-append : (b : ℕ) (s : Text) → last_byte b (s ++ (b'/' ∷ [])) ≡ b'/'
unfolding last_byte
last_byte-append b [] = refl
last_byte-append b (c ∷ s) = last_byte-append c s

-- The root of a handle ends in a slash, if the root that the caller gives is not the empty text.
root_of_slash :
    (before b : ℕ) (root : Option Text) → root ≢ some [] → last_byte b (root_of before root) ≡ b'/'
unfolding root_of last_byte
root_of_slash before b none h = refl
root_of_slash before b (some []) h = absurd (h refl)
root_of_slash before b (some (c ∷ s)) h = elim (Bool-cases (last_byte c s == b'/')) [
  | inl slash ↦ rw slash ((==_iff _ _).0 slash)
  | inr other ↦ rw other (last_byte-append c s)
]
