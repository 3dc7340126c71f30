-- ===== src/Xml/Errors.antt =====
-- What the functions on XML of src/dutil.c give, and which error they leave.
use fbsd_netcf.Prelude.{
  ◌≡◌, refl, codes, inl, inr, Bool, true, false, List, [], ◌∷◌, some, Text, if◌then◌else◌, ℤ,
  is_zero, arith, Bool-cases,
}
use fbsd_netcf.Netcf.{ErrCode, Netcf, noerror, is_noerror, exmlinvalid, report_error}
use fbsd_netcf.Xml.{LibXml, report_all, rng_validate}

abbrev is_nil : List Text → Bool
is_nil [] = true
is_nil (_ ∷ _) = false

module _ {W : Type 0} where
  report_all_kept :
      (errcode : ErrCode) (messages : List Text) (n : Netcf W)
      → is_noerror n.errcode ≡ false
      → report_all errcode messages n ≡ n
  unfolding report_all report_error
  report_all_kept errcode [] n bad = refl
  report_all_kept errcode (message ∷ messages) n bad =
      rw bad (report_all_kept errcode messages n bad)

  report_all_first :
      (errcode : ErrCode) (message : Text) (messages : List Text) (n : Netcf W)
      → n.errcode ≡ noerror
      → is_noerror errcode ≡ false
      → report_all errcode (message ∷ messages) n
        ≡ record n { errcode = errcode; errdetails = some message }
  unfolding report_all report_error
  report_all_first errcode message messages n fresh bad =
      rw (fresh, report_all)
        (report_all_kept errcode messages
          (record n { errcode = errcode; errdetails = some message }) bad)

module _ {D S V W : Type 0} (X : LibXml D S V) (system : W → V) where
  -- On a handle without an error, rng_validate leaves it without one exactly where the validator gives 0 and reports nothing;
  -- otherwise it leaves EXMLINVALID.
  rng_validate_lem :
      (doc : D) (n : Netcf W)
      → n.errcode ≡ noerror
      → (rng_validate X system doc n).errcode ≡ (
          if is_nil (X.validate_doc doc).0
          then (if is_zero (X.validate_doc doc).1 then noerror else exmlinvalid)
          else exmlinvalid)
  unfolding rng_validate report_all report_error
  rng_validate_lem doc n fresh = go (X.validate_doc doc)
    where
      go :
          (v : List Text × ℤ)
          → (let n₁ = report_all exmlinvalid v.0 n in
              if is_zero v.1
              then n₁
              else if is_noerror n₁.errcode
              then report_error exmlinvalid
                  (some (codes "Interface definition fails to validate"))
                  n₁
              else n₁).errcode
            ≡ (if is_nil v.0 then (if is_zero v.1 then noerror else exmlinvalid) else exmlinvalid)
      go ([], r) = elim (Bool-cases (is_zero r)) [
        | inl z ↦ rw z fresh
        | inr z ↦ ground (arith, z, fresh)
      ]
      go (m ∷ ms, r) =
          rw (report_all_first exmlinvalid m ms n fresh refl)
            (elim (Bool-cases (is_zero r)) [ inl z ↦ rw z refl | inr z ↦ rw z refl ])
