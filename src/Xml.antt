-- ===== src/Xml.antt =====
-- The functions on XML of src/dutil.c: reading and validating a document, reading a stylesheet and applying it. libxml2 and
-- libxslt are a parameter; a callback for errors is the list of the messages it is called with.
mod Errors
mod Tests
use fbsd_netcf.Prelude.{
  Bool, true, false, not, List, [], ◌∷◌, ◌++◌, Option, none, some, Text, codes, if◌then◌else◌, ℤ,
  is_neg, is_zero,
}
use fbsd_netcf.Netcf.{
  ErrCode, Netcf, is_noerror, enomem, einternal, exmlparser, exmlinvalid, exsltfailed, efile,
  report_error, set_errcode, allocate, failed,
}

-- The libraries, over their documents `D` and stylesheets `S`. `apply` gives the messages, whether the state of the
-- context is an error or a stop, and the new document; `save_result` the number that it returns and the text.
pub record LibXml (D S V : Type 0) : Type 0 where
  pub access : V → Text → Bool
  pub parse_stylesheet_file : V → Text → Option S
  pub apply : S → D → List Text × Bool × Option D
  pub save_result : Option D → S → ℤ × Option Text
  pub validate_doc : D → List Text × ℤ
  pub read_doc : Text → List Text × Option D
  pub has_root : D → Bool

module _ {W : Type 0} where
  -- The calls of a callback: apply_stylesheet_error, rng_error, catch_xml_error.
  unfoldable pub report_all : ErrCode → List Text → Netcf W → Netcf W
  report_all errcode [] n = n
  report_all errcode (message ∷ messages) n =
      report_all errcode messages (report_error errcode (some message) n)

module _ {D S V W : Type 0} (X : LibXml D S V) (system : W → V) where
  unfoldable pub parse_stylesheet : Text → Netcf W → Option S × Netcf W
  parse_stylesheet fname n =
      let (ok, n₁) = allocate n in
      let path : Text = n.data_dir ++ (codes "/xml/" ++ fname) in
      let parsed : Option S × Netcf W = elim (X.parse_stylesheet_file (system n₁.world) path) [
        | none ↦ (none, report_error efile (some (codes "Could not parse stylesheet %s")) n₁)
        | some style ↦ (some style, n₁)
      ] in
      if not ok
      then (none, set_errcode enomem n₁)
      else if not (X.access (system n₁.world) path)
      then (
        none,
        report_error efile (some (codes "Stylesheet %s does not exist or is not readable")) n₁,
      )
      else parsed

  -- apply_stylesheet. The two steps before the transformation fail where there is no memory.
  unfoldable pub apply_stylesheet : S → D → Netcf W → Option D × Netcf W
  unfolding report_all
  apply_stylesheet style doc n =
      let (ok₁, n₁) = allocate n in
      let (ok₂, n₂) = allocate n₁ in
      let (messages, stopped, res) = X.apply style doc in
      let n₃ = report_all exsltfailed messages n₂ in
      if not ok₁
      then (none, set_errcode enomem n₁)
      else if not ok₂
      then (none, set_errcode enomem n₂)
      else if stopped
      then (none, report_error exsltfailed none n₃)
      else (res, n₃)

  unfoldable pub apply_stylesheet_to_string : S → D → Netcf W → Option Text × Netcf W
  unfolding apply_stylesheet
  apply_stylesheet_to_string style doc n =
      let (doc_xfm, n₁) = apply_stylesheet style doc n in
      let (r, result) = X.save_result doc_xfm style in
      if failed n₁
      then (none, n₁)
      else if is_neg r
      then (none, set_errcode enomem n₁)
      else (result, n₁)

  unfoldable pub rng_validate : D → Netcf W → Netcf W
  unfolding report_all
  rng_validate doc n =
      let (messages, r) = X.validate_doc doc in
      let n₁ = report_all exmlinvalid messages n in
      if is_zero r
      then n₁
      else if is_noerror n₁.errcode
      then report_error exmlinvalid (some (codes "Interface definition fails to validate")) n₁
      else n₁

  unfoldable pub parse_xml : Text → Netcf W → Option D × Netcf W
  unfolding report_all
  parse_xml xml_str n =
      let (ok, n₁) = allocate n in
      let (messages, xml) = X.read_doc xml_str in
      let n₂ = report_all exmlparser messages n₁ in
      let checked : Option D × Netcf W = elim xml [
        | none ↦ (none, report_error exmlparser (some (codes "failed to parse xml document")) n₂)
        | some doc ↦
            if X.has_root doc
            then (some doc, n₂)
            else (none, report_error einternal (some (codes "missing root element")) n₂)
      ] in
      if not ok then (none, set_errcode enomem n₁) else checked
