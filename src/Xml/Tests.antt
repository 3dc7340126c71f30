-- ===== src/Xml/Tests.antt =====
-- The theorem on rng_validate of src/dutil.c for a validator that refuses documents of more than one byte.
use fbsd_netcf.Prelude.{
  true, false, [], ◌∷◌, none, some, Text, codes, ltb, length, if◌then◌else◌, pos,
}
use fbsd_netcf.Netcf.{Netcf, noerror}
use fbsd_netcf.Xml.{LibXml}

abbrev library : LibXml Text Text Unit
library = record {
  access = λ v path. true;
  parse_stylesheet_file = λ v path. some path;
  apply = λ style doc. ([], false, some doc);
  save_result = λ doc style. (pos 0, doc);
  validate_doc = λ doc. if ltb 1 (length doc) then (codes "too long" ∷ [], pos 1) else ([], pos 0);
  read_doc = λ text. ([], some text);
  has_root = λ doc. true;
}

abbrev handle : Netcf Unit
handle = record {
  count = 1;
  root = codes "/";
  data_dir = codes "/usr";
  rng = true;
  errcode = noerror;
  errdetails = none;
  driver = true;
  debug = false;
  allocs = [];
  world = tt;
}
