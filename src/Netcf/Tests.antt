-- ===== src/Netcf/Tests.antt =====
-- The theorems on the errors of handles at concrete inputs.
use fbsd_netcf.Prelude.{◌≡◌, ℕ, refl, true, false, List, [], ◌∷◌, none, some, codes}
use fbsd_netcf.Netcf.{Netcf, noerror, enomem, eother}
use fbsd_netcf.Netcf.Errors.{
  Event, reported, assigned, IsClean, happen_all, raise_all, happen_all-IsClean,
}

abbrev handle : Netcf ℕ
handle = record {
  count = 1;
  root = codes "/";
  data_dir = codes "/usr/share/netcf";
  rng = true;
  errcode = noerror;
  errdetails = none;
  driver = true;
  debug = false;
  allocs = [];
  world = 0;
}

abbrev mixed : List Event
mixed = assigned enomem ∷ reported eother (some (codes "flags")) ∷ []

happen_all-IsClean_example :
    (raise_all mixed handle ≡ some (happen_all mixed handle)) × IsClean (happen_all mixed handle)
happen_all-IsClean_example = happen_all-IsClean mixed handle (refl, (refl, tt)) (λ fresh. refl)
