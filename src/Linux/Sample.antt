-- ===== src/Linux/Sample.antt =====
-- A small augeas with a handle, for the tests of src/dutil_linux.c and src/drv_redhat.c: a tree is a list of nodes, which set and
-- load put in front, and a pattern has the matches of a table.
use fbsd_netcf.Prelude.{
  ℕ, true, false, List, [], ◌∷◌, ◌++◌, Option, none, some, Text, codes, streq, length,
  if◌then◌else◌, ℤ, pos,
}
use fbsd_netcf.Netcf.{Netcf, noerror}
use fbsd_netcf.Linux.{Augeas, AugeasPv, LinuxDriver}

abbrev pub Nodes : Type 0
Nodes = List (Text × Option Text)

abbrev pub get_node : Nodes → Text → ℤ × Option Text
get_node [] path = (pos 0, none)
get_node ((name, value) ∷ nodes) path =
    if streq name path then (pos 1, value) else get_node nodes path

abbrev pub matches_in : List (Text × List Text) → Text → List Text
matches_in [] pattern = []
matches_in ((name, paths) ∷ patterns) pattern =
    if streq name pattern then paths else matches_in patterns pattern

abbrev pub sample_augeas : List (Text × List Text) → Augeas Nodes Nodes
sample_augeas patterns = record {
  aug_init = λ files root lenses. some [];
  aug_load = λ files nodes. (pos 0, files ++ nodes);
  aug_save = λ files nodes. (pos 0, nodes, nodes);
  aug_rm = λ nodes path. (pos 0, nodes);
  aug_set = λ nodes path value. (pos 0, (path, value) ∷ nodes);
  aug_insert = λ nodes path label before. (pos 0, nodes);
  aug_get = get_node;
  aug_match =
      λ nodes pattern. (pos (length (matches_in patterns pattern)), matches_in patterns pattern);
  aug_defnode = λ nodes name expr value. ((pos 1, pos 0), nodes);
}

abbrev pub entries_of : ℕ → List AugeasPv
entries_of t = record { path = codes "/augeas/load/Ifcfg/lens"; value = codes "Sysconfig.lns" } ∷ []

-- A handle on these files, which has not loaded them.
abbrev pub new_handle : Nodes → Netcf (LinuxDriver Nodes Nodes)
new_handle files = record {
  count = 1;
  root = codes "/";
  data_dir = codes "/usr";
  rng = true;
  errcode = noerror;
  errdetails = none;
  driver = true;
  debug = false;
  allocs = [];
  world = record {
    augeas = none;
    load_augeas = true;
    copy_augeas_xfm = true;
    augeas_xfm_tables = none ∷ some 3 ∷ [];
    system = files;
  };
}
