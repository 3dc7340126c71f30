-- ===== src/Netcf/Api.antt =====
-- The public functions of src/netcf.c, over any backend.
use fbsd_netcf.Prelude.{
  ℕ, ◌∷◌, [], List, ◌++◌, map, Bool, false, Option, none, some, Text, ltb, ◌==◌, if◌then◌else◌, ℤ,
  pos, negsuc, is_neg, codes,
}
use fbsd_netcf.Ref.{kept, freed, assertion_failed, unref}
use fbsd_netcf.Netcf.{
  noerror, einuse, Netcf, NetcfIf, Released, left, asserted, allocate, set_errcode, failed, release,
}
use fbsd_netcf.Driver.{Driver}

-- What ncf_init finds in the environment: NETCF_DATADIR, and whether NETCF_DEBUG is set.
pub record Environment : Type 0 where
  pub netcf_datadir : Option Text
  pub netcf_debug : Bool

-- The byte root[strlen(root) - 1], where `before` is the byte that lies in memory before `root`.
unfoldable pub last_byte : ℕ → Text → ℕ
last_byte before [] = before
last_byte before (c ∷ s) = last_byte c s

-- `(*ncf)->root`; `root` is NULL where it is `none`, and then it is "/".
unfoldable pub root_of : ℕ → Option Text → Text
unfolding last_byte
root_of before none = b'/' ∷ []
root_of before (some root) = if last_byte before root == b'/' then root else root ++ (b'/' ∷ [])

module _ {W : Type 0} (d : Driver W) where
  -- API_ENTRY
  unfoldable pub api_entry : Netcf W → Netcf W
  api_entry n =
      let n' : Netcf W = record n { errcode = noerror; errdetails = none } in
      if n'.driver then d.drv_entry n' else n'

  -- ncf_close behind API_ENTRY.
  unfoldable pub close_entered : Netcf W → ℤ × Released W
  unfolding set_errcode release
  close_entered n =
      let n' : Netcf W = if ltb 1 n.count then set_errcode einuse n else n in
      if failed n' then (negsuc 0, left n') else (pos 0, release (d.drv_close n'))

  -- ncf_close, of a handle that is not NULL: its result, and what is left of the handle.
  unfoldable pub ncf_close : Netcf W → ℤ × Released W
  ncf_close n = close_entered (api_entry n)

  unfoldable pub ncf_num_of_interfaces : ℕ → Netcf W → ℤ × Netcf W
  ncf_num_of_interfaces flags n = d.drv_num_of_interfaces flags (api_entry n)

  -- Where the backend fails, each slot is freed and set to NULL.
  unfoldable pub ncf_list_interfaces : ℕ → ℕ → Netcf W → (ℤ × List (Option Text)) × Netcf W
  ncf_list_interfaces maxnames flags n =
      let ((result, names), n') = d.drv_list_interfaces maxnames flags (api_entry n) in
      if is_neg result then ((result, map (λ _. none) names), n') else ((result, names), n')

  unfoldable pub ncf_lookup_by_name : Text → Netcf W → Option NetcfIf × Netcf W
  ncf_lookup_by_name name n = d.drv_lookup_by_name name (api_entry n)

  unfoldable pub ncf_lookup_by_mac_string :
      Text → ℕ → Netcf W → (ℤ × List (Option NetcfIf)) × Netcf W
  ncf_lookup_by_mac_string mac maxifaces n = d.drv_lookup_by_mac_string mac maxifaces (api_entry n)

  unfoldable pub ncf_define : Text → Netcf W → Option NetcfIf × Netcf W
  ncf_define xml n = d.drv_define xml (api_entry n)

  unfoldable pub ncf_if_name : NetcfIf → Netcf W → Text × Netcf W
  ncf_if_name nif n = (nif.name, api_entry n)

  unfoldable pub ncf_if_mac_string : NetcfIf → Netcf W → (Option Text × NetcfIf) × Netcf W
  ncf_if_mac_string nif n = d.drv_mac_string nif (api_entry n)

  unfoldable pub ncf_if_undefine : NetcfIf → Netcf W → ℤ × Netcf W
  ncf_if_undefine nif n = d.drv_undefine nif (api_entry n)

  unfoldable pub ncf_if_up : NetcfIf → Netcf W → ℤ × Netcf W
  ncf_if_up nif n = d.drv_if_up nif (api_entry n)

  unfoldable pub ncf_if_down : NetcfIf → Netcf W → ℤ × Netcf W
  ncf_if_down nif n = d.drv_if_down nif (api_entry n)

  unfoldable pub ncf_if_xml_desc : NetcfIf → Netcf W → Option Text × Netcf W
  ncf_if_xml_desc nif n = d.drv_xml_desc nif (api_entry n)

  unfoldable pub ncf_if_xml_state : NetcfIf → Netcf W → (Option Text × NetcfIf) × Netcf W
  ncf_if_xml_state nif n = d.drv_xml_state nif (api_entry n)

  unfoldable pub ncf_if_status : NetcfIf → Bool → Netcf W → (ℤ × Option ℕ) × Netcf W
  ncf_if_status nif has_flags n = d.drv_if_status nif has_flags (api_entry n)

  unfoldable pub ncf_change_begin : ℕ → Netcf W → ℤ × Netcf W
  ncf_change_begin flags n = d.drv_change_begin flags (api_entry n)

  unfoldable pub ncf_change_rollback : ℕ → Netcf W → ℤ × Netcf W
  ncf_change_rollback flags n = d.drv_change_rollback flags (api_entry n)

  unfoldable pub ncf_change_commit : ℕ → Netcf W → ℤ × Netcf W
  ncf_change_commit flags n = d.drv_change_commit flags (api_entry n)

  -- ncf_init. Where it gives -2, ncf_close has freed the handle, which has one reference and no driver yet, or
  -- was not allocated. `rng_parse` reads the schema and may report an error; `default_dir` is the path that
  -- is compiled in; `before` is the byte that lies in memory before the root.
  unfoldable pub ncf_init :
      (Netcf W → Bool × Netcf W)
      → Text
      → Environment
      → ℕ
      → Option Text
      → List Bool
      → W
      → ℤ × Option (Netcf W)
  ncf_init rng_parse default_dir env before root allocs world =
      let blank : Netcf W = record {
        count = 1;
        root = [];
        data_dir = [];
        rng = false;
        errcode = noerror;
        errdetails = none;
        driver = false;
        debug = false;
        allocs = allocs;
        world = world;
      } in
      let (made, n₁) = allocate blank in
      let (copied, n₂) = allocate n₁ in
      let n₃ : Netcf W = record n₂ {
        root = root_of before root;
        data_dir = datadir_or (default_dir ++ codes "/netcf") env.netcf_datadir;
        debug = env.netcf_debug;
      } in
      let (rng, n₄) = rng_parse n₃ in
      let n₅ : Netcf W = record n₄ { rng = rng } in
      let (r, n₆) = d.drv_init n₅ in
      if made
      then (if copied
          then (if failed n₅ then (negsuc 1, none) else (r, some n₆))
          else (negsuc 1, none))
      else (negsuc 1, none)
    where
      datadir_or : Text → Option Text → Text
      datadir_or default none = default
      datadir_or default (some dir) = dir

-- unref (nif, netcf_if): free_netcf_if gives back the reference to the handle. What is left of the
-- interface, and of the handle.
unfoldable pub ncf_if_free : {W : Type 0} → NetcfIf → Netcf W → Option NetcfIf × Released W
unfolding release
ncf_if_free nif n = elim (unref nif.count) [
  | kept count ↦ (some (record nif { count = count }), left n)
  | freed ↦ (none, release n)
  | assertion_failed ↦ (some nif, asserted)
]
