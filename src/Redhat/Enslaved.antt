-- ===== src/Redhat/Enslaved.antt =====
-- bridge_slaves and is_bridge of src/drv_redhat.c on a handle that holds the loaded tree, has no error, and does
-- not run out of memory.
use fbsd_netcf.Prelude.{
  ℕ, suc, ◌+◌, ◌<◌, ◌≤◌, ◌≡◌, refl, inl, inr, ap, ltb→lt, ◌∙◌, Bool, true, false, ◌&&◌, List, [],
  ◌∷◌, ◌++◌, Option, none, some, Text, codes, map, length, ltb, ℤ, pos, arith, Bool-cases,
}
use fbsd_netcf.Netcf.{Netcf}
use fbsd_netcf.Netcf.Memory.{HasMemory, allocate_ok}
use fbsd_netcf.Linux.{Augeas, AugeasPv, LinuxDriver, is_pos}
use fbsd_netcf.Linux.Instance.{get_augeas_settled}
use fbsd_netcf.Linux.Calm.{IsCalm, nodes_at, not_failed, aug_fmt_match_calm}
use fbsd_netcf.Redhat.Find.{follow, with_augeas, ifcfg_path}
use fbsd_netcf.Redhat.Bridge.{is_bridge, slave_names, bridge_slaves}

-- The files that make an interface a bridge.
abbrev pub bridge_pattern : Text → Text
bridge_pattern name =
    ifcfg_path ++ (codes "[ DEVICE = '" ++ (name ++ codes "' and TYPE = 'Bridge']"))

-- The nodes that name its slaves.
abbrev pub slave_pattern : Text → Text
slave_pattern name = ifcfg_path ++ (codes "[ BRIDGE = '" ++ (name ++ codes "' ]/DEVICE"))

-- What aug_get gives for a node with a value.
abbrev pub value_of : Text → ℤ × Option Text
value_of name = (pos 1, some name)

module _ {A V : Type 0} (L : Augeas A V) (contents : ℕ → List AugeasPv) (beyond : ℕ → Bool) where
  is_pos-suc : (k : ℕ) → is_pos L contents (pos (suc k)) ≡ true
  is_pos-suc k = ground arith

  pub is_bridge_calm :
      (aug : A) (name : Text) (n : Netcf (LinuxDriver A V)) {files : ℕ}
      → IsCalm aug n
      → (L.aug_match aug (bridge_pattern name)).0 ≡ pos (suc files)
      → is_bridge L contents name n ≡ (true, n)
  unfolding is_bridge
  is_bridge_calm aug name n {files} calm counted =
      ap (λ (r : (ℤ × List Text) × Netcf (LinuxDriver A V)). (is_pos L contents r.0.0, r.1))
        (aug_fmt_match_calm L contents aug (bridge_pattern name) n (suc files) calm counted)
      ∙ ap (λ (b : Bool). (b, n)) (is_pos-suc files)

  slave_names_calm :
      (aug : A) (i : ℕ) (nodes names : List Text) (n : Netcf (LinuxDriver A V))
      → HasMemory n
      → map (L.aug_get aug) nodes ≡ map value_of names
      → ((j : ℕ) → i ≤ j → j < i + length names → (ltb 0 j && beyond j) ≡ false)
      → slave_names L contents beyond aug i nodes n
        ≡ some (some (map (λ (name : Text). some name) names), n)
  unfolding slave_names follow
  slave_names_calm aug i [] [] n memory values in_array = refl
  slave_names_calm aug i [] (name ∷ names) n memory values in_array = absurd (cc)
  slave_names_calm aug i (p ∷ nodes) [] n memory values in_array = absurd (cc)
  slave_names_calm aug i (p ∷ nodes) (name ∷ names) n memory values in_array =
      let first : L.aug_get aug p ≡ value_of name = cc in
      let others : map (L.aug_get aug) nodes ≡ map value_of names = cc in
      let r : (L.aug_get aug p).0 ≡ pos 1 = ap (λ (v : ℤ × Option Text). v.0) first in
      let dev : (L.aug_get aug p).1 ≡ some name = ap (λ (v : ℤ × Option Text). v.1) first in
      let here : (ltb 0 i && beyond i) ≡ false = in_array i (omega arith) (omega arith) in
      let rest =
        slave_names_calm aug (i + 1) nodes names n memory others
          (λ j above below. in_array j (omega arith) (omega arith)) in
      rw (r, dev, here, allocate_ok n memory) (rw rest (rw (allocate_ok n memory) refl))

  with_augeas_held :
      {R : Type 0} (aug : A) (n : Netcf (LinuxDriver A V))
      (rest : A → Option (R × Netcf (LinuxDriver A V)))
      → n.world.augeas ≡ some aug
      → with_augeas n rest ≡ rest aug
  unfolding with_augeas
  with_augeas_held aug n rest held =
      ap (λ (o : Option A). elim o [ none ↦ none | some a ↦ rest a ]) held

  -- bridge_slaves gives the values of the nodes, in their order.
  pub bridge_slaves_calm :
      (aug : A) (name : Text) (names : List Text) (n : Netcf (LinuxDriver A V)) {count : ℕ}
      → IsCalm aug n
      → (L.aug_match aug (slave_pattern name)).0 ≡ pos count
      → map (L.aug_get aug) (nodes_at L contents aug (slave_pattern name)) ≡ map value_of names
      → ((j : ℕ) → 0 < j → j < length names → beyond j ≡ false)
      → bridge_slaves L contents beyond name n
        ≡ some (some (map (λ (slave : Text). some slave) names), n)
  unfolding bridge_slaves with_augeas
  bridge_slaves_calm aug name names n {count} calm counted values in_array =
      let nodes = nodes_at L contents aug (slave_pattern name) in
      let matched = aug_fmt_match_calm L contents aug (slave_pattern name) n count calm counted in
      let named = slave_names_calm aug 0 nodes names n calm.memory values (λ j above below.
        elim (Bool-cases (ltb 0 j)) [
          | inl behind ↦ rw (behind, in_array j (ltb→lt 0 j behind) (omega arith)) refl
          | inr first ↦ rw first refl
        ]) in
      rw (get_augeas_settled L contents aug n calm.settled, matched)
        (rw (not_failed L contents n calm.clean)
          (with_augeas_held aug n _ calm.settled.held ∙ named))
