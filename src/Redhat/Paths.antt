-- ===== src/Redhat/Paths.antt =====
-- The files of all interfaces, in src/drv_redhat.c: uniq_ifcfg_paths and list_ifcfg_paths.
use fbsd_netcf.Prelude.{
  ℕ, not, List, [], ◌∷◌, ◌++◌, Option, none, some, Text, codes, if◌then◌else◌, is_neg,
}
use fbsd_netcf.Netcf.{Netcf, enomem, eother, set_errcode, allocate, failed}
use fbsd_netcf.Linux.{Augeas, AugeasPv, LinuxDriver, get_augeas}
use fbsd_netcf.Linux.Format.{aug_fmt_match}
use fbsd_netcf.Redhat.Sort.{qsort, has}
use fbsd_netcf.Redhat.Find.{
  Search, err_cond, find_ifcfg_path, follow, found, ifcfg_path, is_one, null_value, refused,
  with_augeas,
}

module _ {A V : Type 0} (L : Augeas A V) (contents : ℕ → List AugeasPv) where
  open L use {aug_get, aug_match}

  -- The first loop of uniq_ifcfg_paths, with the names so far. Once a value is NULL, C leaves undefined how it goes on,
  -- unless aug_get refuses a later node.
  unfoldable pub unique_names : A → List Text → List Text → Search (List Text)
  unfolding has
  unique_names aug [] devnames = found devnames
  unique_names aug (dev ∷ devs) devnames =
      let (r, value) = aug_get aug dev in
      elim value [
        | none ↦ if is_one r then null_value else refused
        | some name ↦
            let rest =
              unique_names aug devs
                (if has name devnames then devnames else devnames ++ (name ∷ [])) in
            if is_one r then rest else refused
      ]

  -- The second loop: the path of each name; `none` inside if there was an error.
  unfoldable pub canonical_paths :
      List Text
      → Netcf (LinuxDriver A V)
      → Option (Option (List (Option Text)) × Netcf (LinuxDriver A V))
  canonical_paths [] n = some (some [], n)
  canonical_paths (name ∷ names) n = elim (find_ifcfg_path L contents name n) [
    | none ↦ none
    | some (path, n₁) ↦
        let rest = canonical_paths names n₁ in
        if failed n₁
        then some (none, n₁)
        else follow rest
            (λ paths n₂. some (elim paths [ none ↦ none | some ps ↦ some (path ∷ ps) ], n₂))
  ]

  -- The paths of a list of names, sorted: the array is allocated, then filled.
  unfoldable pub sorted_paths :
      Search (List Text)
      → Netcf (LinuxDriver A V)
      → Option (Option (List (Option Text)) × Netcf (LinuxDriver A V))
  unfolding canonical_paths
  sorted_paths (found devnames) n =
      let (ok, n₁) = allocate n in
      if not ok then some (none, set_errcode enomem n₁) else canonical_paths (qsort devnames) n₁
  sorted_paths refused n = some (none, set_errcode eother n)
  sorted_paths null_value n = none

  -- uniq_ifcfg_paths: the array of the paths, of which one that was not found is NULL, or `none` where it gives -1.
  unfoldable pub uniq_ifcfg_paths :
      List Text
      → Netcf (LinuxDriver A V)
      → Option (Option (List (Option Text)) × Netcf (LinuxDriver A V))
  unfolding sorted_paths unique_names
  uniq_ifcfg_paths devs n =
      let (_, n₁) = get_augeas L contents n in
      let (ok, n₂) = allocate n₁ in
      if failed n₁
      then some (none, n₁)
      else if not ok
      then some (none, set_errcode enomem n₂)
      else with_augeas n₂ (λ aug. sorted_paths (unique_names aug devs []) n₂)

  -- list_ifcfg_paths. uniq_ifcfg_paths leaves an error where it gives -1.
  unfoldable pub list_ifcfg_paths :
      Netcf (LinuxDriver A V) → Option (Option (List (Option Text)) × Netcf (LinuxDriver A V))
  unfolding uniq_ifcfg_paths
  list_ifcfg_paths n =
      let ((ndevs, devs), n₁) = aug_fmt_match L contents (ifcfg_path ++ codes "/DEVICE") n in
      let n₂ = err_cond (is_neg ndevs) eother n₁ in
      if failed n₂
      then some (none, n₂)
      else follow (uniq_ifcfg_paths devs n₂)
          (λ paths n₃. some (if failed n₃ then none else paths, n₃))
