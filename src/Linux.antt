-- ===== src/Linux.antt =====
-- src/dutil_linux.c: the augeas instance of a handle, and the tables of transformations that it loads.
-- libaugeas is a parameter.
pub mod Tables
pub mod Instance
pub mod Load
pub mod Format
pub mod Paths
pub mod Sysfs
pub mod Modprobe
pub mod Kinds
pub mod Calm
pub mod Hwaddr
pub mod Init
pub mod Lifecycle
pub mod State
pub mod Sample
mod Tests
use fbsd_netcf.Prelude.{
  ℕ, zero, suc, ◌+◌, Bool, true, false, not, ◌&&◌, List, [], ◌∷◌, ◌++◌, Option, none, some, Text,
  codes, length, ◌==◌, if◌then◌else◌, ℤ, pos, negsuc, is_neg,
}
use fbsd_netcf.Netcf.{ErrCode, enomem, eother, Netcf, report_error, set_errcode, allocate, failed}

-- struct augeas_pv
pub record AugeasPv : Type 0 where
  pub path : Text
  pub value : Text

-- libaugeas, over its handles `A`, which stand for the tree, and the files of the system `V`. A result is
-- the number that the C function returns, with the tree behind it; of aug_match also the paths, of
-- aug_get the value (`none` is NULL). `aug_defnode` also gives `created`.
pub record Augeas (A V : Type 0) : Type 0 where
  pub aug_init : V → Text → Text → Option A
  pub aug_load : V → A → ℤ × A
  pub aug_save : V → A → ℤ × A × V
  pub aug_rm : A → Text → ℤ × A
  pub aug_set : A → Text → Option Text → ℤ × A
  pub aug_insert : A → Text → Text → Bool → ℤ × A
  pub aug_get : A → Text → ℤ × Option Text
  pub aug_match : A → Text → ℤ × List Text
  pub aug_defnode : A → Text → Text → Option Text → (ℤ × ℤ) × A

-- The fields of struct driver that concern augeas, with the system that lies outside. A table is a pointer,
-- which stands for itself in comparisons; a slot may be NULL.
pub record LinuxDriver (A V : Type 0) : Type 0 where
  pub augeas : Option A
  pub load_augeas : Bool
  pub copy_augeas_xfm : Bool
  pub augeas_xfm_tables : List (Option ℕ)
  pub system : V

-- The search for a slot that is NULL, and the store in it; `none` if there is no such slot.
pub fill_slot : List (Option ℕ) → ℕ → Option (List (Option ℕ))
fill_slot [] xfm = none
fill_slot (none ∷ slots) xfm = some (some xfm ∷ slots)
fill_slot (some t ∷ slots) xfm = elim (fill_slot slots xfm) [
  | none ↦ none
  | some filled ↦ some (some t ∷ filled)
]

-- The search for the table, and the store of NULL in its slot; `none` if the table is not there. The code
-- then reads behind the end of the array.
pub clear_slot : List (Option ℕ) → ℕ → Option (List (Option ℕ))
clear_slot [] xfm = none
clear_slot (none ∷ slots) xfm = elim (clear_slot slots xfm) [
  | none ↦ none
  | some cleared ↦ some (none ∷ cleared)
]
clear_slot (some t ∷ slots) xfm =
    let rest : Option (List (Option ℕ)) = elim (clear_slot slots xfm) [
      | none ↦ none
      | some cleared ↦ some (some t ∷ cleared)
    ] in
    if t == xfm then some (none ∷ slots) else rest

module _ {A V : Type 0} where
  abbrev pub with_tables : List (Option ℕ) → Netcf (LinuxDriver A V) → Netcf (LinuxDriver A V)
  with_tables slots n = record n {
    world = record n.world { augeas_xfm_tables = slots; copy_augeas_xfm = true };
  }

  -- add_augeas_xfm_table. An array is allocated for the first table, and a longer one if no slot is NULL.
  unfoldable pub add_augeas_xfm_table : ℕ → Netcf (LinuxDriver A V) → ℤ × Netcf (LinuxDriver A V)
  unfolding fill_slot
  add_augeas_xfm_table xfm n =
      let slots : List (Option ℕ) = n.world.augeas_xfm_tables in
      let (ok, n') = allocate n in
      elim (fill_slot slots xfm) [
        | some filled ↦ (pos 0, with_tables filled n)
        | none ↦
            if ok
            then (pos 0, with_tables (slots ++ (some xfm ∷ [])) n')
            else (negsuc 0, set_errcode enomem n')
      ]

  -- remove_augeas_xfm_table; `none` where it reads behind the end of the array.
  unfoldable pub remove_augeas_xfm_table :
      ℕ → Netcf (LinuxDriver A V) → Option (ℤ × Netcf (LinuxDriver A V))
  unfolding clear_slot
  remove_augeas_xfm_table xfm n = elim (clear_slot n.world.augeas_xfm_tables xfm) [
    | none ↦ none
    | some cleared ↦ some (pos 0, with_tables cleared n)
  ]

  -- aug_close and the assignment of NULL
  abbrev pub closed : Netcf (LinuxDriver A V) → Netcf (LinuxDriver A V)
  closed n = record n { world = record n.world { augeas = none } }

  -- goto error in get_augeas, or the rest with the tree.
  unfoldable pub or_close :
      Option A × Netcf (LinuxDriver A V)
      → (A → Netcf (LinuxDriver A V) → Option A × Netcf (LinuxDriver A V))
      → Option A × Netcf (LinuxDriver A V)
  or_close (none, n) rest = (none, closed n)
  or_close (some aug, n) rest = rest aug n

  -- The tree, as the handle holds it from here on.
  abbrev pub holding : A → Netcf (LinuxDriver A V) → Netcf (LinuxDriver A V)
  holding aug n = record n { world = record n.world { augeas = some aug } }

-- `contents` are the entries that a table points at.
module _ {A V : Type 0} (L : Augeas A V) (contents : ℕ → List AugeasPv) where
  open L use {
    aug_init, aug_load, aug_save, aug_rm, aug_set, aug_insert, aug_get, aug_match, aug_defnode,
  }

  -- The first part of get_augeas: the tree, new if there is none. `none` is goto error, as in the two
  -- other parts.
  unfoldable pub ensure_augeas : Netcf (LinuxDriver A V) → Option A × Netcf (LinuxDriver A V)
  ensure_augeas n = elim n.world.augeas [
    | some aug ↦ (some aug, n)
    | none ↦
        let (ok, n') = allocate n in
        if not ok
        then (none, set_errcode enomem n')
        else (let r : Option A × Netcf (LinuxDriver A V) =
              elim (aug_init n.world.system n.root (n.data_dir ++ codes "/lenses")) [
                | none ↦ (none, report_error eother (some (codes "aug_init failed")) n')
                | some aug ↦ (
                  some aug,
                  record n' {
                    world = record n'.world { augeas = some aug; copy_augeas_xfm = true };
                  },
                )
              ] in
            r)
  ]

  -- The loop over a table.
  unfoldable pub set_table : A → List AugeasPv → Option A
  set_table aug [] = some aug
  set_table aug (pv ∷ pvs) =
      let (r, aug') = aug_set aug pv.path (some pv.value) in
      let rest = set_table aug' pvs in if is_neg r then none else rest

  -- The loop over the slots.
  unfoldable pub set_tables : A → List (Option ℕ) → Option A
  set_tables aug [] = some aug
  set_tables aug (none ∷ slots) = set_tables aug slots
  set_tables aug (some t ∷ slots) = elim (set_table aug (contents t)) [
    | none ↦ none
    | some aug' ↦ set_tables aug' slots
  ]

  -- if (ncf->driver->copy_augeas_xfm)
  unfoldable pub copy_tables : A → Netcf (LinuxDriver A V) → Option A × Netcf (LinuxDriver A V)
  copy_tables aug n =
      let (r, bare) = aug_rm aug (codes "/augeas/load/*") in
      let copied : Option A × Netcf (LinuxDriver A V) =
        elim (set_tables bare n.world.augeas_xfm_tables) [
          | none ↦ (none, report_error eother (some (codes "transform setup failed to set %s")) n)
          | some aug' ↦ (
            some aug',
            record n {
              world = record n.world {
                augeas = some aug';
                copy_augeas_xfm = false;
                load_augeas = true;
              };
            },
          )
        ] in
      if not n.world.copy_augeas_xfm
      then (some aug, n)
      else if is_neg r
      then (none, report_error eother (some (codes "aug_rm failed in get_augeas")) n)
      else copied

  -- r > 0
  abbrev pub is_pos : ℤ → Bool
  is_pos (pos k) = not (k == 0)
  is_pos (negsuc k) = false

  -- if (ncf->driver->load_augeas). What is printed for debugging is left out.
  unfoldable pub load_files : A → Netcf (LinuxDriver A V) → Option A × Netcf (LinuxDriver A V)
  load_files aug n =
      let (r, aug') = aug_load n.world.system aug in
      let loaded : Netcf (LinuxDriver A V) = record n {
        world = record n.world { augeas = some aug'; load_augeas = false };
      } in
      if not n.world.load_augeas
      then (some aug, n)
      else if is_neg r
      then (none, report_error eother (some (codes "failed to load config files")) n)
      else if is_pos (aug_match aug' (codes "/augeas//error")).0
      then (none, report_error eother (some (codes "errors in loading some config files")) n)
      else (some aug', loaded)

  unfoldable pub get_augeas : Netcf (LinuxDriver A V) → Option A × Netcf (LinuxDriver A V)
  unfolding or_close
  get_augeas n = or_close (ensure_augeas n) (λ aug n₁.
      or_close (copy_tables aug n₁)
        (λ aug' n₂. or_close (load_files aug' n₂) (λ aug'' n₃. (some aug'', n₃))))
