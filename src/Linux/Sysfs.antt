-- ===== src/Linux/Sysfs.antt =====
-- MAC addresses in the tree: aug_match_mac and aug_get_mac of src/dutil_linux.c.
use fbsd_netcf.Prelude.{
  ℕ, ◌+◌, ◌≡◌, refl, false, not, ◌&&◌, List, [], ◌∷◌, ◌++◌, Option, none, some, Text, codes, leb,
  ◌==◌, if◌then◌else◌, ℤ, pos, negsuc, map, length, Bool-cases, Option-cases, inl, inr, ◌⊎◌, ap,
}
use fbsd_netcf.Netcf.{
  Netcf, noerror, is_noerror, enomem, einternal, report_error, set_errcode, allocate, failed,
}
use fbsd_netcf.Linux.{Augeas, AugeasPv, LinuxDriver, get_augeas}
use fbsd_netcf.Linux.Format.{aug_fmt_match}
use fbsd_netcf.Linux.Paths.{no_error, an_error}

-- c_tolower
unfoldable pub c_tolower : ℕ → ℕ
c_tolower c = if leb b'A' c && leb c b'Z' then c + 32 else c

-- strrchr (s, '/') + 1; `none` if there is no slash.
unfoldable pub behind_last_slash : Text → Option Text
behind_last_slash [] = none
behind_last_slash (c ∷ s) = elim (behind_last_slash s) [
  | some rest ↦ some rest
  | none ↦ if c == b'/' then some s else none
]

-- The loop that replaces each path by the name behind its last slash.
module _ {A V : Type 0} where
  unfoldable pub base_names :
      List Text → Netcf (LinuxDriver A V) → Option (List Text) × Netcf (LinuxDriver A V)
  unfolding behind_last_slash
  base_names [] n = (some [], n)
  base_names (path ∷ paths) n = elim (behind_last_slash path) [
    | none ↦ (none, report_error einternal (some (codes "missing / in sysfs path")) n)
    | some name ↦
        let (ok, n₁) = allocate n in
        let (names, n₂) = base_names paths n₁ in
        let all : Option (List Text) = elim names [
          | none ↦ none
          | some rest ↦ some (name ∷ rest)
        ] in
        if ok then (all, n₂) else (none, set_errcode enomem n₁)
  ]

  -- The result of a loop over all names, or -1.
  abbrev pub counted :
      Option (List Text) × Netcf (LinuxDriver A V) → (ℤ × List Text) × Netcf (LinuxDriver A V)
  counted (none, n) = ((negsuc 0, []), n)
  counted (some names, n) = ((pos (length names), names), n)

module _ {A V : Type 0} (L : Augeas A V) (contents : ℕ → List AugeasPv) where
  -- aug_match_mac
  unfoldable pub aug_match_mac :
      Text → Netcf (LinuxDriver A V) → (ℤ × List Text) × Netcf (LinuxDriver A V)
  aug_match_mac mac n =
      let (ok, n₁) = allocate n in
      let path : Text =
        codes "/files/sys/class/net/*[address/content = '" ++ (map c_tolower mac ++ codes "']") in
      let ((r, matches), n₂) = aug_fmt_match L contents path n₁ in
      if not ok
      then ((negsuc 0, []), set_errcode enomem n₁)
      else if failed n₂
      then ((negsuc 0, []), n₂)
      else counted (base_names matches n₂)

  -- aug_get_mac: its result and `*mac`. Where get_augeas leaves an error, `none`: the code then frees a pointer
  -- that was never assigned.
  unfoldable pub aug_get_mac :
      Text → Netcf (LinuxDriver A V) → Option ((ℤ × Option Text) × Netcf (LinuxDriver A V))
  aug_get_mac intf n =
      let (aug, n₁) = get_augeas L contents n in
      let (ok, n₂) = allocate n₁ in
      let path : Text = codes "/files/sys/class/net/" ++ (intf ++ codes "/address/content") in
      if failed n₁
      then none
      else if not ok
      then some ((negsuc 0, none), set_errcode enomem n₂)
      else (let r : _ = elim aug [ none ↦ none | some a ↦ some (L.aug_get a path, n₂) ] in r)

-- How base_names ends on a handle without an error.
base_names-counted :
    {A V : Type 0} (paths : List Text) (n : Netcf (LinuxDriver A V))
    → n.errcode ≡ noerror
    → ((names : List Text) × ((base_names paths n).0 ≡ some names)
        × (map (λ name. some name) names ≡ map behind_last_slash paths)
        × ((base_names paths n).1.errcode ≡ noerror))
      ⊎ (((base_names paths n).0 ≡ none) × (is_noerror (base_names paths n).1.errcode ≡ false))
unfolding base_names report_error set_errcode allocate
base_names-counted [] n fresh = inl ([], refl, refl, fresh)
base_names-counted (path ∷ paths) n fresh = elim (Option-cases (behind_last_slash path)) [
  | inl flat ↦ rw (flat, base_names) (inr (refl, rw (fresh, report_error) refl))
  | inr (name, found) ↦ elim (Bool-cases (allocate n).0) [
    | inr fails ↦ rw (found, base_names) (rw fails (inr (refl, refl)))
    | inl ok ↦ elim (base_names-counted paths (allocate n).1 fresh) [
      | inl (names, all, bases, clean) ↦
          rw (found, base_names)
            (rw (ok, all)
              (inl
                (name ∷ names, refl, ap (λ (l : List (Option Text)). some name ∷ l) bases, clean)))
      | inr (none_left, bad) ↦ rw (found, base_names) (rw (ok, none_left) (inr (refl, bad)))
    ]
  ]
]

module _ {A V : Type 0} (L : Augeas A V) (contents : ℕ → List AugeasPv) where
  -- The nodes of sysfs with the MAC in lower case, as libaugeas finds them.
  abbrev pub mac_nodes : Text → Netcf (LinuxDriver A V) → (ℤ × List Text) × Netcf (LinuxDriver A V)
  mac_nodes mac n =
      aug_fmt_match L contents
        (codes "/files/sys/class/net/*[address/content = '" ++ (map c_tolower mac ++ codes "']"))
        (allocate n).1

  counted-Agrees :
      (paths : List Text) (n : Netcf (LinuxDriver A V))
      → n.errcode ≡ noerror
      → ((names : List Text) × ((counted (base_names paths n)).0 ≡ (pos (length names), names))
          × ((counted (base_names paths n)).1.errcode ≡ noerror)
          × (map (λ name. some name) names ≡ map behind_last_slash paths))
        ⊎ (((counted (base_names paths n)).0.0 ≡ negsuc 0)
            × (is_noerror (counted (base_names paths n)).1.errcode ≡ false))
  counted-Agrees paths n fresh = elim (base_names-counted paths n fresh) [
    | inl (names, all, bases, clean) ↦ inl (names, rw all refl, rw all clean, bases)
    | inr (missing, bad) ↦ inr (rw missing refl, rw missing bad)
  ]

  -- On a handle without an error, aug_match_mac gives the parts behind the last slash of the nodes that libaugeas finds, with their
  -- number and no error, or -1 and an error.
  pub aug_match_mac_lem :
      (mac : Text) (n : Netcf (LinuxDriver A V))
      → n.errcode ≡ noerror
      → ((names : List Text) × ((aug_match_mac L contents mac n).0 ≡ (pos (length names), names))
          × ((aug_match_mac L contents mac n).1.errcode ≡ noerror)
          × (map (λ name. some name) names ≡ map behind_last_slash (mac_nodes mac n).0.1))
        ⊎ (((aug_match_mac L contents mac n).0.0 ≡ negsuc 0)
            × (is_noerror (aug_match_mac L contents mac n).1.errcode ≡ false))
  unfolding aug_match_mac set_errcode
  aug_match_mac_lem mac n fresh = elim (Bool-cases (allocate n).0) [
    | inr fails ↦ inr (rw fails (refl, refl))
    | inl ok ↦ elim (Bool-cases (failed (mac_nodes mac n).1)) [
      | inl bad ↦ inr (rw (ok, bad) (refl, an_error _ bad))
      | inr good ↦
          rw (ok, good) (counted-Agrees (mac_nodes mac n).0.1 (mac_nodes mac n).1 (no_error _ good))
    ]
  ]
