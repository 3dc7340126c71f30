-- ===== src/Linux/Instance.antt =====
-- get_augeas of src/dutil_linux.c: when it gives the tree, and what it leaves behind when it fails.
use fbsd_netcf.Prelude.{ℕ, ◌≡◌, refl, false, List, Option, none, some, arith}
use fbsd_netcf.Netcf.{Netcf, noerror, is_noerror, report_error, set_errcode, allocate}
use fbsd_netcf.Linux.{
  Augeas, AugeasPv, LinuxDriver, closed, or_close, ensure_augeas, copy_tables, load_files,
  get_augeas,
}

-- The tree is there, and nothing is to be copied or loaded.
pub record IsSettled {A V : Type 0} (aug : A) (n : Netcf (LinuxDriver A V)) : Type 0 where
  pub held : n.world.augeas ≡ some aug
  pub copied : n.world.copy_augeas_xfm ≡ false
  pub loaded : n.world.load_augeas ≡ false

pub or_close-eq-some :
    {A V : Type 0} (r : Option A × Netcf (LinuxDriver A V))
    (k : A → Netcf (LinuxDriver A V) → Option A × Netcf (LinuxDriver A V)) {aug : A}
    {n' : Netcf (LinuxDriver A V)}
    → or_close r k ≡ (some aug, n')
    → (aug₁ : A) × (n₁ : Netcf (LinuxDriver A V)) × (r ≡ (some aug₁, n₁))
      × (k aug₁ n₁ ≡ (some aug, n'))
unfolding or_close
or_close-eq-some (none, n) k e = absurd (cc)
or_close-eq-some (some aug₁, n₁) k e = (aug₁, n₁, refl, e)

module _ {A V : Type 0} (L : Augeas A V) (contents : ℕ → List AugeasPv) where
  ensure_augeas-eq-some :
      (n : Netcf (LinuxDriver A V)) {aug : A} {n' : Netcf (LinuxDriver A V)}
      → ensure_augeas L contents n ≡ (some aug, n')
      → n'.world.augeas ≡ some aug
  unfolding ensure_augeas
  ensure_augeas-eq-some n e = ground arith

  copy_tables-eq-some :
      (aug : A) (n : Netcf (LinuxDriver A V)) {aug' : A} {n' : Netcf (LinuxDriver A V)}
      → n.world.augeas ≡ some aug
      → copy_tables L contents aug n ≡ (some aug', n')
      → (n'.world.augeas ≡ some aug') × (n'.world.copy_augeas_xfm ≡ false)
  unfolding copy_tables
  copy_tables-eq-some aug n h e = ground arith

  load_files-eq-some :
      (aug : A) (n : Netcf (LinuxDriver A V)) {aug' : A} {n' : Netcf (LinuxDriver A V)}
      → n.world.augeas ≡ some aug
      → n.world.copy_augeas_xfm ≡ false
      → load_files L contents aug n ≡ (some aug', n')
      → IsSettled aug' n'
  unfolding load_files
  load_files-eq-some aug n h c e = ground arith

  -- When get_augeas gives the tree, the handle holds it, and nothing is left to copy or to load.
  pub get_augeas-IsSettled :
      (n : Netcf (LinuxDriver A V)) {aug : A} {n' : Netcf (LinuxDriver A V)}
      → get_augeas L contents n ≡ (some aug, n')
      → IsSettled aug n'
  unfolding get_augeas
  get_augeas-IsSettled n {aug} {n'} e =
      let (aug₁, n₁, ensured, e₁) = or_close-eq-some (ensure_augeas L contents n) _ e in
      let (aug₂, n₂, copied, e₂) = or_close-eq-some (copy_tables L contents aug₁ n₁) _ e₁ in
      let (aug₃, n₃, loaded, e₃) = or_close-eq-some (load_files L contents aug₂ n₂) _ e₂ in
      let held = copy_tables-eq-some aug₁ n₁ (ensure_augeas-eq-some n ensured) copied in
      let settled : IsSettled aug₃ n₃ = load_files-eq-some aug₂ n₂ held.0 held.1 loaded in
      let same : aug₃ ≡ aug = cc in
      let same_handle : n₃ ≡ n' = cc in rw (← same, ← same_handle) settled

  -- On a handle that holds the tree, with nothing to copy or to load, get_augeas gives it and does nothing.
  pub get_augeas_settled :
      (aug : A) (n : Netcf (LinuxDriver A V))
      → IsSettled aug n
      → get_augeas L contents n ≡ (some aug, n)
  unfolding get_augeas ensure_augeas copy_tables load_files or_close
  get_augeas_settled aug n s = rw (s.held, s.copied, s.loaded) refl

  -- A second call gives the same tree and leaves the handle as it is.
  get_augeas_twice :
      (n : Netcf (LinuxDriver A V)) {aug : A} {n' : Netcf (LinuxDriver A V)}
      → get_augeas L contents n ≡ (some aug, n')
      → get_augeas L contents n' ≡ (some aug, n')
  get_augeas_twice n {aug} {n'} e = get_augeas_settled aug n' (get_augeas-IsSettled n e)

-- How a part of get_augeas ends on a handle without an error: with the tree and no error, or with one.
abbrev Reports : {A V : Type 0} → Option A × Netcf (LinuxDriver A V) → Type 0
Reports (some aug, n) = n.errcode ≡ noerror
Reports (none, n) = is_noerror n.errcode ≡ false

-- How get_augeas does: where it fails, it has also closed the tree.
abbrev pub Closes : {A V : Type 0} → Option A × Netcf (LinuxDriver A V) → Type 0
Closes (some aug, n) = n.errcode ≡ noerror
Closes (none, n) = (is_noerror n.errcode ≡ false) × (n.world.augeas ≡ none)

or_close-Closes :
    {A V : Type 0} (r : Option A × Netcf (LinuxDriver A V))
    (k : A → Netcf (LinuxDriver A V) → Option A × Netcf (LinuxDriver A V))
    → Reports r
    → ((aug : A) (n : Netcf (LinuxDriver A V)) → n.errcode ≡ noerror → Closes (k aug n))
    → Closes (or_close r k)
unfolding or_close
or_close-Closes (none, n) k bad rest = (bad, refl)
or_close-Closes (some aug, n) k fresh rest = rest aug n fresh

module _ {A V : Type 0} (L : Augeas A V) (contents : ℕ → List AugeasPv) where
  ensure_augeas-Reports :
      (n : Netcf (LinuxDriver A V)) → n.errcode ≡ noerror → Reports (ensure_augeas L contents n)
  unfolding ensure_augeas report_error set_errcode allocate
  ensure_augeas-Reports n fresh = ground arith

  copy_tables-Reports :
      (aug : A) (n : Netcf (LinuxDriver A V))
      → n.errcode ≡ noerror
      → Reports (copy_tables L contents aug n)
  unfolding copy_tables report_error
  copy_tables-Reports aug n fresh = ground arith

  load_files-Reports :
      (aug : A) (n : Netcf (LinuxDriver A V))
      → n.errcode ≡ noerror
      → Reports (load_files L contents aug n)
  unfolding load_files report_error
  load_files-Reports aug n fresh = ground arith

  -- On a handle without an error, get_augeas gives the tree and leaves no error, or it leaves an error and has closed
  -- the tree, so that the next call starts from a new one.
  pub get_augeas-Closes :
      (n : Netcf (LinuxDriver A V)) → n.errcode ≡ noerror → Closes (get_augeas L contents n)
  unfolding get_augeas
  get_augeas-Closes n fresh =
      or_close-Closes (ensure_augeas L contents n) _ (ensure_augeas-Reports n fresh)
        (λ aug₁ n₁ fresh₁.
          or_close-Closes (copy_tables L contents aug₁ n₁) _ (copy_tables-Reports aug₁ n₁ fresh₁)
            (λ aug₂ n₂ fresh₂.
              or_close-Closes (load_files L contents aug₂ n₂) _ (load_files-Reports aug₂ n₂ fresh₂)
                (λ aug₃ n₃ fresh₃. fresh₃)))

  -- How a call of get_augeas does that starts without an error: it gives the tree, and a second call gives it again and changes
  -- nothing, or it leaves an error and has closed the tree.
  abbrev pub Loads : Option A × Netcf (LinuxDriver A V) → Type 0
  Loads (some aug, n') = (n'.errcode ≡ noerror) × (get_augeas L contents n' ≡ (some aug, n'))
  Loads (none, n') = (is_noerror n'.errcode ≡ false) × (n'.world.augeas ≡ none)

  loads :
      (n : Netcf (LinuxDriver A V)) (r : Option A × Netcf (LinuxDriver A V))
      → get_augeas L contents n ≡ r
      → Closes r
      → Loads r
  loads n (some aug, n') e fresh = (fresh, get_augeas_twice L contents n e)
  loads n (none, n') e closed = closed

  -- On a handle without an error, get_augeas gives the tree and leaves no error, and a second call gives the same tree and leaves the
  -- handle as it is; or it leaves an error and has closed the tree.
  pub get_augeas_lem :
      (n : Netcf (LinuxDriver A V)) → n.errcode ≡ noerror → Loads (get_augeas L contents n)
  get_augeas_lem n fresh = loads n (get_augeas L contents n) refl (get_augeas-Closes n fresh)
