-- ===== src/Linux/Paths.antt =====
-- The functions of src/dutil_linux.c that format a path: how their result and the error of the handle agree.
use fbsd_netcf.Prelude.{
  ℕ, ◌≡◌, refl, ◌⊎◌, inl, inr, true, false, not, List, [], Option, none, some, Text, ℤ, pos, negsuc,
  is_neg, arith, Bool-cases, if◌then◌else◌,
}
use fbsd_netcf.Netcf.{Netcf, ErrCode, noerror, is_noerror, enomem, set_errcode, allocate, failed}
use fbsd_netcf.Linux.{Augeas, AugeasPv, LinuxDriver, get_augeas, holding}
use fbsd_netcf.Linux.Format.{
  formatted, check_result, aug_fmt_set, aug_fmt_rm, aug_fmt_match, set_path, rm_path, match_path,
}
use fbsd_netcf.Linux.Instance.{Closes, get_augeas-Closes, get_augeas-IsSettled}

-- What ERR_BAIL tells of the error.
pub no_error :
    (e : ErrCode) → (elim (is_noerror e) [ true ↦ false | false ↦ true ]) ≡ false → e ≡ noerror
no_error e h = ground arith

pub an_error :
    (e : ErrCode)
    → (elim (is_noerror e) [ true ↦ false | false ↦ true ]) ≡ true
    → is_noerror e ≡ false
an_error e h = ground arith

-- No error and a result that is not negative, or an error and -1.
abbrev pub Agrees : {A V : Type 0} → ℤ × Netcf (LinuxDriver A V) → Type 0
Agrees (r, n) =
    ((is_neg r ≡ false) × (n.errcode ≡ noerror)) ⊎ ((r ≡ negsuc 0) × (is_noerror n.errcode ≡ false))

module _ {A V : Type 0} (L : Augeas A V) (contents : ℕ → List AugeasPv) where
  -- What holds of each error, and of the rest on a handle without one, holds of a function that formats a path.
  pub formatted-elim :
      {R : Type 0} (P : R × Netcf (LinuxDriver A V) → Type 0) (error : R)
      (n : Netcf (LinuxDriver A V))
      (rest : A → Netcf (LinuxDriver A V) → R × Netcf (LinuxDriver A V))
      → n.errcode ≡ noerror
      → ((m : Netcf (LinuxDriver A V)) → is_noerror m.errcode ≡ false → P (error, m))
      → ((aug : A) (m : Netcf (LinuxDriver A V))
          → m.errcode ≡ noerror
          → m.world.augeas ≡ some aug
          → P (rest aug m))
      → P (formatted L contents error n rest)
  unfolding formatted allocate set_errcode
  formatted-elim P error n rest fresh bad good =
      go (get_augeas L contents n) refl (get_augeas-Closes L contents n fresh)
    where
      go :
          (r : Option A × Netcf (LinuxDriver A V))
          → get_augeas L contents n ≡ r
          → Closes r
          → P (
              let (aug, n₁) = r in
              let (ok, n₂) = allocate n₁ in
              if failed n₁
              then (error, n₁)
              else if not ok
              then (error, set_errcode enomem n₂)
              else (let q : _ = elim aug [ none ↦ (error, n₂) | some a ↦ rest a n₂ ] in q))
      go (none, n₁) same (e, closed) = rw (e, failed) (bad n₁ e)
      go (some aug, n₁) same e =
          let clean : failed n₁ ≡ false = rw e refl in
          elim (Bool-cases (allocate n₁).0) [
            | inl ok ↦
                rw (clean, ok)
                  (good aug (allocate n₁).1 e (get_augeas-IsSettled L contents n same).held)
            | inr fails ↦ rw (clean, fails) (bad (set_errcode enomem (allocate n₁).1) refl)
          ]

  check_result-Agrees :
      (r : ℤ) (n : Netcf (LinuxDriver A V))
      → n.errcode ≡ noerror
      → Agrees (check_result L contents r n)
  unfolding check_result set_errcode
  check_result-Agrees (pos k) n fresh = ground arith
  check_result-Agrees (negsuc k) n fresh = ground arith

  -- On a handle without an error, aug_fmt_set gives a negative result exactly where it leaves an error.
  pub aug_fmt_set-Agrees :
      (value : Option Text) (path : Text) (n : Netcf (LinuxDriver A V))
      → n.errcode ≡ noerror
      → Agrees (aug_fmt_set L contents value path n)
  unfolding aug_fmt_set set_path
  aug_fmt_set-Agrees value path n fresh =
      formatted-elim Agrees (negsuc 0) n (set_path L contents value path) fresh
        (λ m bad. inr (refl, bad))
        (λ aug m good held.
          check_result-Agrees (L.aug_set aug path value).0 (holding (L.aug_set aug path value).1 m)
            good)

  -- The same of aug_fmt_rm.
  pub aug_fmt_rm-Agrees :
      (path : Text) (n : Netcf (LinuxDriver A V))
      → n.errcode ≡ noerror
      → Agrees (aug_fmt_rm L contents path n)
  unfolding aug_fmt_rm rm_path
  aug_fmt_rm-Agrees path n fresh =
      formatted-elim Agrees (negsuc 0) n (rm_path L contents path) fresh (λ m bad. inr (refl, bad))
        (λ aug m good held.
          check_result-Agrees (L.aug_rm aug path).0 (holding (L.aug_rm aug path).1 m) good)

  -- The same of aug_fmt_match.
  pub aug_fmt_match-Agrees :
      (path : Text) (n : Netcf (LinuxDriver A V))
      → n.errcode ≡ noerror
      → Agrees ((aug_fmt_match L contents path n).0.0, (aug_fmt_match L contents path n).1)
  unfolding aug_fmt_match match_path
  aug_fmt_match-Agrees path n fresh =
      formatted-elim (λ r. Agrees (r.0.0, r.1)) (negsuc 0, []) n (match_path L contents path) fresh
        (λ m bad. inr (refl, bad))
        (λ aug m good held. check_result-Agrees (L.aug_match aug path).0 m good)
