-- ===== src/Freebsd/Flags.antt =====
-- Bringing an interface up and down: setifflags of src/drv_freebsd.c.
use fbsd_netcf.Prelude.{
  ℕ, ◌+◌, ◌*◌, ◌/◌, ◌%◌, ◌^◌, ◌<◌, ◌≡◌, refl, inl, inr, some, Text, pos, Option-cases, arith, ◌∙◌,
  sym, ap₂,
}
use fbsd_netcf.Bits.{bit_and-one, bit_or-one}
use fbsd_netcf.Netcf.{Netcf, NetcfIf}
use fbsd_netcf.Freebsd.{Change, set, clear, change_flags, setifflags, drv_if_up, drv_if_down}
use fbsd_netcf.System.{Kernel, ifr_name, iff_up}

-- What SIOCGIFFLAGS gives: the two fields of a struct ifreq for the flags, of 16 bits each.
pub record FlagLaws {W : Type 0} (k : Kernel W) : Type 0 where
  pub halves :
      (w : W) (name : Text) {lo hi : ℕ}
      → k.get_flags w name ≡ some (lo, hi)
      → (lo < 2 ^ 16) × (hi < 2 ^ 16)

set_up :
    (lo hi : ℕ)
    → lo < 2 ^ 16
    → (change_flags (set iff_up) (lo % 2 ^ 16 + hi * 2 ^ 16) % 2 ^ 16 ≡ lo / 2 * 2 + 1)
      × (change_flags (set iff_up) (lo % 2 ^ 16 + hi * 2 ^ 16) / 2 ^ 16 ≡ hi)
unfolding change_flags
set_up lo hi h = omega (arith, bit_or-one (lo % 2 ^ 16 + hi * 2 ^ 16))

clear_up :
    (lo hi : ℕ)
    → lo < 2 ^ 16
    → (change_flags (clear iff_up) (lo % 2 ^ 16 + hi * 2 ^ 16) % 2 ^ 16 ≡ lo / 2 * 2)
      × (change_flags (clear iff_up) (lo % 2 ^ 16 + hi * 2 ^ 16) / 2 ^ 16 ≡ hi)
unfolding change_flags
clear_up lo hi h = omega (arith, bit_and-one (lo % 2 ^ 16 + hi * 2 ^ 16))

module _ {W : Type 0} {k : Kernel W} (laws : FlagLaws k) where
  -- A successful setifflags has read flags, and has set the change of them.
  changed :
      (name : Text) (c : Change) (w : W)
      → (setifflags k name c w).0 ≡ pos 0
      → (lo hi : ℕ) × (k.get_flags w (ifr_name name) ≡ some (lo, hi))
        × (k.set_flags w
              (ifr_name name)
              (change_flags c (lo % 2 ^ 16 + hi * 2 ^ 16) % 2 ^ 16)
              (change_flags c (lo % 2 ^ 16 + hi * 2 ^ 16) / 2 ^ 16)
            ≡ some (setifflags k name c w).1)
  unfolding setifflags
  changed name c w = elim (Option-cases (k.get_flags w (ifr_name name))) [
    | inl unknown ↦ rw (unknown, setifflags) (λ r. absurd (cc))
    | inr ((lo, hi), known) ↦
        let flags : ℕ = change_flags c (lo % 2 ^ 16 + hi * 2 ^ 16) in
        elim (Option-cases (k.set_flags w (ifr_name name) (flags % 2 ^ 16) (flags / 2 ^ 16))) [
          | inl refused ↦ rw (known, setifflags) (rw refused (λ r. absurd (cc)))
          | inr (w', done) ↦ rw (known, setifflags) (rw done (λ r. (lo, hi, refl, done)))
        ]
  ]

  -- If each half of the flags that the kernel gives has 16 bits, and drv_if_up gives 0, the kernel gave flags of the interface, and
  -- took from SIOCSIFFLAGS, for the same interface, these flags with IFF_UP and all others unchanged.
  pub drv_if_up_lem :
      (nif : NetcfIf) (n : Netcf W)
      → (drv_if_up k nif n).0 ≡ pos 0
      → (lo hi : ℕ) × (k.get_flags n.world (ifr_name nif.name) ≡ some (lo, hi))
        × (k.set_flags n.world (ifr_name nif.name) (lo / 2 * 2 + 1) hi
            ≡ some (drv_if_up k nif n).1.world)
  unfolding drv_if_up
  drv_if_up_lem nif n r =
      let (lo, hi, before, after) = changed nif.name (set iff_up) n.world r in
      let low = (laws.halves n.world (ifr_name nif.name) before).0 in
      (
        lo,
        hi,
        before,
        sym (
              ap₂ (k.set_flags n.world (ifr_name nif.name)) (set_up lo hi low).0
                (set_up lo hi low).1)
            ∙ after,
      )

  -- If drv_if_down gives 0, the kernel gave flags of the interface, and took them back without IFF_UP and
  -- with all others unchanged.
  drv_if_down_lem :
      (nif : NetcfIf) (n : Netcf W)
      → (drv_if_down k nif n).0 ≡ pos 0
      → (lo hi : ℕ) × (k.get_flags n.world (ifr_name nif.name) ≡ some (lo, hi))
        × (k.set_flags n.world (ifr_name nif.name) (lo / 2 * 2) hi
            ≡ some (drv_if_down k nif n).1.world)
  unfolding drv_if_down
  drv_if_down_lem nif n r =
      let (lo, hi, before, after) = changed nif.name (clear iff_up) n.world r in
      let low = (laws.halves n.world (ifr_name nif.name) before).0 in
      (
        lo,
        hi,
        before,
        sym (
              ap₂ (k.set_flags n.world (ifr_name nif.name)) (clear_up lo hi low).0
                (clear_up lo hi low).1)
            ∙ after,
      )
