-- ===== src/XsltExt/Roundtrip.antt =====
-- What ipcalc:netmask and ipcalc:prefix of src/xslt_ext.c do to each other's results.
use fbsd_netcf.Prelude.{
  ℕ, zero, suc, ◌^◌, ◌≤◌, ◌<◌, ◌≡◌, refl, ap, Bool, true, false, ◌&&◌, some, Option, arith, Text,
  ◌==◌, ==_iff, Bool-cases, ltb, ltb→lt, inl, inr,
}
use fbsd_netcf.XsltExt.{
  Doubles, Inet, returned, netmask_of, prefix_of, ipcalc_netmask, ipcalc_prefix,
}

-- The prefix of the mask of every prefix below the bound is that prefix again.
masks_agree : (oversized bound : ℕ) → Bool
masks_agree oversized zero = true
masks_agree oversized (suc prefix) =
    masks_agree oversized prefix && prefix_of (netmask_of oversized prefix) == prefix

masks_agree_at :
    (oversized bound prefix : ℕ)
    → prefix < bound
    → masks_agree oversized bound ≡ true
    → prefix_of (netmask_of oversized prefix) ≡ prefix
unfolding masks_agree
masks_agree_at oversized zero prefix below agree = absurd (omega arith)
masks_agree_at oversized (suc bound) prefix below agree = elim (Bool-cases (ltb prefix bound)) [
  | inl lower ↦ masks_agree_at oversized bound prefix (ltb→lt prefix bound lower) (ground arith)
  | inr last ↦
      let same : prefix ≡ bound = ground arith in
      let here : (prefix_of (netmask_of oversized bound) == bound) ≡ true = ground arith in
      rw same ((==_iff _ bound).0 here)
]

all_masks_agree : (oversized : ℕ) → masks_agree oversized 32 ≡ true
unfolding masks_agree prefix_of netmask_of
all_masks_agree oversized = refl

prefix_of-netmask_of : (oversized n : ℕ) → n < 32 → prefix_of (netmask_of oversized n) ≡ n
prefix_of-netmask_of oversized n below =
    masks_agree_at oversized 32 n below (all_masks_agree oversized)

netmask_of-lt : (oversized n : ℕ) → netmask_of oversized n < 2 ^ 32
unfolding netmask_of
netmask_of-lt o n = omega arith

module _ (D : Doubles) (I : Inet) (asprintf_d : ℕ → Option Text) (oversized stale : ℕ) where
  -- For a prefix from 1 to 31, if inet_ntop formats its mask as `s` and asprintf prints the prefix
  -- as `t`, then ipcalc:netmask returns `s` and ipcalc:prefix takes `s` back to `t`.
  pub ipcalc_prefix-ipcalc_netmask :
      (n : ℕ) {s t : Text}
      → 1 ≤ n
      → n ≤ 31
      → I.ntop (netmask_of oversized n) ≡ some s
      → asprintf_d n ≡ some t
      → (ipcalc_netmask D I oversized 1 (D.of_ulong n) false ≡ returned s)
        × (ipcalc_prefix I asprintf_d stale 1 s ≡ returned t)
  unfolding ipcalc_netmask ipcalc_prefix
  ipcalc_prefix-ipcalc_netmask n low high formatted printed =
      let same : D.truncate (D.of_ulong n) ≡ n = D.truncate-of_ulong n (omega arith) in
      let parsed = I.pton-ntop (netmask_of oversized n) (netmask_of-lt oversized n) formatted in
      (
        ground (
          arith,
          same,
          D.eq-of_ulong n,
          formatted,
          ap (λ (k : ℕ). I.ntop (netmask_of oversized k)) same,
        ),
        rw (parsed.1, parsed.0, prefix_of-netmask_of oversized n (omega arith), printed),
      )

  -- ipcalc:netmask with one argument returns a mask only for a prefix from 1 to 32; for any other
  -- it reports an error.
  ipcalc_netmask_range :
      (n : ℕ) {s : Text}
      → n < 2 ^ 53
      → ipcalc_netmask D I oversized 1 (D.of_ulong n) false ≡ returned s
      → (1 ≤ n) × (n ≤ 32)
  unfolding ipcalc_netmask
  ipcalc_netmask_range n small h = ground (arith, D.truncate-of_ulong n, D.eq-of_ulong n)
