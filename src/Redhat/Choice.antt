-- ===== src/Redhat/Choice.antt =====
-- Which of several files find_ifcfg_path_by_device and find_ifcfg_path_by_hwaddr of src/drv_redhat.c choose.
use fbsd_netcf.Prelude.{
  ℕ, ◌-◌, length, length-append, take-append, ◌≡◌, refl, ap, ◌∙◌, sym, ◌⊎◌, inl, inr, Bool, true,
  false, List, [], ◌∷◌, ◌++◌, Option, none, some, Text, codes, if◌then◌else◌, is_neg, streq_self,
  arith, Bool-cases, Option-cases, All,
}
use fbsd_netcf.Netcf.{Netcf, eother, set_errcode, failed}
use fbsd_netcf.Linux.{Augeas, AugeasPv, LinuxDriver, get_augeas}
use fbsd_netcf.Linux.Format.{aug_fmt_match}
use fbsd_netcf.Redhat.Sort.{
  qsort, has, last_of, text_leb, IsSorted, has-qsort, qsort-IsSorted, last_of-IsSorted, All-qsort,
  All-has, All-mono, text_leb_refl,
}
use fbsd_netcf.Redhat.Find.{
  Search, found, refused, null_value, ifcfg_path, strcaseeq, match_hwaddr, hwaddr_result,
  cut_hwaddr, with_augeas, find_ifcfg_path_by_device, find_ifcfg_path_by_hwaddr, err_cond,
}

module _ {A V : Type 0} (L : Augeas A V) (contents : ℕ → List AugeasPv) where
  -- The nodes that the two functions look at.
  abbrev pub device_nodes : Text → Netcf (LinuxDriver A V) → List Text
  device_nodes name n =
      (aug_fmt_match L contents (ifcfg_path ++ (codes "[DEVICE = '" ++ (name ++ codes "']")))
        (get_augeas L contents n).1).0.1

  abbrev pub hwaddr_nodes : Netcf (LinuxDriver A V) → List Text
  hwaddr_nodes n =
      (aug_fmt_match L contents (ifcfg_path ++ codes "/HWADDR") (get_augeas L contents n).1).0.1

  -- The path that find_ifcfg_path_by_device gives is one of the files with DEVICE=NAME, and the greatest of them.
  find_ifcfg_path_by_device_lem :
      (name : Text) (n : Netcf (LinuxDriver A V)) {path : Text} {n' : Netcf (LinuxDriver A V)}
      → find_ifcfg_path_by_device L contents name n ≡ (some path, n')
      → (has path (device_nodes name n) ≡ true)
        × All (λ u. text_leb u path ≡ true) (device_nodes name n)
  unfolding find_ifcfg_path_by_device
  find_ifcfg_path_by_device_lem name n {path} {n'} e =
      let last : last_of (qsort (device_nodes name n)) ≡ some path = ground arith in
      let (inside, greatest) =
        last_of-IsSorted (qsort (device_nodes name n)) path (qsort-IsSorted (device_nodes name n))
          last in
      (
        sym (has-qsort path (device_nodes name n)) ∙ inside,
        All-qsort _ (device_nodes name n) greatest,
      )

  -- Whether the value of a node is the MAC, in whatever case.
  abbrev pub has_address : A → Text → Text → Bool
  has_address aug mac u = elim (L.aug_get aug u).1 [ none ↦ false | some addr ↦ strcaseeq addr mac ]

  -- What a search in these nodes comes to, if it started with `match`: the greatest node with the MAC, or `match`
  -- if there is none.
  abbrev pub Chosen : A → Text → List Text → Option Text → Option Text → Type 0
  Chosen aug mac nodes match result =
      ((result ≡ match) × All (λ u. has_address aug mac u ≡ false) nodes)
      ⊎ ((p : Text) × (result ≡ some p)
          × (has p nodes ≡ true)
          × (has_address aug mac p ≡ true)
          × All (λ u. has_address aug mac u ≡ true → text_leb u p ≡ true) nodes)

  -- One more node, before the others.
  Chosen-here :
      (aug : A) (mac u : Text) (nodes : List Text) (match : Option Text) {result : Option Text}
      → IsSorted (u ∷ nodes)
      → has_address aug mac u ≡ true
      → Chosen aug mac nodes (some u) result
      → Chosen aug mac (u ∷ nodes) match result
  unfolding has
  Chosen-here aug mac u nodes match sorted same (inl (e, others)) = inr (
    u,
    e,
    rw (streq_self u) refl,
    same,
    (
      λ h. text_leb_refl u,
      All-mono nodes (λ (x : Text) (differ : has_address aug mac x ≡ false) h. absurd (cc)) others,
    ),
  )
  Chosen-here aug mac u nodes match sorted same (inr (p, e, inside, with_mac, greatest)) = inr (
    p,
    e,
    ground (arith, inside),
    with_mac,
    (λ h. All-has (λ x. text_leb u x ≡ true) p nodes sorted.0 inside, greatest),
  )

  Chosen-later :
      (aug : A) (mac u : Text) (nodes : List Text) (match : Option Text) {result : Option Text}
      → has_address aug mac u ≡ false
      → Chosen aug mac nodes match result
      → Chosen aug mac (u ∷ nodes) match result
  unfolding has
  Chosen-later aug mac u nodes match differ (inl (e, others)) = inl (e, (differ, others))
  Chosen-later aug mac u nodes match differ (inr (p, e, inside, with_mac, greatest)) = inr (
    p,
    e,
    ground (arith, inside),
    with_mac,
    (λ (h : has_address aug mac u ≡ true). absurd (cc), greatest),
  )

  match_hwaddr-Chosen :
      (aug : A) (mac : Text) (nodes : List Text) (match : Option Text) {result : Option Text}
      → IsSorted nodes
      → match_hwaddr L contents aug mac nodes match ≡ found result
      → Chosen aug mac nodes match result
  unfolding match_hwaddr has
  match_hwaddr-Chosen aug mac [] match {result} sorted e =
      let same : match ≡ result = cc in inl (sym same, tt)
  match_hwaddr-Chosen aug mac (u ∷ nodes) match {result} sorted e =
      elim (Option-cases (L.aug_get aug u).1) [
        | inl missing ↦ absurd (ground arith)
        | inr (addr, value) ↦ elim (Bool-cases (strcaseeq addr mac)) [
          | inl same ↦
              let e' : match_hwaddr L contents aug mac nodes (some u) ≡ found result =
                ground arith in
              Chosen-here aug mac u nodes match sorted (rw (value, has_address) same)
                (match_hwaddr-Chosen aug mac nodes (some u) sorted.1 e')
          | inr differ ↦
              let e' : match_hwaddr L contents aug mac nodes match ≡ found result = ground arith in
              Chosen-later aug mac u nodes match (rw (value, has_address) differ)
                (match_hwaddr-Chosen aug mac nodes match sorted.1 e')
        ]
      ]

  -- What is chosen of the sorted nodes is chosen of the nodes.
  Chosen-qsort :
      (aug : A) (mac : Text) (nodes : List Text) (result : Option Text)
      → Chosen aug mac (qsort nodes) none result
      → Chosen aug mac nodes none result
  Chosen-qsort aug mac nodes result (inl (e, others)) = inl (e, All-qsort _ nodes others)
  Chosen-qsort aug mac nodes result (inr (p, e, inside, with_mac, greatest)) =
      inr (p, e, sym (has-qsort p nodes) ∙ inside, with_mac, All-qsort _ nodes greatest)

  -- What is found for a MAC in these nodes: the file of the greatest node with it, or no file if there is none.
  abbrev pub ChosenFile : A → Text → List Text → Option Text → Type 0
  ChosenFile aug mac nodes path =
      ((path ≡ none) × All (λ u. has_address aug mac u ≡ false) nodes)
      ⊎ ((file : Text) × (path ≡ some file)
          × (has (file ++ codes "/HWADDR") nodes ≡ true)
          × (has_address aug mac (file ++ codes "/HWADDR") ≡ true)
          × All (λ u. has_address aug mac u ≡ true → text_leb u (file ++ codes "/HWADDR") ≡ true)
              nodes)

  abbrev file_of : Option Text → Option Text
  file_of none = none
  file_of (some p) = some (cut_hwaddr p)

  cut_hwaddr-append : (file : Text) → cut_hwaddr (file ++ codes "/HWADDR") ≡ file
  unfolding cut_hwaddr
  cut_hwaddr-append file =
      let room : length (file ++ codes "/HWADDR") - 7 ≡ length file =
        omega (arith, length-append file (codes "/HWADDR")) in
      rw room (take-append file (codes "/HWADDR"))

  -- Where every node is the HWADDR of a file, the file of the chosen node is found.
  Chosen-ChosenFile :
      (aug : A) (mac : Text) (nodes : List Text) (result : Option Text)
      → All (λ u. (file : Text) × (u ≡ file ++ codes "/HWADDR")) nodes
      → Chosen aug mac nodes none result
      → ChosenFile aug mac nodes (file_of result)
  Chosen-ChosenFile aug mac nodes result named (inl (e, others)) = inl (rw e refl, others)
  Chosen-ChosenFile aug mac nodes result named (inr (p, e, inside, with_mac, greatest)) =
      let (file, same) =
        All-has (λ u. (file : Text) × (u ≡ file ++ codes "/HWADDR")) p nodes named inside in
      inr (
        file,
        rw (e, same) (ap some (cut_hwaddr-append file)),
        rw (← same) inside,
        rw (← same) with_mac,
        rw (← same) greatest,
      )

  -- A function that comes to an end without an error has gone past an ERR_BAIL.
  past_bail :
      {R : Type 0} (m : Netcf (LinuxDriver A V)) (x : R) (t : Option (R × Netcf (LinuxDriver A V)))
      {r : R} {n' : Netcf (LinuxDriver A V)}
      → (if failed m then some (x, m) else t) ≡ some (r, n')
      → failed n' ≡ false
      → t ≡ some (r, n')
  past_bail m x t {r} {n'} e clean = elim (Bool-cases (failed m)) [
    | inr fine ↦ (rw fine at e)
    | inl bad ↦
        let e' : some (x, m) ≡ some (r, n') = rw bad at e in
        let same : m ≡ n' = cc in let clash : failed n' ≡ true = rw (← same) bad in absurd (cc)
  ]

  hwaddr_result-eq-some :
      (s : Search (Option Text)) (m : Netcf (LinuxDriver A V)) {path : Option Text}
      {n' : Netcf (LinuxDriver A V)}
      → hwaddr_result s m ≡ some (path, n')
      → failed n' ≡ false
      → (match : Option Text) × (s ≡ found match) × (path ≡ file_of match) × (m ≡ n')
  unfolding hwaddr_result set_errcode
  hwaddr_result-eq-some (found none) m e clean = (none, refl, cc, cc)
  hwaddr_result-eq-some (found (some p)) m e clean = (some p, refl, cc, cc)
  hwaddr_result-eq-some refused m {path} {n'} e clean =
      let same : set_errcode eother m ≡ n' = cc in
      let bad : failed n' ≡ true = rw (← same) refl in absurd (cc)
  hwaddr_result-eq-some null_value m e clean = absurd (cc)

  with_augeas-eq-some :
      {R : Type 0} (n : Netcf (LinuxDriver A V)) (rest : A → Option (R × Netcf (LinuxDriver A V)))
      {r : R × Netcf (LinuxDriver A V)}
      → with_augeas n rest ≡ some r
      → (aug : A) × (n.world.augeas ≡ some aug) × (rest aug ≡ some r)
  unfolding with_augeas
  with_augeas-eq-some n rest e = elim (Option-cases n.world.augeas) [
    | inl missing ↦ absurd (ground arith)
    | inr (aug, held) ↦ (aug, held, ground arith)
  ]

  -- If each of the nodes that libaugeas finds for HWADDR has the path of a file and /HWADDR behind it, and find_ifcfg_path_by_hwaddr
  -- comes to an end without an error, it gives the path of that file for the greatest of the nodes whose value in the tree that the
  -- handle then holds is the MAC in whatever case, or no path if there is no such node.
  pub find_ifcfg_path_by_hwaddr_lem :
      (mac : Text) (n : Netcf (LinuxDriver A V)) {path : Option Text} {n' : Netcf (LinuxDriver A V)}
      → All (λ u. (file : Text) × (u ≡ file ++ codes "/HWADDR")) (hwaddr_nodes n)
      → find_ifcfg_path_by_hwaddr L contents mac n ≡ some (path, n')
      → failed n' ≡ false
      → (aug : A) × (n'.world.augeas ≡ some aug) × ChosenFile aug mac (hwaddr_nodes n) path
  unfolding find_ifcfg_path_by_hwaddr
  find_ifcfg_path_by_hwaddr_lem mac n {path} {n'} named e clean =
      let n₁ = (get_augeas L contents n).1 in
      let r = aug_fmt_match L contents (ifcfg_path ++ codes "/HWADDR") n₁ in
      let n₃ = err_cond (is_neg r.0.0) eother r.1 in
      let e' : with_augeas n₃ (λ aug.
        hwaddr_result (match_hwaddr L contents aug mac (qsort (hwaddr_nodes n)) none) n₃)
          ≡ some (path, n') =
        past_bail n₃ none _ (past_bail n₁ none _ e clean) clean in
      let (aug, held, e₁) = with_augeas-eq-some n₃ _ e' in
      let (match, search, file, same) = hwaddr_result-eq-some _ n₃ e₁ clean in
      (
        aug,
        rw (← same) held,
        rw file (
            Chosen-ChosenFile aug mac (hwaddr_nodes n) match named (
              Chosen-qsort aug mac (hwaddr_nodes n) match
                (match_hwaddr-Chosen aug mac _ none (qsort-IsSorted (hwaddr_nodes n)) search))),
      )
