-- ===== src/Suse/Put.antt =====
-- When aug_put_xml of src/drv_suse.c writes the default route and the rule of udev.
use fbsd_netcf.Prelude.{
  ◌≡◌, refl, ◌∙◌, true, false, not, ◌&&◌, ◌||◌, Bool, List, [], ◌∷◌, Option, none, some, Text,
  codes, arith, streq, if◌then◌else◌, Bool-cases, Option-cases, subst, is_neg, inl, inr, ℕ,
}
use fbsd_netcf.Netcf.{Netcf, report_error, einternal, failed}
use fbsd_netcf.Linux.{Augeas, AugeasPv, LinuxDriver, get_augeas, holding}
use fbsd_netcf.Redhat.Find.{follow, with_augeas}
use fbsd_netcf.Redhat.Forest.{Node, Tree, put_node}
use fbsd_netcf.Suse.Forest.{
  PutState, no_nodes, note, note_slave, put_noted, noted_nodes, put_tree, put_trees, mac_of_device,
  put_device, aug_put_xml,
}

-- A node that says that its interface is a slave, and a tree with one.
unfoldable pub marks_slave : Node → Bool
marks_slave node = elim node.label [
  | none ↦ false
  | some label ↦ streq label (codes "BRIDGE") || streq label (codes "BONDING_MASTER")
]

unfoldable pub some_slave : List Node → Bool
unfolding marks_slave
some_slave [] = false
some_slave (node ∷ nodes) = marks_slave node || some_slave nodes

unfoldable pub has_slave : List Tree → Bool
unfolding some_slave
has_slave [] = false
has_slave (tree ∷ trees) = some_slave tree.nodes || has_slave trees

note_toplevel :
    (label : Text) (value : Option Text) (s s' : PutState)
    → note label value s ≡ some (some s')
    → s'.toplevel ≡ s.toplevel
unfolding note
note_toplevel label none s s' e = ground (arith, e)
note_toplevel label (some v) s s' e = ground (arith, e)

module _ {A V : Type 0} (L : Augeas A V) (contents : ℕ → List AugeasPv) where
  -- If the part of aug_put_xml comes to an end without an error, the interface is marked as a slave, unless something that is still to come
  -- marks it.
  abbrev Toward : Bool → Option (PutState × Netcf (LinuxDriver A V)) → Type 0
  Toward later none = Unit
  Toward later (some (s, n)) = failed n ≡ false → (s.toplevel && not later) ≡ false

  -- It is marked, whether or not there is an error.
  abbrev StaysMarked : Option (PutState × Netcf (LinuxDriver A V)) → Type 0
  StaysMarked none = Unit
  StaysMarked (some (s, n)) = s.toplevel ≡ false

  Toward-true : (o : Option (PutState × Netcf (LinuxDriver A V))) → Toward true o
  Toward-true none = tt
  Toward-true (some (s, n)) = λ _. ground arith

  StaysMarked-Toward :
      (later : Bool) (o : Option (PutState × Netcf (LinuxDriver A V)))
      → StaysMarked o
      → Toward later o
  StaysMarked-Toward later none h = tt
  StaysMarked-Toward later (some (s, n)) h = λ _. rw h refl

  follow-StaysMarked :
      (o : Option (Unit {0} × Netcf (LinuxDriver A V))) (s : PutState)
      → s.toplevel ≡ false
      → StaysMarked (follow o (λ _ n'. some (s, n')))
  unfolding follow
  follow-StaysMarked none s h = tt
  follow-StaysMarked (some (_, n)) s h = h

  label_noted :
      (path : Text) (label : Text) (value : Option Text) (s : PutState)
      (n : Netcf (LinuxDriver A V))
      → (note_slave label s).toplevel ≡ false
      → StaysMarked (put_noted L contents path (record { label = some label; value = value }) s n)
  unfolding put_noted
  label_noted path label value s n h = go (note label value (note_slave label s)) refl
    where
      go :
          (noted : Option (Option PutState))
          → note label value (note_slave label s) ≡ noted
          → StaysMarked (elim noted as (λ _. Option (PutState × Netcf (LinuxDriver A V))) [
            | none ↦ none
            | some (some s') ↦ some (s', n)
            | some none ↦
                follow
                  (put_node L contents path (record { label = some label; value = value }) n)
                  (λ _ n'. some (note_slave label s, n'))
          ])
      go none e = tt
      go (some (some s')) e = note_toplevel label value (note_slave label s) s' e ∙ h
      go (some none) e =
          follow-StaysMarked
            (put_node L contents path (record { label = some label; value = value }) n)
            (note_slave label s) h

  put_noted-StaysMarked :
      (path : Text) (node : Node) (s : PutState) (n : Netcf (LinuxDriver A V))
      → (s.toplevel && not (marks_slave node)) ≡ false
      → StaysMarked (put_noted L contents path node s n)
  unfolding put_noted marks_slave note_slave
  put_noted-StaysMarked path node s n h = by_label node.label node.value h
    where
      by_label :
          (label : Option Text) (value : Option Text)
          → (s.toplevel && not (marks_slave (record { label = label; value = value }))) ≡ false
          → StaysMarked (put_noted L contents path (record { label = label; value = value }) s n)
      by_label none value e = tt
      by_label (some label) value e = label_noted path label value s n (ground (arith, e))

  -- A round of a loop that goes on where there is no error.
  round-Toward :
      (later after : Bool) (o : Option (PutState × Netcf (LinuxDriver A V)))
      (rest : PutState → Netcf (LinuxDriver A V) → Option (PutState × Netcf (LinuxDriver A V)))
      → Toward later o
      → ((s : PutState) (n : Netcf (LinuxDriver A V))
          → (s.toplevel && not later) ≡ false
          → Toward after (rest s n))
      → Toward after (elim o as (λ _. Option (PutState × Netcf (LinuxDriver A V))) [
        | none ↦ none
        | some (s₁, n₁) ↦ let behind = rest s₁ n₁ in if failed n₁ then some (s₁, n₁) else behind
      ])
  round-Toward later after none rest h more = tt
  round-Toward later after (some (s₁, n₁)) rest h more = elim (Bool-cases (failed n₁)) [
    | inl bad ↦ rw bad (λ good. absurd (ground (arith, bad, good)))
    | inr good ↦ rw good (more s₁ n₁ (h good))
  ]

  put_noted-Toward :
      (path : Text) (node : Node) (later : Bool) (s : PutState) (n : Netcf (LinuxDriver A V))
      → (s.toplevel && not (marks_slave node || later)) ≡ false
      → Toward later (put_noted L contents path node s n)
  put_noted-Toward path node true s n h = Toward-true (put_noted L contents path node s n)
  put_noted-Toward path node false s n h =
      StaysMarked-Toward false (put_noted L contents path node s n)
        (put_noted-StaysMarked path node s n (ground (arith, h)))

  noted_nodes-Toward :
      (path : Text) (nodes : List Node) (later : Bool) (s : PutState) (n : Netcf (LinuxDriver A V))
      → (s.toplevel && not (some_slave nodes || later)) ≡ false
      → Toward later (noted_nodes L contents path nodes s n)
  unfolding noted_nodes some_slave
  noted_nodes-Toward path [] later s n h = λ _. h
  noted_nodes-Toward path (node ∷ nodes) later s n h =
      round-Toward (some_slave nodes || later) later (put_noted L contents path node s n)
        (noted_nodes L contents path nodes)
        (put_noted-Toward path node (some_slave nodes || later) s n (ground (arith, h)))
        (λ s₁ n₁ e. noted_nodes-Toward path nodes later s₁ n₁ e)

  report_error-Toward :
      (later : Bool) (details : Option Text) (s : PutState) (n : Netcf (LinuxDriver A V))
      → Toward later (some (s, report_error einternal details n))
  unfolding report_error
  report_error-Toward later details s n good = ground (arith, good)

  with_augeas-Toward :
      (later : Bool) (n : Netcf (LinuxDriver A V))
      (rest : A → Option (PutState × Netcf (LinuxDriver A V)))
      → ((aug : A) → Toward later (rest aug))
      → Toward later (with_augeas n rest)
  unfolding with_augeas
  with_augeas-Toward later n rest h = elim (Option-cases n.world.augeas) [
    | inl gone ↦ rw (gone, with_augeas) tt
    | inr (aug, held) ↦ rw (held, with_augeas) (h aug)
  ]

  removed-Toward :
      (path : Text) (nodes : List Node) (later : Bool) (s : PutState) (n : Netcf (LinuxDriver A V))
      → (s.toplevel && not (some_slave nodes || later)) ≡ false
      → Toward later (
          with_augeas n (λ aug.
            let (r, aug') = L.aug_rm aug path in
            if is_neg r
            then some
                (s, report_error einternal (some (codes "aug_rm of '%s' failed")) (holding aug' n))
            else noted_nodes L contents path nodes s (holding aug' n)))
  removed-Toward path nodes later s n h = with_augeas-Toward later n _ (λ aug.
      elim (Bool-cases (is_neg (L.aug_rm aug path).0)) [
        | inl refused ↦ rw refused (
            report_error-Toward later (some (codes "aug_rm of '%s' failed")) s
              (holding (L.aug_rm aug path).1 n))
        | inr gone ↦
            rw gone (noted_nodes-Toward path nodes later s (holding (L.aug_rm aug path).1 n) h)
      ])

  put_tree-Toward :
      (tree : Tree) (later : Bool) (s : PutState) (n : Netcf (LinuxDriver A V))
      → (s.toplevel && not (some_slave tree.nodes || later)) ≡ false
      → Toward later (put_tree L contents tree s n)
  unfolding put_tree
  put_tree-Toward tree later s n h = elim (Bool-cases (streq tree.name (codes "tree"))) [
    | inr other ↦
        rw other
          (report_error-Toward later (some (codes "expected node labeled 'tree', not '%s'")) s n)
    | inl named ↦ rw named (elim (Option-cases tree.path) [
      | inl missing ↦ rw missing tt
      | inr (path, there) ↦ rw there (removed-Toward path tree.nodes later s n h)
    ])
  ]

  put_trees-Toward :
      (trees : List Tree) (later : Bool) (s : PutState) (n : Netcf (LinuxDriver A V))
      → (s.toplevel && not (has_slave trees || later)) ≡ false
      → Toward later (put_trees L contents trees s n)
  unfolding put_trees has_slave
  put_trees-Toward [] later s n h = λ _. h
  put_trees-Toward (tree ∷ trees) later s n h =
      round-Toward (has_slave trees || later) later (put_tree L contents tree s n)
        (put_trees L contents trees)
        (put_tree-Toward tree (has_slave trees || later) s n (ground (arith, h)))
        (λ s₁ n₁ e. put_trees-Toward trees later s₁ n₁ e)

module _ {A V : Type 0} (L : Augeas A V) (contents : ℕ → List AugeasPv)
    (get_hwaddr : V → Text → Option (List ℕ)) (os113 : Bool) where
  put_device_slave :
      (device : Text) (s : PutState) (n : Netcf (LinuxDriver A V))
      → s.toplevel ≡ false
      → put_device L contents get_hwaddr os113 device s n ≡ some (tt, n)
  unfolding put_device mac_of_device follow
  put_device_slave device s n h = ground (arith, h)

  -- If a node of a document says that its interface is a slave, and the trees of the document are put without an error, aug_put_xml
  -- does no more: it writes no default route and no rule of udev.
  pub aug_put_xml_slave :
      (trees : List Tree) (s : PutState) (n n' : Netcf (LinuxDriver A V))
      → has_slave trees ≡ true
      → failed (get_augeas L contents n).1 ≡ false
      → put_trees L contents trees no_nodes (get_augeas L contents n).1 ≡ some (s, n')
      → failed n' ≡ false
      → aug_put_xml L contents get_hwaddr os113
          (some (record { name = codes "forest"; trees = trees }))
          n
        ≡ some (tt, n')
  unfolding aug_put_xml follow streq
  aug_put_xml_slave trees s n n' slave fine put good =
      let n₁ = (get_augeas L contents n).1 in
      let toward : Toward L contents false (put_trees L contents trees no_nodes n₁) =
        put_trees-Toward L contents trees false no_nodes n₁ (rw slave refl) in
      let left : Toward L contents false (some (s, n')) =
        subst (Toward L contents false) put toward in
      let marked : s.toplevel ≡ false = ground (arith, left good) in
      rw (fine, put)
        (rw good (elim (Option-cases s.device) [
          | inl missing ↦ rw missing refl
          | inr (device, there) ↦ rw there (put_device_slave device s n' marked)
        ]))
