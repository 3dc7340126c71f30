-- ===== src/Debian/Writes.antt =====
-- What aug_put_xml of src/drv_debian.c sets in the tree for an array.
use fbsd_netcf.Prelude.{
  ℕ, ◌+◌, ◌-◌, ◌^◌, ◌<◌, ◌≡◌, refl, ap, inl, inr, true, false, List, [], ◌∷◌, ◌++◌, Option, none,
  some, Text, codes, length, ltb, lt→ltb, All, if◌then◌else◌, is_neg, streq, arith, Bool-cases,
}
use fbsd_netcf.Netcf.{Netcf, eother, failed}
use fbsd_netcf.Linux.{Augeas, AugeasPv, LinuxDriver}
use fbsd_netcf.Linux.Format.{aug_fmt_set}
use fbsd_netcf.Redhat.Find.{err_cond}
use fbsd_netcf.Redhat.Forest.{Node}
use fbsd_netcf.Debian.Forest.{Element}
use fbsd_netcf.Debian.Forest.Put.{array_path, put_nodes, put_element, put_elements}

module _ {A V : Type 0} (L : Augeas A V) (contents : ℕ → List AugeasPv) where
  -- The handle behind aug_fmt_set and ERR_COND_BAIL.
  abbrev set_next : Text → Option Text → Netcf (LinuxDriver A V) → Netcf (LinuxDriver A V)
  set_next path value n =
      let (r, n₁) = aug_fmt_set L contents value path n in err_cond (is_neg r) eother n₁

  -- The paths are set one behind the other, up to the first error.
  unfoldable pub set_all :
      List (Text × Option Text) → Netcf (LinuxDriver A V) → Netcf (LinuxDriver A V)
  set_all [] n = n
  set_all ((path, value) ∷ writes) n =
      let next = set_next path value n in
      let rest = set_all writes next in if failed next then next else rest

  set_all-append :
      (xs ys : List (Text × Option Text)) (n : Netcf (LinuxDriver A V))
      → failed n ≡ false
      → set_all (xs ++ ys) n
        ≡ (if failed (set_all xs n) then set_all xs n else set_all ys (set_all xs n))
  unfolding set_all
  set_all-append [] ys n fine = rw fine refl
  set_all-append ((path, value) ∷ xs) ys n fine = elim (Bool-cases (failed next)) [
    | inl bad ↦ rw bad (rw bad refl)
    | inr good ↦ rw good (set_all-append xs ys next good)
  ]
    where
      next : Netcf (LinuxDriver A V)
      next = set_next path value n

module _ {A V : Type 0} (L : Augeas A V) (contents : ℕ → List AugeasPv) (decimal : ℕ → Text)
    (strtol : Text → ℕ) where
  abbrev path_of : Text → ℕ → Text
  path_of label i = array_path L contents decimal strtol label i

  -- The nodes below the node with number i, each behind those with its label.
  unfoldable pub node_writes : Text → ℕ → List Node → List (Text × Option Text)
  unfolding array_path
  node_writes label i [] = []
  node_writes label i (node ∷ nodes) =
      (
        path_of label i
            ++ (b'/' ∷ (elim node.label [ none ↦ codes "1" | some l ↦ l ] ++ codes "[last()+1]")),
        node.value,
      )
      ∷ node_writes label i nodes

  -- The key of an element, if it has one, at the node with number i, and the nodes of the element below.
  unfoldable pub own_writes : Text → ℕ → Element → List (Text × Option Text)
  unfolding node_writes array_path
  own_writes label i element =
      elim element.key [ none ↦ [] | some key ↦ (path_of label i, some key) ∷ [] ]
      ++ node_writes label i element.nodes

  -- The elements, at the numbers behind i.
  unfoldable pub element_writes : Text → ℕ → List Element → List (Text × Option Text)
  unfolding own_writes
  element_writes label i [] = []
  element_writes label i (element ∷ elements) =
      own_writes label (i + 1) element ++ element_writes label (i + 1) elements

  put_nodes-set_all :
      (label : Text) (i : ℕ) (nodes : List Node) (n : Netcf (LinuxDriver A V))
      → put_nodes L contents decimal strtol label i nodes n
        ≡ set_all L contents (node_writes label i nodes) n
  unfolding put_nodes node_writes set_all
  put_nodes-set_all label i [] n = refl
  put_nodes-set_all label i (node ∷ nodes) n =
      let path : Text =
        path_of label i
        ++ (b'/' ∷ (elim node.label [ none ↦ codes "1" | some l ↦ l ] ++ codes "[last()+1]")) in
      let next = set_next L contents path node.value n in
      ap (λ m. if failed next then next else m) (put_nodes-set_all label i nodes next)

  put_element-set_all :
      (label : Text) (i : ℕ) (element : Element) (n : Netcf (LinuxDriver A V))
      → put_element L contents decimal strtol label i element n
        ≡ set_all L contents (own_writes label i element) n
  unfolding put_element set_all own_writes
  put_element-set_all label i element n = by_key element.key
    where
      by_key :
          (key : Option Text)
          → put_element L contents decimal strtol label i (record element { key = key }) n
            ≡ set_all L contents (own_writes label i (record element { key = key })) n
      by_key none = put_nodes-set_all label i element.nodes n
      by_key (some k) =
          let next = set_next L contents (path_of label i) (some k) n in
          ap (λ m. if failed next then next else m) (put_nodes-set_all label i element.nodes next)

  -- If the elements have the name that is expected and their numbers stay below INT_MAX, the loop of aug_put_xml over them, started
  -- without an error behind the node with number i, comes to its end; it sets for the first element the node with number i + 1,
  -- if it has a key, and those below it, then those of the next number for the second, and so on up to the first error.
  pub put_elements-set_all :
      (label : Text) (i : ℕ) (elements : List Element) (n : Netcf (LinuxDriver A V))
      → failed n ≡ false
      → All (λ element. streq element.name (codes "element") ≡ true) elements
      → i + length elements < 2 ^ 31
      → put_elements L contents decimal strtol label i elements n
        ≡ some (tt, set_all L contents (element_writes label i elements) n)
  unfolding put_elements element_writes set_all
  put_elements-set_all label i [] n fine named small = refl
  put_elements-set_all label i (element ∷ elements) n fine (good, named) small =
      let own = own_writes label (i + 1) element in
      let rest = element_writes label (i + 1) elements in
      let behind = set_all L contents own n in
      let first : put_element L contents decimal strtol label (i + 1) element n ≡ behind =
        put_element-set_all label (i + 1) element n in
      let room : ltb i (2 ^ 31 - 1) ≡ true = lt→ltb i (2 ^ 31 - 1) (omega (arith, small)) in
      elim (Bool-cases (failed behind)) [
        | inl bad ↦
            rw (set_all-append L contents own rest n fine, bad)
              (rw (good, room, first) (rw bad refl))
        | inr well ↦
            rw (set_all-append L contents own rest n fine, well)
              (rw (good, room, first)
                (rw well (
                  put_elements-set_all label (i + 1) elements behind well named
                    (omega (arith, small)))))
      ]
