-- ===== src/Linux/State/Result.antt =====
-- add_state_to_xml_doc of src/dutil_linux.c and drv_xml_state come to an end.
use fbsd_netcf.Prelude.{
  ℕ, ◌<◌, ◌≡◌, refl, Bool, true, false, not, List, Option, none, some, Text, codes, arith, ℤ,
  if◌then◌else◌,
}
use fbsd_netcf.Netcf.{Netcf, NetcfIf, failed}
use fbsd_netcf.Linux.Kinds.{FileKind}
use fbsd_netcf.Linux.State.{Dom, LinkCaches, State}
use fbsd_netcf.Linux.State.Links.{
  is_interface, add_type_specific_info, add_refilled, add_state_to_xml_doc, drv_xml_state,
}
use fbsd_netcf.Linux.State.Ends.{Ends, AllBelow}
use fbsd_netcf.Linux.State.Fuel.{add_type_specific_info-Ends}

-- A result is there.
unfoldable pub IsDone : {A : Type 0} → Option A → Type 0
IsDone none = ⊥
IsDone (some a) = Unit

-- An end is reached, and where an error is left there is no text.
unfoldable pub GivesText : {W : Type 0} → Option (Option Text × Netcf W) → Type 0
GivesText none = ⊥
GivesText (some (result, n)) = failed n ≡ true → result ≡ none

IsDone-bind :
    {D W : Type 0} (w : W) (r : Option (State D W)) (f : D → Netcf W → State D W)
    → Ends w r
    → IsDone (elim r [ none ↦ none | some (d, n) ↦ some (f d n) ])
unfolding Ends IsDone
IsDone-bind w none f e = e
IsDone-bind w (some (d, n)) f e = tt

GivesText-bind :
    {D W : Type 0} (r : Option (State D W)) (f : D → Netcf W → Option Text × Netcf W)
    → IsDone r
    → ((d : D) (n : Netcf W) → GivesText (some (f d n)))
    → GivesText (elim r [ none ↦ none | some (d, n) ↦ some (f d n) ])
unfolding IsDone
GivesText-bind none f e go = elim e [ ]
GivesText-bind (some (d, n)) f e go = go d n

some-IsDone : {A : Type 0} (a : A) → IsDone (some a)
unfolding IsDone
some-IsDone a = tt

IsDone-unless :
    {A : Type 0} (a : A) (f : Option A) (b : Bool) → IsDone f → IsDone (if b then some a else f)
IsDone-unless a f true e = some-IsDone a
IsDone-unless a f false e = e

-- A call that may give NULL.
IsDone-option :
    {A B : Type 0} (r : Option B) (f : A → Option B) (o : Option A)
    → IsDone r
    → ((a : A) → IsDone (f a))
    → IsDone (elim o [ none ↦ r | some a ↦ f a ])
IsDone-option r f none e go = e
IsDone-option r f (some a) e go = go a

GivesText-option :
    {A W : Type 0} (r : Option (Option Text × Netcf W)) (f : A → Option (Option Text × Netcf W))
    (o : Option A)
    → GivesText r
    → ((a : A) → GivesText (f a))
    → GivesText (elim o [ none ↦ r | some a ↦ f a ])
GivesText-option r f none e go = e
GivesText-option r f (some a) e go = go a

module _ {D N W : Type 0} (dom : Dom D N) (nl : LinkCaches W) (stat : W → Text → FileKind)
    (readdir : W → Text → List Text) (decimal : ℕ → Text) where
  -- The world behind the refills of the caches.
  abbrev pub refilled : W → W
  refilled w = (nl.refill_addrs (nl.refill_links w).1).1

  add_refilled-IsDone :
      (rank : Text → Option ℕ → ℕ) (depth : ℕ) (name : Text) (root : N) (d : D) (n : Netcf W)
      → ((m : Text) (k : Option ℕ) → AllBelow nl stat readdir n.world rank (rank m k) m k)
      → rank name (nl.name2i n.world name) < depth
      → IsDone (add_refilled dom nl stat readdir decimal depth name root (d, n))
  unfolding add_refilled
  add_refilled-IsDone rank depth name root d n layered deep =
      IsDone-bind n.world
        (add_type_specific_info dom nl stat readdir decimal depth name (nl.name2i n.world name) root
          (d, n))
        _
        (add_type_specific_info-Ends dom nl stat readdir decimal rank n.world layered depth name
          (nl.name2i n.world name) root d n deep refl)

  add_state_to_xml_doc-IsDone :
      (rank : Text → Option ℕ → ℕ) (depth : ℕ) (nif : NetcfIf) (d : D) (n : Netcf W)
      → ((m : Text) (k : Option ℕ)
          → AllBelow nl stat readdir (refilled n.world) rank (rank m k) m k)
      → rank nif.name (nl.name2i (refilled n.world) nif.name) < depth
      → IsDone (add_state_to_xml_doc dom nl stat readdir decimal depth nif (d, n))
  unfolding add_state_to_xml_doc
  add_state_to_xml_doc-IsDone rank depth nif d n layered deep =
      let go = λ (root : N).
        add_refilled-IsDone rank depth nif.name root d (record n { world = refilled n.world })
          layered deep in
      IsDone-option _ _ (dom.root d) (some-IsDone _) λ root.
        IsDone-unless _ _ (not (is_interface (dom.node_name d root))) (
          IsDone-unless _ _ (not (nl.refill_links n.world).0)
            (IsDone-unless _ _ (not (nl.refill_addrs (nl.refill_links n.world).1).0) (go root)))

  -- If interfaces have ranks, as in the theorem on add_type_specific_info, in the world behind the refills of the caches, and the depth is more
  -- than the rank of the interface, drv_xml_state comes to an end whatever fails, and gives no text where it leaves an error.
  pub drv_xml_state-GivesText :
      (save : D → ℤ × Option Text) (rank : Text → Option ℕ → ℕ) (depth : ℕ) (nif : NetcfIf)
      (n : Netcf W)
      → ((m : Text) (k : Option ℕ)
          → AllBelow nl stat readdir (refilled n.world) rank (rank m k) m k)
      → rank nif.name (nl.name2i (refilled n.world) nif.name) < depth
      → GivesText (drv_xml_state dom nl stat readdir decimal save depth nif n)
  unfolding drv_xml_state GivesText
  drv_xml_state-GivesText save rank depth nif n layered deep =
      GivesText-option _ _ dom.new_doc (λ bad. refl)
        λ ncf_xml.
          GivesText-option _ _ (dom.new_root ncf_xml (codes "interface")) (λ bad. refl)
            λ d.
              GivesText-bind (add_state_to_xml_doc dom nl stat readdir decimal depth nif (d, n)) _
                (add_state_to_xml_doc-IsDone rank depth nif d n layered deep)
                λ d₁ n₁ bad. ground (arith, bad)
