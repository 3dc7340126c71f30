-- ===== src/Linux/State/Ends.antt =====
-- Ends of the functions of Linux/State/Links, and what lies below an interface.
use fbsd_netcf.Prelude.{
  ℕ, ◌<◌, ◌≡◌, refl, Bool, true, false, ◌&&◌, ◌==◌, List, [], ◌∷◌, Option, none, some, Text, All,
  arith, if◌then◌else◌,
}
use fbsd_netcf.Netcf.{Netcf, enomem, set_errcode}
use fbsd_netcf.Linux.Kinds.{FileKind, ports_of}
use fbsd_netcf.Linux.State.{Dom, Link, LinkCaches, State, add_ethernet_loop}
use fbsd_netcf.Linux.State.Links.{master_of}

-- An end is reached, with the world as it was.
unfoldable pub Ends : {D W : Type 0} → W → Option (State D W) → Type 0
Ends w none = ⊥
Ends w (some (d, n)) = n.world ≡ w

-- A call that may give NULL.
pub Ends-option :
    {A D W : Type 0} (w : W) (r : Option (State D W)) (f : A → Option (State D W)) (o : Option A)
    → Ends w r
    → ((a : A) → o ≡ some a → Ends w (f a))
    → Ends w (elim o [ none ↦ r | some a ↦ f a ])
Ends-option w r f none e go = e
Ends-option w r f (some a) e go = go a refl

pub Ends-bind :
    {D W : Type 0} (w : W) (r : Option (State D W)) (f : State D W → Option (State D W))
    → Ends w r
    → ((d : D) (n : Netcf W) → n.world ≡ w → Ends w (f (d, n)))
    → Ends w (elim r [ none ↦ none | some s ↦ f s ])
unfolding Ends
Ends-bind w none f e go = elim e [ ]
Ends-bind w (some (d, n)) f e go = go d n e

pub Ends-bool :
    {D W : Type 0} (w : W) (t f : Option (State D W)) (b : Bool)
    → (b ≡ true → Ends w t)
    → (b ≡ false → Ends w f)
    → Ends w (elim b [ true ↦ t | false ↦ f ])
Ends-bool w t f true yes_case no_case = yes_case refl
Ends-bool w t f false yes_case no_case = no_case refl

pub Ends-if :
    {D W : Type 0} (w : W) (t f : Option (State D W)) (b : Bool)
    → Ends w t
    → Ends w f
    → Ends w (if b then t else f)
Ends-if w t f true e e' = e
Ends-if w t f false e e' = e'

-- The link below a VLAN, if add_vlan_info_cb goes on to it, has a lower rank.
abbrev pub HasMasterBelow :
    {W : Type 0} → LinkCaches W → W → (Text → Option ℕ → ℕ) → ℕ → Link → Type 0
HasMasterBelow nl w rank bound l =
    (m : Text) (k : ℕ)
    → master_of nl w l ≡ some m
    → nl.name2i w m ≡ some k
    → rank m (some k) < bound

-- A slave of a bond has a name and a lower rank.
abbrev pub HasNameBelow : (Text → Option ℕ → ℕ) → ℕ → ℕ → Link → Type 0
HasNameBelow rank bound i l =
    (l.is_slave && l.master == i) ≡ true
    → (s : Text) × (l.name ≡ some s) × (rank s (some l.ifindex) < bound)

-- What add_type_specific_info goes on to from an interface has a rank below a bound: the interfaces of a bridge, the link below a VLAN, the
-- slaves of a bond.
pub record AllBelow {W : Type 0} (nl : LinkCaches W) (stat : W → Text → FileKind)
    (readdir : W → Text → List Text) (w : W) (rank : Text → Option ℕ → ℕ) (bound : ℕ) (name : Text)
    (ifindex : Option ℕ) : Type 0 where
  pub ports : All (λ p. rank p (nl.name2i w p) < bound) (ports_of stat readdir name w)
  pub masters : (i : ℕ) → ifindex ≡ some i → All (HasMasterBelow nl w rank bound) (nl.links_of w i)
  pub slaves : (i : ℕ) → ifindex ≡ some i → All (HasNameBelow rank bound i) (nl.all_links w)

module _ {D N W : Type 0} (dom : Dom D N) where
  pub add_ethernet_loop_world :
      (root : N) (links : List Link) (d : D) (n : Netcf W)
      → (add_ethernet_loop dom root links (d, n)).1.world ≡ n.world
  unfolding add_ethernet_loop set_errcode
  add_ethernet_loop_world root [] d n = refl
  add_ethernet_loop_world root (l ∷ links) d n = ground (
    arith,
    add_ethernet_loop_world root links d n,
    add_ethernet_loop_world root links d (set_errcode enomem n),
  )
