-- ===== src/Linux/Lifecycle/Held.antt =====
-- netlink_init, netlink_close and drv_close of the backends for Linux: what they leave open.
use fbsd_netcf.Prelude.{
  ◌+◌, ◌≡◌, ◌⊎◌, refl, ap, ◌∙◌, inl, inr, Bool, true, false, not, Option, none, ℤ, pos, negsuc,
  is_neg, arith,
}
use fbsd_netcf.Netcf.{Netcf}
use fbsd_netcf.Linux.{LinuxDriver}
use fbsd_netcf.Linux.Init.{
  Opened, Resources, LibNl, one_if, is_some, netlink_close, netlink_init, with_sock,
  with_link_cache, with_addr_cache, with_fd, with_stylesheets, nothing_held, drv_close,
}

-- What is open is what was open at first and what the pointers of the driver show.
pub record Owns {A V S : Type 0} (o : Opened) (n : Netcf (LinuxDriver A V)) (h : Resources S)
    : Type 0 where
  pub driver : n.driver ≡ true
  pub stylesheets :
      h.opened.stylesheets ≡ (o.stylesheets + one_if (is_some h.get)) + one_if (is_some h.put)
  pub descriptors : h.opened.descriptors ≡ o.descriptors + one_if (not (is_neg h.ioctl_fd))
  pub sockets : h.opened.sockets ≡ o.sockets + one_if h.nl_sock
  pub caches : h.opened.caches ≡ (o.caches + one_if h.link_cache) + one_if h.addr_cache
  pub trees : h.opened.trees ≡ o.trees + one_if (is_some n.world.augeas)

opened_ext :
    (a b : Opened)
    → a.stylesheets ≡ b.stylesheets
    → a.descriptors ≡ b.descriptors
    → a.sockets ≡ b.sockets
    → a.caches ≡ b.caches
    → a.trees ≡ b.trees
    → a ≡ b
opened_ext a b s d k c t = cc

module _ {S : Type 0} where
  -- netlink_init, as one of its five ways out.
  netlink_init-cases :
      (nl : LibNl) (h : Resources S)
      → (netlink_init nl h ≡ (negsuc 0, netlink_close (with_sock nl.nl_socket_alloc h)))
        ⊎ (netlink_init nl h ≡ (
          negsuc 0,
          netlink_close (with_link_cache nl.link_alloc_cache (with_sock nl.nl_socket_alloc h)),
        ))
        ⊎ (netlink_init nl h ≡ (
          negsuc 0,
          netlink_close (
              with_addr_cache nl.addr_alloc_cache
                (with_link_cache nl.link_alloc_cache (with_sock nl.nl_socket_alloc h))),
        ))
        ⊎ (netlink_init nl h
            ≡ (pos 0, with_addr_cache true (with_link_cache true (with_sock true h))))
  unfolding netlink_init
  netlink_init-cases nl h = ground arith

module _ {A V S : Type 0} where
  netlink_close-Owns :
      (o : Opened) (n : Netcf (LinuxDriver A V)) (h : Resources S)
      → Owns o n h
      → Owns o n (netlink_close h)
  unfolding netlink_close
  netlink_close-Owns o n h w = record {
    driver = w.driver;
    stylesheets = w.stylesheets;
    descriptors = w.descriptors;
    sockets = omega (arith, w.sockets);
    caches = omega (arith, w.caches);
    trees = w.trees;
  }

  -- If what is open is what was open at first and what the pointers of the driver show, drv_close leaves open what was open at first, and
  -- no driver.
  pub drv_close_lem :
      (o : Opened) (n : Netcf (LinuxDriver A V)) (h : Resources S)
      → Owns o n h
      → ((drv_close n h).0.driver ≡ false) × ((drv_close n h).1 ≡ nothing_held o)
  unfolding drv_close netlink_close
  drv_close_lem o n h w = rw w.driver (
    refl,
    ap nothing_held (
        opened_ext _ o (omega (arith, w.stylesheets)) (omega (arith, w.descriptors))
          (omega (arith, w.sockets)) (omega (arith, w.caches)) (omega (arith, w.trees))),
  )

  -- A new driver holds nothing.
  pub nothing_held-Owns :
      (o : Opened) (n : Netcf (LinuxDriver A V))
      → n.driver ≡ true
      → n.world.augeas ≡ none
      → Owns {S = S} o n (nothing_held o)
  nothing_held-Owns o n d a = record {
    driver = d;
    stylesheets = omega arith;
    descriptors = omega arith;
    sockets = omega arith;
    caches = omega arith;
    trees = rw a (omega arith);
  }

  with_sock-Owns :
      (o : Opened) (n : Netcf (LinuxDriver A V)) (ok : Bool) (h : Resources S)
      → Owns o n h
      → h.nl_sock ≡ false
      → Owns o n (with_sock ok h)
  unfolding with_sock
  with_sock-Owns o n ok h w s =
      let e : one_if h.nl_sock ≡ 0 = rw s refl in
      record {
        driver = w.driver;
        stylesheets = w.stylesheets;
        descriptors = w.descriptors;
        sockets = omega (arith, w.sockets, e);
        caches = w.caches;
        trees = w.trees;
      }

  with_link_cache-Owns :
      (o : Opened) (n : Netcf (LinuxDriver A V)) (ok : Bool) (h : Resources S)
      → Owns o n h
      → h.link_cache ≡ false
      → Owns o n (with_link_cache ok h)
  unfolding with_link_cache
  with_link_cache-Owns o n ok h w s =
      let e : one_if h.link_cache ≡ 0 = rw s refl in
      record {
        driver = w.driver;
        stylesheets = w.stylesheets;
        descriptors = w.descriptors;
        sockets = w.sockets;
        caches = omega (arith, w.caches, e);
        trees = w.trees;
      }

  with_addr_cache-Owns :
      (o : Opened) (n : Netcf (LinuxDriver A V)) (ok : Bool) (h : Resources S)
      → Owns o n h
      → h.addr_cache ≡ false
      → Owns o n (with_addr_cache ok h)
  unfolding with_addr_cache
  with_addr_cache-Owns o n ok h w s =
      let e : one_if h.addr_cache ≡ 0 = rw s refl in
      record {
        driver = w.driver;
        stylesheets = w.stylesheets;
        descriptors = w.descriptors;
        sockets = w.sockets;
        caches = omega (arith, w.caches, e);
        trees = w.trees;
      }

  pub with_fd-Owns :
      (o : Opened) (n : Netcf (LinuxDriver A V)) (fd : ℤ) (h : Resources S)
      → Owns o n h
      → is_neg h.ioctl_fd ≡ true
      → Owns o n (with_fd fd h)
  unfolding with_fd
  with_fd-Owns o n fd h w f =
      let e : one_if (not (is_neg h.ioctl_fd)) ≡ 0 = rw f refl in
      record {
        driver = w.driver;
        stylesheets = w.stylesheets;
        descriptors = omega (arith, w.descriptors, e);
        sockets = w.sockets;
        caches = w.caches;
        trees = w.trees;
      }

  pub with_stylesheets-Owns :
      (o : Opened) (n : Netcf (LinuxDriver A V)) (get put : Option S) (h : Resources S)
      → Owns o n h
      → h.get ≡ none
      → h.put ≡ none
      → Owns o n (with_stylesheets get put h)
  unfolding with_stylesheets
  with_stylesheets-Owns o n get put h w g p =
      let e : one_if (is_some h.get) ≡ 0 = rw g refl in
      let f : one_if (is_some h.put) ≡ 0 = rw p refl in
      record {
        driver = w.driver;
        stylesheets = omega (arith, w.stylesheets, e, f);
        descriptors = w.descriptors;
        sockets = w.sockets;
        caches = w.caches;
        trees = w.trees;
      }

  -- netlink_init gives 0 and all three pointers of libnl, or -1; what is open shows in the pointers.
  pub netlink_init_lem :
      (nl : LibNl) (o : Opened) (n : Netcf (LinuxDriver A V)) (h : Resources S)
      → Owns o n h
      → h.nl_sock ≡ false
      → h.link_cache ≡ false
      → h.addr_cache ≡ false
      → Owns o n (netlink_init nl h).1
        × (((netlink_init nl h).0 ≡ negsuc 0)
            ⊎ (((netlink_init nl h).0 ≡ pos 0)
                × ((netlink_init nl h).1.nl_sock ≡ true)
                × ((netlink_init nl h).1.link_cache ≡ true)
                × ((netlink_init nl h).1.addr_cache ≡ true)
                × ((netlink_init nl h).1.ioctl_fd ≡ h.ioctl_fd)
                × ((netlink_init nl h).1.get ≡ h.get)
                × ((netlink_init nl h).1.put ≡ h.put)))
  unfolding with_sock with_link_cache with_addr_cache
  netlink_init_lem nl o n h w s l a =
      let w₁ = with_sock-Owns o n nl.nl_socket_alloc h w s in
      let w₂ = with_link_cache-Owns o n nl.link_alloc_cache _ w₁ l in
      let w₃ = with_addr_cache-Owns o n nl.addr_alloc_cache _ w₂ a in
      elim (netlink_init-cases nl h) [
        | inl e ↦ rw e (netlink_close-Owns o n _ w₁, inl refl)
        | inr (inl e) ↦ rw e (netlink_close-Owns o n _ w₂, inl refl)
        | inr (inr (inl e)) ↦ rw e (netlink_close-Owns o n _ w₃, inl refl)
        | inr (inr (inr e)) ↦
            let all =
              with_addr_cache-Owns o n true _
                (with_link_cache-Owns o n true _ (with_sock-Owns o n true h w s) l) a in
            rw e (all, inr (refl, refl, refl, refl, refl, refl, refl))
      ]

  -- The same for a handle with the same driver.
  pub Owns-cong :
      (o : Opened) (n n' : Netcf (LinuxDriver A V)) (h : Resources S)
      → n'.driver ≡ n.driver
      → n'.world ≡ n.world
      → Owns o n h
      → Owns o n' h
  Owns-cong o n n' h d e w = record {
    driver = d ∙ w.driver;
    stylesheets = w.stylesheets;
    descriptors = w.descriptors;
    sockets = w.sockets;
    caches = w.caches;
    trees = rw e w.trees;
  }
