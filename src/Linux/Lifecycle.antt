-- ===== src/Linux/Lifecycle.antt =====
-- drv_init and drv_close of the backends for Linux: what they leave open.
use fbsd_netcf.Prelude.{
  ℕ, ◌+◌, ◌-◌, ◌≡◌, ◌⊎◌, refl, ap, ◌∙◌, inl, inr, Bool, true, false, not, Option, none, some, Text,
  codes, if◌then◌else◌, ℤ, pos, negsuc, is_neg, arith, Bool-cases, Option-cases,
}
use fbsd_netcf.Netcf.{Netcf, ErrCode, efile, report_error, allocate, failed, set_errcode}
use fbsd_netcf.Posix.{SocketCalls, init_ioctl_fd}
use fbsd_netcf.Linux.{LinuxDriver, add_augeas_xfm_table}
use fbsd_netcf.Xml.{LibXml, parse_stylesheet}
use fbsd_netcf.Linux.Init.{
  Opened, Resources, LibNl, one_if, is_some, netlink_close, netlink_init, with_sock,
  with_link_cache, with_addr_cache, with_fd, with_stylesheets, nothing_held, drv_close, bail_closed,
  without_driver, system_of, open_netlink, open_all, init_driver,
}
use fbsd_netcf.Linux.Lifecycle.Held.{
  Owns, Owns-cong, drv_close_lem, nothing_held-Owns, with_fd-Owns, with_stylesheets-Owns,
  netlink_init_lem,
}
pub mod Held
mod Tests

-- All the pointers of a driver that drv_init gives are there.
pub record IsReady {S : Type 0} (h : Resources S) : Type 0 where
  pub get : is_some h.get ≡ true
  pub put : is_some h.put ≡ true
  pub ioctl_fd : is_neg h.ioctl_fd ≡ false
  pub nl_sock : h.nl_sock ≡ true
  pub link_cache : h.link_cache ≡ true
  pub addr_cache : h.addr_cache ≡ true

-- The ways out of drv_init: 0 with a whole driver, or -1 without a driver and with nothing more open.
abbrev pub OpensOrCloses :
    {A V S : Type 0} → Opened → ℤ × Netcf (LinuxDriver A V) × Resources S → Type 0
OpensOrCloses o (r, n, h) =
    ((r ≡ pos 0) × Owns o n h × IsReady h)
    ⊎ ((r ≡ negsuc 0) × (n.driver ≡ false) × (h ≡ nothing_held o))

module _ {A V S : Type 0} where
  bail_closed_lem :
      (o : Opened) (n : Netcf (LinuxDriver A V)) (h : Resources S)
      → Owns o n h
      → OpensOrCloses o (bail_closed n h)
  bail_closed_lem o n h w = let (d, e) = drv_close_lem o n h w in inr (refl, d, e)

module _ {W : Type 0} where
  init_ioctl_fd_keeps :
      (calls : SocketCalls) (n : Netcf W)
      → ((init_ioctl_fd calls n).1.driver ≡ n.driver) × ((init_ioctl_fd calls n).1.world ≡ n.world)
  unfolding init_ioctl_fd report_error
  init_ioctl_fd_keeps calls n = ground arith

module _ {D S V W : Type 0} (X : LibXml D S V) (system : W → V) where
  parse_stylesheet_keeps :
      (fname : Text) (n : Netcf W)
      → ((parse_stylesheet X system fname n).1.driver ≡ n.driver)
        × ((parse_stylesheet X system fname n).1.world ≡ n.world)
        × (failed n ≡ true → failed (parse_stylesheet X system fname n).1 ≡ true)
        × ((is_some (parse_stylesheet X system fname n).0 ≡ true)
            ⊎ (failed (parse_stylesheet X system fname n).1 ≡ true))
  unfolding parse_stylesheet report_error allocate set_errcode
  parse_stylesheet_keeps fname n = ground arith

module _ {A V D S : Type 0} (X : LibXml D S V) (nl : LibNl) (calls : SocketCalls) where
  -- The three ways out of open_netlink.
  open_netlink-cases :
      (n : Netcf (LinuxDriver A V)) (h : Resources S) (fd : ℤ)
      → (open_netlink X nl calls fd n h ≡ bail_closed n (with_fd fd h))
        ⊎ (open_netlink X nl calls fd n h ≡ bail_closed n (netlink_init nl (with_fd fd h)).1)
        ⊎ ((is_neg fd ≡ false)
            × (is_neg (netlink_init nl (with_fd fd h)).0 ≡ false)
            × (open_netlink X nl calls fd n h ≡ (pos 0, n, (netlink_init nl (with_fd fd h)).1)))
  unfolding open_netlink
  open_netlink-cases n h fd = elim (Bool-cases (is_neg fd)) [
    | inl refused ↦ inl (rw (refused, open_netlink) refl)
    | inr given ↦ elim (Bool-cases (is_neg (netlink_init nl (with_fd fd h)).0)) [
      | inl fails ↦ inr (inl (rw (given, fails, open_netlink) refl))
      | inr succeeds ↦ inr (inr (given, succeeds, rw (given, succeeds, open_netlink) refl))
    ]
  ]

  -- Behind the stylesheets.
  open_netlink_lem :
      (o : Opened) (n : Netcf (LinuxDriver A V)) (h : Resources S) (fd : ℤ)
      → Owns o n h
      → is_neg h.ioctl_fd ≡ true
      → is_some h.get ≡ true
      → is_some h.put ≡ true
      → h.nl_sock ≡ false
      → h.link_cache ≡ false
      → h.addr_cache ≡ false
      → OpensOrCloses o (open_netlink X nl calls fd n h)
  unfolding with_fd
  open_netlink_lem o n h fd w f g p s l a =
      let w' = with_fd-Owns o n fd h w f in
      let (u, out) = netlink_init_lem nl o n (with_fd fd h) w' s l a in
      elim (open_netlink-cases n h fd) [
        | inl e ↦ rw e (bail_closed_lem o n _ w')
        | inr (inl e) ↦ rw e (bail_closed_lem o n _ u)
        | inr (inr (given, succeeds, e)) ↦ elim out [
          | inl r ↦ absurd (ground (arith, r))
          | inr (r, s', l', a', f', g', p') ↦
              let ready : IsReady (netlink_init nl (with_fd fd h)).1 = record {
                get = ap is_some g' ∙ g;
                put = ap is_some p' ∙ p;
                ioctl_fd = ap is_neg f' ∙ given;
                nl_sock = s';
                link_cache = l';
                addr_cache = a';
              } in
              rw e (inl (refl, u, ready))
        ]
      ]

  -- The three ways out of open_all.
  open_all-cases :
      (get_name put_name : Text) (n : Netcf (LinuxDriver A V)) (h : Resources S)
      → let first = parse_stylesheet X system_of get_name n in
        let second = parse_stylesheet X system_of put_name first.1 in
        let held = with_stylesheets first.0 second.0 h in
        let socket = init_ioctl_fd calls second.1 in
        (open_all X nl calls get_name put_name n h ≡ bail_closed second.1 held)
        ⊎ ((failed second.1 ≡ false)
            × (open_all X nl calls get_name put_name n h
                ≡ open_netlink X nl calls socket.0 socket.1 held))
  unfolding open_all
  open_all-cases get_name put_name n h =
      let first = parse_stylesheet X system_of get_name n in
      let second = parse_stylesheet X system_of put_name first.1 in
      elim (Bool-cases (failed second.1)) [
        | inl fails ↦ inl (rw fails refl)
        | inr succeeds ↦ inr (succeeds, rw succeeds refl)
      ]

  -- Behind the tests of drv_init.
  open_all_lem :
      (get_name put_name : Text) (o : Opened) (n : Netcf (LinuxDriver A V))
      → n.driver ≡ true
      → n.world.augeas ≡ none
      → OpensOrCloses o (open_all X nl calls get_name put_name n (nothing_held o))
  unfolding with_stylesheets
  open_all_lem get_name put_name o n d a =
      let first = parse_stylesheet X system_of get_name n in
      let second = parse_stylesheet X system_of put_name first.1 in
      let held = with_stylesheets first.0 second.0 (nothing_held o) in
      let socket = init_ioctl_fd calls second.1 in
      let (d₁, w₁, _, got) = parse_stylesheet_keeps X system_of get_name n in
      let (d₂, w₂, keeps, put) = parse_stylesheet_keeps X system_of put_name first.1 in
      let (d₃, w₃) = init_ioctl_fd_keeps calls second.1 in
      let start = nothing_held-Owns {S = S} o n d a in
      let own : Owns o second.1 held =
        Owns-cong o n second.1 held (d₂ ∙ d₁) (w₂ ∙ w₁)
          (with_stylesheets-Owns o n first.0 second.0 (nothing_held o) start refl refl) in
      elim (open_all-cases get_name put_name n (nothing_held o)) [
        | inl e ↦ rw e (bail_closed_lem o _ _ own)
        | inr (clean, e) ↦ elim got [
          | inr bad ↦ absurd (ground (arith, clean, keeps bad))
          | inl there ↦ elim put [
            | inr bad ↦ absurd (ground (arith, clean, bad))
            | inl also ↦ rw e (
                open_netlink_lem o socket.1 held socket.0
                  (Owns-cong o second.1 socket.1 held d₃ w₃ own) refl there also refl refl refl)
          ]
        ]
      ]

  -- The four ways out of init_driver.
  init_driver-cases :
      (root_ok : V → Text → Bool) (xfm : ℕ) (get_name put_name : Text) (n : Netcf (LinuxDriver A V))
      (o : Opened)
      → let n₁ = (allocate n).1 in
        let n₂ : Netcf (LinuxDriver A V) = record (without_driver n₁) { driver = true } in
        let n₃ = (add_augeas_xfm_table xfm n₂).1 in
        let all = init_driver X nl calls root_ok xfm get_name put_name n o in
        (all ≡ (negsuc 0, record n₁ { driver = false }, nothing_held o))
        ⊎ (all ≡ bail_closed n₃ (nothing_held o))
        ⊎ (all
            ≡ bail_closed
                (report_error efile (some (codes "invalid root '%s' is not a directory")) n₃)
                (nothing_held o))
        ⊎ (all ≡ open_all X nl calls get_name put_name n₃ (nothing_held o))
  unfolding init_driver
  init_driver-cases root_ok xfm get_name put_name n o =
      let n₁ = (allocate n).1 in
      let n₂ : Netcf (LinuxDriver A V) = record (without_driver n₁) { driver = true } in
      let n₃ = (add_augeas_xfm_table xfm n₂).1 in
      elim (Bool-cases (allocate n).0) [
        | inr fails ↦ inl (rw fails refl)
        | inl ok ↦ elim (Bool-cases (is_neg (add_augeas_xfm_table xfm n₂).0)) [
          | inl full ↦ inr (inl (rw (ok, full) refl))
          | inr added ↦ elim (Bool-cases (root_ok n₃.world.system n₃.root)) [
            | inr bad ↦ inr (inr (inl (rw (ok, added, bad) refl)))
            | inl good ↦ inr (inr (inr (rw (ok, added, good) refl)))
          ]
        ]
      ]

  add_augeas_xfm_table_keeps :
      (xfm : ℕ) (n : Netcf (LinuxDriver A V))
      → ((add_augeas_xfm_table xfm n).1.driver ≡ n.driver)
        × ((add_augeas_xfm_table xfm n).1.world.augeas ≡ n.world.augeas)
  unfolding add_augeas_xfm_table allocate set_errcode
  add_augeas_xfm_table_keeps xfm n = ground arith

  report_error_keeps :
      (c : ErrCode) (d : Option Text) (n : Netcf (LinuxDriver A V))
      → ((report_error c d n).driver ≡ n.driver) × ((report_error c d n).world ≡ n.world)
  unfolding report_error
  report_error_keeps c d n = ground arith

  -- drv_init of a backend for Linux gives 0, and then both stylesheets, the descriptor, the socket and both caches are there and what is
  -- open shows in the pointers of the driver, or -1, and then there is no driver and
  -- nothing is open that was not open before.
  pub init_driver_lem :
      (root_ok : V → Text → Bool) (xfm : ℕ) (get_name put_name : Text) (n : Netcf (LinuxDriver A V))
      (o : Opened)
      → OpensOrCloses o (init_driver X nl calls root_ok xfm get_name put_name n o)
  init_driver_lem root_ok xfm get_name put_name n o =
      let n₁ = (allocate n).1 in
      let n₂ : Netcf (LinuxDriver A V) = record (without_driver n₁) { driver = true } in
      let n₃ = (add_augeas_xfm_table xfm n₂).1 in
      let message = some (codes "invalid root '%s' is not a directory") in
      let n₄ = report_error efile message n₃ in
      let (d, a) = add_augeas_xfm_table_keeps xfm n₂ in
      let (d', w') = report_error_keeps efile message n₃ in
      let own = nothing_held-Owns {S = S} o n₃ d a in
      elim (init_driver-cases root_ok xfm get_name put_name n o) [
        | inl e ↦ rw e (inr (refl, refl, refl))
        | inr (inl e) ↦ rw e (bail_closed_lem o n₃ (nothing_held o) own)
        | inr (inr (inl e)) ↦
            rw e
              (bail_closed_lem o n₄ (nothing_held o) (Owns-cong o n₃ n₄ (nothing_held o) d' w' own))
        | inr (inr (inr e)) ↦ rw e (open_all_lem get_name put_name o n₃ d a)
      ]
