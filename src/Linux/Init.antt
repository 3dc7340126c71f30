-- ===== src/Linux/Init.antt =====
-- What a backend for Linux opens and closes: netlink_init and netlink_close of src/dutil_linux.c, and drv_init and drv_close, whose texts in
-- the three backends differ in the names of the stylesheets and, for SUSE, in the test of the root.
use fbsd_netcf.Prelude.{
  ℕ, ◌+◌, ◌-◌, Bool, true, false, not, Option, none, some, Text, codes, if◌then◌else◌, ℤ, pos,
  negsuc, is_neg, [],
}
use fbsd_netcf.Netcf.{Netcf, efile, report_error, allocate, failed}
use fbsd_netcf.Posix.{SocketCalls, init_ioctl_fd}
use fbsd_netcf.Linux.{LinuxDriver, add_augeas_xfm_table}
use fbsd_netcf.Xml.{LibXml, parse_stylesheet}

-- What is open outside of the program: stylesheets of libxslt, descriptors, sockets and caches of libnl, and trees of libaugeas.
pub record Opened : Type 0 where
  pub stylesheets : ℕ
  pub descriptors : ℕ
  pub sockets : ℕ
  pub caches : ℕ
  pub trees : ℕ

-- The fields of struct driver that the backend opens, and what is open. A pointer of libnl is true unless it is NULL.
pub record Resources (S : Type 0) : Type 0 where
  pub get : Option S
  pub put : Option S
  pub ioctl_fd : ℤ
  pub nl_sock : Bool
  pub link_cache : Bool
  pub addr_cache : Bool
  pub opened : Opened

-- Which calls of libnl succeed.
pub record LibNl : Type 0 where
  pub nl_socket_alloc : Bool
  pub nl_connect : Bool
  pub link_alloc_cache : Bool
  pub addr_alloc_cache : Bool

abbrev pub one_if : Bool → ℕ
one_if true = 1
one_if false = 0

abbrev pub is_some : {S : Type 0} → Option S → Bool
is_some none = false
is_some (some s) = true

module _ {S : Type 0} where
  -- netlink_close, which returns 0.
  unfoldable pub netlink_close : Resources S → Resources S
  netlink_close h = record h {
    nl_sock = false;
    link_cache = false;
    addr_cache = false;
    opened = record h.opened {
      caches = (h.opened.caches - one_if h.addr_cache) - one_if h.link_cache;
      sockets = h.opened.sockets - one_if h.nl_sock;
    };
  }

  -- An allocation of a socket and of the caches: the field, and what is open then.
  unfoldable pub with_sock : Bool → Resources S → Resources S
  with_sock ok h = record h {
    nl_sock = ok;
    opened = record h.opened { sockets = h.opened.sockets + one_if ok };
  }

  unfoldable pub with_link_cache : Bool → Resources S → Resources S
  with_link_cache ok h = record h {
    link_cache = ok;
    opened = record h.opened { caches = h.opened.caches + one_if ok };
  }

  unfoldable pub with_addr_cache : Bool → Resources S → Resources S
  with_addr_cache ok h = record h {
    addr_cache = ok;
    opened = record h.opened { caches = h.opened.caches + one_if ok };
  }

  -- The assignments to ioctl_fd, and to get and put.
  unfoldable pub with_fd : ℤ → Resources S → Resources S
  with_fd fd h = record h {
    ioctl_fd = fd;
    opened = record h.opened { descriptors = h.opened.descriptors + one_if (not (is_neg fd)) };
  }

  unfoldable pub with_stylesheets : Option S → Option S → Resources S → Resources S
  with_stylesheets get put h = record h {
    get = get;
    put = put;
    opened = record h.opened {
      stylesheets = (h.opened.stylesheets + one_if (is_some get)) + one_if (is_some put);
    };
  }

  -- netlink_init. The flag of the descriptor is set as far as it can be.
  unfoldable pub netlink_init : LibNl → Resources S → ℤ × Resources S
  unfolding netlink_close with_sock with_link_cache with_addr_cache
  netlink_init nl h =
      let h₁ = with_sock nl.nl_socket_alloc h in
      let h₂ = with_link_cache nl.link_alloc_cache h₁ in
      let h₃ = with_addr_cache nl.addr_alloc_cache h₂ in
      if not nl.nl_socket_alloc
      then (negsuc 0, netlink_close h₁)
      else if not nl.nl_connect
      then (negsuc 0, netlink_close h₁)
      else if not nl.link_alloc_cache
      then (negsuc 0, netlink_close h₂)
      else if not nl.addr_alloc_cache
      then (negsuc 0, netlink_close h₃)
      else (pos 0, h₃)

-- The resources of a driver that was allocated, all bytes 0 but for ioctl_fd.
abbrev pub nothing_held : {S : Type 0} → Opened → Resources S
nothing_held opened = record {
  get = none;
  put = none;
  ioctl_fd = negsuc 0;
  nl_sock = false;
  link_cache = false;
  addr_cache = false;
  opened = opened;
}

module _ {A V : Type 0} where
  -- The handle without a driver.
  abbrev pub without_driver : Netcf (LinuxDriver A V) → Netcf (LinuxDriver A V)
  without_driver n = record n {
    driver = false;
    world = record {
      augeas = none;
      load_augeas = false;
      copy_augeas_xfm = false;
      augeas_xfm_tables = [];
      system = n.world.system;
    };
  }

module _ {A V S : Type 0} where
  -- drv_close. Nothing is done without a driver.
  unfoldable pub drv_close :
      Netcf (LinuxDriver A V) → Resources S → Netcf (LinuxDriver A V) × Resources S
  unfolding netlink_close
  drv_close n h =
      let h₁ = netlink_close h in
      let o = h₁.opened in
      if not n.driver then (n, h) else (
        without_driver n,
        nothing_held (record o {
          stylesheets = (o.stylesheets - one_if (is_some h.get)) - one_if (is_some h.put);
          descriptors = o.descriptors - one_if (not (is_neg h.ioctl_fd));
          trees = o.trees - one_if (is_some n.world.augeas);
        }),
      )

  -- The label `error` of drv_init.
  abbrev pub bail_closed :
      Netcf (LinuxDriver A V) → Resources S → ℤ × Netcf (LinuxDriver A V) × Resources S
  bail_closed n h = let (n', h') = drv_close n h in (negsuc 0, n', h')

-- The system that the functions on XML look at.
abbrev pub system_of : {A V : Type 0} → LinuxDriver A V → V
system_of d = d.system

-- `calls` are the system calls of init_ioctl_fd.
module _ {A V D S : Type 0} (X : LibXml D S V) (nl : LibNl) (calls : SocketCalls) where
  -- The part of drv_init behind the socket for ioctls.
  unfoldable pub open_netlink :
      ℤ → Netcf (LinuxDriver A V) → Resources S → ℤ × Netcf (LinuxDriver A V) × Resources S
  open_netlink fd n h =
      let held = with_fd fd h in
      let (r, h') = netlink_init nl held in
      if is_neg fd
      then bail_closed n held
      else if is_neg r
      then bail_closed n h'
      else (pos 0, n, h')

  -- The part of drv_init behind the tests: the stylesheets and the sockets.
  unfoldable pub open_all :
      Text
      → Text
      → Netcf (LinuxDriver A V)
      → Resources S
      → ℤ × Netcf (LinuxDriver A V) × Resources S
  open_all get_name put_name n h =
      let (get, n₁) = parse_stylesheet X system_of get_name n in
      let (put, n₂) = parse_stylesheet X system_of put_name n₁ in
      let held = with_stylesheets get put h in
      let (fd, n₃) = init_ioctl_fd calls n₂ in
      if failed n₂ then bail_closed n₂ held else open_netlink fd n₃ held

  -- drv_init with the table of the backend. `root_ok` is the test that the root is a directory.
  unfoldable pub init_driver :
      (V → Text → Bool)
      → ℕ
      → Text
      → Text
      → Netcf (LinuxDriver A V)
      → Opened
      → ℤ × Netcf (LinuxDriver A V) × Resources S
  init_driver root_ok xfm get_name put_name n o =
      let (ok, n₁) = allocate n in
      let n₂ : Netcf (LinuxDriver A V) = record (without_driver n₁) { driver = true } in
      let (r, n₃) = add_augeas_xfm_table xfm n₂ in
      if not ok
      then (negsuc 0, record n₁ { driver = false }, nothing_held o)
      else if is_neg r
      then bail_closed n₃ (nothing_held o)
      else if not (root_ok n₃.world.system n₃.root)
      then bail_closed (report_error efile (some (codes "invalid root '%s' is not a directory")) n₃)
          (nothing_held o)
      else open_all get_name put_name n₃ (nothing_held o)
