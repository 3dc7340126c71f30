-- ===== src/Linux/Lifecycle/Tests.antt =====
-- The theorem on drv_init of the backends for Linux where libnl gives no cache of addresses.
use fbsd_netcf.Prelude.{◌≡◌, refl, true, false, Text, [], some, codes, pos, negsuc}
use fbsd_netcf.Netcf.{noerror, allocate}
use fbsd_netcf.Posix.{SocketCalls, init_ioctl_fd}
use fbsd_netcf.Linux.{add_augeas_xfm_table}
use fbsd_netcf.Linux.Sample.{Nodes, new_handle}
use fbsd_netcf.Xml.{LibXml, parse_stylesheet}
use fbsd_netcf.Linux.Init.{
  Opened, LibNl, netlink_init, netlink_close, with_sock, with_link_cache, with_addr_cache, with_fd,
  with_stylesheets, open_netlink, open_all, drv_close, init_driver,
}
use fbsd_netcf.Linux.Lifecycle.{OpensOrCloses, init_driver_lem}

abbrev library : LibXml Text Text Nodes
library = record {
  access = λ v path. true;
  parse_stylesheet_file = λ v path. some path;
  apply = λ style doc. ([], false, some doc);
  save_result = λ doc style. (pos 0, doc);
  validate_doc = λ doc. ([], pos 0);
  read_doc = λ text. ([], some text);
  has_root = λ doc. true;
}

abbrev no_addresses : LibNl
no_addresses = record {
  nl_socket_alloc = true;
  nl_connect = true;
  link_alloc_cache = true;
  addr_alloc_cache = false;
}

abbrev sockets : SocketCalls
sockets = record { socket = some 5; getfd_ok = true; setfd_ok = true }

abbrev before : Opened
before = record { stylesheets = 0; descriptors = 3; sockets = 1; caches = 2; trees = 0 }

init_driver_lem_example : OpensOrCloses before (
    init_driver library no_addresses sockets
      (λ v root. true)
      0
      (codes "redhat-get.xsl")
      (codes "redhat-put.xsl")
      (new_handle [])
      before)
init_driver_lem_example =
    init_driver_lem library no_addresses sockets (λ v root. true) 0 (codes "redhat-get.xsl")
      (codes "redhat-put.xsl") (new_handle []) before

-- It gives -1 there, without an error in the handle.
no_addresses_fails :
    (init_driver library no_addresses sockets
      (λ v root. true)
      0
      (codes "redhat-get.xsl")
      (codes "redhat-put.xsl")
      (new_handle [])
      before).0
    ≡ negsuc 0
unfolding init_driver open_all open_netlink netlink_init netlink_close with_sock with_link_cache
    with_addr_cache with_fd with_stylesheets drv_close parse_stylesheet init_ioctl_fd
    add_augeas_xfm_table allocate
no_addresses_fails = refl

no_addresses_silent :
    (init_driver library no_addresses sockets
      (λ v root. true)
      0
      (codes "redhat-get.xsl")
      (codes "redhat-put.xsl")
      (new_handle [])
      before).1.errcode
    ≡ noerror
unfolding init_driver open_all open_netlink netlink_init netlink_close with_sock with_link_cache
    with_addr_cache with_fd with_stylesheets drv_close parse_stylesheet init_ioctl_fd
    add_augeas_xfm_table allocate
no_addresses_silent = refl
