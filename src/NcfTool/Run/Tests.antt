-- ===== src/NcfTool/Run/Tests.antt =====
-- A backend that knows every interface, and that meets what the handlers of src/ncftool.c rely on.
use fbsd_netcf.Prelude.{ℕ, refl, [], none, some, pos, negsuc}
use fbsd_netcf.Netcf.{make_netcf_if}
use fbsd_netcf.Netcf.Handles.{Counts}
use fbsd_netcf.Driver.{Driver}
use fbsd_netcf.Freebsd.Contract.{make_count}
use fbsd_netcf.NcfTool.Run.Balance.{Steady}

abbrev backend : Driver ℕ
backend = record {
  drv_init = λ n. (pos 0, n);
  drv_close = λ n. n;
  drv_entry = λ n. n;
  drv_num_of_interfaces = λ flags n. (pos 0, n);
  drv_list_interfaces = λ maxnames flags n. ((pos 0, []), n);
  drv_lookup_by_name = make_netcf_if;
  drv_lookup_by_mac_string = λ mac maxifaces n. ((pos 0, []), n);
  drv_xml_desc = λ nif n. (some nif.name, n);
  drv_xml_state = λ nif n. ((none, nif), n);
  drv_if_status = λ nif has_flags n. ((pos 0, none), n);
  drv_change_begin = λ flags n. (pos 0, n);
  drv_change_rollback = λ flags n. (pos 0, n);
  drv_change_commit = λ flags n. (pos 0, n);
  drv_mac_string = λ nif n. ((none, nif), n);
  drv_define = make_netcf_if;
  drv_undefine = λ nif n. (pos 0, n);
  drv_if_up = λ nif n. (pos 0, n);
  drv_if_down = λ nif n. (negsuc 0, n);
}

backend-Counts : Counts backend
backend-Counts = record {
  entry_count = λ n. refl;
  entry_errcode = λ n. refl;
  close_count = λ n. refl;
  lookup_count = λ name n fresh. (make_count name n).0;
  lookup_new = λ name n fresh. (make_count name n).1;
}

backend-Steady : Steady backend
backend-Steady = record {
  switches = record {
    counts = backend-Counts;
    up_count = λ nif n. refl;
    down_count = λ nif n. refl;
  };
  undefine_count = λ nif n. refl;
  desc_count = λ nif n. refl;
  state_count = λ nif n. refl;
  state_same = λ nif n. refl;
  define_count = λ xml n. (make_count xml n).0;
  define_new = λ xml n. (make_count xml n).1;
}
