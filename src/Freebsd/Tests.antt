-- ===== src/Freebsd/Tests.antt =====
-- The theorems on src/drv_freebsd.c for a kernel with three interfaces, and those of Netcf/Handles with this backend.
use fbsd_netcf.Prelude.{
  has_prefix, ℕ, ◌+◌, ◌*◌, ◌/◌, ◌^◌, ◌<◌, ◌≤◌, ◌≡◌, refl, ◌⊎◌, inl, inr, ap, Bool, true, false,
  ◌&&◌, not, List, [], ◌∷◌, ◌++◌, Option, none, some, Text, codes, keep, All, take, length, pos,
  negsuc, arith, streq, ltb, if◌then◌else◌, Bool-cases,
}
use fbsd_netcf.Netcf.{allocate, Netcf, NetcfIf, left, gone, noerror, einuse}
use fbsd_netcf.Netcf.Api.{ncf_close}
use fbsd_netcf.Netcf.Handles.{
  Counts, free, close, call, Session, IsBalanced, ncf_close_lem, call-IsBalanced,
}
use fbsd_netcf.Driver.{Driver}
use fbsd_netcf.Posix.{Process, exited, improper}
use fbsd_netcf.NcfTool.Token.{nexttoken}
use fbsd_netcf.NcfTool.Command.{cmd_if_up_def, lookup_cmd_def, opt_def_is_arg, res_ok}
use fbsd_netcf.NcfTool.Parse.{
  parseline, parse_command, parse_loop, parse_token, parse_arg, count_args, skip_to_arg, arg_def,
}
use fbsd_netcf.NcfTool.Run.Shell.{run_command_line}
use fbsd_netcf.NcfTool.Run.Balance.{KeepsCount}
use fbsd_netcf.NcfTool.Run.Lines.{run_switch_line-KeepsCount}
use fbsd_netcf.Freebsd.{
  overflow, probe_interface, has_mac, is_mac_type, drv_if_up, drv_list_interfaces,
  drv_num_of_interfaces, drv_lookup_by_mac_string, setifflags, pass, is_qualified,
}
use fbsd_netcf.System.{Kernel, IfAddr, ift_ether, ifr_name, if_is_active}
use fbsd_netcf.Freebsd.Flags.{FlagLaws, drv_if_up_lem}
use fbsd_netcf.Freebsd.Listing.{
  holding, qualified, found, one_slot, drv_list_interfaces_lem, drv_num_of_interfaces_lem,
}
use fbsd_netcf.Freebsd.Mac.{with_mac, within, mac_of}
use fbsd_netcf.Freebsd.RcConf.{
  RcFiles, drv_undefine, AreLines, joined, is_dropped, drv_undefine_lem,
}
use fbsd_netcf.Freebsd.Contract.{freebsd_driver, freebsd_driver-Counts, freebsd_driver-Switches}

-- The flags of each interface.
abbrev World : Type 0
World = Text → Option (ℕ × ℕ)

abbrev fits : ℕ → ℕ → Bool
fits lo hi = ltb lo (2 ^ 16) && ltb hi (2 ^ 16)

abbrev checked : Option (ℕ × ℕ) → Option (ℕ × ℕ)
checked none = none
checked (some (lo, hi)) = if fits lo hi then some (lo, hi) else none

abbrev with_flags : World → Text → ℕ → ℕ → World
with_flags w name lo hi = λ other. if streq other name then some (lo, hi) else w other

abbrev set_checked : World → Text → ℕ → ℕ → Option World
set_checked w name lo hi = if fits lo hi then some (with_flags w name lo hi) else none

abbrev ether_addr : Text → Text → IfAddr
ether_addr name mac = record {
  name = name;
  is_link = true;
  cant_config = false;
  sdl_type = ift_ether;
  sdl_alen = 6;
  ether = mac;
}

abbrev refusal : Process
refusal = record {
  pipe_ok = true;
  block_ok = true;
  fork_ok = true;
  restore_ok = true;
  stream_ok = true;
  output = some [];
  waited = some (exited 1);
}

abbrev kernel : Kernel World
kernel = record {
  get_flags = λ w name. checked (w name);
  set_flags = set_checked;
  getifaddrs =
      λ w. ether_addr (codes "em0") (codes "0:1") ∷ ether_addr (codes "em1") (codes "0:2") ∷ [];
  spawn = λ w argv. (refusal, w);
  socket_calls = λ w. record { socket = some 3; getfd_ok = true; setfd_ok = true };
}

abbrev all_up : World
all_up name = some (0x41, 0)

abbrev halves_of : Option (ℕ × ℕ) → ℕ × ℕ
halves_of none = (0, 0)
halves_of (some h) = h

checked_fits :
    (o : Option (ℕ × ℕ)) (lo hi : ℕ) → checked o ≡ some (lo, hi) → (lo < 2 ^ 16) × (hi < 2 ^ 16)
checked_fits none lo hi e = absurd (cc)
checked_fits (some (a, b)) lo hi e = elim (Bool-cases (fits a b)) [
  | inl ok ↦
      let e' : some (a, b) ≡ some (lo, hi) = rw ok at e in
      let low : a ≡ lo = ap (λ (h : ℕ × ℕ). h.0) (ap halves_of e') in
      let high : b ≡ hi = ap (λ (h : ℕ × ℕ). h.1) (ap halves_of e') in
      let both : (a < 2 ^ 16) × (b < 2 ^ 16) = ground arith in rw (← low, ← high) both
  | inr too_large ↦ let e' : none ≡ some (lo, hi) = rw too_large at e in absurd (cc)
]

kernel_laws : FlagLaws kernel
kernel_laws = record { halves = λ w name {lo} {hi} e. checked_fits (w name) lo hi e }

abbrev handle : Netcf World
handle = record {
  count = 1;
  root = codes "/";
  data_dir = codes "/usr/share/netcf";
  rng = true;
  errcode = noerror;
  errdetails = none;
  driver = true;
  debug = false;
  allocs = [];
  world = all_up;
}

abbrev em0 : NetcfIf
em0 = record { count = 1; name = codes "em0"; mac = none }

drv_if_up_lem_example :
    (lo hi : ℕ) × (kernel.get_flags all_up (ifr_name (codes "em0")) ≡ some (lo, hi))
    × (kernel.set_flags all_up (ifr_name (codes "em0")) (lo / 2 * 2 + 1) hi
        ≡ some (drv_if_up kernel em0 handle).1.world)
unfolding drv_if_up ifr_name setifflags
drv_if_up_lem_example = drv_if_up_lem kernel_laws em0 handle refl

drv_list_interfaces_lem_example :
    drv_list_interfaces kernel 1 2 handle
    ≡ (holding kernel 1 (take 1 (qualified kernel 2 all_up (found kernel all_up))), handle)
drv_list_interfaces_lem_example = drv_list_interfaces_lem kernel 1 2 handle refl refl

drv_num_of_interfaces_lem_example :
    drv_num_of_interfaces kernel 3 handle
    ≡ (one_slot kernel (qualified kernel 3 all_up (found kernel all_up)), handle)
drv_num_of_interfaces_lem_example = drv_num_of_interfaces_lem kernel 3 handle refl refl

-- Both interfaces are selected, so that the code writes behind the array.
two_interfaces : one_slot kernel (qualified kernel 3 all_up (found kernel all_up)) ≡ overflow
unfolding one_slot qualified found pass is_qualified if_is_active
two_interfaces = refl

-- Without a slot, the code writes behind the array.
no_slot : within kernel 0 (with_mac kernel (codes "0:2") all_up (found kernel all_up)) handle ≡ none
unfolding within with_mac mac_of found streq probe_interface pass has_mac has_prefix is_mac_type
no_slot = refl

abbrev rc_conf : Text
rc_conf = codes "hostname=a" ++ (10 ∷ (codes "ifconfig_em0=DHCP" ++ (10 ∷ [])))

abbrev rc_files : RcFiles
rc_files = record {
  rc_conf = some rc_conf;
  rc_conf_tmp = none;
  can_write = true;
  can_rename = true;
}

drv_undefine_lem_example :
    (lines : List Text) × (joined lines ≡ rc_conf)
    × AreLines lines
    × All (λ line. length line ≤ 255) lines
    × ((drv_undefine em0 rc_files).0 ≡ pos 0)
    × ((drv_undefine em0 rc_files).1.rc_conf
        ≡ some (joined (keep (λ line. not (is_dropped (codes "em0") line)) lines)))
drv_undefine_lem_example = drv_undefine_lem em0 rc_files rc_conf refl refl refl

abbrev em1 : NetcfIf
em1 = record { count = 1; name = codes "em1"; mac = none }

abbrev others : Driver World
others = record {
  drv_init = λ n. (pos 0, n);
  drv_close = λ n. n;
  drv_entry = λ n. n;
  drv_num_of_interfaces = λ flags n. (pos 0, n);
  drv_list_interfaces = λ maxnames flags n. ((pos 0, []), n);
  drv_lookup_by_name = λ name n. (none, n);
  drv_lookup_by_mac_string = λ mac maxifaces n. ((pos 0, []), n);
  drv_xml_desc = λ nif n. (none, n);
  drv_xml_state = λ nif n. ((none, nif), n);
  drv_if_status = λ nif has_flags n. ((pos 0, none), n);
  drv_change_begin = λ flags n. (pos 0, n);
  drv_change_rollback = λ flags n. (pos 0, n);
  drv_change_commit = λ flags n. (pos 0, n);
  drv_mac_string = λ nif n. ((none, nif), n);
  drv_define = λ xml n. (none, n);
  drv_undefine = λ nif n. (pos 0, n);
  drv_if_up = λ nif n. (pos 0, n);
  drv_if_down = λ nif n. (pos 0, n);
}

freebsd_driver-Counts_example : Counts (freebsd_driver kernel improper others)
freebsd_driver-Counts_example = freebsd_driver-Counts kernel improper others

-- A handle of which one interface is held.
abbrev busy : Session World
busy = (record handle { count = 2 }, em0 ∷ [])

busy-IsBalanced : IsBalanced busy
busy-IsBalanced = record { counted = refl; bounded = omega arith; new = (refl, tt) }

ncf_close_lem_example :
    ((em0 ∷ [] ≡ []) × (ncf_close (freebsd_driver kernel improper others) busy.0 ≡ (pos 0, gone)))
    ⊎ ((n' : Netcf World) × (ncf_close (freebsd_driver kernel improper others) busy.0
          ≡ (negsuc 0, left n'))
        × (n'.errcode ≡ einuse)
        × (n'.count ≡ 2))
ncf_close_lem_example =
    ncf_close_lem (freebsd_driver-Counts kernel improper others) (record handle { count = 2 })
      (em0 ∷ []) busy-IsBalanced

call-IsBalanced_example :
    ((s' : Session World) × (call (freebsd_driver kernel improper others) free busy ≡ some s')
      × IsBalanced s')
    ⊎ ((free ≡ close)
        × (em0 ∷ [] ≡ [])
        × (call (freebsd_driver kernel improper others) free busy ≡ none))
call-IsBalanced_example =
    call-IsBalanced (freebsd_driver-Counts kernel improper others) free busy busy-IsBalanced
      (omega arith)

abbrev no_files : World → Text → Option Text
no_files w fname = none

run_switch_line-KeepsCount_example : KeepsCount 1 (
    run_command_line
      (freebsd_driver kernel improper others)
      no_files
      (codes "ifup em0")
      res_ok
      handle)
unfolding allocate parseline lookup_cmd_def streq nexttoken parse_command parse_loop parse_token
    parse_arg count_args skip_to_arg arg_def opt_def_is_arg
run_switch_line-KeepsCount_example =
    run_switch_line-KeepsCount (freebsd_driver-Switches kernel improper others) no_files 1
      (omega arith) (omega arith) (codes "ifup em0") res_ok handle {def = cmd_if_up_def} refl refl
      refl (inl refl) refl
