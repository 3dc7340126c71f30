-- ===== src/NcfTool/Run/Balance.antt =====
-- The handlers of src/ncftool.c give back the interfaces that they look up.
use fbsd_netcf.Prelude.{
  ℕ, ◌+◌, ◌-◌, ◌<◌, ◌≡◌, ap, ◌∙◌, Bool, true, false, Bool-cases, inl, inr, List, Option, none, some,
  Text, ℤ, is_neg, is_zero, arith, Option-cases,
}
use fbsd_netcf.Ref.{ref, ref_max}
use fbsd_netcf.Netcf.{Netcf, NetcfIf, left}
use fbsd_netcf.Netcf.Api.{
  api_entry, ncf_lookup_by_name, ncf_if_up, ncf_if_down, ncf_if_undefine, ncf_define, ncf_if_name,
  ncf_if_xml_desc, ncf_if_xml_state, ncf_if_free,
}
use fbsd_netcf.Netcf.Handles.{Switches, count_after, IsNew, free_one, entry_keeps}
use fbsd_netcf.Driver.{Driver}
use fbsd_netcf.NcfTool.Command.{CommandResult, res_ok, res_err}
use fbsd_netcf.NcfTool.Run.{
  Print, Ran, ran, stopped, freed_then, switch_found, if_up_named, if_down_named, undefine_found,
  undefine_named, defined, define_file, dumped, dump_found, dump_xml_named,
}

-- The part returns, and the handle has this count.
abbrev pub KeepsCount : {A W : Type 0} → ℕ → Ran A W → Type 0
KeepsCount c (ran a n prints) = n.count ≡ c
KeepsCount c stopped = ⊥

-- What all handlers rely on in a backend: the functions on an interface
-- leave the count of the handle and that of the interface, and drv_define counts like a lookup.
pub record Steady {W : Type 0} (d : Driver W) : Type 0 where
  pub switches : Switches d
  pub undefine_count : (nif : NetcfIf) (n : Netcf W) → (d.drv_undefine nif n).1.count ≡ n.count
  pub desc_count : (nif : NetcfIf) (n : Netcf W) → (d.drv_xml_desc nif n).1.count ≡ n.count
  pub state_count : (nif : NetcfIf) (n : Netcf W) → (d.drv_xml_state nif n).1.count ≡ n.count
  pub state_same : (nif : NetcfIf) (n : Netcf W) → (d.drv_xml_state nif n).0.1.count ≡ nif.count
  pub define_count :
      (xml : Text) (n : Netcf W)
      → (d.drv_define xml n).1.count ≡ count_after (d.drv_define xml n).0 n.count
  pub define_new : (xml : Text) (n : Netcf W) → IsNew (d.drv_define xml n).0

module _ {W : Type 0} {d : Driver W} (s : Switches d) (read_file : W → Text → Option Text) (c : ℕ)
    (held : 0 < c) (room : c + 1 < ref_max) where
  freed_then-KeepsCount :
      (nif : NetcfIf) (r : CommandResult) (n : Netcf W) (prints : List Print)
      → nif.count ≡ 1
      → n.count ≡ ref c
      → KeepsCount c (freed_then nif r n prints)
  unfolding freed_then ref
  freed_then-KeepsCount nif r n prints new e =
      let next : n.count ≡ c + 1 = ground arith in
      let back : (ncf_if_free nif n).1 ≡ left (record n { count = n.count - 1 }) =
        free_one s.counts nif n new (omega (arith, next)) (omega (arith, next)) in
      rw (back, KeepsCount, freed_then) (omega (arith, next))

  entered : (n : Netcf W) → (api_entry d n).count ≡ n.count
  entered n = (entry_keeps s.counts n).0

  switch_found-KeepsCount :
      (change : NetcfIf → Netcf W → ℤ × Netcf W)
      → ((nif : NetcfIf) (n : Netcf W) → (change nif n).1.count ≡ n.count)
      → (done refused name : Text) (o : Option NetcfIf) (n : Netcf W) → n.count ≡ count_after o c
      → IsNew o
      → KeepsCount c (switch_found d read_file change done refused name (o, n))
  unfolding switch_found
  switch_found-KeepsCount change keeps done refused name none n e new = e
  switch_found-KeepsCount change keeps done refused name (some nif) n e new =
      elim (Bool-cases (is_zero (change nif n).0)) [
        | inl yes_done ↦
            rw yes_done (freed_then-KeepsCount nif res_ok (change nif n).1 _ new (keeps nif n ∙ e))
        | inr not_done ↦
            rw not_done (freed_then-KeepsCount nif res_err (change nif n).1 _ new (keeps nif n ∙ e))
      ]

  looked_up :
      (name : Text) (n : Netcf W)
      → n.count ≡ c
      → (ncf_lookup_by_name d name n).1.count ≡ count_after (ncf_lookup_by_name d name n).0 c
  unfolding ncf_lookup_by_name
  looked_up name n e =
      s.counts.lookup_count name (api_entry d n) (entry_keeps s.counts n).1
      ∙ ap (count_after (ncf_lookup_by_name d name n).0) (entered n ∙ e)

  looked_up-IsNew : (name : Text) (n : Netcf W) → IsNew (ncf_lookup_by_name d name n).0
  unfolding ncf_lookup_by_name
  looked_up-IsNew name n = s.counts.lookup_new name (api_entry d n) (entry_keeps s.counts n).1

  -- cmd_if_up gives back what it looks up, whether the interface exists and whether it is brought up or not.
  pub if_up_named-KeepsCount :
      (name : Text) (n : Netcf W) → n.count ≡ c → KeepsCount c (if_up_named d read_file name n)
  unfolding if_up_named ncf_if_up
  if_up_named-KeepsCount name n e =
      switch_found-KeepsCount (ncf_if_up d) (λ nif n'. s.up_count nif (api_entry d n') ∙ entered n')
        _ _ name (ncf_lookup_by_name d name n).0 (ncf_lookup_by_name d name n).1
        (looked_up name n e) (looked_up-IsNew name n)

  -- cmd_if_down gives back what it looks up, on all its branches.
  pub if_down_named-KeepsCount :
      (name : Text) (n : Netcf W) → n.count ≡ c → KeepsCount c (if_down_named d read_file name n)
  unfolding if_down_named ncf_if_down
  if_down_named-KeepsCount name n e =
      switch_found-KeepsCount (ncf_if_down d)
        (λ nif n'. s.down_count nif (api_entry d n') ∙ entered n') _ _ name
        (ncf_lookup_by_name d name n).0 (ncf_lookup_by_name d name n).1 (looked_up name n e)
        (looked_up-IsNew name n)

module _ {W : Type 0} {d : Driver W} (s : Steady d) (read_file : W → Text → Option Text) (c : ℕ)
    (held : 0 < c) (room : c + 1 < ref_max) where
  undefine_found-KeepsCount :
      (name : Text) (o : Option NetcfIf) (n : Netcf W)
      → n.count ≡ count_after o c
      → IsNew o
      → KeepsCount c (undefine_found d read_file name (o, n))
  unfolding undefine_found ncf_if_undefine
  undefine_found-KeepsCount name none n e new = e
  undefine_found-KeepsCount name (some nif) n e new =
      let kept =
        s.undefine_count nif (api_entry d n) ∙ entered s.switches read_file c held room n ∙ e in
      elim (Bool-cases (is_neg (ncf_if_undefine d nif n).0)) [
        | inl refused ↦ rw refused (
            freed_then-KeepsCount s.switches read_file c held room nif res_err
              (ncf_if_undefine d nif n).1 _ new kept)
        | inr done ↦ rw done (
            freed_then-KeepsCount s.switches read_file c held room nif res_ok
              (ncf_if_undefine d nif n).1 _ new kept)
      ]

  -- cmd_undefine gives back what it looks up, on all its branches.
  pub undefine_named-KeepsCount :
      (name : Text) (n : Netcf W) → n.count ≡ c → KeepsCount c (undefine_named d read_file name n)
  unfolding undefine_named
  undefine_named-KeepsCount name n e =
      undefine_found-KeepsCount name (ncf_lookup_by_name d name n).0 (ncf_lookup_by_name d name n).1
        (looked_up s.switches read_file c held room name n e)
        (looked_up-IsNew s.switches read_file c held room name n)

  defined-KeepsCount :
      (o : Option NetcfIf) (n : Netcf W)
      → n.count ≡ count_after o c
      → IsNew o
      → KeepsCount c (defined d read_file (o, n))
  unfolding defined ncf_if_name
  defined-KeepsCount none n e new = e
  defined-KeepsCount (some nif) n e new =
      freed_then-KeepsCount s.switches read_file c held room nif res_ok (api_entry d n) _ new
        (entered s.switches read_file c held room n ∙ e)

  -- cmd_define gives back the interface that it defines, on all its branches.
  pub define_file-KeepsCount :
      (fname : Text) (n : Netcf W) → n.count ≡ c → KeepsCount c (define_file d read_file fname n)
  unfolding define_file ncf_define
  define_file-KeepsCount fname n e = elim (Option-cases (read_file n.world fname)) [
    | inl unreadable ↦ rw (unreadable, KeepsCount, define_file) e
    | inr (xml, read) ↦
        rw (read, KeepsCount, define_file)
          (defined-KeepsCount (d.drv_define xml (api_entry d n)).0
            (d.drv_define xml (api_entry d n)).1
            (s.define_count xml (api_entry d n)
              ∙ ap (count_after (d.drv_define xml (api_entry d n)).0)
                  (entered s.switches read_file c held room n ∙ e))
            (s.define_new xml (api_entry d n)))
  ]

  dumped-KeepsCount :
      (xml : Option Text) (nif : NetcfIf) (n : Netcf W)
      → nif.count ≡ 1
      → n.count ≡ ref c
      → KeepsCount c (dumped d read_file ((xml, nif), n))
  unfolding dumped
  dumped-KeepsCount none nif n new e =
      freed_then-KeepsCount s.switches read_file c held room nif res_err n _ new e
  dumped-KeepsCount (some xml) nif n new e =
      freed_then-KeepsCount s.switches read_file c held room nif res_ok n _ new e

  dump_found-KeepsCount :
      (live : Bool) (name : Text) (o : Option NetcfIf) (n : Netcf W)
      → n.count ≡ count_after o c
      → IsNew o
      → KeepsCount c (dump_found d read_file live name (o, n))
  unfolding dump_found ncf_if_xml_state ncf_if_xml_desc
  dump_found-KeepsCount live name none n e new = e
  dump_found-KeepsCount true name (some nif) n e new =
      dumped-KeepsCount _ _ _ (s.state_same nif (api_entry d n) ∙ new)
        (s.state_count nif (api_entry d n) ∙ entered s.switches read_file c held room n ∙ e)
  dump_found-KeepsCount false name (some nif) n e new =
      dumped-KeepsCount _ nif _ new
        (s.desc_count nif (api_entry d n) ∙ entered s.switches read_file c held room n ∙ e)

  -- cmd_dump_xml without --mac gives back what it looks up, on all its branches.
  pub dump_xml_named-KeepsCount :
      (live : Bool) (name : Text) (n : Netcf W)
      → n.count ≡ c
      → KeepsCount c (dump_xml_named d read_file false live name n)
  unfolding dump_xml_named
  dump_xml_named-KeepsCount live name n e =
      dump_found-KeepsCount live name (ncf_lookup_by_name d name n).0
        (ncf_lookup_by_name d name n).1 (looked_up s.switches read_file c held room name n e)
        (looked_up-IsNew s.switches read_file c held room name n)
