-- ===== src/Netcf/Handles.antt =====
-- The life of a handle of src/netcf.c: each interface that is looked up holds a reference to it, and
-- ncf_close refuses while one does.
use fbsd_netcf.Prelude.{
  ℕ, ◌+◌, ◌<◌, ◌≡◌, refl, ap, ◌∙◌, ◌⊎◌, inl, inr, ◌∷◌, [], List, Option, none, some, Text, length,
  arith, pos, negsuc, All, ltb, true, false, ◌-◌,
}
use fbsd_netcf.Ref.{ref_max, ref, unref}
use fbsd_netcf.Netcf.{
  noerror, einuse, Netcf, NetcfIf, Released, left, gone, asserted, failed, set_errcode, release,
}
use fbsd_netcf.Driver.{Driver}
use fbsd_netcf.Netcf.Api.{api_entry, close_entered, ncf_close, ncf_lookup_by_name, ncf_if_free}

-- What a lookup does to the reference count of the handle, by its result.
abbrev pub count_after : Option NetcfIf → ℕ → ℕ
count_after none count = count
count_after (some nif) count = ref count

-- An interface that a lookup gives is new: it has one reference.
abbrev pub IsNew : Option NetcfIf → Type 0
IsNew none = Unit
IsNew (some nif) = nif.count ≡ 1

-- What the functions of Netcf/Api rely on in a backend: on a handle without an error, it takes
-- references to it for the interfaces that it gives out, and for nothing else.
pub record Counts {W : Type 0} (d : Driver W) : Type 0 where
  pub entry_count : (n : Netcf W) → (d.drv_entry n).count ≡ n.count
  pub entry_errcode : (n : Netcf W) → (d.drv_entry n).errcode ≡ n.errcode
  pub close_count : (n : Netcf W) → (d.drv_close n).count ≡ n.count
  pub lookup_count :
      (name : Text) (n : Netcf W)
      → n.errcode ≡ noerror
      → (d.drv_lookup_by_name name n).1.count ≡ count_after (d.drv_lookup_by_name name n).0 n.count
  pub lookup_new :
      (name : Text) (n : Netcf W) → n.errcode ≡ noerror → IsNew (d.drv_lookup_by_name name n).0

-- What a caller that brings interfaces up and down relies on in a backend: it counts, and these functions leave the
-- count of the handle.
pub record Switches {W : Type 0} (d : Driver W) : Type 0 where
  pub counts : Counts d
  pub up_count : (nif : NetcfIf) (n : Netcf W) → (d.drv_if_up nif n).1.count ≡ n.count
  pub down_count : (nif : NetcfIf) (n : Netcf W) → (d.drv_if_down nif n).1.count ≡ n.count

-- A program's calls that concern the references. `free` frees the interface looked up last.
pub data Call : Type 0 where
  lookup : Text → Call
  free : Call
  close : Call

-- A handle and the interfaces that the program holds.
abbrev pub Session : Type 0 → Type 0
Session W = Netcf W × List NetcfIf

-- The handle has a reference for the program and one for each interface, and each of these is new.
pub record IsBalanced {W : Type 0} (s : Session W) : Type 0 where
  pub counted : s.0.count ≡ 1 + length s.1
  pub bounded : s.0.count < ref_max
  pub new : All (λ nif. nif.count ≡ 1) s.1

abbrev looked_up : {W : Type 0} → Option NetcfIf × Netcf W → List NetcfIf → Session W
looked_up (none, n) held = (n, held)
looked_up (some nif, n) held = (n, nif ∷ held)

abbrev still : {W : Type 0} → Released W → List NetcfIf → Option (Session W)
still (left n) held = some (n, held)
still gone held = none
still asserted held = none

module _ {W : Type 0} (d : Driver W) where
  -- One call; `none` if the handle was freed.
  pub call : Call → Session W → Option (Session W)
  call (lookup name) (n, held) = some (looked_up (ncf_lookup_by_name d name n) held)
  call free (n, []) = some (n, [])
  call free (n, nif ∷ held) = still (ncf_if_free nif n).1 held
  call close (n, held) = still (ncf_close d n).1 held

module _ {W : Type 0} {d : Driver W} (c : Counts d) where
  pub entry_keeps :
      (n : Netcf W) → ((api_entry d n).count ≡ n.count) × ((api_entry d n).errcode ≡ noerror)
  unfolding api_entry
  entry_keeps n = ground (
    arith,
    c.entry_count (record n { errcode = noerror; errdetails = none }),
    c.entry_errcode (record n { errcode = noerror; errdetails = none }),
  )

  in_use : (n : Netcf W) → 1 < n.count → close_entered d n ≡ (negsuc 0, left (set_errcode einuse n))
  unfolding close_entered
  in_use n many = let test : ltb 1 n.count ≡ true = ground arith in rw (test, close_entered) refl

  close_one : (n : Netcf W) → n.count ≡ 1 → n.errcode ≡ noerror → close_entered d n ≡ (pos 0, gone)
  unfolding close_entered unref
  close_one n one fresh =
      let alone : ltb 1 n.count ≡ false = ground arith in
      let ok : failed n ≡ false = rw fresh refl in
      let last : (d.drv_close n).count ≡ 1 = rw (c.close_count n) one in
      rw (alone, close_entered) (rw ok (rw (last, release) refl))

  -- Over a backend that counts its references: while interfaces are held, ncf_close gives -1 and EINUSE and leaves the count; otherwise it gives
  -- 0 and the handle is freed.
  pub ncf_close_lem :
      (n : Netcf W) (held : List NetcfIf)
      → IsBalanced (n, held)
      → ((held ≡ []) × (ncf_close d n ≡ (pos 0, gone)))
        ⊎ ((n' : Netcf W) × (ncf_close d n ≡ (negsuc 0, left n'))
            × (n'.errcode ≡ einuse)
            × (n'.count ≡ n.count))
  unfolding ncf_close set_errcode
  ncf_close_lem n [] b = inl (
    refl,
    close_one (api_entry d n) (omega (arith, b.counted, (entry_keeps n).0)) (entry_keeps n).1,
  )
  ncf_close_lem n (nif ∷ held) b = inr (
    set_errcode einuse (api_entry d n),
    in_use (api_entry d n) (omega (arith, b.counted, (entry_keeps n).0)),
    refl,
    (entry_keeps n).0,
  )

  looked_up-IsBalanced :
      (r : Option NetcfIf × Netcf W) (n : Netcf W) (held : List NetcfIf)
      → r.1.count ≡ count_after r.0 n.count
      → IsNew r.0
      → IsBalanced (n, held)
      → n.count + 1 < ref_max
      → IsBalanced (looked_up r held)
  unfolding ref
  looked_up-IsBalanced (none, n') n held e new b room = ground arith
  looked_up-IsBalanced (some nif, n') n held e new b room = ground arith

  pub free_one :
      (nif : NetcfIf) (n : Netcf W)
      → nif.count ≡ 1
      → 1 < n.count
      → n.count < ref_max
      → (ncf_if_free nif n).1 ≡ left (record n { count = n.count - 1 })
  unfolding ncf_if_free release unref
  free_one nif n one many room = ground arith

  -- Over a backend that counts its references, a call that does not free the handle leaves it with the right count, as long as the count cannot
  -- pin it; only ncf_close frees it, and only when no interface is held.
  pub call-IsBalanced :
      (k : Call) (s : Session W)
      → IsBalanced s
      → s.0.count + 1 < ref_max
      → ((s' : Session W) × (call d k s ≡ some s') × IsBalanced s')
        ⊎ ((k ≡ close) × (s.1 ≡ []) × (call d k s ≡ none))
  unfolding call ncf_lookup_by_name
  call-IsBalanced (lookup name) (n, held) b room =
      let found = ncf_lookup_by_name d name n in
      let counted : found.1.count ≡ count_after found.0 n.count =
        c.lookup_count name (api_entry d n) (entry_keeps n).1
        ∙ ap (count_after found.0) (entry_keeps n).0 in
      inl (
        looked_up found held,
        refl,
        looked_up-IsBalanced found n held counted
            (c.lookup_new name (api_entry d n) (entry_keeps n).1) b room,
      )
  call-IsBalanced free (n, []) b room = inl ((n, []), refl, b)
  call-IsBalanced free (n, nif ∷ held) b room = inl (
    (record n { count = n.count - 1 }, held),
    rw (free_one nif n b.new.0 (omega (arith, b.counted)) b.bounded) refl,
    record {
      counted = omega (arith, b.counted);
      bounded = omega (arith, b.bounded);
      new = b.new.1;
    },
  )
  call-IsBalanced close (n, held) b room = elim (ncf_close_lem n held b) [
    | inl (none_held, freed_it) ↦ inr (refl, none_held, rw freed_it refl)
    | inr (n', refused, _, same) ↦ inl (
      (n', held),
      rw refused refl,
      record { counted = same ∙ b.counted; bounded = rw same b.bounded; new = b.new },
    )
  ]
