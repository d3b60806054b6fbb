-- ===== src/Registry/Dispatch/Listing.antt =====
-- runtime/src/substratee_registry.rs: the order in which the linked map lists the enclaves.
use substra_tee_node_pre.Base.{
  ℕ, ◌+◌, ◌≡◌, ◌∙◌, refl, List, [], ◌∷◌, none, some, arith, Bytes, inl, inr, Option-cases,
}
use substra_tee_node_pre.Base.Outcome.{
  Outcome, ok, err, fault, Outcome-Ends, returned, failed, faulted,
}
use substra_tee_node_pre.Base.Exec.{◌>>◌}
use substra_tee_node_pre.Storage.Entries.{put, replace, erase, lookup}
use substra_tee_node_pre.Registry.Config.{Trait, Enclave, Event, added_enclave, removed_enclave}
use substra_tee_node_pre.Registry.Checks.{check_registration}
use substra_tee_node_pre.Registry.{
  State, Action, deposit_event, register_enclave, unregister_enclave, call_worker, confirm_call,
  register_verified_enclave, remove_enclave,
}
use substra_tee_node_pre.Registry.Shapes.{
  index_of, enclave_at, enclave_of, updated, added, dropped_last, swapped,
}
use substra_tee_node_pre.Registry.Invariant.{IsValid, entry_of}
use substra_tee_node_pre.Registry.Outcomes.{
  Registers, known, new, full, Removes, absent, last, middle, register_verified_enclave-Registers,
  remove_enclave-Removes,
}
use substra_tee_node_pre.Registry.Shards.{confirmed, confirm_known}
use substra_tee_node_pre.Registry.Dispatch.{Call, register, unregister, forward, confirm, dispatch}

module _ (T : Trait) where
  -- `list_enclaves` of the tests
  abbrev pub list_enclaves : State T → List (ℕ × Enclave T.AccountId)
  list_enclaves s = T.registry_map.enumerate s.enclave_registry

  -- A new enclave comes first, and a known one keeps its place.
  abbrev pub list_register : State T → Enclave T.AccountId → List (ℕ × Enclave T.AccountId)
  list_register s e = elim (index_of T s e.pubkey) [
    | none ↦ (s.enclave_count + 1, e) ∷ list_enclaves s
    | some i ↦ replace T.registry_map.key_eq i e (list_enclaves s)
  ]

  -- The last enclave takes the place of the one that leaves.
  abbrev pub list_remove : State T → T.AccountId → List (ℕ × Enclave T.AccountId)
  list_remove s a = elim (index_of T s a) [
    | none ↦ list_enclaves s
    | some i ↦ elim (enclave_at T s s.enclave_count) [
      | none ↦ list_enclaves s
      | some e ↦
          erase T.registry_map.key_eq s.enclave_count
            (replace T.registry_map.key_eq i e (list_enclaves s))
    ]
  ]

  abbrev pub list_after : State T → T.AccountId → Call T → List (ℕ × Enclave T.AccountId)
  list_after s a (register ra_report attn url) = elim (check_registration T a ra_report attn url) [
    | ok report ↦ list_register s (enclave_of T a report url)
    | err e ↦ list_enclaves s
    | fault x ↦ list_enclaves s
  ]
  list_after s a unregister = list_remove s a
  list_after s a (forward request) = list_enclaves s
  list_after s a (confirm shard call_hash ipfs_hash) = list_enclaves s

  module _ (s : State T) (v : IsValid T s) where
    pub listed_at : (i : ℕ) → lookup T.registry_map.key_eq i (list_enclaves s) ≡ enclave_at T s i
    listed_at i = T.registry_map.lookup-enumerate s.enclave_registry i

    pub list-added :
        (e : Enclave T.AccountId)
        → list_enclaves (added T s e) ≡ (s.enclave_count + 1, e) ∷ list_enclaves s
    unfolding added
    list-added e =
        let free = v.beyond (s.enclave_count + 1) (omega arith) in
        rw (T.registry_map.enumerate-insert, put, listed_at (s.enclave_count + 1), free) refl

    pub list-updated :
        (i : ℕ) (e old : Enclave T.AccountId)
        → enclave_at T s i ≡ some old
        → list_enclaves (updated T s i e) ≡ replace T.registry_map.key_eq i e (list_enclaves s)
    unfolding updated
    list-updated i e old at = rw (T.registry_map.enumerate-insert, put, listed_at i, at) refl

    -- To drop the last enclave is to write it over itself first.
    erase-replace :
        (i : ℕ) (e : Enclave T.AccountId) (l : List (ℕ × Enclave T.AccountId))
        → erase T.registry_map.key_eq i l
          ≡ erase T.registry_map.key_eq i (replace T.registry_map.key_eq i e l)
    erase-replace i e [] = refl
    erase-replace i e ((j, w) ∷ l) = ground (arith, erase-replace i e l)

    pub list-dropped_last :
        (a : T.AccountId)
        → list_enclaves (dropped_last T s a)
          ≡ erase T.registry_map.key_eq s.enclave_count (list_enclaves s)
    unfolding dropped_last
    list-dropped_last a = T.registry_map.enumerate-remove _ _

    pub list-swapped :
        (a : T.AccountId) (i : ℕ) (e old : Enclave T.AccountId)
        → enclave_at T s i ≡ some old
        → list_enclaves (swapped T s a i e)
          ≡ erase T.registry_map.key_eq s.enclave_count
              (replace T.registry_map.key_eq i e (list_enclaves s))
    unfolding swapped
    list-swapped a i e old at =
        rw (T.registry_map.enumerate-remove, T.registry_map.enumerate-insert, put, listed_at i, at)
          refl

    Registers-lists :
        (e : Enclave T.AccountId) {r : Outcome (Unit {0}) × State T}
        → Registers T s e r
        → r.0 ≡ ok tt
        → list_enclaves r.1 ≡ list_register s e
    Registers-lists e (known i h p) ok_here =
        let (old, at, _) = entry_of T s v e.pubkey i h in
        rw (p, list_register, h) (list-updated i e old at)
    Registers-lists e (new h room p) ok_here = rw (p, list_register, h) (list-added e)
    Registers-lists e (full h past p) ok_here = absurd (cc (p, ok_here))

    Removes-lists :
        (a : T.AccountId) {r : Outcome (Unit {0}) × State T}
        → Removes T s a r
        → r.0 ≡ ok tt
        → list_enclaves r.1 ≡ list_remove s a
    Removes-lists a (absent h p) ok_here = rw (p, list_remove, h) refl
    Removes-lists a (last h p) ok_here =
        let (e, at, _) = entry_of T s v a s.enclave_count h in
        rw (p, list_remove, h, at)
          (list-dropped_last a ∙ erase-replace s.enclave_count e (list_enclaves s))
    Removes-lists a (middle i e h at ne p) ok_here =
        let (old, here, _) = entry_of T s v a i h in
        rw (p, list_remove, h, at) (list-swapped a i e old here)

    -- A write that lists this, with its event.
    deposit-lists :
        (m : Action T (Unit {0})) (e : Event T.AccountId T.ShardIdentifier)
        {l : List (ℕ × Enclave T.AccountId)}
        → ((m s).0 ≡ ok tt → list_enclaves (m s).1 ≡ l)
        → ((m >> deposit_event T e) s).0 ≡ ok tt
        → list_enclaves ((m >> deposit_event T e) s).1 ≡ l
    deposit-lists m e lists h = elim (Outcome-Ends (m s).0) [
      | returned _ g ↦ ground (arith, lists g)
      | failed x g ↦ absurd (ground arith)
      | faulted x g ↦ absurd (ground arith)
    ]

    module _ (o : T.Origin) (a : T.AccountId) (signed : T.ensure_signed o ≡ ok a) where
      register-lists :
          (ra_report : Bytes) (attn : List ℕ) (url : Bytes)
          → (register_enclave T o ra_report attn url s).0 ≡ ok tt
          → list_enclaves (register_enclave T o ra_report attn url s).1
            ≡ list_after s a (register ra_report attn url)
      unfolding register_enclave
      register-lists ra_report attn url h =
          elim (Outcome-Ends (check_registration T a ra_report attn url)) [
            | failed e g ↦ absurd (ground arith)
            | faulted x g ↦ absurd (ground arith)
            | returned report g ↦
                let m = register_verified_enclave T a report url in
                let lists =
                  Registers-lists (enclave_of T a report url)
                    (register_verified_enclave-Registers T s a report url) in
                rw (signed, list_after, g)
                  (deposit-lists m (added_enclave a url) lists (rw (signed, g) at h))
          ]

      -- On a valid registry, a call that returns `Ok` leaves this listing: an enclave that is new
      -- comes first, with the next index; one that registers again is written in its place; where
      -- one leaves, the last is written in its place and the last index is dropped; and the other
      -- calls leave the listing as it was.
      pub dispatch-lists :
          (c : Call T)
          → (dispatch T o c s).0 ≡ ok tt
          → list_enclaves (dispatch T o c s).1 ≡ list_after s a c
      unfolding dispatch unregister_enclave call_worker confirm_call confirmed
      dispatch-lists (register ra_report attn url) h = register-lists ra_report attn url h
      dispatch-lists unregister h = rw signed (
          deposit-lists (remove_enclave T a) (removed_enclave a)
            (Removes-lists a (remove_enclave-Removes T s a v)) (rw signed at h))
      dispatch-lists (forward request) h = rw signed refl
      dispatch-lists (confirm shard call_hash ipfs_hash) h = elim (Option-cases (index_of T s a)) [
        | inl g ↦ absurd (ground arith)
        | inr (i, g) ↦ rw (confirm_known T o a shard call_hash ipfs_hash s signed i g) refl
      ]
