-- ===== src/Registry/Directory/Refinement.antt =====
-- The specification of the calls on a directory, and how the pallet relates to it.
use substra_tee_node_pre.Base.{
  ℕ, List, Bytes, ◌+◌, ◌≡◌, refl, Bool, true, false, none, some, arith, word, ltb, Option-cases,
  inl, inr, if◌then◌else◌,
}
use substra_tee_node_pre.Base.Outcome.{
  Outcome, ok, err, ensure, returned, failed, faulted, Outcome-Ends,
}
use substra_tee_node_pre.Base.Exec.{Exec, pure, lift, gets, ◌>>=◌, ◌>>◌}
use substra_tee_node_pre.Registry.Config.{
  Trait, Enclave, Request, Event, added_enclave, removed_enclave,
}
use substra_tee_node_pre.Registry.Checks.{check_registration}
use substra_tee_node_pre.Registry.{
  State, Action, deposit_event, register_enclave, unregister_enclave, call_worker, confirm_call,
  register_verified_enclave, remove_enclave,
}
use substra_tee_node_pre.Registry.Shapes.{enclave_of, index_of}
use substra_tee_node_pre.Registry.Invariant.{IsValid}
use substra_tee_node_pre.Registry.Shards.{confirmed, confirm_known, confirm_unknown}
use substra_tee_node_pre.Registry.Outcomes.{
  overflow, unknown, Registers, known, new, full, Removes, absent, last, middle,
  register_verified_enclave-Registers, remove_enclave-Removes,
}
use substra_tee_node_pre.Registry.Dispatch.{Call, register, unregister, forward, confirm, dispatch}
use substra_tee_node_pre.Registry.Directory.{
  Directory, view, register_in, remove_from, view_absent, view_present, view-updated, view-added,
  view-dropped_last, view-swapped,
}

module _ (T : Trait) where
  -- A known account may always register anew; a new one only while an index is left.
  abbrev pub spec_register : Bool → Enclave T.AccountId → Exec (Directory T) (Unit {0})
  spec_register room e d = elim (d e.pubkey) [
    | some _ ↦ (ok tt, register_in T d e)
    | none ↦ if room then (ok tt, register_in T d e) else (err overflow, d)
  ]

  abbrev pub spec_remove : T.AccountId → Exec (Directory T) (Unit {0})
  spec_remove a d = elim (d a) [ some _ ↦ (ok tt, remove_from T d a) | none ↦ (err unknown, d) ]

  abbrev pub registered : T.AccountId → Directory T → Bool
  registered a d = elim (d a) [ none ↦ false | some _ ↦ true ]

  abbrev pub spec_dispatch : Bool → T.Origin → Call T → Exec (Directory T) (Unit {0})
  spec_dispatch room origin (register ra_report ra_signer_attn worker_url) = do
    sender ← lift (T.ensure_signed origin)
    report ← lift (check_registration T sender ra_report ra_signer_attn worker_url)
    spec_register room (enclave_of T sender report worker_url)
  spec_dispatch room origin unregister = do
    sender ← lift (T.ensure_signed origin)
    spec_remove sender
  spec_dispatch room origin (forward request) = do sender ← lift (T.ensure_signed origin); pure tt
  spec_dispatch room origin (confirm shard call_hash ipfs_hash) = do
    sender ← lift (T.ensure_signed origin)
    is_known ← gets (registered sender)
    lift (
        ensure is_known
          "[SubstraTEERegistry]: IPFS state update requested by enclave that is not registered")

  -- Whether an index is left for a new account.
  abbrev pub has_room : State T → Bool
  has_room s = ltb (s.enclave_count + 1) word

  -- One end stands for another: the same outcome, and a storage with that view.
  abbrev pub Implements : Outcome (Unit {0}) × State T → Outcome (Unit {0}) × Directory T → Type 0
  Implements r d = (r.0 ≡ d.0) × ((b : T.AccountId) → view T r.1 b ≡ d.1 b)

  -- An event does not change the directory.
  deposited-Implements :
      (m : Action T (Unit {0})) (e : Event T.AccountId T.ShardIdentifier) (s : State T)
      (d : Outcome (Unit {0}) × Directory T)
      → Implements (m s) d
      → Implements ((m >> deposit_event T e) s) d
  unfolding view
  deposited-Implements m e s d (same, views) = elim (Outcome-Ends (m s).0) [
    | returned _ h ↦ (ground arith, λ b. ground (arith, views b))
    | failed x h ↦ (ground arith, λ b. ground (arith, views b))
    | faulted x h ↦ (ground arith, λ b. ground (arith, views b))
  ]

  module _ (s : State T) (v : IsValid T s) where
    Registers-Implements :
        (e : Enclave T.AccountId) {r : Outcome (Unit {0}) × State T}
        → Registers T s e r
        → Implements r (spec_register (has_room s) e (view T s))
    Registers-Implements e (known i h p) =
        let (old, at, _) = view_present T s v e.pubkey i h in
        rw p (ground (arith, at), λ b. ground (arith, at, view-updated T s v i e h b))
    Registers-Implements e (new h room p) =
        let at = view_absent T s v e.pubkey h in
        rw p (ground (arith, at), λ b. ground (arith, at, view-added T s v e h b))
    Registers-Implements e (full h past p) =
        let at = view_absent T s v e.pubkey h in rw p (ground (arith, at), λ b. ground (arith, at))

    Removes-Implements :
        (a : T.AccountId) {r : Outcome (Unit {0}) × State T}
        → Removes T s a r
        → Implements r (spec_remove a (view T s))
    Removes-Implements a (absent h p) =
        let at = view_absent T s v a h in rw p (ground (arith, at), λ b. ground (arith, at))
    Removes-Implements a (last h p) =
        let (e, at, _) = view_present T s v a s.enclave_count h in
        rw p (ground (arith, at), λ b. ground (arith, at, view-dropped_last T s v a h b))
    Removes-Implements a (middle i e h at ne p) =
        let (old, here, _) = view_present T s v a i h in
        rw p (ground (arith, here), λ b. ground (arith, here, view-swapped T s v a i e h at ne b))

    register-Implements :
        (o : T.Origin) (ra_report : Bytes) (attn : List ℕ) (url : Bytes)
        → Implements
            (register_enclave T o ra_report attn url s)
            (spec_dispatch (has_room s) o (register ra_report attn url) (view T s))
    unfolding register_enclave view
    register-Implements o ra_report attn url = elim (Outcome-Ends (T.ensure_signed o)) [
      | failed e h ↦ rw h (refl, λ b. refl)
      | faulted x h ↦ rw h (refl, λ b. refl)
      | returned a h ↦ elim (Outcome-Ends (check_registration T a ra_report attn url)) [
        | failed e g ↦ rw (h, g) (refl, λ b. refl)
        | faulted x g ↦ rw (h, g) (refl, λ b. refl)
        | returned report g ↦
            rw (h, g)
              (deposited-Implements (register_verified_enclave T a report url) (added_enclave a url)
                s _
                (Registers-Implements (enclave_of T a report url)
                  (register_verified_enclave-Registers T s a report url)))
      ]
    ]

    unregister-Implements :
        (o : T.Origin)
        → Implements (unregister_enclave T o s) (spec_dispatch (has_room s) o unregister (view T s))
    unfolding unregister_enclave
    unregister-Implements o = elim (Outcome-Ends (T.ensure_signed o)) [
      | failed e h ↦ rw h (refl, λ b. refl)
      | faulted x h ↦ rw h (refl, λ b. refl)
      | returned a h ↦ rw h (
          deposited-Implements (remove_enclave T a) (removed_enclave a) s _
            (Removes-Implements a (remove_enclave-Removes T s a v)))
    ]

    call_worker-Implements :
        (o : T.Origin) (request : Request T.ShardIdentifier)
        → Implements
            (call_worker T o request s)
            (spec_dispatch (has_room s) o (forward request) (view T s))
    unfolding call_worker view
    call_worker-Implements o request = (ground arith, λ b. ground arith)

    confirm_call-Implements :
        (o : T.Origin) (shard : T.ShardIdentifier) (call_hash ipfs_hash : Bytes)
        → Implements
            (confirm_call T o shard call_hash ipfs_hash s)
            (spec_dispatch (has_room s) o (confirm shard call_hash ipfs_hash) (view T s))
    unfolding confirm_call confirmed view
    confirm_call-Implements o shard call_hash ipfs_hash = elim (Outcome-Ends (T.ensure_signed o)) [
      | failed e h ↦ rw h (refl, λ b. refl)
      | faulted x h ↦ rw h (refl, λ b. refl)
      | returned a h ↦ elim (Option-cases (index_of T s a)) [
        | inl g ↦
            let at = view_absent T s v a g in
            rw (confirm_unknown T o a shard call_hash ipfs_hash s h g, h)
              (ground (arith, at), λ b. ground (arith, at))
        | inr (i, g) ↦
            let (e, at, _) = view_present T s v a i g in
            rw (confirm_known T o a shard call_hash ipfs_hash s h i g, h)
              (ground (arith, at), λ b. ground (arith, at))
      ]
    ]

    -- In a valid registry every call has the outcome that the specification has on the directory
    -- of the storage, and leaves a storage with the directory that the specification leaves.
    pub dispatch-Implements :
        (o : T.Origin) (c : Call T)
        → Implements (dispatch T o c s) (spec_dispatch (has_room s) o c (view T s))
    unfolding dispatch
    dispatch-Implements o (register ra_report attn url) = register-Implements o ra_report attn url
    dispatch-Implements o unregister = unregister-Implements o
    dispatch-Implements o (forward request) = call_worker-Implements o request
    dispatch-Implements o (confirm shard call_hash ipfs_hash) =
        confirm_call-Implements o shard call_hash ipfs_hash
