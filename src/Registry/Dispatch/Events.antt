-- ===== src/Registry/Dispatch/Events.antt =====
-- runtime/src/substratee_registry.rs: the events that the calls deposit.
use mathlib.Core.List.{append_assoc}
use substra_tee_node_pre.Base.{
  ℕ, ◌≡◌, refl, List, [], ◌∷◌, ◌++◌, some, Bytes, arith, Option-cases, inl, inr,
}
use substra_tee_node_pre.Base.Outcome.{Outcome, ok, Outcome-Ends, returned, failed, faulted}
use substra_tee_node_pre.Base.Exec.{◌>>◌}
use substra_tee_node_pre.Storage.{get_or}
use substra_tee_node_pre.Registry.Checks.{check_registration}
use substra_tee_node_pre.Registry.Config.{
  Trait, Event, added_enclave, removed_enclave, updated_ipfs_hash, forwarded, call_confirmed,
}
use substra_tee_node_pre.Registry.{
  State, Action, deposit_event, register_enclave, unregister_enclave, call_worker, confirm_call,
  register_verified_enclave, remove_enclave,
}
use substra_tee_node_pre.Registry.Shapes.{index_of, updated, added, dropped_last, swapped}
use substra_tee_node_pre.Registry.Invariant.{IsValid}
use substra_tee_node_pre.Registry.Outcomes.{
  Registers, known, new, full, Removes, absent, last, middle, register_verified_enclave-Registers,
  remove_enclave-Removes,
}
use substra_tee_node_pre.Registry.Shards.{confirmed, confirm_known}
use substra_tee_node_pre.Registry.Dispatch.{Call, register, unregister, forward, confirm, dispatch}

module _ (T : Trait) where
  -- The events of a call that succeeds, signed by an account with this index.
  abbrev pub events_of : T.AccountId → ℕ → Call T → List (Event T.AccountId T.ShardIdentifier)
  events_of a index (register ra_report ra_signer_attn worker_url) = added_enclave a worker_url ∷ []
  events_of a index unregister = removed_enclave a ∷ []
  events_of a index (forward request) = forwarded request ∷ []
  events_of a index (confirm shard call_hash ipfs_hash) =
      call_confirmed a call_hash ∷ updated_ipfs_hash shard index ipfs_hash ∷ []

  -- A call that somebody has signed and that has deposited just its events.
  pub record Deposits (s : State T) (o : T.Origin) (c : Call T) (after : State T) : Type 0 where
    pub signer : T.AccountId
    pub signed : T.ensure_signed o ≡ ok signer
    pub appended :
        after.events ≡ s.events ++ events_of signer (get_or T.index_map s.enclave_index signer 0) c

  module _ (s : State T) where
    Registers-events :
        {e : _} {r : Outcome (Unit {0}) × State T} → Registers T s e r → r.1.events ≡ s.events
    unfolding updated added
    Registers-events (known i h p) = rw p refl
    Registers-events (new h room p) = rw p refl
    Registers-events (full h past p) = rw p refl

    Removes-events :
        {a : T.AccountId} {r : Outcome (Unit {0}) × State T}
        → Removes T s a r
        → r.1.events ≡ s.events
    unfolding dropped_last swapped
    Removes-events (absent h p) = rw p refl
    Removes-events (last h p) = rw p refl
    Removes-events (middle i e h at ne p) = rw p refl

    deposit-events :
        (m : Action T (Unit {0})) (e : Event T.AccountId T.ShardIdentifier)
        → (m s).1.events ≡ s.events
        → ((m >> deposit_event T e) s).0 ≡ ok tt
        → ((m >> deposit_event T e) s).1.events ≡ s.events ++ e ∷ []
    deposit-events m e same h = elim (Outcome-Ends (m s).0) [
      | returned _ g ↦ ground (arith, same)
      | failed x g ↦ absurd (ground arith)
      | faulted x g ↦ absurd (ground arith)
    ]

    register-Deposits :
        (o : T.Origin) (ra_report : Bytes) (attn : List ℕ) (url : Bytes)
        → (register_enclave T o ra_report attn url s).0 ≡ ok tt
        → Deposits s o (register ra_report attn url) (register_enclave T o ra_report attn url s).1
    unfolding register_enclave
    register-Deposits o ra_report attn url p = elim (Outcome-Ends (T.ensure_signed o)) [
      | failed e h ↦ absurd (ground arith)
      | faulted x h ↦ absurd (ground arith)
      | returned a h ↦ elim (Outcome-Ends (check_registration T a ra_report attn url)) [
        | failed e g ↦ absurd (ground arith)
        | faulted x g ↦ absurd (ground arith)
        | returned report g ↦
            let m = register_verified_enclave T a report url in
            let kept = Registers-events (register_verified_enclave-Registers T s a report url) in
            record {
              signer = a;
              signed = h;
              appended = rw (h, g) (deposit-events m (added_enclave a url) kept (rw (h, g) at p));
            }
      ]
    ]

    unregister-Deposits :
        (o : T.Origin)
        → IsValid T s
        → (unregister_enclave T o s).0 ≡ ok tt
        → Deposits s o unregister (unregister_enclave T o s).1
    unfolding unregister_enclave
    unregister-Deposits o v p = elim (Outcome-Ends (T.ensure_signed o)) [
      | failed e h ↦ absurd (ground arith)
      | faulted x h ↦ absurd (ground arith)
      | returned a h ↦
          let m = remove_enclave T a in
          let kept = Removes-events (remove_enclave-Removes T s a v) in
          record {
            signer = a;
            signed = h;
            appended = rw h (deposit-events m (removed_enclave a) kept (rw h at p));
          }
    ]

    call_worker-Deposits :
        (o : T.Origin) (request : _)
        → (call_worker T o request s).0 ≡ ok tt
        → Deposits s o (forward request) (call_worker T o request s).1
    unfolding call_worker
    call_worker-Deposits o request p = elim (Outcome-Ends (T.ensure_signed o)) [
      | failed e h ↦ absurd (ground arith)
      | faulted x h ↦ absurd (ground arith)
      | returned a h ↦ record { signer = a; signed = h; appended = rw h refl }
    ]

    confirmed-events :
        (a : T.AccountId) (i : ℕ) (shard : T.ShardIdentifier) (call_hash ipfs_hash : Bytes)
        → index_of T s a ≡ some i
        → (confirmed T s a i shard call_hash ipfs_hash).events
          ≡ s.events
            ++ events_of a
                (get_or T.index_map s.enclave_index a 0)
                (confirm shard call_hash ipfs_hash)
    unfolding confirmed
    confirmed-events a i shard call_hash ipfs_hash g = rw (g, get_or) (append_assoc s.events _ _)

    confirm_call-Deposits :
        (o : T.Origin) (shard : T.ShardIdentifier) (call_hash ipfs_hash : Bytes)
        → (confirm_call T o shard call_hash ipfs_hash s).0 ≡ ok tt
        → Deposits s o
            (confirm shard call_hash ipfs_hash)
            (confirm_call T o shard call_hash ipfs_hash s).1
    unfolding confirm_call
    confirm_call-Deposits o shard call_hash ipfs_hash p = elim (Outcome-Ends (T.ensure_signed o)) [
      | failed e h ↦ absurd (ground arith)
      | faulted x h ↦ absurd (ground arith)
      | returned a h ↦ elim (Option-cases (index_of T s a)) [
        | inl g ↦ absurd (ground arith)
        | inr (i, g) ↦
            let done = confirm_known T o a shard call_hash ipfs_hash s h i g in
            record {
              signer = a;
              signed = h;
              appended = rw done (confirmed-events a i shard call_hash ipfs_hash g);
            }
      ]
    ]

    -- A call that returns `Ok` on a valid registry was signed, and has appended exactly its own
    -- events. A confirmation reports the index that its signer had.
    pub dispatch-Deposits :
        (o : T.Origin) (c : Call T)
        → IsValid T s
        → (dispatch T o c s).0 ≡ ok tt
        → Deposits s o c (dispatch T o c s).1
    unfolding dispatch
    dispatch-Deposits o (register ra_report attn url) v = register-Deposits o ra_report attn url
    dispatch-Deposits o unregister v = unregister-Deposits o v
    dispatch-Deposits o (forward request) v = call_worker-Deposits o request
    dispatch-Deposits o (confirm shard call_hash ipfs_hash) v =
        confirm_call-Deposits o shard call_hash ipfs_hash
