-- ===== src/Registry/Dispatch/Reach.antt =====
-- The ends of a call on a valid registry, as a relation.
use substra_tee_node_pre.Base.{
  ℕ, ◌+◌, ◌<◌, ◌≡◌, ◌≢◌, refl, inl, inr, List, [], ◌∷◌, ◌++◌, none, some, Bytes, String, arith,
  word, Option-cases,
}
use substra_tee_node_pre.Base.Outcome.{Outcome, ok, err, returned, failed, faulted, Outcome-Ends}
use substra_tee_node_pre.Base.Exec.{◌>>◌}
use substra_tee_node_pre.Registry.Config.{
  Trait, Enclave, Request, Event, added_enclave, removed_enclave, forwarded,
}
use substra_tee_node_pre.Registry.Checks.{check_registration}
use substra_tee_node_pre.Registry.{
  State, Action, deposit_event, register_enclave, unregister_enclave, call_worker, confirm_call,
  register_verified_enclave, remove_enclave,
}
use substra_tee_node_pre.Registry.Shapes.{
  index_of, enclave_at, enclave_of, updated, added, dropped_last, swapped,
}
use substra_tee_node_pre.Registry.Invariant.{IsValid}
use substra_tee_node_pre.Registry.Outcomes.{
  known, new, full, absent, last, middle, register_verified_enclave-Registers,
  remove_enclave-Removes,
}
use substra_tee_node_pre.Registry.Shards.{confirmed, confirm_known, confirm_unknown}
use substra_tee_node_pre.Registry.Dispatch.{Call, register, unregister, forward, confirm, dispatch}

module _ (T : Trait) where
  abbrev pub Res : Type 0
  Res = Outcome (Unit {0}) × State T

  abbrev pub deposited : State T → Event T.AccountId T.ShardIdentifier → State T
  deposited s e = record s { events = s.events ++ e ∷ [] }

  module _ (m : Action T (Unit {0})) (e : Event T.AccountId T.ShardIdentifier) (s : State T)
      {s' : State T} where
    deposit-after_ok : m s ≡ (ok tt, s') → (m >> deposit_event T e) s ≡ (ok tt, deposited s' e)
    deposit-after_ok p = ground arith

    deposit-after_err : {x : String} → m s ≡ (err x, s') → (m >> deposit_event T e) s ≡ (err x, s')
    deposit-after_err p = ground arith

  -- The ends of a call.
  pub data Step (s : State T) (r : Res) : Type 0 where
    refused : r.0 ≢ ok tt → r.1 ≡ s → Step s r
    renewed :
        (i : ℕ) (e : Enclave T.AccountId)
        → index_of T s e.pubkey ≡ some i
        → r ≡ (ok tt, deposited (updated T s i e) (added_enclave e.pubkey e.url))
        → Step s r
    entered :
        (e : Enclave T.AccountId)
        → index_of T s e.pubkey ≡ none
        → s.enclave_count + 1 < word
        → r ≡ (ok tt, deposited (added T s e) (added_enclave e.pubkey e.url))
        → Step s r
    left_last :
        (a : T.AccountId)
        → index_of T s a ≡ some s.enclave_count
        → r ≡ (ok tt, deposited (dropped_last T s a) (removed_enclave a))
        → Step s r
    left_middle :
        (a : T.AccountId) (i : ℕ) (e : Enclave T.AccountId)
        → index_of T s a ≡ some i
        → enclave_at T s s.enclave_count ≡ some e
        → i ≢ s.enclave_count
        → r ≡ (ok tt, deposited (swapped T s a i e) (removed_enclave a))
        → Step s r
    passed_on :
        (request : Request T.ShardIdentifier)
        → r ≡ (ok tt, deposited s (forwarded request))
        → Step s r
    confirms :
        (a : T.AccountId) (i : ℕ) (shard : T.ShardIdentifier) (call_hash ipfs_hash : Bytes)
        → index_of T s a ≡ some i
        → r ≡ (ok tt, confirmed T s a i shard call_hash ipfs_hash)
        → Step s r

  module _ (s : State T) where
    register_enclave-Step :
        (o : T.Origin) (ra_report : Bytes) (attn : List ℕ) (url : Bytes)
        → Step s (register_enclave T o ra_report attn url s)
    unfolding register_enclave
    register_enclave-Step o ra_report attn url = elim (Outcome-Ends (T.ensure_signed o)) [
      | failed e h ↦ rw h (refused (λ p. cc) refl)
      | faulted x h ↦ rw h (refused (λ p. cc) refl)
      | returned a h ↦ elim (Outcome-Ends (check_registration T a ra_report attn url)) [
        | failed e g ↦ rw (h, g) (refused (λ p. cc) refl)
        | faulted x g ↦ rw (h, g) (refused (λ p. cc) refl)
        | returned report g ↦
            let e = enclave_of T a report url in
            let m = register_verified_enclave T a report url in
            let event = added_enclave a url in
            elim (register_verified_enclave-Registers T s a report url) [
              | known i k p ↦ rw (h, g) (renewed i e k (deposit-after_ok m event s p))
              | new k room p ↦ rw (h, g) (entered e k room (deposit-after_ok m event s p))
              | full k past p ↦ rw (h, g, deposit-after_err m event s p) (refused (λ q. cc) refl)
            ]
      ]
    ]

    unregister_enclave-Step : (o : T.Origin) → IsValid T s → Step s (unregister_enclave T o s)
    unfolding unregister_enclave
    unregister_enclave-Step o v = elim (Outcome-Ends (T.ensure_signed o)) [
      | failed e h ↦ rw h (refused (λ p. cc) refl)
      | faulted x h ↦ rw h (refused (λ p. cc) refl)
      | returned a h ↦
          let m = remove_enclave T a in
          let event = removed_enclave a in
          elim (remove_enclave-Removes T s a v) [
            | absent k p ↦ rw (h, deposit-after_err m event s p) (refused (λ q. cc) refl)
            | last k p ↦ rw h (left_last a k (deposit-after_ok m event s p))
            | middle i e k at ne p ↦ rw h (left_middle a i e k at ne (deposit-after_ok m event s p))
          ]
    ]

    call_worker-Step :
        (o : T.Origin) (request : Request T.ShardIdentifier) → Step s (call_worker T o request s)
    unfolding call_worker
    call_worker-Step o request = elim (Outcome-Ends (T.ensure_signed o)) [
      | failed e h ↦ rw h (refused (λ p. cc) refl)
      | faulted x h ↦ rw h (refused (λ p. cc) refl)
      | returned a h ↦ rw h (passed_on request refl)
    ]

    confirm_call-Step :
        (o : T.Origin) (shard : T.ShardIdentifier) (call_hash ipfs_hash : Bytes)
        → Step s (confirm_call T o shard call_hash ipfs_hash s)
    unfolding confirm_call
    confirm_call-Step o shard call_hash ipfs_hash = elim (Outcome-Ends (T.ensure_signed o)) [
      | failed e h ↦ rw h (refused (λ p. cc) refl)
      | faulted x h ↦ rw h (refused (λ p. cc) refl)
      | returned a h ↦ elim (Option-cases (index_of T s a)) [
        | inl g ↦
            rw (confirm_unknown T o a shard call_hash ipfs_hash s h g) (refused (λ p. cc) refl)
        | inr (i, g) ↦
            confirms a i shard call_hash ipfs_hash g
              (confirm_known T o a shard call_hash ipfs_hash s h i g)
      ]
    ]

    pub dispatch-Step : (o : T.Origin) (c : Call T) → IsValid T s → Step s (dispatch T o c s)
    unfolding dispatch
    dispatch-Step o (register ra_report attn url) v = register_enclave-Step o ra_report attn url
    dispatch-Step o unregister v = unregister_enclave-Step o v
    dispatch-Step o (forward request) v = call_worker-Step o request
    dispatch-Step o (confirm shard call_hash ipfs_hash) v =
        confirm_call-Step o shard call_hash ipfs_hash
