-- ===== src/Registry/Dispatch/Workers.antt =====
-- runtime/src/substratee_registry.rs: the state hash and the worker of each shard.
use substra_tee_node_pre.Base.{
  ℕ, ◌≡◌, ◌≢◌, ap, ◌∙◌, Option, none, some, List, Bytes, arith, Option-cases, inl, inr, ite,
}
use substra_tee_node_pre.Base.Outcome.{ok, err, fault, Outcome-Ends, returned, failed, faulted}
use substra_tee_node_pre.Registry.Config.{Trait, Enclave}
use substra_tee_node_pre.Registry.{
  State, register_enclave, unregister_enclave, call_worker, confirm_call, register_verified_enclave,
  remove_enclave,
}
use substra_tee_node_pre.Registry.Shapes.{remove_middle, index_of, enclave_at, swapped}
use substra_tee_node_pre.Registry.Invariant.{IsValid, index_bounds}
use substra_tee_node_pre.Registry.Dispatch.{Call, register, unregister, forward, confirm, dispatch}

module _ (T : Trait) where
  abbrev pub hash_of : State T → T.ShardIdentifier → Option Bytes
  hash_of s shard = T.ipfs_map.get? s.latest_ipfs_hash shard

  abbrev pub worker_of : State T → T.ShardIdentifier → Option ℕ
  worker_of s shard = T.worker_map.get? s.worker_for_shard shard

  -- The index of the registered account that has signed.
  abbrev pub signing_worker : State T → T.Origin → Option ℕ
  signing_worker s o = elim (T.ensure_signed o) [
    | ok a ↦ index_of T s a
    | err e ↦ none
    | fault x ↦ none
  ]

  -- The hash and the worker of a shard after a call.
  abbrev pub hash_after : State T → T.Origin → Call T → T.ShardIdentifier → Option Bytes
  hash_after s o (confirm shard call_hash ipfs_hash) at = elim (signing_worker s o) [
    | none ↦ hash_of s at
    | some i ↦ ite (T.ipfs_map.key_eq shard at) (some ipfs_hash) (hash_of s at)
  ]
  hash_after s o c at = hash_of s at

  abbrev pub worker_after : State T → T.Origin → Call T → T.ShardIdentifier → Option ℕ
  worker_after s o (confirm shard call_hash ipfs_hash) at = elim (signing_worker s o) [
    | none ↦ worker_of s at
    | some i ↦ ite (T.worker_map.key_eq shard at) (some i) (worker_of s at)
  ]
  worker_after s o c at = worker_of s at

  -- Two storages with the same hashes and workers.
  abbrev SameShards : State T → State T → Type 0
  SameShards s t =
      (t.latest_ipfs_hash ≡ s.latest_ipfs_hash) × (t.worker_for_shard ≡ s.worker_for_shard)

  module _ (s : State T) where
    register-SameShards :
        (o : T.Origin) (ra_report : Bytes) (attn : List ℕ) (url : Bytes)
        → SameShards s (register_enclave T o ra_report attn url s).1
    unfolding register_enclave register_verified_enclave
    register-SameShards o ra_report attn url = (ground arith, ground arith)

    unregister-SameShards : (o : T.Origin) → SameShards s (unregister_enclave T o s).1
    unfolding unregister_enclave remove_enclave
    unregister-SameShards o = (ground arith, ground arith)

    call_worker-SameShards :
        (o : T.Origin) (request : _) → SameShards s (call_worker T o request s).1
    unfolding call_worker
    call_worker-SameShards o request = (ground arith, ground arith)

    confirm_worker :
        (o : T.Origin) (shard : T.ShardIdentifier) (call_hash ipfs_hash : Bytes)
        (at : T.ShardIdentifier)
        → worker_of (confirm_call T o shard call_hash ipfs_hash s).1 at
          ≡ worker_after s o (confirm shard call_hash ipfs_hash) at
    unfolding confirm_call
    confirm_worker o shard call_hash ipfs_hash at = elim (Outcome-Ends (T.ensure_signed o)) [
      | failed e h ↦ ground arith
      | faulted x h ↦ ground arith
      | returned a h ↦ elim (Option-cases (index_of T s a)) [
        | inl g ↦ ground arith
        | inr (i, g) ↦ ground (arith, T.worker_map.get?-insert s.worker_for_shard shard i at)
      ]
    ]

    -- After any call, the state hash and the worker of a shard are what they were, except after a
    -- confirmation for that shard which an account with an index has signed: then the hash is the
    -- one that the call carries, and the worker is that index.
    pub dispatch-shards :
        (o : T.Origin) (c : Call T) (at : T.ShardIdentifier)
        → (hash_of (dispatch T o c s).1 at ≡ hash_after s o c at)
          × (worker_of (dispatch T o c s).1 at ≡ worker_after s o c at)
    unfolding dispatch confirm_call
    dispatch-shards o (register ra_report attn url) at =
        let (hashes, workers) = register-SameShards o ra_report attn url in
        (ap (λ m. T.ipfs_map.get? m at) hashes, ap (λ m. T.worker_map.get? m at) workers)
    dispatch-shards o unregister at =
        let (hashes, workers) = unregister-SameShards o in
        (ap (λ m. T.ipfs_map.get? m at) hashes, ap (λ m. T.worker_map.get? m at) workers)
    dispatch-shards o (forward request) at =
        let (hashes, workers) = call_worker-SameShards o request in
        (ap (λ m. T.ipfs_map.get? m at) hashes, ap (λ m. T.worker_map.get? m at) workers)
    dispatch-shards o (confirm shard call_hash ipfs_hash) at = (
      ground (arith, T.ipfs_map.get?-insert s.latest_ipfs_hash shard ipfs_hash at),
      confirm_worker o shard call_hash ipfs_hash at,
    )

    handed_on :
        (o : T.Origin) (a : T.AccountId) (i : ℕ) (e : Enclave T.AccountId)
        → T.ensure_signed o ≡ ok a
        → remove_enclave T a s ≡ (ok tt, swapped T s a i e)
        → i ≢ s.enclave_count
        → enclave_at T (dispatch T o unregister s).1 i ≡ some e
    unfolding dispatch unregister_enclave swapped
    handed_on o a i e signed removed inner =
        let m = s.enclave_registry in
        ground (
          arith,
          T.registry_map.get?-remove (T.registry_map.insert m i e) s.enclave_count i,
          T.registry_map.get?-insert m i e i,
        )

    -- In a valid registry, when an enclave unregisters whose index is not the last, a shard whose
    -- worker it was keeps that index, and the index then holds the enclave of another account.
    pub worker_after_unregister :
        (o : T.Origin) (a : T.AccountId) (i : ℕ) (shard : T.ShardIdentifier)
        → IsValid T s
        → T.ensure_signed o ≡ ok a
        → index_of T s a ≡ some i
        → i ≢ s.enclave_count
        → worker_of s shard ≡ some i
        → (worker_of (dispatch T o unregister s).1 shard ≡ some i)
          × (e : Enclave T.AccountId) × (enclave_at T (dispatch T o unregister s).1 i ≡ some e)
          × (e.pubkey ≢ a)
    worker_after_unregister o a i shard v signed at inner worked =
        let n = s.enclave_count in
        let bounds = index_bounds T s v a i at in
        elim (Option-cases (enclave_at T s n)) [
          | inl hole ↦ absurd (v.filled n (omega arith) (omega arith) hole)
          | inr (e, at_last) ↦ (
            (dispatch-shards o unregister shard).1 ∙ worked,
            e,
            handed_on o a i e signed (remove_middle T a s i e at at_last (omega arith) v.fits inner)
                inner,
            λ same. ground (arith, v.indexed a n),
          )
        ]
