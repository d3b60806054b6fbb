-- ===== src/Registry/Scenarios/Confirms.antt =====
-- runtime/src/substratee_registry.rs: the scenarios of a shard's hash and of a request.
use substra_tee_node_pre.Base.{◌≡◌, [], ◌∷◌, ◌++◌, Bytes, Bytes-discrete, arith, ℕ_discrete}
use substra_tee_node_pre.Base.Outcome.{ok}
use substra_tee_node_pre.Storage.{get_or}
use substra_tee_node_pre.Registry.Config.{
  Trait, Request, forwarded, updated_ipfs_hash, call_confirmed,
}
use substra_tee_node_pre.Registry.{State, init, call_worker, confirm_call}
use substra_tee_node_pre.Registry.Shards.{confirmed, confirm_known, confirm_unknown}
use substra_tee_node_pre.Registry.Dispatch.Reach.{deposited}
use substra_tee_node_pre.Registry.Scenarios.{
  Setting, TestEnclave, assert_ok, assert_is_err, update_ipfs_hash_works,
  ipfs_update_from_unregistered_enclave_fails, call_worker_works, Passes,
}
use substra_tee_node_pre.Registry.Scenarios.Steps.{
  done, step, Runs-run_script, Accepted, assert_ok_lem, assert_eq_lem, assert_event_lem,
  any_event-last, any_event-append,
}
use substra_tee_node_pre.Registry.Scenarios.Single.{s1, count1, index1, new, enters1, counts}

module _ (T : Trait) (S : Setting T) (t : TestEnclave T) (a : Accepted T S t S.url) where
  module _ (request_hash ipfs_hash : Bytes) where
    abbrev s4 : State T
    s4 = confirmed T (s1 T S t a) t.signer 1 S.shard request_hash ipfs_hash

    confirms :
        assert_ok T S
          (confirm_call T (S.signed t.signer) S.shard request_hash ipfs_hash)
          (s1 T S t a)
        ≡ (ok tt, s4)
    confirms =
        assert_ok_lem T S (confirm_call T (S.signed t.signer) S.shard request_hash ipfs_hash)
          (s1 T S t a) s4
          (confirm_known T (S.signed t.signer) t.signer S.shard request_hash ipfs_hash (s1 T S t a)
            a.signed 1 (index1 T S t a))

    hash4 : get_or T.ipfs_map s4.latest_ipfs_hash S.shard [] ≡ ipfs_hash
    unfolding confirmed
    hash4 =
        ground
          (arith, T.ipfs_map.get?-insert (s1 T S t a).latest_ipfs_hash S.shard ipfs_hash S.shard)

    worker4 : get_or T.worker_map s4.worker_for_shard S.shard 0 ≡ 1
    unfolding confirmed
    worker4 =
        ground (arith, T.worker_map.get?-insert (s1 T S t a).worker_for_shard S.shard 1 S.shard)

    pub update_ipfs_hash-Passes : Passes T S (update_ipfs_hash_works T S t request_hash ipfs_hash)
    unfolding confirmed
    update_ipfs_hash-Passes =
        let deposited_first = (s1 T S t a).events ++ call_confirmed t.signer request_hash ∷ [] in
        Runs-run_script T S (
          step (enters1 T S t a) (
            step (counts T S t a (s1 T S t a) 1 (count1 T S t a)) (
              step confirms (
                step
                  (assert_eq_lem T S Bytes-discrete
                    (λ s. get_or T.ipfs_map s.latest_ipfs_hash S.shard []) ipfs_hash s4 hash4)
                  (step
                    (assert_eq_lem T S ℕ_discrete
                      (λ s. get_or T.worker_map s.worker_for_shard S.shard 0) 1 s4 worker4)
                    (step
                      (assert_event_lem T S (updated_ipfs_hash S.shard 1 ipfs_hash) s4 (
                        any_event-last T S (updated_ipfs_hash S.shard 1 ipfs_hash) deposited_first))
                      (step
                        (assert_event_lem T S (call_confirmed t.signer request_hash) s4 (
                          any_event-append T S (call_confirmed t.signer request_hash)
                            (updated_ipfs_hash S.shard 1 ipfs_hash) deposited_first
                            (any_event-last T S (call_confirmed t.signer request_hash)
                              (s1 T S t a).events)))
                        done)))))))

    pub ipfs_update-Passes :
        Passes T S (ipfs_update_from_unregistered_enclave_fails T S t ipfs_hash)
    unfolding assert_is_err
    ipfs_update-Passes =
        let refused =
          confirm_unknown T (S.signed t.signer) t.signer S.shard [] ipfs_hash (init T) a.signed
            (new T S t a) in
        Runs-run_script T S (step {t = init T} (ground (arith, refused)) done)

    pub call_worker-Passes : (cyphertext : Bytes) → Passes T S (call_worker_works T S t cyphertext)
    unfolding call_worker assert_ok
    call_worker-Passes cyphertext =
        let req : Request T.ShardIdentifier = record { shard = S.shard; cyphertext = cyphertext } in
        Runs-run_script T S (
          step {t = deposited T (init T) (forwarded req)} (ground (arith, a.signed)) (
            step
              (assert_event_lem T S (forwarded req) (deposited T (init T) (forwarded req))
                (any_event-last T S (forwarded req) (init T).events))
              done))
