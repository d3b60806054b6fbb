-- ===== src/Registry/Shards.antt =====
-- `confirm_call`: the latest hash of each shard and the worker that confirmed it.
use substra_tee_node_pre.Base.{ℕ, ◌≡◌, [], ◌∷◌, ◌++◌, none, some, Bytes, String, arith}
use substra_tee_node_pre.Base.Outcome.{ok, err}
use substra_tee_node_pre.Registry.Config.{Trait, call_confirmed, updated_ipfs_hash}
use substra_tee_node_pre.Registry.{State, confirm_call}
use substra_tee_node_pre.Registry.Shapes.{index_of}

abbrev pub not_registered : String
not_registered =
    "[SubstraTEERegistry]: IPFS state update requested by enclave that is not registered"

module _ (T : Trait) where
  unfoldable pub confirmed : State T → T.AccountId → ℕ → T.ShardIdentifier → Bytes → Bytes → State T
  confirmed s a i shard call_hash ipfs_hash = record s {
    latest_ipfs_hash = T.ipfs_map.insert s.latest_ipfs_hash shard ipfs_hash;
    worker_for_shard = T.worker_map.insert s.worker_for_shard shard i;
    events =
        (s.events ++ call_confirmed a call_hash ∷ []) ++ updated_ipfs_hash shard i ipfs_hash ∷ [];
  }

  module _ (o : T.Origin) (a : T.AccountId) (shard : T.ShardIdentifier)
      (call_hash ipfs_hash : Bytes) (s : State T) (signed : T.ensure_signed o ≡ ok a) where
    pub confirm_known :
        (i : ℕ)
        → index_of T s a ≡ some i
        → confirm_call T o shard call_hash ipfs_hash s
          ≡ (ok tt, confirmed s a i shard call_hash ipfs_hash)
    unfolding confirm_call confirmed
    confirm_known i h = ground arith

    pub confirm_unknown :
        index_of T s a ≡ none
        → confirm_call T o shard call_hash ipfs_hash s ≡ (err not_registered, s)
    unfolding confirm_call
    confirm_unknown h = ground arith
