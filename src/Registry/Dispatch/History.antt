-- ===== src/Registry/Dispatch/History.antt =====
-- runtime/src/substratee_registry.rs: sequences of calls by any origins.
use substra_tee_node_pre.Base.{◌≡◌, ◌≢◌, List, []}
use substra_tee_node_pre.Base.Outcome.{ok}
use substra_tee_node_pre.Registry.Config.{Trait, Event}
use substra_tee_node_pre.Registry.{State, init}
use substra_tee_node_pre.Registry.Invariant.{
  IsValid, init-IsValid, updated-IsValid, added-IsValid, dropped_last-IsValid, swapped-IsValid,
}
use substra_tee_node_pre.Registry.Shards.{confirmed}
use substra_tee_node_pre.Registry.Dispatch.{Call, dispatch}
use substra_tee_node_pre.Registry.Dispatch.Reach.{
  Res, Step, refused, renewed, entered, left_last, left_middle, passed_on, confirms, dispatch-Step,
}

module _ (T : Trait) where
  -- Events, hashes and workers have no part in the invariant.
  abbrev with_rest :
      State T
      → T.ipfs_map.Map
      → T.worker_map.Map
      → List (Event T.AccountId T.ShardIdentifier)
      → State T
  with_rest s hashes workers events = record s {
    latest_ipfs_hash = hashes;
    worker_for_shard = workers;
    events = events;
  }

  with_rest-IsValid :
      (s : State T) (h : T.ipfs_map.Map) (w : T.worker_map.Map)
      (es : List (Event T.AccountId T.ShardIdentifier))
      → IsValid T s
      → IsValid T (with_rest s h w es)
  with_rest-IsValid s h w es v = record {
    owned = v.owned;
    indexed = v.indexed;
    filled = v.filled;
    beyond = v.beyond;
    zero_free = v.zero_free;
    fits = v.fits;
    listed = v.listed;
  }

  Step-IsValid : {s : State T} {r : Res T} → IsValid T s → Step T s r → IsValid T r.1
  unfolding confirmed
  Step-IsValid v (refused ne same) = rw same v
  Step-IsValid {s} v (renewed i e h p) =
      rw p (with_rest-IsValid _ _ _ _ (updated-IsValid T s v i e h))
  Step-IsValid {s} v (entered e h room p) =
      rw p (with_rest-IsValid _ _ _ _ (added-IsValid T s v e h room))
  Step-IsValid {s} v (left_last a h p) =
      rw p (with_rest-IsValid _ _ _ _ (dropped_last-IsValid T s v a h))
  Step-IsValid {s} v (left_middle a i e h at ne p) =
      rw p (with_rest-IsValid _ _ _ _ (swapped-IsValid T s v a i e h at ne))
  Step-IsValid {s} v (passed_on request p) = rw p (with_rest-IsValid s _ _ _ v)
  Step-IsValid {s} v (confirms a i shard call_hash ipfs_hash h p) =
      rw p (with_rest-IsValid s _ _ _ v)

  pub dispatch-IsValid :
      (s : State T) (o : T.Origin) (c : Call T) → IsValid T s → IsValid T (dispatch T o c s).1
  dispatch-IsValid s o c v = Step-IsValid v (dispatch-Step T s o c v)

  -- The storage at the start of a block: `System` drops the events of the block before.
  abbrev pub without_events : State T → State T
  without_events s = record s { events = [] }

  -- The storages that calls, in blocks, lead to from the empty one.
  pub data Reach : State T → Type 0 where
    start : Reach (init T)
    next : {s : State T} (o : T.Origin) (c : Call T) → Reach s → Reach (dispatch T o c s).1
    new_block : {s : State T} → Reach s → Reach (without_events s)

  -- A storage that calls, in blocks, lead to from the empty one is valid: the registry holds an enclave at each
  -- index from 1 to the count and nowhere else, the index map leads from exactly the accounts of
  -- these enclaves to their entries, the count is below 2^64, and as many entries are listed.
  pub Reach-IsValid : {s : State T} → Reach s → IsValid T s
  Reach-IsValid start = init-IsValid T
  Reach-IsValid (next {s} o c r) = dispatch-IsValid s o c (Reach-IsValid r)
  Reach-IsValid (new_block {s} r) =
      with_rest-IsValid s s.latest_ipfs_hash s.worker_for_shard [] (Reach-IsValid r)

  Step-unchanged : {s : State T} {r : Res T} → Step T s r → r.0 ≢ ok tt → r.1 ≡ s
  Step-unchanged (refused ne same) h = same
  Step-unchanged (renewed i e k p) h = absurd (h (rw p))
  Step-unchanged (entered e k room p) h = absurd (h (rw p))
  Step-unchanged (left_last a k p) h = absurd (h (rw p))
  Step-unchanged (left_middle a i e k at ne p) h = absurd (h (rw p))
  Step-unchanged (passed_on request p) h = absurd (h (rw p))
  Step-unchanged (confirms a i shard call_hash ipfs_hash k p) h = absurd (h (rw p))

  -- In a storage that calls, in blocks, lead to from the empty one, a call that does not return `Ok` leaves the
  -- storage as it was.
  pub dispatch_atomic :
      {s : State T} (o : T.Origin) (c : Call T)
      → Reach s
      → (dispatch T o c s).0 ≢ ok tt
      → (dispatch T o c s).1 ≡ s
  dispatch_atomic {s} o c r h = Step-unchanged (dispatch-Step T s o c (Reach-IsValid r)) h
