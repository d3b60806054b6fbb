-- ===== src/Registry/Dispatch.antt =====
-- The calls of the pallet as one type, and what a block does to the pallet: a sequence of calls by
-- any origins, each of which may fail.
pub mod Reach
pub mod History
pub mod Events
pub mod Workers
pub mod Drain
pub mod Order
pub mod Listing
pub mod Panics
pub mod Returns
use substra_tee_node_pre.Base.{ℕ, List, Bytes}
use substra_tee_node_pre.Registry.Config.{Trait, Request}
use substra_tee_node_pre.Registry.{
  Action, register_enclave, unregister_enclave, call_worker, confirm_call,
}

-- `enum Call` of `decl_module!`
pub data Call (T : Trait) : Type 0 where
  register : Bytes → List ℕ → Bytes → Call T
  unregister : Call T
  forward : Request T.ShardIdentifier → Call T
  confirm : T.ShardIdentifier → Bytes → Bytes → Call T

module _ (T : Trait) where
  unfoldable pub dispatch : T.Origin → Call T → Action T (Unit {0})
  dispatch origin (register ra_report ra_signer_attn worker_url) =
      register_enclave T origin ra_report ra_signer_attn worker_url
  dispatch origin unregister = unregister_enclave T origin
  dispatch origin (forward request) = call_worker T origin request
  dispatch origin (confirm shard call_hash ipfs_hash) =
      confirm_call T origin shard call_hash ipfs_hash
