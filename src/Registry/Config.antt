-- ===== src/Registry/Config.antt =====
-- What the pallet in runtime/src/substratee_registry.rs is generic over: its `Trait`, with the
-- storage maps that `decl_storage!` declares, and the crates that the host call uses.
use substra_tee_node_pre.Base.{ℕ, ◌≡◌, Option, some, Bytes, length}
use substra_tee_node_pre.Base.Int.{ℤ}
use substra_tee_node_pre.Base.Outcome.{Outcome}
use substra_tee_node_pre.Storage.{StorageMap, LinkedMap}
use substra_tee_node_pre.HostCalls.Libs.{Libs}

pub record Enclave (AccountId : Type 0) : Type 0 where
  pub pubkey : AccountId
  pub mr_enclave : Bytes
  pub timestamp : ℤ
  pub url : Bytes

-- `Request`; a `ShardIdentifier` is an `H256`.
pub record Request (ShardIdentifier : Type 0) : Type 0 where
  pub shard : ShardIdentifier
  pub cyphertext : Bytes

pub data Event (AccountId ShardIdentifier : Type 0) : Type 0 where
  added_enclave : AccountId → Bytes → Event AccountId ShardIdentifier
  removed_enclave : AccountId → Event AccountId ShardIdentifier
  updated_ipfs_hash : ShardIdentifier → ℕ → Bytes → Event AccountId ShardIdentifier
  forwarded : Request ShardIdentifier → Event AccountId ShardIdentifier
  call_confirmed : AccountId → Bytes → Event AccountId ShardIdentifier

pub record Trait : Type 1 where
  -- `T::AccountId`: its default value, and its codec, which reads back what it wrote. The runtime
  -- sets it to a public key of 32 bytes.
  pub AccountId : Type 0
  pub account_eq : Discrete AccountId
  pub default_account : AccountId
  pub encode : AccountId → Bytes
  pub decode : Bytes → Option AccountId
  pub decode-encode : (a : AccountId) → decode (encode a) ≡ some a
  pub length-encode : (a : AccountId) → length (encode a) ≡ 32
  pub ShardIdentifier : Type 0
  -- `system::ensure_signed`
  pub Origin : Type 0
  pub ensure_signed : Origin → Outcome AccountId
  pub libs : Libs
  pub registry_map : LinkedMap ℕ (Enclave AccountId)
  pub index_map : StorageMap AccountId ℕ
  pub ipfs_map : StorageMap ShardIdentifier Bytes
  pub worker_map : StorageMap ShardIdentifier ℕ
