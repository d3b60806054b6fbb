-- ===== src/Registry.antt =====
-- runtime/src/substratee_registry.rs: the pallet's storage and its calls.
pub mod Config
pub mod Checks
pub mod Shapes
pub mod Invariant
pub mod Outcomes
pub mod Dispatch
pub mod Directory
pub mod Shards
pub mod Scenarios
mod Tests
use substra_tee_node_pre.Base.{
  ℕ, List, [], ◌∷◌, ◌++◌, Bytes, ◌==◌, if◌then◌else◌, ◌+w◌, checked_add, checked_sub, replicate,
}
use substra_tee_node_pre.Base.Int.{pos}
use substra_tee_node_pre.Base.Outcome.{ensure, ok_or}
use substra_tee_node_pre.Base.Exec.{Exec, pure, lift, gets, modify, ◌>>=◌, ◌>>◌}
use substra_tee_node_pre.Storage.{contains, get_or}
use substra_tee_node_pre.HostCalls.Report.{SgxReport}
use substra_tee_node_pre.Registry.Checks.{check_registration}
use substra_tee_node_pre.Registry.Config.{
  Trait, Enclave, Request, Event, added_enclave, removed_enclave, updated_ipfs_hash, forwarded,
  call_confirmed,
}

module _ (T : Trait) where
  -- `decl_storage!`, and the events that `deposit_event` has appended
  pub record State : Type 0 where
    pub enclave_registry : T.registry_map.Map
    pub enclave_count : ℕ
    pub enclave_index : T.index_map.Map
    pub latest_ipfs_hash : T.ipfs_map.Map
    pub worker_for_shard : T.worker_map.Map
    pub events : List (Event T.AccountId T.ShardIdentifier)

  abbrev pub Action : Type 0 → Type 0
  Action A = Exec State A

  -- `Enclave::default()`
  abbrev pub default_enclave : Enclave T.AccountId
  default_enclave = record {
    pubkey = T.default_account;
    mr_enclave = replicate 32 0;
    timestamp = pos 0;
    url = [];
  }

  abbrev pub deposit_event : Event T.AccountId T.ShardIdentifier → Action (Unit {0})
  deposit_event e = modify (λ s. record s { events = s.events ++ e ∷ [] })

  -- `Err` on the overflow of the count
  unfoldable pub register_verified_enclave : T.AccountId → SgxReport → Bytes → Action (Unit {0})
  register_verified_enclave sender report url = do
    let enclave : Enclave T.AccountId = record {
      pubkey = sender;
      mr_enclave = report.mr_enclave;
      timestamp = report.timestamp;
      url = url;
    }
    known ← gets (λ s. contains T.index_map s.enclave_index sender)
    enclave_idx ← if known then gets (λ s. get_or T.index_map s.enclave_index sender 0) else (do
      count ← gets (λ s. s.enclave_count)
      enclaves_count ← lift (
          ok_or (checked_add count 1)
            "[SubstraTEERegistry]: Overflow adding new enclave to registry")
      modify (λ s. record s {
        enclave_index = T.index_map.insert s.enclave_index sender enclaves_count;
      })
      modify (λ s. record s { enclave_count = enclaves_count })
      pure enclaves_count)
    modify (λ s. record s {
      enclave_registry = T.registry_map.insert s.enclave_registry enclave_idx enclave;
    })

  unfoldable pub swap_and_pop : ℕ → ℕ → Action (Unit {0})
  swap_and_pop index_to_remove new_enclaves_count = do
    if index_to_remove == new_enclaves_count then pure tt else (do
      last_enclave ←
          gets
            (λ s. get_or T.registry_map.map s.enclave_registry new_enclaves_count default_enclave)
      modify (λ s. record s {
        enclave_registry = T.registry_map.insert s.enclave_registry index_to_remove last_enclave;
      })
      modify (λ s. record s {
        enclave_index = T.index_map.insert s.enclave_index last_enclave.pubkey index_to_remove;
      }))
    modify (λ s. record s {
      enclave_registry = T.registry_map.remove s.enclave_registry new_enclaves_count;
    })

  unfoldable pub remove_enclave : T.AccountId → Action (Unit {0})
  unfolding swap_and_pop
  remove_enclave sender = do
    known ← gets (λ s. contains T.index_map s.enclave_index sender)
    lift (ensure known "[SubstraTEERegistry]: Trying to remove an enclave that doesn't exist.")
    index_to_remove ← gets (λ s. get_or T.index_map s.enclave_index sender 0)
    modify (λ s. record s { enclave_index = T.index_map.remove s.enclave_index sender })
    enclaves_count ← gets (λ s. s.enclave_count)
    new_enclaves_count ← lift (
        ok_or (checked_sub enclaves_count 1)
          "[SubstraTEERegistry]: Underflow removing an enclave from the registry")
    swap_and_pop index_to_remove (new_enclaves_count +w 1)
    modify (λ s. record s { enclave_count = new_enclaves_count })

  unfoldable pub register_enclave : T.Origin → Bytes → List ℕ → Bytes → Action (Unit {0})
  register_enclave origin ra_report ra_signer_attn worker_url = do
    sender ← lift (T.ensure_signed origin)
    report ← lift (check_registration T sender ra_report ra_signer_attn worker_url)
    register_verified_enclave sender report worker_url
    deposit_event (added_enclave sender worker_url)

  unfoldable pub unregister_enclave : T.Origin → Action (Unit {0})
  unregister_enclave origin = do
    sender ← lift (T.ensure_signed origin)
    remove_enclave sender
    deposit_event (removed_enclave sender)

  unfoldable pub call_worker : T.Origin → Request T.ShardIdentifier → Action (Unit {0})
  call_worker origin request = do
    _sender ← lift (T.ensure_signed origin)
    deposit_event (forwarded request)

  unfoldable pub confirm_call : T.Origin → T.ShardIdentifier → Bytes → Bytes → Action (Unit {0})
  confirm_call origin shard call_hash ipfs_hash = do
    sender ← lift (T.ensure_signed origin)
    known ← gets (λ s. contains T.index_map s.enclave_index sender)
    lift (
        ensure known
          "[SubstraTEERegistry]: IPFS state update requested by enclave that is not registered")
    sender_index ← gets (λ s. get_or T.index_map s.enclave_index sender 0)
    modify
        (λ s. record s { latest_ipfs_hash = T.ipfs_map.insert s.latest_ipfs_hash shard ipfs_hash })
    modify (λ s. record s {
      worker_for_shard = T.worker_map.insert s.worker_for_shard shard sender_index;
    })
    deposit_event (call_confirmed sender call_hash)
    deposit_event (updated_ipfs_hash shard sender_index ipfs_hash)

  -- The storage of a chain whose genesis has no entry for the pallet.
  unfoldable pub init : State
  init = record {
    enclave_registry = T.registry_map.empty;
    enclave_count = 0;
    enclave_index = T.index_map.empty;
    latest_ipfs_hash = T.ipfs_map.empty;
    worker_for_shard = T.worker_map.empty;
    events = [];
  }
