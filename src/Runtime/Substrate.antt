-- ===== src/Runtime/Substrate.antt =====
-- What runtime/src/lib.rs uses of Substrate: its primitives, and the modules and the executive that
-- it puts together. Their laws say which of them write the storage of the registry.
use substra_tee_node_pre.Base.{
  ℕ, ◌*◌, ◌≡◌, ◌≢◌, ◌⊎◌, false, List, [], ◌∷◌, Option, some, Bytes, length,
}
use substra_tee_node_pre.Base.Outcome.{Outcome, ok}
use substra_tee_node_pre.Base.Exec.{Exec}
use substra_tee_node_pre.Storage.{StorageMap, LinkedMap}
use substra_tee_node_pre.HostCalls.Libs.{Libs}
use substra_tee_node_pre.ChainSpec.Primitives.{Keys}
use substra_tee_node_pre.ChainSpec.{GenesisConfig}
use substra_tee_node_pre.Registry.Config.{Trait, Enclave}
use substra_tee_node_pre.Registry.{State, init}
use substra_tee_node_pre.Registry.Dispatch.History.{without_events}
use substra_tee_node_pre.Runtime.Constants.{RuntimeVersion}
use substra_tee_node_pre.Runtime.Modules.{ModuleName, ModuleRow, registry_configured, RuntimeConfig}

pub record Primitives : Type 1 where
  pub keys : Keys
  pub open keys use {AccountId, AuraId}
  pub account_eq : Discrete AccountId
  pub default_account : AccountId
  pub encode : AccountId → Bytes
  pub decode : Bytes → Option AccountId
  pub decode-encode : (a : AccountId) → decode (encode a) ≡ some a
  pub length-encode : (a : AccountId) → length (encode a) ≡ 32
  -- `H256`
  pub Hash : Type 0
  -- `system::Origin<Runtime>`: a signed origin, or root, which has not signed
  pub Origin : Type 0
  pub signed : AccountId → Origin
  pub root : Origin
  pub ensure_signed : Origin → Outcome AccountId
  pub ensure_signed-signed : (a : AccountId) → ensure_signed (signed a) ≡ ok a
  pub ensure_signed-root : (a : AccountId) → ensure_signed root ≢ ok a
  pub libs : Libs
  pub registry_map : LinkedMap ℕ (Enclave AccountId)
  pub index_map : StorageMap AccountId ℕ
  pub ipfs_map : StorageMap Hash Bytes
  pub worker_map : StorageMap Hash ℕ
  -- `RUNTIME_API_VERSIONS`, which `impl_runtime_apis!` makes
  pub Apis : Type 0
  pub runtime_api_versions : Apis

-- `impl substratee_registry::Trait for Runtime`, with the items that it takes from `system::Trait`
abbrev pub registry_trait : Primitives → Trait
registry_trait P = record {
  AccountId = P.AccountId;
  account_eq = P.account_eq;
  default_account = P.default_account;
  encode = P.encode;
  decode = P.decode;
  decode-encode = P.decode-encode;
  length-encode = P.length-encode;
  ShardIdentifier = P.Hash;
  Origin = P.Origin;
  ensure_signed = P.ensure_signed;
  libs = P.libs;
  registry_map = P.registry_map;
  index_map = P.index_map;
  ipfs_map = P.ipfs_map;
  worker_map = P.worker_map;
}

-- What the macros hand to the executive: the modules, their configuration, and the calls.
pub record Assembly (Version Origin Storage Call : Type 0) : Type 0 where
  pub modules : List ModuleRow
  pub config : RuntimeConfig Version
  pub dispatcher : Call → Origin → Exec Storage (Unit {0})

-- The calls of extrinsics one after the other, as the executive runs them: it calls none that it
-- cannot apply, and none as root. `registry` is the part of the storage to look at.
pub data Applied {Root Storage State Call Extrinsic : Type 0} (root : Root)
    (registry : Storage → State) (function : Extrinsic → Call)
    (dispatcher : Call → Root → Exec Storage (Unit {0}))
    : List Extrinsic → State → State → Type 0 where
  done : (r : State) → Applied root registry function dispatcher [] r r
  skipped :
      (x : Extrinsic) (xs : List Extrinsic) (r t : State)
      → Applied root registry function dispatcher xs r t
      → Applied root registry function dispatcher (x ∷ xs) r t
  dispatched :
      (x : Extrinsic) (xs : List Extrinsic) (o : Root) (s : Storage) (t : State)
      → o ≢ root
      → Applied root registry function dispatcher xs (registry (dispatcher (function x) o s).1) t
      → Applied root registry function dispatcher (x ∷ xs) (registry s) t

pub record Crates (P : Primitives) : Type 1 where
  -- The storage of the whole chain, of which the registry has a part
  pub Storage : Type 0
  pub registry : Storage → State (registry_trait P)
  pub write_registry : State (registry_trait P) → Storage → Storage
  pub registry-write_registry :
      (r : State (registry_trait P)) (s : Storage) → registry (write_registry r s) ≡ r
  -- The calls of the other modules. One that root has not sent writes the storage of its own module
  -- and of those it is wired to; `System` lets root write anywhere.
  pub OtherCall : ModuleName → Type 0
  pub dispatch_other :
      RuntimeConfig (RuntimeVersion P.Apis)
      → (name : ModuleName) → OtherCall name
      → P.Origin
      → Exec Storage (Unit {0})
  pub dispatch_other-registry :
      (c : RuntimeConfig (RuntimeVersion P.Apis)) (name : ModuleName) (x : OtherCall name)
      (o : P.Origin) (s : Storage)
      → o ≢ P.root
      → registry (dispatch_other c name x o s).1 ≡ registry s
  -- `Sudo::sudo` runs the proposal as root, on a storage with the registry as it was, or not at all.
  pub sudo : (P.Origin → Exec Storage (Unit {0})) → P.Origin → Exec Storage (Unit {0})
  pub sudo-registry :
      (proposal : P.Origin → Exec Storage (Unit {0})) (o : P.Origin) (s : Storage)
      → (registry (sudo proposal o s).1 ≡ registry s)
        ⊎ ((t : Storage) × (registry t ≡ registry s)
            × (registry (sudo proposal o s).1 ≡ registry (proposal P.root t).1))
  -- `generic::UncheckedExtrinsic`, `generic::Block` and `generic::Header`
  pub Extrinsic : Type 0 → Type 0
  pub function : {Call : Type 0} → Extrinsic Call → Call
  pub Block : Type 0 → Type 0
  pub extrinsics : {Call : Type 0} → Block Call → List (Extrinsic Call)
  pub Header : Type 0
  -- A genesis leaves the storage of a module that has no entry in it at its defaults.
  pub build_storage :
      {Call : Type 0}
      → Assembly (RuntimeVersion P.Apis) P.Origin Storage Call
      → GenesisConfig P.keys
      → Outcome Storage
  pub build_storage-registry :
      {Call : Type 0} (a : Assembly (RuntimeVersion P.Apis) P.Origin Storage Call)
      (g : GenesisConfig P.keys) (s : Storage)
      → registry_configured a.modules ≡ false
      → build_storage a g ≡ ok s
      → registry s ≡ init (registry_trait P)
  -- `Executive`. It writes nothing of the registry itself, except that the events of the block
  -- before are dropped when a block starts, and runs the calls of extrinsics. A block that fails is
  -- dropped with what it has written.
  pub ApplyResult : Type 0
  pub apply_extrinsic :
      {Call : Type 0}
      → Assembly (RuntimeVersion P.Apis) P.Origin Storage Call
      → Extrinsic Call
      → Exec Storage ApplyResult
  pub apply_extrinsic-Applied :
      {Call : Type 0} (a : Assembly (RuntimeVersion P.Apis) P.Origin Storage Call)
      (x : Extrinsic Call) (s : Storage)
      → Applied P.root registry function a.dispatcher
          (x ∷ [])
          (registry s)
          (registry (apply_extrinsic a x s).1)
  pub execute_block :
      {Call : Type 0}
      → Assembly (RuntimeVersion P.Apis) P.Origin Storage Call
      → Block Call
      → Exec Storage (Unit {0})
  pub execute_block-Applied :
      {Call : Type 0} (a : Assembly (RuntimeVersion P.Apis) P.Origin Storage Call) (b : Block Call)
      (s : Storage)
      → (registry (execute_block a b s).1 ≡ registry s)
        ⊎ Applied P.root registry function a.dispatcher
            (extrinsics b)
            (without_events (registry_trait P) (registry s))
            (registry (execute_block a b s).1)
  pub initialize_block :
      {Call : Type 0}
      → Assembly (RuntimeVersion P.Apis) P.Origin Storage Call
      → Header
      → Exec Storage (Unit {0})
  pub initialize_block-registry :
      {Call : Type 0} (a : Assembly (RuntimeVersion P.Apis) P.Origin Storage Call) (h : Header)
      (s : Storage)
      → registry (initialize_block a h s).1 ≡ without_events (registry_trait P) (registry s)
  pub finalize_block :
      {Call : Type 0} → Assembly (RuntimeVersion P.Apis) P.Origin Storage Call → Exec Storage Header
  pub finalize_block-registry :
      {Call : Type 0} (a : Assembly (RuntimeVersion P.Apis) P.Origin Storage Call) (s : Storage)
      → registry (finalize_block a s).1 ≡ registry s
  pub TransactionValidity : Type 0
  pub validate_transaction :
      {Call : Type 0}
      → Assembly (RuntimeVersion P.Apis) P.Origin Storage Call
      → Extrinsic Call
      → Exec Storage TransactionValidity
  pub validate_transaction-registry :
      {Call : Type 0} (a : Assembly (RuntimeVersion P.Apis) P.Origin Storage Call)
      (x : Extrinsic Call) (s : Storage)
      → registry (validate_transaction a x s).1 ≡ registry s
  pub offchain_worker :
      {Call : Type 0}
      → Assembly (RuntimeVersion P.Apis) P.Origin Storage Call
      → ℕ
      → Exec Storage (Unit {0})
  pub offchain_worker-registry :
      {Call : Type 0} (a : Assembly (RuntimeVersion P.Apis) P.Origin Storage Call) (n : ℕ)
      (s : Storage)
      → registry (offchain_worker a n s).1 ≡ registry s
  -- What the other modules and the macros answer, from the storage at most
  pub Metadata : Type 0
  pub metadata : List ModuleRow → Metadata
  pub InherentData : Type 0
  pub create_extrinsics : {Call : Type 0} → List ModuleRow → InherentData → List (Extrinsic Call)
  pub CheckInherentsResult : Type 0
  pub check_extrinsics :
      {Call : Type 0} → List ModuleRow → InherentData → Block Call → CheckInherentsResult
  pub random_seed : Storage → P.Hash
  -- Aura's slot is twice the least period between two timestamps.
  pub aura_slot_duration : (minimum_period : ℕ) → ℕ
  pub aura_slot_duration-doubles : (m : ℕ) → aura_slot_duration m ≡ m * 2
  pub aura_authorities : Storage → List P.AuraId
  pub generate_session_keys : List ModuleName → Option Bytes → Outcome Bytes
  pub GrandpaAuthorityList : Type 0
  pub grandpa_authorities : Storage → GrandpaAuthorityList
