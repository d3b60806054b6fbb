-- ===== src/Runtime.antt =====
-- runtime/src/lib.rs: the runtime, which puts the registry together with Substrate's modules.
pub mod Constants
pub mod Modules
pub mod Substrate
pub mod Root
pub mod History
pub mod Time
mod Tests
use substra_tee_node_pre.Base.{ℕ, List, Option, Bytes}
use substra_tee_node_pre.Base.Exec.{Exec, pure, lift, gets}
use substra_tee_node_pre.Registry.Dispatch.{Call as RegistryCall, dispatch as dispatch_registry}
use substra_tee_node_pre.Runtime.Constants.{RuntimeVersion, version_with}
use substra_tee_node_pre.Runtime.Modules.{ModuleName, runtime_modules, runtime_config, session_keys}
use substra_tee_node_pre.Runtime.Substrate.{Primitives, registry_trait, Assembly, Crates}

module _ {P : Primitives} (C : Crates P) where
  -- The calls of the modules with a `Call` part. A proposal of `Sudo` is a call again.
  pub data RuntimeCall : Type 0 where
    system : C.OtherCall ModuleName.system → RuntimeCall
    timestamp : C.OtherCall ModuleName.timestamp → RuntimeCall
    grandpa : C.OtherCall ModuleName.grandpa → RuntimeCall
    indices : C.OtherCall ModuleName.indices → RuntimeCall
    balances : C.OtherCall ModuleName.balances → RuntimeCall
    sudo : RuntimeCall → RuntimeCall
    sudo_other : C.OtherCall ModuleName.sudo → RuntimeCall
    substratee_registry : RegistryCall (registry_trait P) → RuntimeCall
    randomness_collective_flip : C.OtherCall ModuleName.randomness_collective_flip → RuntimeCall

  abbrev pub current_version : RuntimeVersion P.Apis
  current_version = version_with P.runtime_api_versions

  abbrev pub dispatch_other_module :
      {name : ModuleName} → C.OtherCall name → P.Origin → Exec C.Storage (Unit {0})
  dispatch_other_module {name} x = C.dispatch_other (runtime_config current_version) name x

  -- The registry's calls run on its part of the storage.
  unfoldable pub dispatch_call : RuntimeCall → P.Origin → Exec C.Storage (Unit {0})
  dispatch_call (system x) = dispatch_other_module x
  dispatch_call (timestamp x) = dispatch_other_module x
  dispatch_call (grandpa x) = dispatch_other_module x
  dispatch_call (indices x) = dispatch_other_module x
  dispatch_call (balances x) = dispatch_other_module x
  dispatch_call (sudo proposal) = C.sudo (dispatch_call proposal)
  dispatch_call (sudo_other x) = dispatch_other_module x
  dispatch_call (substratee_registry c) = λ origin s.
      let (r, registry) = dispatch_registry (registry_trait P) origin c (C.registry s) in
      (r, C.write_registry registry s)
  dispatch_call (randomness_collective_flip x) = dispatch_other_module x

  abbrev pub assembled : Assembly (RuntimeVersion P.Apis) P.Origin C.Storage RuntimeCall
  assembled = record {
    modules = runtime_modules;
    config = runtime_config current_version;
    dispatcher = dispatch_call;
  }

  -- The functions of `impl_runtime_apis!`
  pub data RuntimeApi : Type 0 where
    core_version : RuntimeApi
    execute_block : C.Block RuntimeCall → RuntimeApi
    initialize_block : C.Header → RuntimeApi
    metadata : RuntimeApi
    apply_extrinsic : C.Extrinsic RuntimeCall → RuntimeApi
    finalize_block : RuntimeApi
    inherent_extrinsics : C.InherentData → RuntimeApi
    check_inherents : C.Block RuntimeCall → C.InherentData → RuntimeApi
    random_seed : RuntimeApi
    validate_transaction : C.Extrinsic RuntimeCall → RuntimeApi
    offchain_worker : ℕ → RuntimeApi
    aura_slot : RuntimeApi
    authorities : RuntimeApi
    generate_session_keys : Option Bytes → RuntimeApi
    grandpa_authorities : RuntimeApi

  abbrev pub ApiAnswer : RuntimeApi → Type 0
  ApiAnswer core_version = RuntimeVersion P.Apis
  ApiAnswer (execute_block block) = Unit {0}
  ApiAnswer (initialize_block header) = Unit {0}
  ApiAnswer metadata = C.Metadata
  ApiAnswer (apply_extrinsic extrinsic) = C.ApplyResult
  ApiAnswer finalize_block = C.Header
  ApiAnswer (inherent_extrinsics data_) = List (C.Extrinsic RuntimeCall)
  ApiAnswer (check_inherents block data_) = C.CheckInherentsResult
  ApiAnswer random_seed = P.Hash
  ApiAnswer (validate_transaction tx) = C.TransactionValidity
  ApiAnswer (offchain_worker number) = Unit {0}
  ApiAnswer aura_slot = ℕ
  ApiAnswer authorities = List P.AuraId
  ApiAnswer (generate_session_keys seed) = Bytes
  ApiAnswer grandpa_authorities = C.GrandpaAuthorityList

  unfoldable pub answer_api : (api : RuntimeApi) → Exec C.Storage (ApiAnswer api)
  answer_api core_version = pure current_version
  answer_api (execute_block block) = C.execute_block assembled block
  answer_api (initialize_block header) = C.initialize_block assembled header
  answer_api metadata = pure (C.metadata runtime_modules)
  answer_api (apply_extrinsic extrinsic) = C.apply_extrinsic assembled extrinsic
  answer_api finalize_block = C.finalize_block assembled
  answer_api (inherent_extrinsics data_) = pure (C.create_extrinsics runtime_modules data_)
  answer_api (check_inherents block data_) = pure (C.check_extrinsics runtime_modules data_ block)
  answer_api random_seed = gets C.random_seed
  answer_api (validate_transaction tx) = C.validate_transaction assembled tx
  answer_api (offchain_worker number) = C.offchain_worker assembled number
  answer_api aura_slot =
      pure (C.aura_slot_duration (runtime_config current_version).timestamp.minimum_period)
  answer_api authorities = gets C.aura_authorities
  answer_api (generate_session_keys seed) = lift (C.generate_session_keys session_keys seed)
  answer_api grandpa_authorities = gets C.grandpa_authorities
