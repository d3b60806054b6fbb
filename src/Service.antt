-- ===== src/Service.antt =====
-- src/service.rs: how a full and a light client are put together, and which tasks they start.
pub mod Crates
pub mod Light
pub mod Tasks
pub mod Setup
mod Tests
use substra_tee_node_pre.Base.{
  Bool, true, false, not, ◌&&◌, Option, none, some, List, [], ◌∷◌, ◌++◌, if◌then◌else◌,
}
use substra_tee_node_pre.Base.Outcome.{unwrap, ok_or}
use substra_tee_node_pre.Base.Exec.{Exec, pure, lift, gets, modify, ◌>>=◌, ◌>>◌}
use substra_tee_node_pre.Service.Crates.{ServiceCrates, GrandpaConfig}

module _ (C : ServiceCrates) where
  -- What `new_full` starts, with what it was made of; an essential task takes the service down with
  -- it when it fails.
  pub data Started : Type 0 where
    essential_aura : (force_authoring : Bool) → C.Keystore → C.AuraTask → Started
    observer : GrandpaConfig C.Keystore → C.ObserverTask → Started
    essential_voter : GrandpaConfig C.Keystore → C.VoterTask → Started
    disabled_grandpa : Started

  -- The variable `import_setup`, and what has been started, in order.
  pub record Progress : Type 0 where
    pub import_setup : Option (C.BlockImport × C.LinkHalf)
    pub started : List Started

  abbrev pub fresh : Progress
  fresh = record { import_setup = none; started = [] }

  abbrev pub start : Started → Exec Progress (Unit {0})
  start t = modify (λ p. record p { started = p.started ++ t ∷ [] })

  -- The closure that `new_full_start!` gives to `with_import_queue`.
  pub import_queue : C.Client → Option C.SelectChain → C.Pool → Exec Progress C.Queue
  import_queue client select_chain transaction_pool = do
    chain ← lift (ok_or select_chain "SelectChainRequired")
    (grandpa_block_import, grandpa_link) ← lift (C.block_import client chain)
    slot_duration ← lift (C.slot_duration client)
    queue ← lift (
        C.import_queue slot_duration grandpa_block_import (some grandpa_block_import) none client
          (some transaction_pool))
    modify (λ p. record p { import_setup = some (grandpa_block_import, grandpa_link) })
    pure queue

  -- `new_full_start!`
  pub new_full_start : C.Config → Exec Progress C.Builder
  unfolding import_queue
  new_full_start config = do
    builder ← lift (C.new_full config)
    with_chain ← lift (C.with_select_chain builder)
    with_pool ← lift (C.with_transaction_pool with_chain)
    C.with_import_queue Progress import_queue with_pool

  abbrev pub participates_in_consensus : C.Config → Bool
  participates_in_consensus config = C.is_authority config && not (C.sentry_mode config)

  -- "the AURA authoring task is considered essential"
  pub start_authoring : C.Config → C.Service → C.BlockImport → Exec Progress (Unit {0})
  start_authoring config service block_import = do
    select_chain ← lift (ok_or (C.select_chain service) "SelectChainRequired")
    slot_duration ← lift (C.slot_duration (C.client service))
    aura ← lift (
        C.start_aura slot_duration (C.client service) select_chain block_import service
          (C.force_authoring config) (C.keystore service))
    start (essential_aura (C.force_authoring config) (C.keystore service) aura)

  abbrev pub grandpa_config : C.Config → C.Service → GrandpaConfig C.Keystore
  grandpa_config config service = record {
    gossip_duration = 333;
    justification_period = 512;
    name = C.name config;
    observer_enabled = true;
    keystore = if participates_in_consensus config then some (C.keystore service) else none;
    is_authority = C.is_authority config;
  }

  -- `match (is_authority, disable_grandpa)`
  pub start_grandpa :
      Bool → Bool → GrandpaConfig C.Keystore → C.Service → C.LinkHalf → Exec Progress (Unit {0})
  start_grandpa false false config service grandpa_link = do
    task ← lift (C.run_grandpa_observer config grandpa_link service)
    start (observer config task)
  start_grandpa true false config service grandpa_link = do
    task ← lift (C.run_grandpa_voter config grandpa_link service)
    start (essential_voter config task)
  start_grandpa _ true config service grandpa_link = do
    lift (C.setup_disabled_grandpa (C.client service) service)
    start disabled_grandpa

  -- Everything behind `new_full_start!`.
  pub finish_full : C.Config → C.Builder → C.BlockImport → C.LinkHalf → Exec Progress C.Service
  unfolding start_authoring start_grandpa
  finish_full config builder block_import grandpa_link = do
    with_network ← lift (C.with_network_protocol builder)
    with_proofs ← lift (C.with_finality_proof_provider with_network)
    service ← lift (C.build with_proofs)
    if participates_in_consensus config
        then start_authoring config service block_import
        else pure tt
    start_grandpa (C.is_authority config) (C.disable_grandpa config) (grandpa_config config service)
        service grandpa_link
    pure service

  pub new_full : C.Config → Exec Progress C.Service
  unfolding new_full_start finish_full
  new_full config = do
    builder ← new_full_start config
    import_setup ← gets (λ p. p.import_setup)
    modify (λ p. record p { import_setup = none })
    (block_import, grandpa_link) ← lift (unwrap import_setup)
    finish_full config builder block_import grandpa_link
