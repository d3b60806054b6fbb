-- ===== src/Service/Crates.antt =====
-- What src/service.rs uses of other crates: substrate_service, substrate_client, aura, grandpa,
-- the transaction pool and the inherents. A duration is in milliseconds.
use substra_tee_node_pre.Base.{ℕ, ◌≡◌, ◌≢◌, Bool, Option, String}
use substra_tee_node_pre.Base.Outcome.{Outcome, Fault, ok, fault}

-- `grandpa::Config`
pub record GrandpaConfig (Keystore : Type 0) : Type 0 where
  pub gossip_duration : ℕ
  pub justification_period : ℕ
  pub name : String
  pub observer_enabled : Bool
  pub keystore : Option Keystore
  pub is_authority : Bool

-- What a builder's method does with a closure `f` that it is given: it calls `f` once or not at all,
-- succeeds only if `f` does, and panics only if `f` does.
pub data Calls {Client Chain Pool Queue Builder S : Type 0}
    (f : Client → Chain → Pool → S → Outcome Queue × S) (s : S) (r : Outcome Builder × S)
    : Type 0 where
  uncalled : ((b : Builder) → r.0 ≢ ok b) → ((x : Fault) → r.0 ≢ fault x) → r.1 ≡ s → Calls f s r
  called :
      (client : Client) (chain : Chain) (pool : Pool)
      → r.1 ≡ (f client chain pool s).1
      → ((b : Builder) → r.0 ≡ ok b → (q : Queue) × ((f client chain pool s).0 ≡ ok q))
      → ((x : Fault) → r.0 ≡ fault x → (f client chain pool s).0 ≡ fault x)
      → Calls f s r

pub record ServiceCrates : Type 1 where
  -- `Configuration`, and what the code reads of it
  pub Config : Type 0
  pub is_authority : Config → Bool
  pub sentry_mode : Config → Bool
  pub force_authoring : Config → Bool
  pub disable_grandpa : Config → Bool
  pub name : Config → String
  pub Builder : Type 0
  pub Service : Type 0
  pub Client : Type 0
  pub SelectChain : Type 0
  pub Pool : Type 0
  pub Keystore : Type 0
  pub BlockImport : Type 0
  pub LinkHalf : Type 0
  pub Queue : Type 0
  pub SlotDuration : Type 0
  -- `ServiceBuilder` of a full client. Its methods fail, or hand on a builder.
  pub new_full : Config → Outcome Builder
  pub with_select_chain : Builder → Outcome Builder
  pub with_transaction_pool : Builder → Outcome Builder
  -- `with_import_queue(f)`; `f` may write a variable of type `S`.
  pub with_import_queue :
      (S : Type 0)
      → (Client → Option SelectChain → Pool → S → Outcome Queue × S)
      → Builder
      → S
      → Outcome Builder × S
  pub with_import_queue-Calls :
      (S : Type 0) (f : Client → Option SelectChain → Pool → S → Outcome Queue × S) (b : Builder)
      (s : S)
      → Calls f s (with_import_queue S f b s)
  pub with_network_protocol : Builder → Outcome Builder
  pub with_finality_proof_provider : Builder → Outcome Builder
  pub build : Builder → Outcome Service
  pub client : Service → Client
  pub select_chain : Service → Option SelectChain
  pub keystore : Service → Keystore
  -- `aura::SlotDuration::get_or_compute`, `aura::import_queue` and `aura::start_aura`
  pub slot_duration : Client → Outcome SlotDuration
  pub import_queue :
      SlotDuration
      → BlockImport
      → Option BlockImport
      → Option BlockImport
      → Client
      → Option Pool
      → Outcome Queue
  pub AuraTask : Type 0
  pub start_aura :
      SlotDuration
      → Client
      → SelectChain
      → BlockImport
      → Service
      → Bool
      → Keystore
      → Outcome AuraTask
  -- `grandpa::block_import`, `run_grandpa_observer`, `run_grandpa_voter` and
  -- `setup_disabled_grandpa`
  pub block_import : Client → SelectChain → Outcome (BlockImport × LinkHalf)
  pub ObserverTask : Type 0
  pub run_grandpa_observer : GrandpaConfig Keystore → LinkHalf → Service → Outcome ObserverTask
  pub VoterTask : Type 0
  pub run_grandpa_voter : GrandpaConfig Keystore → LinkHalf → Service → Outcome VoterTask
  pub setup_disabled_grandpa : Client → Service → Outcome (Unit {0})
  -- The light client's builder.
  pub Backend : Type 0
  pub Fetcher : Type 0
  pub Checker : Type 0
  pub checker : Fetcher → Checker
  pub ProofRequestBuilder : Type 0
  pub new_light : Config → Outcome Builder
  pub light_block_import : Client → Backend → Checker → Outcome BlockImport
  pub proof_request_builder : BlockImport → ProofRequestBuilder
  -- `with_import_queue_and_fprb(f)` calls `f` with the parts of the builder, and puts what it
  -- returns into the builder; it fails if `f` does.
  pub client_of : Builder → Client
  pub backend_of : Builder → Backend
  pub fetcher_of : Builder → Option Fetcher
  pub put_queue : Builder → Queue × ProofRequestBuilder → Builder
  pub with_import_queue_and_fprb :
      (Client → Backend → Option Fetcher → Outcome (Queue × ProofRequestBuilder))
      → Builder
      → Outcome Builder
  pub with_import_queue_and_fprb-ok :
      (f : Client → Backend → Option Fetcher → Outcome (Queue × ProofRequestBuilder))
      (b b' : Builder)
      → with_import_queue_and_fprb f b ≡ ok b'
      → (q : Queue × ProofRequestBuilder) × (f (client_of b) (backend_of b) (fetcher_of b) ≡ ok q)
        × (b' ≡ put_queue b q)
