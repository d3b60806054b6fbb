-- ===== src/ChainSpec.antt =====
-- src/chain_spec.rs: the chains that the node knows by name, and their genesis.
pub mod Primitives
pub mod Names
pub mod Genesis
mod Tests
use Prim.Native.String.{◌++◌ as append}
use text.Mathlib.Text.{◌==◌ as str_eq}
use substra_tee_node_pre.Base.{
  ℕ, Bool, true, List, [], ◌∷◌, Option, none, some, Bytes, String, map, ◌^◌, if◌then◌else◌,
}
use substra_tee_node_pre.Base.Outcome.{Outcome, ok, unwrap, collect, ◌>>=◌}
use substra_tee_node_pre.ChainSpec.Primitives.{Keys}

pub data Alternative : Type 0 where
  development local_testnet : Alternative

-- `Alternative::from`
unfoldable pub from : String → Option Alternative
from s =
    if str_eq s "dev"
    then some development
    else if str_eq s ""
    then some local_testnet
    else if str_eq s "local"
    then some local_testnet
    else none

-- `TPublic` is the public key of a pair that the function reads from a text.
pub get_from_seed : {TPublic : Type 0} → (String → Option TPublic) → String → Outcome TPublic
get_from_seed from_string seed = unwrap (from_string (append "//" seed))

module _ (K : Keys) where
  pub get_account_id_from_seed : String → Outcome K.AccountId
  unfolding get_from_seed
  get_account_id_from_seed seed = do
    key ← get_from_seed K.sr25519_from_string seed
    ok (K.into_account key)

  pub get_authority_keys_from_seed : String → Outcome (K.AuraId × K.GrandpaId)
  unfolding get_from_seed
  get_authority_keys_from_seed s = do
    aura ← get_from_seed K.aura_from_string s
    grandpa ← get_from_seed K.grandpa_from_string s
    ok (aura, grandpa)

  -- The configurations of the runtime's modules at genesis, each of which is a `Some`.
  pub record GenesisConfig : Type 0 where
    pub code : Bytes
    pub changes_trie_config : K.ChangesTrieConfig
    pub indices : List K.AccountId
    pub balances : List (K.AccountId × ℕ)
    pub vesting : List K.Vesting
    pub sudo : K.AccountId
    pub aura : List K.AuraId
    pub grandpa : List (K.GrandpaId × ℕ)

  pub testnet_genesis :
      List (K.AuraId × K.GrandpaId) → K.AccountId → List K.AccountId → Bool → GenesisConfig
  testnet_genesis initial_authorities root_key endowed_accounts _enable_println = record {
    code = K.wasm_binary;
    changes_trie_config = K.changes_trie_default;
    indices = endowed_accounts;
    balances = map (λ k. (k, 2 ^ 60)) endowed_accounts;
    vesting = [];
    sudo = root_key;
    aura = map (λ x. x.0) initial_authorities;
    grandpa = map (λ x. (x.1, 1)) initial_authorities;
  }

  -- The closures that `load` gives to `ChainSpec::from_genesis`.
  pub genesis : Alternative → Outcome GenesisConfig
  genesis development = do
    authorities ← collect get_authority_keys_from_seed ("Alice" ∷ [])
    root ← get_account_id_from_seed "Alice"
    endowed ←
        collect get_account_id_from_seed ("Alice" ∷ "Bob" ∷ "Alice//stash" ∷ "Bob//stash" ∷ [])
    ok (testnet_genesis authorities root endowed true)
  genesis local_testnet = do
    authorities ← collect get_authority_keys_from_seed ("Alice" ∷ "Bob" ∷ [])
    root ← get_account_id_from_seed "Alice"
    endowed ← collect get_account_id_from_seed (
        "Alice" ∷ "Bob" ∷ "Charlie" ∷ "Dave" ∷ "Eve" ∷ "Ferdie" ∷ "Alice//stash" ∷ "Bob//stash"
        ∷ "Charlie//stash" ∷ "Dave//stash" ∷ "Eve//stash" ∷ "Ferdie//stash" ∷ [])
    ok (testnet_genesis authorities root endowed true)

  -- What `load` gives to `ChainSpec::from_genesis`: a name, an identifier and a genesis that is
  -- made when it is asked for. The other arguments are empty in both cases.
  pub record ChainSpec : Type 0 where
    pub name : String
    pub id : String
    pub constructor : Unit {0} → Outcome GenesisConfig

  unfoldable pub load : Alternative → Outcome ChainSpec
  load development =
      ok (record { name = "Development"; id = "dev"; constructor = λ _. genesis development })
  load local_testnet = ok (record {
    name = "Local Testnet";
    id = "local_testnet";
    constructor = λ _. genesis local_testnet;
  })

  -- `load_spec` of src/cli.rs
  unfoldable pub load_spec : String → Outcome (Option ChainSpec)
  unfolding from load
  load_spec id = elim (from id) [
    | none ↦ ok none
    | some spec ↦ load spec >>= λ loaded. ok (some loaded)
  ]
