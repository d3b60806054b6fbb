-- ===== src/ChainSpec/Primitives.antt =====
-- What src/chain_spec.rs uses of other crates: the key pairs of the primitives, the accounts of
-- the runtime, and the runtime's code, which the build makes.
use substra_tee_node_pre.Base.{Option, Bytes, String}

pub record Keys : Type 1 where
  -- `Pair::from_string(text, None)` and its `public()`, for each kind of key
  pub AuraId : Type 0
  pub aura_from_string : String → Option AuraId
  pub GrandpaId : Type 0
  pub grandpa_from_string : String → Option GrandpaId
  pub Sr25519 : Type 0
  pub sr25519_from_string : String → Option Sr25519
  -- `AccountPublic::from(key).into_account()`
  pub AccountId : Type 0
  pub into_account : Sr25519 → AccountId
  -- `WASM_BINARY`, and what the genesis of the modules leaves at its default
  pub wasm_binary : Bytes
  pub ChangesTrieConfig : Type 0
  pub changes_trie_default : ChangesTrieConfig
  pub Vesting : Type 0
