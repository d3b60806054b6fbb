-- ===== src/Examples/Texts.antt =====
-- Keys of a chain that are texts: every seed leads to a key.
use substra_tee_node_pre.Base.{some, [], String}
use substra_tee_node_pre.ChainSpec.Primitives.{Keys}

abbrev pub texts : Keys
texts = record {
  AuraId = String;
  aura_from_string = some;
  GrandpaId = String;
  grandpa_from_string = some;
  Sr25519 = String;
  sr25519_from_string = some;
  AccountId = String;
  into_account = λ s. s;
  wasm_binary = [];
  ChangesTrieConfig = Unit {0};
  changes_trie_default = tt;
  Vesting = Unit {0};
}
