-- ===== src/ChainSpec/Tests.antt =====
-- The chains, over keys that are texts.
use substra_tee_node_pre.Base.{◌≡◌, ◌≢◌, ◌↔◌, refl, none, some}
use substra_tee_node_pre.Base.Outcome.{ok}
use substra_tee_node_pre.Examples.Texts.{texts}
use substra_tee_node_pre.ChainSpec.{
  Alternative, development, local_testnet, from, load, load_spec, ChainSpec, GenesisConfig, genesis,
}
use substra_tee_node_pre.ChainSpec.Names.{Names, load_spec_lem}
use substra_tee_node_pre.ChainSpec.Genesis.{
  IsSound, HasKeys, Derives-all, authors_of, endowed_of, genesis-IsSound,
}

never : {A : Type 0} {a : A} → some a ≢ none
never e = cc

-- Every text is a key.
local_keys : HasKeys texts (authors_of texts local_testnet) (endowed_of texts local_testnet)
local_keys = record {
  aura = Derives-all texts texts.aura_from_string (λ s. never) (authors_of texts local_testnet);
  grandpa =
      Derives-all texts texts.grandpa_from_string (λ s. never) (authors_of texts local_testnet);
  accounts =
      Derives-all texts texts.sr25519_from_string (λ s. never) (endowed_of texts local_testnet);
}

genesis-IsSound_example :
    (g : GenesisConfig texts) × (genesis texts local_testnet ≡ ok g) × IsSound texts g
genesis-IsSound_example = genesis-IsSound texts local_testnet local_keys

abbrev dev_spec : ChainSpec texts
dev_spec = record { name = "Development"; id = "dev"; constructor = λ _. genesis texts development }

load_spec_lem_example :
    (load_spec texts "dev" ≡ ok (some dev_spec))
    ↔ ((a : Alternative) × Names "dev" a × (load texts a ≡ ok dev_spec))
load_spec_lem_example = load_spec_lem texts "dev" dev_spec

unknown_name : load_spec texts "main" ≡ ok none
unfolding load_spec from
unknown_name = refl
