-- ===== src/Runtime/Tests.antt =====
-- The runtime over stand-ins for Substrate: a chain on which account 1 registers its enclave.
use substra_tee_node_pre.Base.{
  ℕ, ◌≡◌, ◌≢◌, ◌∷◌, refl, Option, some, none, bytes_of, replicate, windows, position, retain, split,
  split_parts, ℕ_discrete,
}
use substra_tee_node_pre.Base.Int.{pos}
use substra_tee_node_pre.HostCalls.Report.{SgxStatus}
use substra_tee_node_pre.HostCalls.Certificate.{
  safe_indexing, safe_indexing_one, find_oid, read_length, public_key, netscape_comment,
}
use substra_tee_node_pre.HostCalls.Ca.{ias_report_ca, ca_core}
use substra_tee_node_pre.HostCalls.Attestation.{
  quote_status, ephemeral_key, attn_signature, read_quote, read_report, check_signer,
  verify_attn_report, ca_anchors, comment_fields, check_issuer, verify_mra_cert, verify_ra_report,
}
use substra_tee_node_pre.Registry.Checks.{check_registration}
use substra_tee_node_pre.Registry.Config.{Enclave}
use substra_tee_node_pre.Registry.Shapes.{enclave_of, enclave_at}
use substra_tee_node_pre.Registry.Directory.Provenance.{Attested}
use substra_tee_node_pre.Base.Outcome.{ok}
use substra_tee_node_pre.ChainSpec.{
  ChainSpec, local_testnet, GenesisConfig, genesis, from, load, load_spec,
}
use substra_tee_node_pre.ChainSpec.Genesis.{
  IsSound, HasKeys, Derives-all, authors_of, endowed_of, genesis-IsSound,
}
use substra_tee_node_pre.Examples.Assembly.{keys, primitives, crates, Chain}
use substra_tee_node_pre.Examples.Chain.{certificate, attn}
use substra_tee_node_pre.Registry.{init, register_enclave, register_verified_enclave}
use substra_tee_node_pre.Registry.Dispatch.{register, unregister, dispatch}
use substra_tee_node_pre.Registry.Dispatch.History.{Reach}
use substra_tee_node_pre.Runtime.Substrate.{registry_trait}
use substra_tee_node_pre.Runtime.{
  RuntimeCall, sudo, substratee_registry, dispatch_call, RuntimeApi, apply_extrinsic, answer_api,
}
use substra_tee_node_pre.Runtime.Root.{registry_call, LeavesAsRoot-unchanged}
use substra_tee_node_pre.Runtime.History.{
  IsUnprivileged, IsOrdinary, Reached, built, called, Reached-Reach, Reached-Attested,
}

never : {A : Type 0} {a : A} → some a ≢ none
never e = cc

local_keys : HasKeys keys (authors_of keys local_testnet) (endowed_of keys local_testnet)
local_keys = record {
  aura = Derives-all keys keys.aura_from_string (λ s. never) (authors_of keys local_testnet);
  grandpa = Derives-all keys keys.grandpa_from_string (λ s. never) (authors_of keys local_testnet);
  accounts = Derives-all keys keys.sr25519_from_string (λ s. never) (endowed_of keys local_testnet);
}

abbrev first_genesis :
    (g : GenesisConfig keys) × (genesis keys local_testnet ≡ ok g) × IsSound keys g
first_genesis = genesis-IsSound keys local_testnet local_keys

abbrev enters : RuntimeCall crates
enters = substratee_registry (register certificate attn (bytes_of "ws://"))

abbrev first_block : RuntimeApi crates
first_block = apply_extrinsic (1, enters)

abbrev second_block : RuntimeApi crates
second_block = apply_extrinsic (1, sudo (substratee_registry unregister))

abbrev at_genesis : Chain
at_genesis = init (registry_trait primitives)

abbrev entered : Chain
entered = (answer_api crates first_block at_genesis).1

abbrev local_spec : ChainSpec keys
local_spec = record {
  name = "Local Testnet";
  id = "local_testnet";
  constructor = λ _. genesis keys local_testnet;
}

local_loads : load_spec keys "local" ≡ ok (some local_spec)
unfolding load_spec load from
local_loads = refl

genesis-Reached : Reached crates at_genesis
genesis-Reached =
    built "local" local_spec first_genesis.0 at_genesis local_loads first_genesis.1 refl

first-IsOrdinary : IsOrdinary crates first_block
unfolding IsOrdinary IsUnprivileged
first-IsOrdinary = tt

second-IsOrdinary : IsOrdinary crates second_block
unfolding IsOrdinary IsUnprivileged
second-IsOrdinary = registry_call unregister

entered-Reached : Reached crates entered
entered-Reached = called first_block at_genesis first-IsOrdinary genesis-Reached

Reached-Reach_example : Reach (registry_trait primitives) (answer_api crates second_block entered).1
Reached-Reach_example =
    Reached-Reach crates (called second_block entered second-IsOrdinary entered-Reached)

-- The sudo key is account 1, and its proposal is run.
key_runs : (dispatch_call crates (sudo (substratee_registry unregister)) (some 1) entered).0 ≡ ok tt
unfolding dispatch_call
key_runs = refl

LeavesAsRoot-unchanged_example :
    ((s : Chain) → (dispatch_call crates (substratee_registry unregister) none s).1 ≡ s)
    × ((o : Option ℕ) (s : Chain)
        → (dispatch_call crates (sudo (substratee_registry unregister)) o s).1 ≡ s)
LeavesAsRoot-unchanged_example = LeavesAsRoot-unchanged crates (registry_call unregister)

abbrev first_enclave : Enclave ℕ
first_enclave =
    enclave_of (registry_trait primitives) 1
      (record {
        mr_enclave = replicate 32 9;
        pubkey = 1 ∷ replicate 31 0;
        status = SgxStatus.ok;
        timestamp = pos 1_580_587_262;
      })
      (bytes_of "ws://")

first_there : enclave_at (registry_trait primitives) entered 1 ≡ some first_enclave
unfolding answer_api dispatch_call dispatch init register_enclave register_verified_enclave
    check_registration verify_ra_report verify_mra_cert public_key netscape_comment find_oid
    read_length safe_indexing safe_indexing_one windows position comment_fields split split_parts
    check_issuer ca_anchors ca_core ias_report_ca retain verify_attn_report read_report read_quote
    quote_status check_signer ephemeral_key attn_signature ℕ_discrete
first_there = refl

Reached-Attested_example :
    Attested (registry_trait primitives) (Reached-Reach crates entered-Reached) first_enclave
Reached-Attested_example = Reached-Attested crates entered-Reached 1 first_enclave first_there
