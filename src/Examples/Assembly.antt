-- ===== src/Examples/Assembly.antt =====
-- Stand-ins for what the runtime is put together from: the storage of the chain is that of the
-- registry, an extrinsic is an account with a call, a block is a list of them, and the other
-- modules do nothing.
use substra_tee_node_pre.Base.{
  ℕ, ◌*◌, ◌≡◌, ◌≢◌, ◌⊎◌, inl, inr, refl, Option, none, some, List, [], ◌∷◌, zero, suc,
}
use substra_tee_node_pre.Base.Outcome.{ok, err}
use substra_tee_node_pre.Base.Exec.{Exec, pure, modify}
use substra_tee_node_pre.ChainSpec.Primitives.{Keys}
use substra_tee_node_pre.Examples.Chain.{chain}
use substra_tee_node_pre.Registry.{State, init}
use substra_tee_node_pre.Runtime.Substrate.{
  Primitives, registry_trait, Applied, done, dispatched, Crates,
}
use substra_tee_node_pre.Registry.Dispatch.History.{without_events}

-- Every seed leads to a key, and every key is account 1.
abbrev pub keys : Keys
keys = record {
  AuraId = ℕ;
  aura_from_string = λ s. some 1;
  GrandpaId = ℕ;
  grandpa_from_string = λ s. some 1;
  Sr25519 = ℕ;
  sr25519_from_string = λ s. some 1;
  AccountId = ℕ;
  into_account = λ k. k;
  wasm_binary = [];
  ChangesTrieConfig = Unit {0};
  changes_trie_default = tt;
  Vesting = Unit {0};
}

pub root_unsigned : (a : ℕ) → chain.ensure_signed none ≢ ok a
root_unsigned a e = cc

abbrev pub primitives : Primitives
primitives = record {
  keys = keys;
  account_eq = chain.account_eq;
  default_account = 0;
  encode = chain.encode;
  decode = chain.decode;
  decode-encode = chain.decode-encode;
  length-encode = chain.length-encode;
  Hash = ℕ;
  Origin = Option ℕ;
  signed = some;
  root = none;
  ensure_signed = chain.ensure_signed;
  ensure_signed-signed = λ a. refl;
  ensure_signed-root = root_unsigned;
  libs = chain.libs;
  registry_map = chain.registry_map;
  index_map = chain.index_map;
  ipfs_map = chain.ipfs_map;
  worker_map = chain.worker_map;
  Apis = Unit {0};
  runtime_api_versions = tt;
}

abbrev pub Chain : Type 0
Chain = State (registry_trait primitives)

module _ {Call : Type 0} (dispatch : Call → Option ℕ → Exec Chain (Unit {0})) where
  pub run_all : List (ℕ × Call) → Exec Chain (Unit {0})
  run_all [] s = (ok tt, s)
  run_all ((a, c) ∷ xs) s = run_all xs (dispatch c (some a) s).1

  pub run_all-Applied :
      (b : List (ℕ × Call)) (s : Chain)
      → Applied none (λ (t : Chain). t) (λ (x : ℕ × Call). x.1) dispatch b s (run_all b s).1
  unfolding run_all
  run_all-Applied [] s = done s
  run_all-Applied ((a, c) ∷ xs) s =
      dispatched (a, c) xs (some a) s (run_all xs (dispatch c (some a) s).1).1 (λ e. cc)
        (run_all-Applied xs (dispatch c (some a) s).1)

-- The proposal of the sudo key, which is account 1
abbrev pub sudo : (Option ℕ → Exec Chain (Unit {0})) → Option ℕ → Exec Chain (Unit {0})
sudo proposal (some (suc zero)) s = (ok tt, (proposal none s).1)
sudo proposal _ s = (err "RequireSudo", s)

pub sudo-registry :
    (proposal : Option ℕ → Exec Chain (Unit {0})) (o : Option ℕ) (s : Chain)
    → ((sudo proposal o s).1 ≡ s)
      ⊎ ((t : Chain) × (t ≡ s) × ((sudo proposal o s).1 ≡ (proposal none t).1))
sudo-registry proposal none s = inl refl
sudo-registry proposal (some zero) s = inl refl
sudo-registry proposal (some (suc zero)) s = inr (s, refl, refl)
sudo-registry proposal (some (suc (suc n))) s = inl refl

pub built :
    (s : Chain)
    → ok (init (registry_trait primitives)) ≡ ok s
    → s ≡ init (registry_trait primitives)
built s e = cc

pub signs : {a : ℕ} → some a ≢ none
signs e = cc

abbrev pub crates : Crates primitives
crates = record {
  Storage = Chain;
  registry = λ s. s;
  write_registry = λ r s. r;
  registry-write_registry = λ r s. refl;
  OtherCall = λ name. Unit {0};
  dispatch_other = λ c name x o. pure tt;
  dispatch_other-registry = λ c name x o s ne. refl;
  sudo = sudo;
  sudo-registry = sudo-registry;
  Extrinsic = λ Call. ℕ × Call;
  function = λ x. x.1;
  Block = λ Call. List (ℕ × Call);
  extrinsics = λ b. b;
  Header = Unit {0};
  build_storage = λ a g. ok (init (registry_trait primitives));
  build_storage-registry = λ a g s none_configured e. built s e;
  ApplyResult = Unit {0};
  apply_extrinsic = λ a x s. a.dispatcher x.1 (some x.0) s;
  apply_extrinsic-Applied = λ a x s. dispatched x [] (some x.0) s _ signs (done _);
  execute_block = λ a b s. run_all a.dispatcher b (without_events (registry_trait primitives) s);
  execute_block-Applied =
      λ a b s. inr (run_all-Applied a.dispatcher b (without_events (registry_trait primitives) s));
  initialize_block = λ a h. modify (without_events (registry_trait primitives));
  initialize_block-registry = λ a h s. refl;
  finalize_block = λ a. pure tt;
  finalize_block-registry = λ a s. refl;
  TransactionValidity = Unit {0};
  validate_transaction = λ a x. pure tt;
  validate_transaction-registry = λ a x s. refl;
  offchain_worker = λ a n. pure tt;
  offchain_worker-registry = λ a n s. refl;
  Metadata = Unit {0};
  metadata = λ rows. tt;
  InherentData = Unit {0};
  create_extrinsics = λ rows d. [];
  CheckInherentsResult = Unit {0};
  check_extrinsics = λ rows d b. tt;
  random_seed = λ s. 0;
  aura_slot_duration = λ m. m * 2;
  aura_slot_duration-doubles = λ m. refl;
  aura_authorities = λ s. [];
  generate_session_keys = λ names seed. ok [];
  GrandpaAuthorityList = Unit {0};
  grandpa_authorities = λ s. tt;
}
