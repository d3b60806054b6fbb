-- ===== src/Registry/Scenarios.antt =====
-- runtime/src/substratee_registry.rs: the tests of the pallet, as programs on its storage over any
-- accounts and certificates in place of the test data.
pub mod Steps
pub mod Entered
pub mod Middle
pub mod Single
pub mod Confirms
pub mod All
mod Tests
use mathlib.Core.List.{List-discrete}
use mathlib.Core.HLevel.{×_discrete}
use substra_tee_node_pre.Base.Int.{ℤ}
use substra_tee_node_pre.Base.{
  ℕ, Bool, ◌≡◌, true, false, ◌||◌, List, [], ◌∷◌, Bytes, ℕ_discrete, if◌then◌else◌, replicate,
  Bytes-discrete,
}
use substra_tee_node_pre.Base.Outcome.{ok, err, fault, panic}
use substra_tee_node_pre.Base.Exec.{pure, ◌>>◌}
use substra_tee_node_pre.Storage.{get_or}
use substra_tee_node_pre.HostCalls.Report.{SgxReport}
use substra_tee_node_pre.Registry.Config.{
  Trait, Enclave, Request, Event, updated_ipfs_hash, call_confirmed, forwarded,
}
use substra_tee_node_pre.Registry.{
  State, Action, init, default_enclave, register_enclave, unregister_enclave, call_worker,
  confirm_call,
}
use substra_tee_node_pre.Registry.Shapes.{enclave_of}
use substra_tee_node_pre.Registry.Dispatch.Listing.{list_enclaves}

-- The derived `PartialEq` of the types that the tests compare.
pub ℤ-discrete : Discrete ℤ
ℤ-discrete = hlevel ℕ_discrete

pub Enclave-discrete : {A : Type 0} → Discrete A → Discrete (Enclave A)
Enclave-discrete d = hlevel (d, Bytes-discrete, ℤ-discrete)

pub Request-discrete : {H : Type 0} → Discrete H → Discrete (Request H)
Request-discrete h = hlevel (h, Bytes-discrete)

pub Event-discrete : {A H : Type 0} → Discrete A → Discrete H → Discrete (Event A H)
Event-discrete d h = hlevel (d, h, ℕ_discrete, Bytes-discrete, Request-discrete h)

-- What stands for the data of the tests: `Origin::signed`, the URL and the shard.
pub record Setting (T : Trait) : Type 0 where
  pub signed : T.AccountId → T.Origin
  pub url : Bytes
  pub shard : T.ShardIdentifier

-- A signer with its certificate, and what the certificate says.
pub record TestEnclave (T : Trait) : Type 0 where
  pub signer : T.AccountId
  pub cert : Bytes
  pub signer_attn : List ℕ
  pub report : SgxReport

module _ (T : Trait) (S : Setting T) where
  -- The statements of a test.
  abbrev pub Script : Type 0
  Script = List (Action T (Unit {0}))

  abbrev pub listing_eq : Discrete (List (ℕ × Enclave T.AccountId))
  listing_eq = List-discrete (×_discrete ℕ_discrete (Enclave-discrete T.account_eq))

  -- `assert_ok!`
  unfoldable pub assert_ok : Action T (Unit {0}) → Action T (Unit {0})
  assert_ok m s = elim (m s).0 [
    | ok _ ↦ (ok tt, (m s).1)
    | err e ↦ (fault panic, (m s).1)
    | fault x ↦ (fault x, (m s).1)
  ]

  -- `assert!(r.is_err())`
  unfoldable pub assert_is_err : Action T (Unit {0}) → Action T (Unit {0})
  assert_is_err m s = elim (m s).0 [
    | ok _ ↦ (fault panic, (m s).1)
    | err e ↦ (ok tt, (m s).1)
    | fault x ↦ (fault x, (m s).1)
  ]

  -- `assert_eq!` of what is read from the storage
  unfoldable pub assert_eq : {A : Type 0} → Discrete A → (State T → A) → A → Action T (Unit {0})
  assert_eq d read a s = elim (d (read s) a) [ yes _ ↦ (ok tt, s) | no _ ↦ (fault panic, s) ]

  abbrev pub is_event :
      Event T.AccountId T.ShardIdentifier → Event T.AccountId T.ShardIdentifier → Bool
  is_event e a = elim (Event-discrete T.account_eq T.ipfs_map.key_eq a e) [
    | yes _ ↦ true
    | no _ ↦ false
  ]

  abbrev pub any_event :
      Event T.AccountId T.ShardIdentifier → List (Event T.AccountId T.ShardIdentifier) → Bool
  any_event e [] = false
  any_event e (a ∷ l) = is_event e a || any_event e l

  -- `assert!(System::events().iter().any(|a| a.event == expected_event))`
  unfoldable pub assert_event : Event T.AccountId T.ShardIdentifier → Action T (Unit {0})
  assert_event e s = if any_event e s.events then (ok tt, s) else (fault panic, s)

  abbrev pub registers : TestEnclave T → Bytes → Action T (Unit {0})
  registers t url = register_enclave T (S.signed t.signer) t.cert t.signer_attn url

  abbrev pub expected : TestEnclave T → Enclave T.AccountId
  expected t = enclave_of T t.signer t.report S.url

  abbrev pub add_enclave_works : TestEnclave T → Script
  add_enclave_works t =
      assert_ok (registers t S.url) ∷ assert_eq ℕ_discrete (λ s. s.enclave_count) 1 ∷ []

  abbrev pub add_and_remove_enclave_works : TestEnclave T → Script
  add_and_remove_enclave_works t =
      assert_ok (registers t S.url)
      ∷ assert_eq ℕ_discrete (λ s. s.enclave_count) 1
      ∷ assert_ok (unregister_enclave T (S.signed t.signer))
      ∷ assert_eq ℕ_discrete (λ s. s.enclave_count) 0
      ∷ assert_eq listing_eq (list_enclaves T) []
      ∷ []

  -- `assert_eq!(enclaves[0].1.pubkey, signer)`
  unfoldable pub assert_first : T.AccountId → Action T (Unit {0})
  assert_first a s = elim (list_enclaves T s) [
    | [] ↦ (fault panic, s)
    | (i, e) ∷ l ↦ elim (T.account_eq e.pubkey a) [ yes _ ↦ (ok tt, s) | no _ ↦ (fault panic, s) ]
  ]

  abbrev pub list_enclaves_works : TestEnclave T → Script
  list_enclaves_works t =
      assert_ok (registers t S.url)
      ∷ assert_eq ℕ_discrete (λ s. s.enclave_count) 1
      ∷ assert_first t.signer
      ∷ []

  abbrev pub remove_middle_enclave_works : TestEnclave T → TestEnclave T → TestEnclave T → Script
  remove_middle_enclave_works t1 t2 t3 =
      assert_ok (registers t1 S.url)
      ∷ assert_eq ℕ_discrete (λ s. s.enclave_count) 1
      ∷ assert_eq listing_eq (list_enclaves T) ((1, expected t1) ∷ [])
      ∷ assert_ok (registers t2 S.url)
      ∷ assert_eq ℕ_discrete (λ s. s.enclave_count) 2
      ∷ assert_eq listing_eq (list_enclaves T) ((2, expected t2) ∷ (1, expected t1) ∷ [])
      ∷ assert_ok (registers t3 S.url)
      ∷ assert_eq ℕ_discrete (λ s. s.enclave_count) 3
      ∷ assert_eq listing_eq (list_enclaves T)
          ((3, expected t3) ∷ (2, expected t2) ∷ (1, expected t1) ∷ [])
      ∷ assert_ok (unregister_enclave T (S.signed t2.signer))
      ∷ assert_eq ℕ_discrete (λ s. s.enclave_count) 2
      ∷ assert_eq listing_eq (list_enclaves T) ((2, expected t3) ∷ (1, expected t1) ∷ [])
      ∷ []

  -- The code runs this test outside of a storage, which the call does not reach.
  abbrev pub register_invalid_enclave_fails : TestEnclave T → Script
  register_invalid_enclave_fails t =
      assert_is_err (register_enclave T (S.signed t.signer) [] (replicate 16 0) S.url) ∷ []

  abbrev pub url_at : ℕ → State T → Bytes
  url_at i s = (get_or T.registry_map.map s.enclave_registry i (default_enclave T)).url

  abbrev pub update_enclave_url_works : TestEnclave T → Bytes → Script
  update_enclave_url_works t url2 =
      assert_ok (registers t S.url)
      ∷ assert_eq Bytes-discrete (url_at 1) S.url
      ∷ assert_ok (registers t url2)
      ∷ assert_eq Bytes-discrete (url_at 1) url2
      ∷ assert_first t.signer
      ∷ []

  abbrev pub update_ipfs_hash_works : TestEnclave T → Bytes → Bytes → Script
  update_ipfs_hash_works t request_hash ipfs_hash =
      assert_ok (registers t S.url)
      ∷ assert_eq ℕ_discrete (λ s. s.enclave_count) 1
      ∷ assert_ok (confirm_call T (S.signed t.signer) S.shard request_hash ipfs_hash)
      ∷ assert_eq Bytes-discrete (λ s. get_or T.ipfs_map s.latest_ipfs_hash S.shard []) ipfs_hash
      ∷ assert_eq ℕ_discrete (λ s. get_or T.worker_map s.worker_for_shard S.shard 0) 1
      ∷ assert_event (updated_ipfs_hash S.shard 1 ipfs_hash)
      ∷ assert_event (call_confirmed t.signer request_hash)
      ∷ []

  abbrev pub ipfs_update_from_unregistered_enclave_fails : TestEnclave T → Bytes → Script
  ipfs_update_from_unregistered_enclave_fails t ipfs_hash =
      assert_is_err (confirm_call T (S.signed t.signer) S.shard [] ipfs_hash) ∷ []

  abbrev pub call_worker_works : TestEnclave T → Bytes → Script
  call_worker_works t cyphertext =
      let req : Request T.ShardIdentifier = record { shard = S.shard; cyphertext = cyphertext } in
      assert_ok (call_worker T (S.signed t.signer) req) ∷ assert_event (forwarded req) ∷ []

  -- The statements one after the other, until one panics.
  unfoldable pub run_script : Script → Action T (Unit {0})
  run_script [] = pure tt
  run_script (m ∷ ms) = m >> run_script ms

  -- A test on the storage of a new chain does not panic.
  abbrev pub Passes : Script → Type 0
  Passes ms = (run_script ms (init T)).0 ≡ ok tt
