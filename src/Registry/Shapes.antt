-- ===== src/Registry/Shapes.antt =====
-- The storage that registering and removing an enclave leaves, branch by branch.
use substra_tee_node_pre.Base.{
  ℕ, ◌+◌, ◌-◌, ◌≤◌, ◌<◌, ◌≡◌, ◌≢◌, Option, none, some, Bytes, arith, word,
}
use substra_tee_node_pre.Base.Outcome.{ok, err}
use substra_tee_node_pre.HostCalls.Report.{SgxReport}
use substra_tee_node_pre.Registry.Config.{Trait, Enclave}
use substra_tee_node_pre.Registry.{State, register_verified_enclave, remove_enclave}

module _ (T : Trait) where
  -- The index of an account, and the entry at an index.
  abbrev pub index_of : State T → T.AccountId → Option ℕ
  index_of s a = T.index_map.get? s.enclave_index a

  abbrev pub enclave_at : State T → ℕ → Option (Enclave T.AccountId)
  enclave_at s i = T.registry_map.get? s.enclave_registry i

  abbrev pub enclave_of : T.AccountId → SgxReport → Bytes → Enclave T.AccountId
  enclave_of a report url = record {
    pubkey = a;
    mr_enclave = report.mr_enclave;
    timestamp = report.timestamp;
    url = url;
  }

  unfoldable pub updated : State T → ℕ → Enclave T.AccountId → State T
  updated s i e = record s { enclave_registry = T.registry_map.insert s.enclave_registry i e }

  unfoldable pub added : State T → Enclave T.AccountId → State T
  added s e = record s {
    enclave_registry = T.registry_map.insert s.enclave_registry (s.enclave_count + 1) e;
    enclave_count = s.enclave_count + 1;
    enclave_index = T.index_map.insert s.enclave_index e.pubkey (s.enclave_count + 1);
  }

  unfoldable pub dropped_last : State T → T.AccountId → State T
  dropped_last s a = record s {
    enclave_registry = T.registry_map.remove s.enclave_registry s.enclave_count;
    enclave_count = s.enclave_count - 1;
    enclave_index = T.index_map.remove s.enclave_index a;
  }

  unfoldable pub swapped : State T → T.AccountId → ℕ → Enclave T.AccountId → State T
  swapped s a i last = record s {
    enclave_registry =
        T.registry_map.remove (T.registry_map.insert s.enclave_registry i last) s.enclave_count;
    enclave_count = s.enclave_count - 1;
    enclave_index = T.index_map.insert (T.index_map.remove s.enclave_index a) last.pubkey i;
  }

  module _ (a : T.AccountId) (report : SgxReport) (url : Bytes) (s : State T) where
    pub register_known :
        (i : ℕ)
        → index_of s a ≡ some i
        → register_verified_enclave T a report url s
          ≡ (ok tt, updated s i (enclave_of a report url))
    unfolding register_verified_enclave updated
    register_known i h = ground arith

    pub register_new :
        index_of s a ≡ none
        → s.enclave_count + 1 < word
        → register_verified_enclave T a report url s ≡ (ok tt, added s (enclave_of a report url))
    unfolding register_verified_enclave added
    register_new h fits = ground arith

    pub register_full :
        index_of s a ≡ none
        → word ≤ s.enclave_count + 1
        → register_verified_enclave T a report url s
          ≡ (err "[SubstraTEERegistry]: Overflow adding new enclave to registry", s)
    unfolding register_verified_enclave
    register_full h full = ground arith

  module _ (a : T.AccountId) (s : State T) where
    pub remove_unknown :
        index_of s a ≡ none
        → remove_enclave T a s
          ≡ (err "[SubstraTEERegistry]: Trying to remove an enclave that doesn't exist.", s)
    unfolding remove_enclave
    remove_unknown h = ground arith

    pub remove_last :
        index_of s a ≡ some s.enclave_count
        → 1 ≤ s.enclave_count
        → s.enclave_count < word
        → remove_enclave T a s ≡ (ok tt, dropped_last s a)
    unfolding remove_enclave dropped_last
    remove_last h pos fits = ground arith

    pub remove_middle :
        (i : ℕ) (last : Enclave T.AccountId)
        → index_of s a ≡ some i
        → enclave_at s s.enclave_count ≡ some last
        → 1 ≤ s.enclave_count
        → s.enclave_count < word
        → i ≢ s.enclave_count
        → remove_enclave T a s ≡ (ok tt, swapped s a i last)
    unfolding remove_enclave swapped
    remove_middle i last h at pos fits ne = ground arith
