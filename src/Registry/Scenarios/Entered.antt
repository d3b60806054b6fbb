-- ===== src/Registry/Scenarios/Entered.antt =====
-- runtime/src/substratee_registry.rs: the storage after one more enclave has registered.
use substra_tee_node_pre.Base.{ℕ, ◌+◌, ◌<◌, ◌≡◌, refl, ite, ◌∷◌, none, some, word}
use substra_tee_node_pre.Registry.Config.{Trait, Enclave, added_enclave}
use substra_tee_node_pre.Registry.{State}
use substra_tee_node_pre.Registry.Shapes.{index_of, enclave_at, added}
use substra_tee_node_pre.Registry.Invariant.{IsValid, added-IsValid}
use substra_tee_node_pre.Registry.Dispatch.Reach.{deposited}
use substra_tee_node_pre.Registry.Dispatch.Listing.{list_enclaves, list-added}

module _ (T : Trait) where
  unfoldable pub entered : State T → Enclave T.AccountId → State T
  entered s e = deposited T (added T s e) (added_enclave e.pubkey e.url)

  module _ (s : State T) (v : IsValid T s) (e : Enclave T.AccountId) where
    pub entered-IsValid :
        index_of T s e.pubkey ≡ none → s.enclave_count + 1 < word → IsValid T (entered s e)
    unfolding entered
    entered-IsValid new room =
        let w = added-IsValid T s v e new room in
        record {
          owned = w.owned;
          indexed = w.indexed;
          filled = w.filled;
          beyond = w.beyond;
          zero_free = w.zero_free;
          fits = w.fits;
          listed = w.listed;
        }

    pub list-entered : list_enclaves T (entered s e) ≡ (s.enclave_count + 1, e) ∷ list_enclaves T s
    unfolding entered
    list-entered = list-added T s v e

  module _ (s : State T) (e : Enclave T.AccountId) where
    pub count-entered : (entered s e).enclave_count ≡ s.enclave_count + 1
    unfolding entered added
    count-entered = refl

    pub index_of-entered :
        (b : T.AccountId)
        → index_of T (entered s e) b
          ≡ ite (T.index_map.key_eq e.pubkey b) (some (s.enclave_count + 1)) (index_of T s b)
    unfolding entered added
    index_of-entered b = T.index_map.get?-insert _ _ _ b

    pub enclave_at-entered :
        (i : ℕ)
        → enclave_at T (entered s e) i
          ≡ ite (T.registry_map.key_eq (s.enclave_count + 1) i) (some e) (enclave_at T s i)
    unfolding entered added
    enclave_at-entered i = T.registry_map.get?-insert _ _ _ i
