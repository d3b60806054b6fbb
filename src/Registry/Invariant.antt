-- ===== src/Registry/Invariant.antt =====
-- The registry is a list without holes: the indices 1 to the count hold the enclaves, and the
-- index map leads from each enclave's account to its entry.
use substra_tee_node_pre.Base.{
  ℕ, ◌+◌, ◌≤◌, ◌<◌, ◌≡◌, ◌≢◌, ◌∙◌, inl, inr, Option, none, some, arith, word, length, Option-cases,
}
use substra_tee_node_pre.Storage.Listing.{length-insert_new, length-insert_old, length-remove}
use substra_tee_node_pre.Registry.Config.{Trait, Enclave}
use substra_tee_node_pre.Registry.{State, init}
use substra_tee_node_pre.Registry.Shapes.{
  index_of, enclave_at, updated, added, dropped_last, swapped,
}

module _ (T : Trait) where
  -- The account of the entry at an index.
  abbrev pub owner : State T → ℕ → Option T.AccountId
  owner s i = elim (enclave_at T s i) [ none ↦ none | some e ↦ some e.pubkey ]

  pub record IsValid (s : State T) : Type 0 where
    pub owned : (a : T.AccountId) (i : ℕ) → index_of T s a ≡ some i → owner s i ≡ some a
    pub indexed : (a : T.AccountId) (i : ℕ) → owner s i ≡ some a → index_of T s a ≡ some i
    pub filled : (i : ℕ) → 1 ≤ i → i ≤ s.enclave_count → enclave_at T s i ≢ none
    pub beyond : (i : ℕ) → s.enclave_count < i → enclave_at T s i ≡ none
    pub zero_free : enclave_at T s 0 ≡ none
    pub fits : s.enclave_count < word
    pub listed : length (T.registry_map.enumerate s.enclave_registry) ≡ s.enclave_count

  pub init-IsValid : IsValid (init T)
  unfolding init
  init-IsValid = record {
    owned = λ a i h. cc (T.index_map.get?-empty a);
    indexed = λ a i h. cc (T.registry_map.get?-empty i);
    filled = λ i p q. absurd (omega arith);
    beyond = λ i h. T.registry_map.get?-empty i;
    zero_free = T.registry_map.get?-empty 0;
    fits = omega arith;
    listed = rw T.registry_map.enumerate-empty;
  }

  module _ (s : State T) (v : IsValid s) where
    -- An index that leads to an entry lies between 1 and the count.
    pub index_bounds :
        (a : T.AccountId) (i : ℕ) → index_of T s a ≡ some i → (1 ≤ i) × (i ≤ s.enclave_count)
    index_bounds a i h = ground (arith, v.owned a i h, v.beyond i, v.zero_free)

    -- An index below the count leads to an entry.
    pub entry_of :
        (a : T.AccountId) (i : ℕ)
        → index_of T s a ≡ some i
        → (e : Enclave T.AccountId) × (enclave_at T s i ≡ some e) × (e.pubkey ≡ a)
    entry_of a i h = elim (Option-cases (enclave_at T s i)) [
      | inl no_entry ↦ absurd (ground (arith, v.owned a i h))
      | inr (e, at) ↦ (e, at, ground (arith, v.owned a i h))
    ]

    -- The entry of an account that has its index already is written anew.
    pub updated-IsValid :
        (i : ℕ) (e : Enclave T.AccountId)
        → index_of T s e.pubkey ≡ some i
        → IsValid (updated T s i e)
    unfolding updated
    updated-IsValid i e h =
        let bounds = index_bounds e.pubkey i h in
        let (old, at, _) = entry_of e.pubkey i h in
        let at_index = λ (j : ℕ). T.registry_map.get?-insert s.enclave_registry i e j in
        record {
          owned = λ a j g. ground (arith, at_index j, v.owned a j g, v.owned e.pubkey i h);
          indexed = λ a j g. ground (arith, at_index j, v.indexed a j, h);
          filled = λ j p q. ground (arith, at_index j, v.filled j p q);
          beyond = λ j g. ground (arith, at_index j, v.beyond j g);
          zero_free = ground (arith, at_index 0, v.zero_free);
          fits = v.fits;
          listed = length-insert_old T.registry_map s.enclave_registry i e at ∙ v.listed;
        }

    -- A new account gets the next index.
    pub added-IsValid :
        (e : Enclave T.AccountId)
        → index_of T s e.pubkey ≡ none
        → s.enclave_count + 1 < word
        → IsValid (added T s e)
    unfolding added
    added-IsValid e new fits =
        let n = s.enclave_count + 1 in
        let free = v.beyond n (omega arith) in
        let at_index = λ (j : ℕ). T.registry_map.get?-insert s.enclave_registry n e j in
        let of = λ (a : T.AccountId). T.index_map.get?-insert s.enclave_index e.pubkey n a in
        record {
          owned = λ a j g. ground (arith, at_index j, of a, v.owned a j, free);
          indexed = λ a j g. ground (arith, at_index j, of a, v.indexed a j);
          filled = λ j p q. ground (arith, at_index j, v.filled j p);
          beyond = λ j g. ground (arith, at_index j, v.beyond j);
          zero_free = ground (arith, at_index 0, v.zero_free);
          fits = fits;
          listed =
              omega (arith, length-insert_new T.registry_map s.enclave_registry n e free, v.listed);
        }

    -- The last entry is dropped.
    pub dropped_last-IsValid :
        (a : T.AccountId) → index_of T s a ≡ some s.enclave_count → IsValid (dropped_last T s a)
    unfolding dropped_last
    dropped_last-IsValid a h =
        let n = s.enclave_count in
        let bounds = index_bounds a n h in
        let (old, at, own) = entry_of a n h in
        let at_index = λ (j : ℕ). T.registry_map.get?-remove s.enclave_registry n j in
        let of = λ (b : T.AccountId). T.index_map.get?-remove s.enclave_index a b in
        record {
          owned = λ b j g. ground (arith, at_index j, of b, v.owned b j);
          indexed = λ b j g. ground (arith, at_index j, of b, v.indexed b j);
          filled = λ j p q. ground (arith, at_index j, v.filled j p);
          beyond = λ j g. ground (arith, at_index j, v.beyond j);
          zero_free = ground (arith, at_index 0, v.zero_free);
          fits = ground (arith, v.fits);
          listed = omega (arith, length-remove T.registry_map s.enclave_registry n at, v.listed);
        }

    -- The last entry takes the place of the removed one.
    pub swapped-IsValid :
        (a : T.AccountId) (i : ℕ) (last : Enclave T.AccountId)
        → index_of T s a ≡ some i
        → enclave_at T s s.enclave_count ≡ some last
        → i ≢ s.enclave_count
        → IsValid (swapped T s a i last)
    unfolding swapped
    swapped-IsValid a i last h at ne =
        let n = s.enclave_count in
        let bounds = index_bounds a i h in
        let (old, at_i, own) = entry_of a i h in
        let moved = T.registry_map.insert s.enclave_registry i last in
        let at_moved = λ (j : ℕ). T.registry_map.get?-insert s.enclave_registry i last j in
        let at_index = λ (j : ℕ). T.registry_map.get?-remove moved n j in
        let rest = T.index_map.remove s.enclave_index a in
        let of_rest = λ (b : T.AccountId). T.index_map.get?-remove s.enclave_index a b in
        let of = λ (b : T.AccountId). T.index_map.get?-insert rest last.pubkey i b in
        record {
          owned = λ b j g. ground (
            arith,
            at_moved j,
            at_index j,
            of b,
            of_rest b,
            v.owned b j,
            v.indexed last.pubkey n,
            v.owned a i h,
          );
          indexed = λ b j g. ground (
            arith,
            at_moved j,
            at_index j,
            of b,
            of_rest b,
            v.indexed b j,
            v.indexed last.pubkey n,
          );
          filled = λ j p q. ground (arith, at_moved j, at_index j, v.filled j p);
          beyond = λ j g. ground (arith, at_moved j, at_index j, v.beyond j);
          zero_free = ground (arith, at_moved 0, at_index 0, v.zero_free);
          fits = ground (arith, v.fits);
          listed = omega (
            arith,
            length-remove T.registry_map moved n {w = last} (ground (arith, at_moved n, at)),
            length-insert_old T.registry_map s.enclave_registry i last at_i,
            v.listed,
          );
        }
