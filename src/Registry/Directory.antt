-- ===== src/Registry/Directory.antt =====
-- What the registry promises, with no indices: a directory from accounts to enclaves. The storage
-- is seen as a directory, and each end of a write as a change of it.
pub mod Refinement
pub mod RoundTrip
pub mod Provenance
pub mod Abstract
pub mod Ledger
pub mod Swap
use substra_tee_node_pre.Base.{
  ℕ, ◌+◌, ◌≡◌, ◌≢◌, inl, inr, Option, none, some, arith, ite, Option-cases,
}
use substra_tee_node_pre.Registry.Config.{Trait, Enclave}
use substra_tee_node_pre.Registry.{State}
use substra_tee_node_pre.Registry.Shapes.{
  index_of, enclave_at, updated, added, dropped_last, swapped,
}
use substra_tee_node_pre.Registry.Invariant.{IsValid, index_bounds, entry_of}

module _ (T : Trait) where
  abbrev pub Directory : Type 0
  Directory = T.AccountId → Option (Enclave T.AccountId)

  unfoldable pub view : State T → Directory
  view s a = elim (index_of T s a) [ none ↦ none | some i ↦ enclave_at T s i ]

  abbrev pub register_in : Directory → Enclave T.AccountId → Directory
  register_in d e b = ite (T.account_eq e.pubkey b) (some e) (d b)

  abbrev pub remove_from : Directory → T.AccountId → Directory
  remove_from d a b = ite (T.account_eq a b) none (d b)

  module _ (s : State T) (v : IsValid T s) where
    -- An account has an index exactly when the directory has its enclave.
    pub view_absent : (a : T.AccountId) → index_of T s a ≡ none → view s a ≡ none
    unfolding view
    view_absent a h = rw (h, view)

    pub view_present :
        (a : T.AccountId) (i : ℕ)
        → index_of T s a ≡ some i
        → (e : Enclave T.AccountId) × (view s a ≡ some e) × (e.pubkey ≡ a)
    unfolding view
    view_present a i h = let (e, at, own) = entry_of T s v a i h in (e, rw (h, view) at, own)

    -- Two accounts do not share an index.
    apart :
        (a b : T.AccountId) (i j : ℕ)
        → index_of T s a ≡ some i
        → index_of T s b ≡ some j
        → a ≢ b
        → i ≢ j
    apart a b i j h g ne e = ground (arith, v.owned a i h, v.owned b j g)

    pub view-updated :
        (i : ℕ) (e : Enclave T.AccountId)
        → index_of T s e.pubkey ≡ some i
        → (b : T.AccountId) → view (updated T s i e) b ≡ register_in (view s) e b
    unfolding view updated
    view-updated i e h b = elim (Option-cases (index_of T s b)) [
      | inl g ↦ ground arith
      | inr (j, g) ↦
          ground
            (arith, T.registry_map.get?-insert s.enclave_registry i e j, apart e.pubkey b i j h g)
    ]

    pub view-added :
        (e : Enclave T.AccountId)
        → index_of T s e.pubkey ≡ none
        → (b : T.AccountId) → view (added T s e) b ≡ register_in (view s) e b
    unfolding view added
    view-added e h b =
        let n = s.enclave_count + 1 in
        let of = T.index_map.get?-insert s.enclave_index e.pubkey n b in
        let at_index = λ (j : ℕ). T.registry_map.get?-insert s.enclave_registry n e j in
        elim (Option-cases (index_of T s b)) [
          | inl g ↦ ground (arith, of, at_index n)
          | inr (j, g) ↦ ground (arith, of, at_index n, at_index j, index_bounds T s v b j g)
        ]

    pub view-dropped_last :
        (a : T.AccountId)
        → index_of T s a ≡ some s.enclave_count
        → (b : T.AccountId) → view (dropped_last T s a) b ≡ remove_from (view s) a b
    unfolding view dropped_last
    view-dropped_last a h b =
        let n = s.enclave_count in
        let of = T.index_map.get?-remove s.enclave_index a b in
        elim (Option-cases (index_of T s b)) [
          | inl g ↦ ground (arith, of)
          | inr (j, g) ↦
              ground
                (arith, of, T.registry_map.get?-remove s.enclave_registry n j, apart a b n j h g)
        ]

    pub view-swapped :
        (a : T.AccountId) (i : ℕ) (last : Enclave T.AccountId)
        → index_of T s a ≡ some i
        → enclave_at T s s.enclave_count ≡ some last
        → i ≢ s.enclave_count
        → (b : T.AccountId) → view (swapped T s a i last) b ≡ remove_from (view s) a b
    unfolding view swapped
    view-swapped a i last h at ne b =
        let n = s.enclave_count in
        let moved = T.registry_map.insert s.enclave_registry i last in
        let rest = T.index_map.remove s.enclave_index a in
        let of_rest = T.index_map.get?-remove s.enclave_index a b in
        let of = T.index_map.get?-insert rest last.pubkey i b in
        let at_moved = λ (j : ℕ). T.registry_map.get?-insert s.enclave_registry i last j in
        let at_index = λ (j : ℕ). T.registry_map.get?-remove moved n j in
        let of_last = v.indexed last.pubkey n in
        elim (Option-cases (index_of T s b)) [
          | inl g ↦ ground (arith, of, of_rest, of_last, at_moved i, at_index i)
          | inr (j, g) ↦ ground (
            arith,
            of,
            of_rest,
            of_last,
            at_moved i,
            at_index i,
            at_moved j,
            at_index j,
            v.owned b j g,
            apart a b i j h g,
          )
        ]
