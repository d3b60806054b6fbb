-- ===== src/Registry/Directory/Abstract.antt =====
-- runtime/src/substratee_registry.rs: how calls end depends on the directory of a storage alone, not
-- on the indices of its enclaves.
use substra_tee_node_pre.Base.{
  ℕ, zero, suc, ◌+◌, ◌≡◌, ◌∙◌, sym, ap, refl, inl, inr, ite, some, none, List, [], ◌∷◌, arith, ltb,
  word, Option-cases,
}
use substra_tee_node_pre.Base.Outcome.{Outcome}
use substra_tee_node_pre.Registry.Config.{Trait, Enclave}
use substra_tee_node_pre.Registry.{State}
use substra_tee_node_pre.Registry.Shapes.{index_of, enclave_at, dropped_last, swapped}
use substra_tee_node_pre.Registry.Invariant.{
  IsValid, index_bounds, dropped_last-IsValid, swapped-IsValid,
}
use substra_tee_node_pre.Registry.Outcomes.{Removes, absent, last, middle, remove_enclave-Removes}
use substra_tee_node_pre.Registry.Dispatch.{Call, dispatch}
use substra_tee_node_pre.Registry.Dispatch.History.{dispatch-IsValid}
use substra_tee_node_pre.Registry.Directory.{
  view, remove_from, view_absent, view-dropped_last, view-swapped,
}
use substra_tee_node_pre.Registry.Directory.Refinement.{
  spec_dispatch, has_room, dispatch-Implements,
}

module _ (T : Trait) where
  abbrev pub SameDirectory : State T → State T → Type 0
  SameDirectory s t = (a : T.AccountId) → view T s a ≡ view T t a

  -- A valid storage with one enclave less, that of the account.
  record Smaller (s : State T) (a : T.AccountId) : Type 0 where
    rest : State T
    valid : IsValid T rest
    fewer : rest.enclave_count + 1 ≡ s.enclave_count
    views : (b : T.AccountId) → view T rest b ≡ remove_from T (view T s) a b

  -- A removal of a known account gives such a storage.
  Removes-Smaller :
      (s : State T) (a : T.AccountId) (i : ℕ)
      → IsValid T s
      → index_of T s a ≡ some i
      → {r : Outcome (Unit {0}) × State T} → Removes T s a r
      → Smaller s a
  unfolding dropped_last swapped
  Removes-Smaller s a i v at (absent h p) = absurd (ground (arith, at, h))
  Removes-Smaller s a i v at (last h p) =
      let bounds = index_bounds T s v a s.enclave_count h in
      record {
        rest = dropped_last T s a;
        valid = dropped_last-IsValid T s v a h;
        fewer = omega arith;
        views = view-dropped_last T s v a h;
      }
  Removes-Smaller s a i v at (middle j e h here ne p) =
      let bounds = index_bounds T s v a j h in
      record {
        rest = swapped T s a j e;
        valid = swapped-IsValid T s v a j e h here ne;
        fewer = omega arith;
        views = view-swapped T s v a j e h here ne;
      }

  without :
      (s : State T) (a : T.AccountId) (e : Enclave T.AccountId)
      → IsValid T s
      → view T s a ≡ some e
      → Smaller s a
  without s a e v h = elim (Option-cases (index_of T s a)) [
    | inl away ↦ absurd (ground (arith, h, view_absent T s v a away))
    | inr (i, at) ↦ Removes-Smaller s a i v at (remove_enclave-Removes T s a v)
  ]

  -- The directory has the entry at every index.
  entry-view :
      (s : State T) (i : ℕ) (e : Enclave T.AccountId)
      → IsValid T s
      → enclave_at T s i ≡ some e
      → view T s e.pubkey ≡ some e
  unfolding view
  entry-view s i e v h =
      let indexed = v.indexed e.pubkey i (ground (arith, h)) in ground (arith, indexed, h)

  last_entry :
      (s : State T) (n : ℕ)
      → IsValid T s
      → s.enclave_count ≡ n + 1
      → (e : Enclave T.AccountId) × (view T s e.pubkey ≡ some e)
  last_entry s n v full = elim (Option-cases (enclave_at T s s.enclave_count)) [
    | inl hole ↦ absurd (v.filled s.enclave_count (omega arith) (omega arith) hole)
    | inr (e, at) ↦ (e, entry-view s s.enclave_count e v at)
  ]

  -- Nothing is in the directory of a storage whose count is 0.
  none_left :
      (s : State T) (a : T.AccountId) (e : Enclave T.AccountId)
      → IsValid T s
      → s.enclave_count ≡ 0
      → view T s a ≡ some e
      → ⊥
  none_left s a e v empty h = elim (Option-cases (index_of T s a)) [
    | inl away ↦ ground (arith, h, view_absent T s v a away)
    | inr (i, at) ↦ omega (arith, index_bounds T s v a i at)
  ]

  Smaller-SameDirectory :
      {s t : State T} {a : T.AccountId}
      → SameDirectory s t
      → (p : Smaller s a) (q : Smaller t a) → SameDirectory p.rest q.rest
  Smaller-SameDirectory {a = a} same p q b =
      p.views b ∙ ap (ite (T.account_eq a b) none) (same b) ∙ sym (q.views b)

  -- A storage that has as many enclaves is found by removing the last one from both.
  counted :
      (n : ℕ) (s t : State T)
      → IsValid T s
      → IsValid T t
      → SameDirectory s t
      → s.enclave_count ≡ n
      → t.enclave_count ≡ n
  counted zero s t v w same h = elim (Option-cases (enclave_at T t 1)) [
    | inl hole ↦ ground (arith, w.filled 1 (omega arith), hole)
    | inr (e, at) ↦ absurd (none_left s e.pubkey e v h (same e.pubkey ∙ entry-view t 1 e w at))
  ]
  counted (suc n) s t v w same h =
      let (e, there) = last_entry s n v (omega arith) in
      let p = without s e.pubkey e v there in
      let q = without t e.pubkey e w (sym (same e.pubkey) ∙ there) in
      let rest =
        counted n p.rest q.rest p.valid q.valid (Smaller-SameDirectory same p q)
          (omega (arith, p.fewer)) in
      omega (arith, q.fewer, rest)

  module _ (s t : State T) (v : IsValid T s) (w : IsValid T t) (same : SameDirectory s t) where
    -- Two valid storages with the same directory have the same count.
    pub enclave_count-SameDirectory : t.enclave_count ≡ s.enclave_count
    enclave_count-SameDirectory = counted s.enclave_count s t v w same refl

    -- A call ends in the same way on both, and leaves the same directory.
    pub dispatch-SameDirectory :
        (o : T.Origin) (c : Call T)
        → ((dispatch T o c s).0 ≡ (dispatch T o c t).0)
          × SameDirectory (dispatch T o c s).1 (dispatch T o c t).1
    dispatch-SameDirectory o c =
        let room = ap (λ n. ltb (n + 1) word) enclave_count-SameDirectory in
        let views : view T s ≡ view T t = λ i a. same a i in
        let ends : spec_dispatch T (has_room T s) o c (view T s)
            ≡ spec_dispatch T (has_room T t) o c (view T t) =
          ap (λ r. spec_dispatch T r o c (view T s)) (sym room)
          ∙ ap (spec_dispatch T (has_room T t) o c) views in
        let (here, left) = dispatch-Implements T s v o c in
        let (there, right) = dispatch-Implements T t w o c in
        (here ∙ ap (λ r. r.0) ends ∙ sym there, λ a. left a ∙ ap (λ r. r.1 a) ends ∙ sym (right a))

  -- The outcomes of calls one after the other, and the storage they leave.
  unfoldable pub outcomes : List (T.Origin × Call T) → State T → List (Outcome (Unit {0}))
  outcomes [] s = []
  outcomes ((o, c) ∷ cs) s = let r = dispatch T o c s in r.0 ∷ outcomes cs r.1

  unfoldable pub finally : List (T.Origin × Call T) → State T → State T
  finally [] s = s
  finally ((o, c) ∷ cs) s = finally cs (dispatch T o c s).1

  -- The outcomes of calls depend on the directory alone: any calls by any origins, one after the
  -- other, have the same outcomes on two valid storages with the same directory, and leave storages
  -- with the same directory and the same count. What they write beside these may differ: a
  -- confirmation stores and reports the index that its signer has in the storage.
  pub outcomes-SameDirectory :
      (cs : List (T.Origin × Call T)) (s t : State T)
      → IsValid T s
      → IsValid T t
      → SameDirectory s t
      → (outcomes cs s ≡ outcomes cs t)
        × SameDirectory (finally cs s) (finally cs t)
        × ((finally cs s).enclave_count ≡ (finally cs t).enclave_count)
  unfolding outcomes finally
  outcomes-SameDirectory [] s t v w same =
      (refl, same, sym (enclave_count-SameDirectory s t v w same))
  outcomes-SameDirectory ((o, c) ∷ cs) s t v w same =
      let (now, next) = dispatch-SameDirectory s t v w same o c in
      let later =
        outcomes-SameDirectory cs (dispatch T o c s).1 (dispatch T o c t).1
          (dispatch-IsValid T s o c v) (dispatch-IsValid T t o c w) next in
      (rw (now, later.0) refl, later.1, later.2)
