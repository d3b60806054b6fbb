-- ===== src/Registry/Dispatch/Drain.antt =====
-- runtime/src/substratee_registry.rs: the registry can be emptied again.
use substra_tee_node_pre.Base.{
  ℕ, zero, suc, ◌+◌, ◌≡◌, refl, some, none, arith, Option-cases, inl, inr,
}
use substra_tee_node_pre.Base.Outcome.{ok}
use substra_tee_node_pre.Registry.Config.{Trait}
use substra_tee_node_pre.Registry.{State, unregister_enclave}
use substra_tee_node_pre.Registry.Shapes.{index_of, enclave_at, dropped_last, remove_last}
use substra_tee_node_pre.Registry.Invariant.{IsValid, index_bounds}
use substra_tee_node_pre.Registry.Directory.{view, view_absent}
use substra_tee_node_pre.Registry.Dispatch.{Call, unregister, dispatch}
use substra_tee_node_pre.Registry.Dispatch.History.{dispatch-IsValid}

module _ (T : Trait) where
  -- Some calls lead from one storage to the other, and each of them succeeds.
  pub data Leads (s : State T) : State T → Type 0 where
    here : Leads s s
    next :
        {t : State T} (o : T.Origin) (c : Call T)
        → (dispatch T o c t).0 ≡ ok tt
        → Leads s t
        → Leads s (dispatch T o c t).1

  empty-absent :
      (t : State T) → IsValid T t → t.enclave_count ≡ 0 → (a : T.AccountId) → view T t a ≡ none
  empty-absent t w e a = elim (Option-cases (index_of T t a)) [
    | inl away ↦ view_absent T t w a away
    | inr (i, at) ↦ absurd (omega (arith, index_bounds T t w a i at))
  ]

  last_leaves :
      (s : State T) (a : T.AccountId) (o : T.Origin)
      → IsValid T s
      → T.ensure_signed o ≡ ok a
      → index_of T s a ≡ some s.enclave_count
      → ((dispatch T o unregister s).0 ≡ ok tt)
        × ((dispatch T o unregister s).1.enclave_count + 1 ≡ s.enclave_count)
  unfolding dispatch unregister_enclave dropped_last
  last_leaves s a o v signed at =
      let bounds = index_bounds T s v a s.enclave_count at in
      let left = remove_last T a s at (omega arith) v.fits in (ground arith, ground arith)

  drained :
      (sign : T.AccountId → T.Origin)
      → ((a : T.AccountId) → T.ensure_signed (sign a) ≡ ok a)
      → (n : ℕ) (r s : State T) → Leads r s
      → IsValid T s
      → s.enclave_count ≡ n
      → (t : State T) × Leads r t × IsValid T t × (t.enclave_count ≡ 0)
  drained sign signs zero r s l v e = (s, l, v, e)
  drained sign signs (suc n) r s l v e = elim (Option-cases (enclave_at T s s.enclave_count)) [
    | inl hole ↦ absurd (v.filled s.enclave_count (omega arith) (omega arith) hole)
    | inr (last, at) ↦
        let a = last.pubkey in
        let o = sign a in
        let at_index : index_of T s a ≡ some s.enclave_count =
          v.indexed a s.enclave_count (ground arith) in
        let (left, fewer) = last_leaves s a o v (signs a) at_index in
        drained sign signs n r (dispatch T o unregister s).1 (next o unregister left l)
          (dispatch-IsValid T s o unregister v) (omega arith)
  ]

  -- If every account can sign, then from every valid registry some calls, all of which succeed,
  -- lead to one whose count is 0 and whose directory has no enclave.
  pub Leads-empty :
      (sign : T.AccountId → T.Origin)
      → ((a : T.AccountId) → T.ensure_signed (sign a) ≡ ok a)
      → (s : State T) → IsValid T s
      → (t : State T) × Leads s t × (t.enclave_count ≡ 0) × ((a : T.AccountId) → view T t a ≡ none)
  Leads-empty sign signs s v =
      let (t, l, w, e) = drained sign signs s.enclave_count s s here v refl in
      (t, l, e, empty-absent t w e)
