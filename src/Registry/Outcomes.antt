-- ===== src/Registry/Outcomes.antt =====
-- How each of the two writes to a valid registry ends, and with which storage.
use substra_tee_node_pre.Base.{
  ℕ, ◌+◌, ◌≤◌, ◌<◌, ◌≡◌, ◌≢◌, inl, inr, none, some, Bytes, arith, word, ltb, Bool-cases,
  Option-cases, ℕ_discrete, ltb→lt, String,
}
use substra_tee_node_pre.Base.Outcome.{Outcome, ok, err}
use substra_tee_node_pre.HostCalls.Report.{SgxReport}
use substra_tee_node_pre.Registry.Config.{Trait, Enclave}
use substra_tee_node_pre.Registry.{State, register_verified_enclave, remove_enclave}
use substra_tee_node_pre.Registry.Shapes.{
  index_of, enclave_at, enclave_of, updated, added, dropped_last, swapped, register_known,
  register_new, register_full, remove_unknown, remove_last, remove_middle,
}
use substra_tee_node_pre.Registry.Invariant.{
  IsValid, index_bounds, updated-IsValid, added-IsValid, dropped_last-IsValid, swapped-IsValid,
}

abbrev pub overflow : String
overflow = "[SubstraTEERegistry]: Overflow adding new enclave to registry"

abbrev pub unknown : String
unknown = "[SubstraTEERegistry]: Trying to remove an enclave that doesn't exist."

module _ (T : Trait) (s : State T) where
  -- The ends of a registration of the enclave `e`.
  pub data Registers (e : Enclave T.AccountId) (r : Outcome (Unit {0}) × State T) : Type 0 where
    known : (i : ℕ) → index_of T s e.pubkey ≡ some i → r ≡ (ok tt, updated T s i e) → Registers e r
    new :
        index_of T s e.pubkey ≡ none
        → s.enclave_count + 1 < word
        → r ≡ (ok tt, added T s e)
        → Registers e r
    full :
        index_of T s e.pubkey ≡ none
        → word ≤ s.enclave_count + 1
        → r ≡ (err overflow, s)
        → Registers e r

  -- The ends of a removal of the account `a`.
  pub data Removes (a : T.AccountId) (r : Outcome (Unit {0}) × State T) : Type 0 where
    absent : index_of T s a ≡ none → r ≡ (err unknown, s) → Removes a r
    last : index_of T s a ≡ some s.enclave_count → r ≡ (ok tt, dropped_last T s a) → Removes a r
    middle :
        (i : ℕ) (e : Enclave T.AccountId)
        → index_of T s a ≡ some i
        → enclave_at T s s.enclave_count ≡ some e
        → i ≢ s.enclave_count
        → r ≡ (ok tt, swapped T s a i e)
        → Removes a r

  pub register_verified_enclave-Registers :
      (a : T.AccountId) (report : SgxReport) (url : Bytes)
      → Registers (enclave_of T a report url) (register_verified_enclave T a report url s)
  register_verified_enclave-Registers a report url = elim (Option-cases (index_of T s a)) [
    | inr (i, h) ↦ known i h (register_known T a report url s i h)
    | inl h ↦ elim (Bool-cases (ltb (s.enclave_count + 1) word)) [
      | inl room ↦ new h (ltb→lt _ _ room) (register_new T a report url s h (ltb→lt _ _ room))
      | inr none_left ↦
          let past : word ≤ s.enclave_count + 1 = ground arith in
          full h past (register_full T a report url s h past)
    ]
  ]

  pub remove_enclave-Removes : (a : T.AccountId) → IsValid T s → Removes a (remove_enclave T a s)
  remove_enclave-Removes a v = elim (Option-cases (index_of T s a)) [
    | inl h ↦ absent h (remove_unknown T a s h)
    | inr (i, h) ↦
        let bounds = index_bounds T s v a i h in
        elim (ℕ_discrete i s.enclave_count) [
          | yes e ↦ last (rw e at h) (remove_last T a s (rw e at h) (omega arith) v.fits)
          | no ne ↦ elim (Option-cases (enclave_at T s s.enclave_count)) [
            | inl hole ↦ absurd (v.filled s.enclave_count (omega arith) (omega arith) hole)
            | inr (e, at) ↦
                middle i e h at ne (remove_middle T a s i e h at (omega arith) v.fits ne)
          ]
        ]
  ]

  -- Both writes keep the registry valid, however they end.
  pub Registers-IsValid :
      {e : Enclave T.AccountId} {r : Outcome (Unit {0}) × State T}
      → IsValid T s
      → Registers e r
      → IsValid T r.1
  Registers-IsValid {e} v (known i h p) = rw p (updated-IsValid T s v i e h)
  Registers-IsValid {e} v (new h room p) = rw p (added-IsValid T s v e h room)
  Registers-IsValid v (full h past p) = rw p v

  pub Removes-IsValid :
      {a : T.AccountId} {r : Outcome (Unit {0}) × State T}
      → IsValid T s
      → Removes a r
      → IsValid T r.1
  Removes-IsValid v (absent h p) = rw p v
  Removes-IsValid {a} v (last h p) = rw p (dropped_last-IsValid T s v a h)
  Removes-IsValid {a} v (middle i e h at ne p) = rw p (swapped-IsValid T s v a i e h at ne)
