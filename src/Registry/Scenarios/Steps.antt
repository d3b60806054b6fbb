-- ===== src/Registry/Scenarios/Steps.antt =====
-- The single steps of the scenarios: what each call leaves, and which assertions then hold.
use substra_tee_node_pre.Base.{
  ℕ, ◌+◌, ◌<◌, ◌≡◌, ◌≢◌, refl, true, List, [], ◌∷◌, ◌++◌, none, some, Bytes, arith, word, ◌≤◌,
  ℕ_discrete,
}
use substra_tee_node_pre.Base.Outcome.{ok}
use substra_tee_node_pre.Registry.Config.{Trait, Enclave, Event, added_enclave, removed_enclave}
use substra_tee_node_pre.Registry.Checks.{check_registration}
use substra_tee_node_pre.Registry.{State, Action, register_enclave, unregister_enclave}
use substra_tee_node_pre.Registry.Shapes.{
  index_of, enclave_at, enclave_of, updated, dropped_last, swapped, register_known, register_new,
  remove_last, remove_middle,
}
use substra_tee_node_pre.Registry.Dispatch.Reach.{deposited}
use substra_tee_node_pre.Registry.Dispatch.Listing.{list_enclaves}
use substra_tee_node_pre.Registry.Scenarios.Entered.{entered}
use substra_tee_node_pre.Registry.Scenarios.{
  listing_eq, Setting, TestEnclave, assert_ok, assert_eq, any_event, assert_event, registers,
  Script, run_script,
}

module _ (T : Trait) where
  module _ (S : Setting T) where
    -- A signer can sign, and its certificate is accepted for it.
    pub record Accepted (t : TestEnclave T) (url : Bytes) : Type 0 where
      pub signed : T.ensure_signed (S.signed t.signer) ≡ ok t.signer
      pub accepted : check_registration T t.signer t.cert t.signer_attn url ≡ ok t.report

    -- Each statement of a test returns, from a storage to the next.
    pub data Runs : State T → Script T S → Type 0 where
      done : {s : State T} → Runs s []
      step :
          {s t : State T} {m : Action T (Unit {0})} {ms : Script T S}
          → m s ≡ (ok tt, t)
          → Runs t ms
          → Runs s (m ∷ ms)

    pub Runs-run_script :
        {s : State T} {ms : Script T S} → Runs s ms → (run_script T S ms s).0 ≡ ok tt
    unfolding run_script
    Runs-run_script done = refl
    Runs-run_script (step {m} p rest) = ground (arith, p, Runs-run_script rest)

    pub assert_ok_lem :
        (m : Action T (Unit {0})) (s t : State T)
        → m s ≡ (ok tt, t)
        → assert_ok T S m s ≡ (ok tt, t)
    unfolding assert_ok
    assert_ok_lem m s t h = ground arith

    pub assert_eq_lem :
        {A : Type 0} (d : Discrete A) (read : State T → A) (a : A) (s : State T)
        → read s ≡ a
        → assert_eq T S d read a s ≡ (ok tt, s)
    unfolding assert_eq
    assert_eq_lem d read a s h = ground arith

    pub observed :
        {s : State T} {ms : Script T S} (n : ℕ) (l : List (ℕ × Enclave T.AccountId))
        → s.enclave_count ≡ n
        → list_enclaves T s ≡ l
        → Runs s ms
        → Runs s (
            assert_eq T S ℕ_discrete (λ t. t.enclave_count) n
            ∷ assert_eq T S (listing_eq T S) (list_enclaves T) l
            ∷ ms)
    observed {s} n l count listed rest =
        step (assert_eq_lem ℕ_discrete (λ t. t.enclave_count) n s count)
          (step (assert_eq_lem (listing_eq T S) (list_enclaves T) l s listed) rest)

    -- A new enclave registers.
    pub enters :
        (t : TestEnclave T) (url : Bytes) (s : State T)
        → T.ensure_signed (S.signed t.signer) ≡ ok t.signer
        → check_registration T t.signer t.cert t.signer_attn url ≡ ok t.report
        → index_of T s t.signer ≡ none
        → s.enclave_count + 1 < word
        → assert_ok T S (registers T S t url) s
          ≡ (ok tt, entered T s (enclave_of T t.signer t.report url))
    unfolding assert_ok register_enclave entered
    enters t url s signed accepted new room =
        let done = register_new T t.signer t.report url s new room in ground arith

    pub renews :
        (t : TestEnclave T) (url : Bytes) (s : State T) (i : ℕ)
        → T.ensure_signed (S.signed t.signer) ≡ ok t.signer
        → check_registration T t.signer t.cert t.signer_attn url ≡ ok t.report
        → index_of T s t.signer ≡ some i
        → assert_ok T S (registers T S t url) s ≡ (
          ok tt,
          deposited T
              (updated T s i (enclave_of T t.signer t.report url))
              (added_enclave t.signer url),
        )
    unfolding assert_ok register_enclave
    renews t url s i signed accepted known =
        let done = register_known T t.signer t.report url s i known in ground arith

    pub leaves_last :
        (a : T.AccountId) (s : State T)
        → T.ensure_signed (S.signed a) ≡ ok a
        → index_of T s a ≡ some s.enclave_count
        → 1 ≤ s.enclave_count
        → s.enclave_count < word
        → assert_ok T S (unregister_enclave T (S.signed a)) s
          ≡ (ok tt, deposited T (dropped_last T s a) (removed_enclave a))
    unfolding assert_ok unregister_enclave
    leaves_last a s signed last pos fits =
        let done = remove_last T a s last pos fits in ground arith

    pub leaves_middle :
        (a : T.AccountId) (i : ℕ) (e : Enclave T.AccountId) (s : State T)
        → T.ensure_signed (S.signed a) ≡ ok a
        → index_of T s a ≡ some i
        → enclave_at T s s.enclave_count ≡ some e
        → 1 ≤ s.enclave_count
        → s.enclave_count < word
        → i ≢ s.enclave_count
        → assert_ok T S (unregister_enclave T (S.signed a)) s
          ≡ (ok tt, deposited T (swapped T s a i e) (removed_enclave a))
    unfolding assert_ok unregister_enclave
    leaves_middle a i e s signed at last pos fits ne =
        let done = remove_middle T a s i e at last pos fits ne in ground arith

    pub any_event-last :
        (e : Event T.AccountId T.ShardIdentifier) (l : List (Event T.AccountId T.ShardIdentifier))
        → any_event T S e (l ++ e ∷ []) ≡ true
    any_event-last e [] = ground arith
    any_event-last e (a ∷ l) = ground (arith, any_event-last e l)

    pub any_event-append :
        (e a : Event T.AccountId T.ShardIdentifier) (l : List (Event T.AccountId T.ShardIdentifier))
        → any_event T S e l ≡ true
        → any_event T S e (l ++ a ∷ []) ≡ true
    any_event-append e a [] h = cc
    any_event-append e a (b ∷ l) h = ground (arith, any_event-append e a l)

    pub assert_event_lem :
        (e : Event T.AccountId T.ShardIdentifier) (s : State T)
        → any_event T S e s.events ≡ true
        → assert_event T S e s ≡ (ok tt, s)
    unfolding assert_event
    assert_event_lem e s h = ground arith
