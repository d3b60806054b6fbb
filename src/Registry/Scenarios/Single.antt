-- ===== src/Registry/Scenarios/Single.antt =====
-- runtime/src/substratee_registry.rs: the scenarios with one enclave.
use substra_tee_node_pre.Base.{
  Bytes-discrete, ℕ, ◌≡◌, ◌∙◌, refl, List, [], ◌∷◌, none, some, Bytes, String, arith, ℕ_discrete,
  windows, position, leb, length, Bool-cases, inl, inr, replicate,
}
use substra_tee_node_pre.Base.Outcome.{ok, err}
use substra_tee_node_pre.Storage.Entries.{replace, erase}
use substra_tee_node_pre.HostCalls.Certificate.{find_oid, public_key}
use substra_tee_node_pre.HostCalls.Attestation.{verify_mra_cert, verify_ra_report}
use substra_tee_node_pre.Registry.Config.{Trait, Enclave, added_enclave, removed_enclave}
use substra_tee_node_pre.Registry.Checks.{check_registration, max_url_len}
use substra_tee_node_pre.Registry.{State, init, register_enclave, unregister_enclave}
use substra_tee_node_pre.Registry.Shapes.{index_of, enclave_at, enclave_of, updated, dropped_last}
use substra_tee_node_pre.Registry.Invariant.{IsValid, init-IsValid}
use substra_tee_node_pre.Registry.Dispatch.Reach.{deposited}
use substra_tee_node_pre.Registry.Dispatch.Listing.{list_enclaves, list-dropped_last, list-updated}
use substra_tee_node_pre.Registry.Scenarios.Entered.{
  entered, entered-IsValid, list-entered, count-entered, index_of-entered, enclave_at-entered,
}
use substra_tee_node_pre.Registry.Scenarios.{
  Setting, TestEnclave, assert_ok, assert_is_err, assert_eq, assert_first, url_at, expected,
  registers, add_enclave_works, add_and_remove_enclave_works, list_enclaves_works,
  register_invalid_enclave_fails, update_enclave_url_works, Passes,
}
use substra_tee_node_pre.Registry.Scenarios.Steps.{
  done, step, Runs-run_script, observed, Accepted, assert_eq_lem, enters, renews, leaves_last,
}

-- The host call returns no report for an empty certificate.
verify_ra_report_empty :
    (L : _) (attn : List ℕ) (signer : Bytes) → verify_ra_report L [] attn signer ≡ ok none
unfolding verify_ra_report verify_mra_cert public_key find_oid windows position
verify_ra_report_empty L attn signer = refl

erase-only : {E : Type 0} (eq : Discrete ℕ) (x : E) → erase eq 1 ((1, x) ∷ []) ≡ []
erase-only eq x = ground arith

replace-only : {E : Type 0} (eq : Discrete ℕ) (x y : E) → replace eq 1 y ((1, x) ∷ []) ≡ (1, y) ∷ []
replace-only eq x y = ground arith

module _ (T : Trait) (S : Setting T) (t : TestEnclave T) (a : Accepted T S t S.url) where
  abbrev e1 : Enclave T.AccountId
  e1 = expected T S t

  abbrev pub s1 : State T
  s1 = entered T (init T) e1

  count0 : (init T).enclave_count ≡ 0
  unfolding init
  count0 = refl

  no_list : list_enclaves T (init T) ≡ []
  unfolding init
  no_list = T.registry_map.enumerate-empty

  pub new : index_of T (init T) t.signer ≡ none
  unfolding init
  new = T.index_map.get?-empty t.signer

  pub count1 : s1.enclave_count ≡ 1
  count1 = omega (arith, count0, count-entered T (init T) e1)

  valid1 : IsValid T s1
  valid1 = entered-IsValid T (init T) (init-IsValid T) e1 new (omega (arith, count0))

  list1 : list_enclaves T s1 ≡ (1, e1) ∷ []
  list1 = cc (list-entered T (init T) (init-IsValid T) e1, count0, no_list)

  pub index1 : index_of T s1 t.signer ≡ some 1
  index1 = ground (arith, index_of-entered T (init T) e1 t.signer, count0)

  at1 : enclave_at T s1 1 ≡ some e1
  at1 = ground (arith, enclave_at-entered T (init T) e1 1, count0)

  pub enters1 : assert_ok T S (registers T S t S.url) (init T) ≡ (ok tt, s1)
  enters1 = enters T S t S.url (init T) a.signed a.accepted new (omega (arith, count0))

  pub counts :
      (s : State T) (n : ℕ)
      → s.enclave_count ≡ n
      → assert_eq T S ℕ_discrete (λ u. u.enclave_count) n s ≡ (ok tt, s)
  counts s n h = assert_eq_lem T S ℕ_discrete (λ u. u.enclave_count) n s h

  assert_first_lem :
      (s : State T) (i : ℕ) (e : Enclave T.AccountId) (l : List (ℕ × Enclave T.AccountId))
      → list_enclaves T s ≡ (i, e) ∷ l
      → assert_first T S e.pubkey s ≡ (ok tt, s)
  unfolding assert_first
  assert_first_lem s i e l h = ground arith

  pub add_enclave-Passes : Passes T S (add_enclave_works T S t)
  add_enclave-Passes = Runs-run_script T S (step enters1 (step (counts s1 1 count1) done))

  -- The registry is empty again.
  abbrev s2 : State T
  s2 = deposited T (dropped_last T s1 t.signer) (removed_enclave t.signer)

  leaves : assert_ok T S (unregister_enclave T (S.signed t.signer)) s1 ≡ (ok tt, s2)
  leaves =
      leaves_last T S t.signer s1 a.signed (rw count1 index1) (omega (arith, count1))
        (omega (arith, count1))

  count2 : s2.enclave_count ≡ 0
  unfolding dropped_last
  count2 = omega (arith, count1)

  list2 : list_enclaves T s2 ≡ []
  list2 =
      let dropped : list_enclaves T s2 ≡ _ = list-dropped_last T s1 valid1 t.signer in
      dropped ∙ rw (count1, list1) (erase-only T.registry_map.key_eq e1)

  pub add_and_remove-Passes : Passes T S (add_and_remove_enclave_works T S t)
  add_and_remove-Passes =
      Runs-run_script T S (
        step enters1
          (step (counts s1 1 count1) (step leaves (observed T S 0 [] count2 list2 done))))

  pub list_enclaves-Passes : Passes T S (list_enclaves_works T S t)
  list_enclaves-Passes =
      Runs-run_script T S
        (step enters1 (step (counts s1 1 count1) (step (assert_first_lem s1 1 e1 [] list1) done)))

  invalid : (e : String) × (check_registration T t.signer [] (replicate 16 0) S.url ≡ err e)
  unfolding check_registration
  invalid = elim (Bool-cases (leb (length S.url) max_url_len)) [
    | inl short ↦ (
      "Verifying RA report failed... returning",
      ground (arith, verify_ra_report_empty T.libs (replicate 16 0) (T.encode t.signer)),
    )
    | inr long ↦ ("URL too long", ground arith)
  ]

  pub register_invalid-Passes : Passes T S (register_invalid_enclave_fails T S t)
  unfolding register_enclave assert_is_err
  register_invalid-Passes =
      let (e, refused) = invalid in
      Runs-run_script T S (step {t = init T} (ground (arith, a.signed)) done)

  module _ (url2 : Bytes) (a2 : Accepted T S t url2) where
    abbrev e2 : Enclave T.AccountId
    e2 = enclave_of T t.signer t.report url2

    abbrev s3 : State T
    s3 = deposited T (updated T s1 1 e2) (added_enclave t.signer url2)

    at3 : enclave_at T s3 1 ≡ some e2
    unfolding updated
    at3 = ground (arith, T.registry_map.get?-insert s1.enclave_registry 1 e2 1)

    list3 : list_enclaves T s3 ≡ (1, e2) ∷ []
    list3 =
        let written : list_enclaves T s3 ≡ _ = list-updated T s1 valid1 1 e2 e1 at1 in
        written ∙ rw list1 (replace-only T.registry_map.key_eq e1 e2)

    url_there :
        (s : State T) (e : Enclave T.AccountId)
        → enclave_at T s 1 ≡ some e
        → assert_eq T S Bytes-discrete (url_at T S 1) e.url s ≡ (ok tt, s)
    url_there s e h = assert_eq_lem T S Bytes-discrete (url_at T S 1) e.url s (ground arith)

    pub update_url-Passes : Passes T S (update_enclave_url_works T S t url2)
    update_url-Passes = Runs-run_script T S (
        step enters1 (
          step (url_there s1 e1 at1) (
            step (renews T S t url2 s1 1 a2.signed a2.accepted index1)
              (step (url_there s3 e2 at3) (step (assert_first_lem s3 1 e2 [] list3) done)))))
