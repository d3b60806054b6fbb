-- ===== src/Registry/Scenarios/Middle.antt =====
-- runtime/src/substratee_registry.rs: the scenario of three enclaves, of which the second leaves.
use substra_tee_node_pre.Base.{ℕ, ◌≡◌, ◌≢◌, ◌∙◌, refl, [], ◌∷◌, none, some, arith}
use substra_tee_node_pre.Base.Outcome.{ok}
use substra_tee_node_pre.Registry.Config.{Trait, Enclave, removed_enclave}
use substra_tee_node_pre.Storage.Entries.{replace, erase}
use substra_tee_node_pre.Registry.{State, init, unregister_enclave}
use substra_tee_node_pre.Registry.Shapes.{index_of, enclave_at, swapped}
use substra_tee_node_pre.Registry.Invariant.{IsValid, init-IsValid}
use substra_tee_node_pre.Registry.Dispatch.Reach.{deposited}
use substra_tee_node_pre.Registry.Dispatch.Listing.{list_enclaves, list-swapped}
use substra_tee_node_pre.Registry.Scenarios.Entered.{
  entered, entered-IsValid, list-entered, count-entered, index_of-entered, enclave_at-entered,
}
use substra_tee_node_pre.Registry.Scenarios.{
  Setting, TestEnclave, assert_ok, expected, remove_middle_enclave_works, Passes,
}
use substra_tee_node_pre.Registry.Scenarios.Steps.{
  Accepted, done, step, Runs-run_script, observed, enters, leaves_middle,
}

swapped_list :
    {E : Type 0} (eq : Discrete ℕ) (x y z : E)
    → erase eq 3 (replace eq 2 x ((3, x) ∷ (2, y) ∷ (1, z) ∷ [])) ≡ (2, x) ∷ (1, z) ∷ []
swapped_list eq x y z = ground arith

module _ (T : Trait) (S : Setting T) where
  module _ (t1 t2 t3 : TestEnclave T) (a1 : Accepted T S t1 S.url) (a2 : Accepted T S t2 S.url)
      (a3 : Accepted T S t3 S.url) (ne12 : t1.signer ≢ t2.signer) (ne13 : t1.signer ≢ t3.signer)
      (ne23 : t2.signer ≢ t3.signer) where
    abbrev e1 : Enclave T.AccountId
    e1 = expected T S t1

    abbrev e2 : Enclave T.AccountId
    e2 = expected T S t2

    abbrev e3 : Enclave T.AccountId
    e3 = expected T S t3

    abbrev s1 : State T
    s1 = entered T (init T) e1

    abbrev s2 : State T
    s2 = entered T s1 e2

    abbrev s3 : State T
    s3 = entered T s2 e3

    abbrev s4 : State T
    s4 = deposited T (swapped T s3 t2.signer 2 e3) (removed_enclave t2.signer)

    count0 : (init T).enclave_count ≡ 0
    unfolding init
    count0 = refl

    empty0 : list_enclaves T (init T) ≡ []
    unfolding init
    empty0 = T.registry_map.enumerate-empty

    new1 : (b : T.AccountId) → index_of T (init T) b ≡ none
    unfolding init
    new1 b = T.index_map.get?-empty b

    new2 : index_of T s1 t2.signer ≡ none
    new2 = ground (arith, index_of-entered T (init T) e1 t2.signer, new1 t2.signer)

    new3 : index_of T s2 t3.signer ≡ none
    new3 = ground (
      arith,
      index_of-entered T s1 e2 t3.signer,
      index_of-entered T (init T) e1 t3.signer,
      new1 t3.signer,
    )

    count1 : s1.enclave_count ≡ 1
    count1 = omega (arith, count0, count-entered T (init T) e1)

    count2 : s2.enclave_count ≡ 2
    count2 = omega (arith, count1, count-entered T s1 e2)

    count3 : s3.enclave_count ≡ 3
    count3 = omega (arith, count2, count-entered T s2 e3)

    valid1 : IsValid T s1
    valid1 = entered-IsValid T (init T) (init-IsValid T) e1 (new1 t1.signer) (omega (arith, count0))

    valid2 : IsValid T s2
    valid2 = entered-IsValid T s1 valid1 e2 new2 (omega (arith, count1))

    valid3 : IsValid T s3
    valid3 = entered-IsValid T s2 valid2 e3 new3 (omega (arith, count2))

    list1 : list_enclaves T s1 ≡ (1, e1) ∷ []
    list1 = cc (list-entered T (init T) (init-IsValid T) e1, count0, empty0)

    list2 : list_enclaves T s2 ≡ (2, e2) ∷ (1, e1) ∷ []
    list2 = cc (list-entered T s1 valid1 e2, count1, list1)

    list3 : list_enclaves T s3 ≡ (3, e3) ∷ (2, e2) ∷ (1, e1) ∷ []
    list3 = cc (list-entered T s2 valid2 e3, count2, list2)

    second : index_of T s3 t2.signer ≡ some 2
    second =
        ground
          (arith, index_of-entered T s2 e3 t2.signer, index_of-entered T s1 e2 t2.signer, count1)

    third : enclave_at T s3 3 ≡ some e3
    third = ground (arith, enclave_at-entered T s2 e3 3, count2)

    at_second : enclave_at T s3 2 ≡ some e2
    at_second =
        ground (arith, enclave_at-entered T s2 e3 2, enclave_at-entered T s1 e2 2, count1, count2)

    count4 : s4.enclave_count ≡ 2
    unfolding swapped
    count4 = omega (arith, count3)

    list4 : list_enclaves T s4 ≡ (2, e3) ∷ (1, e1) ∷ []
    list4 =
        let swap = list-swapped T s3 valid3 t2.signer 2 e3 e2 at_second in
        let same : list_enclaves T s4 ≡ _ = swap in
        same ∙ rw (count3, list3) (swapped_list T.registry_map.key_eq e3 e2 e1)

    second_leaves : assert_ok T S (unregister_enclave T (S.signed t2.signer)) s3 ≡ (ok tt, s4)
    second_leaves =
        leaves_middle T S t2.signer 2 e3 s3 a2.signed second (rw count3 third)
          (omega (arith, count3)) (omega (arith, count3)) (λ h. omega (arith, count3, h))

    -- Three signers of which none is another register one after the other, and the second one
    -- leaves: the test passes.
    pub remove_middle_enclave_works-Passes : Passes T S (remove_middle_enclave_works T S t1 t2 t3)
    remove_middle_enclave_works-Passes = Runs-run_script T S (
        step
          (enters T S t1 S.url (init T) a1.signed a1.accepted (new1 t1.signer)
            (omega (arith, count0)))
          (observed T S 1 ((1, e1) ∷ []) count1 list1 (
            step (enters T S t2 S.url s1 a2.signed a2.accepted new2 (omega (arith, count1))) (
              observed T S 2 ((2, e2) ∷ (1, e1) ∷ []) count2 list2 (
                step (enters T S t3 S.url s2 a3.signed a3.accepted new3 (omega (arith, count2))) (
                  observed T S 3 ((3, e3) ∷ (2, e2) ∷ (1, e1) ∷ []) count3 list3 (
                    step second_leaves
                      (observed T S 2 ((2, e3) ∷ (1, e1) ∷ []) count4 list4 done))))))))
