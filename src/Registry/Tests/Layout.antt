-- ===== src/Registry/Tests/Layout.antt =====
-- The ledger of the registry, and two storages that differ only in their indices.
use substra_tee_node_pre.Base.{
  ◌≡◌, ◌+◌, ◌<◌, word, refl, [], ◌∷◌, some, List, arith, bytes_of, windows, position, retain, split,
  split_parts, ℕ_discrete,
}
use substra_tee_node_pre.Examples.Chain.{chain}
use substra_tee_node_pre.HostCalls.Certificate.{
  safe_indexing, safe_indexing_one, find_oid, read_length, public_key, netscape_comment,
}
use substra_tee_node_pre.HostCalls.Ca.{ias_report_ca, ca_core}
use substra_tee_node_pre.HostCalls.Attestation.{
  quote_status, ephemeral_key, attn_signature, read_quote, read_report, check_signer,
  verify_attn_report, ca_anchors, comment_fields, check_issuer, verify_mra_cert, verify_ra_report,
}
use substra_tee_node_pre.Registry.Checks.{check_registration}
use substra_tee_node_pre.Registry.{
  State, register_enclave, unregister_enclave, confirm_call, register_verified_enclave,
  remove_enclave, swap_and_pop, init,
}
use substra_tee_node_pre.Registry.Shapes.{index_of}
use substra_tee_node_pre.Registry.Invariant.{IsValid}
use substra_tee_node_pre.Registry.Dispatch.{Call, unregister, confirm, dispatch}
use substra_tee_node_pre.Registry.Dispatch.History.{start, next, Reach-IsValid}
use substra_tee_node_pre.Registry.Dispatch.Order.{AreOk, are_ok, both, both_swap}
use substra_tee_node_pre.Registry.Directory.{view}
use substra_tee_node_pre.Registry.Directory.Abstract.{
  SameDirectory, outcomes, finally, outcomes-SameDirectory,
}
use substra_tee_node_pre.Registry.Directory.Ledger.{Ledger, ledger, call, BothOk, call_swap, size}
use substra_tee_node_pre.Registry.Tests.{
  enters, two, working, working-IsValid, two-IsValid, init-IsValid,
}

abbrev busy : Ledger chain
busy = ledger chain (working, working-IsValid)

-- Account 1 unregisters and account 3 registers.
forth : BothOk chain (some 1) unregister (some 3) enters busy
unfolding call dispatch init register_enclave register_verified_enclave unregister_enclave
    remove_enclave swap_and_pop confirm_call check_registration verify_ra_report verify_mra_cert
    public_key netscape_comment find_oid read_length safe_indexing safe_indexing_one windows
    position comment_fields split split_parts check_issuer ca_anchors ca_core ias_report_ca retain
    verify_attn_report read_report read_quote quote_status check_signer ephemeral_key attn_signature
    view ℕ_discrete
forth = (refl, refl)

busy_has_room : size chain busy + 2 < word
unfolding size dispatch init register_enclave register_verified_enclave unregister_enclave
    remove_enclave swap_and_pop confirm_call check_registration verify_ra_report verify_mra_cert
    public_key netscape_comment find_oid read_length safe_indexing safe_indexing_one windows
    position comment_fields split split_parts check_issuer ca_anchors ca_core ias_report_ca retain
    verify_attn_report read_report read_quote quote_status check_signer ephemeral_key attn_signature
    view ℕ_discrete
busy_has_room = omega arith

call_swap_example :
    BothOk chain (some 3) enters (some 1) unregister busy
    × ((call chain (some 3) enters (call chain (some 1) unregister busy).1).1
        ≡ (call chain (some 1) unregister (call chain (some 3) enters busy).1).1)
call_swap_example =
    call_swap chain (some 1) (some 3) 1 3 unregister enters refl refl (λ e. omega (arith, e)) busy
      busy_has_room forth

-- Accounts 1 and 2 have registered in the other order.
abbrev two_turned : State chain
two_turned = both chain (some 2) enters (some 1) enters (init chain)

two_turned-IsValid : IsValid chain two_turned
two_turned-IsValid = Reach-IsValid chain (next (some 1) enters (next (some 2) enters start))

enter_forth : AreOk chain (some 1) enters (some 2) enters (init chain)
unfolding dispatch init register_enclave register_verified_enclave unregister_enclave remove_enclave
    swap_and_pop confirm_call check_registration verify_ra_report verify_mra_cert public_key
    netscape_comment find_oid read_length safe_indexing safe_indexing_one windows position
    comment_fields split split_parts check_issuer ca_anchors ca_core ias_report_ca retain
    verify_attn_report read_report read_quote quote_status check_signer ephemeral_key attn_signature
    view ℕ_discrete
enter_forth = are_ok refl refl

enter_back : AreOk chain (some 2) enters (some 1) enters (init chain)
unfolding dispatch init register_enclave register_verified_enclave unregister_enclave remove_enclave
    swap_and_pop confirm_call check_registration verify_ra_report verify_mra_cert public_key
    netscape_comment find_oid read_length safe_indexing safe_indexing_one windows position
    comment_fields split split_parts check_issuer ca_anchors ca_core ias_report_ca retain
    verify_attn_report read_report read_quote quote_status check_signer ephemeral_key attn_signature
    view ℕ_discrete
enter_back = are_ok refl refl

-- Each of the two enclaves has the index that the other has in the other storage.
turned : (index_of chain two 1 ≡ some 1) × (index_of chain two_turned 1 ≡ some 2)
unfolding dispatch init register_enclave register_verified_enclave unregister_enclave remove_enclave
    swap_and_pop confirm_call check_registration verify_ra_report verify_mra_cert public_key
    netscape_comment find_oid read_length safe_indexing safe_indexing_one windows position
    comment_fields split split_parts check_issuer ca_anchors ca_core ias_report_ca retain
    verify_attn_report read_report read_quote quote_status check_signer ephemeral_key attn_signature
    view ℕ_discrete
turned = (refl, refl)

two-SameDirectory : SameDirectory chain two two_turned
two-SameDirectory =
    both_swap chain (init chain) (some 1) (some 2) 1 2 enters enters init-IsValid refl refl
      (λ e. omega (arith, e)) enter_forth enter_back

abbrev later : List (chain.Origin × Call chain)
later = (some 1, unregister) ∷ (some 2, confirm 7 [] (bytes_of "Qm")) ∷ []

outcomes-SameDirectory_example :
    (outcomes chain later two ≡ outcomes chain later two_turned)
    × SameDirectory chain (finally chain later two) (finally chain later two_turned)
    × ((finally chain later two).enclave_count ≡ (finally chain later two_turned).enclave_count)
outcomes-SameDirectory_example =
    outcomes-SameDirectory chain later two two_turned two-IsValid two_turned-IsValid
      two-SameDirectory
