-- ===== src/Registry/Tests.antt =====
-- The pallet on a chain whose accounts are numbers.
mod Layout
use substra_tee_node_pre.Base.{
  ℕ, ◌≡◌, ◌≢◌, ◌↔◌, refl, [], ◌∷◌, none, some, Bytes, arith, bytes_of, replicate, windows, position,
  retain, split, split_parts, ℕ_discrete,
}
use substra_tee_node_pre.Base.Int.{pos}
use substra_tee_node_pre.Base.Outcome.{ok, err, fault, panic}
use substra_tee_node_pre.Examples.Chain.{chain, certificate, attn}
use substra_tee_node_pre.HostCalls.Report.{SgxStatus, SgxReport}
use substra_tee_node_pre.HostCalls.Certificate.{
  safe_indexing, safe_indexing_one, find_oid, read_length, public_key, netscape_comment,
}
use substra_tee_node_pre.HostCalls.Ca.{ias_report_ca, ca_core}
use substra_tee_node_pre.HostCalls.Attestation.{
  quote_status, ephemeral_key, attn_signature, read_quote, read_report, check_signer,
  verify_attn_report, ca_anchors, comment_fields, check_issuer, verify_mra_cert, verify_ra_report,
}
use substra_tee_node_pre.Registry.Checks.{check_registration}
use substra_tee_node_pre.Registry.Checks.Acceptance.{MayRegister, check_registration_lem}
use substra_tee_node_pre.Registry.Config.{Enclave}
use substra_tee_node_pre.Registry.{
  State, register_enclave, unregister_enclave, confirm_call, register_verified_enclave,
  remove_enclave, swap_and_pop, init,
}
use substra_tee_node_pre.Registry.Shapes.{enclave_of, enclave_at, index_of}
use substra_tee_node_pre.Registry.Outcomes.{unknown}
use substra_tee_node_pre.Registry.Invariant.{IsValid}
use substra_tee_node_pre.Registry.Dispatch.{Call, register, unregister, confirm, dispatch}
use substra_tee_node_pre.Registry.Dispatch.History.{
  Reach, start, next, Reach-IsValid, dispatch_atomic,
}
use substra_tee_node_pre.Registry.Dispatch.Events.{Deposits, dispatch-Deposits}
use substra_tee_node_pre.Registry.Dispatch.Workers.{
  hash_of, worker_of, hash_after, worker_after, dispatch-shards, worker_after_unregister,
}
use substra_tee_node_pre.Registry.Dispatch.Panics.{HostFaults, dispatch_faults}
use substra_tee_node_pre.Registry.Dispatch.Listing.{list_enclaves, list_after, dispatch-lists}
use substra_tee_node_pre.Registry.Dispatch.Drain.{Leads, Leads-empty}
use substra_tee_node_pre.Registry.Directory.{view}
use substra_tee_node_pre.Registry.Directory.Refinement.{
  Implements, spec_dispatch, has_room, dispatch-Implements,
}
use substra_tee_node_pre.Registry.Directory.RoundTrip.{unregister-register}
use substra_tee_node_pre.Registry.Directory.Provenance.{Attested, Reach-Attested}

abbrev pub url : Bytes
url = bytes_of "ws://"

abbrev report_of_one : SgxReport
report_of_one = record {
  mr_enclave = replicate 32 9;
  pubkey = 1 ∷ replicate 31 0;
  status = SgxStatus.ok;
  timestamp = pos 1_580_587_262;
}

abbrev pub enters : Call chain
enters = register certificate attn url

-- Account 1 registers, account 2 registers, account 1 confirms for shard 7.
abbrev pub one : State chain
one = (dispatch chain (some 1) enters (init chain)).1

abbrev pub two : State chain
two = (dispatch chain (some 2) enters one).1

abbrev pub working : State chain
working = (dispatch chain (some 1) (confirm 7 [] (bytes_of "Qm")) two).1

one-Reach : Reach chain one
one-Reach = next (some 1) enters start

working-Reach : Reach chain working
working-Reach = next (some 1) (confirm 7 [] (bytes_of "Qm")) (next (some 2) enters one-Reach)

Reach-IsValid_example : IsValid chain working
Reach-IsValid_example = Reach-IsValid chain working-Reach

pub working-IsValid : IsValid chain working
working-IsValid = Reach-IsValid chain working-Reach

pub two-IsValid : IsValid chain two
two-IsValid = Reach-IsValid chain (next (some 2) enters one-Reach)

pub init-IsValid : IsValid chain (init chain)
init-IsValid = Reach-IsValid chain start

registers : (dispatch chain (some 1) enters (init chain)).0 ≡ ok tt
unfolding dispatch init register_enclave register_verified_enclave unregister_enclave remove_enclave
    swap_and_pop confirm_call check_registration verify_ra_report verify_mra_cert public_key
    netscape_comment find_oid read_length safe_indexing safe_indexing_one windows position
    comment_fields split split_parts check_issuer ca_anchors ca_core ias_report_ca retain
    verify_attn_report read_report read_quote quote_status check_signer ephemeral_key attn_signature
    view ℕ_discrete
registers = refl

-- The enclave of account 1, with what its certificate says.
abbrev first_enclave : Enclave ℕ
first_enclave = enclave_of chain 1 report_of_one url

first_there : enclave_at chain one 1 ≡ some first_enclave
unfolding dispatch init register_enclave register_verified_enclave unregister_enclave remove_enclave
    swap_and_pop confirm_call check_registration verify_ra_report verify_mra_cert public_key
    netscape_comment find_oid read_length safe_indexing safe_indexing_one windows position
    comment_fields split split_parts check_issuer ca_anchors ca_core ias_report_ca retain
    verify_attn_report read_report read_quote quote_status check_signer ephemeral_key attn_signature
    view ℕ_discrete
first_there = refl

Reach-Attested_example : Attested chain one-Reach first_enclave
Reach-Attested_example = Reach-Attested chain one-Reach 1 first_enclave first_there

one_is_new : view chain (init chain) 1 ≡ none
unfolding view init
one_is_new = refl

-- Both enclaves are registered, and the first works for shard 7.
worked :
    (index_of chain working 1 ≡ some 1)
    × (working.enclave_count ≡ 2)
    × (worker_of chain working 7 ≡ some 1)
    × ((dispatch chain (some 9) unregister working).0 ≡ err unknown)
    × ((dispatch chain (some 1) (confirm 7 [] (bytes_of "Qm")) two).0 ≡ ok tt)
unfolding dispatch init register_enclave register_verified_enclave unregister_enclave remove_enclave
    swap_and_pop confirm_call check_registration verify_ra_report verify_mra_cert public_key
    netscape_comment find_oid read_length safe_indexing safe_indexing_one windows position
    comment_fields split split_parts check_issuer ca_anchors ca_core ias_report_ca retain
    verify_attn_report read_report read_quote quote_status check_signer ephemeral_key attn_signature
    view ℕ_discrete
worked = (refl, refl, refl, refl, refl)

dispatch_atomic_example : (dispatch chain (some 9) unregister working).1 ≡ working
dispatch_atomic_example =
    dispatch_atomic chain (some 9) unregister working-Reach (λ e. cc (e, worked.3))

dispatch-Implements_example :
    Implements chain
      (dispatch chain (some 1) unregister working)
      (spec_dispatch chain (has_room chain working) (some 1) unregister (view chain working))
dispatch-Implements_example = dispatch-Implements chain working working-IsValid (some 1) unregister

check_registration_lem_example :
    (check_registration chain 1 certificate attn url ≡ ok report_of_one)
    ↔ MayRegister chain 1 certificate attn url report_of_one
check_registration_lem_example = check_registration_lem chain 1 certificate attn url report_of_one

unregister-register_example :
    ((dispatch chain (some 1) unregister one).0 ≡ ok tt)
    × ((b : ℕ)
        → view chain (dispatch chain (some 1) unregister one).1 b ≡ view chain (init chain) b)
unregister-register_example =
    unregister-register chain (some 1) 1 refl (init chain) init-IsValid certificate attn url
      registers one_is_new

dispatch-Deposits_example : Deposits chain two (some 1) (confirm 7 [] (bytes_of "Qm")) working
dispatch-Deposits_example =
    dispatch-Deposits chain two (some 1) (confirm 7 [] (bytes_of "Qm")) two-IsValid worked.4

dispatch-shards_example :
    (hash_of chain working 7 ≡ hash_after chain two (some 1) (confirm 7 [] (bytes_of "Qm")) 7)
    × (worker_of chain working 7 ≡ worker_after chain two (some 1) (confirm 7 [] (bytes_of "Qm")) 7)
dispatch-shards_example = dispatch-shards chain two (some 1) (confirm 7 [] (bytes_of "Qm")) 7

worker_after_unregister_example :
    (worker_of chain (dispatch chain (some 1) unregister working).1 7 ≡ some 1)
    × (e : Enclave ℕ) × (enclave_at chain (dispatch chain (some 1) unregister working).1 1 ≡ some e)
    × (e.pubkey ≢ 1)
worker_after_unregister_example =
    worker_after_unregister chain working (some 1) 1 1 7 working-IsValid refl worked.0
      (λ e. omega (arith, worked.1)) worked.2

Leads-empty_example :
    (t : State chain) × Leads chain working t
    × (t.enclave_count ≡ 0)
    × ((a : ℕ) → view chain t a ≡ none)
Leads-empty_example = Leads-empty chain some (λ a. refl) working working-IsValid

leaves_working : (dispatch chain (some 1) unregister working).0 ≡ ok tt
unfolding dispatch init register_enclave register_verified_enclave unregister_enclave remove_enclave
    swap_and_pop confirm_call check_registration verify_ra_report verify_mra_cert public_key
    netscape_comment find_oid read_length safe_indexing safe_indexing_one windows position
    comment_fields split split_parts check_issuer ca_anchors ca_core ias_report_ca retain
    verify_attn_report read_report read_quote quote_status check_signer ephemeral_key attn_signature
    view ℕ_discrete
leaves_working = refl

dispatch-lists_example :
    list_enclaves chain (dispatch chain (some 1) unregister working).1
    ≡ list_after chain working 1 unregister
dispatch-lists_example =
    dispatch-lists chain working working-IsValid (some 1) 1 refl unregister leaves_working

dispatch_faults_example :
    ((dispatch chain (some 1) enters two).0 ≡ fault panic) ↔ HostFaults chain 1 enters panic
dispatch_faults_example = dispatch_faults chain two two-IsValid (some 1) 1 refl enters panic
