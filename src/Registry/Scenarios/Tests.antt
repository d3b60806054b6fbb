-- ===== src/Registry/Scenarios/Tests.antt =====
-- The scenarios on a chain whose accounts are numbers.
use substra_tee_node_pre.Base.{
  ℕ, refl, [], ◌∷◌, some, Bytes, arith, bytes_of, replicate, windows, position, retain, split,
  split_parts, ℕ_discrete,
}
use substra_tee_node_pre.Base.Int.{pos}
use substra_tee_node_pre.Examples.Chain.{chain, certificate, attn}
use substra_tee_node_pre.HostCalls.Report.{SgxStatus}
use substra_tee_node_pre.HostCalls.Certificate.{
  safe_indexing, safe_indexing_one, find_oid, read_length, public_key, netscape_comment,
}
use substra_tee_node_pre.HostCalls.Ca.{ias_report_ca, ca_core}
use substra_tee_node_pre.HostCalls.Attestation.{
  quote_status, ephemeral_key, attn_signature, read_quote, read_report, check_signer,
  verify_attn_report, ca_anchors, comment_fields, check_issuer, verify_mra_cert, verify_ra_report,
}
use substra_tee_node_pre.Registry.Checks.{check_registration}
use substra_tee_node_pre.Registry.Scenarios.{
  Setting, TestEnclave, Passes, add_enclave_works, add_and_remove_enclave_works,
  list_enclaves_works, register_invalid_enclave_fails, update_enclave_url_works,
  update_ipfs_hash_works, ipfs_update_from_unregistered_enclave_fails, call_worker_works,
  remove_middle_enclave_works,
}
use substra_tee_node_pre.Registry.Scenarios.Steps.{Accepted}
use substra_tee_node_pre.Registry.Scenarios.Middle.{remove_middle_enclave_works-Passes}
use substra_tee_node_pre.Registry.Scenarios.All.{single-Passes}

abbrev setting : Setting chain
setting = record { signed = some; url = bytes_of "ws://"; shard = 7 }

-- The stand-ins accept one certificate for every account.
abbrev enclave : ℕ → TestEnclave chain
enclave n = record {
  signer = n;
  cert = certificate;
  signer_attn = attn;
  report = record {
    mr_enclave = replicate 32 9;
    pubkey = n ∷ replicate 31 0;
    status = SgxStatus.ok;
    timestamp = pos 1_580_587_262;
  };
}

abbrev url2 : Bytes
url2 = bytes_of "my fancy url"

accepted :
    Accepted chain setting (enclave 1) setting.url
    × Accepted chain setting (enclave 2) setting.url
    × Accepted chain setting (enclave 3) setting.url
    × Accepted chain setting (enclave 1) url2
unfolding check_registration verify_ra_report verify_mra_cert public_key netscape_comment find_oid
    read_length safe_indexing safe_indexing_one windows position comment_fields split split_parts
    check_issuer ca_anchors ca_core ias_report_ca retain verify_attn_report read_report read_quote
    quote_status check_signer ephemeral_key attn_signature ℕ_discrete
accepted = (
  record { signed = refl; accepted = refl },
  record { signed = refl; accepted = refl },
  record { signed = refl; accepted = refl },
  record { signed = refl; accepted = refl },
)

remove_middle_enclave_works-Passes_example :
    Passes chain setting
      (remove_middle_enclave_works chain setting (enclave 1) (enclave 2) (enclave 3))
remove_middle_enclave_works-Passes_example =
    remove_middle_enclave_works-Passes chain setting (enclave 1) (enclave 2) (enclave 3) accepted.0
      accepted.1 accepted.2 (λ e. omega (arith, e)) (λ e. omega (arith, e)) (λ e. omega (arith, e))

abbrev first : TestEnclave chain
first = enclave 1

single-Passes_example :
    Passes chain setting (add_enclave_works chain setting first)
    × Passes chain setting (add_and_remove_enclave_works chain setting first)
    × Passes chain setting (list_enclaves_works chain setting first)
    × Passes chain setting (register_invalid_enclave_fails chain setting first)
    × Passes chain setting (update_enclave_url_works chain setting first url2)
    × Passes chain setting (update_ipfs_hash_works chain setting first [] (bytes_of "Qm"))
    × Passes chain setting
        (ipfs_update_from_unregistered_enclave_fails chain setting first (bytes_of "Qm"))
    × Passes chain setting (call_worker_works chain setting first (0 ∷ 1 ∷ []))
single-Passes_example =
    single-Passes chain setting first accepted.0 url2 accepted.3 [] (bytes_of "Qm") (0 ∷ 1 ∷ [])
