-- ===== src/HostCalls/Attestation/Unchecked.antt =====
-- host_calls/src/remote_attestation.rs: what the outcome of `verify_mra_cert` does not depend on.
use substra_tee_node_pre.Base.{◌≡◌, refl, ℕ, Bool, true, Option, none, some, List, Bytes, arith}
use substra_tee_node_pre.HostCalls.Libs.{Libs, SignatureAlgorithm}
use substra_tee_node_pre.HostCalls.Attestation.{
  read_quote, read_report, check_signer, verify_attn_report, ca_anchors, comment_fields,
  check_issuer, verify_mra_cert, is_ok_false,
}
use substra_tee_node_pre.HostCalls.Attestation.Report.{log_outcome-ok}

module _ (L : Libs) where
  -- The same crates, but for the verdict on the chain of the signing certificate.
  abbrev pub with_issuer_check :
      (L.Cert → List SignatureAlgorithm → List L.TrustAnchor → List Bytes → L.Time → Bool) → Libs
  with_issuer_check verdict = record L { verify_is_valid_tls_server_cert = verdict }

  -- The same crates, but for the user data of the quotes.
  abbrev pub with_report_data : (Bytes → Bytes) → Libs
  with_report_data data_of = record L {
    sgx_quote = λ b. record (L.sgx_quote b) { report_data = data_of b };
    length-mr_enclave = L.length-mr_enclave;
  }

  abbrev pub accepting : Option Bool → Option Bool
  accepting none = some true
  accepting (some b) = some b

  -- The same crates, but for an SGX library that accepts where it fails.
  abbrev pub with_ecdsa_errors : Libs
  with_ecdsa_errors = record L {
    ecdsa_verify_slice = λ signer key sig. accepting (L.ecdsa_verify_slice signer key sig);
  }

  is_ok_false-accepting : (o : Option Bool) → is_ok_false (accepting o) ≡ is_ok_false o
  is_ok_false-accepting none = refl
  is_ok_false-accepting (some b) = refl

  -- The verification ends in the same way whatever the check says of whether Intel's CA has issued
  -- the signing certificate.
  pub issuer_unchecked :
      (verdict : L.Cert → List SignatureAlgorithm → List L.TrustAnchor → List Bytes → L.Time → Bool)
      (cert_der : Bytes) (attn : List ℕ) (signer : Bytes)
      → verify_mra_cert (with_issuer_check verdict) cert_der attn signer
        ≡ verify_mra_cert L cert_der attn signer
  unfolding verify_mra_cert check_issuer ca_anchors comment_fields verify_attn_report read_report
      read_quote check_signer
  issuer_unchecked verdict cert_der attn signer = simp log_outcome-ok

  verify_attn_report_any :
      (data_of : Bytes → Bytes) (report_raw pub_k signer : Bytes) (attn : List ℕ)
      → verify_attn_report (with_report_data data_of) report_raw pub_k signer attn
        ≡ verify_attn_report L report_raw pub_k signer attn
  unfolding verify_attn_report read_report read_quote check_signer
  verify_attn_report_any data_of report_raw pub_k signer attn = grind (arith, log_outcome-ok)

  -- The verification ends in the same way whatever user data the quote carries.
  pub report_data_unchecked :
      (data_of : Bytes → Bytes) (cert_der : Bytes) (attn : List ℕ) (signer : Bytes)
      → verify_mra_cert (with_report_data data_of) cert_der attn signer
        ≡ verify_mra_cert L cert_der attn signer
  unfolding verify_mra_cert check_issuer ca_anchors comment_fields
  report_data_unchecked data_of cert_der attn signer = simp (verify_attn_report_any)

  -- The verification ends in the same way as with an SGX library that finds the signature of the
  -- signer good wherever it fails with an error.
  pub ecdsa_error_accepted :
      (cert_der : Bytes) (attn : List ℕ) (signer : Bytes)
      → verify_mra_cert with_ecdsa_errors cert_der attn signer
        ≡ verify_mra_cert L cert_der attn signer
  unfolding verify_mra_cert check_issuer ca_anchors comment_fields verify_attn_report read_report
      read_quote check_signer
  ecdsa_error_accepted cert_der attn signer = simp (is_ok_false-accepting)
