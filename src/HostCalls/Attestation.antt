-- ===== src/HostCalls/Attestation.antt =====
-- host_calls/src/remote_attestation.rs: `verify_attn_report`, `verify_mra_cert` and the host call.
pub mod Encodings
pub mod Report
pub mod Accepted
pub mod Unchecked
pub mod Separators
pub mod HostCall
pub mod ShortQuote
pub mod Steps
pub mod Faulty
pub mod Returns
pub mod Mistakes
pub mod Misreports
pub mod Signers
pub mod Refused
use mathlib.Core.List.{reverse}
use substra_tee_node_pre.Base.{
  ℕ, Bool, true, false, List, [], ◌∷◌, ◌++◌, Option, none, some, Bytes, bytes_of, bytes_eq, ltb,
  ◌==◌, if◌then◌else◌, length, take, map, slice, copy_from_slice, split, next,
}
use substra_tee_node_pre.Base.Int.{ℤ}
use substra_tee_node_pre.Base.Outcome.{
  Outcome, ok, err, fault, undefined, ok_or, unwrap, ensure, ◌>>=◌, ◌>>◌,
}
use substra_tee_node_pre.HostCalls.Report.{SgxStatus}
use substra_tee_node_pre.HostCalls.Libs.{
  Libs, SgxQuote, EcPublicKey, EcSignature, SignatureAlgorithm, ecdsa_p256_sha256,
  ecdsa_p256_sha384, ecdsa_p384_sha256, ecdsa_p384_sha384, rsa_pss_2048_8192_sha256_legacy_key,
  rsa_pss_2048_8192_sha384_legacy_key, rsa_pss_2048_8192_sha512_legacy_key,
  rsa_pkcs1_2048_8192_sha256, rsa_pkcs1_2048_8192_sha384, rsa_pkcs1_2048_8192_sha512,
  rsa_pkcs1_3072_8192_sha384,
}
use substra_tee_node_pre.HostCalls.Certificate.{public_key, netscape_comment}
use substra_tee_node_pre.HostCalls.Ca.{ias_report_ca, ca_core}

abbrev pub supported_sig_algs : List SignatureAlgorithm
supported_sig_algs =
    ecdsa_p256_sha256 ∷ ecdsa_p256_sha384 ∷ ecdsa_p384_sha256 ∷ ecdsa_p384_sha384
    ∷ rsa_pss_2048_8192_sha256_legacy_key ∷ rsa_pss_2048_8192_sha384_legacy_key
    ∷ rsa_pss_2048_8192_sha512_legacy_key ∷ rsa_pkcs1_2048_8192_sha256 ∷ rsa_pkcs1_2048_8192_sha384
    ∷ rsa_pkcs1_2048_8192_sha512 ∷ rsa_pkcs1_3072_8192_sha384 ∷ []

unfoldable pub quote_status : Bytes → SgxStatus
quote_status status =
    if bytes_eq status (bytes_of "OK")
    then SgxStatus.ok
    else if bytes_eq status (bytes_of "GROUP_OUT_OF_DATE")
    then SgxStatus.group_out_of_date
    else if bytes_eq status (bytes_of "GROUP_REVOKED")
    then SgxStatus.group_revoked
    else if bytes_eq status (bytes_of "CONFIGURATION_NEEDED")
    then SgxStatus.configuration_needed
    else SgxStatus.invalid

-- A test of which both outcomes are only logged.
abbrev pub log_outcome : Bool → Outcome (Unit {0})
log_outcome true = ok tt
log_outcome false = ok tt

-- The key of the certificate, each half from the order of the report to that of the SGX library.
unfoldable pub ephemeral_key : Bytes → Outcome EcPublicKey
ephemeral_key pub_k = do
  ensure (length pub_k == 64) "wrong size of signer ephemeral public key"
  left ← slice pub_k 0 32
  gx ← copy_from_slice 32 left
  right ← slice pub_k 32 (length pub_k)
  gy ← copy_from_slice 32 right
  ok (record { gx = reverse gx; gy = reverse gy })

unfoldable pub attn_signature : List ℕ → Outcome EcSignature
attn_signature xt_signer_attn = do
  ensure (length xt_signer_attn == 16) "wrong size of signer attestation signature"
  left ← slice xt_signer_attn 0 8
  x ← copy_from_slice 8 left
  right ← slice xt_signer_attn 8 (length xt_signer_attn)
  y ← copy_from_slice 8 right
  ok (record { x = x; y = y })

-- `== Ok(false)`
abbrev pub is_ok_false : Option Bool → Bool
is_ok_false none = false
is_ok_false (some true) = false
is_ok_false (some false) = true

-- What the code takes from a report.
pub record Reading : Type 0 where
  pub timestamp : ℤ
  pub status : SgxStatus
  pub quote : SgxQuote

module _ (L : Libs) where
  -- `ptr::read(quote.as_ptr())`, which reads `sgx_quote_t` whatever the length of the quote
  unfoldable pub read_quote : Bytes → Outcome SgxQuote
  read_quote quote =
      if ltb (length quote) L.sgx_quote_size
      then fault undefined
      else ok (L.sgx_quote (take L.sgx_quote_size quote))

  -- The time, the status and the quote of a report.
  unfoldable pub read_report : Bytes → Outcome Reading
  read_report report_raw = do
    attn_report ← ok_or (L.from_slice report_raw) "RA report parsing error"
    time ←
        ok_or (L.string_at attn_report "timestamp")
          "Failed to fetch timestamp from attestation report"
    ra_timestamp ←
        ok_or (L.parse_from_str (time ++ bytes_of "+0000") "%Y-%m-%dT%H:%M:%S%.f%z")
          "RA report timestamp parsing error"
    status ←
        ok_or (L.string_at attn_report "isvEnclaveQuoteStatus")
          "Failed to fetch isvEnclaveQuoteStatus from attestation report"
    quote_raw ←
        ok_or (L.string_at attn_report "isvEnclaveQuoteBody")
          "Failed to fetch isvEnclaveQuoteBody from attestation report"
    quote ← ok_or (L.base64_decode quote_raw) "Quote Decoding Error"
    sgx_quote ← read_quote quote
    ok (record { timestamp = ra_timestamp; status = quote_status status; quote = sgx_quote })

  -- The check that the key of the certificate has signed the sender, who comes back as an array.
  unfoldable pub check_signer : Bytes → Bytes → List ℕ → Outcome Bytes
  check_signer pub_k xt_signer xt_signer_attn = do
    ephemeral_pub ← ephemeral_key pub_k
    signature ← attn_signature xt_signer_attn
    if is_ok_false (L.ecdsa_verify_slice xt_signer ephemeral_pub signature)
        then err "wrong signature. Could not verify that the extrinsic signer is the enclave itself"
        else copy_from_slice 32 xt_signer

  unfoldable pub verify_attn_report : Bytes → Bytes → Bytes → List ℕ → Outcome Bytes
  verify_attn_report report_raw pub_k xt_signer xt_signer_attn = do
    reading ← read_report report_raw
    log_outcome (bytes_eq reading.quote.report_data pub_k)
    xt_signer_array ← check_signer pub_k xt_signer xt_signer_attn
    ok (
        L.encode_report (record {
          mr_enclave = reading.quote.mr_enclave;
          pubkey = xt_signer_array;
          status = reading.status;
          timestamp = reading.timestamp;
        }))

  -- The certificate of the CA and the trust anchors that the code takes from its PEM file.
  unfoldable pub ca_anchors : Outcome (Bytes × List L.TrustAnchor)
  ca_anchors = do
    ias_ca_core ← ca_core ias_report_ca
    ias_cert_dec ← ok_or (L.base64_decode ias_ca_core) "Decoding Error"
    roots ← ok_or (L.add_pem_file ias_report_ca) "Failed to add CA"
    ok (ias_cert_dec, map L.to_trust_anchor roots)

  -- "Extract each field": the report, its signature and the certificate that verifies it.
  unfoldable pub comment_fields : Bytes → Outcome (Bytes × Bytes × L.Cert)
  comment_fields payload = do
    (attn_report_raw, iter) ← unwrap (next (split (λ x. x == 0x7c) payload))
    (sig_raw, iter') ← unwrap (next iter)
    sig ← ok_or (L.base64_decode sig_raw) "Decoding Error"
    (sig_cert_raw, _) ← unwrap (next iter')
    sig_cert_dec ← ok_or (L.base64_decode sig_cert_raw) "Decoding Error"
    sig_cert ← ok_or (L.end_entity_cert sig_cert_dec) "Bad DER"
    ok (attn_report_raw, sig, sig_cert)

  -- "Verify if the signing cert is issued by Intel CA", of which the outcome is only logged.
  unfoldable pub check_issuer : L.Cert → Outcome (Unit {0})
  check_issuer sig_cert = do
    (ias_cert_dec, trust_anchors) ← ca_anchors
    now ← unwrap L.now
    log_outcome (
        L.verify_is_valid_tls_server_cert sig_cert supported_sig_algs trust_anchors
          (ias_cert_dec ∷ []) now)

  unfoldable pub verify_mra_cert : Bytes → List ℕ → Bytes → Outcome Bytes
  verify_mra_cert cert_der xt_signer_attn xt_signer = do
    pub_k ← public_key cert_der
    payload ← netscape_comment cert_der
    (attn_report_raw, sig, sig_cert) ← comment_fields payload
    check_issuer sig_cert
    ensure (L.verify_signature sig_cert rsa_pkcs1_2048_8192_sha256 attn_report_raw sig)
        "Signature verification error"
    verify_attn_report attn_report_raw pub_k xt_signer xt_signer_attn

  -- The host call: every error becomes `None`.
  unfoldable pub verify_ra_report : Bytes → List ℕ → Bytes → Outcome (Option Bytes)
  verify_ra_report cert_der signer_attn signer =
      elim (verify_mra_cert cert_der signer_attn signer) [
        | ok rep ↦ ok (some rep)
        | err _ ↦ ok none
        | fault x ↦ fault x
      ]
