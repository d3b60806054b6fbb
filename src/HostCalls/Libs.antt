-- ===== src/HostCalls/Libs.antt =====
-- What host_calls uses of code outside of the repository: parity-scale-codec, base64, webpki,
-- rustls, serde_json, chrono, the SGX crates and the clock. A function that returns a `Result`
-- of which the code reads only the case returns an `Option` or a `Bool`.
use substra_tee_node_pre.Base.{ℕ, ◌≡◌, Bool, Option, some, List, Bytes, String, length}
use substra_tee_node_pre.Base.Int.{ℤ}
use substra_tee_node_pre.HostCalls.Report.{SgxReport}

-- The algorithms of webpki that the code names.
pub data SignatureAlgorithm : Type 0 where
  ecdsa_p256_sha256 ecdsa_p256_sha384 ecdsa_p384_sha256 ecdsa_p384_sha384 : SignatureAlgorithm
  rsa_pss_2048_8192_sha256_legacy_key rsa_pss_2048_8192_sha384_legacy_key : SignatureAlgorithm
  rsa_pss_2048_8192_sha512_legacy_key rsa_pkcs1_2048_8192_sha256 : SignatureAlgorithm
  rsa_pkcs1_2048_8192_sha384 rsa_pkcs1_2048_8192_sha512 : SignatureAlgorithm
  rsa_pkcs1_3072_8192_sha384 : SignatureAlgorithm

-- The fields of `sgx_quote_t` that the code reads for more than a log line.
pub record SgxQuote : Type 0 where
  pub mr_enclave : Bytes
  pub report_data : Bytes

-- `sgx_ec256_public_t` and `sgx_ec256_signature_t`
pub record EcPublicKey : Type 0 where
  pub gx : Bytes
  pub gy : Bytes

pub record EcSignature : Type 0 where
  pub x : List ℕ
  pub y : List ℕ

pub record Libs : Type 1 where
  -- `SgxReport::encode` and `SgxReport::decode`, which the codec's derive macros generate: a
  -- report of two arrays of 32 bytes survives the two.
  pub encode_report : SgxReport → Bytes
  pub decode_report : Bytes → Option SgxReport
  pub decode-encode_report :
      (r : SgxReport)
      → length r.mr_enclave ≡ 32
      → length r.pubkey ≡ 32
      → decode_report (encode_report r) ≡ some r
  -- `base64::decode`, which is `base64::decode_config` with `base64::STANDARD`
  pub base64_decode : Bytes → Option Bytes
  -- `webpki::EndEntityCert::from`, `rustls::RootCertStore::add_pem_file` on an empty store, and
  -- `to_trust_anchor` of one of its roots
  pub Cert : Type 0
  pub end_entity_cert : Bytes → Option Cert
  pub Root : Type 0
  pub add_pem_file : Bytes → Option (List Root)
  pub TrustAnchor : Type 0
  pub to_trust_anchor : Root → TrustAnchor
  -- `webpki::Time::try_from(SystemTime::now())`
  pub Time : Type 0
  pub now : Option Time
  -- the two checks of a certificate; `true` is `Ok`
  pub verify_is_valid_tls_server_cert :
      Cert → List SignatureAlgorithm → List TrustAnchor → List Bytes → Time → Bool
  pub verify_signature : Cert → SignatureAlgorithm → Bytes → Bytes → Bool
  -- `serde_json::from_slice`, and `&value[key]` where it is a `Value::String`
  pub Value : Type 0
  pub from_slice : Bytes → Option Value
  pub string_at : Value → String → Option Bytes
  -- `DateTime::parse_from_str(text, format)`, and its `timestamp()`
  pub parse_from_str : Bytes → String → Option ℤ
  -- the size of `sgx_quote_t`, and its fields as they lie in that many bytes
  pub sgx_quote_size : ℕ
  pub sgx_quote : Bytes → SgxQuote
  pub length-mr_enclave : (b : Bytes) → length (sgx_quote b).mr_enclave ≡ 32
  -- `SgxEccHandle::ecdsa_verify_slice`; `none` is `Err`
  pub ecdsa_verify_slice : Bytes → EcPublicKey → EcSignature → Option Bool
