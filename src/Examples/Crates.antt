-- ===== src/Examples/Crates.antt =====
-- Stand-ins for the crates that host_calls uses. Nothing is encrypted: texts decode to themselves,
-- and every signature is good.
use text.Mathlib.Text.{◌==◌ as str_eq}
use substra_tee_node_pre.Base.{
  ℕ, zero, suc, ◌≡◌, refl, true, Option, none, some, [], ◌∷◌, ◌++◌, Bytes, bytes_of, length, take,
  drop, replicate, take-append, drop-append, arith, if◌then◌else◌,
}
use substra_tee_node_pre.Base.Int.{ℤ, pos, negsuc}
use substra_tee_node_pre.HostCalls.Report.{SgxStatus, SgxReport}
use substra_tee_node_pre.HostCalls.Libs.{Libs}

abbrev status_byte : SgxStatus → ℕ
status_byte SgxStatus.invalid = 0
status_byte SgxStatus.ok = 1
status_byte SgxStatus.group_out_of_date = 2
status_byte SgxStatus.group_revoked = 3
status_byte SgxStatus.configuration_needed = 4

abbrev byte_status : ℕ → Option SgxStatus
byte_status zero = some SgxStatus.invalid
byte_status (suc zero) = some SgxStatus.ok
byte_status (suc (suc zero)) = some SgxStatus.group_out_of_date
byte_status (suc (suc (suc zero))) = some SgxStatus.group_revoked
byte_status (suc (suc (suc (suc zero)))) = some SgxStatus.configuration_needed
byte_status (suc (suc (suc (suc (suc n))))) = none

abbrev timestamp_bytes : ℤ → Bytes
timestamp_bytes (pos n) = 0 ∷ n ∷ []
timestamp_bytes (negsuc n) = 1 ∷ n ∷ []

abbrev bytes_timestamp : Bytes → Option ℤ
bytes_timestamp (zero ∷ n ∷ []) = some (pos n)
bytes_timestamp (suc zero ∷ n ∷ []) = some (negsuc n)
bytes_timestamp _ = none

abbrev encode_report : SgxReport → Bytes
encode_report r = r.mr_enclave ++ (r.pubkey ++ (status_byte r.status ∷ timestamp_bytes r.timestamp))

abbrev decode_tail : Bytes → Bytes → Bytes → Option SgxReport
decode_tail mr_enclave pubkey [] = none
decode_tail mr_enclave pubkey (x ∷ rest) = elim (byte_status x) [
  | none ↦ none
  | some status ↦ elim (bytes_timestamp rest) [
    | none ↦ none
    | some t ↦
        some (record { mr_enclave = mr_enclave; pubkey = pubkey; status = status; timestamp = t })
  ]
]

abbrev decode_report : Bytes → Option SgxReport
decode_report b = decode_tail (take 32 b) (take 32 (drop 32 b)) (drop 32 (drop 32 b))

decode_tail-encode :
    (m p : Bytes) (st : SgxStatus) (t : ℤ)
    → decode_tail m p (status_byte st ∷ timestamp_bytes t)
      ≡ some (record { mr_enclave = m; pubkey = p; status = st; timestamp = t })
decode_tail-encode m p SgxStatus.invalid t = ground arith
decode_tail-encode m p SgxStatus.ok t = ground arith
decode_tail-encode m p SgxStatus.group_out_of_date t = ground arith
decode_tail-encode m p SgxStatus.group_revoked t = ground arith
decode_tail-encode m p SgxStatus.configuration_needed t = ground arith

take-append_of_length : (n : ℕ) (xs ys : Bytes) → length xs ≡ n → take n (xs ++ ys) ≡ xs
take-append_of_length n xs ys h = rw (← h) (take-append xs ys)

drop-append_of_length : (n : ℕ) (xs ys : Bytes) → length xs ≡ n → drop n (xs ++ ys) ≡ ys
drop-append_of_length n xs ys h = rw (← h) (drop-append xs ys)

pub decode-encode_report :
    (r : SgxReport)
    → length r.mr_enclave ≡ 32
    → length r.pubkey ≡ 32
    → decode_report (encode_report r) ≡ some r
decode-encode_report r h k =
    let rest = status_byte r.status ∷ timestamp_bytes r.timestamp in
    rw
      (
        take-append_of_length 32 r.mr_enclave (r.pubkey ++ rest) h,
        drop-append_of_length 32 r.mr_enclave (r.pubkey ++ rest) h,
        take-append_of_length 32 r.pubkey rest k,
        drop-append_of_length 32 r.pubkey rest k,
      )
      (decode_tail-encode r.mr_enclave r.pubkey r.status r.timestamp)

abbrev pub quote_text : Bytes
quote_text = 9 ∷ 9 ∷ 9 ∷ 9 ∷ []

abbrev pub crates : Libs
crates = record {
  encode_report = encode_report;
  decode_report = decode_report;
  decode-encode_report = decode-encode_report;
  base64_decode = some;
  Cert = Bytes;
  end_entity_cert = some;
  Root = Bytes;
  add_pem_file = λ b. some (b ∷ []);
  TrustAnchor = Bytes;
  to_trust_anchor = λ r. r;
  Time = ℕ;
  now = some 0;
  verify_is_valid_tls_server_cert = λ c algs anchors chain t. true;
  verify_signature = λ c alg message sig. true;
  Value = Bytes;
  from_slice = some;
  string_at = λ v k. if str_eq k "isvEnclaveQuoteStatus" then some (bytes_of "OK") else some v;
  parse_from_str = λ text format. some (pos 1_580_587_262);
  sgx_quote_size = 4;
  sgx_quote = λ b. record { mr_enclave = replicate 32 9; report_data = b };
  length-mr_enclave = λ b. refl;
  ecdsa_verify_slice = λ signer key sig. some true;
}
