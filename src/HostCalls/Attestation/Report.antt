-- ===== src/HostCalls/Attestation/Report.antt =====
-- `verify_attn_report`: which reports it accepts, and what it returns for them.
use substra_tee_node_pre.Base.{
  ℕ, ◌≤◌, ◌≡◌, ◌≢◌, refl, Bool, true, false, List, ◌++◌, Option, none, some, Bytes, bytes_of,
  le→ltb, arith, length, take, sym, subst,
}
use substra_tee_node_pre.Base.Outcome.{ok, ok_or, some_of, ok_of}
use substra_tee_node_pre.HostCalls.Libs.{Libs, EcPublicKey, EcSignature}
use substra_tee_node_pre.HostCalls.Attestation.Encodings.{
  StatusOf, quote_status-StatusOf, StatusOf-quote_status, KeyOf, KeyOf-ephemeral_key,
  ephemeral_key-KeyOf, SignatureOf, SignatureOf-attn_signature, attn_signature-SignatureOf,
}
use substra_tee_node_pre.HostCalls.Attestation.{
  Reading, quote_status, log_outcome, ephemeral_key, attn_signature, read_quote, read_report,
  check_signer,
}

pub log_outcome-ok : (b : Bool) → log_outcome b ≡ ok tt
log_outcome-ok true = refl
log_outcome-ok false = refl

pub ok_or-eq-ok {ℓ} : {A : Type ℓ} (o : Option A) (e : _) {a : A} → ok_or o e ≡ ok a → o ≡ some a
ok_or-eq-ok none e h = cc
ok_or-eq-ok (some a) e h = cc

module _ (L : Libs) where
  -- The texts that a report has to hold, and what the code reads from them.
  pub record Reads (report_raw : Bytes) (reading : Reading) : Type 0 where
    pub value : L.Value
    pub time : Bytes
    pub status : Bytes
    pub quote_raw : Bytes
    pub quote : Bytes
    pub parsed : L.from_slice report_raw ≡ some value
    pub has_time : L.string_at value "timestamp" ≡ some time
    pub timed :
        L.parse_from_str (time ++ bytes_of "+0000") "%Y-%m-%dT%H:%M:%S%.f%z"
        ≡ some reading.timestamp
    pub has_status : L.string_at value "isvEnclaveQuoteStatus" ≡ some status
    pub of_status : StatusOf status reading.status
    pub has_quote : L.string_at value "isvEnclaveQuoteBody" ≡ some quote_raw
    pub decoded : L.base64_decode quote_raw ≡ some quote
    pub whole : L.sgx_quote_size ≤ length quote
    pub of_quote : reading.quote ≡ L.sgx_quote (take L.sgx_quote_size quote)

  read_status :
      (report_raw : Bytes) (reading : Reading) (value : L.Value) (status : Bytes)
      → L.from_slice report_raw ≡ some value
      → L.string_at value "isvEnclaveQuoteStatus" ≡ some status
      → read_report L report_raw ≡ ok reading
      → reading.status ≡ quote_status status
  unfolding read_report read_quote
  read_status report_raw reading value status parsed has_status h = ground arith

  pub read_report-Reads :
      (report_raw : Bytes) (reading : Reading)
      → read_report L report_raw ≡ ok reading
      → Reads report_raw reading
  unfolding read_report read_quote
  read_report-Reads report_raw reading h =
      let (value, parsed) = some_of (L.from_slice report_raw) (λ e. ground arith) in
      let (time, has_time) = some_of (L.string_at value "timestamp") (λ e. ground arith) in
      let (t, timed) =
        some_of (L.parse_from_str (time ++ bytes_of "+0000") "%Y-%m-%dT%H:%M:%S%.f%z")
          (λ e. ground arith) in
      let (status, has_status) =
        some_of (L.string_at value "isvEnclaveQuoteStatus") (λ e. ground arith) in
      let (raw, has_quote) =
        some_of (L.string_at value "isvEnclaveQuoteBody") (λ e. ground arith) in
      let (quote, decoded) = some_of (L.base64_decode raw) (λ e. ground arith) in
      let same : reading.status ≡ quote_status status =
        read_status report_raw reading value status parsed has_status h in
      record {
        value = value;
        time = time;
        status = status;
        quote_raw = raw;
        quote = quote;
        parsed = parsed;
        has_time = has_time;
        timed = ground arith;
        has_status = has_status;
        of_status = subst (StatusOf status) (sym same) (quote_status-StatusOf status);
        has_quote = has_quote;
        decoded = decoded;
        whole = ground arith;
        of_quote = ground arith;
      }

  pub Reads-read_report :
      (report_raw : Bytes) (reading : Reading)
      → Reads report_raw reading
      → read_report L report_raw ≡ ok reading
  unfolding read_report read_quote
  Reads-read_report report_raw reading r = rw (
    r.parsed,
    r.has_time,
    r.timed,
    r.has_status,
    r.has_quote,
    r.decoded,
    le→ltb _ _ r.whole,
    ← StatusOf-quote_status r.status reading.status r.of_status,
    ← r.of_quote,
  )

  -- The signature of the sender by the key of the certificate is not refused.
  pub record Signs (pub_k xt_signer : Bytes) (attn : List ℕ) : Type 0 where
    pub key : EcPublicKey
    pub signature : EcSignature
    pub keyed : KeyOf pub_k key
    pub signed : SignatureOf attn signature
    pub not_refused : L.ecdsa_verify_slice xt_signer key signature ≢ some false
    pub signer_size : length xt_signer ≡ 32

  pub check_signer-Signs :
      (pub_k xt_signer : Bytes) (attn : List ℕ) (signer : Bytes)
      → check_signer L pub_k xt_signer attn ≡ ok signer
      → Signs pub_k xt_signer attn × (signer ≡ xt_signer)
  unfolding check_signer
  check_signer-Signs pub_k xt_signer attn signer h =
      let (key, keyed) = ok_of (ephemeral_key pub_k) (λ m e. ground arith) (λ x e. ground arith) in
      let (signature, signed) =
        ok_of (attn_signature attn) (λ m e. ground arith) (λ x e. ground arith) in
      (
        record {
          key = key;
          signature = signature;
          keyed = ephemeral_key-KeyOf pub_k key keyed;
          signed = attn_signature-SignatureOf attn signature signed;
          not_refused = λ e. ground arith;
          signer_size = ground arith;
        },
        ground arith,
      )

  pub Signs-check_signer :
      (pub_k xt_signer : Bytes) (attn : List ℕ)
      → Signs pub_k xt_signer attn
      → check_signer L pub_k xt_signer attn ≡ ok xt_signer
  unfolding check_signer
  Signs-check_signer pub_k xt_signer attn s =
      rw
        (
          KeyOf-ephemeral_key pub_k s.key s.keyed,
          SignatureOf-attn_signature attn s.signature s.signed,
        )
        (ground (arith, s.not_refused, s.signer_size))
