-- ===== src/HostCalls/Attestation/ShortQuote.antt =====
-- host_calls/src/remote_attestation.rs: a report whose quote has too few bytes for `sgx_quote_t`.
use substra_tee_node_pre.Base.{
  ℕ, ◌<◌, ◌≡◌, ◌≢◌, ◌↔◌, ◌++◌, List, some, Bytes, bytes_of, bytes_eq, length, arith, lt→ltb,
}
use substra_tee_node_pre.Base.Int.{ℤ}
use substra_tee_node_pre.Base.Outcome.{
  fault, undefined, some_of, Outcome-Ends, returned, failed, faulted,
}
use substra_tee_node_pre.HostCalls.Libs.{Libs}
use substra_tee_node_pre.HostCalls.Attestation.{
  read_quote, read_report, check_signer, verify_attn_report, ephemeral_key, attn_signature,
}
use substra_tee_node_pre.HostCalls.Attestation.Report.{log_outcome-ok}

module _ (L : Libs) where
  -- A report that can be read up to its quote, and the quote is short.
  pub record HasShortQuote (report_raw : Bytes) : Type 0 where
    pub value : L.Value
    pub time : Bytes
    pub timestamp : ℤ
    pub status : Bytes
    pub quote_raw : Bytes
    pub quote : Bytes
    pub parsed : L.from_slice report_raw ≡ some value
    pub has_time : L.string_at value "timestamp" ≡ some time
    pub timed :
        L.parse_from_str (time ++ bytes_of "+0000") "%Y-%m-%dT%H:%M:%S%.f%z" ≡ some timestamp
    pub has_status : L.string_at value "isvEnclaveQuoteStatus" ≡ some status
    pub has_quote : L.string_at value "isvEnclaveQuoteBody" ≡ some quote_raw
    pub decoded : L.base64_decode quote_raw ≡ some quote
    pub short : length quote < L.sgx_quote_size

  read_report-HasShortQuote :
      (report_raw : Bytes) → read_report L report_raw ≡ fault undefined → HasShortQuote report_raw
  unfolding read_report read_quote
  read_report-HasShortQuote report_raw h =
      let (value, parsed) = some_of (L.from_slice report_raw) (λ e. ground arith) in
      let (time, has_time) = some_of (L.string_at value "timestamp") (λ e. ground arith) in
      let (t, timed) =
        some_of (L.parse_from_str (time ++ bytes_of "+0000") "%Y-%m-%dT%H:%M:%S%.f%z")
          (λ e. ground arith) in
      let (status, has_status) =
        some_of (L.string_at value "isvEnclaveQuoteStatus") (λ e. ground arith) in
      let (raw, has_quote) =
        some_of (L.string_at value "isvEnclaveQuoteBody") (λ e. ground arith) in
      let (quote, decoded) = some_of (L.base64_decode raw) (λ e. ground arith) in
      record {
        value = value;
        time = time;
        timestamp = t;
        status = status;
        quote_raw = raw;
        quote = quote;
        parsed = parsed;
        has_time = has_time;
        timed = timed;
        has_status = has_status;
        has_quote = has_quote;
        decoded = decoded;
        short = ground arith;
      }

  HasShortQuote-read_report :
      (report_raw : Bytes) → HasShortQuote report_raw → read_report L report_raw ≡ fault undefined
  unfolding read_report read_quote
  HasShortQuote-read_report report_raw q =
      rw (q.parsed, q.has_time, q.timed, q.has_status, q.has_quote, q.decoded, lt→ltb _ _ q.short)

  -- Past the quote, a check may panic, but it reads only what is there.
  ephemeral_key-defined : (pub_k : Bytes) → ephemeral_key pub_k ≢ fault undefined
  unfolding ephemeral_key
  ephemeral_key-defined pub_k h = ground arith

  attn_signature-defined : (attn : List ℕ) → attn_signature attn ≢ fault undefined
  unfolding attn_signature
  attn_signature-defined attn h = ground arith

  check_signer-defined :
      (pub_k signer : Bytes) (attn : List ℕ) → check_signer L pub_k signer attn ≢ fault undefined
  unfolding check_signer
  check_signer-defined pub_k signer attn h =
      ground (arith, ephemeral_key-defined pub_k, attn_signature-defined attn)

  -- `verify_attn_report` reads past the end of the quote exactly for a report that can be read up
  -- to its quote, where the quote is shorter than `sgx_quote_t`.
  pub verify_attn_report-HasShortQuote :
      (report_raw pub_k signer : Bytes) (attn : List ℕ)
      → (verify_attn_report L report_raw pub_k signer attn ≡ fault undefined)
        ↔ HasShortQuote report_raw
  unfolding verify_attn_report
  verify_attn_report-HasShortQuote report_raw pub_k signer attn = (
    λ h. elim (Outcome-Ends (read_report L report_raw)) [
      | returned reading e ↦ absurd (
          ground (
            arith,
            check_signer-defined pub_k signer attn,
            log_outcome-ok (bytes_eq reading.quote.report_data pub_k),
          ))
      | failed x e ↦ absurd (ground arith)
      | faulted x e ↦ read_report-HasShortQuote report_raw (ground arith)
    ],
    λ q. rw (HasShortQuote-read_report report_raw q),
  )
