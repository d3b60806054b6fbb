-- ===== src/HostCalls/Attestation/Misreports.antt =====
-- host_calls/src/remote_attestation.rs: what is wrong with a report where the reading of it returns
-- an error, and the message.
use substra_tee_node_pre.Base.{
  ◌≡◌, ◌↔◌, ◌++◌, some, none, Bytes, String, arith, bytes_of, inl, inr, Option-cases,
}
use substra_tee_node_pre.Base.Int.{ℤ}
use substra_tee_node_pre.Base.Outcome.{err}
use substra_tee_node_pre.HostCalls.Libs.{Libs}
use substra_tee_node_pre.HostCalls.Attestation.{read_quote, read_report}

module _ (L : Libs) where
  -- The texts of a report up to the one that is missing or bad.
  pub data BadReport (report_raw : Bytes) : String → Type 0 where
    json : L.from_slice report_raw ≡ none → BadReport report_raw "RA report parsing error"
    no_timestamp :
        (value : L.Value)
        → L.from_slice report_raw ≡ some value
        → L.string_at value "timestamp" ≡ none
        → BadReport report_raw "Failed to fetch timestamp from attestation report"
    bad_timestamp :
        (value : L.Value) (time : Bytes)
        → L.from_slice report_raw ≡ some value
        → L.string_at value "timestamp" ≡ some time
        → L.parse_from_str (time ++ bytes_of "+0000") "%Y-%m-%dT%H:%M:%S%.f%z" ≡ none
        → BadReport report_raw "RA report timestamp parsing error"
    no_status :
        (value : L.Value) (time : Bytes) (t : ℤ)
        → L.from_slice report_raw ≡ some value
        → L.string_at value "timestamp" ≡ some time
        → L.parse_from_str (time ++ bytes_of "+0000") "%Y-%m-%dT%H:%M:%S%.f%z" ≡ some t
        → L.string_at value "isvEnclaveQuoteStatus" ≡ none
        → BadReport report_raw "Failed to fetch isvEnclaveQuoteStatus from attestation report"
    no_quote :
        (value : L.Value) (time status : Bytes) (t : ℤ)
        → L.from_slice report_raw ≡ some value
        → L.string_at value "timestamp" ≡ some time
        → L.parse_from_str (time ++ bytes_of "+0000") "%Y-%m-%dT%H:%M:%S%.f%z" ≡ some t
        → L.string_at value "isvEnclaveQuoteStatus" ≡ some status
        → L.string_at value "isvEnclaveQuoteBody" ≡ none
        → BadReport report_raw "Failed to fetch isvEnclaveQuoteBody from attestation report"
    bad_quote :
        (value : L.Value) (time status quote_raw : Bytes) (t : ℤ)
        → L.from_slice report_raw ≡ some value
        → L.string_at value "timestamp" ≡ some time
        → L.parse_from_str (time ++ bytes_of "+0000") "%Y-%m-%dT%H:%M:%S%.f%z" ≡ some t
        → L.string_at value "isvEnclaveQuoteStatus" ≡ some status
        → L.string_at value "isvEnclaveQuoteBody" ≡ some quote_raw
        → L.base64_decode quote_raw ≡ none
        → BadReport report_raw "Quote Decoding Error"

  -- The report is good up to its status.
  quote-BadReport :
      (report_raw : Bytes) (m : String) (value : L.Value) (time status : Bytes) (t : ℤ)
      → L.from_slice report_raw ≡ some value
      → L.string_at value "timestamp" ≡ some time
      → L.parse_from_str (time ++ bytes_of "+0000") "%Y-%m-%dT%H:%M:%S%.f%z" ≡ some t
      → L.string_at value "isvEnclaveQuoteStatus" ≡ some status
      → read_report L report_raw ≡ err m
      → BadReport report_raw m
  unfolding read_report read_quote
  quote-BadReport report_raw m value time status t parsed at timed st h =
      elim (Option-cases (L.string_at value "isvEnclaveQuoteBody")) [
        | inl e ↦
            let same : m ≡ "Failed to fetch isvEnclaveQuoteBody from attestation report" =
              ground arith in
            rw same (no_quote value time status t parsed at timed st e)
        | inr (raw, e) ↦ elim (Option-cases (L.base64_decode raw)) [
          | inr (quote, d) ↦ absurd (ground arith)
          | inl d ↦
              let same : m ≡ "Quote Decoding Error" = ground arith in
              rw same (bad_quote value time status raw t parsed at timed st e d)
        ]
      ]

  read_report-BadReport :
      (report_raw : Bytes) (m : String) → read_report L report_raw ≡ err m → BadReport report_raw m
  unfolding read_report read_quote
  read_report-BadReport report_raw m h = elim (Option-cases (L.from_slice report_raw)) [
    | inl e ↦ let same : m ≡ "RA report parsing error" = ground arith in rw same (json e)
    | inr (value, parsed) ↦ elim (Option-cases (L.string_at value "timestamp")) [
      | inl e ↦
          let same : m ≡ "Failed to fetch timestamp from attestation report" = ground arith in
          rw same (no_timestamp value parsed e)
      | inr (time, at) ↦
          let read = L.parse_from_str (time ++ bytes_of "+0000") "%Y-%m-%dT%H:%M:%S%.f%z" in
          elim (Option-cases read) [
            | inl e ↦
                let same : m ≡ "RA report timestamp parsing error" = ground arith in
                rw same (bad_timestamp value time parsed at e)
            | inr (t, timed) ↦ elim (Option-cases (L.string_at value "isvEnclaveQuoteStatus")) [
              | inl e ↦
                  let same : m ≡ "Failed to fetch isvEnclaveQuoteStatus from attestation report" =
                    ground arith in
                  rw same (no_status value time t parsed at timed e)
              | inr (status, st) ↦
                  quote-BadReport report_raw m value time status t parsed at timed st h
            ]
          ]
    ]
  ]

  BadReport-read_report :
      (report_raw : Bytes) (m : String) → BadReport report_raw m → read_report L report_raw ≡ err m
  unfolding read_report
  BadReport-read_report report_raw _ (json e) = rw e
  BadReport-read_report report_raw _ (no_timestamp value p e) = rw (p, e)
  BadReport-read_report report_raw _ (bad_timestamp value time p at e) = rw (p, at, e)
  BadReport-read_report report_raw _ (no_status value time t p at timed e) = rw (p, at, timed, e)
  BadReport-read_report report_raw _ (no_quote value time status t p at timed st e) =
      rw (p, at, timed, st, e)
  BadReport-read_report report_raw _ (bad_quote value time status raw t p at timed st q d) =
      rw (p, at, timed, st, q, d)

  pub read_report_err :
      (report_raw : Bytes) (m : String)
      → (read_report L report_raw ≡ err m) ↔ BadReport report_raw m
  read_report_err report_raw m =
      (read_report-BadReport report_raw m, BadReport-read_report report_raw m)
