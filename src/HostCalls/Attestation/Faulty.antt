-- ===== src/HostCalls/Attestation/Faulty.antt =====
-- host_calls/src/lib.rs and host_calls/src/remote_attestation.rs: when the host call returns.
use substra_tee_node_pre.Base.{
  ℕ, ◌+◌, ◌<◌, ◌≡◌, ◌≢◌, ◌↔◌, true, List, Bytes, arith, length, bytes_eq, word, Bool-cases, inl,
  inr, ◌∙◌,
}
use substra_tee_node_pre.Base.Outcome.{
  Fault, ok, fault, panic, undefined, Outcome-Ends, returned, failed, faulted,
}
use substra_tee_node_pre.HostCalls.Libs.{Libs, rsa_pkcs1_2048_8192_sha256}
use substra_tee_node_pre.HostCalls.Certificate.{
  public_key, netscape_comment, prime256v1_oid, ns_cmt_oid,
}
use substra_tee_node_pre.HostCalls.Certificate.Found.{
  HasField, public_key-HasField, netscape_comment-HasField,
}
use substra_tee_node_pre.HostCalls.Certificate.Cut.{CutField, fields_lem}
use substra_tee_node_pre.HostCalls.Attestation.{
  read_quote, read_report, check_signer, verify_attn_report, comment_fields, check_issuer,
  verify_mra_cert, Reading,
}
use substra_tee_node_pre.HostCalls.Attestation.Report.{
  Reads, read_report-Reads, Reads-read_report, log_outcome-ok,
}
use substra_tee_node_pre.HostCalls.Attestation.Accepted.{
  HasFields, comment_fields-HasFields, HasFields-comment_fields, HasIssuer, check_issuer-HasIssuer,
  HasIssuer-check_issuer,
}
use substra_tee_node_pre.HostCalls.Attestation.ShortQuote.{
  HasShortQuote, verify_attn_report-HasShortQuote,
}
use substra_tee_node_pre.HostCalls.Attestation.Steps.{
  FewParts, comment_fields-FewParts, FewParts-comment_fields, NoClock, check_issuer-NoClock,
  NoClock-check_issuer, WrongSize, check_signer-WrongSize, WrongSize-check_signer,
}

module _ (L : Libs) where
  -- What the steps before the chain of certificates have taken from the certificate.
  pub record Fields (cert_der : Bytes) : Type 0 where
    pub pub_k : Bytes
    pub payload : Bytes
    pub report_raw : Bytes
    pub sig : Bytes
    pub sig_cert : L.Cert
    pub has_key : HasField prime256v1_oid cert_der 2 pub_k
    pub has_comment : HasField ns_cmt_oid cert_der 0 payload
    pub has_fields : HasFields L payload report_raw sig sig_cert

  pub Fields-comment_fields :
      {cert_der : Bytes} (f : Fields cert_der)
      → comment_fields L f.payload ≡ ok (f.report_raw, f.sig, f.sig_cert)
  Fields-comment_fields f =
      HasFields-comment_fields L f.payload f.report_raw f.sig f.sig_cert f.has_fields

  -- Where the verification faults: which step, after which others have succeeded.
  pub data Faulty (cert_der signer : Bytes) (attn : List ℕ) : Type 0 where
    cut_key : CutField prime256v1_oid cert_der → Faulty cert_der signer attn
    cut_comment :
        (pub_k : Bytes)
        → HasField prime256v1_oid cert_der 2 pub_k
        → CutField ns_cmt_oid cert_der
        → Faulty cert_der signer attn
    few_parts :
        (pub_k payload : Bytes)
        → HasField prime256v1_oid cert_der 2 pub_k
        → HasField ns_cmt_oid cert_der 0 payload
        → FewParts L payload
        → Faulty cert_der signer attn
    clock : Fields cert_der → NoClock L → Faulty cert_der signer attn
    quote :
        (f : Fields cert_der)
        → HasIssuer L
        → L.verify_signature f.sig_cert rsa_pkcs1_2048_8192_sha256 f.report_raw f.sig ≡ true
        → HasShortQuote L f.report_raw
        → Faulty cert_der signer attn
    wrong_size :
        (f : Fields cert_der)
        → HasIssuer L
        → L.verify_signature f.sig_cert rsa_pkcs1_2048_8192_sha256 f.report_raw f.sig ≡ true
        → (reading : Reading) → Reads L f.report_raw reading
        → WrongSize L f.pub_k signer attn
        → Faulty cert_der signer attn

  read_report-panicless : (report_raw : Bytes) → read_report L report_raw ≢ fault panic
  unfolding read_report read_quote
  read_report-panicless report_raw h = ground arith

  module _ (cert_der signer : Bytes) (attn : List ℕ) (fits : length cert_der + 3 < word) where
    -- The steps behind the signature of the report.
    report-Faulty :
        (f : Fields cert_der) (x : Fault)
        → check_issuer L f.sig_cert ≡ ok tt
        → L.verify_signature f.sig_cert rsa_pkcs1_2048_8192_sha256 f.report_raw f.sig ≡ true
        → verify_attn_report L f.report_raw f.pub_k signer attn ≡ fault x
        → Faulty cert_der signer attn
    unfolding verify_attn_report
    report-Faulty f x checked good h = elim (Outcome-Ends (read_report L f.report_raw)) [
      | failed m e ↦ absurd (ground arith)
      | faulted panic e ↦ absurd (read_report-panicless f.report_raw e)
      | faulted undefined e ↦
          let short = verify_attn_report-HasShortQuote L f.report_raw f.pub_k signer attn in
          quote f (check_issuer-HasIssuer L f.sig_cert checked) good (short.0 (rw e))
      | returned reading e ↦
          let logged = log_outcome-ok (bytes_eq reading.quote.report_data f.pub_k) in
          elim (Outcome-Ends (check_signer L f.pub_k signer attn)) [
            | failed m e' ↦ absurd (ground arith)
            | returned r e' ↦ absurd (ground arith)
            | faulted y e' ↦
                wrong_size f (check_issuer-HasIssuer L f.sig_cert checked) good reading
                  (read_report-Reads L f.report_raw reading e)
                  (check_signer-WrongSize L f.pub_k signer attn y e')
          ]
    ]

    key_lem :
        (pub_k : Bytes)
        → (public_key cert_der ≡ ok pub_k) ↔ HasField prime256v1_oid cert_der 2 pub_k
    key_lem = public_key-HasField cert_der fits

    comment_lem :
        (payload : Bytes)
        → (netscape_comment cert_der ≡ ok payload) ↔ HasField ns_cmt_oid cert_der 0 payload
    comment_lem = netscape_comment-HasField cert_der fits

    cuts :
        ((public_key cert_der ≡ fault panic) ↔ CutField prime256v1_oid cert_der)
        × ((netscape_comment cert_der ≡ fault panic) ↔ CutField ns_cmt_oid cert_der)
        × (public_key cert_der ≢ fault undefined)
        × (netscape_comment cert_der ≢ fault undefined)
    cuts = fields_lem cert_der fits

    -- The steps behind the two fields of the certificate.
    fields-Faulty :
        (pub_k payload : Bytes)
        → public_key cert_der ≡ ok pub_k
        → netscape_comment cert_der ≡ ok payload
        → (x : Fault) → verify_mra_cert L cert_der attn signer ≡ fault x
        → Faulty cert_der signer attn
    unfolding verify_mra_cert
    fields-Faulty pub_k payload k p x h = elim (Outcome-Ends (comment_fields L payload)) [
      | failed m e ↦ absurd (ground arith)
      | faulted y e ↦
          few_parts pub_k payload ((key_lem pub_k).0 k) ((comment_lem payload).0 p)
            (comment_fields-FewParts L payload y e)
      | returned (report_raw, sig, sig_cert) e ↦
          let f : Fields cert_der = record {
            pub_k = pub_k;
            payload = payload;
            report_raw = report_raw;
            sig = sig;
            sig_cert = sig_cert;
            has_key = (key_lem pub_k).0 k;
            has_comment = (comment_lem payload).0 p;
            has_fields = comment_fields-HasFields L payload report_raw sig sig_cert e;
          } in
          elim (Outcome-Ends (check_issuer L sig_cert)) [
            | failed m c ↦ absurd (ground arith)
            | faulted y c ↦ clock f (check_issuer-NoClock L sig_cert y c)
            | returned u c ↦
                let signed =
                  L.verify_signature sig_cert rsa_pkcs1_2048_8192_sha256 report_raw sig in
                elim (Bool-cases signed) [
                  | inl good ↦ report-Faulty f x c good (ground arith)
                  | inr bad ↦ absurd (ground arith)
                ]
          ]
    ]

    verified :
        (f : Fields cert_der)
        → HasIssuer L
        → L.verify_signature f.sig_cert rsa_pkcs1_2048_8192_sha256 f.report_raw f.sig ≡ true
        → verify_mra_cert L cert_der attn signer
          ≡ verify_attn_report L f.report_raw f.pub_k signer attn
    unfolding verify_mra_cert
    verified f checked good = rw (
      (key_lem f.pub_k).1 f.has_key,
      (comment_lem f.payload).1 f.has_comment,
      Fields-comment_fields f,
      HasIssuer-check_issuer L f.sig_cert checked,
      good,
    )

    verify-Faulty :
        (x : Fault) → verify_mra_cert L cert_der attn signer ≡ fault x → Faulty cert_der signer attn
    unfolding verify_mra_cert
    verify-Faulty x h = elim (Outcome-Ends (public_key cert_der)) [
      | failed m e ↦ absurd (ground arith)
      | faulted panic e ↦ cut_key ((cuts.0).0 e)
      | faulted undefined e ↦ absurd (cuts.2 e)
      | returned pub_k k ↦ elim (Outcome-Ends (netscape_comment cert_der)) [
        | failed m e ↦ absurd (ground arith)
        | faulted panic e ↦ cut_comment pub_k ((key_lem pub_k).0 k) ((cuts.1).0 e)
        | faulted undefined e ↦ absurd (cuts.3 e)
        | returned payload p ↦ fields-Faulty pub_k payload k p x h
      ]
    ]

    Faulty-verify :
        Faulty cert_der signer attn
        → (x : Fault) × (verify_mra_cert L cert_der attn signer ≡ fault x)
    unfolding verify_mra_cert verify_attn_report
    Faulty-verify (cut_key c) = (panic, rw ((cuts.0).1 c))
    Faulty-verify (cut_comment pub_k k c) = (panic, rw ((key_lem pub_k).1 k, (cuts.1).1 c))
    Faulty-verify (few_parts pub_k payload k p c) = (
      panic,
      rw ((key_lem pub_k).1 k, (comment_lem payload).1 p, FewParts-comment_fields L payload c),
    )
    Faulty-verify (clock f c) = (
      panic,
      rw (
        (key_lem f.pub_k).1 f.has_key,
        (comment_lem f.payload).1 f.has_comment,
        Fields-comment_fields f,
        NoClock-check_issuer L f.sig_cert c,
      ),
    )
    Faulty-verify (quote f checked good c) =
        let short = verify_attn_report-HasShortQuote L f.report_raw f.pub_k signer attn in
        (undefined, verified f checked good ∙ short.1 c)
    Faulty-verify (wrong_size f checked good reading e w) = (
      panic,
      verified f checked good
          ∙ rw (
            Reads-read_report L f.report_raw reading e,
            log_outcome-ok (bytes_eq reading.quote.report_data f.pub_k),
            WrongSize-check_signer L f.pub_k signer attn w,
          ),
    )

    -- The verification of a certificate whose length plus 3 is below 2^64 panics, or reads past the
    -- end of its data, exactly in the six cases of `Faulty`.
    pub verify_mra_cert-Faulty :
        ((x : Fault) × (verify_mra_cert L cert_der attn signer ≡ fault x))
        ↔ Faulty cert_der signer attn
    verify_mra_cert-Faulty = (λ (x, h). verify-Faulty x h, Faulty-verify)
