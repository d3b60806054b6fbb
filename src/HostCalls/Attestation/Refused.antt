-- ===== src/HostCalls/Attestation/Refused.antt =====
-- host_calls/src/remote_attestation.rs: which certificates `verify_mra_cert` refuses, and with which
-- message.
use substra_tee_node_pre.Base.{
  ℕ, ◌+◌, ◌^◌, ◌<◌, ◌≡◌, ◌↔◌, true, false, List, Bytes, String, arith, length, bytes_eq, word,
  Bool-cases, inl, inr,
}
use substra_tee_node_pre.Base.Outcome.{ok, err, Outcome-Ends, returned, failed, faulted}
use substra_tee_node_pre.HostCalls.Libs.{Libs, rsa_pkcs1_2048_8192_sha256}
use substra_tee_node_pre.HostCalls.Certificate.{
  public_key, netscape_comment, prime256v1_oid, ns_cmt_oid,
}
use substra_tee_node_pre.HostCalls.Certificate.Found.{
  HasField, public_key-HasField, netscape_comment-HasField,
}
use substra_tee_node_pre.HostCalls.Certificate.Refused.{
  AreBytes, BadField, public_key-BadField, netscape_comment-BadField,
}
use substra_tee_node_pre.HostCalls.Attestation.{
  Reading, read_report, check_signer, comment_fields, check_issuer, verify_attn_report,
  verify_mra_cert,
}
use substra_tee_node_pre.HostCalls.Attestation.Report.{
  Reads, read_report-Reads, Reads-read_report, log_outcome-ok,
}
use substra_tee_node_pre.HostCalls.Attestation.Accepted.{
  comment_fields-HasFields, HasIssuer, check_issuer-HasIssuer, HasIssuer-check_issuer,
}
use substra_tee_node_pre.HostCalls.Attestation.Faulty.{Fields, Fields-comment_fields}
use substra_tee_node_pre.HostCalls.Attestation.Mistakes.{
  BadParts, comment_fields_err, BadIssuer, check_issuer_err,
}
use substra_tee_node_pre.HostCalls.Attestation.Misreports.{BadReport, read_report_err}
use substra_tee_node_pre.HostCalls.Attestation.Signers.{BadSigner, check_signer_err}

abbrev pub bad_signature : String
bad_signature = "Signature verification error"

module _ (L : Libs) where
  -- The first step that goes wrong, after those that succeed, and its message.
  pub data Refused (cert_der signer : Bytes) (attn : List ℕ) : String → Type 0 where
    key : (m : String) → BadField prime256v1_oid cert_der 2 m → Refused cert_der signer attn m
    comment :
        (m : String) (pub_k : Bytes)
        → HasField prime256v1_oid cert_der 2 pub_k
        → BadField ns_cmt_oid cert_der 0 m
        → Refused cert_der signer attn m
    parts :
        (m : String) (pub_k payload : Bytes)
        → HasField prime256v1_oid cert_der 2 pub_k
        → HasField ns_cmt_oid cert_der 0 payload
        → BadParts L payload m
        → Refused cert_der signer attn m
    issuer : (m : String) → Fields L cert_der → BadIssuer L m → Refused cert_der signer attn m
    signature :
        (f : Fields L cert_der)
        → HasIssuer L
        → L.verify_signature f.sig_cert rsa_pkcs1_2048_8192_sha256 f.report_raw f.sig ≡ false
        → Refused cert_der signer attn bad_signature
    report :
        (m : String) (f : Fields L cert_der)
        → HasIssuer L
        → L.verify_signature f.sig_cert rsa_pkcs1_2048_8192_sha256 f.report_raw f.sig ≡ true
        → BadReport L f.report_raw m
        → Refused cert_der signer attn m
    not_signed :
        (m : String) (f : Fields L cert_der)
        → HasIssuer L
        → L.verify_signature f.sig_cert rsa_pkcs1_2048_8192_sha256 f.report_raw f.sig ≡ true
        → (reading : Reading) → Reads L f.report_raw reading
        → BadSigner L f.pub_k signer attn m
        → Refused cert_der signer attn m

  module _ (cert_der signer : Bytes) (attn : List ℕ) (fits : length cert_der + 2 ^ 17 < word) where
    key_lem :
        (pub_k : Bytes)
        → (public_key cert_der ≡ ok pub_k) ↔ HasField prime256v1_oid cert_der 2 pub_k
    key_lem = public_key-HasField cert_der (omega arith)

    comment_lem :
        (payload : Bytes)
        → (netscape_comment cert_der ≡ ok payload) ↔ HasField ns_cmt_oid cert_der 0 payload
    comment_lem = netscape_comment-HasField cert_der (omega arith)

    issued : (f : Fields L cert_der) → check_issuer L f.sig_cert ≡ ok tt → HasIssuer L
    issued f = check_issuer-HasIssuer L f.sig_cert

    report-Refused :
        (f : Fields L cert_der) (m : String)
        → check_issuer L f.sig_cert ≡ ok tt
        → L.verify_signature f.sig_cert rsa_pkcs1_2048_8192_sha256 f.report_raw f.sig ≡ true
        → verify_attn_report L f.report_raw f.pub_k signer attn ≡ err m
        → Refused cert_der signer attn m
    unfolding verify_attn_report
    report-Refused f m checked good h = elim (Outcome-Ends (read_report L f.report_raw)) [
      | failed m' e ↦
          report m f (issued f checked) good ((read_report_err L f.report_raw m).0 (ground arith))
      | faulted x e ↦ absurd (ground arith)
      | returned reading e ↦
          let logged = log_outcome-ok (bytes_eq reading.quote.report_data f.pub_k) in
          elim (Outcome-Ends (check_signer L f.pub_k signer attn)) [
            | failed m' e' ↦
                let bad = (check_signer_err L f.pub_k signer attn m).0 (ground arith) in
                not_signed m f (issued f checked) good reading
                  (read_report-Reads L f.report_raw reading e) bad
            | faulted x e' ↦ absurd (ground arith)
            | returned array e' ↦ absurd (ground arith)
          ]
    ]

    fields-Refused :
        (f : Fields L cert_der) (m : String)
        → verify_mra_cert L cert_der attn signer ≡ err m
        → Refused cert_der signer attn m
    unfolding verify_mra_cert
    fields-Refused f m h =
        let k = (key_lem f.pub_k).1 f.has_key in
        let p = (comment_lem f.payload).1 f.has_comment in
        let q = Fields-comment_fields L f in
        elim (Outcome-Ends (check_issuer L f.sig_cert)) [
          | failed m' c ↦ issuer m f ((check_issuer_err L f.sig_cert m).0 (ground arith))
          | faulted x c ↦ absurd (ground arith)
          | returned u c ↦
              let good =
                L.verify_signature f.sig_cert rsa_pkcs1_2048_8192_sha256 f.report_raw f.sig in
              elim (Bool-cases good) [
                | inl verified ↦ report-Refused f m c verified (ground arith)
                | inr bad ↦
                    let same : m ≡ bad_signature = ground arith in
                    rw same (signature f (issued f c) bad)
              ]
        ]

    module _ (bytes : AreBytes cert_der) where
      verify-Refused :
          (m : String)
          → verify_mra_cert L cert_der attn signer ≡ err m
          → Refused cert_der signer attn m
      unfolding verify_mra_cert
      verify-Refused m h = elim (Outcome-Ends (public_key cert_der)) [
        | failed m' e ↦ key m ((public_key-BadField cert_der fits bytes m).0 (ground arith))
        | faulted x e ↦ absurd (ground arith)
        | returned pub_k k ↦ elim (Outcome-Ends (netscape_comment cert_der)) [
          | failed m' e ↦
              comment m pub_k ((key_lem pub_k).0 k)
                ((netscape_comment-BadField cert_der fits bytes m).0 (ground arith))
          | faulted x e ↦ absurd (ground arith)
          | returned payload p ↦ elim (Outcome-Ends (comment_fields L payload)) [
            | failed m' e ↦
                parts m pub_k payload ((key_lem pub_k).0 k) ((comment_lem payload).0 p)
                  ((comment_fields_err L payload m).0 (ground arith))
            | faulted x e ↦ absurd (ground arith)
            | returned (report_raw, sig, sig_cert) e ↦
                fields-Refused
                  (record {
                    pub_k = pub_k;
                    payload = payload;
                    report_raw = report_raw;
                    sig = sig;
                    sig_cert = sig_cert;
                    has_key = (key_lem pub_k).0 k;
                    has_comment = (comment_lem payload).0 p;
                    has_fields = comment_fields-HasFields L payload report_raw sig sig_cert e;
                  })
                  m h
          ]
        ]
      ]

      Refused-verify :
          (m : String)
          → Refused cert_der signer attn m
          → verify_mra_cert L cert_der attn signer ≡ err m
      unfolding verify_mra_cert verify_attn_report
      Refused-verify m (key _ bad) = rw ((public_key-BadField cert_der fits bytes m).1 bad)
      Refused-verify m (comment _ pub_k k bad) =
          rw ((key_lem pub_k).1 k, (netscape_comment-BadField cert_der fits bytes m).1 bad)
      Refused-verify m (parts _ pub_k payload k p bad) =
          rw
            ((key_lem pub_k).1 k, (comment_lem payload).1 p, (comment_fields_err L payload m).1 bad)
      Refused-verify m (issuer _ f bad) = rw (
        (key_lem f.pub_k).1 f.has_key,
        (comment_lem f.payload).1 f.has_comment,
        Fields-comment_fields L f,
        (check_issuer_err L f.sig_cert m).1 bad,
      )
      Refused-verify _ (signature f checked bad) = rw (
        (key_lem f.pub_k).1 f.has_key,
        (comment_lem f.payload).1 f.has_comment,
        Fields-comment_fields L f,
        HasIssuer-check_issuer L f.sig_cert checked,
        bad,
      )
      Refused-verify m (report _ f checked good bad) = rw (
        (key_lem f.pub_k).1 f.has_key,
        (comment_lem f.payload).1 f.has_comment,
        Fields-comment_fields L f,
        HasIssuer-check_issuer L f.sig_cert checked,
        good,
        (read_report_err L f.report_raw m).1 bad,
      )
      Refused-verify m (not_signed _ f checked good reading e bad) = rw (
        (key_lem f.pub_k).1 f.has_key,
        (comment_lem f.payload).1 f.has_comment,
        Fields-comment_fields L f,
        HasIssuer-check_issuer L f.sig_cert checked,
        good,
        Reads-read_report L f.report_raw reading e,
        log_outcome-ok (bytes_eq reading.quote.report_data f.pub_k),
        (check_signer_err L f.pub_k signer attn m).1 bad,
      )

      -- A certificate of bytes whose length plus 2^17 is below 2^64 is refused with a message exactly
      -- if the first step that goes wrong, in the sense of `Refused`, has that message.
      pub verify_mra_cert-Refused :
          (m : String)
          → (verify_mra_cert L cert_der attn signer ≡ err m) ↔ Refused cert_der signer attn m
      verify_mra_cert-Refused m = (verify-Refused m, Refused-verify m)
