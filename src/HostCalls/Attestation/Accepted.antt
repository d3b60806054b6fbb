-- ===== src/HostCalls/Attestation/Accepted.antt =====
-- `verify_mra_cert`: which certificates it accepts, and the report that it returns for them.
use substra_tee_node_pre.Base.{
  ℕ, ◌+◌, ◌<◌, word, length, ◌≡◌, ◌↔◌, refl, true, List, [], ◌∷◌, some, Bytes, arith, ◌==◌,
  Option-cases, inl, inr, split,
}
use substra_tee_node_pre.Base.Outcome.{ok, some_of, ok_of}
use substra_tee_node_pre.HostCalls.Report.{SgxReport}
use substra_tee_node_pre.HostCalls.Libs.{Libs, rsa_pkcs1_2048_8192_sha256}
use substra_tee_node_pre.HostCalls.Certificate.{
  public_key, netscape_comment, prime256v1_oid, ns_cmt_oid,
}
use substra_tee_node_pre.HostCalls.Attestation.{
  Reading, read_report, check_signer, verify_attn_report, ca_anchors, comment_fields, check_issuer,
  verify_mra_cert,
}
use substra_tee_node_pre.HostCalls.Certificate.Found.{
  HasField, public_key-HasField, netscape_comment-HasField,
}
use substra_tee_node_pre.HostCalls.Attestation.Steps.{
  HasAnchors, ca_anchors-HasAnchors, HasAnchors-ca_anchors,
}
use substra_tee_node_pre.HostCalls.Attestation.Report.{
  Reads, Signs, read_report-Reads, Reads-read_report, check_signer-Signs, Signs-check_signer,
  log_outcome-ok,
}

module _ (L : Libs) where
  abbrev pub report_for : Reading → Bytes → SgxReport
  report_for reading signer = record {
    mr_enclave = reading.quote.mr_enclave;
    pubkey = signer;
    status = reading.status;
    timestamp = reading.timestamp;
  }

  -- A comment of three parts and perhaps more.
  pub record HasFields (payload report_raw sig : Bytes) (sig_cert : L.Cert) : Type 0 where
    pub sig_raw : Bytes
    pub cert_raw : Bytes
    pub cert_dec : Bytes
    pub others : List Bytes
    pub parts : split (λ x. x == 0x7c) payload ≡ report_raw ∷ sig_raw ∷ cert_raw ∷ others
    pub sig_decoded : L.base64_decode sig_raw ≡ some sig
    pub cert_decoded : L.base64_decode cert_raw ≡ some cert_dec
    pub is_cert : L.end_entity_cert cert_dec ≡ some sig_cert

  -- The program's own CA certificate can be read, and so can the clock.
  pub record HasIssuer : Type 0 where
    pub now : L.Time
    pub has_anchors : HasAnchors L
    pub has_time : L.now ≡ some now

  -- A certificate that is accepted for a signer: the signature in its comment verifies its report,
  -- the report can be read, and the certificate's own key has signed the signer.
  pub record Accepts (cert_der : Bytes) (attn : List ℕ) (signer : Bytes) (reading : Reading)
      : Type 0 where
    pub pub_k : Bytes
    pub payload : Bytes
    pub report_raw : Bytes
    pub sig : Bytes
    pub sig_cert : L.Cert
    pub has_key : HasField prime256v1_oid cert_der 2 pub_k
    pub has_comment : HasField ns_cmt_oid cert_der 0 payload
    pub fields : HasFields payload report_raw sig sig_cert
    pub issuer : HasIssuer
    pub verified : L.verify_signature sig_cert rsa_pkcs1_2048_8192_sha256 report_raw sig ≡ true
    pub reads : Reads L report_raw reading
    pub signs : Signs L pub_k signer attn

  pub comment_fields-HasFields :
      (payload report_raw sig : Bytes) (sig_cert : L.Cert)
      → comment_fields L payload ≡ ok (report_raw, sig, sig_cert)
      → HasFields payload report_raw sig sig_cert
  unfolding comment_fields
  comment_fields-HasFields payload report_raw sig sig_cert h =
      parts-HasFields (split (λ x. x == 0x7c) payload) refl
    where
      parts-HasFields :
          (parts : List Bytes)
          → split (λ x. x == 0x7c) payload ≡ parts
          → HasFields payload report_raw sig sig_cert
      parts-HasFields [] e = absurd (ground arith)
      parts-HasFields (a ∷ []) e = absurd (ground arith)
      parts-HasFields (a ∷ b ∷ []) e = absurd (elim (Option-cases (L.base64_decode b)) [
        | inl g ↦ ground arith
        | inr (x, g) ↦ ground arith
      ])
      parts-HasFields (a ∷ b ∷ c ∷ others) e =
          let (s, sig_decoded) = some_of (L.base64_decode b) (λ g. ground arith) in
          let (dec, cert_decoded) = some_of (L.base64_decode c) (λ g. ground arith) in
          let (crt, is_cert) = some_of (L.end_entity_cert dec) (λ g. ground arith) in
          let same : a ≡ report_raw = ground arith in
          record {
            sig_raw = b;
            cert_raw = c;
            cert_dec = dec;
            others = others;
            parts = rw (← same) e;
            sig_decoded = ground arith;
            cert_decoded = cert_decoded;
            is_cert = ground arith;
          }

  pub HasFields-comment_fields :
      (payload report_raw sig : Bytes) (sig_cert : L.Cert)
      → HasFields payload report_raw sig sig_cert
      → comment_fields L payload ≡ ok (report_raw, sig, sig_cert)
  unfolding comment_fields
  HasFields-comment_fields payload report_raw sig sig_cert f =
      rw (f.parts, f.sig_decoded, f.cert_decoded, f.is_cert)

  pub check_issuer-HasIssuer : (sig_cert : L.Cert) → check_issuer L sig_cert ≡ ok tt → HasIssuer
  unfolding check_issuer
  check_issuer-HasIssuer sig_cert h =
      let (anchors, has_anchors) =
        ok_of (ca_anchors L) (λ m e. ground arith) (λ x e. ground arith) in
      let (now, has_time) = some_of L.now (λ e. ground arith) in
      record {
        now = now;
        has_anchors = ca_anchors-HasAnchors L anchors has_anchors;
        has_time = has_time;
      }

  pub HasIssuer-check_issuer : (sig_cert : L.Cert) → HasIssuer → check_issuer L sig_cert ≡ ok tt
  unfolding check_issuer
  HasIssuer-check_issuer sig_cert i =
      rw (HasAnchors-ca_anchors L i.has_anchors, i.has_time) (log_outcome-ok _)

  verify_attn_report-ok :
      (report_raw pub_k signer : Bytes) (attn : List ℕ) (rep : Bytes)
      → verify_attn_report L report_raw pub_k signer attn ≡ ok rep
      → (reading : Reading) × Reads L report_raw reading
        × Signs L pub_k signer attn
        × (rep ≡ L.encode_report (report_for reading signer))
  unfolding verify_attn_report
  verify_attn_report-ok report_raw pub_k signer attn rep h =
      let (reading, read) =
        ok_of (read_report L report_raw) (λ m e. ground arith) (λ x e. ground arith) in
      let (array, checked) =
        ok_of (check_signer L pub_k signer attn) (λ m e. ground arith) (λ x e. ground arith) in
      let (signs, same) = check_signer-Signs L pub_k signer attn array checked in
      (reading, read_report-Reads L report_raw reading read, signs, ground arith)

  ok-verify_attn_report :
      (report_raw pub_k signer : Bytes) (attn : List ℕ) (reading : Reading)
      → Reads L report_raw reading
      → Signs L pub_k signer attn
      → verify_attn_report L report_raw pub_k signer attn
        ≡ ok (L.encode_report (report_for reading signer))
  unfolding verify_attn_report
  ok-verify_attn_report report_raw pub_k signer attn reading r s = rw (
    Reads-read_report L report_raw reading r,
    log_outcome-ok,
    Signs-check_signer L pub_k signer attn s,
  )

  verify-Accepts :
      (cert_der : Bytes) (attn : List ℕ) (signer rep : Bytes)
      → length cert_der + 3 < word
      → verify_mra_cert L cert_der attn signer ≡ ok rep
      → (reading : Reading) × Accepts cert_der attn signer reading
        × (rep ≡ L.encode_report (report_for reading signer))
  unfolding verify_mra_cert
  verify-Accepts cert_der attn signer rep fits h =
      let (pub_k, has_key) =
        ok_of (public_key cert_der) (λ m e. ground arith) (λ x e. ground arith) in
      let (payload, has_comment) =
        ok_of (netscape_comment cert_der) (λ m e. ground arith) (λ x e. ground arith) in
      let (fields, got) =
        ok_of (comment_fields L payload) (λ m e. ground arith) (λ x e. ground arith) in
      let (_, issuer) =
        ok_of (check_issuer L fields.2) (λ m e. ground arith) (λ x e. ground arith) in
      let verified : L.verify_signature fields.2 rsa_pkcs1_2048_8192_sha256 fields.0 fields.1
          ≡ true =
        ground arith in
      let last : verify_attn_report L fields.0 pub_k signer attn ≡ ok rep = ground arith in
      let (reading, reads, signs, same) =
        verify_attn_report-ok fields.0 pub_k signer attn rep last in
      (
        reading,
        record {
          pub_k = pub_k;
          payload = payload;
          report_raw = fields.0;
          sig = fields.1;
          sig_cert = fields.2;
          has_key = (public_key-HasField cert_der fits pub_k).0 has_key;
          has_comment = (netscape_comment-HasField cert_der fits payload).0 has_comment;
          fields = comment_fields-HasFields payload fields.0 fields.1 fields.2 got;
          issuer = check_issuer-HasIssuer fields.2 issuer;
          verified = verified;
          reads = reads;
          signs = signs;
        },
        same,
      )

  Accepts-verify :
      (cert_der : Bytes) (attn : List ℕ) (signer : Bytes) (reading : Reading)
      → length cert_der + 3 < word
      → Accepts cert_der attn signer reading
      → verify_mra_cert L cert_der attn signer ≡ ok (L.encode_report (report_for reading signer))
  unfolding verify_mra_cert
  Accepts-verify cert_der attn signer reading fits a =
      rw
        (
          (public_key-HasField cert_der fits a.pub_k).1 a.has_key,
          (netscape_comment-HasField cert_der fits a.payload).1 a.has_comment,
          HasFields-comment_fields a.payload a.report_raw a.sig a.sig_cert a.fields,
          HasIssuer-check_issuer a.sig_cert a.issuer,
          a.verified,
        )
        (ok-verify_attn_report a.report_raw a.pub_k signer attn reading a.reads a.signs)

  -- For a certificate whose length plus 3 is below 2^64, the verification returns bytes exactly if it
  -- is accepted for the signer, in the sense of `Accepts`, and they encode the report of what the
  -- certificate says.
  pub verify_mra_cert_lem :
      (cert_der : Bytes) (attn : List ℕ) (signer rep : Bytes)
      → length cert_der + 3 < word
      → (verify_mra_cert L cert_der attn signer ≡ ok rep) ↔ (
          (reading : Reading) × Accepts cert_der attn signer reading
          × (rep ≡ L.encode_report (report_for reading signer)))
  verify_mra_cert_lem cert_der attn signer rep fits = (
    verify-Accepts cert_der attn signer rep fits,
    λ (reading, a, same). rw same (Accepts-verify cert_der attn signer reading fits a),
  )
