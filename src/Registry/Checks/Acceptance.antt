-- ===== src/Registry/Checks/Acceptance.antt =====
-- runtime/src/substratee_registry.rs: which registrations pass the checks.
use substra_tee_node_pre.Base.{
  ℕ, ◌≤◌, ◌≡◌, ◌↔◌, refl, ap, ◌∙◌, List, some, Bytes, arith, length, leb→le, le→leb,
}
use substra_tee_node_pre.Base.Outcome.{ok, some_of, ok_of}
use substra_tee_node_pre.HostCalls.Report.{SgxReport}
use substra_tee_node_pre.HostCalls.Attestation.{Reading, verify_ra_report}
use substra_tee_node_pre.HostCalls.Attestation.Accepted.{Accepts, report_for, verify_mra_cert_lem}
use substra_tee_node_pre.HostCalls.Attestation.HostCall.{verify_ra_report-some}
use substra_tee_node_pre.Registry.Config.{Trait}
use substra_tee_node_pre.Registry.Checks.{check_registration, max_ra_report_len, max_url_len}

module _ (T : Trait) where
  -- A certificate that the host accepts for the account, and two arguments that are not too long.
  pub record MayRegister (a : T.AccountId) (ra_report : Bytes) (attn : List ℕ) (url : Bytes)
      (report : SgxReport) : Type 0 where
    pub short_report : length ra_report ≤ max_ra_report_len
    pub short_url : length url ≤ max_url_len
    pub reading : Reading
    pub accepted : Accepts T.libs ra_report attn (T.encode a) reading
    pub of_reading : report ≡ report_for T.libs reading (T.encode a)

  -- A report that the host has made for the account survives the codec.
  pub decoded :
      (a : T.AccountId) (ra_report : Bytes) (attn : List ℕ) (reading : Reading)
      → Accepts T.libs ra_report attn (T.encode a) reading
      → T.libs.decode_report (T.libs.encode_report (report_for T.libs reading (T.encode a)))
        ≡ some (report_for T.libs reading (T.encode a))
  decoded a ra_report attn reading acc =
      T.libs.decode-encode_report (report_for T.libs reading (T.encode a))
        (ap (λ q. length q.mr_enclave) acc.reads.of_quote ∙ T.libs.length-mr_enclave _)
        (T.length-encode a)

  MayRegister-check :
      (a : T.AccountId) (ra_report : Bytes) (attn : List ℕ) (url : Bytes) (report : SgxReport)
      → MayRegister a ra_report attn url report
      → check_registration T a ra_report attn url ≡ ok report
  unfolding check_registration
  MayRegister-check a ra_report attn url report m =
      let rep = T.libs.encode_report (report_for T.libs m.reading (T.encode a)) in
      let verified =
        (verify_mra_cert_lem T.libs ra_report attn (T.encode a) rep
            (omega (arith, m.short_report))).1
          (m.reading, m.accepted, refl) in
      let called = (verify_ra_report-some T.libs ra_report attn (T.encode a) rep).1 verified in
      let back = decoded a ra_report attn m.reading m.accepted in
      rw
        (
          m.of_reading,
          le→leb _ _ m.short_report,
          le→leb _ _ m.short_url,
          called,
          back,
          T.decode-encode a,
        )
        (ground arith)

  check-MayRegister :
      (a : T.AccountId) (ra_report : Bytes) (attn : List ℕ) (url : Bytes) (report : SgxReport)
      → check_registration T a ra_report attn url ≡ ok report
      → MayRegister a ra_report attn url report
  unfolding check_registration
  check-MayRegister a ra_report attn url report h =
      let short : length ra_report ≤ max_ra_report_len = leb→le _ _ (ground arith) in
      let (verified, called) =
        ok_of (verify_ra_report T.libs ra_report attn (T.encode a)) (λ m e. ground arith)
          (λ x e. ground arith) in
      let (rep, is_rep) = some_of verified (λ e. ground arith) in
      let accepted =
        (verify_ra_report-some T.libs ra_report attn (T.encode a) rep).0 (called ∙ ap ok is_rep) in
      let (reading, acc, same) =
        (verify_mra_cert_lem T.libs ra_report attn (T.encode a) rep (omega (arith, short))).0
          accepted in
      let back = decoded a ra_report attn reading acc in
      record {
        short_report = short;
        short_url = leb→le _ _ (ground arith);
        reading = reading;
        accepted = acc;
        of_reading = ground (arith, back, same);
      }

  -- The checks of a registration return a report exactly if the host accepts the certificate for
  -- the account, the certificate has at most 4096 bytes and the URL at most 256, and the report is
  -- the one that the host makes for the account.
  pub check_registration_lem :
      (a : T.AccountId) (ra_report : Bytes) (attn : List ℕ) (url : Bytes) (report : SgxReport)
      → (check_registration T a ra_report attn url ≡ ok report)
        ↔ MayRegister a ra_report attn url report
  check_registration_lem a ra_report attn url report =
      (check-MayRegister a ra_report attn url report, MayRegister-check a ra_report attn url report)
