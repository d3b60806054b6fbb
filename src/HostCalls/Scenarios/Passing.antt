-- ===== src/HostCalls/Scenarios/Passing.antt =====
-- host_calls/src/remote_attestation.rs: tests of the file pass.
use substra_tee_node_pre.Base.{
  ℕ, ◌+◌, ◌<◌, word, ◌≡◌, refl, true, List, Bytes, Bytes-discrete, arith, ap, length, ◌∙◌,
}
use substra_tee_node_pre.Base.Int.{geb}
use substra_tee_node_pre.Base.Outcome.{Outcome, ok}
use substra_tee_node_pre.HostCalls.Report.{SgxStatus}
use substra_tee_node_pre.HostCalls.Libs.{Libs}
use substra_tee_node_pre.HostCalls.Attestation.{Reading}
use substra_tee_node_pre.HostCalls.Attestation.Accepted.{Accepts, report_for, verify_mra_cert_lem}
use substra_tee_node_pre.HostCalls.Scenarios.{
  SgxStatus-discrete, test1_mrenclave, test_timestamp, assert_is_ok, assert, assert_eq,
  verify_mra_cert_should_work,
}

assert_eq_refl : {A : Type 0} (d : Discrete A) (a : A) → assert_eq d a a ≡ ok tt
unfolding assert_eq
assert_eq_refl d a = ground arith

module _ (L : Libs) (attn : List ℕ) (signer : Bytes) where
  -- The test of a good certificate, on one that is accepted with what the test wants.
  should_work-Passes :
      (cert : Bytes) (reading : Reading)
      → length cert + 3 < word
      → Accepts L cert attn signer reading
      → reading.quote.mr_enclave ≡ test1_mrenclave
      → reading.status ≡ SgxStatus.group_out_of_date
      → geb reading.timestamp test_timestamp ≡ true
      → verify_mra_cert_should_work L cert attn signer ≡ ok tt
  unfolding verify_mra_cert_should_work assert_is_ok assert
  should_work-Passes cert reading fits a same status time =
      let e =
        (verify_mra_cert_lem L cert attn signer (L.encode_report (report_for L reading signer))
            fits).1
          (reading, a, refl) in
      let decoded =
        L.decode-encode_report (report_for L reading signer)
          (ap (λ q. length q.mr_enclave) a.reads.of_quote ∙ L.length-mr_enclave _)
          a.signs.signer_size in
      rw
        (
          e,
          decoded,
          same,
          assert_eq_refl Bytes-discrete test1_mrenclave,
          time,
          status,
          assert_eq_refl SgxStatus-discrete SgxStatus.group_out_of_date,
        )
        refl
