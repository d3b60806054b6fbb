-- ===== src/HostCalls/Scenarios.antt =====
-- host_calls/src/remote_attestation.rs: the tests of the file, over any certificates and signers in
-- place of the test data that are not in the source.
pub mod Short
pub mod Passing
use substra_tee_node_pre.Base.{
  ℕ, Bool, true, false, List, [], ◌∷◌, Bytes, Bytes-discrete, ℕ_discrete, slice,
}
use substra_tee_node_pre.Base.Int.{ℤ, pos, geb}
use substra_tee_node_pre.Base.Outcome.{Outcome, ok, err, fault, panic, unwrap, ◌>>=◌, ◌>>◌}
use substra_tee_node_pre.HostCalls.Report.{SgxStatus}
use substra_tee_node_pre.HostCalls.Libs.{Libs}
use substra_tee_node_pre.HostCalls.Certificate.{safe_indexing, safe_indexing_one}
use substra_tee_node_pre.HostCalls.Attestation.{verify_mra_cert}
use substra_tee_node_pre.HostCalls.Scenarios.Short.{cert_too_short1, cert_too_short2}

pub SgxStatus-discrete : Discrete SgxStatus
SgxStatus-discrete = hlevel

-- `assert!(r.is_err())`
unfoldable pub assert_is_err : {A : Type 0} → Outcome A → Outcome (Unit {0})
assert_is_err (ok _) = fault panic
assert_is_err (err _) = ok tt
assert_is_err (fault x) = fault x

-- `assert!(r.is_ok())`, and the value
unfoldable pub assert_is_ok : {A : Type 0} → Outcome A → Outcome A
assert_is_ok (ok a) = ok a
assert_is_ok (err _) = fault panic
assert_is_ok (fault x) = fault x

unfoldable pub assert : Bool → Outcome (Unit {0})
assert true = ok tt
assert false = fault panic

unfoldable pub assert_eq : {A : Type 0} → Discrete A → A → A → Outcome (Unit {0})
assert_eq d a b = elim (d a b) [ yes _ ↦ ok tt | no _ ↦ fault panic ]

abbrev pub test1_mrenclave : Bytes
test1_mrenclave =
    62 ∷ 252 ∷ 187 ∷ 232 ∷ 60 ∷ 135 ∷ 108 ∷ 204 ∷ 87 ∷ 78 ∷ 35 ∷ 169 ∷ 241 ∷ 237 ∷ 106 ∷ 217 ∷ 251
    ∷ 241 ∷ 99 ∷ 189 ∷ 138 ∷ 157 ∷ 86 ∷ 136 ∷ 77 ∷ 91 ∷ 93 ∷ 23 ∷ 192 ∷ 104 ∷ 140 ∷ 167 ∷ []

abbrev pub test_timestamp : ℤ
test_timestamp = pos 1_580_587_262

module _ (L : Libs) where
  unfoldable pub verify_mra_cert_should_work :
      (test1_cert : Bytes) (signer_attn : List ℕ) (signer_pub : Bytes) → Outcome (Unit {0})
  verify_mra_cert_should_work test1_cert signer_attn signer_pub = do
    bytes ← assert_is_ok (verify_mra_cert L test1_cert signer_attn signer_pub)
    report ← unwrap (L.decode_report bytes)
    assert_eq Bytes-discrete report.mr_enclave test1_mrenclave
    assert (geb report.timestamp test_timestamp)
    assert_eq SgxStatus-discrete report.status SgxStatus.group_out_of_date

  unfoldable pub verify_mra_cert_wrong_signer_should_fail :
      (test1_cert : Bytes) (attn1 attn2 : List ℕ) (signer2_pub : Bytes) → Outcome (Unit {0})
  verify_mra_cert_wrong_signer_should_fail test1_cert attn1 attn2 signer2_pub = do
    assert_is_err (verify_mra_cert L test1_cert attn1 signer2_pub)
    assert_is_err (verify_mra_cert L test1_cert attn2 signer2_pub)

  abbrev pub verify_zero_length_cert_returns_err :
      (signer_attn : List ℕ) (signer_pub : Bytes) → Outcome (Unit {0})
  verify_zero_length_cert_returns_err signer_attn signer_pub =
      assert_is_err (verify_mra_cert L [] signer_attn signer_pub)

  abbrev pub verify_wrong_cert_is_err :
      (cert_wrong_platform_blob : Bytes) (signer_attn : List ℕ) (signer_pub : Bytes)
      → Outcome (Unit {0})
  verify_wrong_cert_is_err cert_wrong_platform_blob signer_attn signer_pub =
      assert_is_err (verify_mra_cert L cert_wrong_platform_blob signer_attn signer_pub)

  abbrev pub verify_wrong_fake_enclave_quote_is_err :
      (cert_fake_quote_status : Bytes) (signer_attn : List ℕ) (signer_pub : Bytes)
      → Outcome (Unit {0})
  verify_wrong_fake_enclave_quote_is_err cert_fake_quote_status signer_attn signer_pub =
      assert_is_err (verify_mra_cert L cert_fake_quote_status signer_attn signer_pub)

  abbrev pub verify_wrong_sig_is_err :
      (cert_wrong_sig : Bytes) (signer_attn : List ℕ) (signer_pub : Bytes) → Outcome (Unit {0})
  verify_wrong_sig_is_err cert_wrong_sig signer_attn signer_pub =
      assert_is_err (verify_mra_cert L cert_wrong_sig signer_attn signer_pub)

  unfoldable pub verify_short_cert_is_err :
      (signer_attn : List ℕ) (signer_pub : Bytes) → Outcome (Unit {0})
  verify_short_cert_is_err signer_attn signer_pub = do
    assert_is_err (verify_mra_cert L cert_too_short1 signer_attn signer_pub)
    assert_is_err (verify_mra_cert L cert_too_short2 signer_attn signer_pub)

unfoldable pub safe_indexing_works : Outcome (Unit {0})
safe_indexing_works = do
  let bytes : Bytes = 0 ∷ 1 ∷ 2 ∷ 3 ∷ 4 ∷ 5 ∷ 6 ∷ []
  range ← assert_is_ok (safe_indexing bytes 1 7)
  expected ← slice bytes 1 7
  assert_eq Bytes-discrete range expected
  one ← assert_is_ok (safe_indexing_one bytes 3)
  assert_eq ℕ_discrete one 3
  assert_is_err (safe_indexing bytes 1 8)
  assert_is_err (safe_indexing bytes 6 1)
  assert_is_err (safe_indexing bytes 16 19)
