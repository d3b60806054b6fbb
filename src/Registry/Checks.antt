-- ===== src/Registry/Checks.antt =====
-- runtime/src/substratee_registry.rs: what `register_enclave` checks before it writes.
pub mod Acceptance
use substra_tee_node_pre.Base.{ℕ, Bool, true, false, List, Bytes, leb, length}
use substra_tee_node_pre.Base.Outcome.{Outcome, ok, ensure, ok_or, unwrap, ◌>>=◌, ◌>>◌}
use substra_tee_node_pre.HostCalls.Report.{SgxReport}
use substra_tee_node_pre.HostCalls.Attestation.{verify_ra_report}
use substra_tee_node_pre.Registry.Config.{Trait}

abbrev pub max_ra_report_len : ℕ
max_ra_report_len = 4096

abbrev pub max_url_len : ℕ
max_url_len = 256

module _ (T : Trait) where
  -- `sender == enclave_signer`
  abbrev pub same_account : T.AccountId → T.AccountId → Bool
  same_account a b = elim (T.account_eq a b) [ yes _ ↦ true | no _ ↦ false ]

  -- The lengths of the arguments, the report, and the account that the report names.
  unfoldable pub check_registration : T.AccountId → Bytes → List ℕ → Bytes → Outcome SgxReport
  check_registration sender ra_report ra_signer_attn worker_url = do
    ensure (leb (length ra_report) max_ra_report_len) "RA report too long"
    ensure (leb (length worker_url) max_url_len) "URL too long"
    verified ← verify_ra_report T.libs ra_report ra_signer_attn (T.encode sender)
    rep ← ok_or verified "Verifying RA report failed... returning"
    report ← unwrap (T.libs.decode_report rep)
    enclave_signer ← ok_or (T.decode report.pubkey) "failed to decode enclave signer"
    ensure (same_account sender enclave_signer) "extrinsic must be signed by attested enclave key"
    ok report
