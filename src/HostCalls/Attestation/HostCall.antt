-- ===== src/HostCalls/Attestation/HostCall.antt =====
-- host_calls/src/lib.rs: the host call, which is `verify_mra_cert` without the messages.
use substra_tee_node_pre.Base.{ℕ, ◌≡◌, ◌↔◌, List, some, Bytes, arith}
use substra_tee_node_pre.Base.Outcome.{ok, Outcome-Ends, returned, failed, faulted}
use substra_tee_node_pre.HostCalls.Libs.{Libs}
use substra_tee_node_pre.HostCalls.Attestation.{verify_mra_cert, verify_ra_report}

module _ (L : Libs) (cert_der : Bytes) (attn : List ℕ) (signer : Bytes) where
  pub verify_ra_report-some :
      (rep : Bytes)
      → (verify_ra_report L cert_der attn signer ≡ ok (some rep))
        ↔ (verify_mra_cert L cert_der attn signer ≡ ok rep)
  unfolding verify_ra_report
  verify_ra_report-some rep = elim (Outcome-Ends (verify_mra_cert L cert_der attn signer)) [
    | returned r e ↦ (λ h. ground arith, λ h. ground arith)
    | failed x e ↦ (λ h. absurd (ground arith), λ h. absurd (ground arith))
    | faulted x e ↦ (λ h. absurd (ground arith), λ h. absurd (ground arith))
  ]
