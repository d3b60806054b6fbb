-- ===== src/HostCalls/Attestation/Separators.antt =====
-- host_calls/src/remote_attestation.rs: a comment without the separators of its fields.
use substra_tee_node_pre.Base.{
  ℕ, ◌≡◌, ◌≢◌, refl, List, [], ◌∷◌, Bytes, arith, ◌==◌, split_parts, split,
}
use substra_tee_node_pre.Base.Outcome.{ok, fault, panic}
use substra_tee_node_pre.HostCalls.Libs.{Libs}
use substra_tee_node_pre.HostCalls.Certificate.{public_key, netscape_comment}
use substra_tee_node_pre.HostCalls.Attestation.{comment_fields, verify_mra_cert, verify_ra_report}

-- No byte of the text is a `|`.
unfoldable pub Unseparated : Bytes → Type 0
Unseparated [] = Unit
Unseparated (x ∷ xs) = (x ≢ 0x7c) × Unseparated xs

split-Unseparated : (text : Bytes) → Unseparated text → split (λ x. x == 0x7c) text ≡ text ∷ []
unfolding Unseparated split split_parts
split-Unseparated [] h = refl
split-Unseparated (x ∷ xs) (ne, h) = ground (arith, split-Unseparated xs h)

module _ (L : Libs) where
  comment_fields-Unseparated :
      (text : Bytes) → Unseparated text → comment_fields L text ≡ fault panic
  unfolding comment_fields
  comment_fields-Unseparated text h = rw (split-Unseparated text h)

  module _ (cert_der pub_k payload : Bytes) (attn : List ℕ) (signer : Bytes)
      (key : public_key cert_der ≡ ok pub_k) (comment : netscape_comment cert_der ≡ ok payload)
      (plain : Unseparated payload) where
    verify_mra_cert_panics : verify_mra_cert L cert_der attn signer ≡ fault panic
    unfolding verify_mra_cert
    verify_mra_cert_panics = rw (key, comment, comment_fields-Unseparated payload plain)

    -- The host call panics for a certificate in which a key and a comment are found, where no byte
    -- of the comment is a `|`.
    pub verify_ra_report_panics : verify_ra_report L cert_der attn signer ≡ fault panic
    unfolding verify_ra_report
    verify_ra_report_panics = ground (arith, verify_mra_cert_panics)
