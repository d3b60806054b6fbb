-- ===== src/HostCalls/Attestation/Mistakes.antt =====
-- host_calls/src/remote_attestation.rs: what is wrong where a step of the verification returns an
-- error, and the message of the step.
use substra_tee_node_pre.Base.{
  ◌≡◌, ◌↔◌, List, [], ◌∷◌, some, none, Bytes, String, arith, split, inl, inr, Option-cases, ◌==◌,
}
use substra_tee_node_pre.Base.Outcome.{ok, err, Outcome-Ends, returned, failed, faulted}
use substra_tee_node_pre.HostCalls.Libs.{Libs}
use substra_tee_node_pre.HostCalls.Ca.{ca_core, ias_report_ca}
use substra_tee_node_pre.HostCalls.Attestation.{
  comment_fields, ca_anchors, check_issuer, supported_sig_algs,
}
use substra_tee_node_pre.HostCalls.Attestation.Report.{log_outcome-ok}
use substra_tee_node_pre.HostCalls.Attestation.Steps.{
  List-Parts, empty, one, two, more, split-nonempty, ca_core-whole,
}

module _ (L : Libs) where
  pub data BadParts (payload : Bytes) : String → Type 0 where
    signature_text :
        (a b : Bytes) (rest : List Bytes)
        → split (λ x. x == 0x7c) payload ≡ a ∷ b ∷ rest
        → L.base64_decode b ≡ none
        → BadParts payload "Decoding Error"
    certificate_text :
        (a b c sig : Bytes) (rest : List Bytes)
        → split (λ x. x == 0x7c) payload ≡ a ∷ b ∷ c ∷ rest
        → L.base64_decode b ≡ some sig
        → L.base64_decode c ≡ none
        → BadParts payload "Decoding Error"
    der :
        (a b c sig dec : Bytes) (rest : List Bytes)
        → split (λ x. x == 0x7c) payload ≡ a ∷ b ∷ c ∷ rest
        → L.base64_decode b ≡ some sig
        → L.base64_decode c ≡ some dec
        → L.end_entity_cert dec ≡ none
        → BadParts payload "Bad DER"

  comment_fields-BadParts :
      (payload : Bytes) (m : String) → comment_fields L payload ≡ err m → BadParts payload m
  unfolding comment_fields
  comment_fields-BadParts payload m h = elim (List-Parts (split (λ x. x == 0x7c) payload)) [
    | empty e ↦ absurd (split-nonempty L payload e)
    | one a e ↦ absurd (ground arith)
    | two a b e ↦ elim (Option-cases (L.base64_decode b)) [
      | inr (sig, d) ↦ absurd (ground arith)
      | inl d ↦
          let same : m ≡ "Decoding Error" = ground arith in rw same (signature_text a b [] e d)
    ]
    | more a b c rest e ↦ elim (Option-cases (L.base64_decode b)) [
      | inl d ↦
          let same : m ≡ "Decoding Error" = ground arith in
          rw same (signature_text a b (c ∷ rest) e d)
      | inr (sig, d) ↦ elim (Option-cases (L.base64_decode c)) [
        | inl d' ↦
            let same : m ≡ "Decoding Error" = ground arith in
            rw same (certificate_text a b c sig rest e d d')
        | inr (dec, d') ↦
            let (no_cert, same) : (L.end_entity_cert dec ≡ none) × (m ≡ "Bad DER") = ground arith in
            rw same (der a b c sig dec rest e d d' no_cert)
      ]
    ]
  ]

  BadParts-comment_fields :
      (payload : Bytes) (m : String) → BadParts payload m → comment_fields L payload ≡ err m
  unfolding comment_fields
  BadParts-comment_fields payload _ (signature_text a b rest e d) = rw (e, d)
  BadParts-comment_fields payload _ (certificate_text a b c sig rest e d d') = rw (e, d, d')
  BadParts-comment_fields payload _ (der a b c sig dec rest e d d' no_cert) = rw (e, d, d', no_cert)

  pub comment_fields_err :
      (payload : Bytes) (m : String) → (comment_fields L payload ≡ err m) ↔ BadParts payload m
  comment_fields_err payload m =
      (comment_fields-BadParts payload m, BadParts-comment_fields payload m)

  -- The embedded certificate is not one.
  pub data BadIssuer : String → Type 0 where
    core_text :
        (core : Bytes)
        → ca_core ias_report_ca ≡ ok core
        → L.base64_decode core ≡ none
        → BadIssuer "Decoding Error"
    no_roots :
        (core dec : Bytes)
        → ca_core ias_report_ca ≡ ok core
        → L.base64_decode core ≡ some dec
        → L.add_pem_file ias_report_ca ≡ none
        → BadIssuer "Failed to add CA"

  ca_anchors-BadIssuer : (m : String) → ca_anchors L ≡ err m → BadIssuer m
  unfolding ca_anchors
  ca_anchors-BadIssuer m h =
      let (core, e) = ca_core-whole L in
      elim (Option-cases (L.base64_decode core)) [
        | inl d ↦ let same : m ≡ "Decoding Error" = ground arith in rw same (core_text core e d)
        | inr (dec, d) ↦
            let (no_file, same) : (L.add_pem_file ias_report_ca ≡ none) × (m ≡ "Failed to add CA") =
              ground arith in
            rw same (no_roots core dec e d no_file)
      ]

  check_issuer-BadIssuer :
      (sig_cert : L.Cert) (m : String) → check_issuer L sig_cert ≡ err m → BadIssuer m
  unfolding check_issuer
  check_issuer-BadIssuer sig_cert m h = elim (Outcome-Ends (ca_anchors L)) [
    | failed m' e ↦ ca_anchors-BadIssuer m (ground arith)
    | faulted y e ↦ absurd (ground arith)
    | returned anchors e ↦ elim (Option-cases L.now) [
      | inl none_left ↦ absurd (ground arith)
      | inr (now, t) ↦
          let logged = log_outcome-ok (
            L.verify_is_valid_tls_server_cert sig_cert supported_sig_algs anchors.1 (anchors.0 ∷ [])
              now) in
          absurd (ground arith)
    ]
  ]

  BadIssuer-check_issuer :
      (sig_cert : L.Cert) (m : String) → BadIssuer m → check_issuer L sig_cert ≡ err m
  unfolding check_issuer ca_anchors
  BadIssuer-check_issuer sig_cert _ (core_text core e d) = rw (e, d)
  BadIssuer-check_issuer sig_cert _ (no_roots core dec e d no_file) = rw (e, d, no_file)

  pub check_issuer_err :
      (sig_cert : L.Cert) (m : String) → (check_issuer L sig_cert ≡ err m) ↔ BadIssuer m
  check_issuer_err sig_cert m =
      (check_issuer-BadIssuer sig_cert m, BadIssuer-check_issuer sig_cert m)
