-- ===== src/HostCalls/Attestation/Steps.antt =====
-- host_calls/src/remote_attestation.rs: where the steps of the verification panic.
use substra_tee_node_pre.Base.{
  ℕ, ◌≡◌, ◌≢◌, refl, false, List, [], ◌∷◌, some, none, Bytes, arith, length, split, inl, inr,
  Option-cases, length-take, length-drop, drop, retain, map, ◌==◌,
}
use substra_tee_node_pre.Base.Outcome.{
  Fault, ok, fault, panic, Outcome-Ends, returned, failed, faulted, some_of, ok_of,
}
use substra_tee_node_pre.HostCalls.Libs.{Libs, EcPublicKey, EcSignature}
use substra_tee_node_pre.HostCalls.Ca.{ca_core, ias_report_ca}
use substra_tee_node_pre.HostCalls.Attestation.Encodings.{
  KeyOf, KeyOf-ephemeral_key, ephemeral_key-KeyOf, SignatureOf, SignatureOf-attn_signature,
  attn_signature-SignatureOf,
}
use substra_tee_node_pre.HostCalls.Attestation.{
  check_signer, ephemeral_key, attn_signature, comment_fields, ca_anchors, check_issuer,
  is_ok_false, supported_sig_algs,
}
use substra_tee_node_pre.HostCalls.Attestation.Report.{log_outcome-ok}

-- To split on the number of parts.
pub data Parts (xs : List Bytes) : Type 0 where
  empty : xs ≡ [] → Parts xs
  one : (a : Bytes) → xs ≡ a ∷ [] → Parts xs
  two : (a b : Bytes) → xs ≡ a ∷ b ∷ [] → Parts xs
  more : (a b c : Bytes) (others : List Bytes) → xs ≡ a ∷ b ∷ c ∷ others → Parts xs

pub List-Parts : (xs : List Bytes) → Parts xs
List-Parts [] = empty refl
List-Parts (a ∷ []) = one a refl
List-Parts (a ∷ b ∷ []) = two a b refl
List-Parts (a ∷ b ∷ c ∷ others) = more a b c others refl

module _ (L : Libs) where
  pub split-nonempty : (payload : Bytes) → split (λ x. x == 0x7c) payload ≢ []
  unfolding split
  split-nonempty payload h = cc

  -- The comment has one part, or a second one behind which nothing follows.
  pub data FewParts (payload : Bytes) : Type 0 where
    one_part : (a : Bytes) → split (λ x. x == 0x7c) payload ≡ a ∷ [] → FewParts payload
    two_parts :
        (a b sig : Bytes)
        → split (λ x. x == 0x7c) payload ≡ a ∷ b ∷ []
        → L.base64_decode b ≡ some sig
        → FewParts payload

  pub comment_fields-FewParts :
      (payload : Bytes) (x : Fault) → comment_fields L payload ≡ fault x → FewParts payload
  unfolding comment_fields
  comment_fields-FewParts payload x h = elim (List-Parts (split (λ x. x == 0x7c) payload)) [
    | empty e ↦ absurd (split-nonempty payload e)
    | one a e ↦ one_part a e
    | two a b e ↦
        let (sig, d) = some_of (L.base64_decode b) (λ n. ground arith) in two_parts a b sig e d
    | more a b c others e ↦ absurd (ground arith)
  ]

  pub FewParts-comment_fields :
      (payload : Bytes) → FewParts payload → comment_fields L payload ≡ fault panic
  unfolding comment_fields
  FewParts-comment_fields payload (one_part a e) = rw e
  FewParts-comment_fields payload (two_parts a b sig e d) = rw (e, d)

  pub ca_core-whole : (core : Bytes) × (ca_core ias_report_ca ≡ ok core)
  unfolding ca_core ias_report_ca retain
  ca_core-whole = (_, refl)

  -- The embedded certificate can be decoded, and read as the roots of trust.
  pub record HasAnchors : Type 0 where
    pub core : Bytes
    pub dec : Bytes
    pub roots : List L.Root
    pub has_core : ca_core ias_report_ca ≡ ok core
    pub decoded : L.base64_decode core ≡ some dec
    pub rooted : L.add_pem_file ias_report_ca ≡ some roots

  pub ca_anchors-HasAnchors :
      (anchors : Bytes × List L.TrustAnchor) → ca_anchors L ≡ ok anchors → HasAnchors
  unfolding ca_anchors
  ca_anchors-HasAnchors anchors h =
      let (core, e) = ca_core-whole in
      let (dec, d) = some_of (L.base64_decode core) (λ n. ground arith) in
      let (roots, r) = some_of (L.add_pem_file ias_report_ca) (λ n. ground arith) in
      record { core = core; dec = dec; roots = roots; has_core = e; decoded = d; rooted = r }

  pub HasAnchors-ca_anchors :
      (a : HasAnchors) → ca_anchors L ≡ ok (a.dec, map L.to_trust_anchor a.roots)
  unfolding ca_anchors
  HasAnchors-ca_anchors a = rw (a.has_core, a.decoded, a.rooted) refl

  -- The embedded certificate is good, and there is no time.
  pub data NoClock : Type 0 where
    no_clock : HasAnchors → L.now ≡ none → NoClock

  ca_anchors-ne-fault : (x : Fault) → ca_anchors L ≢ fault x
  unfolding ca_anchors
  ca_anchors-ne-fault x h = let (core, e) = ca_core-whole in ground arith

  pub check_issuer-NoClock :
      (sig_cert : L.Cert) (x : Fault) → check_issuer L sig_cert ≡ fault x → NoClock
  unfolding check_issuer
  check_issuer-NoClock sig_cert x h = elim (Outcome-Ends (ca_anchors L)) [
    | failed m e ↦ absurd (ground arith)
    | faulted y e ↦ absurd (ca_anchors-ne-fault y e)
    | returned anchors e ↦ elim (Option-cases L.now) [
      | inl none_left ↦ no_clock (ca_anchors-HasAnchors anchors e) none_left
      | inr (now, t) ↦
          let logged = log_outcome-ok (
            L.verify_is_valid_tls_server_cert sig_cert supported_sig_algs anchors.1 (anchors.0 ∷ [])
              now) in
          absurd (ground arith)
    ]
  ]

  pub NoClock-check_issuer : (sig_cert : L.Cert) → NoClock → check_issuer L sig_cert ≡ fault panic
  unfolding check_issuer
  NoClock-check_issuer sig_cert (no_clock a t) = rw (HasAnchors-ca_anchors a, t)

  -- Everything about the signer is good but the number of its bytes.
  pub record WrongSize (pub_k signer : Bytes) (attn : List ℕ) : Type 0 where
    pub key : EcPublicKey
    pub signature : EcSignature
    pub has_key : KeyOf pub_k key
    pub has_signature : SignatureOf attn signature
    pub not_refused : is_ok_false (L.ecdsa_verify_slice signer key signature) ≡ false
    pub size : length signer ≢ 32

  pub ephemeral_key-ne-fault : (pub_k : Bytes) (x : Fault) → ephemeral_key pub_k ≢ fault x
  unfolding ephemeral_key
  ephemeral_key-ne-fault pub_k x h = ground (
    arith,
    length-take 32 (drop 0 pub_k),
    length-take 32 (drop 32 pub_k),
    length-drop 0 pub_k,
    length-drop 32 pub_k,
  )

  pub attn_signature-ne-fault : (attn : List ℕ) (x : Fault) → attn_signature attn ≢ fault x
  unfolding attn_signature
  attn_signature-ne-fault attn x h = ground (
    arith,
    length-take 8 (drop 0 attn),
    length-take 8 (drop 8 attn),
    length-drop 0 attn,
    length-drop 8 attn,
  )

  pub check_signer-WrongSize :
      (pub_k signer : Bytes) (attn : List ℕ) (x : Fault)
      → check_signer L pub_k signer attn ≡ fault x
      → WrongSize pub_k signer attn
  unfolding check_signer
  check_signer-WrongSize pub_k signer attn x h =
      let (key, has_key) =
        ok_of (ephemeral_key pub_k) (λ m e. ground arith)
          (λ y e. ephemeral_key-ne-fault pub_k y e) in
      let (signature, has_signature) =
        ok_of (attn_signature attn) (λ m e. ground arith)
          (λ y e. attn_signature-ne-fault attn y e) in
      record {
        key = key;
        signature = signature;
        has_key = ephemeral_key-KeyOf pub_k key has_key;
        has_signature = attn_signature-SignatureOf attn signature has_signature;
        not_refused = ground arith;
        size = λ e. ground arith;
      }

  pub WrongSize-check_signer :
      (pub_k signer : Bytes) (attn : List ℕ)
      → WrongSize pub_k signer attn
      → check_signer L pub_k signer attn ≡ fault panic
  unfolding check_signer
  WrongSize-check_signer pub_k signer attn w = ground (
    arith,
    KeyOf-ephemeral_key pub_k w.key w.has_key,
    SignatureOf-attn_signature attn w.signature w.has_signature,
    w.not_refused,
    w.size,
  )
