-- ===== src/HostCalls/Attestation/Signers.antt =====
-- host_calls/src/remote_attestation.rs: what is wrong with a signer where the check of it returns an
-- error, and the message.
use substra_tee_node_pre.Base.{
  ℕ, ◌≡◌, ◌≢◌, ◌↔◌, refl, List, some, false, Bytes, String, arith, length, drop, length-take,
  length-drop, ℕ_discrete,
}
use substra_tee_node_pre.Base.Outcome.{ok, err, ok_of, Outcome-Ends, returned, failed, faulted}
use substra_tee_node_pre.HostCalls.Libs.{Libs, EcPublicKey, EcSignature}
use substra_tee_node_pre.HostCalls.Attestation.Encodings.{
  KeyOf, KeyOf-ephemeral_key, ephemeral_key-KeyOf, SignatureOf, SignatureOf-attn_signature,
  attn_signature-SignatureOf,
}
use substra_tee_node_pre.HostCalls.Attestation.{check_signer, ephemeral_key, attn_signature}
use substra_tee_node_pre.HostCalls.Attestation.Steps.{ephemeral_key-ne-fault}

abbrev pub key_size : String
key_size = "wrong size of signer ephemeral public key"

abbrev pub wrong_signer : String
wrong_signer = "wrong signature. Could not verify that the extrinsic signer is the enclave itself"

abbrev pub attn_size : String
attn_size = "wrong size of signer attestation signature"

module _ (L : Libs) where
  -- The key or the signature has another size, or the key has not signed the signer.
  pub data BadSigner (pub_k signer : Bytes) (attn : List ℕ) : String → Type 0 where
    bad_key : length pub_k ≢ 64 → BadSigner pub_k signer attn key_size
    bad_attn : length pub_k ≡ 64 → length attn ≢ 16 → BadSigner pub_k signer attn attn_size
    unsigned :
        (key : EcPublicKey) (signature : EcSignature)
        → KeyOf pub_k key
        → SignatureOf attn signature
        → L.ecdsa_verify_slice signer key signature ≡ some false
        → BadSigner pub_k signer attn wrong_signer

key_err :
    (pub_k : Bytes) (m : String)
    → (ephemeral_key pub_k ≡ err m) ↔ ((length pub_k ≢ 64) × (m ≡ key_size))
unfolding ephemeral_key
key_err pub_k m = (
  λ h. elim (ℕ_discrete (length pub_k) 64) [
    | no ne ↦ (ne, ground arith)
    | yes e ↦ absurd (
        ground (
          arith,
          length-take 32 (drop 0 pub_k),
          length-take 32 (drop 32 pub_k),
          length-drop 0 pub_k,
          length-drop 32 pub_k,
        ))
  ],
  λ (ne, same). ground arith,
)

attn_err :
    (attn : List ℕ) (m : String)
    → (attn_signature attn ≡ err m) ↔ ((length attn ≢ 16) × (m ≡ attn_size))
unfolding attn_signature
attn_err attn m = (
  λ h. elim (ℕ_discrete (length attn) 16) [
    | no ne ↦ (ne, ground arith)
    | yes e ↦ absurd (
        ground (
          arith,
          length-take 8 (drop 0 attn),
          length-take 8 (drop 8 attn),
          length-drop 0 attn,
          length-drop 8 attn,
        ))
  ],
  λ (ne, same). ground arith,
)

ok_size : (pub_k : Bytes) (key : EcPublicKey) → ephemeral_key pub_k ≡ ok key → length pub_k ≡ 64
ok_size pub_k key e = elim (ℕ_discrete (length pub_k) 64) [
  | yes long ↦ long
  | no ne ↦ let bad = (key_err pub_k key_size).1 (ne, refl) in cc (e, bad)
]

module _ (L : Libs) where
  size-ok :
      (pub_k : Bytes) → length pub_k ≡ 64 → (key : EcPublicKey) × (ephemeral_key pub_k ≡ ok key)
  size-ok pub_k e =
      ok_of (ephemeral_key pub_k) (λ m h. ((key_err pub_k m).0 h).0 e)
        (ephemeral_key-ne-fault L pub_k)

  check_signer-BadSigner :
      (pub_k signer : Bytes) (attn : List ℕ) (m : String)
      → check_signer L pub_k signer attn ≡ err m
      → BadSigner L pub_k signer attn m
  unfolding check_signer
  check_signer-BadSigner pub_k signer attn m h = elim (Outcome-Ends (ephemeral_key pub_k)) [
    | faulted x e ↦ absurd (ground arith)
    | failed m' e ↦
        let (ne, same) = (key_err pub_k m').0 e in
        let same' : m ≡ key_size = ground arith in rw same' (bad_key ne)
    | returned key e ↦
        let long : length pub_k ≡ 64 = ok_size pub_k key e in
        elim (Outcome-Ends (attn_signature attn)) [
          | faulted x e' ↦ absurd (ground arith)
          | failed m' e' ↦
              let (ne, same) = (attn_err attn m').0 e' in
              let same' : m ≡ attn_size = ground arith in rw same' (bad_attn long ne)
          | returned signature e' ↦
              let (bad, same) : (L.ecdsa_verify_slice signer key signature ≡ some false)
                  × (m ≡ wrong_signer) =
                ground arith in
              rw same (
                unsigned key signature (ephemeral_key-KeyOf pub_k key e)
                  (attn_signature-SignatureOf attn signature e') bad)
        ]
  ]

  BadSigner-check_signer :
      (pub_k signer : Bytes) (attn : List ℕ) (m : String)
      → BadSigner L pub_k signer attn m
      → check_signer L pub_k signer attn ≡ err m
  unfolding check_signer
  BadSigner-check_signer pub_k signer attn _ (bad_key ne) =
      rw ((key_err pub_k key_size).1 (ne, refl))
  BadSigner-check_signer pub_k signer attn _ (bad_attn long ne) =
      let (key, e) = size-ok pub_k long in rw (e, (attn_err attn attn_size).1 (ne, refl))
  BadSigner-check_signer pub_k signer attn _ (unsigned key signature e e' bad) =
      rw (KeyOf-ephemeral_key pub_k key e, SignatureOf-attn_signature attn signature e', bad)

  pub check_signer_err :
      (pub_k signer : Bytes) (attn : List ℕ) (m : String)
      → (check_signer L pub_k signer attn ≡ err m) ↔ BadSigner L pub_k signer attn m
  check_signer_err pub_k signer attn m =
      (check_signer-BadSigner pub_k signer attn m, BadSigner-check_signer pub_k signer attn m)
