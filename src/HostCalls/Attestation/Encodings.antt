-- ===== src/HostCalls/Attestation/Encodings.antt =====
-- host_calls/src/remote_attestation.rs: the status, the key and the signature that the code reads, as
-- what their bytes mean.
use mathlib.Core.List.{reverse}
use substra_tee_node_pre.Base.{
  ℕ, ◌+◌, ◌≡◌, ◌≢◌, ◌∙◌, refl, ap, sym, subst, List, [], ◌∷◌, ◌++◌, Bytes, bytes_of, bytes_eq,
  Bytes-discrete, arith, length, take, drop, length-append, length-take, length-drop, take-append,
  drop-append, take-append-drop, ℕ_discrete, bytes_eq_iff, Bool-cases, false, inl, inr,
}
use substra_tee_node_pre.Base.Outcome.{ok}
use substra_tee_node_pre.HostCalls.Report.{SgxStatus}
use substra_tee_node_pre.HostCalls.Libs.{EcPublicKey, EcSignature}
use substra_tee_node_pre.HostCalls.Attestation.{quote_status, ephemeral_key, attn_signature}

-- The status that a text names. Any other text names no status.
pub data StatusOf (text : Bytes) (status : SgxStatus) : Type 0 where
  trusted : text ≡ bytes_of "OK" → status ≡ SgxStatus.ok → StatusOf text status
  out_of_date :
      text ≡ bytes_of "GROUP_OUT_OF_DATE"
      → status ≡ SgxStatus.group_out_of_date
      → StatusOf text status
  revoked :
      text ≡ bytes_of "GROUP_REVOKED" → status ≡ SgxStatus.group_revoked → StatusOf text status
  unconfigured :
      text ≡ bytes_of "CONFIGURATION_NEEDED"
      → status ≡ SgxStatus.configuration_needed
      → StatusOf text status
  unnamed :
      text ≢ bytes_of "OK"
      → text ≢ bytes_of "GROUP_OUT_OF_DATE"
      → text ≢ bytes_of "GROUP_REVOKED"
      → text ≢ bytes_of "CONFIGURATION_NEEDED"
      → status ≡ SgxStatus.invalid
      → StatusOf text status

differs : (text word : Bytes) → text ≢ word → bytes_eq text word ≡ false
differs text word ne = elim (Bool-cases (bytes_eq text word)) [
  | inr e ↦ e
  | inl e ↦ absurd (ne ((bytes_eq_iff text word).0 e))
]

pub StatusOf-quote_status :
    (text : Bytes) (status : SgxStatus) → StatusOf text status → status ≡ quote_status text
unfolding quote_status
StatusOf-quote_status text status (trusted e s) = rw (e, s) refl
StatusOf-quote_status text status (out_of_date e s) = rw (e, s) refl
StatusOf-quote_status text status (revoked e s) = rw (e, s) refl
StatusOf-quote_status text status (unconfigured e s) = rw (e, s) refl
StatusOf-quote_status text status (unnamed ne ne1 ne2 ne3 s) =
    rw (differs _ _ ne, differs _ _ ne1, differs _ _ ne2, differs _ _ ne3, s) refl

-- Every text has a status, which is the one that the code reads.
some_status : (text : Bytes) → (status : SgxStatus) × StatusOf text status
some_status text = elim (Bytes-discrete text (bytes_of "OK")) [
  | yes e ↦ (_, trusted e refl)
  | no ne ↦ elim (Bytes-discrete text (bytes_of "GROUP_OUT_OF_DATE")) [
    | yes e ↦ (_, out_of_date e refl)
    | no ne1 ↦ elim (Bytes-discrete text (bytes_of "GROUP_REVOKED")) [
      | yes e ↦ (_, revoked e refl)
      | no ne2 ↦ elim (Bytes-discrete text (bytes_of "CONFIGURATION_NEEDED")) [
        | yes e ↦ (_, unconfigured e refl)
        | no ne3 ↦ (_, unnamed ne ne1 ne2 ne3 refl)
      ]
    ]
  ]
]

pub quote_status-StatusOf : (text : Bytes) → StatusOf text (quote_status text)
quote_status-StatusOf text =
    let (status, s) = some_status text in
    subst (StatusOf text) (StatusOf-quote_status text status s) s

-- Two halves of `n` elements each.
pub record Halves {A : Type 0} (n : ℕ) (xs left right : List A) : Type 0 where
  pub left_size : length left ≡ n
  pub right_size : length right ≡ n
  pub whole : xs ≡ left ++ right

take-length : {A : Type 0} (xs : List A) → take (length xs) xs ≡ xs
take-length [] = refl
take-length (x ∷ xs) = ap (λ ys. x ∷ ys) (take-length xs)

take_whole : {A : Type 0} (n : ℕ) (xs : List A) → length xs ≡ n → take n xs ≡ xs
take_whole n xs e = subst (λ m. take m xs ≡ xs) e (take-length xs)

module _ {A : Type 0} (n : ℕ) (xs left right : List A) (h : Halves n xs left right) where
  first_half : take n xs ≡ left
  first_half =
      rw h.whole (subst (λ m. take m (left ++ right) ≡ left) h.left_size (take-append left right))

  second_half : drop n xs ≡ right
  second_half =
      rw h.whole (subst (λ m. drop m (left ++ right) ≡ right) h.left_size (drop-append left right))

  two_halves : length xs ≡ n + n
  two_halves =
      ap length h.whole ∙ length-append left right ∙ omega (arith, h.left_size, h.right_size)

halve : {A : Type 0} (n : ℕ) (xs : List A) → length xs ≡ n + n → Halves n xs (take n xs) (drop n xs)
halve n xs e = record {
  left_size = omega (arith, length-take n xs);
  right_size = omega (arith, length-drop n xs);
  whole = sym (take-append-drop n xs);
}

-- The key with the two coordinates, each from the most to the least significant byte.
pub record KeyOf (pub_k : Bytes) (key : EcPublicKey) : Type 0 where
  pub x : Bytes
  pub y : Bytes
  pub coordinates : Halves 32 pub_k x y
  pub little_endian : key ≡ record { gx = reverse x; gy = reverse y }

unfoldable pub SignatureOf : List ℕ → EcSignature → Type 0
SignatureOf attn signature = Halves 8 attn signature.x signature.y

pub KeyOf-ephemeral_key :
    (pub_k : Bytes) (key : EcPublicKey) → KeyOf pub_k key → ephemeral_key pub_k ≡ ok key
unfolding ephemeral_key
KeyOf-ephemeral_key pub_k key k =
    let c = k.coordinates in
    ground (
      arith,
      first_half 32 pub_k k.x k.y c,
      second_half 32 pub_k k.x k.y c,
      two_halves 32 pub_k k.x k.y c,
      take_whole 32 k.y c.right_size,
      c.left_size,
      c.right_size,
      k.little_endian,
    )

pub ephemeral_key-KeyOf :
    (pub_k : Bytes) (key : EcPublicKey) → ephemeral_key pub_k ≡ ok key → KeyOf pub_k key
unfolding ephemeral_key
ephemeral_key-KeyOf pub_k key h = elim (ℕ_discrete (length pub_k) 64) [
  | no ne ↦ absurd (ground arith)
  | yes e ↦
      let c = halve 32 pub_k e in
      let x = take 32 pub_k in
      let y = drop 32 pub_k in
      let read =
        KeyOf-ephemeral_key pub_k (record { gx = reverse x; gy = reverse y })
          (record { x = x; y = y; coordinates = c; little_endian = refl }) in
      record { x = x; y = y; coordinates = c; little_endian = cc (h, read) }
]

pub SignatureOf-attn_signature :
    (attn : List ℕ) (signature : EcSignature)
    → SignatureOf attn signature
    → attn_signature attn ≡ ok signature
unfolding attn_signature SignatureOf
SignatureOf-attn_signature attn signature c = ground (
  arith,
  first_half 8 attn signature.x signature.y c,
  second_half 8 attn signature.x signature.y c,
  two_halves 8 attn signature.x signature.y c,
  take_whole 8 signature.y c.right_size,
  c.left_size,
  c.right_size,
)

pub attn_signature-SignatureOf :
    (attn : List ℕ) (signature : EcSignature)
    → attn_signature attn ≡ ok signature
    → SignatureOf attn signature
unfolding attn_signature SignatureOf
attn_signature-SignatureOf attn signature h = elim (ℕ_discrete (length attn) 16) [
  | no ne ↦ absurd (ground arith)
  | yes e ↦
      let c = halve 8 attn e in
      let read = SignatureOf-attn_signature attn (record { x = take 8 attn; y = drop 8 attn }) c in
      let same : record { x = take 8 attn; y = drop 8 attn } ≡ signature = cc (h, read) in
      subst (SignatureOf attn) same c
]
