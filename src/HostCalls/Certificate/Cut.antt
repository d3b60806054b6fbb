-- ===== src/HostCalls/Certificate/Cut.antt =====
-- The certificates on which the cutting out of a field panics: they end inside of its length.
use substra_tee_node_pre.Base.{
  ℕ, ◌+◌, ◌≤◌, ◌<◌, ◌≡◌, ◌≢◌, ◌↔◌, Bytes, arith, length, get_elem?, word, ◌+w◌, get_elem?_beyond,
  get_elem?_within, dec_lt, ap, drop, length-take, length-drop, le_of_get_elem?-none, inl, inr,
  some, Option-cases, lt→ltb,
}
use substra_tee_node_pre.Base.Outcome.{
  Outcome, Fault, ok, fault, panic, undefined, Outcome-Ends, returned, failed, faulted, ◌>>=◌,
}
use substra_tee_node_pre.HostCalls.Certificate.{
  safe_indexing, safe_indexing_one, find_oid, read_length, public_key, netscape_comment,
  prime256v1_oid, ns_cmt_oid,
}
use substra_tee_node_pre.HostCalls.Certificate.Indexing.{
  safe_indexing_lem, safe_indexing_one_panics,
}
use substra_tee_node_pre.HostCalls.Certificate.Search.{IsFirst, find_oid-IsFirst}

-- The bytes end where the length at the offset should be, or behind the mark of a length of two
-- bytes, or behind the first of the two.
pub data CutLength (bytes : Bytes) (offset : ℕ) : Type 0 where
  no_length : offset ≡ length bytes → CutLength bytes offset
  no_hi :
      (mark : ℕ)
      → get_elem? bytes offset ≡ some mark
      → 0x80 < mark
      → offset + 1 ≡ length bytes
      → CutLength bytes offset
  no_lo :
      (mark : ℕ)
      → get_elem? bytes offset ≡ some mark
      → 0x80 < mark
      → offset + 2 ≡ length bytes
      → CutLength bytes offset

one-fault :
    (bytes : Bytes) (i : ℕ) (x : Fault) → safe_indexing_one bytes i ≡ fault x → i ≡ length bytes
unfolding safe_indexing_one
one-fault bytes i x h = elim (Option-cases (get_elem? bytes i)) [
  | inr (a, e) ↦ absurd (ground arith)
  | inl e ↦ ground (arith, le_of_get_elem?-none bytes i e)
]

pub one-ok :
    (bytes : Bytes) (i y : ℕ) → safe_indexing_one bytes i ≡ ok y → get_elem? bytes i ≡ some y
unfolding safe_indexing_one
one-ok bytes i y h = elim (Option-cases (get_elem? bytes i)) [
  | inr (a, e) ↦ ground arith
  | inl e ↦ absurd (ground arith)
]

pub ok-one :
    (bytes : Bytes) (i y : ℕ) → get_elem? bytes i ≡ some y → safe_indexing_one bytes i ≡ ok y
unfolding safe_indexing_one
ok-one bytes i y e = elim (dec_lt i (length bytes)) [
  | yes lt ↦ ground arith
  | no ge ↦ cc (e, get_elem?_beyond bytes i (omega arith))
]

-- Below 2^64, the offsets of the two bytes do not wrap.
pub find_oid-ne-fault : (oid cert : Bytes) (x : Fault) → find_oid oid cert ≢ fault x
unfolding find_oid
find_oid-ne-fault oid cert x h = ground arith

pub near : (offset n : ℕ) → offset + n < word → offset +w n ≡ offset + n
near offset n h = omega arith

two_bytes-panics :
    (bytes : Bytes) (offset mark : ℕ) (x : Fault)
    → offset + 2 < word
    → get_elem? bytes offset ≡ some mark
    → 0x80 < mark
    → read_length bytes offset ≡ fault x
    → CutLength bytes offset
unfolding read_length
two_bytes-panics bytes offset mark x fits at gt h =
    let one = ok-one bytes offset mark at in
    let marked = lt→ltb 0x80 mark gt in
    let hi_at = near offset 1 (omega arith) in
    let lo_at = near offset 2 fits in
    elim (Outcome-Ends (safe_indexing_one bytes (offset +w 1))) [
      | failed m e ↦ absurd (ground arith)
      | faulted y e ↦ no_hi mark at gt (cc (hi_at, one-fault bytes _ y e))
      | returned hi e ↦ elim (Outcome-Ends (safe_indexing_one bytes (offset +w 2))) [
        | failed m e' ↦ absurd (ground arith)
        | faulted y e' ↦ no_lo mark at gt (cc (lo_at, one-fault bytes _ y e'))
        | returned lo e' ↦ absurd (ground arith)
      ]
    ]

read_length-panics :
    (bytes : Bytes) (offset : ℕ) (x : Fault)
    → offset + 2 < word
    → read_length bytes offset ≡ fault x
    → CutLength bytes offset
unfolding read_length
read_length-panics bytes offset x fits h = elim (Outcome-Ends (safe_indexing_one bytes offset)) [
  | failed m e ↦ absurd (ground arith)
  | faulted y e ↦ no_length (one-fault bytes offset y e)
  | returned mark e ↦ elim (dec_lt 0x80 mark) [
    | no le ↦ absurd (ground arith)
    | yes gt ↦ two_bytes-panics bytes offset mark x fits (one-ok bytes offset mark e) gt h
  ]
]

CutLength-read_length :
    (bytes : Bytes) (offset : ℕ)
    → offset + 2 < word
    → CutLength bytes offset
    → read_length bytes offset ≡ fault panic
unfolding read_length
CutLength-read_length bytes offset fits (no_length e) =
    rw ((safe_indexing_one_panics bytes offset).1 e)
CutLength-read_length bytes offset fits (no_hi mark at gt e) = rw (
  ok-one bytes offset mark at,
  lt→ltb 0x80 mark gt,
  near offset 1 (omega arith),
  (safe_indexing_one_panics bytes (offset + 1)).1 e,
)
CutLength-read_length bytes offset fits (no_lo mark at gt e) =
    let (hi, next) = get_elem?_within bytes (offset + 1) (omega arith) in
    rw (
      ok-one bytes offset mark at,
      lt→ltb 0x80 mark gt,
      near offset 1 (omega arith),
      ok-one bytes (offset + 1) hi next,
      near offset 2 fits,
      (safe_indexing_one_panics bytes (offset + 2)).1 e,
    )

-- The identifier occurs, and the certificate ends inside of the length that follows it.
pub data CutField (oid : Bytes) (cert : Bytes) : Type 0 where
  cut_field :
      (offset : ℕ)
      → IsFirst oid cert offset
      → CutLength cert (offset + length oid + 1)
      → CutField oid cert

pub first_within :
    (oid cert : Bytes) (offset : ℕ)
    → 0 < length oid
    → IsFirst oid cert offset
    → offset + length oid ≤ length cert
first_within oid cert offset pos f = omega (
  arith,
  ap length f.occurs,
  length-take (length oid) (drop offset cert),
  length-drop offset cert,
)

module _ (cert : Bytes) (fits : length cert + 3 < word) where
  -- A field is found by its identifier and its length, and cut out by a step without panics.
  module _ (oid : Bytes) (pos : 0 < length oid) (cut : ℕ × ℕ → Outcome Bytes)
      (sound : (at : ℕ × ℕ) (x : Fault) → cut at ≢ fault x) where
    abbrev field : Outcome Bytes
    field = do found ← find_oid oid cert; at ← read_length cert (found +w (length oid + 1)); cut at

    from :
        (offset : ℕ)
        → IsFirst oid cert offset
        → (offset +w (length oid + 1) ≡ offset + length oid + 1)
          × (offset + length oid + 1 + 2 < word)
    from offset first =
        let within = first_within oid cert offset pos first in (omega arith, omega arith)

    field-CutField : (x : Fault) → field ≡ fault x → CutField oid cert
    field-CutField x h = elim (Outcome-Ends (find_oid oid cert)) [
      | failed m e ↦ absurd (ground arith)
      | faulted y e ↦ absurd (find_oid-ne-fault oid cert y e)
      | returned offset e ↦
          let first = (find_oid-IsFirst oid pos cert offset).0 e in
          let (same, near_end) = from offset first in
          elim (Outcome-Ends (read_length cert (offset + length oid + 1))) [
            | failed m e' ↦ absurd (ground arith)
            | faulted y e' ↦ cut_field offset first (read_length-panics cert _ y near_end e')
            | returned at e' ↦ absurd (sound at x (ground arith))
          ]
    ]

    CutField-field : CutField oid cert → field ≡ fault panic
    CutField-field (cut_field offset first c) =
        let (same, near_end) = from offset first in
        rw (
          (find_oid-IsFirst oid pos cert offset).1 first,
          same,
          CutLength-read_length cert _ near_end c,
        )

  field_lem :
      (oid : Bytes) (pos : 0 < length oid) (cut : ℕ × ℕ → Outcome Bytes)
      (sound : (at : ℕ × ℕ) (x : Fault) → cut at ≢ fault x)
      → ((field oid pos cut sound ≡ fault panic) ↔ CutField oid cert)
        × (field oid pos cut sound ≢ fault undefined)
  field_lem oid pos cut sound = (
    (field-CutField oid pos cut sound panic, CutField-field oid pos cut sound),
    λ h. cc (h, CutField-field oid pos cut sound (field-CutField oid pos cut sound undefined h)),
  )

  -- In a certificate whose length plus 3 is below 2^64, the search for the key panics exactly if the
  -- certificate ends inside of the length of the key, and the search for the comment exactly if it
  -- ends inside of the length of the comment; neither reads outside of the certificate.
  pub fields_lem :
      ((public_key cert ≡ fault panic) ↔ CutField prime256v1_oid cert)
      × ((netscape_comment cert ≡ fault panic) ↔ CutField ns_cmt_oid cert)
      × (public_key cert ≢ fault undefined)
      × (netscape_comment cert ≢ fault undefined)
  unfolding public_key netscape_comment
  fields_lem =
      let key =
        field_lem prime256v1_oid (omega arith)
          (λ at. safe_indexing cert (at.1 +w 1 +w 2) (at.1 +w 1 +w at.0))
          (λ at. (safe_indexing_lem cert _ _).1) in
      let comment =
        field_lem ns_cmt_oid (omega arith)
          (λ at. safe_indexing cert (at.1 +w 1) (at.1 +w 1 +w at.0))
          (λ at. (safe_indexing_lem cert _ _).1) in
      (key.0, comment.0, key.1, comment.1)
