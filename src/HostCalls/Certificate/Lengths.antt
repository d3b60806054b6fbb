-- ===== src/HostCalls/Certificate/Lengths.antt =====
-- The length of a field: where it stands, and what it is.
use substra_tee_node_pre.Base.{
  ℕ, ◌+◌, ◌*◌, ◌≤◌, ◌<◌, ◌≡◌, Bytes, String, arith, length, get_elem?, word, get_elem?_beyond,
  dec_lt, inl, inr, some, Option-cases, lt→ltb, le→ltb,
}
use substra_tee_node_pre.Base.Outcome.{
  ok, err, ok_of, Outcome-Ends, returned, failed, faulted, ◌>>=◌,
}
use substra_tee_node_pre.HostCalls.Certificate.{safe_indexing_one, read_length}
use substra_tee_node_pre.HostCalls.Certificate.Cut.{one-ok, ok-one, near}

abbrev pub out_of_bounds : String
out_of_bounds = "Index would be out of bounds"

-- A length at an offset, with the offset of its last byte.
pub data LengthAt (bytes : Bytes) (offset : ℕ) : ℕ × ℕ → Type 0 where
  one_byte :
      (n : ℕ) → get_elem? bytes offset ≡ some n → n ≤ 0x80 → LengthAt bytes offset (n, offset)
  two_bytes :
      (mark hi lo : ℕ)
      → get_elem? bytes offset ≡ some mark
      → 0x80 < mark
      → get_elem? bytes (offset + 1) ≡ some hi
      → get_elem? bytes (offset + 2) ≡ some lo
      → LengthAt bytes offset (hi * 0x100 + lo, offset + 2)

one-err :
    (bytes : Bytes) (i : ℕ) (m : String)
    → safe_indexing_one bytes i ≡ err m
    → (length bytes < i) × (m ≡ out_of_bounds)
unfolding safe_indexing_one
one-err bytes i m h = elim (Option-cases (get_elem? bytes i)) [
  | inl e ↦ ground arith
  | inr (b, e) ↦ ground arith
]

pub within : (bytes : Bytes) (i b : ℕ) → get_elem? bytes i ≡ some b → i < length bytes
within bytes i b e = elim (dec_lt i (length bytes)) [
  | yes lt ↦ lt
  | no ge ↦ cc (e, get_elem?_beyond bytes i (omega arith))
]

-- To split on a length of two bytes.
two_byte_length :
    (bytes : Bytes) (offset mark : ℕ)
    → offset + 2 < word
    → 0x80 < mark
    → get_elem? bytes offset ≡ some mark
    → read_length bytes offset ≡ (do
      hi ← safe_indexing_one bytes (offset + 1)
      lo ← safe_indexing_one bytes (offset + 2)
      ok (hi * 0x100 + lo, offset + 2))
unfolding read_length
two_byte_length bytes offset mark fits big at = rw (
  ok-one bytes offset mark at,
  lt→ltb 0x80 mark big,
  near offset 1 (omega arith),
  near offset 2 fits,
)

pub read_length-LengthAt :
    (bytes : Bytes) (offset : ℕ) (at : ℕ × ℕ)
    → offset + 2 < word
    → read_length bytes offset ≡ ok at
    → LengthAt bytes offset at
unfolding read_length
read_length-LengthAt bytes offset at fits h = elim (Outcome-Ends (safe_indexing_one bytes offset)) [
  | failed m e ↦ absurd (ground arith)
  | faulted x e ↦ absurd (ground arith)
  | returned mark e ↦
      let there = one-ok bytes offset mark e in
      elim (dec_lt 0x80 mark) [
        | no small ↦
            let same : at ≡ (mark, offset) = ground arith in
            rw same (one_byte mark there (omega arith))
        | yes big ↦
            let two = two_byte_length bytes offset mark fits big there in
            let (hi, e1) =
              ok_of (safe_indexing_one bytes (offset + 1)) (λ m g. ground arith)
                (λ x g. ground arith) in
            let (lo, e2) =
              ok_of (safe_indexing_one bytes (offset + 2)) (λ m g. ground arith)
                (λ x g. ground arith) in
            let same : at ≡ (hi * 0x100 + lo, offset + 2) = ground arith in
            rw same (
              two_bytes mark hi lo there big (one-ok bytes (offset + 1) hi e1)
                (one-ok bytes (offset + 2) lo e2))
      ]
]

pub LengthAt-read_length :
    (bytes : Bytes) (offset : ℕ) (at : ℕ × ℕ)
    → offset + 2 < word
    → LengthAt bytes offset at
    → read_length bytes offset ≡ ok at
unfolding read_length
LengthAt-read_length bytes offset _ fits (one_byte n at small) =
    rw (ok-one bytes offset n at, le→ltb 0x80 n small)
LengthAt-read_length bytes offset _ fits (two_bytes mark hi lo at big at_hi at_lo) = rw (
  ok-one bytes offset mark at,
  lt→ltb 0x80 mark big,
  near offset 1 (omega arith),
  ok-one bytes (offset + 1) hi at_hi,
  near offset 2 fits,
  ok-one bytes (offset + 2) lo at_lo,
)

pub read_length-err :
    (bytes : Bytes) (offset : ℕ) (m : String)
    → offset + 2 < word
    → read_length bytes offset ≡ err m
    → (length bytes < offset) × (m ≡ out_of_bounds)
unfolding read_length
read_length-err bytes offset m fits h = elim (Outcome-Ends (safe_indexing_one bytes offset)) [
  | failed m' e ↦ let (past, same) = one-err bytes offset m' e in (past, ground arith)
  | faulted x e ↦ absurd (ground arith)
  | returned mark e ↦
      let there = one-ok bytes offset mark e in
      let lt = within bytes offset mark there in
      elim (dec_lt 0x80 mark) [
        | no small ↦ absurd (ground arith)
        | yes big ↦
            let two = two_byte_length bytes offset mark fits big there in
            elim (Outcome-Ends (safe_indexing_one bytes (offset + 1))) [
              | failed m' e1 ↦
                  let past = (one-err bytes (offset + 1) m' e1).0 in absurd (omega arith)
              | faulted x e1 ↦ absurd (ground arith)
              | returned hi e1 ↦
                  let next = within bytes (offset + 1) hi (one-ok bytes (offset + 1) hi e1) in
                  elim (Outcome-Ends (safe_indexing_one bytes (offset + 2))) [
                    | failed m' e2 ↦
                        let past = (one-err bytes (offset + 2) m' e2).0 in absurd (omega arith)
                    | faulted x e2 ↦ absurd (ground arith)
                    | returned lo e2 ↦ absurd (ground arith)
                  ]
            ]
      ]
]

pub past-read_length :
    (bytes : Bytes) (offset : ℕ)
    → length bytes < offset
    → read_length bytes offset ≡ err out_of_bounds
unfolding read_length safe_indexing_one
past-read_length bytes offset past = rw (lt→ltb (length bytes) offset past)
