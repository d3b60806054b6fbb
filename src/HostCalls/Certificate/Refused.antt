-- ===== src/HostCalls/Certificate/Refused.antt =====
-- The certificates from which a field cannot be cut out, and the message for each.
use substra_tee_node_pre.Base.{
  ℕ, ◌+◌, ◌^◌, ◌≤◌, ◌<◌, ◌≡◌, ◌↔◌, Bytes, String, arith, length, get_elem?, word, ◌+w◌, dec_lt,
  some,
}
use substra_tee_node_pre.Base.Outcome.{Outcome, err, Outcome-Ends, returned, failed, faulted, ◌>>=◌}
use substra_tee_node_pre.HostCalls.Certificate.{
  safe_indexing, find_oid, read_length, public_key, netscape_comment, prime256v1_oid, ns_cmt_oid,
}
use substra_tee_node_pre.HostCalls.Certificate.Search.{
  OccursAt, IsFirst, find_oid-IsFirst, IsFirst-of_occurs,
}
use substra_tee_node_pre.HostCalls.Certificate.Lengths.{
  out_of_bounds, LengthAt, within, read_length-LengthAt, LengthAt-read_length, read_length-err,
  past-read_length, one_byte, two_bytes,
}
use substra_tee_node_pre.HostCalls.Certificate.Cut.{first_within, find_oid-ne-fault}

abbrev pub empty_certificate : String
empty_certificate = "Certificate to check is empty"

abbrev pub illegal_indexing : String
illegal_indexing = "Illegal indexing"

-- Every element is a byte.
abbrev pub AreBytes : Bytes → Type 0
AreBytes bytes = (i b : ℕ) → get_elem? bytes i ≡ some b → b < 256

-- A field that starts `skip` bytes behind its length, where the length counts those bytes too.
pub data BadRange (bytes : Bytes) (skip n last : ℕ) : String → Type 0 where
  reversed : n < skip → BadRange bytes skip n last illegal_indexing
  beyond : skip ≤ n → length bytes < last + 1 + n → BadRange bytes skip n last out_of_bounds

bad_range :
    {bytes : Bytes} {start end skip n last : ℕ} {m : String}
    → start ≡ last + 1 + skip
    → end ≡ last + 1 + n
    → BadRange bytes skip n last m
    → safe_indexing bytes start end ≡ err m
unfolding safe_indexing
bad_range from to (reversed short) = ground arith
bad_range from to (beyond room past) = ground arith

range-BadRange :
    (bytes : Bytes) (start end skip n last : ℕ) (m : String)
    → start ≡ last + 1 + skip
    → end ≡ last + 1 + n
    → (safe_indexing bytes start end ≡ err m) ↔ BadRange bytes skip n last m
unfolding safe_indexing
range-BadRange bytes start end skip n last m from to = (there, bad_range from to)
  where
    there : safe_indexing bytes start end ≡ err m → BadRange bytes skip n last m
    there h = elim (dec_lt n skip) [
      | yes short ↦ let same : m ≡ illegal_indexing = ground arith in rw same (reversed short)
      | no room ↦
          let same : m ≡ out_of_bounds = ground arith in
          let past : length bytes < last + 1 + n = ground arith in
          rw same (beyond (omega arith) past)
    ]

-- Why a field with that identifier cannot be cut out, and the message.
pub data BadField (oid cert : Bytes) (skip : ℕ) : String → Type 0 where
  absent : ((offset : ℕ) → ¬ OccursAt oid cert offset) → BadField oid cert skip empty_certificate
  at_end :
      (offset : ℕ)
      → IsFirst oid cert offset
      → offset + length oid ≡ length cert
      → BadField oid cert skip out_of_bounds
  range :
      (offset n last : ℕ) (m : String)
      → IsFirst oid cert offset
      → LengthAt cert (offset + length oid + 1) (n, last)
      → BadRange cert skip n last m
      → BadField oid cert skip m

pub find_oid-absent :
    (oid cert : Bytes)
    → 0 < length oid
    → ((offset : ℕ) → ¬ OccursAt oid cert offset)
    → find_oid oid cert ≡ err empty_certificate
unfolding find_oid
find_oid-absent oid cert pos none_at = elim (Outcome-Ends (find_oid oid cert)) [
  | returned offset e ↦ absurd (none_at offset ((find_oid-IsFirst oid pos cert offset).0 e).occurs)
  | failed m e ↦ ground arith
  | faulted x e ↦ absurd (find_oid-ne-fault oid cert x e)
]

absent-find_oid :
    (oid cert : Bytes) (m : String)
    → 0 < length oid
    → find_oid oid cert ≡ err m
    → (m ≡ empty_certificate) × ((offset : ℕ) → ¬ OccursAt oid cert offset)
unfolding find_oid
absent-find_oid oid cert m pos h = (
  ground arith,
  λ i at.
      let (o, first) = IsFirst-of_occurs oid pos cert i at in
      let found = (find_oid-IsFirst oid pos cert o).1 first in cc (h, found),
)

LengthAt-bounds :
    (cert : Bytes) (offset : ℕ) (at : ℕ × ℕ)
    → AreBytes cert
    → LengthAt cert offset at
    → (at.1 < length cert) × (at.0 < 2 ^ 16)
LengthAt-bounds cert offset _ bytes (one_byte n there small) =
    (within cert offset n there, omega arith)
LengthAt-bounds cert offset _ bytes (two_bytes mark hi lo there big at_hi at_lo) =
    let hi_byte = bytes (offset + 1) hi at_hi in
    let lo_byte = bytes (offset + 2) lo at_lo in (within cert (offset + 2) lo at_lo, omega arith)

module _ (cert : Bytes) (fits : length cert + 2 ^ 17 < word) (bytes : AreBytes cert) where
  -- A field is found by its identifier and its length, and cut out of a range.
  module _ (oid : Bytes) (pos : 0 < length oid) (skip : ℕ) (cut : ℕ × ℕ → Outcome Bytes)
      (ranged : (n last : ℕ) (m : String)
        → last + 2 ^ 17 < word
        → n < 2 ^ 16
        → (cut (n, last) ≡ err m) ↔ BadRange cert skip n last m) where
    abbrev field : Outcome Bytes
    field = do found ← find_oid oid cert; at ← read_length cert (found +w (length oid + 1)); cut at

    from :
        (offset : ℕ)
        → IsFirst oid cert offset
        → (offset + length oid ≤ length cert)
          × (offset +w (length oid + 1) ≡ offset + length oid + 1)
          × (offset + length oid + 1 + 2 < word)
    from offset first =
        let inside = first_within oid cert offset pos first in (inside, omega arith, omega arith)

    cut_lem :
        (offset : ℕ) (at : ℕ × ℕ) (m : String)
        → LengthAt cert offset at
        → (cut at ≡ err m) ↔ BadRange cert skip at.0 at.1 m
    cut_lem offset at m l =
        let (inside, small) = LengthAt-bounds cert offset at bytes l in
        ranged at.0 at.1 m (omega arith) small

    field-BadField : (m : String) → field ≡ err m → BadField oid cert skip m
    field-BadField m h = elim (Outcome-Ends (find_oid oid cert)) [
      | failed m' e ↦
          let (same, nowhere) = absent-find_oid oid cert m' pos e in
          let same' : m ≡ empty_certificate = ground arith in rw same' (absent nowhere)
      | faulted x e ↦ absurd (find_oid-ne-fault oid cert x e)
      | returned offset e ↦
          let first = (find_oid-IsFirst oid pos cert offset).0 e in
          let (inside, same, near_end) = from offset first in
          elim (Outcome-Ends (read_length cert (offset + length oid + 1))) [
            | failed m' e' ↦
                let (past, out) = read_length-err cert _ m' near_end e' in
                let same' : m ≡ out_of_bounds = ground arith in
                rw same' (at_end offset first (omega arith))
            | faulted x e' ↦ absurd (ground arith)
            | returned at e' ↦
                let l = read_length-LengthAt cert _ at near_end e' in
                range offset at.0 at.1 m first l ((cut_lem _ at m l).0 (ground arith))
          ]
    ]

    BadField-field : (m : String) → BadField oid cert skip m → field ≡ err m
    BadField-field m (absent nowhere) = rw (find_oid-absent oid cert pos nowhere)
    BadField-field m (at_end offset first end) =
        let (inside, same, near_end) = from offset first in
        rw (
          (find_oid-IsFirst oid pos cert offset).1 first,
          same,
          past-read_length cert (offset + length oid + 1) (omega arith),
        )
    BadField-field m (range offset n last _ first l bad) =
        let (inside, same, near_end) = from offset first in
        rw
          (
            (find_oid-IsFirst oid pos cert offset).1 first,
            same,
            LengthAt-read_length cert _ (n, last) near_end l,
          )
          ((cut_lem _ (n, last) m l).1 bad)

  pub public_key-BadField :
      (m : String) → (public_key cert ≡ err m) ↔ BadField prime256v1_oid cert 2 m
  unfolding public_key
  public_key-BadField m =
      let ranged = λ (n last : ℕ) (m : String) (fit : last + 2 ^ 17 < word) (small : n < 2 ^ 16).
        range-BadRange cert (last +w 1 +w 2) (last +w 1 +w n) 2 n last m (omega arith)
          (omega arith) in
      let cut = λ (at : ℕ × ℕ). safe_indexing cert (at.1 +w 1 +w 2) (at.1 +w 1 +w at.0) in
      (
        field-BadField prime256v1_oid (omega arith) 2 cut ranged m,
        BadField-field prime256v1_oid (omega arith) 2 cut ranged m,
      )

  pub netscape_comment-BadField :
      (m : String) → (netscape_comment cert ≡ err m) ↔ BadField ns_cmt_oid cert 0 m
  unfolding netscape_comment
  netscape_comment-BadField m =
      let ranged = λ (n last : ℕ) (m : String) (fit : last + 2 ^ 17 < word) (small : n < 2 ^ 16).
        range-BadRange cert (last +w 1) (last +w 1 +w n) 0 n last m (omega arith) (omega arith) in
      let cut = λ (at : ℕ × ℕ). safe_indexing cert (at.1 +w 1) (at.1 +w 1 +w at.0) in
      (
        field-BadField ns_cmt_oid (omega arith) 0 cut ranged m,
        BadField-field ns_cmt_oid (omega arith) 0 cut ranged m,
      )
