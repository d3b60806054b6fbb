-- ===== src/HostCalls/Certificate/Found.antt =====
-- host_calls/src/remote_attestation.rs: which fields the code finds in a certificate, said without
-- the code.
use substra_tee_node_pre.Base.{ℕ, ◌+◌, ◌<◌, ◌≡◌, ◌↔◌, Bytes, arith, length, word, ◌+w◌}
use substra_tee_node_pre.Base.Outcome.{Outcome, ok, ok_of, ◌>>=◌}
use substra_tee_node_pre.HostCalls.Certificate.{
  safe_indexing, find_oid, read_length, public_key, netscape_comment, prime256v1_oid, ns_cmt_oid,
}
use substra_tee_node_pre.HostCalls.Certificate.Indexing.{LiesAt, safe_indexing_lem}
use substra_tee_node_pre.HostCalls.Certificate.Search.{IsFirst, find_oid-IsFirst}
use substra_tee_node_pre.HostCalls.Certificate.Cut.{first_within}
use substra_tee_node_pre.HostCalls.Certificate.Lengths.{
  LengthAt, one_byte, two_bytes, read_length-LengthAt, LengthAt-read_length, within,
}

-- The identifier occurs first at an offset, a length stands behind it and a tag, and the field
-- behind the length and `skip` more bytes, up to where the length, a 64-bit word, ends.
pub record HasField (oid cert : Bytes) (skip : ℕ) (part : Bytes) : Type 0 where
  pub offset : ℕ
  pub size : ℕ
  pub last : ℕ
  pub first : IsFirst oid cert offset
  pub sized : LengthAt cert (offset + length oid + 1) (size, last)
  pub lies : LiesAt cert (last + 1 + skip) (last + 1 +w size) part

last_within : (cert : Bytes) (i : ℕ) (at : ℕ × ℕ) → LengthAt cert i at → at.1 < length cert
last_within cert i _ (one_byte n e small) = within cert i n e
last_within cert i _ (two_bytes mark hi lo e big e1 e2) = within cert (i + 2) lo e2

module _ (cert : Bytes) (fits : length cert + 3 < word) (oid : Bytes) (pos : 0 < length oid)
    (skip : ℕ) (start : ℕ → ℕ)
    (starts : (last : ℕ) → last + 3 < word → start last ≡ last + 1 + skip) where
  abbrev field : Outcome Bytes
  field = do
    found ← find_oid oid cert
    at ← read_length cert (found +w (length oid + 1))
    safe_indexing cert (start at.1) (at.1 +w 1 +w at.0)

  from :
      (offset : ℕ)
      → IsFirst oid cert offset
      → (offset +w (length oid + 1) ≡ offset + length oid + 1)
        × (offset + length oid + 1 + 2 < word)
  from offset first =
      let room = first_within oid cert offset pos first in (omega arith, omega arith)

  ends :
      (i : ℕ) (at : ℕ × ℕ)
      → LengthAt cert i at
      → (start at.1 ≡ at.1 + 1 + skip) × (at.1 +w 1 ≡ at.1 + 1)
  ends i at sized =
      let room = last_within cert i at sized in (starts at.1 (omega arith), omega arith)

  field-HasField : (part : Bytes) → field ≡ ok part → HasField oid cert skip part
  field-HasField part h =
      let (offset, found) = ok_of (find_oid oid cert) (λ m e. ground arith) (λ x e. ground arith) in
      let first = (find_oid-IsFirst oid pos cert offset).0 found in
      let (same, near_end) = from offset first in
      let (at, read) =
        ok_of (read_length cert (offset + length oid + 1)) (λ m e. ground arith)
          (λ x e. ground arith) in
      let sized = read_length-LengthAt cert (offset + length oid + 1) at near_end read in
      let (begins, next) = ends (offset + length oid + 1) at sized in
      let cut : safe_indexing cert (at.1 + 1 + skip) (at.1 + 1 +w at.0) ≡ ok part =
        rw (found, same, read, begins, next) at h in
      record {
        offset = offset;
        size = at.0;
        last = at.1;
        first = first;
        sized = sized;
        lies = ((safe_indexing_lem cert (at.1 + 1 + skip) (at.1 + 1 +w at.0)).0 part).0 cut;
      }

  HasField-field : (part : Bytes) → HasField oid cert skip part → field ≡ ok part
  HasField-field part f =
      let (same, near_end) = from f.offset f.first in
      let (begins, next) = ends (f.offset + length oid + 1) (f.size, f.last) f.sized in
      rw (
        (find_oid-IsFirst oid pos cert f.offset).1 f.first,
        same,
        LengthAt-read_length cert (f.offset + length oid + 1) (f.size, f.last) near_end f.sized,
        begins,
        next,
        ((safe_indexing_lem cert (f.last + 1 + skip) (f.last + 1 +w f.size)).0 part).1 f.lies,
      )

module _ (cert : Bytes) (fits : length cert + 3 < word) where
  pub public_key-HasField :
      (part : Bytes) → (public_key cert ≡ ok part) ↔ HasField prime256v1_oid cert 2 part
  unfolding public_key
  public_key-HasField part = (
    field-HasField cert fits prime256v1_oid (omega arith) 2 (λ l. l +w 1 +w 2) (λ l h. omega arith)
        part,
    HasField-field cert fits prime256v1_oid (omega arith) 2 (λ l. l +w 1 +w 2) (λ l h. omega arith)
        part,
  )

  pub netscape_comment-HasField :
      (part : Bytes) → (netscape_comment cert ≡ ok part) ↔ HasField ns_cmt_oid cert 0 part
  unfolding netscape_comment
  netscape_comment-HasField part = (
    field-HasField cert fits ns_cmt_oid (omega arith) 0 (λ l. l +w 1) (λ l h. omega arith) part,
    HasField-field cert fits ns_cmt_oid (omega arith) 0 (λ l. l +w 1) (λ l h. omega arith) part,
  )
