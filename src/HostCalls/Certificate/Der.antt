-- ===== src/HostCalls/Certificate/Der.antt =====
-- host_calls/src/remote_attestation.rs: the length of the comment as DER (X.690) writes it, and as
-- the code reads it.
use substra_tee_node_pre.Base.{
  ℕ, ◌+◌, ◌*◌, ◌/◌, ◌%◌, ◌^◌, ◌≤◌, ◌<◌, ◌≡◌, ◌≢◌, ◌↔◌, ◌⊎◌, inl, inr, refl, [], ◌∷◌, ◌++◌, Bytes,
  arith, ltb, if◌then◌else◌, length, length-append, word, ◌+w◌, dec_lt,
}
use substra_tee_node_pre.Base.Outcome.{ok}
use substra_tee_node_pre.HostCalls.Certificate.{
  safe_indexing, ns_cmt_oid, find_oid, netscape_comment,
}
use substra_tee_node_pre.HostCalls.Certificate.Indexing.{safe_indexing_lem}
use substra_tee_node_pre.HostCalls.Certificate.Search.{IsFirst, find_oid-IsFirst}
use substra_tee_node_pre.HostCalls.Certificate.Fields.{
  LengthBytes, short, long, read_length_long, header, regroup, length-header,
  netscape_comment_found,
}
use substra_tee_node_pre.HostCalls.Certificate.Refused.{AreBytes}

-- The bytes of a length below 2^16: itself, or its one or two bytes behind their number.
abbrev pub der_length : ℕ → Bytes
der_length n =
    if ltb n 0x80
    then n ∷ []
    else if ltb n 0x100
    then 0x81 ∷ n ∷ []
    else 0x82 ∷ n / 0x100 ∷ n % 0x100 ∷ []

abbrev pub with_comment : Bytes → ℕ → Bytes → Bytes → Bytes
with_comment before tag payload after =
    before ++ (ns_cmt_oid ++ (tag ∷ (der_length (length payload) ++ (payload ++ after))))

-- The lengths of which DER writes no byte before them, or two.
abbrev pub IsShortOrLong : ℕ → Type 0
IsShortOrLong n = (n < 0x80) ⊎ (0x100 ≤ n)

der_length-LengthBytes : (n : ℕ) → IsShortOrLong n → LengthBytes (der_length n) n
der_length-LengthBytes n (inl small) = short (ground arith) (omega arith)
der_length-LengthBytes n (inr big) =
    long 0x82 (n / 0x100) (n % 0x100) (ground arith) (omega arith) (omega arith)

-- One byte of length is read together with the byte behind it.
misread_at :
    (h rest part : Bytes) (n lo o : ℕ)
    → find_oid ns_cmt_oid (h ++ (0x81 ∷ n ∷ lo ∷ rest)) ≡ ok o
    → length h ≡ o + 12
    → n < 0x100
    → lo < 0x100
    → length (h ++ (0x81 ∷ n ∷ lo ∷ rest)) + 2 ^ 17 < word
    → netscape_comment (h ++ (0x81 ∷ n ∷ lo ∷ rest)) ≡ ok part
    → length part ≡ n * 0x100 + lo
unfolding netscape_comment
misread_at h rest part n lo o found at small byte fits got =
    let cert = h ++ (0x81 ∷ n ∷ lo ∷ rest) in
    let whole = length-append h (0x81 ∷ n ∷ lo ∷ rest) in
    let from : o +w 12 ≡ length h = omega arith in
    let read = read_length_long h rest 0x81 n lo (omega arith) (omega arith) in
    let start = length h + 2 +w 1 in
    let cut : safe_indexing cert start (start +w (n * 0x100 + lo)) ≡ ok part =
      rw (found, from, read) at got in
    let ends = ((safe_indexing_lem cert start (start +w (n * 0x100 + lo))).0 part).0 cut in
    omega (arith, ends.ends)

misread :
    (before rest part : Bytes) (tag n lo : ℕ)
    → let cert = before ++ (ns_cmt_oid ++ (tag ∷ (0x81 ∷ n ∷ lo ∷ rest))) in
      IsFirst ns_cmt_oid cert (length before)
      → n < 0x100
      → lo < 0x100
      → length cert + 2 ^ 17 < word
      → netscape_comment cert ≡ ok part
      → length part ≡ n * 0x100 + lo
misread before rest part tag n lo first small byte fits got =
    let e = regroup before ns_cmt_oid (0x81 ∷ n ∷ lo ∷ rest) tag in
    let h = header before ns_cmt_oid tag in
    let long = length-header before ns_cmt_oid tag in
    let found = (find_oid-IsFirst ns_cmt_oid (omega arith) _ (length before)).1 first in
    misread_at h rest part n lo (length before) (rw e at found) (omega arith) small byte
      (rw e at fits) (rw e at got)

-- The comment that is found is not the one whose length has one byte behind a mark.
missed :
    (before payload after : Bytes) (tag : ℕ)
    → IsFirst ns_cmt_oid (with_comment before tag payload after) (length before)
    → AreBytes payload
    → length (with_comment before tag payload after) + 2 ^ 17 < word
    → 0x80 ≤ length payload
    → length payload < 0x100
    → netscape_comment (with_comment before tag payload after) ≢ ok payload
missed before [] after tag first bytes fits large small got = omega arith
missed before (lo ∷ rest) after tag first bytes fits large small got =
    let n = length (lo ∷ rest) in
    let form : der_length n ≡ 0x81 ∷ n ∷ [] = ground arith in
    let size =
      misread before (rest ++ after) (lo ∷ rest) tag n lo (rw form at first) small (bytes 0 lo refl)
        (rw form at fits) (rw form at got) in
    omega arith

-- In a certificate of bytes whose length plus 2^17 is below 2^64, in which the identifier of a
-- Netscape comment occurs first where the comment is, and a comment of fewer than 2^16 bytes stands
-- behind it with a tag and its length in DER, the comment is found exactly if it has fewer than 128
-- bytes, or 256 or more: a length of one byte behind its mark is misread.
pub netscape_comment-der_length :
    (before payload after : Bytes) (tag : ℕ)
    → IsFirst ns_cmt_oid (with_comment before tag payload after) (length before)
    → AreBytes payload
    → length payload < 2 ^ 16
    → length (with_comment before tag payload after) + 2 ^ 17 < word
    → (netscape_comment (with_comment before tag payload after) ≡ ok payload)
      ↔ IsShortOrLong (length payload)
netscape_comment-der_length before payload after tag first bytes short_enough fits =
    let n = length payload in
    (
      λ got. elim (dec_lt n 0x80) [
        | yes small ↦ inl small
        | no large ↦ elim (dec_lt n 0x100) [
          | yes small ↦
              absurd (missed before payload after tag first bytes fits (omega arith) small got)
          | no large ↦ inr (omega arith)
        ]
      ],
      λ form.
          netscape_comment_found before (der_length n) payload after tag n first
            (der_length-LengthBytes n form) refl (omega arith),
    )
