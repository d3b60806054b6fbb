-- ===== src/HostCalls/Certificate/Fields.antt =====
-- The two fields that the code cuts out of a certificate, where the certificate is laid out as the
-- code expects: an object identifier, a tag, a length, and the field.
use mathlib.Core.List.{append_assoc}
use substra_tee_node_pre.Base.{
  ℕ, ◌+◌, ◌-◌, ◌*◌, ◌≤◌, ◌<◌, ◌≡◌, [], ◌∷◌, ◌++◌, Bytes, arith, length, length-append, word, ◌+w◌,
  ap, le→ltb, lt→ltb,
}
use substra_tee_node_pre.Base.Outcome.{ok}
use substra_tee_node_pre.HostCalls.Certificate.{
  safe_indexing, safe_indexing_one, prime256v1_oid, ns_cmt_oid, find_oid, read_length, public_key,
  netscape_comment,
}
use substra_tee_node_pre.HostCalls.Certificate.Indexing.{safe_indexing_at, safe_indexing_one_at}
use substra_tee_node_pre.HostCalls.Certificate.Search.{IsFirst, find_oid-IsFirst}

-- The bytes of a length: one byte, or two behind a mark.
pub data LengthBytes (bytes : Bytes) (n : ℕ) : Type 0 where
  short : bytes ≡ n ∷ [] → n ≤ 0x80 → LengthBytes bytes n
  long :
      (mark hi lo : ℕ)
      → bytes ≡ mark ∷ hi ∷ lo ∷ []
      → 0x80 < mark
      → n ≡ hi * 0x100 + lo
      → LengthBytes bytes n

safe_indexing_one_after :
    (xs zs ys : Bytes) (y : ℕ)
    → safe_indexing_one (xs ++ (zs ++ (y ∷ ys))) (length xs + length zs) ≡ ok y
safe_indexing_one_after xs zs ys y =
    rw (← append_assoc xs zs (y ∷ ys), ← length-append xs zs) (safe_indexing_one_at (xs ++ zs) ys y)

safe_indexing_after :
    (xs zs part ys : Bytes)
    → safe_indexing
        (xs ++ (zs ++ (part ++ ys)))
        (length xs + length zs)
        (length xs + length zs + length part)
      ≡ ok part
safe_indexing_after xs zs part ys =
    rw (← append_assoc xs zs (part ++ ys), ← length-append xs zs)
      (safe_indexing_at (xs ++ zs) part ys)

read_length_short :
    (xs ys : Bytes) (n : ℕ)
    → n ≤ 0x80
    → read_length (xs ++ (n ∷ ys)) (length xs) ≡ ok (n, length xs)
unfolding read_length
read_length_short xs ys n h = rw (safe_indexing_one_at xs ys n, le→ltb 0x80 n h)

pub read_length_long :
    (xs ys : Bytes) (mark hi lo : ℕ)
    → 0x80 < mark
    → length xs + 2 < word
    → read_length (xs ++ (mark ∷ hi ∷ lo ∷ ys)) (length xs) ≡ ok (hi * 0x100 + lo, length xs + 2)
unfolding read_length
read_length_long xs ys mark hi lo h fits =
    let one : length xs +w 1 ≡ length xs + 1 = omega arith in
    let two : length xs +w 2 ≡ length xs + 2 = omega arith in
    rw (
      safe_indexing_one_at xs (hi ∷ lo ∷ ys) mark,
      lt→ltb 0x80 mark h,
      one,
      two,
      safe_indexing_one_after xs (mark ∷ []) (lo ∷ ys) hi,
      safe_indexing_one_after xs (mark ∷ hi ∷ []) ys lo,
    )

-- The length is read, and the offset is then that of its last byte.
read_length_at :
    (xs lb ys : Bytes) (n : ℕ)
    → LengthBytes lb n
    → length xs + 2 < word
    → read_length (xs ++ (lb ++ ys)) (length xs) ≡ ok (n, length xs + length lb - 1)
read_length_at xs lb ys n (short e h) fits =
    let same : length xs + 1 - 1 ≡ length xs = omega arith in
    rw (e, same) (read_length_short xs ys n h)
read_length_at xs lb ys n (long mark hi lo e h same) fits =
    let last : length xs + 3 - 1 ≡ length xs + 2 = omega arith in
    rw (e, same, last) (read_length_long xs ys mark hi lo h fits)

length-LengthBytes : (lb : Bytes) (n : ℕ) → LengthBytes lb n → 1 ≤ length lb
length-LengthBytes lb n (short e h) = omega (arith, ap length e)
length-LengthBytes lb n (long mark hi lo e h same) = omega (arith, ap length e)

-- What stands between the start of a field's identifier and the field's length.
abbrev pub header : Bytes → Bytes → ℕ → Bytes
header before oid tag = before ++ (oid ++ (tag ∷ []))

pub regroup :
    (before oid rest : Bytes) (tag : ℕ)
    → before ++ (oid ++ (tag ∷ rest)) ≡ header before oid tag ++ rest
regroup before oid rest tag = simp append_assoc

pub length-header :
    (before oid : Bytes) (tag : ℕ) → length (header before oid tag) ≡ length before + length oid + 1
length-header before oid tag =
    omega (arith, length-append before (oid ++ (tag ∷ [])), length-append oid (tag ∷ []))

public_key_at :
    (h lb key after : Bytes) (u f n o : ℕ)
    → find_oid prime256v1_oid (h ++ (lb ++ (u ∷ f ∷ (key ++ after)))) ≡ ok o
    → length h ≡ o + 11
    → LengthBytes lb n
    → n ≡ length key + 2
    → length (h ++ (lb ++ (u ∷ f ∷ (key ++ after)))) < word
    → public_key (h ++ (lb ++ (u ∷ f ∷ (key ++ after)))) ≡ ok key
unfolding public_key
public_key_at h lb key after u f n o found at size same fits =
    let rest = u ∷ f ∷ (key ++ after) in
    let whole = length-append h (lb ++ rest) in
    let tail = length-append lb rest in
    let last = length-append key after in
    let some_length = length-LengthBytes lb n size in
    let zs = lb ++ (u ∷ f ∷ []) in
    let zs_length = length-append lb (u ∷ f ∷ []) in
    let from : o +w 11 ≡ length h = omega arith in
    let start : length h + length lb - 1 +w 1 +w 2 ≡ length h + length zs = omega arith in
    let end : length h + length lb - 1 +w 1 +w n ≡ length h + length zs + length key =
      omega arith in
    let split : lb ++ rest ≡ zs ++ (key ++ after) = simp append_assoc in
    rw (found, from, read_length_at h lb rest n size (omega arith), start, end, split)
      (safe_indexing_after h zs key after)

netscape_comment_at :
    (h lb payload after : Bytes) (n o : ℕ)
    → find_oid ns_cmt_oid (h ++ (lb ++ (payload ++ after))) ≡ ok o
    → length h ≡ o + 12
    → LengthBytes lb n
    → n ≡ length payload
    → length (h ++ (lb ++ (payload ++ after))) + 2 < word
    → netscape_comment (h ++ (lb ++ (payload ++ after))) ≡ ok payload
unfolding netscape_comment
netscape_comment_at h lb payload after n o found at size same fits =
    let rest = payload ++ after in
    let whole = length-append h (lb ++ rest) in
    let tail = length-append lb rest in
    let last = length-append payload after in
    let some_length = length-LengthBytes lb n size in
    let from : o +w 12 ≡ length h = omega arith in
    let start : length h + length lb - 1 +w 1 ≡ length h + length lb = omega arith in
    let end : length h + length lb +w n ≡ length h + length lb + length payload = omega arith in
    rw (found, from, read_length_at h lb rest n size (omega arith), start, end)
      (safe_indexing_after h lb payload after)

-- In a certificate of fewer than 2^64 bytes in which the identifier of the curve occurs first
-- where the key is, with a tag, a length, two more bytes and the key behind it, the key is found,
-- if the length is that of the key and the two bytes.
pub public_key_found :
    (before lb key after : Bytes) (tag unused form n : ℕ)
    → let cert = before ++ (prime256v1_oid ++ (tag ∷ (lb ++ (unused ∷ form ∷ (key ++ after))))) in
      IsFirst prime256v1_oid cert (length before)
      → LengthBytes lb n
      → n ≡ length key + 2
      → length cert < word
      → public_key cert ≡ ok key
public_key_found before lb key after tag unused form n first size same fits =
    let rest = lb ++ (unused ∷ form ∷ (key ++ after)) in
    let e = regroup before prime256v1_oid rest tag in
    let h = header before prime256v1_oid tag in
    let long = length-header before prime256v1_oid tag in
    let found = (find_oid-IsFirst prime256v1_oid (omega arith) _ (length before)).1 first in
    rw e (
      public_key_at h lb key after unused form n (length before) (rw e at found) (omega arith) size
        same (rw e at fits))

-- In a certificate whose length plus 2 is below 2^64, in which the identifier of a Netscape comment
-- occurs first where the comment is, with a tag, a length and the comment behind it, the comment
-- is found, if the length is that of the comment.
pub netscape_comment_found :
    (before lb payload after : Bytes) (tag n : ℕ)
    → let cert = before ++ (ns_cmt_oid ++ (tag ∷ (lb ++ (payload ++ after)))) in
      IsFirst ns_cmt_oid cert (length before)
      → LengthBytes lb n
      → n ≡ length payload
      → length cert + 2 < word
      → netscape_comment cert ≡ ok payload
netscape_comment_found before lb payload after tag n first size same fits =
    let rest = lb ++ (payload ++ after) in
    let e = regroup before ns_cmt_oid rest tag in
    let h = header before ns_cmt_oid tag in
    let long = length-header before ns_cmt_oid tag in
    let found = (find_oid-IsFirst ns_cmt_oid (omega arith) _ (length before)).1 first in
    rw e (
      netscape_comment_at h lb payload after n (length before) (rw e at found) (omega arith) size
        same (rw e at fits))
