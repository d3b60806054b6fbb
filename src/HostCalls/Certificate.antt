-- ===== src/HostCalls/Certificate.antt =====
-- host_calls/src/remote_attestation.rs: indexing that returns an error, and the two fields that
-- `verify_mra_cert` cuts out of the certificate.
pub mod Indexing
pub mod Search
pub mod Fields
pub mod Cut
pub mod Lengths
pub mod Refused
pub mod Found
pub mod Der
use substra_tee_node_pre.Base.{
  ℕ, ◌+◌, ◌*◌, [], ◌∷◌, Bytes, ltb, if◌then◌else◌, ◌+w◌, length, index, slice, bytes_eq, windows,
  position,
}
use substra_tee_node_pre.Base.Outcome.{Outcome, ok, err, ok_or, ◌>>=◌}

unfoldable pub safe_indexing : Bytes → ℕ → ℕ → Outcome Bytes
safe_indexing bytes start end =
    if ltb end start
    then err "Illegal indexing"
    else if ltb (length bytes) end
    then err "Index would be out of bounds"
    else slice bytes start end

unfoldable pub safe_indexing_one : Bytes → ℕ → Outcome ℕ
safe_indexing_one bytes idx =
    if ltb (length bytes) idx then err "Index would be out of bounds" else index bytes idx

abbrev pub prime256v1_oid : Bytes
prime256v1_oid = 0x06 ∷ 0x08 ∷ 0x2a ∷ 0x86 ∷ 0x48 ∷ 0xce ∷ 0x3d ∷ 0x03 ∷ 0x01 ∷ 0x07 ∷ []

abbrev pub ns_cmt_oid : Bytes
ns_cmt_oid = 0x06 ∷ 0x09 ∷ 0x60 ∷ 0x86 ∷ 0x48 ∷ 0x01 ∷ 0x86 ∷ 0xf8 ∷ 0x42 ∷ 0x01 ∷ 0x0d ∷ []

-- `cert_der.windows(oid.len()).position(|window| window == oid)`
unfoldable pub find_oid : Bytes → Bytes → Outcome ℕ
unfolding windows position
find_oid oid cert_der =
    ok_or (position (λ window. bytes_eq window oid) (windows (length oid) cert_der))
      "Certificate to check is empty"

-- The length at `offset`, and the offset of its last byte. The code has this block twice.
unfoldable pub read_length : Bytes → ℕ → Outcome (ℕ × ℕ)
unfolding safe_indexing_one
read_length cert_der offset = do
  len ← safe_indexing_one cert_der offset
  if ltb 0x80 len
      then (do
        hi ← safe_indexing_one cert_der (offset +w 1)
        lo ← safe_indexing_one cert_der (offset +w 2)
        ok (hi * 0x100 + lo, offset +w 2))
      else ok (len, offset)

-- "Obtain Public Key"
unfoldable pub public_key : Bytes → Outcome Bytes
unfolding find_oid read_length safe_indexing
public_key cert_der = do
  found ← find_oid prime256v1_oid cert_der
  (len, offset) ← read_length cert_der (found +w 11)
  safe_indexing cert_der (offset +w 1 +w 2) (offset +w 1 +w len)

-- "Obtain Netscape Comment"
unfoldable pub netscape_comment : Bytes → Outcome Bytes
unfolding find_oid read_length safe_indexing
netscape_comment cert_der = do
  found ← find_oid ns_cmt_oid cert_der
  (len, offset) ← read_length cert_der (found +w 12)
  safe_indexing cert_der (offset +w 1) (offset +w 1 +w len)
