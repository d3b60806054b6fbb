-- ===== src/HostCalls/Scenarios/Short.antt =====
-- host_calls/src/remote_attestation.rs: the certificates of the tests that end too early.
use substra_tee_node_pre.Base.{ℕ, [], ◌∷◌, Bytes, ◌≡◌, refl, List, windows, position}
use substra_tee_node_pre.Base.Outcome.{ok, err}
use substra_tee_node_pre.HostCalls.Libs.{Libs}
use substra_tee_node_pre.HostCalls.Certificate.{
  safe_indexing, safe_indexing_one, find_oid, read_length, public_key, netscape_comment,
}
use substra_tee_node_pre.HostCalls.Attestation.{verify_mra_cert}

-- `CERT_TOO_SHORT1`, which ends inside of the comment
unfoldable pub cert_too_short1 : Bytes
cert_too_short1 =
    0x30 ∷ 0x82 ∷ 0x0c ∷ 0x8c ∷ 0x30 ∷ 0x82 ∷ 0x0c ∷ 0x32 ∷ 0xa0 ∷ 0x03 ∷ 0x02 ∷ 0x01 ∷ 0x02 ∷ 0x02
    ∷ 0x01 ∷ 0x01 ∷ 0x30 ∷ 0x0a ∷ 0x06 ∷ 0x08 ∷ 0x2a ∷ 0x86 ∷ 0x48 ∷ 0xce ∷ 0x3d ∷ 0x04 ∷ 0x03
    ∷ 0x02 ∷ 0x30 ∷ 0x12 ∷ 0x31 ∷ 0x10 ∷ 0x30 ∷ 0x0e ∷ 0x06 ∷ 0x03 ∷ 0x55 ∷ 0x04 ∷ 0x03 ∷ 0x0c
    ∷ 0x07 ∷ 0x4d ∷ 0x65 ∷ 0x73 ∷ 0x61 ∷ 0x54 ∷ 0x45 ∷ 0x45 ∷ 0x30 ∷ 0x1e ∷ 0x17 ∷ 0x0d ∷ 0x31
    ∷ 0x39 ∷ 0x30 ∷ 0x36 ∷ 0x31 ∷ 0x37 ∷ 0x31 ∷ 0x32 ∷ 0x34 ∷ 0x36 ∷ 0x30 ∷ 0x39 ∷ 0x5a ∷ 0x17
    ∷ 0x0d ∷ 0x31 ∷ 0x39 ∷ 0x30 ∷ 0x39 ∷ 0x31 ∷ 0x35 ∷ 0x31 ∷ 0x32 ∷ 0x34 ∷ 0x36 ∷ 0x30 ∷ 0x39
    ∷ 0x5a ∷ 0x30 ∷ 0x12 ∷ 0x31 ∷ 0x10 ∷ 0x30 ∷ 0x0e ∷ 0x06 ∷ 0x03 ∷ 0x55 ∷ 0x04 ∷ 0x03 ∷ 0x0c
    ∷ 0x07 ∷ 0x4d ∷ 0x65 ∷ 0x73 ∷ 0x61 ∷ 0x54 ∷ 0x45 ∷ 0x45 ∷ 0x30 ∷ 0x59 ∷ 0x30 ∷ 0x13 ∷ 0x06
    ∷ 0x07 ∷ 0x2a ∷ 0x86 ∷ 0x48 ∷ 0xce ∷ 0x3d ∷ 0x02 ∷ 0x01 ∷ 0x06 ∷ 0x08 ∷ 0x2a ∷ 0x86 ∷ 0x48
    ∷ 0xce ∷ 0x3d ∷ 0x03 ∷ 0x01 ∷ 0x07 ∷ 0x03 ∷ 0x42 ∷ 0x00 ∷ 0x04 ∷ 0x52 ∷ 0x54 ∷ 0x16 ∷ 0x16
    ∷ 0x20 ∷ 0xef ∷ 0x5f ∷ 0xd8 ∷ 0xe7 ∷ 0xc3 ∷ 0xb7 ∷ 0x03 ∷ 0x1d ∷ 0xd6 ∷ 0x3a ∷ 0x1f ∷ 0x46
    ∷ 0xe3 ∷ 0xf2 ∷ 0x62 ∷ 0x21 ∷ 0xa9 ∷ 0x2f ∷ 0x8b ∷ 0xd4 ∷ 0x82 ∷ 0x8f ∷ 0xd1 ∷ 0xff ∷ 0x5b
    ∷ 0x9c ∷ 0x97 ∷ 0xbc ∷ 0xf2 ∷ 0x37 ∷ 0xb8 ∷ 0x2c ∷ 0x4c ∷ 0x8a ∷ 0x01 ∷ 0xb0 ∷ 0x72 ∷ 0x3b
    ∷ 0x3b ∷ 0xa9 ∷ 0x83 ∷ 0xdc ∷ 0x86 ∷ 0x9f ∷ 0x1d ∷ 0x25 ∷ 0x79 ∷ 0xf4 ∷ 0x3b ∷ 0x49 ∷ 0xe4
    ∷ 0x59 ∷ 0xc8 ∷ 0x30 ∷ 0x27 ∷ 0x24 ∷ 0x4b ∷ 0x5b ∷ 0xd6 ∷ 0xa3 ∷ 0x82 ∷ 0x0b ∷ 0x77 ∷ 0x30
    ∷ 0x82 ∷ 0x0b ∷ 0x73 ∷ 0x30 ∷ 0x82 ∷ 0x0b ∷ 0x6f ∷ 0x06 ∷ 0x09 ∷ 0x60 ∷ 0x86 ∷ 0x48 ∷ 0x01
    ∷ 0x86 ∷ 0xf8 ∷ 0x42 ∷ 0x01 ∷ 0x0d ∷ 0x04 ∷ 0x82 ∷ 0x0b ∷ 0x60 ∷ 0x7b ∷ 0x22 ∷ 0x69 ∷ 0x64
    ∷ 0x22 ∷ 0x3a ∷ 0x22 ∷ 0x31 ∷ 0x31 ∷ 0x37 ∷ 0x30 ∷ 0x37 ∷ 0x37 ∷ 0x37 ∷ 0x35 ∷ 0x30 ∷ 0x36
    ∷ 0x38 ∷ 0x32 ∷ 0x32 ∷ 0x36 ∷ 0x33 ∷ 0x38 ∷ 0x37 ∷ 0x37 ∷ 0x35 ∷ 0x39 ∷ 0x33 ∷ 0x36 ∷ 0x34
    ∷ 0x36 ∷ 0x34 ∷ 0x31 ∷ 0x32 ∷ 0x30 ∷ 0x30 ∷ 0x36 ∷ 0x37 ∷ 0x38 ∷ 0x33 ∷ 0x36 ∷ 0x38 ∷ 0x30
    ∷ 0x38 ∷ 0x34 ∷ 0x38 ∷ 0x22 ∷ 0x2c ∷ 0x22 ∷ 0x74 ∷ 0x69 ∷ 0x6d ∷ 0x65 ∷ 0x73 ∷ 0x74 ∷ 0x61
    ∷ 0x6d ∷ 0x70 ∷ 0x22 ∷ 0x3a ∷ 0x22 ∷ 0x32 ∷ 0x30 ∷ 0x31 ∷ 0x39 ∷ 0x2d ∷ 0x30 ∷ 0x36 ∷ 0x2d
    ∷ 0x31 ∷ 0x37 ∷ 0x54 ∷ 0x31 ∷ 0x32 ∷ 0x3a ∷ 0x34 ∷ 0x36 ∷ 0x3a ∷ 0x30 ∷ 0x34 ∷ 0x2e ∷ 0x30
    ∷ 0x30 ∷ 0x32 ∷ 0x30 ∷ 0x36 ∷ 0x36 ∷ 0x22 ∷ 0x2c ∷ 0x22 ∷ 0x76 ∷ 0x65 ∷ 0x72 ∷ 0x73 ∷ 0x69
    ∷ 0x6f ∷ 0x6e ∷ 0x22 ∷ 0x3a ∷ 0x33 ∷ 0x2c ∷ 0x22 ∷ 0x69 ∷ 0x73 ∷ 0x76 ∷ 0x45 ∷ 0x6e ∷ 0x63
    ∷ 0x6c ∷ 0x61 ∷ 0x76 ∷ 0x65 ∷ 0x51 ∷ 0x75 ∷ 0x6f ∷ 0x74 ∷ 0x65 ∷ 0x53 ∷ 0x74 ∷ 0x61 ∷ 0x74
    ∷ 0x75 ∷ 0x73 ∷ 0x22 ∷ 0x3a ∷ 0x22 ∷ 0x47 ∷ 0x52 ∷ 0x4f ∷ 0x55 ∷ 0x50 ∷ 0x5f ∷ 0x4f ∷ 0x55
    ∷ 0x54 ∷ 0x5f ∷ 0x4f ∷ 0x46 ∷ 0x5f ∷ 0x44 ∷ 0x41 ∷ 0x54 ∷ 0x45 ∷ 0x22 ∷ 0x2c ∷ 0x22 ∷ 0x70
    ∷ 0x6c ∷ 0x61 ∷ 0x74 ∷ 0x66 ∷ 0x6f ∷ 0x72 ∷ 0x6d ∷ 0x49 ∷ 0x6e ∷ 0x66 ∷ 0x6f ∷ 0x42 ∷ 0x6c
    ∷ 0x6f ∷ 0x62 ∷ 0x22 ∷ 0x3a ∷ 0x22 ∷ 0x31 ∷ 0x36 ∷ 0x30 ∷ 0x32 ∷ 0x30 ∷ 0x30 ∷ 0x36 ∷ 0x35
    ∷ 0x30 ∷ 0x34 ∷ 0x30 ∷ 0x30 ∷ 0x30 ∷ 0x39 ∷ 0x30 ∷ 0x30 ∷ 0x30 ∷ 0x30 ∷ 0x30 ∷ 0x39 ∷ 0x30
    ∷ 0x39 ∷ 0x30 ∷ 0x32 ∷ 0x30 ∷ 0x34 ∷ 0x30 ∷ 0x31 ∷ 0x38 ∷ 0x30 ∷ 0x30 ∷ 0x30 ∷ 0x30 ∷ 0x30
    ∷ 0x30 ∷ 0x30 ∷ 0x30 ∷ 0x30 ∷ 0x30 ∷ 0x30 ∷ 0x30 ∷ 0x30 ∷ 0x30 ∷ 0x30 ∷ 0x30 ∷ 0x30 ∷ 0x30
    ∷ 0x30 ∷ 0x30 ∷ 0x30 ∷ 0x30 ∷ 0x38 ∷ 0x30 ∷ 0x30 ∷ 0x30 ∷ 0x30 ∷ 0x30 ∷ 0x39 ∷ 0x30 ∷ 0x30
    ∷ 0x30 ∷ 0x30 ∷ 0x30 ∷ 0x30 ∷ 0x30 ∷ 0x32 ∷ 0x30 ∷ 0x30 ∷ 0x30 ∷ 0x30 ∷ 0x30 ∷ 0x30 ∷ 0x30
    ∷ 0x30 ∷ 0x30 ∷ 0x30 ∷ 0x30 ∷ 0x30 ∷ 0x30 ∷ 0x42 ∷ 0x34 ∷ 0x30 ∷ 0x31 ∷ 0x41 ∷ 0x33 ∷ 0x35
    ∷ 0x35 ∷ 0x42 ∷ 0x33 ∷ 0x31 ∷ 0x33 ∷ 0x46 ∷ 0x43 ∷ 0x39 ∷ 0x33 ∷ 0x39 ∷ 0x42 ∷ 0x34 ∷ 0x46
    ∷ 0x34 ∷ 0x38 ∷ 0x41 ∷ 0x35 ∷ 0x34 ∷ 0x33 ∷ 0x34 ∷ 0x39 ∷ 0x43 ∷ 0x39 ∷ 0x31 ∷ 0x03 ∷ 0x02
    ∷ 0x03 ∷ 0x48 ∷ 0x00 ∷ 0x30 ∷ 0x45 ∷ 0x02 ∷ 0x21 ∷ 0x00 ∷ 0xae ∷ 0x36 ∷ 0x06 ∷ 0x09 ∷ 0x40
    ∷ 0x53 ∷ 0x79 ∷ 0x8f ∷ 0x8e ∷ 0x63 ∷ 0x9d ∷ 0xdc ∷ 0x69 ∷ 0x5e ∷ 0x45 ∷ 0x78 ∷ 0x2a ∷ 0x92
    ∷ 0x7d ∷ 0xdc ∷ 0x47 ∷ 0x15 ∷ 0x41 ∷ 0x97 ∷ 0xd7 ∷ 0xd7 ∷ 0xd1 ∷ 0xcc ∷ 0x78 ∷ 0xe0 ∷ 0x1e
    ∷ 0x08 ∷ 0x02 ∷ 0x20 ∷ 0x15 ∷ 0x51 ∷ 0xa0 ∷ 0x42 ∷ 0x54 ∷ 0xde ∷ 0x27 ∷ 0x7e ∷ 0xec ∷ 0xbd
    ∷ 0x02 ∷ 0x37 ∷ 0xd3 ∷ 0xd8 ∷ 0x83 ∷ 0xf7 ∷ 0xe6 ∷ 0x5a ∷ 0xc5 ∷ 0x48 ∷ 0xb4 ∷ 0x44 ∷ 0xf7
    ∷ 0xe2 ∷ 0x0d ∷ 0xa7 ∷ 0xe4 ∷ 0x5e ∷ 0x66 ∷ 0x10 ∷ 0x85 ∷ 0x70 ∷ []

-- `CERT_TOO_SHORT2`
unfoldable pub cert_too_short2 : Bytes
cert_too_short2 = 0x30 ∷ 0x82 ∷ 0x0c ∷ 0x8c ∷ 0x30 ∷ []

short1_key : (pub_k : Bytes) × (public_key cert_too_short1 ≡ ok pub_k)
unfolding public_key find_oid read_length safe_indexing safe_indexing_one windows position
    cert_too_short1
short1_key = (_, refl)

short1_comment : netscape_comment cert_too_short1 ≡ err "Index would be out of bounds"
unfolding netscape_comment find_oid read_length safe_indexing safe_indexing_one windows position
    cert_too_short1
short1_comment = refl

short2_key : public_key cert_too_short2 ≡ err "Certificate to check is empty"
unfolding public_key find_oid windows position cert_too_short2
short2_key = refl

empty_key : public_key [] ≡ err "Certificate to check is empty"
unfolding public_key find_oid windows position
empty_key = refl

module _ (L : Libs) (attn : List ℕ) (signer : Bytes) where
  pub short1_refused :
      verify_mra_cert L cert_too_short1 attn signer ≡ err "Index would be out of bounds"
  unfolding verify_mra_cert
  short1_refused = rw (short1_key.1, short1_comment) refl

  pub short2_refused :
      verify_mra_cert L cert_too_short2 attn signer ≡ err "Certificate to check is empty"
  unfolding verify_mra_cert
  short2_refused = rw short2_key refl

  pub empty_refused : verify_mra_cert L [] attn signer ≡ err "Certificate to check is empty"
  unfolding verify_mra_cert
  empty_refused = rw empty_key refl
