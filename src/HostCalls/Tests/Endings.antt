-- ===== src/HostCalls/Tests/Endings.antt =====
-- Certificates on which the host call panics, returns or refuses, and a PEM file of two lines.
use substra_tee_node_pre.Base.{
  ◌≡◌, zero, suc, Bool, true, ltb, ◌&&◌, Option, ◌↔◌, refl, [], ◌∷◌, ◌++◌, Bytes, arith, bytes_of,
  length, replicate, windows, position,
}
use substra_tee_node_pre.Base.Outcome.{ok, err, fault, panic, Fault}
use substra_tee_node_pre.Examples.Crates.{crates}
use substra_tee_node_pre.Examples.Chain.{certificate, comment, attn}
use substra_tee_node_pre.HostCalls.Certificate.{
  safe_indexing, safe_indexing_one, ns_cmt_oid, find_oid, read_length, public_key, netscape_comment,
}
use substra_tee_node_pre.HostCalls.Ca.Pem.{
  lf, crlf, joined, AreUnbroken, Unbroken, print_pem, ca_core-print_pem,
}
use substra_tee_node_pre.HostCalls.Ca.{ca_core}
use substra_tee_node_pre.HostCalls.Attestation.{verify_mra_cert, verify_ra_report}
use substra_tee_node_pre.HostCalls.Certificate.Refused.{empty_certificate, AreBytes}
use substra_tee_node_pre.HostCalls.Attestation.Refused.{Refused, verify_mra_cert-Refused}
use substra_tee_node_pre.HostCalls.Attestation.Faulty.{Faulty, verify_mra_cert-Faulty}
use substra_tee_node_pre.HostCalls.Attestation.Returns.{verify_ra_report_returns}
use substra_tee_node_pre.Examples.Whole.{whole_key, whole_comment, whole_parts}
use substra_tee_node_pre.HostCalls.Certificate.Lengths.{out_of_bounds}
use substra_tee_node_pre.HostCalls.Certificate.Der.{
  with_comment, IsShortOrLong, netscape_comment-der_length,
}
use substra_tee_node_pre.HostCalls.Tests.{before_comment, comment-IsFirst, signer}

-- A certificate that ends behind the identifier of the comment.
abbrev cut_certificate : Bytes
cut_certificate = before_comment ++ (ns_cmt_oid ++ (0x04 ∷ []))

verify_mra_cert-Faulty_example :
    ((x : Fault) × (verify_mra_cert crates cut_certificate attn signer ≡ fault x))
    ↔ Faulty crates cut_certificate signer attn
verify_mra_cert-Faulty_example =
    verify_mra_cert-Faulty crates cut_certificate signer attn (omega arith)

cut_panics : verify_mra_cert crates cut_certificate attn signer ≡ fault panic
unfolding verify_mra_cert public_key netscape_comment find_oid read_length safe_indexing
    safe_indexing_one windows position
cut_panics = refl

verify_ra_report_returns_example :
    (r : Option Bytes) × (verify_ra_report crates certificate attn signer ≡ ok r)
verify_ra_report_returns_example =
    verify_ra_report_returns crates certificate signer attn (omega arith) whole_key whole_comment
      whole_parts 0 refl refl

two_lines-AreUnbroken : AreUnbroken ((bytes_of "MII", lf) ∷ (bytes_of "FSz", crlf) ∷ [])
unfolding AreUnbroken Unbroken
two_lines-AreUnbroken = ground arith

ca_core-print_pem_example :
    ca_core (print_pem crlf ((bytes_of "MII", lf) ∷ (bytes_of "FSz", crlf) ∷ []) lf)
    ≡ ok (joined ((bytes_of "MII", lf) ∷ (bytes_of "FSz", crlf) ∷ []))
ca_core-print_pem_example =
    ca_core-print_pem crlf lf ((bytes_of "MII", lf) ∷ (bytes_of "FSz", crlf) ∷ [])
      two_lines-AreUnbroken

abbrev all_bytes : Bytes → Bool
all_bytes [] = true
all_bytes (b ∷ bs) = ltb b 256 && all_bytes bs

all_bytes-AreBytes : (bs : Bytes) → all_bytes bs ≡ true → AreBytes bs
all_bytes-AreBytes [] h i b at = absurd (ground arith)
all_bytes-AreBytes (x ∷ xs) h zero b at = ground arith
all_bytes-AreBytes (x ∷ xs) h (suc i) b at = all_bytes-AreBytes xs (ground arith) i b at

-- The certificate ends before its comment.
verify_mra_cert-Refused_example :
    (verify_mra_cert crates before_comment attn signer ≡ err empty_certificate)
    ↔ Refused crates before_comment signer attn empty_certificate
verify_mra_cert-Refused_example =
    verify_mra_cert-Refused crates before_comment signer attn (omega arith)
      (all_bytes-AreBytes before_comment refl) empty_certificate

comment_missing : verify_mra_cert crates before_comment attn signer ≡ err empty_certificate
unfolding verify_mra_cert public_key netscape_comment find_oid read_length safe_indexing
    safe_indexing_one windows position
comment_missing = refl

netscape_comment-der_length_example :
    (netscape_comment (with_comment before_comment 0x04 comment []) ≡ ok comment)
    ↔ IsShortOrLong (length comment)
netscape_comment-der_length_example =
    netscape_comment-der_length before_comment comment [] 0x04 comment-IsFirst
      (all_bytes-AreBytes comment refl) (omega arith) (omega arith)

-- A comment of 200 bytes is not found, one of 300 is.
middle_sizes :
    (netscape_comment (with_comment [] 0x04 (replicate 200 7) []) ≡ err out_of_bounds)
    × (netscape_comment (with_comment [] 0x04 (replicate 300 7) []) ≡ ok (replicate 300 7))
unfolding netscape_comment find_oid read_length safe_indexing safe_indexing_one windows position
middle_sizes = (refl, refl)
