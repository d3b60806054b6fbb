-- ===== src/HostCalls/Tests.antt =====
-- The host call on a certificate with a key and a comment, over stand-ins for the crates.
mod Endings
use substra_tee_node_pre.Base.{
  ◌≡◌, ◌↔◌, refl, false, [], ◌∷◌, ◌++◌, some, Bytes, arith, replicate, length, windows, position,
  retain, split, split_parts,
}
use substra_tee_node_pre.Base.Int.{pos}
use substra_tee_node_pre.Base.Outcome.{ok, undefined, fault}
use substra_tee_node_pre.Examples.Crates.{crates}
use substra_tee_node_pre.Examples.Chain.{certificate, comment, attn}
use substra_tee_node_pre.HostCalls.Report.{SgxStatus, SgxReport}
use substra_tee_node_pre.HostCalls.Certificate.{
  safe_indexing, safe_indexing_one, prime256v1_oid, ns_cmt_oid, find_oid, read_length, public_key,
  netscape_comment,
}
use substra_tee_node_pre.HostCalls.Ca.{ias_report_ca, ca_core}
use substra_tee_node_pre.HostCalls.Attestation.{
  quote_status, ephemeral_key, attn_signature, read_quote, read_report, check_signer,
  verify_attn_report, ca_anchors, comment_fields, check_issuer, verify_mra_cert, verify_ra_report,
  Reading,
}
use substra_tee_node_pre.HostCalls.Certificate.Search.{IsFirst, find_oid-IsFirst}
use substra_tee_node_pre.HostCalls.Certificate.Fields.{short, public_key_found}
use substra_tee_node_pre.HostCalls.Attestation.Accepted.{Accepts, report_for, verify_mra_cert_lem}
use substra_tee_node_pre.HostCalls.Attestation.Unchecked.{
  with_issuer_check, with_report_data, with_ecdsa_errors, issuer_unchecked, report_data_unchecked,
  ecdsa_error_accepted,
}
use substra_tee_node_pre.HostCalls.Attestation.ShortQuote.{
  HasShortQuote, verify_attn_report-HasShortQuote,
}

pem_size : length ias_report_ca ≡ 1895
unfolding ias_report_ca
pem_size = refl

-- What follows the key, and what comes before the comment.
abbrev behind_key : Bytes
behind_key = ns_cmt_oid ++ (0x04 ∷ 28 ∷ comment)

abbrev before_comment : Bytes
before_comment = 0x30 ∷ (prime256v1_oid ++ (0x03 ∷ 66 ∷ 0x00 ∷ 0x04 ∷ replicate 64 7))

curve_found : find_oid prime256v1_oid certificate ≡ ok 1
unfolding find_oid windows position
curve_found = refl

comment_id_found : find_oid ns_cmt_oid certificate ≡ ok 79
unfolding find_oid windows position
comment_id_found = refl

find_oid-IsFirst_example :
    (find_oid ns_cmt_oid certificate ≡ ok 79) ↔ IsFirst ns_cmt_oid certificate 79
find_oid-IsFirst_example = find_oid-IsFirst ns_cmt_oid (omega arith) certificate 79

curve-IsFirst : IsFirst prime256v1_oid certificate 1
curve-IsFirst = (find_oid-IsFirst prime256v1_oid (omega arith) certificate 1).0 curve_found

pub comment-IsFirst : IsFirst ns_cmt_oid certificate 79
comment-IsFirst = (find_oid-IsFirst ns_cmt_oid (omega arith) certificate 79).0 comment_id_found

public_key_found_example : public_key certificate ≡ ok (replicate 64 7)
public_key_found_example =
    public_key_found (0x30 ∷ []) (66 ∷ []) (replicate 64 7) behind_key 0x03 0x00 0x04 66
      curve-IsFirst (short refl (omega arith)) refl (omega arith)

abbrev signer : Bytes
signer = 1 ∷ replicate 31 0

accepted_report :
    verify_ra_report crates certificate attn signer
    ≡ ok (
        some (
          crates.encode_report (record {
            mr_enclave = replicate 32 9;
            pubkey = signer;
            status = SgxStatus.ok;
            timestamp = pos 1_580_587_262;
          })))
unfolding verify_ra_report verify_mra_cert public_key netscape_comment find_oid read_length
    safe_indexing safe_indexing_one windows position comment_fields split split_parts check_issuer
    ca_anchors ca_core ias_report_ca retain verify_attn_report read_report read_quote quote_status
    check_signer ephemeral_key attn_signature
accepted_report = refl

abbrev report : SgxReport
report = record {
  mr_enclave = replicate 32 9;
  pubkey = signer;
  status = SgxStatus.ok;
  timestamp = pos 1_580_587_262;
}

verify_mra_cert_lem_example :
    (verify_mra_cert crates certificate attn signer ≡ ok (crates.encode_report report)) ↔ (
      (reading : Reading) × Accepts crates certificate attn signer reading
      × (crates.encode_report report ≡ crates.encode_report (report_for crates reading signer)))
verify_mra_cert_lem_example =
    verify_mra_cert_lem crates certificate attn signer (crates.encode_report report) (omega arith)

issuer_unchecked_example :
    verify_mra_cert
      (with_issuer_check crates (λ c algs anchors chain t. false))
      certificate
      attn
      signer
    ≡ verify_mra_cert crates certificate attn signer
issuer_unchecked_example =
    issuer_unchecked crates (λ c algs anchors chain t. false) certificate attn signer

report_data_unchecked_example :
    verify_mra_cert (with_report_data crates (λ b. [])) certificate attn signer
    ≡ verify_mra_cert crates certificate attn signer
report_data_unchecked_example = report_data_unchecked crates (λ b. []) certificate attn signer

ecdsa_error_accepted_example :
    verify_mra_cert (with_ecdsa_errors crates) certificate attn signer
    ≡ verify_mra_cert crates certificate attn signer
ecdsa_error_accepted_example = ecdsa_error_accepted crates certificate attn signer

-- The quote of the stand-ins is the report itself; a report of three bytes is too short.
verify_attn_report-HasShortQuote_example :
    (verify_attn_report crates (1 ∷ 2 ∷ 3 ∷ []) (replicate 64 7) signer attn ≡ fault undefined)
    ↔ HasShortQuote crates (1 ∷ 2 ∷ 3 ∷ [])
verify_attn_report-HasShortQuote_example =
    verify_attn_report-HasShortQuote crates (1 ∷ 2 ∷ 3 ∷ []) (replicate 64 7) signer attn

short_report :
    verify_attn_report crates (1 ∷ 2 ∷ 3 ∷ []) (replicate 64 7) signer attn ≡ fault undefined
unfolding verify_attn_report read_report read_quote
short_report = refl
