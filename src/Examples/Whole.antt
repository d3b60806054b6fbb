-- ===== src/Examples/Whole.antt =====
-- The example certificate: its fields, which it does not cut, and the parts of its comment.
use substra_tee_node_pre.Base.{
  ◌≡◌, subst, ◌↔◌, ◌≢◌, refl, Bytes, arith, replicate, windows, position, split, split_parts, ◌∷◌,
}
use substra_tee_node_pre.Base.Outcome.{ok, undefined, fault, panic}
use substra_tee_node_pre.Examples.Crates.{crates}
use substra_tee_node_pre.Examples.Chain.{certificate, comment, attn}
use substra_tee_node_pre.HostCalls.Certificate.{
  safe_indexing, safe_indexing_one, prime256v1_oid, ns_cmt_oid, find_oid, read_length, public_key,
  netscape_comment,
}
use substra_tee_node_pre.HostCalls.Attestation.{
  quote_status, ephemeral_key, attn_signature, read_quote, read_report, check_signer,
  verify_attn_report,
}
use substra_tee_node_pre.HostCalls.Attestation.ShortQuote.{verify_attn_report-HasShortQuote}
use substra_tee_node_pre.HostCalls.Certificate.Cut.{CutField, fields_lem}
use substra_tee_node_pre.HostCalls.Attestation.Returns.{ThreeParts}

key_found : public_key certificate ≡ ok (replicate 64 7)
unfolding public_key find_oid read_length safe_indexing safe_indexing_one windows position
key_found = refl

comment_found : netscape_comment certificate ≡ ok comment
unfolding netscape_comment find_oid read_length safe_indexing safe_indexing_one windows position
comment_found = refl

certificate_fields :
    ((public_key certificate ≡ fault panic) ↔ CutField prime256v1_oid certificate)
    × ((netscape_comment certificate ≡ fault panic) ↔ CutField ns_cmt_oid certificate)
    × (public_key certificate ≢ fault undefined)
    × (netscape_comment certificate ≢ fault undefined)
certificate_fields = fields_lem certificate (omega arith)

pub whole_key : ¬ CutField prime256v1_oid certificate
whole_key c = cc (key_found, (certificate_fields.0).1 c)

pub whole_comment : ¬ CutField ns_cmt_oid certificate
whole_comment c = cc (comment_found, (certificate_fields.1).1 c)

-- The first part of the comment has no short quote.
comment-ThreeParts : ThreeParts crates comment
unfolding split split_parts verify_attn_report read_report read_quote check_signer ephemeral_key
    attn_signature quote_status
comment-ThreeParts = record {
  a = _;
  b = _;
  c = _;
  others = _;
  parts = refl;
  long = λ h.
      let short =
        (verify_attn_report-HasShortQuote crates _ (replicate 64 7) (1 ∷ replicate 31 0) attn).1
          h in
      cc short;
}

pub whole_parts :
    (payload : Bytes) → netscape_comment certificate ≡ ok payload → ThreeParts crates payload
whole_parts payload h = subst (ThreeParts crates) (cc (h, comment_found)) comment-ThreeParts
