-- ===== src/HostCalls/Attestation/Returns.antt =====
-- host_calls/src/lib.rs: certificates on which the host call returns.
use substra_tee_node_pre.Base.{
  ℕ, ◌+◌, ◌<◌, ◌≡◌, List, ◌∷◌, Option, some, none, Bytes, arith, length, word, split, ◌==◌, subst,
}
use substra_tee_node_pre.Base.Outcome.{ok, Outcome-Ends, returned, failed, faulted}
use substra_tee_node_pre.HostCalls.Libs.{Libs}
use substra_tee_node_pre.HostCalls.Certificate.{netscape_comment, prime256v1_oid, ns_cmt_oid}
use substra_tee_node_pre.HostCalls.Certificate.Found.{netscape_comment-HasField}
use substra_tee_node_pre.HostCalls.Certificate.Cut.{CutField}
use substra_tee_node_pre.HostCalls.Attestation.{comment_fields, verify_mra_cert, verify_ra_report}
use substra_tee_node_pre.HostCalls.Attestation.ShortQuote.{HasShortQuote}
use substra_tee_node_pre.HostCalls.Attestation.Steps.{FewParts, one_part, two_parts, no_clock}
use substra_tee_node_pre.HostCalls.Attestation.Faulty.{
  Faulty, cut_key, cut_comment, few_parts, clock, quote, wrong_size, Fields-comment_fields,
  verify_mra_cert-Faulty,
}

module _ (L : Libs) where
  -- The comment has three parts or more, of which the first has no short quote.
  pub record ThreeParts (payload : Bytes) : Type 0 where
    pub a : Bytes
    pub b : Bytes
    pub c : Bytes
    pub others : List Bytes
    pub parts : split (λ x. x == 0x7c) payload ≡ a ∷ b ∷ c ∷ others
    pub long : ¬ HasShortQuote L a

  ThreeParts-not-FewParts : (payload : Bytes) → ThreeParts payload → ¬ FewParts L payload
  ThreeParts-not-FewParts payload t (one_part a e) = cc (t.parts, e)
  ThreeParts-not-FewParts payload t (two_parts a b sig e d) = cc (t.parts, e)

  first_part :
      (payload report_raw sig : Bytes) (sig_cert : L.Cert) (t : ThreeParts payload)
      → comment_fields L payload ≡ ok (report_raw, sig, sig_cert)
      → report_raw ≡ t.a
  unfolding comment_fields
  first_part payload report_raw sig sig_cert t h = let same = t.parts in ground arith

  module _ (cert_der signer : Bytes) (attn : List ℕ) (fits : length cert_der + 3 < word)
      (whole_key : ¬ CutField prime256v1_oid cert_der)
      (whole_comment : ¬ CutField ns_cmt_oid cert_der)
      (parts : (payload : Bytes) → netscape_comment cert_der ≡ ok payload → ThreeParts payload)
      (now : L.Time) (clock_works : L.now ≡ some now) (size : length signer ≡ 32) where
    not-Faulty : ¬ Faulty L cert_der signer attn
    not-Faulty (cut_key c) = whole_key c
    not-Faulty (cut_comment pub_k k c) = whole_comment c
    not-Faulty (few_parts pub_k payload k p c) =
        ThreeParts-not-FewParts payload
          (parts payload ((netscape_comment-HasField cert_der fits payload).1 p)) c
    not-Faulty (clock f (no_clock anchors t)) = cc (clock_works, t)
    not-Faulty (quote f checked good c) =
        let t =
          parts f.payload ((netscape_comment-HasField cert_der fits f.payload).1 f.has_comment) in
        let first =
          first_part f.payload f.report_raw f.sig f.sig_cert t (Fields-comment_fields L f) in
        t.long (subst (HasShortQuote L) first c)
    not-Faulty (wrong_size f checked good reading e w) = w.size size

    -- The host call returns, with a report or with none, for a certificate whose length plus 3 is
    -- below 2^64 and which ends inside of no length of a field, if its comment, where it has one,
    -- has three parts or more and no short quote in the first, the clock can be read, and the
    -- signer has 32 bytes.
    pub verify_ra_report_returns :
        (r : Option Bytes) × (verify_ra_report L cert_der attn signer ≡ ok r)
    unfolding verify_ra_report
    verify_ra_report_returns = elim (Outcome-Ends (verify_mra_cert L cert_der attn signer)) [
      | returned rep e ↦ (some rep, ground arith)
      | failed m e ↦ (none, ground arith)
      | faulted x e ↦
          absurd (not-Faulty ((verify_mra_cert-Faulty L cert_der signer attn fits).0 (x, e)))
    ]
