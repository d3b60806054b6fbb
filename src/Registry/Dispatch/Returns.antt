-- ===== src/Registry/Dispatch/Returns.antt =====
-- runtime/src/substratee_registry.rs with host_calls/: certificates on which a registration returns.
use substra_tee_node_pre.Base.{ℕ, ◌≤◌, ◌≡◌, ◌≢◌, ap, List, some, Bytes, arith, length, subst, sym}
use substra_tee_node_pre.Base.Outcome.{Fault, ok, fault}
use substra_tee_node_pre.HostCalls.Certificate.{netscape_comment, prime256v1_oid, ns_cmt_oid}
use substra_tee_node_pre.HostCalls.Certificate.Cut.{CutField}
use substra_tee_node_pre.HostCalls.Attestation.{verify_ra_report}
use substra_tee_node_pre.HostCalls.Attestation.Returns.{ThreeParts, verify_ra_report_returns}
use substra_tee_node_pre.Registry.Config.{Trait}
use substra_tee_node_pre.Registry.Checks.{max_ra_report_len}
use substra_tee_node_pre.Registry.{State}
use substra_tee_node_pre.Registry.Invariant.{IsValid}
use substra_tee_node_pre.Registry.Dispatch.{Call, register, unregister, forward, confirm, dispatch}
use substra_tee_node_pre.Registry.Dispatch.Panics.{HostFaults, dispatch_faults}

module _ (T : Trait) where
  -- The arguments of a registration, and others for other calls.
  arguments : Bytes → List ℕ → Call T → Bytes × List ℕ
  arguments d e (register ra_report attn url) = (ra_report, attn)
  arguments d e unregister = (d, e)
  arguments d e (forward request) = (d, e)
  arguments d e (confirm shard call_hash ipfs_hash) = (d, e)

  module _ (s : State T) (v : IsValid T s) (o : T.Origin) (a : T.AccountId)
      (signed : T.ensure_signed o ≡ ok a) (cert_der : Bytes) (attn : List ℕ) (url : Bytes)
      (whole_key : ¬ CutField prime256v1_oid cert_der)
      (whole_comment : ¬ CutField ns_cmt_oid cert_der)
      (parts : (payload : Bytes)
        → netscape_comment cert_der ≡ ok payload
        → ThreeParts T.libs payload)
      (now : T.libs.Time) (clock_works : T.libs.now ≡ some now) where
    host_returns : (x : Fault) → ¬ HostFaults T a (register cert_der attn url) x
    unfolding arguments
    host_returns x f =
        let same = ap (arguments cert_der attn) f.registers in
        let same_cert : cert_der ≡ f.ra_report = ap (λ p. p.0) same in
        let same_attn : attn ≡ f.attn = ap (λ p. p.1) same in
        let short : length cert_der ≤ max_ra_report_len =
          subst (λ b. length b ≤ max_ra_report_len) (sym same_cert) f.short_report in
        let (r, returns) =
          verify_ra_report_returns T.libs cert_der (T.encode a) attn (omega arith) whole_key
            whole_comment parts now clock_works (T.length-encode a) in
        let faults : verify_ra_report T.libs cert_der attn (T.encode a) ≡ fault x =
          rw (same_cert, same_attn) f.faults in
        cc (returns, faults)

    -- On a valid registry, a signed registration returns `Ok` or `Err` and never panics, for a
    -- certificate that ends inside of no length of a field, if its comment, where it has one, has
    -- three parts or more and no short quote in the first, and the clock can be read.
    register_returns : (x : Fault) → (dispatch T o (register cert_der attn url) s).0 ≢ fault x
    register_returns x h =
        host_returns x ((dispatch_faults T s v o a signed (register cert_der attn url) x).0 h)
