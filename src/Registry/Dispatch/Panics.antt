-- ===== src/Registry/Dispatch/Panics.antt =====
-- runtime/src/substratee_registry.rs: where a call of the pallet panics.
use substra_tee_node_pre.Base.{
  ℕ, ◌≤◌, ◌≡◌, ◌≢◌, ◌∙◌, refl, ap, List, Bytes, arith, length, inl, inr, Option-cases, leb→le,
  le→leb, ◌↔◌,
}
use substra_tee_node_pre.Base.Outcome.{
  Outcome, Fault, ok, fault, Outcome-Ends, returned, failed, faulted,
}
use substra_tee_node_pre.Base.Exec.{◌>>◌}
use substra_tee_node_pre.HostCalls.Attestation.{verify_ra_report}
use substra_tee_node_pre.HostCalls.Attestation.HostCall.{verify_ra_report-some}
use substra_tee_node_pre.HostCalls.Attestation.Accepted.{verify_mra_cert_lem}
use substra_tee_node_pre.Registry.Config.{Trait, Event, added_enclave, removed_enclave}
use substra_tee_node_pre.Registry.Checks.{check_registration, max_ra_report_len, max_url_len}
use substra_tee_node_pre.Registry.Checks.Acceptance.{decoded}
use substra_tee_node_pre.Registry.{
  State, Action, deposit_event, register_enclave, unregister_enclave, call_worker,
  register_verified_enclave, remove_enclave,
}
use substra_tee_node_pre.Registry.Shapes.{index_of}
use substra_tee_node_pre.Registry.Shards.{confirm_known, confirm_unknown}
use substra_tee_node_pre.Registry.Invariant.{IsValid}
use substra_tee_node_pre.Registry.Outcomes.{
  Registers, known, new, full, Removes, absent, last, middle, register_verified_enclave-Registers,
  remove_enclave-Removes,
}
use substra_tee_node_pre.Registry.Dispatch.{Call, register, unregister, forward, confirm, dispatch}

module _ (T : Trait) where
  -- The host call panics on the arguments of a registration, which are not too long.
  pub record HostFaults (a : T.AccountId) (c : Call T) (x : Fault) : Type 0 where
    pub ra_report : Bytes
    pub attn : List ℕ
    pub url : Bytes
    pub registers : c ≡ register ra_report attn url
    pub short_report : length ra_report ≤ max_ra_report_len
    pub short_url : length url ≤ max_url_len
    pub faults : verify_ra_report T.libs ra_report attn (T.encode a) ≡ fault x

  check-faults :
      (a : T.AccountId) (ra_report : Bytes) (attn : List ℕ) (url : Bytes) (x : Fault)
      → check_registration T a ra_report attn url ≡ fault x
      → HostFaults a (register ra_report attn url) x
  unfolding check_registration
  check-faults a ra_report attn url x h =
      elim (Outcome-Ends (verify_ra_report T.libs ra_report attn (T.encode a))) [
        | failed m e ↦ absurd (ground arith)
        | faulted y e ↦ record {
          ra_report = ra_report;
          attn = attn;
          url = url;
          registers = refl;
          short_report = leb→le _ _ (ground arith);
          short_url = leb→le _ _ (ground arith);
          faults = ground arith;
        }
        | returned verified called ↦ elim (Option-cases verified) [
          | inl nothing ↦ absurd (ground arith)
          | inr (rep, is_rep) ↦
              let accepted =
                (verify_ra_report-some T.libs ra_report attn (T.encode a) rep).0
                  (called ∙ ap ok is_rep) in
              let short : length ra_report ≤ max_ra_report_len = leb→le _ _ (ground arith) in
              let (reading, acc, same) =
                (verify_mra_cert_lem T.libs ra_report attn (T.encode a) rep
                    (omega (arith, short))).0
                  accepted in
              let back = decoded T a ra_report attn reading acc in
              absurd (ground (arith, back, same))
        ]
      ]

  faults-check :
      (a : T.AccountId) (c : Call T) (x : Fault) (f : HostFaults a c x)
      → check_registration T a f.ra_report f.attn f.url ≡ fault x
  unfolding check_registration
  faults-check a c x f = rw (le→leb _ _ f.short_report, le→leb _ _ f.short_url, f.faults) refl

  module _ (s : State T) where
    Registers-returns :
        {e : _} {r : Outcome (Unit {0}) × State T} (x : Fault) → Registers T s e r → r.0 ≢ fault x
    Registers-returns x (known i h p) q = cc (p, q)
    Registers-returns x (new h room p) q = cc (p, q)
    Registers-returns x (full h past p) q = cc (p, q)

    Removes-returns :
        {a : T.AccountId} {r : Outcome (Unit {0}) × State T} (x : Fault)
        → Removes T s a r
        → r.0 ≢ fault x
    Removes-returns x (absent h p) q = cc (p, q)
    Removes-returns x (last h p) q = cc (p, q)
    Removes-returns x (middle i e h at ne p) q = cc (p, q)

    deposit-returns :
        (m : Action T (Unit {0})) (e : Event T.AccountId T.ShardIdentifier) (x : Fault)
        → ((m s).0 ≢ fault x)
        → ((m >> deposit_event T e) s).0 ≢ fault x
    deposit-returns m e x never h = elim (Outcome-Ends (m s).0) [
      | returned _ g ↦ ground arith
      | failed y g ↦ ground arith
      | faulted y g ↦ never (ground arith)
    ]

    module _ (v : IsValid T s) (o : T.Origin) (a : T.AccountId)
        (signed : T.ensure_signed o ≡ ok a) where
      dispatch-HostFaults :
          (c : Call T) (x : Fault) → (dispatch T o c s).0 ≡ fault x → HostFaults a c x
      unfolding dispatch register_enclave unregister_enclave call_worker
      dispatch-HostFaults (register ra_report attn url) x h =
          elim (Outcome-Ends (check_registration T a ra_report attn url)) [
            | failed e g ↦ absurd (ground arith)
            | faulted y g ↦ check-faults a ra_report attn url x (ground arith)
            | returned report g ↦
                let m = register_verified_enclave T a report url in
                let never =
                  Registers-returns x (register_verified_enclave-Registers T s a report url) in
                absurd (deposit-returns m (added_enclave a url) x never (rw (signed, g) at h))
          ]
      dispatch-HostFaults unregister x h =
          let never = Removes-returns x (remove_enclave-Removes T s a v) in
          absurd (deposit-returns (remove_enclave T a) (removed_enclave a) x never (rw signed at h))
      dispatch-HostFaults (forward request) x h = absurd (ground arith)
      dispatch-HostFaults (confirm shard call_hash ipfs_hash) x h =
          elim (Option-cases (index_of T s a)) [
            | inl g ↦
                absurd (
                  cc
                    (ap (λ r. r.0) (confirm_unknown T o a shard call_hash ipfs_hash s signed g), h))
            | inr (i, g) ↦
                absurd (
                  cc
                    (ap (λ r. r.0) (confirm_known T o a shard call_hash ipfs_hash s signed i g), h))
          ]

      HostFaults-dispatch :
          (c : Call T) (x : Fault) → HostFaults a c x → (dispatch T o c s).0 ≡ fault x
      unfolding dispatch register_enclave
      HostFaults-dispatch c x f = rw (f.registers, signed, faults-check a c x f) refl

      -- A signed call on a valid registry panics, or reads past its data, exactly if it is a
      -- registration with a certificate of at most 4096 bytes and a URL of at most 256, and the
      -- host call does the same on the certificate: the pallet adds no panic of its own.
      pub dispatch_faults :
          (c : Call T) (x : Fault) → ((dispatch T o c s).0 ≡ fault x) ↔ HostFaults a c x
      dispatch_faults c x = (dispatch-HostFaults c x, HostFaults-dispatch c x)
