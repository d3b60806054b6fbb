-- ===== src/Registry/Directory/RoundTrip.antt =====
-- runtime/src/substratee_registry.rs: an enclave that registers and leaves again.
use substra_tee_node_pre.Base.{◌≡◌, ℕ, none, List, Bytes, arith}
use substra_tee_node_pre.Base.Outcome.{ok, Outcome-Ends, returned, failed, faulted}
use substra_tee_node_pre.HostCalls.Report.{SgxReport}
use substra_tee_node_pre.Registry.Config.{Trait}
use substra_tee_node_pre.Registry.Checks.{check_registration}
use substra_tee_node_pre.Registry.{State}
use substra_tee_node_pre.Registry.Shapes.{enclave_of}
use substra_tee_node_pre.Registry.Invariant.{IsValid}
use substra_tee_node_pre.Registry.Dispatch.{register, unregister, dispatch}
use substra_tee_node_pre.Registry.Dispatch.History.{dispatch-IsValid}
use substra_tee_node_pre.Registry.Directory.{view, register_in}
use substra_tee_node_pre.Registry.Directory.Refinement.{dispatch-Implements}

module _ (T : Trait) (o : T.Origin) (a : T.AccountId) (signed : T.ensure_signed o ≡ ok a) where
  module _ (s : State T) (v : IsValid T s) (ra_report : Bytes) (attn : List ℕ) (url : Bytes)
      (registers : (dispatch T o (register ra_report attn url) s).0 ≡ ok tt) where
    abbrev after : State T
    after = (dispatch T o (register ra_report attn url) s).1

    -- A registration that succeeds on a valid registry has passed the checks with a report, and the
    -- directory then has the enclave of that report under the account that has signed, and is what
    -- it was for all others.
    pub register-view :
        (report : SgxReport) × (check_registration T a ra_report attn url ≡ ok report)
        × ((b : T.AccountId)
            → view T after b ≡ register_in T (view T s) (enclave_of T a report url) b)
    register-view =
        let (same, views) = dispatch-Implements T s v o (register ra_report attn url) in
        elim (Outcome-Ends (check_registration T a ra_report attn url)) [
          | failed x g ↦ absurd (ground arith)
          | faulted x g ↦ absurd (ground arith)
          | returned report g ↦ (report, g, λ b. ground (arith, views b))
        ]

    -- When an account that is not in the directory of a valid registry has registered with success,
    -- it unregisters with success, and the directory is then what it was before.
    pub unregister-register :
        view T s a ≡ none
        → ((dispatch T o unregister after).0 ≡ ok tt)
          × ((b : T.AccountId) → view T (dispatch T o unregister after).1 b ≡ view T s b)
    unregister-register new =
        let v' = dispatch-IsValid T s o (register ra_report attn url) v in
        let (same, views) = dispatch-Implements T after v' o unregister in
        let (report, _, before) = register-view in
        let here = before a in (ground arith, λ b. ground (arith, views b, before b))
