-- ===== src/Registry/Directory/Provenance.antt =====
-- runtime/src/substratee_registry.rs: where the enclaves of the registry come from.
use substra_tee_node_pre.Base.{
  ℕ, ◌≡◌, ◌⊎◌, inl, inr, refl, some, Bool, true, false, List, Bytes, arith, ◌∙◌, sym, subst, ap,
  Bool-cases, Option-cases,
}
use substra_tee_node_pre.Base.Outcome.{ok, Outcome-Ends, returned, failed, faulted}
use substra_tee_node_pre.HostCalls.Report.{SgxReport}
use substra_tee_node_pre.Registry.Config.{Trait, Enclave}
use substra_tee_node_pre.Registry.Checks.{check_registration}
use substra_tee_node_pre.Registry.Checks.Acceptance.{MayRegister, check_registration_lem}
use substra_tee_node_pre.Registry.{State, init}
use substra_tee_node_pre.Registry.Shapes.{enclave_of, enclave_at}
use substra_tee_node_pre.Registry.Dispatch.{Call, register, unregister, forward, confirm, dispatch}
use substra_tee_node_pre.Registry.Dispatch.History.{Reach, start, next, new_block, Reach-IsValid}
use substra_tee_node_pre.Registry.Directory.{Directory, view}
use substra_tee_node_pre.Registry.Directory.Refinement.{
  spec_dispatch, has_room, dispatch-Implements,
}

module _ (T : Trait) where
  abbrev is_unregister : Call T → Bool
  is_unregister unregister = true
  is_unregister _ = false

  -- A call of another kind does not unregister.
  stays : {A : Type 0} (c : Call T) → is_unregister c ≡ false → ¬ ((c ≡ unregister) × A)
  stays c h (p, _) = cc (h, ap is_unregister p)

  -- The history has the call by that origin, with success, and no later call with which the account
  -- unregisters.
  pub Standing : {s : State T} → Reach T s → T.AccountId → T.Origin → Call T → Type 0
  Standing start a o c = ⊥
  Standing (next {s} o' c' r) a o c =
      ((o' ≡ o) × (c' ≡ c) × ((dispatch T o' c' s).0 ≡ ok tt))
      ⊎ (Standing r a o c × ¬ ((c' ≡ unregister) × (T.ensure_signed o' ≡ ok a)))
  Standing (new_block r) a o c = Standing r a o c

  -- The account of the enclave has itself registered with a certificate that the host accepts for
  -- it, and has not unregistered since, and the enclave is what the certificate says.
  pub record Attested {s : State T} (r : Reach T s) (e : Enclave T.AccountId) : Type 0 where
    pub origin : T.Origin
    pub ra_report : Bytes
    pub attn : List ℕ
    pub url : Bytes
    pub report : SgxReport
    pub standing : Standing r e.pubkey origin (register ra_report attn url)
    pub signed : T.ensure_signed origin ≡ ok e.pubkey
    pub accepted : MayRegister T e.pubkey ra_report attn url report
    pub same : e ≡ enclave_of T e.pubkey report url

  earlier :
      {s : State T} {r : Reach T s} {e : Enclave T.AccountId} (o : T.Origin) (c : Call T)
      → ¬ ((c ≡ unregister) × (T.ensure_signed o ≡ ok e.pubkey))
      → Attested r e
      → Attested (next o c r) e
  unfolding Standing
  earlier o c stays a = record {
    origin = a.origin;
    ra_report = a.ra_report;
    attn = a.attn;
    url = a.url;
    report = a.report;
    standing = inr (a.standing, stays);
    signed = a.signed;
    accepted = a.accepted;
    same = a.same;
  }

  in_block :
      {s : State T} {r : Reach T s} {e : Enclave T.AccountId}
      → Attested r e
      → Attested (new_block r) e
  unfolding Standing
  in_block a = record {
    origin = a.origin;
    ra_report = a.ra_report;
    attn = a.attn;
    url = a.url;
    report = a.report;
    standing = a.standing;
    signed = a.signed;
    accepted = a.accepted;
    same = a.same;
  }

  -- Where an enclave of the directory after a call comes from.
  data Source (room : Bool) (d : Directory T) (o : T.Origin) (e : Enclave T.AccountId)
      : Call T → Type 0 where
    kept :
        {c : Call T}
        → d e.pubkey ≡ some e
        → ¬ ((c ≡ unregister) × (T.ensure_signed o ≡ ok e.pubkey))
        → Source room d o e c
    entered :
        {ra_report : Bytes} {attn : List ℕ} {url : Bytes} (a : T.AccountId) (report : SgxReport)
        → T.ensure_signed o ≡ ok a
        → check_registration T a ra_report attn url ≡ ok report
        → e ≡ enclave_of T a report url
        → (spec_dispatch T room o (register ra_report attn url) d).0 ≡ ok tt
        → Source room d o e (register ra_report attn url)

  module _ (room : Bool) (o : T.Origin) (d : Directory T) (e : Enclave T.AccountId) where
    spec_dispatch-Source :
        (c : Call T) → (spec_dispatch T room o c d).1 e.pubkey ≡ some e → Source room d o e c
    spec_dispatch-Source (register ra_report attn url) h = elim (Outcome-Ends (T.ensure_signed o)) [
      | failed m g ↦ kept (ground arith) (stays _ refl)
      | faulted x g ↦ kept (ground arith) (stays _ refl)
      | returned a g ↦ elim (Outcome-Ends (check_registration T a ra_report attn url)) [
        | failed m k ↦ kept (ground arith) (stays _ refl)
        | faulted x k ↦ kept (ground arith) (stays _ refl)
        | returned report k ↦ elim (T.account_eq a e.pubkey) [
          | yes p ↦ elim (Option-cases (d a)) [
            | inr (old, q) ↦ entered a report g k (ground arith) (ground arith)
            | inl q ↦ elim (Bool-cases room) [
              | inl t ↦ entered a report g k (ground arith) (ground arith)
              | inr f ↦ kept (ground arith) (stays _ refl)
            ]
          ]
          | no ne ↦ kept (ground arith) (stays _ refl)
        ]
      ]
    ]
    spec_dispatch-Source unregister h = kept (ground arith) (λ u. let g = u.1 in ground arith)
    spec_dispatch-Source (forward request) h = kept (ground arith) (stays _ refl)
    spec_dispatch-Source (confirm shard call_hash ipfs_hash) h = kept (ground arith) (stays _ refl)

  Source-Attested :
      {s : State T} (r : Reach T s) (o : T.Origin) (e : Enclave T.AccountId) (c : Call T)
      → ((h : view T s e.pubkey ≡ some e) → Attested r e)
      → Source (has_room T s) (view T s) o e c
      → Attested (next o c r) e
  unfolding Standing
  Source-Attested r o e c old (kept h stays) = earlier o c stays (old h)
  Source-Attested {s} r o e _ old (entered {ra_report} {attn} {url} a report g k same fine) =
      let c = register ra_report attn url in
      let returns = (dispatch-Implements T s (Reach-IsValid T r) o c).0 in
      subst (Attested (next o c r)) (sym same) (record {
        origin = o;
        ra_report = ra_report;
        attn = attn;
        url = url;
        report = report;
        standing = inl (refl, refl, returns ∙ fine);
        signed = g;
        accepted = (check_registration_lem T a ra_report attn url report).0 k;
        same = refl;
      })

  viewed-Attested :
      {s : State T} (r : Reach T s) (e : Enclave T.AccountId)
      → view T s e.pubkey ≡ some e
      → Attested r e
  unfolding view init
  viewed-Attested start e h = absurd (ground (arith, T.index_map.get?-empty e.pubkey))
  viewed-Attested (next {s} o c r) e h =
      let views = (dispatch-Implements T s (Reach-IsValid T r) o c).1 e.pubkey in
      Source-Attested r o e c (viewed-Attested r e)
        (spec_dispatch-Source (has_room T s) o (view T s) e c (sym views ∙ h))
  viewed-Attested (new_block r) e h = in_block (viewed-Attested r e h)

  -- Every enclave in a storage that calls, in blocks, lead to from the empty one was registered by its own
  -- account, in one of these calls and with a certificate that the host accepts for the account,
  -- which has not unregistered since, and the enclave's measurement and time are those of the
  -- certificate, its URL that of the call.
  pub Reach-Attested :
      {s : State T} (r : Reach T s) (i : ℕ) (e : Enclave T.AccountId)
      → enclave_at T s i ≡ some e
      → Attested r e
  unfolding view
  Reach-Attested {s} r i e h =
      let v = Reach-IsValid T r in
      let indexed = v.indexed e.pubkey i (ground (arith, h)) in
      viewed-Attested r e (ground (arith, indexed, h))
