-- ===== src/Registry/Dispatch/Order.antt =====
-- runtime/src/substratee_registry.rs: calls of two accounts in either order.
use substra_tee_node_pre.Base.{◌≡◌, ◌≢◌, refl, ◌∙◌, sym, arith}
use substra_tee_node_pre.Base.Outcome.{ok, err, fault}
use substra_tee_node_pre.Registry.Config.{Trait}
use substra_tee_node_pre.Registry.{State}
use substra_tee_node_pre.Registry.Checks.{check_registration}
use substra_tee_node_pre.Registry.Shapes.{enclave_of}
use substra_tee_node_pre.Registry.Invariant.{IsValid}
use substra_tee_node_pre.Registry.Dispatch.{Call, register, unregister, forward, confirm, dispatch}
use substra_tee_node_pre.Registry.Dispatch.History.{dispatch-IsValid}
use substra_tee_node_pre.Registry.Directory.{Directory, view, register_in, remove_from}
use substra_tee_node_pre.Registry.Directory.Refinement.{
  dispatch-Implements, spec_dispatch, has_room,
}

module _ (T : Trait) where
  -- What a call that succeeds does to the directory.
  abbrev pub effect : T.AccountId → Call T → Directory T → Directory T
  effect a (register ra_report attn url) d = elim (check_registration T a ra_report attn url) [
    | ok report ↦ register_in T d (enclave_of T a report url)
    | err e ↦ d
    | fault x ↦ d
  ]
  effect a unregister d = remove_from T d a
  effect a (forward request) d = d
  effect a (confirm shard call_hash ipfs_hash) d = d

  spec_dispatch-effect :
      (room : _) (o : T.Origin) (a : T.AccountId) (c : Call T) (d : Directory T)
      → T.ensure_signed o ≡ ok a
      → (spec_dispatch T room o c d).0 ≡ ok tt
      → (b : T.AccountId) → (spec_dispatch T room o c d).1 b ≡ effect a c d b
  spec_dispatch-effect room o a (register ra_report attn url) d signed h b = ground arith
  spec_dispatch-effect room o a unregister d signed h b = ground arith
  spec_dispatch-effect room o a (forward request) d signed h b = ground arith
  spec_dispatch-effect room o a (confirm shard call_hash ipfs_hash) d signed h b = ground arith

  pub dispatch-effect :
      (s : State T) (o : T.Origin) (a : T.AccountId) (c : Call T)
      → IsValid T s
      → T.ensure_signed o ≡ ok a
      → (dispatch T o c s).0 ≡ ok tt
      → (b : T.AccountId) → view T (dispatch T o c s).1 b ≡ effect a c (view T s) b
  dispatch-effect s o a c v signed h b =
      let (same, views) = dispatch-Implements T s v o c in
      views b ∙ spec_dispatch-effect (has_room T s) o a c (view T s) signed (sym same ∙ h) b

  effect_comm :
      (a b : T.AccountId) (c c' : Call T) (d : Directory T)
      → a ≢ b
      → (x : T.AccountId) → effect b c' (effect a c d) x ≡ effect a c (effect b c' d) x
  effect_comm a b (register r attn url) (register r' attn' url') d ne x = ground arith
  effect_comm a b (register r attn url) unregister d ne x = ground arith
  effect_comm a b (register r attn url) (forward request) d ne x = refl
  effect_comm a b (register r attn url) (confirm shard call_hash ipfs_hash) d ne x = refl
  effect_comm a b unregister (register r' attn' url') d ne x = ground arith
  effect_comm a b unregister unregister d ne x = ground arith
  effect_comm a b unregister (forward request) d ne x = refl
  effect_comm a b unregister (confirm shard call_hash ipfs_hash) d ne x = refl
  effect_comm a b (forward request) c' d ne x = refl
  effect_comm a b (confirm shard call_hash ipfs_hash) c' d ne x = refl

  effect-cong :
      (a : T.AccountId) (c : Call T) {d e : Directory T}
      → ((x : T.AccountId) → d x ≡ e x)
      → (x : T.AccountId) → effect a c d x ≡ effect a c e x
  effect-cong a (register r attn url) same x = ground (arith, same x)
  effect-cong a unregister same x = ground (arith, same x)
  effect-cong a (forward request) same x = same x
  effect-cong a (confirm shard call_hash ipfs_hash) same x = same x

  -- The storage after a call of each of two origins.
  abbrev pub both : T.Origin → Call T → T.Origin → Call T → State T → State T
  both o c o' c' s = (dispatch T o' c' (dispatch T o c s).1).1

  -- Two calls that return `Ok` one after the other.
  pub data AreOk (o : T.Origin) (c : Call T) (o' : T.Origin) (c' : Call T) (s : State T)
      : Type 0 where
    are_ok :
        (dispatch T o c s).0 ≡ ok tt
        → (dispatch T o' c' (dispatch T o c s).1).0 ≡ ok tt
        → AreOk o c o' c' s

  both-effect :
      (s : State T) (o o' : T.Origin) (a b : T.AccountId) (c c' : Call T)
      → IsValid T s
      → T.ensure_signed o ≡ ok a
      → T.ensure_signed o' ≡ ok b
      → AreOk o c o' c' s
      → (x : T.AccountId) → view T (both o c o' c' s) x ≡ effect b c' (effect a c (view T s)) x
  both-effect s o o' a b c c' v signed signed' (are_ok first second) x =
      let t = (dispatch T o c s).1 in
      dispatch-effect t o' b c' (dispatch-IsValid T s o c v) signed' second x
      ∙ effect-cong b c' (dispatch-effect s o a c v signed first) x

  -- If in a valid registry one call of each of two different accounts, in either order, returns
  -- `Ok` both times, then both orders leave the same enclave or none at every account.
  pub both_swap :
      (s : State T) (o o' : T.Origin) (a b : T.AccountId) (c c' : Call T)
      → IsValid T s
      → T.ensure_signed o ≡ ok a
      → T.ensure_signed o' ≡ ok b
      → a ≢ b
      → AreOk o c o' c' s
      → AreOk o' c' o c s
      → (x : T.AccountId) → view T (both o c o' c' s) x ≡ view T (both o' c' o c s) x
  both_swap s o o' a b c c' v signed signed' ne forth back x =
      both-effect s o o' a b c c' v signed signed' forth x
      ∙ effect_comm a b c c' (view T s) ne x
      ∙ sym (both-effect s o' o b a c' c v signed' signed back x)
