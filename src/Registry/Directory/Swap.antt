-- ===== src/Registry/Directory/Swap.antt =====
-- runtime/src/substratee_registry.rs: where two calls of different accounts succeed in one order,
-- they succeed in the other.
use substra_tee_node_pre.Base.{Bool, true, ◌+◌, ◌≤◌, ◌<◌, ◌≡◌, ◌≢◌, ◌∙◌, sym, arith, word, lt→ltb}
use substra_tee_node_pre.Base.Outcome.{ok}
use substra_tee_node_pre.Registry.Config.{Trait}
use substra_tee_node_pre.Registry.{State}
use substra_tee_node_pre.Registry.Shapes.{updated, added, dropped_last, swapped}
use substra_tee_node_pre.Registry.Shards.{confirmed}
use substra_tee_node_pre.Registry.Invariant.{IsValid}
use substra_tee_node_pre.Registry.Dispatch.{Call, register, unregister, forward, confirm, dispatch}
use substra_tee_node_pre.Registry.Dispatch.Reach.{
  Res, Step, refused, renewed, entered, left_last, left_middle, passed_on, confirms, dispatch-Step,
}
use substra_tee_node_pre.Registry.Dispatch.History.{dispatch-IsValid}
use substra_tee_node_pre.Registry.Dispatch.Order.{AreOk, are_ok, effect, dispatch-effect}
use substra_tee_node_pre.Registry.Directory.{Directory, view}
use substra_tee_node_pre.Registry.Directory.Refinement.{
  spec_dispatch, has_room, dispatch-Implements,
}

module _ (T : Trait) where
  -- A call adds at most one to the count.
  Step-count : {s : State T} {r : Res T} → Step T s r → r.1.enclave_count ≤ s.enclave_count + 1
  unfolding updated added dropped_last swapped confirmed
  Step-count (refused ne same) = rw same (omega arith)
  Step-count (renewed i e h p) = rw p (omega arith)
  Step-count (entered e h room p) = rw p (omega arith)
  Step-count (left_last a h p) = rw p (omega arith)
  Step-count (left_middle a i e h at ne p) = rw p (omega arith)
  Step-count (passed_on request p) = rw p (omega arith)
  Step-count (confirms a i shard call_hash ipfs_hash h p) = rw p (omega arith)

  -- Whether a call of an account succeeds depends on its own entry and on the room.
  spec_ok :
      (room : Bool) (o : T.Origin) (a : T.AccountId) (c : Call T) (d e : Directory T)
      → T.ensure_signed o ≡ ok a
      → e a ≡ d a
      → (spec_dispatch T room o c d).0 ≡ ok tt
      → (spec_dispatch T true o c e).0 ≡ ok tt
  spec_ok room o a (register ra_report attn url) d e signed same h = ground arith
  spec_ok room o a unregister d e signed same h = ground arith
  spec_ok room o a (forward request) d e signed same h = ground arith
  spec_ok room o a (confirm shard call_hash ipfs_hash) d e signed same h = ground arith

  dispatch_ok :
      (s t : State T) (o : T.Origin) (a : T.AccountId) (c : Call T)
      → IsValid T s
      → IsValid T t
      → T.ensure_signed o ≡ ok a
      → t.enclave_count + 1 < word
      → view T t a ≡ view T s a
      → (dispatch T o c s).0 ≡ ok tt
      → (dispatch T o c t).0 ≡ ok tt
  dispatch_ok s t o a c v w signed room same h =
      let there =
        spec_ok (has_room T s) o a c (view T s) (view T t) signed same
          (sym (dispatch-Implements T s v o c).0 ∙ h) in
      let free : has_room T t ≡ true = lt→ltb _ _ room in
      (dispatch-Implements T t w o c).0 ∙ rw free there

  effect_other : (a b : T.AccountId) (c : Call T) (d : Directory T) → a ≢ b → effect T a c d b ≡ d b
  effect_other a b (register ra_report attn url) d ne = ground arith
  effect_other a b unregister d ne = ground arith
  effect_other a b (forward request) d ne = ground arith
  effect_other a b (confirm shard call_hash ipfs_hash) d ne = ground arith

  -- If there is room for two new accounts, then two calls of different accounts that return `Ok` in
  -- one order do so in the other.
  pub AreOk-swap :
      (s : State T) (o o' : T.Origin) (a b : T.AccountId) (c c' : Call T)
      → IsValid T s
      → T.ensure_signed o ≡ ok a
      → T.ensure_signed o' ≡ ok b
      → a ≢ b
      → s.enclave_count + 2 < word
      → AreOk T o c o' c' s
      → AreOk T o' c' o c s
  AreOk-swap s o o' a b c c' v signed signed' ne room (are_ok first second) =
      let t = (dispatch T o c s).1 in
      let t' = (dispatch T o' c' s).1 in
      let kept = dispatch-effect T s o a c v signed first b ∙ effect_other a b c (view T s) ne in
      let first' =
        dispatch_ok t s o' b c' (dispatch-IsValid T s o c v) v signed' (omega arith) (sym kept)
          second in
      let kept' =
        dispatch-effect T s o' b c' v signed' first' a
        ∙ effect_other b a c' (view T s) (λ e. ne (sym e)) in
      let grows = Step-count (dispatch-Step T s o' c' v) in
      are_ok first' (
        dispatch_ok s t' o a c v (dispatch-IsValid T s o' c' v) signed (omega (arith, grows)) kept'
          first)
