-- ===== src/Runtime/Root.antt =====
-- runtime/src/lib.rs: the calls of the runtime that root sends.
use substra_tee_node_pre.Base.{◌≡◌, ◌≢◌, refl, ◌∙◌, String, inl, inr}
use substra_tee_node_pre.Base.Outcome.{
  ok, err, fault, Fault, Outcome-Ends, returned, failed, faulted,
}
use substra_tee_node_pre.Registry.Config.{Trait}
use substra_tee_node_pre.Registry.{
  State, register_enclave, unregister_enclave, call_worker, confirm_call,
}
use substra_tee_node_pre.Registry.Dispatch.{
  Call as RegistryCall, register, unregister, forward, confirm, dispatch as dispatch_registry,
}
use substra_tee_node_pre.Runtime.Substrate.{Primitives, registry_trait, Crates}
use substra_tee_node_pre.Runtime.{RuntimeCall, sudo, substratee_registry, dispatch_call}

module _ (T : Trait) (o : T.Origin) (s : State T) where
  refused_unchanged :
      (c : RegistryCall T) (message : String)
      → T.ensure_signed o ≡ err message
      → (dispatch_registry T o c s).1 ≡ s
  unfolding dispatch_registry register_enclave unregister_enclave call_worker confirm_call
  refused_unchanged (register ra_report attn url) m e = rw e refl
  refused_unchanged unregister m e = rw e refl
  refused_unchanged (forward request) m e = rw e refl
  refused_unchanged (confirm shard call_hash ipfs_hash) m e = rw e refl

  faulted_unchanged :
      (c : RegistryCall T) (x : Fault)
      → T.ensure_signed o ≡ fault x
      → (dispatch_registry T o c s).1 ≡ s
  unfolding dispatch_registry register_enclave unregister_enclave call_worker confirm_call
  faulted_unchanged (register ra_report attn url) x e = rw e refl
  faulted_unchanged unregister x e = rw e refl
  faulted_unchanged (forward request) x e = rw e refl
  faulted_unchanged (confirm shard call_hash ipfs_hash) x e = rw e refl

  -- A call of the registry that nobody has signed changes nothing.
  pub unsigned_unchanged :
      (c : RegistryCall T)
      → ((a : T.AccountId) → T.ensure_signed o ≢ ok a)
      → (dispatch_registry T o c s).1 ≡ s
  unsigned_unchanged c h = elim (Outcome-Ends (T.ensure_signed o)) [
    | returned a e ↦ absurd (h a e)
    | failed m e ↦ refused_unchanged c m e
    | faulted x e ↦ faulted_unchanged c x e
  ]

module _ {P : Primitives} (C : Crates P) where
  -- A call that leaves the registry as it is when root sends it.
  pub data LeavesAsRoot : RuntimeCall C → Type 0 where
    registry_call : (c : RegistryCall (registry_trait P)) → LeavesAsRoot (substratee_registry c)
    proposal : {c : RuntimeCall C} → LeavesAsRoot c → LeavesAsRoot (sudo c)

  unchanged_as_root :
      {c : RuntimeCall C}
      → LeavesAsRoot c
      → (s : C.Storage) → C.registry (dispatch_call C c P.root s).1 ≡ C.registry s
  unfolding dispatch_call
  unchanged_as_root (registry_call c) s =
      C.registry-write_registry _ s
      ∙ unsigned_unchanged (registry_trait P) P.root (C.registry s) c P.ensure_signed-root
  unchanged_as_root (proposal {c} l) s = elim (C.sudo-registry (dispatch_call C c) P.root s) [
    | inl same ↦ same
    | inr (t, before, after) ↦ after ∙ unchanged_as_root l t ∙ before
  ]

  -- A call of the registry, or a proposal of such a call or of such a proposal, leaves the storage of
  -- the registry as it is where root sends it, and where anyone at all, the sudo key too, sends it
  -- as the proposal of a call of `Sudo`.
  pub LeavesAsRoot-unchanged :
      {c : RuntimeCall C}
      → LeavesAsRoot c
      → ((s : C.Storage) → C.registry (dispatch_call C c P.root s).1 ≡ C.registry s)
        × ((o : P.Origin) (s : C.Storage)
            → C.registry (dispatch_call C (sudo c) o s).1 ≡ C.registry s)
  unfolding dispatch_call
  LeavesAsRoot-unchanged {c} l = (
    unchanged_as_root l,
    λ o s. elim (C.sudo-registry (dispatch_call C c) o s) [
      | inl same ↦ same
      | inr (t, before, after) ↦ after ∙ unchanged_as_root l t ∙ before
    ],
  )
