-- ===== src/Runtime/History.antt =====
-- runtime/src/lib.rs: the registry in a chain that starts from a genesis and goes on by calls of
-- the runtime's interface.
use mathlib.Core.List.{Memᴰ}
use substra_tee_node_pre.Base.{
  ℕ, ◌≡◌, ◌≢◌, refl, false, some, List, [], ◌∷◌, inl, inr, String, subst, sym,
}
use substra_tee_node_pre.Base.Outcome.{ok}
use substra_tee_node_pre.ChainSpec.{ChainSpec, GenesisConfig, load_spec}
use substra_tee_node_pre.Registry.Config.{Trait, Enclave}
use substra_tee_node_pre.Registry.{State}
use substra_tee_node_pre.Registry.Shapes.{enclave_at}
use substra_tee_node_pre.Registry.Directory.Provenance.{Attested, Reach-Attested}
use substra_tee_node_pre.Registry.Dispatch.History.{Reach, start, next, new_block}
use substra_tee_node_pre.Runtime.Modules.{runtime_modules, registry_configured}
use substra_tee_node_pre.Runtime.Substrate.{
  Primitives, registry_trait, Applied, done, skipped, dispatched, Crates,
}
use substra_tee_node_pre.Runtime.Root.{LeavesAsRoot, LeavesAsRoot-unchanged}
use substra_tee_node_pre.Runtime.{
  RuntimeCall, system, timestamp, grandpa, indices, balances, sudo, sudo_other, substratee_registry,
  randomness_collective_flip, dispatch_call, assembled, RuntimeApi, core_version, execute_block,
  initialize_block, metadata, apply_extrinsic, finalize_block, inherent_extrinsics, check_inherents,
  random_seed, validate_transaction, offchain_worker, aura_slot, authorities, generate_session_keys,
  grandpa_authorities, answer_api,
}

module _ {P : Primitives} (C : Crates P) where
  abbrev T : Trait
  T = registry_trait P

  -- A call in which `Sudo` lets root do nothing but call the registry.
  unfoldable pub IsUnprivileged : RuntimeCall C → Type 0
  IsUnprivileged (sudo c) = LeavesAsRoot C c
  IsUnprivileged _ = Unit {0}

  unfoldable pub IsOrdinary : RuntimeApi C → Type 0
  IsOrdinary (execute_block b) =
      (x : C.Extrinsic (RuntimeCall C)) → Memᴰ x (C.extrinsics b) → IsUnprivileged (C.function x)
  IsOrdinary (apply_extrinsic x) = IsUnprivileged (C.function x)
  IsOrdinary _ = Unit {0}

  -- The storages of a chain: that of the genesis of a chain that `load_spec` loads by its name, and
  -- what the calls of the interface leave.
  pub data Reached : C.Storage → Type 0 where
    built :
        (name : String) (spec : ChainSpec P.keys) (g : GenesisConfig P.keys) (s : C.Storage)
        → load_spec P.keys name ≡ ok (some spec)
        → spec.constructor tt ≡ ok g
        → C.build_storage (assembled C) g ≡ ok s
        → Reached s
    called :
        (api : RuntimeApi C) (s : C.Storage)
        → IsOrdinary api
        → Reached s
        → Reached (answer_api C api s).1

  same-Reach : {r s : State T} → r ≡ s → Reach T s → Reach T r
  same-Reach e = subst (Reach T) (sym e)

  dispatch_call-Reach :
      (c : RuntimeCall C) (o : P.Origin) (s : C.Storage)
      → IsUnprivileged c
      → o ≢ P.root
      → Reach T (C.registry s)
      → Reach T (C.registry (dispatch_call C c o s).1)
  unfolding dispatch_call IsUnprivileged
  dispatch_call-Reach (system x) o s u ne = same-Reach (C.dispatch_other-registry _ _ x o s ne)
  dispatch_call-Reach (timestamp x) o s u ne = same-Reach (C.dispatch_other-registry _ _ x o s ne)
  dispatch_call-Reach (grandpa x) o s u ne = same-Reach (C.dispatch_other-registry _ _ x o s ne)
  dispatch_call-Reach (indices x) o s u ne = same-Reach (C.dispatch_other-registry _ _ x o s ne)
  dispatch_call-Reach (balances x) o s u ne = same-Reach (C.dispatch_other-registry _ _ x o s ne)
  dispatch_call-Reach (sudo c) o s u ne = same-Reach ((LeavesAsRoot-unchanged C u).1 o s)
  dispatch_call-Reach (sudo_other x) o s u ne = same-Reach (C.dispatch_other-registry _ _ x o s ne)
  dispatch_call-Reach (substratee_registry c) o s u ne =
      λ r. same-Reach (C.registry-write_registry _ s) (next o c r)
  dispatch_call-Reach (randomness_collective_flip x) o s u ne =
      same-Reach (C.dispatch_other-registry _ _ x o s ne)

  only-IsUnprivileged :
      {x y : C.Extrinsic (RuntimeCall C)}
      → IsUnprivileged (C.function x)
      → Memᴰ y (x ∷ [])
      → IsUnprivileged (C.function y)
  only-IsUnprivileged u (Memᴰ.head e) = subst (λ z. IsUnprivileged (C.function z)) (sym e) u
  only-IsUnprivileged u (Memᴰ.tail i) = elim i [ ]

  Applied-Reach :
      {xs : List (C.Extrinsic (RuntimeCall C))} {r t : State T}
      → ((x : C.Extrinsic (RuntimeCall C)) → Memᴰ x xs → IsUnprivileged (C.function x))
      → Applied P.root C.registry C.function (dispatch_call C) xs r t
      → Reach T r
      → Reach T t
  Applied-Reach u (done r) reach = reach
  Applied-Reach u (skipped x xs r t a) reach = Applied-Reach (λ y i. u y (Memᴰ.tail i)) a reach
  Applied-Reach u (dispatched x xs o s t ne a) reach =
      Applied-Reach (λ y i. u y (Memᴰ.tail i)) a
        (dispatch_call-Reach (C.function x) o s (u x (Memᴰ.head refl)) ne reach)

  answer_api-Reach :
      (api : RuntimeApi C) (s : C.Storage)
      → IsOrdinary api
      → Reach T (C.registry s)
      → Reach T (C.registry (answer_api C api s).1)
  unfolding answer_api IsOrdinary
  answer_api-Reach (execute_block b) s u r = elim (C.execute_block-Applied (assembled C) b s) [
    | inl same ↦ same-Reach same r
    | inr applied ↦ Applied-Reach u applied (new_block r)
  ]
  answer_api-Reach (apply_extrinsic x) s u r =
      Applied-Reach (λ y i. only-IsUnprivileged u i) (C.apply_extrinsic-Applied (assembled C) x s) r
  answer_api-Reach (initialize_block h) s u r =
      same-Reach (C.initialize_block-registry (assembled C) h s) (new_block r)
  answer_api-Reach finalize_block s u r = same-Reach (C.finalize_block-registry (assembled C) s) r
  answer_api-Reach (validate_transaction tx) s u r =
      same-Reach (C.validate_transaction-registry (assembled C) tx s) r
  answer_api-Reach (offchain_worker n) s u r =
      same-Reach (C.offchain_worker-registry (assembled C) n s) r
  answer_api-Reach core_version s u r = r
  answer_api-Reach metadata s u r = r
  answer_api-Reach (inherent_extrinsics d) s u r = r
  answer_api-Reach (check_inherents b d) s u r = r
  answer_api-Reach random_seed s u r = r
  answer_api-Reach aura_slot s u r = r
  answer_api-Reach authorities s u r = r
  answer_api-Reach (generate_session_keys seed) s u r = r
  answer_api-Reach grandpa_authorities s u r = r

  not_configured : registry_configured runtime_modules ≡ false
  unfolding runtime_modules registry_configured
  not_configured = refl

  -- In a chain that starts from the genesis of a chain that `load_spec` loads by its name, and goes
  -- on by calls of the runtime's interface, in which `Sudo` proposes nothing but calls of the
  -- registry or such proposals, the storage of the registry is one that calls of the pallet, in
  -- blocks, lead to from the empty one.
  pub Reached-Reach : {s : C.Storage} → Reached s → Reach T (C.registry s)
  Reached-Reach (built name spec g s loaded made e) =
      same-Reach (C.build_storage-registry (assembled C) g s not_configured e) start
  Reached-Reach (called api s u r) = answer_api-Reach api s u (Reached-Reach r)

  -- Every enclave in the registry of a chain that starts from the genesis of a chain that
  -- `load_spec` loads by its name, and goes on by calls of the runtime's interface, in which `Sudo`
  -- proposes nothing but calls of the registry or such proposals, was registered by its own account
  -- with a certificate that the host accepts for the account, which has not unregistered since, and
  -- it is what the certificate and the call say.
  pub Reached-Attested :
      {s : C.Storage} (r : Reached s) (i : ℕ) (e : Enclave P.AccountId)
      → enclave_at T (C.registry s) i ≡ some e
      → Attested T (Reached-Reach r) e
  Reached-Attested r = Reach-Attested T (Reached-Reach r)
