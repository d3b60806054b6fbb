-- ===== src/Examples/Node.antt =====
-- Crates for a node of which every part is the unit; a configuration is its four flags.
use substra_tee_node_pre.Base.{◌≡◌, refl, Bool, true, false, Option, some}
use substra_tee_node_pre.Base.Outcome.{Outcome, ok, err, fault, Fault}
use substra_tee_node_pre.Service.Crates.{ServiceCrates, Calls, called}

pub record Flags : Type 0 where
  pub is_authority : Bool
  pub sentry_mode : Bool
  pub force_authoring : Bool
  pub disable_grandpa : Bool

abbrev pub U : Type 0
U = Unit {0}

-- A builder that calls the closure, and stands or falls with it.
abbrev pub built : {S : Type 0} → Outcome U × S → Outcome U × S
built (ok q, s) = (ok tt, s)
built (err e, s) = (err e, s)
built (fault x, s) = (fault x, s)

pub built-Calls :
    {S : Type 0} (f : U → Option U → U → S → Outcome U × S) (s : S)
    → Calls f s (built (f tt (some tt) tt s))
built-Calls {S} f s =
    called tt (some tt) tt (state (f tt (some tt) tt s)) (succeeds (f tt (some tt) tt s))
      (faults (f tt (some tt) tt s))
  where
    state : (r : Outcome U × S) → (built r).1 ≡ r.1
    state (ok q, t) = refl
    state (err e, t) = refl
    state (fault x, t) = refl

    succeeds : (r : Outcome U × S) (b : U) → (built r).0 ≡ ok b → (q : U) × (r.0 ≡ ok q)
    succeeds (ok q, t) b h = (q, refl)
    succeeds (err e, t) b h = cc
    succeeds (fault x, t) b h = cc

    faults : (r : Outcome U × S) (x : Fault) → (built r).0 ≡ fault x → r.0 ≡ fault x
    faults (ok q, t) x h = cc
    faults (err e, t) x h = cc
    faults (fault y, t) x h = h

abbrev pub light_built : Outcome (U × U) → Outcome U
light_built (ok q) = ok tt
light_built (err e) = err e
light_built (fault x) = fault x

pub light_built-ok : (r : Outcome (U × U)) (b : U) → light_built r ≡ ok b → (q : U × U) × (r ≡ ok q)
light_built-ok (ok q) b h = (q, refl)
light_built-ok (err e) b h = cc
light_built-ok (fault x) b h = cc

abbrev pub service_crates : ServiceCrates
service_crates = record {
  Config = Flags;
  is_authority = λ c. c.is_authority;
  sentry_mode = λ c. c.sentry_mode;
  force_authoring = λ c. c.force_authoring;
  disable_grandpa = λ c. c.disable_grandpa;
  name = λ c. "node";
  Builder = U;
  Service = U;
  Client = U;
  SelectChain = U;
  Pool = U;
  Keystore = U;
  BlockImport = U;
  LinkHalf = U;
  Queue = U;
  SlotDuration = U;
  new_full = λ c. ok tt;
  with_select_chain = λ b. ok tt;
  with_transaction_pool = λ b. ok tt;
  with_import_queue = λ S f b s. built (f tt (some tt) tt s);
  with_import_queue-Calls = λ S f b s. built-Calls f s;
  with_network_protocol = λ b. ok tt;
  with_finality_proof_provider = λ b. ok tt;
  build = λ b. ok tt;
  client = λ s. tt;
  select_chain = λ s. some tt;
  keystore = λ s. tt;
  slot_duration = λ c. ok tt;
  import_queue = λ d b j f c p. ok tt;
  AuraTask = U;
  start_aura = λ d c l b s f k. ok tt;
  block_import = λ c l. ok (tt, tt);
  ObserverTask = U;
  run_grandpa_observer = λ c l s. ok tt;
  VoterTask = U;
  run_grandpa_voter = λ c l s. ok tt;
  setup_disabled_grandpa = λ c s. ok tt;
  Backend = U;
  Fetcher = U;
  Checker = U;
  checker = λ f. tt;
  ProofRequestBuilder = U;
  new_light = λ c. ok tt;
  light_block_import = λ c b f. ok tt;
  proof_request_builder = λ b. tt;
  client_of = λ b. tt;
  backend_of = λ b. tt;
  fetcher_of = λ b. some tt;
  put_queue = λ b q. tt;
  with_import_queue_and_fprb = λ f b. light_built (f tt tt (some tt));
  with_import_queue_and_fprb-ok =
      λ f b b' h. (let made = light_built-ok (f tt tt (some tt)) b' h in (made.0, made.1, refl));
}

-- A sentry: an authority that does not take part in consensus.
abbrev pub sentry : Flags
sentry = record {
  is_authority = true;
  sentry_mode = true;
  force_authoring = false;
  disable_grandpa = false;
}
