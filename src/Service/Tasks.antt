-- ===== src/Service/Tasks.antt =====
-- src/service.rs: the kinds of a full client's tasks, and the steps that start one.
pub mod Ends
use substra_tee_node_pre.Base.{
  ◌≡◌, refl, sym, subst, Bool, true, false, Option, none, some, List, [], ◌∷◌, ◌++◌, String, arith,
  ◌⊎◌, inl, inr, if◌then◌else◌,
}
use substra_tee_node_pre.Base.Outcome.{Outcome, ok, err, fault, Fault}
use substra_tee_node_pre.Base.Exec.{Exec, lift->>=_cases, ◌>>◌, ◌>>=◌}
use substra_tee_node_pre.Service.Crates.{ServiceCrates, GrandpaConfig}
use substra_tee_node_pre.Service.{
  Progress, Started, essential_aura, observer, essential_voter, disabled_grandpa, start,
  start_authoring, start_grandpa,
}

pub data Kind : Type 0 where
  authoring observing voting no_finality : Kind

-- The kinds of tasks that a node runs, by whether it is an authority, is a sentry, and goes without
-- GRANDPA.
abbrev pub authors : (is_authority sentry : Bool) → List Kind
authors true false = authoring ∷ []
authors true true = []
authors false _ = []

abbrev pub finality : (is_authority disabled : Bool) → Kind
finality _ true = no_finality
finality true false = voting
finality false false = observing

module _ (C : ServiceCrates) where
  abbrev pub expected_kinds : C.Config → List Kind
  expected_kinds config =
      authors (C.is_authority config) (C.sentry_mode config)
      ++ finality (C.is_authority config) (C.disable_grandpa config) ∷ []

  abbrev pub kind_of : Started C → Kind
  kind_of (essential_aura force keystore task) = authoring
  kind_of (observer config task) = observing
  kind_of (essential_voter config task) = voting
  kind_of disabled_grandpa = no_finality

  -- The key store that a task was given.
  abbrev pub keystore_of : Started C → Option C.Keystore
  keystore_of (essential_aura force keystore task) = some keystore
  keystore_of (observer config task) = config.keystore
  keystore_of (essential_voter config task) = config.keystore
  keystore_of disabled_grandpa = none

  -- A step that fails and starts nothing, or starts one task.
  pub data StartsOne (p : Progress C) (K : Started C → Type 0) (r : Outcome (Unit {0}) × Progress C)
      : Type 0 where
    stops : (e : String) → r ≡ (err e, p) → StartsOne p K r
    faults : (x : Fault) → r ≡ (fault x, p) → StartsOne p K r
    starts :
        (t : Started C)
        → K t
        → r ≡ (ok tt, record p { started = p.started ++ t ∷ [] })
        → StartsOne p K r

  stopped : (p : Progress C) (K : Started C → Type 0) (e : String) → StartsOne p K (err e, p)
  stopped p K e = stops e refl

  faulty : (p : Progress C) (K : Started C → Type 0) (x : Fault) → StartsOne p K (fault x, p)
  faulty p K x = faults x refl

  pub StartsOne_cases :
      (P : Outcome C.Service × Progress C → Type 0) (K : Started C → Type 0)
      (m : Exec (Progress C) (Unit {0})) (k : Exec (Progress C) C.Service) (p : Progress C)
      → StartsOne p K (m p)
      → ((e : String) → P (err e, p))
      → ((x : Fault) → P (fault x, p))
      → ((t : Started C) → K t → P (k (record p { started = p.started ++ t ∷ [] })))
      → P ((m >> k) p)
  StartsOne_cases P K m k p (stops e h) f g goes =
      let end : (m >> k) p ≡ (err e, p) = ground arith in subst P (sym end) (f e)
  StartsOne_cases P K m k p (faults x h) f g goes =
      let end : (m >> k) p ≡ (fault x, p) = ground arith in subst P (sym end) (g x)
  StartsOne_cases P K m k p (starts t kt h) f g goes =
      let on : (m >> k) p ≡ k (record p { started = p.started ++ t ∷ [] }) = ground arith in
      subst P (sym on) (goes t kt)

  -- A task of a kind, which has a key store only where one was at hand.
  abbrev pub Made : Kind → Option C.Keystore → Started C → Type 0
  Made kind keystore t = (kind_of t ≡ kind) × ((keystore_of t ≡ none) ⊎ (keystore_of t ≡ keystore))

  made :
      (p : Progress C) (kind : Kind) (keystore : Option C.Keystore) (t : Started C)
      → Made kind keystore t
      → StartsOne p (Made kind keystore) (start C t p)
  made p kind keystore t h = starts t h refl

  module _ (config : C.Config) (service : C.Service) (p : Progress C) where
    pub start_authoring-StartsOne :
        (block_import : C.BlockImport)
        → StartsOne p
            (Made authoring (some (C.keystore service)))
            (start_authoring C config service block_import p)
    unfolding start_authoring
    start_authoring-StartsOne block_import = search (
      lift->>=_cases (StartsOne p (Made authoring (some (C.keystore service)))),
      stopped p (Made authoring (some (C.keystore service))),
      faulty p (Made authoring (some (C.keystore service))),
      λ (t : C.AuraTask).
          made p authoring (some (C.keystore service))
            (essential_aura (C.force_authoring config) (C.keystore service) t) (refl, inr refl),
    )

    pub start_grandpa-StartsOne :
        (is_authority disabled : Bool) (c : GrandpaConfig C.Keystore) (link : C.LinkHalf)
        → StartsOne p
            (Made (finality is_authority disabled) c.keystore)
            (start_grandpa C is_authority disabled c service link p)
    unfolding start_grandpa
    start_grandpa-StartsOne false false c link = search (
      lift->>=_cases (StartsOne p (Made observing c.keystore)),
      stopped p (Made observing c.keystore),
      faulty p (Made observing c.keystore),
      λ (t : C.ObserverTask). made p observing c.keystore (observer c t) (refl, inr refl),
    )
    start_grandpa-StartsOne true false c link = search (
      lift->>=_cases (StartsOne p (Made voting c.keystore)),
      stopped p (Made voting c.keystore),
      faulty p (Made voting c.keystore),
      λ (t : C.VoterTask). made p voting c.keystore (essential_voter c t) (refl, inr refl),
    )
    start_grandpa-StartsOne false true c link = search (
      lift->>=_cases (StartsOne p (Made no_finality c.keystore)),
      stopped p (Made no_finality c.keystore),
      faulty p (Made no_finality c.keystore),
      made p no_finality c.keystore disabled_grandpa (refl, inl refl),
    )
    start_grandpa-StartsOne true true c link = search (
      lift->>=_cases (StartsOne p (Made no_finality c.keystore)),
      stopped p (Made no_finality c.keystore),
      faulty p (Made no_finality c.keystore),
      made p no_finality c.keystore disabled_grandpa (refl, inl refl),
    )
