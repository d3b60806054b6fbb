-- ===== src/Service/Tasks/Ends.antt =====
-- src/service.rs: the tasks of a full client, by the flags of its configuration.
use mathlib.Core.List.{append-nil, map-append}
use substra_tee_node_pre.Base.{
  ◌≡◌, ◌≢◌, refl, sym, subst, false, none, List, [], ◌∷◌, ◌++◌, map, String, arith, Bool-cases, inl,
  inr, if◌then◌else◌,
}
use substra_tee_node_pre.Base.Outcome.{Outcome, ok, err, fault, Fault}
use substra_tee_node_pre.Base.Exec.{Exec, lift->>=_cases, pure, ◌>>◌}
use substra_tee_node_pre.Service.Crates.{ServiceCrates}
use substra_tee_node_pre.Service.{
  Progress, Started, fresh, participates_in_consensus, start_authoring, start_grandpa,
  grandpa_config, finish_full, new_full,
}
use substra_tee_node_pre.Service.Setup.{stopped, faulty, goes, new_full_cases}
use substra_tee_node_pre.Service.Tasks.{
  Kind, authors, finality, kind_of, keystore_of, expected_kinds, Made, StartsOne_cases,
  start_authoring-StartsOne, start_grandpa-StartsOne,
}

module _ (C : ServiceCrates) where
  -- No task of the list has a key store.
  abbrev pub Keyless : List (Started C) → Type 0
  Keyless [] = Unit
  Keyless (t ∷ ts) = (keystore_of C t ≡ none) × Keyless ts

  Keyless-append :
      (ts : List (Started C)) (t : Started C)
      → Keyless ts
      → keystore_of C t ≡ none
      → Keyless (ts ++ t ∷ [])
  Keyless-append [] t h k = (k, tt)
  Keyless-append (u ∷ ts) t (h, hs) k = (h, Keyless-append ts t hs k)

  -- The tasks so far are the first of those that the configuration asks for, all of them if the
  -- service has been returned, and none has a key store unless the node takes part in consensus.
  pub record RunsAsConfigured (config : C.Config) (r : Outcome C.Service × Progress C)
      : Type 0 where
    pub missing : List Kind
    pub in_order : map (kind_of C) r.1.started ++ missing ≡ expected_kinds C config
    pub complete : (service : C.Service) → r.0 ≡ ok service → missing ≡ []
    pub keyless : participates_in_consensus C config ≡ false → Keyless r.1.started

  module _ (config : C.Config) where
    -- The progress when it is GRANDPA's turn.
    record Authored (p : Progress C) : Type 0 where
      kinds : map (kind_of C) p.started ≡ authors (C.is_authority config) (C.sentry_mode config)
      keyless : participates_in_consensus C config ≡ false → Keyless p.started

    halted :
        (p : Progress C) (o : Outcome C.Service)
        → Authored p
        → ((service : C.Service) → o ≢ ok service)
        → RunsAsConfigured config (o, p)
    halted p o a ne = record {
      missing = finality (C.is_authority config) (C.disable_grandpa config) ∷ [];
      in_order = rw a.kinds;
      complete = λ service e. absurd (ne service e);
      keyless = a.keyless;
    }

    unstarted :
        (p : Progress C) (o : Outcome C.Service)
        → p.started ≡ []
        → ((service : C.Service) → o ≢ ok service)
        → RunsAsConfigured config (o, p)
    unstarted p o none_yet ne = record {
      missing = expected_kinds C config;
      in_order = rw none_yet;
      complete = λ service e. absurd (ne service e);
      keyless = λ h. rw none_yet tt;
    }

    finished :
        (p : Progress C) (service : C.Service) (t : Started C)
        → Authored p
        → Made C
            (finality (C.is_authority config) (C.disable_grandpa config))
            (grandpa_config C config service).keystore
            t
        → RunsAsConfigured config (ok service, record p { started = p.started ++ t ∷ [] })
    finished p service t a (kind, key) = record {
      missing = [];
      in_order = simp (append-nil, map-append, a.kinds, kind);
      complete = λ _ _. refl;
      keyless = λ h. Keyless-append p.started t (a.keyless h) (ground arith);
    }

    grandpa_end :
        (p : Progress C) (service : C.Service) (link : C.LinkHalf)
        → Authored p
        → RunsAsConfigured config (
            (start_grandpa C
                  (C.is_authority config)
                  (C.disable_grandpa config)
                  (grandpa_config C config service)
                  service
                  link
                >> pure service)
              p)
    grandpa_end p service link a =
        StartsOne_cases C (RunsAsConfigured config) _
          (start_grandpa C (C.is_authority config) (C.disable_grandpa config)
            (grandpa_config C config service) service link)
          (pure service) p
          (start_grandpa-StartsOne C config service p (C.is_authority config)
            (C.disable_grandpa config) (grandpa_config C config service) link)
          (λ e. halted p (err e) a (λ _ h. cc)) (λ x. halted p (fault x) a (λ _ h. cc))
          (λ t m. finished p service t a m)

    authoring_end :
        (p : Progress C) (service : C.Service) (block_import : C.BlockImport)
        (k : Exec (Progress C) C.Service)
        → p.started ≡ []
        → ((q : Progress C) → Authored q → RunsAsConfigured config (k q))
        → RunsAsConfigured config (
            ((if participates_in_consensus C config
                  then start_authoring C config service block_import
                  else pure tt)
                >> k)
              p)
    authoring_end p service block_import k none_yet rest =
        elim (Bool-cases (participates_in_consensus C config)) [
          | inr out ↦ rw out (
              rest p (record { kinds = rw none_yet (ground arith); keyless = λ _. rw none_yet tt }))
          | inl in_it ↦ rw in_it (
              StartsOne_cases C (RunsAsConfigured config) _
                (start_authoring C config service block_import) k p
                (start_authoring-StartsOne C config service p block_import)
                (λ e. unstarted p (err e) none_yet (λ _ h. cc))
                (λ x. unstarted p (fault x) none_yet (λ _ h. cc))
                (λ t m.
                  rest (record p { started = p.started ++ t ∷ [] })
                    (record { kinds = rw (none_yet, m.0) (ground arith); keyless = λ h. cc })))
        ]

    pub finish_full-RunsAsConfigured :
        (p : Progress C) (builder : C.Builder) (block_import : C.BlockImport) (link : C.LinkHalf)
        → p.started ≡ []
        → RunsAsConfigured config (finish_full C config builder block_import link p)
    unfolding finish_full
    finish_full-RunsAsConfigured p builder block_import link none_yet = search (
      lift->>=_cases (RunsAsConfigured config),
      λ (e : String). unstarted p (err e) none_yet (λ _ h. cc),
      λ (x : Fault). unstarted p (fault x) none_yet (λ _ h. cc),
      λ (service : C.Service).
          authoring_end p service block_import _ none_yet (λ q a. grandpa_end q service link a),
    )

    -- Whatever way `new_full` ends, it has started the first of the tasks that the configuration asks
    -- for, in order: the authoring task of an authority that is no sentry, then the GRANDPA voter of
    -- an authority or the observer of another node, or none if GRANDPA is disabled. It has started
    -- all of them if it returns the service, and none that has the key store unless the node is an
    -- authority and no sentry.
    pub new_full-RunsAsConfigured : RunsAsConfigured config (new_full C config (fresh C))
    new_full-RunsAsConfigured = elim (new_full_cases C config) [
      | stopped p none_yet e h ↦
          subst (RunsAsConfigured config) (sym h) (unstarted p (err e) none_yet (λ _ q. cc))
      | faulty p none_yet x h ↦
          subst (RunsAsConfigured config) (sym h) (unstarted p (fault x) none_yet (λ _ q. cc))
      | goes p none_yet builder block_import link h ↦
          subst (RunsAsConfigured config) (sym h)
            (finish_full-RunsAsConfigured p builder block_import link none_yet)
    ]
