-- ===== src/Service/Setup.antt =====
-- src/service.rs: what `new_full_start!` leaves behind, and the `expect` that relies on it.
use substra_tee_node_pre.Base.{◌≡◌, ◌≢◌, ◌∙◌, refl, sym, ap, Option, none, [], String, arith}
use substra_tee_node_pre.Base.Outcome.{
  Outcome, ok, err, fault, Fault, returned, failed, faulted, Outcome-Ends, some_of,
}
use substra_tee_node_pre.Base.Exec.{lift->>=_cases}
use substra_tee_node_pre.Service.Crates.{ServiceCrates, Calls, uncalled, called}
use substra_tee_node_pre.Service.{
  Progress, fresh, import_queue, new_full_start, finish_full, new_full,
}

module _ (C : ServiceCrates) where
  import_queue-started :
      (client : C.Client) (chain : Option C.SelectChain) (pool : C.Pool) (p : Progress C)
      → (import_queue C client chain pool p).1.started ≡ p.started
  unfolding import_queue
  import_queue-started client chain pool p = ground arith

  import_queue-setup :
      (client : C.Client) (chain : Option C.SelectChain) (pool : C.Pool) (p : Progress C)
      (q : C.Queue)
      → (import_queue C client chain pool p).0 ≡ ok q
      → (import_queue C client chain pool p).1.import_setup ≢ none
  unfolding import_queue
  import_queue-setup client chain pool p q h e = ground arith

  -- A start that succeeds has set `import_setup`, and no start spawns a task.
  pub record Begun (p : Progress C) (r : Outcome C.Builder × Progress C) : Type 0 where
    pub unspawned : r.1.started ≡ p.started
    pub set_up : (b : C.Builder) → r.0 ≡ ok b → r.1.import_setup ≢ none

  err-Begun : (p : Progress C) (e : String) → Begun p (err e, p)
  err-Begun p e = record { unspawned = refl; set_up = λ b h. cc }

  fault-Begun : (p : Progress C) (x : Fault) → Begun p (fault x, p)
  fault-Begun p x = record { unspawned = refl; set_up = λ b h. cc }

  Calls-Begun :
      (p : Progress C) (r : Outcome C.Builder × Progress C) → Calls (import_queue C) p r → Begun p r
  Calls-Begun p r (uncalled fails calm same) = record {
    unspawned = ap (λ q. q.started) same;
    set_up = λ b e. absurd (fails b e);
  }
  Calls-Begun p r (called client chain pool same succeeds faults) = record {
    unspawned = ap (λ q. q.started) same ∙ import_queue-started client chain pool p;
    set_up = λ b e none_set.
        let (q, made) = succeeds b e in
        import_queue-setup client chain pool p q made
          (sym (ap (λ q. q.import_setup) same) ∙ none_set);
  }

  pub new_full_start-Begun :
      (config : C.Config) (p : Progress C) → Begun p (new_full_start C config p)
  unfolding new_full_start
  new_full_start-Begun config p = search (
    lift->>=_cases (Begun p),
    err-Begun p,
    fault-Begun p,
    λ (b : C.Builder).
        Calls-Begun p _ (C.with_import_queue-Calls (Progress C) (import_queue C) b p),
  )

  -- The ends of `new_full`: those of `new_full_start!`, and else `finish_full`.
  pub data NewFull (config : C.Config) (r : Outcome C.Service × Progress C) : Type 0 where
    stopped : (p : Progress C) → p.started ≡ [] → (e : String) → r ≡ (err e, p) → NewFull config r
    faulty : (p : Progress C) → p.started ≡ [] → (x : Fault) → r ≡ (fault x, p) → NewFull config r
    goes :
        (p : Progress C)
        → p.started ≡ []
        → (builder : C.Builder) (block_import : C.BlockImport) (link : C.LinkHalf)
        → r ≡ finish_full C config builder block_import link p
        → NewFull config r

  -- The `expect` never fails: when `new_full_start!` succeeds, `import_setup` has been set, and
  -- `new_full` goes on with it.
  pub new_full_start-finish_full :
      (config : C.Config) (builder : C.Builder)
      → (new_full_start C config (fresh C)).0 ≡ ok builder
      → (setup : C.BlockImport × C.LinkHalf) × (new_full C config (fresh C)
          ≡ finish_full C config builder setup.0 setup.1
              (record (new_full_start C config (fresh C)).1 { import_setup = none }))
  unfolding new_full
  new_full_start-finish_full config builder h =
      let begun = new_full_start-Begun config (fresh C) in
      let (setup, set) =
        some_of (new_full_start C config (fresh C)).1.import_setup (begun.set_up builder h) in
      (setup, ground arith)

  pub new_full_cases : (config : C.Config) → NewFull config (new_full C config (fresh C))
  unfolding new_full
  new_full_cases config =
      let r = new_full_start C config (fresh C) in
      let begun = new_full_start-Begun config (fresh C) in
      elim (Outcome-Ends r.0) [
        | failed e h ↦ stopped r.1 begun.unspawned e (ground arith)
        | faulted x h ↦ faulty r.1 begun.unspawned x (ground arith)
        | returned b h ↦
            let (setup, goes_on) = new_full_start-finish_full config b h in
            goes (record r.1 { import_setup = none }) begun.unspawned b setup.0 setup.1 goes_on
      ]
