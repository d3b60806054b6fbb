-- ===== src/Cli/Running.antt =====
-- src/cli.rs: what running a node does, on every way through.
use substra_tee_node_pre.Base.{
  ◌≡◌, ◌≢◌, refl, true, false, Bool-cases, inl, inr, List, [], ◌∷◌, arith, if◌then◌else◌,
}
use substra_tee_node_pre.Base.Outcome.{
  Outcome, ok, fault, panic, Outcome-Ends, returned, failed, faulted,
}
use substra_tee_node_pre.Cli.{
  Effect, started_light, started_full, spawned_informant, entered_exit, fired_exit, shut_down,
  First, select, into_exit, run_until_exit, run_node,
}
use substra_tee_node_pre.Cli.Node.{NodeLibs}

module _ (L : NodeLibs) where
  -- The service of a configuration, and how making it ends.
  abbrev pub service_of : L.Config → Effect
  service_of config = if L.is_light config then started_light else started_full

  abbrev pub new_service : L.Config → Outcome (Unit {0})
  new_service config = if L.is_light config then L.new_light config else L.new_full config

  -- How a run ends: nothing was started; or the service of the configuration was started, but not
  -- the handler of Ctrl-C, and the run panics; or the service ran and was shut down.
  pub data Ended (config : L.Config) (first : First) (r : Outcome (Unit {0}) × List Effect)
      : Type 0 where
    unstarted : r.0 ≢ ok tt → r.1 ≡ [] → Ended config first r
    without_handler :
        L.new_runtime ≡ ok tt
        → new_service config ≡ ok tt
        → L.set_handler ≡ false
        → r.0 ≡ fault panic
        → r.1 ≡ service_of config ∷ spawned_informant ∷ []
        → Ended config first r
    ran :
        L.new_runtime ≡ ok tt
        → new_service config ≡ ok tt
        → L.set_handler ≡ true
        → r.0 ≡ select first
        → r.1 ≡ service_of config ∷ spawned_informant ∷ entered_exit ∷ fired_exit ∷ shut_down ∷ []
        → Ended config first r

  -- A run either fails and starts nothing, or it starts the one service of its configuration. Then,
  -- if the handler of Ctrl-C cannot be set, it panics, and neither fires the exit signal nor shuts
  -- the runtime down. If it can, then, whichever of the service and the exit ends first and however,
  -- the run fires the exit signal, shuts the runtime down and returns what ended first.
  pub run_node-Ended :
      (config : L.Config) (first : First) → Ended config first (run_node L config first [])
  unfolding run_node run_until_exit into_exit
  run_node-Ended config first = elim (Outcome-Ends L.new_runtime) [
    | failed x h ↦ rw h (unstarted (λ p. cc) refl)
    | faulted x h ↦ rw h (unstarted (λ p. cc) refl)
    | returned _ h ↦ elim (Outcome-Ends (new_service config)) [
      | failed x g ↦ unstarted (λ p. ground arith) (ground arith)
      | faulted x g ↦ unstarted (λ p. ground arith) (ground arith)
      | returned _ g ↦ elim (Bool-cases L.set_handler) [
        | inl set ↦ ran h g set (ground arith) (ground arith)
        | inr unset ↦ without_handler h g unset (ground arith) (ground arith)
      ]
    ]
  ]
