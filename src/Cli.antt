-- ===== src/Cli.antt =====
-- src/cli.rs: running a node until it ends or is interrupted, and the handler of the interrupt.
pub mod Node
pub mod Running
pub mod Signals
pub mod Commands
mod Tests
use substra_tee_node_pre.Base.{
  ℕ, ◌+◌, Bool, true, false, Option, none, some, List, [], ◌∷◌, ◌++◌, String, if◌then◌else◌,
}
use substra_tee_node_pre.Base.Outcome.{Outcome, ok, err, fault, panic}
use substra_tee_node_pre.Base.Exec.{Exec, pure, lift, gets, modify, ◌>>=◌, ◌>>◌}
use substra_tee_node_pre.Cli.Node.{NodeLibs}

-- What the node does to the outside, in order.
pub data Effect : Type 0 where
  started_light started_full : Effect
  spawned_informant : Effect
  entered_exit : Effect
  fired_exit : Effect
  shut_down : Effect

-- Which of the two futures of `service.select(exit)` ends first, and whether without an error.
pub data First : Type 0 where
  service_ended : Option String → First
  exit_ended : Bool → First

abbrev pub select : First → Outcome (Unit {0})
select (service_ended none) = ok tt
select (service_ended (some e)) = err e
select (exit_ended true) = ok tt
select (exit_ended false) = err "Exit future failed."

abbrev pub effect : Effect → Exec (List Effect) (Unit {0})
effect e = modify (λ done. done ++ e ∷ [])

-- The cell that the handler of Ctrl-C shares, and how often the exit future was sent to.
pub record ExitCell : Type 0 where
  pub exit_send : Option (Unit {0})
  pub borrowed : Bool
  pub sent : ℕ

-- The `expect` panics unless `ctrlc::set_handler` has set the handler.
pub into_exit : (handler_set : Bool) → Outcome ExitCell
into_exit true = ok (record { exit_send = some tt; borrowed = false; sent = 0 })
into_exit false = fault panic

-- `exit` is how `e.into_exit()` ends.
pub run_until_exit : Outcome ExitCell → First → Exec (List Effect) (Unit {0})
run_until_exit exit first = do
  effect spawned_informant
  cell ← lift exit
  effect entered_exit
  let service_res = select first
  effect fired_exit
  effect shut_down
  lift service_res

module _ (L : NodeLibs) where
  -- The closure that `run` gives to the `run` command.
  pub run_node : L.Config → First → Exec (List Effect) (Unit {0})
  unfolding run_until_exit into_exit
  run_node config first = do
    lift L.new_runtime
    if L.is_light config
        then (do
          lift (L.new_light config)
          effect started_light
          run_until_exit (into_exit L.set_handler) first)
        else (do
          lift (L.new_full config)
          effect started_full
          run_until_exit (into_exit L.set_handler) first)

-- The closure of `ctrlc::set_handler`; the argument says whether the exit future is still there.
pub on_signal : Bool → Exec ExitCell (Unit {0})
on_signal receiver_waits = do
  borrowed ← gets (λ c. c.borrowed)
  lift (if borrowed then fault panic else ok tt)
  exit_send ← gets (λ c. c.exit_send)
  modify (λ c. record c { exit_send = none })
  elim exit_send [
    | none ↦ pure tt
    | some _ ↦
        if receiver_waits then modify (λ c. record c { sent = c.sent + 1 }) else lift (fault panic)
  ]

-- The handler at every signal, one after the other.
pub on_signals : List Bool → Exec ExitCell (Unit {0})
unfolding on_signal
on_signals [] = pure tt
on_signals (waits ∷ later) = on_signal waits >> on_signals later
