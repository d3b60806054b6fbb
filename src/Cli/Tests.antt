-- ===== src/Cli/Tests.antt =====
-- A node whose configuration says whether it is light, a program whose only command runs a sentry,
-- and three interrupts.
use substra_tee_node_pre.Base.{Bool, true, false, ◌≡◌, refl, inr, [], ◌∷◌, none, some}
use substra_tee_node_pre.Base.Outcome.{ok, err, void}
use substra_tee_node_pre.Cli.{exit_ended, run_node, on_signals, ExitCell, into_exit}
use substra_tee_node_pre.Cli.Node.{NodeLibs}
use substra_tee_node_pre.Cli.Running.{Ended, run_node-Ended}
use substra_tee_node_pre.Cli.Commands.{SubstrateCli, run_node_command}
use substra_tee_node_pre.Examples.Texts.{texts}
use substra_tee_node_pre.Examples.Node.{service_crates, sentry}
use substra_tee_node_pre.Cli.Signals.{on_signals_once}

abbrev node : NodeLibs
node = record {
  Config = Bool;
  is_light = λ b. b;
  new_runtime = ok tt;
  new_light = λ b. err "no light client";
  new_full = λ b. ok tt;
  set_handler = true;
}

run_node-Ended_example :
    Ended node false (exit_ended true) (run_node node false (exit_ended true) [])
run_node-Ended_example = run_node-Ended node false (exit_ended true)

abbrev cell : ExitCell
cell = record { exit_send = some tt; borrowed = false; sent = 0 }

handler_sets : into_exit true ≡ ok cell
unfolding into_exit
handler_sets = refl

on_signals_once_example :
    on_signals (true ∷ false ∷ true ∷ []) cell
    ≡ (ok tt, record { exit_send = none; borrowed = false; sent = 1 })
on_signals_once_example = on_signals_once true cell handler_sets (false ∷ true ∷ [])

-- A command line that runs one sentry, whatever its arguments.
abbrev cli : SubstrateCli texts service_crates
cli = record {
  Command = Unit {0};
  parse_and_prepare = λ v n args. run_node_command tt;
  is_light = λ c. false;
  new_runtime = ok tt;
  set_handler = true;
  run_prepared = λ c load f es. f sentry es;
  run_prepared-calls = λ c load f es. inr (sentry, refl);
  run_build_spec = λ c load. ok tt;
  run_purge_chain = λ c load. ok tt;
  run_with_builder = λ c f load. void (f sentry);
}
