-- ===== src/Cli/Signals.antt =====
-- src/cli.rs: any number of interrupts.
use substra_tee_node_pre.Base.{
  ℕ, ◌≡◌, refl, Bool, true, false, List, [], ◌∷◌, none, some, subst, arith,
}
use substra_tee_node_pre.Base.Outcome.{ok}
use substra_tee_node_pre.Cli.{ExitCell, into_exit, on_signal, on_signals}

abbrev spent : ℕ → ExitCell
spent n = record { exit_send = none; borrowed = false; sent = n }

later_signals : (n : ℕ) (later : List Bool) → on_signals later (spent n) ≡ (ok tt, spent n)
unfolding on_signals on_signal
later_signals n [] = refl
later_signals n (waits ∷ later) = later_signals n later

-- If the handler has been set, and the exit future waits at the first interrupt, then after any later
-- ones, whether it waits then or not, it has been sent to once, and no handler has panicked.
pub on_signals_once :
    (handler_set : Bool) (cell : ExitCell)
    → into_exit handler_set ≡ ok cell
    → (later : List Bool)
    → on_signals (true ∷ later) cell
      ≡ (ok tt, record { exit_send = none; borrowed = false; sent = 1 })
unfolding on_signals on_signal into_exit
on_signals_once true cell set later =
    let same : record { exit_send = some tt; borrowed = false; sent = 0 } ≡ cell = ground arith in
    subst
      (λ c.
        on_signals (true ∷ later) c
        ≡ (ok tt, record { exit_send = none; borrowed = false; sent = 1 }))
      same (later_signals 1 later)
on_signals_once false cell set later = absurd (ground arith)
