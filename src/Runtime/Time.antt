-- ===== src/Runtime/Time.antt =====
-- runtime/src/lib.rs: the slots of Aura and the units of time.
use substra_tee_node_pre.Base.{ℕ, ◌*◌, ◌≡◌, arith}
use substra_tee_node_pre.Base.Outcome.{ok}
use substra_tee_node_pre.Runtime.Constants.{minutes, hours, days}
use substra_tee_node_pre.Runtime.Substrate.{Primitives, Crates}
use substra_tee_node_pre.Runtime.{aura_slot, answer_api}

-- With one block in each slot of the length that the runtime answers, the blocks of `MINUTES`,
-- `HOURS` and `DAYS` last a minute, an hour and a day of milliseconds.
pub slots_of_units :
    {P : Primitives} (C : Crates P) (s : C.Storage) (slot : ℕ)
    → (answer_api C aura_slot s).0 ≡ ok slot
    → (minutes * slot ≡ 60_000) × (hours * slot ≡ 60 * 60_000) × (days * slot ≡ 24 * 60 * 60_000)
unfolding answer_api
slots_of_units C s slot h =
    let doubled = C.aura_slot_duration-doubles 3000 in
    let same : slot ≡ 6000 = cc (h, doubled) in
    (omega (arith, same), omega (arith, same), omega (arith, same))
