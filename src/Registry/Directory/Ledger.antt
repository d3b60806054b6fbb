-- ===== src/Registry/Directory/Ledger.antt =====
-- runtime/src/substratee_registry.rs: the directory of the registry as a quotient. A ledger is a
-- valid storage of which only the directory counts: the indices, the hashes and workers of shards and
-- the events are forgotten. The calls and the lookup are functions on it.
use mathlib.Core.HLevel.{hedberg, prop→set}
use text.Mathlib.TextEquality.{IsScalar-prop}
use mathlib.Core.Quot
use mathlib.Core.Quot.{Quot, Quot-set}
use substra_tee_node_pre.Base.{ℕ, ◌+◌, ◌<◌, ◌≡◌, ◌≢◌, sym, word, Option}
use substra_tee_node_pre.Base.Outcome.{Outcome, ok}
use substra_tee_node_pre.Registry.Config.{Trait, Enclave}
use substra_tee_node_pre.Registry.{State}
use substra_tee_node_pre.Registry.Invariant.{IsValid}
use substra_tee_node_pre.Registry.Dispatch.{Call, dispatch}
use substra_tee_node_pre.Registry.Dispatch.History.{dispatch-IsValid}
use substra_tee_node_pre.Registry.Dispatch.Order.{are_ok, both_swap}
use substra_tee_node_pre.Registry.Directory.{view}
use substra_tee_node_pre.Registry.Directory.Abstract.{
  SameDirectory, enclave_count-SameDirectory, dispatch-SameDirectory,
}
use substra_tee_node_pre.Registry.Directory.Swap.{AreOk-swap}

module _ (T : Trait) where
  abbrev pub Valid : Type 0
  Valid = (s : State T) × IsValid T s

  abbrev pub Ledger : Type 0
  Ledger = Quot {α = Valid} (λ s t. SameDirectory T s.0 t.0)

  abbrev pub ledger : Valid → Ledger
  ledger = Quot.mk

  abbrev pub account_set : IsSet T.AccountId
  account_set = hedberg T.account_eq

  abbrev pub found_set : IsSet (Option (Enclave T.AccountId))
  found_set = hlevel account_set

  abbrev pub outcome_set : IsSet (Outcome (Unit {0}))
  outcome_set = hlevel (λ (n : ℕ). prop→set (IsScalar-prop n))

  unfoldable pub find : T.AccountId → Ledger → Option (Enclave T.AccountId)
  find a = Quot.lift found_set (λ s. view T s.0 a) λ s t same. same a

  abbrev pub after : T.Origin → Call T → Valid → Valid
  after o c s = ((dispatch T o c s.0).1, dispatch-IsValid T s.0 o c s.1)

  -- How many enclaves there are.
  unfoldable pub size : Ledger → ℕ
  size =
      Quot.lift (hlevel) (λ s. s.0.enclave_count)
        λ s t same. sym (enclave_count-SameDirectory T s.0 t.0 s.1 t.1 same)

  unfoldable pub call : T.Origin → Call T → Ledger → Outcome (Unit {0}) × Ledger
  call o c =
      Quot.lift (hlevel (outcome_set, Quot-set))
        (λ s. ((dispatch T o c s.0).0, ledger (after o c s)))
        λ s t same.
          let (ends, left) = dispatch-SameDirectory T s.0 t.0 s.1 t.1 same o c in
          λ i. (ends i, Quot.sound {a = after o c s} {b = after o c t} left i)

  -- A ledger is what it finds.
  ext : (x y : Ledger) → ((a : T.AccountId) → find a x ≡ find a y) → x ≡ y
  unfolding find
  ext = Quot.ind (λ _. hlevel Quot-set) λ s. Quot.ind (λ _. hlevel Quot-set) λ t. Quot.sound

  -- Two calls that return `Ok` one after the other.
  abbrev pub BothOk : T.Origin → Call T → T.Origin → Call T → Ledger → Type 0
  BothOk o c o' c' x = ((call o c x).0 ≡ ok tt) × ((call o' c' (call o c x).1).0 ≡ ok tt)

  BothOk-swap :
      (o o' : T.Origin) (a b : T.AccountId) (c c' : Call T)
      → T.ensure_signed o ≡ ok a
      → T.ensure_signed o' ≡ ok b
      → a ≢ b
      → (x : Ledger) → size x + 2 < word
      → BothOk o c o' c' x
      → BothOk o' c' o c x
  unfolding call size
  BothOk-swap o o' a b c c' signed signed' ne =
      Quot.ind (λ _. hlevel outcome_set)
        λ s room forth.
          elim (AreOk-swap T s.0 o o' a b c c' s.1 signed signed' ne room
            (are_ok forth.0 forth.1)) [ are_ok first second ↦ (first, second) ]

  same_ledger :
      (o o' : T.Origin) (a b : T.AccountId) (c c' : Call T)
      → T.ensure_signed o ≡ ok a
      → T.ensure_signed o' ≡ ok b
      → a ≢ b
      → (x : Ledger) → BothOk o c o' c' x
      → BothOk o' c' o c x
      → (call o' c' (call o c x).1).1 ≡ (call o c (call o' c' x).1).1
  unfolding call find
  same_ledger o o' a b c c' signed signed' ne =
      Quot.ind (λ _. hlevel Quot-set)
        λ s forth back. ext _ _ (
          both_swap T s.0 o o' a b c c' s.1 signed signed' ne (are_ok forth.0 forth.1)
            (are_ok back.0 back.1))

  -- A ledger is a valid registry of which only the directory counts, not the indices, the shards and
  -- the events. If there is room for two more enclaves on a ledger, and one call of each of two
  -- different accounts, one after the other, returns `Ok` both times, then so they do in the other
  -- order, and the ledger is then the same.
  pub call_swap :
      (o o' : T.Origin) (a b : T.AccountId) (c c' : Call T)
      → T.ensure_signed o ≡ ok a
      → T.ensure_signed o' ≡ ok b
      → a ≢ b
      → (x : Ledger) → size x + 2 < word
      → BothOk o c o' c' x
      → BothOk o' c' o c x × ((call o' c' (call o c x).1).1 ≡ (call o c (call o' c' x).1).1)
  call_swap o o' a b c c' signed signed' ne x room forth =
      let back = BothOk-swap o o' a b c c' signed signed' ne x room forth in
      (back, same_ledger o o' a b c c' signed signed' ne x forth back)
