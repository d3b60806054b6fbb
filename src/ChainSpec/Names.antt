-- ===== src/ChainSpec/Names.antt =====
-- src/chain_spec.rs and src/cli.rs: the names of the chains.
use text.Mathlib.Text.{◌==◌ as str_eq}
use text.Mathlib.TextEquality.{eq_iff}
use substra_tee_node_pre.Base.{
  ◌≡◌, ◌↔◌, refl, some, String, arith, Bool-cases, Option-cases, subst, inl, inr,
}
use substra_tee_node_pre.Base.Outcome.{ok}
use substra_tee_node_pre.ChainSpec.{
  Alternative, development, local_testnet, from, load, load_spec, ChainSpec,
}
use substra_tee_node_pre.ChainSpec.Primitives.{Keys}

-- The names of a chain on the command line.
pub data Names (s : String) : Alternative → Type 0 where
  dev : s ≡ "dev" → Names s development
  default : s ≡ "" → Names s local_testnet
  local : s ≡ "local" → Names s local_testnet

from-Names : (s : String) (a : Alternative) → from s ≡ some a → Names s a
unfolding from
from-Names s a h = elim (Bool-cases (str_eq s "dev")) [
  | inl e ↦ subst (Names s) (ground arith) (dev ((eq_iff s "dev").0 e))
  | inr e ↦ elim (Bool-cases (str_eq s "")) [
    | inl f ↦ subst (Names s) (ground arith) (default ((eq_iff s "").0 f))
    | inr f ↦ elim (Bool-cases (str_eq s "local")) [
      | inl g ↦ subst (Names s) (ground arith) (local ((eq_iff s "local").0 g))
      | inr g ↦ absurd (ground arith)
    ]
  ]
]

Names-from : (s : String) (a : Alternative) → Names s a → from s ≡ some a
unfolding from
Names-from s _ (dev e) = rw e refl
Names-from s _ (default e) = rw e refl
Names-from s _ (local e) = rw e refl

module _ (K : Keys) where
  load_Total : (a : Alternative) → (spec : ChainSpec K) × (load K a ≡ ok spec)
  unfolding load
  load_Total development = (_, refl)
  load_Total local_testnet = (_, refl)

  -- A specification is loaded exactly for the names of its chain: "dev" for the development chain,
  -- "local" and the empty text for the local testnet.
  pub load_spec_lem :
      (id : String) (spec : ChainSpec K)
      → (load_spec K id ≡ ok (some spec)) ↔ ((a : Alternative) × Names id a × (load K a ≡ ok spec))
  unfolding load_spec
  load_spec_lem id spec = (
    λ h. elim (Option-cases (from id)) [
      | inl e ↦ absurd (ground arith)
      | inr (a, e) ↦ let (loaded, is) = load_Total a in (a, from-Names id a e, ground arith)
    ],
    λ (a, named, is). ground (arith, Names-from id a named),
  )
