-- ===== src/Base/Exec.antt =====
-- Code that reads and writes the storage and may fail. Substrate keeps what was written before an
-- `Err`, so the state comes back beside the error too.
use mathlib.Core.Path.{◌≡◌, refl}
use Prim.Native.String.{String}
use native.Mathlib.Omega.{arith}
use substra_tee_node_pre.Base.Outcome.{Outcome, ok, err, fault, Fault}

abbrev pub Exec {ℓ} : Type ℓ → Type ℓ → Type ℓ
Exec S A = S → Outcome A × S

module _ {ℓ} {S A : Type ℓ} where
  abbrev pub pure : A → Exec S A
  pure a s = (ok a, s)

  -- A computation that does not touch the storage; its `Err` is returned by `?`.
  abbrev pub lift : Outcome A → Exec S A
  lift r s = (r, s)

  abbrev pub gets : (S → A) → Exec S A
  gets f s = (ok (f s), s)

abbrev pub modify {ℓ} : {S : Type ℓ} → (S → S) → S → Outcome (Unit {0}) × S
modify f s = (ok tt, f s)

infixl 5 ◌>>=◌ ◌>>◌
abbrev pub ◌>>=◌ {ℓ κ μ} :
    {S : Type ℓ} {A : Type κ} {B : Type μ}
    → (S → Outcome A × S)
    → (A → S → Outcome B × S)
    → S
    → Outcome B × S
◌>>=◌ m f s =
    let (r, s') = m s in elim r [ ok a ↦ f a s' | err e ↦ (err e, s') | fault x ↦ (fault x, s') ]

abbrev pub ◌>>◌ {ℓ μ} :
    {S : Type ℓ} {B : Type μ}
    → (S → Outcome (Unit {0}) × S)
    → (S → Outcome B × S)
    → S
    → Outcome B × S
m >> k = m >>= λ _. k

-- To prove a property of every end of a computation that starts with one off the storage.
pub lift->>=_cases {ℓ κ μ} :
    {S : Type ℓ} {A : Type ℓ} {B : Type κ} (P : Outcome B × S → Type μ) (m : Outcome A)
    (k : A → S → Outcome B × S) (s : S)
    → ((a : A) → m ≡ ok a → P (k a s))
    → ((e : String) → m ≡ err e → P (err e, s))
    → ((x : Fault) → m ≡ fault x → P (fault x, s))
    → P ((lift m >>= k) s)
lift->>=_cases P (ok a) k s goes stops faults = goes a refl
lift->>=_cases P (err e) k s goes stops faults = stops e refl
lift->>=_cases P (fault x) k s goes stops faults = faults x refl

pub >>-pure {ℓ} :
    {S : Type ℓ} (m : S → Outcome (Unit {0}) × S) (s : S) → (m >> (λ t. (ok tt, t))) s ≡ m s
>>-pure m s = ground arith
