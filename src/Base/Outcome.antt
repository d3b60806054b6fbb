-- ===== src/Base/Outcome.antt =====
-- How a Rust function ends: it returns, as `Ok` or `Err` of a message, or it does not return.
use mathlib.Core.Path.{◌≡◌, refl}
use mathlib.Core.Option.{Option, none, some}
use mathlib.Core.Bool.{Bool, true, false}
use Prim.Native.String.{String}
use mathlib.Core.List.{List, [], ◌∷◌}

-- A panic unwinds; a read outside of an allocation is undefined behaviour.
pub data Fault : Type 0 where
  panic undefined : Fault

pub data Outcome {ℓ} (A : Type ℓ) : Type ℓ where
  ok : A → Outcome A
  err : String → Outcome A
  fault : Fault → Outcome A

-- The `?` operator, and the early `return Err(…)`.
infixl 5 ◌>>=◌ ◌>>◌
abbrev pub ◌>>=◌ {ℓ κ} : {A : Type ℓ} {B : Type κ} → Outcome A → (A → Outcome B) → Outcome B
ok a >>= f = f a
err e >>= f = err e
fault x >>= f = fault x

abbrev pub ◌>>◌ {ℓ} : {B : Type ℓ} → Outcome (Unit {0}) → Outcome B → Outcome B
m >> k = m >>= λ _. k

-- `ensure!(b, e)`
abbrev pub ensure : Bool → String → Outcome (Unit {0})
ensure true e = ok tt
ensure false e = err e

-- `o.ok_or(e)`, and a match that returns `Err(e)` on the other case
abbrev pub ok_or {ℓ} : {A : Type ℓ} → Option A → String → Outcome A
ok_or none e = err e
ok_or (some a) e = ok a

-- `o.unwrap()`
abbrev pub unwrap {ℓ} : {A : Type ℓ} → Option A → Outcome A
unwrap none = fault panic
unwrap (some a) = ok a

-- `r.map(|_| ())`
abbrev pub void {ℓ} : {A : Type ℓ} → Outcome A → Outcome (Unit {0})
void (ok a) = ok tt
void (err e) = err e
void (fault x) = fault x

-- To split on how a computation ends, with the equation.
pub data Ends {ℓ} {A : Type ℓ} (r : Outcome A) : Type ℓ where
  returned : (a : A) → r ≡ ok a → Ends r
  failed : (e : String) → r ≡ err e → Ends r
  faulted : (x : Fault) → r ≡ fault x → Ends r

pub Outcome-Ends {ℓ} : {A : Type ℓ} (r : Outcome A) → Ends r
Outcome-Ends (ok a) = returned a refl
Outcome-Ends (err e) = failed e refl
Outcome-Ends (fault x) = faulted x refl

-- A value that is known to be there.
pub some_of {ℓ} : {A : Type ℓ} (o : Option A) → ¬ (o ≡ none) → (a : A) × (o ≡ some a)
some_of none h = absurd (h refl)
some_of (some a) h = (a, refl)

pub ok_of {ℓ} :
    {A : Type ℓ} (r : Outcome A)
    → ((e : String) → ¬ (r ≡ err e))
    → ((x : Fault) → ¬ (r ≡ fault x))
    → (a : A) × (r ≡ ok a)
ok_of (ok a) h k = (a, refl)
ok_of (err e) h k = absurd (h e refl)
ok_of (fault x) h k = absurd (k x refl)

-- A list of calls, one after the other.
unfoldable pub collect {ℓ κ} :
    {A : Type ℓ} {B : Type κ} → (A → Outcome B) → List A → Outcome (List B)
collect f [] = ok []
collect f (x ∷ xs) = do y ← f x; ys ← collect f xs; ok (y ∷ ys)
