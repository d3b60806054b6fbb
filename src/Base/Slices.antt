-- ===== src/Base/Slices.antt =====
-- What the code uses of Rust's slices: indexing, ranges, `windows`, `position`, `split`, `retain`.
use Prim.Native.Nat.{ℕ, suc, ◌-◌}
use mathlib.Core.Bool.{Bool}
use mathlib.Core.Option.{Option, none, some}
use mathlib.Core.Option
use mathlib.Core.List.{List, [], ◌∷◌}
use substra_tee_node_pre.Base.Lists.{length, take, drop, get_elem?}
use substra_tee_node_pre.Base.Tests.{ltb, leb, ◌==◌, if◌then◌else◌}
use substra_tee_node_pre.Base.Outcome.{Outcome, ok, fault, panic, unwrap}

module _ {ℓ} {A : Type ℓ} where
  -- `data[i]`
  abbrev pub index : List A → ℕ → Outcome A
  index xs i = unwrap (get_elem? xs i)

  -- `&data[start..end]`
  abbrev pub slice : List A → ℕ → ℕ → Outcome (List A)
  slice xs start end =
      if ltb end start
      then fault panic
      else if ltb (length xs) end
      then fault panic
      else ok (take (end - start) (drop start xs))

  -- `array.copy_from_slice(data)` into an array of `n` elements
  abbrev pub copy_from_slice : ℕ → List A → Outcome (List A)
  copy_from_slice n xs = if length xs == n then ok xs else fault panic

  -- `data.windows(n)`, for a positive `n`
  unfoldable pub windows : ℕ → List A → List (List A)
  windows n [] = []
  windows n (x ∷ xs) = if leb n (length (x ∷ xs)) then take n (x ∷ xs) ∷ windows n xs else []

  -- `iter.position(p)`
  unfoldable pub position : (A → Bool) → List A → Option ℕ
  position p [] = none
  position p (x ∷ xs) = if p x then some 0 else Option.map suc (position p xs)

  -- `data.split(p)`: the first piece, and the later ones
  unfoldable pub split_parts : (A → Bool) → List A → List A × List (List A)
  split_parts p [] = ([], [])
  split_parts p (x ∷ xs) =
      let rest = split_parts p xs in if p x then ([], rest.0 ∷ rest.1) else (x ∷ rest.0, rest.1)

  unfoldable pub split : (A → Bool) → List A → List (List A)
  unfolding split_parts
  split p xs = let parts = split_parts p xs in parts.0 ∷ parts.1

  -- `data.retain(p)`
  unfoldable pub retain : (A → Bool) → List A → List A
  retain p [] = []
  retain p (x ∷ xs) = if p x then x ∷ retain p xs else retain p xs

  -- `iter.next()`, with the rest of the iterator
  abbrev pub next : List A → Option (A × List A)
  next [] = none
  next (x ∷ xs) = some (x, xs)
