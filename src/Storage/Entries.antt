-- ===== src/Storage/Entries.antt =====
-- Lists of entries: how the listing of a linked map changes.
use substra_tee_node_pre.Base.{
  ◌+◌, ◌≡◌, refl, inl, inr, Option, none, some, List, [], ◌∷◌, ite, arith, length, Option-cases,
}

module _ {K V : Type 0} (eq : Discrete K) where
  abbrev pub lookup : K → List (K × V) → Option V
  lookup k [] = none
  lookup k ((j, v) ∷ l) = ite (eq k j) (some v) (lookup k l)

  -- The entry of a known key, written in place.
  abbrev pub replace : K → V → List (K × V) → List (K × V)
  replace k v [] = []
  replace k v ((j, w) ∷ l) = ite (eq k j) ((k, v) ∷ l) ((j, w) ∷ replace k v l)

  abbrev pub erase : K → List (K × V) → List (K × V)
  erase k [] = []
  erase k ((j, w) ∷ l) = ite (eq k j) l ((j, w) ∷ erase k l)

  abbrev pub put : K → V → List (K × V) → List (K × V)
  put k v l = elim (lookup k l) [ none ↦ (k, v) ∷ l | some w ↦ replace k v l ]

  pub length-replace : (k : K) (v : V) (l : List (K × V)) → length (replace k v l) ≡ length l
  length-replace k v [] = refl
  length-replace k v (e ∷ l) = ground (arith, length-replace k v l)

  pub length-erase :
      (k : K) (l : List (K × V)) {v : V} → lookup k l ≡ some v → length (erase k l) + 1 ≡ length l
  length-erase k [] h = cc
  length-erase k (e ∷ l) {v} h = ground (arith, length-erase k l {v = v})

  pub length-put_new :
      (k : K) (v : V) (l : List (K × V)) → lookup k l ≡ none → length (put k v l) ≡ length l + 1
  length-put_new k v l h = ground arith

  pub length-put_old :
      (k : K) (v : V) (l : List (K × V)) {w : V}
      → lookup k l ≡ some w
      → length (put k v l) ≡ length l
  length-put_old k v l h = ground (arith, length-replace k v l)

  pub lookup-replace :
      (k : K) (v : V) (l : List (K × V)) (j : K) {w : V}
      → lookup k l ≡ some w
      → lookup j (replace k v l) ≡ ite (eq k j) (some v) (lookup j l)
  lookup-replace k v [] j h = cc
  lookup-replace k v (e ∷ l) j {w} h = ground (arith, lookup-replace k v l j {w = w})

  pub lookup-put :
      (k : K) (v : V) (l : List (K × V)) (j : K)
      → lookup j (put k v l) ≡ ite (eq k j) (some v) (lookup j l)
  lookup-put k v l j = elim (Option-cases (lookup k l)) [
    | inl new ↦ ground arith
    | inr (w, old) ↦ ground (arith, lookup-replace k v l j old)
  ]

  pub lookup-replace_ne :
      (k : K) (v : V) (l : List (K × V)) (j : K) → ¬ (k ≡ j) → lookup j (replace k v l) ≡ lookup j l
  lookup-replace_ne k v [] j h = refl
  lookup-replace_ne k v (e ∷ l) j h = ground (arith, lookup-replace_ne k v l j h)

  -- No key is listed twice.
  abbrev pub IsDistinct : List (K × V) → Type 0
  IsDistinct [] = Unit
  IsDistinct ((k, v) ∷ l) = (lookup k l ≡ none) × IsDistinct l

  pub lookup-erase_ne :
      (k : K) (l : List (K × V)) (j : K) → ¬ (k ≡ j) → lookup j (erase k l) ≡ lookup j l
  lookup-erase_ne k [] j h = refl
  lookup-erase_ne k (e ∷ l) j h = ground (arith, lookup-erase_ne k l j h)

  pub lookup-erase :
      (k : K) (l : List (K × V)) (j : K)
      → IsDistinct l
      → lookup j (erase k l) ≡ ite (eq k j) none (lookup j l)
  lookup-erase k [] j h = ground arith
  lookup-erase k (e ∷ l) j h = ground (arith, lookup-erase k l j h.1)

  replace-IsDistinct :
      (k : K) (v : V) (l : List (K × V)) → IsDistinct l → IsDistinct (replace k v l)
  replace-IsDistinct k v [] h = tt
  replace-IsDistinct k v (e ∷ l) h =
      ground (arith, replace-IsDistinct k v l h.1, lookup-replace_ne k v l e.0)

  pub put-IsDistinct : (k : K) (v : V) (l : List (K × V)) → IsDistinct l → IsDistinct (put k v l)
  put-IsDistinct k v l h = ground (arith, replace-IsDistinct k v l h)

  pub erase-IsDistinct : (k : K) (l : List (K × V)) → IsDistinct l → IsDistinct (erase k l)
  erase-IsDistinct k [] h = tt
  erase-IsDistinct k (e ∷ l) h = ground (arith, erase-IsDistinct k l h.1, lookup-erase k l e.0 h.1)
