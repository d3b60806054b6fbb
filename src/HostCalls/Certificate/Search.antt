-- ===== src/HostCalls/Certificate/Search.antt =====
-- host_calls/src/remote_attestation.rs: the search for an object identifier.
use mathlib.Core.Option
use substra_tee_node_pre.Base.{
  ℕ, zero, suc, ◌+◌, ◌≤◌, ◌<◌, ◌≡◌, ◌↔◌, subst, ap, inl, inr, [], ◌∷◌, Option, some, none, Bytes,
  arith, length, take, drop, length-take, length-drop, bytes_eq, bytes_eq_iff, Bool-cases,
  Option-cases, dec_lt, ◌∙◌, windows, position,
}
use substra_tee_node_pre.Base.Outcome.{ok}
use substra_tee_node_pre.HostCalls.Certificate.{find_oid}

-- The identifier stands in the bytes at an offset.
abbrev pub OccursAt : Bytes → Bytes → ℕ → Type 0
OccursAt oid bytes offset = take (length oid) (drop offset bytes) ≡ oid

-- It stands there, and nowhere before.
pub record IsFirst (oid bytes : Bytes) (offset : ℕ) : Type 0 where
  pub occurs : OccursAt oid bytes offset
  pub none_before : (i : ℕ) → i < offset → ¬ OccursAt oid bytes i

abbrev search_from : Bytes → Bytes → Option ℕ
search_from oid bytes = position (λ window. bytes_eq window oid) (windows (length oid) bytes)

module _ (oid : Bytes) (pos : 0 < length oid) where
  -- Too few bytes are left for the identifier.
  no_room : (bytes : Bytes) (offset : ℕ) → length bytes < length oid → ¬ OccursAt oid bytes offset
  no_room bytes offset short h = absurd (
      omega (
        arith,
        ap length h,
        length-take (length oid) (drop offset bytes),
        length-drop offset bytes,
      ))

  fits_of_occurs :
      (bytes : Bytes) (offset : ℕ) → OccursAt oid bytes offset → length oid ≤ length bytes
  fits_of_occurs bytes offset h =
      omega
        (arith, ap length h, length-take (length oid) (drop offset bytes), length-drop offset bytes)

  -- The three ways in which the first window decides the search.
  search_short :
      (x : ℕ) (xs : Bytes) → length (x ∷ xs) < length oid → search_from oid (x ∷ xs) ≡ none
  unfolding windows position
  search_short x xs h = ground arith

  search_here : (x : ℕ) (xs : Bytes) → OccursAt oid (x ∷ xs) 0 → search_from oid (x ∷ xs) ≡ some 0
  unfolding windows position
  search_here x xs h =
      ground
        (arith, fits_of_occurs (x ∷ xs) 0 h, (bytes_eq_iff (take (length oid) (x ∷ xs)) oid).1 h)

  search_later :
      (x : ℕ) (xs : Bytes)
      → length oid ≤ length (x ∷ xs)
      → ¬ OccursAt oid (x ∷ xs) 0
      → search_from oid (x ∷ xs) ≡ Option.map suc (search_from oid xs)
  unfolding windows position
  search_later x xs room h = ground (arith, h, (bytes_eq_iff (take (length oid) (x ∷ xs)) oid).0)

  occurs_here : (x : ℕ) (xs : Bytes) → Dec (OccursAt oid (x ∷ xs) 0)
  occurs_here x xs = elim (Bool-cases (bytes_eq (take (length oid) (x ∷ xs)) oid)) [
    | inl e ↦ yes ((bytes_eq_iff _ oid).0 e)
    | inr e ↦ no (λ h. cc (e, (bytes_eq_iff (take (length oid) (x ∷ xs)) oid).1 h))
  ]

  IsFirst-cons :
      (x : ℕ) (xs : Bytes) (offset : ℕ)
      → ¬ OccursAt oid (x ∷ xs) 0
      → IsFirst oid xs offset
      → IsFirst oid (x ∷ xs) (suc offset)
  IsFirst-cons x xs offset h f = record { occurs = f.occurs; none_before = before }
    where
      before : (i : ℕ) → i < suc offset → ¬ OccursAt oid (x ∷ xs) i
      before zero lt = h
      before (suc i) lt = f.none_before i (omega arith)

  search-IsFirst :
      (bytes : Bytes) (offset : ℕ) → search_from oid bytes ≡ some offset → IsFirst oid bytes offset
  unfolding windows position
  search-IsFirst [] offset h = cc
  search-IsFirst (x ∷ xs) offset h = elim (dec_lt (length (x ∷ xs)) (length oid)) [
    | yes short ↦ cc (search_short x xs short)
    | no fits ↦ elim (occurs_here x xs) [
      | yes here ↦
          let e : offset ≡ 0 = cc (search_here x xs here) in
          rw e (record { occurs = here; none_before = λ i lt. absurd (omega arith) })
      | no absent ↦
          let later = search_later x xs (omega arith) absent in
          elim (Option-cases (search_from oid xs)) [
            | inl nothing ↦ cc (later, ap (Option.map suc) nothing)
            | inr (o, found) ↦
                let e : offset ≡ suc o = cc (later, ap (Option.map suc) found) in
                rw e (IsFirst-cons x xs o absent (search-IsFirst xs o found))
          ]
    ]
  ]

  IsFirst-search :
      (bytes : Bytes) (offset : ℕ) → IsFirst oid bytes offset → search_from oid bytes ≡ some offset
  unfolding windows position
  IsFirst-search [] offset f = absurd (no_room [] offset pos f.occurs)
  IsFirst-search (x ∷ xs) zero f = search_here x xs f.occurs
  IsFirst-search (x ∷ xs) (suc offset) f =
      let rest : IsFirst oid xs offset = record {
        occurs = f.occurs;
        none_before = λ i lt. f.none_before (suc i) (omega arith);
      } in
      let room = fits_of_occurs (x ∷ xs) (suc offset) f.occurs in
      search_later x xs room (f.none_before 0 (omega arith))
      ∙ ap (Option.map suc) (IsFirst-search xs offset rest)

  -- The search for an identifier that is not empty returns an offset exactly if the identifier
  -- occurs there first.
  pub find_oid-IsFirst :
      (bytes : Bytes) (offset : ℕ) → (find_oid oid bytes ≡ ok offset) ↔ IsFirst oid bytes offset
  unfolding find_oid
  find_oid-IsFirst bytes offset =
      (λ h. search-IsFirst bytes offset (ground arith), λ f. rw (IsFirst-search bytes offset f))

  occurs_at : (bytes : Bytes) (offset : ℕ) → Dec (OccursAt oid bytes offset)
  occurs_at bytes offset =
      elim (Bool-cases (bytes_eq (take (length oid) (drop offset bytes)) oid)) [
        | inl e ↦ yes ((bytes_eq_iff _ oid).0 e)
        | inr e ↦ no (λ h. cc (e, (bytes_eq_iff (take (length oid) (drop offset bytes)) oid).1 h))
      ]

  -- From an occurrence, the first one is found by going up from an offset before which there is none.
  IsFirst-from :
      (bytes : Bytes) (d k i : ℕ)
      → ((j : ℕ) → j < k → ¬ OccursAt oid bytes j)
      → i ≡ k + d
      → OccursAt oid bytes i
      → (offset : ℕ) × IsFirst oid bytes offset
  IsFirst-from bytes zero k i before e h =
      let same : i ≡ k = omega arith in
      (k, record { occurs = subst (OccursAt oid bytes) same h; none_before = before })
  IsFirst-from bytes (suc d) k i before e h = elim (occurs_at bytes k) [
    | yes here ↦ (k, record { occurs = here; none_before = before })
    | no absent ↦ IsFirst-from bytes d (suc k) i (not_yet absent) (omega arith) h
  ]
    where
      not_yet : ¬ OccursAt oid bytes k → (j : ℕ) → j < suc k → ¬ OccursAt oid bytes j
      not_yet absent j lt = elim (dec_lt j k) [
        | yes earlier ↦ before j earlier
        | no later ↦
            let same : k ≡ j = omega arith in subst (λ x. ¬ OccursAt oid bytes x) same absent
      ]

  pub IsFirst-of_occurs :
      (bytes : Bytes) (i : ℕ) → OccursAt oid bytes i → (offset : ℕ) × IsFirst oid bytes offset
  IsFirst-of_occurs bytes i h =
      IsFirst-from bytes i 0 i (λ j lt. absurd (omega arith)) (omega arith) h
