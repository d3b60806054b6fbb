-- ===== src/HostCalls/Certificate/Indexing.antt =====
-- `safe_indexing` and `safe_indexing_one`: which ranges they return, and where they panic.
use substra_tee_node_pre.Base.{
  ℕ, ◌+◌, ◌-◌, ◌≤◌, ◌≡◌, ◌≢◌, ◌↔◌, ◌∷◌, ◌++◌, Bytes, arith, length, take, drop, take-append,
  drop-append, get_elem?, get_elem?-append, get_elem?_beyond, le_of_get_elem?-none,
  take-append-drop, ap, length-take, length-drop, length-append, inl, inr, Option-cases,
}
use substra_tee_node_pre.Base.Outcome.{Fault, ok, fault, panic}
use substra_tee_node_pre.HostCalls.Certificate.{safe_indexing, safe_indexing_one}

-- `part` lies in `bytes` from the offset `start` up to the offset `end`.
pub record LiesAt (bytes : Bytes) (start end : ℕ) (part : Bytes) : Type 0 where
  pub before : Bytes
  pub after : Bytes
  pub split : bytes ≡ before ++ (part ++ after)
  pub starts : length before ≡ start
  pub ends : start + length part ≡ end

pub safe_indexing_at :
    (before part after : Bytes)
    → safe_indexing (before ++ (part ++ after)) (length before) (length before + length part)
      ≡ ok part
unfolding safe_indexing
safe_indexing_at before part after =
    let e : length before + length part - length before ≡ length part = omega arith in
    let long = length-append before (part ++ after) in
    let long' = length-append part after in
    ground (arith, e, long, long', drop-append before (part ++ after), take-append part after)

pub safe_indexing_one_at :
    (before after : Bytes) (x : ℕ)
    → safe_indexing_one (before ++ (x ∷ after)) (length before) ≡ ok x
unfolding safe_indexing_one
safe_indexing_one_at before after x =
    ground (arith, length-append before (x ∷ after), get_elem?-append before after x)

safe_indexing_ok :
    (bytes : Bytes) (start end : ℕ) (part : Bytes)
    → safe_indexing bytes start end ≡ ok part
    → (start ≤ end) × (end ≤ length bytes) × (part ≡ take (end - start) (drop start bytes))
unfolding safe_indexing
safe_indexing_ok bytes start end part h = ground arith

safe_indexing-LiesAt :
    (bytes : Bytes) (start end : ℕ) (part : Bytes)
    → safe_indexing bytes start end ≡ ok part
    → LiesAt bytes start end part
safe_indexing-LiesAt bytes start end part h =
    let (le, within, same) = safe_indexing_ok bytes start end part h in
    let rest = drop start bytes in
    let n = end - start in
    record {
      before = take start bytes;
      after = drop n rest;
      split = rw (same, take-append-drop n rest, take-append-drop start bytes);
      starts = omega (arith, length-take start bytes);
      ends = omega (arith, ap length same, length-take n rest, length-drop start bytes);
    }

LiesAt-safe_indexing :
    (bytes : Bytes) (start end : ℕ) (part : Bytes)
    → LiesAt bytes start end part
    → safe_indexing bytes start end ≡ ok part
LiesAt-safe_indexing bytes start end part l =
    rw (l.split, ← l.ends, ← l.starts) (safe_indexing_at l.before part l.after)

safe_indexing-ne-fault :
    (bytes : Bytes) (start end : ℕ) (x : Fault) → safe_indexing bytes start end ≢ fault x
unfolding safe_indexing
safe_indexing-ne-fault bytes start end x h = ground arith

-- `safe_indexing` returns the part of the bytes that lies at the range, exactly if there is one,
-- and it never panics.
pub safe_indexing_lem :
    (bytes : Bytes) (start end : ℕ)
    → ((part : Bytes) → (safe_indexing bytes start end ≡ ok part) ↔ LiesAt bytes start end part)
      × ((x : Fault) → safe_indexing bytes start end ≢ fault x)
safe_indexing_lem bytes start end = (
  λ part. (safe_indexing-LiesAt bytes start end part, LiesAt-safe_indexing bytes start end part),
  safe_indexing-ne-fault bytes start end,
)

panic-end :
    (bytes : Bytes) (idx : ℕ) → safe_indexing_one bytes idx ≡ fault panic → idx ≡ length bytes
unfolding safe_indexing_one
panic-end bytes idx h = elim (Option-cases (get_elem? bytes idx)) [
  | inr (a, e) ↦ absurd (ground arith)
  | inl e ↦ ground (arith, le_of_get_elem?-none bytes idx e)
]

-- `safe_indexing_one` panics exactly at the index one past the end.
pub safe_indexing_one_panics :
    (bytes : Bytes) (idx : ℕ) → (safe_indexing_one bytes idx ≡ fault panic) ↔ (idx ≡ length bytes)
unfolding safe_indexing_one
safe_indexing_one_panics bytes idx =
    (panic-end bytes idx, λ e. ground (arith, get_elem?_beyond bytes idx))
