-- ===== src/PagedKv/Finish.antt =====
-- The end of an append, as `commit_append`, `commit_append_partial`, `commit_append_prefixes` and
-- `cancel_append` share it: the sequence keeps the pages that its new length needs.
use ru_llm.Base.{
  ℕ, zero, suc, ◌+◌, ◌/◌, ◌≤◌, ◌<◌, ◌≡◌, ◌≢◌, ◌↔◌, none, some, List, [], ◌∷◌, arith, length, count,
  take, drop, length-take,
}
use ru_llm.Base.OrdMap
use ru_llm.Base.Word.{div_ceil, div_ceil_mono, div_ceil-le, div_mono, u64_mod}
use ru_llm.PagedKv.Types.{SequenceState, ReservationState, PagePool, Manager}
use ru_llm.PagedKv.Pool.Invariant.{Inv, cached_at}
use ru_llm.PagedKv.Invariant.{ManagerInv, SequenceInv, owed_by, owed_by-insert}
use ru_llm.PagedKv.Store.{stored, store-Inv}

pub count-take-drop :
    (k p : ℕ) (xs : List ℕ) → count p (take k xs) + count p (drop k xs) ≡ count p xs
unfolding count
count-take-drop zero p xs = omega arith
count-take-drop (suc k) p [] = omega arith
count-take-drop (suc k) p (x ∷ xs) = omega (arith, count-take-drop k p xs)

-- A shorter list, and a later suffix, hold less.
pub count-drop-take-le :
    (j k p : ℕ) (xs : List ℕ) → count p (drop j (take k xs)) ≤ count p (drop j xs)
unfolding count
count-drop-take-le zero k p xs = omega (arith, count-take-drop k p xs)
count-drop-take-le (suc j) zero p xs = omega arith
count-drop-take-le (suc j) (suc k) p [] = omega arith
count-drop-take-le (suc j) (suc k) p (x ∷ xs) = count-drop-take-le j k p xs

pub count-drop_mono : (i j p : ℕ) (xs : List ℕ) → i ≤ j → count p (drop j xs) ≤ count p (drop i xs)
unfolding count
count-drop_mono zero j p xs h = omega (arith, count-take-drop j p xs)
count-drop_mono (suc i) zero p xs h = absurd (omega arith)
count-drop_mono (suc i) (suc j) p [] h = omega arith
count-drop_mono (suc i) (suc j) p (x ∷ xs) h = count-drop_mono i j p xs (omega arith)

-- The sequence without its reservation.
abbrev pub ended : SequenceState → ℕ → ℕ → SequenceState
ended q committed keep = record q {
  committed_tokens = committed;
  pages = take keep q.pages;
  pending = none;
}

-- The state after the append `rid` of `r` has ended.
abbrev pub finished : Manager → ℕ → ReservationState → SequenceState → ℕ → ℕ → PagePool → Manager
finished m rid r q committed keep u =
    stored m r.request_id (ended q committed keep) u (OrdMap.remove rid m.reservations)
      m.next_reservation

-- The tick counter cannot overflow while one sequence is released.
abbrev pub HasTicks : Manager → Type 0
HasTicks m = m.next_tick + m.config.max_sequence_length < u64_mod

module _ (m : Manager) (v : ManagerInv m) (rid : ℕ) (r : ReservationState) (q : SequenceState)
    (held : OrdMap.lookup rid m.reservations ≡ some r)
    (found : OrdMap.lookup r.request_id m.sequences ≡ some q) (waits : q.pending ≡ some rid)
    (start : q.committed_tokens ≡ r.start_position) where
  -- The pages reach the end of the reservation.
  pub reserved_extent :
      length q.pages ≡ div_ceil (r.start_position + r.token_count) m.config.block_size
  reserved_extent = ground (arith, (v.each r.request_id q found).extent, waits, held)

  pub pages-le : length q.pages ≤ m.config.max_sequence_length
  pages-le = omega (
    arith,
    reserved_extent,
    div_ceil-le (r.start_position + r.token_count) m.config.block_size v.blocks,
    (v.reserved rid r held).within,
  )

  module _ (committed keep : ℕ) (u : PagePool) (from_start : r.start_position ≤ committed)
      (to_end : committed ≤ r.start_position + r.token_count)
      (exact : keep ≡ div_ceil committed m.config.block_size) where
    pub keep-le : keep ≤ length q.pages
    keep-le = omega (
      arith,
      reserved_extent,
      exact,
      div_ceil_mono committed (r.start_position + r.token_count) m.config.block_size v.blocks
          to_end,
    )

    -- The references that go are those to the pages behind.
    pub owed_by-ended :
        (p : ℕ)
        → owed_by m.sequences p
          ≡ owed_by (OrdMap.insert r.request_id (ended q committed keep) m.sequences) p
            + count p (drop keep q.pages)
    owed_by-ended p = omega (
      arith,
      owed_by-insert r.request_id p q (ended q committed keep) m.sequences v.sequences_ordered
          found,
      count-take-drop keep p q.pages,
    )

    ended_sequence :
        ((p : ℕ) → cached_at m.pool p ≡ none → cached_at u p ≡ none)
        → SequenceInv m.config u
            (OrdMap.remove rid m.reservations)
            r.request_id
            (ended q committed keep)
    ended_sequence kept =
        let old = v.each r.request_id q found in
        record {
          capacity = omega (arith, (v.reserved rid r held).within);
          registered = omega (arith, old.registered);
          extent = omega (arith, length-take keep q.pages, keep-le, exact);
          bare = λ p h. kept p (
              old.bare p (
                omega (
                  arith,
                  count-drop-take-le (committed / m.config.block_size) keep p q.pages,
                  count-drop_mono (q.committed_tokens / m.config.block_size)
                      (committed / m.config.block_size) p q.pages
                      (div_mono q.committed_tokens committed m.config.block_size v.blocks
                        (omega arith)),
                )));
          pending = λ j e. absurd (ground arith);
        }

    finished_others :
        (j : ℕ) (x : ReservationState)
        → x.request_id ≢ r.request_id
        → (OrdMap.lookup j m.reservations ≡ some x)
          ↔ (OrdMap.lookup j (OrdMap.remove rid m.reservations) ≡ some x)
    finished_others j x other = (
      λ h. ground (arith, OrdMap.lookup-remove rid j m.reservations v.reservations_ordered),
      λ h. ground (arith, OrdMap.lookup-remove rid j m.reservations v.reservations_ordered),
    )

    finished_own :
        (j : ℕ) (x : ReservationState)
        → x.request_id ≡ r.request_id
        → OrdMap.lookup j (OrdMap.remove rid m.reservations) ≡ some x
        → ⊥
    finished_own j x same e =
        let old : (OrdMap.lookup j m.reservations ≡ some x) × (j ≢ rid) = (
          ground (arith, OrdMap.lookup-remove rid j m.reservations v.reservations_ordered),
          λ x. ground (arith, OrdMap.lookup-remove rid j m.reservations v.reservations_ordered),
        ) in
        let (q0, found0, waits0, start0) = (v.reserved j x old.0).owner in
        old.1 (ground (arith, found0, waits0, same))

    pub finished-Inv :
        Inv m.config.num_pages
          (owed_by (OrdMap.insert r.request_id (ended q committed keep) m.sequences))
          (λ _. 0)
          u
        → ((p : ℕ) → cached_at m.pool p ≡ none → cached_at u p ≡ none)
        → ManagerInv (finished m rid r q committed keep u)
    finished-Inv pool_inv kept =
        store-Inv m v r.request_id (ended q committed keep) u (OrdMap.remove rid m.reservations)
          m.next_reservation pool_inv (λ j q0 p other e w h. kept p h) (ended_sequence kept)
          (OrdMap.remove-IsOrdered rid m.reservations v.reservations_ordered) (omega arith)
          finished_others (λ j x same e. absurd (finished_own j x same e))
