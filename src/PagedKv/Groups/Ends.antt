-- ===== src/PagedKv/Groups/Ends.antt =====
-- A group of reservations that ends one by one (`commit_appends` and `cancel_appends` of
-- paged_kv.rs).
use ru_llm.Base.{
  ℕ, suc, ◌+◌, ◌*◌, ◌≤◌, ◌<◌, ◌≡◌, ◌≢◌, refl, inl, inr, true, none, some, List, [], ◌∷◌, arith,
  length, count, subst, sym, Bool-cases, ◌==◌, if◌then◌else◌, ◌∙◌,
}
use native.Mathlib.Decide.{dec_lt}
use ru_llm.Base.OrdMap
use ru_llm.Base.Word.{u64_mod, div_ceil}
use ru_llm.PagedKv.Types.{SequenceState, ReservationState, Manager}
use ru_llm.PagedKv.Invariant.{ManagerInv}
use ru_llm.PagedKv.Pool.{available_pages}
use ru_llm.PagedKv.Finish.{ended}
use ru_llm.PagedKv.Ending.{Ended}

-- The counter has room for the release of `n` sequences.
abbrev pub HasTicksFor : ℕ → Manager → Type 0
HasTicksFor n m = m.next_tick + n * m.config.max_sequence_length < u64_mod

-- A sequence after its append has ended at a number of tokens.
abbrev pub ended_at : Manager → ℕ → SequenceState → SequenceState
ended_at m committed q = ended q committed (div_ceil committed m.config.block_size)

module _ (end_of : ℕ → ReservationState → ℕ) where
  -- The reservations of the group are gone. Their sequences have no pending append, the given number
  -- of tokens and the pages for these; nothing else of them has changed. All other reservations and
  -- sequences and all fields outside of the pool are as they were, and no page is lost in the pool.
  pub record GroupEnded (m : Manager) (ids : List ℕ) (t : Manager) : Type 0 where
    pub inv : ManagerInv t
    pub config : t.config ≡ m.config
    pub frame :
        t ≡ record m { pool = t.pool; sequences = t.sequences; reservations = t.reservations }
    pub flag : t.prefix_caching ≡ m.prefix_caching
    pub ticks : t.next_tick ≤ m.next_tick + length ids * m.config.max_sequence_length
    pub available : available_pages m.pool ≤ available_pages t.pool
    pub gone : (rid : ℕ) → 0 < count rid ids → OrdMap.lookup rid t.reservations ≡ none
    pub others :
        (rid : ℕ)
        → count rid ids ≡ 0
        → OrdMap.lookup rid t.reservations ≡ OrdMap.lookup rid m.reservations
    pub spared :
        (id : ℕ) (q : SequenceState)
        → OrdMap.lookup id m.sequences ≡ some q
        → ((rid : ℕ) → q.pending ≡ some rid → count rid ids ≡ 0)
        → OrdMap.lookup id t.sequences ≡ some q
    pub ended :
        (rid : ℕ) (r : ReservationState)
        → OrdMap.lookup rid m.reservations ≡ some r
        → 0 < count rid ids
        → (q : SequenceState) × (OrdMap.lookup r.request_id m.sequences ≡ some q)
          × (OrdMap.lookup r.request_id t.sequences ≡ some (ended_at m (end_of rid r) q))
    pub absent :
        (id : ℕ) → OrdMap.lookup id m.sequences ≡ none → OrdMap.lookup id t.sequences ≡ none

  pub none_ended : (m : Manager) → ManagerInv m → GroupEnded m [] m
  unfolding count
  none_ended m v = record {
    inv = v;
    config = refl;
    frame = refl;
    flag = refl;
    ticks = omega arith;
    available = omega arith;
    gone = λ rid h. absurd (omega (arith, h));
    others = λ rid h. refl;
    spared = λ id q found free. found;
    ended = λ rid r held h. absurd (omega (arith, h));
    absent = λ id h. h;
  }

  one_more :
      (size tick tick' tick'' n : ℕ)
      → tick' ≤ tick + size
      → tick'' ≤ tick' + n * size
      → tick'' ≤ tick + suc n * size
  one_more size tick tick' tick'' n h k = grind arith

  module _ (m : Manager) (v : ManagerInv m) (id : ℕ) (ids : List ℕ) (r : ReservationState)
      (held : OrdMap.lookup id m.reservations ≡ some r) (distinct : count id ids ≡ 0) (t : Manager)
      (first : Ended m id (end_of id r) t) where
    pub reservation_after :
        (rid : ℕ)
        → OrdMap.lookup rid t.reservations
          ≡ (if rid == id then none else OrdMap.lookup rid m.reservations)
    reservation_after rid =
        let (r', q, held', found, made) = first.before in
        rw made (OrdMap.lookup-remove id rid m.reservations v.reservations_ordered)

    -- The sequence of the first reservation is idle, the others are as they were.
    pub first_idle :
        (q : SequenceState) × (OrdMap.lookup r.request_id m.sequences ≡ some q)
        × (OrdMap.lookup r.request_id t.sequences ≡ some (ended_at m (end_of id r) q))
    first_idle =
        let (r', q, held', found, made) = first.before in
        let same : r' ≡ r = ground (arith, held, held') in
        let q' : SequenceState = ended_at m (end_of id r) q in
        (
          q,
          rw same at found,
          rw (made, same)
              (OrdMap.lookup-insert r.request_id r.request_id q' m.sequences ∙ ground arith),
        )

    sequence_after :
        (j : ℕ) (q : SequenceState)
        → OrdMap.lookup j m.sequences ≡ some q
        → q.pending ≢ some id
        → OrdMap.lookup j t.sequences ≡ some q
    sequence_after j q at free =
        let (r', q0, held', found, made) = first.before in
        let (q1, found1, waits, start) = (v.reserved id r' held').owner in
        let same : r' ≡ r = ground (arith, held, held') in
        let other : j ≢ r'.request_id = λ here. free (ground (arith, here, at, found1, waits)) in
        rw made (
          OrdMap.lookup-insert r'.request_id j (ended_at m (end_of id r) q0) m.sequences
          ∙ ground (arith, other, at))

    absent_after : (j : ℕ) → OrdMap.lookup j m.sequences ≡ none → OrdMap.lookup j t.sequences ≡ none
    absent_after j missing =
        let (r', q0, held', found, made) = first.before in
        let other : j ≢ r'.request_id = λ here. absurd (ground (arith, here, missing, found)) in
        rw made (
          OrdMap.lookup-insert r'.request_id j (ended_at m (end_of id r) q0) m.sequences
          ∙ ground (arith, other, missing))

    frame_after :
        t ≡ record m { pool = t.pool; sequences = t.sequences; reservations = t.reservations }
    frame_after =
        let (r', q, held', found, made) = first.before in
        subst
          (λ (u : Manager).
            u ≡ record m { pool = u.pool; sequences = u.sequences; reservations = u.reservations })
          (sym made) refl

    -- The owner of another reservation is untouched.
    owner_after :
        (rid : ℕ) (r' : ReservationState)
        → OrdMap.lookup rid m.reservations ≡ some r'
        → rid ≢ id
        → (q : SequenceState) × (OrdMap.lookup r'.request_id m.sequences ≡ some q)
          × (OrdMap.lookup r'.request_id t.sequences ≡ some q)
    owner_after rid r' held' other =
        let (q, found, waits, start) = (v.reserved rid r' held').owner in
        (
          q,
          found,
          sequence_after r'.request_id q found
              (λ waits'. absurd (other (ground (arith, waits, waits')))),
        )

    pub config_after : t.config ≡ m.config
    config_after = let (r', q, held', found, made) = first.before in cc made

    module _ (u : Manager) (rest : GroupEnded t ids u) where
      ended_after :
          (rid : ℕ) (r' : ReservationState)
          → OrdMap.lookup rid m.reservations ≡ some r'
          → 0 < count rid (id ∷ ids)
          → (q : SequenceState) × (OrdMap.lookup r'.request_id m.sequences ≡ some q)
            × (OrdMap.lookup r'.request_id u.sequences ≡ some (ended_at m (end_of rid r') q))
      unfolding count
      ended_after rid r' held' h = elim (Bool-cases (rid == id)) [
        | inl here ↦
            let named : rid ≡ id = ground (arith, here) in
            let same : r' ≡ r = ground (arith, here, held, held') in
            let (q, before, found) = first_idle in
            rw (same, named)
              (
                q,
                before,
                rest.spared r.request_id (ended_at m (end_of id r) q) found
                    (λ rid' waits. absurd (ground (arith, waits))),
              )
        | inr other ↦
            let (q, before, between) = owner_after rid r' held' (ground (arith, other)) in
            let (q', found, after) =
              rest.ended rid r' (ground (arith, other, held', reservation_after rid))
                (ground (arith, other, h)) in
            let same : q' ≡ q = ground (arith, found, between) in
            (q, before, rw (same, config_after) at after)
      ]

      gone_after : (rid : ℕ) → 0 < count rid (id ∷ ids) → OrdMap.lookup rid u.reservations ≡ none
      unfolding count
      gone_after rid h = elim (dec_lt 0 (count rid ids)) [
        | yes later ↦ rest.gone rid later
        | no first_only ↦
            let here : (rid == id) ≡ true = ground (arith, h, first_only) in
            rest.others rid (omega (arith, first_only)) ∙ reservation_after rid ∙ rw here refl
      ]

      pub both_ended : GroupEnded m (id ∷ ids) u
      unfolding count
      both_ended = record {
        inv = rest.inv;
        config = cc (rest.config, config_after);
        frame =
            subst
              (λ (w : Manager). u ≡ record w {
                pool = u.pool;
                sequences = u.sequences;
                reservations = u.reservations;
              })
              frame_after rest.frame;
        flag = rest.flag ∙ first.flag;
        ticks =
            let same : t.config.max_sequence_length ≡ m.config.max_sequence_length =
              cc config_after in
            one_more m.config.max_sequence_length m.next_tick t.next_tick u.next_tick (length ids)
              first.ticks (rw same at rest.ticks);
        available = omega (arith, first.available, rest.available);
        gone = gone_after;
        others = λ rid h. ground (arith, rest.others rid, reservation_after rid, h);
        spared = λ j q at free.
            rest.spared j q (sequence_after j q at (λ waits. absurd (grind (arith, free id waits))))
              (λ rid waits. omega (arith, free rid waits));
        ended = ended_after;
        absent = λ j missing. rest.absent j (absent_after j missing);
      }
