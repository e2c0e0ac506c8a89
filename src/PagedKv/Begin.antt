-- ===== src/PagedKv/Begin.antt =====
-- `begin_append`: what it reserves, on every branch.
use ru_llm.Base.{
  ℕ, zero, suc, ◌+◌, ◌/◌, ◌≤◌, ◌<◌, ◌≡◌, ◌≢◌, ◌↔◌, refl, subst, inl, inr, none, some, List, [], ◌∷◌,
  ◌++◌, arith, err, Returns, Ensures, length, count, drop, ◌==◌, ltb, Bool-cases, Option-cases,
  if◌then◌else◌, count-append, length-append,
}
use mathlib.Core.Path.{fun_ext}
use native.Mathlib.Decide.{dec_lt}
use ru_llm.Base.OrdMap
use ru_llm.Base.Word.{u64_mod, div_ceil, div_ceil_mono}
use ru_llm.PagedKv.Types.{
  SequenceState, ReservationState, AppendReservation, PagePool, Manager, Error,
}
use ru_llm.PagedKv.Pool.{available_pages}
use ru_llm.PagedKv.Pool.Invariant.{Inv}
use ru_llm.PagedKv.Pool.Allocate.{AllocatedAll, allocate_pages_lem}
use ru_llm.PagedKv.Manager.{begin_append, reserve, pages_needed}
use ru_llm.PagedKv.Invariant.{ManagerInv, SequenceInv, ReservationInv, owed_by, owed_by-insert}
use ru_llm.PagedKv.Store.{stored, store-Inv}

-- The new entries of the two maps.
abbrev pub grown : SequenceState → List ℕ → ℕ → SequenceState
grown q ps rid = record q { pages = q.pages ++ ps; pending = some rid }

abbrev pub opened : ℕ → SequenceState → ℕ → ReservationState
opened id q n = record {
  request_id = id;
  previous_page_count = length q.pages;
  start_position = q.committed_tokens;
  token_count = n;
}

-- The state after a reservation, with the pages `ps` and the page fields `u`.
abbrev pub begun : Manager → ℕ → SequenceState → ℕ → List ℕ → PagePool → Manager
begun m id q n ps u =
    stored m id (grown q ps m.next_reservation) u
      (OrdMap.insert m.next_reservation (opened id q n) m.reservations) (m.next_reservation + 1)

count-drop-le : (k p : ℕ) (xs : List ℕ) → count p (drop k xs) ≤ count p xs
unfolding count
count-drop-le zero p xs = omega arith
count-drop-le (suc k) p [] = omega arith
count-drop-le (suc k) p (x ∷ xs) = omega (arith, count-drop-le k p xs)

-- A suffix of a longer list counts at most as much more.
drop-append_count :
    (k p : ℕ) (xs ys : List ℕ) → count p (drop k (xs ++ ys)) ≤ count p (drop k xs) + count p ys
unfolding count
drop-append_count zero p xs ys = omega (arith, count-append p xs ys)
drop-append_count (suc k) p [] ys = omega (arith, count-drop-le (suc k) p ys)
drop-append_count (suc k) p (x ∷ xs) ys = drop-append_count k p xs ys

module _ (m : Manager) (v : ManagerInv m) (id n : ℕ) (q : SequenceState)
    (found : OrdMap.lookup id m.sequences ≡ some q) (idle : q.pending ≡ none) (some_tokens : 0 < n)
    (fits : q.committed_tokens + n ≤ m.config.max_sequence_length) (ps : List ℕ) (u : PagePool)
    (got : AllocatedAll m.config.num_pages
      (pages_needed m (q.committed_tokens + n) q)
      (owed_by m.sequences)
      (λ _. 0)
      m.pool
      ps
      u) where
  grown_extent : length (q.pages ++ ps) ≡ div_ceil (q.committed_tokens + n) m.config.block_size
  grown_extent = ground (
    arith,
    (v.each id q found).extent,
    idle,
    got.number,
    length-append q.pages ps,
    div_ceil_mono q.committed_tokens (q.committed_tokens + n) m.config.block_size v.blocks,
  )

  begun_pool :
      Inv m.config.num_pages
        (owed_by (OrdMap.insert id (grown q ps m.next_reservation) m.sequences))
        (λ _. 0)
        u
  begun_pool =
      subst (λ f. Inv m.config.num_pages f (λ _. 0) u)
        (fun_ext (λ p. omega (
          arith,
          owed_by-insert id p q (grown q ps m.next_reservation) m.sequences v.sequences_ordered
              found,
          count-append p q.pages ps,
        )))
        got.inv

  begun_sequence :
      SequenceInv m.config u
        (OrdMap.insert m.next_reservation (opened id q n) m.reservations)
        id
        (grown q ps m.next_reservation)
  begun_sequence = record {
    capacity = (v.each id q found).capacity;
    registered = (v.each id q found).registered;
    extent = ground (
      arith,
      grown_extent,
      OrdMap.lookup-insert m.next_reservation m.next_reservation (opened id q n) m.reservations,
    );
    bare = λ p h. elim (Bool-cases (ltb 0 (count p ps))) [
      | inl new ↦ got.bare p (ground arith)
      | inr old ↦ got.kept p (
          (v.each id q found).bare p (
            ground
              (arith, drop-append_count (q.committed_tokens / m.config.block_size) p q.pages ps)))
    ];
    pending = λ rid e. (
      opened id q n,
      ground (arith, OrdMap.lookup-insert m.next_reservation rid (opened id q n) m.reservations),
      refl,
    );
  }

  -- No other reservation belongs to the sequence.
  no_other :
      (rid : ℕ) (r : ReservationState)
      → OrdMap.lookup rid m.reservations ≡ some r
      → r.request_id ≢ id
  no_other rid r e same =
      let (q0, found0, waits, start) = (v.reserved rid r e).owner in
      ground (arith, found0, waits, same)

  begun_lookup :
      (rid : ℕ)
      → OrdMap.lookup rid (OrdMap.insert m.next_reservation (opened id q n) m.reservations) ≡ (
          if rid == m.next_reservation
          then some (opened id q n)
          else OrdMap.lookup rid m.reservations)
  begun_lookup rid = OrdMap.lookup-insert m.next_reservation rid (opened id q n) m.reservations

  begun_others :
      (rid : ℕ) (r : ReservationState)
      → r.request_id ≢ id
      → (OrdMap.lookup rid m.reservations ≡ some r) ↔ (
          OrdMap.lookup rid (OrdMap.insert m.next_reservation (opened id q n) m.reservations)
          ≡ some r)
  begun_others rid r other = (
    λ h.
        let below : rid < m.next_reservation = (v.reserved rid r h).fresh in
        ground (arith, begun_lookup rid),
    λ h. ground (arith, begun_lookup rid),
  )

  begun_own :
      (rid : ℕ) (r : ReservationState)
      → r.request_id ≡ id
      → OrdMap.lookup rid (OrdMap.insert m.next_reservation (opened id q n) m.reservations) ≡ some r
      → ReservationInv m.config (begun m id q n ps u).sequences (m.next_reservation + 1) rid r
  begun_own rid r same e = elim (Bool-cases (rid == m.next_reservation)) [
    | inl new ↦
        let is_new : opened id q n ≡ r = ground (arith, begun_lookup rid) in
        subst
          (λ x.
            ReservationInv m.config (begun m id q n ps u).sequences (m.next_reservation + 1) rid x)
          is_new
          (record {
            fresh = ground arith;
            owner = (
              grown q ps m.next_reservation,
              ground
                  (arith, OrdMap.lookup-insert id id (grown q ps m.next_reservation) m.sequences),
              ground arith,
              refl,
            );
            previous = ground (arith, (v.each id q found).extent, idle);
            within = fits;
            positive = some_tokens;
          })
    | inr old ↦ absurd (no_other rid r (ground (arith, begun_lookup rid)) same)
  ]

  pub begun-Inv : ManagerInv (begun m id q n ps u)
  begun-Inv =
      store-Inv m v id (grown q ps m.next_reservation) u
        (OrdMap.insert m.next_reservation (opened id q n) m.reservations) (m.next_reservation + 1)
        begun_pool (λ j q0 p other e w h. got.kept p h) begun_sequence
        (OrdMap.insert-IsOrdered m.next_reservation (opened id q n) m.reservations
          v.reservations_ordered)
        (omega arith) begun_others begun_own

-- What a successful call hands out.
pub record Begun (m : Manager) (id n : ℕ) (r : AppendReservation) (t : Manager) : Type 0 where
  pub inv : ManagerInv t
  pub before :
      (q : SequenceState) × (OrdMap.lookup id m.sequences ≡ some q)
      × (q.pending ≡ none)
      × (t ≡ begun m id q n r.newly_allocated_pages t.pool)
      × (r.start_position ≡ q.committed_tokens)
      × (r.block_table ≡ q.pages ++ r.newly_allocated_pages)
  pub named : (r.id ≡ m.next_reservation) × (r.request_id ≡ id) × (r.token_count ≡ n)
  pub context :
      (r.context_length ≡ r.start_position + n) × (r.context_length ≤ m.config.max_sequence_length)
  -- The page table covers the new context exactly.
  pub covers : length r.block_table ≡ div_ceil r.context_length m.config.block_size
  -- The new pages belonged to nobody.
  pub unowned : (p : ℕ) → 0 < count p r.newly_allocated_pages → owed_by m.sequences p ≡ 0
  pub taken : available_pages t.pool + length r.newly_allocated_pages ≡ available_pages m.pool
  pub ticks : t.next_tick ≡ m.next_tick

module _ (m : Manager) (v : ManagerInv m) (id n : ℕ) where
  -- All checks pass.
  pub begin_passes :
      (q : SequenceState)
      → OrdMap.lookup id m.sequences ≡ some q
      → q.pending ≡ none
      → 0 < n
      → q.committed_tokens + n ≤ m.config.max_sequence_length
      → pages_needed m (q.committed_tokens + n) q ≤ available_pages m.pool
      → m.next_reservation + 1 < u64_mod
      → Returns (Begun m id n) (begin_append id n m)
  unfolding begin_append reserve
  begin_passes q found idle some_tokens fits room next =
      let (ps, u, run, got) =
        allocate_pages_lem m.config.num_pages (pages_needed m (q.committed_tokens + n) q)
          (owed_by m.sequences) (λ _. 0) m.pool v.pool room in
      (
        record {
          id = m.next_reservation;
          request_id = id;
          start_position = q.committed_tokens;
          token_count = n;
          context_length = q.committed_tokens + n;
          newly_allocated_pages = ps;
          block_table = q.pages ++ ps;
        },
        begun m id q n ps u,
        ground (arith, run, v.short),
        record {
          inv = begun-Inv m v id n q found idle some_tokens fits ps u got;
          before = (q, found, idle, refl, refl, refl);
          named = (refl, refl, refl);
          context = (refl, fits);
          covers = grown_extent m v id n q found idle some_tokens fits ps u got;
          unowned = got.unowed;
          taken = omega (arith, got.taken, got.number);
          ticks = got.tick;
        },
      )

  refuse :
      (e : Error)
      → begin_append id n m ≡ err e m
      → Ensures (Begun m id n) (λ e t. t ≡ m) (begin_append id n m)
  refuse e h = rw h refl

  accept :
      Returns (Begun m id n) (begin_append id n m)
      → Ensures (Begun m id n) (λ e t. t ≡ m) (begin_append id n m)
  accept (r, t, h, b) = rw h b

  -- The checks behind the one on the pending reservation.
  begin_idle :
      (q : SequenceState)
      → OrdMap.lookup id m.sequences ≡ some q
      → q.pending ≡ none
      → 0 < n
      → Ensures (Begun m id n) (λ e t. t ≡ m) (begin_append id n m)
  unfolding begin_append reserve
  begin_idle q found idle pos_n =
      let end = q.committed_tokens + n in
      elim (dec_lt end u64_mod) [
        | no wraps ↦ refuse Error.length_overflow (ground arith)
        | yes short ↦ elim (dec_lt m.config.max_sequence_length end) [
          | yes long ↦
              refuse (Error.above_capacity id end m.config.max_sequence_length) (ground arith)
          | no fits ↦ elim (dec_lt (available_pages m.pool) (pages_needed m end q)) [
            | yes full ↦
                refuse (Error.out_of_pages (pages_needed m end q) (available_pages m.pool))
                  (ground arith)
            | no room ↦ elim (dec_lt (m.next_reservation + 1) u64_mod) [
              | no last ↦ refuse Error.reservation_overflow (ground arith)
              | yes next ↦ accept (begin_passes q found idle pos_n (omega arith) (omega arith) next)
            ]
          ]
        ]
      ]

  -- On a well-formed manager a call never panics. It reserves the pages that the new tokens need
  -- and keeps the manager well formed, or it returns an error and leaves the manager as it was.
  pub begin_append-Ensures : Ensures (Begun m id n) (λ e t. t ≡ m) (begin_append id n m)
  unfolding begin_append
  begin_append-Ensures = elim (dec_lt 0 n) [
    | no empty ↦ refuse Error.empty_append (ground arith)
    | yes pos_n ↦ elim (Option-cases (OrdMap.lookup id m.sequences)) [
      | inl missing ↦ refuse (Error.sequence_missing id) (ground arith)
      | inr (q, found) ↦ elim (Option-cases q.pending) [
        | inr (rid, waits) ↦ refuse (Error.already_pending id rid) (ground arith)
        | inl idle ↦ begin_idle q found idle pos_n
      ]
    ]
  ]
