-- ===== src/Batch/Cancel/Outcomes.antt =====
-- What `cancel` does on every branch.
use ru_llm.Base.{
  ℕ, ◌≡◌, ◌⊎◌, refl, ap, inl, inr, true, false, Option, none, some, List, [], ◌∷◌, ◌++◌, map, count,
  ◌==◌, arith, ok, err, Ensures, Bool-cases, Option-cases,
}
use ru_llm.Base.OrdMap
use ru_llm.PagedKv.Types.{SequenceState, Manager}
use ru_llm.PagedKv.Invariant.{ManagerInv}
use ru_llm.PagedKv.Finish.{HasTicks}
use ru_llm.PagedKv.Lifecycle.{Removed, remove_run}
use ru_llm.Batch.Types.{
  BatchError, PendingRequest, ActiveRequest, CancelledGeneration, Scheduler, in_flight_request,
}
use ru_llm.Batch.Schedule.{is_in_flight}
use ru_llm.Batch.Cancel.{remove_key, take_pending, cancel}

-- The request has a sequence without a pending append.
abbrev pub HasIdle : Manager → ℕ → Type 0
HasIdle m id = (q : SequenceState) × (OrdMap.lookup id m.sequences ≡ some q) × (q.pending ≡ none)

module _ {S : Type 0} where
  abbrev pub queued_ids : List (PendingRequest S) → List ℕ
  queued_ids rs = map (λ r. r.id) rs

  -- The first request with the id, and the queue without it.
  pub record IsTaken (id : ℕ) (queue rest : List (PendingRequest S)) (r : PendingRequest S)
      : Type 0 where
    pub front : List (PendingRequest S)
    pub back : List (PendingRequest S)
    pub whole : queue ≡ front ++ r ∷ back
    pub kept : rest ≡ front ++ back
    pub named : r.id ≡ id
    pub first : count id (queued_ids front) ≡ 0

  take_pending_lem :
      (id : ℕ) (queue : List (PendingRequest S))
      → ((take_pending id queue ≡ none) × (count id (queued_ids queue) ≡ 0))
        ⊎ ((r : PendingRequest S) × (rest : List (PendingRequest S)) × (take_pending id queue
              ≡ some (r, rest))
            × IsTaken id queue rest r)
  unfolding take_pending count
  take_pending_lem id [] = inl (refl, refl)
  take_pending_lem id (q ∷ queue) = elim (Bool-cases (q.id == id)) [
    | inl here ↦ inr (
      q,
      queue,
      rw here refl,
      record {
        front = [];
        back = queue;
        whole = refl;
        kept = refl;
        named = ground (arith, here);
        first = refl;
      },
    )
    | inr other ↦ elim (take_pending_lem id queue) [
      | inl (nothing, absent) ↦ inl (rw (other, nothing) refl, ground (arith, other, absent))
      | inr (r, rest, found, taken) ↦ inr (
        r,
        q ∷ rest,
        rw (other, found) refl,
        record {
          front = q ∷ taken.front;
          back = taken.back;
          whole = ap (λ t. q ∷ t) taken.whole;
          kept = ap (λ t. q ∷ t) taken.kept;
          named = taken.named;
          first = ground (arith, other, taken.first);
        },
      )
    ]
  ]

  -- A queued request leaves the queue.
  abbrev pub Unqueued : Scheduler S → ℕ → CancelledGeneration → Scheduler S → Type 0
  Unqueued s id c t =
      (r : PendingRequest S) × (rest : List (PendingRequest S)) × IsTaken id s.pending rest r
      × (t ≡ record s { pending = rest; deferred_prefill = remove_key id s.deferred_prefill })
      × (c ≡ record {
        request_id = id;
        prompt_token_ids = r.prompt_token_ids;
        generated_token_ids = [];
      })

  -- A ready request leaves the scheduler, and its pages the sequence.
  abbrev pub Dropped : Scheduler S → ℕ → CancelledGeneration → Scheduler S → Type 0
  Dropped s id c t =
      (r : ActiveRequest S) × (OrdMap.lookup id s.active ≡ some r)
      × (is_in_flight r.phase ≡ false)
      × Removed s.kv_cache id t.kv_cache
      × (t ≡ record s {
        kv_cache = t.kv_cache;
        active = OrdMap.remove id s.active;
        deferred_prefill = remove_key id s.deferred_prefill;
      })
      × (c ≡ record {
        request_id = id;
        prompt_token_ids = r.prompt_token_ids;
        generated_token_ids = r.generated_token_ids;
      })

  abbrev pub Cancelled : Scheduler S → ℕ → Option CancelledGeneration → Scheduler S → Type 0
  Cancelled s id none t =
      (t ≡ s) × (count id (queued_ids s.pending) ≡ 0) × (OrdMap.lookup id s.active ≡ none)
  Cancelled s id (some c) t = Unqueued s id c t ⊎ Dropped s id c t

  -- An active request in flight.
  abbrev pub NotCancelled : Scheduler S → ℕ → BatchError → Scheduler S → Type 0
  NotCancelled s id e t =
      (t ≡ s)
      × ((r : ActiveRequest S) × (OrdMap.lookup id s.active ≡ some r)
          × (is_in_flight r.phase ≡ true)
          × (e ≡ in_flight_request))

  module _ (s : Scheduler S) (v : ManagerInv s.kv_cache) (room : HasTicks s.kv_cache) (id : ℕ)
      (idle : (r : ActiveRequest S)
        → OrdMap.lookup id s.active ≡ some r
        → is_in_flight r.phase ≡ false
        → HasIdle s.kv_cache id) where
    drop_active :
        (r : ActiveRequest S)
        → take_pending id s.pending ≡ none
        → OrdMap.lookup id s.active ≡ some r
        → is_in_flight r.phase ≡ false
        → Ensures (Cancelled s id) (NotCancelled s id) (cancel id s)
    unfolding cancel
    drop_active r unqueued found ready =
        let (q, held, free) = idle r found ready in
        let (u, run, removed) = remove_run s.kv_cache v id q held free room in
        let t : Scheduler S = record s {
          kv_cache = record s.kv_cache {
            pool = u;
            sequences = OrdMap.remove id s.kv_cache.sequences;
          };
          active = OrdMap.remove id s.active;
          deferred_prefill = remove_key id s.deferred_prefill;
        } in
        let c : CancelledGeneration = record {
          request_id = id;
          prompt_token_ids = r.prompt_token_ids;
          generated_token_ids = r.generated_token_ids;
        } in
        let done : cancel id s ≡ ok (some c) t = ground (arith, unqueued, found, ready, run) in
        rw done (inr (r, found, ready, removed, refl, refl))

    -- On a well-formed cache with room in the LRU counter, in which the request, if it is active
    -- and ready, has a sequence without a pending append, cancelling never panics. A queued request
    -- leaves the queue, in which the others keep their order; a ready one leaves the scheduler, and
    -- its sequence is removed and its pages go back to the pool; the tokens of both are returned.
    -- An unknown request gives none, and a request in flight, and only that, an error; then nothing
    -- changes.
    pub cancel-Ensures : Ensures (Cancelled s id) (NotCancelled s id) (cancel id s)
    unfolding cancel
    cancel-Ensures = elim (take_pending_lem id s.pending) [
      | inr (r, rest, found, taken) ↦ rw found (inl (r, rest, taken, refl, refl))
      | inl (nothing, absent) ↦ elim (Option-cases (OrdMap.lookup id s.active)) [
        | inl unknown ↦
            let none_found : cancel id s ≡ ok none s = ground (arith, nothing, unknown) in
            rw none_found (refl, absent, unknown)
        | inr (r, active) ↦ elim (Bool-cases (is_in_flight r.phase)) [
          | inl busy ↦
              let refused : cancel id s ≡ err in_flight_request s =
                ground (arith, nothing, active, busy) in
              rw refused (refl, (r, active, busy, refl))
          | inr ready ↦ drop_active r nothing active ready
        ]
      ]
    ]
