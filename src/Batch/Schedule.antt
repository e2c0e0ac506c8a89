-- ===== src/Batch/Schedule.antt =====
-- `promote_pending`, `try_schedule`, `preempt_newest` and `schedule` (continuous_batch.rs).
use ru_llm.Base.{
  ℕ, zero, suc, ◌+◌, ◌-◌, Bool, true, false, ◌&&◌, ◌||◌, not, Option, none, some, List, [], ◌∷◌, ℤ,
  ltb, ◌==◌, if◌then◌else◌, length, ◌>>=◌, ◌>>◌, pure, gets, modify, or_fail, reject_if, assert,
  abort,
}
use ru_llm.Base.OrdMap.{has_key}
use ru_llm.Base.Word.{u64_mod, checked_sub}
use ru_llm.PagedKv.Manager.{block_table, create_sequence}
use ru_llm.PagedKv.Commit.{remove_sequence}
use ru_llm.PagedKv.Prefix.{create_sequence_with_prefix}
use ru_llm.Batch.Types.{
  BatchError, BatchAction, AdmissionPolicy, PendingRequest, ActiveRequest, RequestPhase,
  ScheduledBatch, on_kv, on_demand, reserve_sequence_capacity, needs_prefill, in_flight_of,
}
use ru_llm.Batch.Views.{is_empty}
use ru_llm.Batch.Submit.{request_page_budget, is_present}
use ru_llm.Batch.Rows.{schedule_decode, schedule_prefill, expect_active, put_active}
use ru_llm.Batch.Verify.{schedule_verify}

abbrev pub below_ceiling : Option ℕ → ℕ → Bool
below_ceiling none id = true
below_ceiling (some ceiling) id = ltb id ceiling

abbrev pub reserves : AdmissionPolicy → Bool
reserves on_demand = false
reserves reserve_sequence_capacity = true

abbrev pub is_in_flight : RequestPhase → Bool
is_in_flight (in_flight_of b) = true
is_in_flight _ = false

-- The greatest pair `(admitted, id)`.
abbrev pub newer : ℕ × ℕ → ℕ × ℕ → Bool
newer (a, i) (b, j) = ltb b a || (a == b && ltb j i)

unfoldable pub newest : ℕ × ℕ → List (ℕ × ℕ) → ℕ × ℕ
newest best [] = best
newest best (h ∷ hs) = newest (if newer best h then best else h) hs

module _ {S : Type 0} where
  abbrev pub budget_of : ℕ → ActiveRequest S → ℕ
  budget_of block_size r = request_page_budget (length r.prompt_token_ids) r.generation block_size

  abbrev pub pending_budget : ℕ → PendingRequest S → ℕ
  pending_budget block_size r =
      request_page_budget (length r.prompt_token_ids) r.generation block_size

  -- The loop of `promote_pending` that subtracts the budgets of the active requests.
  unfoldable pub subtract_budgets : ℕ → ℕ → List (ℕ × ActiveRequest S) → Option ℕ
  subtract_budgets block_size available [] = some available
  subtract_budgets block_size available ((id, r) ∷ rs) =
      elim (checked_sub available (budget_of block_size r)) [
        | none ↦ none
        | some left ↦ subtract_budgets block_size left rs
      ]

  abbrev pub is_ready_to_promote : List ℕ → Option ℕ → PendingRequest S → Bool
  is_ready_to_promote deferred ceiling r = not (has_key r.id deferred) && below_ceiling ceiling r.id

  -- The first ready request, and the queue without it.
  unfoldable pub take_ready :
      List ℕ
      → Option ℕ
      → List (PendingRequest S)
      → Option (PendingRequest S × List (PendingRequest S))
  take_ready deferred ceiling [] = none
  take_ready deferred ceiling (r ∷ rs) =
      let rest = take_ready deferred ceiling rs in
      if is_ready_to_promote deferred ceiling r
      then some (r, rs)
      else (elim rest [ none ↦ none | some (q, qs) ↦ some (q, r ∷ qs) ])

  abbrev pub activated : PendingRequest S → ℕ → ActiveRequest S
  activated r admitted = record {
    prompt_token_ids = r.prompt_token_ids;
    generation = r.generation;
    sampler = r.sampler;
    eos = r.generation.eos_token_ids;
    generated_token_ids = [];
    history = r.prompt_token_ids;
    admitted = admitted;
    phase = needs_prefill;
  }

  -- A request that holds pages and that no batch uses.
  unfoldable pub page_holders : List (ℕ × ActiveRequest S) → BatchAction S (List (ℕ × ℕ))
  page_holders [] = pure []
  page_holders ((id, r) ∷ rs) = if is_in_flight r.phase then page_holders rs else (do
    table ← on_kv (block_table id)
    rest ← page_holders rs
    pure (if is_empty table then rest else (r.admitted, id) ∷ rest))

  abbrev pub preempt : ℕ → BatchAction S Bool
  preempt victim = do
    on_kv (remove_sequence victim)
    on_kv (create_sequence victim)
    request ← expect_active victim
    put_active victim (record request { phase = needs_prefill })
    count ← gets (λ s. s.preemptions)
    assert (ltb (count + 1) u64_mod)
    modify (λ s. record s { preemptions = count + 1; prefer_prefill = false })
    pure true

  abbrev pub preempt_among : List (ℕ × ℕ) → BatchAction S Bool
  preempt_among [] = pure false
  preempt_among (h ∷ []) = pure false
  preempt_among (h ∷ k ∷ hs) = preempt (newest h (k ∷ hs)).1

  unfoldable pub preempt_newest : BatchAction S Bool
  unfolding page_holders newest
  preempt_newest = do
    requests ← gets (λ s. s.active)
    holders ← page_holders requests
    preempt_among holders

  abbrev pub turn_to_decode : ScheduledBatch → Bool → BatchAction S (Option ScheduledBatch)
  turn_to_decode batch prefer = do
    modify (λ s. record s { prefer_prefill = prefer })
    pure (some batch)

  -- The first of two attempts that gives a batch; then the next turn prefers prefill or not.
  abbrev pub or_else :
      BatchAction S (Option ScheduledBatch)
      → Bool
      → BatchAction S (Option ScheduledBatch)
      → BatchAction S (Option ScheduledBatch)
  or_else first prefer next = do
    found ← first
    elim found [ none ↦ next | some batch ↦ turn_to_decode batch prefer ]

  -- An attempt under a condition.
  abbrev pub attempt :
      Bool → BatchAction S (Option ScheduledBatch) → BatchAction S (Option ScheduledBatch)
  attempt test act = if test then act else pure none

  unfoldable pub try_schedule : BatchAction S (Option ScheduledBatch)
  try_schedule = do
    prefer ← gets (λ s. s.prefer_prefill)
    or_else (attempt prefer schedule_prefill) false (do
      modify (λ s. record s { speculative_turn = not s.speculative_turn })
      turn ← gets (λ s. s.speculative_turn)
      or_else (attempt turn schedule_verify) true
          (or_else schedule_decode true (or_else schedule_prefill false (pure none))))

  -- The loop of `schedule`, with the rounds left first: every round but the last preempts a
  -- request that holds pages.
  unfoldable pub schedule_loop : ℕ → BatchAction S (Option ScheduledBatch)
  unfolding try_schedule preempt_newest
  schedule_loop zero = abort
  schedule_loop (suc rounds) = do
    batch ← try_schedule
    elim batch [
      | some b ↦ do modify (λ s. record s { in_flight = some b }); pure (some b)
      | none ↦ do
        preempts ← gets (λ s. s.recompute_preemption)
        freed ← (if preempts then preempt_newest else pure false)
        if freed then schedule_loop rounds else pure none
    ]

  module _ (chain : ℕ → List ℤ → ℕ) where
    abbrev pub admit : PendingRequest S → List (PendingRequest S) → BatchAction S (Unit {0})
    admit r rest = do
      modify (λ s. record s { pending = rest })
      _ ← on_kv (create_sequence_with_prefix chain r.id r.prompt_token_ids)
      admitted ← gets (λ s. s.next_admission)
      assert (ltb (admitted + 1) u64_mod)
      modify (λ s. record s { next_admission = admitted + 1 })
      put_active r.id (activated r admitted)

    -- The `while` of `promote_pending`, with the rounds left first: a round takes one request off
    -- the queue.
    unfoldable pub promote : ℕ → ℕ → BatchAction S (Unit {0})
    unfolding take_ready request_page_budget
    promote zero available = pure tt
    promote (suc rounds) available = do
      room ← gets (λ s. ltb (length s.active) s.config.max_active_sequences)
      ready ← gets (λ s. take_ready s.deferred_prefill s.admission_ceiling s.pending)
      strict ← gets (λ s. reserves s.options.kv_admission)
      block_size ← gets (λ s. s.kv_cache.config.block_size)
      if not room then pure tt else (elim ready [
        | none ↦ pure tt
        | some (r, rest) ↦
            if strict && ltb available (pending_budget block_size r) then pure tt else (do
              admit r rest
              promote rounds
                  (if strict then available - pending_budget block_size r else available))
      ])

    abbrev pub pages_left : BatchAction S ℕ
    pages_left = do
      strict ← gets (λ s. reserves s.options.kv_admission)
      c ← gets (λ s. s.kv_cache.config)
      requests ← gets (λ s. s.active)
      if strict
          then (λ s.
              or_fail (subtract_budgets c.block_size c.num_pages requests)
                BatchError.budgets_above_pool s)
          else pure c.num_pages

    unfoldable pub promote_pending : BatchAction S (Unit {0})
    unfolding subtract_budgets request_page_budget promote
    promote_pending = do
      available ← pages_left
      waiting ← gets (λ s. length s.pending)
      promote waiting available

    unfoldable pub schedule : BatchAction S (Option ScheduledBatch)
    unfolding promote_pending schedule_loop
    schedule = do
      busy ← gets (λ s. is_present s.in_flight)
      reject_if busy BatchError.still_in_flight
      next ← gets (λ s. s.next_batch)
      reject_if (next == u64_mod - 1) BatchError.batch_id_overflow
      promote_pending
      rounds ← gets (λ s. length s.active)
      schedule_loop (rounds + 1)
