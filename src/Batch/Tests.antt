-- ===== src/Batch/Tests.antt =====
-- The theorems on the scheduler and its gate at concrete inputs.
use ru_llm.Base.{
  ℕ, zero, suc, ◌≡◌, ◌<◌, arith, Ensures, ◌≤◌, ◌<◌, ◌⊎◌, refl, true, false, Option, none, some,
  List, [], ◌∷◌, ℤ, pos, length, ok,
}
use ru_llm.Base.Word.{div_ceil}
use ru_llm.Base.Results.{Result, value, error}
use ru_llm.PagedKv.Manager.{initial}
use ru_llm.Runtime.Errors.{RuntimeError}
use ru_llm.Batch.Types.{BatchError, GenerationConfig, Scheduler, ScheduledBatch}
use ru_llm.Batch.Draft.{IsContinuation, ngram_draft, ngram_draft_lem}
use ru_llm.Batch.Submit.{
  default_options, initial_scheduler, submit_with_sampler, any_negative, request_page_budget,
}
use ru_llm.Batch.Submit.Admitted.{Submitted, queued, submit_with_sampler-Ensures}
use ru_llm.Base.{◌+◌, ◌++◌, ltb, Bool}
use ru_llm.Base.OrdMap
use ru_llm.PagedKv.Types.{ReservationState}
use ru_llm.PagedKv.Manager.{empty_sequence}
use ru_llm.PagedKv.Invariant.{ManagerInv}
use ru_llm.Batch.Types.{FinishedGeneration}
use ru_llm.Batch.Schedule.{is_in_flight}
use ru_llm.Batch.Verify.{verify_row}
use ru_llm.Batch.Greedy.{forecast, generate, generate_after}
use ru_llm.Batch.Greedy.Verified.{HasTokens, verify_row-generate}
use ru_llm.Batch.Fenced.Quarantine.{GateCall, perform_all, with_finished, quarantine_is_final}
use ru_llm.Batch.Fenced.{
  Poll, poll_pending, poll_ready, Launch, launch_panicked, Gate, poll_fence, try_rollback,
}
use ru_llm.Batch.Fenced.Safety.{Polled, NotPolled, poll_fence-Ensures}
use ru_llm.PagedKv.Pool.{new_pool}
use ru_llm.PagedKv.Samples.{created, created-Inv, appending, appending-Inv}
use ru_llm.PagedKv.Groups.Ends.{HasTicksFor}
use ru_llm.PagedKv.Groups.Prefixes.{row_ids}
use ru_llm.Batch.Types.{BatchKind, RequestPhase, ActiveRequest, ScheduledSequence}
use ru_llm.Batch.Complete.{fail_batch}
use ru_llm.Batch.Complete.Failed.{HasPhases, RolledBack, reservation_ids, fail_batch-Ensures}
use ru_llm.Batch.Complete.Refused.{IsRefusal, Accepted, commits, complete_batch-atomic}
use ru_llm.Batch.Cancel.{cancel}
use ru_llm.Batch.Cancel.Outcomes.{Cancelled, NotCancelled, HasIdle, cancel-Ensures}
use ru_llm.Base.{◌*◌, ◌≤◌}
use ru_llm.Batch.Views.{flattened_block_table}
use ru_llm.Batch.Views.Table.{IsTable, NoTable, flattened_block_table-IsTable}
use ru_llm.Batch.Fenced.Rollback.{Rollback, NoRollback, try_rollback-Ensures}
use ru_llm.Batch.Submit.{is_present, minimum_batch_token_limit, set_batch_token_limit}
use ru_llm.Batch.Submit.Limits.{Fits, set_batch_token_limit-Ensures}

-- The history 1 2 3 1 2 repeats 1 2, which 3 followed.
abbrev looping : List ℤ
looping = pos 1 ∷ pos 2 ∷ pos 3 ∷ pos 1 ∷ pos 2 ∷ []

ngram_draft_lem_example :
    (ngram_draft looping 2 1 ≡ [])
    ⊎ ((n : ℕ) × (start : ℕ) × (0 < n)
        × (n ≤ 2)
        × IsContinuation looping 1 n start (ngram_draft looping 2 1))
ngram_draft_lem_example = ngram_draft_lem looping 2 1

-- A scheduler of two sequences and eight tokens a batch over three pages of two tokens.
abbrev idle : Scheduler ℕ
idle =
    initial_scheduler (record { max_active_sequences = 2; max_batch_tokens = 8 }) default_options
      (initial (record { block_size = 2; num_pages = 3; max_sequence_length = 6 }))

abbrev two_tokens : GenerationConfig
two_tokens = record { max_new_tokens = 2; eos_token_ids = pos 0 ∷ [] }

abbrev prompt : List ℤ
prompt = pos 5 ∷ pos 6 ∷ []

submit_with_sampler-Ensures_example :
    Submitted idle prompt two_tokens none 1
      (record idle { next_request = 2; pending = queued idle prompt two_tokens none 1 ∷ [] })
unfolding submit_with_sampler any_negative request_page_budget div_ceil
submit_with_sampler-Ensures_example = submit_with_sampler-Ensures idle prompt two_tokens none

-- The fence of batch 1 is a countdown.
abbrev countdown : ℕ → Poll × ℕ
countdown zero = (poll_ready, zero)
countdown (suc n) = (poll_pending, n)

abbrev waiting : Gate ℕ ℕ
waiting = record {
  scheduler = idle;
  tracked = some (record { batch_id = 1; fence = 2; completed = false });
  quarantined = false;
}

abbrev no_hash : ℕ → List ℤ → ℕ
no_hash parent block = parent

abbrev any_row : List ℕ → Result RuntimeError (Unit {0})
any_row row = value tt

abbrev always_zero : Scheduler ℕ → ℕ → List ℕ → Option ℕ → Result BatchError (ℤ × Option ℕ)
always_zero s id row sampler = value (pos 0, sampler)

abbrev panics : ScheduledBatch → Launch ℕ
panics batch = launch_panicked

abbrev gate_calls : List (GateCall ℕ ℕ ℕ)
gate_calls =
    GateCall.submits prompt two_tokens
    ∷ GateCall.launches panics
    ∷ GateCall.pops
    ∷ GateCall.rolls_back 1
    ∷ GateCall.completes 1 [] 3
    ∷ GateCall.cancels 1
    ∷ []

abbrev result : FinishedGeneration
result = record {
  request_id = 3;
  prompt_token_ids = prompt;
  generated_token_ids = pos 7 ∷ [];
  stopped_on_eos = false;
}

-- The gate is quarantined, and one result waits.
abbrev broken : Gate ℕ ℕ
broken = record waiting { scheduler = record idle { finished = result ∷ [] }; quarantined = true }

quarantine_is_final_example :
    (popped : List FinishedGeneration) × (rest : List FinishedGeneration)
    × (broken.scheduler.finished ≡ popped ++ rest)
    × (perform_all countdown no_hash any_row always_zero gate_calls broken
        ≡ some (with_finished countdown no_hash any_row always_zero broken rest))
quarantine_is_final_example =
    quarantine_is_final countdown no_hash any_row always_zero gate_calls broken refl

poll_fence-Ensures_example :
    Ensures
      (Polled countdown waiting 1)
      (NotPolled countdown waiting 1)
      (poll_fence countdown 1 waiting)
poll_fence-Ensures_example = poll_fence-Ensures countdown waiting 1

-- Request 7 has three prompt tokens in flight in batch 4.
abbrev row : ScheduledSequence
row = record {
  request_id = 7;
  token_ids = pos 1 ∷ pos 2 ∷ pos 3 ∷ [];
  start_position = 0;
  context_length = 3;
  block_table = 0 ∷ 1 ∷ [];
  reservation_id = 1;
}

abbrev batch : ScheduledBatch
batch = record { id = 4; kind = BatchKind.prefill; sequences = row ∷ [] }

abbrev request : ActiveRequest ℕ
request = record {
  prompt_token_ids = pos 1 ∷ pos 2 ∷ pos 3 ∷ [];
  generation = two_tokens;
  sampler = none;
  eos = pos 0 ∷ [];
  generated_token_ids = [];
  history = pos 1 ∷ pos 2 ∷ pos 3 ∷ [];
  admitted = 0;
  phase = RequestPhase.in_flight_of 4;
}

abbrev busy : Scheduler ℕ
busy = record idle {
  kv_cache = appending;
  active = (7, request) ∷ [];
  in_flight = some batch;
  next_batch = 5;
}

busy-only : (b : ScheduledBatch) → busy.in_flight ≡ some b → b ≡ batch
busy-only b held = ground (arith, held)

busy-HasTicks :
    (b : ScheduledBatch)
    → busy.in_flight ≡ some b
    → HasTicksFor (length (reservation_ids b.sequences)) appending
unfolding new_pool
busy-HasTicks b held = rw (busy-only b held) (omega arith)

busy-HasPhases : (b : ScheduledBatch) → busy.in_flight ≡ some b → HasPhases b.kind b.sequences
unfolding HasPhases
busy-HasPhases b held = rw (busy-only b held) ((RequestPhase.needs_prefill, refl), tt)

fail_batch-Ensures_example :
    Ensures (λ _ t. RolledBack busy 4 t) (λ e t. t ≡ busy) (fail_batch 4 busy)
fail_batch-Ensures_example = fail_batch-Ensures busy appending-Inv 4 busy-HasPhases busy-HasTicks

busy-HasTicksFor :
    (b : ScheduledBatch)
    → busy.in_flight ≡ some b
    → HasTicksFor (length (row_ids (commits b.sequences))) appending
unfolding new_pool
busy-HasTicksFor b held = rw (busy-only b held) (omega arith)

complete_batch-atomic_example :
    IsRefusal no_hash busy appending-Inv 4 (pos 9 ∷ [])
    ⊎ Accepted no_hash busy appending-Inv 4 (pos 9 ∷ [])
complete_batch-atomic_example =
    complete_batch-atomic no_hash busy appending-Inv 4 (pos 9 ∷ []) busy-HasTicksFor

-- Request 7 waits for its prefill and is cancelled.
abbrev ready : Scheduler ℕ
ready = record idle {
  kv_cache = created;
  active = (7, record request { phase = RequestPhase.needs_prefill }) ∷ [];
}

ready-HasIdle :
    (r : ActiveRequest ℕ)
    → OrdMap.lookup 7 ready.active ≡ some r
    → is_in_flight r.phase ≡ false
    → HasIdle ready.kv_cache 7
unfolding OrdMap.lookup
ready-HasIdle r found free = (empty_sequence, refl, refl)

cancel-Ensures_example : Ensures (Cancelled ready 7) (NotCancelled ready 7) (cancel 7 ready)
unfolding new_pool
cancel-Ensures_example = cancel-Ensures ready created-Inv (omega arith) 7 ready-HasIdle

-- Room for a vector of 32-bit numbers ends at 2 ^ 63 bytes.
abbrev below_isize : ℕ → Bool
below_isize n = ltb (n * 4) 9223372036854775808

flattened_block_table-IsTable_example :
    ((table : List ℕ) × (stride : ℕ) × (flattened_block_table below_isize batch
        ≡ value (table, stride))
      × IsTable batch table stride)
    ⊎ ((e : BatchError) × (flattened_block_table below_isize batch ≡ error e)
        × NoTable below_isize batch e)
flattened_block_table-IsTable_example = flattened_block_table-IsTable below_isize batch

-- The fence of batch 4 has completed.
abbrev fenced : Gate ℕ ℕ
fenced = record {
  scheduler = busy;
  tracked = some (record { batch_id = 4; fence = 0; completed = false });
  quarantined = false;
}

try_rollback-Ensures_example :
    Ensures
      (Rollback countdown fenced appending-Inv busy-HasPhases busy-HasTicks 4)
      (NoRollback countdown fenced appending-Inv busy-HasPhases busy-HasTicks 4)
      (try_rollback countdown 4 fenced)
try_rollback-Ensures_example =
    try_rollback-Ensures countdown fenced appending-Inv busy-HasPhases busy-HasTicks 4

-- The model counts; behind token 1 the draft 2 3 is right twice.
abbrev counting : List ℤ → ℤ
counting context = pos (length context + 1)

abbrev drafting : ActiveRequest ℕ
drafting = record request { prompt_token_ids = pos 1 ∷ []; history = pos 1 ∷ [] }

abbrev verifying : Scheduler ℕ
verifying = record busy { active = (7, drafting) ∷ [] }

abbrev reserved : ReservationState
reserved = record { request_id = 7; previous_page_count = 0; start_position = 0; token_count = 3 }

verifying-held : OrdMap.lookup row.reservation_id verifying.kv_cache.reservations ≡ some reserved
unfolding OrdMap.lookup
verifying-held = refl

verifying-active : OrdMap.lookup row.request_id verifying.active ≡ some drafting
unfolding OrdMap.lookup
verifying-active = refl

verifying-HasTicks : HasTicksFor 2 verifying.kv_cache
unfolding new_pool
verifying-HasTicks = omega arith

verify_row-generate_example :
    (produced : List ℤ) × (t : Scheduler ℕ) × (verify_row no_hash 3 row
        (forecast counting (pos 1 ∷ []) (pos 2 ∷ pos 3 ∷ []))
        verifying
      ≡ ok (7, produced) t)
    × (generate counting (pos 0 ∷ []) 2 (pos 1 ∷ [])
        ≡ produced ++ generate_after counting (pos 0 ∷ []) 2 (pos 1 ∷ []) produced)
    × (0 < length produced)
    × ManagerInv t.kv_cache
    × HasTokens row verifying drafting counting produced t
verify_row-generate_example =
    verify_row-generate counting no_hash 3 row verifying appending-Inv verifying-HasTicks drafting
      verifying-active (omega arith) reserved verifying-held refl (omega arith) (omega arith)
      (omega arith) (omega arith)

set_batch_token_limit-Ensures_example :
    Ensures
      (λ _ t.
        (t ≡ record ready { config = record ready.config { max_batch_tokens = 5 } })
        × (is_present ready.in_flight ≡ false)
        × Fits ready 5)
      (λ e t.
        (t ≡ ready) × ((is_present ready.in_flight ≡ true) ⊎ (5 < minimum_batch_token_limit ready)))
      (set_batch_token_limit 5 ready)
set_batch_token_limit-Ensures_example = set_batch_token_limit-Ensures ready 5
