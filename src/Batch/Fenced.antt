-- ===== src/Batch/Fenced.antt =====
-- The synchronization gate `FencedBatchScheduler` (continuous_batch/fenced.rs). The fence `F` and
-- its poll belong to the device adapter and are parameters; so is the device launch. A panic of one of these callbacks is the error `unwound`, with the
-- state in which a caller that catches it finds the gate.
pub mod Safety
pub mod Rollback
pub mod Quarantine
use ru_llm.Base.{
  ℕ, zero, suc, length, ◌≡◌, refl, Bool, true, false, ◌&&◌, ◌||◌, not, Option, none, some, List, ℤ,
  arith, ◌==◌, if◌then◌else◌, Outcome, ok, err, panic, Action, ◌>>=◌, ◌>>◌, pure, gets, modify,
  or_fail, reject_if, expect, fail,
}
use ru_llm.Base.Results.{Result, value, error}
use ru_llm.Runtime.Errors.{
  RuntimeError, RuntimeErrorKind, Message, WorkState, invalid, is_fatal, is_unknown,
}
use ru_llm.Batch.Types.{
  BatchError, BatchAction, GenerationConfig, Scheduler, ScheduledBatch, CancelledGeneration,
  FinishedGeneration,
}
use ru_llm.Batch.Submit.{submit, is_present, pop_finished, set_batch_token_limit}
use ru_llm.Batch.Schedule.{schedule}
use ru_llm.Batch.Complete.{fail_batch}
use ru_llm.Batch.Cancel.{cancel}
use ru_llm.Batch.Select.{
  Selection, submit_sampled, complete_selected_batch, batch_sampling_state,
  select_batch_tokens_with, take_front, equals_size,
}
use ru_llm.Base.Word.{checked_mul}

pub data Poll : Type 0 where
  poll_pending : Poll
  poll_ready : Poll
  poll_failed : RuntimeError → Poll
  poll_panicked : Poll

pub record LaunchFailure : Type 0 where
  pub failure : RuntimeError
  pub work : WorkState
  pub committed_cache_intact : Bool

pub data Launch (F : Type 0) : Type 0 where
  launched : F → Launch F
  launch_failed : LaunchFailure → Launch F
  launch_panicked : Launch F

pub data GateError : Type 0 where
  runtime : RuntimeError → GateError
  unwound : GateError

-- The tracked fence, with its batch and with whether it has completed.
pub record Tracked (F : Type 0) : Type 0 where
  pub batch_id : ℕ
  pub fence : F
  pub completed : Bool

pub record Gate (S F : Type 0) : Type 0 where
  pub scheduler : Scheduler S
  pub tracked : Option (Tracked F)
  pub quarantined : Bool

abbrev pub GateAction : Type 0 → Type 0 → Type 0 → Type 0
GateAction S F A = Action (Gate S F) GateError A

abbrev pub scheduler_failure : GateError
scheduler_failure =
    runtime (record { kind = RuntimeErrorKind.invalid_input; message = Message.scheduler_error })

-- The error of a quarantined gate.
abbrev pub refusal : GateError
refusal =
    runtime
      (record { kind = RuntimeErrorKind.device_lost; message = Message.quarantined_scheduler })

unfoldable pub invalid_gate : Message → GateError
unfolding invalid
invalid_gate msg = runtime (invalid msg)

-- Whether a failed launch may be rolled back.
unfoldable pub is_safe_failure : LaunchFailure → Bool
is_safe_failure f =
    not (is_unknown f.work) && f.committed_cache_intact && not (is_fatal f.failure.kind)

module _ {S F : Type 0} where
  unfoldable pub new_gate {ℓ} : {T : Type ℓ} → Scheduler S → Action T GateError (Gate S F)
  unfolding invalid_gate
  new_gate scheduler = do
    reject_if (is_present scheduler.in_flight) (invalid_gate Message.untracked_work)
    pure (record { scheduler = scheduler; tracked = none; quarantined = false })

  -- A call on the scheduler, with its error mapped.
  abbrev pub on_scheduler : {A : Type 0} → BatchAction S A → GateAction S F A
  on_scheduler act g = elim (act g.scheduler) [
    | ok a s ↦ ok a (record g { scheduler = s })
    | err e s ↦ err scheduler_failure (record g { scheduler = s })
    | panic ↦ panic
  ]

  unfoldable pub ensure_healthy : GateAction S F (Unit {0})
  ensure_healthy = do broken ← gets (λ g. g.quarantined); reject_if broken refusal

  abbrev pub quarantine : Bool → GateAction S F (Unit {0})
  quarantine b = modify (λ g. record g { quarantined = b })

  unfoldable pub submit_gated : List ℤ → GenerationConfig → GateAction S F ℕ
  unfolding ensure_healthy
  submit_gated prompt generation = do ensure_healthy; on_scheduler (submit prompt generation)

  unfoldable pub submit_sampled_gated :
      List ℤ → GenerationConfig → Result BatchError S → GateAction S F ℕ
  unfolding ensure_healthy
  submit_sampled_gated prompt generation sampler = do
    ensure_healthy
    on_scheduler (submit_sampled prompt generation sampler)

  unfoldable pub cancel_gated : ℕ → GateAction S F (Option CancelledGeneration)
  unfolding ensure_healthy
  cancel_gated id = do ensure_healthy; on_scheduler (cancel id)

  -- No check of the gate's health.
  unfoldable pub pop_finished_gated : GateAction S F (Option FinishedGeneration)
  unfolding pop_finished
  pop_finished_gated g =
      let (result, s) = pop_finished g.scheduler in ok result (record g { scheduler = s })

  unfoldable pub set_limit_gated : ℕ → GateAction S F (Unit {0})
  unfolding ensure_healthy
  set_limit_gated limit = do ensure_healthy; on_scheduler (set_batch_token_limit limit)

  -- A failed launch: it is rolled back only when that is safe, and the error is returned.
  abbrev pub after_failure : ScheduledBatch → LaunchFailure → GateAction S F (Option ScheduledBatch)
  after_failure batch f =
      if is_safe_failure f
      then (do on_scheduler (fail_batch batch.id); quarantine false; fail (runtime f.failure))
      else fail (runtime f.failure)

  abbrev pub after_launch : ScheduledBatch → Launch F → GateAction S F (Option ScheduledBatch)
  after_launch batch (launched fence) = do
    modify (λ g. record g {
      tracked = some (record { batch_id = batch.id; fence = fence; completed = false });
      quarantined = false;
    })
    pure (some batch)
  after_launch batch (launch_failed f) = after_failure batch f
  after_launch batch launch_panicked = fail unwound

  module _ (chain : ℕ → List ℤ → ℕ) where
    unfoldable pub launch : (ScheduledBatch → Launch F) → GateAction S F (Option ScheduledBatch)
    unfolding ensure_healthy is_safe_failure
    launch submit_work = do
      ensure_healthy
      scheduled ← on_scheduler (schedule chain)
      elim scheduled [
        | none ↦ pure none
        | some batch ↦ do quarantine true; after_launch batch (submit_work batch)
      ]

  module _ (poll_complete : F → Poll × F) where
    -- True when the batch has completed.
    abbrev pub after_poll : Tracked F → Poll × F → GateAction S F Bool
    after_poll t (poll_pending, fence) = do
      modify (λ g. record g { tracked = some (record t { fence = fence }); quarantined = false })
      pure false
    after_poll t (poll_ready, fence) = do
      modify (λ g. record g {
        tracked = some (record t { fence = fence; completed = true });
        quarantined = false;
      })
      pure true
    after_poll t (poll_failed e, fence) = do
      modify (λ g. record g { tracked = some (record t { fence = fence }) })
      fail (runtime e)
    after_poll t (poll_panicked, fence) = do
      modify (λ g. record g { tracked = some (record t { fence = fence }) })
      fail unwound

    unfoldable pub poll_fence : ℕ → GateAction S F Bool
    unfolding ensure_healthy invalid_gate
    poll_fence batch_id = do
      ensure_healthy
      tracked ← gets (λ g. g.tracked)
      t ← (λ g. or_fail tracked (invalid_gate Message.no_tracked_batch) g)
      reject_if (not (t.batch_id == batch_id)) (invalid_gate Message.stale_fence)
      if t.completed then pure true else (do quarantine true; after_poll t (poll_complete t.fence))

    abbrev pub release_fence : GateAction S F (Unit {0})
    release_fence = modify (λ g. record g { tracked = none })

    unfoldable pub try_rollback : ℕ → GateAction S F Bool
    try_rollback batch_id = do
      ready ← poll_fence batch_id
      if not ready
          then pure false
          else (do on_scheduler (fail_batch batch_id); release_fence; pure true)

    -- The choice of a token from a row of logits reads the scheduler; `checked_argmax` refuses rows
    -- that are not numbers. Both are floating-point code and parameters.
    module _ {L : Type 0} (chain : ℕ → List ℤ → ℕ)
        (checked_argmax : List L → Result RuntimeError (Unit {0}))
        (select : Scheduler S → ℕ → List L → Option S → Result BatchError (ℤ × Option S)) where
      abbrev pub lift_runtime : Result RuntimeError (Unit {0}) → GateAction S F (Unit {0})
      lift_runtime (value a) g = ok a g
      lift_runtime (error e) g = err (runtime e) g

      -- The loop over `chunks_exact`, with the number of chunks first.
      unfoldable pub check_rows : ℕ → ℕ → List L → GateAction S F (Unit {0})
      check_rows zero vocabulary logits = pure tt
      check_rows (suc rows) vocabulary logits = do
        (values, later) ← (λ g. expect (take_front vocabulary logits) g)
        lift_runtime (checked_argmax values)
        check_rows rows vocabulary later

      unfoldable pub select_batch_tokens : ℕ → List L → ℕ → BatchAction S (Selection S)
      unfolding batch_sampling_state select_batch_tokens_with
      select_batch_tokens batch_id logits vocabulary s = elim (batch_sampling_state batch_id s) [
        | ok state t ↦ select_batch_tokens_with (select s) batch_id logits vocabulary state t
        | err e t ↦ err e t
        | panic ↦ panic
      ]

      unfoldable pub try_complete_logits : ℕ → List L → ℕ → GateAction S F (Option (List ℤ))
      unfolding complete_selected_batch check_rows select_batch_tokens invalid_gate
      try_complete_logits batch_id logits vocabulary = do
        ready ← poll_fence batch_id
        if not ready then pure none else (do
          batch ← (λ g. expect g.scheduler.in_flight g)
          reject_if
              (vocabulary == 0
                || not
                    (equals_size (checked_mul (length batch.sequences) vocabulary) (length logits)))
              (invalid_gate Message.logit_shape)
          check_rows (length batch.sequences) vocabulary logits
          selected ← on_scheduler (select_batch_tokens batch_id logits vocabulary)
          tokens ← on_scheduler (complete_selected_batch chain selected)
          release_fence
          pure (some tokens))
