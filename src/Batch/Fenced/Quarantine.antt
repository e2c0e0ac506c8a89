-- ===== src/Batch/Fenced/Quarantine.antt =====
-- Runs of calls of the gate (continuous_batch/fenced.rs), once it is quarantined.
use ru_llm.Base.{
  ℕ, ◌≡◌, ◌∙◌, refl, ap, sym, true, Option, none, some, List, [], ◌∷◌, ◌++◌, ℤ, Outcome, ok, err,
  panic,
}
use mathlib.Core.List.{append_assoc}
use ru_llm.Base.Results.{Result}
use ru_llm.Runtime.Errors.{RuntimeError}
use ru_llm.Batch.Types.{BatchError, GenerationConfig, FinishedGeneration, Scheduler, ScheduledBatch}
use ru_llm.Batch.Submit.{pop_finished}
use ru_llm.Batch.Fenced.{
  Poll, Launch, Gate, submit_gated, submit_sampled_gated, cancel_gated, set_limit_gated,
  pop_finished_gated, launch, poll_fence, try_rollback, try_complete_logits,
}

-- A call of a caller of the gate.
pub data GateCall (S F L : Type 0) : Type 0 where
  submits : List ℤ → GenerationConfig → GateCall S F L
  submits_sampled : List ℤ → GenerationConfig → Result BatchError S → GateCall S F L
  cancels : ℕ → GateCall S F L
  limits : ℕ → GateCall S F L
  launches : (ScheduledBatch → Launch F) → GateCall S F L
  rolls_back : ℕ → GateCall S F L
  completes : ℕ → List L → ℕ → GateCall S F L
  pops : GateCall S F L

-- The state behind a call, an error included.
abbrev state_after : {T E A : Type 0} → Outcome T E A → Option T
state_after (ok a t) = some t
state_after (err e t) = some t
state_after panic = none

taken_twice {ℓ} :
    {A : Type ℓ} (xs front rest front' rest' : List A)
    → xs ≡ front ++ rest
    → rest ≡ front' ++ rest'
    → xs ≡ (front ++ front') ++ rest'
taken_twice xs front rest front' rest' e h =
    e ∙ ap (λ ys. front ++ ys) h ∙ sym (append_assoc front front' rest')

module _ {S F L : Type 0} (poll_complete : F → Poll × F) (chain : ℕ → List ℤ → ℕ)
    (checked_argmax : List L → Result RuntimeError (Unit {0}))
    (select : Scheduler S → ℕ → List L → Option S → Result BatchError (ℤ × Option S)) where
  unfoldable pub perform : GateCall S F L → Gate S F → Option (Gate S F)
  unfolding submit_gated submit_sampled_gated cancel_gated set_limit_gated launch try_rollback
      try_complete_logits pop_finished_gated
  perform (submits prompt generation) g = state_after (submit_gated prompt generation g)
  perform (submits_sampled prompt generation sampler) g =
      state_after (submit_sampled_gated prompt generation sampler g)
  perform (cancels id) g = state_after (cancel_gated id g)
  perform (limits limit) g = state_after (set_limit_gated limit g)
  perform (launches work) g = state_after (launch chain work g)
  perform (rolls_back id) g = state_after (try_rollback poll_complete id g)
  perform (completes id logits vocabulary) g =
      state_after
        (try_complete_logits poll_complete chain checked_argmax select id logits vocabulary g)
  perform pops g = state_after (pop_finished_gated g)

  unfoldable pub perform_all : List (GateCall S F L) → Gate S F → Option (Gate S F)
  perform_all [] g = some g
  perform_all (call ∷ calls) g = elim (perform call g) [
    | none ↦ none
    | some t ↦ perform_all calls t
  ]

  -- The gate with another list of results.
  abbrev pub with_finished : Gate S F → List FinishedGeneration → Gate S F
  with_finished g results = record g { scheduler = record g.scheduler { finished = results } }

  -- One call takes at most the first result.
  quarantined_step :
      (call : GateCall S F L) (g : Gate S F)
      → g.quarantined ≡ true
      → (popped : List FinishedGeneration) × (rest : List FinishedGeneration)
        × (g.scheduler.finished ≡ popped ++ rest)
        × (perform call g ≡ some (with_finished g rest))
  unfolding perform submit_gated submit_sampled_gated cancel_gated set_limit_gated launch
      try_rollback try_complete_logits pop_finished_gated pop_finished poll_fence
  quarantined_step (submits prompt generation) g broken = ([], _, refl, rw broken refl)
  quarantined_step (submits_sampled prompt generation sampler) g broken =
      ([], _, refl, rw broken refl)
  quarantined_step (cancels id) g broken = ([], _, refl, rw broken refl)
  quarantined_step (limits limit) g broken = ([], _, refl, rw broken refl)
  quarantined_step (launches work) g broken = ([], _, refl, rw broken refl)
  quarantined_step (rolls_back id) g broken = ([], _, refl, rw broken refl)
  quarantined_step (completes id logits vocabulary) g broken = ([], _, refl, rw broken refl)
  quarantined_step pops g broken = take (g.scheduler.finished) refl
    where
      take :
          (results : List FinishedGeneration)
          → g.scheduler.finished ≡ results
          → (popped : List FinishedGeneration) × (rest : List FinishedGeneration)
            × (g.scheduler.finished ≡ popped ++ rest)
            × (perform pops g ≡ some (with_finished g rest))
      take [] e = ([], [], e, rw e refl)
      take (f ∷ rest) e = (f ∷ [], rest, e, rw e refl)

  -- In a quarantined gate, whatever calls follow in whatever order, none of them panics and nothing
  -- changes but that results leave the front of the finished list: no request enters, no batch
  -- starts, completes, rolls back or is cancelled, no page is given back, the fence stays as it is,
  -- and the gate stays quarantined.
  pub quarantine_is_final :
      (calls : List (GateCall S F L)) (g : Gate S F)
      → g.quarantined ≡ true
      → (popped : List FinishedGeneration) × (rest : List FinishedGeneration)
        × (g.scheduler.finished ≡ popped ++ rest)
        × (perform_all calls g ≡ some (with_finished g rest))
  unfolding perform_all
  quarantine_is_final [] g broken = ([], g.scheduler.finished, refl, refl)
  quarantine_is_final (call ∷ calls) g broken =
      let (popped, rest, first, run) = quarantined_step call g broken in
      let (popped', rest', more, runs) = quarantine_is_final calls (with_finished g rest) broken in
      (
        popped ++ popped',
        rest',
        taken_twice g.scheduler.finished popped rest popped' rest' first more,
        ap (λ o. elim o [ none ↦ none | some t ↦ perform_all calls t ]) run ∙ runs,
      )
