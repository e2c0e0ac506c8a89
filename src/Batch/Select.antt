-- ===== src/Batch/Select.antt =====
-- Sampling of a batch (continuous_batch/sampling.rs): the samplers advance only together with the
-- batch. The logits are floating-point, so their type `L` and the choice of a token from a row of
-- them are parameters.
use ru_llm.Base.{
  ℕ, zero, suc, Bool, false, ◌||◌, not, Option, none, some, List, [], ◌∷◌, ℤ, ◌==◌, if◌then◌else◌,
  length, ok, err, ◌>>=◌, ◌>>◌, pure, gets, or_fail, reject_if, expect, for_each,
}
use ru_llm.Base.OrdMap
use ru_llm.Base.Word.{checked_mul}
use ru_llm.Base.Results.{Result, value, error}
use ru_llm.Batch.Types.{BatchError, BatchAction, ActiveRequest, GenerationConfig, ScheduledSequence}
use ru_llm.Batch.Submit.{submit_with_sampler}
use ru_llm.Batch.Rows.{put_active}
use ru_llm.Batch.Complete.{samples_token, is_owned_by, no_token, complete_batch, in_flight_batch}

-- `&logits[row * vocabulary..(row + 1) * vocabulary]` is the next `vocabulary` entries.
pub record Selection (S : Type 0) : Type 0 where
  pub batch_id : ℕ
  pub tokens : List ℤ
  pub samplers : List (ℕ × S)

abbrev pub equals_size : Option ℕ → ℕ → Bool
equals_size none n = false
equals_size (some m) n = m == n

abbrev pub with_sampler {ℓ} : {S : Type ℓ} → ℕ → Option S → List (ℕ × S) → List (ℕ × S)
with_sampler id none rest = rest
with_sampler id (some sampler) rest = (id, sampler) ∷ rest

abbrev pub take_front {ℓ} : {A : Type ℓ} → ℕ → List A → Option (List A × List A)
take_front zero xs = some ([], xs)
take_front (suc n) [] = none
take_front (suc n) (x ∷ xs) = elim (take_front n xs) [
  | none ↦ none
  | some (front, rest) ↦ some (x ∷ front, rest)
]

module _ {S : Type 0} where
  abbrev pub owned_or_missing : ℕ → ℕ → BatchAction S (ActiveRequest S)
  owned_or_missing batch_id id = do
    request ← (λ s. or_fail (OrdMap.lookup id s.active) BatchError.missing_request s)
    reject_if (not (is_owned_by batch_id request.phase)) BatchError.not_owned
    pure request

  abbrev pub lift : {A : Type 0} → Result BatchError A → BatchAction S A
  lift (value a) s = ok a s
  lift (error e) s = err e s

module _ {S L : Type 0} (select : ℕ → List L → Option S → Result BatchError (ℤ × Option S)) where
  -- The loop of `select_batch_tokens_with` over the rows, their logits and the samplers left.
  unfoldable pub select_rows :
      ℕ
      → ℕ
      → List ScheduledSequence
      → List L
      → List (ℕ × Option S)
      → BatchAction S (List ℤ × List (ℕ × S))
  unfolding samples_token
  select_rows batch_id vocabulary [] logits state = pure ([], [])
  select_rows batch_id vocabulary (row ∷ rows) logits state = do
    request ← owned_or_missing batch_id row.request_id
    (values, later) ← (λ s. expect (take_front vocabulary logits) s)
    sampled ← gets (λ s. samples_token s row)
    if not sampled
        then (do
          (tokens, samplers) ← select_rows batch_id vocabulary rows later state
          pure (no_token ∷ tokens, samplers))
        else (do
          sampler ← (λ s. or_fail (OrdMap.lookup row.request_id state) BatchError.missing_sampler s)
          (token, next) ← lift (select row.request_id values sampler)
          (tokens, samplers) ←
              select_rows batch_id vocabulary rows later (OrdMap.remove row.request_id state)
          pure (token ∷ tokens, with_sampler row.request_id next samplers))

  unfoldable pub select_batch_tokens_with :
      ℕ → List L → ℕ → List (ℕ × Option S) → BatchAction S (Selection S)
  unfolding select_rows
  select_batch_tokens_with batch_id logits vocabulary state = do
    batch ← in_flight_batch batch_id
    reject_if
        (vocabulary == 0
          || not (equals_size (checked_mul (length batch.sequences) vocabulary) (length logits)))
        BatchError.wrong_row_count
    (tokens, samplers) ← select_rows batch_id vocabulary batch.sequences logits state
    pure (record { batch_id = batch_id; tokens = tokens; samplers = samplers })

-- `batch_sampling_state`: the samplers of the rows, as they are before the batch.
module _ {S : Type 0} where
  unfoldable pub sampling_state : List ScheduledSequence → BatchAction S (List (ℕ × Option S))
  sampling_state [] = pure []
  sampling_state (row ∷ rows) = do
    request ← (λ s. or_fail (OrdMap.lookup row.request_id s.active) BatchError.missing_request s)
    rest ← sampling_state rows
    pure (elim (OrdMap.lookup row.request_id rest) [
      | none ↦ OrdMap.insert row.request_id request.sampler rest
      | some _ ↦ rest
    ])

  unfoldable pub batch_sampling_state : ℕ → BatchAction S (List (ℕ × Option S))
  unfolding sampling_state
  batch_sampling_state batch_id = do
    batch ← in_flight_batch batch_id
    sampling_state batch.sequences

  abbrev pub store_sampler : ℕ × S → BatchAction S (Unit {0})
  store_sampler (id, sampler) = do
    request ← gets (λ s. OrdMap.lookup id s.active)
    elim request [ none ↦ pure tt | some r ↦ put_active id (record r { sampler = some sampler }) ]

  unfoldable pub complete_selected_batch : (ℕ → List ℤ → ℕ) → Selection S → BatchAction S (List ℤ)
  unfolding complete_batch for_each
  complete_selected_batch chain selection = do
    complete_batch chain selection.batch_id selection.tokens
    for_each selection.samplers store_sampler
    pure selection.tokens

  -- `submit_sampled_with_options`, with the sampler that its configuration gives.
  unfoldable pub submit_sampled : List ℤ → GenerationConfig → Result BatchError S → BatchAction S ℕ
  unfolding submit_with_sampler
  submit_sampled prompt generation (error e) s = err e s
  submit_sampled prompt generation (value sampler) s =
      submit_with_sampler prompt generation (some sampler) s
