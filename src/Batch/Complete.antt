-- ===== src/Batch/Complete.antt =====
-- `complete_batch` and `fail_batch` (continuous_batch.rs), and `complete_greedy_batch`
-- (continuous_batch/sampling.rs).
pub mod Owned
pub mod Failed
pub mod Refused
use ru_llm.Base.{
  ℕ, Bool, false, ◌&&◌, ◌||◌, not, Option, none, some, List, [], ◌∷◌, ◌++◌, map, ℤ, negsuc, ltb,
  leb, ◌==◌, if◌then◌else◌, length, ok, err, panic, ◌>>=◌, ◌>>◌, pure, gets, reject_if, expect,
  for_each,
}
use ru_llm.Base.OrdMap
use ru_llm.PagedKv.Manager.{ManagerAction}
use ru_llm.PagedKv.Commit.{commit_append_prefixes, cancel_appends}
use ru_llm.PagedKv.Prefix.{register_prefix}
use ru_llm.Batch.Types.{
  BatchKind, BatchError, BatchAction, ActiveRequest, RequestPhase, Scheduler, ScheduledSequence,
  ScheduledBatch, on_kv, prefill, decode, verify, needs_prefill, awaiting_decode, in_flight_of,
}
use ru_llm.Batch.Submit.{is_present, is_negative}
use ru_llm.Batch.Rows.{expect_active, put_active}
use ru_llm.Batch.Verify.{take_batch, restore_batch, finish_request, is_done, contains_token}

abbrev pub is_owned_by : ℕ → RequestPhase → Bool
is_owned_by id (in_flight_of b) = b == id
is_owned_by id _ = false

-- `NO_TOKEN`.
abbrev pub no_token : ℤ
no_token = negsuc 0

-- The phase that a row of a failed batch goes back to; a decode row has a token.
abbrev pub decode_phase : List ℤ → Option RequestPhase
decode_phase [] = none
decode_phase (token ∷ tokens) = some (awaiting_decode token)

abbrev pub previous_phase : BatchKind → List ℤ → Option RequestPhase
previous_phase prefill tokens = some needs_prefill
previous_phase decode tokens = decode_phase tokens
previous_phase verify tokens = decode_phase tokens

module _ {S : Type 0} where
  -- `samples_token`: the row ends at the end of the history.
  abbrev pub ends_history : ScheduledSequence → Option (ActiveRequest S) → Bool
  ends_history row none = false
  ends_history row (some r) = leb (length r.history) row.context_length

  unfoldable pub samples_token : Scheduler S → ScheduledSequence → Bool
  samples_token s row = ends_history row (OrdMap.lookup row.request_id s.active)

  -- A token-producing row with a negative token, over the zipped rows and tokens.
  unfoldable pub any_bad_token : Scheduler S → List ScheduledSequence → List ℤ → Bool
  unfolding samples_token
  any_bad_token s (row ∷ rows) (token ∷ tokens) =
      (samples_token s row && is_negative token) || any_bad_token s rows tokens
  any_bad_token s _ _ = false

  abbrev pub ownership_of : ℕ → Option (ActiveRequest S) → Option BatchError
  ownership_of id none = some BatchError.missing_request
  ownership_of id (some r) = if is_owned_by id r.phase then none else some BatchError.not_owned

  -- The first row whose request the batch does not own.
  unfoldable pub ownership_error : Scheduler S → ℕ → List ScheduledSequence → Option BatchError
  ownership_error s id [] = none
  ownership_error s id (row ∷ rows) =
      elim (ownership_of id (OrdMap.lookup row.request_id s.active)) [
        | some e ↦ some e
        | none ↦ ownership_error s id rows
      ]

  abbrev pub no_error : ScheduledBatch → Option BatchError → BatchAction S (Unit {0})
  no_error batch none = pure tt
  no_error batch (some e) = restore_batch batch e

  abbrev pub restore_if : Bool → ScheduledBatch → BatchError → BatchAction S (Unit {0})
  restore_if test batch e = if test then restore_batch batch e else pure tt

  -- A call on the cache whose error puts the batch back.
  abbrev pub or_restore : {A : Type 0} → ScheduledBatch → ManagerAction A → BatchAction S A
  or_restore batch act s = elim (on_kv act s) [
    | ok a t ↦ ok a t
    | err e t ↦ restore_batch batch e t
    | panic ↦ panic
  ]

  -- The last loop of `complete_batch`, for one row and its token.
  unfoldable pub complete_row : ScheduledSequence → ℤ → BatchAction S (Unit {0})
  unfolding contains_token
  complete_row row token = do
    request ← expect_active row.request_id
    if ltb row.context_length (length request.history)
        then put_active row.request_id (record request { phase = needs_prefill })
        else (do
          let extended : ActiveRequest S = record request {
            generated_token_ids = request.generated_token_ids ++ token ∷ [];
            history = request.history ++ token ∷ [];
          }
          let stopped : Bool = contains_token token request.eos
          put_active row.request_id extended
          if is_done extended stopped
              then finish_request row.request_id stopped
              else put_active row.request_id (record extended { phase = awaiting_decode token }))

  unfoldable pub complete_rows : List ScheduledSequence → List ℤ → BatchAction S (Unit {0})
  unfolding complete_row
  complete_rows (row ∷ rows) (token ∷ tokens) = do complete_row row token; complete_rows rows tokens
  complete_rows _ _ = pure tt

  abbrev pub in_flight_batch : ℕ → BatchAction S ScheduledBatch
  in_flight_batch batch_id s = elim s.in_flight [
    | none ↦ err BatchError.not_in_flight s
    | some b ↦ if b.id == batch_id then ok b s else err BatchError.not_in_flight s
  ]

  abbrev pub has_sampler : Option (ActiveRequest S) → Bool
  has_sampler none = false
  has_sampler (some r) = is_present r.sampler

  unfoldable pub any_sampled : Scheduler S → List ScheduledSequence → Bool
  unfolding samples_token
  any_sampled s [] = false
  any_sampled s (row ∷ rows) =
      (samples_token s row && has_sampler (OrdMap.lookup row.request_id s.active))
      || any_sampled s rows

  unfoldable pub batch_requires_logits : ℕ → BatchAction S Bool
  unfolding any_sampled
  batch_requires_logits batch_id = do
    batch ← in_flight_batch batch_id
    gets (λ s. any_sampled s batch.sequences)

  unfoldable pub greedy_tokens : Scheduler S → List ScheduledSequence → List ℤ → List ℤ
  unfolding samples_token
  greedy_tokens s (row ∷ rows) (token ∷ tokens) =
      (if samples_token s row then token else no_token) ∷ greedy_tokens s rows tokens
  greedy_tokens s _ _ = []

  module _ (chain : ℕ → List ℤ → ℕ) where
    abbrev pub register_row : ScheduledSequence → BatchAction S (Unit {0})
    register_row row = do
      request ← expect_active row.request_id
      on_kv (register_prefix chain row.request_id request.history)

    unfoldable pub complete_batch : ℕ → List ℤ → BatchAction S (Unit {0})
    unfolding take_batch any_bad_token ownership_error for_each complete_rows
    complete_batch batch_id tokens = do
      batch ← take_batch batch_id
      restore_if (not (length tokens == length batch.sequences)) batch BatchError.wrong_row_count
      bad ← gets (λ s. any_bad_token s batch.sequences tokens)
      restore_if bad batch BatchError.negative_token
      owner ← gets (λ s. ownership_error s batch_id batch.sequences)
      no_error batch owner
      _ ← or_restore batch (
          commit_append_prefixes
            (map (λ row. (row.reservation_id, length row.token_ids)) batch.sequences))
      for_each batch.sequences register_row
      complete_rows batch.sequences tokens

    unfoldable pub complete_greedy_batch : ℕ → List ℤ → BatchAction S (List ℤ)
    unfolding greedy_tokens batch_requires_logits complete_batch
    complete_greedy_batch batch_id argmax = do
      batch ← in_flight_batch batch_id
      reject_if (not (length argmax == length batch.sequences)) BatchError.wrong_row_count
      tokens ← gets (λ s. greedy_tokens s batch.sequences argmax)
      sampled ← batch_requires_logits batch_id
      reject_if sampled BatchError.needs_logits
      complete_batch batch_id tokens
      pure tokens

  abbrev pub restore_phase : BatchKind → ScheduledSequence → BatchAction S (Unit {0})
  restore_phase kind row = do
    request ← expect_active row.request_id
    phase ← (λ s. expect (previous_phase kind row.token_ids) s)
    put_active row.request_id (record request { phase = phase })

  unfoldable pub fail_batch : ℕ → BatchAction S (Unit {0})
  unfolding take_batch ownership_error for_each
  fail_batch batch_id = do
    batch ← take_batch batch_id
    owner ← gets (λ s. ownership_error s batch_id batch.sequences)
    restore_if (is_present owner) batch BatchError.not_owned
    or_restore batch (cancel_appends (map (λ row. row.reservation_id) batch.sequences))
    for_each batch.sequences (restore_phase batch.kind)
