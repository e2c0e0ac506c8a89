-- ===== src/Batch/Verify.antt =====
-- Speculative decoding (continuous_batch.rs): `schedule_verify`, `complete_verify_batch` and
-- `reserve_lookahead`.
use ru_llm.Base.{
  ℕ, ◌+◌, ◌-◌, ◌*◌, ◌/◌, Bool, true, false, ◌&&◌, ◌||◌, not, Option, none, some, List, [], ◌∷◌,
  ◌++◌, ℤ, pos, min, int_beq, ltb, leb, ◌==◌, if◌then◌else◌, length, drop, ◌>>=◌, ◌>>◌, pure, gets,
  modify, or_fail, expect, fail, assert,
}
use ru_llm.Base.OrdMap
use ru_llm.Base.Word.{u64_mod, div_ceil}
use ru_llm.PagedKv.Types.{AppendReservation}
use ru_llm.PagedKv.Manager.{can_append, begin_append, free_page_count}
use ru_llm.PagedKv.Commit.{commit_append_partial, extend_append, remove_sequence}
use ru_llm.PagedKv.Prefix.{register_prefix, slice}
use ru_llm.Batch.Types.{
  BatchKind, BatchError, BatchAction, ActiveRequest, Scheduler, ScheduledSequence, ScheduledBatch,
  SpeculativeConfig, on_kv, decode, verify, awaiting_decode,
}
use ru_llm.Batch.Views.{is_empty, batch_size, next_n}
use ru_llm.Batch.Draft.{ngram_draft}
use ru_llm.Batch.Submit.{is_present}
use ru_llm.Batch.Rows.{
  scheduled_sequence, expect_active, put_active, max_tokens, finish_schedule, last_or, resize,
}

-- `eos.contains(&token)`.
unfoldable pub contains_token : ℤ → List ℤ → Bool
contains_token token [] = false
contains_token token (x ∷ xs) = int_beq token x || contains_token token xs

-- The predictions that one row takes over, up to the first one that the draft did not foresee, an
-- end-of-sequence token, or the last one that is left to generate.
unfoldable pub accepted : ℕ → List ℤ → List ℤ → List ℤ → ℕ → List ℤ
unfolding contains_token
accepted remaining eos [] draft produced = []
accepted remaining eos (prediction ∷ predictions) draft produced =
    let rest : List ℤ = elim draft [
      | [] ↦ []
      | next ∷ draft' ↦
          let more = accepted remaining eos predictions draft' (produced + 1) in
          if int_beq next prediction then more else []
    ] in
    if produced + 1 == remaining || contains_token prediction eos
    then prediction ∷ []
    else prediction ∷ rest

abbrev pub is_verify : BatchKind → Bool
is_verify verify = true
is_verify _ = false

abbrev pub is_decode : BatchKind → Bool
is_decode decode = true
is_decode _ = false

module _ {S : Type 0} where
  -- `generation.max_new_tokens - generated_token_ids.len()`, an underflow of which panics.
  abbrev pub left_to_generate : ActiveRequest S → BatchAction S ℕ
  left_to_generate r = do
    assert (leb (length r.generated_token_ids) r.generation.max_new_tokens)
    pure (r.generation.max_new_tokens - length r.generated_token_ids)

  -- The test of one request in the first loop of `schedule_verify`.
  unfoldable pub verify_candidate :
      ℕ → SpeculativeConfig → ℕ → ActiveRequest S → ℤ → BatchAction S (List (ℕ × ℤ × List ℤ))
  verify_candidate width c id request token = do
    remaining ← left_to_generate request
    if is_present request.sampler || ltb remaining 2 then pure [] else (do
      let draft : List ℤ = ngram_draft request.history c.ngram c.draft_tokens
      if is_empty draft then pure [] else (do
        fits ← on_kv (can_append id width)
        pure (if fits then (id, token, draft) ∷ [] else [])))

  unfoldable pub verify_candidates :
      ℕ → SpeculativeConfig → List (ℕ × ActiveRequest S) → BatchAction S (List (ℕ × ℤ × List ℤ))
  unfolding verify_candidate
  verify_candidates width c [] = pure []
  verify_candidates width c ((id, request) ∷ requests) = do
    first ← elim request.phase [
      | awaiting_decode token ↦ verify_candidate width c id request token
      | _ ↦ pure []
    ]
    rest ← verify_candidates width c requests
    pure (first ++ rest)

  -- The second loop. The draft is padded with its last token.
  unfoldable pub verify_rows :
      ℕ
      → ℕ
      → ℕ
      → List (ℕ × ℤ × List ℤ)
      → List ScheduledSequence
      → BatchAction S (List ScheduledSequence)
  unfolding scheduled_sequence
  verify_rows width draft_tokens max_rows [] rows = pure rows
  verify_rows width draft_tokens max_rows ((id, token, draft) ∷ candidates) rows =
      if leb max_rows (length rows) then pure rows else (do
        fits ← on_kv (can_append id width)
        if not fits then verify_rows width draft_tokens max_rows candidates rows else (do
          let tokens : List ℤ = token ∷ resize draft_tokens (last_or token draft) draft
          reservation ← on_kv (begin_append id width)
          verify_rows width draft_tokens max_rows candidates
              (rows ++ scheduled_sequence reservation tokens ∷ [])))

  abbrev pub verify_with : SpeculativeConfig → ℕ → BatchAction S (Option ScheduledBatch)
  verify_with c max_rows = if max_rows == 0 then pure none else (do
    requests ← gets (λ s. s.active)
    candidates ← verify_candidates (c.draft_tokens + 1) c requests
    rows ← verify_rows (c.draft_tokens + 1) c.draft_tokens max_rows candidates []
    finish_schedule verify rows)

  unfoldable pub schedule_verify : BatchAction S (Option ScheduledBatch)
  unfolding verify_candidates verify_rows finish_schedule
  schedule_verify = do
    speculative ← gets (λ s. s.speculative)
    limit ← gets max_tokens
    elim speculative [
      | none ↦ pure none
      | some c ↦ do
        assert (ltb (c.draft_tokens + 1) u64_mod)
        verify_with c (limit / (c.draft_tokens + 1))
    ]

  abbrev pub take_in_flight : BatchAction S (Option ScheduledBatch)
  take_in_flight = do
    batch ← gets (λ s. s.in_flight)
    modify (λ s. record s { in_flight = none })
    pure batch

  abbrev pub restore_batch : {A : Type 0} → ScheduledBatch → BatchError → BatchAction S A
  restore_batch batch e = do modify (λ s. record s { in_flight = some batch }); fail e

  abbrev pub check_batch_id : ℕ → ScheduledBatch → BatchAction S ScheduledBatch
  check_batch_id batch_id batch =
      if batch.id == batch_id then pure batch else restore_batch batch BatchError.other_in_flight

  -- `take_batch`: the batch leaves its place, and goes back when it is another one.
  unfoldable pub take_batch : ℕ → BatchAction S ScheduledBatch
  take_batch batch_id = do
    batch ← take_in_flight
    elim batch [ none ↦ fail BatchError.not_in_flight | some b ↦ check_batch_id batch_id b ]

  -- A request leaves the scheduler with its result.
  abbrev pub finish_request : ℕ → Bool → BatchAction S (Unit {0})
  finish_request id stopped_on_eos = do
    request ← expect_active id
    modify (λ s. record s { active = OrdMap.remove id s.active })
    on_kv (remove_sequence id)
    modify (λ s. record s {
      finished =
          s.finished
          ++ record {
            request_id = id;
            prompt_token_ids = request.prompt_token_ids;
            generated_token_ids = request.generated_token_ids;
            stopped_on_eos = stopped_on_eos;
          }
            ∷ [];
    })

  abbrev pub is_done : ActiveRequest S → Bool → Bool
  is_done r stopped = stopped || leb r.generation.max_new_tokens (length r.generated_token_ids)

  module _ (chain : ℕ → List ℤ → ℕ) where
    abbrev pub missing_or_active : ℕ → BatchAction S (ActiveRequest S)
    missing_or_active id s = or_fail (OrdMap.lookup id s.active) BatchError.missing_request s

    -- The loop of `complete_verify_batch`, for one row and its predictions.
    unfoldable pub verify_row : ℕ → ScheduledSequence → List ℤ → BatchAction S (ℕ × List ℤ)
    unfolding accepted contains_token
    verify_row width row predictions = do
      request ← missing_or_active row.request_id
      remaining ← left_to_generate request
      let produced : List ℤ = accepted remaining request.eos predictions (drop 1 row.token_ids) 0
      drafted ← gets (λ s. s.drafted_tokens)
      kept ← gets (λ s. s.accepted_draft_tokens)
      assert (ltb 0 (length produced) && ltb 0 width)
      assert (ltb (drafted + (width - 1)) u64_mod && ltb (kept + (length produced - 1)) u64_mod)
      modify (λ s. record s {
        drafted_tokens = drafted + (width - 1);
        accepted_draft_tokens = kept + (length produced - 1);
      })
      _ ← on_kv (commit_append_partial row.reservation_id (length produced))
      current ← expect_active row.request_id
      let extended : ActiveRequest S = record current {
        history = current.history ++ produced;
        generated_token_ids = current.generated_token_ids ++ produced;
      }
      put_active row.request_id extended
      let last : ℤ = last_or (pos 0) produced
      let stopped : Bool = contains_token last extended.eos
      on_kv (register_prefix chain row.request_id extended.history)
      if is_done extended stopped
          then finish_request row.request_id stopped
          else put_active row.request_id (record extended { phase = awaiting_decode last })
      pure (row.request_id, produced)

    -- The loop, over the rows and the predictions from `from`.
    unfoldable pub verify_all :
        ℕ → List ℤ → ℕ → List ScheduledSequence → BatchAction S (List (ℕ × List ℤ))
    unfolding verify_row
    verify_all width argmax from [] = pure []
    verify_all width argmax from (row ∷ rows) = do
      predictions ← (λ s. expect (slice from (from + width) argmax) s)
      first ← verify_row width row predictions
      rest ← verify_all width argmax (from + width) rows
      pure (first ∷ rest)

    unfoldable pub complete_verify_batch : ℕ → List ℤ → BatchAction S (List (ℕ × List ℤ))
    unfolding take_batch verify_all next_n batch_size
    complete_verify_batch batch_id argmax = do
      batch ← take_batch batch_id
      let width : ℕ = next_n batch
      if not (is_verify batch.kind) || not (length argmax == batch_size batch * width)
          then restore_batch batch BatchError.wrong_argmax
          else verify_all width argmax 0 batch.sequences

  -- How many more tokens one row may reserve.
  abbrev pub lookahead : Scheduler S → ScheduledSequence → ActiveRequest S → ℕ → ℕ → ℕ
  lookahead s row request wanted budget =
      min
        (min (min wanted budget)
          (request.generation.max_new_tokens - length request.generated_token_ids - 1))
        (s.kv_cache.config.max_sequence_length - row.context_length)

  -- The loop of `reserve_lookahead`.
  unfoldable pub lookahead_rows :
      ℕ
      → ℕ
      → List ScheduledSequence
      → List (ℕ × AppendReservation)
      → BatchAction S (List (ℕ × AppendReservation))
  lookahead_rows wanted budget [] reserved = pure reserved
  lookahead_rows wanted budget (row ∷ rows) reserved = do
    request ← expect_active row.request_id
    c ← gets (λ s. s.kv_cache.config)
    assert (leb row.context_length c.max_sequence_length)
    extra ← gets (λ s. lookahead s row request wanted budget)
    let pages : ℕ = div_ceil (row.context_length + extra) c.block_size - length row.block_table
    free ← gets (λ s. free_page_count s.kv_cache)
    if not (ltb 0 extra && leb pages free) then lookahead_rows wanted budget rows reserved else (do
      reservation ← on_kv (extend_append row.reservation_id extra)
      lookahead_rows wanted (budget - extra) rows
          (OrdMap.insert row.request_id reservation reserved))

  unfoldable pub reserve_lookahead :
      ScheduledBatch → ℕ → BatchAction S (List (ℕ × AppendReservation))
  unfolding lookahead_rows batch_size
  reserve_lookahead batch wanted =
      if wanted == 0 || not (is_decode batch.kind) then pure [] else (do
        limit ← gets max_tokens
        lookahead_rows wanted (limit - batch_size batch) batch.sequences [])
