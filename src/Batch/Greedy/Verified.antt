-- ===== src/Batch/Greedy/Verified.antt =====
-- One row of a verification batch (`complete_verify_batch` of continuous_batch.rs), from the
-- predictions of the model to the request and the cache.
use ru_llm.Base.{
  ℕ, ◌+◌, ◌-◌, ◌<◌, ◌≤◌, ◌≡◌, ◌⊎◌, ◌∙◌, refl, inl, inr, Bool, true, false, some, List, [], ◌∷◌,
  ◌++◌, ℤ, pos, arith, length, drop, ok, Bool-cases,
}
use ru_llm.Base.OrdMap
use ru_llm.Base.Word.{u64_mod}
use ru_llm.PagedKv.Types.{ReservationState, Manager}
use ru_llm.PagedKv.Commit.{commit_append_partial, remove_sequence}
use ru_llm.PagedKv.Prefix.{register_prefix}
use ru_llm.PagedKv.Invariant.{ManagerInv}
use ru_llm.PagedKv.Groups.Ends.{HasTicksFor}
use ru_llm.Batch.Types.{
  ActiveRequest, Scheduler, ScheduledSequence, FinishedGeneration, awaiting_decode,
}
use ru_llm.Batch.Rows.{last_or}
use ru_llm.Batch.Verify.{accepted, contains_token, verify_row, is_done}
use ru_llm.Batch.Greedy.{forecast, generate, generate_after}
use ru_llm.Batch.Greedy.Lengths.{
  length-forecast, length-accepted-le, accepted-first, whole, nothing_after,
}
use ru_llm.Batch.Greedy.Steps.{row_steps}

module _ {S : Type 0} (row : ScheduledSequence) (s : Scheduler S) (request : ActiveRequest S)
    (model : List ℤ → ℤ) where
  -- The number of tokens that are left to generate.
  abbrev pub remaining : ℕ
  remaining = request.generation.max_new_tokens - length request.generated_token_ids

  -- The request with the tokens of the row.
  abbrev pub with_tokens : List ℤ → ActiveRequest S
  with_tokens produced = record request {
    history = request.history ++ produced;
    generated_token_ids = request.generated_token_ids ++ produced;
  }

  -- The request has the tokens: it waits for its next one, or it is done and its result is handed
  -- out.
  abbrev pub HasTokens : List ℤ → Scheduler S → Type 0
  HasTokens produced t =
      let last : ℤ = last_or (pos 0) produced in
      let stopped : Bool = contains_token last request.eos in
      ((is_done (with_tokens produced) stopped ≡ false)
        × (OrdMap.lookup row.request_id t.active
            ≡ some (record (with_tokens produced) { phase = awaiting_decode last }))
        × (t.finished ≡ s.finished))
      ⊎ ((is_done (with_tokens produced) stopped ≡ true)
          × (produced ≡ generate model request.eos remaining request.history)
          × (t.finished
              ≡ s.finished
                ++ record {
                  request_id = row.request_id;
                  prompt_token_ids = request.prompt_token_ids;
                  generated_token_ids = request.generated_token_ids ++ produced;
                  stopped_on_eos = stopped;
                }
                  ∷ []))

module _ {S : Type 0} (model : List ℤ → ℤ) (chain : ℕ → List ℤ → ℕ) (width : ℕ)
    (row : ScheduledSequence) (s : Scheduler S) (v : ManagerInv s.kv_cache)
    (room : HasTicksFor 2 s.kv_cache) (request : ActiveRequest S)
    (active : OrdMap.lookup row.request_id s.active ≡ some request)
    (unfinished : length request.generated_token_ids < request.generation.max_new_tokens)
    (r : ReservationState)
    (held : OrdMap.lookup row.reservation_id s.kv_cache.reservations ≡ some r)
    (owner : r.request_id ≡ row.request_id)
    (drafted : length (drop 1 row.token_ids) < r.token_count) (wide : 0 < width)
    (drafts : s.drafted_tokens + (width - 1) < u64_mod)
    (accepts : s.accepted_draft_tokens + r.token_count < u64_mod) where
  -- What the model says behind the history and behind each prefix of the draft.
  abbrev pub predictions : List ℤ
  predictions = forecast model request.history (drop 1 row.token_ids)

  -- The tokens that the row takes over, the request with them, and the last one.
  abbrev produced : List ℤ
  produced =
      accepted (remaining row s request model) request.eos predictions (drop 1 row.token_ids) 0

  abbrev extended : ActiveRequest S
  extended = with_tokens row s request model produced

  abbrev last : ℤ
  last = last_or (pos 0) produced

  abbrev stopped : Bool
  stopped = contains_token last request.eos

  -- The scheduler when the row is in the cache.
  abbrev counted : Manager → Scheduler S
  counted u = record s {
    drafted_tokens = s.drafted_tokens + (width - 1);
    accepted_draft_tokens = s.accepted_draft_tokens + (length produced - 1);
    active = OrdMap.insert row.request_id extended s.active;
    kv_cache = u;
  }

  abbrev waiting_again : Manager → Scheduler S
  waiting_again u = record (counted u) {
    active =
        OrdMap.insert row.request_id (record extended { phase = awaiting_decode last })
          (counted u).active;
  }

  abbrev result : FinishedGeneration
  result = record {
    request_id = row.request_id;
    prompt_token_ids = request.prompt_token_ids;
    generated_token_ids = request.generated_token_ids ++ produced;
    stopped_on_eos = stopped;
  }

  abbrev handed_out : Manager → Manager → Scheduler S
  handed_out u w = record (counted u) {
    active = OrdMap.remove row.request_id (counted u).active;
    kv_cache = w;
    finished = s.finished ++ result ∷ [];
  }

  some_produced : 0 < length produced
  some_produced =
      (accepted-first model request.eos request.history (drop 1 row.token_ids)
        (remaining row s request model) (omega (arith, unfinished))).1

  few_produced : length produced ≤ r.token_count
  few_produced = omega (
    arith,
    length-accepted-le (remaining row s request model) request.eos predictions
        (drop 1 row.token_ids) 0,
    length-forecast model request.history (drop 1 row.token_ids),
    drafted,
  )

  module _ (t u w : Manager)
      (commits : commit_append_partial row.reservation_id (length produced) s.kv_cache
        ≡ ok (r.start_position + length produced) t)
      (publishes : register_prefix chain r.request_id (request.history ++ produced) t
        ≡ ok tt u) where
    waits_again :
        is_done extended stopped ≡ false
        → verify_row chain width row predictions s ≡ ok (row.request_id, produced) (waiting_again u)
    unfolding verify_row
    waits_again goes_on = ground (
      arith, active, unfinished, some_produced, few_produced, wide, drafts, accepts, commits,
      publishes, owner, goes_on,
    )

    finishes :
        is_done extended stopped ≡ true
        → remove_sequence r.request_id u ≡ ok tt w
        → verify_row chain width row predictions s ≡ ok (row.request_id, produced) (handed_out u w)
    unfolding verify_row
    finishes over removes =
        let put : OrdMap.lookup row.request_id (counted u).active ≡ some extended =
          OrdMap.lookup-insert row.request_id row.request_id extended s.active ∙ ground arith in
        ground (
          arith, active, unfinished, some_produced, few_produced, wide, drafts, accepts, commits,
          publishes, owner, over, put, removes,
        )

  -- A row of a verification batch, at least one token wide, with the predictions of the model and
  -- whatever draft. On a well-formed cache with room in its LRU counter, in which the row has a
  -- reservation for its draft and one more token, for an active request with tokens left to
  -- generate, and with room in the counters of drafted and accepted tokens, the row never fails. The
  -- tokens that it appends to the history and to the result, one at least, are the first ones of
  -- plain greedy decoding, which goes on behind them. The request waits for its next token, or it is
  -- done and its result, with all tokens of greedy decoding, is handed out; the cache stays well
  -- formed.
  pub verify_row-generate :
      (produced : List ℤ) × (t : Scheduler S) × (verify_row chain width row predictions s
        ≡ ok (row.request_id, produced) t)
      × (generate model request.eos (remaining row s request model) request.history
          ≡ produced
            ++ generate_after model request.eos
                (remaining row s request model)
                request.history
                produced)
      × (0 < length produced)
      × ManagerInv t.kv_cache
      × HasTokens row s request model produced t
  verify_row-generate =
      let (ahead, some_tokens) =
        accepted-first model request.eos request.history (drop 1 row.token_ids)
          (remaining row s request model) (omega (arith, unfinished)) in
      let (t, u, w, commits, publishes, kept, removes, gone) =
        row_steps chain s.kv_cache v row.reservation_id r held (length produced)
          (request.history ++ produced) some_produced few_produced room in
      elim (Bool-cases (is_done extended stopped)) [
        | inl over ↦
            let all : produced
                ≡ generate model request.eos (remaining row s request model) request.history =
              whole produced _ _ ahead (
                nothing_after model request.eos request.history produced request.generated_token_ids
                  request.generation.max_new_tokens over) in
            (
              produced,
              handed_out u w,
              finishes t u w commits publishes over removes,
              ahead,
              some_tokens,
              gone,
              inr (over, all, refl),
            )
        | inr goes_on ↦ (
          produced,
          waiting_again u,
          waits_again t u w commits publishes goes_on,
          ahead,
          some_tokens,
          kept,
          inl (
            goes_on,
            OrdMap.lookup-insert row.request_id row.request_id _ (counted u).active ∙ ground arith,
            refl,
          ),
        )
      ]
