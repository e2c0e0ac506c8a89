-- ===== src/Batch/Submit/Admitted.antt =====
-- What `submit` does on every branch.
use ru_llm.Base.{
  ℕ, ◌+◌, ◌≤◌, ◌<◌, ◌≡◌, ◌⊎◌, refl, inl, inr, true, false, ◌||◌, ◌&&◌, Option, none, some, List, [],
  ◌∷◌, ◌++◌, ℤ, arith, ltb, ◌==◌, length, length-append, ok, err, Ensures, Ensures-reject_if,
  Ensures-or_fail, Ensures-after, Ensures-failed, Bool-cases,
}
use ru_llm.Base.Word.{u64_mod, checked_add}
use ru_llm.Batch.Types.{Scheduler, GenerationConfig, PendingRequest, FinishedGeneration, BatchError}
use ru_llm.Batch.Submit.{
  submit_with_sampler, any_negative, required_pages, reaches_limit, is_whole_prompt,
  check_admission,
}

ltb-false : (a b : ℕ) → ltb a b ≡ false → b ≤ a
ltb-false a b h = ground arith

checked_add-some : (a b c : ℕ) → checked_add a b ≡ some c → (c ≡ a + b) × (c < u64_mod)
checked_add-some a b c h = ground (arith, h)

-- The queue limit is respected.
abbrev pub Within : Option ℕ → ℕ → Type 0
Within none n = Unit {0}
Within (some limit) n = n ≤ limit

module _ {S : Type 0} (s : Scheduler S) (prompt : List ℤ) (g : GenerationConfig)
    (sampler : Option S) where
  abbrev pub queued : ℕ → PendingRequest S
  queued id = record { id = id; prompt_token_ids = prompt; generation = g; sampler = sampler }

  abbrev pub nothing_to_do : ℕ → FinishedGeneration
  nothing_to_do id = record {
    request_id = id;
    prompt_token_ids = prompt;
    generated_token_ids = [];
    stopped_on_eos = false;
  }

  -- What an accepted request meets, and where it goes.
  pub record Submitted (id : ℕ) (t : Scheduler S) : Type 0 where
    pub fresh : (id ≡ s.next_request) × (t.next_request ≡ id + 1) × (id + 1 < u64_mod)
    pub some_prompt : 0 < length prompt
    pub fits : length prompt + g.max_new_tokens ≤ s.kv_cache.config.max_sequence_length
    pub tokens : any_negative prompt ≡ false
    pub goes :
        ((g.max_new_tokens ≡ 0)
          × (t
              ≡ record s { next_request = id + 1; finished = s.finished ++ nothing_to_do id ∷ [] }))
        ⊎ ((0 < g.max_new_tokens)
            × (t ≡ record s { next_request = id + 1; pending = s.pending ++ queued id ∷ [] })
            × Within s.options.max_pending_requests (length t.pending)
            × (required_pages s.options.kv_admission (length prompt) g s.kv_cache.config.block_size
                ≤ s.kv_cache.config.num_pages))

  -- The admission checks pass with what they promise, or refuse.
  check_admission-cases :
      ((check_admission prompt g s ≡ ok tt s)
        × (reaches_limit s.options.max_pending_requests (length s.pending) ≡ false)
        × (required_pages s.options.kv_admission (length prompt) g s.kv_cache.config.block_size
            ≤ s.kv_cache.config.num_pages))
      ⊎ ((e : BatchError) × (check_admission prompt g s ≡ err e s))
  check_admission-cases =
      let pages : ℕ =
        required_pages s.options.kv_admission (length prompt) g s.kv_cache.config.block_size in
      elim (Bool-cases (ltb s.kv_cache.config.num_pages pages)) [
        | inl above ↦ inr (BatchError.above_pool, rw above refl)
        | inr fits ↦
            elim (Bool-cases (reaches_limit s.options.max_pending_requests (length s.pending))) [
              | inl full ↦ inr (BatchError.queue_full, rw (fits, full) refl)
              | inr room ↦
                  inl (rw (fits, room) refl, room, ltb-false s.kv_cache.config.num_pages pages fits)
            ]
      ]

  queue-Within :
      (limit : Option ℕ)
      → reaches_limit limit (length s.pending) ≡ false
      → (id : ℕ) → Within limit (length (s.pending ++ queued id ∷ []))
  queue-Within none h id = tt
  queue-Within (some limit) h id = ground (arith, length-append s.pending (queued id ∷ []))

  -- A request is put behind the queue under a fresh id, or finished at once when it asks for no
  -- token; the limit of the queue holds, and the prompt fits the cache. On an error nothing changes.
  pub submit_with_sampler-Ensures :
      Ensures Submitted (λ e t. t ≡ s) (submit_with_sampler prompt g sampler s)
  unfolding submit_with_sampler
  submit_with_sampler-Ensures =
      Ensures-reject_if Submitted (λ e t. t ≡ s) (length prompt == 0) BatchError.empty_prompt s _
        (λ _. refl)
        λ nonempty.
          Ensures-reject_if Submitted (λ e t. t ≡ s)
            (is_whole_prompt s.prefill_chunk_tokens
              && ltb s.config.max_batch_tokens (length prompt))
            BatchError.prompt_above_limit s _ (λ _. refl)
            λ _.
              Ensures-or_fail Submitted (λ e t. t ≡ s)
                (checked_add (length prompt) g.max_new_tokens) BatchError.length_overflow s _
                (λ _. refl)
                λ total summed.
                  Ensures-reject_if Submitted (λ e t. t ≡ s)
                    (ltb s.kv_cache.config.max_sequence_length total) BatchError.above_kv_capacity s
                    _ (λ _. refl)
                    λ short.
                      Ensures-reject_if Submitted (λ e t. t ≡ s)
                        (any_negative prompt || any_negative g.eos_token_ids)
                        BatchError.negative_token s _ (λ _. refl)
                        λ plain. elim (Bool-cases (ltb 0 g.max_new_tokens)) [
                          | inr none_wanted ↦
                              let no_tokens : (g.max_new_tokens == 0) ≡ true =
                                ground (arith, none_wanted) in
                              rw none_wanted (
                                Ensures-or_fail Submitted (λ e t. t ≡ s)
                                  (checked_add s.next_request 1) BatchError.request_id_overflow s _
                                  (λ _. refl)
                                  λ next counted. rw no_tokens (
                                    let (is_next, in_word) =
                                      checked_add-some s.next_request 1 next counted in
                                    let (is_total, _) =
                                      checked_add-some (length prompt) g.max_new_tokens total
                                        summed in
                                    record {
                                      fresh = (refl, is_next, omega (arith, is_next, in_word));
                                      some_prompt = ground (arith, nonempty);
                                      fits = omega (
                                        arith,
                                        is_total,
                                        ltb-false s.kv_cache.config.max_sequence_length total short,
                                      );
                                      tokens = ground (arith, plain);
                                      goes = inl (ground (arith, none_wanted), rw is_next refl);
                                    }))
                          | inl wanted ↦
                              let some_tokens : (g.max_new_tokens == 0) ≡ false =
                                ground (arith, wanted) in
                              elim check_admission-cases [
                                | inr (e, refused) ↦ rw wanted (
                                    Ensures-failed Submitted (λ e t. t ≡ s)
                                      (check_admission prompt g) _ s s e refused refl)
                                | inl (passed, room, pages) ↦ rw wanted (
                                    Ensures-after Submitted (λ e t. t ≡ s)
                                      (check_admission prompt g) _ s s passed
                                      (Ensures-or_fail Submitted (λ e t. t ≡ s)
                                        (checked_add s.next_request 1)
                                        BatchError.request_id_overflow s _ (λ _. refl)
                                        λ next counted. rw some_tokens (
                                          let (is_next, in_word) =
                                            checked_add-some s.next_request 1 next counted in
                                          let (is_total, _) =
                                            checked_add-some (length prompt) g.max_new_tokens total
                                              summed in
                                          record {
                                            fresh =
                                                (refl, is_next, omega (arith, is_next, in_word));
                                            some_prompt = ground (arith, nonempty);
                                            fits = omega (
                                              arith,
                                              is_total,
                                              ltb-false s.kv_cache.config.max_sequence_length total
                                                  short,
                                            );
                                            tokens = ground (arith, plain);
                                            goes = inr (
                                              ground (arith, wanted),
                                              rw is_next refl,
                                              queue-Within s.options.max_pending_requests room
                                                  s.next_request,
                                              pages,
                                            );
                                          })))
                              ]
                        ]
