-- ===== src/Batch/Submit/Limits.antt =====
-- What a change of the token limit keeps (continuous_batch/lifecycle.rs).
use ru_llm.Base.{
  ℕ, zero, suc, ◌≡◌, ◌≤◌, ◌<◌, ◌⊎◌, refl, inl, inr, true, false, some, List, [], ◌∷◌, arith, ltb,
  ◌==◌, length, get_elem?, ok, err, Ensures, Bool-cases,
}
use ru_llm.Base.OrdMap
use ru_llm.Batch.Types.{BatchError, PendingRequest, ActiveRequest, Scheduler}
use ru_llm.Batch.Submit.{
  is_present, is_whole_prompt, waits_for_prefill, longest_pending, longest_prefill,
  minimum_batch_token_limit, set_batch_token_limit,
}

module _ {S : Type 0} where
  longest_pending-le :
      (rs : List (PendingRequest S)) (i : ℕ) (r : PendingRequest S)
      → get_elem? rs i ≡ some r
      → length r.prompt_token_ids ≤ longest_pending rs
  unfolding longest_pending
  longest_pending-le [] i r at = absurd (ground (arith, at))
  longest_pending-le (x ∷ rs) zero r at = ground (arith, at)
  longest_pending-le (x ∷ rs) (suc i) r at = omega (arith, longest_pending-le rs i r at)

  longest_prefill-le :
      (rs : List (ℕ × ActiveRequest S)) (id : ℕ) (r : ActiveRequest S)
      → OrdMap.lookup id rs ≡ some r
      → waits_for_prefill r.phase ≡ true
      → length r.prompt_token_ids ≤ longest_prefill rs
  unfolding longest_prefill OrdMap.lookup
  longest_prefill-le [] id r at waits = absurd (ground (arith, at))
  longest_prefill-le ((j, x) ∷ rs) id r at waits = elim (Bool-cases (id == j)) [
    | inl here ↦
        let same : x ≡ r = ground (arith, at, here) in
        let now : waits_for_prefill x.phase ≡ true = rw same waits in rw now (rw same (omega arith))
    | inr other ↦
        let rest : length r.prompt_token_ids ≤ longest_prefill rs =
          longest_prefill-le rs id r (ground (arith, at, other)) waits in
        elim (Bool-cases (waits_for_prefill x.phase)) [
          | inl too ↦ rw too (omega (arith, rest))
          | inr not_it ↦ rw not_it rest
        ]
  ]

  -- No prompt that is still to be computed as a whole is above the limit.
  pub record Fits (s : Scheduler S) (limit : ℕ) : Type 0 where
    pub positive : 0 < limit
    pub pending :
        is_whole_prompt s.prefill_chunk_tokens ≡ true
        → (i : ℕ) (r : PendingRequest S) → get_elem? s.pending i ≡ some r
        → length r.prompt_token_ids ≤ limit
    pub active :
        is_whole_prompt s.prefill_chunk_tokens ≡ true
        → (id : ℕ) (r : ActiveRequest S) → OrdMap.lookup id s.active ≡ some r
        → waits_for_prefill r.phase ≡ true
        → length r.prompt_token_ids ≤ limit

  Fits-minimum : (s : Scheduler S) (limit : ℕ) → minimum_batch_token_limit s ≤ limit → Fits s limit
  unfolding minimum_batch_token_limit
  Fits-minimum s limit enough = record {
    positive = ground (arith, enough);
    pending = λ whole i r at. ground (arith, enough, whole, longest_pending-le s.pending i r at);
    active = λ whole id r at waits.
        ground (arith, enough, whole, longest_prefill-le s.active id r at waits);
  }

  -- The token limit changes only between batches, and only to one that strands no request: without
  -- chunks, every prompt that is queued or waits for its prefill still fits. Otherwise it is an
  -- error, and nothing changes.
  pub set_batch_token_limit-Ensures :
      (s : Scheduler S) (limit : ℕ)
      → Ensures
          (λ _ t.
            (t ≡ record s { config = record s.config { max_batch_tokens = limit } })
            × (is_present s.in_flight ≡ false)
            × Fits s limit)
          (λ e t.
            (t ≡ s) × ((is_present s.in_flight ≡ true) ⊎ (limit < minimum_batch_token_limit s)))
          (set_batch_token_limit limit s)
  unfolding set_batch_token_limit
  set_batch_token_limit-Ensures s limit = elim (Bool-cases (is_present s.in_flight)) [
    | inl busy ↦
        let refused : set_batch_token_limit limit s ≡ err BatchError.limit_in_flight s =
          ground (arith, busy) in
        rw refused (refl, inl busy)
    | inr idle ↦ elim (Bool-cases (ltb limit (minimum_batch_token_limit s))) [
      | inl low ↦
          let refused : set_batch_token_limit limit s ≡ err BatchError.strands_prompt s =
            ground (arith, idle, low) in
          rw refused (refl, inr (ground (arith, low)))
      | inr enough ↦
          let done : set_batch_token_limit limit s
              ≡ ok tt (record s { config = record s.config { max_batch_tokens = limit } }) =
            ground (arith, idle, enough) in
          rw done (refl, idle, Fits-minimum s limit (ground (arith, enough)))
    ]
  ]
