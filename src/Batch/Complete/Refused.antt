-- ===== src/Batch/Complete/Refused.antt =====
-- How `complete_batch` refuses, and what its commit does.
use ru_llm.Base.{
  ℕ, ◌≡◌, ◌⊎◌, refl, inl, inr, true, false, none, some, List, ℤ, ◌==◌, arith, map, length, Outcome,
  ok, err, panic, Ensures, Bool-cases, ◌>>◌, for_each,
}
use ru_llm.PagedKv.Types.{Manager, Error}
use ru_llm.PagedKv.Invariant.{ManagerInv}
use ru_llm.PagedKv.Commit.{commit_append_prefixes}
use ru_llm.PagedKv.Groups.{IsGroup}
use ru_llm.PagedKv.Groups.Ends.{HasTicksFor, GroupEnded}
use ru_llm.PagedKv.Groups.Prefixes.{
  row_ids, prefix_end_of, IsPrefixes, commit_append_prefixes-Ensures,
}
use ru_llm.Batch.Types.{BatchError, Scheduler, ScheduledSequence, ScheduledBatch, kv}
use ru_llm.Batch.Verify.{take_batch}
use ru_llm.Batch.Complete.{
  complete_batch, complete_rows, register_row, any_bad_token, ownership_error,
}
use ru_llm.Batch.Complete.Owned.{taken, restored, take_batch-cases, ownership_error-cases, IsOwned}

-- The rows of the commit: each reservation with the number of its tokens.
abbrev pub commits : List ScheduledSequence → List (ℕ × ℕ)
commits rows = map (λ row. (row.reservation_id, length row.token_ids)) rows

module _ {S : Type 0} (chain : ℕ → List ℤ → ℕ) (s : Scheduler S) (v : ManagerInv s.kv_cache)
    (id : ℕ) (tokens : List ℤ) where
  -- The batch has passed its checks and is committed as a whole; the rest of the call runs behind.
  pub record Accepted : Type 0 where
    pub batch : ScheduledBatch
    pub cache : Manager
    pub was_in_flight : (s.in_flight ≡ some batch) × (batch.id ≡ id)
    pub owned : IsOwned s id batch.sequences
    pub matched : length tokens ≡ length batch.sequences
    pub plain : any_bad_token s batch.sequences tokens ≡ false
    pub group : IsGroup s.kv_cache (row_ids (commits batch.sequences))
    pub committed :
        GroupEnded
          (prefix_end_of (commits batch.sequences))
          s.kv_cache
          (row_ids (commits batch.sequences))
          cache
    pub goes_on :
        complete_batch chain id tokens s
        ≡ (for_each batch.sequences (register_row chain) >> complete_rows batch.sequences tokens)
            (record s { in_flight = none; kv_cache = cache })

  abbrev pub IsRefusal : Type 0
  IsRefusal = (e : BatchError) × (complete_batch chain id tokens s ≡ err e s)

  module _ (b : ScheduledBatch) (held : s.in_flight ≡ some b) (named : b.id ≡ id)
      (took : take_batch id s ≡ ok b (taken s)) (owned : IsOwned s id b.sequences)
      (clean : ownership_error s id b.sequences ≡ none)
      (matched : (length tokens == length b.sequences) ≡ true)
      (plain : any_bad_token s b.sequences tokens ≡ false) where
    commit_or_refuse :
        (o : Outcome Manager Error (List ℕ))
        → commit_append_prefixes (commits b.sequences) s.kv_cache ≡ o
        → Ensures
            (λ _ m.
              IsGroup s.kv_cache (row_ids (commits b.sequences))
              × IsPrefixes s.kv_cache (commits b.sequences)
              × GroupEnded
                  (prefix_end_of (commits b.sequences))
                  s.kv_cache
                  (row_ids (commits b.sequences))
                  m)
            (λ e m.
              (m ≡ s.kv_cache)
              × ¬ (
                  IsGroup s.kv_cache (row_ids (commits b.sequences))
                  × IsPrefixes s.kv_cache (commits b.sequences)))
            o
        → IsRefusal ⊎ Accepted
    unfolding complete_batch
    commit_or_refuse (ok ends m) run (group, prefixes, ended) = inr (record {
      batch = b;
      cache = m;
      was_in_flight = (held, named);
      owned = owned;
      matched = ground (arith, matched);
      plain = plain;
      group = group;
      committed = ended;
      goes_on = ground (arith, took, matched, plain, clean, run);
    })
    commit_or_refuse (err e m) run (same, bad) =
        let refused : complete_batch chain id tokens s
            ≡ err (kv e) (record s { in_flight = some b; kv_cache = m }) =
          ground (arith, took, matched, plain, clean, run) in
        inl (kv e, rw (refused, same, restored s b held) refl)
    commit_or_refuse panic run never = absurd never

  -- With a well-formed cache that has room in the LRU counter for the rows of the batch, completing
  -- a batch is refused and nothing changes, or the batch is the one in flight, owns its requests
  -- and has as many rows as there are tokens, none of which is negative where its row produces a
  -- token; then all of its appends are committed at once, and the call goes on behind the commit.
  pub complete_batch-atomic :
      ((b : ScheduledBatch)
        → s.in_flight ≡ some b
        → HasTicksFor (length (row_ids (commits b.sequences))) s.kv_cache)
      → IsRefusal ⊎ Accepted
  unfolding complete_batch
  complete_batch-atomic room = elim (take_batch-cases s id) [
    | inr (e, refused) ↦ inl (e, ground (arith, refused))
    | inl (b, held, named, took) ↦ elim (Bool-cases (length tokens == length b.sequences)) [
      | inr wrong ↦
          let refused : complete_batch chain id tokens s
              ≡ err BatchError.wrong_row_count (record s { in_flight = some b }) =
            ground (arith, took, wrong) in
          inl (BatchError.wrong_row_count, rw (refused, restored s b held) refl)
      | inl matched ↦ elim (Bool-cases (any_bad_token s b.sequences tokens)) [
        | inl bad ↦
            let refused : complete_batch chain id tokens s
                ≡ err BatchError.negative_token (record s { in_flight = some b }) =
              ground (arith, took, matched, bad) in
            inl (BatchError.negative_token, rw (refused, restored s b held) refl)
        | inr plain ↦ elim (ownership_error-cases s id b.sequences) [
          | inr (e, foreign) ↦
              let refused : complete_batch chain id tokens s
                  ≡ err e (record s { in_flight = some b }) =
                ground (arith, took, matched, plain, foreign) in
              inl (e, rw (refused, restored s b held) refl)
          | inl (clean, owned) ↦
              commit_or_refuse b held named took owned clean matched plain
                (commit_append_prefixes (commits b.sequences) s.kv_cache) refl
                (commit_append_prefixes-Ensures s.kv_cache v (commits b.sequences) (room b held))
        ]
      ]
    ]
  ]
