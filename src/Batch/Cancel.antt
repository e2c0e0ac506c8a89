-- ===== src/Batch/Cancel.antt =====
-- `cancel` (continuous_batch/lifecycle.rs).
pub mod Outcomes
use ru_llm.Base.{
  ℕ, Option, none, some, List, [], ◌∷◌, ◌==◌, if◌then◌else◌, ◌>>=◌, ◌>>◌, pure, gets, modify,
  reject_if,
}
use ru_llm.Base.OrdMap
use ru_llm.PagedKv.Commit.{remove_sequence}
use ru_llm.Batch.Types.{
  BatchError, BatchAction, PendingRequest, ActiveRequest, CancelledGeneration, on_kv,
}
use ru_llm.Batch.Rows.{expect_active}
use ru_llm.Batch.Schedule.{is_in_flight}

-- `BTreeSet::remove`.
unfoldable pub remove_key : ℕ → List ℕ → List ℕ
remove_key k [] = []
remove_key k (j ∷ s) = let rest = remove_key k s in if k == j then rest else j ∷ rest

module _ {S : Type 0} where
  -- The queued request with the id, and the queue without it.
  unfoldable pub take_pending :
      ℕ → List (PendingRequest S) → Option (PendingRequest S × List (PendingRequest S))
  take_pending id [] = none
  take_pending id (r ∷ rs) =
      let rest = take_pending id rs in
      if r.id == id
      then some (r, rs)
      else (elim rest [ none ↦ none | some (q, qs) ↦ some (q, r ∷ qs) ])

  abbrev pub undefer : ℕ → BatchAction S (Unit {0})
  undefer id = modify (λ s. record s { deferred_prefill = remove_key id s.deferred_prefill })

  abbrev pub cancel_active : ℕ → ActiveRequest S → BatchAction S (Option CancelledGeneration)
  cancel_active id r = do
    reject_if (is_in_flight r.phase) BatchError.in_flight_request
    on_kv (remove_sequence id)
    request ← expect_active id
    modify (λ s. record s { active = OrdMap.remove id s.active })
    undefer id
    pure (
        some (record {
          request_id = id;
          prompt_token_ids = request.prompt_token_ids;
          generated_token_ids = request.generated_token_ids;
        }))

  abbrev pub cancel_queued :
      ℕ → PendingRequest S → List (PendingRequest S) → BatchAction S (Option CancelledGeneration)
  cancel_queued id r rest = do
    modify (λ s. record s { pending = rest })
    undefer id
    pure (
        some (record {
          request_id = id;
          prompt_token_ids = r.prompt_token_ids;
          generated_token_ids = [];
        }))

  unfoldable pub cancel : ℕ → BatchAction S (Option CancelledGeneration)
  unfolding take_pending remove_key
  cancel id = do
    queued ← gets (λ s. take_pending id s.pending)
    active ← gets (λ s. OrdMap.lookup id s.active)
    elim queued [
      | some (r, rest) ↦ cancel_queued id r rest
      | none ↦ elim active [ none ↦ pure none | some r ↦ cancel_active id r ]
    ]
