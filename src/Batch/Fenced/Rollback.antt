-- ===== src/Batch/Fenced/Rollback.antt =====
-- A rollback through the gate (continuous_batch/fenced.rs), down to the pages of the cache.
use ru_llm.Base.{
  ℕ, ◌≡◌, ◌⊎◌, refl, inl, inr, Bool, true, false, some, none, arith, length, Outcome, ok, err,
  panic, Ensures,
}
use ru_llm.PagedKv.Invariant.{ManagerInv}
use ru_llm.PagedKv.Groups.Ends.{HasTicksFor}
use ru_llm.Batch.Types.{BatchError, Scheduler, ScheduledBatch}
use ru_llm.Batch.Complete.{fail_batch}
use ru_llm.Batch.Complete.Failed.{HasPhases, RolledBack, reservation_ids, fail_batch-Ensures}
use ru_llm.Batch.Fenced.{
  Poll, poll_pending, Gate, GateError, Tracked, poll_fence, try_rollback, scheduler_failure,
}
use ru_llm.Batch.Fenced.Safety.{HasCompleted, Polled, NotPolled, with_fence, poll_fence-Ensures}

module _ {S F : Type 0} (poll_complete : F → Poll × F) (g : Gate S F)
    (v : ManagerInv g.scheduler.kv_cache)
    (phases : (b : ScheduledBatch) → g.scheduler.in_flight ≡ some b → HasPhases b.kind b.sequences)
    (room : (b : ScheduledBatch)
      → g.scheduler.in_flight ≡ some b
      → HasTicksFor (length (reservation_ids b.sequences)) g.scheduler.kv_cache)
    (id : ℕ) where
  -- The fence of the batch has completed, the batch is rolled back and its fence is gone; or the
  -- fence is pending, and it alone has changed.
  abbrev pub Rollback : Bool → Gate S F → Type 0
  Rollback ready t =
      (k : Tracked F) × (g.tracked ≡ some k)
      × (k.batch_id ≡ id)
      × (t.quarantined ≡ false)
      × (((ready ≡ true)
            × HasCompleted poll_complete k
            × (t.tracked ≡ none)
            × RolledBack g.scheduler id t.scheduler)
          ⊎ ((ready ≡ false)
              × (k.completed ≡ false)
              × ((f : F) × (poll_complete k.fence ≡ (poll_pending, f))
                  × (t ≡ with_fence poll_complete g k f false false))))

  -- The poll is an error, or the fence has completed and the scheduler refuses the batch.
  abbrev pub NoRollback : GateError → Gate S F → Type 0
  NoRollback e t =
      NotPolled poll_complete g id e t
      ⊎ ((k : Tracked F) × (g.tracked ≡ some k)
          × HasCompleted poll_complete k
          × (e ≡ scheduler_failure)
          × (t.scheduler ≡ g.scheduler)
          × (t.quarantined ≡ false))

  rolls_back :
      (t : Gate S F) (k : Tracked F)
      → poll_fence poll_complete id g ≡ ok true t
      → g.tracked ≡ some k
      → k.batch_id ≡ id
      → HasCompleted poll_complete k
      → t.scheduler ≡ g.scheduler
      → t.quarantined ≡ false
      → (o : Outcome (Scheduler S) BatchError (Unit {0})) → fail_batch id g.scheduler ≡ o
      → Ensures (λ _ s. RolledBack g.scheduler id s) (λ e s. s ≡ g.scheduler) o
      → Ensures Rollback NoRollback (try_rollback poll_complete id g)
  unfolding try_rollback
  rolls_back t k polled tracks named completed kept healthy (ok _ s) run done =
      let rolled : try_rollback poll_complete id g
          ≡ ok true (record t { scheduler = s; tracked = none }) =
        ground (arith, polled, kept, run) in
      rw rolled (k, tracks, named, healthy, inl (refl, completed, refl, done))
  rolls_back t k polled tracks named completed kept healthy (err e s) run same =
      let refused : try_rollback poll_complete id g
          ≡ err scheduler_failure (record t { scheduler = s }) =
        ground (arith, polled, kept, run) in
      rw refused (inr (k, tracks, completed, refl, same, healthy))
  rolls_back t k polled tracks named completed kept healthy panic run never = absurd never

  after_fence :
      (o : Outcome (Gate S F) GateError Bool)
      → poll_fence poll_complete id g ≡ o
      → Ensures (Polled poll_complete g id) (NotPolled poll_complete g id) o
      → Ensures Rollback NoRollback (try_rollback poll_complete id g)
  unfolding try_rollback
  after_fence (ok ready t) run (k, tracks, named, healthy, inl (is, completed, same)) =
      rolls_back t k (rw is at run) tracks named (inl completed) (cc same) (cc (same, healthy))
        (fail_batch id g.scheduler) refl (fail_batch-Ensures g.scheduler v id phases room)
  after_fence (ok ready t) run (k, tracks, named, healthy, inr (f, inl (is, running, e, same))) =
      rolls_back t k (rw is at run) tracks named (inr (f, e)) (cc same) (cc same)
        (fail_batch id g.scheduler) refl (fail_batch-Ensures g.scheduler v id phases room)
  after_fence (ok ready t) run (k, tracks, named, healthy, inr (f, inr (is, running, e, same))) =
      let open_fence : try_rollback poll_complete id g ≡ ok false t = ground (arith, run, is) in
      rw open_fence (k, tracks, named, cc same, inr (refl, running, (f, e, same)))
  after_fence (err e t) run failed =
      let refused : try_rollback poll_complete id g ≡ err e t = ground (arith, run) in
      rw refused (inl failed)
  after_fence panic run never = absurd never

  -- With a well-formed cache that has room in the LRU counter for the rows of the batch in flight,
  -- and a token in every row that has to go back to decoding, a rollback through the gate does not
  -- panic but for a panic of the poll, which is an error here. Once the fence of that batch has
  -- answered that it is complete, and only then, the batch is rolled back and its fence is dropped.
  -- While the fence is pending, only the fence changes. On an error the scheduler is as it was: the
  -- poll was an error, or the fence has completed and the scheduler refuses the rollback.
  pub try_rollback-Ensures : Ensures Rollback NoRollback (try_rollback poll_complete id g)
  try_rollback-Ensures =
      after_fence (poll_fence poll_complete id g) refl (poll_fence-Ensures poll_complete g id)
