-- ===== src/Batch/Fenced/Safety.antt =====
-- What a poll of the gate (continuous_batch/fenced.rs) does on every branch.
use ru_llm.Base.{
  ℕ, ◌≡◌, ◌≢◌, ◌⊎◌, refl, true, false, Bool, none, some, arith, ◌==◌, inl, inr, err, ok, Bool-cases,
  Option-cases, Ensures,
}
use ru_llm.Runtime.Errors.{RuntimeError, Message}
use ru_llm.Batch.Fenced.{
  Poll, poll_pending, poll_ready, poll_failed, poll_panicked, Gate, GateError, Tracked, runtime,
  unwound, poll_fence, refusal, invalid_gate,
}

module _ {F : Type 0} (poll_complete : F → Poll × F) where
  -- The fence has answered that the batch is complete, now or before.
  abbrev pub HasCompleted : Tracked F → Type 0
  HasCompleted k = (k.completed ≡ true) ⊎ ((f : F) × (poll_complete k.fence ≡ (poll_ready, f)))

module _ {S F : Type 0} (poll_complete : F → Poll × F) where
  -- The gate after a poll that leaves the fence `f`.
  abbrev pub with_fence : Gate S F → Tracked F → F → Bool → Bool → Gate S F
  with_fence g k f completed quarantined = record g {
    tracked = some (record { batch_id = k.batch_id; fence = f; completed = completed });
    quarantined = quarantined;
  }

  -- The answer is the one of the fence of that batch, and it is kept.
  abbrev pub Polled : Gate S F → ℕ → Bool → Gate S F → Type 0
  Polled g id ready t =
      (k : Tracked F) × (g.tracked ≡ some k)
      × (k.batch_id ≡ id)
      × (g.quarantined ≡ false)
      × (((ready ≡ true) × (k.completed ≡ true) × (t ≡ g))
          ⊎ ((f : F) × (((ready ≡ true)
                  × (k.completed ≡ false)
                  × (poll_complete k.fence ≡ (poll_ready, f))
                  × (t ≡ with_fence g k f true false))
                ⊎ ((ready ≡ false)
                    × (k.completed ≡ false)
                    × (poll_complete k.fence ≡ (poll_pending, f))
                    × (t ≡ with_fence g k f false false)))))

  -- The gate is quarantined, it tracks no fence or that of another batch, or the fence has failed.
  abbrev pub NotPolled : Gate S F → ℕ → GateError → Gate S F → Type 0
  NotPolled g id e t =
      ((t ≡ g) × (g.quarantined ≡ true) × (e ≡ refusal))
      ⊎ ((t ≡ g) × (g.tracked ≡ none) × (e ≡ invalid_gate Message.no_tracked_batch))
      ⊎ ((t ≡ g)
          × ((k : Tracked F) × (g.tracked ≡ some k) × (k.batch_id ≢ id))
          × (e ≡ invalid_gate Message.stale_fence))
      ⊎ ((k : Tracked F) × (f : F) × (g.tracked ≡ some k)
          × (k.completed ≡ false)
          × (t ≡ with_fence g k f false true)
          × (((x : RuntimeError) × (poll_complete k.fence ≡ (poll_failed x, f)) × (e ≡ runtime x))
              ⊎ ((poll_complete k.fence ≡ (poll_panicked, f)) × (e ≡ unwound))))

  module _ (g : Gate S F) (id : ℕ) where
    polled :
        (k : Tracked F)
        → g.quarantined ≡ false
        → g.tracked ≡ some k
        → (k.batch_id == id) ≡ true
        → k.completed ≡ false
        → (p : Poll × F) → poll_complete k.fence ≡ p
        → Ensures (Polled g id) (NotPolled g id) (poll_fence poll_complete id g)
    unfolding poll_fence
    polled k healthy tracks same running (poll_pending, f) e =
        let run : poll_fence poll_complete id g ≡ ok false (with_fence g k f false false) =
          ground (arith, healthy, tracks, same, running, e) in
        rw run (k, tracks, ground (arith, same), healthy, inr (f, inr (refl, running, e, refl)))
    polled k healthy tracks same running (poll_ready, f) e =
        let run : poll_fence poll_complete id g ≡ ok true (with_fence g k f true false) =
          ground (arith, healthy, tracks, same, running, e) in
        rw run (k, tracks, ground (arith, same), healthy, inr (f, inl (refl, running, e, refl)))
    polled k healthy tracks same running (poll_failed x, f) e =
        let run : poll_fence poll_complete id g ≡ err (runtime x) (with_fence g k f false true) =
          ground (arith, healthy, tracks, same, running, e) in
        rw run (inr (inr (inr (k, f, tracks, running, refl, inl (x, e, refl)))))
    polled k healthy tracks same running (poll_panicked, f) e =
        let run : poll_fence poll_complete id g ≡ err unwound (with_fence g k f false true) =
          ground (arith, healthy, tracks, same, running, e) in
        rw run (inr (inr (inr (k, f, tracks, running, refl, inr (e, refl)))))

    -- A poll answers that the batch is complete exactly when its own fence does, or has done before;
    -- with a pending fence it answers that the batch is not. The fence and a completion are stored,
    -- and nothing else changes. On an error the gate is as it was, if it is quarantined, tracks no
    -- fence or that of another batch; a fence that fails or panics leaves it quarantined with its
    -- batch not completed.
    pub poll_fence-Ensures : Ensures (Polled g id) (NotPolled g id) (poll_fence poll_complete id g)
    unfolding poll_fence
    poll_fence-Ensures = elim (Bool-cases g.quarantined) [
      | inl broken ↦
          let run : poll_fence poll_complete id g ≡ err refusal g = rw broken refl in
          rw run (inl (refl, broken, refl))
      | inr healthy ↦ elim (Option-cases g.tracked) [
        | inl nothing ↦
            let run : poll_fence poll_complete id g
                ≡ err (invalid_gate Message.no_tracked_batch) g =
              ground (arith, healthy, nothing) in
            rw run (inr (inl (refl, nothing, refl)))
        | inr (k, tracks) ↦ elim (Bool-cases (k.batch_id == id)) [
          | inr stale ↦
              let run : poll_fence poll_complete id g ≡ err (invalid_gate Message.stale_fence) g =
                ground (arith, healthy, tracks, stale) in
              rw run (
                inr (inr (inl (refl, (k, tracks, λ is. absurd (ground (arith, stale, is))), refl))))
          | inl same ↦ elim (Bool-cases k.completed) [
            | inl completed ↦
                let run : poll_fence poll_complete id g ≡ ok true g =
                  ground (arith, healthy, tracks, same, completed) in
                rw run (k, tracks, ground (arith, same), healthy, inl (refl, completed, refl))
            | inr running ↦ polled k healthy tracks same running (poll_complete k.fence) refl
          ]
        ]
      ]
    ]
