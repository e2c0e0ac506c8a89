-- ===== src/Batch/Complete/Owned.antt =====
-- The checks in front of `complete_batch` and `fail_batch`: they take the batch, and put it back
-- when they refuse.
use ru_llm.Base.{
  ℕ, ◌≡◌, ◌⊎◌, refl, sym, ap, ◌∙◌, inl, inr, true, none, some, List, [], ◌∷◌, ◌==◌, arith, ok, err,
  Bool-cases, Option-cases,
}
use ru_llm.Base.OrdMap
use ru_llm.Batch.Types.{
  BatchError, ActiveRequest, RequestPhase, Scheduler, ScheduledSequence, ScheduledBatch,
  in_flight_of,
}
use ru_llm.Batch.Verify.{take_batch}
use ru_llm.Batch.Complete.{ownership_error, is_owned_by}

module _ {S : Type 0} (s : Scheduler S) where
  -- The scheduler while the batch is taken, and after it is put back.
  abbrev pub taken : Scheduler S
  taken = record s { in_flight = none }

  pub restored : (b : ScheduledBatch) → s.in_flight ≡ some b → record s { in_flight = some b } ≡ s
  restored b held = ap (λ o. record s { in_flight = o }) (sym held)

  pub take_batch-cases :
      (id : ℕ)
      → ((b : ScheduledBatch) × (s.in_flight ≡ some b)
          × (b.id ≡ id)
          × (take_batch id s ≡ ok b taken))
        ⊎ ((e : BatchError) × (take_batch id s ≡ err e s))
  unfolding take_batch
  take_batch-cases id = elim (Option-cases s.in_flight) [
    | inl nothing ↦ inr (
      BatchError.not_in_flight,
      rw nothing refl
          ∙ ap (λ o. err BatchError.not_in_flight (record s { in_flight = o })) (sym nothing),
    )
    | inr (b, held) ↦ elim (Bool-cases (b.id == id)) [
      | inl this ↦ inl (b, held, ground (arith, this), rw (held, this) refl)
      | inr other ↦ inr (
        BatchError.other_in_flight,
        rw (held, other) refl ∙ ap (λ t. err BatchError.other_in_flight t) (restored b held),
      )
    ]
  ]

  -- Every row belongs to an active request that the batch owns.
  unfoldable pub IsOwned : ℕ → List ScheduledSequence → Type 0
  IsOwned id [] = Unit {0}
  IsOwned id (row ∷ rows) =
      ((r : ActiveRequest S) × (OrdMap.lookup row.request_id s.active ≡ some r)
        × (r.phase ≡ in_flight_of id))
      × IsOwned id rows

  owner-phase : (id : ℕ) (p : RequestPhase) → is_owned_by id p ≡ true → p ≡ in_flight_of id
  owner-phase id p h = ground (arith, h)

  pub ownership_error-cases :
      (id : ℕ) (rows : List ScheduledSequence)
      → ((ownership_error s id rows ≡ none) × IsOwned id rows)
        ⊎ ((e : BatchError) × (ownership_error s id rows ≡ some e))
  unfolding ownership_error IsOwned
  ownership_error-cases id [] = inl (refl, tt)
  ownership_error-cases id (row ∷ rows) =
      elim (Option-cases (OrdMap.lookup row.request_id s.active)) [
        | inl missing ↦ inr (BatchError.missing_request, ground (arith, missing))
        | inr (r, found) ↦ elim (Bool-cases (is_owned_by id r.phase)) [
          | inr other ↦ inr (BatchError.not_owned, ground (arith, found, other))
          | inl mine ↦ elim (ownership_error-cases id rows) [
            | inr (e, later) ↦ inr (e, ground (arith, found, mine, later))
            | inl (none_wrong, owned) ↦ inl (
              ground (arith, found, mine, none_wrong),
              ((r, found, owner-phase id r.phase mine), owned),
            )
          ]
        ]
      ]
