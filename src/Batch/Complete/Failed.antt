-- ===== src/Batch/Complete/Failed.antt =====
-- What `fail_batch` does on every branch.
use ru_llm.Base.{
  ℕ, zero, suc, ◌≡◌, ◌≢◌, ◌⊎◌, refl, sym, ◌∙◌, inl, inr, none, some, List, [], ◌∷◌, ◌==◌, arith,
  map, length, get_elem?, Outcome, ok, err, panic, Ensures, Bool-cases, for_each, for_each-step,
}
use ru_llm.Base.OrdMap
use ru_llm.PagedKv.Types.{Manager, Error}
use ru_llm.PagedKv.Invariant.{ManagerInv}
use ru_llm.PagedKv.Commit.{cancel_appends}
use ru_llm.PagedKv.Groups.{IsGroup}
use ru_llm.PagedKv.Groups.Ends.{HasTicksFor, GroupEnded}
use ru_llm.PagedKv.Groups.Atomic.{start_of, cancel_appends-Ensures}
use ru_llm.Batch.Types.{
  BatchKind, BatchError, ActiveRequest, RequestPhase, Scheduler, ScheduledSequence, ScheduledBatch,
  kv,
}
use ru_llm.Batch.Verify.{take_batch}
use ru_llm.Batch.Complete.{previous_phase, restore_phase, fail_batch, ownership_error}
use ru_llm.Batch.Complete.Owned.{taken, restored, take_batch-cases, ownership_error-cases, IsOwned}

-- Every row has the token that its request goes back to.
unfoldable pub HasPhases : BatchKind → List ScheduledSequence → Type 0
HasPhases kind [] = Unit {0}
HasPhases kind (row ∷ rows) =
    ((p : RequestPhase) × (previous_phase kind row.token_ids ≡ some p)) × HasPhases kind rows

abbrev pub reservation_ids : List ScheduledSequence → List ℕ
reservation_ids rows = map (λ row. row.reservation_id) rows

-- The phase of a request after the rows are put back: that of one of its rows, or the old one if
-- it has none.
abbrev pub IsRestored :
    BatchKind → List ScheduledSequence → ℕ → RequestPhase → RequestPhase → Type 0
IsRestored kind rows id old p =
    ((i : ℕ) × (row : ScheduledSequence) × (get_elem? rows i ≡ some row)
      × (row.request_id ≡ id)
      × (previous_phase kind row.token_ids ≡ some p))
    ⊎ (((i : ℕ) (row : ScheduledSequence) → get_elem? rows i ≡ some row → row.request_id ≢ id)
        × (p ≡ old))

shift_inside :
    (kind : BatchKind) (row : ScheduledSequence) (rows : List ScheduledSequence) (id : ℕ)
    (old p' p : RequestPhase)
    → row.request_id ≡ id
    → previous_phase kind row.token_ids ≡ some p'
    → IsRestored kind rows id p' p
    → IsRestored kind (row ∷ rows) id old p
shift_inside kind row rows id old p' p here phase (inl (i, x, at, named, is)) =
    inl (suc i, x, at, named, is)
shift_inside kind row rows id old p' p here phase (inr (absent, same)) =
    inl (0, row, refl, here, rw same phase)

shift_outside :
    (kind : BatchKind) (row : ScheduledSequence) (rows : List ScheduledSequence) (id : ℕ)
    (old p : RequestPhase)
    → row.request_id ≢ id
    → IsRestored kind rows id old p
    → IsRestored kind (row ∷ rows) id old p
shift_outside kind row rows id old p other (inl (i, x, at, named, is)) =
    inl (suc i, x, at, named, is)
shift_outside kind row rows id old p other (inr (absent, same)) = inr (not_there, same)
  where
    not_there :
        (i : ℕ) (x : ScheduledSequence) → get_elem? (row ∷ rows) i ≡ some x → x.request_id ≢ id
    not_there zero x at named = other (ground (arith, at, named))
    not_there (suc i) x at named = absent i x at named

module _ {S : Type 0} where
  unfoldable pub IsPresent : List (ℕ × ActiveRequest S) → List ScheduledSequence → Type 0
  IsPresent active [] = Unit {0}
  IsPresent active (row ∷ rows) =
      ((r : ActiveRequest S) × (OrdMap.lookup row.request_id active ≡ some r))
      × IsPresent active rows

  -- Every request is as it was, but for its phase.
  abbrev pub Restores :
      BatchKind
      → List ScheduledSequence
      → List (ℕ × ActiveRequest S)
      → List (ℕ × ActiveRequest S)
      → Type 0
  Restores kind rows before after =
      (id : ℕ) (r : ActiveRequest S)
      → OrdMap.lookup id before ≡ some r
      → (p : RequestPhase) × (OrdMap.lookup id after ≡ some (record r { phase = p }))
        × IsRestored kind rows id r.phase p

  IsPresent-owned :
      (s : Scheduler S) (id : ℕ) (rows : List ScheduledSequence)
      → IsOwned s id rows
      → IsPresent s.active rows
  unfolding IsOwned IsPresent
  IsPresent-owned s id [] owned = tt
  IsPresent-owned s id (row ∷ rows) ((r, found, mine), owned) =
      ((r, found), IsPresent-owned s id rows owned)

  IsPresent-insert :
      (id : ℕ) (r : ActiveRequest S) (active : List (ℕ × ActiveRequest S))
      (rows : List ScheduledSequence)
      → IsPresent active rows
      → IsPresent (OrdMap.insert id r active) rows
  unfolding IsPresent
  IsPresent-insert id r active [] h = tt
  IsPresent-insert id r active (row ∷ rows) ((q, found), h) = (
    elim (Bool-cases (row.request_id == id)) [
      | inl same ↦ (r, OrdMap.lookup-insert id row.request_id r active ∙ rw same refl)
      | inr other ↦ (q, OrdMap.lookup-insert id row.request_id r active ∙ rw other found)
    ],
    IsPresent-insert id r active rows h,
  )

  -- The first row is put back before the others.
  first_back :
      (kind : BatchKind) (row : ScheduledSequence) (rows : List ScheduledSequence)
      (before after : List (ℕ × ActiveRequest S)) (r : ActiveRequest S) (p : RequestPhase)
      → OrdMap.lookup row.request_id before ≡ some r
      → previous_phase kind row.token_ids ≡ some p
      → Restores kind rows (OrdMap.insert row.request_id (record r { phase = p }) before) after
      → Restores kind (row ∷ rows) before after
  first_back kind row rows before after r p found phase restores id q held =
      let r' : ActiveRequest S = record r { phase = p } in
      let step = OrdMap.lookup-insert row.request_id id r' before in
      elim (Bool-cases (id == row.request_id)) [
        | inl here ↦
            let named : row.request_id ≡ id = ground (arith, here) in
            let same : r ≡ q = ground (arith, found, held, named) in
            let (x, at, is) = restores id r' (step ∙ rw here refl) in
            (x, rw (sym same) at, shift_inside kind row rows id q.phase p x named phase is)
        | inr other ↦
            let (x, at, is) = restores id q (step ∙ rw other held) in
            (x, at, shift_outside kind row rows id q.phase x (ground (arith, other)) is)
      ]

  restore_all :
      (kind : BatchKind) (rows : List ScheduledSequence) (s : Scheduler S)
      → HasPhases kind rows
      → IsPresent s.active rows
      → (t : Scheduler S) × (for_each rows (restore_phase kind) s ≡ ok tt t)
        × (t ≡ record s { active = t.active })
        × Restores kind rows s.active t.active
  unfolding HasPhases IsPresent for_each
  restore_all kind [] s phases present = (
    s,
    refl,
    refl,
    λ id r found. (r.phase, found, inr (λ i row at. absurd (ground (arith, at)), refl)),
  )
  restore_all kind (row ∷ rows) s ((p, phase), phases) ((r, found), present) =
      let active : List (ℕ × ActiveRequest S) =
        OrdMap.insert row.request_id (record r { phase = p }) s.active in
      let (u, rest, same, restores) =
        restore_all kind rows (record s { active = active }) phases
          (IsPresent-insert row.request_id (record r { phase = p }) s.active rows present) in
      (
        u,
        for_each-step row rows (restore_phase kind) s (record s { active = active })
              (ground (arith, found, phase))
            ∙ rest,
        same,
        first_back kind row rows s.active u.active r p found phase restores,
      )

  -- The rows of the batch are taken back, and their requests are where they were.
  pub record RolledBack (s : Scheduler S) (id : ℕ) (t : Scheduler S) : Type 0 where
    pub batch : ScheduledBatch
    pub was_in_flight : (s.in_flight ≡ some batch) × (batch.id ≡ id)
    pub owned : IsOwned s id batch.sequences
    pub cache : GroupEnded start_of s.kv_cache (reservation_ids batch.sequences) t.kv_cache
    pub requests : Restores batch.kind batch.sequences s.active t.active
    pub frame : t ≡ record s { in_flight = none; kv_cache = t.kv_cache; active = t.active }

  module _ (s : Scheduler S) (v : ManagerInv s.kv_cache) (id : ℕ) (b : ScheduledBatch)
      (held : s.in_flight ≡ some b) (named : b.id ≡ id) (took : take_batch id s ≡ ok b (taken s))
      (phases : HasPhases b.kind b.sequences) (owned : IsOwned s id b.sequences)
      (clean : ownership_error s id b.sequences ≡ none) where
    rolled :
        (o : Outcome Manager Error (Unit {0}))
        → cancel_appends (reservation_ids b.sequences) s.kv_cache ≡ o
        → Ensures
            (λ _ m.
              IsGroup s.kv_cache (reservation_ids b.sequences)
              × GroupEnded start_of s.kv_cache (reservation_ids b.sequences) m)
            (λ e m. (m ≡ s.kv_cache) × ¬ IsGroup s.kv_cache (reservation_ids b.sequences))
            o
        → Ensures (λ _ t. RolledBack s id t) (λ e t. t ≡ s) (fail_batch id s)
    unfolding fail_batch
    rolled (ok _ m) run (group, ended) =
        let (t, rest, frame, restores) =
          restore_all b.kind b.sequences (record s { in_flight = none; kv_cache = m }) phases
            (IsPresent-owned s id b.sequences owned) in
        let done : fail_batch id s ≡ ok tt t = ground (arith, took, clean, run, rest) in
        rw done (record {
          batch = b;
          was_in_flight = (held, named);
          owned = owned;
          cache = rw frame ended;
          requests = restores;
          frame = rw frame refl;
        })
    rolled (err e m) run (same, bad) =
        let refused : fail_batch id s ≡ err (kv e) (record s { in_flight = some b; kv_cache = m }) =
          ground (arith, took, clean, run) in
        rw (refused, same) (restored s b held)
    rolled panic run never = absurd never

  module _ (s : Scheduler S) (v : ManagerInv s.kv_cache) (id : ℕ) where
    -- With a well-formed cache that has room in the LRU counter for the rows of the batch, and a
    -- token in every row that has to go back to decoding, failing a batch never panics. The batch
    -- is in flight and owns its requests: its appends are all taken back, and every request is as
    -- it was but for the phase, which a row of the batch gives back to it. Or it is an error, and
    -- nothing changes.
    pub fail_batch-Ensures :
        ((b : ScheduledBatch) → s.in_flight ≡ some b → HasPhases b.kind b.sequences)
        → ((b : ScheduledBatch)
            → s.in_flight ≡ some b
            → HasTicksFor (length (reservation_ids b.sequences)) s.kv_cache)
        → Ensures (λ _ t. RolledBack s id t) (λ e t. t ≡ s) (fail_batch id s)
    unfolding fail_batch
    fail_batch-Ensures phases room = elim (take_batch-cases s id) [
      | inr (e, refused) ↦
          let failed : fail_batch id s ≡ err e s = ground (arith, refused) in rw failed refl
      | inl (b, held, named, took) ↦ elim (ownership_error-cases s id b.sequences) [
        | inr (e, foreign) ↦
            let failed : fail_batch id s
                ≡ err BatchError.not_owned (record s { in_flight = some b }) =
              ground (arith, took, foreign) in
            rw failed (restored s b held)
        | inl (clean, owned) ↦
            rolled s v id b held named took (phases b held) owned clean
              (cancel_appends (reservation_ids b.sequences) s.kv_cache) refl
              (cancel_appends-Ensures s.kv_cache v (reservation_ids b.sequences) (room b held))
      ]
    ]
