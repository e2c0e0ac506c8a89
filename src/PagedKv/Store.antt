-- ===== src/PagedKv/Store.antt =====
-- What a step that rewrites one sequence has to show to keep the manager well formed.
use ru_llm.Base.{
  ℕ, ◌≤◌, ◌<◌, ◌≡◌, ◌≢◌, ◌↔◌, subst, inl, inr, none, some, List, arith, count, ◌==◌, ==_iff,
  Bool-cases,
}
use ru_llm.Base.OrdMap
use ru_llm.Base.OrdMap.{IsOrdered}
use ru_llm.PagedKv.Types.{SequenceState, ReservationState, PagePool, Manager}
use ru_llm.PagedKv.Pool.Invariant.{Inv, cached_at}
use ru_llm.PagedKv.Invariant.{
  ManagerInv, SequenceInv, ReservationInv, SequenceInv-frame, owed_by, writable,
}

-- The state after the step.
abbrev pub stored :
    Manager → ℕ → SequenceState → PagePool → List (ℕ × ReservationState) → ℕ → Manager
stored m id q pool res next = record m {
  pool = pool;
  sequences = OrdMap.insert id q m.sequences;
  reservations = res;
  next_reservation = next;
}

module _ (m : Manager) (v : ManagerInv m) (id : ℕ) (q' : SequenceState) (pool' : PagePool)
    (res' : List (ℕ × ReservationState)) (next' : ℕ) where
  abbrev pub later : Manager
  later = stored m id q' pool' res' next'

  pub store-Inv :
      Inv m.config.num_pages (owed_by later.sequences) (λ _. 0) pool'
      → ((j : ℕ) (q : SequenceState) (p : ℕ)
          → j ≢ id
          → OrdMap.lookup j m.sequences ≡ some q
          → 0 < count p (writable m.config q)
          → cached_at m.pool p ≡ none
          → cached_at pool' p ≡ none)
      → SequenceInv m.config pool' res' id q'
      → IsOrdered res'
      → m.next_reservation ≤ next'
      → ((rid : ℕ) (r : ReservationState)
          → r.request_id ≢ id
          → (OrdMap.lookup rid m.reservations ≡ some r) ↔ (OrdMap.lookup rid res' ≡ some r))
      → ((rid : ℕ) (r : ReservationState)
          → r.request_id ≡ id
          → OrdMap.lookup rid res' ≡ some r
          → ReservationInv m.config later.sequences next' rid r)
      → ManagerInv later
  store-Inv pool_inv kept mine ordered grows others own = record {
    blocks = v.blocks;
    few_pages = v.few_pages;
    short = v.short;
    sequences_ordered = OrdMap.insert-IsOrdered id q' m.sequences v.sequences_ordered;
    reservations_ordered = ordered;
    pool = pool_inv;
    each = each';
    reserved = reserved';
  }
    where
      each_other :
          (j : ℕ) (q : SequenceState)
          → j ≢ id
          → OrdMap.lookup j m.sequences ≡ some q
          → SequenceInv m.config pool' res' j q
      each_other j q other e =
          SequenceInv-frame m.config m.pool pool' m.reservations res' j q
            (λ p w. kept j q p other e w)
            (λ rid pe.
              let (r, found, owner) = (v.each j q e).pending rid pe in
              ground (arith, others rid r, found, owner))
            (v.each j q e)

      each' :
          (j : ℕ) (q : SequenceState)
          → OrdMap.lookup j later.sequences ≡ some q
          → SequenceInv m.config pool' res' j q
      each' j q e = elim (Bool-cases (j == id)) [
        | inl same ↦
            let at_id : j ≡ id = (==_iff j id).0 same in
            let is_new : q' ≡ q = ground (arith, OrdMap.lookup-insert id j q' m.sequences) in
            rw at_id (subst (λ x. SequenceInv m.config pool' res' id x) is_new mine)
        | inr other ↦
            each_other j q (λ x. ground arith)
              (ground (arith, OrdMap.lookup-insert id j q' m.sequences))
      ]

      reserved' :
          (rid : ℕ) (r : ReservationState)
          → OrdMap.lookup rid res' ≡ some r
          → ReservationInv m.config later.sequences next' rid r
      reserved' rid r e = elim (Bool-cases (r.request_id == id)) [
        | inl same ↦ own rid r ((==_iff r.request_id id).0 same) e
        | inr other ↦
            let old : ReservationInv m.config m.sequences m.next_reservation rid r =
              v.reserved rid r ((others rid r (λ x. ground arith)).1 e) in
            record {
              fresh = omega (arith, old.fresh);
              owner =
                  let (q, found, waits, start) = old.owner in
                  (
                    q,
                    ground (arith, OrdMap.lookup-insert id r.request_id q' m.sequences, found),
                    waits,
                    start,
                  );
              previous = old.previous;
              within = old.within;
              positive = old.positive;
            }
      ]
