-- ===== src/PagedKv/Groups/Atomic.antt =====
-- `commit_appends` and `cancel_appends` (paged_kv.rs): all of a group or nothing.
use ru_llm.Base.{
  ℕ, ◌+◌, ◌<◌, ◌≡◌, refl, inl, inr, false, none, some, List, [], ◌∷◌, arith, length, count, ok, err,
  panic, Ensures, Ensures-after, Ensures-failed, for_each-step, ◌==◌, ◌∙◌, ap, Outcome, for_each,
}
use ru_llm.Base.OrdMap
use ru_llm.Base.OrdMap.{has_key}
use ru_llm.PagedKv.Types.{ReservationState, Manager, Error}
use ru_llm.PagedKv.Invariant.{ManagerInv}
use ru_llm.PagedKv.Manager.{ManagerAction}
use ru_llm.PagedKv.Commit.{
  commit_append, cancel_append, commit_appends, cancel_appends, collect, expect_ok,
  validate_reservations,
}
use ru_llm.PagedKv.Finish.{HasTicks}
use ru_llm.PagedKv.Ending.{Ended, cancel_append-Ensures, commit_append-Ensures}
use ru_llm.PagedKv.Run.{room_left}
use ru_llm.PagedKv.Groups.{IsGroup, IsNew, validate_from-cases}
use ru_llm.PagedKv.Groups.Ends.{
  HasTicksFor, GroupEnded, none_ended, both_ended, reservation_after, config_after,
}

abbrev pub start_of : ℕ → ReservationState → ℕ
start_of rid r = r.start_position

abbrev pub full_end_of : ℕ → ReservationState → ℕ
full_end_of rid r = r.start_position + r.token_count

module _ (m t : Manager) where
  IsGroup-kept :
      (ids : List ℕ)
      → ((rid : ℕ)
          → 0 < count rid ids
          → OrdMap.lookup rid t.reservations ≡ OrdMap.lookup rid m.reservations)
      → IsGroup m ids
      → IsGroup t ids
  unfolding IsGroup count
  IsGroup-kept [] same group = tt
  IsGroup-kept (id ∷ ids) same ((r, held), distinct, group) = (
    (r, same id (grind arith) ∙ held),
    distinct,
    IsGroup-kept ids (λ rid h. same rid (omega arith)) group,
  )

module _ (m : Manager) (v : ManagerInv m) (id : ℕ) (ids : List ℕ) (r : ReservationState)
    (held : OrdMap.lookup id m.reservations ≡ some r) (distinct : count id ids ≡ 0)
    (end_of : ℕ → ReservationState → ℕ) (t : Manager) (first : Ended m id (end_of id r) t) where
  pub reservation_kept :
      (rid : ℕ)
      → 0 < count rid ids
      → OrdMap.lookup rid t.reservations ≡ OrdMap.lookup rid m.reservations
  reservation_kept rid h =
      let other : (rid == id) ≡ false = ground (arith, h, distinct) in
      reservation_after end_of m v id ids r held distinct t first rid ∙ rw other refl

  pub IsGroup-after : IsGroup m ids → IsGroup t ids
  IsGroup-after = IsGroup-kept m t ids reservation_kept

  pub room_after : HasTicksFor (length (id ∷ ids)) m → HasTicksFor (length ids) t
  room_after room =
      room_left (length ids) m.next_tick t.next_tick m.config.max_sequence_length
        t.config.max_sequence_length room first.ticks
        (ap (λ c. c.max_sequence_length) (config_after end_of m v id ids r held distinct t first))

expect_ok-run :
    {A : Type 0} (act : ManagerAction A) (m t : Manager) (a : A)
    → act m ≡ ok a t
    → expect_ok act m ≡ ok a t
expect_ok-run act m t a run =
    ap (λ o. elim o [ ok a u ↦ ok a u | err e u ↦ panic | panic ↦ panic ]) run

pub collect-step :
    {A : Type 0} (id : A) (ids : List A) (body : A → ManagerAction ℕ) (m t u : Manager) (a : ℕ)
    (rest : List ℕ)
    → body id m ≡ ok a t
    → collect ids body t ≡ ok rest u
    → collect (id ∷ ids) body m ≡ ok (a ∷ rest) u
unfolding collect
collect-step id ids body m t u a rest run more =
    ap
      (λ o. elim o [
        | ok b w ↦ elim (collect ids body w) [
          | ok bs x ↦ ok (b ∷ bs) x
          | err e x ↦ err e x
          | panic ↦ panic
        ]
        | err e w ↦ err e w
        | panic ↦ panic
      ])
      run
    ∙ ap (λ o. elim o [ ok bs x ↦ ok (a ∷ bs) x | err e x ↦ err e x | panic ↦ panic ]) more

module _ (m : Manager) (v : ManagerInv m) (id : ℕ) (r : ReservationState)
    (held : OrdMap.lookup id m.reservations ≡ some r) where
  -- A live reservation ends.
  cancel_one :
      HasTicks m
      → (t : Manager) × (expect_ok (cancel_append id) m ≡ ok tt t) × Ended m id (start_of id r) t
  cancel_one room = one (cancel_append id m) refl (cancel_append-Ensures m v id room)
    where
      one :
          (o : Outcome Manager Error (Unit {0}))
          → cancel_append id m ≡ o
          → Ensures
              (λ _ t.
                (r : ReservationState) × (OrdMap.lookup id m.reservations ≡ some r)
                × Ended m id r.start_position t)
              (λ e t. (t ≡ m) × (OrdMap.lookup id m.reservations ≡ none))
              o
          → (t : Manager) × (expect_ok (cancel_append id) m ≡ ok tt t)
            × Ended m id (start_of id r) t
      one (ok _ t) run (r', held', done) =
          let same : r' ≡ r = ground (arith, held, held') in
          (t, expect_ok-run (cancel_append id) m t tt run, rw same at done)
      one (err e t) run (same, missing) = absurd (cc (held, missing))
      one panic run never = absurd never

  commit_one :
      (t : Manager) × (expect_ok (commit_append id) m ≡ ok (full_end_of id r) t)
      × Ended m id (full_end_of id r) t
  commit_one = one (commit_append id m) refl (commit_append-Ensures m v id)
    where
      one :
          (o : Outcome Manager Error ℕ)
          → commit_append id m ≡ o
          → Ensures
              (λ end t.
                (r : ReservationState) × (OrdMap.lookup id m.reservations ≡ some r)
                × (end ≡ r.start_position + r.token_count)
                × Ended m id end t)
              (λ e t. (t ≡ m) × (OrdMap.lookup id m.reservations ≡ none))
              o
          → (t : Manager) × (expect_ok (commit_append id) m ≡ ok (full_end_of id r) t)
            × Ended m id (full_end_of id r) t
      one (ok end t) run (r', held', at, done) =
          let same : r' ≡ r = ground (arith, held, held') in
          let here : end ≡ full_end_of id r = at ∙ ap (λ x. full_end_of id x) same in
          (
            t,
            expect_ok-run (commit_append id) m t (full_end_of id r) (rw here at run),
            rw here at done,
          )
      one (err e t) run (same, missing) = absurd (cc (held, missing))
      one panic run never = absurd never

cancel_all :
    (ids : List ℕ) (m : Manager)
    → ManagerInv m
    → IsGroup m ids
    → HasTicksFor (length ids) m
    → (t : Manager) × (for_each ids (λ id. expect_ok (cancel_append id)) m ≡ ok tt t)
      × GroupEnded start_of m ids t
unfolding for_each IsGroup
cancel_all [] m v group room = (m, refl, none_ended start_of m v)
cancel_all (id ∷ ids) m v ((r, held), distinct, group) room =
    let (t, run, first) = cancel_one m v id r held (grind arith) in
    let (u, rest, done) =
      cancel_all ids t first.inv (IsGroup-after m v id ids r held distinct start_of t first group)
        (room_after m v id ids r held distinct start_of t first room) in
    (
      u,
      for_each-step id ids (λ id. expect_ok (cancel_append id)) m t run ∙ rest,
      both_ended start_of m v id ids r held distinct t first u done,
    )

commit_all :
    (ids : List ℕ) (m : Manager)
    → ManagerInv m
    → IsGroup m ids
    → HasTicksFor (length ids) m
    → (ends : List ℕ) × (t : Manager) × (collect ids (λ id. expect_ok (commit_append id)) m
        ≡ ok ends t)
      × GroupEnded full_end_of m ids t
unfolding collect IsGroup
commit_all [] m v group room = ([], m, refl, none_ended full_end_of m v)
commit_all (id ∷ ids) m v ((r, held), distinct, group) room =
    let (t, run, first) = commit_one m v id r held in
    let (ends, u, rest, done) =
      commit_all ids t first.inv
        (IsGroup-after m v id ids r held distinct full_end_of t first group)
        (room_after m v id ids r held distinct full_end_of t first room) in
    (
      full_end_of id r ∷ ends,
      u,
      collect-step id ids (λ id. expect_ok (commit_append id)) m t u (full_end_of id r) ends run
          rest,
      both_ended full_end_of m v id ids r held distinct t first u done,
    )

module _ (m : Manager) (v : ManagerInv m) (ids : List ℕ) where
  -- No id is seen before the first.
  pub is_new : IsGroup m ids → IsNew m [] ids
  unfolding has_key
  is_new group = (group, λ k h. absurd (cc h))

  -- On a well-formed manager with room in the LRU counter for the whole group, cancelling a group
  -- never panics. Different live reservations are all taken back: their sequences have no pending
  -- append, the length from before it and the pages for that, the manager stays well formed, no available page
  -- is lost, and the cache switch and everything else outside of the page fields are as they were.
  -- Any other group is an error, and nothing changes.
  pub cancel_appends-Ensures :
      HasTicksFor (length ids) m
      → Ensures
          (λ _ t. IsGroup m ids × GroupEnded start_of m ids t)
          (λ e t. (t ≡ m) × ¬ IsGroup m ids)
          (cancel_appends ids m)
  unfolding cancel_appends
  cancel_appends-Ensures room = elim (validate_from-cases m v ids []) [
    | inr (e, refused, bad) ↦
        Ensures-failed _ _ (validate_reservations ids) _ m m e refused
          (refl, λ group. bad (is_new group))
    | inl (run, (group, fresh)) ↦
        let (t, rest, done) = cancel_all ids m v group room in
        Ensures-after _ _ (validate_reservations ids) _ m m run (rw rest (group, done))
  ]

  -- On a well-formed manager with room in the LRU counter for the whole group, committing a group
  -- never panics. Different live reservations are all committed at their full length with the pages
  -- for it, the manager stays well formed, no available page is lost, and the cache switch and
  -- everything else outside of the page fields are as they were. Any other group is an error, and
  -- nothing changes.
  pub commit_appends-Ensures :
      HasTicksFor (length ids) m
      → Ensures
          (λ _ t. IsGroup m ids × GroupEnded full_end_of m ids t)
          (λ e t. (t ≡ m) × ¬ IsGroup m ids)
          (commit_appends ids m)
  unfolding commit_appends
  commit_appends-Ensures room = elim (validate_from-cases m v ids []) [
    | inr (e, refused, bad) ↦
        Ensures-failed _ _ (validate_reservations ids) _ m m e refused
          (refl, λ group. bad (is_new group))
    | inl (run, (group, fresh)) ↦
        let (ends, t, rest, done) = commit_all ids m v group room in
        Ensures-after _ _ (validate_reservations ids) _ m m run (rw rest (group, done))
  ]
