-- ===== src/PagedKv/Groups/Prefixes.antt =====
-- `commit_append_prefixes` (paged_kv.rs): all of the rows or nothing.
use ru_llm.Base.{
  ℕ, ◌+◌, ◌≤◌, ◌<◌, ◌≡◌, ◌⊎◌, refl, inl, inr, some, List, [], ◌∷◌, arith, length, count, ok, err,
  Ensures, Ensures-after, Ensures-failed, for_each-step, Bool-cases, ◌==◌, ◌||◌, ltb, ◌∙◌, sym, map,
  drop, if◌then◌else◌, for_each,
}
use ru_llm.Base.OrdMap
use ru_llm.Base.Word.{div_ceil}
use ru_llm.PagedKv.Types.{
  SequenceState, ReservationState, PagePool, Manager, Error, lookahead_prefix,
}
use ru_llm.PagedKv.Invariant.{ManagerInv}
use ru_llm.PagedKv.Pool.{release_pages}
use ru_llm.PagedKv.Commit.{
  check_row, commit_row, collect, commit_append_prefixes, validate_reservations,
}
use ru_llm.PagedKv.Finish.{HasTicks, finished, keep-le}
use ru_llm.PagedKv.Ending.{Ended, release_behind}
use ru_llm.PagedKv.Groups.{IsGroup, validate_from-cases}
use ru_llm.PagedKv.Groups.Ends.{HasTicksFor, GroupEnded, none_ended, both_ended}
use ru_llm.PagedKv.Groups.Atomic.{reservation_kept, IsGroup-after, room_after, collect-step, is_new}

abbrev pub row_ids : List (ℕ × ℕ) → List ℕ
row_ids rows = map (λ row. row.0) rows

-- The number of tokens that the rows keep of a reservation.
unfoldable pub kept_tokens : ℕ → List (ℕ × ℕ) → ℕ
kept_tokens rid [] = 0
kept_tokens rid ((id, n) ∷ rows) = if rid == id then n else kept_tokens rid rows

abbrev pub prefix_end_of : List (ℕ × ℕ) → ℕ → ReservationState → ℕ
prefix_end_of rows rid r = r.start_position + kept_tokens rid rows

-- Every row keeps a nonempty prefix of its reservation.
unfoldable pub IsPrefixes : Manager → List (ℕ × ℕ) → Type 0
IsPrefixes m [] = Unit {0}
IsPrefixes m ((id, n) ∷ rows) =
    ((r : ReservationState)
      → OrdMap.lookup id m.reservations ≡ some r
      → (0 < n) × (n ≤ r.token_count))
    × IsPrefixes m rows

module _ (m : Manager) (v : ManagerInv m) (id n : ℕ) (r : ReservationState)
    (held : OrdMap.lookup id m.reservations ≡ some r) (some_kept : 0 < n)
    (few : n ≤ r.token_count) where
  row_run :
      (q : SequenceState) (u : PagePool)
      → OrdMap.lookup r.request_id m.sequences ≡ some q
      → q.pending ≡ some id
      → q.committed_tokens ≡ r.start_position
      → release_pages (drop (div_ceil (r.start_position + n) m.config.block_size) q.pages) m.pool
        ≡ ok tt u
      → commit_row (id, n) m
        ≡ ok (r.start_position + n) (
            finished m id r q
              (r.start_position + n)
              (div_ceil (r.start_position + n) m.config.block_size)
              u)
  unfolding commit_row
  row_run q u found waits start run = ground (
    arith,
    held,
    found,
    run,
    v.short,
    (v.reserved id r held).within,
    keep-le m v id r q held found waits start (r.start_position + n)
        (div_ceil (r.start_position + n) m.config.block_size) m.pool (omega arith) (omega arith)
        refl,
  )

  row_ends :
      HasTicks m
      → (t : Manager) × (commit_row (id, n) m ≡ ok (r.start_position + n) t)
        × Ended m id (r.start_position + n) t
  row_ends room =
      let (q, found, waits, start) = (v.reserved id r held).owner in
      let (u, run, done) =
        release_behind m v id r held q found waits start (r.start_position + n) (omega arith)
          (omega arith) room in
      (_, row_run q u found waits start run, done)

IsPrefixes-kept :
    (m t : Manager) (rows : List (ℕ × ℕ))
    → ((rid : ℕ)
        → 0 < count rid (row_ids rows)
        → OrdMap.lookup rid t.reservations ≡ OrdMap.lookup rid m.reservations)
    → IsPrefixes m rows
    → IsPrefixes t rows
unfolding IsPrefixes count
IsPrefixes-kept m t [] same h = tt
IsPrefixes-kept m t ((id, n) ∷ rows) same (range, h) = (
  λ r held. range r (sym (same id (grind arith)) ∙ held),
  IsPrefixes-kept m t rows (λ rid k. same rid (omega (arith, k))) h,
)

-- The rows keep what `whole` says.
unfoldable Agrees : List (ℕ × ℕ) → List (ℕ × ℕ) → Type 0
Agrees whole [] = Unit {0}
Agrees whole ((id, n) ∷ rows) = (kept_tokens id whole ≡ n) × Agrees whole rows

Agrees-cons :
    (id n : ℕ) (whole rows : List (ℕ × ℕ))
    → count id (row_ids rows) ≡ 0
    → Agrees whole rows
    → Agrees ((id, n) ∷ whole) rows
unfolding Agrees kept_tokens count
Agrees-cons id n whole [] absent h = tt
Agrees-cons id n whole ((j, k) ∷ rows) absent (is, h) =
    (ground (arith, absent, is), Agrees-cons id n whole rows (omega (arith, absent)) h)

Agrees-self : (m : Manager) (rows : List (ℕ × ℕ)) → IsGroup m (row_ids rows) → Agrees rows rows
unfolding Agrees kept_tokens IsGroup
Agrees-self m [] group = tt
Agrees-self m ((id, n) ∷ rows) (held, distinct, group) =
    (ground arith, Agrees-cons id n rows rows distinct (Agrees-self m rows group))

-- The test of all rows passes exactly for prefixes.
check_all :
    (m : Manager) (rows : List (ℕ × ℕ))
    → IsGroup m (row_ids rows)
    → ((for_each rows check_row m ≡ ok tt m) × IsPrefixes m rows)
      ⊎ ((e : Error) × (for_each rows check_row m ≡ err e m) × ¬ IsPrefixes m rows)
unfolding for_each IsGroup IsPrefixes
check_all m [] group = inl (refl, tt)
check_all m ((id, n) ∷ rows) ((r, held), distinct, group) =
    elim (Bool-cases (n == 0 || ltb r.token_count n)) [
      | inl outside ↦ inr (
        lookahead_prefix,
        ground (arith, held, outside),
        λ good. absurd (ground (arith, outside, good.0 r held)),
      )
      | inr inside ↦
          let passed : check_row (id, n) m ≡ ok tt m = ground (arith, held, inside) in
          (elim (check_all m rows group) [
            | inl (run, good) ↦ inl (
              for_each-step (id, n) rows check_row m m passed ∙ run,
              (
                λ r' held'.
                    let same : r' ≡ r = ground (arith, held, held') in
                    rw same (ground (arith, inside)),
                good,
              ),
            )
            | inr (e, run, bad) ↦
                inr (e, for_each-step (id, n) rows check_row m m passed ∙ run, λ good. bad good.1)
          ])
    ]

commit_rows :
    (whole rows : List (ℕ × ℕ)) (m : Manager)
    → ManagerInv m
    → Agrees whole rows
    → IsGroup m (row_ids rows)
    → IsPrefixes m rows
    → HasTicksFor (length (row_ids rows)) m
    → (ends : List ℕ) × (t : Manager) × (collect rows commit_row m ≡ ok ends t)
      × GroupEnded (prefix_end_of whole) m (row_ids rows) t
unfolding collect IsGroup IsPrefixes Agrees
commit_rows whole [] m v agrees group prefixes room =
    ([], m, refl, none_ended (prefix_end_of whole) m v)
commit_rows whole ((id, n) ∷ rows) m v (is, agrees) ((r, held), distinct, group) (range, prefixes)
      room =
    let ids : List ℕ = row_ids rows in
    let (t, run, ended) =
      row_ends m v id n r held (range r held).0 (range r held).1 (grind arith) in
    let first : Ended m id (prefix_end_of whole id r) t = rw is ended in
    let (ends, u, rest, done) =
      commit_rows whole rows t first.inv agrees
        (IsGroup-after m v id ids r held distinct (prefix_end_of whole) t first group)
        (IsPrefixes-kept m t rows
          (reservation_kept m v id ids r held distinct (prefix_end_of whole) t first) prefixes)
        (room_after m v id ids r held distinct (prefix_end_of whole) t first room) in
    (
      (r.start_position + n) ∷ ends,
      u,
      collect-step (id, n) rows commit_row m t u (r.start_position + n) ends run rest,
      both_ended (prefix_end_of whole) m v id ids r held distinct t first u done,
    )

module _ (m : Manager) (v : ManagerInv m) (rows : List (ℕ × ℕ)) where
  -- On a well-formed manager with room in the LRU counter for all rows, committing prefixes never
  -- panics. Rows that name different live reservations and keep a nonempty prefix of each are all
  -- committed at that length with the pages for it, the manager stays well formed, no available page
  -- is lost, and the cache switch and everything else outside of the page fields are as they were.
  -- Any other rows are an error, and nothing changes.
  pub commit_append_prefixes-Ensures :
      HasTicksFor (length (row_ids rows)) m
      → Ensures
          (λ _ t.
            IsGroup m (row_ids rows)
            × IsPrefixes m rows
            × GroupEnded (prefix_end_of rows) m (row_ids rows) t)
          (λ e t. (t ≡ m) × ¬ (IsGroup m (row_ids rows) × IsPrefixes m rows))
          (commit_append_prefixes rows m)
  unfolding commit_append_prefixes
  commit_append_prefixes-Ensures room = elim (validate_from-cases m v (row_ids rows) []) [
    | inr (e, refused, bad) ↦
        Ensures-failed _ _ (validate_reservations (row_ids rows)) _ m m e refused
          (refl, λ good. bad (is_new m v (row_ids rows) good.0))
    | inl (run, (group, fresh)) ↦
        Ensures-after _ _ (validate_reservations (row_ids rows)) _ m m run
          (elim (check_all m rows group) [
            | inr (e, refused, bad) ↦
                Ensures-failed _ _ (for_each rows check_row) _ m m e refused
                  (refl, λ good. bad good.1)
            | inl (passed, prefixes) ↦
                let (ends, t, rest, done) =
                  commit_rows rows rows m v (Agrees-self m rows group) group prefixes room in
                Ensures-after _ _ (for_each rows check_row) _ m m passed
                  (rw rest (group, prefixes, done))
          ])
  ]
