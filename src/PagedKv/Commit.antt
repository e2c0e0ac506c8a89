-- ===== src/PagedKv/Commit.antt =====
-- The reservation operations of paged_kv.rs that end or change an append, and `remove_sequence`.
use ru_llm.Base.{
  ℕ, ◌+◌, Bool, false, not, ◌&&◌, ◌||◌, Option, none, some, List, [], ◌∷◌, ◌++◌, map, reverse, ◌==◌,
  ltb, leb, if◌then◌else◌, length, take, drop, ok, err, panic, ◌>>=◌, ◌>>◌, pure, gets, modify,
  or_fail, expect, assert, reject_if, for_each,
}
use ru_llm.Base.OrdMap
use ru_llm.Base.OrdMap.{insert_key, has_key}
use ru_llm.Base.Word.{checked_add, div_ceil, u64_mod}
use ru_llm.PagedKv.Types.{
  removed_sequence, not_owner, committed_overflow, lookahead_count_overflow,
  lookahead_context_overflow, lookahead_capacity, lookahead_pages, lookahead_prefix,
  reservation_missing, partial_outside, duplicate_reservation, inconsistent, remove_pending,
  AppendReservation, SequenceSnapshot, CacheSnapshot, SequenceState, ReservationState, Manager,
}
use ru_llm.PagedKv.Pool
use ru_llm.PagedKv.Pool.{available_pages}
use ru_llm.PagedKv.Manager.{
  ManagerAction, on_pool, get_sequence, expect_sequence, put_sequence, put_reservation,
  pages_needed, reject_pending,
}

unfoldable pub get_reservation : ℕ → ManagerAction ReservationState
get_reservation id m = or_fail (OrdMap.lookup id m.reservations) (reservation_missing id) m

-- `self.reservations[&id]`, and `remove(&id).unwrap()`.
abbrev pub expect_reservation : ℕ → ManagerAction ReservationState
expect_reservation id m = expect (OrdMap.lookup id m.reservations) m

abbrev pub forget_reservation : ℕ → ManagerAction (Unit {0})
forget_reservation id = modify (λ m. record m { reservations = OrdMap.remove id m.reservations })

unfoldable pub take_reservation : ℕ → ManagerAction ReservationState
unfolding get_reservation
take_reservation id = do r ← get_reservation id; forget_reservation id; pure r

-- `sequence.pending == Some(id)`.
abbrev pub is_pending : Option ℕ → ℕ → Bool
is_pending none id = false
is_pending (some j) id = j == id

abbrev pub is_consistent : ℕ → ReservationState → SequenceState → Bool
is_consistent id r q =
    is_pending q.pending id
    && q.committed_tokens == r.start_position
    && leb r.previous_page_count (length q.pages)

unfoldable pub validate_reservation : ℕ → ManagerAction (Unit {0})
unfolding get_reservation get_sequence
validate_reservation id = do
  r ← get_reservation id
  q ← get_sequence r.request_id
  reject_if (not (is_consistent id r q)) (inconsistent id)
  _ ← (λ m. or_fail (checked_add r.start_position r.token_count) committed_overflow m)
  pure tt

-- The loop of `validate_reservations` over the ids behind `seen`.
unfoldable pub validate_from : List ℕ → List ℕ → ManagerAction (Unit {0})
validate_from seen [] m = ok tt m
validate_from seen (id ∷ ids) m =
    if has_key id seen
    then err (duplicate_reservation id) m
    else (elim (validate_reservation id m) [
      | ok _ t ↦ validate_from (insert_key id seen) ids t
      | err e t ↦ err e t
      | panic ↦ panic
    ])

abbrev pub validate_reservations : List ℕ → ManagerAction (Unit {0})
validate_reservations ids = validate_from [] ids

-- `self.sequences.get_mut(&reservation.request_id).ok_or(..)`.
abbrev pub owner_sequence : ℕ → ManagerAction SequenceState
owner_sequence id m = or_fail (OrdMap.lookup id m.sequences) removed_sequence m

unfoldable pub commit_append : ℕ → ManagerAction ℕ
unfolding validate_reservation take_reservation
commit_append id = do
  validate_reservation id
  r ← take_reservation id
  q ← owner_sequence r.request_id
  reject_if (not (is_pending q.pending id)) (not_owner id r.request_id)
  end ← (λ m. or_fail (checked_add r.start_position r.token_count) committed_overflow m)
  put_sequence r.request_id (record q { committed_tokens = end; pending = none })
  pure end

unfoldable pub extend_append : ℕ → ℕ → ManagerAction AppendReservation
unfolding validate_reservation
extend_append id extra = do
  validate_reservation id
  r ← expect_reservation id
  count ← (λ m. or_fail (checked_add r.token_count extra) lookahead_count_overflow m)
  end ← (λ m. or_fail (checked_add r.start_position count) lookahead_context_overflow m)
  max ← gets (λ m. m.config.max_sequence_length)
  reject_if (ltb max end) lookahead_capacity
  q ← expect_sequence r.request_id
  additional ← gets (λ m. pages_needed m end q)
  available ← gets (λ m. available_pages m.pool)
  reject_if (ltb available additional) lookahead_pages
  new_pages ← on_pool (Pool.allocate_pages additional)
  q' ← expect_sequence r.request_id
  let table = q'.pages ++ new_pages
  put_sequence r.request_id (record q' { pages = table })
  r' ← expect_reservation id
  put_reservation id (record r' { token_count = count })
  pure (record {
    id = id;
    request_id = r.request_id;
    start_position = r.start_position;
    token_count = count;
    context_length = end;
    newly_allocated_pages = new_pages;
    block_table = table;
  })

-- The test of one row of `commit_append_prefixes`.
abbrev pub check_row : ℕ × ℕ → ManagerAction (Unit {0})
check_row (id, count) = do
  r ← expect_reservation id
  reject_if (count == 0 || ltb r.token_count count) lookahead_prefix

-- `Vec::split_off` panics behind the end.
abbrev pub split_off : ℕ → List ℕ → ManagerAction (List ℕ)
split_off at pages = do assert (leb at (length pages)); pure (drop at pages)

-- One row of the second loop of `commit_append_prefixes`.
unfoldable pub commit_row : ℕ × ℕ → ManagerAction ℕ
commit_row (id, count) = do
  r ← expect_reservation id
  forget_reservation id
  q ← expect_sequence r.request_id
  let position = r.start_position + count
  assert (ltb position u64_mod)
  kept ← gets (λ m. div_ceil position m.config.block_size)
  released ← split_off kept q.pages
  put_sequence r.request_id
      (record q { pages = take kept q.pages; committed_tokens = position; pending = none })
  on_pool (Pool.release_pages released)
  pure position

-- `for x in xs { out.push(body(x)) }`.
unfoldable pub collect : {A : Type 0} → List A → (A → ManagerAction ℕ) → ManagerAction (List ℕ)
collect [] body m = ok [] m
collect (x ∷ xs) body m = elim (body x m) [
  | ok a t ↦ elim (collect xs body t) [
    | ok rest u ↦ ok (a ∷ rest) u
    | err e u ↦ err e u
    | panic ↦ panic
  ]
  | err e t ↦ err e t
  | panic ↦ panic
]

unfoldable pub commit_append_prefixes : List (ℕ × ℕ) → ManagerAction (List ℕ)
unfolding validate_from for_each collect commit_row
commit_append_prefixes rows = do
  validate_reservations (map (λ row. row.0) rows)
  for_each rows check_row
  collect rows commit_row

-- The pages behind the first `needed` ones, if there are any.
abbrev pub surplus : ℕ → List ℕ → List ℕ
surplus needed pages = if ltb needed (length pages) then drop needed pages else []

abbrev pub without_surplus : ℕ → List ℕ → List ℕ
without_surplus needed pages = if ltb needed (length pages) then take needed pages else pages

unfoldable pub commit_append_partial : ℕ → ℕ → ManagerAction ℕ
unfolding commit_append get_reservation
commit_append_partial id n = do
  r ← get_reservation id
  reject_if (n == 0 || ltb r.token_count n) (partial_outside n r.token_count)
  let end = r.start_position + n
  assert (ltb end u64_mod)
  needed ← gets (λ m. div_ceil end m.config.block_size)
  committed ← commit_append id
  q ← expect_sequence r.request_id
  assert (leb end committed)
  put_sequence r.request_id
      (record q { committed_tokens = end; pages = without_surplus needed q.pages })
  on_pool (Pool.release_pages (surplus needed q.pages))
  pure end

unfoldable pub cancel_append : ℕ → ManagerAction (Unit {0})
unfolding validate_reservation take_reservation
cancel_append id = do
  validate_reservation id
  r ← take_reservation id
  q ← owner_sequence r.request_id
  reject_if (not (is_pending q.pending id)) (not_owner id r.request_id)
  released ← split_off r.previous_page_count q.pages
  put_sequence r.request_id
      (record q { pages = take r.previous_page_count q.pages; pending = none })
  on_pool (Pool.release_pages released)

-- `.expect(..)` on the result of a call: an error panics.
abbrev pub expect_ok : {A : Type 0} → ManagerAction A → ManagerAction A
expect_ok act m = elim (act m) [ ok a t ↦ ok a t | err e t ↦ panic | panic ↦ panic ]

unfoldable pub commit_appends : List ℕ → ManagerAction (List ℕ)
unfolding validate_from collect commit_append
commit_appends ids = do validate_reservations ids; collect ids (λ id. expect_ok (commit_append id))

unfoldable pub cancel_appends : List ℕ → ManagerAction (Unit {0})
unfolding validate_from for_each cancel_append
cancel_appends ids = do validate_reservations ids; for_each ids (λ id. expect_ok (cancel_append id))

-- The tail is released first.
unfoldable pub remove_sequence : ℕ → ManagerAction (Unit {0})
unfolding get_sequence
remove_sequence id = do
  q ← get_sequence id
  reject_pending id q.pending remove_pending
  q' ← expect_sequence id
  modify (λ m. record m { sequences = OrdMap.remove id m.sequences })
  on_pool (Pool.release_pages (reverse q'.pages))

abbrev pub sequence_snapshot : ℕ × SequenceState → SequenceSnapshot
sequence_snapshot (id, q) = record {
  request_id = id;
  committed_tokens = q.committed_tokens;
  block_table = q.pages;
  pending_reservation = q.pending;
}

unfoldable pub snapshot : Manager → CacheSnapshot
snapshot m = record {
  block_size = m.config.block_size;
  total_pages = m.config.num_pages;
  free_pages = available_pages m.pool;
  sequences = map sequence_snapshot m.sequences;
}
