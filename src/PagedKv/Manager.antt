-- ===== src/PagedKv/Manager.antt =====
-- The sequence and reservation operations of `PagedKvCacheManager` (paged_kv.rs). A call that
-- returns an error leaves what it had written before; the source's `expect`, indexing and
-- `debug_assert` are panics.
use ru_llm.Base.{
  ℕ, ◌-◌, Bool, true, false, ◌||◌, Option, none, some, List, [], ◌++◌, ◌==◌, ltb, leb,
  if◌then◌else◌, length, ok, err, panic, Action, ◌>>=◌, ◌>>◌, pure, gets, modify, fail, or_fail,
  expect, reject_if,
}
use ru_llm.Base.OrdMap
use ru_llm.Base.Word.{u32_mod, checked_add, div_ceil}
use ru_llm.PagedKv.Types.{
  Config, Error, zero_config, page_table_capacity, sequence_exists, sequence_missing, empty_append,
  already_pending, length_overflow, above_capacity, out_of_pages, reservation_overflow,
  AppendReservation, SequenceState, ReservationState, Manager, block_key_eq,
}
use ru_llm.PagedKv.Pool
use ru_llm.PagedKv.Pool.{PoolAction, available_pages, new_pool}

abbrev pub ManagerAction : Type 0 → Type 0
ManagerAction A = Action Manager Error A

-- A call on the page fields.
abbrev pub on_pool : {A : Type 0} → PoolAction A → ManagerAction A
on_pool act m = elim (act m.pool) [
  | ok a p ↦ ok a (record m { pool = p })
  | err e p ↦ err e (record m { pool = p })
  | panic ↦ panic
]

-- `PagedKvCacheConfig::validate`.
unfoldable pub validate_config {ℓ} : {S : Type ℓ} → Config → Action S Error (Unit {0})
validate_config c = do
  reject_if (c.block_size == 0 || c.num_pages == 0 || c.max_sequence_length == 0) zero_config
  reject_if (ltb (u32_mod - 1) c.num_pages) page_table_capacity

-- `CHAIN_ROOT`.
abbrev pub chain_root : ℕ
chain_root = 0x5275_6461_4B56_0001

-- `PagedKvCacheManager::new`, and the value that it builds.
abbrev pub initial : Config → Manager
initial c = record {
  config = c;
  pool = new_pool c.num_pages;
  reused_tokens = 0;
  sequences = [];
  reservations = [];
  next_reservation = 1;
}

unfoldable pub new {ℓ} : {S : Type ℓ} → Config → Action S Error Manager
unfolding validate_config
new c = do validate_config c; pure (initial c)

unfoldable pub get_sequence : ℕ → ManagerAction SequenceState
get_sequence id m = or_fail (OrdMap.lookup id m.sequences) (sequence_missing id) m

-- `self.sequences.get_mut(&id).expect(..)`, and a write through it.
abbrev pub expect_sequence : ℕ → ManagerAction SequenceState
expect_sequence id m = expect (OrdMap.lookup id m.sequences) m

abbrev pub put_sequence : ℕ → SequenceState → ManagerAction (Unit {0})
put_sequence id q = modify (λ m. record m { sequences = OrdMap.insert id q m.sequences })

abbrev pub put_reservation : ℕ → ReservationState → ManagerAction (Unit {0})
put_reservation id r = modify (λ m. record m { reservations = OrdMap.insert id r m.reservations })

unfoldable pub free_page_count : Manager → ℕ
free_page_count m = available_pages m.pool

unfoldable pub allocated_page_count : Manager → ℕ
allocated_page_count m = m.config.num_pages - available_pages m.pool

abbrev pub empty_sequence : SequenceState
empty_sequence = record {
  committed_tokens = 0;
  pages = [];
  pending = none;
  registered_blocks = 0;
  chain_hash = chain_root;
}

abbrev pub contains_sequence : ℕ → Manager → Bool
contains_sequence id m = elim (OrdMap.lookup id m.sequences) [ none ↦ false | some _ ↦ true ]

unfoldable pub create_sequence : ℕ → ManagerAction (Unit {0})
create_sequence id = do
  present ← gets (contains_sequence id)
  reject_if present (sequence_exists id)
  put_sequence id empty_sequence

unfoldable pub committed_tokens : ℕ → ManagerAction ℕ
unfolding get_sequence
committed_tokens id = do q ← get_sequence id; pure q.committed_tokens

unfoldable pub block_table : ℕ → ManagerAction (List ℕ)
unfolding get_sequence
block_table id = do q ← get_sequence id; pure q.pages

-- `end.div_ceil(block_size).saturating_sub(pages.len())`.
abbrev pub pages_needed : Manager → ℕ → SequenceState → ℕ
pages_needed m end q = div_ceil end m.config.block_size - length q.pages

abbrev pub fits : Manager → Option ℕ → SequenceState → Bool
fits m none q = false
fits m (some end) q =
    if ltb m.config.max_sequence_length end
    then false
    else leb (pages_needed m end q) (available_pages m.pool)

abbrev pub appendable : Manager → SequenceState → ℕ → Option ℕ → Bool
appendable m q n (some reservation) = false
appendable m q n none = fits m (checked_add q.committed_tokens n) q

unfoldable pub can_append : ℕ → ℕ → ManagerAction Bool
unfolding get_sequence
can_append id n =
    if n == 0 then pure false else (do q ← get_sequence id; gets (λ m. appendable m q n q.pending))

-- The id of a new reservation.
abbrev pub fresh_reservation : ManagerAction ℕ
fresh_reservation = do
  id ← gets (λ m. m.next_reservation)
  next ← (λ m. or_fail (checked_add id 1) reservation_overflow m)
  modify (λ m. record m { next_reservation = next })
  pure id

abbrev pub reject_pending : ℕ → Option ℕ → (ℕ → ℕ → Error) → ManagerAction (Unit {0})
reject_pending id none e = pure tt
reject_pending id (some r) e = fail (e id r)

-- The part of `begin_append` behind its checks.
unfoldable pub reserve : ℕ → ℕ → SequenceState → ℕ → ℕ → ManagerAction AppendReservation
reserve request_id n q end additional = do
  id ← fresh_reservation
  new_pages ← on_pool (Pool.allocate_pages additional)
  q' ← expect_sequence request_id
  let table = q'.pages ++ new_pages
  put_sequence request_id (record q' { pages = table; pending = some id })
  put_reservation id (record {
    request_id = request_id;
    previous_page_count = length q.pages;
    start_position = q.committed_tokens;
    token_count = n;
  })
  pure (record {
    id = id;
    request_id = request_id;
    start_position = q.committed_tokens;
    token_count = n;
    context_length = end;
    newly_allocated_pages = new_pages;
    block_table = table;
  })

unfoldable pub begin_append : ℕ → ℕ → ManagerAction AppendReservation
unfolding get_sequence
begin_append id n = do
  reject_if (n == 0) empty_append
  q ← get_sequence id
  reject_pending id q.pending already_pending
  end ← (λ m. or_fail (checked_add q.committed_tokens n) length_overflow m)
  max ← gets (λ m. m.config.max_sequence_length)
  reject_if (ltb max end) (above_capacity id end max)
  additional ← gets (λ m. pages_needed m end q)
  available ← gets (λ m. available_pages m.pool)
  reject_if (ltb available additional) (out_of_pages additional available)
  reserve id n q end additional
