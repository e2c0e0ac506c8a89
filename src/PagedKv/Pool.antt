-- ===== src/PagedKv/Pool.antt =====
-- The page operations of paged_kv.rs: `allocate_page`, `acquire_cached`, `release_page` and
-- `drop_cached_block`. An index out of range, a failed `expect`, a failed `debug_assert` and an
-- overflow of a counter are panics.
pub mod Invariant
pub mod Blocks
pub mod Publish
pub mod Allocate
pub mod Acquire
pub mod Release
pub mod Flush
use ru_llm.Base.{
  ℕ, zero, suc, ◌+◌, ◌-◌, Bool, true, false, not, Option, none, some, List, [], ◌∷◌, ◌==◌, ltb,
  if◌then◌else◌, length, get_elem?, set, replicate, range_from, Outcome, ok, err, panic, Action,
  ◌>>=◌, ◌>>◌, pure, gets, modify, expect, assert, abort, for_each, map,
}
use ru_llm.Base.OrdMap.{insert_key, has_key}
use ru_llm.Base.OrdMap
use ru_llm.Base.HashMap
use ru_llm.Base.Word.{u32_mod, u64_mod}
use ru_llm.PagedKv.Types.{BlockKey, CachedBlock, PagePool, Error, block_key_eq}

-- A method that may read and write the page fields.
abbrev pub PoolAction : Type 0 → Type 0
PoolAction A = Action PagePool Error A

-- `self.page_refs[page]` and `self.page_blocks[page]`.
abbrev pub read_ref : ℕ → PoolAction ℕ
read_ref page = λ s. expect (get_elem? s.page_refs page) s

abbrev pub write_ref : ℕ → ℕ → PoolAction (Unit {0})
write_ref page n = modify (λ s. record s { page_refs = set s.page_refs page n })

abbrev pub read_block : ℕ → PoolAction (Option CachedBlock)
read_block page = λ s. expect (get_elem? s.page_blocks page) s

abbrev pub write_block : ℕ → Option CachedBlock → PoolAction (Unit {0})
write_block page b = modify (λ s. record s { page_blocks = set s.page_blocks page b })

-- `self.block_index.get(key) == Some(&page)`.
abbrev pub is_indexed : BlockKey → ℕ → PagePool → Bool
is_indexed key page s = elim (HashMap.lookup key s.block_index) [
  | none ↦ false
  | some q ↦ q == page
]

abbrev pub unindex : BlockKey → ℕ → PagePool → PagePool
unindex key page s =
    if is_indexed key page s then record s { block_index = HashMap.remove key s.block_index } else s

abbrev pub drop_taken : ℕ → Option CachedBlock → PoolAction (Unit {0})
drop_taken page none = pure tt
drop_taken page (some block) = do write_block page none; modify (unindex block.key page)

unfoldable pub drop_cached_block : ℕ → PoolAction (Unit {0})
drop_cached_block page = do cached ← read_block page; drop_taken page cached

-- The page becomes referenced once.
abbrev pub claim : ℕ → PoolAction ℕ
claim page = do refs ← read_ref page; assert (refs == 0); write_ref page 1; pure page

unfoldable pub allocate_page : PoolAction ℕ
unfolding drop_cached_block
allocate_page s = elim s.free_pages [
  | page ∷ rest ↦ claim page (record s { free_pages = rest })
  | [] ↦ elim s.evictable [
    | [] ↦ panic
    | (_, page) ∷ rest ↦ (do drop_cached_block page; claim page) (record s { evictable = rest })
  ]
]

-- `block.lru_tick.take()`, and the removal of that tick from the eviction order.
abbrev pub unpark_at : ℕ → CachedBlock → Option ℕ → PoolAction (Unit {0})
unpark_at page block none = pure tt
unpark_at page block (some tick) = do
  write_block page (some (record block { lru_tick = none }))
  modify (λ s. record s { evictable = OrdMap.remove tick s.evictable })

abbrev pub unpark : ℕ → CachedBlock → PoolAction (Unit {0})
unpark page block = unpark_at page block block.lru_tick

unfoldable pub acquire_cached : ℕ → PoolAction (Unit {0})
acquire_cached page = do
  refs ← read_ref page
  if refs == 0
      then (do cached ← read_block page; block ← expect cached; unpark page block)
      else pure tt
  assert (ltb (refs + 1) u32_mod)
  write_ref page (refs + 1)

-- The page joins the eviction order under a fresh tick.
abbrev pub park : ℕ → CachedBlock → PoolAction (Unit {0})
park page block = do
  tick ← gets (λ s. s.next_tick)
  assert (ltb (tick + 1) u64_mod)
  modify (λ s. record s { next_tick = tick + 1 })
  write_block page (some (record block { lru_tick = some tick }))
  modify (λ s. record s { evictable = OrdMap.insert tick page s.evictable })

-- The page joins the free set, where it must not be yet.
abbrev pub free_page : ℕ → PoolAction (Unit {0})
free_page page = do
  free ← gets (λ s. s.free_pages)
  assert (not (has_key page free))
  modify (λ s. record s { free_pages = insert_key page s.free_pages })

-- The page becomes free, and what it cached is forgotten.
abbrev pub discard : ℕ → PoolAction (Unit {0})
discard page = do drop_cached_block page; free_page page

abbrev pub park_or_discard : ℕ → Bool → Option CachedBlock → PoolAction (Unit {0})
park_or_discard page true (some block) = park page block
park_or_discard page _ _ = discard page

unfoldable pub release_page : ℕ → PoolAction (Unit {0})
unfolding drop_cached_block
release_page page = do
  refs ← read_ref page
  assert (ltb 0 refs)
  write_ref page (refs - 1)
  if ltb 0 (refs - 1) then pure tt else (do
    caching ← gets (λ s. s.prefix_caching)
    cached ← read_block page
    park_or_discard page caching cached)

abbrev pub release_pages : List ℕ → PoolAction (Unit {0})
release_pages pages = for_each pages release_page

-- One page for each round of `for _ in 0..additional`.
unfoldable pub allocate_pages : ℕ → PoolAction (List ℕ)
unfolding allocate_page
allocate_pages zero = pure []
allocate_pages (suc n) = λ s. elim (allocate_page s) [
  | ok page t ↦ elim (allocate_pages n t) [
    | ok pages u ↦ ok (page ∷ pages) u
    | err e u ↦ err e u
    | panic ↦ panic
  ]
  | err e t ↦ err e t
  | panic ↦ panic
]

-- The body of the loop of `set_prefix_caching`.
unfoldable pub flush_page : ℕ → PoolAction (Unit {0})
unfolding drop_cached_block
flush_page page = do
  drop_cached_block page
  modify (λ s. record s { free_pages = insert_key page s.free_pages })

-- Turning the cache off drops every unreferenced cached page.
unfoldable pub set_prefix_caching : Bool → PoolAction (Unit {0})
set_prefix_caching enabled = do
  modify (λ s. record s { prefix_caching = enabled })
  if enabled then pure tt else (do
    parked ← gets (λ s. map (λ e. e.1) s.evictable)
    modify (λ s. record s { evictable = [] })
    for_each parked flush_page)

-- Pages that an allocation can obtain.
abbrev pub available_pages : PagePool → ℕ
available_pages s = length s.free_pages + length s.evictable

-- The pool of `PagedKvCacheManager::new`.
unfoldable pub new_pool : ℕ → PagePool
new_pool n = record {
  free_pages = range_from 0 n;
  page_refs = replicate n 0;
  page_blocks = replicate n none;
  block_index = [];
  evictable = [];
  next_tick = 0;
  prefix_caching = false;
}
