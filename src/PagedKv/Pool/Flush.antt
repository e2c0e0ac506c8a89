-- ===== src/PagedKv/Pool/Flush.antt =====
-- `set_prefix_caching`: turning the cache off frees every page of the eviction order.
use ru_llm.Base.{
  ℕ, ◌≡◌, ◌∙◌, refl, inl, inr, Bool, true, false, none, some, List, [], ◌∷◌, arith, ok, set, map,
  Option-cases, for_each,
}
use ru_llm.Base.OrdMap
use ru_llm.Base.OrdMap.{insert_key}
use ru_llm.Base.HashMap
use ru_llm.PagedKv.Types.{CachedBlock, PagePool, block_key_eq}
use ru_llm.PagedKv.Pool.{drop_cached_block, available_pages, set_prefix_caching, flush_page}
use ru_llm.PagedKv.Pool.Invariant.{Inv, cached_at, free-Inv}
use ru_llm.PagedKv.Pool.Blocks.{evict-Inv, cached_at-set}
use ru_llm.PagedKv.Pool.Allocate.{plus, block_at}

-- The state in which the pages of `left` are still to be freed.
abbrev with_left : List (ℕ × ℕ) → PagePool → PagePool
with_left left s = record s { evictable = left }

-- What a flush guarantees: no page becomes published, and as many pages can be allocated.
pub record Flushed (n : ℕ) (owed loose : ℕ → ℕ) (s t : PagePool) : Type 0 where
  pub inv : Inv n owed loose t
  pub kept : (q : ℕ) → cached_at s q ≡ none → cached_at t q ≡ none
  pub tick : t.next_tick ≡ s.next_tick
  pub counts : t.page_refs ≡ s.page_refs
  pub flag : t.prefix_caching ≡ s.prefix_caching
  pub available : available_pages t ≡ available_pages s

module _ (n : ℕ) (owed loose : ℕ → ℕ) (t p : ℕ) (rest : List (ℕ × ℕ)) (s : PagePool)
    (v : Inv n owed loose (with_left ((t, p) ∷ rest) s)) where
  flush_block : (b : CachedBlock) × (cached_at s p ≡ some b)
  unfolding OrdMap.lookup
  flush_block = elim (Option-cases (cached_at s p)) [
    | inl bare ↦ absurd (ground (arith, v.parked t p))
    | inr found ↦ found
  ]

  flush_page_lem :
      (u : PagePool) × (flush_page p (with_left [] s) ≡ ok tt (with_left [] u))
      × Flushed n owed loose (with_left ((t, p) ∷ rest) s) (with_left rest u)
  unfolding flush_page drop_cached_block OrdMap.total
  flush_page_lem =
      let (b, here) = flush_block in
      (
        record s {
          page_blocks = set s.page_blocks p none;
          block_index = HashMap.remove b.key s.block_index;
          free_pages = insert_key p s.free_pages;
        },
        ground (arith, block_at n p owed loose _ v, v.partition p, v.indexed b.key p),
        record {
          inv =
              free-Inv n p owed (plus p loose) loose _
                (ground
                  (arith, v.partition p, v.blocks_length, cached_at-set s.page_blocks p p none))
                (λ q. refl)
                (evict-Inv n p b owed loose _ v here (ground (arith, v.partition p)) t rest
                  (plus p loose) refl (λ q. refl));
          kept = λ q h.
              ground (arith, v.partition p, v.blocks_length, cached_at-set s.page_blocks p q none);
          tick = refl;
          counts = refl;
          flag = refl;
          available = ground (arith, v.partition p, OrdMap.length-insert_key p s.free_pages);
        },
      )

flush_pages_lem :
    (n : ℕ) (owed loose : ℕ → ℕ) (left : List (ℕ × ℕ)) (s : PagePool)
    → Inv n owed loose (with_left left s)
    → (u : PagePool) × (for_each (map (λ e. e.1) left) flush_page (with_left [] s)
        ≡ ok tt (with_left [] u))
      × Flushed n owed loose (with_left left s) (with_left [] u)
unfolding for_each
flush_pages_lem n owed loose [] s v = (
  s,
  refl,
  record { inv = v; kept = λ q h. h; tick = refl; counts = refl; flag = refl; available = refl },
)
flush_pages_lem n owed loose ((t, p) ∷ rest) s v =
    let (u, run, one) = flush_page_lem n owed loose t p rest s v in
    let (w, more, all) = flush_pages_lem n owed loose rest u one.inv in
    (
      w,
      ground (arith, run, more),
      record {
        inv = all.inv;
        kept = λ q h. all.kept q (one.kept q h);
        tick = all.tick ∙ one.tick;
        counts = all.counts ∙ one.counts;
        flag = all.flag ∙ one.flag;
        available = all.available ∙ one.available;
      },
    )

-- The flag does not enter the invariant.
flag-Inv :
    (n : ℕ) (owed loose : ℕ → ℕ) (b : Bool) (s : PagePool)
    → Inv n owed loose s
    → Inv n owed loose (record s { prefix_caching = b })
flag-Inv n owed loose b s v = record {
  refs_length = v.refs_length;
  blocks_length = v.blocks_length;
  refs = v.refs;
  partition = v.partition;
  ordered = v.ordered;
  fresh = v.fresh;
  parked = v.parked;
  clean = v.clean;
  indexed = v.indexed;
  exclusive = v.exclusive;
}

-- The state of the pool after the switch: on, only the flag is set; off, the eviction order is
-- empty and no reference has changed.
abbrev pub PoolSwitched : Bool → PagePool → PagePool → Type 0
PoolSwitched true s t = t ≡ record s { prefix_caching = true }
PoolSwitched false s t =
    (t.prefix_caching ≡ false) × (t.evictable ≡ []) × (t.page_refs ≡ s.page_refs)

-- The switch never panics.
pub set_prefix_caching_lem :
    (n : ℕ) (owed loose : ℕ → ℕ) (enabled : Bool) (s : PagePool)
    → Inv n owed loose s
    → (t : PagePool) × (set_prefix_caching enabled s ≡ ok tt t)
      × PoolSwitched enabled s t
      × Inv n owed loose t
      × ((q : ℕ) → cached_at s q ≡ none → cached_at t q ≡ none)
      × (t.next_tick ≡ s.next_tick)
      × (available_pages t ≡ available_pages s)
unfolding set_prefix_caching
set_prefix_caching_lem n owed loose true s v = (
  record s { prefix_caching = true },
  refl,
  refl,
  flag-Inv n owed loose true s v,
  λ q h. h,
  refl,
  refl,
)
set_prefix_caching_lem n owed loose false s v =
    let (u, run, all) =
      flush_pages_lem n owed loose s.evictable (record s { prefix_caching = false })
        (flag-Inv n owed loose false s v) in
    (with_left [] u, run, (all.flag, refl, all.counts), all.inv, all.kept, all.tick, all.available)
