-- ===== src/PagedKv/Pool/Release.antt =====
-- `release_page`: one reference less; the last one parks the page or frees it.
use ru_llm.Base.{
  ℕ, zero, suc, ◌+◌, ◌≤◌, ◌<◌, ◌≡◌, ◌∙◌, refl, subst, inl, inr, Bool, true, Option, none, some,
  List, [], ◌∷◌, arith, ok, set, hit, length, count, Option-cases, for_each,
}
use mathlib.Core.Path.{fun_ext}
use ru_llm.Base.OrdMap
use ru_llm.Base.OrdMap.{insert_key}
use ru_llm.Base.HashMap
use ru_llm.Base.Word.{u64_mod}
use ru_llm.PagedKv.Types.{CachedBlock, PagePool, block_key_eq}
use ru_llm.PagedKv.Pool.{
  release_page, release_pages, discard, drop_cached_block, available_pages, park_or_discard, park,
}
use ru_llm.PagedKv.Pool.Invariant.{Inv, Plus, cached_at, drop_ref-Inv, free-Inv}
use ru_llm.PagedKv.Pool.Blocks.{forget-Inv, park-Inv, new_tick, cached_at-set}
use ru_llm.PagedKv.Pool.Allocate.{plus, ref_at, block_at}

-- What the callers rely on: no page becomes published, at most one tick is used, and a page that
-- nobody holds any more can be allocated again.
pub record Released (n : ℕ) (owed loose : ℕ → ℕ) (s : PagePool) (gained : ℕ) (t : PagePool)
    : Type 0 where
  pub inv : Inv n owed loose t
  pub kept : (q : ℕ) → cached_at s q ≡ none → cached_at t q ≡ none
  pub tick : t.next_tick ≤ s.next_tick + 1
  pub flag : t.prefix_caching ≡ s.prefix_caching
  pub available : available_pages t ≡ available_pages s + gained

-- A loose page without references is discarded.
module _ (n p : ℕ) (owed loose loose' : ℕ → ℕ) (s : PagePool) (v : Inv n owed loose s)
    (less : Plus p loose' loose) where
  loose_facts : (p < n) × (owed p ≡ 0) × (count p s.free_pages ≡ 0) × (loose' p ≡ 0)
  loose_facts = ground (arith, v.partition p, less p)

  -- It is not in the eviction order.
  not_parked : (b : CachedBlock) → cached_at s p ≡ some b → b.lru_tick ≡ none
  not_parked b here = elim (Option-cases b.lru_tick) [
    | inl e ↦ e
    | inr (t, e) ↦ absurd (
        ground
          (arith, v.parked t p, v.partition p, less p, OrdMap.le-total (hit p) t p s.evictable))
  ]

  discard_bare :
      cached_at s p ≡ none → (t : PagePool) × (discard p s ≡ ok tt t) × Released n owed loose' s 1 t
  unfolding drop_cached_block
  discard_bare bare = (
    record s { free_pages = insert_key p s.free_pages },
    ground (arith, block_at n p owed loose s v, loose_facts, OrdMap.has_key-count p s.free_pages),
    record {
      inv = free-Inv n p owed loose loose' s bare less v;
      kept = λ q h. h;
      tick = omega arith;
      flag = refl;
      available = ground (arith, loose_facts, OrdMap.length-insert_key p s.free_pages);
    },
  )

  discard_block :
      (b : CachedBlock)
      → cached_at s p ≡ some b
      → (t : PagePool) × (discard p s ≡ ok tt t) × Released n owed loose' s 1 t
  unfolding drop_cached_block
  discard_block b here = (
    record s {
      page_blocks = set s.page_blocks p none;
      block_index = HashMap.remove b.key s.block_index;
      free_pages = insert_key p s.free_pages;
    },
    ground (
      arith,
      block_at n p owed loose s v,
      loose_facts,
      OrdMap.has_key-count p s.free_pages,
      v.indexed b.key p,
    ),
    record {
      inv =
          free-Inv n p owed loose loose' _
            (ground (arith, loose_facts, v.blocks_length, cached_at-set s.page_blocks p p none))
            less
            (forget-Inv n p b owed loose s v here loose_facts.0 loose_facts.1 (not_parked b here));
      kept =
          λ q h. ground (arith, loose_facts, v.blocks_length, cached_at-set s.page_blocks p q none);
      tick = omega arith;
      flag = refl;
      available = ground (arith, loose_facts, OrdMap.length-insert_key p s.free_pages);
    },
  )

  discard_lem : (t : PagePool) × (discard p s ≡ ok tt t) × Released n owed loose' s 1 t
  discard_lem = elim (Option-cases (cached_at s p)) [
    | inl bare ↦ discard_bare bare
    | inr (b, here) ↦ discard_block b here
  ]

  park_lem :
      (b : CachedBlock)
      → cached_at s p ≡ some b
      → s.next_tick + 1 < u64_mod
      → (t : PagePool) × (park p b s ≡ ok tt t) × Released n owed loose' s 1 t
  park_lem b here room = (
    record s {
      next_tick = s.next_tick + 1;
      page_blocks = set s.page_blocks p (some (record b { lru_tick = some s.next_tick }));
      evictable = OrdMap.insert s.next_tick p s.evictable;
    },
    ground arith,
    record {
      inv = park-Inv n p b owed loose s v here loose_facts.0 loose' less;
      kept = λ q h. ground (
        arith,
        loose_facts,
        v.blocks_length,
        cached_at-set s.page_blocks p q (some (record b { lru_tick = some s.next_tick })),
      );
      tick = omega arith;
      flag = refl;
      available =
          ground
            (arith, OrdMap.length-insert s.next_tick p s.evictable (new_tick n owed loose s v));
    },
  )

  settle_lem :
      (caching : Bool) (cached : Option CachedBlock)
      → cached_at s p ≡ cached
      → s.next_tick + 1 < u64_mod
      → (t : PagePool) × (park_or_discard p caching cached s ≡ ok tt t)
        × Released n owed loose' s 1 t
  settle_lem true (some b) here room = park_lem b here room
  settle_lem _ _ here room = discard_lem

-- `1` if the last reference is gone.
abbrev pub freed : ℕ → ℕ
freed zero = 1
freed (suc r) = 0

module _ (n p : ℕ) (owed owed' loose : ℕ → ℕ) (s : PagePool) (v : Inv n owed loose s)
    (less : Plus p owed' owed) where
  release_within : p < n
  release_within = ground (arith, v.partition p, less p)

  release_held :
      (r : ℕ)
      → owed p ≡ suc (suc r)
      → (t : PagePool) × (release_page p s ≡ ok tt t) × Released n owed' loose s 0 t
  unfolding release_page
  release_held r e = (
    record s { page_refs = set s.page_refs p (suc r) },
    ground (arith, release_within, ref_at n p owed loose s v),
    record {
      inv =
          drop_ref-Inv n p (suc r) owed owed' loose loose s (ground (arith, v.refs p)) less
            (λ q. ground arith) v;
      kept = λ q h. h;
      tick = omega arith;
      flag = refl;
      available = ground arith;
    },
  )

  release_step :
      owed p ≡ 1
      → release_page p s
        ≡ park_or_discard p s.prefix_caching
            (cached_at s p)
            (record s { page_refs = set s.page_refs p 0 })
  unfolding release_page
  release_step e =
      ground (arith, ref_at n p owed loose s v, block_at n p owed loose s v, release_within)

  release_last :
      owed p ≡ 1
      → s.next_tick + 1 < u64_mod
      → (t : PagePool) × (release_page p s ≡ ok tt t) × Released n owed' loose s 1 t
  unfolding release_page
  release_last e room =
      let s' : PagePool = record s { page_refs = set s.page_refs p 0 } in
      let v' : Inv n owed' (plus p loose) s' =
        drop_ref-Inv n p 0 owed owed' loose (plus p loose) s (ground (arith, v.refs p)) less
          (λ q. ground arith) v in
      let (t, run, done) =
        settle_lem n p owed' (plus p loose) loose s' v' (λ q. refl) s.prefix_caching (cached_at s p)
          refl room in
      (
        t,
        release_step e ∙ run,
        record {
          inv = done.inv;
          kept = done.kept;
          tick = done.tick;
          flag = done.flag;
          available = done.available;
        },
      )

  -- A page that is held loses one reference; with the last one it can be allocated again.
  pub release_page_lem :
      s.next_tick + 1 < u64_mod
      → (t : PagePool) × (release_page p s ≡ ok tt t) × Released n owed' loose s (freed (owed' p)) t
  release_page_lem room = go (owed p) refl
    where
      go :
          (r : ℕ)
          → owed p ≡ r
          → (t : PagePool) × (release_page p s ≡ ok tt t)
            × Released n owed' loose s (freed (owed' p)) t
      go zero e = absurd (ground (arith, less p))
      go (suc zero) e =
          let last : owed' p ≡ 0 = ground (arith, less p) in rw last (release_last e room)
      go (suc (suc r)) e =
          let more : owed' p ≡ suc r = ground (arith, less p) in rw more (release_held r e)

-- The pages of which the last reference is in the list.
pub freed_pages : (ℕ → ℕ) → List ℕ → ℕ
freed_pages owed [] = 0
freed_pages owed (p ∷ ps) = freed (owed p + count p ps) + freed_pages owed ps

-- After the loop, exactly the references in the list are gone.
pub release_pages_lem :
    (n : ℕ) (pages : List ℕ) (owed owed' loose : ℕ → ℕ) (s : PagePool)
    → Inv n owed loose s
    → ((q : ℕ) → owed q ≡ owed' q + count q pages)
    → s.next_tick + length pages < u64_mod
    → (t : PagePool) × (release_pages pages s ≡ ok tt t)
      × Inv n owed' loose t
      × ((q : ℕ) → cached_at s q ≡ none → cached_at t q ≡ none)
      × (t.prefix_caching ≡ s.prefix_caching)
      × (t.next_tick ≤ s.next_tick + length pages)
      × (available_pages t ≡ available_pages s + freed_pages owed' pages)
unfolding count for_each freed_pages
release_pages_lem n [] owed owed' loose s v e room =
    let same : owed ≡ owed' = fun_ext (λ q. omega (arith, e q)) in
    (s, refl, subst (λ f. Inv n f loose s) same v, λ q h. h, refl, omega arith, omega arith)
release_pages_lem n (p ∷ ps) owed owed' loose s v e room =
    let (t, run, r) =
      release_page_lem n p owed (λ q. owed' q + count q ps) loose s v (λ q. ground (arith, e q))
        (omega arith) in
    let (u, rest, v', kept, flag, tick, gain) =
      release_pages_lem n ps (λ q. owed' q + count q ps) owed' loose t r.inv (λ q. refl)
        (omega (arith, r.tick)) in
    (
      u,
      ground (arith, run, rest),
      v',
      λ q h. kept q (r.kept q h),
      flag ∙ r.flag,
      omega (arith, r.tick),
      omega (arith, r.available),
    )
