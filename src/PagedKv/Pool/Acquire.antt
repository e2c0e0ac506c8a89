-- ===== src/PagedKv/Pool/Acquire.antt =====
-- `acquire_cached`: a published page gets one more reference.
use ru_llm.Base.{ℕ, ◌+◌, ◌<◌, ◌≡◌, refl, some, none, arith, ok, set}
use native.Mathlib.Decide.{dec_lt}
use ru_llm.Base.OrdMap
use ru_llm.Base.Word.{u32_mod}
use ru_llm.PagedKv.Types.{CachedBlock, PagePool}
use ru_llm.PagedKv.Pool.{acquire_cached}
use ru_llm.PagedKv.Pool.Invariant.{Inv, cached_at, key_of, first_ref-Inv, next_ref-Inv}
use ru_llm.PagedKv.Pool.Blocks.{unpark-Inv, cached_at-set}
use ru_llm.PagedKv.Pool.Allocate.{plus, ref_at, block_at}

-- What the callers rely on: the index is as before, and no page gains or loses its key.
pub record Acquired (n : ℕ) (owed loose : ℕ → ℕ) (s : PagePool) (p : ℕ) (t : PagePool)
    : Type 0 where
  pub inv : Inv n (plus p owed) loose t
  pub kept : (q : ℕ) → key_of (cached_at t q) ≡ key_of (cached_at s q)
  pub index : t.block_index ≡ s.block_index
  pub tick : t.next_tick ≡ s.next_tick

module _ (n p : ℕ) (b : CachedBlock) (owed loose : ℕ → ℕ) (s : PagePool) (v : Inv n owed loose s)
    (here : cached_at s p ≡ some b) (within : p < n) (room : owed p + 1 < u32_mod) where
  -- A page that others hold.
  acquire_held :
      0 < owed p → (t : PagePool) × (acquire_cached p s ≡ ok tt t) × Acquired n owed loose s p t
  unfolding acquire_cached
  acquire_held held = (
    record s { page_refs = set s.page_refs p (owed p + 1) },
    ground (arith, ref_at n p owed loose s v),
    record {
      inv =
          next_ref-Inv n p (owed p) owed (plus p owed) loose s (v.refs p) held (λ e. ground arith)
            (λ q. refl) v;
      kept = λ q. refl;
      index = refl;
      tick = refl;
    },
  )

  -- A page in the eviction order.
  acquire_parked :
      (tick : ℕ)
      → owed p ≡ 0
      → b.lru_tick ≡ some tick
      → (t : PagePool) × (acquire_cached p s ≡ ok tt t) × Acquired n owed loose s p t
  unfolding acquire_cached
  acquire_parked tick unowed parked = (
    record s {
      page_blocks = set s.page_blocks p (some (record b { lru_tick = none }));
      evictable = OrdMap.remove tick s.evictable;
      page_refs = set s.page_refs p 1;
    },
    ground (arith, ref_at n p owed loose s v, block_at n p owed loose s v),
    record {
      inv =
          first_ref-Inv n p owed (plus p owed) (plus p loose) loose _ unowed (λ q. refl) (λ q. refl)
            (unpark-Inv n p b owed loose s v here within tick (plus p loose) parked (λ q. refl));
      kept = λ q. ground (
        arith,
        v.blocks_length,
        cached_at-set s.page_blocks p q (some (record b { lru_tick = none })),
      );
      index = refl;
      tick = refl;
    },
  )

  -- A published page that nobody holds is in the eviction order.
  parked_of_unowed : owed p ≡ 0 → loose p ≡ 0 → (tick : ℕ) × (b.lru_tick ≡ some tick)
  parked_of_unowed unowed settled =
      let (tick, found) =
        OrdMap.lookup-hit p s.evictable v.ordered (ground (arith, v.partition p, v.clean p)) in
      (tick, ground (arith, v.parked tick p))

  -- A published page gets one more reference, and leaves the eviction order if it was there.
  pub acquire_cached_lem :
      loose p ≡ 0 → (t : PagePool) × (acquire_cached p s ≡ ok tt t) × Acquired n owed loose s p t
  acquire_cached_lem settled = elim (dec_lt 0 (owed p)) [
    | yes held ↦ acquire_held held
    | no unheld ↦
        let (tick, parked) = parked_of_unowed (omega arith) settled in
        acquire_parked tick (omega arith) parked
  ]
