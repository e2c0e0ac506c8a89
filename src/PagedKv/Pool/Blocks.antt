-- ===== src/PagedKv/Pool/Blocks.antt =====
-- The steps on cached blocks: to forget, to evict, to park, to take back and to publish a page.
use ru_llm.Base.{
  ℕ, ◌+◌, ◌<◌, ◌≡◌, ◌↔◌, subst, inl, inr, Option, none, some, List, ◌∷◌, arith, ◌==◌, Bool-cases,
  Option-cases, if◌then◌else◌, length, get_elem?, set, hit, get_elem?-set, length-set,
}
use ru_llm.Base.OrdMap
use ru_llm.Base.OrdMap.{total, IsOrdered}
use ru_llm.Base.HashMap
use ru_llm.PagedKv.Types.{BlockKey, CachedBlock, PagePool, block_key_eq, key_beq, key_beq_iff}
use ru_llm.PagedKv.Pool.Invariant.{Inv, Plus, cached_at, join_block, key_of}

pub cached_at-set :
    (bs : List (Option CachedBlock)) (p q : ℕ) (b : Option CachedBlock)
    → p < length bs
    → join_block (get_elem? (set bs p b) q) ≡ (if q == p then b else join_block (get_elem? bs q))
cached_at-set bs p q b h = ground (arith, get_elem?-set bs p q b h)

-- The next tick is not in use.
pub new_tick :
    (n : ℕ) (owed loose : ℕ → ℕ) (s : PagePool)
    → Inv n owed loose s
    → OrdMap.lookup s.next_tick s.evictable ≡ none
new_tick n owed loose s v = elim (Option-cases (OrdMap.lookup s.next_tick s.evictable)) [
  | inl e ↦ e
  | inr (q, e) ↦ absurd (omega (arith, v.fresh s.next_tick q e))
]

-- The key of a cached block leads back to its page only.
owner_of_key :
    (n : ℕ) (owed loose : ℕ → ℕ) (s : PagePool) (k : BlockKey) (p q : ℕ)
    → Inv n owed loose s
    → key_of (cached_at s p) ≡ some k
    → key_of (cached_at s q) ≡ some k
    → q ≡ p
owner_of_key n owed loose s k p q v hp hq =
    ground (arith, (v.indexed k p).1 hp, (v.indexed k q).1 hq)

module _ (n p : ℕ) (b : CachedBlock) (owed loose : ℕ → ℕ) (s : PagePool) (v : Inv n owed loose s)
    (here : cached_at s p ≡ some b) (within : p < n) where
  -- With the block of `p` gone and its key removed, index and blocks agree again.
  forget-indexed :
      (k : BlockKey) (q : ℕ)
      → (HashMap.lookup k (HashMap.remove b.key s.block_index) ≡ some q)
        ↔ (key_of (join_block (get_elem? (set s.page_blocks p none) q)) ≡ some k)
  forget-indexed k q = elim (Bool-cases (key_beq k b.key)) [
    | inl same ↦ (
      λ h. ground (arith, HashMap.lookup-remove b.key k s.block_index),
      λ h. absurd (
          ground (
            arith,
            key_beq_iff k b.key,
            v.indexed k q,
            v.indexed k p,
            cached_at-set s.page_blocks p q none,
            v.blocks_length,
          )),
    )
    | inr other ↦ (
      λ h. ground (
        arith,
        HashMap.lookup-remove b.key k s.block_index,
        v.indexed k q,
        v.indexed k p,
        key_beq_iff k b.key,
        cached_at-set s.page_blocks p q none,
        v.blocks_length,
      ),
      λ h. ground (
        arith,
        HashMap.lookup-remove b.key k s.block_index,
        v.indexed k q,
        cached_at-set s.page_blocks p q none,
        v.blocks_length,
      ),
    )
  ]

  -- A page with no references and no tick forgets its block.
  pub forget-Inv :
      owed p ≡ 0
      → b.lru_tick ≡ none
      → Inv n owed loose (record s {
        page_blocks = set s.page_blocks p none;
        block_index = HashMap.remove b.key s.block_index;
      })
  forget-Inv unowed idle = record {
    refs_length = v.refs_length;
    blocks_length = ground (arith, v.blocks_length, length-set s.page_blocks p none);
    refs = v.refs;
    partition = v.partition;
    ordered = v.ordered;
    fresh = v.fresh;
    parked =
        λ t q. ground (arith, v.parked t q, v.blocks_length, cached_at-set s.page_blocks p q none);
    clean =
        λ q h. ground (arith, v.clean q h, v.blocks_length, cached_at-set s.page_blocks p q none);
    indexed = forget-indexed;
    exclusive =
        λ q h. ground (arith, v.exclusive q, v.blocks_length, cached_at-set s.page_blocks p q none);
  }

  -- The first page of the eviction order is taken off it and forgets its block.
  pub evict-Inv :
      (t : ℕ) (rest : List (ℕ × ℕ)) (loose' : ℕ → ℕ)
      → s.evictable ≡ (t, p) ∷ rest
      → Plus p loose loose'
      → Inv n owed loose' (record s {
        evictable = rest;
        page_blocks = set s.page_blocks p none;
        block_index = HashMap.remove b.key s.block_index;
      })
  unfolding OrdMap.total OrdMap.lookup
  evict-Inv t rest loose' e more =
      let above : OrdMap.Above t rest = subst IsOrdered e v.ordered in
      record {
        refs_length = v.refs_length;
        blocks_length = ground (arith, v.blocks_length, length-set s.page_blocks p none);
        refs = v.refs;
        partition = λ q. ground (arith, v.partition q, more q);
        ordered = OrdMap.Above-IsOrdered t rest above;
        fresh = λ t' q h. v.fresh t' q (ground (arith, OrdMap.lookup-Above t t rest above));
        parked = λ t' q. (
          λ h. ground (
            arith,
            v.parked t' q,
            v.partition p,
            OrdMap.lookup-Above t t rest above,
            OrdMap.le-total (hit p) t' p rest,
            v.blocks_length,
            cached_at-set s.page_blocks p q none,
          ),
          λ h. ground (arith, v.parked t' q, v.blocks_length, cached_at-set s.page_blocks p q none),
        );
        clean = λ q h.
            ground (arith, v.clean q h, v.blocks_length, cached_at-set s.page_blocks p q none);
        indexed = forget-indexed;
        exclusive = λ q h. ground (
          arith,
          v.exclusive q,
          v.partition p,
          v.blocks_length,
          cached_at-set s.page_blocks p q none,
        );
      }

  -- A parked page is taken off the eviction order and keeps its block.
  pub unpark-Inv :
      (t : ℕ) (loose' : ℕ → ℕ)
      → b.lru_tick ≡ some t
      → Plus p loose loose'
      → Inv n owed loose' (record s {
        page_blocks = set s.page_blocks p (some (record b { lru_tick = none }));
        evictable = OrdMap.remove t s.evictable;
      })
  unpark-Inv t loose' e more =
      let found : OrdMap.lookup t s.evictable ≡ some p = (v.parked t p).1 (ground arith) in
      record {
        refs_length = v.refs_length;
        blocks_length = ground (
          arith,
          v.blocks_length,
          length-set s.page_blocks p (some (record b { lru_tick = none })),
        );
        refs = v.refs;
        partition =
            λ q. ground (arith, v.partition q, more q, OrdMap.total-remove (hit q) t s.evictable);
        ordered = OrdMap.remove-IsOrdered t s.evictable v.ordered;
        fresh =
            λ t' q h. ground (arith, v.fresh t' q, OrdMap.lookup-remove t t' s.evictable v.ordered);
        parked = λ t' q. (
          λ h. ground (
            arith,
            v.parked t' q,
            v.parked t' p,
            OrdMap.lookup-remove t t' s.evictable v.ordered,
            v.blocks_length,
            cached_at-set s.page_blocks p q (some (record b { lru_tick = none })),
          ),
          λ h. ground (
            arith,
            v.parked t' q,
            v.parked t q,
            OrdMap.lookup-remove t t' s.evictable v.ordered,
            v.blocks_length,
            cached_at-set s.page_blocks p q (some (record b { lru_tick = none })),
          ),
        );
        clean = λ q h. ground (
          arith,
          v.clean q h,
          v.blocks_length,
          v.partition p,
          OrdMap.le-total (hit p) t p s.evictable found,
          cached_at-set s.page_blocks p q (some (record b { lru_tick = none })),
        );
        indexed = λ k q. ground (
          arith,
          v.indexed k q,
          v.blocks_length,
          cached_at-set s.page_blocks p q (some (record b { lru_tick = none })),
        );
        exclusive = λ q h. ground (
          arith,
          v.exclusive q,
          v.blocks_length,
          cached_at-set s.page_blocks p q (some (record b { lru_tick = none })),
        );
      }

  -- A loose page joins the eviction order under the next tick.
  pub park-Inv :
      (loose' : ℕ → ℕ)
      → Plus p loose' loose
      → Inv n owed loose' (record s {
        next_tick = s.next_tick + 1;
        page_blocks = set s.page_blocks p (some (record b { lru_tick = some s.next_tick }));
        evictable = OrdMap.insert s.next_tick p s.evictable;
      })
  park-Inv loose' less = record {
    refs_length = v.refs_length;
    blocks_length = ground (
      arith,
      v.blocks_length,
      length-set s.page_blocks p (some (record b { lru_tick = some s.next_tick })),
    );
    refs = v.refs;
    partition = λ q. ground (
      arith,
      v.partition q,
      less q,
      v.fresh s.next_tick p,
      new_tick n owed loose s v,
      OrdMap.total-insert (hit q) s.next_tick p s.evictable v.ordered,
    );
    ordered = OrdMap.insert-IsOrdered s.next_tick p s.evictable v.ordered;
    fresh =
        λ t' q h. ground (arith, v.fresh t' q, OrdMap.lookup-insert s.next_tick t' p s.evictable);
    parked = λ t' q. (
      λ h. ground (
        arith,
        v.parked t' q,
        v.fresh t' p,
        parked_here t',
        OrdMap.lookup-insert s.next_tick t' p s.evictable,
        v.blocks_length,
        cached_at-set s.page_blocks p q (some (record b { lru_tick = some s.next_tick })),
      ),
      λ h. ground (
        arith,
        v.parked t' q,
        v.fresh t' q,
        OrdMap.lookup-insert s.next_tick t' p s.evictable,
        v.blocks_length,
        cached_at-set s.page_blocks p q (some (record b { lru_tick = some s.next_tick })),
      ),
    );
    clean = λ q h. ground (
      arith,
      v.clean q h,
      v.blocks_length,
      v.partition p,
      less p,
      cached_at-set s.page_blocks p q (some (record b { lru_tick = some s.next_tick })),
    );
    indexed = λ k q. ground (
      arith,
      v.indexed k q,
      v.blocks_length,
      cached_at-set s.page_blocks p q (some (record b { lru_tick = some s.next_tick })),
    );
    exclusive = λ q h. ground (
      arith,
      v.exclusive q,
      v.blocks_length,
      cached_at-set s.page_blocks p q (some (record b { lru_tick = some s.next_tick })),
    );
  }
    where
      parked_here : (t : ℕ) → OrdMap.lookup t s.evictable ≡ some p → ⊥
      parked_here t e =
          absurd (ground (arith, v.partition p, less p, OrdMap.le-total (hit p) t p s.evictable e))
      -- A page without a block is published under a key that the index does not know.
