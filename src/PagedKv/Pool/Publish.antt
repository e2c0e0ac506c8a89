-- ===== src/PagedKv/Pool/Publish.antt =====
-- A page that holds a complete block is published in the index.
use ru_llm.Base.{
  ℕ, ◌<◌, ◌≡◌, ◌↔◌, inl, inr, none, some, arith, Bool-cases, set, length-set, get_elem?,
}
use ru_llm.Base.HashMap
use ru_llm.PagedKv.Types.{BlockKey, CachedBlock, PagePool, block_key_eq, key_beq, key_beq_iff}
use ru_llm.PagedKv.Pool.Invariant.{Inv, cached_at, join_block, key_of}
use ru_llm.PagedKv.Pool.Blocks.{cached_at-set}

-- The block that `register_prefix` stores.
abbrev pub published : BlockKey → CachedBlock
published k = record { key = k; lru_tick = none }

module _ (n p : ℕ) (k : BlockKey) (owed loose : ℕ → ℕ) (s : PagePool) (v : Inv n owed loose s)
    (bare : cached_at s p ≡ none) (unknown : HashMap.lookup k s.block_index ≡ none) (within : p < n)
    (used : 0 < owed p) where
  publish-indexed :
      (j : BlockKey) (q : ℕ)
      → (HashMap.lookup j (HashMap.insert k p s.block_index) ≡ some q)
        ↔ (key_of (join_block (get_elem? (set s.page_blocks p (some (published k))) q)) ≡ some j)
  publish-indexed j q = elim (Bool-cases (key_beq j k)) [
    | inl same ↦ (
      λ h. ground (
        arith,
        HashMap.lookup-insert k j p s.block_index,
        key_beq_iff j k,
        v.blocks_length,
        cached_at-set s.page_blocks p q (some (published k)),
      ),
      λ h. ground (
        arith,
        HashMap.lookup-insert k j p s.block_index,
        key_beq_iff j k,
        v.indexed j q,
        v.blocks_length,
        cached_at-set s.page_blocks p q (some (published k)),
      ),
    )
    | inr other ↦ (
      λ h. ground (
        arith,
        HashMap.lookup-insert k j p s.block_index,
        v.indexed j q,
        v.indexed j p,
        v.blocks_length,
        cached_at-set s.page_blocks p q (some (published k)),
      ),
      λ h. ground (
        arith,
        HashMap.lookup-insert k j p s.block_index,
        key_beq_iff j k,
        v.indexed j q,
        v.blocks_length,
        cached_at-set s.page_blocks p q (some (published k)),
      ),
    )
  ]

  pub publish-Inv : Inv n owed loose (record s {
    block_index = HashMap.insert k p s.block_index;
    page_blocks = set s.page_blocks p (some (published k));
  })
  publish-Inv = record {
    refs_length = v.refs_length;
    blocks_length =
        ground (arith, v.blocks_length, length-set s.page_blocks p (some (published k)));
    refs = v.refs;
    partition = v.partition;
    ordered = v.ordered;
    fresh = v.fresh;
    parked = λ t q. ground (
      arith,
      v.parked t q,
      v.blocks_length,
      cached_at-set s.page_blocks p q (some (published k)),
    );
    clean = λ q h. ground (
      arith,
      v.clean q h,
      v.partition p,
      v.blocks_length,
      cached_at-set s.page_blocks p q (some (published k)),
    );
    indexed = publish-indexed;
    exclusive = λ q h. ground (
      arith,
      v.exclusive q,
      v.blocks_length,
      cached_at-set s.page_blocks p q (some (published k)),
    );
  }
