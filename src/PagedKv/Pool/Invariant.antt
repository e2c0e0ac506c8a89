-- ===== src/PagedKv/Pool/Invariant.antt =====
-- The well-formedness of the page fields of `PagedKvCacheManager`, against the references that
-- the sequences hold.
use ru_llm.Base.{
  ℕ, zero, suc, ◌+◌, ◌≤◌, ◌<◌, ◌≡◌, ◌↔◌, refl, Option, none, some, List, [], ◌∷◌, arith, ltb, ◌==◌,
  if◌then◌else◌, length, get_elem?, set, get_or, hit, count, min, ◌≢◌, inl, inr, Bool-cases, ==_iff,
  length-set,
}
use ru_llm.Base.OrdMap
use ru_llm.Base.OrdMap.{total, IsOrdered, insert_key, count-insert_key}
use ru_llm.Base.HashMap
use ru_llm.PagedKv.Types.{BlockKey, CachedBlock, PagePool, block_key_eq}

abbrev pub join_block : Option (Option CachedBlock) → Option CachedBlock
join_block none = none
join_block (some b) = b

-- What a page caches, its tick in the eviction order, and its key.
abbrev pub cached_at : PagePool → ℕ → Option CachedBlock
cached_at s p = join_block (get_elem? s.page_blocks p)

abbrev pub tick_of : Option CachedBlock → Option ℕ
tick_of none = none
tick_of (some b) = b.lru_tick

abbrev pub key_of : Option CachedBlock → Option BlockKey
key_of none = none
key_of (some b) = some b.key

-- The pages of the pool are those below `n`.
abbrev pub inside : ℕ → ℕ → ℕ
inside n p = if ltb p n then 1 else 0

-- `owed p` references to `p` are held by sequences, and `loose p` counts a page that an operation
-- holds for a moment.
pub record Inv (n : ℕ) (owed loose : ℕ → ℕ) (s : PagePool) : Type 0 where
  pub refs_length : length s.page_refs ≡ n
  pub blocks_length : length s.page_blocks ≡ n
  -- The reference counts are exact.
  pub refs : (p : ℕ) → get_or s.page_refs p 0 ≡ owed p
  -- Every page is free, evictable, referenced or loose, and only one of these.
  pub partition :
      (p : ℕ)
      → count p s.free_pages + total (hit p) s.evictable + min 1 (owed p) + loose p ≡ inside n p
  pub ordered : IsOrdered s.evictable
  pub fresh : (t p : ℕ) → OrdMap.lookup t s.evictable ≡ some p → t < s.next_tick
  -- The eviction order and the ticks of the cached blocks agree.
  pub parked :
      (t p : ℕ) → (OrdMap.lookup t s.evictable ≡ some p) ↔ (tick_of (cached_at s p) ≡ some t)
  -- A free page caches nothing.
  pub clean : (p : ℕ) → 0 < count p s.free_pages → cached_at s p ≡ none
  -- The index and the keys of the cached blocks agree.
  pub indexed :
      (k : BlockKey) (p : ℕ)
      → (HashMap.lookup k s.block_index ≡ some p) ↔ (key_of (cached_at s p) ≡ some k)
  -- A page that is not published has at most one owner.
  pub exclusive : (p : ℕ) → cached_at s p ≡ none → owed p ≤ 1

-- The same function, with one more at `p`.
abbrev pub Plus : ℕ → (ℕ → ℕ) → (ℕ → ℕ) → Type 0
Plus p f g = (q : ℕ) → g q ≡ f q + hit q p

pub get_or-set :
    (xs : List ℕ) (i j v : ℕ)
    → i < length xs
    → get_or (set xs i v) j 0 ≡ (if j == i then v else get_or xs j 0)
get_or-set [] i j v h = elim h [ ]
get_or-set (x ∷ xs) zero zero v h = refl
get_or-set (x ∷ xs) zero (suc j) v h = ground arith
get_or-set (x ∷ xs) (suc i) zero v h = ground arith
get_or-set (x ∷ xs) (suc i) (suc j) v h = ground (arith, get_or-set xs i j v)

-- A page read off the free set.
pub take_free-Inv :
    (n p : ℕ) (rest : List ℕ) (owed loose loose' : ℕ → ℕ) (s : PagePool)
    → s.free_pages ≡ p ∷ rest
    → Plus p loose loose'
    → Inv n owed loose s
    → Inv n owed loose' (record s { free_pages = rest })
unfolding count
take_free-Inv n p rest owed loose loose' s e more v = record {
  refs_length = v.refs_length;
  blocks_length = v.blocks_length;
  refs = v.refs;
  partition = λ q. ground (arith, v.partition q, more q);
  ordered = v.ordered;
  fresh = v.fresh;
  parked = v.parked;
  clean = λ q h. v.clean q (ground arith);
  indexed = v.indexed;
  exclusive = v.exclusive;
}

-- A loose page is referenced once.
pub first_ref-Inv :
    (n p : ℕ) (owed owed' loose loose' : ℕ → ℕ) (s : PagePool)
    → owed p ≡ 0
    → Plus p owed owed'
    → Plus p loose' loose
    → Inv n owed loose s
    → Inv n owed' loose' (record s { page_refs = set s.page_refs p 1 })
first_ref-Inv n p owed owed' loose loose' s zero_owed more less v = record {
  refs_length = ground (arith, v.refs_length, length-set s.page_refs p 1);
  blocks_length = v.blocks_length;
  refs = λ q. ground (
    arith,
    v.refs q,
    v.refs p,
    more q,
    get_or-set s.page_refs p q 1,
    v.refs_length,
    v.partition p,
    less p,
  );
  partition = λ q. ground (arith, v.partition q, more q, less q);
  ordered = v.ordered;
  fresh = v.fresh;
  parked = v.parked;
  clean = v.clean;
  indexed = v.indexed;
  exclusive = λ q h. ground (arith, v.exclusive q h, more q);
}

-- One more reference to a page that is published.
pub next_ref-Inv :
    (n p r : ℕ) (owed owed' loose : ℕ → ℕ) (s : PagePool)
    → get_or s.page_refs p 0 ≡ r
    → 0 < r
    → cached_at s p ≢ none
    → Plus p owed owed'
    → Inv n owed loose s
    → Inv n owed' loose (record s { page_refs = set s.page_refs p (r + 1) })
next_ref-Inv n p r owed owed' loose s e pos_r cached more v = record {
  refs_length = ground (arith, v.refs_length, length-set s.page_refs p (r + 1));
  blocks_length = v.blocks_length;
  refs = λ q. ground (
    arith,
    v.refs q,
    v.refs p,
    more q,
    get_or-set s.page_refs p q (r + 1),
    v.refs_length,
    v.partition p,
  );
  partition = λ q. ground (arith, v.partition q, v.refs p, more q);
  ordered = v.ordered;
  fresh = v.fresh;
  parked = v.parked;
  clean = v.clean;
  indexed = v.indexed;
  exclusive = λ q h. elim (Bool-cases (q == p)) [
    | inl same ↦ absurd (cached (rw (← (==_iff q p).0 same) h))
    | inr other ↦ ground (arith, v.exclusive q h, more q)
  ];
}

-- One reference less; the last one leaves the page loose.
pub drop_ref-Inv :
    (n p r : ℕ) (owed owed' loose loose' : ℕ → ℕ) (s : PagePool)
    → get_or s.page_refs p 0 ≡ suc r
    → Plus p owed' owed
    → ((q : ℕ) → loose' q ≡ loose q + (if ltb 0 r then 0 else hit q p))
    → Inv n owed loose s
    → Inv n owed' loose' (record s { page_refs = set s.page_refs p r })
drop_ref-Inv n p r owed owed' loose loose' s e less more v = record {
  refs_length = ground (arith, v.refs_length, length-set s.page_refs p r);
  blocks_length = v.blocks_length;
  refs = λ q. ground (
    arith,
    v.refs q,
    v.refs p,
    less q,
    less p,
    get_or-set s.page_refs p q r,
    v.refs_length,
    v.partition p,
  );
  partition = λ q. ground (arith, v.partition q, v.refs p, v.refs q, less q, more q);
  ordered = v.ordered;
  fresh = v.fresh;
  parked = v.parked;
  clean = v.clean;
  indexed = v.indexed;
  exclusive = λ q h. ground (arith, v.exclusive q h, less q);
}

-- A loose page with no cached block becomes free.
pub free-Inv :
    (n p : ℕ) (owed loose loose' : ℕ → ℕ) (s : PagePool)
    → cached_at s p ≡ none
    → Plus p loose' loose
    → Inv n owed loose s
    → Inv n owed loose' (record s { free_pages = insert_key p s.free_pages })
free-Inv n p owed loose loose' s bare less v = record {
  refs_length = v.refs_length;
  blocks_length = v.blocks_length;
  refs = v.refs;
  partition = λ q.
      ground
        (arith, v.partition q, v.partition p, less q, less p, count-insert_key q p s.free_pages);
  ordered = v.ordered;
  fresh = v.fresh;
  parked = v.parked;
  clean = λ q h. elim (Bool-cases (q == p)) [
    | inl same ↦ rw ((==_iff q p).0 same) bare
    | inr other ↦
        v.clean q (ground (arith, v.partition p, less p, count-insert_key q p s.free_pages))
  ];
  indexed = v.indexed;
  exclusive = v.exclusive;
}
