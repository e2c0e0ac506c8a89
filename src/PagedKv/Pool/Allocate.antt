-- ===== src/PagedKv/Pool/Allocate.antt =====
-- `allocate_page`: it succeeds while a page is available, and hands out a page that nobody holds.
use ru_llm.Base.{
  ℕ, zero, suc, ◌+◌, ◌≤◌, ◌<◌, ◌≡◌, ◌∙◌, ==_iff, subst, refl, none, some, List, [], ◌∷◌, arith,
  length, get_elem?, set, get_or, hit, count, get_elem?-some, Option-cases, inl, inr, Returns,
}
use mathlib.Core.Path.{fun_ext}
use ru_llm.Base.OrdMap
use ru_llm.Base.HashMap
use ru_llm.PagedKv.Types.{CachedBlock, PagePool, block_key_eq}
use ru_llm.PagedKv.Pool.{allocate_page, allocate_pages, available_pages}
use ru_llm.PagedKv.Pool.Invariant.{Inv, cached_at, take_free-Inv, first_ref-Inv}
use ru_llm.PagedKv.Pool.Blocks.{evict-Inv, cached_at-set}

-- One more reference to `p`.
abbrev pub plus : ℕ → (ℕ → ℕ) → ℕ → ℕ
plus p f q = f q + hit q p

get_elem?-get_or : (xs : List ℕ) (i : ℕ) → i < length xs → get_elem? xs i ≡ some (get_or xs i 0)
get_elem?-get_or [] i h = elim h [ ]
get_elem?-get_or (x ∷ xs) zero h = refl
get_elem?-get_or (x ∷ xs) (suc i) h = get_elem?-get_or xs i (omega arith)

pub ref_at :
    (n p : ℕ) (owed loose : ℕ → ℕ) (s : PagePool)
    → Inv n owed loose s
    → p < n
    → get_elem? s.page_refs p ≡ some (owed p)
ref_at n p owed loose s v h =
    ground (arith, get_elem?-get_or s.page_refs p, v.refs_length, v.refs p)

pub block_at :
    (n p : ℕ) (owed loose : ℕ → ℕ) (s : PagePool)
    → Inv n owed loose s
    → p < n
    → get_elem? s.page_blocks p ≡ some (cached_at s p)
block_at n p owed loose s v h = ground (arith, get_elem?-some s.page_blocks p, v.blocks_length)

-- What the callers rely on: the page was free or evictable, nothing is published for it, and no
-- page becomes published.
pub record Allocated (n : ℕ) (owed loose : ℕ → ℕ) (s : PagePool) (p : ℕ) (t : PagePool)
    : Type 0 where
  pub inv : Inv n (plus p owed) loose t
  pub unowed : owed p ≡ 0
  pub bare : cached_at t p ≡ none
  pub kept : (q : ℕ) → cached_at s q ≡ none → cached_at t q ≡ none
  pub taken : available_pages t + 1 ≡ available_pages s
  pub tick : t.next_tick ≡ s.next_tick

module _ (n : ℕ) (owed loose : ℕ → ℕ) (s : PagePool) (v : Inv n owed loose s) where
  from_free :
      (p : ℕ) (rest : List ℕ)
      → s.free_pages ≡ p ∷ rest
      → Returns (Allocated n owed loose s) (allocate_page s)
  unfolding allocate_page count
  from_free p rest e = (
    p,
    record s { free_pages = rest; page_refs = set s.page_refs p 1 },
    ground (arith, ref_at n p owed loose s v, v.partition p),
    record {
      inv =
          first_ref-Inv n p owed (plus p owed) (plus p loose) loose (record s { free_pages = rest })
            (ground (arith, v.partition p)) (λ q. refl) (λ q. refl)
            (take_free-Inv n p rest owed loose (plus p loose) s e (λ q. refl) v);
      unowed = ground (arith, v.partition p);
      bare = ground (arith, v.clean p);
      kept = λ q h. h;
      taken = ground arith;
      tick = refl;
    },
  )

  from_evictable :
      (t p : ℕ) (rest : List (ℕ × ℕ)) (b : CachedBlock)
      → s.free_pages ≡ []
      → s.evictable ≡ (t, p) ∷ rest
      → cached_at s p ≡ some b
      → Returns (Allocated n owed loose s) (allocate_page s)
  unfolding allocate_page count OrdMap.total
  from_evictable t p rest b none_free e here = (
    p,
    record s {
      evictable = rest;
      page_blocks = set s.page_blocks p none;
      block_index = HashMap.remove b.key s.block_index;
      page_refs = set s.page_refs p 1;
    },
    ground (
      arith,
      ref_at n p owed loose s v,
      block_at n p owed loose s v,
      v.partition p,
      v.indexed b.key p,
    ),
    record {
      inv =
          first_ref-Inv n p owed (plus p owed) (plus p loose) loose _
            (ground (arith, v.partition p)) (λ q. refl) (λ q. refl)
            (evict-Inv n p b owed loose s v here (ground (arith, v.partition p)) t rest
              (plus p loose) e (λ q. refl));
      unowed = ground (arith, v.partition p);
      bare = ground (arith, v.partition p, cached_at-set s.page_blocks p p none, v.blocks_length);
      kept = λ q h.
          ground (arith, v.partition p, cached_at-set s.page_blocks p q none, v.blocks_length);
      taken = ground arith;
      tick = refl;
    },
  )

  -- The page at the head of the eviction order has a block.
  evictable_block :
      (t p : ℕ) (rest : List (ℕ × ℕ))
      → s.evictable ≡ (t, p) ∷ rest
      → (b : CachedBlock) × (cached_at s p ≡ some b)
  unfolding OrdMap.lookup
  evictable_block t p rest e = elim (Option-cases (cached_at s p)) [
    | inl bare ↦ absurd (ground (arith, v.parked t p))
    | inr found ↦ found
  ]

  -- An available page is handed out, referenced once, and it was referenced by nobody.
  pub allocate_page_lem :
      0 < available_pages s → Returns (Allocated n owed loose s) (allocate_page s)
  allocate_page_lem some_left = go s.free_pages s.evictable refl refl
    where
      go :
          (free : List ℕ) (parked : List (ℕ × ℕ))
          → s.free_pages ≡ free
          → s.evictable ≡ parked
          → Returns (Allocated n owed loose s) (allocate_page s)
      go (p ∷ rest) parked e f = from_free p rest e
      go [] ((t, p) ∷ rest) e f =
          let (b, here) = evictable_block t p rest f in from_evictable t p rest b e f here
      go [] [] e f = absurd (ground arith)

-- What the callers rely on after a loop of allocations.
pub record AllocatedAll (n k : ℕ) (owed loose : ℕ → ℕ) (s : PagePool) (ps : List ℕ) (t : PagePool)
    : Type 0 where
  pub inv : Inv n (λ q. owed q + count q ps) loose t
  pub number : length ps ≡ k
  pub unowed : (q : ℕ) → 0 < count q ps → owed q ≡ 0
  pub bare : (q : ℕ) → 0 < count q ps → cached_at t q ≡ none
  pub kept : (q : ℕ) → cached_at s q ≡ none → cached_at t q ≡ none
  pub taken : available_pages t + k ≡ available_pages s
  pub tick : t.next_tick ≡ s.next_tick

-- As many pages as are available can be allocated in a row; they are distinct from all held ones.
pub allocate_pages_lem :
    (n k : ℕ) (owed loose : ℕ → ℕ) (s : PagePool)
    → Inv n owed loose s
    → k ≤ available_pages s
    → Returns (AllocatedAll n k owed loose s) (allocate_pages k s)
unfolding allocate_pages count
allocate_pages_lem n zero owed loose s v h = (
  [],
  s,
  refl,
  record {
    inv = subst (λ f. Inv n f loose s) (fun_ext (λ q. omega arith)) v;
    number = refl;
    unowed = λ q h. absurd (omega arith);
    bare = λ q h. absurd (omega arith);
    kept = λ q h. h;
    taken = omega arith;
    tick = refl;
  },
)
allocate_pages_lem n (suc k) owed loose s v h =
    let (p, t, run, one) = allocate_page_lem n owed loose s v (omega arith) in
    let (ps, u, rest, all) =
      allocate_pages_lem n k (plus p owed) loose t one.inv (omega (arith, one.taken)) in
    (
      p ∷ ps,
      u,
      ground (arith, run, rest),
      record {
        inv = subst (λ f. Inv n f loose u) (fun_ext (λ q. omega arith)) all.inv;
        number = omega (arith, all.number);
        unowed = λ q h. ground (arith, all.unowed q, one.unowed, ==_iff q p);
        bare = λ q h. ground (arith, all.bare q, all.kept q, one.bare, ==_iff q p);
        kept = λ q h. all.kept q (one.kept q h);
        taken = omega (arith, all.taken, one.taken);
        tick = all.tick ∙ one.tick;
      },
    )
