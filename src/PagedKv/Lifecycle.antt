-- ===== src/PagedKv/Lifecycle.antt =====
-- `new`, `create_sequence` and `remove_sequence`: the life of the manager and of a sequence.
use ru_llm.Base.{
  ℕ, zero, suc, ◌+◌, ◌/◌, ◌≤◌, ◌<◌, ◌≡◌, ◌⊎◌, refl, ap, ◌-◌, inl, inr, subst, ◌||◌, none, some,
  List, [], ◌∷◌, arith, ok, err, Ensures, length, count, ◌==◌, ==_iff, Bool-cases, Option-cases,
  reverse, count-reverse, range_from, get_or, replicate, get_elem?, length-replicate, length-append,
}
use mathlib.Core.List.{reverse-cons}
use mathlib.Core.Path.{fun_ext}
use native.Mathlib.Decide.{dec_lt}
use ru_llm.Base.OrdMap
use ru_llm.Base.HashMap
use ru_llm.Base.Word.{div_ceil-le, u32_mod, u64_mod}
use ru_llm.PagedKv.Types.{Config, SequenceState, PagePool, Manager, Error, block_key_eq}
use ru_llm.PagedKv.Pool.{available_pages, new_pool}
use ru_llm.PagedKv.Pool.Invariant.{Inv, cached_at, inside, join_block}
use ru_llm.PagedKv.Pool.Release.{release_pages_lem}
use ru_llm.PagedKv.Manager.{new, initial, create_sequence, empty_sequence}
use ru_llm.PagedKv.Commit.{remove_sequence}
use ru_llm.PagedKv.Invariant.{
  ManagerInv, SequenceInv, SequenceInv-frame, owed_by, owed_by-insert_new, owed_by-remove,
}
use ru_llm.PagedKv.Store.{store-Inv}
use ru_llm.PagedKv.Finish.{HasTicks, count-take-drop}

length-reverse {ℓ} : {A : Type ℓ} (xs : List A) → length (reverse xs) ≡ length xs
length-reverse [] = refl
length-reverse (x ∷ xs) =
    omega
      (arith, ap length (reverse-cons x xs), length-append (reverse xs) (x ∷ []), length-reverse xs)

count-range_below : (p i n : ℕ) → p < i → count p (range_from i n) ≡ 0
unfolding count
count-range_below p i zero h = refl
count-range_below p i (suc n) h = ground (arith, count-range_below p (i + 1) n)

count-range_from : (p i n : ℕ) → i ≤ p → count p (range_from i n) ≡ inside (i + n) p
unfolding count
count-range_from p i zero h = ground arith
count-range_from p i (suc n) h = elim (Bool-cases (p == i)) [
  | inl same ↦ ground (arith, count-range_below p (i + 1) n)
  | inr other ↦ ground (arith, count-range_from p (i + 1) n)
]

get_or-replicate : (n i : ℕ) → get_or {A = ℕ} (replicate n 0) i 0 ≡ 0
get_or-replicate zero i = refl
get_or-replicate (suc n) zero = refl
get_or-replicate (suc n) (suc i) = get_or-replicate n i

bare-replicate : (n i : ℕ) → join_block (get_elem? (replicate n none) i) ≡ none
bare-replicate zero i = refl
bare-replicate (suc n) zero = refl
bare-replicate (suc n) (suc i) = bare-replicate n i

new_pool-Inv : (n : ℕ) → Inv n (owed_by []) (λ _. 0) (new_pool n)
unfolding new_pool owed_by OrdMap.total OrdMap.lookup HashMap.lookup
new_pool-Inv n = record {
  refs_length = length-replicate n 0;
  blocks_length = length-replicate n none;
  refs = λ p. get_or-replicate n p;
  partition = λ p. ground (arith, count-range_from p 0 n);
  ordered = tt;
  fresh = λ t p h. cc;
  parked = λ t p. ground (arith, bare-replicate n p);
  clean = λ p h. bare-replicate n p;
  indexed = λ k p. ground (arith, bare-replicate n p);
  exclusive = λ p h. omega arith;
}

pub initial-Inv :
    (c : Config)
    → (0 < c.block_size)
    → c.num_pages < u32_mod
    → c.max_sequence_length < u64_mod
    → ManagerInv (initial c)
unfolding OrdMap.lookup
initial-Inv c blocks few short = record {
  blocks = blocks;
  few_pages = few;
  short = short;
  sequences_ordered = tt;
  reservations_ordered = tt;
  pool = new_pool-Inv c.num_pages;
  each = λ id q e. absurd (cc e);
  reserved = λ rid r e. absurd (cc e);
}

length-range_from : (i n : ℕ) → length (range_from i n) ≡ n
length-range_from i zero = refl
length-range_from i (suc n) = ap suc (length-range_from (i + 1) n)

initial_available : (c : Config) → available_pages (initial c).pool ≡ c.num_pages
unfolding new_pool
initial_available c = omega (arith, length-range_from 0 c.num_pages)

-- For a capacity that is a `usize`, a new manager is well formed, and every page of it is
-- available; an error means a zero in the configuration or more pages than a `u32` counts.
pub new-Ensures :
    (c : Config)
    → c.max_sequence_length < u64_mod
    → Ensures {S = Unit {0}}
        (λ m _. ManagerInv m × (m.config ≡ c) × (available_pages m.pool ≡ c.num_pages))
        (λ e _.
          (c.block_size ≡ 0)
          ⊎ (c.num_pages ≡ 0)
          ⊎ (c.max_sequence_length ≡ 0)
          ⊎ (u32_mod ≤ c.num_pages))
        (new c tt)
unfolding new
new-Ensures c short =
    elim (Bool-cases (c.block_size == 0 || c.num_pages == 0 || c.max_sequence_length == 0)) [
      | inl bad ↦
          let refused : new {S = Unit {0}} c tt ≡ err Error.zero_config tt = ground arith in
          rw refused (ground arith)
      | inr good ↦ elim (dec_lt (u32_mod - 1) c.num_pages) [
        | yes many ↦
            let refused : new {S = Unit {0}} c tt ≡ err Error.page_table_capacity tt =
              ground arith in
            rw refused (ground arith)
        | no few ↦
            let made : new {S = Unit {0}} c tt ≡ ok (initial c) tt = ground arith in
            rw made (initial-Inv c (ground arith) (omega arith) short, refl, initial_available c)
      ]
    ]

-- What holds after a sequence is gone.
pub record Removed (m : Manager) (id : ℕ) (t : Manager) : Type 0 where
  pub inv : ManagerInv t
  pub before :
      (q : SequenceState) × (OrdMap.lookup id m.sequences ≡ some q)
      × (q.pending ≡ none)
      × (t ≡ record m { pool = t.pool; sequences = OrdMap.remove id m.sequences })
  pub gone : OrdMap.lookup id t.sequences ≡ none
  pub available : available_pages m.pool ≤ available_pages t.pool
  pub ticks : t.next_tick ≤ m.next_tick + m.config.max_sequence_length

module _ (m : Manager) (v : ManagerInv m) (id : ℕ) where
  empty-SequenceInv : SequenceInv m.config m.pool m.reservations id empty_sequence
  unfolding count
  empty-SequenceInv = record {
    capacity = omega arith;
    registered = omega arith;
    extent = omega (arith, div_ceil-le 0 m.config.block_size v.blocks);
    bare = λ p h. absurd (omega (arith, count-take-drop (0 / m.config.block_size) p []));
    pending = λ rid e. absurd (cc e);
  }

  created :
      OrdMap.lookup id m.sequences ≡ none
      → ManagerInv (record m { sequences = OrdMap.insert id empty_sequence m.sequences })
  unfolding count
  created absent =
      store-Inv m v id empty_sequence m.pool m.reservations m.next_reservation
        (subst (λ f. Inv m.config.num_pages f (λ _. 0) m.pool)
          (fun_ext (λ p.
            omega (
              arith,
              owed_by-insert_new id p empty_sequence m.sequences v.sequences_ordered absent,
            )))
          v.pool)
        (λ j q0 p other e w h. h) empty-SequenceInv v.reservations_ordered (omega arith)
        (λ rid r other. (λ h. h, λ h. h))
        (λ rid r same e.
          let (q0, found0, waits0, start0) = (v.reserved rid r e).owner in
          absurd (ground (arith, found0, same, absent)))

  -- On a well-formed manager, a new sequence is empty and takes no page and the manager stays
  -- well formed, or the sequence exists and nothing changes.
  pub create_sequence-Ensures :
      Ensures
        (λ _ t.
          ManagerInv t
          × (t ≡ record m { sequences = OrdMap.insert id empty_sequence m.sequences })
          × (OrdMap.lookup id m.sequences ≡ none))
        (λ e t. (t ≡ m) × ((q : SequenceState) × (OrdMap.lookup id m.sequences ≡ some q)))
        (create_sequence id m)
  unfolding create_sequence
  create_sequence-Ensures = elim (Option-cases (OrdMap.lookup id m.sequences)) [
    | inr (q, found) ↦
        let refused : create_sequence id m ≡ err (Error.sequence_exists id) m = ground arith in
        rw refused (refl, (q, found))
    | inl absent ↦
        let made : create_sequence id m
            ≡ ok tt (record m { sequences = OrdMap.insert id empty_sequence m.sequences }) =
          ground arith in
        rw made (created absent, refl, absent)
  ]

  module _ (q : SequenceState) (found : OrdMap.lookup id m.sequences ≡ some q)
      (idle : q.pending ≡ none) where
    idle_pages-le : length q.pages ≤ m.config.max_sequence_length
    idle_pages-le = ground (
      arith,
      (v.each id q found).extent,
      (v.each id q found).capacity,
      idle,
      div_ceil-le q.committed_tokens m.config.block_size v.blocks,
    )

    removed_inv :
        (u : PagePool)
        → Inv m.config.num_pages (owed_by (OrdMap.remove id m.sequences)) (λ _. 0) u
        → ((p : ℕ) → cached_at m.pool p ≡ none → cached_at u p ≡ none)
        → ManagerInv (record m { pool = u; sequences = OrdMap.remove id m.sequences })
    removed_inv u pool_inv kept = record {
      blocks = v.blocks;
      few_pages = v.few_pages;
      short = v.short;
      sequences_ordered = OrdMap.remove-IsOrdered id m.sequences v.sequences_ordered;
      reservations_ordered = v.reservations_ordered;
      pool = pool_inv;
      each = λ j x e.
          SequenceInv-frame m.config m.pool u m.reservations m.reservations j x (λ p w. kept p)
            (λ rid pe. refl)
            (v.each j x
              (ground (arith, OrdMap.lookup-remove id j m.sequences v.sequences_ordered)));
      reserved = λ rid r e.
          let old = v.reserved rid r e in
          let (x, found0, waits0, start0) = old.owner in
          record {
            fresh = old.fresh;
            owner = (
              x,
              ground (
                arith,
                OrdMap.lookup-remove id r.request_id m.sequences v.sequences_ordered,
                found0,
                waits0,
                ==_iff r.request_id id,
              ),
              waits0,
              start0,
            );
            previous = old.previous;
            within = old.within;
            positive = old.positive;
          };
    }

    pub remove_run :
        HasTicks m
        → (u : PagePool) × (remove_sequence id m
            ≡ ok tt (record m { pool = u; sequences = OrdMap.remove id m.sequences }))
          × Removed m id (record m { pool = u; sequences = OrdMap.remove id m.sequences })
    unfolding remove_sequence
    remove_run room =
        let (u, run, pool_inv, kept, flag, tick, gain) =
          release_pages_lem m.config.num_pages (reverse q.pages) (owed_by m.sequences)
            (owed_by (OrdMap.remove id m.sequences)) (λ _. 0) m.pool v.pool
            (λ p. omega (arith, owed_by-remove id p q m.sequences found, count-reverse p q.pages))
            (omega (arith, length-reverse q.pages, idle_pages-le)) in
        (
          u,
          ground (arith, run),
          record {
            inv = removed_inv u pool_inv kept;
            before = (q, found, idle, refl);
            gone = ground (arith, OrdMap.lookup-remove id id m.sequences v.sequences_ordered);
            available = omega (arith, gain);
            ticks = omega (arith, tick, length-reverse q.pages, idle_pages-le);
          },
        )

  -- On a well-formed manager with room in the LRU counter, removing never panics: it drops an
  -- idle sequence, its pages go back to the pool and the manager stays well formed, or nothing
  -- changes.
  pub remove_sequence-Ensures :
      HasTicks m → Ensures (λ _ t. Removed m id t) (λ e t. t ≡ m) (remove_sequence id m)
  unfolding remove_sequence
  remove_sequence-Ensures room = elim (Option-cases (OrdMap.lookup id m.sequences)) [
    | inl missing ↦
        let refused : remove_sequence id m ≡ err (Error.sequence_missing id) m = ground arith in
        rw refused refl
    | inr (q, found) ↦ elim (Option-cases q.pending) [
      | inr (rid, waits) ↦
          let refused : remove_sequence id m ≡ err (Error.remove_pending id rid) m = ground arith in
          rw refused refl
      | inl idle ↦ let (u, run, done) = remove_run q found idle room in rw run done
    ]
  ]
