-- ===== src/PagedKv/Reuse.antt =====
-- `create_sequence_with_prefix` on the whole manager.
use ru_llm.Base.{
  ℕ, ◌+◌, ◌-◌, ◌*◌, ◌/◌, ◌≤◌, ◌<◌, ◌≡◌, ◌⊎◌, refl, sym, inl, inr, subst, true, none, some, List, [],
  ℤ, arith, ok, err, Ensures, Returns, length, count, leb, Bool-cases, Option-cases, not, ◌||◌,
}
use mathlib.Core.Path.{fun_ext}
use ru_llm.Base.OrdMap
use ru_llm.Base.Word.{u32_mod, u64_mod, div_ceil-mul}
use ru_llm.PagedKv.Types.{SequenceState, PagePool, Manager, Error}
use ru_llm.PagedKv.Pool.Invariant.{Inv, cached_at}
use ru_llm.PagedKv.Manager.{create_sequence, empty_sequence, chain_root}
use ru_llm.PagedKv.Prefix.{create_sequence_with_prefix, match_blocks, Match}
use ru_llm.PagedKv.Invariant.{ManagerInv, SequenceInv, owed_by, owed_by-insert_new, writable}
use ru_llm.PagedKv.Store.{store-Inv, stored}
use ru_llm.PagedKv.Ending.{drop_all}
use ru_llm.PagedKv.Lifecycle.{create_sequence-Ensures}
use ru_llm.PagedKv.Matching.{Matched, match_blocks_lem}

div-mul : (k b : ℕ) → 0 < b → (k * b) / b ≡ k
div-mul k b h = grind arith

blocks-le : (len b : ℕ) → 0 < b → ((len - 1) / b) * b ≤ len - 1
blocks-le len b h = grind arith

mul_le : (a c b : ℕ) → a ≤ c → a * b ≤ c * b
mul_le a c b h = grind arith

-- The counter of reused tokens does not enter the invariant.
reused-Inv : (m : Manager) (k : ℕ) → ManagerInv m → ManagerInv (record m { reused_tokens = k })
reused-Inv m k v = record {
  blocks = v.blocks;
  few_pages = v.few_pages;
  short = v.short;
  sequences_ordered = v.sequences_ordered;
  reservations_ordered = v.reservations_ordered;
  pool = v.pool;
  each = v.each;
  reserved = v.reserved;
}

empty_inv :
    (m : Manager)
    → ManagerInv m
    → (id : ℕ) → OrdMap.lookup id m.sequences ≡ none
    → ManagerInv (record m { sequences = OrdMap.insert id empty_sequence m.sequences })
unfolding create_sequence
empty_inv m v id absent =
    let made : create_sequence id m
        ≡ ok tt (record m { sequences = OrdMap.insert id empty_sequence m.sequences }) =
      ground (arith, absent) in
    (subst
      (Ensures
        (λ _ t.
          ManagerInv t
          × (t ≡ record m { sequences = OrdMap.insert id empty_sequence m.sequences })
          × (OrdMap.lookup id m.sequences ≡ none))
        (λ e t. (t ≡ m) × ((q : SequenceState) × (OrdMap.lookup id m.sequences ≡ some q))))
      made (create_sequence-Ensures m v id)).0

div_le : (a b : ℕ) → a / b ≤ a
div_le a b = grind arith

-- A new sequence that starts with the mapped pages, and the manager with it.
abbrev pub mapped : Manager → Match → SequenceState
mapped m r = record empty_sequence {
  registered_blocks = length r.pages;
  chain_hash = r.parent;
  committed_tokens = length r.pages * m.config.block_size;
  pages = r.pages;
}

abbrev pub mapping : Manager → ℕ → Match → PagePool → Manager
mapping m id r u = record m {
  pool = u;
  reused_tokens = m.reused_tokens + length r.pages * m.config.block_size;
  sequences = OrdMap.insert id (mapped m r) m.sequences;
}

-- What holds after a sequence with a prefix of `len` tokens is created: the committed tokens are
-- whole blocks of it, and one token at least is left to compute.
pub record Reused (m : Manager) (id len matched : ℕ) (t : Manager) : Type 0 where
  pub inv : ManagerInv t
  pub left : (matched < len) ⊎ (matched ≡ 0)
  pub before :
      (r : Match) × (matched ≡ length r.pages * m.config.block_size)
      × (t.sequences ≡ OrdMap.insert id (mapped m r) m.sequences)
      × (t.reservations ≡ m.reservations)
      × (t.reused_tokens ≡ m.reused_tokens + matched)

module _ (chain : ℕ → List ℤ → ℕ) (m : Manager) (v : ManagerInv m) (id : ℕ) (tokens : List ℤ)
    (fits : length tokens ≤ m.config.max_sequence_length)
    (counts : m.reused_tokens + length tokens < u64_mod)
    (room : (p : ℕ) → owed_by m.sequences p + length tokens < u32_mod) where
  module _ (absent : OrdMap.lookup id m.sequences ≡ none) (r : Match) (u : PagePool)
      (all : Matched m.config.num_pages
        ((length tokens - 1) / m.config.block_size)
        []
        (owed_by m.sequences)
        m.pool
        r
        u) where
    matched-le : length r.pages * m.config.block_size ≤ length tokens - 1
    matched-le =
        let few : length r.pages ≤ (length tokens - 1) / m.config.block_size =
          rw all.found all.few in
        omega (
          arith,
          mul_le (length r.pages) ((length tokens - 1) / m.config.block_size) m.config.block_size
              few,
          blocks-le (length tokens) m.config.block_size v.blocks,
        )

    mapped_sequence : SequenceInv m.config u m.reservations id (mapped m r)
    unfolding count
    mapped_sequence = record {
      capacity = omega (arith, matched-le, fits);
      registered = omega arith;
      extent = sym (div_ceil-mul (length r.pages) m.config.block_size v.blocks);
      bare = λ p h.
          let none_left : writable m.config (mapped m r) ≡ [] =
            rw (div-mul (length r.pages) m.config.block_size v.blocks)
              (drop_all (length r.pages) r.pages (omega arith)) in
          absurd (ground (arith, none_left, h));
      pending = λ rid e. absurd (cc e);
    }

    mapped_owed :
        (p : ℕ)
        → owed_by m.sequences p + count p all.new
          ≡ owed_by (OrdMap.insert id (mapped m r) m.sequences) p
    mapped_owed p =
        let same : r.pages ≡ all.new = all.found in
        let counted : count p r.pages ≡ count p all.new = cc same in
        omega (
          arith,
          counted,
          owed_by-insert_new id p (mapped m r) m.sequences v.sequences_ordered absent,
        )

    still_bare : (p : ℕ) → cached_at m.pool p ≡ none → cached_at u p ≡ none
    still_bare p bare = elim (Option-cases (cached_at u p)) [
      | inl h ↦ h
      | inr (b, h) ↦ absurd (ground (arith, all.kept p, h, bare))
    ]

    pub mapping-Inv : ManagerInv (mapping m id r u)
    mapping-Inv =
        reused-Inv (stored m id (mapped m r) u m.reservations m.next_reservation)
          (m.reused_tokens + length r.pages * m.config.block_size)
          (store-Inv m v id (mapped m r) u m.reservations m.next_reservation
            (subst (λ f. Inv m.config.num_pages f (λ _. 0) u) (fun_ext mapped_owed) all.inv)
            (λ j q p other e w. still_bare p) mapped_sequence v.reservations_ordered (omega arith)
            (λ rid x other. (λ h. h, λ h. h))
            (λ rid x same e.
              let (q0, found0, waits0, start0) = (v.reserved rid x e).owner in
              absurd (ground (arith, found0, same, absent))))

    mapping_run :
        match_blocks chain m.config.block_size tokens
            ((length tokens - 1) / m.config.block_size)
            0
            chain_root
            []
            m.pool
          ≡ ok r u
        → m.prefix_caching ≡ true
        → 1 < length tokens
        → create_sequence_with_prefix chain id tokens m
          ≡ ok (length r.pages * m.config.block_size) (mapping m id r u)
    unfolding create_sequence_with_prefix create_sequence
    mapping_run ran on long = ground (
      arith,
      absent,
      ran,
      on,
      matched-le,
      OrdMap.lookup-insert id id empty_sequence m.sequences,
      OrdMap.insert-insert id empty_sequence (mapped m r) m.sequences,
    )

  reuse_absent :
      OrdMap.lookup id m.sequences ≡ none
      → m.prefix_caching ≡ true
      → 1 < length tokens
      → Returns
          (λ matched t. Reused m id (length tokens) matched t)
          (create_sequence_with_prefix chain id tokens m)
  reuse_absent absent on long =
      let (r, u, ran, all) =
        match_blocks_lem chain m.config.num_pages m.config.block_size tokens
          ((length tokens - 1) / m.config.block_size) 0 chain_root [] (owed_by m.sequences) m.pool
          v.pool (λ p. omega (arith, room p, div_le (length tokens - 1) m.config.block_size))
          (omega (arith, blocks-le (length tokens) m.config.block_size v.blocks)) in
      (
        length r.pages * m.config.block_size,
        mapping m id r u,
        mapping_run absent r u all ran on long,
        record {
          inv = mapping-Inv absent r u all;
          left = inl (omega (arith, matched-le absent r u all));
          before = (r, refl, refl, refl, refl);
        },
      )

  plain_create :
      OrdMap.lookup id m.sequences ≡ none
      → Reused m id
          (length tokens)
          0
          (record m { sequences = OrdMap.insert id empty_sequence m.sequences })
  plain_create absent =
      let nothing : 0 * m.config.block_size ≡ 0 = omega arith in
      record {
        inv = empty_inv m v id absent;
        left = inr refl;
        before = (
          record { parent = chain_root; pages = [] },
          sym nothing,
          rw nothing refl,
          refl,
          omega arith,
        );
      }

  -- On a well-formed manager, while the counters have room and the prompt is not above the
  -- capacity, creating a sequence with a prefix never panics, whatever hash is used: the manager
  -- stays well formed, with whole blocks as the committed tokens and one token at least left to
  -- compute unless nothing is reused, or the sequence exists and nothing changes.
  pub create_sequence_with_prefix-Ensures :
      Ensures
        (λ matched t. Reused m id (length tokens) matched t)
        (λ e t. (t ≡ m) × ((q : SequenceState) × (OrdMap.lookup id m.sequences ≡ some q)))
        (create_sequence_with_prefix chain id tokens m)
  unfolding create_sequence_with_prefix create_sequence
  create_sequence_with_prefix-Ensures = elim (Option-cases (OrdMap.lookup id m.sequences)) [
    | inr (q, found) ↦
        let refused : create_sequence_with_prefix chain id tokens m
            ≡ err (Error.sequence_exists id) m =
          ground arith in
        rw refused (refl, (q, found))
    | inl absent ↦ elim (Bool-cases (not m.prefix_caching || leb (length tokens) 1)) [
      | inl plain ↦
          let made : create_sequence_with_prefix chain id tokens m
              ≡ ok 0 (record m { sequences = OrdMap.insert id empty_sequence m.sequences }) =
            ground arith in
          rw made (plain_create absent)
      | inr caching ↦
          let on : (m.prefix_caching ≡ true) × (1 < length tokens) = ground arith in
          let (matched, t, ran, done) = reuse_absent absent on.0 on.1 in rw ran done
    ]
  ]
