-- ===== src/PagedKv/Invariant.antt =====
-- The well-formedness of the whole manager of paged_kv.rs, and its reading: exact reference
-- counts, exact page numbers, and writable pages with one owner.
use ru_llm.Base.{
  ℕ, ◌+◌, ◌*◌, ◌/◌, ◌≤◌, ◌<◌, ◌≡◌, inl, inr, Option, none, some, List, arith, length, count, drop,
  Option-cases,
}
use ru_llm.Base.OrdMap
use ru_llm.Base.OrdMap.{IsOrdered, total}
use ru_llm.Base.Word.{u32_mod, u64_mod, div_ceil}
use ru_llm.PagedKv.Types.{Config, SequenceState, ReservationState, PagePool, Manager}
use ru_llm.PagedKv.Pool.Invariant.{Inv, cached_at}

-- The references that the sequences hold.
unfoldable pub owed_by : List (ℕ × SequenceState) → ℕ → ℕ
owed_by seqs p = total (λ q. count p q.pages) seqs

-- The tokens that the pages of a sequence must reach.
abbrev pub span_of : Option ReservationState → ℕ → ℕ
span_of none committed = committed
span_of (some r) committed = r.start_position + r.token_count

abbrev pub span : List (ℕ × ReservationState) → ℕ → Option ℕ → ℕ
span res committed none = committed
span res committed (some rid) = span_of (OrdMap.lookup rid res) committed

-- The pages that a later append may write.
abbrev pub writable : Config → SequenceState → List ℕ
writable c q = drop (q.committed_tokens / c.block_size) q.pages

pub record SequenceInv (c : Config) (pool : PagePool) (res : List (ℕ × ReservationState)) (id : ℕ)
    (q : SequenceState) : Type 0 where
  pub capacity : q.committed_tokens ≤ c.max_sequence_length
  pub registered : q.registered_blocks * c.block_size ≤ q.committed_tokens
  -- As many pages as the tokens need, and no more.
  pub extent : length q.pages ≡ div_ceil (span res q.committed_tokens q.pending) c.block_size
  -- What may be written is not published.
  pub bare : (p : ℕ) → 0 < count p (writable c q) → cached_at pool p ≡ none
  pub pending :
      (rid : ℕ)
      → q.pending ≡ some rid
      → (r : ReservationState) × (OrdMap.lookup rid res ≡ some r) × (r.request_id ≡ id)

pub record ReservationInv (c : Config) (seqs : List (ℕ × SequenceState)) (next rid : ℕ)
    (r : ReservationState) : Type 0 where
  pub fresh : rid < next
  pub owner :
      (q : SequenceState) × (OrdMap.lookup r.request_id seqs ≡ some q)
      × (q.pending ≡ some rid)
      × (q.committed_tokens ≡ r.start_position)
  pub previous : r.previous_page_count ≡ div_ceil r.start_position c.block_size
  pub within : r.start_position + r.token_count ≤ c.max_sequence_length
  pub positive : 0 < r.token_count

pub record ManagerInv (m : Manager) : Type 0 where
  pub blocks : 0 < m.config.block_size
  pub few_pages : m.config.num_pages < u32_mod
  pub short : m.config.max_sequence_length < u64_mod
  pub sequences_ordered : IsOrdered m.sequences
  pub reservations_ordered : IsOrdered m.reservations
  pub pool : Inv m.config.num_pages (owed_by m.sequences) (λ _. 0) m.pool
  pub each :
      (id : ℕ) (q : SequenceState)
      → OrdMap.lookup id m.sequences ≡ some q
      → SequenceInv m.config m.pool m.reservations id q
  pub reserved :
      (rid : ℕ) (r : ReservationState)
      → OrdMap.lookup rid m.reservations ≡ some r
      → ReservationInv m.config m.sequences m.next_reservation rid r

-- A sequence stays well formed if no page of it becomes published and its reservation stays.
pub SequenceInv-frame :
    (c : Config) (pool pool' : PagePool) (res res' : List (ℕ × ReservationState)) (id : ℕ)
    (q : SequenceState)
    → ((p : ℕ) → 0 < count p (writable c q) → cached_at pool p ≡ none → cached_at pool' p ≡ none)
    → ((rid : ℕ) → q.pending ≡ some rid → OrdMap.lookup rid res' ≡ OrdMap.lookup rid res)
    → SequenceInv c pool res id q
    → SequenceInv c pool' res' id q
SequenceInv-frame c pool pool' res res' id q kept same v = record {
  capacity = v.capacity;
  registered = v.registered;
  extent = elim (Option-cases q.pending) [
    | inl e ↦ ground (arith, v.extent)
    | inr (rid, e) ↦ ground (arith, v.extent, same rid)
  ];
  bare = λ p h. kept p h (v.bare p h);
  pending = λ rid e. let (r, found, own) = v.pending rid e in (r, ground (arith, same rid), own);
}

-- The references after a sequence is stored, and after one is removed.
pub owed_by-insert :
    (id p : ℕ) (q q' : SequenceState) (seqs : List (ℕ × SequenceState))
    → IsOrdered seqs
    → OrdMap.lookup id seqs ≡ some q
    → owed_by (OrdMap.insert id q' seqs) p + count p q.pages ≡ owed_by seqs p + count p q'.pages
unfolding owed_by
owed_by-insert id p q q' seqs o e =
    ground (arith, OrdMap.total-insert (λ (q : SequenceState). count p q.pages) id q' seqs o)

pub owed_by-insert_new :
    (id p : ℕ) (q' : SequenceState) (seqs : List (ℕ × SequenceState))
    → IsOrdered seqs
    → OrdMap.lookup id seqs ≡ none
    → owed_by (OrdMap.insert id q' seqs) p ≡ owed_by seqs p + count p q'.pages
unfolding owed_by
owed_by-insert_new id p q' seqs o e =
    ground (arith, OrdMap.total-insert (λ (q : SequenceState). count p q.pages) id q' seqs o)

pub owed_by-remove :
    (id p : ℕ) (q : SequenceState) (seqs : List (ℕ × SequenceState))
    → OrdMap.lookup id seqs ≡ some q
    → owed_by (OrdMap.remove id seqs) p + count p q.pages ≡ owed_by seqs p
unfolding owed_by
owed_by-remove id p q seqs e =
    ground (arith, OrdMap.total-remove (λ (q : SequenceState). count p q.pages) id seqs)

pub count-le-owed_by :
    (id p : ℕ) (q : SequenceState) (seqs : List (ℕ × SequenceState))
    → OrdMap.lookup id seqs ≡ some q
    → count p q.pages ≤ owed_by seqs p
unfolding owed_by
count-le-owed_by id p q seqs e =
    OrdMap.le-total (λ (q : SequenceState). count p q.pages) id q seqs e
