-- ===== src/PagedKv/Exclusive.antt =====
-- The pages that the caller of `begin_append` (paged_kv.rs) writes.
use ru_llm.Base.{
  ℕ, zero, suc, ◌+◌, ◌/◌, ◌≤◌, ◌<◌, ◌≡◌, ◌≢◌, ◌∙◌, refl, sym, none, some, List, [], ◌∷◌, arith,
  length, count, drop, get_or, get_elem?, Ensures, Ensures-weaken,
}
use ru_llm.Base.OrdMap
use ru_llm.Base.Word.{div_ceil, div_ceil_bounds}
use ru_llm.PagedKv.Types.{AppendReservation, SequenceState, Manager}
use ru_llm.PagedKv.Pool.Invariant.{cached_at}
use ru_llm.PagedKv.Manager.{begin_append}
use ru_llm.PagedKv.Invariant.{ManagerInv, owed_by, count-le-owed_by}
use ru_llm.PagedKv.Finish.{count-take-drop}
use ru_llm.PagedKv.Begin.{Begun, grown, begin_append-Ensures}

-- The page is not published, has one reference, and belongs to no other sequence.
pub record IsExclusive (m : Manager) (id p : ℕ) : Type 0 where
  pub bare : cached_at m.pool p ≡ none
  pub once : get_or m.page_refs p 0 ≡ 1
  pub alone :
      (jd : ℕ) (x : SequenceState)
      → jd ≢ id
      → OrdMap.lookup jd m.sequences ≡ some x
      → count p x.pages ≡ 0

-- A page behind the complete blocks of a sequence.
writable-IsExclusive :
    (m : Manager) (v : ManagerInv m) (id p : ℕ) (q : SequenceState)
    → OrdMap.lookup id m.sequences ≡ some q
    → 0 < count p (drop (q.committed_tokens / m.config.block_size) q.pages)
    → IsExclusive m id p
unfolding owed_by
writable-IsExclusive m v id p q found w =
    let bare : cached_at m.pool p ≡ none = (v.each id q found).bare p w in
    let once : owed_by m.sequences p ≤ 1 = v.pool.exclusive p bare in
    let held : count p q.pages ≤ owed_by m.sequences p =
      count-le-owed_by id p q m.sequences found in
    let here : 0 < count p q.pages =
      omega (arith, count-take-drop (q.committed_tokens / m.config.block_size) p q.pages) in
    record {
      bare = bare;
      once = omega (arith, v.pool.refs p);
      alone = λ jd x other e. omega (
        arith,
        OrdMap.two-le-total (λ (s : SequenceState). count p s.pages) jd id x q m.sequences
            v.sequences_ordered other e found,
      );
    }

page_at :
    (pages : List ℕ) (k i : ℕ)
    → k ≤ i
    → i < length pages
    → (p : ℕ) × (get_elem? pages i ≡ some p) × (0 < count p (drop k pages))
unfolding count
page_at [] k i low h = absurd (omega (arith, h))
page_at (x ∷ pages) zero zero low h = (x, refl, ground arith)
page_at (x ∷ pages) zero (suc i) low h =
    let (p, at, many) = page_at pages zero i (omega arith) (omega (arith, h)) in
    (p, at, omega (arith, many))
page_at (x ∷ pages) (suc k) zero low h = absurd (omega (arith, low))
page_at (x ∷ pages) (suc k) (suc i) low h =
    page_at pages k i (omega (arith, low)) (omega (arith, h))

block_low : (a x b : ℕ) → a ≤ x → 0 < b → a / b ≤ x / b
block_low a x b h pos_b = grind arith

block_inside : (x n b : ℕ) → x < n → 0 < b → x / b < div_ceil n b
block_inside x n b h pos_b = grind (arith, div_ceil_bounds n b pos_b)

module _ (m : Manager) (v : ManagerInv m) (id n : ℕ) where
  -- Every position of the append has a page in the block table that is the caller's alone.
  abbrev pub HasOwnPages : AppendReservation → Manager → Type 0
  HasOwnPages r t =
      (x : ℕ)
      → r.start_position ≤ x
      → x < r.start_position + n
      → (p : ℕ) × (get_elem? r.block_table (x / m.config.block_size) ≡ some p) × IsExclusive t id p

  own_pages : (r : AppendReservation) (t : Manager) → Begun m id n r t → HasOwnPages r t
  own_pages r t b x low high =
      let (q, found, idle, made, start, table) = b.before in
      let q' : SequenceState = grown q r.newly_allocated_pages m.next_reservation in
      let entry : OrdMap.lookup id t.sequences ≡ some q' =
        rw made (OrdMap.lookup-insert id id q' m.sequences ∙ ground arith) in
      let same : t.config ≡ m.config = cc made in
      let inside : x / m.config.block_size < length r.block_table = rw b.covers (
        block_inside x r.context_length m.config.block_size (omega (arith, high, b.context.0))
          v.blocks) in
      let above : q.committed_tokens / m.config.block_size ≤ x / m.config.block_size =
        block_low q.committed_tokens x m.config.block_size (omega (arith, low, start)) v.blocks in
      let (p, at, many) = page_at r.block_table _ (x / m.config.block_size) above inside in
      (p, at, writable-IsExclusive t b.inv id p q' entry (rw (same, sym table) many))

  -- On a well-formed manager, `begin_append` gives every token of the append a place on a page that
  -- is not published, is referenced once and belongs to no other sequence, however its prefix is
  -- shared; or it is an error, and nothing changes.
  pub begin_append-IsExclusive : Ensures HasOwnPages (λ e t. t ≡ m) (begin_append id n m)
  begin_append-IsExclusive =
      Ensures-weaken _ _ _ _ (begin_append id n m) (begin_append-Ensures m v id n) own_pages
        (λ e t same. same)
