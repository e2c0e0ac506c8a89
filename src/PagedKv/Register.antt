-- ===== src/PagedKv/Register.antt =====
-- `register_prefix` on the whole manager.
use ru_llm.Base.{
  ℕ, ◌+◌, ◌-◌, ◌*◌, ◌/◌, ◌≤◌, ◌<◌, ◌≡◌, ◌≢◌, ◌⊎◌, refl, sym, inl, inr, subst, true, none, some,
  List, ℤ, arith, ok, err, Ensures, Returns, length, count, take, Bool-cases, Option-cases, min,
}
use mathlib.Core.Path.{fun_ext}
use native.Mathlib.Decide.{dec_lt}
use ru_llm.Base.OrdMap
use ru_llm.Base.Word.{div_ceil, div_ceil_mono, div_mono}
use ru_llm.PagedKv.Types.{SequenceState, ReservationState, PagePool, Manager, Error}
use ru_llm.PagedKv.Pool.{available_pages}
use ru_llm.PagedKv.Pool.Invariant.{Inv, cached_at}
use ru_llm.PagedKv.Prefix.{register_prefix}
use ru_llm.PagedKv.Invariant.{
  ManagerInv, SequenceInv, ReservationInv, owed_by, owed_by-insert, count-le-owed_by, writable,
}
use ru_llm.PagedKv.Store.{store-Inv, stored}
use ru_llm.PagedKv.Finish.{count-take-drop, count-drop_mono}
use ru_llm.PagedKv.Publishing.{PublishesAll, publish_blocks_lem}

div-le-div_ceil : (a b : ℕ) → a / b ≤ div_ceil a b
unfolding div_ceil
div-le-div_ceil a b = ground arith

mul-div-le : (a b : ℕ) → 0 < b → (a / b) * b ≤ a
mul-div-le a b h = grind arith

-- The sequence behind the published blocks.
abbrev pub marked : SequenceState → ℕ → ℕ → SequenceState
marked q blocks hash = record q { registered_blocks = blocks; chain_hash = hash }

module _ (m : Manager) (v : ManagerInv m) (id : ℕ) (q : SequenceState)
    (found : OrdMap.lookup id m.sequences ≡ some q) (len : ℕ) where
  abbrev bs : ℕ
  bs = m.config.block_size

  -- The complete blocks that the call publishes.
  abbrev pub complete : ℕ
  complete = min q.committed_tokens len / m.config.block_size

  pages_reach : div_ceil q.committed_tokens m.config.block_size ≤ length q.pages
  pages_reach = elim (Option-cases q.pending) [
    | inl idle ↦ ground (arith, (v.each id q found).extent, idle)
    | inr (rid, waits) ↦
        let (r, held, own) = (v.each id q found).pending rid waits in
        let (x, owner, pending, start) = (v.reserved rid r held).owner in
        let same : x ≡ q = ground (arith, owner, own, found) in
        let begins : q.committed_tokens ≡ r.start_position = rw (sym same) start in
        ground (
          arith,
          (v.each id q found).extent,
          waits,
          held,
          begins,
          div_ceil_mono q.committed_tokens (r.start_position + r.token_count) m.config.block_size
              v.blocks,
        )
  ]

  complete-le : complete ≤ q.committed_tokens / m.config.block_size
  complete-le =
      div_mono (min q.committed_tokens len) q.committed_tokens m.config.block_size v.blocks
        (omega arith)

  pub complete_enough : complete ≤ length q.pages
  complete_enough =
      omega
        (arith, complete-le, pages_reach, div-le-div_ceil q.committed_tokens m.config.block_size)

  pub complete_tokens : complete * m.config.block_size ≤ min q.committed_tokens len
  complete_tokens = mul-div-le (min q.committed_tokens len) m.config.block_size v.blocks

  pub complete_held : (p : ℕ) → 0 < count p (take complete q.pages) → 0 < owed_by m.sequences p
  complete_held p h =
      omega (arith, count-take-drop complete p q.pages, count-le-owed_by id p q m.sequences found)

  module _ (u : PagePool) (hash : ℕ)
      (all : PublishesAll m.config.num_pages complete q.pages (owed_by m.sequences) m.pool u) where
    abbrev blocks : ℕ
    blocks = q.registered_blocks + (complete - q.registered_blocks)

    blocks-le : blocks * m.config.block_size ≤ q.committed_tokens
    blocks-le = elim (dec_lt q.registered_blocks complete) [
      | yes more ↦
          let is : blocks ≡ complete = omega arith in rw is (omega (arith, complete_tokens))
      | no none_new ↦
          let is : blocks ≡ q.registered_blocks = omega arith in
          rw is (v.each id q found).registered
    ]

    -- A page that becomes published belongs to a complete block of this sequence, and to no other.
    own_bare : (p : ℕ) → 0 < count p (writable m.config q) → cached_at u p ≡ none
    own_bare p w =
        let bare : cached_at m.pool p ≡ none = (v.each id q found).bare p w in
        elim (all.kept p bare) [
          | inl still ↦ still
          | inr published ↦ absurd (
              omega (
                arith,
                v.pool.exclusive p bare,
                count-le-owed_by id p q m.sequences found,
                count-take-drop complete p q.pages,
                count-drop_mono complete (q.committed_tokens / m.config.block_size) p q.pages
                    complete-le,
              ))
        ]

    other_bare :
        (j : ℕ) (x : SequenceState) (p : ℕ)
        → j ≢ id
        → OrdMap.lookup j m.sequences ≡ some x
        → 0 < count p (writable m.config x)
        → cached_at m.pool p ≡ none
        → cached_at u p ≡ none
    unfolding owed_by
    other_bare j x p other e w bare = elim (all.kept p bare) [
      | inl still ↦ still
      | inr published ↦ absurd (
          omega (
            arith,
            v.pool.exclusive p bare,
            count-take-drop complete p q.pages,
            count-take-drop (x.committed_tokens / m.config.block_size) p x.pages,
            OrdMap.two-le-total (λ (s : SequenceState). count p s.pages) j id x q m.sequences
                v.sequences_ordered other e found,
          ))
    ]

    same_owed :
        (p : ℕ)
        → owed_by m.sequences p ≡ owed_by (OrdMap.insert id (marked q blocks hash) m.sequences) p
    same_owed p =
        omega (
          arith,
          owed_by-insert id p q (marked q blocks hash) m.sequences v.sequences_ordered found,
        )

    marked_sequence : SequenceInv m.config u m.reservations id (marked q blocks hash)
    marked_sequence = record {
      capacity = (v.each id q found).capacity;
      registered = blocks-le;
      extent = (v.each id q found).extent;
      bare = own_bare;
      pending = (v.each id q found).pending;
    }

    marked_owner :
        (rid : ℕ) (r : ReservationState)
        → r.request_id ≡ id
        → OrdMap.lookup rid m.reservations ≡ some r
        → ReservationInv m.config
            (OrdMap.insert id (marked q blocks hash) m.sequences)
            m.next_reservation
            rid
            r
    marked_owner rid r same e =
        let old = v.reserved rid r e in
        let (x, owner, waits, start) = old.owner in
        let is : x ≡ q = ground (arith, owner, same, found) in
        record {
          fresh = old.fresh;
          owner = (
            marked q blocks hash,
            ground (arith, same, OrdMap.lookup-insert id id (marked q blocks hash) m.sequences),
            rw (sym is) waits,
            rw (sym is) start,
          );
          previous = old.previous;
          within = old.within;
          positive = old.positive;
        }

    pub marked-Inv :
        ManagerInv (stored m id (marked q blocks hash) u m.reservations m.next_reservation)
    marked-Inv =
        store-Inv m v id (marked q blocks hash) u m.reservations m.next_reservation
          (subst (λ f. Inv m.config.num_pages f (λ _. 0) u) (fun_ext same_owed) all.inv) other_bare
          marked_sequence v.reservations_ordered (omega arith) (λ rid r other. (λ h. h, λ h. h))
          marked_owner

-- What holds after `register_prefix` with `len` tokens: at most the number of published blocks and
-- the chain hash of the sequence have changed, beside the page fields.
pub record Registered (m : Manager) (id len : ℕ) (t : Manager) : Type 0 where
  pub inv : ManagerInv t
  pub tick : t.next_tick ≡ m.next_tick
  pub available : available_pages t.pool ≡ available_pages m.pool
  pub before :
      (t ≡ m)
      ⊎ ((q : SequenceState) × (hash : ℕ) × (OrdMap.lookup id m.sequences ≡ some q)
          × (t
              ≡ stored m id
                  (marked q
                    (q.registered_blocks
                      + (min q.committed_tokens len / m.config.block_size - q.registered_blocks))
                    hash)
                  t.pool
                  m.reservations
                  m.next_reservation))

module _ (chain : ℕ → List ℤ → ℕ) (m : Manager) (v : ManagerInv m) (id : ℕ) (tokens : List ℤ) where
  register_found :
      (q : SequenceState)
      → OrdMap.lookup id m.sequences ≡ some q
      → m.prefix_caching ≡ true
      → Returns (λ _ t. Registered m id (length tokens) t) (register_prefix chain id tokens m)
  unfolding register_prefix
  register_found q found on =
      let c : ℕ = complete m v id q found (length tokens) in
      let (hash, u, ran, all) =
        publish_blocks_lem chain m.config.num_pages m.config.block_size c tokens q.pages
          (owed_by m.sequences) (complete_held m v id q found (length tokens))
          (complete_enough m v id q found (length tokens))
          (omega (arith, complete_tokens m v id q found (length tokens))) (c - q.registered_blocks)
          q.registered_blocks q.chain_hash m.pool v.pool (λ l. omega arith) in
      (
        tt,
        stored m id (marked q (q.registered_blocks + (c - q.registered_blocks)) hash) u
            m.reservations m.next_reservation,
        ground (arith, on, found, ran),
        record {
          inv = marked-Inv m v id q found (length tokens) u hash all;
          tick = all.tick;
          available = all.available;
          before = inr (q, hash, found, refl);
        },
      )

  -- On a well-formed manager, publishing the complete blocks of a sequence never panics,
  -- whatever hash is used: it keeps the manager well formed, loses no available page and changes
  -- no sequence but in its number of published blocks and its hash, or the sequence is missing
  -- and nothing changes.
  pub register_prefix-Ensures :
      Ensures
        (λ _ t. Registered m id (length tokens) t)
        (λ e t. (t ≡ m) × (OrdMap.lookup id m.sequences ≡ none))
        (register_prefix chain id tokens m)
  unfolding register_prefix
  register_prefix-Ensures = elim (Bool-cases m.prefix_caching) [
    | inr off ↦
        let idle : register_prefix chain id tokens m ≡ ok tt m = ground (arith, off) in
        rw idle (record { inv = v; tick = refl; available = refl; before = inl refl })
    | inl on ↦ elim (Option-cases (OrdMap.lookup id m.sequences)) [
      | inl missing ↦
          let refused : register_prefix chain id tokens m ≡ err (Error.sequence_missing id) m =
            ground (arith, on, missing) in
          rw refused (refl, missing)
      | inr (q, found) ↦ let (_, t, ran, done) = register_found q found on in rw ran done
    ]
  ]
