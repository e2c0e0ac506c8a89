-- ===== src/PagedKv/RoundTrip.antt =====
-- `begin_append` taken back by `cancel_append`.
use ru_llm.Base.{
  ℕ, ◌≡◌, ◌∙◌, refl, ap, sym, inl, inr, subst, none, some, List, [], ◌∷◌, ◌++◌, arith, ok, Ensures,
  Returns, Returns-of_Ensures, length, take, Option-cases,
}
use ru_llm.Base.OrdMap
use ru_llm.Base.Word.{div_ceil}
use ru_llm.PagedKv.Types.{SequenceState, Manager, AppendReservation, PagePool}
use ru_llm.PagedKv.Pool.{available_pages}
use ru_llm.PagedKv.Manager.{begin_append}
use ru_llm.PagedKv.Commit.{cancel_append}
use ru_llm.PagedKv.Invariant.{ManagerInv}
use ru_llm.PagedKv.Begin.{Begun, begin_append-Ensures, begun, grown, opened}
use ru_llm.PagedKv.Finish.{HasTicks, ended}
use ru_llm.PagedKv.Ending.{Ended, cancel_append-Ensures}
use ru_llm.PagedKv.Sharing.{allocated_page_count-held_pages, held_pages}

take-append {ℓ} : {A : Type ℓ} (xs ys : List A) → take (length xs) (xs ++ ys) ≡ xs
take-append [] ys = refl
take-append (x ∷ xs) ys = ap (λ t. x ∷ t) (take-append xs ys)

-- The two managers agree on all but the order of the free pages and the LRU ticks.
pub record Restored (m u : Manager) : Type 0 where
  pub config : u.config ≡ m.config
  pub sequences : u.sequences ≡ m.sequences
  pub reservations : u.reservations ≡ m.reservations
  pub available : available_pages u.pool ≡ available_pages m.pool

same_available :
    (m u : Manager)
    → ManagerInv m
    → ManagerInv u
    → u.config ≡ m.config
    → u.sequences ≡ m.sequences
    → available_pages u.pool ≡ available_pages m.pool
unfolding held_pages
same_available m u v w c s =
    let held : held_pages u ≡ held_pages m = rw (c, s) refl in
    let pages : u.config.num_pages ≡ m.config.num_pages = cc c in
    omega (
      arith,
      held,
      pages,
      (allocated_page_count-held_pages m v).0,
      (allocated_page_count-held_pages u w).0,
    )

module _ (m : Manager) (v : ManagerInv m) (id n : ℕ) (q : SequenceState) (ps : List ℕ)
    (found : OrdMap.lookup id m.sequences ≡ some q) (idle : q.pending ≡ none) where
  no_reservation : OrdMap.lookup m.next_reservation m.reservations ≡ none
  no_reservation = elim (Option-cases (OrdMap.lookup m.next_reservation m.reservations)) [
    | inl missing ↦ missing
    | inr (r, held) ↦ absurd (omega (arith, (v.reserved m.next_reservation r held).fresh))
  ]

  ended-grown :
      ended
        (grown q ps m.next_reservation)
        q.committed_tokens
        (div_ceil q.committed_tokens m.config.block_size)
      ≡ q
  ended-grown =
      let extent : length q.pages ≡ div_ceil q.committed_tokens m.config.block_size =
        ground (arith, (v.each id q found).extent, idle) in
      let pages : take (div_ceil q.committed_tokens m.config.block_size) (q.pages ++ ps) ≡ q.pages =
        rw (sym extent) (take-append q.pages ps) in
      grind (arith, pages, idle)

  sequences_back :
      OrdMap.insert id
        (ended
          (grown q ps m.next_reservation)
          q.committed_tokens
          (div_ceil q.committed_tokens m.config.block_size))
        (OrdMap.insert id (grown q ps m.next_reservation) m.sequences)
      ≡ m.sequences
  sequences_back =
      OrdMap.insert-insert id (grown q ps m.next_reservation) _ m.sequences
      ∙ ap (λ x. OrdMap.insert id x m.sequences) ended-grown
      ∙ OrdMap.insert-lookup id q m.sequences v.sequences_ordered found

  restored :
      (t : Manager) (u : Manager) (p : PagePool)
      → t ≡ begun m id q n ps p
      → Ended t m.next_reservation q.committed_tokens u
      → Restored m u
  restored t u p e done =
      let (r, x, held, owner, after) = done.before in
      let is_opened : r ≡ opened id q n = ground (
        arith,
        e,
        held,
        OrdMap.lookup-insert m.next_reservation m.next_reservation (opened id q n) m.reservations,
      ) in
      let is_grown : x ≡ grown q ps m.next_reservation = ground (
        arith,
        e,
        owner,
        is_opened,
        OrdMap.lookup-insert id id (grown q ps m.next_reservation) m.sequences,
      ) in
      let sequences : u.sequences ≡ m.sequences =
        cc (after, e, is_opened, is_grown, sequences_back) in
      let config : u.config ≡ m.config = cc (after, e) in
      record {
        config = config;
        sequences = sequences;
        reservations = cc (
          after,
          e,
          OrdMap.remove-insert m.next_reservation (opened id q n) m.reservations no_reservation,
        );
        available = same_available m u v done.inv config sequences;
      }

module _ (m : Manager) (v : ManagerInv m) (id n : ℕ) (r : AppendReservation) (t : Manager) where
  opened_at :
      Begun m id n r t
      → (q : SequenceState) → t ≡ begun m id q n r.newly_allocated_pages t.pool
      → OrdMap.lookup r.id t.reservations ≡ some (opened id q n)
  opened_at b q e = ground (
    arith,
    e,
    b.named,
    OrdMap.lookup-insert m.next_reservation m.next_reservation (opened id q n) m.reservations,
  )

  -- Cancelling the append that `begin_append` has just opened on a well-formed manager succeeds
  -- while the LRU counter has room, and gives back the configuration, the sequences, the
  -- reservations and the number of available pages from before it.
  pub begin_append-cancel_append :
      begin_append id n m ≡ ok r t
      → HasTicks t
      → Returns (λ _ u. ManagerInv u × Restored m u) (cancel_append r.id t)
  begin_append-cancel_append run room =
      let b : Begun m id n r t =
        subst (Ensures (Begun m id n) (λ e t. t ≡ m)) run (begin_append-Ensures m v id n) in
      let (q, found, idle, made, start, table) = b.before in
      let here : OrdMap.lookup r.id t.reservations ≡ some (opened id q n) = opened_at b q made in
      let (_, u, ran, cancelled) =
        Returns-of_Ensures _ _ (cancel_append r.id t) (cancel_append-Ensures t b.inv r.id room)
          (λ e s (same, missing). absurd (cc (missing, here))) in
      let (x, held, done) = cancelled in
      let is_opened : x ≡ opened id q n = cc (held, here) in
      let back : x.start_position ≡ q.committed_tokens = cc is_opened in
      (
        tt,
        u,
        ran,
        (
          done.inv,
          restored m v id n q r.newly_allocated_pages found idle t u t.pool made (
              subst (λ c. Ended t m.next_reservation c u) back
                (subst (λ i. Ended t i x.start_position u) b.named.0 done)),
        ),
      )
