-- ===== src/PagedKv/Ending.antt =====
-- `commit_append`, `commit_append_partial`, `cancel_append`: what they do on every branch.
use ru_llm.Base.{
  ℕ, zero, suc, ◌+◌, ◌≤◌, ◌<◌, ◌≡◌, ◌∙◌, refl, inl, inr, subst, ◌||◌, none, some, List, [], ◌∷◌,
  arith, ok, err, Ensures, length, count, take, drop, ◌==◌, ltb, Bool-cases, Option-cases,
  length-drop,
}
use mathlib.Core.Path.{fun_ext}
use ru_llm.Base.OrdMap
use ru_llm.Base.Word.{div_ceil}
use ru_llm.PagedKv.Types.{SequenceState, ReservationState, PagePool, Manager, Error}
use ru_llm.PagedKv.Pool.{release_pages, available_pages}
use ru_llm.PagedKv.Pool.Invariant.{Inv}
use ru_llm.PagedKv.Pool.Release.{release_pages_lem}
use ru_llm.PagedKv.Commit.{
  commit_append, cancel_append, commit_append_partial, validate_reservation,
}
use ru_llm.PagedKv.Invariant.{ManagerInv, owed_by}
use ru_llm.PagedKv.Finish.{
  finished, ended, HasTicks, finished-Inv, owed_by-ended, reserved_extent, pages-le, keep-le,
}

pub take_all {ℓ} : {A : Type ℓ} (k : ℕ) (xs : List A) → length xs ≤ k → take k xs ≡ xs
take_all zero [] h = refl
take_all zero (x ∷ xs) h = absurd (omega arith)
take_all (suc k) [] h = refl
take_all (suc k) (x ∷ xs) h = ground (arith, take_all k xs)

pub drop_all {ℓ} : {A : Type ℓ} (k : ℕ) (xs : List A) → length xs ≤ k → drop k xs ≡ []
drop_all zero [] h = refl
drop_all zero (x ∷ xs) h = absurd (omega arith)
drop_all (suc k) [] h = refl
drop_all (suc k) (x ∷ xs) h = drop_all k xs (omega arith)

no_more : (n : ℕ) → n + 0 ≡ n
no_more n = omega arith

-- What holds after the append `rid` has ended at `committed` tokens, of which the pages behind
-- are released.
pub record Ended (m : Manager) (rid committed : ℕ) (t : Manager) : Type 0 where
  pub inv : ManagerInv t
  pub before :
      (r : ReservationState) × (q : SequenceState) × (OrdMap.lookup rid m.reservations ≡ some r)
      × (OrdMap.lookup r.request_id m.sequences ≡ some q)
      × (t ≡ finished m rid r q committed (div_ceil committed m.config.block_size) t.pool)
  pub flag : t.prefix_caching ≡ m.prefix_caching
  pub ticks : t.next_tick ≤ m.next_tick + m.config.max_sequence_length
  pub available : available_pages m.pool ≤ available_pages t.pool

module _ (m : Manager) (v : ManagerInv m) (rid : ℕ) where
  -- A live reservation passes `validate_reservation`.
  module _ (r : ReservationState) (held : OrdMap.lookup rid m.reservations ≡ some r) where
    module _ (q : SequenceState) (found : OrdMap.lookup r.request_id m.sequences ≡ some q)
        (waits : q.pending ≡ some rid) (start : q.committed_tokens ≡ r.start_position) where
      -- The pages that a shorter end releases go back to the pool.
      pub release_behind :
          (committed : ℕ)
          → r.start_position ≤ committed
          → committed ≤ r.start_position + r.token_count
          → HasTicks m
          → let keep = div_ceil committed m.config.block_size in
            (u : PagePool) × (release_pages (drop keep q.pages) m.pool ≡ ok tt u)
            × Ended m rid committed (finished m rid r q committed keep u)
      release_behind committed low high room =
          let keep : ℕ = div_ceil committed m.config.block_size in
          let (u, run, pool_inv, kept, flag, tick, gain) =
            release_pages_lem m.config.num_pages (drop keep q.pages) (owed_by m.sequences)
              (owed_by (OrdMap.insert r.request_id (ended q committed keep) m.sequences)) (λ _. 0)
              m.pool v.pool
              (owed_by-ended m v rid r q held found waits start committed keep m.pool low high refl)
              (omega
                (arith, length-drop keep q.pages, pages-le m v rid r q held found waits start)) in
          (
            u,
            run,
            record {
              inv =
                  finished-Inv m v rid r q held found waits start committed keep u low high refl
                    pool_inv kept;
              before = (r, q, held, found, refl);
              flag = flag;
              ticks = omega (
                arith,
                tick,
                length-drop keep q.pages,
                pages-le m v rid r q held found waits start,
              );
              available = omega (arith, gain);
            },
          )

      pub validates : validate_reservation rid m ≡ ok tt m
      unfolding validate_reservation
      validates = ground (
        arith,
        v.short,
        (v.reserved rid r held).within,
        (v.reserved rid r held).previous,
        keep-le m v rid r q held found waits start r.start_position
            (div_ceil r.start_position m.config.block_size) m.pool (omega arith) (omega arith) refl,
      )

      cancel_run :
          (u : PagePool)
          → release_pages (drop (div_ceil r.start_position m.config.block_size) q.pages) m.pool
            ≡ ok tt u
          → cancel_append rid m
            ≡ ok tt (
                finished m rid r q r.start_position
                  (div_ceil r.start_position m.config.block_size)
                  u)
      unfolding cancel_append
      cancel_run u run = ground (
        arith,
        validates,
        run,
        (v.reserved rid r held).previous,
        keep-le m v rid r q held found waits start r.start_position
            (div_ceil r.start_position m.config.block_size) m.pool (omega arith) (omega arith) refl,
      )

      commit_run :
          commit_append rid m
          ≡ ok (r.start_position + r.token_count) (record m {
            sequences =
                OrdMap.insert r.request_id
                  (record q { committed_tokens = r.start_position + r.token_count; pending = none })
                  m.sequences;
            reservations = OrdMap.remove rid m.reservations;
          })
      unfolding commit_append
      commit_run = ground (arith, validates, v.short, (v.reserved rid r held).within)

      partial_run :
          (n : ℕ) (u : PagePool)
          → 0 < n
          → n ≤ r.token_count
          → release_pages
              (drop (div_ceil (r.start_position + n) m.config.block_size) q.pages)
              m.pool
            ≡ ok tt u
          → commit_append_partial rid n m
            ≡ ok (r.start_position + n) (
                finished m rid r q
                  (r.start_position + n)
                  (div_ceil (r.start_position + n) m.config.block_size)
                  u)
      unfolding commit_append_partial
      partial_run n u pos_n le run =
          let needed : ℕ = div_ceil (r.start_position + n) m.config.block_size in
          ground (
            arith,
            v.short,
            (v.reserved rid r held).within,
            commit_run,
            run,
            drop_all needed q.pages,
            take_all needed q.pages,
            OrdMap.lookup-insert r.request_id r.request_id
                (record q { committed_tokens = r.start_position + r.token_count; pending = none })
                m.sequences,
            OrdMap.insert-insert r.request_id
                (record q { committed_tokens = r.start_position + r.token_count; pending = none })
                (ended q (r.start_position + n) needed) m.sequences,
          )

      cancel_held :
          HasTicks m
          → (t : Manager) × (cancel_append rid m ≡ ok tt t) × Ended m rid r.start_position t
      unfolding cancel_append
      cancel_held room =
          let (u, run, done) = release_behind r.start_position (omega arith) (omega arith) room in
          (
            finished m rid r q r.start_position (div_ceil r.start_position m.config.block_size) u,
            cancel_run u run,
            done,
          )

      pub partial_held :
          (n : ℕ)
          → 0 < n
          → n ≤ r.token_count
          → HasTicks m
          → (t : Manager) × (commit_append_partial rid n m ≡ ok (r.start_position + n) t)
            × Ended m rid (r.start_position + n) t
      unfolding commit_append_partial
      partial_held n pos_n le room =
          let (u, run, done) =
            release_behind (r.start_position + n) (omega arith) (omega arith) room in
          (
            finished m rid r q (r.start_position + n)
                (div_ceil (r.start_position + n) m.config.block_size) u,
            partial_run n u pos_n le run,
            done,
          )

      commit_held :
          (t : Manager) × (commit_append rid m ≡ ok (r.start_position + r.token_count) t)
          × Ended m rid (r.start_position + r.token_count) t
      unfolding count
      commit_held =
          let end : ℕ = r.start_position + r.token_count in
          let keep : ℕ = div_ceil end m.config.block_size in
          let exact : length q.pages ≡ keep = reserved_extent m v rid r q held found waits start in
          let whole : take keep q.pages ≡ q.pages = take_all keep q.pages (omega arith) in
          let nothing : drop keep q.pages ≡ [] = drop_all keep q.pages (omega arith) in
          let pool_inv : Inv m.config.num_pages
              (owed_by (OrdMap.insert r.request_id (ended q end keep) m.sequences)) (λ _. 0)
              m.pool =
            subst (λ f. Inv m.config.num_pages f (λ _. 0) m.pool)
              (fun_ext (λ p.
                owed_by-ended m v rid r q held found waits start end keep m.pool (omega arith)
                  (omega arith) refl p
                ∙ rw nothing (no_more _)))
              v.pool in
          (
            finished m rid r q end keep m.pool,
            rw whole commit_run,
            record {
              inv =
                  finished-Inv m v rid r q held found waits start end keep m.pool (omega arith)
                    (omega arith) refl pool_inv (λ p h. h);
              before = (r, q, held, found, refl);
              flag = refl;
              ticks = omega arith;
              available = omega arith;
            },
          )

  -- Who holds a reservation.
  holder :
      (r : ReservationState)
      → OrdMap.lookup rid m.reservations ≡ some r
      → (q : SequenceState) × (OrdMap.lookup r.request_id m.sequences ≡ some q)
        × (q.pending ≡ some rid)
        × (q.committed_tokens ≡ r.start_position)
  holder r held = (v.reserved rid r held).owner

  -- On a well-formed manager with room in the LRU counter, cancelling never panics: it takes the
  -- append back and keeps the manager well formed, or the reservation is unknown and nothing
  -- changes.
  pub cancel_append-Ensures :
      HasTicks m
      → Ensures
          (λ _ t.
            (r : ReservationState) × (OrdMap.lookup rid m.reservations ≡ some r)
            × Ended m rid r.start_position t)
          (λ e t. (t ≡ m) × (OrdMap.lookup rid m.reservations ≡ none))
          (cancel_append rid m)
  unfolding cancel_append
  cancel_append-Ensures room = elim (Option-cases (OrdMap.lookup rid m.reservations)) [
    | inl missing ↦
        let refused : cancel_append rid m ≡ err (Error.reservation_missing rid) m = ground arith in
        rw refused (refl, missing)
    | inr (r, held) ↦
        let (q, found, waits, start) = holder r held in
        let (t, run, done) = cancel_held r held q found waits start room in rw run (r, held, done)
  ]

  -- On a well-formed manager, committing never panics: it ends the append at its full length and
  -- keeps the manager well formed, or the reservation is unknown and nothing changes.
  pub commit_append-Ensures :
      Ensures
        (λ end t.
          (r : ReservationState) × (OrdMap.lookup rid m.reservations ≡ some r)
          × (end ≡ r.start_position + r.token_count)
          × Ended m rid end t)
        (λ e t. (t ≡ m) × (OrdMap.lookup rid m.reservations ≡ none))
        (commit_append rid m)
  unfolding commit_append
  commit_append-Ensures = elim (Option-cases (OrdMap.lookup rid m.reservations)) [
    | inl missing ↦
        let refused : commit_append rid m ≡ err (Error.reservation_missing rid) m = ground arith in
        rw refused (refl, missing)
    | inr (r, held) ↦
        let (q, found, waits, start) = holder r held in
        let (t, run, done) = commit_held r held q found waits start in rw run (r, held, refl, done)
  ]

  -- On a well-formed manager with room in the LRU counter, a partial commit never panics: it
  -- ends the append behind its first `n` tokens and keeps the manager well formed, or nothing
  -- changes.
  pub commit_append_partial-Ensures :
      (n : ℕ)
      → HasTicks m
      → Ensures
          (λ end t.
            (r : ReservationState) × (OrdMap.lookup rid m.reservations ≡ some r)
            × (0 < n)
            × (n ≤ r.token_count)
            × (end ≡ r.start_position + n)
            × Ended m rid end t)
          (λ e t. t ≡ m)
          (commit_append_partial rid n m)
  unfolding commit_append_partial
  commit_append_partial-Ensures n room = elim (Option-cases (OrdMap.lookup rid m.reservations)) [
    | inl missing ↦
        let refused : commit_append_partial rid n m ≡ err (Error.reservation_missing rid) m =
          ground arith in
        rw refused refl
    | inr (r, held) ↦ elim (Bool-cases (n == 0 || ltb r.token_count n)) [
      | inl outside ↦
          let refused : commit_append_partial rid n m
              ≡ err (Error.partial_outside n r.token_count) m =
            ground arith in
          rw refused refl
      | inr inside ↦
          let (q, found, waits, start) = holder r held in
          let range : (0 < n) × (n ≤ r.token_count) = ground arith in
          let (t, run, done) = partial_held r held q found waits start n range.0 range.1 room in
          rw run (r, held, range.0, range.1, refl, done)
    ]
  ]
