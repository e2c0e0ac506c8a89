-- ===== src/Batch/Greedy/Steps.antt =====
-- What the cache does for one row of a verification batch (`complete_verify_batch` of
-- continuous_batch.rs): a partial commit, the publication of complete blocks and the removal.
use ru_llm.Base.{
  ℕ, ◌+◌, ◌-◌, ◌<◌, ◌≤◌, ◌≡◌, ◌/◌, min, count, ◌∙◌, refl, inl, inr, none, some, List, [], ℤ, arith,
  length, ok, err, Outcome, panic, Ensures,
}
use ru_llm.Base.OrdMap
use ru_llm.Base.Word.{u64_mod}
use ru_llm.PagedKv.Types.{SequenceState, ReservationState, Manager, Error}
use ru_llm.PagedKv.Commit.{commit_append_partial, remove_sequence}
use ru_llm.PagedKv.Prefix.{register_prefix}
use ru_llm.PagedKv.Invariant.{ManagerInv}
use ru_llm.PagedKv.Ending.{partial_held}
use ru_llm.PagedKv.Groups.Ends.{HasTicksFor, ended_at, first_idle, config_after}
use ru_llm.PagedKv.Register.{Registered, marked, register_prefix-Ensures}
use ru_llm.PagedKv.Lifecycle.{remove_run}

-- The sequence keeps its entry, without a pending append, when its blocks are published.
record Published (chain : ℕ → List ℤ → ℕ) (t : Manager) (id : ℕ) (tokens : List ℤ) (u : Manager)
    : Type 0 where
  pub run : register_prefix chain id tokens t ≡ ok tt u
  pub inv : ManagerInv u
  pub tick : u.next_tick ≡ t.next_tick
  pub config : u.config ≡ t.config
  pub idle : (q : SequenceState) × (OrdMap.lookup id u.sequences ≡ some q) × (q.pending ≡ none)

registered_idle :
    (chain : ℕ → List ℤ → ℕ) (t : Manager) (q : SequenceState) (id : ℕ) (tokens : List ℤ)
    → ManagerInv t
    → OrdMap.lookup id t.sequences ≡ some q
    → q.pending ≡ none
    → (u : Manager) × Published chain t id tokens u
registered_idle chain t q id tokens w found idle =
    go (register_prefix chain id tokens t) refl (register_prefix-Ensures chain t w id tokens)
  where
    go :
        (o : Outcome Manager Error (Unit {0}))
        → register_prefix chain id tokens t ≡ o
        → Ensures
            (λ _ u. Registered t id (length tokens) u)
            (λ e u. (u ≡ t) × (OrdMap.lookup id t.sequences ≡ none))
            o
        → (u : Manager) × Published chain t id tokens u
    go (ok _ u) run done = (
      u,
      record {
        run = run;
        inv = done.inv;
        tick = done.tick;
        config = elim done.before [ inl same ↦ cc same | inr (q0, hash, found0, made) ↦ cc made ];
        idle = elim done.before [
          | inl same ↦ (q, rw same found, idle)
          | inr (q0, hash, found0, made) ↦
              let same : q0 ≡ q = ground (arith, found, found0) in
              let q1 : SequenceState =
                marked q0
                  (q0.registered_blocks
                    + (min q0.committed_tokens (length tokens) / t.config.block_size
                        - q0.registered_blocks))
                  hash in
              (q1, rw made (OrdMap.lookup-insert id id q1 t.sequences ∙ ground arith), rw same idle)
        ];
      },
    )
    go (err e u) run (same, missing) = absurd (cc (missing, found))
    go panic run never = absurd never

module _ (chain : ℕ → List ℤ → ℕ) (m : Manager) (v : ManagerInv m) (rid : ℕ) (r : ReservationState)
    (held : OrdMap.lookup rid m.reservations ≡ some r) where
  -- What the cache does for one row: the end of the append, the publication of the complete blocks,
  -- and the removal of the sequence if the request is done.
  pub row_steps :
      (n : ℕ) (tokens : List ℤ)
      → 0 < n
      → n ≤ r.token_count
      → HasTicksFor 2 m
      → (t u w : Manager) × (commit_append_partial rid n m ≡ ok (r.start_position + n) t)
        × (register_prefix chain r.request_id tokens t ≡ ok tt u)
        × ManagerInv u
        × (remove_sequence r.request_id u ≡ ok tt w)
        × ManagerInv w
  unfolding count
  row_steps n tokens some_kept few room =
      let (q, found, waits, start) = (v.reserved rid r held).owner in
      let (t, run, done) =
        partial_held m v rid r held q found waits start n some_kept few (omega (arith, room)) in
      let end_of : ℕ → ReservationState → ℕ = λ i x. x.start_position + n in
      let (q0, before, at) = first_idle end_of m v rid [] r held refl t done in
      let (u, reg) =
        registered_idle chain t (ended_at m (r.start_position + n) q0) r.request_id tokens done.inv
          at refl in
      let (q1, found1, idle1) = reg.idle in
      let config : u.config ≡ m.config =
        reg.config ∙ config_after end_of m v rid [] r held refl t done in
      let space : u.next_tick + u.config.max_sequence_length < u64_mod =
        rw (config, reg.tick) (omega (arith, room, done.ticks)) in
      let (p, removes, removed) = remove_run u reg.inv r.request_id q1 found1 idle1 space in
      (t, u, _, run, reg.run, reg.inv, removes, removed.inv)
