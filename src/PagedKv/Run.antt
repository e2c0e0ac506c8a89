-- ===== src/PagedKv/Run.antt =====
-- Runs of calls of the manager of paged_kv.rs, with the caller going on behind an error.
use ru_llm.Base.{
  ℕ, suc, ◌+◌, ◌*◌, ◌≤◌, ◌<◌, ◌≡◌, refl, Bool, Option, none, some, List, [], ◌∷◌, arith, ok, err,
  panic, Outcome, Ensures, Ensures-weaken, length,
}
use ru_llm.Base.Word.{u64_mod}
use ru_llm.PagedKv.Types.{Manager, Error}
use ru_llm.PagedKv.Pool.{set_prefix_caching}
use ru_llm.PagedKv.Manager.{on_pool, create_sequence, begin_append}
use ru_llm.PagedKv.Commit.{commit_append, commit_append_partial, cancel_append, remove_sequence}
use ru_llm.PagedKv.Invariant.{ManagerInv}
use ru_llm.PagedKv.Finish.{HasTicks}
use ru_llm.PagedKv.Begin.{begin_append-Ensures}
use ru_llm.PagedKv.Ending.{
  Ended, commit_append-Ensures, commit_append_partial-Ensures, cancel_append-Ensures,
}
use ru_llm.PagedKv.Lifecycle.{create_sequence-Ensures, remove_sequence-Ensures}
use ru_llm.PagedKv.Switch.{set_prefix_caching-Returns}

pub data Call : Type 0 where
  create : ℕ → Call
  begin : ℕ → ℕ → Call
  commit : ℕ → Call
  commit_partial : ℕ → ℕ → Call
  cancel : ℕ → Call
  remove : ℕ → Call
  switch : Bool → Call

-- The manager after a call, whatever it returned; none if it panicked.
abbrev pub after {ℓ} : {A : Type ℓ} → Outcome Manager Error A → Option Manager
after (ok a t) = some t
after (err e t) = some t
after panic = none

unfoldable pub perform : Call → Manager → Option Manager
perform (create id) m = after (create_sequence id m)
perform (begin id n) m = after (begin_append id n m)
perform (commit rid) m = after (commit_append rid m)
perform (commit_partial rid n) m = after (commit_append_partial rid n m)
perform (cancel rid) m = after (cancel_append rid m)
perform (remove id) m = after (remove_sequence id m)
perform (switch enabled) m = after (on_pool (set_prefix_caching enabled) m)

unfoldable pub run : List Call → Manager → Option Manager
run [] m = some m
run (c ∷ cs) m = elim (perform c m) [ none ↦ none | some t ↦ run cs t ]

-- What one call keeps.
pub record Kept (m t : Manager) : Type 0 where
  pub inv : ManagerInv t
  pub config : t.config ≡ m.config
  pub ticks : t.next_tick ≤ m.next_tick + m.config.max_sequence_length

unchanged : (m t : Manager) → ManagerInv m → t ≡ m → Kept m t
unchanged m t v same = rw same (record { inv = v; config = refl; ticks = omega arith })

after-Ensures {ℓ} :
    {A : Type ℓ} (m : Manager) (r : Outcome Manager Error A)
    → Ensures (λ _ t. Kept m t) (λ _ t. Kept m t) r
    → (t : Manager) × (after r ≡ some t) × Kept m t
after-Ensures m (ok a t) h = (t, refl, h)
after-Ensures m (err e t) h = (t, refl, h)
after-Ensures m panic h = absurd h

Ended-Kept : (m : Manager) (rid end : ℕ) (t : Manager) → Ended m rid end t → Kept m t
Ended-Kept m rid end t done =
    let (r, q, held, found, made) = done.before in
    record { inv = done.inv; config = cc made; ticks = done.ticks }

perform-Kept :
    (c : Call) (m : Manager)
    → ManagerInv m
    → HasTicks m
    → (t : Manager) × (perform c m ≡ some t) × Kept m t
unfolding perform
perform-Kept (create id) m v room = after-Ensures m (create_sequence id m) (
    Ensures-weaken _ _ _ _ (create_sequence id m) (create_sequence-Ensures m v id)
      (λ _ t (inv, made, absent). record {
        inv = inv;
        config = cc made;
        ticks = rw made (omega arith);
      })
      (λ _ t (same, there). unchanged m t v same))
perform-Kept (begin id n) m v room = after-Ensures m (begin_append id n m) (
    Ensures-weaken _ _ _ _ (begin_append id n m) (begin_append-Ensures m v id n)
      (λ r t b.
        let (q, found, idle, made, start, table) = b.before in
        record { inv = b.inv; config = cc made; ticks = omega (arith, b.ticks) })
      (λ _ t same. unchanged m t v same))
perform-Kept (commit rid) m v room = after-Ensures m (commit_append rid m) (
    Ensures-weaken _ _ _ _ (commit_append rid m) (commit_append-Ensures m v rid)
      (λ end t (r, held, at, done). Ended-Kept m rid end t done)
      (λ _ t (same, missing). unchanged m t v same))
perform-Kept (commit_partial rid n) m v room = after-Ensures m (commit_append_partial rid n m) (
    Ensures-weaken _ _ _ _ (commit_append_partial rid n m)
      (commit_append_partial-Ensures m v rid n room)
      (λ end t (r, held, low, high, at, done). Ended-Kept m rid end t done)
      (λ _ t same. unchanged m t v same))
perform-Kept (cancel rid) m v room = after-Ensures m (cancel_append rid m) (
    Ensures-weaken _ _ _ _ (cancel_append rid m) (cancel_append-Ensures m v rid room)
      (λ _ t (r, held, done). Ended-Kept m rid r.start_position t done)
      (λ _ t (same, missing). unchanged m t v same))
perform-Kept (remove id) m v room = after-Ensures m (remove_sequence id m) (
    Ensures-weaken _ _ _ _ (remove_sequence id m) (remove_sequence-Ensures m v id room)
      (λ _ t done.
        let (q, found, idle, made) = done.before in
        record { inv = done.inv; config = cc made; ticks = done.ticks })
      (λ _ t same. unchanged m t v same))
perform-Kept (switch enabled) m v room =
    let (_, t, ran, rest) = set_prefix_caching-Returns m v enabled in
    let (inv, made, switched, available, tick) = rest in
    (t, cc ran, record { inv = inv; config = cc made; ticks = omega (arith, tick) })

-- The room that one call leaves for the rest.
pub room_left :
    (k tick tick' size size' : ℕ)
    → tick + suc k * size < u64_mod
    → tick' ≤ tick + size
    → size' ≡ size
    → tick' + k * size' < u64_mod
room_left k tick tick' size size' room step same = rw same (grind arith)

-- No list of creations, appends, commits, cancels, removals and switches on a well-formed
-- manager panics, whatever the calls return, and it leaves the manager well formed, as long as
-- the LRU counter has room for the pages that the calls can release.
pub run-Inv :
    (cs : List Call) (m : Manager)
    → ManagerInv m
    → m.next_tick + length cs * m.config.max_sequence_length < u64_mod
    → (t : Manager) × (run cs m ≡ some t) × ManagerInv t × (t.config ≡ m.config)
unfolding run
run-Inv [] m v room = (m, refl, v, refl)
run-Inv (c ∷ cs) m v room =
    let (t, ran, kept) = perform-Kept c m v (grind arith) in
    let same : t.config.max_sequence_length ≡ m.config.max_sequence_length = cc kept.config in
    let (u, rest, inv, config) = run-Inv cs t kept.inv (
      room_left (length cs) m.next_tick t.next_tick m.config.max_sequence_length
        t.config.max_sequence_length room kept.ticks same) in
    (u, cc (ran, rest), inv, cc (config, kept.config))
