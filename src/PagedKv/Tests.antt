-- ===== src/PagedKv/Tests.antt =====
-- Runs of the manager of paged_kv.rs at concrete inputs, and the theorems at such inputs.
use ru_llm.Base.{
  ℤ, pos, length, subst, List, ℕ, ◌≡◌, none, some, [], ◌∷◌, arith, ok, false, Ensures, for_each,
  count, ◌⊎◌, ◌≤◌, ◌<◌, ◌+◌, ◌↔◌, true, Returns,
}
use ru_llm.Base.OrdMap
use ru_llm.Base.Word.{div_ceil, u32_mod}
use ru_llm.PagedKv.Types.{SequenceState, ReservationState, Manager}
use ru_llm.PagedKv.Pool.{allocate_pages, release_page, new_pool, available_pages}
use ru_llm.PagedKv.Manager.{new, create_sequence, begin_append, reserve, empty_sequence}
use ru_llm.PagedKv.Commit.{commit_append, commit_append_partial, cancel_append, remove_sequence}
use ru_llm.PagedKv.Invariant.{ManagerInv}
use ru_llm.PagedKv.Manager.{allocated_page_count}
use ru_llm.PagedKv.Exclusive.{HasOwnPages, begin_append-IsExclusive}
use ru_llm.PagedKv.Admission.{can_append-begin_append}
use ru_llm.PagedKv.RoundTrip.{begin_append-cancel_append, Restored}
use ru_llm.PagedKv.Switch.{set_prefix_caching-Returns}
use ru_llm.PagedKv.Pool.Flush.{PoolSwitched}
use ru_llm.PagedKv.Pool.{set_prefix_caching}
use ru_llm.PagedKv.Manager.{on_pool, can_append}
use ru_llm.PagedKv.Run.{Call, create, begin, commit_partial, cancel, remove, switch, run, run-Inv}
use ru_llm.PagedKv.Register.{Registered, register_prefix-Ensures}
use ru_llm.PagedKv.Prefix.{register_prefix}
use ru_llm.PagedKv.Reuse.{Reused, create_sequence_with_prefix-Ensures}
use ru_llm.PagedKv.Invariant.{owed_by}
use ru_llm.PagedKv.Prefix.{create_sequence_with_prefix}
use ru_llm.PagedKv.Types.{BlockKey}
use ru_llm.PagedKv.Manager.{chain_root}
use ru_llm.PagedKv.Prefix.{publish, publish_blocks}
use ru_llm.Base.HashMap
use ru_llm.PagedKv.Sharing.{held_pages, allocated_page_count-held_pages}
use ru_llm.PagedKv.Begin.{Begun, begin_append-Ensures}
use ru_llm.PagedKv.Ending.{
  Ended, commit_append-Ensures, commit_append_partial-Ensures, cancel_append-Ensures,
}
use ru_llm.PagedKv.Lifecycle.{
  Removed, new-Ensures, create_sequence-Ensures, remove_sequence-Ensures,
}
use ru_llm.PagedKv.Samples.{
  small, empty, empty-Inv, created, created-Inv, reservation, appending, appending-Inv, begin_run,
}

program : Unit {0}
unfolding new_pool create_sequence begin_append reserve allocate_pages commit_append
    commit_append_partial cancel_append remove_sequence release_page for_each div_ceil new
    OrdMap.lookup OrdMap.insert OrdMap.remove OrdMap.insert_key OrdMap.has_key
program = tt

begin_append-Ensures_example :
    Ensures (Begun created 7 3) (λ e t. t ≡ created) (begin_append 7 3 created)
begin_append-Ensures_example = begin_append-Ensures created created-Inv 7 3

new-Ensures_example :
    Ensures {S = Unit {0}}
      (λ m _. ManagerInv m × (m.config ≡ small) × (available_pages m.pool ≡ 3))
      (λ e _.
        (small.block_size ≡ 0)
        ⊎ (small.num_pages ≡ 0)
        ⊎ (small.max_sequence_length ≡ 0)
        ⊎ (u32_mod ≤ small.num_pages))
      (new small tt)
new-Ensures_example = new-Ensures small (omega arith)

create_sequence-Ensures_example :
    Ensures
      (λ _ t.
        ManagerInv t
        × (t ≡ record empty { sequences = OrdMap.insert 7 empty_sequence empty.sequences })
        × (OrdMap.lookup 7 empty.sequences ≡ none))
      (λ e t. (t ≡ empty) × ((q : SequenceState) × (OrdMap.lookup 7 empty.sequences ≡ some q)))
      (create_sequence 7 empty)
create_sequence-Ensures_example = create_sequence-Ensures empty empty-Inv 7

remove_sequence-Ensures_example :
    Ensures (λ _ t. Removed created 7 t) (λ e t. t ≡ created) (remove_sequence 7 created)
unfolding new_pool
remove_sequence-Ensures_example = remove_sequence-Ensures created created-Inv 7 (omega arith)

commit_append-Ensures_example :
    Ensures
      (λ end t.
        (r : ReservationState) × (OrdMap.lookup 1 appending.reservations ≡ some r)
        × (end ≡ r.start_position + r.token_count)
        × Ended appending 1 end t)
      (λ e t. (t ≡ appending) × (OrdMap.lookup 1 appending.reservations ≡ none))
      (commit_append 1 appending)
commit_append-Ensures_example = commit_append-Ensures appending appending-Inv 1

commit_append_partial-Ensures_example :
    Ensures
      (λ end t.
        (r : ReservationState) × (OrdMap.lookup 1 appending.reservations ≡ some r)
        × (0 < 2)
        × (2 ≤ r.token_count)
        × (end ≡ r.start_position + 2)
        × Ended appending 1 end t)
      (λ e t. t ≡ appending)
      (commit_append_partial 1 2 appending)
unfolding new_pool
commit_append_partial-Ensures_example =
    commit_append_partial-Ensures appending appending-Inv 1 2 (omega arith)

cancel_append-Ensures_example :
    Ensures
      (λ _ t.
        (r : ReservationState) × (OrdMap.lookup 1 appending.reservations ≡ some r)
        × Ended appending 1 r.start_position t)
      (λ e t. (t ≡ appending) × (OrdMap.lookup 1 appending.reservations ≡ none))
      (cancel_append 1 appending)
unfolding new_pool
cancel_append-Ensures_example = cancel_append-Ensures appending appending-Inv 1 (omega arith)

begin_append-IsExclusive_example :
    Ensures (HasOwnPages created created-Inv 7 3) (λ e t. t ≡ created) (begin_append 7 3 created)
begin_append-IsExclusive_example = begin_append-IsExclusive created created-Inv 7 3

allocated_page_count-held_pages_example :
    (available_pages appending.pool + held_pages appending ≡ 3)
    × (allocated_page_count appending ≡ held_pages appending)
allocated_page_count-held_pages_example = allocated_page_count-held_pages appending appending-Inv

can_append-begin_append_example :
    (can_append 7 3 created ≡ ok true created)
    ↔ Returns (Begun created 7 3) (begin_append 7 3 created)
unfolding new_pool
can_append-begin_append_example = can_append-begin_append created created-Inv 7 3 (omega arith)

begin_append-cancel_append_example :
    Returns (λ _ u. ManagerInv u × Restored created u) (cancel_append reservation.id appending)
unfolding new_pool
begin_append-cancel_append_example =
    begin_append-cancel_append created created-Inv 7 3 reservation appending begin_run (omega arith)

set_prefix_caching-Returns_example :
    Returns
      (λ _ t.
        ManagerInv t
        × (t ≡ record appending { pool = t.pool })
        × PoolSwitched false appending.pool t.pool
        × (available_pages t.pool ≡ available_pages appending.pool)
        × (t.next_tick ≡ appending.next_tick))
      (on_pool (set_prefix_caching false) appending)
set_prefix_caching-Returns_example = set_prefix_caching-Returns appending appending-Inv false

-- A run with two sequences, an error, a partial commit, a cancel and a removal.
abbrev calls : List Call
calls =
    begin 8 1 ∷ create 8 ∷ begin 8 2 ∷ commit_partial 1 1 ∷ cancel 2 ∷ remove 8 ∷ switch true ∷ []

run-Inv_example : (t : Manager) × (run calls appending ≡ some t) × ManagerInv t × (t.config ≡ small)
unfolding new_pool
run-Inv_example = run-Inv calls appending appending-Inv (omega arith)

-- After `commit_append(1)`, with the prefix cache switched on.
abbrev committed : Manager
committed = record appending {
  sequences = (7, record empty_sequence { pages = 0 ∷ 1 ∷ []; committed_tokens = 3 }) ∷ [];
  reservations = [];
}

committed-Inv : ManagerInv committed
unfolding program
committed-Inv =
    let step : (r : ReservationState) × (OrdMap.lookup 1 appending.reservations ≡ some r)
        × (3 ≡ r.start_position + r.token_count)
        × Ended appending 1 3 committed =
      commit_append-Ensures appending appending-Inv 1 in
    let (r, held, at, done) = step in done.inv

abbrev caching : Manager
caching = record committed { pool = record committed.pool { prefix_caching = true } }

caching-Inv : ManagerInv caching
unfolding set_prefix_caching
caching-Inv =
    let (_, t, ran, rest) = set_prefix_caching-Returns committed committed-Inv true in
    let (inv, made, switched, available, tick) = rest in
    let is : t ≡ caching = cc ran in subst ManagerInv is inv

abbrev prompt : List ℤ
prompt = pos 5 ∷ pos 6 ∷ pos 7 ∷ []

register_prefix-Ensures_example :
    Ensures
      (λ _ t. Registered caching 7 3 t)
      (λ e t. (t ≡ caching) × (OrdMap.lookup 7 caching.sequences ≡ none))
      (register_prefix (λ parent xs. parent + length xs) 7 prompt caching)
register_prefix-Ensures_example =
    register_prefix-Ensures (λ parent xs. parent + length xs) caching caching-Inv 7 prompt

-- After `register_prefix(7, [5, 6, 7])`.
abbrev hash : ℕ → List ℤ → ℕ
hash parent xs = parent + length xs

abbrev first_block : BlockKey
first_block = record { parent = chain_root; tokens = pos 5 ∷ pos 6 ∷ [] }

abbrev registered : Manager
registered = record caching {
  pool = record caching.pool {
    page_blocks = some (record { key = first_block; lru_tick = none }) ∷ none ∷ none ∷ [];
    block_index = (first_block, 0) ∷ [];
  };
  sequences =
      (
        7,
        record empty_sequence {
          pages = 0 ∷ 1 ∷ [];
          committed_tokens = 3;
          registered_blocks = 1;
          chain_hash = chain_root + 2;
        },
      )
      ∷ [];
}

registered-Inv : ManagerInv registered
unfolding register_prefix publish_blocks publish new_pool HashMap.lookup HashMap.insert
    OrdMap.insert OrdMap.lookup
registered-Inv =
    let step : Registered caching 7 3 registered =
      register_prefix-Ensures hash caching caching-Inv 7 prompt in
    step.inv

registered_room : (p : ℕ) → owed_by registered.sequences p + 3 < u32_mod
unfolding owed_by OrdMap.total count
registered_room p = ground arith

create_sequence_with_prefix-Ensures_example :
    Ensures
      (λ matched t. Reused registered 8 3 matched t)
      (λ e t.
        (t ≡ registered) × ((q : SequenceState) × (OrdMap.lookup 8 registered.sequences ≡ some q)))
      (create_sequence_with_prefix hash 8 prompt registered)
create_sequence_with_prefix-Ensures_example =
    create_sequence_with_prefix-Ensures hash registered registered-Inv 8 prompt (omega arith)
      (omega arith) registered_room
