-- ===== src/Runtime/Budget.antt =====
-- `MemoryBudget` of runtime/memory.rs: a limit shared by reservations that give their bytes back
-- when they are dropped.
use ru_llm.Base.{
  ℕ, zero, suc, ◌+◌, ◌-◌, ◌≤◌, ◌<◌, ◌≡◌, ◌⊎◌, refl, inl, inr, true, false, Bool, Option, none, some,
  List, [], ◌∷◌, arith, max, if◌then◌else◌, ltb, leb, ◌==◌, get_elem?, Action, Outcome, ok, err,
  panic, ◌>>=◌, ◌>>◌, pure, gets, modify, or_fail, reject_if, Ensures, Ensures-weaken, Bool-cases,
}
use ru_llm.Base.Word.{u64_mod, checked_add, checked_sub}
use ru_llm.Runtime.Errors.{RuntimeError, RuntimeErrorKind, Message, invalid}
use ru_llm.Runtime.Memory.{out_of_memory}

-- `BudgetState` behind its mutex.
pub record MemoryBudget : Type 0 where
  pub limit : ℕ
  pub reserved : ℕ
  pub peak : ℕ
  pub poisoned : Bool

pub record MemoryBudgetSnapshot : Type 0 where
  pub limit : ℕ
  pub reserved : ℕ
  pub peak : ℕ

-- What a caller holds; the shared state is the budget itself.
pub record MemoryReservation : Type 0 where
  pub bytes : ℕ

abbrev pub BudgetAction : Type 0 → Type 0
BudgetAction A = Action MemoryBudget RuntimeError A

-- `checked_sub(..).filter(|&n| n > 0)`.
abbrev pub positive_difference : ℕ → ℕ → Option ℕ
positive_difference a b = elim (checked_sub a b) [
  | none ↦ none
  | some n ↦ if ltb 0 n then some n else none
]

unfoldable pub new_budget : ℕ → ℕ → Action (Unit {0}) RuntimeError MemoryBudget
unfolding invalid
new_budget capacity_bytes headroom_bytes = do
  limit ←
      or_fail (positive_difference capacity_bytes headroom_bytes)
        (invalid Message.no_usable_capacity)
  pure (record { limit = limit; reserved = 0; peak = 0; poisoned = false })

unfoldable pub internal_error : Message → RuntimeError
internal_error msg = record { kind = RuntimeErrorKind.internal; message = msg }

-- `self.state.lock().map_err(..)?`.
abbrev pub lock : BudgetAction (Unit {0})
lock b = reject_if b.poisoned (internal_error Message.lock_poisoned) b

-- `checked_add(bytes).filter(|&n| n <= limit)`.
abbrev pub within_limit : MemoryBudget → ℕ → Option ℕ
within_limit b bytes = elim (checked_add b.reserved bytes) [
  | none ↦ none
  | some n ↦ if leb n b.limit then some n else none
]

unfoldable pub try_reserve : ℕ → BudgetAction MemoryReservation
unfolding invalid out_of_memory internal_error
try_reserve bytes = do
  reject_if (bytes == 0) (invalid Message.zero_reservation)
  lock
  reserved ← (λ b. or_fail (within_limit b bytes) (out_of_memory Message.budget_exhausted) b)
  modify (λ b. record b { reserved = reserved; peak = max b.peak reserved })
  pure (record { bytes = bytes })

-- `Drop for MemoryReservation`, also behind a poisoned lock.
unfoldable pub drop_reservation : MemoryReservation → MemoryBudget → MemoryBudget
drop_reservation r b = record b { reserved = b.reserved - r.bytes }

unfoldable pub budget_snapshot : BudgetAction MemoryBudgetSnapshot
unfolding internal_error
budget_snapshot = do
  lock
  gets (λ b. record { limit = b.limit; reserved = b.reserved; peak = b.peak })

-- The bytes of the reservations that callers hold.
unfoldable pub held_bytes : List MemoryReservation → ℕ
held_bytes [] = 0
held_bytes (r ∷ rs) = r.bytes + held_bytes rs

-- The program around the budget: it reserves, or drops the reservation at a place of its list.
pub data Use : Type 0 where
  reserve : ℕ → Use
  drop_at : ℕ → Use

unfoldable pub without : ℕ → List MemoryReservation → List MemoryReservation
without i [] = []
without zero (r ∷ rs) = rs
without (suc i) (r ∷ rs) = r ∷ without i rs

abbrev pub World : Type 0
World = MemoryBudget × List MemoryReservation

abbrev pub after_reserve :
    List MemoryReservation → Outcome MemoryBudget RuntimeError MemoryReservation → Option World
after_reserve held (ok r b) = some (b, r ∷ held)
after_reserve held (err e b) = some (b, held)
after_reserve held panic = none

abbrev pub after_drop : MemoryBudget → ℕ → List MemoryReservation → Option MemoryReservation → World
after_drop b i held none = (b, held)
after_drop b i held (some r) = (drop_reservation r b, without i held)

unfoldable pub use_budget : List Use → World → Option World
use_budget [] w = some w
use_budget (reserve bytes ∷ us) (b, held) = elim (after_reserve held (try_reserve bytes b)) [
  | none ↦ none
  | some w ↦ use_budget us w
]
use_budget (drop_at i ∷ us) (b, held) = use_budget us (after_drop b i held (get_elem? held i))

-- What is reserved is what the callers hold, and never more than the limit.
pub record BudgetInv (b : MemoryBudget) (held : List MemoryReservation) : Type 0 where
  pub exact : b.reserved ≡ held_bytes held
  pub limited : b.peak ≤ b.limit
  pub peaked : b.reserved ≤ b.peak
  pub word : b.limit < u64_mod

held_bytes-without :
    (i : ℕ) (held : List MemoryReservation) (r : MemoryReservation)
    → get_elem? held i ≡ some r
    → held_bytes (without i held) + r.bytes ≡ held_bytes held
unfolding held_bytes without
held_bytes-without i [] r h = absurd (cc h)
held_bytes-without zero (x ∷ held) r h =
    let same : x ≡ r = ground (arith, h) in rw same (omega arith)
held_bytes-without (suc i) (x ∷ held) r h = omega (arith, held_bytes-without i held r h)

-- A new budget can spend what the headroom leaves; it is an error when nothing is left.
pub new_budget-Ensures :
    (capacity_bytes headroom_bytes : ℕ)
    → capacity_bytes < u64_mod
    → Ensures
        (λ b _. BudgetInv b [] × (b.limit + headroom_bytes ≡ capacity_bytes) × (0 < b.limit))
        (λ e _. capacity_bytes ≤ headroom_bytes)
        (new_budget capacity_bytes headroom_bytes tt)
unfolding new_budget held_bytes
new_budget-Ensures capacity headroom word = elim (Bool-cases (ltb headroom capacity)) [
  | inl less ↦
      let b : MemoryBudget = record {
        limit = capacity - headroom;
        reserved = 0;
        peak = 0;
        poisoned = false;
      } in
      let made : new_budget capacity headroom tt ≡ ok b tt = ground (arith, less) in
      rw made (
        record { exact = refl; limited = omega arith; peaked = omega arith; word = omega arith },
        ground (arith, less),
        ground (arith, less),
      )
  | inr more ↦
      let refused : new_budget capacity headroom tt ≡ err (invalid Message.no_usable_capacity) tt =
        ground (arith, more) in
      rw refused (ground (arith, more))
]

pub try_reserve-Ensures :
    (b : MemoryBudget) (held : List MemoryReservation) (bytes : ℕ)
    → BudgetInv b held
    → Ensures
        (λ r t.
          BudgetInv t (r ∷ held)
          × (t.limit ≡ b.limit)
          × (t.poisoned ≡ b.poisoned)
          × (r.bytes ≡ bytes)
          × (0 < bytes)
          × (b.reserved + bytes ≤ b.limit))
        (λ e t. (t ≡ b) × ((bytes ≡ 0) ⊎ (b.poisoned ≡ true) ⊎ (b.limit < b.reserved + bytes)))
        (try_reserve bytes b)
unfolding try_reserve held_bytes
try_reserve-Ensures b held bytes v = elim (Bool-cases (bytes == 0)) [
  | inl nothing ↦
      let refused : try_reserve bytes b ≡ err (invalid Message.zero_reservation) b =
        ground (arith, nothing) in
      rw refused (refl, inl (ground (arith, nothing)))
  | inr something ↦ elim (Bool-cases b.poisoned) [
    | inl broken ↦
        let refused : try_reserve bytes b ≡ err (internal_error Message.lock_poisoned) b =
          ground (arith, something, broken) in
        rw refused (refl, inr (inl broken))
    | inr sound ↦ elim (Bool-cases (leb (b.reserved + bytes) b.limit)) [
      | inr over ↦
          let refused : try_reserve bytes b ≡ err (out_of_memory Message.budget_exhausted) b =
            ground (arith, something, sound, over) in
          rw refused (refl, inr (inr (ground (arith, over))))
      | inl fits ↦
          let t : MemoryBudget = record b {
            reserved = b.reserved + bytes;
            peak = max b.peak (b.reserved + bytes);
          } in
          let word : b.reserved + bytes < u64_mod = ground (arith, v.word, fits) in
          let granted : try_reserve bytes b ≡ ok (record { bytes = bytes }) t =
            ground (arith, something, sound, fits, word) in
          rw granted (
            record {
              exact = omega (arith, v.exact);
              limited = ground (arith, v.limited, fits);
              peaked = omega arith;
              word = v.word;
            },
            refl,
            refl,
            refl,
            ground (arith, something),
            ground (arith, fits),
          )
    ]
  ]
]

drop-BudgetInv :
    (b : MemoryBudget) (i : ℕ) (held : List MemoryReservation) (o : Option MemoryReservation)
    → get_elem? held i ≡ o
    → BudgetInv b held
    → let w = after_drop b i held o in BudgetInv w.0 w.1 × (w.0.limit ≡ b.limit)
unfolding drop_reservation
drop-BudgetInv b i held none at v = (v, refl)
drop-BudgetInv b i held (some r) at v = (
  record {
    exact = omega (arith, v.exact, held_bytes-without i held r at);
    limited = v.limited;
    peaked = omega (arith, v.peaked);
    word = v.word;
  },
  refl,
)

reserve-BudgetInv :
    (b : MemoryBudget) (held : List MemoryReservation)
    (r : Outcome MemoryBudget RuntimeError MemoryReservation)
    → BudgetInv b held
    → Ensures (λ x t. BudgetInv t (x ∷ held) × (t.limit ≡ b.limit)) (λ e t. t ≡ b) r
    → (w : World) × (after_reserve held r ≡ some w) × BudgetInv w.0 w.1 × (w.0.limit ≡ b.limit)
reserve-BudgetInv b held (ok x t) v (kept, same) = ((t, x ∷ held), refl, kept, same)
reserve-BudgetInv b held (err e t) v same = ((t, held), refl, rw same v, rw same refl)
reserve-BudgetInv b held panic v h = absurd h

-- However the callers reserve and drop, the budget never panics, what is reserved is exactly what
-- the callers hold, and it stays within the limit, which never changes.
pub use_budget-BudgetInv :
    (us : List Use) (b : MemoryBudget) (held : List MemoryReservation)
    → BudgetInv b held
    → (w : World) × (use_budget us (b, held) ≡ some w) × BudgetInv w.0 w.1 × (w.0.limit ≡ b.limit)
unfolding use_budget
use_budget-BudgetInv [] b held v = ((b, held), refl, v, refl)
use_budget-BudgetInv (reserve bytes ∷ us) b held v =
    let (w, ran, kept, same) = reserve-BudgetInv b held (try_reserve bytes b) v (
      Ensures-weaken _ _ _ _ (try_reserve bytes b) (try_reserve-Ensures b held bytes v)
        (λ x t h. (h.0, h.1)) (λ e t h. h.0)) in
    let (u, rest, end, limit) = use_budget-BudgetInv us w.0 w.1 kept in
    (u, cc (ran, rest), end, cc (limit, same))
use_budget-BudgetInv (drop_at i ∷ us) b held v =
    let w : World = after_drop b i held (get_elem? held i) in
    let (kept, same) = drop-BudgetInv b i held (get_elem? held i) refl v in
    let (u, rest, end, limit) = use_budget-BudgetInv us w.0 w.1 kept in
    (u, rest, end, cc (limit, same))
