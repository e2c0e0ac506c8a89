-- ===== src/PagedKv/Groups.antt =====
-- `commit_appends` and `cancel_appends` (paged_kv.rs): a group of reservations ends as a whole.
pub mod Ends
pub mod Atomic
pub mod Prefixes
mod Tests
use ru_llm.Base.{
  ℕ, zero, suc, ◌+◌, ◌*◌, ◌≤◌, ◌<◌, ◌≡◌, ◌≢◌, ◌⊎◌, refl, inl, inr, true, false, none, some, List,
  [], ◌∷◌, arith, length, count, ok, err, panic, Ensures, Option-cases, Bool-cases, ◌==◌, Outcome,
  for_each,
}
use ru_llm.Base.OrdMap
use ru_llm.Base.OrdMap.{has_key, insert_key}
use ru_llm.Base.Word.{u64_mod, div_ceil}
use ru_llm.PagedKv.Types.{SequenceState, ReservationState, Manager, Error, duplicate_reservation}
use ru_llm.PagedKv.Invariant.{ManagerInv}
use ru_llm.PagedKv.Manager.{ManagerAction}
use ru_llm.PagedKv.Pool.{available_pages}
use ru_llm.PagedKv.Commit.{
  validate_from, validate_reservation, commit_append, cancel_append, commit_appends, cancel_appends,
  collect, expect_ok,
}
use ru_llm.PagedKv.Finish.{HasTicks, finished}
use ru_llm.PagedKv.Ending.{Ended, validates, cancel_append-Ensures, commit_append-Ensures}

-- The ids are those of live reservations, and all different.
unfoldable pub IsGroup : Manager → List ℕ → Type 0
IsGroup m [] = Unit {0}
IsGroup m (id ∷ ids) =
    ((r : ReservationState) × (OrdMap.lookup id m.reservations ≡ some r))
    × (count id ids ≡ 0)
    × IsGroup m ids

has_key-insert_key :
    (k id : ℕ) (seen : List ℕ)
    → has_key k (insert_key id seen) ≡ true
    → (k ≡ id) ⊎ (has_key k seen ≡ true)
unfolding has_key insert_key
has_key-insert_key k id [] h = ground arith
has_key-insert_key k id (j ∷ seen) h = ground (arith, has_key-insert_key k id seen)

has_key-insert_key_old :
    (k id : ℕ) (seen : List ℕ) → has_key k seen ≡ true → has_key k (insert_key id seen) ≡ true
unfolding has_key insert_key
has_key-insert_key_old k id [] h = ground arith
has_key-insert_key_old k id (j ∷ seen) h = ground (arith, has_key-insert_key_old k id seen)

has_key-insert_key_same : (id : ℕ) (seen : List ℕ) → has_key id (insert_key id seen) ≡ true
unfolding has_key insert_key
has_key-insert_key_same id [] = ground arith
has_key-insert_key_same id (j ∷ seen) = ground (arith, has_key-insert_key_same id seen)

-- The ids are a group, and none has been seen.
abbrev pub IsNew : Manager → List ℕ → List ℕ → Type 0
IsNew m seen ids = IsGroup m ids × ((k : ℕ) → has_key k seen ≡ true → count k ids ≡ 0)

module _ (m : Manager) (v : ManagerInv m) where
  validate_held :
      (id : ℕ) (r : ReservationState)
      → OrdMap.lookup id m.reservations ≡ some r
      → validate_reservation id m ≡ ok tt m
  validate_held id r held =
      let (q, found, waits, start) = (v.reserved id r held).owner in
      validates m v id r held q found waits start

  validate_missing :
      (id : ℕ)
      → OrdMap.lookup id m.reservations ≡ none
      → validate_reservation id m ≡ err (Error.reservation_missing id) m
  unfolding validate_reservation
  validate_missing id missing = ground (arith, missing)

  -- Validation accepts exactly the groups.
  pub validate_from-cases :
      (ids seen : List ℕ)
      → ((validate_from seen ids m ≡ ok tt m) × IsNew m seen ids)
        ⊎ ((e : Error) × (validate_from seen ids m ≡ err e m) × ¬ IsNew m seen ids)
  unfolding validate_from IsGroup count
  validate_from-cases [] seen = inl (refl, (tt, λ k h. refl))
  validate_from-cases (id ∷ ids) seen = elim (Bool-cases (has_key id seen)) [
    | inl twice ↦
        inr (
          duplicate_reservation id,
          rw twice refl,
          λ good. absurd (ground (arith, good.1 id twice)),
        )
    | inr first ↦ elim (Option-cases (OrdMap.lookup id m.reservations)) [
      | inl missing ↦ inr (
        Error.reservation_missing id,
        ground (arith, first, validate_missing id missing),
        λ good. let (r, held) = good.0.0 in absurd (cc (held, missing)),
      )
      | inr (r, held) ↦ elim (validate_from-cases ids (insert_key id seen)) [
        | inl (run, (group, fresh)) ↦ inl (
          ground (arith, first, validate_held id r held, run),
          (
            ((r, held), fresh id (has_key-insert_key_same id seen), group),
            λ k h. ground (arith, first, h, fresh k (has_key-insert_key_old k id seen h)),
          ),
        )
        | inr (e, run, bad) ↦ inr (
          e,
          ground (arith, first, validate_held id r held, run),
          λ good. bad (
            good.0.2,
            λ k h. elim (has_key-insert_key k id seen h) [
              | inl same ↦ rw same good.0.1
              | inr old ↦ ground (arith, good.1 k old)
            ],
          ),
        )
      ]
    ]
  ]
