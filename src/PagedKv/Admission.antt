-- ===== src/PagedKv/Admission.antt =====
-- `can_append` against `begin_append`, and `begin_append` taken back by `cancel_append`.
use ru_llm.Base.{
  ℕ, ◌+◌, ◌<◌, ◌≡◌, ◌↔◌, inl, inr, true, none, some, arith, ok, err, Returns, Option-cases,
}
use native.Mathlib.Decide.{dec_lt}
use ru_llm.Base.OrdMap
use ru_llm.Base.Word.{u64_mod}
use ru_llm.PagedKv.Types.{SequenceState, Manager, Error}
use ru_llm.PagedKv.Pool.{available_pages}
use ru_llm.PagedKv.Manager.{can_append, begin_append, pages_needed}
use ru_llm.PagedKv.Invariant.{ManagerInv}
use ru_llm.PagedKv.Begin.{Begun, begin_passes}

module _ (m : Manager) (v : ManagerInv m) (id n : ℕ) where
  -- What relates the two calls.
  abbrev Agrees : Type 0
  Agrees = (can_append id n m ≡ ok true m) ↔ Returns (Begun m id n) (begin_append id n m)

  neither : (e : Error) → begin_append id n m ≡ err e m → ¬ (can_append id n m ≡ ok true m) → Agrees
  neither e refused denied = (λ h. absurd (denied h), λ (r, t, run, b). absurd (cc (refused, run)))

  idle_agrees :
      (q : SequenceState)
      → OrdMap.lookup id m.sequences ≡ some q
      → q.pending ≡ none
      → 0 < n
      → m.next_reservation + 1 < u64_mod
      → Agrees
  unfolding begin_append can_append
  idle_agrees q found idle pos_n next =
      let end = q.committed_tokens + n in
      elim (dec_lt end u64_mod) [
        | no wraps ↦ neither Error.length_overflow (ground arith) (λ h. ground arith)
        | yes short ↦ elim (dec_lt m.config.max_sequence_length end) [
          | yes long ↦
              neither (Error.above_capacity id end m.config.max_sequence_length) (ground arith)
                (λ h. ground arith)
          | no fits ↦ elim (dec_lt (available_pages m.pool) (pages_needed m end q)) [
            | yes full ↦
                neither (Error.out_of_pages (pages_needed m end q) (available_pages m.pool))
                  (ground arith) (λ h. ground arith)
            | no room ↦ (
              λ h. begin_passes m v id n q found idle pos_n (omega arith) (omega arith) next,
              λ h. ground arith,
            )
          ]
        ]
      ]

  -- On a well-formed manager, while reservation ids remain, `can_append` says yes exactly when
  -- `begin_append` succeeds.
  pub can_append-begin_append :
      m.next_reservation + 1 < u64_mod
      → (can_append id n m ≡ ok true m) ↔ Returns (Begun m id n) (begin_append id n m)
  unfolding begin_append can_append
  can_append-begin_append next = elim (dec_lt 0 n) [
    | no empty ↦ neither Error.empty_append (ground arith) (λ h. ground arith)
    | yes pos_n ↦ elim (Option-cases (OrdMap.lookup id m.sequences)) [
      | inl missing ↦ neither (Error.sequence_missing id) (ground arith) (λ h. ground arith)
      | inr (q, found) ↦ elim (Option-cases q.pending) [
        | inr (rid, waits) ↦
            neither (Error.already_pending id rid) (ground arith) (λ h. ground arith)
        | inl idle ↦ idle_agrees q found idle pos_n next
      ]
    ]
  ]
