-- ===== src/Batch/Greedy/Lengths.antt =====
-- The numbers of predictions and of accepted tokens of a row (`complete_verify_batch` of
-- continuous_batch.rs), and what is left behind them.
use ru_llm.Base.{
  ℕ, zero, suc, ◌+◌, ◌-◌, ◌<◌, ◌≤◌, ◌≡◌, ◌∙◌, refl, ap, inl, inr, true, List, [], ◌∷◌, ◌++◌, ℤ, pos,
  arith, length, leb, sym, length-append, Bool-cases, ◌||◌,
}
use ru_llm.Batch.Rows.{last_or}
use ru_llm.Batch.Verify.{accepted, contains_token}
use mathlib.Core.List.{append-nil}
use ru_llm.Batch.Greedy.{forecast, generate, generate_after, accepted-generate}

pub length-forecast :
    (model : List ℤ → ℤ) (context draft : List ℤ)
    → length (forecast model context draft) ≡ suc (length draft)
unfolding forecast
length-forecast model context [] = refl
length-forecast model context (d ∷ draft) = ap suc (length-forecast model (context ++ d ∷ []) draft)

pub length-accepted-le :
    (remaining : ℕ) (eos predictions draft : List ℤ) (produced : ℕ)
    → length (accepted remaining eos predictions draft produced) ≤ length predictions
unfolding accepted
length-accepted-le remaining eos [] draft produced = omega arith
length-accepted-le remaining eos (x ∷ predictions) [] produced = ground arith
length-accepted-le remaining eos (x ∷ predictions) (d ∷ draft) produced =
    ground (arith, length-accepted-le remaining eos predictions draft (produced + 1))

pub accepted-first :
    (model : List ℤ → ℤ) (eos context draft : List ℤ) (remaining : ℕ)
    → 0 < remaining
    → let made = accepted remaining eos (forecast model context draft) draft 0 in
      (generate model eos remaining context
        ≡ made ++ generate_after model eos remaining context made)
      × (0 < length made)
accepted-first model eos context draft zero h = absurd (omega (arith, h))
accepted-first model eos context draft (suc n) h =
    let same : 0 + suc n ≡ suc n = omega arith in
    rw same at (accepted-generate model eos context draft n 0)

pub whole : (made rest all : List ℤ) → all ≡ made ++ rest → rest ≡ [] → made ≡ all
whole made rest all e nothing = sym (e ∙ rw nothing (append-nil made))

-- A request that is done has nothing left to generate.
pub nothing_after :
    (model : List ℤ → ℤ) (eos context made generated : List ℤ) (most : ℕ)
    → (contains_token (last_or (pos 0) made) eos || leb most (length (generated ++ made))) ≡ true
    → generate_after model eos (most - length generated) context made ≡ []
unfolding generate
nothing_after model eos context made generated most over =
    elim (Bool-cases (contains_token (last_or (pos 0) made) eos)) [
      | inl stopped ↦ rw stopped refl
      | inr goes_on ↦
          let spent : most - length generated - length made ≡ 0 =
            ground (arith, over, goes_on, length-append generated made) in
          rw (goes_on, spent) refl
    ]
