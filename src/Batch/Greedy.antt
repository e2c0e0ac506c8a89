-- ===== src/Batch/Greedy.antt =====
-- Speculative decoding against plain greedy decoding (continuous_batch.rs). The model is any
-- function from a context to its greedy next token.
pub mod Lengths
pub mod Steps
pub mod Verified
use ru_llm.Base.{
  ℕ, zero, suc, ◌+◌, ◌-◌, pos, ◌∙◌, ◌<◌, ◌≡◌, refl, sym, ap, inl, inr, true, false, ◌||◌, List, [],
  ◌∷◌, ◌++◌, ℤ, arith, int_beq, int_beq_iff, ◌==◌, if◌then◌else◌, length, Bool-cases,
}
use mathlib.Core.List.{append_assoc}
use ru_llm.Batch.Rows.{last_or}
use ru_llm.Batch.Verify.{accepted, contains_token}

module _ (model : List ℤ → ℤ) where
  -- What one verification step computes: the greedy token behind the context, and behind each
  -- prefix of the draft.
  unfoldable pub forecast : List ℤ → List ℤ → List ℤ
  forecast context [] = model context ∷ []
  forecast context (d ∷ draft) = model context ∷ forecast (context ++ d ∷ []) draft

  -- Plain greedy decoding, one token at a time: it ends with an end-of-sequence token, or with
  -- the last token that is left to generate.
  unfoldable pub generate : List ℤ → ℕ → List ℤ → List ℤ
  unfolding contains_token
  generate eos zero context = []
  generate eos (suc n) context =
      let token : ℤ = model context in
      let rest = generate eos n (context ++ token ∷ []) in
      token ∷ (if contains_token token eos then [] else rest)

  -- What plain greedy decoding still generates behind the tokens of `made`.
  abbrev pub generate_after : List ℤ → ℕ → List ℤ → List ℤ → List ℤ
  generate_after eos n context made =
      if contains_token (last_or (pos 0) made) eos
      then []
      else generate eos (n - length made) (context ++ made)

  generate-one :
      (eos context : List ℤ) (n : ℕ)
      → generate eos (suc n) context
        ≡ model context ∷ generate_after eos (suc n) context (model context ∷ [])
  unfolding generate
  generate-one eos context n = let less : suc n - 1 ≡ n = omega arith in rw less refl

  last_or-default : (x y : ℤ) (xs : List ℤ) → 0 < length xs → last_or x xs ≡ last_or y xs
  last_or-default x y [] h = absurd (omega (arith, h))
  last_or-default x y (z ∷ xs) h = refl

  generate_after-cons :
      (eos : List ℤ) (n : ℕ) (context made : List ℤ) (x : ℤ)
      → 0 < length made
      → generate_after eos (suc n) context (x ∷ made)
        ≡ generate_after eos n (context ++ x ∷ []) made
  generate_after-cons eos n context made x h =
      let less : suc n - length (x ∷ made) ≡ n - length made = omega arith in
      let last : last_or (pos 0) (x ∷ made) ≡ last_or (pos 0) made =
        last_or-default x (pos 0) made h in
      let whole : (context ++ x ∷ []) ++ made ≡ context ++ x ∷ made =
        append_assoc context (x ∷ []) made in
      rw (less, last, whole) refl

  generate-more :
      (eos context : List ℤ) (n : ℕ) (made : List ℤ)
      → contains_token (model context) eos ≡ false
      → 0 < length made
      → generate eos n (context ++ model context ∷ [])
        ≡ made ++ generate_after eos n (context ++ model context ∷ []) made
      → generate eos (suc n) context
        ≡ model context ∷ made ++ generate_after eos (suc n) context (model context ∷ made)
  unfolding generate
  generate-more eos context n made open_end h e =
      let after = generate_after-cons eos n context made (model context) h in
      rw (open_end, after) (ap (λ t. model context ∷ t) e)

  -- Plain greedy decoding generates the accepted predictions, of which there is one at least, and
  -- goes on behind them.
  pub accepted-generate :
      (eos context draft : List ℤ) (n produced : ℕ)
      → let made = accepted (produced + suc n) eos (forecast context draft) draft produced in
        (generate eos (suc n) context ≡ made ++ generate_after eos (suc n) context made)
        × (0 < length made)
  unfolding accepted forecast
  accepted-generate eos context [] n produced =
      let x : ℤ = model context in
      elim (Bool-cases (produced + 1 == produced + suc n || contains_token x eos)) [
        | inl stop ↦ (rw stop (generate-one eos context n), rw stop (omega arith))
        | inr more ↦ (rw more (generate-one eos context n), rw more (omega arith))
      ]
  accepted-generate eos context (d ∷ draft) zero produced =
      let x : ℤ = model context in
      let last : (produced + 1 == produced + 1 || contains_token x eos) ≡ true = ground arith in
      (rw last (generate-one eos context 0), rw last (omega arith))
  accepted-generate eos context (d ∷ draft) (suc n) produced =
      let x : ℤ = model context in
      elim (Bool-cases (produced + 1 == produced + suc (suc n) || contains_token x eos)) [
        | inl stop ↦ (rw stop (generate-one eos context (suc n)), rw stop (omega arith))
        | inr more ↦ elim (Bool-cases (int_beq d x)) [
          | inr wrong ↦
              (rw (more, wrong) (generate-one eos context (suc n)), rw (more, wrong) (omega arith))
          | inl right ↦
              let same : d ≡ x = (int_beq_iff d x).0 right in
              let open_end : contains_token x eos ≡ false = ground (arith, more) in
              let count : (produced + 1) + suc n ≡ produced + suc (suc n) = omega arith in
              let (ahead, some_tokens) =
                accepted-generate eos (context ++ x ∷ []) draft n (produced + 1) in
              let made : List ℤ =
                accepted (produced + suc (suc n)) eos (forecast (context ++ x ∷ []) draft) draft
                  (produced + 1) in
              let enough : 0 < length made = rw count at some_tokens in
              let now : generate eos (suc n) (context ++ x ∷ [])
                  ≡ made ++ generate_after eos (suc n) (context ++ x ∷ []) made =
                rw count at ahead in
              (
                rw (more, right, same) (generate-more eos context (suc n) made open_end enough now),
                rw (more, right) (omega arith),
              )
        ]
      ]
