-- ===== src/Batch/Draft.antt =====
-- `ngram_draft` (continuous_batch.rs): drafting from an earlier occurrence of the last tokens.
use ru_llm.Base.{
  ℕ, zero, suc, ◌+◌, ◌-◌, ◌≤◌, ◌<◌, ◌≡◌, ◌⊎◌, refl, inl, inr, true, ◌&&◌, Option, none, some, List,
  [], ℤ, arith, min, ltb, if◌then◌else◌, length, take, drop, length-take, length-drop, Option-cases,
}
use ru_llm.PagedKv.Types.{tokens_beq, tokens_beq_iff}

-- The continuation behind the occurrence at `start`, if there is one there.
abbrev pub draft_at : List ℤ → ℕ → ℕ → ℕ → Option (List ℤ)
draft_at history n draft_tokens start =
    if tokens_beq (take n (drop start history)) (drop (length history - n) history)
      && ltb (start + n) (min (start + n + draft_tokens) (length history))
    then some (
        take (min (start + n + draft_tokens) (length history) - (start + n))
          (drop (start + n) history))
    else none

-- `for start in (0..count).rev()`.
unfoldable pub search_starts : List ℤ → ℕ → ℕ → ℕ → Option (List ℤ)
search_starts history n draft_tokens zero = none
search_starts history n draft_tokens (suc start) =
    let rest = search_starts history n draft_tokens start in
    elim (draft_at history n draft_tokens start) [ none ↦ rest | some draft ↦ some draft ]

-- `for n in (1..=count).rev()`.
unfoldable pub search_ngrams : List ℤ → ℕ → ℕ → List ℤ
unfolding search_starts
search_ngrams history draft_tokens zero = []
search_ngrams history draft_tokens (suc n) =
    let rest = search_ngrams history draft_tokens n in
    elim (search_starts history (suc n) draft_tokens (length history - suc n)) [
      | none ↦ rest
      | some draft ↦ draft
    ]

unfoldable pub ngram_draft : List ℤ → ℕ → ℕ → List ℤ
unfolding search_ngrams
ngram_draft history ngram draft_tokens =
    search_ngrams history draft_tokens (min ngram (length history - 1))

-- The draft continues an earlier occurrence of the last `n` tokens of the history.
pub record IsContinuation (history : List ℤ) (draft_tokens n start : ℕ) (draft : List ℤ)
    : Type 0 where
  pub earlier : start + n < length history
  pub occurs : take n (drop start history) ≡ drop (length history - n) history
  pub continues : draft ≡ take (length draft) (drop (start + n) history)
  pub some_tokens : 0 < length draft
  pub few : length draft ≤ draft_tokens

draft_at_lem :
    (history : List ℤ) (n draft_tokens start : ℕ) (draft : List ℤ)
    → draft_at history n draft_tokens start ≡ some draft
    → start + n < length history
    → IsContinuation history draft_tokens n start draft
draft_at_lem history n draft_tokens start draft h within =
    let stop : ℕ = min (start + n + draft_tokens) (length history) in
    let same : tokens_beq (take n (drop start history)) (drop (length history - n) history) ≡ true =
      ground (arith, h) in
    let more : start + n < stop = ground (arith, h) in
    let is : draft ≡ take (stop - (start + n)) (drop (start + n) history) = ground (arith, h) in
    let size : length draft ≡ stop - (start + n) = rw is (
      omega (
        arith,
        length-take (stop - (start + n)) (drop (start + n) history),
        length-drop (start + n) history,
        more,
      )) in
    record {
      earlier = within;
      occurs =
          (tokens_beq_iff (take n (drop start history)) (drop (length history - n) history)).0 same;
      continues = rw size is;
      some_tokens = omega (arith, size, more);
      few = omega (arith, size);
    }

search_starts_lem :
    (history : List ℤ) (n draft_tokens count : ℕ) (draft : List ℤ)
    → search_starts history n draft_tokens count ≡ some draft
    → count ≤ length history - n
    → (start : ℕ) × (start < count) × IsContinuation history draft_tokens n start draft
unfolding search_starts
search_starts_lem history n draft_tokens zero draft h le = absurd (cc h)
search_starts_lem history n draft_tokens (suc start) draft h le =
    elim (Option-cases (draft_at history n draft_tokens start)) [
      | inl nothing ↦
          let (at, below, is) =
            search_starts_lem history n draft_tokens start draft (ground (arith, h, nothing))
              (omega arith) in
          (at, omega arith, is)
      | inr (found, here) ↦
          let is : draft_at history n draft_tokens start ≡ some draft = ground (arith, h, here) in
          (start, omega arith, draft_at_lem history n draft_tokens start draft is (omega arith))
    ]

search_ngrams_lem :
    (history : List ℤ) (draft_tokens count : ℕ)
    → (search_ngrams history draft_tokens count ≡ [])
      ⊎ ((n : ℕ) × (start : ℕ) × (0 < n)
          × (n ≤ count)
          × IsContinuation history draft_tokens n start (search_ngrams history draft_tokens count))
unfolding search_ngrams
search_ngrams_lem history draft_tokens zero = inl refl
search_ngrams_lem history draft_tokens (suc n) =
    elim (Option-cases (search_starts history (suc n) draft_tokens (length history - suc n))) [
      | inr (draft, found) ↦
          let (start, below, is) =
            search_starts_lem history (suc n) draft_tokens (length history - suc n) draft found
              (omega arith) in
          let result : search_ngrams history draft_tokens (suc n) ≡ draft = ground (arith, found) in
          inr (suc n, start, omega arith, omega arith, rw result is)
      | inl nothing ↦
          let result : search_ngrams history draft_tokens (suc n)
              ≡ search_ngrams history draft_tokens n =
            ground (arith, nothing) in
          rw result (elim (search_ngrams_lem history draft_tokens n) [
            | inl empty ↦ inl empty
            | inr (k, start, pos, le, is) ↦ inr (k, start, pos, omega arith, is)
          ])
    ]

-- A draft is empty, or it continues an earlier occurrence of the last tokens of the history, at
-- most `ngram` of them, and has between one and `draft_tokens` tokens.
pub ngram_draft_lem :
    (history : List ℤ) (ngram draft_tokens : ℕ)
    → (ngram_draft history ngram draft_tokens ≡ [])
      ⊎ ((n : ℕ) × (start : ℕ) × (0 < n)
          × (n ≤ ngram)
          × IsContinuation history draft_tokens n start (ngram_draft history ngram draft_tokens))
unfolding ngram_draft
ngram_draft_lem history ngram draft_tokens =
    elim (search_ngrams_lem history draft_tokens (min ngram (length history - 1))) [
      | inl empty ↦ inl empty
      | inr (k, start, pos, le, is) ↦ inr (k, start, pos, omega arith, is)
    ]
