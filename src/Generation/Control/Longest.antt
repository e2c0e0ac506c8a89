-- ===== src/Generation/Control/Longest.antt =====
-- The matched length of generation/control.rs is that of the longest prefix of the pattern that ends
-- the text.
use ru_llm.Base.{
  ℕ, zero, suc, ◌+◌, ◌-◌, ◌≤◌, ◌<◌, ◌≡◌, ◌≢◌, ◌⊎◌, refl, sym, ◌∙◌, inl, inr, false, Option, some,
  List, ℤ, int_beq, int_beq_iff, arith, length, get_elem?, get_elem?-some, Bool-cases,
}
use native.Mathlib.Decide.{dec_lt}
use ru_llm.Generation.Control.{fall_back, advance}

module _ (p : List ℤ) where
  -- The first `l` tokens of the pattern end the first `n` tokens of the text `g`.
  pub record Suffix (g : ℕ → Option ℤ) (n l : ℕ) : Type 0 where
    pub short : l ≤ n
    pub same : (i : ℕ) → i < l → g ((n - l) + i) ≡ get_elem? p i

  -- The longest one below the bound.
  pub record IsBest (g : ℕ → Option ℤ) (n bound l : ℕ) : Type 0 where
    pub suffix : Suffix g n l
    pub below : l < bound
    pub longest : (j : ℕ) → l < j → j < bound → ¬ Suffix g n j

  -- The entries of the prefix function for the lengths up to `n`.
  abbrev pub IsTable : List ℕ → ℕ → Type 0
  IsTable prefix n =
      (l : ℕ)
      → l < n
      → (k : ℕ) × (get_elem? prefix l ≡ some k) × IsBest (get_elem? p) (suc l) (suc l) k

  module _ (g : ℕ → Option ℤ) (n : ℕ) where
    empty-Suffix : Suffix g n 0
    empty-Suffix = record { short = omega arith; same = λ i h. absurd (omega (arith, h)) }

    -- A shorter suffix of the text is one of the longer suffix.
    pub Suffix-inner : (l j : ℕ) → Suffix g n l → Suffix g n j → j ≤ l → Suffix (get_elem? p) l j
    Suffix-inner l j a b h = record {
      short = h;
      same = λ i k.
          let at : (n - l) + ((l - j) + i) ≡ (n - j) + i = omega (arith, a.short, h) in
          sym (a.same ((l - j) + i) (omega (arith, h, k))) ∙ rw at (b.same i k);
    }

    pub Suffix-outer : (l j : ℕ) → Suffix g n l → Suffix (get_elem? p) l j → Suffix g n j
    Suffix-outer l j a b = record {
      short = omega (arith, a.short, b.short);
      same = λ i k.
          let at : (n - j) + i ≡ (n - l) + ((l - j) + i) = omega (arith, a.short, b.short) in
          rw at (a.same ((l - j) + i) (omega (arith, b.short, k)) ∙ b.same i k);
    }

    -- One token more.
    Suffix-next :
        (l : ℕ) (t : ℤ)
        → g n ≡ some t
        → get_elem? p l ≡ some t
        → Suffix g n l
        → Suffix g (suc n) (suc l)
    Suffix-next l t here next a = record {
      short = omega (arith, a.short);
      same = λ i h. elim (dec_lt i l) [
        | yes before ↦
            let at : (suc n - suc l) + i ≡ (n - l) + i = omega arith in rw at (a.same i before)
        | no last ↦
            let is : i ≡ l = omega (arith, h, last) in
            let at : (suc n - suc l) + i ≡ n = omega (arith, a.short, is) in
            rw at (here ∙ sym next ∙ rw is refl)
      ];
    }

    Suffix-before :
        (l : ℕ) (t : ℤ)
        → g n ≡ some t
        → Suffix g (suc n) (suc l)
        → Suffix g n l × (get_elem? p l ≡ some t)
    Suffix-before l t here a = (
      record {
        short = omega (arith, a.short);
        same = λ i h.
            let at : (n - l) + i ≡ (suc n - suc l) + i = omega arith in
            rw at (a.same i (omega (arith, h)));
      },
      let at : (suc n - suc l) + l ≡ n = omega (arith, a.short) in
          sym (a.same l (omega arith)) ∙ rw at here,
    )

    -- No longer suffix below the bound can be extended by the token.
    abbrev NoneAbove : ℤ → ℕ → ℕ → Type 0
    NoneAbove t bound l = (j : ℕ) → l < j → j < bound → Suffix g n j → get_elem? p j ≢ some t

    module _ (prefix : List ℕ) (t : ℤ) (bound : ℕ) (fits : bound ≤ length p) where
      fall_back_lem :
          (rounds l : ℕ)
          → IsTable prefix l
          → l ≤ rounds
          → l < bound
          → Suffix g n l
          → NoneAbove t bound l
          → (m : ℕ) × (fall_back p prefix t rounds l ≡ some m)
            × Suffix g n m
            × (m < bound)
            × NoneAbove t bound m
            × ((m ≡ 0) ⊎ (get_elem? p m ≡ some t))
      unfolding fall_back
      fall_back_lem rounds zero table enough low a above = (0, refl, a, low, above, inl refl)
      fall_back_lem zero (suc l) table enough low a above = absurd (omega (arith, enough))
      fall_back_lem (suc rounds) (suc l) table enough low a above =
          let (x, at) = get_elem?-some p (suc l) (omega (arith, low, fits)) in
          elim (Bool-cases (int_beq x t)) [
            | inl hit ↦
                let same : x ≡ t = (int_beq_iff x t).0 hit in
                (suc l, ground (arith, at, hit), a, low, above, inr (rw same at at))
            | inr miss ↦
                let (k, entry, best) = table l (omega arith) in
                let (m, run, ends, small, none_above, stop) =
                  fall_back_lem rounds k (λ i h. table i (omega (arith, h, best.below)))
                    (omega (arith, enough, best.below)) (omega (arith, low, best.below))
                    (Suffix-outer (suc l) k a best.suffix)
                    (λ j h b s is. elim (dec_lt j (suc l)) [
                      | yes inner ↦ absurd (
                          best.longest j h inner
                            (Suffix-inner (suc l) j a s (omega (arith, inner))))
                      | no outer ↦ elim (dec_lt (suc l) j) [
                        | yes beyond ↦ absurd (above j beyond b s is)
                        | no equal ↦
                            let this : j ≡ suc l = omega (arith, outer, equal) in
                            let same : x ≡ t = ground (arith, at, is, this) in
                            absurd (cc ((int_beq_iff x t).1 same, miss))
                      ]
                    ]) in
                (m, ground (arith, at, miss, entry, run), ends, small, none_above, stop)
          ]

      -- A longer suffix of the longer text would extend one of the text.
      none_longer :
          (m : ℕ)
          → g n ≡ some t
          → NoneAbove t bound m
          → (j : ℕ) → suc m < j
          → j < suc bound
          → ¬ Suffix g (suc n) j
      none_longer m here above zero h b s = absurd (omega (arith, h))
      none_longer m here above (suc j) h b s =
          let (before, is) = Suffix-before j t here s in
          above j (omega (arith, h)) (omega (arith, b)) before is

      none_at_all :
          (x : ℤ)
          → g n ≡ some t
          → get_elem? p 0 ≡ some x
          → int_beq x t ≡ false
          → NoneAbove t bound 0
          → (j : ℕ) → 0 < j
          → j < suc bound
          → ¬ Suffix g (suc n) j
      none_at_all x here at miss above zero h b s = absurd (omega (arith, h))
      none_at_all x here at miss above (suc j) h b s =
          let (before, is) = Suffix-before j t here s in
          elim (dec_lt 0 j) [
            | yes more ↦ above j more (omega (arith, b)) before is
            | no first ↦
                let this : j ≡ 0 = omega (arith, first) in
                let same : x ≡ t = ground (arith, at, is, this) in
                absurd (cc ((int_beq_iff x t).1 same, miss))
          ]

      -- The step keeps the longest suffix, below the next bound.
      pub advance_lem :
          (l : ℕ)
          → IsTable prefix l
          → g n ≡ some t
          → IsBest g n bound l
          → (m : ℕ) × (advance p prefix t l ≡ some m) × IsBest g (suc n) (suc bound) m
      unfolding advance
      advance_lem l table here best =
          let (m, run, ends, small, above, stop) =
            fall_back_lem l l table (omega arith) best.below best.suffix
              (λ j h b s is. absurd (best.longest j h b s)) in
          let (x, at) = get_elem?-some p m (omega (arith, small, fits)) in
          let next : m + 1 ≡ suc m = omega arith in
          elim (Bool-cases (int_beq x t)) [
            | inl hit ↦
                let same : x ≡ t = (int_beq_iff x t).0 hit in
                (
                  suc m,
                  ground (arith, run, at, hit, next),
                  record {
                    suffix = Suffix-next m t here (rw same at at) ends;
                    below = omega (arith, small);
                    longest = none_longer m here above;
                  },
                )
            | inr miss ↦ elim stop [
              | inr is ↦
                  let same : x ≡ t = ground (arith, at, is) in
                  absurd (cc ((int_beq_iff x t).1 same, miss))
              | inl bottom ↦ (
                0,
                ground (arith, run, at, miss, bottom),
                record {
                  suffix = record { short = omega arith; same = λ i h. absurd (omega (arith, h)) };
                  below = omega arith;
                  longest = none_at_all x here (rw bottom at at) miss (rw bottom at above);
                },
              )
            ]
          ]
