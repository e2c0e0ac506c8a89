-- ===== src/Generation/Control/Matches.antt =====
-- What the matcher of generation/control.rs reports, against a search for the patterns at the end of
-- the text.
use ru_llm.Base.{
  ℕ, zero, suc, ◌+◌, ◌-◌, ◌<◌, ◌≡◌, ◌⊎◌, ◌↔◌, refl, sym, ap, ◌∙◌, inl, inr, Bool, true, false,
  Option, none, some, List, [], ◌∷◌, ◌++◌, ℤ, arith, ◌==◌, length, get_elem?, length-append,
  Bool-cases,
}
use native.Mathlib.Decide.{dec_lt}
use ru_llm.Generation.Control.{
  Matcher, prefix_rest, prefix_function, new_matchers, push_one, push_from, push,
}
use ru_llm.Generation.Control.Longest.{
  Suffix, IsBest, IsTable, Suffix-inner, Suffix-outer, advance_lem,
}

get_elem?-before :
    (xs : List ℕ) (y i : ℕ) → i < length xs → get_elem? (xs ++ y ∷ []) i ≡ get_elem? xs i
get_elem?-before [] y i h = absurd (omega (arith, h))
get_elem?-before (x ∷ xs) y zero h = refl
get_elem?-before (x ∷ xs) y (suc i) h = get_elem?-before xs y i (omega (arith, h))

get_elem?-last : (xs : List ℕ) (y : ℕ) → get_elem? (xs ++ y ∷ []) (length xs) ≡ some y
get_elem?-last [] y = refl
get_elem?-last (x ∷ xs) y = get_elem?-last xs y

module _ (p : List ℤ) where
  IsTable-longer :
      (prefix : List ℕ) (m : ℕ)
      → IsTable p prefix (length prefix)
      → IsBest p (get_elem? p) (suc (length prefix)) (suc (length prefix)) m
      → IsTable p (prefix ++ m ∷ []) (suc (length prefix))
  IsTable-longer prefix m table best l h = elim (dec_lt l (length prefix)) [
    | yes before ↦
        let (k, entry, is) = table l before in (k, get_elem?-before prefix m l before ∙ entry, is)
    | no last ↦
        let here : l ≡ length prefix = omega (arith, h, last) in
        (m, rw here (get_elem?-last prefix m), rw here best)
  ]

  prefix_rest_lem :
      (tokens : List ℤ) (prefix : List ℕ) (l : ℕ)
      → length prefix + length tokens ≡ length p
      → ((i : ℕ) → get_elem? tokens i ≡ get_elem? p (length prefix + i))
      → IsTable p prefix (length prefix)
      → IsBest p (get_elem? p) (length prefix) (length prefix) l
      → (out : List ℕ) × (prefix_rest p tokens prefix l ≡ some out) × IsTable p out (length p)
  unfolding prefix_rest
  prefix_rest_lem [] prefix l size rest table best =
      let all : length prefix ≡ length p = omega (arith, size) in (prefix, refl, rw all at table)
  prefix_rest_lem (token ∷ tokens) prefix l size rest table best =
      let n : ℕ = length prefix in
      let zero_more : n + 0 ≡ n = omega arith in
      let here : get_elem? p n ≡ some token = sym (rest 0 ∙ ap (get_elem? p) zero_more) in
      let (m, run, next) =
        advance_lem p (get_elem? p) n prefix token n (omega (arith, size)) l
          (λ i h. table i (omega (arith, h, best.below))) here best in
      let longer : length (prefix ++ m ∷ []) ≡ suc n =
        omega (arith, length-append prefix (m ∷ [])) in
      let (out, more, full) =
        prefix_rest_lem tokens (prefix ++ m ∷ []) m (omega (arith, longer, size))
          (λ i.
            let at : n + suc i ≡ length (prefix ++ m ∷ []) + i = omega (arith, longer) in
            rest (suc i) ∙ ap (get_elem? p) at)
          (rw longer (IsTable-longer prefix m table next)) (rw longer next) in
      (out, ground (arith, run, more), full)

-- The table of a pattern is its prefix function.
prefix_function_lem :
    (p : List ℤ) → (out : List ℕ) × (prefix_function p ≡ some out) × IsTable p out (length p)
unfolding prefix_function
prefix_function_lem [] = ([], refl, λ l h. absurd (omega (arith, h)))
prefix_function_lem (token ∷ tokens) =
    let p : List ℤ = token ∷ tokens in
    let first : IsBest p (get_elem? p) 1 1 0 = record {
      suffix = record { short = omega arith; same = λ i h. absurd (omega (arith, h)) };
      below = omega arith;
      longest = λ j h b. absurd (omega (arith, h, b));
    } in
    prefix_rest_lem p tokens (0 ∷ []) 0 (omega arith)
      (λ i. let next : 1 + i ≡ suc i = omega arith in rw next refl)
      (λ l h. let here : l ≡ 0 = omega (arith, h) in (0, rw here refl, rw here first)) first

-- The matcher after `n` tokens of the text `g`.
pub record IsState (g : ℕ → Option ℤ) (n : ℕ) (m : Matcher) : Type 0 where
  pub some_tokens : 0 < length m.pattern
  pub table : IsTable m.pattern m.prefix (length m.pattern)
  pub best : IsBest m.pattern g n (length m.pattern) m.matched

-- The whole pattern ends the first `n` tokens of the text.
abbrev pub Ends : (ℕ → Option ℤ) → ℕ → List ℤ → Type 0
Ends g n p = Suffix p g n (length p)

module _ (g : ℕ → Option ℤ) (n : ℕ) (t : ℤ) (here : g n ≡ some t) where
  push_one_lem :
      (m : Matcher)
      → IsState g n m
      → (done : Bool) × (m' : Matcher) × (push_one t m ≡ some (done, m'))
        × IsState g (suc n) m'
        × (m'.pattern ≡ m.pattern)
        × ((done ≡ true) ↔ Ends g (suc n) m.pattern)
  unfolding push_one
  push_one_lem m v =
      let p : List ℤ = m.pattern in
      let (l, run, best) =
        advance_lem p g n m.prefix t (length p) (omega arith) m.matched
          (λ i h. v.table i (omega (arith, h, v.best.below))) here v.best in
      elim (Bool-cases (l == length p)) [
        | inr partial ↦ (
          false,
          record m { matched = l },
          ground (arith, run, partial),
          record {
            some_tokens = v.some_tokens;
            table = v.table;
            best = record {
              suffix = best.suffix;
              below = ground (arith, best.below, partial);
              longest = λ j h b. best.longest j h (omega (arith, b));
            };
          },
          refl,
          (
            λ h. absurd (cc h),
            λ ends.
                absurd (
                  best.longest (length p) (ground (arith, best.below, partial)) (omega arith) ends),
          ),
        )
        | inl whole ↦
            let is : l ≡ length p = ground (arith, whole) in
            let (k, entry, inner) = v.table (length p - 1) (omega (arith, v.some_tokens)) in
            let size : suc (length p - 1) ≡ length p = omega (arith, v.some_tokens) in
            let border : IsBest p (get_elem? p) (length p) (length p) k = rw size at inner in
            let ends : Ends g (suc n) p = rw is at best.suffix in
            (
              true,
              record m { matched = k },
              ground (arith, run, is, entry),
              record {
                some_tokens = v.some_tokens;
                table = v.table;
                best = record {
                  suffix = Suffix-outer p g (suc n) (length p) k ends border.suffix;
                  below = border.below;
                  longest = λ j h b s.
                      border.longest j h b
                        (Suffix-inner p g (suc n) (length p) j ends s (omega (arith, b)));
                };
              },
              refl,
              (λ h. ends, λ h. refl),
            )
      ]

-- The matchers of the patterns after `n` tokens.
unfoldable pub IsStates : (ℕ → Option ℤ) → ℕ → List (List ℤ) → List Matcher → Type 0
IsStates g n [] [] = Unit {0}
IsStates g n (p ∷ ps) (m ∷ ms) = (m.pattern ≡ p) × IsState g n m × IsStates g n ps ms
IsStates g n _ _ = ⊥

-- The first pattern that ends the text, counted from `index`, or none.
unfoldable pub IsFirst : (ℕ → Option ℤ) → ℕ → ℕ → List (List ℤ) → Option ℕ → Type 0
IsFirst g n index [] found = found ≡ none
IsFirst g n index (p ∷ ps) found =
    (Ends g n p × (found ≡ some index)) ⊎ (¬ Ends g n p × IsFirst g n (index + 1) ps found)

unfoldable pub IsNonempty : List (List ℤ) → Type 0
IsNonempty [] = Unit {0}
IsNonempty (p ∷ ps) = (0 < length p) × IsNonempty ps

new_matchers_lem :
    (g : ℕ → Option ℤ) (ps : List (List ℤ))
    → IsNonempty ps
    → (ms : List Matcher) × (new_matchers ps ≡ some ms) × IsStates g 0 ps ms
unfolding new_matchers IsNonempty IsStates
new_matchers_lem g [] h = ([], refl, tt)
new_matchers_lem g (p ∷ ps) (some_tokens, h) =
    let (prefix, run, table) = prefix_function_lem p in
    let (ms, rest, states) = new_matchers_lem g ps h in
    let m : Matcher = record { pattern = p; prefix = prefix; matched = 0 } in
    (
      m ∷ ms,
      ground (arith, run, rest),
      (
        refl,
        record {
          some_tokens = some_tokens;
          table = table;
          best = record {
            suffix = record { short = omega arith; same = λ i k. absurd (omega (arith, k)) };
            below = some_tokens;
            longest = λ j k b s. absurd (omega (arith, k, s.short));
          };
        },
        states,
      ),
    )

module _ (g : ℕ → Option ℤ) (n : ℕ) (t : ℤ) (here : g n ≡ some t) where
  push_from_lem :
      (index : ℕ) (ps : List (List ℤ)) (ms : List Matcher)
      → IsStates g n ps ms
      → (found : Option ℕ) × (ms' : List Matcher) × (push_from index t ms ≡ some (found, ms'))
        × IsStates g (suc n) ps ms'
        × IsFirst g (suc n) index ps found
  unfolding push_from IsStates IsFirst
  push_from_lem index [] [] h = (none, [], refl, tt, refl)
  push_from_lem index [] (m ∷ ms) h = absurd h
  push_from_lem index (p ∷ ps) [] h = absurd h
  push_from_lem index (p ∷ ps) (m ∷ ms) (is, state, states) =
      let (done, m', run, state', same, report) = push_one_lem g n t here m state in
      let (found, ms', rest, states', first) = push_from_lem (index + 1) ps ms states in
      elim (Bool-cases done) [
        | inl yes_done ↦ (
          some index,
          m' ∷ ms',
          ground (arith, run, rest, yes_done),
          (same ∙ is, state', states'),
          inl (rw is at (report.0 yes_done), refl),
        )
        | inr not_done ↦ (
          found,
          m' ∷ ms',
          ground (arith, run, rest, not_done),
          (same ∙ is, state', states'),
          inr (λ ends. absurd (cc (report.1 (rw is ends), not_done)), first),
        )
      ]

-- The reports of all tokens of a text, one behind the other.
unfoldable pub push_all : List ℤ → List Matcher → Option (List (Option ℕ))
unfolding push
push_all [] ms = some []
push_all (token ∷ tokens) ms = elim (push token ms) [
  | none ↦ none
  | some (found, ms') ↦ elim (push_all tokens ms') [ none ↦ none | some rs ↦ some (found ∷ rs) ]
]

reports-cons :
    (g : ℕ → Option ℤ) (n : ℕ) (ps : List (List ℤ)) (found : Option ℕ) (rs : List (Option ℕ))
    → IsFirst g (suc n) 0 ps found
    → ((i : ℕ) (r : Option ℕ) → get_elem? rs i ≡ some r → IsFirst g (suc (suc n + i)) 0 ps r)
    → (i : ℕ) (r : Option ℕ) → get_elem? (found ∷ rs) i ≡ some r
    → IsFirst g (suc (n + i)) 0 ps r
reports-cons g n ps found rs first all zero r at =
    let zero_more : n + 0 ≡ n = omega arith in
    let is : found ≡ r = ground (arith, at) in rw (zero_more, sym is) first
reports-cons g n ps found rs first all (suc i) r at =
    let next : suc (n + suc i) ≡ suc (suc n + i) = omega arith in rw next (all i r at)

push_all_lem :
    (g : ℕ → Option ℤ) (n : ℕ) (ps : List (List ℤ)) (tokens : List ℤ) (ms : List Matcher)
    → ((i : ℕ) → i < length tokens → get_elem? tokens i ≡ g (n + i))
    → IsStates g n ps ms
    → (rs : List (Option ℕ)) × (push_all tokens ms ≡ some rs)
      × (length rs ≡ length tokens)
      × ((i : ℕ) (r : Option ℕ) → get_elem? rs i ≡ some r → IsFirst g (suc (n + i)) 0 ps r)
unfolding push_all push
push_all_lem g n ps [] ms same h = ([], refl, refl, λ i r at. absurd (ground (arith, at)))
push_all_lem g n ps (token ∷ tokens) ms same h =
    let zero_more : n + 0 ≡ n = omega arith in
    let here : g n ≡ some token = sym (same 0 (omega arith) ∙ ap g zero_more) in
    let (found, ms', run, states, first) = push_from_lem g n token here 0 ps ms h in
    let (rs, rest, size, all) =
      push_all_lem g (suc n) ps tokens ms'
        (λ i k.
          let at : n + suc i ≡ suc n + i = omega arith in same (suc i) (omega (arith, k)) ∙ ap g at)
        states in
    (
      found ∷ rs,
      ground (arith, run, rest),
      omega (arith, size),
      reports-cons g n ps found rs first all,
    )

-- For patterns that are not empty, the matcher never panics on any text, and after each token it
-- reports the first pattern that ends the text so far, or none if none does.
pub matcher-IsFirst :
    (ps : List (List ℤ)) (text : List ℤ)
    → IsNonempty ps
    → (ms : List Matcher) × (rs : List (Option ℕ)) × (new_matchers ps ≡ some ms)
      × (push_all text ms ≡ some rs)
      × (length rs ≡ length text)
      × ((i : ℕ) (r : Option ℕ) → get_elem? rs i ≡ some r → IsFirst (get_elem? text) (i + 1) 0 ps r)
matcher-IsFirst ps text h =
    let (ms, made, states) = new_matchers_lem (get_elem? text) ps h in
    let (rs, run, size, all) =
      push_all_lem (get_elem? text) 0 ps text ms
        (λ i k. let at : 0 + i ≡ i = omega arith in rw at refl) states in
    (
      ms,
      rs,
      made,
      run,
      size,
      λ i r at. let next : i + 1 ≡ suc (0 + i) = omega arith in rw next (all i r at),
    )
