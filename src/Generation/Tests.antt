-- ===== src/Generation/Tests.antt =====
-- Runs of the stop-sequence matcher of generation/control.rs.
use ru_llm.Base.{
  ℕ, ◌+◌, ◌≡◌, refl, arith, length, get_elem?, Option, none, some, List, [], ◌∷◌, ℤ, pos,
}
use ru_llm.Generation.Control.Matches.{IsFirst, IsNonempty, push_all, matcher-IsFirst}
use ru_llm.Generation.Control.{Matcher, prefix_function, new_matchers}

-- The pattern 1 2 1 2 3.
abbrev pattern : List ℤ
pattern = pos 1 ∷ pos 2 ∷ pos 1 ∷ pos 2 ∷ pos 3 ∷ []

prefix_run : prefix_function pattern ≡ some (0 ∷ 0 ∷ 1 ∷ 2 ∷ 0 ∷ [])
unfolding prefix_function
prefix_run = refl

-- The patterns and 2 1, over the tokens 1 2 1 2 1 2 3.
abbrev patterns : List (List ℤ)
patterns = pattern ∷ (pos 2 ∷ pos 1 ∷ []) ∷ []

abbrev text : List ℤ
text = pos 1 ∷ pos 2 ∷ pos 1 ∷ pos 2 ∷ pos 1 ∷ pos 2 ∷ pos 3 ∷ []

unfoldable all_reports : List (List ℤ) → List ℤ → Option (List (Option ℕ))
unfolding new_matchers push_all
all_reports ps tokens = elim (new_matchers ps) [ none ↦ none | some ms ↦ push_all tokens ms ]

match_run :
    all_reports patterns text ≡ some (none ∷ none ∷ some 1 ∷ none ∷ some 1 ∷ none ∷ some 0 ∷ [])
unfolding all_reports
match_run = refl

matcher-IsFirst_example :
    (ms : List Matcher) × (rs : List (Option ℕ)) × (new_matchers patterns ≡ some ms)
    × (push_all text ms ≡ some rs)
    × (length rs ≡ 7)
    × ((i : ℕ) (r : Option ℕ)
        → get_elem? rs i ≡ some r
        → IsFirst (get_elem? text) (i + 1) 0 patterns r)
unfolding IsNonempty
matcher-IsFirst_example = matcher-IsFirst patterns text (omega arith, (omega arith, tt))
