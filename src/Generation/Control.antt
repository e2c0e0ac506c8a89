-- ===== src/Generation/Control.antt =====
-- Stop sequences and their matcher (generation/control.rs). The cancellation flag is an atomic that
-- another thread sets; its value is the field.
pub mod Longest
pub mod Matches
use ru_llm.Base.{
  ℕ, zero, suc, ◌+◌, ◌-◌, Bool, true, false, ◌||◌, not, Option, none, some, List, [], ◌∷◌, ◌++◌, ℤ,
  pos, negsuc, int_beq, leb, ltb, ◌==◌, if◌then◌else◌, length, get_elem?, replicate,
}
use ru_llm.Base.Results.{Result, value, error}

pub record GenerationControl : Type 0 where
  pub stop_token_sequences : List (List ℤ)
  pub cancellation : Option Bool

-- `GenerationError`, with a constructor for each message.
pub data ControlError : Type 0 where
  empty_sequence : ℕ → ControlError
  outside_vocabulary : ℕ → ℤ → ControlError

-- `token < 0 || token as usize >= vocab_size`.
abbrev pub is_outside : ℕ → ℤ → Bool
is_outside vocab_size (pos n) = leb vocab_size n
is_outside vocab_size (negsuc n) = true

unfoldable pub validate_tokens : ℕ → ℕ → List ℤ → Result ControlError (Unit {0})
validate_tokens vocab_size index [] = value tt
validate_tokens vocab_size index (token ∷ tokens) =
    let rest = validate_tokens vocab_size index tokens in
    if is_outside vocab_size token then error (outside_vocabulary index token) else rest

abbrev pub validate_pattern : ℕ → ℕ → List ℤ → Result ControlError (Unit {0})
validate_pattern vocab_size index [] = error (empty_sequence index)
validate_pattern vocab_size index (token ∷ tokens) =
    validate_tokens vocab_size index (token ∷ tokens)

-- The loop over the patterns, from `index`.
unfoldable pub validate_patterns : ℕ → ℕ → List (List ℤ) → Result ControlError (Unit {0})
unfolding validate_tokens
validate_patterns vocab_size index [] = value tt
validate_patterns vocab_size index (pattern ∷ patterns) =
    elim (validate_pattern vocab_size index pattern) [
      | error e ↦ error e
      | value _ ↦ validate_patterns vocab_size (index + 1) patterns
    ]

unfoldable pub validate_control : GenerationControl → ℕ → Result ControlError (Unit {0})
unfolding validate_patterns
validate_control c vocab_size = validate_patterns vocab_size 0 c.stop_token_sequences

unfoldable pub is_cancelled : GenerationControl → Bool
is_cancelled c = elim c.cancellation [ none ↦ false | some cancelled ↦ cancelled ]

pub data FinishReason : Type 0 where
  max_new_tokens : FinishReason
  eos_token : ℤ → FinishReason
  stop_sequence : ℕ → FinishReason
  cancelled : FinishReason

-- `while length > 0 && pattern[length] != token { length = prefix[length - 1]; }`, with the rounds
-- left first; none is a panic: an index out of range, or no round left.
unfoldable pub fall_back : List ℤ → List ℕ → ℤ → ℕ → ℕ → Option ℕ
fall_back pattern prefix token rounds zero = some 0
fall_back pattern prefix token zero (suc l) = none
fall_back pattern prefix token (suc rounds) (suc l) = elim (get_elem? pattern (suc l)) [
  | none ↦ none
  | some x ↦ if int_beq x token then some (suc l) else (elim (get_elem? prefix l) [
    | none ↦ none
    | some next ↦ fall_back pattern prefix token rounds next
  ])
]

-- `if pattern[length] == token { length += 1; }`.
abbrev pub extend_match : List ℤ → ℤ → ℕ → Option ℕ
extend_match pattern token l = elim (get_elem? pattern l) [
  | none ↦ none
  | some x ↦ some (if int_beq x token then l + 1 else l)
]

-- One step of the matched length, as `new` and `push` share it. The length falls in every round.
unfoldable pub advance : List ℤ → List ℕ → ℤ → ℕ → Option ℕ
unfolding fall_back
advance pattern prefix token l = elim (fall_back pattern prefix token l l) [
  | none ↦ none
  | some kept ↦ extend_match pattern token kept
]

-- The loop of `new` for one pattern: the tokens from `index`, the entries so far, the last first
-- in the matched length.
unfoldable pub prefix_rest : List ℤ → List ℤ → List ℕ → ℕ → Option (List ℕ)
unfolding advance
prefix_rest pattern [] prefix l = some prefix
prefix_rest pattern (token ∷ tokens) prefix l = elim (advance pattern prefix token l) [
  | none ↦ none
  | some next ↦ prefix_rest pattern tokens (prefix ++ next ∷ []) next
]

unfoldable pub prefix_function : List ℤ → Option (List ℕ)
unfolding prefix_rest
prefix_function [] = some []
prefix_function (token ∷ tokens) = prefix_rest (token ∷ tokens) tokens (0 ∷ []) 0

-- `StopSequenceMatcher`: one entry for each pattern.
pub record Matcher : Type 0 where
  pub pattern : List ℤ
  pub prefix : List ℕ
  pub matched : ℕ

unfoldable pub new_matchers : List (List ℤ) → Option (List Matcher)
unfolding prefix_function
new_matchers [] = some []
new_matchers (pattern ∷ patterns) = elim (prefix_function pattern) [
  | none ↦ none
  | some prefix ↦ elim (new_matchers patterns) [
    | none ↦ none
    | some rest ↦ some (record { pattern = pattern; prefix = prefix; matched = 0 } ∷ rest)
  ]
]

-- The body of `push`: whether the pattern is complete, and its matcher afterwards.
unfoldable pub push_one : ℤ → Matcher → Option (Bool × Matcher)
unfolding advance
push_one token m = elim (advance m.pattern m.prefix token m.matched) [
  | none ↦ none
  | some l ↦
      if l == length m.pattern
      then (elim (get_elem? m.prefix (l - 1)) [
        | none ↦ none
        | some next ↦ some (true, record m { matched = next })
      ])
      else some (false, record m { matched = l })
]

-- The loop of `push`, from `index`: the first complete pattern, and the matchers afterwards.
unfoldable pub push_from : ℕ → ℤ → List Matcher → Option (Option ℕ × List Matcher)
unfolding push_one
push_from index token [] = some (none, [])
push_from index token (m ∷ ms) = elim (push_one token m) [
  | none ↦ none
  | some (complete, m') ↦ elim (push_from (index + 1) token ms) [
    | none ↦ none
    | some (found, ms') ↦ some (if complete then some index else found, m' ∷ ms')
  ]
]

unfoldable pub push : ℤ → List Matcher → Option (Option ℕ × List Matcher)
unfolding push_from
push token ms = push_from 0 token ms
