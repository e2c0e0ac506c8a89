-- ===== src/Runtime/Shape/Products.antt =====
-- The element count of a layout against the product of its dimensions.
use ru_llm.Base.{
  ℕ, ◌*◌, ◌≤◌, ◌<◌, ◌≡◌, inl, inr, true, false, none, some, List, [], ◌∷◌, arith, Bool-cases,
  if◌then◌else◌, ltb, ◌==◌,
}
use native.Mathlib.Decide.{dec_lt}
use ru_llm.Base.Word.{u64_mod}
use ru_llm.Base.Results.{value, error}
use ru_llm.Runtime.Errors.{Message, invalid}
use ru_llm.Runtime.Shape.{TensorLayout, has_zero, product_from, elements}

unfoldable pub product : List ℕ → ℕ
product [] = 1
product (d ∷ ds) = d * product ds

pub mul_positive : (a b : ℕ) → 0 < a → 0 < b → 0 < a * b
mul_positive a b h k = grind arith

pub product_positive : (ds : List ℕ) → has_zero ds ≡ false → 0 < product ds
unfolding has_zero product
product_positive [] h = omega arith
product_positive (d ∷ ds) h =
    mul_positive d (product ds) (ground arith) (product_positive ds (ground arith))

pub product_zero : (ds : List ℕ) → has_zero ds ≡ true → product ds ≡ 0
unfolding has_zero product
product_zero [] h = absurd (ground arith)
product_zero (d ∷ ds) h = elim (Bool-cases (d == 0)) [
  | inl z ↦ let is : d ≡ 0 = ground arith in rw is (omega arith)
  | inr p ↦ let is : product ds ≡ 0 = ground (arith, product_zero ds) in rw is (omega arith)
]

pub grows : (n k : ℕ) → 0 < k → n ≤ n * k
grows n k h = grind arith

assoc : (n d p : ℕ) → n * (d * p) ≡ (n * d) * p
assoc n d p = grind arith

-- The fold stops exactly when the whole product leaves the word, since no dimension is zero.
pub product_from_lem :
    (n : ℕ) (ds : List ℕ)
    → has_zero ds ≡ false
    → n < u64_mod
    → product_from n ds ≡ (if ltb (n * product ds) u64_mod then some (n * product ds) else none)
unfolding has_zero product product_from
product_from_lem n [] h l = ground arith
product_from_lem n (d ∷ ds) h l =
    let rest : has_zero ds ≡ false = ground arith in
    let pos_rest : 0 < product ds = product_positive ds rest in
    let whole : n * (d * product ds) ≡ (n * d) * product ds = assoc n d (product ds) in
    elim (dec_lt (n * d) u64_mod) [
      | yes small ↦ ground (arith, whole, product_from_lem (n * d) ds rest small)
      | no big ↦ ground (arith, whole, grows (n * d) (product ds) pos_rest)
    ]

-- `elements` is the product of the dimensions when that is a `usize`, and an error otherwise.
pub elements_lem :
    (l : TensorLayout)
    → elements l ≡ (
        if ltb (product l.shape) u64_mod
        then value (product l.shape)
        else error (invalid Message.element_overflow))
unfolding elements
elements_lem l = elim (Bool-cases (has_zero l.shape)) [
  | inl zero_size ↦ ground (arith, product_zero l.shape zero_size)
  | inr sized ↦ ground (arith, product_from_lem 1 l.shape sized (omega arith))
]
