-- ===== src/Runtime/Shape/Spans.antt =====
-- The storage span of a layout: every index of the shape stays inside of it.
use ru_llm.Base.{
  ℕ, ◌+◌, ◌-◌, ◌*◌, ◌≤◌, ◌<◌, ◌≡◌, refl, inl, inr, false, none, some, List, [], ◌∷◌, arith,
  if◌then◌else◌, ltb,
}
use native.Mathlib.Decide.{dec_lt}
use ru_llm.Base.Word.{u64_mod}
use ru_llm.Base.Results.{value, error, Result-cases}
use ru_llm.Runtime.Errors.{Message, invalid}
use ru_llm.Runtime.Shape.{
  TensorDType, TensorLayout, bits, storage_bytes, has_zero, span_from, storage_span_elements,
  layout_bytes, validate_storage,
}

-- An index of a shape has one coordinate below each dimension.
unfoldable pub IsIndex : List ℕ → List ℕ → Type 0
IsIndex [] [] = Unit {0}
IsIndex (d ∷ ds) (i ∷ is) = (i < d) × IsIndex ds is
IsIndex _ _ = ⊥

-- Where an index stands behind the offset, and where the last one does.
unfoldable pub position : List ℕ → List ℕ → ℕ
position (s ∷ ss) (i ∷ is) = i * s + position ss is
position _ _ = 0

unfoldable pub reach : List ℕ → List ℕ → ℕ
reach (d ∷ ds) (s ∷ ss) = (d - 1) * s + reach ds ss
reach _ _ = 0

times_le : (a b s : ℕ) → a ≤ b → a * s ≤ b * s
times_le a b s h = grind arith

position-le : (ds ss is : List ℕ) → IsIndex ds is → position ss is ≤ reach ds ss
unfolding IsIndex position reach
position-le [] [] [] x = omega arith
position-le [] [] (i ∷ is) x = absurd x
position-le [] (s ∷ ss) [] x = omega arith
position-le [] (s ∷ ss) (i ∷ is) x = absurd x
position-le (d ∷ ds) ss [] x = absurd x
position-le (d ∷ ds) [] (i ∷ is) x = omega arith
position-le (d ∷ ds) (s ∷ ss) (i ∷ is) x =
    omega (arith, position-le ds ss is x.1, times_le i (d - 1) s (omega (arith, x.0)))

index_nonzero : (ds is : List ℕ) → IsIndex ds is → has_zero ds ≡ false
unfolding IsIndex has_zero
index_nonzero [] is x = refl
index_nonzero (d ∷ ds) [] x = absurd x
index_nonzero (d ∷ ds) (i ∷ is) x = ground (arith, index_nonzero ds is x.1)

pub span_from_lem :
    (n : ℕ) (ds ss : List ℕ)
    → n < u64_mod
    → span_from n ds ss ≡ (if ltb (n + reach ds ss) u64_mod then some (n + reach ds ss) else none)
unfolding span_from reach
span_from_lem n [] ss l = ground arith
span_from_lem n (d ∷ ds) [] l = ground arith
span_from_lem n (d ∷ ds) (s ∷ ss) l = elim (dec_lt (n + (d - 1) * s) u64_mod) [
  | yes small ↦ ground (arith, span_from_lem (n + (d - 1) * s) ds ss small)
  | no big ↦ ground arith
]

-- For a shape without a zero, the span is one behind the last element when that is a `usize`, and
-- an error otherwise.
pub storage_span_elements_lem :
    (l : TensorLayout)
    → l.offset_elements < u64_mod
    → has_zero l.shape ≡ false
    → storage_span_elements l ≡ (
        if ltb (l.offset_elements + reach l.shape l.strides + 1) u64_mod
        then value (l.offset_elements + reach l.shape l.strides + 1)
        else (if ltb (l.offset_elements + reach l.shape l.strides) u64_mod
            then error (invalid Message.last_offset_overflow)
            else error (invalid Message.span_overflow)))
unfolding storage_span_elements
storage_span_elements_lem l small sized =
    ground (arith, sized, span_from_lem l.offset_elements l.shape l.strides small)

-- The least number of whole bytes for the bits of the elements, or an error.
pub storage_bytes_lem :
    (dtype : TensorDType) (n b : ℕ)
    → storage_bytes dtype n ≡ value b
    → (n * bits dtype < u64_mod) × (n * bits dtype ≤ b * 8) × (b * 8 < n * bits dtype + 8)
unfolding storage_bytes
storage_bytes_lem dtype n b h = ground (arith, h)

scaled_le : (a n w : ℕ) → a < n → (a + 1) * w ≤ n * w
scaled_le a n w h = grind arith

-- A view that `validate_storage` accepts reads only inside of its allocation: the bits of every
-- element that an index of its shape names lie below the available bytes.
pub validate_storage_inside :
    (l : TensorLayout) (dtype : TensorDType) (available_bytes : ℕ) (is : List ℕ)
    → l.offset_elements < u64_mod
    → validate_storage l dtype available_bytes ≡ value tt
    → IsIndex l.shape is
    → (l.offset_elements + position l.strides is + 1) * bits dtype ≤ available_bytes * 8
unfolding validate_storage layout_bytes
validate_storage_inside l dtype available_bytes is small accepted index =
    let sized : has_zero l.shape ≡ false = index_nonzero l.shape is index in
    let span : ℕ = l.offset_elements + reach l.shape l.strides + 1 in
    let below : position l.strides is ≤ reach l.shape l.strides =
      position-le l.shape l.strides is index in
    elim (dec_lt span u64_mod) [
      | no wide ↦ absurd (ground (arith, accepted, storage_span_elements_lem l small sized))
      | yes narrow ↦
          let is_span : storage_span_elements l ≡ value span =
            ground (arith, storage_span_elements_lem l small sized) in
          elim (Result-cases (storage_bytes dtype span)) [
            | inr (e, refused) ↦ absurd (ground (arith, accepted, is_span, refused))
            | inl (b, counted) ↦
                let enough : b ≤ available_bytes = ground (arith, accepted, is_span, counted) in
                omega (
                  arith,
                  enough,
                  (storage_bytes_lem dtype span b counted).1,
                  scaled_le (l.offset_elements + position l.strides is) span (bits dtype)
                      (omega arith),
                )
          ]
    ]
