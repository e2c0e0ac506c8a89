-- ===== src/Runtime/Shape.antt =====
-- runtime/shape.rs: element types, strided tensor layouts and attention shapes.
pub mod Products
pub mod Spans
pub mod Dense
use ru_llm.Base.{
  ℕ, zero, suc, ◌+◌, ◌-◌, ◌*◌, ◌/◌, ◌%◌, Bool, true, false, ◌&&◌, ◌||◌, not, Option, none, some,
  List, [], ◌∷◌, ltb, ◌==◌, if◌then◌else◌, length, replicate,
}
use ru_llm.Base.Word.{u64_mod, checked_add, checked_mul}
use ru_llm.Base.Results.{Result, value, error, ◌>>=◌, ◌>>◌, ok_or, reject_when}
use ru_llm.Runtime.Errors.{RuntimeError, Message, invalid}

pub data TensorDType : Type 0 where
  f16 bf16 f32 f64 i8 i4 : TensorDType

unfoldable pub bits : TensorDType → ℕ
bits f16 = 16
bits bf16 = 16
bits f32 = 32
bits f64 = 64
bits i8 = 8
bits i4 = 4

-- `TensorDType::storage_bytes`.
unfoldable pub storage_bytes : TensorDType → ℕ → Result RuntimeError ℕ
unfolding bits invalid
storage_bytes dtype elements = do
  bit_count ← ok_or (checked_mul elements (bits dtype)) (invalid Message.bit_count_overflow)
  value (bit_count / 8 + (if bit_count % 8 == 0 then 0 else 1))

unfoldable pub is_float : TensorDType → Bool
is_float f16 = true
is_float bf16 = true
is_float f32 = true
is_float f64 = true
is_float _ = false

pub record TensorLayout : Type 0 where
  pub shape : List ℕ
  pub strides : List ℕ
  pub offset_elements : ℕ

-- `contains(&0)`.
unfoldable pub has_zero : List ℕ → Bool
has_zero [] = false
has_zero (d ∷ ds) = d == 0 || has_zero ds

-- The `try_fold` of `elements`.
unfoldable pub product_from : ℕ → List ℕ → Option ℕ
product_from n [] = some n
product_from n (d ∷ ds) = elim (checked_mul n d) [ none ↦ none | some m ↦ product_from m ds ]

unfoldable pub elements : TensorLayout → Result RuntimeError ℕ
unfolding invalid has_zero product_from
elements l =
    if has_zero l.shape
    then value 0
    else ok_or (product_from 1 l.shape) (invalid Message.element_overflow)

-- `(d - 1).checked_mul(s).and_then(|span| n.checked_add(span))`.
abbrev pub span_step : ℕ → ℕ → ℕ → Option ℕ
span_step n d s = elim (checked_mul (d - 1) s) [ none ↦ none | some reach ↦ checked_add n reach ]

-- The `try_fold` of `storage_span_elements` over the zipped shape and strides.
unfoldable pub span_from : ℕ → List ℕ → List ℕ → Option ℕ
span_from n (d ∷ ds) (s ∷ ss) = elim (span_step n d s) [ none ↦ none | some m ↦ span_from m ds ss ]
span_from n _ _ = some n

unfoldable pub storage_span_elements : TensorLayout → Result RuntimeError ℕ
unfolding invalid has_zero span_from
storage_span_elements l = if has_zero l.shape then value 0 else (do
  last ← ok_or (span_from l.offset_elements l.shape l.strides) (invalid Message.span_overflow)
  ok_or (checked_add last 1) (invalid Message.last_offset_overflow))

-- `TensorLayout::new`.
unfoldable pub new_layout : List ℕ → List ℕ → ℕ → Result RuntimeError TensorLayout
unfolding invalid elements storage_span_elements
new_layout shape strides offset = do
  reject_when (not (length shape == length strides)) (invalid Message.rank_mismatch)
  let l : TensorLayout = record { shape = shape; strides = strides; offset_elements = offset }
  _ ← elements l
  _ ← storage_span_elements l
  value l

-- The loop of `contiguous`, from the last dimension: the strides, and the next one.
unfoldable pub dense_strides : List ℕ → Option (List ℕ × ℕ)
dense_strides [] = some ([], 1)
dense_strides (d ∷ ds) = elim (dense_strides ds) [
  | none ↦ none
  | some (ss, stride) ↦ elim (checked_mul stride d) [
    | none ↦ none
    | some next ↦ some (stride ∷ ss, next)
  ]
]

unfoldable pub contiguous : List ℕ → Result RuntimeError TensorLayout
unfolding invalid has_zero dense_strides new_layout
contiguous shape = if has_zero shape then new_layout shape (replicate (length shape) 0) 0 else (do
  dense ← ok_or (dense_strides shape) (invalid Message.stride_overflow)
  new_layout shape dense.0 0)

-- `TensorLayout::storage_bytes`.
unfoldable pub layout_bytes : TensorLayout → TensorDType → Result RuntimeError ℕ
unfolding storage_span_elements storage_bytes
layout_bytes l dtype = do elements ← storage_span_elements l; storage_bytes dtype elements

-- The loop of `is_contiguous`, from the last dimension: the stride that is expected next, unless
-- the loop has returned.
unfoldable pub expected_stride : List ℕ → List ℕ → Option ℕ
expected_stride (d ∷ ds) (s ∷ ss) = elim (expected_stride ds ss) [
  | none ↦ none
  | some expected ↦ if ltb 1 d && not (s == expected) then none else checked_mul expected d
]
expected_stride _ _ = some 1

unfoldable pub is_contiguous : TensorLayout → Bool
unfolding has_zero expected_stride
is_contiguous l =
    if has_zero l.shape
    then true
    else (elim (expected_stride l.shape l.strides) [ none ↦ false | some _ ↦ true ])

unfoldable pub validate_storage : TensorLayout → TensorDType → ℕ → Result RuntimeError (Unit {0})
unfolding invalid layout_bytes
validate_storage l dtype available_bytes = do
  bytes ← layout_bytes l dtype
  reject_when (ltb available_bytes bytes) (invalid Message.exceeds_allocation)

pub record AttentionShape : Type 0 where
  pub batch : ℕ
  pub query_heads : ℕ
  pub kv_heads : ℕ
  pub query_tokens : ℕ
  pub cached_tokens : ℕ
  pub head_dimension : ℕ

abbrev pub attention_values : AttentionShape → List ℕ
attention_values a =
    a.batch ∷ a.query_heads ∷ a.kv_heads ∷ a.query_tokens ∷ a.cached_tokens ∷ a.head_dimension ∷ []

-- The test of `AttentionShape::validate`.
abbrev pub rejects_attention : AttentionShape → Bool
rejects_attention a =
    has_zero (attention_values a)
    || not (a.query_heads % a.kv_heads == 0)
    || ltb a.cached_tokens a.query_tokens

-- `AttentionShape::validate`.
unfoldable pub validate_attention : AttentionShape → Result RuntimeError (Unit {0})
unfolding invalid has_zero contiguous
validate_attention a = do
  reject_when (rejects_attention a) (invalid Message.attention_dimensions)
  _ ← contiguous (a.batch ∷ a.query_heads ∷ a.query_tokens ∷ a.head_dimension ∷ [])
  _ ← contiguous (a.batch ∷ a.kv_heads ∷ a.cached_tokens ∷ a.head_dimension ∷ [])
  value tt
