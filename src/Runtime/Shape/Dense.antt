-- ===== src/Runtime/Shape/Dense.antt =====
-- `contiguous`, `is_contiguous` and the shapes of attention.
use ru_llm.Base.{
  ℕ, zero, suc, ◌+◌, ◌-◌, ◌*◌, ◌%◌, ◌≤◌, ◌<◌, ◌≡◌, ◌⊎◌, ◌↔◌, refl, inl, inr, true, false, none,
  some, List, [], ◌∷◌, arith, Bool-cases, if◌then◌else◌, ltb, length, replicate, length-replicate,
}
use native.Mathlib.Decide.{dec_lt}
use ru_llm.Base.Word.{u64_mod}
use ru_llm.Base.Results.{value, error}
use ru_llm.Runtime.Errors.{RuntimeError, Message, invalid}
use ru_llm.Runtime.Shape.{
  TensorLayout, AttentionShape, has_zero, elements, storage_span_elements, new_layout,
  dense_strides, contiguous, is_contiguous, expected_stride, validate_attention, attention_values,
  rejects_attention,
}
use ru_llm.Runtime.Shape.Products.{product, product_zero, elements_lem, grows}
use ru_llm.Runtime.Shape.Spans.{reach, storage_span_elements_lem}

commute : (a b : ℕ) → a * b ≡ b * a
commute a b = grind arith

-- The row-major strides of a shape.
unfoldable pub row_major : List ℕ → List ℕ
row_major [] = []
row_major (d ∷ ds) = product ds ∷ row_major ds

-- The loop gives the row-major strides when the product is a `usize`, and overflows otherwise.
pub dense_strides_lem :
    (ds : List ℕ)
    → has_zero ds ≡ false
    → dense_strides ds
      ≡ (if ltb (product ds) u64_mod then some (row_major ds, product ds) else none)
unfolding has_zero dense_strides product row_major
dense_strides_lem [] h = ground arith
dense_strides_lem (d ∷ ds) h =
    let rest : has_zero ds ≡ false = ground arith in
    let turned : product ds * d ≡ d * product ds = commute (product ds) d in
    elim (dec_lt (product ds) u64_mod) [
      | yes small ↦ ground (arith, turned, dense_strides_lem ds rest)
      | no big ↦
          ground (arith, turned, dense_strides_lem ds rest, grows (product ds) d (ground arith))
    ]

length-row_major : (ds : List ℕ) → length (row_major ds) ≡ length ds
unfolding row_major
length-row_major [] = refl
length-row_major (d ∷ ds) = omega (arith, length-row_major ds)

last_step : (d p : ℕ) → 0 < d → (d - 1) * p + p ≡ d * p
last_step zero p h = absurd (omega arith)
last_step (suc d) p h = grind arith

-- A row-major layout has no holes.
pub reach-row_major : (ds : List ℕ) → has_zero ds ≡ false → reach ds (row_major ds) + 1 ≡ product ds
unfolding has_zero product row_major reach
reach-row_major [] h = refl
reach-row_major (d ∷ ds) h =
    omega (arith, last_step d (product ds) (ground arith), reach-row_major ds (ground arith))

expected-row_major :
    (ds : List ℕ)
    → has_zero ds ≡ false
    → product ds < u64_mod
    → expected_stride ds (row_major ds) ≡ some (product ds)
unfolding has_zero product row_major expected_stride
expected-row_major [] h l = refl
expected-row_major (d ∷ ds) h l =
    let rest : has_zero ds ≡ false = ground arith in
    let turned : product ds * d ≡ d * product ds = commute (product ds) d in
    let small : product ds < u64_mod =
      omega (arith, turned, l, grows (product ds) d (ground arith)) in
    ground (arith, turned, expected-row_major ds rest small)

-- What `contiguous` returns: a dense layout of the shape from the start of its storage.
pub record IsDense (shape : List ℕ) (l : TensorLayout) : Type 0 where
  pub same_shape : l.shape ≡ shape
  pub at_start : l.offset_elements ≡ 0
  pub dense : is_contiguous l ≡ true
  pub counted : elements l ≡ value (product shape)
  pub no_holes : storage_span_elements l ≡ value (product shape)

abbrev row_major_layout : List ℕ → TensorLayout
row_major_layout shape = record { shape = shape; strides = row_major shape; offset_elements = 0 }

row_major-IsDense :
    (shape : List ℕ)
    → has_zero shape ≡ false
    → product shape < u64_mod
    → IsDense shape (row_major_layout shape)
unfolding is_contiguous
row_major-IsDense shape sized small = record {
  same_shape = refl;
  at_start = refl;
  dense = ground (arith, sized, expected-row_major shape sized small);
  counted = ground (arith, elements_lem (row_major_layout shape));
  no_holes = ground (
    arith,
    storage_span_elements_lem (row_major_layout shape) (omega arith) sized,
    reach-row_major shape sized,
  );
}

abbrev empty_layout : List ℕ → TensorLayout
empty_layout shape = record {
  shape = shape;
  strides = replicate (length shape) 0;
  offset_elements = 0;
}

empty-IsDense : (shape : List ℕ) → has_zero shape ≡ true → IsDense shape (empty_layout shape)
unfolding is_contiguous storage_span_elements elements
empty-IsDense shape zero_size = record {
  same_shape = refl;
  at_start = refl;
  dense = ground (arith, zero_size);
  counted = ground (arith, zero_size, product_zero shape zero_size);
  no_holes = ground (arith, zero_size, product_zero shape zero_size);
}

-- `contiguous` gives a dense layout whenever the shape has fewer than 2 ^ 64 elements, and an
-- error otherwise.
pub contiguous-IsDense :
    (shape : List ℕ)
    → ((product shape < u64_mod)
        × ((l : TensorLayout) × (contiguous shape ≡ value l) × IsDense shape l))
      ⊎ ((u64_mod ≤ product shape) × (contiguous shape ≡ error (invalid Message.stride_overflow)))
unfolding contiguous new_layout
contiguous-IsDense shape = elim (Bool-cases (has_zero shape)) [
  | inl zero_size ↦
      let dense : IsDense shape (empty_layout shape) = empty-IsDense shape zero_size in
      inl (
        omega (arith, product_zero shape zero_size),
        (
          empty_layout shape,
          ground (
            arith,
            zero_size,
            dense.counted,
            dense.no_holes,
            length-replicate {A = ℕ} (length shape) 0,
          ),
          dense,
        ),
      )
  | inr sized ↦ elim (dec_lt (product shape) u64_mod) [
    | yes small ↦
        let dense : IsDense shape (row_major_layout shape) = row_major-IsDense shape sized small in
        inl (
          small,
          (
            row_major_layout shape,
            ground (
              arith,
              sized,
              dense_strides_lem shape sized,
              dense.counted,
              dense.no_holes,
              length-row_major shape,
            ),
            dense,
          ),
        )
    | no big ↦ inr (omega arith, ground (arith, sized, dense_strides_lem shape sized))
  ]
]

-- What `AttentionShape::validate` promises its callers.
pub record IsAttention (a : AttentionShape) : Type 0 where
  pub positive : has_zero (attention_values a) ≡ false
  pub grouped : a.query_heads % a.kv_heads ≡ 0
  pub cached : a.query_tokens ≤ a.cached_tokens
  pub queries : product (a.batch ∷ a.query_heads ∷ a.query_tokens ∷ a.head_dimension ∷ []) < u64_mod
  pub keys : product (a.batch ∷ a.kv_heads ∷ a.cached_tokens ∷ a.head_dimension ∷ []) < u64_mod

contiguous-value :
    (shape : List ℕ) (l : TensorLayout) → contiguous shape ≡ value l → product shape < u64_mod
contiguous-value shape l h = elim (contiguous-IsDense shape) [
  | inl (small, rest) ↦ small
  | inr (big, refused) ↦ absurd (ground (arith, h, refused))
]

rejects_attention_iff :
    (a : AttentionShape)
    → (rejects_attention a ≡ false) ↔ (
        (has_zero (attention_values a) ≡ false)
        × (a.query_heads % a.kv_heads ≡ 0)
        × (a.query_tokens ≤ a.cached_tokens))
rejects_attention_iff a = ground arith

validate_attention-rejects :
    (a : AttentionShape) (l l' : TensorLayout)
    → contiguous (a.batch ∷ a.query_heads ∷ a.query_tokens ∷ a.head_dimension ∷ []) ≡ value l
    → contiguous (a.batch ∷ a.kv_heads ∷ a.cached_tokens ∷ a.head_dimension ∷ []) ≡ value l'
    → (validate_attention a ≡ value tt) ↔ (rejects_attention a ≡ false)
unfolding validate_attention
validate_attention-rejects a l l' dense dense' = elim (Bool-cases (rejects_attention a)) [
  | inl bad ↦
      let refused : validate_attention a ≡ error (invalid Message.attention_dimensions) =
        rw bad refl in
      (λ h. absurd (cc (refused, h)), λ g. absurd (cc (bad, g)))
  | inr good ↦ (λ h. good, λ g. rw (good, dense, dense') refl)
]

refuses_keys :
    (a : AttentionShape) (l : TensorLayout) (e : RuntimeError)
    → contiguous (a.batch ∷ a.query_heads ∷ a.query_tokens ∷ a.head_dimension ∷ []) ≡ value l
    → contiguous (a.batch ∷ a.kv_heads ∷ a.cached_tokens ∷ a.head_dimension ∷ []) ≡ error e
    → ¬ (validate_attention a ≡ value tt)
unfolding validate_attention
refuses_keys a l e dense refused h = elim (Bool-cases (rejects_attention a)) [
  | inl bad ↦
      let refused : validate_attention a ≡ error (invalid Message.attention_dimensions) =
        rw bad refl in
      absurd (cc (refused, h))
  | inr good ↦
      let run : validate_attention a ≡ error e = rw (good, dense, refused) refl in
      absurd (cc (run, h))
]

-- A shape is accepted exactly when its dimensions are positive, the query heads divide evenly
-- among the KV heads, the queries are among the cached tokens and both tensors can be counted.
pub validate_attention_iff :
    (a : AttentionShape) → (validate_attention a ≡ value tt) ↔ IsAttention a
unfolding validate_attention
validate_attention_iff a =
    let queries : List ℕ = a.batch ∷ a.query_heads ∷ a.query_tokens ∷ a.head_dimension ∷ [] in
    let keys : List ℕ = a.batch ∷ a.kv_heads ∷ a.cached_tokens ∷ a.head_dimension ∷ [] in
    elim (contiguous-IsDense queries) [
      | inr (big, refused) ↦
          (λ h. absurd (ground (arith, h, refused)), λ v. absurd (omega (arith, big, v.queries)))
      | inl (small, (l, dense, is)) ↦ elim (contiguous-IsDense keys) [
        | inr (big, refused) ↦ (
          λ h. absurd (refuses_keys a l _ dense refused h),
          λ v. absurd (omega (arith, big, v.keys)),
        )
        | inl (small', (l', dense', is')) ↦ (
          λ h.
              let (positive, grouped, cached) =
                (rejects_attention_iff a).0
                  ((validate_attention-rejects a l l' dense dense').0 h) in
              record {
                positive = positive;
                grouped = grouped;
                cached = cached;
                queries = small;
                keys = small';
              },
          λ v.
              (validate_attention-rejects a l l' dense dense').1
                ((rejects_attention_iff a).1 (v.positive, v.grouped, v.cached)),
        )
      ]
    ]
