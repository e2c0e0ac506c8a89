-- ===== src/Runtime/Tests.antt =====
-- The theorems on runtime/ at concrete inputs.
use ru_llm.Base.{
  ℕ, ◌≡◌, ◌≤◌, ◌<◌, ◌*◌, ◌+◌, ◌-◌, ◌⊎◌, ◌↔◌, refl, true, false, some, List, [], ◌∷◌, arith, ok,
}
use ru_llm.Base.Word.{u32_mod, u64_mod}
use ru_llm.Base.Results.{value, error}
use ru_llm.PagedKv.Types.{Config}
use ru_llm.PagedKv.Manager.{new, initial}
use ru_llm.Runtime.Errors.{
  RuntimeErrorKind, default_policy, decide, decide-IsSafe, quiescent, retry_with_token_limit,
  invalid, Message,
}
use ru_llm.Runtime.Shape.{
  TensorLayout, TensorDType, AttentionShape, elements, validate_storage, contiguous,
  validate_attention, bits,
}
use ru_llm.Runtime.Shape.Products.{elements_lem, product}
use ru_llm.Runtime.Shape.Spans.{validate_storage_inside, position, IsIndex}
use ru_llm.Runtime.Shape.Dense.{IsDense, IsAttention, contiguous-IsDense, validate_attention_iff}
use ru_llm.Runtime.Memory.{
  KvMemoryGeometry, bytes_per_page, page_capacity, page_capacity_lem, from_memory_budget,
  from_memory_budget-Ensures,
}
use ru_llm.Runtime.Budget.{
  MemoryBudget, MemoryReservation, BudgetInv, Use, World, use_budget, held_bytes,
  use_budget-BudgetInv,
}

-- Out of memory after one retry, with a limit of ten tokens and at least three.
decide-IsSafe_example :
    (decide default_policy RuntimeErrorKind.out_of_memory quiescent true 1 10 3 false
      ≡ retry_with_token_limit 5)
    × (5 < 10)
unfolding decide
decide-IsSafe_example =
    let safe =
      decide-IsSafe default_policy RuntimeErrorKind.out_of_memory quiescent true 1 10 3 false in
    (refl, safe.5)

-- Two rows of three elements, the rows four elements apart.
abbrev padded : TensorLayout
padded = record { shape = 2 ∷ 3 ∷ []; strides = 4 ∷ 1 ∷ []; offset_elements = 1 }

elements_lem_example : elements padded ≡ value 6
unfolding product
elements_lem_example = elements_lem padded

-- The element of the second row and the third column.
validate_storage_inside_example : (1 + 6 + 1) * 16 ≤ 16 * 8
unfolding validate_storage position bits IsIndex
validate_storage_inside_example =
    validate_storage_inside padded TensorDType.f16 16 (1 ∷ 2 ∷ []) (omega arith) refl
      (omega arith, (omega arith, tt))

abbrev two_by_three : List ℕ
two_by_three = 2 ∷ 3 ∷ []

contiguous-IsDense_example :
    ((6 < u64_mod)
      × ((l : TensorLayout) × (contiguous two_by_three ≡ value l) × IsDense two_by_three l))
    ⊎ ((u64_mod ≤ 6) × (contiguous two_by_three ≡ error (invalid Message.stride_overflow)))
unfolding product
contiguous-IsDense_example = contiguous-IsDense two_by_three

-- Four query heads over two KV heads.
abbrev grouped_heads : AttentionShape
grouped_heads = record {
  batch = 1;
  query_heads = 4;
  kv_heads = 2;
  query_tokens = 3;
  cached_tokens = 5;
  head_dimension = 8;
}

validate_attention_iff_example :
    (validate_attention grouped_heads ≡ value tt) ↔ IsAttention grouped_heads
validate_attention_iff_example = validate_attention_iff grouped_heads

-- Pages of 2 * 2 * 2 * 4 * 16 elements of two bytes.
abbrev geometry : KvMemoryGeometry
geometry = record {
  layers = 2;
  kv_heads = 2;
  head_dimension = 4;
  tokens_per_page = 16;
  dtype = TensorDType.f16;
}

page_capacity_lem_example :
    (0 < 3)
    × (3 < u32_mod)
    × (3 * 1024 + 100 + 50 ≤ 4000)
    × ((3 ≡ u32_mod - 1) ⊎ (4000 < (3 + 1) * 1024 + 100 + 50))
unfolding page_capacity bytes_per_page
page_capacity_lem_example = page_capacity_lem geometry 4000 100 50 3 1024 refl refl

from_memory_budget-Ensures_example :
    let c : Config = record { block_size = 16; num_pages = 3; max_sequence_length = 40 } in
    (c.max_sequence_length ≡ 40)
    × (0 < 40)
    × (c.block_size ≡ geometry.tokens_per_page)
    × (page_capacity geometry 4000 100 50 ≡ value 3)
    × ((page : ℕ) × (bytes_per_page geometry ≡ value page) × (3 * page + 100 + 50 ≤ 4000))
    × (new {S = Unit {0}} c tt ≡ ok (initial c) tt)
unfolding from_memory_budget
from_memory_budget-Ensures_example = from_memory_budget-Ensures geometry 4000 100 50 40

abbrev fresh_budget : MemoryBudget
fresh_budget = record { limit = 90; reserved = 0; peak = 0; poisoned = false }

fresh_budget-BudgetInv : BudgetInv fresh_budget []
unfolding held_bytes
fresh_budget-BudgetInv = record {
  exact = refl;
  limited = omega arith;
  peaked = omega arith;
  word = omega arith;
}

abbrev thirty : MemoryReservation
thirty = record { bytes = 30 }

-- Thirty bytes are reserved, a hundred are refused, and the thirty are dropped.
use_budget-BudgetInv_example :
    (w : World) × (use_budget
        (Use.reserve 30 ∷ Use.reserve 100 ∷ Use.drop_at 0 ∷ [])
        (fresh_budget, [])
      ≡ some w)
    × BudgetInv w.0 w.1
    × (w.0.limit ≡ 90)
use_budget-BudgetInv_example =
    use_budget-BudgetInv (Use.reserve 30 ∷ Use.reserve 100 ∷ Use.drop_at 0 ∷ []) fresh_budget []
      fresh_budget-BudgetInv
