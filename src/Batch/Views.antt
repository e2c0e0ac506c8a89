-- ===== src/Batch/Views.antt =====
-- The methods of `ScheduledBatch` (continuous_batch.rs): the inputs of one device batch.
pub mod Table
use ru_llm.Base.{
  ℕ, zero, suc, ◌+◌, ◌*◌, Bool, true, false, ◌&&◌, not, List, [], ◌∷◌, ◌++◌, ℤ, max, ltb, ◌==◌,
  length, set, replicate,
}
use ru_llm.Base.Word.{u32_mod, checked_add, checked_mul}
use ru_llm.Base.Results.{Result, value, error, ◌>>=◌, ◌>>◌, ok_or, reject_when}
use ru_llm.Batch.Types.{
  ScheduledSequence, ScheduledBatch, BatchError, context_overflow, context_above_u32,
  no_physical_page, table_overflow, cannot_allocate,
}

unfoldable pub batch_size : ScheduledBatch → ℕ
batch_size b = length b.sequences

abbrev pub first_width : List ScheduledSequence → ℕ
first_width [] = 0
first_width (row ∷ rows) = length row.token_ids

unfoldable pub next_n : ScheduledBatch → ℕ
next_n b = first_width b.sequences

unfoldable pub all_tokens : List ScheduledSequence → List ℤ
all_tokens [] = []
all_tokens (row ∷ rows) = row.token_ids ++ all_tokens rows

unfoldable pub token_matrix : ScheduledBatch → List ℤ
unfolding all_tokens
token_matrix b = all_tokens b.sequences

-- `start_position.checked_add(offset).and_then(|value| value.checked_add(1))`, and the `u32`.
unfoldable pub context_length_at : ℕ → ℕ → Result BatchError ℕ
context_length_at start offset = do
  position ← ok_or (checked_add start offset) context_overflow
  length ← ok_or (checked_add position 1) context_overflow
  reject_when (not (ltb length u32_mod)) context_above_u32
  value length

-- The inner loop, over the `n` offsets from `offset`.
unfoldable pub row_lengths : ℕ → ℕ → ℕ → Result BatchError (List ℕ)
unfolding context_length_at
row_lengths start offset zero = value []
row_lengths start offset (suc n) = elim (context_length_at start offset) [
  | error e ↦ error e
  | value first ↦ elim (row_lengths start (offset + 1) n) [
    | error e ↦ error e
    | value rest ↦ value (first ∷ rest)
  ]
]

unfoldable pub all_lengths : List ScheduledSequence → Result BatchError (List ℕ)
unfolding row_lengths
all_lengths [] = value []
all_lengths (row ∷ rows) = elim (row_lengths row.start_position 0 (length row.token_ids)) [
  | error e ↦ error e
  | value first ↦ elim (all_lengths rows) [ error e ↦ error e | value rest ↦ value (first ++ rest) ]
]

unfoldable pub context_lengths : ScheduledBatch → Result BatchError (List ℕ)
unfolding all_lengths
context_lengths b = all_lengths b.sequences

-- The longest block table, `unwrap_or(0)`.
unfoldable pub widest : List ScheduledSequence → ℕ
widest [] = 0
widest (row ∷ rows) = max (length row.block_table) (widest rows)

-- The inner loop, from one place of the table.
unfoldable pub write_pages : ℕ → List ℕ → List ℕ → List ℕ
write_pages at [] table = table
write_pages at (page ∷ pages) table = write_pages (at + 1) pages (set table at page)

unfoldable pub write_rows : ℕ → ℕ → List ScheduledSequence → List ℕ → List ℕ
unfolding write_pages
write_rows stride row [] table = table
write_rows stride row (s ∷ rows) table =
    write_rows stride (row + 1) rows (write_pages (row * stride) s.block_table table)

abbrev pub is_empty {ℓ} : {A : Type ℓ} → List A → Bool
is_empty [] = true
is_empty (x ∷ xs) = false

-- `can_reserve n` is whether `try_reserve_exact` grants room for `n` numbers of 32 bits.
unfoldable pub flattened_block_table : (ℕ → Bool) → ScheduledBatch → Result BatchError (List ℕ × ℕ)
unfolding widest write_rows batch_size
flattened_block_table can_reserve b = do
  let stride : ℕ = widest b.sequences
  reject_when (stride == 0 && not (is_empty b.sequences)) no_physical_page
  size ← ok_or (checked_mul (batch_size b) stride) table_overflow
  reject_when (not (can_reserve size)) cannot_allocate
  value (write_rows stride 0 b.sequences (replicate size 0), stride)
