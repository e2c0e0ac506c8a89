-- ===== src/PagedKv/Types.antt =====
-- The data of paged_kv.rs. Identifiers and counters are natural numbers with their machine bounds
-- tested by the operations; an error is a constructor in place of its formatted text.
use ru_llm.Base.{
  ℕ, ◌≡◌, ◌↔◌, Bool, ◌&&◌, true, false, Option, List, [], ◌∷◌, ℤ, Eq, arith, ◌==◌, int_beq,
  int_beq_iff,
}
use ru_llm.Runtime.Errors.{RuntimeError}

pub record Config : Type 0 where
  pub block_size : ℕ
  pub num_pages : ℕ
  pub max_sequence_length : ℕ

pub data Error : Type 0 where
  zero_config page_table_capacity : Error
  -- The error of `page_capacity`, as `from_memory_budget` passes it on.
  no_capacity : RuntimeError → Error
  sequence_exists sequence_missing : ℕ → Error
  empty_append : Error
  already_pending : ℕ → ℕ → Error
  length_overflow : Error
  above_capacity : ℕ → ℕ → ℕ → Error
  out_of_pages : ℕ → ℕ → Error
  reservation_overflow : Error
  removed_sequence : Error
  not_owner : ℕ → ℕ → Error
  committed_overflow : Error
  lookahead_count_overflow lookahead_context_overflow : Error
  lookahead_capacity lookahead_pages lookahead_prefix : Error
  reservation_missing : ℕ → Error
  partial_outside : ℕ → ℕ → Error
  duplicate_reservation : ℕ → Error
  inconsistent : ℕ → Error
  remove_pending : ℕ → ℕ → Error

pub record AppendReservation : Type 0 where
  pub id : ℕ
  pub request_id : ℕ
  pub start_position : ℕ
  pub token_count : ℕ
  pub context_length : ℕ
  pub newly_allocated_pages : List ℕ
  pub block_table : List ℕ

pub record SequenceSnapshot : Type 0 where
  pub request_id : ℕ
  pub committed_tokens : ℕ
  pub block_table : List ℕ
  pub pending_reservation : Option ℕ

pub record CacheSnapshot : Type 0 where
  pub block_size : ℕ
  pub total_pages : ℕ
  pub free_pages : ℕ
  pub sequences : List SequenceSnapshot

pub record SequenceState : Type 0 where
  pub committed_tokens : ℕ
  pub pages : List ℕ
  pub pending : Option ℕ
  pub registered_blocks : ℕ
  pub chain_hash : ℕ

pub record ReservationState : Type 0 where
  pub request_id : ℕ
  pub previous_page_count : ℕ
  pub start_position : ℕ
  pub token_count : ℕ

-- The hash of the preceding blocks, and the tokens of this one.
pub record BlockKey : Type 0 where
  pub parent : ℕ
  pub tokens : List ℤ

pub record CachedBlock : Type 0 where
  pub key : BlockKey
  pub lru_tick : Option ℕ

-- The fields of `PagedKvCacheManager` that name physical pages.
pub record PagePool : Type 0 where
  pub free_pages : List ℕ
  pub page_refs : List ℕ
  pub page_blocks : List (Option CachedBlock)
  pub block_index : List (BlockKey × ℕ)
  pub evictable : List (ℕ × ℕ)
  pub next_tick : ℕ
  pub prefix_caching : Bool

-- `PagedKvCacheManager`.
pub record Manager : Type 0 where
  pub config : Config
  pub pool : PagePool
  pub open pool use *
  pub reused_tokens : ℕ
  pub sequences : List (ℕ × SequenceState)
  pub reservations : List (ℕ × ReservationState)
  pub next_reservation : ℕ

abbrev pub tokens_beq : List ℤ → List ℤ → Bool
tokens_beq [] [] = true
tokens_beq (x ∷ xs) (y ∷ ys) = int_beq x y && tokens_beq xs ys
tokens_beq _ _ = false

pub tokens_beq_iff : (xs ys : List ℤ) → (tokens_beq xs ys ≡ true) ↔ (xs ≡ ys)
tokens_beq_iff [] [] = ground arith
tokens_beq_iff [] (y ∷ ys) = ground arith
tokens_beq_iff (x ∷ xs) [] = ground arith
tokens_beq_iff (x ∷ xs) (y ∷ ys) = ground (arith, int_beq_iff x y, tokens_beq_iff xs ys)

abbrev pub key_beq : BlockKey → BlockKey → Bool
key_beq a b = a.parent == b.parent && tokens_beq a.tokens b.tokens

pub key_beq_iff : (a b : BlockKey) → (key_beq a b ≡ true) ↔ (a ≡ b)
key_beq_iff a b = ground (arith, tokens_beq_iff a.tokens b.tokens)

instance abbrev pub block_key_eq : Eq BlockKey
block_key_eq = record { beq = key_beq; beq_iff = key_beq_iff }
