-- ===== src/Batch/Types.antt =====
-- The data of continuous_batch.rs. The sampler of a request draws from floating-point
-- distributions, so its type `S` is a parameter; the scheduler asks only whether there is one.
use ru_llm.Base.{ℕ, Bool, Option, List, ℤ, Action, ok, err, panic}
use ru_llm.PagedKv.Types.{Manager, Error}
use ru_llm.PagedKv.Manager.{ManagerAction}

pub record BatchConfig : Type 0 where
  pub max_active_sequences : ℕ
  pub max_batch_tokens : ℕ

pub data BatchKind : Type 0 where
  prefill decode verify : BatchKind

pub record SpeculativeConfig : Type 0 where
  pub draft_tokens : ℕ
  pub ngram : ℕ

pub record ScheduledSequence : Type 0 where
  pub request_id : ℕ
  pub token_ids : List ℤ
  pub start_position : ℕ
  pub context_length : ℕ
  pub block_table : List ℕ
  pub reservation_id : ℕ

pub record ScheduledBatch : Type 0 where
  pub id : ℕ
  pub kind : BatchKind
  pub sequences : List ScheduledSequence

pub record FinishedGeneration : Type 0 where
  pub request_id : ℕ
  pub prompt_token_ids : List ℤ
  pub generated_token_ids : List ℤ
  pub stopped_on_eos : Bool

pub record CancelledGeneration : Type 0 where
  pub request_id : ℕ
  pub prompt_token_ids : List ℤ
  pub generated_token_ids : List ℤ

pub record BatchSnapshot : Type 0 where
  pub pending_requests : ℕ
  pub active_requests : ℕ
  pub has_in_flight_batch : Bool
  pub finished_requests : ℕ
  pub free_kv_pages : ℕ
  pub total_kv_pages : ℕ

pub record PagedBatchSnapshot : Type 0 where
  pub batch : BatchSnapshot
  pub preemptions : ℕ
  pub prefix_cached_tokens : ℕ
  pub drafted_tokens : ℕ
  pub accepted_draft_tokens : ℕ

-- `ContinuousBatchError`, with a constructor for each message.
pub data BatchError : Type 0 where
  zero_limits zero_pending_limit zero_speculation : BatchError
  kv : Error → BatchError
  empty_prompt prompt_above_limit length_overflow above_kv_capacity negative_token : BatchError
  above_pool queue_full request_id_overflow : BatchError
  still_in_flight batch_id_overflow missing_request request_disappeared : BatchError
  wrong_row_count not_owned not_in_flight other_in_flight budgets_above_pool : BatchError
  missing_sampler needs_logits wrong_argmax in_flight_request limit_in_flight strands_prompt :
      BatchError
  context_overflow context_above_u32 no_physical_page table_overflow : BatchError
  cannot_allocate : BatchError

pub record GenerationConfig : Type 0 where
  pub max_new_tokens : ℕ
  pub eos_token_ids : List ℤ

pub record PendingRequest (S : Type 0) : Type 0 where
  pub id : ℕ
  pub prompt_token_ids : List ℤ
  pub generation : GenerationConfig
  pub sampler : Option S

pub data RequestPhase : Type 0 where
  needs_prefill : RequestPhase
  awaiting_decode : ℤ → RequestPhase
  in_flight_of : ℕ → RequestPhase

-- The field `eos` of the source is the set of `generation.eos_token_ids`.
pub record ActiveRequest (S : Type 0) : Type 0 where
  pub prompt_token_ids : List ℤ
  pub generation : GenerationConfig
  pub sampler : Option S
  pub eos : List ℤ
  pub generated_token_ids : List ℤ
  pub history : List ℤ
  pub admitted : ℕ
  pub phase : RequestPhase

pub data AdmissionPolicy : Type 0 where
  on_demand reserve_sequence_capacity : AdmissionPolicy

pub record BatchOptions : Type 0 where
  pub max_pending_requests : Option ℕ
  pub kv_admission : AdmissionPolicy

-- `ContinuousBatchScheduler`. The queues stand with their front first.
pub record Scheduler (S : Type 0) : Type 0 where
  pub config : BatchConfig
  pub options : BatchOptions
  pub kv_cache : Manager
  pub pending : List (PendingRequest S)
  pub deferred_prefill : List ℕ
  pub active : List (ℕ × ActiveRequest S)
  pub finished : List FinishedGeneration
  pub in_flight : Option ScheduledBatch
  pub prefer_prefill : Bool
  pub next_request : ℕ
  pub next_batch : ℕ
  pub prefill_chunk_tokens : Option ℕ
  pub admission_ceiling : Option ℕ
  pub recompute_preemption : Bool
  pub next_admission : ℕ
  pub preemptions : ℕ
  pub speculative : Option SpeculativeConfig
  pub speculative_turn : Bool
  pub drafted_tokens : ℕ
  pub accepted_draft_tokens : ℕ

abbrev pub BatchAction : Type 0 → Type 0 → Type 0
BatchAction S A = Action (Scheduler S) BatchError A

-- A call on the KV cache, with its error passed on.
abbrev pub on_kv : {S A : Type 0} → ManagerAction A → BatchAction S A
on_kv act s = elim (act s.kv_cache) [
  | ok a m ↦ ok a (record s { kv_cache = m })
  | err e m ↦ err (kv e) (record s { kv_cache = m })
  | panic ↦ panic
]
