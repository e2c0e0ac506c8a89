-- ===== src/Batch/Submit.antt =====
-- Construction, options and the queue of `ContinuousBatchScheduler` (continuous_batch.rs,
-- continuous_batch/lifecycle.rs).
pub mod Admitted
pub mod Limits
use ru_llm.Base.{
  ℕ, zero, suc, ◌+◌, ◌-◌, ◌*◌, ◌≤◌, ◌<◌, Bool, true, false, ◌&&◌, ◌||◌, not, Option, none, some,
  List, [], ◌∷◌, ◌++◌, ℤ, pos, negsuc, max, ltb, leb, ◌==◌, if◌then◌else◌, length, Outcome, ok, err,
  panic, Action, ◌>>=◌, ◌>>◌, pure, gets, modify, or_fail, reject_if, expect, fail,
}
use ru_llm.Base.OrdMap.{has_key}
use ru_llm.Base.Word.{u64_mod, checked_add, div_ceil}
use ru_llm.PagedKv.Types.{Config, Manager}
use ru_llm.PagedKv.Pool.{set_prefix_caching}
use ru_llm.PagedKv.Manager as PagedKv
use ru_llm.PagedKv.Manager.{on_pool, free_page_count}
use ru_llm.Batch.Types.{
  BatchConfig, BatchOptions, BatchError, BatchAction, AdmissionPolicy, GenerationConfig,
  PendingRequest, ActiveRequest, RequestPhase, FinishedGeneration, Scheduler, SpeculativeConfig,
  BatchSnapshot, PagedBatchSnapshot, on_kv, on_demand, reserve_sequence_capacity, needs_prefill,
  awaiting_decode, in_flight_of,
}

-- `ContinuousBatchConfig::validate` and `ContinuousBatchOptions::validate`.
unfoldable pub validate_limits {ℓ} : {T : Type ℓ} → BatchConfig → Action T BatchError (Unit {0})
validate_limits c =
    reject_if (c.max_active_sequences == 0 || c.max_batch_tokens == 0) BatchError.zero_limits

abbrev pub is_zero_limit : Option ℕ → Bool
is_zero_limit none = false
is_zero_limit (some n) = n == 0

unfoldable pub validate_options {ℓ} : {T : Type ℓ} → BatchOptions → Action T BatchError (Unit {0})
validate_options o = reject_if (is_zero_limit o.max_pending_requests) BatchError.zero_pending_limit

-- `ContinuousBatchOptions::default`.
abbrev pub default_options : BatchOptions
default_options = record { max_pending_requests = none; kv_admission = on_demand }

-- The scheduler that `with_options` builds.
abbrev pub initial_scheduler : {S : Type 0} → BatchConfig → BatchOptions → Manager → Scheduler S
initial_scheduler config options kv_cache = record {
  config = config;
  options = options;
  kv_cache = kv_cache;
  pending = [];
  deferred_prefill = [];
  active = [];
  finished = [];
  in_flight = none;
  prefer_prefill = true;
  next_request = 1;
  next_batch = 1;
  prefill_chunk_tokens = none;
  admission_ceiling = none;
  recompute_preemption = false;
  next_admission = 0;
  preemptions = 0;
  speculative = none;
  speculative_turn = false;
  drafted_tokens = 0;
  accepted_draft_tokens = 0;
}

abbrev pub new_cache {ℓ} : {T : Type ℓ} → Config → Action T BatchError Manager
new_cache c t = elim (PagedKv.new c t) [
  | ok m u ↦ ok m u
  | err e u ↦ err (BatchError.kv e) u
  | panic ↦ panic
]

unfoldable pub with_options {ℓ} :
    {S : Type 0} {T : Type ℓ}
    → BatchConfig
    → Config
    → BatchOptions
    → Action T BatchError (Scheduler S)
unfolding validate_limits validate_options
with_options config kv_config options = do
  validate_limits config
  validate_options options
  kv_cache ← new_cache kv_config
  pure (initial_scheduler config options kv_cache)

unfoldable pub new_scheduler {ℓ} :
    {S : Type 0} {T : Type ℓ} → BatchConfig → Config → Action T BatchError (Scheduler S)
unfolding with_options
new_scheduler config kv_config = with_options config kv_config default_options

unfoldable pub new_paged {ℓ} :
    {S : Type 0} {T : Type ℓ} → BatchConfig → Config → Action T BatchError (Scheduler S)
unfolding new_scheduler
new_paged config kv_config = do
  s ← new_scheduler config kv_config
  pure (record s {
    prefill_chunk_tokens = some config.max_batch_tokens;
    recompute_preemption = true;
  })

-- `request_page_budget`: the last selected token is never fed through the model.
unfoldable pub request_page_budget : ℕ → GenerationConfig → ℕ → ℕ
request_page_budget prompt_length generation block_size =
    div_ceil (prompt_length + (generation.max_new_tokens - 1)) block_size

abbrev pub is_negative : ℤ → Bool
is_negative (pos n) = false
is_negative (negsuc n) = true

unfoldable pub any_negative : List ℤ → Bool
any_negative [] = false
any_negative (x ∷ xs) = is_negative x || any_negative xs

abbrev pub required_pages : AdmissionPolicy → ℕ → GenerationConfig → ℕ → ℕ
required_pages on_demand n generation block_size = div_ceil n block_size
required_pages reserve_sequence_capacity n generation block_size =
    request_page_budget n generation block_size

abbrev pub reaches_limit : Option ℕ → ℕ → Bool
reaches_limit none n = false
reaches_limit (some limit) n = leb limit n

abbrev pub is_whole_prompt : Option ℕ → Bool
is_whole_prompt none = true
is_whole_prompt (some n) = false

abbrev pub is_zero_speculation : Option SpeculativeConfig → Bool
is_zero_speculation none = false
is_zero_speculation (some c) = c.draft_tokens == 0 || c.ngram == 0

abbrev pub is_present {ℓ} : {A : Type ℓ} → Option A → Bool
is_present none = false
is_present (some a) = true

abbrev pub waits_for_prefill : RequestPhase → Bool
waits_for_prefill needs_prefill = true
waits_for_prefill _ = false

module _ {S : Type 0} where
  abbrev pub cache_config : Scheduler S → Config
  cache_config s = s.kv_cache.config

  -- The checks of a request that has tokens to generate.
  abbrev pub check_admission : List ℤ → GenerationConfig → BatchAction S (Unit {0})
  check_admission prompt generation = do
    kv ← gets cache_config
    policy ← gets (λ s. s.options.kv_admission)
    reject_if (ltb kv.num_pages (required_pages policy (length prompt) generation kv.block_size))
        BatchError.above_pool
    limit ← gets (λ s. s.options.max_pending_requests)
    waiting ← gets (λ s. length s.pending)
    reject_if (reaches_limit limit waiting) BatchError.queue_full

  -- The request joins the queue, or it is finished at once.
  abbrev pub enqueue : ℕ → List ℤ → GenerationConfig → Option S → BatchAction S (Unit {0})
  enqueue id prompt generation sampler =
      if generation.max_new_tokens == 0
      then modify (λ s. record s {
        finished =
            s.finished
            ++ record {
              request_id = id;
              prompt_token_ids = prompt;
              generated_token_ids = [];
              stopped_on_eos = false;
            }
              ∷ [];
      })
      else modify (λ s. record s {
        pending =
            s.pending
            ++ record {
              id = id;
              prompt_token_ids = prompt;
              generation = generation;
              sampler = sampler;
            }
              ∷ [];
      })

  unfoldable pub submit_with_sampler : List ℤ → GenerationConfig → Option S → BatchAction S ℕ
  unfolding request_page_budget any_negative
  submit_with_sampler prompt generation sampler = do
    reject_if (length prompt == 0) BatchError.empty_prompt
    chunked ← gets (λ s. s.prefill_chunk_tokens)
    limit ← gets (λ s. s.config.max_batch_tokens)
    reject_if (is_whole_prompt chunked && ltb limit (length prompt)) BatchError.prompt_above_limit
    total ← (λ s.
        or_fail (checked_add (length prompt) generation.max_new_tokens) BatchError.length_overflow
          s)
    kv ← gets cache_config
    reject_if (ltb kv.max_sequence_length total) BatchError.above_kv_capacity
    reject_if (any_negative prompt || any_negative generation.eos_token_ids)
        BatchError.negative_token
    if ltb 0 generation.max_new_tokens then check_admission prompt generation else pure tt
    id ← gets (λ s. s.next_request)
    next ← (λ s. or_fail (checked_add id 1) BatchError.request_id_overflow s)
    modify (λ s. record s { next_request = next })
    enqueue id prompt generation sampler
    pure id

  unfoldable pub submit : List ℤ → GenerationConfig → BatchAction S ℕ
  unfolding submit_with_sampler
  submit prompt generation = submit_with_sampler prompt generation none

  -- `set_prefix_caching`.
  unfoldable pub set_caching : Bool → BatchAction S (Unit {0})
  set_caching enabled = on_kv (on_pool (set_prefix_caching enabled))

  unfoldable pub set_speculative_decoding : Option SpeculativeConfig → BatchAction S (Unit {0})
  set_speculative_decoding config = do
    reject_if (is_zero_speculation config) BatchError.zero_speculation
    modify (λ s. record s { speculative = config })

  unfoldable pub pop_finished : Scheduler S → Option FinishedGeneration × Scheduler S
  pop_finished s = elim s.finished [
    | [] ↦ (none, s)
    | f ∷ rest ↦ (some f, record s { finished = rest })
  ]

  unfoldable pub snapshot : Scheduler S → BatchSnapshot
  snapshot s = record {
    pending_requests = length s.pending;
    active_requests = length s.active;
    has_in_flight_batch = is_present s.in_flight;
    finished_requests = length s.finished;
    free_kv_pages = free_page_count s.kv_cache;
    total_kv_pages = s.kv_cache.config.num_pages;
  }

  unfoldable pub paged_snapshot : Scheduler S → PagedBatchSnapshot
  unfolding snapshot
  paged_snapshot s = record {
    batch = snapshot s;
    preemptions = s.preemptions;
    prefix_cached_tokens = s.kv_cache.reused_tokens;
    drafted_tokens = s.drafted_tokens;
    accepted_draft_tokens = s.accepted_draft_tokens;
  }

  unfoldable pub is_idle : Scheduler S → Bool
  is_idle s = length s.pending == 0 && length s.active == 0 && not (is_present s.in_flight)

  unfoldable pub longest_pending : List (PendingRequest S) → ℕ
  longest_pending [] = 0
  longest_pending (r ∷ rs) = max (length r.prompt_token_ids) (longest_pending rs)

  unfoldable pub longest_prefill : List (ℕ × ActiveRequest S) → ℕ
  longest_prefill [] = 0
  longest_prefill ((id, r) ∷ rs) =
      let rest = longest_prefill rs in
      if waits_for_prefill r.phase then max (length r.prompt_token_ids) rest else rest

  -- `max().unwrap_or(1).max(1)`.
  unfoldable pub minimum_batch_token_limit : Scheduler S → ℕ
  unfolding longest_pending longest_prefill
  minimum_batch_token_limit s =
      if is_whole_prompt s.prefill_chunk_tokens
      then max (max (longest_pending s.pending) (longest_prefill s.active)) 1
      else 1

  unfoldable pub set_batch_token_limit : ℕ → BatchAction S (Unit {0})
  unfolding minimum_batch_token_limit
  set_batch_token_limit limit = do
    busy ← gets (λ s. is_present s.in_flight)
    reject_if busy BatchError.limit_in_flight
    minimum ← gets minimum_batch_token_limit
    reject_if (ltb limit minimum) BatchError.strands_prompt
    modify (λ s. record s { config = record s.config { max_batch_tokens = limit } })
