-- ===== src/Runtime/Errors.antt =====
-- runtime/error.rs: the kinds of errors, and the decision what to do after a failed batch.
use ru_llm.Base.{
  ℕ, ◌/◌, ◌<◌, ◌≤◌, ◌≡◌, Bool, true, false, ◌&&◌, ◌||◌, not, ltb, leb, if◌then◌else◌, max, arith,
}

pub data RuntimeErrorKind : Type 0 where
  invalid_input unsupported driver_incompatible out_of_memory queue_full cancelled :
      RuntimeErrorKind
  numerical device_lost synchronization worker_panicked closed internal : RuntimeErrorKind

-- The messages that the modelled code gives.
pub data Message : Type 0 where
  bit_count_overflow rank_mismatch stride_overflow element_overflow span_overflow : Message
  last_offset_overflow exceeds_allocation attention_dimensions : Message
  dense_geometry page_size_overflow exceeds_available no_complete_page : Message
  no_usable_capacity zero_reservation budget_exhausted lock_poisoned : Message
  untracked_work quarantined_scheduler no_tracked_batch stale_fence logit_shape scheduler_error :
      Message
  driver_message : ℕ → Message

pub record RuntimeError : Type 0 where
  pub kind : RuntimeErrorKind
  pub message : Message

unfoldable pub invalid : Message → RuntimeError
invalid msg = record { kind = RuntimeErrorKind.invalid_input; message = msg }

pub data WorkState : Type 0 where
  not_submitted quiescent unknown : WorkState

pub data RecoveryAction : Type 0 where
  fail_request : RecoveryAction
  retry_with_token_limit : ℕ → RecoveryAction
  retry_portable : RecoveryAction
  quarantine_device : RecoveryAction

pub record RecoveryPolicy : Type 0 where
  pub max_retries : ℕ
  pub allow_portable : Bool

-- `Default`.
abbrev pub default_policy : RecoveryPolicy
default_policy = record { max_retries = 2; allow_portable = true }

-- `matches!(error, DeviceLost | Synchronization | WorkerPanicked | Internal)`.
abbrev pub is_fatal : RuntimeErrorKind → Bool
is_fatal RuntimeErrorKind.device_lost = true
is_fatal RuntimeErrorKind.synchronization = true
is_fatal RuntimeErrorKind.worker_panicked = true
is_fatal RuntimeErrorKind.internal = true
is_fatal _ = false

abbrev pub is_unknown : WorkState → Bool
is_unknown unknown = true
is_unknown _ = false

-- The `match` on the kind.
abbrev pub retry_action : RecoveryPolicy → RuntimeErrorKind → ℕ → ℕ → Bool → RecoveryAction
retry_action policy RuntimeErrorKind.out_of_memory token_limit minimum_tokens already_portable =
    if ltb 0 minimum_tokens && ltb minimum_tokens token_limit
    then retry_with_token_limit (max (token_limit / 2) minimum_tokens)
    else fail_request
retry_action policy RuntimeErrorKind.unsupported token_limit minimum_tokens already_portable =
    if policy.allow_portable && not already_portable then retry_portable else fail_request
retry_action policy _ token_limit minimum_tokens already_portable = fail_request

-- `RecoveryPolicy::decide`.
unfoldable pub decide :
    RecoveryPolicy → RuntimeErrorKind → WorkState → Bool → ℕ → ℕ → ℕ → Bool → RecoveryAction
decide policy e work committed_cache_intact attempts token_limit minimum_tokens already_portable =
    if is_unknown work || not committed_cache_intact || is_fatal e
    then quarantine_device
    else (if leb policy.max_retries attempts
        then fail_request
        else retry_action policy e token_limit minimum_tokens already_portable)

-- Nothing says that device work may still run or that the committed cache is damaged.
abbrev pub IsRecoverable : RuntimeErrorKind → WorkState → Bool → Type 0
IsRecoverable e work intact = (is_unknown work ≡ false) × (intact ≡ true) × (is_fatal e ≡ false)

-- What a decision may rely on, and what it does to the token limit.
abbrev pub IsSafe :
    RecoveryPolicy
    → RuntimeErrorKind
    → WorkState
    → Bool
    → ℕ
    → ℕ
    → ℕ
    → Bool
    → RecoveryAction
    → Type 0
IsSafe policy e work intact attempts token_limit minimum_tokens portable fail_request =
    IsRecoverable e work intact
IsSafe policy e work intact attempts token_limit minimum_tokens portable
      (retry_with_token_limit n) =
    IsRecoverable e work intact
    × (e ≡ RuntimeErrorKind.out_of_memory)
    × (attempts < policy.max_retries)
    × (0 < n)
    × (minimum_tokens ≤ n)
    × (n < token_limit)
IsSafe policy e work intact attempts token_limit minimum_tokens portable retry_portable =
    IsRecoverable e work intact
    × (e ≡ RuntimeErrorKind.unsupported)
    × (attempts < policy.max_retries)
    × (policy.allow_portable ≡ true)
    × (portable ≡ false)
IsSafe policy e work intact attempts token_limit minimum_tokens portable quarantine_device =
    ¬ IsRecoverable e work intact

-- The device is quarantined exactly when work may still run, the committed cache is damaged or the
-- error is fatal. A retry is decided only while retries are left and for the error that it can
-- cure, and a retry with a token limit strictly lowers the limit and keeps the minimum.
pub decide-IsSafe :
    (policy : RecoveryPolicy) (e : RuntimeErrorKind) (work : WorkState) (intact : Bool)
    (attempts token_limit minimum_tokens : ℕ) (portable : Bool)
    → IsSafe policy e work intact attempts token_limit minimum_tokens portable
        (decide policy e work intact attempts token_limit minimum_tokens portable)
unfolding decide
decide-IsSafe policy e work intact attempts token_limit minimum_tokens portable = ground arith
