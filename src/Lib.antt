-- ===== src/Lib.antt =====
-- ruLLM: a model of the serving core, with the theorems that make it correct.
--
-- The program serves language models. A continuous-batching scheduler hands requests to a device
-- backend, and a paged KV cache manager decides which physical pages hold the keys and values of
-- which request. This library models the manager (src/paged_kv.rs), the scheduler
-- (src/continuous_batch.rs and src/continuous_batch), the stop sequences of a generation
-- (src/generation/control.rs), and the checks of shapes, memory and recovery that the runtime makes
-- for them (src/runtime).
--
-- - Base: shared helpers. Base/Actions is the shape of a fallible Rust method on `&mut self`: a
--   call returns a value (`ok`), returns an error with the state it has left (`err`), or panics
--   (`panic`: a failed `expect`, an index out of range, a failed `debug_assert`, an arithmetic
--   overflow). Base/OrdMap is `BTreeMap` and `BTreeSet`, Base/HashMap is `HashMap`, Base/Word the
--   bounds and checked operations of `u32`, `u64` and `usize` (64 bits).
-- - PagedKv/Types: the structs of src/paged_kv.rs. The fields of `PagedKvCacheManager` that name
--   physical pages are the record `PagePool`, a field of `Manager`. `PagedKvError` keeps a
--   constructor for each message instead of its text.
-- - PagedKv/Pool: `allocate_page`, `acquire_cached`, `release_page`, `drop_cached_block`,
--   `set_prefix_caching`, `available_pages`. The modules below it state the well-formedness of the
--   pages (PagedKv/Pool/Invariant) and what each operation does to it.
-- - PagedKv/Manager: `new`, `create_sequence`, `can_append`, `begin_append` and the readers.
-- - PagedKv/Commit: `commit_append`, `extend_append`, `commit_append_prefixes`,
--   `commit_append_partial`, `cancel_append`, `commit_appends`, `cancel_appends`,
--   `remove_sequence`, `snapshot`.
-- - PagedKv/Prefix: `create_sequence_with_prefix` and `register_prefix`. The hash `chain` is the
--   standard library's `DefaultHasher`, so it is a parameter.
-- - PagedKv/Invariant: the well-formedness of the whole manager (`ManagerInv`). Reference counts
--   are the numbers of holders, every page is free, evictable or held and only one of these, the
--   block index and the cached blocks agree, a page that a sequence may still write is not
--   published, and sequences and reservations name each other.
-- - PagedKv/Store, Begin, Finish, Ending, Lifecycle, Switch, Admission, RoundTrip, Sharing, Exclusive,
--   Publishing, Register, Matching, Reuse: the theorems, by the operations they are about.
-- - PagedKv/Run: lists of calls, performed one behind the other with the caller going on behind an
--   error.
-- - PagedKv/Groups: `commit_appends`, `cancel_appends` and `commit_append_prefixes`, which end a
--   group of reservations.
-- - PagedKv/Samples, PagedKv/Tests, PagedKv/Groups/Tests: runs at concrete inputs.
-- - Runtime/Errors (src/runtime/error.rs): the kinds of errors and `RecoveryPolicy::decide`.
--   `RuntimeError` keeps a constructor for each message instead of its text.
-- - Runtime/Shape (src/runtime/shape.rs): element types, strided layouts and attention shapes. The
--   modules below it are about the element count (Products), the storage span (Spans), and dense
--   layouts (Dense).
-- - Runtime/Memory (src/runtime/memory.rs): the bytes of a page and the pages of a budget, with
--   `PagedKvCacheConfig::from_memory_budget` of src/paged_kv.rs.
-- - Runtime/Budget (src/runtime/memory.rs): `MemoryBudget`, whose state behind the mutex is the
--   record; a poisoned lock is a field of it.
-- - Batch/Types: the structs of src/continuous_batch.rs and of its lifecycle.rs. The sampler of a
--   request is the type parameter `S`. The set `eos` is the list of its tokens.
-- - Batch/Views: the methods of `ScheduledBatch`, with Views/Table about the block table.
-- - Batch/Draft: `ngram_draft`.
-- - Batch/Submit: construction, `submit`, limits and snapshots, with Submit/Admitted about `submit` and
--   Submit/Limits about `set_batch_token_limit`.
-- - Batch/Rows: the rows of decode and prefill batches. Batch/Verify: speculative batches and
--   `take_batch`. Batch/Schedule: promotion, preemption and `schedule`. Batch/Complete:
--   `complete_batch` and `fail_batch`, with the modules below it about their checks (Owned,
--   Refused) and about the rollback (Failed). Batch/Cancel: `cancel`, with Cancel/Outcomes.
-- - Batch/Greedy: plain greedy decoding, to which speculative decoding is compared, with
--   Greedy/Verified about a row of a verification batch, over Greedy/Lengths and Greedy/Steps.
-- - Batch/Select (src/continuous_batch/sampling.rs): the tokens and samplers of a batch.
-- - Batch/Fenced (src/continuous_batch/fenced.rs): the gate that waits for the device, with
--   Fenced/Safety about its poll, Fenced/Rollback down to the cache, and Fenced/Quarantine about
--   runs of calls.
-- - Generation/Control (src/generation/control.rs): stop sequences and `StopSequenceMatcher`, one
--   `Matcher` for each pattern. Its modules are about the matched length (Longest) and the reports
--   (Matches).
-- - Runtime/Tests, Batch/Tests, Generation/Tests: the theorems at concrete inputs.
--
-- The scheduler holds the manager in its field `kv_cache` and calls its operations through
-- `on_kv`, which passes an error on. The gate holds the scheduler. Parameters of the model are the
-- hash `chain`, the sampler `S`, the logits `L` with the choice of a token from a row of them
-- (`select`) and `checked_argmax`, the fence `F` with its poll, the launch of a batch, and
-- which allocations `try_reserve_exact` grants (`can_reserve`). A panic
-- of the poll or the launch is the error `unwound`, with the state that a caller finds who catches
-- it.
--
-- Bounds. `max_sequence_length` is below 2 ^ 64 because it is a `usize`. The operations that
-- release pages take the condition `HasTicks`: the LRU counter is further below 2 ^ 64 than the
-- longest sequence is long. A counter that grows by one for each released page meets it for any
-- realistic run. For a group of reservations, `HasTicksFor` asks for that room once for each of
-- them. The mapping of a prefix adds to the `u32` reference counts and to the `u64`
-- counter of reused tokens, so its theorem asks for room in both, and for a prompt within
-- `max_sequence_length`. Loops over lists are structural, and loops over a range take the number
-- of rounds that are left. Only the loop of `schedule` has fuel: one round more than there are
-- active requests, since a round goes on only after it has emptied one of them; the model panics
-- when it runs out. The inner loop of the matcher has as many rounds as tokens are matched, since
-- the matched length falls in each.
--
-- Not modelled: the texts of errors, what the gate's `Drop` does with an open fence, the readers
-- that return one field, and the parts of the program that are floating-point, device or I/O code
-- or not reached yet: samplers, sessions, device backends, model families, checkpoint
-- loading, training, the tiered prefix cache, disaggregated serving and the HTTP server.
pub mod Base
pub mod PagedKv
pub mod Runtime
pub mod Batch
pub mod Generation
