-- ===== src/Batch/Rows.antt =====
-- Building the rows of a device batch (continuous_batch.rs): `schedule_decode`,
-- `schedule_prefill`, `schedule_verify`, `rollback_scheduled_rows`, `finish_schedule`.
use ru_llm.Base.{
  ℕ, ◌+◌, ◌-◌, ◌*◌, ◌/◌, Bool, true, false, ◌&&◌, ◌||◌, not, Option, none, some, List, [], ◌∷◌,
  ◌++◌, map, ℤ, min, ltb, leb, ◌==◌, if◌then◌else◌, length, get_or, replicate, take, ok, err, panic,
  ◌>>=◌, ◌>>◌, pure, gets, modify, or_fail, expect, fail, assert, for_each,
}
use ru_llm.Base.OrdMap
use ru_llm.Base.OrdMap.{has_key}
use ru_llm.Base.Word.{u64_mod}
use ru_llm.PagedKv.Types.{AppendReservation}
use ru_llm.PagedKv.Manager.{can_append, begin_append, committed_tokens}
use ru_llm.PagedKv.Commit.{cancel_appends}
use ru_llm.PagedKv.Prefix.{slice}
use ru_llm.Batch.Types.{
  BatchKind, BatchError, BatchAction, ActiveRequest, Scheduler, ScheduledSequence, ScheduledBatch,
  on_kv, prefill, decode, awaiting_decode, in_flight_of,
}
use ru_llm.Batch.Views.{is_empty}
use ru_llm.Batch.Submit.{is_present, waits_for_prefill}

unfoldable pub scheduled_sequence : AppendReservation → List ℤ → ScheduledSequence
scheduled_sequence reservation token_ids = record {
  request_id = reservation.request_id;
  token_ids = token_ids;
  start_position = reservation.start_position;
  context_length = reservation.context_length;
  block_table = reservation.block_table;
  reservation_id = reservation.id;
}

-- Buckets of requests by the length of their next chunk and by whether it is a first chunk.
abbrev pub Bucket : Type 0
Bucket = (ℕ × Bool) × List ℕ

abbrev pub same_key : ℕ × Bool → ℕ × Bool → Bool
same_key (a, true) (b, true) = a == b
same_key (a, false) (b, false) = a == b
same_key _ _ = false

abbrev pub key_less : ℕ × Bool → ℕ × Bool → Bool
key_less (a, false) (b, true) = leb a b
key_less (a, _) (b, _) = ltb a b

-- `buckets.entry(key).or_default().push(id)`, with ascending keys.
unfoldable pub push_bucket : ℕ × Bool → ℕ → List Bucket → List Bucket
push_bucket key id [] = (key, id ∷ []) ∷ []
push_bucket key id ((k, ids) ∷ buckets) =
    let rest = push_bucket key id buckets in
    if key_less key k
    then (key, id ∷ []) ∷ (k, ids) ∷ buckets
    else if same_key key k
    then (k, ids ++ id ∷ []) ∷ buckets
    else (k, ids) ∷ rest

-- The tokens that a batch from a bucket would have, and its oldest request; a bucket has one.
abbrev pub bucket_tokens : ℕ → Bucket → ℕ
bucket_tokens limit ((n, later), ids) = min (length ids) (limit / n) * n

abbrev pub oldest : Bucket → ℕ
oldest (key, ids) = get_or ids 0 0

-- Whether the comparison of `max_by` puts `left` above `right`.
abbrev pub prefers : ℕ → Bucket → Bucket → Bool
prefers limit left right =
    ltb (bucket_tokens limit right) (bucket_tokens limit left)
    || (bucket_tokens limit left == bucket_tokens limit right && ltb (oldest left) (oldest right))

-- `max_by`, which keeps the last of equal elements.
unfoldable pub best_bucket : ℕ → Bucket → List Bucket → Bucket
best_bucket limit best [] = best
best_bucket limit best (b ∷ bs) = best_bucket limit (if prefers limit best b then best else b) bs

abbrev pub last_or : ℤ → List ℤ → ℤ
last_or x [] = x
last_or x (y ∷ ys) = last_or y ys

-- `draft.resize(n, pad)`.
abbrev pub resize : ℕ → ℤ → List ℤ → List ℤ
resize n pad draft = take n draft ++ replicate (n - length draft) pad

abbrev pub chunk_or : Option ℕ → ℕ → ℕ
chunk_or none remaining = remaining
chunk_or (some chunk) remaining = chunk

module _ {S : Type 0} where
  -- `self.active[&id]`, and `get_mut(..)` with a write through it.
  abbrev pub expect_active : ℕ → BatchAction S (ActiveRequest S)
  expect_active id s = expect (OrdMap.lookup id s.active) s

  abbrev pub put_active : ℕ → ActiveRequest S → BatchAction S (Unit {0})
  put_active id r = modify (λ s. record s { active = OrdMap.insert id r s.active })

  abbrev pub max_tokens : Scheduler S → ℕ
  max_tokens s = s.config.max_batch_tokens

  unfoldable pub rollback_scheduled_rows : List ScheduledSequence → BatchAction S (Unit {0})
  rollback_scheduled_rows rows = on_kv (cancel_appends (map (λ row. row.reservation_id) rows))

  -- An error of the call rolls the rows back, and is returned if that succeeds.
  abbrev pub or_rollback : {A : Type 0} → List ScheduledSequence → BatchAction S A → BatchAction S A
  or_rollback rows act s = elim (act s) [
    | ok a t ↦ ok a t
    | panic ↦ panic
    | err e t ↦ elim (rollback_scheduled_rows rows t) [
      | ok _ u ↦ err e u
      | err e' u ↦ err e' u
      | panic ↦ panic
    ]
  ]

  abbrev pub is_known : Scheduler S → ScheduledSequence → Bool
  is_known s row = is_present (OrdMap.lookup row.request_id s.active)

  unfoldable pub all_known : Scheduler S → List ScheduledSequence → Bool
  all_known s [] = true
  all_known s (row ∷ rows) = is_known s row && all_known s rows

  abbrev pub active_or_missing : ℕ → BatchAction S (ActiveRequest S)
  active_or_missing id s = or_fail (OrdMap.lookup id s.active) BatchError.request_disappeared s

  abbrev pub mark_in_flight : ℕ → ScheduledSequence → BatchAction S (Unit {0})
  mark_in_flight id row = do
    request ← active_or_missing row.request_id
    put_active row.request_id (record request { phase = in_flight_of id })

  abbrev pub reject_rows : List ScheduledSequence → Bool → BatchError → BatchAction S (Unit {0})
  reject_rows rows test e = if test then (do rollback_scheduled_rows rows; fail e) else pure tt

  unfoldable pub finish_schedule :
      BatchKind → List ScheduledSequence → BatchAction S (Option ScheduledBatch)
  unfolding rollback_scheduled_rows all_known for_each
  finish_schedule kind rows = if is_empty rows then pure none else (do
    id ← gets (λ s. s.next_batch)
    reject_rows rows (not (ltb (id + 1) u64_mod)) BatchError.batch_id_overflow
    known ← gets (λ s. all_known s rows)
    reject_rows rows (not known) BatchError.request_disappeared
    modify (λ s. record s { next_batch = id + 1 })
    for_each rows (mark_in_flight id)
    pure (some (record { id = id; kind = kind; sequences = rows })))

  -- The requests that wait for a decode step, with their last token.
  unfoldable pub decode_candidates : List (ℕ × ActiveRequest S) → List (ℕ × ℤ)
  decode_candidates [] = []
  decode_candidates ((id, r) ∷ rs) =
      let rest = decode_candidates rs in
      elim r.phase [ awaiting_decode token ↦ (id, token) ∷ rest | _ ↦ rest ]

  -- The loop of `schedule_decode`.
  unfoldable pub decode_rows :
      List (ℕ × ℤ) → List ScheduledSequence → BatchAction S (List ScheduledSequence)
  unfolding rollback_scheduled_rows scheduled_sequence
  decode_rows [] rows = pure rows
  decode_rows ((id, token) ∷ candidates) rows = do
    limit ← gets max_tokens
    if leb limit (length rows) then pure rows else (do
      fits ← on_kv (can_append id 1)
      if not fits then decode_rows candidates rows else (do
        reservation ← or_rollback rows (on_kv (begin_append id 1))
        decode_rows candidates (rows ++ scheduled_sequence reservation (token ∷ []) ∷ [])))

  unfoldable pub schedule_decode : BatchAction S (Option ScheduledBatch)
  unfolding decode_candidates decode_rows finish_schedule
  schedule_decode = do
    candidates ← gets (λ s. decode_candidates s.active)
    rows ← decode_rows candidates []
    finish_schedule decode rows

  -- The start and the length of the next chunk, and whether it is the last.
  unfoldable pub prefill_chunk : ℕ → ActiveRequest S → BatchAction S (ℕ × ℕ × Bool)
  prefill_chunk id request = do
    committed ← on_kv (committed_tokens id)
    chunk ← gets (λ s. s.prefill_chunk_tokens)
    limit ← gets max_tokens
    let remaining : ℕ = length request.history - committed
    let size : ℕ = min (min remaining (chunk_or chunk remaining)) limit
    pure (committed, size, committed + size == length request.history)

  abbrev pub is_ready : Scheduler S → ℕ → ActiveRequest S → ℕ → Bool
  is_ready s id request next =
      waits_for_prefill request.phase && not (has_key id s.deferred_prefill) && ltb 0 next

  -- The first loop of `schedule_prefill`.
  unfoldable pub fill_buckets :
      List (ℕ × ActiveRequest S) → List Bucket → BatchAction S (List Bucket)
  unfolding prefill_chunk push_bucket
  fill_buckets [] buckets = pure buckets
  fill_buckets ((id, request) ∷ requests) buckets = do
    (position, next, last) ← prefill_chunk id request
    ready ← gets (λ s. is_ready s id request next)
    if not ready then fill_buckets requests buckets else (do
      fits ← on_kv (can_append id next)
      if fits
          then fill_buckets requests (push_bucket (next, not (position == 0)) id buckets)
          else fill_buckets requests buckets)

  -- The second loop of `schedule_prefill`.
  unfoldable pub prefill_rows :
      ℕ → ℕ → List ℕ → List ScheduledSequence → BatchAction S (List ScheduledSequence)
  unfolding prefill_chunk rollback_scheduled_rows scheduled_sequence
  prefill_rows next_n max_rows [] rows = pure rows
  prefill_rows next_n max_rows (id ∷ candidates) rows =
      if leb max_rows (length rows) then pure rows else (do
        fits ← on_kv (can_append id next_n)
        if not fits then prefill_rows next_n max_rows candidates rows else (do
          request ← expect_active id
          (start, size, last) ← prefill_chunk id request
          assert (size == next_n)
          tokens ← (λ s. expect (slice start (start + size) request.history) s)
          reservation ← or_rollback rows (on_kv (begin_append id next_n))
          prefill_rows next_n max_rows candidates
              (rows ++ scheduled_sequence reservation tokens ∷ [])))

  abbrev pub prefill_best : ℕ → List Bucket → BatchAction S (Option ScheduledBatch)
  prefill_best limit [] = pure none
  prefill_best limit (b ∷ buckets) = do
    let ((next_n, later), candidates) : Bucket = best_bucket limit b buckets
    rows ← prefill_rows next_n (limit / next_n) candidates []
    finish_schedule prefill rows

  unfoldable pub schedule_prefill : BatchAction S (Option ScheduledBatch)
  unfolding fill_buckets prefill_rows best_bucket finish_schedule
  schedule_prefill = do
    requests ← gets (λ s. s.active)
    buckets ← fill_buckets requests []
    limit ← gets max_tokens
    prefill_best limit buckets
