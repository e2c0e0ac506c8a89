-- ===== src/PagedKv/Samples.antt =====
-- States of a small manager of paged_kv.rs, for the tests.
use ru_llm.Base.{◌≡◌, refl, none, some, [], ◌∷◌, arith, ok, for_each}
use ru_llm.Base.OrdMap
use ru_llm.Base.Word.{div_ceil}
use ru_llm.PagedKv.Types.{Config, AppendReservation, Manager}
use ru_llm.PagedKv.Pool.{allocate_pages, new_pool}
use ru_llm.PagedKv.Manager.{new, initial, create_sequence, begin_append, reserve, empty_sequence}
use ru_llm.PagedKv.Invariant.{ManagerInv}
use ru_llm.PagedKv.Begin.{Begun, begin_append-Ensures}
use ru_llm.PagedKv.Lifecycle.{create_sequence-Ensures, initial-Inv}

program : Unit {0}
unfolding new_pool create_sequence begin_append reserve allocate_pages for_each div_ceil new
    OrdMap.lookup OrdMap.insert OrdMap.remove OrdMap.insert_key OrdMap.has_key
program = tt

-- Three pages of two tokens, sequences of at most six tokens.
abbrev pub small : Config
small = record { block_size = 2; num_pages = 3; max_sequence_length = 6 }

abbrev pub empty : Manager
empty = initial small

pub empty-Inv : ManagerInv empty
empty-Inv = initial-Inv small (omega arith) (omega arith) (omega arith)

-- After `create_sequence(7)`.
abbrev pub created : Manager
created = record empty { sequences = (7, empty_sequence) ∷ [] }

pub created-Inv : ManagerInv created
unfolding program
created-Inv =
    let step : ManagerInv created × (created ≡ created) × (OrdMap.lookup 7 empty.sequences ≡ none) =
      create_sequence-Ensures empty empty-Inv 7 in
    step.0

-- After `begin_append(7, 3)`.
abbrev pub reservation : AppendReservation
reservation = record {
  id = 1;
  request_id = 7;
  start_position = 0;
  token_count = 3;
  context_length = 3;
  newly_allocated_pages = 0 ∷ 1 ∷ [];
  block_table = 0 ∷ 1 ∷ [];
}

abbrev pub appending : Manager
appending = record created {
  pool = record created.pool { free_pages = 2 ∷ []; page_refs = 1 ∷ 1 ∷ 0 ∷ [] };
  sequences = (7, record empty_sequence { pages = 0 ∷ 1 ∷ []; pending = some 1 }) ∷ [];
  reservations =
      (1, record { request_id = 7; previous_page_count = 0; start_position = 0; token_count = 3 })
      ∷ [];
  next_reservation = 2;
}

pub begin_run : begin_append 7 3 created ≡ ok reservation appending
unfolding program
begin_run = refl

pub appending-Inv : ManagerInv appending
unfolding program
appending-Inv =
    let step : Begun created 7 3 reservation appending =
      begin_append-Ensures created created-Inv 7 3 in
    step.inv
