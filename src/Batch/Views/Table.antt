-- ===== src/Batch/Views/Table.antt =====
-- The flattened block table of a batch: one row of pages for every sequence, padded with zeros.
use ru_llm.Base.{
  ℕ, zero, suc, ◌+◌, ◌*◌, ◌≤◌, ◌<◌, ◌≡◌, ◌⊎◌, refl, inl, inr, ◌&&◌, not, Bool, false, Option, some,
  List, [], ◌∷◌, arith, ap, ◌∙◌, sym, ltb, ◌==◌, if◌then◌else◌, length, length-set,
  length-replicate, get_elem?, get_elem?-set, get_elem?-replicate, get_or, set, replicate,
  Bool-cases,
}
use native.Mathlib.Decide.{dec_lt}
use ru_llm.Base.Word.{u64_mod}
use ru_llm.Base.Results.{value, error}
use ru_llm.Batch.Types.{
  ScheduledSequence, ScheduledBatch, BatchError, no_physical_page, table_overflow, cannot_allocate,
}
use ru_llm.Batch.Views.{
  batch_size, widest, write_pages, write_rows, is_empty, flattened_block_table,
}

length-write_pages :
    (at : ℕ) (pages table : List ℕ) → length (write_pages at pages table) ≡ length table
unfolding write_pages
length-write_pages at [] table = refl
length-write_pages at (page ∷ pages) table =
    length-write_pages (at + 1) pages (set table at page) ∙ length-set table at page

-- The pages stand from `at`, and the rest is as it was.
write_pages-outside :
    (at : ℕ) (pages table : List ℕ) (i : ℕ)
    → at + length pages ≤ length table
    → (i < at) ⊎ (at + length pages ≤ i)
    → get_elem? (write_pages at pages table) i ≡ get_elem? table i
unfolding write_pages
write_pages-outside at [] table i room out = refl
write_pages-outside at (page ∷ pages) table i room out =
    write_pages-outside (at + 1) pages (set table at page) i
      (omega (arith, room, length-set table at page))
      (elim out [ inl h ↦ inl (omega arith) | inr h ↦ inr (omega arith) ])
    ∙ get_elem?-set table at i page (omega (arith, room))
    ∙ (elim out [ inl h ↦ ground (arith, h) | inr h ↦ ground (arith, h) ])

write_pages-inside :
    (at : ℕ) (pages table : List ℕ) (j : ℕ)
    → at + length pages ≤ length table
    → j < length pages
    → get_elem? (write_pages at pages table) (at + j) ≡ get_elem? pages j
unfolding write_pages
write_pages-inside at [] table j room h = absurd (omega (arith, h))
write_pages-inside at (page ∷ pages) table zero room h =
    let here : at + zero ≡ at = omega arith in
    rw here (
      write_pages-outside (at + 1) pages (set table at page) at
        (omega (arith, room, length-set table at page)) (inl (omega arith))
      ∙ get_elem?-set table at at page (omega (arith, room))
      ∙ ground arith)
write_pages-inside at (page ∷ pages) table (suc j) room h =
    let next : at + suc j ≡ (at + 1) + j = omega arith in
    rw next (
      write_pages-inside (at + 1) pages (set table at page) j
        (omega (arith, room, length-set table at page)) (omega (arith, h)))

-- What a place of a row holds after it is written.
abbrev cell : List ℕ → ℕ → Option ℕ → Option ℕ
cell pages j old = if ltb j (length pages) then get_elem? pages j else old

write_pages-cell :
    (at : ℕ) (pages table : List ℕ) (j : ℕ)
    → at + length pages ≤ length table
    → get_elem? (write_pages at pages table) (at + j) ≡ cell pages j (get_elem? table (at + j))
write_pages-cell at pages table j room = elim (dec_lt j (length pages)) [
  | yes inside ↦ write_pages-inside at pages table j room inside ∙ ground (arith, inside)
  | no outside ↦
      write_pages-outside at pages table (at + j) room (inr (omega (arith, outside)))
      ∙ ground (arith, outside)
]

row_room :
    (stride row n size len : ℕ)
    → (row + suc n) * stride ≤ size
    → len ≤ stride
    → (row * stride + len ≤ size)
      × (row * stride + len ≤ (row + 1) * stride)
      × (((row + 1) + n) * stride ≤ size)
row_room stride row n size len h k = (grind arith, grind arith, grind arith)

write_rows-before :
    (stride row : ℕ) (rows : List ScheduledSequence) (table : List ℕ) (i : ℕ)
    → (row + length rows) * stride ≤ length table
    → widest rows ≤ stride
    → i < row * stride
    → get_elem? (write_rows stride row rows table) i ≡ get_elem? table i
unfolding write_rows widest
write_rows-before stride row [] table i room wide h = refl
write_rows-before stride row (s ∷ rows) table i room wide h =
    let len : ℕ = length s.block_table in
    let (here, below, rest) =
      row_room stride row (length rows) (length table) len room (omega (arith, wide)) in
    write_rows-before stride (row + 1) rows (write_pages (row * stride) s.block_table table) i
      (omega (arith, rest, length-write_pages (row * stride) s.block_table table))
      (omega (arith, wide)) (omega (arith, h, below))
    ∙ write_pages-outside (row * stride) s.block_table table i here (inl h)

in_row : (stride row j : ℕ) → j < stride → row * stride + j < (row + 1) * stride
in_row stride row j h = grind arith

behind_row : (stride row k j : ℕ) → (row + 1) * stride ≤ ((row + 1) + k) * stride + j
behind_row stride row k j = grind arith

write_rows-cell :
    (stride row : ℕ) (rows : List ScheduledSequence) (table : List ℕ) (k j : ℕ)
    (s : ScheduledSequence)
    → (row + length rows) * stride ≤ length table
    → widest rows ≤ stride
    → get_elem? rows k ≡ some s
    → j < stride
    → get_elem? (write_rows stride row rows table) ((row + k) * stride + j)
      ≡ cell s.block_table j (get_elem? table ((row + k) * stride + j))
unfolding write_rows widest
write_rows-cell stride row [] table k j s room wide at h = absurd (ground (arith, at))
write_rows-cell stride row (x ∷ rows) table zero j s room wide at h =
    let same : x ≡ s = ground (arith, at) in
    let first : row + zero ≡ row = omega arith in
    let (here, below, rest) =
      row_room stride row (length rows) (length table) (length x.block_table) room
        (omega (arith, wide)) in
    rw (first, sym same)
      (write_rows-before stride (row + 1) rows (write_pages (row * stride) x.block_table table)
          (row * stride + j)
          (omega (arith, rest, length-write_pages (row * stride) x.block_table table))
          (omega (arith, wide)) (in_row stride row j h)
        ∙ write_pages-cell (row * stride) x.block_table table j here)
write_rows-cell stride row (x ∷ rows) table (suc k) j s room wide at h =
    let next : row + suc k ≡ (row + 1) + k = omega arith in
    let (here, below, rest) =
      row_room stride row (length rows) (length table) (length x.block_table) room
        (omega (arith, wide)) in
    rw next (
      write_rows-cell stride (row + 1) rows (write_pages (row * stride) x.block_table table) k j s
        (omega (arith, rest, length-write_pages (row * stride) x.block_table table))
        (omega (arith, wide)) at h
      ∙ ap (cell s.block_table j) (
          write_pages-outside (row * stride) x.block_table table (((row + 1) + k) * stride + j) here
            (inr (omega (arith, below, behind_row stride row k j)))))

length-write_rows :
    (stride row : ℕ) (rows : List ScheduledSequence) (table : List ℕ)
    → length (write_rows stride row rows table) ≡ length table
unfolding write_rows
length-write_rows stride row [] table = refl
length-write_rows stride row (s ∷ rows) table =
    length-write_rows stride (row + 1) rows (write_pages (row * stride) s.block_table table)
    ∙ length-write_pages (row * stride) s.block_table table

length-le-widest :
    (rows : List ScheduledSequence) (k : ℕ) (s : ScheduledSequence)
    → get_elem? rows k ≡ some s
    → length s.block_table ≤ widest rows
unfolding widest
length-le-widest [] k s at = absurd (ground (arith, at))
length-le-widest (x ∷ rows) zero s at =
    let same : x ≡ s = ground (arith, at) in rw (sym same) (omega arith)
length-le-widest (x ∷ rows) (suc k) s at = omega (arith, length-le-widest rows k s at)

place_below : (k j n stride : ℕ) → k < n → j < stride → k * stride + j < n * stride
place_below k j n stride h l = grind arith

place_inside :
    (rows : List ScheduledSequence) (k : ℕ) (s : ScheduledSequence)
    → get_elem? rows k ≡ some s
    → k < length rows
place_inside [] k s at = absurd (ground (arith, at))
place_inside (x ∷ rows) zero s at = omega arith
place_inside (x ∷ rows) (suc k) s at = omega (arith, place_inside rows k s at)

padded : (pages : List ℕ) (j : ℕ) → cell pages j (some 0) ≡ some (get_or pages j 0)
padded [] j = ground arith
padded (p ∷ pages) zero = ground arith
padded (p ∷ pages) (suc j) = ground (arith, padded pages j)

-- A table of `stride` columns with the pages of every sequence in its row, and zeros behind them.
pub record IsTable (b : ScheduledBatch) (table : List ℕ) (stride : ℕ) : Type 0 where
  pub size : length table ≡ batch_size b * stride
  pub wide :
      (k : ℕ) (s : ScheduledSequence)
      → get_elem? b.sequences k ≡ some s
      → length s.block_table ≤ stride
  pub cells :
      (k j : ℕ) (s : ScheduledSequence)
      → get_elem? b.sequences k ≡ some s
      → j < stride
      → get_elem? table (k * stride + j) ≡ some (get_or s.block_table j 0)

positive_length {ℓ} : {A : Type ℓ} (xs : List A) → is_empty xs ≡ false → 0 < length xs
positive_length [] h = absurd (ground (arith, h))
positive_length (x ∷ xs) h = omega arith

-- Why a batch has no table.
abbrev pub NoTable : (ℕ → Bool) → ScheduledBatch → BatchError → Type 0
NoTable can_reserve b e =
    ((e ≡ no_physical_page) × (widest b.sequences ≡ 0) × (0 < batch_size b))
    ⊎ ((e ≡ table_overflow) × (u64_mod ≤ batch_size b * widest b.sequences))
    ⊎ ((e ≡ cannot_allocate) × (can_reserve (batch_size b * widest b.sequences) ≡ false))

-- Whatever allocations are granted, the flattened block table has a row for every sequence, with its
-- pages first and zeros behind them, and no page is cut off. It is an error only when there are
-- sequences and none has a page, the table is too large for a `usize`, or its allocation is refused.
pub flattened_block_table-IsTable :
    (can_reserve : ℕ → Bool) (b : ScheduledBatch)
    → ((table : List ℕ) × (stride : ℕ) × (flattened_block_table can_reserve b
          ≡ value (table, stride))
        × IsTable b table stride)
      ⊎ ((e : BatchError) × (flattened_block_table can_reserve b ≡ error e)
          × NoTable can_reserve b e)
unfolding flattened_block_table batch_size
flattened_block_table-IsTable can_reserve b =
    let stride : ℕ = widest b.sequences in
    let size : ℕ = length b.sequences * stride in
    elim (Bool-cases (stride == 0 && not (is_empty b.sequences))) [
      | inl bare ↦ inr (
        no_physical_page,
        ground (arith, bare),
        inl (refl, ground (arith, bare), positive_length b.sequences (ground (arith, bare))),
      )
      | inr paged ↦ elim (dec_lt size u64_mod) [
        | no large ↦
            inr
              (table_overflow, ground (arith, paged, large), inr (inl (refl, omega (arith, large))))
        | yes small ↦ elim (Bool-cases (can_reserve size)) [
          | inr refused ↦
              inr
                (cannot_allocate, ground (arith, paged, small, refused), inr (inr (refl, refused)))
          | inl granted ↦
              let start : List ℕ = replicate size 0 in
              let room : (0 + length b.sequences) * stride ≤ length start =
                omega (arith, length-replicate {A = ℕ} size 0) in
              inl (
                write_rows stride 0 b.sequences start,
                stride,
                ground (arith, paged, small, granted),
                record {
                  size = length-write_rows stride 0 b.sequences start ∙ length-replicate size 0;
                  wide = length-le-widest b.sequences;
                  cells = λ k j s at h.
                      let first : 0 + k ≡ k = omega arith in
                      (rw first at
                        (write_rows-cell stride 0 b.sequences start k j s room (omega arith) at h))
                      ∙ ap (cell s.block_table j) (
                          get_elem?-replicate size 0 (k * stride + j) (
                            place_below k j (length b.sequences) stride
                              (place_inside b.sequences k s at) h))
                      ∙ padded s.block_table j;
                },
              )
        ]
      ]
    ]
