-- ===== src/Runtime/Memory.antt =====
-- runtime/memory.rs: the size of a KV page, the number of pages of a budget, and
-- `PagedKvCacheConfig::from_memory_budget` of paged_kv.rs.
use ru_llm.Base.{
  ℕ, ◌+◌, ◌-◌, ◌*◌, ◌/◌, ◌≤◌, ◌<◌, ◌≡◌, ◌⊎◌, refl, inl, inr, true, false, not, ◌||◌, Option, none,
  some, List, [], ◌∷◌, arith, min, Bool-cases, ◌==◌,
}
use native.Mathlib.Decide.{dec_lt}
use ru_llm.Base.Word.{u32_mod, u64_mod, checked_sub}
use ru_llm.Base.Results.{Result, value, error, ◌>>=◌, ◌>>◌, ok_or, reject_when, Result-cases}
use ru_llm.Base.{Action, ok, err, panic, Ensures}
use ru_llm.PagedKv.Types.{Config, Error, no_capacity, zero_config}
use ru_llm.PagedKv.Manager.{validate_config, new, initial}
use ru_llm.Runtime.Errors.{RuntimeError, RuntimeErrorKind, Message, invalid}
use ru_llm.Runtime.Shape.{TensorDType, bits, has_zero, is_float, product_from, storage_bytes}
use ru_llm.Runtime.Shape.Products.{product, product_from_lem, product_positive, mul_positive}
use ru_llm.Runtime.Shape.Spans.{storage_bytes_lem}

pub record KvMemoryGeometry : Type 0 where
  pub layers : ℕ
  pub kv_heads : ℕ
  pub head_dimension : ℕ
  pub tokens_per_page : ℕ
  pub dtype : TensorDType

abbrev pub dimensions : KvMemoryGeometry → List ℕ
dimensions g = g.layers ∷ g.kv_heads ∷ g.head_dimension ∷ g.tokens_per_page ∷ []

unfoldable pub out_of_memory : Message → RuntimeError
out_of_memory msg = record { kind = RuntimeErrorKind.out_of_memory; message = msg }

-- A `usize` is a `u64`, so the `try_from` of a dimension never fails.
unfoldable pub bytes_per_page : KvMemoryGeometry → Result RuntimeError ℕ
unfolding invalid has_zero is_float product_from storage_bytes
bytes_per_page g = do
  reject_when (has_zero (dimensions g) || not (is_float g.dtype)) (invalid Message.dense_geometry)
  elements ← ok_or (product_from 2 (dimensions g)) (invalid Message.page_size_overflow)
  storage_bytes g.dtype elements

abbrev pub usable_bytes : ℕ → ℕ → ℕ → Option ℕ
usable_bytes available workspace headroom = elim (checked_sub available workspace) [
  | none ↦ none
  | some n ↦ checked_sub n headroom
]

unfoldable pub page_capacity : KvMemoryGeometry → ℕ → ℕ → ℕ → Result RuntimeError ℕ
unfolding bytes_per_page out_of_memory
page_capacity g available_bytes workspace_bytes headroom_bytes = do
  page ← bytes_per_page g
  usable ←
      ok_or (usable_bytes available_bytes workspace_bytes headroom_bytes)
        (out_of_memory Message.exceeds_available)
  reject_when (usable / page == 0) (out_of_memory Message.no_complete_page)
  value (min (usable / page) (u32_mod - 1))

bits_positive : (d : TensorDType) → 0 < bits d
unfolding bits
bits_positive d = ground arith

tokens_positive : (g : KvMemoryGeometry) → has_zero (dimensions g) ≡ false → 0 < g.tokens_per_page
unfolding has_zero
tokens_positive g h = ground arith

-- The bytes of a page: keys and values of every layer, head, dimension and token.
pub bytes_per_page_lem :
    (g : KvMemoryGeometry) (b : ℕ)
    → bytes_per_page g ≡ value b
    → (0 < b)
      × (0 < g.tokens_per_page)
      × (is_float g.dtype ≡ true)
      × (2 * product (dimensions g) * bits g.dtype ≤ b * 8)
      × (b * 8 < 2 * product (dimensions g) * bits g.dtype + 8)
unfolding bytes_per_page
bytes_per_page_lem g b h = elim (Bool-cases (has_zero (dimensions g))) [
  | inl zero_size ↦ absurd (ground (arith, h, zero_size))
  | inr sized ↦ elim (dec_lt (2 * product (dimensions g)) u64_mod) [
    | no big ↦
        absurd (ground (arith, h, sized, product_from_lem 2 (dimensions g) sized (omega arith)))
    | yes small ↦
        let float : is_float g.dtype ≡ true = ground (arith, h, sized) in
        let stored : storage_bytes g.dtype (2 * product (dimensions g)) ≡ value b =
          ground (arith, h, sized, float, product_from_lem 2 (dimensions g) sized (omega arith)) in
        let (fits, most, least) = storage_bytes_lem g.dtype (2 * product (dimensions g)) b stored in
        let some_bits : 0 < 2 * product (dimensions g) * bits g.dtype =
          mul_positive (2 * product (dimensions g)) (bits g.dtype)
            (omega (arith, product_positive (dimensions g) sized)) (bits_positive g.dtype) in
        (omega (arith, most, some_bits), tokens_positive g sized, float, most, least)
  ]
]

quotient_fits : (n d : ℕ) → 0 < d → (n / d) * d ≤ n
quotient_fits n d h = grind arith

quotient_maximal : (n d : ℕ) → 0 < d → n < (n / d + 1) * d
quotient_maximal n d h = grind arith

times_le : (a b s : ℕ) → a ≤ b → a * s ≤ b * s
times_le a b s h = grind arith

-- The pages of `page_capacity` fit behind the workspace and the headroom, they can be named by a
-- `u32`, and one page more would not fit unless the `u32` limits them.
pub page_capacity_lem :
    (g : KvMemoryGeometry) (available workspace headroom pages page : ℕ)
    → bytes_per_page g ≡ value page
    → page_capacity g available workspace headroom ≡ value pages
    → (0 < pages)
      × (pages < u32_mod)
      × (pages * page + workspace + headroom ≤ available)
      × ((pages ≡ u32_mod - 1) ⊎ (available < (pages + 1) * page + workspace + headroom))
unfolding page_capacity
page_capacity_lem g available workspace headroom pages page sized h =
    let usable : ℕ = available - workspace - headroom in
    let pos_page : 0 < page = (bytes_per_page_lem g page sized).0 in
    let count : ℕ = usable / page in
    let enough : workspace + headroom ≤ available = ground (arith, h, sized) in
    let is : (pages ≡ min count (u32_mod - 1)) × (0 < count) = ground (arith, h, sized, enough) in
    let fits : count * page ≤ usable = quotient_fits usable page pos_page in
    let most : usable < (count + 1) * page = quotient_maximal usable page pos_page in
    let below : pages * page ≤ count * page = times_le pages count page (omega (arith, is.0)) in
    elim (dec_lt count (u32_mod - 1)) [
      | yes small ↦
          let same : pages ≡ count = omega (arith, is.0) in
          (
            omega arith,
            omega arith,
            omega (arith, below),
            inr (rw same (omega (arith, most, enough))),
          )
      | no big ↦ (omega arith, omega arith, omega (arith, below), inl (omega (arith, is.0)))
    ]

-- `PagedKvCacheConfig::from_memory_budget`. `validate` reads no state.
unfoldable pub from_memory_budget :
    KvMemoryGeometry → ℕ → ℕ → ℕ → ℕ → Action (Unit {0}) Error Config
unfolding page_capacity validate_config
from_memory_budget g available_bytes workspace_bytes headroom_bytes max_sequence_length s =
    elim (page_capacity g available_bytes workspace_bytes headroom_bytes) [
      | error e ↦ err (no_capacity e) s
      | value num_pages ↦
          let c : Config = record {
            block_size = g.tokens_per_page;
            num_pages = num_pages;
            max_sequence_length = max_sequence_length;
          } in
          (elim (validate_config c s) [ ok _ t ↦ ok c t | err e t ↦ err e t | panic ↦ panic ])
    ]

page_size :
    (g : KvMemoryGeometry) (available workspace headroom pages : ℕ)
    → page_capacity g available workspace headroom ≡ value pages
    → (page : ℕ) × (bytes_per_page g ≡ value page)
unfolding page_capacity
page_size g available workspace headroom pages h = elim (Result-cases (bytes_per_page g)) [
  | inl sized ↦ sized
  | inr (e, refused) ↦ absurd (ground (arith, h, refused))
]

-- A configuration sized from a memory budget never panics. It has the pages that `page_capacity`
-- computes, which fit behind the workspace and the headroom, and a manager is made from it. It is an
-- error exactly when `page_capacity` is one, for whatever reason, and then with that error, or when
-- the sequence length is zero.
pub from_memory_budget-Ensures :
    (g : KvMemoryGeometry) (available workspace headroom max_sequence_length : ℕ)
    → Ensures
        (λ c _.
          (c.max_sequence_length ≡ max_sequence_length)
          × (0 < max_sequence_length)
          × (c.block_size ≡ g.tokens_per_page)
          × (page_capacity g available workspace headroom ≡ value c.num_pages)
          × ((page : ℕ) × (bytes_per_page g ≡ value page)
              × (c.num_pages * page + workspace + headroom ≤ available))
          × (new {S = Unit {0}} c tt ≡ ok (initial c) tt))
        (λ e _.
          ((x : RuntimeError) × (page_capacity g available workspace headroom ≡ error x)
            × (e ≡ no_capacity x))
          ⊎ (((pages : ℕ) × (page_capacity g available workspace headroom ≡ value pages))
              × (max_sequence_length ≡ 0)
              × (e ≡ zero_config)))
        (from_memory_budget g available workspace headroom max_sequence_length tt)
unfolding from_memory_budget new
from_memory_budget-Ensures g available workspace headroom longest =
    elim (Result-cases (page_capacity g available workspace headroom)) [
      | inr (e, refused) ↦
          let failed : from_memory_budget g available workspace headroom longest tt
              ≡ err (no_capacity e) tt =
            ground (arith, refused) in
          rw failed (inl (e, refused, refl))
      | inl (pages, fits) ↦
          let (page, sized) = page_size g available workspace headroom pages fits in
          let (some_pages, named, within, most) =
            page_capacity_lem g available workspace headroom pages page sized fits in
          let tokens : 0 < g.tokens_per_page = (bytes_per_page_lem g page sized).1 in
          elim (dec_lt 0 longest) [
            | no empty ↦
                let refused : from_memory_budget g available workspace headroom longest tt
                    ≡ err zero_config tt =
                  ground (arith, fits) in
                rw refused (inr ((pages, fits), omega arith, refl))
            | yes long ↦
                let c : Config = record {
                  block_size = g.tokens_per_page;
                  num_pages = pages;
                  max_sequence_length = longest;
                } in
                let made : from_memory_budget g available workspace headroom longest tt ≡ ok c tt =
                  ground (arith, fits) in
                rw made (refl, long, refl, fits, (page, sized, within), ground arith)
          ]
    ]
