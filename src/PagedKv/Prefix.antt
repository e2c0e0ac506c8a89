-- ===== src/PagedKv/Prefix.antt =====
-- The prefix cache of paged_kv.rs: `create_sequence_with_prefix` and `register_prefix`. The hash
-- of `chain` is the standard library's `DefaultHasher`, a parameter.
use ru_llm.Base.{
  ℕ, zero, suc, ◌+◌, ◌-◌, ◌*◌, ◌/◌, Bool, true, false, not, ◌&&◌, ◌||◌, Option, none, some, List,
  [], ◌∷◌, ◌++◌, ℤ, ltb, leb, if◌then◌else◌, length, get_elem?, set, take, drop, min, ok, err,
  panic, ◌>>=◌, ◌>>◌, pure, gets, modify, assert,
}
use ru_llm.Base.HashMap
use ru_llm.Base.Word.{u64_mod}
use ru_llm.PagedKv.Types.{BlockKey, CachedBlock, PagePool, block_key_eq}
use ru_llm.PagedKv.Pool.{PoolAction, acquire_cached, read_block}
use ru_llm.PagedKv.Manager.{
  ManagerAction, on_pool, chain_root, get_sequence, expect_sequence, put_sequence, create_sequence,
}

-- `&tokens[from..to]`.
abbrev pub slice : ℕ → ℕ → List ℤ → Option (List ℤ)
slice from to tokens =
    if leb from to && leb to (length tokens)
    then some (take (to - from) (drop from tokens))
    else none

abbrev pub block_slice : ℕ → ℕ → List ℤ → Option (List ℤ)
block_slice block_size block tokens = slice (block * block_size) ((block + 1) * block_size) tokens

abbrev pub block_key : ℕ → List ℤ → BlockKey
block_key parent tokens = record { parent = parent; tokens = tokens }

-- The pages of a matched prefix, and the chain hash behind it.
pub record Match : Type 0 where
  pub parent : ℕ
  pub pages : List ℕ

module _ (chain : ℕ → List ℤ → ℕ) where
  -- `for block in 0..usable_blocks`, with the rounds left first.
  unfoldable pub match_blocks : ℕ → List ℤ → ℕ → ℕ → ℕ → List ℕ → PoolAction Match
  match_blocks block_size tokens zero block parent pages s =
      ok (record { parent = parent; pages = pages }) s
  match_blocks block_size tokens (suc k) block parent pages s =
      elim (block_slice block_size block tokens) [
        | none ↦ panic
        | some block_tokens ↦ elim (HashMap.lookup (block_key parent block_tokens) s.block_index) [
          | none ↦ ok (record { parent = parent; pages = pages }) s
          | some page ↦ elim (acquire_cached page s) [
            | ok _ t ↦
                match_blocks block_size tokens k (block + 1) (chain parent block_tokens)
                  (pages ++ page ∷ []) t
            | err e t ↦ err e t
            | panic ↦ panic
          ]
        ]
      ]

  -- The part of `create_sequence_with_prefix` behind its early return.
  abbrev pub map_prefix : ℕ → List ℤ → ManagerAction ℕ
  map_prefix id tokens = do
    block_size ← gets (λ m. m.config.block_size)
    found ←
        on_pool (match_blocks block_size tokens ((length tokens - 1) / block_size) 0 chain_root [])
    let matched = length found.pages * block_size
    q ← expect_sequence id
    put_sequence id (record q {
      registered_blocks = length found.pages;
      chain_hash = found.parent;
      committed_tokens = matched;
      pages = found.pages;
    })
    reused ← gets (λ m. m.reused_tokens)
    assert (ltb (reused + matched) u64_mod)
    modify (λ m. record m { reused_tokens = reused + matched })
    pure matched

  unfoldable pub create_sequence_with_prefix : ℕ → List ℤ → ManagerAction ℕ
  unfolding create_sequence match_blocks
  create_sequence_with_prefix id tokens = do
    create_sequence id
    caching ← gets (λ m. m.prefix_caching)
    if not caching || leb (length tokens) 1 then pure 0 else map_prefix id tokens

  abbrev pub is_none : Option CachedBlock → Bool
  is_none none = true
  is_none (some b) = false

  abbrev pub contains_key : BlockKey → PagePool → Bool
  contains_key key s = elim (HashMap.lookup key s.block_index) [ none ↦ false | some _ ↦ true ]

  abbrev pub insert_block : BlockKey → ℕ → PoolAction (Unit {0})
  insert_block key page = modify (λ s. record s {
    block_index = HashMap.insert key page s.block_index;
    page_blocks = set s.page_blocks page (some (record { key = key; lru_tick = none }));
  })

  -- The body of the `if` of `register_prefix`.
  unfoldable pub publish : BlockKey → ℕ → PoolAction (Unit {0})
  publish key page = do
    known ← gets (contains_key key)
    if known then pure tt else (do
      cached ← read_block page
      if is_none cached then insert_block key page else pure tt)

  -- `while block < complete`, with the rounds left first.
  unfoldable pub publish_blocks : ℕ → List ℤ → List ℕ → ℕ → ℕ → ℕ → PoolAction ℕ
  publish_blocks block_size tokens pages zero block parent s = ok parent s
  publish_blocks block_size tokens pages (suc k) block parent s =
      elim (block_slice block_size block tokens) [
        | none ↦ panic
        | some block_tokens ↦ elim (get_elem? pages block) [
          | none ↦ panic
          | some page ↦ elim (publish (block_key parent block_tokens) page s) [
            | ok _ t ↦
                publish_blocks block_size tokens pages k (block + 1) (chain parent block_tokens) t
            | err e t ↦ err e t
            | panic ↦ panic
          ]
        ]
      ]

  abbrev pub register_blocks : ℕ → List ℤ → ManagerAction (Unit {0})
  register_blocks id tokens = do
    block_size ← gets (λ m. m.config.block_size)
    q ← get_sequence id
    let complete = min q.committed_tokens (length tokens) / block_size
    let rounds = complete - q.registered_blocks
    parent ←
        on_pool (publish_blocks block_size tokens q.pages rounds q.registered_blocks q.chain_hash)
    q' ← expect_sequence id
    put_sequence id
        (record q' { registered_blocks = q.registered_blocks + rounds; chain_hash = parent })

  unfoldable pub register_prefix : ℕ → List ℤ → ManagerAction (Unit {0})
  unfolding get_sequence publish publish_blocks
  register_prefix id tokens = do
    caching ← gets (λ m. m.prefix_caching)
    if caching then register_blocks id tokens else pure tt
