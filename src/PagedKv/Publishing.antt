-- ===== src/PagedKv/Publishing.antt =====
-- `register_prefix`: what the publication of complete blocks does to the manager.
use ru_llm.Base.{
  ◌∙◌, ℕ, zero, suc, ◌+◌, ◌-◌, ◌*◌, ◌≤◌, ◌<◌, ◌≡◌, ◌⊎◌, refl, inl, inr, none, some, List, [], ◌∷◌,
  ℤ, arith, ok, Returns, length, count, take, drop, get_elem?, set, ◌==◌, Bool-cases, Option-cases,
  ==_iff,
}
use ru_llm.Base.HashMap
use ru_llm.PagedKv.Types.{BlockKey, PagePool, block_key_eq}
use ru_llm.PagedKv.Pool.{available_pages}
use ru_llm.PagedKv.Pool.Invariant.{Inv, cached_at}
use ru_llm.PagedKv.Pool.Blocks.{cached_at-set}
use ru_llm.PagedKv.Pool.Allocate.{block_at}
use ru_llm.PagedKv.Pool.Publish.{publish-Inv, published}
use ru_llm.PagedKv.Prefix.{publish, publish_blocks, block_slice, block_key}

pub slice_inside :
    (bs block : ℕ) (tokens : List ℤ)
    → (block + 1) * bs ≤ length tokens
    → (xs : List ℤ) × (block_slice bs block tokens ≡ some xs)
slice_inside bs block tokens h =
    let up : block * bs ≤ (block + 1) * bs = grind arith in
    (take ((block + 1) * bs - block * bs) (drop (block * bs) tokens), ground (arith, up))

pub times_le : (a c bs len : ℕ) → a ≤ c → c * bs ≤ len → a * bs ≤ len
times_le a c bs len h l = grind arith

page_inside :
    (xs : List ℕ) (i c : ℕ)
    → i < length xs
    → i < c
    → (p : ℕ) × (get_elem? xs i ≡ some p) × (0 < count p (take c xs))
unfolding count
page_inside [] i c h l = absurd (omega arith)
page_inside (x ∷ xs) i zero h l = absurd (omega arith)
page_inside (x ∷ xs) zero (suc c) h l = (x, refl, ground arith)
page_inside (x ∷ xs) (suc i) (suc c) h l =
    let (p, at, many) = page_inside xs i c (omega arith) (omega arith) in
    (p, at, omega (arith, many))

-- What one publication of `p` keeps.
record Publishes (n p : ℕ) (owed : ℕ → ℕ) (s t : PagePool) : Type 0 where
  pub inv : Inv n owed (λ _. 0) t
  pub kept : (q : ℕ) → cached_at s q ≡ none → (cached_at t q ≡ none) ⊎ (q ≡ p)
  pub tick : t.next_tick ≡ s.next_tick
  pub available : available_pages t ≡ available_pages s

module _ (chain : ℕ → List ℤ → ℕ) (n p : ℕ) (owed : ℕ → ℕ) (s : PagePool)
    (v : Inv n owed (λ _. 0) s) (used : 0 < owed p) where
  held_inside : p < n
  held_inside = ground (arith, v.partition p)

  publish_lem :
      (k : BlockKey) → (t : PagePool) × (publish chain k p s ≡ ok tt t) × Publishes n p owed s t
  unfolding publish
  publish_lem k = elim (Option-cases (HashMap.lookup k s.block_index)) [
    | inr (other, known) ↦
        (s, ground arith, record { inv = v; kept = λ q h. inl h; tick = refl; available = refl })
    | inl unknown ↦ elim (Option-cases (cached_at s p)) [
      | inr (b, here) ↦ (
        s,
        ground (arith, block_at n p owed (λ _. 0) s v held_inside, here),
        record { inv = v; kept = λ q h. inl h; tick = refl; available = refl },
      )
      | inl bare ↦ (
        record s {
          block_index = HashMap.insert k p s.block_index;
          page_blocks = set s.page_blocks p (some (published k));
        },
        ground (arith, block_at n p owed (λ _. 0) s v held_inside, bare),
        record {
          inv = publish-Inv n p k owed (λ _. 0) s v bare unknown held_inside used;
          kept = λ q h. elim (Bool-cases (q == p)) [
            | inl same ↦ inr ((==_iff q p).0 same)
            | inr apart ↦ inl (
                ground (
                  arith,
                  held_inside,
                  v.blocks_length,
                  cached_at-set s.page_blocks p q (some (published k)),
                ))
          ];
          tick = refl;
          available = refl;
        },
      )
    ]
  ]

-- What the loop keeps: only the pages of complete blocks are published.
pub record PublishesAll (n c : ℕ) (pages : List ℕ) (owed : ℕ → ℕ) (s t : PagePool) : Type 0 where
  pub inv : Inv n owed (λ _. 0) t
  pub kept : (q : ℕ) → cached_at s q ≡ none → (cached_at t q ≡ none) ⊎ (0 < count q (take c pages))
  pub tick : t.next_tick ≡ s.next_tick
  pub available : available_pages t ≡ available_pages s

module _ (chain : ℕ → List ℤ → ℕ) (n bs c : ℕ) (tokens : List ℤ) (pages : List ℕ) (owed : ℕ → ℕ)
    (held : (p : ℕ) → 0 < count p (take c pages) → 0 < owed p) (enough : c ≤ length pages)
    (complete : c * bs ≤ length tokens) where
  pub publish_blocks_lem :
      (k block parent : ℕ) (s : PagePool)
      → Inv n owed (λ _. 0) s
      → (0 < k → block + k ≤ c)
      → Returns
          (λ _ t. PublishesAll n c pages owed s t)
          (publish_blocks chain bs tokens pages k block parent s)
  unfolding publish_blocks
  publish_blocks_lem zero block parent s v h =
      (parent, s, refl, record { inv = v; kept = λ q e. inl e; tick = refl; available = refl })
  publish_blocks_lem (suc k) block parent s v h =
      let last : block + 1 ≤ c = omega (arith, h (omega arith)) in
      let inside_tokens : (block + 1) * bs ≤ length tokens =
        times_le (block + 1) c bs (length tokens) last complete in
      let (xs, cut) = slice_inside bs block tokens inside_tokens in
      let (p, at, many) = page_inside pages block c (omega arith) (omega arith) in
      let (t, ran, one) = publish_lem chain n p owed s v (held p many) (block_key parent xs) in
      let (hash, u, rest, all) =
        publish_blocks_lem k (block + 1) (chain parent xs) t one.inv
          (λ l. omega (arith, h (omega arith))) in
      (
        hash,
        u,
        ground (arith, cut, at, ran, rest),
        record {
          inv = all.inv;
          kept = λ q e. elim (one.kept q e) [
            | inl bare ↦ all.kept q bare
            | inr same ↦ inr (rw same many)
          ];
          tick = all.tick ∙ one.tick;
          available = omega (arith, all.available, one.available);
        },
      )
