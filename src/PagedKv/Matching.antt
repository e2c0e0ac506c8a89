-- ===== src/PagedKv/Matching.antt =====
-- `create_sequence_with_prefix`: what the mapping of cached pages does to the manager.
use ru_llm.Base.{
  ℕ, zero, suc, ◌+◌, ◌*◌, ◌≤◌, ◌<◌, ◌≡◌, ◌∙◌, ap, refl, sym, inl, inr, subst, some, List, [], ◌∷◌,
  ◌++◌, ℤ, arith, Returns, length, count, get_elem?-none, Option-cases,
}
use mathlib.Core.Path.{fun_ext}
use native.Mathlib.Decide.{dec_lt}
use ru_llm.Base.HashMap
use ru_llm.Base.Word.{u32_mod}
use ru_llm.PagedKv.Types.{BlockKey, CachedBlock, PagePool, block_key_eq}
use ru_llm.PagedKv.Pool.Invariant.{Inv, cached_at, key_of}
use ru_llm.PagedKv.Pool.Acquire.{acquire_cached_lem}
use ru_llm.PagedKv.Pool.Allocate.{plus}
use ru_llm.PagedKv.Prefix.{Match, match_blocks, block_key}
use ru_llm.PagedKv.Publishing.{slice_inside, times_le}

-- An indexed page is one of the pool, and caches a block.
indexed_block :
    (n p : ℕ) (k : BlockKey) (owed loose : ℕ → ℕ) (s : PagePool)
    → Inv n owed loose s
    → HashMap.lookup k s.block_index ≡ some p
    → (b : CachedBlock) × (cached_at s p ≡ some b)
indexed_block n p k owed loose s v known = elim (Option-cases (cached_at s p)) [
  | inl bare ↦ absurd (ground (arith, bare, (v.indexed k p).0 known))
  | inr (b, here) ↦ (b, here)
]

cached_inside :
    (n p : ℕ) (b : CachedBlock) (owed loose : ℕ → ℕ) (s : PagePool)
    → Inv n owed loose s
    → cached_at s p ≡ some b
    → p < n
cached_inside n p b owed loose s v here = elim (dec_lt p n) [
  | yes l ↦ l
  | no g ↦ absurd (ground (arith, here, v.blocks_length, get_elem?-none s.page_blocks p))
]

-- What the loop hands out: cached pages, with one more reference each.
pub record Matched (n k : ℕ) (pages : List ℕ) (owed : ℕ → ℕ) (s : PagePool) (r : Match)
    (t : PagePool) : Type 0 where
  pub new : List ℕ
  pub found : r.pages ≡ pages ++ new
  pub few : length new ≤ k
  pub inv : Inv n (λ q. owed q + count q new) (λ _. 0) t
  pub kept : (q : ℕ) → key_of (cached_at t q) ≡ key_of (cached_at s q)
  pub tick : t.next_tick ≡ s.next_tick

append_nil {ℓ} : {A : Type ℓ} (xs : List A) → xs ++ [] ≡ xs
append_nil [] = refl
append_nil (y ∷ xs) = ap (λ t. y ∷ t) (append_nil xs)

append-cons {ℓ} : {A : Type ℓ} (xs ys : List A) (x : A) → (xs ++ x ∷ []) ++ ys ≡ xs ++ x ∷ ys
append-cons [] ys x = refl
append-cons (y ∷ xs) ys x = ap (λ t. y ∷ t) (append-cons xs ys x)

module _ (chain : ℕ → List ℤ → ℕ) (n bs : ℕ) (tokens : List ℤ) where
  pub match_blocks_lem :
      (k block parent : ℕ) (pages : List ℕ) (owed : ℕ → ℕ) (s : PagePool)
      → Inv n owed (λ _. 0) s
      → ((p : ℕ) → owed p + k < u32_mod)
      → (block + k) * bs ≤ length tokens
      → Returns (Matched n k pages owed s) (match_blocks chain bs tokens k block parent pages s)
  unfolding match_blocks count
  match_blocks_lem zero block parent pages owed s v room fits = (
    record { parent = parent; pages = pages },
    s,
    refl,
    record {
      new = [];
      found = sym (append_nil pages);
      few = omega arith;
      inv = subst (λ f. Inv n f (λ _. 0) s) (fun_ext (λ q. omega arith)) v;
      kept = λ q. refl;
      tick = refl;
    },
  )
  match_blocks_lem (suc k) block parent pages owed s v room fits =
      let inside_tokens : (block + 1) * bs ≤ length tokens =
        times_le (block + 1) (block + suc k) bs (length tokens) (omega arith) fits in
      let (xs, cut) = slice_inside bs block tokens inside_tokens in
      elim (Option-cases (HashMap.lookup (block_key parent xs) s.block_index)) [
        | inl unknown ↦ (
          record { parent = parent; pages = pages },
          s,
          ground (arith, cut, unknown),
          record {
            new = [];
            found = sym (append_nil pages);
            few = omega arith;
            inv = subst (λ f. Inv n f (λ _. 0) s) (fun_ext (λ q. omega arith)) v;
            kept = λ q. refl;
            tick = refl;
          },
        )
        | inr (p, known) ↦
            let (b, here) = indexed_block n p (block_key parent xs) owed (λ _. 0) s v known in
            let (t, ran, one) =
              acquire_cached_lem n p b owed (λ _. 0) s v here
                (cached_inside n p b owed (λ _. 0) s v here) (omega (arith, room p)) refl in
            let (r, u, rest, all) =
              match_blocks_lem k (block + 1) (chain parent xs) (pages ++ p ∷ []) (plus p owed) t
                one.inv (λ q. ground (arith, room q))
                (times_le (block + 1 + k) (block + suc k) bs (length tokens) (omega arith) fits) in
            (
              r,
              u,
              ground (arith, cut, known, ran, rest),
              record {
                new = p ∷ all.new;
                found = all.found ∙ append-cons pages all.new p;
                few = omega (arith, all.few);
                inv = subst (λ f. Inv n f (λ _. 0) u) (fun_ext (λ q. omega arith)) all.inv;
                kept = λ q. all.kept q ∙ one.kept q;
                tick = all.tick ∙ one.tick;
              },
            )
      ]
