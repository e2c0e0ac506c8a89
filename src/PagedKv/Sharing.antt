-- ===== src/PagedKv/Sharing.antt =====
-- How many pages of paged_kv.rs are held.
use ru_llm.Base.{
  ℕ, zero, suc, ◌+◌, ◌≤◌, ◌<◌, ◌≡◌, refl, List, [], ◌∷◌, arith, length, count, hit, min,
}
use native.Mathlib.Decide.{dec_lt}
use ru_llm.Base.OrdMap.{total}
use ru_llm.PagedKv.Types.{Manager}
use ru_llm.PagedKv.Pool.{available_pages}
use ru_llm.PagedKv.Pool.Invariant.{inside}
use ru_llm.PagedKv.Manager.{allocated_page_count}
use ru_llm.PagedKv.Invariant.{ManagerInv, owed_by}

-- `f 0 + … + f (n - 1)`.
unfoldable pub sum_below : ℕ → (ℕ → ℕ) → ℕ
sum_below zero f = 0
sum_below (suc n) f = sum_below n f + f n

sum_below-add :
    (n : ℕ) (f g h : ℕ → ℕ)
    → ((p : ℕ) → p < n → f p ≡ g p + h p)
    → sum_below n f ≡ sum_below n g + sum_below n h
unfolding sum_below
sum_below-add zero f g h e = omega arith
sum_below-add (suc n) f g h e =
    omega (arith, e n (omega arith), sum_below-add n f g h (λ p l. e p (omega arith)))

sum_below-hit : (n x : ℕ) → sum_below n (λ p. hit p x) ≡ inside n x
unfolding sum_below
sum_below-hit zero x = ground arith
sum_below-hit (suc n) x = ground (arith, sum_below-hit n x)

sum_below-zero : (n : ℕ) → sum_below n (λ p. 0) ≡ 0
unfolding sum_below
sum_below-zero zero = refl
sum_below-zero (suc n) = omega (arith, sum_below-zero n)

sum_below-inside : (k n : ℕ) → k ≤ n → sum_below k (inside n) ≡ k
unfolding sum_below
sum_below-inside zero n h = refl
sum_below-inside (suc k) n h = ground (arith, sum_below-inside k n)

-- A list of pages below `n` is as long as its counts add up to.
length-sum_below :
    (n : ℕ) (xs : List ℕ)
    → ((p : ℕ) → n ≤ p → count p xs ≡ 0)
    → length xs ≡ sum_below n (λ p. count p xs)
unfolding count
length-sum_below n [] h = omega (arith, sum_below-zero n)
length-sum_below n (x ∷ xs) h =
    let within : x < n = elim (dec_lt x n) [ yes l ↦ l | no g ↦ absurd (ground (arith, h x)) ] in
    ground (
      arith,
      sum_below-add n (λ p. hit p x + count p xs) (λ p. hit p x) (λ p. count p xs) (λ p l. refl),
      sum_below-hit n x,
      length-sum_below n xs (λ p l. omega (arith, h p l)),
    )

length-sum_below-total :
    (n : ℕ) (m : List (ℕ × ℕ))
    → ((p : ℕ) → n ≤ p → total (hit p) m ≡ 0)
    → length m ≡ sum_below n (λ p. total (hit p) m)
unfolding total
length-sum_below-total n [] h = omega (arith, sum_below-zero n)
length-sum_below-total n ((t, x) ∷ m) h =
    let within : x < n = elim (dec_lt x n) [ yes l ↦ l | no g ↦ absurd (ground (arith, h x)) ] in
    ground (
      arith,
      sum_below-add n (λ p. hit p x + total (hit p) m) (λ p. hit p x) (λ p. total (hit p) m)
          (λ p l. refl),
      sum_below-hit n x,
      length-sum_below-total n m (λ p l. omega (arith, h p l)),
    )

-- How many of the pages below `n` some sequence holds.
unfoldable pub held_pages : Manager → ℕ
held_pages m = sum_below m.config.num_pages (λ p. min 1 (owed_by m.sequences p))

-- On a well-formed manager no page is lost: the pages that some sequence holds and the available
-- ones make up all pages, and the allocated pages are exactly those that some sequence holds.
pub allocated_page_count-held_pages :
    (m : Manager)
    → ManagerInv m
    → (available_pages m.pool + held_pages m ≡ m.config.num_pages)
      × (allocated_page_count m ≡ held_pages m)
unfolding allocated_page_count held_pages
allocated_page_count-held_pages m v =
    let n : ℕ = m.config.num_pages in
    let free : length m.free_pages ≡ sum_below n (λ p. count p m.free_pages) =
      length-sum_below n m.free_pages (λ p l. ground (arith, v.pool.partition p)) in
    let parked : length m.evictable ≡ sum_below n (λ p. total (hit p) m.evictable) =
      length-sum_below-total n m.evictable (λ p l. ground (arith, v.pool.partition p)) in
    let all : available_pages m.pool + sum_below n (λ p. min 1 (owed_by m.sequences p)) ≡ n =
      omega (
        arith,
        free,
        parked,
        sum_below-inside n n (omega arith),
        sum_below-add n (inside n) (λ p. count p m.free_pages + total (hit p) m.evictable)
            (λ p. min 1 (owed_by m.sequences p)) (λ p l. omega (arith, v.pool.partition p)),
        sum_below-add n (λ p. count p m.free_pages + total (hit p) m.evictable)
            (λ p. count p m.free_pages) (λ p. total (hit p) m.evictable) (λ p l. refl),
      ) in
    (all, omega (arith, all))
