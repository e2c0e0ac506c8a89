-- ===== src/Base/OrdMap.antt =====
-- Ordered maps from native numbers (`BTreeMap`, `BTreeSet`): ascending association lists.
use Prim.Native.Nat.{ℕ, ◌+◌, ◌<◌, ◌≤◌}
use mathlib.Core.Path.{◌≡◌, refl, ap}
use mathlib.Core.Logic.{inl, inr, ◌≢◌}
use mathlib.Core.Bool.{Bool, true, false}
use mathlib.Core.List.{List, [], ◌∷◌}
use mathlib.Core.Option.{Option, none, some}
use native.Mathlib.Omega.{arith}
use ru_llm.Base.Tests.{◌==◌, ltb, if◌then◌else◌, Bool-cases, ==_iff}
use ru_llm.Base.Lists.{hit, count, length}

module _ {ℓ} {V : Type ℓ} where
  unfoldable pub lookup : ℕ → List (ℕ × V) → Option V
  lookup k [] = none
  lookup k ((j, v) ∷ m) = if k == j then some v else lookup k m

  unfoldable pub insert : ℕ → V → List (ℕ × V) → List (ℕ × V)
  insert k v [] = (k, v) ∷ []
  insert k v ((j, w) ∷ m) =
      if ltb k j then (k, v) ∷ (j, w) ∷ m else if k == j then (k, v) ∷ m else (j, w) ∷ insert k v m

  unfoldable pub remove : ℕ → List (ℕ × V) → List (ℕ × V)
  remove k [] = []
  remove k ((j, w) ∷ m) = if k == j then m else (j, w) ∷ remove k m

  -- The keys ascend, and the first one is above `k`.
  abbrev pub Above : ℕ → List (ℕ × V) → Type 0
  Above k [] = Unit
  Above k ((j, w) ∷ m) = (k < j) × Above j m

  abbrev pub IsOrdered : List (ℕ × V) → Type 0
  IsOrdered [] = Unit
  IsOrdered ((j, w) ∷ m) = Above j m

  -- A sum over the values.
  unfoldable pub total : (V → ℕ) → List (ℕ × V) → ℕ
  total f [] = 0
  total f ((j, w) ∷ m) = f w + total f m

  abbrev pub value_of : (V → ℕ) → Option V → ℕ
  value_of f none = 0
  value_of f (some v) = f v

  Above-lower : (k j : ℕ) (m : List (ℕ × V)) → k < j → Above j m → Above k m
  Above-lower k j [] h a = tt
  Above-lower k j ((i, w) ∷ m) h a = (omega arith, a.1)

  pub Above-IsOrdered : (k : ℕ) (m : List (ℕ × V)) → Above k m → IsOrdered m
  Above-IsOrdered k [] a = tt
  Above-IsOrdered k ((i, w) ∷ m) a = a.1

  pub lookup-Above : (k j : ℕ) (m : List (ℕ × V)) → Above j m → k ≤ j → lookup k m ≡ none
  unfolding lookup
  lookup-Above k j [] a h = refl
  lookup-Above k j ((i, w) ∷ m) a h = ground (arith, lookup-Above k i m a.1)

  pub lookup-insert :
      (k j : ℕ) (v : V) (m : List (ℕ × V))
      → lookup j (insert k v m) ≡ (if j == k then some v else lookup j m)
  unfolding lookup insert
  lookup-insert k j v [] = refl
  lookup-insert k j v ((i, w) ∷ m) = ground (arith, lookup-insert k j v m)

  pub lookup-remove :
      (k j : ℕ) (m : List (ℕ × V))
      → IsOrdered m
      → lookup j (remove k m) ≡ (if j == k then none else lookup j m)
  unfolding lookup remove
  lookup-remove k j [] o = ground arith
  lookup-remove k j ((i, w) ∷ m) o = elim (Bool-cases (k == i)) [
    | inl e ↦ rw e (elim (Bool-cases (j == k)) [
      | inl f ↦ rw f (lookup-Above j i m o (ground arith))
      | inr f ↦ rw f (ground arith)
    ])
    | inr e ↦ rw e (ground (arith, lookup-remove k j m (Above-IsOrdered i m o)))
  ]

  insert-Above : (i k : ℕ) (v : V) (m : List (ℕ × V)) → i < k → Above i m → Above i (insert k v m)
  unfolding insert
  insert-Above i k v [] h a = ground arith
  insert-Above i k v ((j, w) ∷ m) h a = ground (arith, insert-Above j k v m, Above-lower k j m)

  pub insert-IsOrdered : (k : ℕ) (v : V) (m : List (ℕ × V)) → IsOrdered m → IsOrdered (insert k v m)
  unfolding insert
  insert-IsOrdered k v [] o = tt
  insert-IsOrdered k v ((j, w) ∷ m) o = ground (arith, insert-Above j k v m)

  remove-Above : (i k : ℕ) (m : List (ℕ × V)) → Above i m → Above i (remove k m)
  unfolding remove
  remove-Above i k [] a = tt
  remove-Above i k ((j, w) ∷ m) a = ground (arith, remove-Above j k m a.1, Above-lower i j m)

  pub remove-IsOrdered : (k : ℕ) (m : List (ℕ × V)) → IsOrdered m → IsOrdered (remove k m)
  unfolding remove
  remove-IsOrdered k [] o = tt
  remove-IsOrdered k ((j, w) ∷ m) o = ground (arith, remove-Above j k m o, Above-IsOrdered j m o)

  -- The new value replaces the old one in a sum.
  pub total-insert :
      (f : V → ℕ) (k : ℕ) (v : V) (m : List (ℕ × V))
      → IsOrdered m
      → total f (insert k v m) + value_of f (lookup k m) ≡ total f m + f v
  unfolding total insert lookup
  total-insert f k v [] o = omega arith
  total-insert f k v ((j, w) ∷ m) o =
      ground (arith, total-insert f k v m (Above-IsOrdered j m o), lookup-Above k j m o)

  pub total-remove :
      (f : V → ℕ) (k : ℕ) (m : List (ℕ × V))
      → total f (remove k m) + value_of f (lookup k m) ≡ total f m
  unfolding total remove lookup
  total-remove f k [] = omega arith
  total-remove f k ((j, w) ∷ m) = ground (arith, total-remove f k m)

  pub le-total :
      (f : V → ℕ) (k : ℕ) (v : V) (m : List (ℕ × V)) → lookup k m ≡ some v → f v ≤ total f m
  unfolding total lookup
  le-total f k v [] h = cc
  le-total f k v ((j, w) ∷ m) h = ground (arith, le-total f k v m)

module _ {ℓ} {V : Type ℓ} where
  -- A second write under the same key replaces the first.
  pub insert-insert :
      (k : ℕ) (v w : V) (m : List (ℕ × V)) → insert k w (insert k v m) ≡ insert k w m
  unfolding insert
  insert-insert k v w [] = ground arith
  insert-insert k v w ((j, u) ∷ m) = ground (arith, insert-insert k v w m)

  pub length-insert :
      (k : ℕ) (v : V) (m : List (ℕ × V)) → lookup k m ≡ none → length (insert k v m) ≡ length m + 1
  unfolding insert lookup
  length-insert k v [] h = omega arith
  length-insert k v ((j, w) ∷ m) h = ground (arith, length-insert k v m)

  pub length-remove :
      (k : ℕ) (v : V) (m : List (ℕ × V)) → lookup k m ≡ some v → length (remove k m) + 1 ≡ length m
  unfolding remove lookup
  length-remove k v [] h = cc
  length-remove k v ((j, w) ∷ m) h = ground (arith, length-remove k v m)

-- An ascending set without repetitions.
unfoldable pub insert_key : ℕ → List ℕ → List ℕ
insert_key k [] = k ∷ []
insert_key k (j ∷ s) = if ltb k j then k ∷ j ∷ s else if k == j then j ∷ s else j ∷ insert_key k s

unfoldable pub has_key : ℕ → List ℕ → Bool
has_key k [] = false
has_key k (j ∷ s) = if k == j then true else has_key k s

pub count-insert_key :
    (p k : ℕ) (s : List ℕ) → count k s ≡ 0 → count p (insert_key k s) ≡ hit p k + count p s
unfolding count insert_key
count-insert_key p k [] h = refl
count-insert_key p k (j ∷ s) h = ground (arith, count-insert_key p k s)

pub has_key-count : (k : ℕ) (s : List ℕ) → count k s ≡ 0 → has_key k s ≡ false
unfolding count has_key
has_key-count k [] h = refl
has_key-count k (j ∷ s) h = ground (arith, has_key-count k s)

pub length-insert_key :
    (k : ℕ) (s : List ℕ) → count k s ≡ 0 → length (insert_key k s) ≡ length s + 1
unfolding count insert_key
length-insert_key k [] h = omega arith
length-insert_key k (j ∷ s) h = ground (arith, length-insert_key k s)

-- A number that occurs among the values stands under some key.
pub lookup-hit :
    (p : ℕ) (m : List (ℕ × ℕ)) → IsOrdered m → 0 < total (hit p) m → (t : ℕ) × (lookup t m ≡ some p)
unfolding total lookup
lookup-hit p [] o h = absurd (omega arith)
lookup-hit p ((j, q) ∷ m) o h = elim (Bool-cases (p == q)) [
  | inl same ↦ (j, ground arith)
  | inr other ↦
      let (t, found) = lookup-hit p m (Above-IsOrdered j m o) (ground arith) in
      (t, ground (arith, lookup-Above t j m o))
]

module _ {ℓ} {V : Type ℓ} where
  -- Two entries weigh no more than the sum.
  pub two-le-total :
      (f : V → ℕ) (k j : ℕ) (v w : V) (m : List (ℕ × V))
      → IsOrdered m
      → k ≢ j
      → lookup k m ≡ some v
      → lookup j m ≡ some w
      → f v + f w ≤ total f m
  two-le-total f k j v w m o other a b =
      let rest : lookup j (remove k m) ≡ some w = ground (arith, lookup-remove k j m o) in
      ground (arith, total-remove f k m, le-total f j w (remove k m) rest)

  -- Writing what is there already changes nothing.
  pub insert-lookup :
      (k : ℕ) (v : V) (m : List (ℕ × V)) → IsOrdered m → lookup k m ≡ some v → insert k v m ≡ m
  unfolding insert lookup
  insert-lookup k v [] o h = cc
  insert-lookup k v ((j, w) ∷ m) o h = elim (Bool-cases (k == j)) [
    | inl same ↦
        let at : k ≡ j = (==_iff k j).0 same in
        let not_less : ltb k j ≡ false = ground arith in
        let stored : some w ≡ some v = rw same at h in rw (not_less, same) (cc (at, stored))
    | inr other ↦
        let below : lookup k m ≡ some v = rw other at h in
        elim (Bool-cases (ltb k j)) [
          | inl less ↦ absurd (cc (below, lookup-Above k j m o (ground arith)))
          | inr more ↦
              rw (more, other) (ap (◌∷◌ (j, w)) (insert-lookup k v m (Above-IsOrdered j m o) below))
        ]
  ]

  -- Removing what was just added changes nothing.
  pub remove-insert :
      (k : ℕ) (v : V) (m : List (ℕ × V)) → lookup k m ≡ none → remove k (insert k v m) ≡ m
  unfolding insert lookup remove
  remove-insert k v [] h = ground arith
  remove-insert k v ((j, w) ∷ m) h = ground (arith, remove-insert k v m)
