-- ===== src/Base/Actions.antt =====
-- Fallible methods on a state: a call returns a value, returns an error, or panics. A panic is a
-- failed `expect`, an index out of range, a failed `debug_assert` or an arithmetic overflow.
use mathlib.Core.Path.{◌≡◌, refl, sym, subst, ap}
use mathlib.Core.Bool.{Bool, true, false}
use mathlib.Core.Option.{Option, none, some}
use mathlib.Core.List.{List, [], ◌∷◌}

pub data Outcome {ℓ κ μ} (S : Type ℓ) (E : Type κ) (A : Type μ) : Type (ℓ ⊔ κ ⊔ μ) where
  ok : A → S → Outcome S E A
  err : E → S → Outcome S E A
  panic : Outcome S E A

abbrev pub Action {ℓ κ μ} : Type ℓ → Type κ → Type μ → Type (ℓ ⊔ κ ⊔ μ)
Action S E A = S → Outcome S E A

infixl 5 ◌>>=◌ ◌>>◌
abbrev pub ◌>>=◌ {ℓ κ μ ν} :
    {S : Type ℓ} {E : Type κ} {A : Type μ} {B : Type ν}
    → Action S E A
    → (A → Action S E B)
    → Action S E B
◌>>=◌ m f s = elim (m s) [ ok a t ↦ f a t | err e t ↦ err e t | panic ↦ panic ]

abbrev pub ◌>>◌ {ℓ κ μ} :
    {S : Type ℓ} {E : Type κ} {B : Type μ} → Action S E (Unit {0}) → Action S E B → Action S E B
◌>>◌ m k s = elim (m s) [ ok a t ↦ k t | err e t ↦ err e t | panic ↦ panic ]

module _ {ℓ κ μ} {S : Type ℓ} {E : Type κ} {A : Type μ} where
  abbrev pub pure : A → Action S E A
  pure a s = ok a s

  abbrev pub gets : (S → A) → Action S E A
  gets f s = ok (f s) s

  abbrev pub fail : E → Action S E A
  fail e s = err e s

  abbrev pub abort : Action S E A
  abort s = panic

  -- `ok_or(e)?` and `expect`.
  abbrev pub or_fail : Option A → E → Action S E A
  or_fail none e s = err e s
  or_fail (some a) e s = ok a s

  abbrev pub expect : Option A → Action S E A
  expect none s = panic
  expect (some a) s = ok a s

module _ {ℓ κ} {S : Type ℓ} {E : Type κ} where
  abbrev pub modify : (S → S) → Action S E (Unit {0})
  modify f s = ok tt (f s)

  -- `if test { return Err(e) }`, and an assertion.
  abbrev pub reject_if : Bool → E → Action S E (Unit {0})
  reject_if true e s = err e s
  reject_if false e s = ok tt s

  abbrev pub assert : Bool → Action S E (Unit {0})
  assert true s = ok tt s
  assert false s = panic

  -- `for x in xs { body(x)?; }`
  unfoldable pub for_each {μ} :
      {A : Type μ} → List A → (A → Action S E (Unit {0})) → Action S E (Unit {0})
  for_each [] body s = ok tt s
  for_each (x ∷ xs) body s = elim (body x s) [
    | ok _ t ↦ for_each xs body t
    | err e t ↦ err e t
    | panic ↦ panic
  ]

-- The call returns a value, which with the new state meets the condition.
abbrev pub Returns {ℓ κ μ ν} :
    {S : Type ℓ} {E : Type κ} {A : Type μ} → (A → S → Type ν) → Outcome S E A → Type (ℓ ⊔ κ ⊔ μ ⊔ ν)
Returns {S = S} {A = A} P r = (a : A) × (s : S) × (r ≡ ok a s) × P a s

-- The call does not panic, and its result meets the condition for its way of ending.
abbrev pub Ensures {ℓ κ μ} :
    {S : Type ℓ} {E : Type κ} {A : Type μ}
    → (A → S → Type 0)
    → (E → S → Type 0)
    → Outcome S E A
    → Type 0
Ensures P Q (ok a s) = P a s
Ensures P Q (err e s) = Q e s
Ensures P Q panic = ⊥

module _ {ℓ κ μ ξ} {S : Type ℓ} {E : Type κ} {A : Type μ} {B : Type ξ} where
  -- A condition on a sequence of two calls, from conditions on each.
  pub Ensures-bind :
      (P : A → S → Type 0) (Q : E → S → Type 0) (P' : B → S → Type 0) (Q' : E → S → Type 0)
      (r : Outcome S E A) (f : A → Action S E B)
      → Ensures P Q r
      → ((a : A) (t : S) → P a t → Ensures P' Q' (f a t))
      → ((e : E) (t : S) → Q e t → Q' e t)
      → Ensures P' Q' (elim r [ ok a t ↦ f a t | err e t ↦ err e t | panic ↦ panic ])
  Ensures-bind P Q P' Q' (ok a s) f h next keep = next a s h
  Ensures-bind P Q P' Q' (err e s) f h next keep = keep e s h
  Ensures-bind P Q P' Q' panic f h next keep = absurd h

module _ {ℓ κ μ} {S : Type ℓ} {E : Type κ} {A : Type μ} where
  -- A weaker condition.
  pub Ensures-weaken :
      (P : A → S → Type 0) (Q : E → S → Type 0) (P' : A → S → Type 0) (Q' : E → S → Type 0)
      (r : Outcome S E A)
      → Ensures P Q r
      → ((a : A) (t : S) → P a t → P' a t)
      → ((e : E) (t : S) → Q e t → Q' e t)
      → Ensures P' Q' r
  Ensures-weaken P Q P' Q' (ok a s) h f g = f a s h
  Ensures-weaken P Q P' Q' (err e s) h f g = g e s h
  Ensures-weaken P Q P' Q' panic h f g = absurd h

module _ {ℓ κ μ} {S : Type ℓ} {E : Type κ} {A : Type μ} where
  -- A call that cannot return an error returns a value.
  pub Returns-of_Ensures :
      (P : A → S → Type 0) (Q : E → S → Type 0) (r : Outcome S E A)
      → Ensures P Q r
      → ((e : E) (s : S) → Q e s → ⊥)
      → Returns P r
  Returns-of_Ensures P Q (ok a s) h f = (a, s, refl, h)
  Returns-of_Ensures P Q (err e s) h f = absurd (f e s h)
  Returns-of_Ensures P Q panic h f = absurd h

module _ {ℓ κ μ} {S : Type ℓ} {E : Type κ} {B : Type μ} where
  -- A rejecting test in front of a call, and a value that may be missing.
  pub Ensures-reject_if :
      (P : B → S → Type 0) (Q : E → S → Type 0) (test : Bool) (e : E) (s : S) (k : Action S E B)
      → (test ≡ true → Q e s)
      → (test ≡ false → Ensures P Q (k s))
      → Ensures P Q ((reject_if test e >> k) s)
  Ensures-reject_if P Q true e s k bad good = bad refl
  Ensures-reject_if P Q false e s k bad good = good refl

  pub Ensures-or_fail {ν} :
      {A : Type ν} (P : B → S → Type 0) (Q : E → S → Type 0) (o : Option A) (e : E) (s : S)
      (k : A → Action S E B)
      → (o ≡ none → Q e s)
      → ((a : A) → o ≡ some a → Ensures P Q (k a s))
      → Ensures P Q ((or_fail o e >>= k) s)
  Ensures-or_fail P Q none e s k bad good = bad refl
  Ensures-or_fail P Q (some a) e s k bad good = good a refl

  -- A first call whose result is known.
  pub Ensures-after :
      (P : B → S → Type 0) (Q : E → S → Type 0) (act : Action S E (Unit {0})) (k : Action S E B)
      (s t : S)
      → act s ≡ ok tt t
      → Ensures P Q (k t)
      → Ensures P Q ((act >> k) s)
  Ensures-after P Q act k s t run h =
      subst (λ r. Ensures P Q (elim r [ ok a u ↦ k u | err e u ↦ err e u | panic ↦ panic ]))
        (sym run) h

  pub Ensures-failed :
      (P : B → S → Type 0) (Q : E → S → Type 0) (act : Action S E (Unit {0})) (k : Action S E B)
      (s t : S) (e : E)
      → act s ≡ err e t
      → Q e t
      → Ensures P Q ((act >> k) s)
  Ensures-failed P Q act k s t e run h =
      subst (λ r. Ensures P Q (elim r [ ok a u ↦ k u | err e u ↦ err e u | panic ↦ panic ]))
        (sym run) h

module _ {ℓ κ μ} {S : Type ℓ} {E : Type κ} {A : Type μ} where
  -- A loop behind a first round that succeeds.
  pub for_each-step :
      (x : A) (xs : List A) (body : A → Action S E (Unit {0})) (s t : S)
      → body x s ≡ ok tt t
      → for_each (x ∷ xs) body s ≡ for_each xs body t
  unfolding for_each
  for_each-step x xs body s t run =
      ap (λ o. elim o [ ok _ u ↦ for_each xs body u | err e u ↦ err e u | panic ↦ panic ]) run
