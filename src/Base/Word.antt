-- ===== src/Base/Word.antt =====
-- Unsigned machine words: checked addition, and division rounding up.
use native.Mathlib.Decide.{dec_lt}
use Prim.Native.Nat.{ℕ, zero, suc, ◌+◌, ◌-◌, ◌*◌, ◌/◌, ◌%◌, ◌^◌, ◌<◌, ◌≤◌}
use mathlib.Core.Path.{◌≡◌}
use mathlib.Core.Option.{Option, none, some}
use native.Mathlib.Omega.{arith}
use ru_llm.Base.Tests.{ltb, if◌then◌else◌}

abbrev pub u32_mod : ℕ
u32_mod = 2 ^ 32

-- `u64`, and `usize` on a 64-bit target.
abbrev pub u64_mod : ℕ
u64_mod = 2 ^ 64

-- The results of `checked_add` and `checked_mul` on 64-bit words.
abbrev pub checked_add : ℕ → ℕ → Option ℕ
checked_add a b = if ltb (a + b) u64_mod then some (a + b) else none

abbrev pub checked_mul : ℕ → ℕ → Option ℕ
checked_mul a b = if ltb (a * b) u64_mod then some (a * b) else none

abbrev pub checked_sub : ℕ → ℕ → Option ℕ
checked_sub a b = if ltb a b then none else some (a - b)

unfoldable pub div_ceil : ℕ → ℕ → ℕ
div_ceil a b = if ltb 0 (a % b) then a / b + 1 else a / b

-- The least multiple of `b` that reaches `a`.
pub div_ceil_bounds : (a b : ℕ) → 0 < b → (a ≤ div_ceil a b * b) × (div_ceil a b * b < a + b)
unfolding div_ceil
div_ceil_bounds a b h = grind arith

pub div_ceil_mono : (a a' b : ℕ) → 0 < b → a ≤ a' → div_ceil a b ≤ div_ceil a' b
div_ceil_mono a a' b h le = grind (arith, div_ceil_bounds a b h, div_ceil_bounds a' b h)

pub div_ceil-mul : (k b : ℕ) → 0 < b → div_ceil (k * b) b ≡ k
div_ceil-mul k b h = grind (arith, div_ceil_bounds (k * b) b h)

le-mul : (c d : ℕ) → 0 < d → c ≤ d * c
le-mul c d h = grind arith

pub div_ceil-le : (a b : ℕ) → 0 < b → div_ceil a b ≤ a
div_ceil-le a zero h = elim h [ ]
div_ceil-le a (suc c) h = elim (dec_lt 0 (div_ceil a (suc c))) [
  | yes pos_d ↦ grind (arith, (div_ceil_bounds a (suc c) h).1, le-mul c (div_ceil a (suc c)) pos_d)
  | no none_needed ↦ omega arith
]

pub div_mono : (a a' b : ℕ) → 0 < b → a ≤ a' → a / b ≤ a' / b
div_mono a a' b h le = grind arith
