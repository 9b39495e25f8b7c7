-- ===== src/Common/Int.antt =====
-- Signed integers (`int`, `int64`, `time.Duration`) over the native numbers: the program compares
-- them, and never leaves the range of the machine's words by doing so.
use Prim.Native.Nat.{ℕ, suc, ◌+◌, ◌-◌, ◌<◌, ◌≤◌}
use mathlib.Core.Path.{◌≡◌}
use mathlib.Core.Logic.{◌↔◌}
use mathlib.Core.Bool.{Bool, true}
use native.Mathlib.Omega.{arith}
use cert_manager_approver_po.Common.Tests.{ltb, leb, if◌then◌else◌}

-- `negsuc n` is -(n + 1).
pub data ℤ : Type 0 where
  pos : ℕ → ℤ
  negsuc : ℕ → ℤ

abbrev pub pos_part : ℤ → ℕ
pos_part (pos n) = n
pos_part (negsuc n) = 0

abbrev pub neg_part : ℤ → ℕ
neg_part (pos n) = 0
neg_part (negsuc n) = suc n

infix 50 ◌<ℤ◌ ◌≤ℤ◌
abbrev pub ◌<ℤ◌ : ℤ → ℤ → Type 0
a <ℤ b = pos_part a + neg_part b < pos_part b + neg_part a

abbrev pub ◌≤ℤ◌ : ℤ → ℤ → Type 0
a ≤ℤ b = pos_part a + neg_part b ≤ pos_part b + neg_part a

-- The test `a < b`.
abbrev pub lt_ℤ : ℤ → ℤ → Bool
lt_ℤ a b = ltb (pos_part a + neg_part b) (pos_part b + neg_part a)

pub lt_ℤ_iff : (a b : ℤ) → (lt_ℤ a b ≡ true) ↔ (a <ℤ b)
lt_ℤ_iff a b = ground arith

-- The integer a - b.
abbrev pub difference : ℕ → ℕ → ℤ
difference a b = if leb b a then pos (a - b) else negsuc (b - suc a)

infixl 65 ◌+ℤ◌ ◌-ℤ◌
unfoldable pub ◌-ℤ◌ : ℤ → ℤ → ℤ
m -ℤ n = difference (pos_part m + neg_part n) (pos_part n + neg_part m)

unfoldable pub ◌+ℤ◌ : ℤ → ℤ → ℤ
m +ℤ n = difference (pos_part m + pos_part n) (neg_part n + neg_part m)

-- Both operations through the parts of their results, which is how `omega` reads them.
pub -ℤ_parts :
    (m n : ℤ)
    → pos_part n + (neg_part m + pos_part (m -ℤ n)) ≡ pos_part m + (neg_part n + neg_part (m -ℤ n))
unfolding ◌-ℤ◌
-ℤ_parts m n = ground arith

pub +ℤ_parts :
    (m n : ℤ)
    → neg_part n + (neg_part m + pos_part (m +ℤ n)) ≡ pos_part m + (pos_part n + neg_part (m +ℤ n))
unfolding ◌+ℤ◌
+ℤ_parts m n = ground arith

pub ruleset int_laws = (arith, +ℤ_parts, -ℤ_parts)

pub same_parts : (m n : ℤ) → neg_part n + pos_part m ≡ neg_part m + pos_part n → m ≡ n
same_parts m n h = ground arith
