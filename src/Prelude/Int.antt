-- ===== src/Prelude/Int.antt =====
-- Signed integers over the native numbers, under the library's names.
use Prim.Native.Nat.{ℕ, suc, ◌+◌, ◌-◌, ◌*◌, ◌≤◌}
use mathlib.Core.Path.{◌≡◌, ap}
use mathlib.Core.Bool.{Bool, true, false}
use native.Mathlib.Omega.{arith}
use com_webos_service_pdm.Prelude.Tests.{leb, ◌==◌ as nat_eq, if◌then◌else◌}

-- `negsuc n` is -(n + 1).
pub data ℤ : Type 0 where
  pos : ℕ → ℤ
  negsuc : ℕ → ℤ

abbrev pub pos_part : ℤ → ℕ
pos_part (pos n) = n
pos_part (negsuc n) = 0

abbrev pub neg_part : ℤ → ℕ
neg_part (pos n) = 0
neg_part (negsuc n) = suc n

-- a - b, as an integer.
abbrev pub sub_ℕ : ℕ → ℕ → ℤ
sub_ℕ a b = if leb b a then pos (a - b) else negsuc (b - a - 1)

infixl 65 ◌+ℤ◌
infixl 70 ◌*ℤ◌
infix 50 ◌≤ℤ◌ ◌==ℤ◌
abbrev pub ◌+ℤ◌ : ℤ → ℤ → ℤ
a +ℤ b = sub_ℕ (pos_part a + pos_part b) (neg_part a + neg_part b)

abbrev pub ◌*ℤ◌ : ℤ → ℤ → ℤ
a *ℤ b =
    sub_ℕ (pos_part a * pos_part b + neg_part a * neg_part b)
      (pos_part a * neg_part b + neg_part a * pos_part b)

abbrev pub ◌==ℤ◌ : ℤ → ℤ → Bool
pos a ==ℤ pos b = nat_eq a b
negsuc a ==ℤ negsuc b = nat_eq a b
a ==ℤ b = false

abbrev pub ◌≤ℤ◌ : ℤ → ℤ → Type 0
a ≤ℤ b = pos_part a + neg_part b ≤ pos_part b + neg_part a

pub pred_lem : (n : ℕ) → pos (suc n) +ℤ negsuc 0 ≡ pos n
pred_lem n = rw (one_le n) (ap pos (omega arith))
  where
    one_le : (n : ℕ) → leb (0 + 1) (suc n + 0) ≡ true
    one_le n = ground arith

pub succ_lem : (n : ℕ) → pos n +ℤ pos 1 ≡ pos (n + 1)
succ_lem n = rw (zero_le n) (ap pos (omega arith))
  where
    zero_le : (n : ℕ) → leb (0 + 0) (n + 1) ≡ true
    zero_le n = ground arith

pub suc-eq-zero : (n : ℕ) → (pos (suc n) ==ℤ pos 0) ≡ false
suc-eq-zero n = ground arith
