-- ===== src/Base/Int.antt =====
-- Signed integers over the native numbers, under the library's names, with the comparisons, std::max,
-- std::min and std::clamp. Sums and orders go through the two parts of an integer.
use Prim.Native.Nat.{ℕ, suc, min, ◌+◌, ◌-◌, ◌≤◌, ◌<◌}
use mathlib.Core.Path.{◌≡◌, refl}
use mathlib.Core.Logic.{◌⊎◌, inl, inr}
use mathlib.Core.Bool.{Bool}
use native.Mathlib.Omega.{arith}
use monash_fit1045_hd_projec.Base.Tests.{ltb, leb, eqb, if◌then◌else◌}

-- `negsuc n` is -(n + 1).
pub data ℤ : Type 0 where
  pos : ℕ → ℤ
  negsuc : ℕ → ℤ

abbrev pub pos_part : ℤ → ℕ
pos_part (pos n) = n
pos_part (negsuc n) = 0

abbrev pub neg_part : ℤ → ℕ
neg_part (pos n) = 0
neg_part (negsuc n) = suc n

abbrev pub sub_ℕ : ℕ → ℕ → ℤ
sub_ℕ a b = if leb b a then pos (a - b) else negsuc (b - a - 1)

infixl 65 ◌+ℤ◌ ◌-ℤ◌
infix 50 ◌≤ℤ◌ ◌<ℤ◌
unfoldable pub ◌+ℤ◌ : ℤ → ℤ → ℤ
a +ℤ b = sub_ℕ (pos_part a + pos_part b) (neg_part a + neg_part b)

unfoldable pub ◌-ℤ◌ : ℤ → ℤ → ℤ
a -ℤ b = sub_ℕ (pos_part a + neg_part b) (neg_part a + pos_part b)

abbrev pub ◌≤ℤ◌ : ℤ → ℤ → Type 0
a ≤ℤ b = pos_part a + neg_part b ≤ pos_part b + neg_part a

abbrev pub ◌<ℤ◌ : ℤ → ℤ → Type 0
a <ℤ b = pos_part a + neg_part b < pos_part b + neg_part a

abbrev pub ltb_ℤ : ℤ → ℤ → Bool
ltb_ℤ a b = ltb (pos_part a + neg_part b) (pos_part b + neg_part a)

abbrev pub leb_ℤ : ℤ → ℤ → Bool
leb_ℤ a b = leb (pos_part a + neg_part b) (pos_part b + neg_part a)

abbrev pub eqb_ℤ : ℤ → ℤ → Bool
eqb_ℤ a b = eqb (pos_part a + neg_part b) (pos_part b + neg_part a)

-- std::max, std::min: the first argument if they are equal.
unfoldable pub max_ℤ : ℤ → ℤ → ℤ
max_ℤ a b = if ltb_ℤ a b then b else a

unfoldable pub min_ℤ : ℤ → ℤ → ℤ
min_ℤ a b = if ltb_ℤ b a then b else a

-- std::clamp.
unfoldable pub clamp_ℤ : ℤ → ℤ → ℤ → ℤ
clamp_ℤ v low high = if ltb_ℤ v low then low else if ltb_ℤ high v then high else v

pub +ℤ_parts :
    (a b : ℤ)
    → pos_part (a +ℤ b) + neg_part a + neg_part b ≡ neg_part (a +ℤ b) + pos_part a + pos_part b
unfolding ◌+ℤ◌
+ℤ_parts a b = ground arith

pub -ℤ_parts :
    (a b : ℤ)
    → pos_part (a -ℤ b) + neg_part a + pos_part b ≡ neg_part (a -ℤ b) + pos_part a + neg_part b
unfolding ◌-ℤ◌
-ℤ_parts a b = ground arith

pub eq_of_parts : (a b : ℤ) → pos_part a + neg_part b ≡ pos_part b + neg_part a → a ≡ b
eq_of_parts a b h = ground arith

one_part : (a : ℤ) → (pos_part a ≡ 0) ⊎ (neg_part a ≡ 0)
one_part (pos n) = inr refl
one_part (negsuc n) = inl refl

pub ruleset int_laws = (arith, +ℤ_parts, -ℤ_parts, eq_of_parts)

-- On natural numbers the operations are those of ℕ, whose subtraction stops at 0.
pub max_ℤ-sub : (a b : ℕ) → max_ℤ (pos a -ℤ pos b) (pos 0) ≡ pos (a - b)
unfolding max_ℤ ◌-ℤ◌
max_ℤ-sub a b = ground arith

pub max_ℤ-pos_part : (a : ℤ) → max_ℤ a (pos 0) ≡ pos (pos_part a)
unfolding max_ℤ
max_ℤ-pos_part (pos n) = ground arith
max_ℤ-pos_part (negsuc n) = ground arith

pub clamp_ℤ-min : (a : ℤ) (m : ℕ) → clamp_ℤ a (pos 0) (pos m) ≡ pos (min (pos_part a) m)
unfolding clamp_ℤ
clamp_ℤ-min (pos n) m = ground arith
clamp_ℤ-min (negsuc n) m = ground arith

pub min_ℤ-min : (a b : ℕ) → min_ℤ (pos a) (pos b) ≡ pos (min a b)
unfolding min_ℤ
min_ℤ-min a b = ground arith

pub +ℤ_pos : (a b : ℕ) → pos a +ℤ pos b ≡ pos (a + b)
unfolding ◌+ℤ◌
+ℤ_pos a b = ground arith

pub -ℤ_pos : (a b : ℕ) → b ≤ a → pos a -ℤ pos b ≡ pos (a - b)
unfolding ◌-ℤ◌
-ℤ_pos a b h = ground arith

pub pos_of_nonneg : (a : ℤ) → pos 0 ≤ℤ a → a ≡ pos (pos_part a)
pos_of_nonneg (pos n) h = refl
pos_of_nonneg (negsuc n) h = absurd (omega arith)
