-- ===== src/Base/Int.antt =====
-- Signed integers over the native numbers, under the library's names: the `int32` of keys and ids.
-- Sums and orders go through the two parts of an integer, which are numbers that `omega` reads.
use Prim.Native.Nat.{ℕ, suc, ◌+◌, ◌-◌, ◌%◌, ◌≤◌, ◌<◌}
use mathlib.Core.Path.{◌≡◌, refl}
use mathlib.Core.Bool.{Bool, true, false}
use mathlib.Core.List.{List}
use mathlib.Core.Option.{Option, none, some}
use native.Mathlib.Omega.{arith}
use plug_in_ml.Base.Tests.{ltb, leb, ◌==◌, if◌then◌else◌}
use plug_in_ml.Base.Lists.{length, get_elem?, get_elem?-some, get_elem?-lt, set}

-- `negsuc n` is -(n + 1).
pub data ℤ : Type 0 where
  pos : ℕ → ℤ
  negsuc : ℕ → ℤ

abbrev pub pos_part : ℤ → ℕ
pos_part (pos n) = n
pos_part (negsuc n) = 0

abbrev pub neg_part : ℤ → ℕ
neg_part (pos n) = 0
neg_part (negsuc n) = suc n

abbrev pub sub_ℕ : ℕ → ℕ → ℤ
sub_ℕ a b = if leb b a then pos (a - b) else negsuc (b - a - 1)

infixl 65 ◌+ℤ◌ ◌-ℤ◌
infix 50 ◌≤ℤ◌ ◌<ℤ◌ ◌==ℤ◌
unfoldable pub ◌+ℤ◌ : ℤ → ℤ → ℤ
a +ℤ b = sub_ℕ (pos_part a + pos_part b) (neg_part a + neg_part b)

unfoldable pub ◌-ℤ◌ : ℤ → ℤ → ℤ
a -ℤ b = sub_ℕ (pos_part a + neg_part b) (neg_part a + pos_part b)

abbrev pub ◌≤ℤ◌ : ℤ → ℤ → Type 0
a ≤ℤ b = pos_part a + neg_part b ≤ pos_part b + neg_part a

abbrev pub ◌<ℤ◌ : ℤ → ℤ → Type 0
a <ℤ b = pos_part a + neg_part b < pos_part b + neg_part a

abbrev pub ltb_ℤ : ℤ → ℤ → Bool
ltb_ℤ a b = ltb (pos_part a + neg_part b) (pos_part b + neg_part a)

abbrev pub leb_ℤ : ℤ → ℤ → Bool
leb_ℤ a b = leb (pos_part a + neg_part b) (pos_part b + neg_part a)

abbrev pub ◌==ℤ◌ : ℤ → ℤ → Bool
a ==ℤ b = (pos_part a + neg_part b) == (pos_part b + neg_part a)

pub +ℤ_parts :
    (a b : ℤ)
    → pos_part (a +ℤ b) + neg_part a + neg_part b ≡ neg_part (a +ℤ b) + pos_part a + pos_part b
unfolding ◌+ℤ◌
+ℤ_parts a b = ground arith

pub -ℤ_parts :
    (a b : ℤ)
    → pos_part (a -ℤ b) + neg_part a + pos_part b ≡ neg_part (a -ℤ b) + pos_part a + neg_part b
unfolding ◌-ℤ◌
-ℤ_parts a b = ground arith

pub eq_of_parts : (a b : ℤ) → pos_part a + neg_part b ≡ pos_part b + neg_part a → a ≡ b
eq_of_parts a b h = ground arith

pub ==ℤ→eq : (a b : ℤ) → (a ==ℤ b) ≡ true → a ≡ b
==ℤ→eq a b h = ground arith

pub ==ℤ_refl : (a : ℤ) → (a ==ℤ a) ≡ true
==ℤ_refl a = ground arith

pub ==ℤ→ne : (a b : ℤ) → (a ==ℤ b) ≡ false → ¬ (a ≡ b)
==ℤ→ne a b h e = ground arith

pub ruleset int_laws = (arith, +ℤ_parts, -ℤ_parts)

-- A number from 0 on is `pos` of its positive part.
pub pos-pos_part : (a : ℤ) → pos 0 ≤ℤ a → pos (pos_part a) ≡ a
pos-pos_part a h = ground arith

-- The C remainder of an integer by a positive number: it has the sign of the dividend.
abbrev pub rem : ℤ → ℕ → ℤ
rem (pos a) k = pos (a % k)
rem (negsuc a) k = sub_ℕ 0 (suc a % k)

-- `v[i]` and `v[i] = x` at a signed index: `none` where the index is out of range.
module _ {ℓ} {A : Type ℓ} where
  abbrev pub at : List A → ℤ → Option A
  at xs (pos n) = get_elem? xs n
  at xs (negsuc n) = none

  abbrev pub set_at : List A → ℤ → A → List A
  set_at xs i v = set xs (pos_part i) v

  pub at-some :
      (xs : List A) (i : ℤ) → pos 0 ≤ℤ i → i <ℤ pos (length xs) → (a : A) × (at xs i ≡ some a)
  at-some xs (pos n) h k = get_elem?-some xs n (omega arith)
  at-some xs (negsuc n) h k = absurd (omega arith)

  pub at-range :
      (xs : List A) (i : ℤ) (a : A) → at xs i ≡ some a → (pos 0 ≤ℤ i) × (i <ℤ pos (length xs))
  at-range xs (pos n) a e = (omega arith, omega (arith, get_elem?-lt xs n a e))
  at-range xs (negsuc n) a e = cc

  pub at-negative : (xs : List A) (i : ℤ) → i <ℤ pos 0 → at xs i ≡ none
  at-negative xs (pos n) h = absurd (omega arith)
  at-negative xs (negsuc n) h = refl

pub neg_part-nonneg : (a : ℤ) → pos 0 ≤ℤ a → neg_part a ≡ 0
neg_part-nonneg a h = ground arith
