-- ===== src/Partition/Search.antt =====
-- `std::lower_bound` and `std::upper_bound` over integers, on a sorted range: how many elements
-- stand before the first one that is not below `x`, and before the first one above `x`.
use plug_in_ml.Base.{
  ℕ, suc, ◌≤◌, ◌<◌, ◌≡◌, some, List, [], ◌∷◌, ℤ, ◌≤ℤ◌, ◌<ℤ◌, ltb_ℤ, leb_ℤ, length, get_elem?, All,
  All-get_elem?, arith, if◌then◌else◌,
}

unfoldable pub lower_bound : ℤ → List ℤ → ℕ
lower_bound x [] = 0
lower_bound x (y ∷ ys) = if ltb_ℤ y x then suc (lower_bound x ys) else 0

unfoldable pub upper_bound : ℤ → List ℤ → ℕ
upper_bound x [] = 0
upper_bound x (y ∷ ys) = if leb_ℤ y x then suc (upper_bound x ys) else 0

-- In ascending order, equal elements allowed.
abbrev pub IsSorted : List ℤ → Type 0
IsSorted [] = Unit
IsSorted (x ∷ xs) = All (λ y. x ≤ℤ y) xs × IsSorted xs

pub lower_bound-le : (x : ℤ) (ys : List ℤ) → lower_bound x ys ≤ length ys
unfolding lower_bound
lower_bound-le x [] = omega arith
lower_bound-le x (y ∷ ys) = ground (arith, lower_bound-le x ys)

pub upper_bound-le : (x : ℤ) (ys : List ℤ) → upper_bound x ys ≤ length ys
unfolding upper_bound
upper_bound-le x [] = omega arith
upper_bound-le x (y ∷ ys) = ground (arith, upper_bound-le x ys)

-- What stands before the bound is below `x`.
pub lower_bound-below :
    (x : ℤ) (ys : List ℤ) (i : ℕ) (y : ℤ) → i < lower_bound x ys → get_elem? ys i ≡ some y → y <ℤ x
unfolding lower_bound
lower_bound-below x [] i y h e = elim h [ ]
lower_bound-below x (z ∷ ys) ℕ.zero y h e = ground arith
lower_bound-below x (z ∷ ys) (suc i) y h e = ground (arith, lower_bound-below x ys i y)

-- On a sorted list, what stands from the bound on is not.
pub lower_bound-above :
    (x : ℤ) (ys : List ℤ) (i : ℕ) (y : ℤ)
    → IsSorted ys
    → lower_bound x ys ≤ i
    → get_elem? ys i ≡ some y
    → x ≤ℤ y
unfolding lower_bound
lower_bound-above x [] i y s h e = absurd (ground arith)
lower_bound-above x (z ∷ ys) ℕ.zero y s h e = ground arith
lower_bound-above x (z ∷ ys) (suc i) y s h e =
    ground (arith, lower_bound-above x ys i y s.1, All-get_elem? (λ w. z ≤ℤ w) ys i y s.0)

pub upper_bound-below :
    (x : ℤ) (ys : List ℤ) (i : ℕ) (y : ℤ) → i < upper_bound x ys → get_elem? ys i ≡ some y → y ≤ℤ x
unfolding upper_bound
upper_bound-below x [] i y h e = elim h [ ]
upper_bound-below x (z ∷ ys) ℕ.zero y h e = ground arith
upper_bound-below x (z ∷ ys) (suc i) y h e = ground (arith, upper_bound-below x ys i y)

pub upper_bound-above :
    (x : ℤ) (ys : List ℤ) (i : ℕ) (y : ℤ)
    → IsSorted ys
    → upper_bound x ys ≤ i
    → get_elem? ys i ≡ some y
    → x <ℤ y
unfolding upper_bound
upper_bound-above x [] i y s h e = absurd (ground arith)
upper_bound-above x (z ∷ ys) ℕ.zero y s h e = ground arith
upper_bound-above x (z ∷ ys) (suc i) y s h e =
    ground (arith, upper_bound-above x ys i y s.1, All-get_elem? (λ w. z ≤ℤ w) ys i y s.0)
