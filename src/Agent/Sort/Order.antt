-- ===== src/Agent/Sort/Order.antt =====
-- src/agent/agent.cc and src/master/task_config.cc: what `std::sort` leaves of a list of integers.
use plug_in_ml.Base.{
  suc, ◌≡◌, refl, ap, ◌∙◌, List, [], ◌∷◌, ℤ, ◌≤ℤ◌, leb_ℤ, length, All, arith, Bool-cases, inl, inr,
}
use mathlib.Core.List.{Permᴰ}
use mathlib.Core.List.Permᴰ
use plug_in_ml.Partition.Search.{IsSorted}
use plug_in_ml.Agent.Sort.{sort, insert_sorted}

length-insert_sorted : (x : ℤ) (ys : List ℤ) → length (insert_sorted x ys) ≡ suc (length ys)
unfolding insert_sorted
length-insert_sorted x [] = refl
length-insert_sorted x (y ∷ ys) = ground (arith, length-insert_sorted x ys)

pub length-sort : (xs : List ℤ) → length (sort xs) ≡ length xs
unfolding sort
length-sort [] = refl
length-sort (x ∷ xs) = length-insert_sorted x (sort xs) ∙ ap suc (length-sort xs)

All-insert_sorted :
    (P : ℤ → Type 0) (x : ℤ) (ys : List ℤ) → P x → All P ys → All P (insert_sorted x ys)
unfolding insert_sorted
All-insert_sorted P x [] p h = (p, tt)
All-insert_sorted P x (y ∷ ys) p h = elim (Bool-cases (leb_ℤ x y)) [
  | inl low ↦ rw low (p, h)
  | inr high ↦ rw high (h.0, All-insert_sorted P x ys p h.1)
]

pub All-sort : (P : ℤ → Type 0) (xs : List ℤ) → All P xs → All P (sort xs)
unfolding sort
All-sort P [] h = tt
All-sort P (x ∷ xs) h = All-insert_sorted P x (sort xs) h.0 (All-sort P xs h.1)

All-le_trans : (x y : ℤ) (ys : List ℤ) → x ≤ℤ y → All (λ z. y ≤ℤ z) ys → All (λ z. x ≤ℤ z) ys
All-le_trans x y [] h k = tt
All-le_trans x y (z ∷ ys) h k = (omega (arith, k.0), All-le_trans x y ys h k.1)

insert_sorted-IsSorted : (x : ℤ) (ys : List ℤ) → IsSorted ys → IsSorted (insert_sorted x ys)
unfolding insert_sorted
insert_sorted-IsSorted x [] s = (tt, tt)
insert_sorted-IsSorted x (y ∷ ys) s = elim (Bool-cases (leb_ℤ x y)) [
  | inl low ↦
      let below : x ≤ℤ y = ground arith in rw low ((below, All-le_trans x y ys below s.0), s)
  | inr high ↦
      rw high
        (All-insert_sorted (λ z. y ≤ℤ z) x ys (ground arith) s.0, insert_sorted-IsSorted x ys s.1)
]

pub sort-IsSorted : (xs : List ℤ) → IsSorted (sort xs)
unfolding sort
sort-IsSorted [] = tt
sort-IsSorted (x ∷ xs) = insert_sorted-IsSorted x (sort xs) (sort-IsSorted xs)

insert_sorted-perm : (x : ℤ) (ys : List ℤ) → Permᴰ (insert_sorted x ys) (x ∷ ys)
unfolding insert_sorted
insert_sorted-perm x [] = Permᴰ.refl (x ∷ [])
insert_sorted-perm x (y ∷ ys) = elim (Bool-cases (leb_ℤ x y)) [
  | inl low ↦ rw low (Permᴰ.refl (x ∷ y ∷ ys))
  | inr high ↦
      rw high (Permᴰ.trans (Permᴰ.cons refl (insert_sorted-perm x ys)) (Permᴰ.swap refl refl))
]

pub sort-perm : (xs : List ℤ) → Permᴰ (sort xs) xs
unfolding sort
sort-perm [] = Permᴰ.nil
sort-perm (x ∷ xs) = Permᴰ.trans (insert_sorted-perm x (sort xs)) (Permᴰ.cons refl (sort-perm xs))
