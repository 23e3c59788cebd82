-- ===== src/Base/Assoc.antt =====
-- Maps and sets keyed by integers, as lists: the `std::map` and `std::unordered_map` of the source.
use mathlib.Core.Path.{◌≡◌, refl, ◌∙◌}
use Prim.Native.Nat.{ℕ, zero, suc}
use mathlib.Core.Bool.{Bool, true, false, ◌||◌}
use mathlib.Core.Logic.{inl, inr}
use mathlib.Core.List.{List, [], ◌∷◌}
use mathlib.Core.Option.{Option, none, some}
use native.Mathlib.Omega.{arith}
use plug_in_ml.Base.Tests.{if◌then◌else◌, Bool-cases}
use plug_in_ml.Base.Lists.{get_elem?}
use plug_in_ml.Base.Int.{ℤ, ◌==ℤ◌, ==ℤ_refl, eq_of_parts}

unfoldable pub contains : ℤ → List ℤ → Bool
contains k [] = false
contains k (x ∷ xs) = x ==ℤ k || contains k xs

pub contains-get_elem? :
    (xs : List ℤ) (j : ℕ) (x : ℤ) → get_elem? xs j ≡ some x → contains x xs ≡ true
unfolding contains
contains-get_elem? [] j x e = cc
contains-get_elem? (y ∷ xs) zero x e = ground arith
contains-get_elem? (y ∷ xs) (suc j) x e = ground (arith, contains-get_elem? xs j x e)

-- No element twice.
abbrev pub Distinct : List ℤ → Type 0
Distinct [] = Unit
Distinct (x ∷ xs) = (contains x xs ≡ false) × Distinct xs

module _ {V : Type 0} where
  unfoldable pub lookup : ℤ → List (ℤ × V) → Option V
  lookup k [] = none
  lookup k ((j, v) ∷ m) = if j ==ℤ k then some v else lookup k m

  -- `m[k] = v`
  unfoldable pub assign : ℤ → V → List (ℤ × V) → List (ℤ × V)
  assign k v [] = (k, v) ∷ []
  assign k v ((j, w) ∷ m) = if j ==ℤ k then (k, v) ∷ m else (j, w) ∷ assign k v m

  -- `m.insert({k, v})` keeps the value of a key that is there.
  unfoldable pub insert : ℤ → V → List (ℤ × V) → List (ℤ × V)
  insert k v [] = (k, v) ∷ []
  insert k v ((j, w) ∷ m) = if j ==ℤ k then (j, w) ∷ m else (j, w) ∷ insert k v m

  unfoldable pub erase : ℤ → List (ℤ × V) → List (ℤ × V)
  erase k [] = []
  erase k ((j, w) ∷ m) = if j ==ℤ k then erase k m else (j, w) ∷ erase k m

  pub lookup-assign :
      (k j : ℤ) (v : V) (m : List (ℤ × V))
      → lookup j (assign k v m) ≡ (if k ==ℤ j then some v else lookup j m)
  unfolding lookup assign
  lookup-assign k j v [] = refl
  lookup-assign k j v ((i, w) ∷ m) =
      ground (arith, lookup-assign k j v m, eq_of_parts i k, eq_of_parts k j, eq_of_parts i j)

  pub lookup-insert :
      (k j : ℤ) (v : V) (m : List (ℤ × V))
      → lookup j (insert k v m)
        ≡ (if k ==ℤ j then (elim (lookup j m) [ none ↦ some v | some w ↦ some w ]) else lookup j m)
  unfolding lookup insert
  lookup-insert k j v [] = ground arith
  lookup-insert k j v ((i, w) ∷ m) =
      ground (arith, lookup-insert k j v m, eq_of_parts i k, eq_of_parts k j, eq_of_parts i j)

  pub lookup-erase :
      (k j : ℤ) (m : List (ℤ × V)) → lookup j (erase k m) ≡ (if k ==ℤ j then none else lookup j m)
  unfolding lookup erase
  lookup-erase k j [] = ground arith
  lookup-erase k j ((i, w) ∷ m) =
      ground (arith, lookup-erase k j m, eq_of_parts i k, eq_of_parts k j, eq_of_parts i j)

  pub lookup-insert_new :
      (k : ℤ) (v : V) (m : List (ℤ × V)) → lookup k m ≡ none → lookup k (insert k v m) ≡ some v
  lookup-insert_new k v m e = lookup-insert k k v m ∙ rw (==ℤ_refl k, e) refl

  pub lookup-insert_other :
      (k j : ℤ) (v : V) (m : List (ℤ × V))
      → (k ==ℤ j) ≡ false
      → lookup j (insert k v m) ≡ lookup j m
  lookup-insert_other k j v m other = lookup-insert k j v m ∙ rw other refl

  pub lookup-insert_old :
      (k j : ℤ) (v w : V) (m : List (ℤ × V))
      → lookup j m ≡ some w
      → lookup j (insert k v m) ≡ some w
  lookup-insert_old k j v w m e = elim (Bool-cases (k ==ℤ j)) [
    | inl same ↦ lookup-insert k j v m ∙ rw (same, e) refl
    | inr other ↦ lookup-insert_other k j v m other ∙ e
  ]
