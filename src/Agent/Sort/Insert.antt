-- ===== src/Agent/Sort/Insert.antt =====
-- src/agent/agent.cc: one insertion into the map of SortKeyValue, and the pairs that its entries
-- stand for.
use plug_in_ml.Base.{
  ℕ, suc, ◌≡◌, refl, false, ◌||◌, none, some, List, [], ◌∷◌, map, ℤ, ◌≤ℤ◌, ltb_ℤ, ◌==ℤ◌, get_elem?,
  length, All, All-map, contains, arith, Bool-cases, inl, inr, Option-cases,
}
use mathlib.Core.List.{Perm}
use mathlib.Core.List.Perm
use plug_in_ml.Partition.Search.{IsSorted}
use plug_in_ml.Agent.Sort.{map_insert}

abbrev pub keys_of : List (ℤ × ℕ) → List ℤ
keys_of m = map (λ e. e.0) m

pub contains-map_insert :
    (j k : ℤ) (i : ℕ) (m : List (ℤ × ℕ))
    → contains j (keys_of (map_insert k i m)) ≡ (k ==ℤ j || contains j (keys_of m))
unfolding contains map_insert
contains-map_insert j k i [] = ground arith
contains-map_insert j k i ((l, w) ∷ m) = ground (arith, contains-map_insert j k i m)

pub All-map_insert {κ} :
    (P : ℤ × ℕ → Type κ) (k : ℤ) (i : ℕ) (m : List (ℤ × ℕ))
    → P (k, i)
    → All P m
    → All P (map_insert k i m)
unfolding map_insert
All-map_insert P k i [] p h = (p, tt)
All-map_insert P k i ((l, w) ∷ m) p h = elim (Bool-cases (ltb_ℤ k l)) [
  | inl low ↦ rw low (p, h)
  | inr high ↦ elim (Bool-cases (k ==ℤ l)) [
    | inl same ↦ rw (high, same) h
    | inr other ↦ rw (high, other) (h.0, All-map_insert P k i m p h.1)
  ]
]

pub length-map_insert :
    (k : ℤ) (i : ℕ) (m : List (ℤ × ℕ))
    → contains k (keys_of m) ≡ false
    → length (map_insert k i m) ≡ suc (length m)
unfolding contains map_insert
length-map_insert k i [] h = refl
length-map_insert k i ((l, w) ∷ m) h = ground (arith, h, length-map_insert k i m)

All-keys : (P : ℤ → Type 0) (m : List (ℤ × ℕ)) → All (λ e. P e.0) m → All P (keys_of m)
All-keys P [] h = tt
All-keys P (e ∷ m) h = (h.0, All-keys P m h.1)

keys-All : (P : ℤ → Type 0) (m : List (ℤ × ℕ)) → All P (keys_of m) → All (λ e. P e.0) m
keys-All P [] h = tt
keys-All P (e ∷ m) h = (h.0, keys-All P m h.1)

pub All-keys-map_insert :
    (P : ℤ → Type 0) (k : ℤ) (i : ℕ) (m : List (ℤ × ℕ))
    → P k
    → All P (keys_of m)
    → All P (keys_of (map_insert k i m))
All-keys-map_insert P k i m p h =
    All-keys P (map_insert k i m) (All-map_insert (λ e. P e.0) k i m p (keys-All P m h))

pub map_insert-IsSorted :
    (k : ℤ) (i : ℕ) (m : List (ℤ × ℕ))
    → IsSorted (keys_of m)
    → IsSorted (keys_of (map_insert k i m))
unfolding map_insert
map_insert-IsSorted k i [] s = (tt, tt)
map_insert-IsSorted k i ((l, w) ∷ m) s = elim (Bool-cases (ltb_ℤ k l)) [
  | inl low ↦
      let first : k ≤ℤ l = ground (arith, low) in
      rw low ((first, All-map (λ y. l ≤ℤ y) (λ y. k ≤ℤ y) (λ y h. omega arith) (keys_of m) s.0), s)
  | inr high ↦ elim (Bool-cases (k ==ℤ l)) [
    | inl same ↦ rw (high, same) s
    | inr other ↦
        rw (high, other)
          (
            All-keys-map_insert (λ y. l ≤ℤ y) k i m (ground (arith, high)) s.0,
            map_insert-IsSorted k i m s.1,
          )
  ]
]

module _ {F : Type 0} where
  -- The pairs of keys and values that entries stand for.
  pub resolve : List F → List (ℤ × ℕ) → List (ℤ × F)
  resolve values [] = []
  resolve values ((k, i) ∷ m) = elim (get_elem? values i) [
    | none ↦ resolve values m
    | some v ↦ (k, v) ∷ resolve values m
  ]

  pub resolve_nil : (values : List F) → resolve values [] ≡ []
  unfolding resolve
  resolve_nil values = refl

  pub resolve-some :
      (values : List F) (k : ℤ) (i : ℕ) (v : F) (m : List (ℤ × ℕ))
      → get_elem? values i ≡ some v
      → resolve values ((k, i) ∷ m) ≡ (k, v) ∷ resolve values m
  unfolding resolve
  resolve-some values k i v m e = rw (e, resolve) refl

  resolve-none :
      (values : List F) (k : ℤ) (i : ℕ) (m : List (ℤ × ℕ))
      → get_elem? values i ≡ none
      → resolve values ((k, i) ∷ m) ≡ resolve values m
  unfolding resolve
  resolve-none values k i m e = rw (e, resolve) refl

  resolve-perm :
      (values : List F) (p : ℤ × F) (l : ℤ) (w : ℕ) (m n : List (ℤ × ℕ))
      → Perm (resolve values n) (p ∷ resolve values m)
      → Perm (resolve values ((l, w) ∷ n)) (p ∷ resolve values ((l, w) ∷ m))
  resolve-perm values p l w m n h = elim (Option-cases (get_elem? values w)) [
    | inl stop ↦ rw (resolve-none values l w n stop, resolve-none values l w m stop) h
    | inr (u, here) ↦
        rw (resolve-some values l w u n here, resolve-some values l w u m here)
          (Perm.trans (Perm.cons (l, u) h) (Perm.swap p (l, u) (resolve values m)))
  ]

  -- A key that is not there adds its pair.
  pub map_insert-perm :
      (values : List F) (k : ℤ) (i : ℕ) (v : F) (m : List (ℤ × ℕ))
      → get_elem? values i ≡ some v
      → contains k (keys_of m) ≡ false
      → Perm (resolve values (map_insert k i m)) ((k, v) ∷ resolve values m)
  unfolding map_insert contains
  map_insert-perm values k i v [] e h = rw (resolve-some values k i v [] e) Perm.rfl
  map_insert-perm values k i v ((l, w) ∷ m) e h = elim (Bool-cases (ltb_ℤ k l)) [
    | inl low ↦ rw low (rw (resolve-some values k i v ((l, w) ∷ m) e) Perm.rfl)
    | inr high ↦
        let apart : ((k ==ℤ l) ≡ false) × (contains k (keys_of m) ≡ false) = ground (arith, h) in
        rw (high, apart.0)
          (resolve-perm values (k, v) l w m (map_insert k i m)
            (map_insert-perm values k i v m e apart.1))
  ]
