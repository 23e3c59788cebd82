-- ===== src/Partition/Owner.antt =====
-- Partition::GetServerByKey against the arcs of the key ring.
use plug_in_ml.Base.{
  ℕ, suc, ◌-◌, ◌≤◌, ◌<◌, ◌≡◌, some, List, [], ◌∷◌, ℤ, pos, negsuc, ◌≤ℤ◌, ◌<ℤ◌, ltb_ℤ, length,
  get_or, get_elem?-eq-get_or, All-get_elem?, arith, Bool-cases, ◌⊎◌, inl, inr, ◌↔◌, ap, sym, ◌∙◌,
  if◌then◌else◌,
}
use mathlib.Core.Path.{subst}
use plug_in_ml.Partition.Search.{
  IsSorted, upper_bound, upper_bound-le, upper_bound-below, upper_bound-above,
}
use plug_in_ml.Partition.{Partition, get_server_by_key}

-- `part_vec_[i]`
abbrev pub part : List ℤ → ℕ → ℤ
part vec i = get_or vec i (pos 0)

-- Server `i` holds `key`: the key lies from `part_vec_[i]` up to the next element; the arc of the
-- last server goes round the end of the key range.
abbrev pub Owns : List ℤ → ℤ → ℕ → Type 0
Owns vec key i =
    (suc i < length vec) × (part vec i ≤ℤ key) × (key <ℤ part vec (suc i))
    ⊎ (suc i ≡ length vec) × ((part vec i ≤ℤ key) ⊎ (key <ℤ part vec 0))

abbrev pub InRange : ℕ → ℤ → Type 0
InRange key_range key = (pos 0 ≤ℤ key) × (key <ℤ pos key_range)

-- A partition that serves: one element for each server, at least one, in ascending order.
pub record IsPartition (p : Partition) : Type 0 where
  pub sized : length p.part_vec ≡ p.server_num
  pub served : 0 < p.server_num
  pub sorted : IsSorted p.part_vec

pub part-mono :
    (vec : List ℤ) (i j : ℕ) → IsSorted vec → i ≤ j → j < length vec → part vec i ≤ℤ part vec j
part-mono [] i j s h k = absurd (omega arith)
part-mono (x ∷ vec) ℕ.zero ℕ.zero s h k = omega arith
part-mono (x ∷ vec) ℕ.zero (suc j) s h k =
    All-get_elem? (λ y. x ≤ℤ y) vec j (part vec j) s.0
      (get_elem?-eq-get_or vec j (pos 0) (omega arith))
part-mono (x ∷ vec) (suc i) ℕ.zero s h k = absurd (omega arith)
part-mono (x ∷ vec) (suc i) (suc j) s h k = part-mono vec i j s.1 (omega arith) (omega arith)

-- No key has two owners.
pub Owns-unique :
    (vec : List ℤ) (key : ℤ) (i j : ℕ) → IsSorted vec → Owns vec key i → Owns vec key j → i ≡ j
Owns-unique vec key i j s o q = ground (
  arith,
  part-mono vec (suc i) j s,
  part-mono vec (suc j) i s,
  part-mono vec 0 i s,
  part-mono vec 0 j s,
)

upper_bound_pos :
    (key : ℤ) (vec : List ℤ) → part vec 0 ≤ℤ key → 0 < length vec → 0 < upper_bound key vec
unfolding upper_bound
upper_bound_pos key [] h k = k
upper_bound_pos key (x ∷ vec) h k = ground arith

-- What the search finds: the arc that ends at the first element above the key.
upper_bound-Owns :
    (key : ℤ) (vec : List ℤ) (n : ℕ) → IsSorted vec → upper_bound key vec ≡ suc n → Owns vec key n
upper_bound-Owns key vec n s e = ground (
  arith,
  upper_bound-le key vec,
  upper_bound-below key vec n (part vec n),
  upper_bound-above key vec (suc n) (part vec (suc n)) s,
  get_elem?-eq-get_or vec n (pos 0),
  get_elem?-eq-get_or vec (suc n) (pos 0),
)

-- The index that the search comes to.
abbrev owner : Partition → ℤ → ℕ
owner p key =
    if ltb_ℤ key (part p.part_vec 0) then p.server_num - 1 else upper_bound key p.part_vec - 1

get_server_by_key-owner :
    (p : Partition) (key : ℤ)
    → IsPartition p
    → InRange p.key_range key
    → get_server_by_key p key ≡ some (pos (owner p key))
unfolding get_server_by_key
get_server_by_key-owner p key v r =
    ground (arith, get_elem?-eq-get_or p.part_vec 0 (pos 0), upper_bound_pos key p.part_vec)

owner-Owns : (p : Partition) (key : ℤ) → IsPartition p → Owns p.part_vec key (owner p key)
owner-Owns p key v = elim (Bool-cases (ltb_ℤ key (part p.part_vec 0))) [
  | inl below ↦ rw below (inr (ground arith, inr (ground arith)))
  | inr above ↦ rw above (
      upper_bound-Owns key p.part_vec (upper_bound key p.part_vec - 1) v.sorted
        (ground (arith, upper_bound_pos key p.part_vec)))
]

-- Inside the key range `GetServerByKey` returns the index of a server, and that server holds the
-- key: a partition with one ascending element for each of at least one server is assumed.
pub get_server_by_key-Owns :
    (p : Partition) (key : ℤ)
    → IsPartition p
    → InRange p.key_range key
    → (i : ℕ) × (get_server_by_key p key ≡ some (pos i)) × Owns p.part_vec key i
get_server_by_key-Owns p key v r =
    (owner p key, get_server_by_key-owner p key v r, owner-Owns p key v)

-- With one ascending element for each server, and a key of the key range, `GetServerByKey` returns
-- server `i` exactly when server `i` holds the key.
pub get_server_by_key_iff :
    (p : Partition) (key : ℤ) (i : ℕ)
    → IsPartition p
    → InRange p.key_range key
    → (get_server_by_key p key ≡ some (pos i)) ↔ Owns p.part_vec key i
get_server_by_key_iff p key i v r =
    let found = get_server_by_key-Owns p key v r in
    (
      (λ e. subst (Owns p.part_vec key) (some-pos (sym found.1 ∙ e)) found.2),
      (λ o.
          found.1
          ∙ ap (λ k. some (pos k)) (Owns-unique p.part_vec key found.0 i v.sorted found.2 o)),
    )
  where
    some-pos : {m n : ℕ} → some (pos m) ≡ some (pos n) → m ≡ n
    some-pos h = cc

-- Outside the key range the result is -1, whatever the partition.
pub get_server_by_key_outside :
    (p : Partition) (key : ℤ)
    → (key <ℤ pos 0) ⊎ (pos p.key_range ≤ℤ key)
    → get_server_by_key p key ≡ some (negsuc 0)
unfolding get_server_by_key
get_server_by_key_outside p key h = ground arith
