-- ===== src/Server/Rounds.antt =====
-- src/server/server.h: `finish_count_` counts, for each version not yet applied, the agents that
-- have delivered it. The counts against the buffers.
use plug_in_ml.Base.{
  ℕ, zero, suc, ◌+◌, ◌≤◌, ◌<◌, ◌≡◌, refl, sym, ap, ap₂, ◌∙◌, some, List, [], ◌∷◌, ◌++◌, map,
  get_elem?, set, length, tail, length-append, All, ltb, ◌==◌, if◌then◌else◌, arith,
}

one_add : (n : ℕ) → 1 + n ≡ suc n
one_add n = omega arith

module _ {A : Type 0} where
  -- How many buffers hold more than `k` updates.
  unfoldable pub count_longer : ℕ → List (List A) → ℕ
  count_longer k [] = 0
  count_longer k (q ∷ qs) = (if ltb k (length q) then 1 else 0) + count_longer k qs

  -- These numbers for `k`, `k + 1`, … (`n` of them).
  unfoldable pub tally : ℕ → ℕ → List (List A) → List ℕ
  tally k zero buffers = []
  tally k (suc n) buffers = count_longer k buffers ∷ tally (suc k) n buffers

  abbrev pub AtMost : ℕ → List (List A) → Type 0
  AtMost bound = All (λ q. length q ≤ bound)

  pub count_longer-le : (k : ℕ) (qs : List (List A)) → count_longer k qs ≤ length qs
  unfolding count_longer
  count_longer-le k [] = omega arith
  count_longer-le k (q ∷ qs) = ground (arith, count_longer-le k qs)

  pub count_longer-tail :
      (k : ℕ) (qs : List (List A)) → count_longer k (map tail qs) ≡ count_longer (suc k) qs
  unfolding count_longer
  count_longer-tail k [] = refl
  count_longer-tail k ([] ∷ qs) = ground (arith, count_longer-tail k qs)
  count_longer-tail k ((x ∷ q) ∷ qs) = ground (arith, count_longer-tail k qs)

  count_longer-bound :
      (bound : ℕ) (qs : List (List A)) → AtMost bound qs → count_longer bound qs ≡ 0
  unfolding count_longer
  count_longer-bound bound [] h = refl
  count_longer-bound bound (q ∷ qs) h = ground (arith, count_longer-bound bound qs h.1)

  tally-tail : (k n : ℕ) (qs : List (List A)) → tally k n (map tail qs) ≡ tally (suc k) n qs
  unfolding tally
  tally-tail k zero qs = refl
  tally-tail k (suc n) qs = ap₂ ◌∷◌ (count_longer-tail k qs) (tally-tail (suc k) n qs)

  tally-snoc :
      (k n : ℕ) (qs : List (List A))
      → tally k (suc n) qs ≡ tally k n qs ++ count_longer (k + n) qs ∷ []
  unfolding tally
  tally-snoc k zero qs = ap (λ m. count_longer m qs ∷ []) (omega arith)
  tally-snoc k (suc n) qs = ap (◌∷◌ (count_longer k qs)) (
      tally-snoc (suc k) n qs
      ∙ ap (λ m. tally (suc k) n qs ++ count_longer m qs ∷ []) (omega arith))

  -- Taking one update off each buffer shifts the counts.
  pub tally-shift :
      (n : ℕ) (qs : List (List A))
      → AtMost (suc n) qs
      → tail (tally 0 (suc n) qs) ++ 0 ∷ [] ≡ tally 0 (suc n) (map tail qs)
  unfolding tally
  tally-shift n qs h = sym (
      tally-tail 0 (suc n) qs
      ∙ tally-snoc 1 n qs
      ∙ ap (λ m. tally 1 n qs ++ m ∷ []) (last ∙ count_longer-bound (suc n) qs h))
    where
      last : count_longer (1 + n) qs ≡ count_longer (suc n) qs
      last = ap (λ m. count_longer m qs) (one_add n)

  -- One more update in a buffer of `k` raises the count at `k` alone.
  pub count_longer-set :
      (m i : ℕ) (qs : List (List A)) (q : List A) (x : A)
      → get_elem? qs i ≡ some q
      → count_longer m (set qs i (q ++ x ∷ []))
        ≡ (if m == length q then suc (count_longer m qs) else count_longer m qs)
  unfolding count_longer
  count_longer-set m i [] q x e = cc
  count_longer-set m zero (p ∷ qs) q x e =
      let same : p ≡ q = cc in ground (arith, same, length-append q (x ∷ []))
  count_longer-set m (suc i) (p ∷ qs) q x e = ground (arith, count_longer-set m i qs q x e)

  tally-above :
      (k n i : ℕ) (qs : List (List A)) (q : List A) (x : A)
      → get_elem? qs i ≡ some q
      → length q < k
      → tally k n (set qs i (q ++ x ∷ [])) ≡ tally k n qs
  unfolding tally
  tally-above k zero i qs q x e lo = refl
  tally-above k (suc n) i qs q x e lo =
      ap₂ ◌∷◌ (ground (arith, count_longer-set k i qs q x e))
        (tally-above (suc k) n i qs q x e (omega arith))

  pub tally-set :
      (d k n i : ℕ) (qs : List (List A)) (q : List A) (x : A)
      → get_elem? qs i ≡ some q
      → k + d ≡ length q
      → (count : ℕ) → get_elem? (tally k n qs) d ≡ some count
      → set (tally k n qs) d (suc count) ≡ tally k n (set qs i (q ++ x ∷ []))
  unfolding tally
  tally-set d k zero i qs q x e at_q count h = refl
  tally-set zero k (suc n) i qs q x e at_q count h =
      let same : count_longer k qs ≡ count = cc in
      ap₂ ◌∷◌ (ground (arith, count_longer-set k i qs q x e, same))
        (sym (tally-above (suc k) n i qs q x e (omega arith)))
  tally-set (suc d) k (suc n) i qs q x e at_q count h =
      ap₂ ◌∷◌ (ground (arith, count_longer-set k i qs q x e))
        (tally-set d (suc k) n i qs q x e (omega arith) count h)

  pub length-tally : (k n : ℕ) (qs : List (List A)) → length (tally k n qs) ≡ n
  unfolding tally
  length-tally k zero qs = refl
  length-tally k (suc n) qs = ap suc (length-tally (suc k) n qs)

  -- All buffers hold an update exactly when their count is the number of buffers.
  pub count_longer-All :
      (qs : List (List A)) → count_longer 0 qs ≡ length qs → All (λ q. 0 < length q) qs
  unfolding count_longer
  count_longer-All [] h = tt
  count_longer-All (q ∷ qs) h = (
    ground (arith, count_longer-le 0 qs),
    count_longer-All qs (ground (arith, count_longer-le 0 qs)),
  )

  pub tally-head :
      (n : ℕ) (qs : List (List A)) → get_elem? (tally 0 (suc n) qs) 0 ≡ some (count_longer 0 qs)
  unfolding tally
  tally-head n qs = refl

  pub AtMost-tail : (bound : ℕ) (qs : List (List A)) → AtMost bound qs → AtMost bound (map tail qs)
  AtMost-tail bound [] h = tt
  AtMost-tail bound ([] ∷ qs) h = (h.0, AtMost-tail bound qs h.1)
  AtMost-tail bound ((x ∷ q) ∷ qs) h = (omega arith, AtMost-tail bound qs h.1)

  pub count_longer_mono : (k : ℕ) (qs : List (List A)) → count_longer (suc k) qs ≤ count_longer k qs
  unfolding count_longer
  count_longer_mono k [] = omega arith
  count_longer_mono k (q ∷ qs) = ground (arith, count_longer_mono k qs)

  pub tally-shift_pos :
      (bound : ℕ) (qs : List (List A))
      → 0 < bound
      → AtMost bound qs
      → tail (tally 0 bound qs) ++ 0 ∷ [] ≡ tally 0 bound (map tail qs)
  tally-shift_pos zero qs p h = absurd (omega arith)
  tally-shift_pos (suc n) qs p h = tally-shift n qs h

  pub tally-first :
      (bound : ℕ) (qs : List (List A))
      → 0 < bound
      → get_elem? (tally 0 bound qs) 0 ≡ some (count_longer 0 qs)
  tally-first zero qs p = absurd (omega arith)
  tally-first (suc n) qs p = tally-head n qs
