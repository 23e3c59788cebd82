-- ===== src/Communicator/Ring/Held.antt =====
-- src/communication/fifo_ring.cc: what the slots and the semaphores hold.
use plug_in_ml.Base.{
  ℕ, zero, suc, true, false, leb, ◌+◌, ◌-◌, ◌%◌, ◌≤◌, ◌<◌, ◌≡◌, ◌≢◌, ◌⊎◌, inl, inr, refl, sym, ap,
  ◌∙◌, none, some, List, [], ◌∷◌, ◌++◌, get_elem?, get_elem?-lt, get_elem?-set_self,
  get_elem?-set_ne, set, length, length-append, length-set, take, arith,
}
use mathlib.Core.Path.{subst}
use native.Mathlib.Nat.{mod-add-mod, mod-eq-sub-mod, mod-eq_of_lt, mod-lt}
use native.Mathlib.Decide.{dec_lt}
use plug_in_ml.Communicator.Ring.{FifoRing, sem_wait, add, fetch}

wrap : (n x : ℕ) → x < n + n → ((x % n ≡ x) × (x < n)) ⊎ ((x % n + n ≡ x) × (n ≤ x))
wrap n x h = elim (dec_lt x n) [
  | yes below ↦ inl (mod-eq_of_lt below, below)
  | no above ↦
      let over : n ≤ x = omega arith in
      let less : x - n < n = omega arith in
      let e = mod-eq-sub-mod over ∙ mod-eq_of_lt less in inr (omega (arith, e), over)
]

-- Different places of the ring, counted from the same slot.
apart : (n c j k : ℕ) → c < n → j < n → k < n → j ≢ k → (c + j) % n ≢ (c + k) % n
apart n c j k hc hj hk ne same =
    ground (arith, wrap n (c + j) (omega arith), wrap n (c + k) (omega arith))

-- The ring holds the queue's messages from `consume_point` on, and the semaphores count.
pub record Holds (r : FifoRing) (q : List (List ℕ)) : Type 0 where
  pub some_slot : 0 < r.ring_size
  pub slots : length r.ring ≡ r.ring_size
  pub sizes : length r.data_sizes ≡ r.ring_size
  pub from_slot : r.consume_point < r.ring_size
  pub produce : r.produce_point ≡ (r.consume_point + length q) % r.ring_size
  pub full : r.full_sem ≡ length q
  pub empty : r.empty_sem + length q ≡ r.ring_size
  pub held :
      (j : ℕ) (m : List ℕ)
      → get_elem? q j ≡ some m
      → (get_elem? r.ring ((r.consume_point + j) % r.ring_size) ≡ some (some m))
        × (get_elem? r.data_sizes ((r.consume_point + j) % r.ring_size) ≡ some (length m))

get_elem?-snoc :
    {A : Type 0} (q : List A) (m x : A) (j : ℕ)
    → get_elem? (q ++ m ∷ []) j ≡ some x
    → (get_elem? q j ≡ some x) ⊎ ((j ≡ length q) × (m ≡ x))
get_elem?-snoc [] m x zero e = inr (refl, cc)
get_elem?-snoc [] m x (suc j) e = cc
get_elem?-snoc (y ∷ q) m x zero e = inl e
get_elem?-snoc (y ∷ q) m x (suc j) e = elim (get_elem?-snoc q m x j e) [
  | inl before ↦ inl before
  | inr (last, same) ↦ inr (ap suc last, same)
]

take_all : {A : Type 0} (xs : List A) → take (length xs) xs ≡ xs
take_all [] = refl
take_all (x ∷ xs) = ap (◌∷◌ x) (take_all xs)

abbrev after_add : FifoRing → List ℕ → ℕ → FifoRing
after_add r m free = record r {
  empty_sem = free;
  produce_point = (r.produce_point + 1) % r.ring_size;
  ring = set r.ring r.produce_point (some m);
  data_sizes = set r.data_sizes r.produce_point (length m);
  full_sem = suc r.full_sem;
}

-- A semaphore that is not 0 does not wait.
wait : (e : ℕ) → 0 < e → (k : ℕ) × (sem_wait e ≡ some k) × (suc k ≡ e)
wait zero h = elim h [ ]
wait (suc k) h = (k, refl, refl)

-- A message is added behind the others.
pub add_lem :
    (r : FifoRing) (q : List (List ℕ)) (m : List ℕ)
    → Holds r q
    → length q < r.ring_size
    → (r' : FifoRing) × (add m r ≡ some (length m, r'))
      × Holds r' (q ++ m ∷ [])
      × (r'.ring_size ≡ r.ring_size)
unfolding add
add_lem r q m v room =
    let p = r.produce_point in
    let n = r.ring_size in
    let inside : p < n =
      subst (λ k. k < n) (sym v.produce) (mod-lt (r.consume_point + length q) v.some_slot) in
    let other = λ (j : ℕ) (h : j < length q) (e : p ≡ (r.consume_point + j) % n).
      apart n r.consume_point (length q) j v.from_slot room (omega arith) (omega arith)
        (sym v.produce ∙ e) in
    let longer = length-append q (m ∷ []) in
    let waits = wait r.empty_sem (omega (arith, v.empty)) in
    (
      after_add r m waits.0,
      rw waits.1 refl,
      record {
        some_slot = v.some_slot;
        slots = length-set r.ring p (some m) ∙ v.slots;
        sizes = length-set r.data_sizes p (length m) ∙ v.sizes;
        from_slot = v.from_slot;
        produce =
            ap (λ k. (k + 1) % n) v.produce
            ∙ mod-add-mod (r.consume_point + length q) n 1
            ∙ ap (λ k. k % n) (omega (arith, longer));
        full = omega (arith, longer, v.full);
        empty = omega (arith, longer, v.empty, waits.2);
        held = λ j x e. elim (get_elem?-snoc q m x j e) [
          | inl before ↦
              let old = v.held j x before in
              let ne = other j (get_elem?-lt q j x before) in
              (
                get_elem?-set_ne r.ring p ((r.consume_point + j) % n) (some m) ne ∙ old.0,
                get_elem?-set_ne r.data_sizes p ((r.consume_point + j) % n) (length m) ne ∙ old.1,
              )
          | inr (last, same) ↦
              let here : (r.consume_point + j) % n ≡ p =
                ap (λ k. (r.consume_point + k) % n) last ∙ sym v.produce in
              (
                ap (get_elem? (set r.ring p (some m))) here
                    ∙ get_elem?-set_self r.ring p (some m) (omega (arith, v.slots))
                    ∙ ap (λ y. some (some y)) same,
                ap (get_elem? (set r.data_sizes p (length m))) here
                    ∙ get_elem?-set_self r.data_sizes p (length m) (omega (arith, v.sizes))
                    ∙ ap (λ y. some (length y)) same,
              )
        ];
      },
      refl,
    )

abbrev after_fetch : FifoRing → ℕ → FifoRing
after_fetch r full = record r {
  full_sem = full;
  consume_point = (r.consume_point + 1) % r.ring_size;
  ring = set r.ring r.consume_point none;
  empty_sem = suc r.empty_sem;
}

-- A message that is longer than the caller's buffer.
pub fetch_over :
    (r : FifoRing) (m : List ℕ) (rest : List (List ℕ))
    → Holds r (m ∷ rest)
    → (room : ℕ) → room < length m
    → fetch room r ≡ none
unfolding fetch
fetch_over r m rest v room over =
    let n = r.ring_size in
    let c = r.consume_point in
    let first : (c + 0) % n ≡ c = ap (λ k. k % n) (omega arith) ∙ mod-eq_of_lt v.from_slot in
    let here = v.held 0 m refl in
    let pointer : get_elem? r.ring c ≡ some (some m) = ap (get_elem? r.ring) (sym first) ∙ here.0 in
    let size : get_elem? r.data_sizes c ≡ some (length m) =
      ap (get_elem? r.data_sizes) (sym first) ∙ here.1 in
    let waits = wait r.full_sem (omega (arith, v.full)) in
    let stops : leb (length m) room ≡ false = ground (arith, over) in
    rw (waits.1, pointer, size, take_all m, stops) refl

-- The first message is fetched.
pub fetch_lem :
    (r : FifoRing) (m : List ℕ) (rest : List (List ℕ))
    → Holds r (m ∷ rest)
    → (room : ℕ) → length m ≤ room
    → (r' : FifoRing) × (fetch room r ≡ some (some m, r'))
      × Holds r' rest
      × (r'.ring_size ≡ r.ring_size)
unfolding fetch
fetch_lem r m rest v room enough =
    let n = r.ring_size in
    let c = r.consume_point in
    let first : (c + 0) % n ≡ c = ap (λ k. k % n) (omega arith) ∙ mod-eq_of_lt v.from_slot in
    let here = v.held 0 m refl in
    let pointer : get_elem? r.ring c ≡ some (some m) = ap (get_elem? r.ring) (sym first) ∙ here.0 in
    let size : get_elem? r.data_sizes c ≡ some (length m) =
      ap (get_elem? r.data_sizes) (sym first) ∙ here.1 in
    let waits = wait r.full_sem (omega (arith, v.full)) in
    let fits : leb (length m) room ≡ true = ground (arith, enough) in
    (
      after_fetch r waits.0,
      rw (waits.1, pointer, size, take_all m, fits) refl,
      record {
        some_slot = v.some_slot;
        slots = length-set r.ring c none ∙ v.slots;
        sizes = v.sizes;
        from_slot = mod-lt (c + 1) v.some_slot;
        produce =
            v.produce ∙ ap (λ k. k % n) (omega arith) ∙ sym (mod-add-mod (c + 1) n (length rest));
        full = omega (arith, v.full, waits.2);
        empty = omega (arith, v.empty);
        held = λ j x e.
            let old = v.held (suc j) x e in
            let place : ((c + 1) % n + j) % n ≡ (c + suc j) % n =
              mod-add-mod (c + 1) n j ∙ ap (λ k. k % n) (omega arith) in
            let ne : c ≢ (c + suc j) % n = λ same.
              apart n c 0 (suc j) v.from_slot v.some_slot
                (omega (arith, v.empty, get_elem?-lt rest j x e)) (omega arith) (first ∙ same) in
            (
              ap (get_elem? (set r.ring c none)) place
                  ∙ get_elem?-set_ne r.ring c ((c + suc j) % n) none ne
                  ∙ old.0,
              ap (get_elem? r.data_sizes) place ∙ old.1,
            );
      },
      refl,
    )
