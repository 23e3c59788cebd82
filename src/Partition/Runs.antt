-- ===== src/Partition/Runs.antt =====
-- Partition::NextEnding: the runs into which a sorted list of keys is cut.
use plug_in_ml.Base.{
  ℕ, suc, ◌+◌, ◌-◌, ◌≤◌, ◌<◌, ◌≡◌, some, List, [], ◌∷◌, ℤ, pos, ◌≤ℤ◌, ◌<ℤ◌, ltb_ℤ, ◌==◌,
  if◌then◌else◌, length, drop, length-drop, get_elem?, get_elem?-eq-get_or, get_elem?-drop,
  get_elem?-lt, ◌≢◌, All, All-get_elem?, arith, Bool-cases, inl, inr, ap, ◌∙◌, ◌+ℤ◌,
}
use plug_in_ml.Partition.Search.{IsSorted, lower_bound-le, lower_bound-below, lower_bound-above}
use plug_in_ml.Partition.{Partition, get_server_by_key, next_ending, bound_from}
use plug_in_ml.Partition.Owner.{part, part-mono, Owns, InRange, IsPartition, get_server_by_key-Owns}

IsSorted-drop : (n : ℕ) (xs : List ℤ) → IsSorted xs → IsSorted (drop n xs)
IsSorted-drop ℕ.zero xs s = s
IsSorted-drop (suc n) [] s = tt
IsSorted-drop (suc n) (x ∷ xs) s = IsSorted-drop n xs s.1

-- The bound cuts a sorted list: below it on the left, not below it on the right.
pub record Cuts (keys : List ℤ) (start : ℕ) (bound : ℤ) (stop : ℕ) : Type 0 where
  pub from_start : start ≤ stop
  pub within : stop ≤ length keys
  pub below : (j : ℕ) (k : ℤ) → start ≤ j → j < stop → get_elem? keys j ≡ some k → k <ℤ bound
  pub above : (j : ℕ) (k : ℤ) → stop ≤ j → get_elem? keys j ≡ some k → bound ≤ℤ k

get_elem?-shift :
    (keys : List ℤ) (start j : ℕ) (k : ℤ)
    → start ≤ j
    → get_elem? keys j ≡ some k
    → get_elem? (drop start keys) (j - start) ≡ some k
get_elem?-shift keys start j k h e =
    get_elem?-drop start keys (j - start) ∙ ap (get_elem? keys) shift ∙ e
  where
    shift : start + (j - start) ≡ j
    shift = omega arith

pub bound_from-Cuts :
    (keys : List ℤ) (start : ℕ) (bound : ℤ)
    → IsSorted keys
    → start ≤ length keys
    → Cuts keys start bound (bound_from keys start bound)
bound_from-Cuts keys start bound s h = record {
  from_start = omega arith;
  within = omega (arith, lower_bound-le bound (drop start keys), length-drop start keys);
  below = λ j k lo hi e.
      lower_bound-below bound (drop start keys) (j - start) k (omega arith)
        (get_elem?-shift keys start j k lo e);
  above = λ j k lo e.
      lower_bound-above bound (drop start keys) (j - start) k (IsSorted-drop start keys s)
        (omega arith) (get_elem?-shift keys start j k (omega arith) e);
}

pub get_elem?-mono :
    (xs : List ℤ) (i j : ℕ) (a b : ℤ)
    → IsSorted xs
    → i ≤ j
    → get_elem? xs i ≡ some a
    → get_elem? xs j ≡ some b
    → a ≤ℤ b
get_elem?-mono [] i j a b s h e f = cc
get_elem?-mono (x ∷ xs) ℕ.zero ℕ.zero a b s h e f = ground arith
get_elem?-mono (x ∷ xs) ℕ.zero (suc j) a b s h e f =
    ground (arith, All-get_elem? (λ y. x ≤ℤ y) xs j b s.0 f)
get_elem?-mono (x ∷ xs) (suc i) ℕ.zero a b s h e f = absurd (omega arith)
get_elem?-mono (x ∷ xs) (suc i) (suc j) a b s h e f =
    get_elem?-mono xs i j a b s.1 (omega arith) e f

-- What `next_ending` promises of `[start, stop)` and server `i`.
pub record Run (p : Partition) (keys : List ℤ) (start stop i : ℕ) : Type 0 where
  pub progress : start < stop
  pub within : stop ≤ length keys
  pub owned :
      (j : ℕ) (k : ℤ) → start ≤ j → j < stop → get_elem? keys j ≡ some k → Owns p.part_vec k i
  pub maximal :
      (j : ℕ) (k : ℤ)
      → part p.part_vec 0 ≤ℤ part keys start
      → stop ≤ j
      → get_elem? keys j ≡ some k
      → ¬ Owns p.part_vec k i

-- The stop of the run for the server `i` of the key at `start`.
abbrev run_stop : Partition → List ℤ → ℕ → ℕ → ℕ
run_stop p keys start i =
    if ltb_ℤ (part keys start) (part p.part_vec 0)
    then bound_from keys start (part p.part_vec 0)
    else (if suc i == p.server_num
        then length keys
        else bound_from keys start (part p.part_vec (suc i)))

pos-add-one : (i : ℕ) → pos i +ℤ pos 1 ≡ pos (suc i)
unfolding ◌+ℤ◌
pos-add-one i = ground arith

next_ending-eq :
    (p : Partition) (keys : List ℤ) (start i : ℕ)
    → IsPartition p
    → start < length keys
    → i < p.server_num
    → get_server_by_key p (part keys start) ≡ some (pos i)
    → next_ending p keys start ≡ some (run_stop p keys start i, pos i)
unfolding next_ending
next_ending-eq p keys start i v h lt e = ground (
  arith,
  get_elem?-eq-get_or keys start (pos 0),
  get_elem?-eq-get_or p.part_vec 0 (pos 0),
  get_elem?-eq-get_or p.part_vec (suc i) (pos 0),
  pos-add-one i,
)

pub Owns-lt : (vec : List ℤ) (k : ℤ) (i : ℕ) → Owns vec k i → i < length vec
Owns-lt vec k i o = ground arith

-- The three cases of a run, each by the cut that ends it.
low-Run :
    (p : Partition) (keys : List ℤ) (start i : ℕ)
    → IsPartition p
    → IsSorted keys
    → start < length keys
    → Owns p.part_vec (part keys start) i
    → part keys start <ℤ part p.part_vec 0
    → Run p keys start (bound_from keys start (part p.part_vec 0)) i
low-Run p keys start i v s h o low = record {
  progress = ground (arith, c.from_start, c.above start (part keys start), here);
  within = c.within;
  owned = λ j k lo hi e. ground (arith, c.below j k lo hi e, part-mono p.part_vec 0 i v.sorted);
  maximal = λ j k at_least hi e o'. absurd (omega arith);
}
  where
    c : Cuts keys start (part p.part_vec 0) (bound_from keys start (part p.part_vec 0))
    c = bound_from-Cuts keys start (part p.part_vec 0) s (omega arith)

    here : get_elem? keys start ≡ some (part keys start)
    here = get_elem?-eq-get_or keys start (pos 0) h

last-Run :
    (p : Partition) (keys : List ℤ) (start i : ℕ)
    → IsPartition p
    → IsSorted keys
    → start < length keys
    → Owns p.part_vec (part keys start) i
    → part p.part_vec 0 ≤ℤ part keys start
    → suc i ≡ p.server_num
    → Run p keys start (length keys) i
last-Run p keys start i v s h o high last = record {
  progress = h;
  within = omega arith;
  owned = λ j k lo hi e.
      ground (arith, get_elem?-mono keys start j (part keys start) k s lo here e, v.sized);
  maximal = λ j k at_least hi e o'. absurd (omega (arith, get_elem?-lt keys j k e));
}
  where
    here : get_elem? keys start ≡ some (part keys start)
    here = get_elem?-eq-get_or keys start (pos 0) h

inner-Run :
    (p : Partition) (keys : List ℤ) (start i : ℕ)
    → IsPartition p
    → IsSorted keys
    → start < length keys
    → Owns p.part_vec (part keys start) i
    → part p.part_vec 0 ≤ℤ part keys start
    → suc i ≢ p.server_num
    → Run p keys start (bound_from keys start (part p.part_vec (suc i))) i
inner-Run p keys start i v s h o high inner = record {
  progress = ground (arith, c.from_start, c.above start (part keys start), here, v.sized);
  within = c.within;
  owned = λ j k lo hi e. ground (
    arith,
    c.below j k lo hi e,
    get_elem?-mono keys start j (part keys start) k s lo here e,
    v.sized,
  );
  maximal = λ j k at_least hi e o'. ground (arith, c.above j k hi e, v.sized);
}
  where
    c : Cuts keys start (part p.part_vec (suc i)) (bound_from keys start (part p.part_vec (suc i)))
    c = bound_from-Cuts keys start (part p.part_vec (suc i)) s (omega arith)

    here : get_elem? keys start ≡ some (part keys start)
    here = get_elem?-eq-get_or keys start (pos 0) h

run_stop-Run :
    (p : Partition) (keys : List ℤ) (start i : ℕ)
    → IsPartition p
    → IsSorted keys
    → start < length keys
    → Owns p.part_vec (part keys start) i
    → Run p keys start (run_stop p keys start i) i
run_stop-Run p keys start i v s h o =
    elim (Bool-cases (ltb_ℤ (part keys start) (part p.part_vec 0))) [
      | inl low ↦ rw low (low-Run p keys start i v s h o (ground arith))
      | inr high ↦ rw high (elim (Bool-cases (suc i == p.server_num)) [
        | inl last ↦ rw last (last-Run p keys start i v s h o (ground arith) (ground arith))
        | inr inner ↦ rw inner (inner-Run p keys start i v s h o (ground arith) (λ e. ground arith))
      ])
    ]

-- `NextEnding` on a sorted list of keys of the key range, from a start inside the list: the run
-- that it returns is not empty and stays in the list, every key of it belongs to the one server
-- that is returned, and if the run starts at `part_vec_[0]` or above, no key behind it does.
pub next_ending-Run :
    (p : Partition) (keys : List ℤ) (start : ℕ)
    → IsPartition p
    → IsSorted keys
    → All (InRange p.key_range) keys
    → start < length keys
    → (stop : ℕ) × (i : ℕ) × (next_ending p keys start ≡ some (stop, pos i))
      × Run p keys start stop i
next_ending-Run p keys start v s r h =
    let key_in =
      All-get_elem? (InRange p.key_range) keys start (part keys start) r
        (get_elem?-eq-get_or keys start (pos 0) h) in
    let found = get_server_by_key-Owns p (part keys start) v key_in in
    (
      run_stop p keys start found.0,
      found.0,
      next_ending-eq p keys start found.0 v h
          (omega (arith, Owns-lt p.part_vec (part keys start) found.0 found.2)) found.1,
      run_stop-Run p keys start found.0 v s h found.2,
    )
