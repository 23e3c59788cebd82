-- ===== src/Agent/Sort/Sorted.antt =====
-- src/agent/agent.cc: SortKeyValue as a whole.
use plug_in_ml.Base.{
  ℕ, suc, ◌≤◌, ◌<◌, ◌≡◌, refl, sym, ap, ◌∙◌, false, some, List, [], ◌∷◌, ◌++◌, map, ℤ,
  get_elem?-some, get_elem?-lt, set, set-middle, length, length-append, length-take_le, take, drop,
  length-drop, take-append-drop, drop-cons, take-length-append, drop-length-append, All, contains,
  Distinct, for, arith,
}
use mathlib.Core.List.{Perm, append_assoc, append-nil, perm_append_singleton}
use mathlib.Core.List.Perm
use mathlib.Core.Path.{subst}
use plug_in_ml.Partition.Search.{IsSorted}
use plug_in_ml.Agent.State.{put}
use plug_in_ml.Agent.Sort.{map_insert, insert_place, write_items, sort_key_value}
use plug_in_ml.Agent.Sort.Insert.{
  keys_of, contains-map_insert, All-map_insert, All-keys-map_insert, map_insert-IsSorted,
  length-map_insert, resolve, resolve_nil, resolve-some, map_insert-perm,
}

-- None of the keys is in the map.
abbrev Absent : List ℤ → List (ℤ × ℕ) → Type 0
Absent ks m = All (λ k. contains k (keys_of m) ≡ false) ks

Absent-map_insert :
    (k : ℤ) (i : ℕ) (ks : List ℤ) (m : List (ℤ × ℕ))
    → contains k ks ≡ false
    → Absent ks m
    → Absent ks (map_insert k i m)
unfolding contains
Absent-map_insert k i [] m h a = tt
Absent-map_insert k i (j ∷ ks) m h a = (
  ground (arith, h, a.0, contains-map_insert j k i m),
  Absent-map_insert k i ks m (ground (arith, h)) a.1,
)

put-middle :
    {A : Type 0} (n : ℕ) (xs : List A) (y z : A) (ys : List A)
    → length xs ≡ n
    → put (xs ++ y ∷ ys) n z ≡ some ((xs ++ z ∷ []) ++ ys)
unfolding put
put-middle n xs y z ys e =
    ground
      (arith, length-append xs (y ∷ ys), set-middle xs y z ys, ap (λ k. set (xs ++ y ∷ ys) k z) e)

length-map : {A B : Type 0} (f : A → B) (xs : List A) → length (map f xs) ≡ length xs
length-map f [] = refl
length-map f (x ∷ xs) = ap suc (length-map f xs)

take_front : {A : Type 0} (n : ℕ) (xs ys : List A) → length xs ≡ n → take n (xs ++ ys) ≡ xs
take_front n xs ys e = ap (λ k. take k (xs ++ ys)) (sym e) ∙ take-length-append xs ys

drop_front : {A : Type 0} (n : ℕ) (xs ys : List A) → length xs ≡ n → drop n (xs ++ ys) ≡ ys
drop_front n xs ys e = ap (λ k. drop k (xs ++ ys)) (sym e) ∙ drop-length-append xs ys

Absent-nil : (ks : List ℤ) → Absent ks []
unfolding contains
Absent-nil [] = tt
Absent-nil (k ∷ ks) = (refl, Absent-nil ks)

module _ {F : Type 0} where
  -- Keys and values side by side.
  abbrev pub zip : List ℤ → List F → List (ℤ × F)
  zip [] vs = []
  zip (k ∷ ks) [] = []
  zip (k ∷ ks) (v ∷ vs) = (k, v) ∷ zip ks vs

  -- The map that the first loop makes: sorted, with the pairs of the keys read.
  record IsMap (P : ℤ → Type 0) (values : List F) (m : List (ℤ × ℕ)) (pairs : List (ℤ × F))
      : Type 0 where
    sorted : IsSorted (keys_of m)
    counted : length m ≡ length pairs
    placed : All (λ e. e.1 < length values) m
    kept : All P (keys_of m)
    same : Perm (resolve values m) pairs

  places_loop :
      (P : ℤ → Type 0) (keys : List ℤ) (values : List F) (ks rest : List ℤ) (vs : List F) (i : ℕ)
      (m : List (ℤ × ℕ)) (pairs : List (ℤ × F))
      → drop i keys ≡ ks ++ rest
      → drop i values ≡ vs
      → length ks ≡ length vs
      → Distinct ks
      → Absent ks m
      → All P ks
      → IsMap P values m pairs
      → (m' : List (ℤ × ℕ)) × (for (length ks) i (insert_place keys) m ≡ some m')
        × IsMap P values m' (pairs ++ zip ks vs)
  unfolding for insert_place
  places_loop P keys values [] rest vs i m pairs dk dv e d a p v = (
    m,
    refl,
    record {
      sorted = v.sorted;
      counted = v.counted ∙ ap length (sym (append-nil pairs));
      placed = v.placed;
      kept = v.kept;
      same = rw (append-nil pairs) v.same;
    },
  )
  places_loop P keys values (k ∷ ks) rest [] i m pairs dk dv e d a p v = absurd (omega arith)
  places_loop P keys values (k ∷ ks) rest (x ∷ vs) i m pairs dk dv e d a p v =
      let here = drop-cons keys i k (ks ++ rest) dk in
      let there = drop-cons values i x vs dv in
      let next =
        places_loop P keys values ks rest vs (suc i) (map_insert k i m) (pairs ++ (k, x) ∷ [])
          here.1 there.1 (omega arith) d.1 (Absent-map_insert k i ks m d.0 a.1) p.1
          (record {
            sorted = map_insert-IsSorted k i m v.sorted;
            counted =
                omega (
                  arith,
                  length-map_insert k i m a.0,
                  v.counted,
                  length-append pairs ((k, x) ∷ []),
                );
            placed =
                All-map_insert (λ e. e.1 < length values) k i m (get_elem?-lt values i x there.0)
                  v.placed;
            kept = All-keys-map_insert P k i m p.0 v.kept;
            same = Perm.trans (map_insert-perm values k i x m there.0 a.0) (
                Perm.trans (Perm.cons (k, x) v.same)
                  (Perm.symm (perm_append_singleton (k, x) pairs)));
          }) in
      (
        next.0,
        rw here.0 next.1,
        subst (IsMap P values next.0) (append_assoc pairs ((k, x) ∷ []) (zip ks vs)) next.2,
      )

  resolve-keys :
      (values : List F) (m : List (ℤ × ℕ))
      → All (λ e. e.1 < length values) m
      → map (λ p. p.0) (resolve values m) ≡ keys_of m
  resolve-keys values [] h = ap (map (λ p. p.0)) (resolve_nil values)
  resolve-keys values ((k, i) ∷ m) h =
      let v = get_elem?-some values i h.0 in
      rw (resolve-some values k i v.0 m v.1) (ap (◌∷◌ k) (resolve-keys values m h.1))

  -- The second loop writes the pairs over the entries from its place on.
  write_loop :
      (tmp : List F) (m : List (ℤ × ℕ)) (n : ℕ) (pre krest : List ℤ) (vpre vrest : List F)
      → All (λ e. e.1 < length tmp) m
      → length m ≤ length krest
      → length m ≤ length vrest
      → length pre ≡ n
      → length vpre ≡ n
      → write_items tmp m n (pre ++ krest) (vpre ++ vrest)
        ≡ some (
          pre ++ (map (λ p. p.0) (resolve tmp m) ++ drop (length m) krest),
          vpre ++ (map (λ p. p.1) (resolve tmp m) ++ drop (length m) vrest),
        )
  unfolding write_items
  write_loop tmp [] n pre krest vpre vrest h lk lv e f = rw (resolve_nil tmp) refl
  write_loop tmp ((k, i) ∷ m) n pre [] vpre vrest h lk lv e f = absurd (omega arith)
  write_loop tmp ((k, i) ∷ m) n pre (y ∷ krest) vpre [] h lk lv e f = absurd (omega arith)
  write_loop tmp ((k, i) ∷ m) n pre (y ∷ krest) vpre (w ∷ vrest) h lk lv e f =
      let v = get_elem?-some tmp i h.0 in
      let rest =
        write_loop tmp m (suc n) (pre ++ k ∷ []) krest (vpre ++ v.0 ∷ []) vrest h.1 (omega arith)
          (omega arith) (omega (arith, length-append pre (k ∷ [])))
          (omega (arith, length-append vpre (v.0 ∷ []))) in
      rw (v.1, put-middle n pre y k krest e, put-middle n vpre w v.0 vrest f)
        (rest
          ∙ rw
              (
                resolve-some tmp k i v.0 m v.1,
                append_assoc pre (k ∷ []) (map (λ p. p.0) (resolve tmp m) ++ drop (length m) krest),
                append_assoc vpre (v.0 ∷ [])
                    (map (λ p. p.1) (resolve tmp m) ++ drop (length m) vrest),
              )
              refl)

  zip-maps : (ps : List (ℤ × F)) → zip (map (λ p. p.0) ps) (map (λ p. p.1) ps) ≡ ps
  zip-maps [] = refl
  zip-maps (p ∷ ps) = ap (◌∷◌ p) (zip-maps ps)

  length-zip : (ks : List ℤ) (vs : List F) → length ks ≡ length vs → length (zip ks vs) ≡ length ks
  length-zip [] vs e = refl
  length-zip (k ∷ ks) [] e = absurd (omega arith)
  length-zip (k ∷ ks) (v ∷ vs) e = ap suc (length-zip ks vs (omega arith))

  -- What `SortKeyValue` makes of the first `size` keys and values.
  pub record Sorts (size : ℕ) (keys : List ℤ) (values : List F) (keys' : List ℤ) (values' : List F)
      : Type 0 where
    pub sorted : IsSorted (take size keys')
    pub same :
        Perm (zip (take size keys') (take size values')) (zip (take size keys) (take size values))
    pub keys_length : length keys' ≡ length keys
    pub values_length : length values' ≡ length values
    pub keys_behind : drop size keys' ≡ drop size keys
    pub values_behind : drop size values' ≡ drop size values

  -- `SortKeyValue` on keys without repetition, with `size` keys and values in the arrays: it
  -- reads and writes inside them, leaves the keys in ascending order with each value still beside
  -- its key, and leaves what lies behind `size` alone. A property of all keys stays one.
  pub sort_key_value-Sorts :
      (P : ℤ → Type 0) (keys : List ℤ) (values : List F) (size : ℕ)
      → size ≤ length keys
      → size ≤ length values
      → Distinct (take size keys)
      → All P (take size keys)
      → (keys' : List ℤ) × (values' : List F) × (sort_key_value keys values size
          ≡ some (keys', values'))
        × Sorts size keys values keys' values'
        × All P (take size keys')
  unfolding sort_key_value
  sort_key_value-Sorts P keys values size lk lv d p =
      let ks = take size keys in
      let vs = take size values in
      let nk = length-take_le size keys lk in
      let nv = length-take_le size values lv in
      let loop =
        places_loop P keys vs ks (drop size keys) vs 0 [] [] (sym (take-append-drop size keys)) refl
          (nk ∙ sym nv) d (Absent-nil ks) p
          (record {
            sorted = tt;
            counted = refl;
            placed = tt;
            kept = tt;
            same = rw (resolve_nil vs) Perm.rfl;
          }) in
      let m = loop.0 in
      let v = loop.2 in
      let mapped = ap (λ n. for n 0 (insert_place keys) []) (sym nk) ∙ loop.1 in
      let count : length m ≡ size = v.counted ∙ length-zip ks vs (nk ∙ sym nv) ∙ nk in
      let ps = resolve vs m in
      let written =
        write_loop vs m 0 [] keys [] values v.placed (omega (arith, count)) (omega (arith, count))
          refl refl in
      let firsts = resolve-keys vs m v.placed in
      let np : length ps ≡ size =
        sym (length-map (λ q. q.0) ps) ∙ ap length firsts ∙ length-map (λ e. e.0) m ∙ count in
      let n0 = length-map (λ q. q.0) ps ∙ np in
      let n1 = length-map (λ q. q.1) ps ∙ np in
      let k' = take_front size (map (λ q. q.0) ps) (drop (length m) keys) n0 in
      let v' = take_front size (map (λ q. q.1) ps) (drop (length m) values) n1 in
      (
        map (λ q. q.0) ps ++ drop (length m) keys,
        map (λ q. q.1) ps ++ drop (length m) values,
        rw mapped written,
        record {
          sorted = rw (k', firsts) v.sorted;
          same = rw (k', v', zip-maps ps) v.same;
          keys_length = omega (
            arith,
            n0,
            count,
            length-drop (length m) keys,
            length-append (map (λ q. q.0) ps) (drop (length m) keys),
          );
          values_length = omega (
            arith,
            n1,
            count,
            length-drop (length m) values,
            length-append (map (λ q. q.1) ps) (drop (length m) values),
          );
          keys_behind =
              drop_front size (map (λ q. q.0) ps) (drop (length m) keys) n0
              ∙ ap (λ n. drop n keys) count;
          values_behind =
              drop_front size (map (λ q. q.1) ps) (drop (length m) values) n1
              ∙ ap (λ n. drop n values) count;
        },
        rw (k', firsts) v.kept,
      )
