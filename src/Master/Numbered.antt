-- ===== src/Master/Numbered.antt =====
-- src/master/task_config.cc, AppendServer and ToMessage: the table of addresses.
use plug_in_ml.Base.{
  Distinct, ℕ, suc, ◌+◌, ◌≡◌, refl, ap, ◌∙◌, true, false, ◌||◌, some, List, [], ◌∷◌, ◌++◌, map, ℤ,
  pos, ◌==ℤ◌, ltb_ℤ, length, length-append, set, set-middle, ltb, assign, contains, arith,
}
use mathlib.Core.List.{append_assoc}
use plug_in_ml.Message.{Addr}
use plug_in_ml.Agent.State.{put}
use plug_in_ml.Master.TaskConfig.{insert_entry, sort_entries, set_addresses}

-- The table in which the node `i`, `i + 1`, … has the next of the addresses.
unfoldable pub numbered : ℕ → List Addr → List (ℤ × Addr)
numbered i [] = []
numbered i (addr ∷ addrs) = (pos i, addr) ∷ numbered (suc i) addrs

pub assign-numbered :
    (i k : ℕ) (addr : Addr) (addrs : List Addr)
    → k ≡ i + length addrs
    → assign (pos k) addr (numbered i addrs) ≡ numbered i (addrs ++ addr ∷ [])
unfolding numbered assign
assign-numbered i k addr [] e = ap (λ n. (pos n, addr) ∷ []) (omega (arith, e))
assign-numbered i k addr (a ∷ addrs) e =
    let rest = assign-numbered (suc i) k addr addrs (omega (arith, e)) in
    let other : (pos i ==ℤ pos k) ≡ false = ground (arith, e) in rw (other, rest) refl

pub sort_entries-numbered :
    (i : ℕ) (addrs : List Addr) → sort_entries (numbered i addrs) ≡ numbered i addrs
unfolding numbered sort_entries insert_entry
sort_entries-numbered i [] = refl
sort_entries-numbered i (a ∷ addrs) =
    ap (insert_entry (pos i, a)) (sort_entries-numbered (suc i) addrs) ∙ first addrs
  where
    first :
        (addrs : List Addr)
        → insert_entry (pos i, a) (numbered (suc i) addrs) ≡ (pos i, a) ∷ numbered (suc i) addrs
    first [] = refl
    first (b ∷ bs) = let above : ltb_ℤ (pos (suc i)) (pos i) ≡ false = ground arith in rw above refl

pub map-numbered : (i : ℕ) (addrs : List Addr) → map (λ e. e.1) (numbered i addrs) ≡ addrs
unfolding numbered
map-numbered i [] = refl
map-numbered i (a ∷ addrs) = ap (◌∷◌ a) (map-numbered (suc i) addrs)

pub set_addresses-numbered :
    (i : ℕ) (before addrs : List Addr)
    → i ≡ length before
    → set_addresses (numbered i addrs) (before ++ addrs) ≡ some (before ++ addrs)
unfolding numbered set_addresses put
set_addresses-numbered i before [] e = refl
set_addresses-numbered i before (a ∷ addrs) e =
    let inside : ltb i (length (before ++ a ∷ addrs)) ≡ true =
      ground (arith, e, length-append before (a ∷ addrs)) in
    let same : set (before ++ a ∷ addrs) i a ≡ (before ++ a ∷ []) ++ addrs =
      ap (λ n. set (before ++ a ∷ addrs) n a) e ∙ set-middle before a a addrs in
    let rest =
      set_addresses-numbered (suc i) (before ++ a ∷ []) addrs
        (omega (arith, e, length-append before (a ∷ []))) in
    rw (inside, same, rest) (ap some (append_assoc before (a ∷ []) addrs))

pub contains-snoc :
    (j x : ℤ) (xs : List ℤ) → contains j (xs ++ x ∷ []) ≡ (contains j xs || (x ==ℤ j))
unfolding contains
contains-snoc j x [] = ground arith
contains-snoc j x (y ∷ ys) = ground (arith, contains-snoc j x ys)

pub Distinct-snoc :
    (x : ℤ) (xs : List ℤ) → contains x xs ≡ false → Distinct xs → Distinct (xs ++ x ∷ [])
unfolding contains
Distinct-snoc x [] h d = (refl, tt)
Distinct-snoc x (y ∷ ys) h d =
    (ground (arith, contains-snoc y x ys, d.0, h), Distinct-snoc x ys (ground (arith, h)) d.1)
