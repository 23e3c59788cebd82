-- ===== src/Communicator/Ring/Queue.antt =====
-- src/communication/fifo_ring.cc: the ring as a queue of bounded length.
use plug_in_ml.Base.{
  ℕ, ◌<◌, ◌≡◌, inl, inr, refl, sym, ap, Option, none, some, List, [], ◌∷◌, ◌++◌, length, length-set,
  set, ltb, leb, false, if◌then◌else◌, ◌>>=◌, arith, Bool-cases, ◌∙◌,
}
use mathlib.Core.Path.{subst}
use native.Mathlib.Nat.{mod-eq_of_lt}
use plug_in_ml.Communicator.Ring.{FifoRing, cleared, initialize, add, fetch}
use plug_in_ml.Communicator.Ring.Held.{Holds, add_lem, fetch_lem, fetch_over}

-- The calls of the ring's users; a fetch is into a buffer of so many bytes.
pub data Call : Type 0 where
  adds : List ℕ → Call
  fetches : ℕ → Call

pub data Result : Type 0 where
  added : ℕ → Result
  fetched : Option (List ℕ) → Result

-- `none` is a call that waits, or that copies past the caller's buffer.
pub ring_call : Call → FifoRing → Option (Result × FifoRing)
ring_call (adds message) r = do done ← add message r; some (added done.0, done.1)
ring_call (fetches room) r = do done ← fetch room r; some (fetched done.0, done.1)

-- The queue of at most `bound` messages.
pub queue_call : ℕ → Call → List (List ℕ) → Option (Result × List (List ℕ))
queue_call bound (adds message) q =
    if ltb (length q) bound then some (added (length message), q ++ message ∷ []) else none
queue_call bound (fetches room) [] = none
queue_call bound (fetches room) (message ∷ rest) =
    if leb (length message) room then some (fetched (some message), rest) else none

-- The results of calls, one after the other, up to the first that waits or does not fit.
pub results : {S : Type 0} → (Call → S → Option (Result × S)) → List Call → S → List Result
results call [] s = []
results call (c ∷ cs) s = elim (call c s) [
  | none ↦ []
  | some (result, s') ↦ result ∷ results call cs s'
]

-- Calls of the ring and of the queue come to the same.
data Same (n : ℕ) : Option (Result × FifoRing) → Option (Result × List (List ℕ)) → Type 0 where
  both_wait : Same n none none
  both_go :
      (x : Result) (r : FifoRing) (q : List (List ℕ))
      → r.ring_size ≡ n
      → Holds r q
      → Same n (some (x, r)) (some (x, q))

simulates :
    (c : Call) (r : FifoRing) (q : List (List ℕ))
    → Holds r q
    → Same r.ring_size (ring_call c r) (queue_call r.ring_size c q)
unfolding ring_call queue_call add fetch
simulates (adds m) r q v = elim (Bool-cases (ltb (length q) r.ring_size)) [
  | inl room ↦
      let done = add_lem r q m v (ground (arith, room)) in
      rw (room, done.1) (both_go (added (length m)) done.0 (q ++ m ∷ []) done.3 done.2)
  | inr full ↦
      let stops : r.empty_sem ≡ 0 = ground (arith, full, v.empty) in rw (full, stops) both_wait
]
simulates (fetches room) r [] v = rw v.full both_wait
simulates (fetches room) r (m ∷ rest) v = elim (Bool-cases (leb (length m) room)) [
  | inl fits ↦
      let done = fetch_lem r m rest v room (ground (arith, fits)) in
      rw (fits, done.1) (both_go (fetched (some m)) done.0 rest done.3 done.2)
  | inr over ↦ rw (over, fetch_over r m rest v room (ground (arith, over))) both_wait
]

Holds-results :
    (calls : List Call) (n : ℕ) (r : FifoRing) (q : List (List ℕ))
    → r.ring_size ≡ n
    → Holds r q
    → results ring_call calls r ≡ results (queue_call n) calls q
unfolding results
Holds-results [] n r q size v = refl
Holds-results (c ∷ calls) n r q size v =
    go (ring_call c r) (queue_call n c q)
      (subst (λ k. Same k (ring_call c r) (queue_call k c q)) size (simulates c r q v))
      (λ r' q' size' v'. Holds-results calls n r' q' size' v')
  where
    go :
        (a : Option (Result × FifoRing)) (b : Option (Result × List (List ℕ)))
        → Same n a b
        → ((r' : FifoRing) (q' : List (List ℕ))
            → r'.ring_size ≡ n
            → Holds r' q'
            → results ring_call calls r' ≡ results (queue_call n) calls q')
        → (elim a [ none ↦ [] | some (x, s) ↦ x ∷ results ring_call calls s ])
          ≡ (elim b [ none ↦ [] | some (x, s) ↦ x ∷ results (queue_call n) calls s ])
    go none none both_wait same = refl
    go _ _ (both_go x r' q' size' v') same = ap (◌∷◌ x) (same r' q' size' v')

pub cleared-Holds :
    (n : ℕ) (memory : List (Option (List ℕ))) (sizes : List ℕ)
    → 0 < n
    → length memory ≡ n
    → length sizes ≡ n
    → Holds (cleared n memory sizes) []
cleared-Holds n memory sizes h nm ns = record {
  some_slot = h;
  slots = length-set memory 0 none ∙ nm;
  sizes = length-set (set sizes 0 0) 1 0 ∙ length-set sizes 0 0 ∙ ns;
  from_slot = h;
  produce = sym (mod-eq_of_lt h);
  full = refl;
  empty = omega arith;
  held = λ j m e. cc;
}

-- A ring of at least two slots, whatever the new arrays held before: `Initialize` writes nothing
-- outside them, and from then on any calls of `Add` and `Fetch`, one after the other, return what
-- those of a queue with room for `ring_size` messages return, up to the first that waits or copies
-- past its caller's buffer; that is the first where the queue is full or empty, or where its oldest
-- message is longer than the buffer.
pub results-queue_call :
    (n : ℕ) (memory : List (Option (List ℕ))) (sizes : List ℕ) (calls : List Call)
    → 1 < n
    → length memory ≡ n
    → length sizes ≡ n
    → (r : FifoRing) × (initialize n memory sizes ≡ some r)
      × (results ring_call calls r ≡ results (queue_call n) calls [])
unfolding initialize
results-queue_call n memory sizes calls h nm ns =
    let enough : ltb n 2 ≡ false = ground (arith, h) in
    (
      cleared n memory sizes,
      rw enough refl,
      Holds-results calls n (cleared n memory sizes) [] refl
          (cleared-Holds n memory sizes (omega arith) nm ns),
    )
