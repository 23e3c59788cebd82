-- ===== src/Communicator/Ring.antt =====
-- src/communication/fifo_ring.h and fifo_ring.cc: the ring of messages between a caller and the
-- thread that sends or receives. A call runs to its end before the next one begins.
pub mod Held
pub mod Queue
use plug_in_ml.Base.{
  ℕ, zero, suc, ◌+◌, ◌%◌, Bool, true, ltb, leb, if◌then◌else◌, Option, none, some, List, get_elem?,
  set, length, take, replicate, ◌>>=◌,
}

-- `ring` holds pointers, `none` for null. The semaphores count free and filled slots.
pub record FifoRing : Type 0 where
  pub ring_size : ℕ
  pub ring : List (Option (List ℕ))
  pub data_sizes : List ℕ
  pub produce_point : ℕ
  pub consume_point : ℕ
  pub empty_sem : ℕ
  pub full_sem : ℕ

-- `memory` and `sizes` are what the new arrays hold before; memset clears 8 bytes of each: one
-- pointer, and two lengths.
abbrev pub cleared : ℕ → List (Option (List ℕ)) → List ℕ → FifoRing
cleared ring_size memory sizes = record {
  ring_size = ring_size;
  ring = set memory 0 none;
  data_sizes = set (set sizes 0 0) 1 0;
  produce_point = 0;
  consume_point = 0;
  empty_sem = ring_size;
  full_sem = 0;
}

-- `Initialize`: with fewer than two slots, clearing the lengths writes behind their array: `none`.
unfoldable pub initialize : ℕ → List (Option (List ℕ)) → List ℕ → Option FifoRing
initialize ring_size memory sizes =
    if ltb ring_size 2 then none else some (cleared ring_size memory sizes)

-- `sem_wait`: `none` is a caller that waits.
abbrev pub sem_wait : ℕ → Option ℕ
sem_wait zero = none
sem_wait (suc n) = some n

-- `Add`, which returns the length.
unfoldable pub add : List ℕ → FifoRing → Option (ℕ × FifoRing)
add message r = do
  empty ← sem_wait r.empty_sem
  some (
    length message,
    record r {
      empty_sem = empty;
      produce_point = (r.produce_point + 1) % r.ring_size;
      ring = set r.ring r.produce_point (some message);
      data_sizes = set r.data_sizes r.produce_point (length message);
      full_sem = suc r.full_sem;
    },
  )

-- The slot that `Fetch` takes: null, or the first `data_sizes_[index]` bytes of the message.
abbrev pub slot : FifoRing → ℕ → Option (List ℕ)
slot r index = do
  pointer ← get_elem? r.ring index
  message ← pointer
  size ← get_elem? r.data_sizes index
  some (take size message)

abbrev pub leave_slot : FifoRing → ℕ → ℕ → Option (List ℕ) → Option (List ℕ) × FifoRing
leave_slot r full index none =
    (none, record r { full_sem = full; consume_point = (index + 1) % r.ring_size })
leave_slot r full index (some message) = (
  some message,
  record r {
    full_sem = full;
    consume_point = (index + 1) % r.ring_size;
    ring = set r.ring index none;
    empty_sem = suc r.empty_sem;
  },
)

-- The copy stays in the caller's buffer.
abbrev pub has_room : ℕ → Option (List ℕ) → Bool
has_room room none = true
has_room room (some message) = leb (length message) room

-- `Fetch` into a buffer of `room` bytes; its -1 for a null pointer is the inner `none`, and then no
-- free slot is counted. It does not look at `max_size`: a longer message is copied past the buffer,
-- which is `none`.
unfoldable pub fetch : ℕ → FifoRing → Option (Option (List ℕ) × FifoRing)
fetch room r = do
  full ← sem_wait r.full_sem
  if has_room room (slot r r.consume_point)
      then some (leave_slot r full r.consume_point (slot r r.consume_point))
      else none
