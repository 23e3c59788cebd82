-- ===== src/Channel/Fifo/Order.antt =====
-- src/channel/fifo.cc: what `Wait` returns of what `Signal` wrote.
use plug_in_ml.Base.{
  ℕ, zero, suc, ◌+◌, ◌-◌, ◌*◌, ◌/◌, ◌%◌, ◌≤◌, ◌<◌, ◌^◌, ◌≡◌, refl, sym, ap, ap₂, ◌∙◌, some, List,
  [], ◌∷◌, ◌++◌, ℤ, pos, negsuc, ◌≤ℤ◌, ◌<ℤ◌, length, length-append, take, drop, All, All-append,
  arith, ltb, if◌then◌else◌,
}
use mathlib.Core.List.{append_assoc, append-nil}
use plug_in_ml.Channel.Fifo.{
  FileOps, Fifo, word_of, int_bytes, bytes_word, bytes_int, overwrite, wait, signal,
}

-- A value that an `int` has.
abbrev pub IsInt : ℤ → Type 0
IsInt z = (negsuc (2 ^ 31 - 1) ≤ℤ z) × (z <ℤ pos (2 ^ 31))

bytes_word_lem :
    (w : ℕ)
    → w < 2 ^ 32
    → bytes_word (w % 256 ∷ w / 256 % 256 ∷ w / 65536 % 256 ∷ w / 16777216 % 256 ∷ []) ≡ w
unfolding bytes_word
bytes_word_lem w h = omega arith

word_of-lt : (z : ℤ) → word_of z < 2 ^ 32
unfolding word_of
word_of-lt (pos n) = omega arith
word_of-lt (negsuc n) = omega arith

signed_word :
    (z : ℤ)
    → IsInt z
    → (if ltb (word_of z) (2 ^ 31) then pos (word_of z) else negsuc (2 ^ 32 - 1 - word_of z)) ≡ z
unfolding word_of
signed_word (pos n) h = ground arith
signed_word (negsuc n) h = ground arith

-- Four bytes hold an `int`.
bytes_int-int_bytes : (z : ℤ) → IsInt z → bytes_int (int_bytes z) ≡ z
unfolding bytes_int int_bytes
bytes_int-int_bytes z h = rw (bytes_word_lem (word_of z) (word_of-lt z)) (signed_word z h)

-- What a pipe promises of its two ends: a write appends, as long as there is room, and a read takes
-- bytes from the front where there are some.
pub record IsPipe {Os : Type 0} (ops : FileOps Os) (reader writer : ℤ) (capacity : ℕ)
    (content : Os → List ℕ) : Type 0 where
  pub appends :
      (bytes : List ℕ) (os : Os)
      → length (content os) + length bytes ≤ capacity
      → content (ops.write writer bytes os).1 ≡ content os ++ bytes
  pub takes :
      (n : ℕ) (os : Os)
      → 0 < length (content os)
      → ((ops.read reader n os).0 ≡ some (take n (content os)))
        × (content (ops.read reader n os).1 ≡ drop n (content os))

module _ {Os : Type 0} (ops : FileOps Os) where
  pub signal_all : Fifo → List ℤ → Os → Os
  signal_all f [] os = os
  signal_all f (sig ∷ sigs) os = signal_all f sigs (signal ops f sig os)

  pub wait_all : Fifo → ℕ → Os → List ℤ × Os
  wait_all f zero os = ([], os)
  wait_all f (suc n) os =
      let first = wait ops f os in let rest = wait_all f n first.1 in (first.0 ∷ rest.0, rest.1)

-- The bytes of signals that wait in a pipe.
pub in_pipe : List ℤ → List ℕ
in_pipe [] = []
in_pipe (sig ∷ sigs) = int_bytes sig ++ in_pipe sigs

in_pipe-append : (a b : List ℤ) → in_pipe (a ++ b) ≡ in_pipe a ++ in_pipe b
unfolding in_pipe
in_pipe-append [] b = refl
in_pipe-append (x ∷ a) b =
    ap (λ l. int_bytes x ++ l) (in_pipe-append a b)
    ∙ sym (append_assoc (int_bytes x) (in_pipe a) (in_pipe b))

length-in_pipe : (a : List ℤ) → length (in_pipe a) ≡ 4 * length a
unfolding in_pipe int_bytes
length-in_pipe [] = refl
length-in_pipe (x ∷ a) = omega (arith, length-in_pipe a)

length-int_bytes : (z : ℤ) → length (int_bytes z) ≡ 4
unfolding int_bytes
length-int_bytes z = refl

in_pipe-single : (z : ℤ) → in_pipe (z ∷ []) ≡ int_bytes z
unfolding in_pipe
in_pipe-single z = append-nil (int_bytes z)

front_bytes : (z : ℤ) (rest : List ℕ) → take 4 (int_bytes z ++ rest) ≡ int_bytes z
unfolding int_bytes
front_bytes z rest = refl

behind_bytes : (z : ℤ) (rest : List ℕ) → drop 4 (int_bytes z ++ rest) ≡ rest
unfolding int_bytes
behind_bytes z rest = refl

over_zero :
    (z : ℤ) → bytes_int (overwrite (int_bytes z) (int_bytes (pos 0))) ≡ bytes_int (int_bytes z)
unfolding overwrite int_bytes
over_zero z = refl

module _ {Os : Type 0} (ops : FileOps Os) (reader writer : Fifo) (capacity : ℕ)
    (content : Os → List ℕ) (pipe : IsPipe ops reader.fd writer.fd capacity content) where
  signal_all-in_pipe :
      (held sigs : List ℤ) (os : Os)
      → content os ≡ in_pipe held
      → 4 * (length held + length sigs) ≤ capacity
      → content (signal_all ops writer sigs os) ≡ in_pipe (held ++ sigs)
  unfolding signal_all signal in_pipe
  signal_all-in_pipe held [] os e room = e ∙ ap in_pipe (sym (append-nil held))
  signal_all-in_pipe held (sig ∷ sigs) os e room =
      let one : content (signal ops writer sig os) ≡ in_pipe (held ++ sig ∷ []) =
        pipe.appends (int_bytes sig) os
          (omega (arith, ap length e, length-in_pipe held, length-int_bytes sig, room))
        ∙ ap (λ l. l ++ int_bytes sig) e
        ∙ sym (in_pipe-append held (sig ∷ []) ∙ ap (λ l. in_pipe held ++ l) (in_pipe-single sig)) in
      signal_all-in_pipe (held ++ sig ∷ []) sigs (signal ops writer sig os) one
        (omega (arith, room, length-append held (sig ∷ [])))
      ∙ ap in_pipe (append_assoc held (sig ∷ []) sigs)

  wait_lem :
      (sig : ℤ) (sigs : List ℤ) (os : Os)
      → IsInt sig
      → content os ≡ in_pipe (sig ∷ sigs)
      → ((wait ops reader os).0 ≡ sig) × (content (wait ops reader os).1 ≡ in_pipe sigs)
  unfolding wait in_pipe
  wait_lem sig sigs os int e =
      let some_bytes : 0 < length (content os) =
        omega (arith, ap length e, length-in_pipe (sig ∷ sigs)) in
      let got = pipe.takes 4 os some_bytes in
      let front = got.0 ∙ ap (λ l. some (take 4 l)) e ∙ ap some (front_bytes sig (in_pipe sigs)) in
      (
        rw front (over_zero sig ∙ bytes_int-int_bytes sig int),
        got.1 ∙ ap (drop 4) e ∙ behind_bytes sig (in_pipe sigs),
      )

  wait_all-in_pipe :
      (sigs later : List ℤ) (os : Os)
      → All IsInt sigs
      → content os ≡ in_pipe (sigs ++ later)
      → ((wait_all ops reader (length sigs) os).0 ≡ sigs)
        × (content (wait_all ops reader (length sigs) os).1 ≡ in_pipe later)
  unfolding wait_all in_pipe
  wait_all-in_pipe [] later os ints e = (refl, e)
  wait_all-in_pipe (sig ∷ sigs) later os ints e =
      let first = wait_lem sig (sigs ++ later) os ints.0 e in
      let rest = wait_all-in_pipe sigs later (wait ops reader os).1 ints.1 first.1 in
      (ap₂ ◌∷◌ first.0 rest.0, rest.1)

-- A pipe with room for all of them: the signals that were written before and then those of
-- `signal_all`, each an `int`, come out of `Wait` in the order in which they were written, the same
-- values, and none twice.
pub wait_all-signal_all :
    {Os : Type 0} (ops : FileOps Os) (reader writer : Fifo) (capacity : ℕ) (content : Os → List ℕ)
    (held sigs : List ℤ) (os : Os)
    → IsPipe ops reader.fd writer.fd capacity content
    → content os ≡ in_pipe held
    → All IsInt held
    → All IsInt sigs
    → 4 * (length held + length sigs) ≤ capacity
    → (os' : Os) × (wait_all ops reader (length (held ++ sigs)) (signal_all ops writer sigs os)
        ≡ (held ++ sigs, os'))
      × (content os' ≡ [])
unfolding in_pipe
wait_all-signal_all ops reader writer capacity content held sigs os pipe e h k room =
    let written = signal_all-in_pipe ops reader writer capacity content pipe held sigs os e room in
    let read =
      wait_all-in_pipe ops reader writer capacity content pipe (held ++ sigs) []
        (signal_all ops writer sigs os) (All-append IsInt held sigs h k)
        (written ∙ ap in_pipe (sym (append-nil (held ++ sigs)))) in
    (
      _,
      ap (λ l. (l, (wait_all ops reader (length (held ++ sigs)) (signal_all ops writer sigs os)).1))
          read.0,
      read.1,
    )
