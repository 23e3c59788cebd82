-- ===== src/Communicator/Wire/RoundTrip.antt =====
-- src/communication/zmq_communicator.cc: what Consume makes of a message that Send put in the ring.
use plug_in_ml.Base.{
  ℕ, zero, suc, ◌+◌, ◌-◌, ◌≤◌, ◌<◌, ◌≡◌, refl, ap, ◌∙◌, true, false, some, List, [], ◌∷◌, ◌++◌, ℤ,
  length, length-append, take, All, leb, ◌==◌, arith,
}
use mathlib.Core.List.{append_assoc}
use plug_in_ml.Text.{print_int}
use plug_in_ml.Text.Laws.{IsInt32, read_int-print_int, print_int_no_comma, length-print_int-le}
use plug_in_ml.Communicator.Wire.{id_prefix, mix, after_comma, unmix}

take_all : (n : ℕ) (xs : List ℕ) → length xs ≤ n → take n xs ≡ xs
take_all zero [] h = refl
take_all (suc n) [] h = refl
take_all zero (x ∷ xs) h = absurd (omega arith)
take_all (suc n) (x ∷ xs) h = ap (◌∷◌ x) (take_all n xs (omega arith))

-- The search passes over a text without a comma.
after_comma_lem :
    (n : ℕ) (text message : List ℕ)
    → All (λ c. (c == 44) ≡ false) text
    → length text < n
    → after_comma n (text ++ 44 ∷ message) ≡ some message
unfolding after_comma
after_comma_lem zero text message plain short = absurd (omega arith)
after_comma_lem (suc n) [] message plain short = refl
after_comma_lem (suc n) (c ∷ cs) message plain short =
    rw plain.0 (after_comma_lem n cs message plain.1 (omega arith))

id_prefix_lem :
    (buffer_size : ℕ) (id : ℤ)
    → 13 ≤ buffer_size
    → id_prefix buffer_size id ≡ print_int id ++ 44 ∷ []
unfolding id_prefix
id_prefix_lem buffer_size id room =
    take_all (buffer_size - 1) (print_int id ++ 44 ∷ [])
      (omega (arith, length-append (print_int id) (44 ∷ []), length-print_int-le id))

unmix_lem :
    (id : ℤ) (message : List ℕ)
    → IsInt32 id
    → unmix (print_int id ++ 44 ∷ message) ≡ some (id, message)
unfolding unmix
unmix_lem id message wide =
    rw
      (
        read_int-print_int id 44 message wide refl,
        after_comma_lem 12 (print_int id) message (print_int_no_comma id)
            (omega (arith, length-print_int-le id)),
      )
      refl

-- What `Send` makes fits the buffer.
pub mix-le :
    (buffer_size : ℕ) (id : ℤ) (message bytes : List ℕ)
    → mix buffer_size id message ≡ some bytes
    → length bytes ≤ buffer_size
unfolding mix
mix-le buffer_size id message bytes e =
    ground (arith, e, length-append (id_prefix buffer_size id) message)

-- For a 32-bit id, and a buffer of at least 13 bytes that holds the message and 12 bytes more,
-- `Send` stays inside the buffer, and `Consume` makes of what it put in the ring the same id and
-- the same message, whatever bytes the message has.
pub unmix-mix :
    (buffer_size : ℕ) (id : ℤ) (message : List ℕ)
    → IsInt32 id
    → 13 ≤ buffer_size
    → 12 + length message ≤ buffer_size
    → (bytes : List ℕ) × (mix buffer_size id message ≡ some bytes)
      × (unmix bytes ≡ some (id, message))
unfolding mix
unmix-mix buffer_size id message wide room fits =
    let prefix = id_prefix_lem buffer_size id room in
    let enough : leb (length (print_int id ++ 44 ∷ []) + length message) buffer_size ≡ true =
      ground (arith, length-append (print_int id) (44 ∷ []), length-print_int-le id) in
    (
      (print_int id ++ 44 ∷ []) ++ message,
      rw (prefix, enough) refl,
      ap unmix (append_assoc (print_int id) (44 ∷ []) message) ∙ unmix_lem id message wide,
    )
