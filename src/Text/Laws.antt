-- ===== src/Text/Laws.antt =====
-- Printing and reading decimal numbers.
use plug_in_ml.Base.{
  ℕ, zero, suc, ◌+◌, ◌-◌, ◌*◌, ◌/◌, ◌%◌, ◌≤◌, ◌<◌, ◌≡◌, refl, sym, ap, ◌∙◌, true, false, some, List,
  [], ◌∷◌, ◌++◌, ℤ, pos, negsuc, pos_part, neg_part, ltb, ◌==◌, length, length-append, All,
  All-append, if◌then◌else◌, arith, Bool-cases, inl, inr,
}
use mathlib.Core.List.{append_assoc, append-nil}
use mathlib.Core.Path.{subst}
use plug_in_ml.Text.{is_digit, digits, print_nat, print_int, read_digits, read_nat, read_int}

-- 10 to the power `f`.
abbrev limit : ℕ → ℕ
limit zero = 1
limit (suc f) = 10 * limit f

abbrev pub AllDigits : List ℕ → Type 0
AllDigits = All (λ c. is_digit c ≡ true)

-- What reading the digits of `n` makes of an accumulator.
shifted : ℕ → ℕ → ℕ → ℕ
shifted zero n acc = acc
shifted (suc f) n acc =
    let more = shifted f (n / 10) acc * 10 + n % 10 in if ltb n 10 then acc * 10 + n else more

shifted_zero : (f n : ℕ) → n < limit f → shifted f n 0 ≡ n
unfolding shifted
shifted_zero zero n h = omega arith
shifted_zero (suc f) n h = elim (Bool-cases (ltb n 10)) [
  | inl small ↦ rw small (omega arith)
  | inr large ↦ rw (large, shifted_zero f (n / 10) (omega arith)) (omega arith)
]

digits-AllDigits : (f n : ℕ) → AllDigits (digits f n)
unfolding digits
digits-AllDigits zero n = tt
digits-AllDigits (suc f) n = elim (Bool-cases (ltb n 10)) [
  | inl small ↦ rw small (ground arith, tt)
  | inr large ↦ rw large (
      All-append (λ c. is_digit c ≡ true) (digits f (n / 10)) ((48 + n % 10) ∷ [])
        (digits-AllDigits f (n / 10)) (ground arith, tt))
]

length-digits-le : (f n : ℕ) → length (digits f n) ≤ f
unfolding digits
length-digits-le zero n = omega arith
length-digits-le (suc f) n = elim (Bool-cases (ltb n 10)) [
  | inl small ↦ rw small (omega arith)
  | inr large ↦ rw large (
      omega (
        arith,
        length-append (digits f (n / 10)) ((48 + n % 10) ∷ []),
        length-digits-le f (n / 10),
      ))
]

fuel_pos : (f n : ℕ) → n < limit (suc f) → ltb n 10 ≡ false → 0 < f
fuel_pos zero n h large = absurd (ground arith)
fuel_pos (suc f) n h large = omega arith

digits_cons : (f n : ℕ) → n < limit f → 0 < f → (c : ℕ) × (cs : List ℕ) × (digits f n ≡ c ∷ cs)
unfolding digits
digits_cons zero n h p = absurd (omega arith)
digits_cons (suc f) n h p = elim (Bool-cases (ltb n 10)) [
  | inl small ↦ (48 + n, [], rw small)
  | inr large ↦
      let more = digits_cons f (n / 10) (omega arith) (fuel_pos f n h large) in
      (more.0, more.1 ++ (48 + n % 10) ∷ [], rw (large, more.2) refl)
]

read_digits_one :
    (acc d : ℕ) (rest : List ℕ)
    → d < 10
    → read_digits acc ((48 + d) ∷ rest) ≡ read_digits (acc * 10 + d) rest
unfolding read_digits
read_digits_one acc d rest h =
    let digit : is_digit (48 + d) ≡ true = ground arith in
    let same : 48 + d - 48 ≡ d = omega arith in rw (digit, same) refl

read_digits-digits :
    (f n acc : ℕ) (rest : List ℕ)
    → n < limit f
    → 0 < f
    → read_digits acc (digits f n ++ rest) ≡ read_digits (shifted f n acc) rest
unfolding digits shifted
read_digits-digits zero n acc rest h p = absurd (omega arith)
read_digits-digits (suc f) n acc rest h p = elim (Bool-cases (ltb n 10)) [
  | inl small ↦ rw small (read_digits_one acc n rest (ground arith))
  | inr large ↦
      rw (large, append_assoc (digits f (n / 10)) ((48 + n % 10) ∷ []) rest)
        (read_digits-digits f (n / 10) acc ((48 + n % 10) ∷ rest) (omega arith)
            (fuel_pos f n h large)
          ∙ read_digits_one (shifted f (n / 10) acc) (n % 10) rest (omega arith))
]

read_digits_stop :
    (m c : ℕ) (rest : List ℕ) → is_digit c ≡ false → read_digits m (c ∷ rest) ≡ (m, c ∷ rest)
unfolding read_digits
read_digits_stop m c rest other = rw other refl

read_digits-nil : (m : ℕ) → read_digits m [] ≡ (m, [])
unfolding read_digits
read_digits-nil m = refl

read_nat_digit :
    (d : ℕ) (ds : List ℕ) (n : ℕ) (rest : List ℕ)
    → is_digit d ≡ true
    → read_digits 0 (d ∷ ds) ≡ (n, rest)
    → read_nat (d ∷ ds) ≡ some n
unfolding read_nat
read_nat_digit d ds n rest h e = rw (h, e) refl

-- A number of up to ten digits reads back, with anything but a digit behind it.
pub read_nat-print_nat :
    (n c : ℕ) (rest : List ℕ)
    → n < 4294967296
    → is_digit c ≡ false
    → read_nat (print_nat n ++ c ∷ rest) ≡ some n
unfolding print_nat
read_nat-print_nat n c rest h other =
    let first = digits_cons 10 n (omega arith) (omega arith) in
    let digit = subst AllDigits first.2 (digits-AllDigits 10 n) in
    let number : read_digits 0 (digits 10 n ++ c ∷ rest) ≡ (n, c ∷ rest) =
      read_digits-digits 10 n 0 (c ∷ rest) (omega arith) (omega arith)
      ∙ ap (λ m. read_digits m (c ∷ rest)) (shifted_zero 10 n (omega arith))
      ∙ read_digits_stop n c rest other in
    let spelled = ap (λ ds. read_digits 0 (ds ++ c ∷ rest)) (sym first.2) ∙ number in
    ap (λ ds. read_nat (ds ++ c ∷ rest)) first.2
    ∙ read_nat_digit first.0 (first.1 ++ c ∷ rest) n (c ∷ rest) digit.0 spelled

read_int_digit :
    (d : ℕ) (ds : List ℕ) (n : ℕ)
    → (d == 45) ≡ false
    → read_nat (d ∷ ds) ≡ some n
    → read_int (d ∷ ds) ≡ some (pos n)
unfolding read_int
read_int_digit d ds n h e = rw (h, e) refl

digits_no_comma : (ds : List ℕ) → AllDigits ds → All (λ c. (c == 44) ≡ false) ds
digits_no_comma [] h = tt
digits_no_comma (d ∷ ds) h = (ground (arith, h.0), digits_no_comma ds h.1)

digits_no_minus : (ds : List ℕ) (c : ℕ) → AllDigits (c ∷ ds) → (c == 45) ≡ false
digits_no_minus ds c h = ground (arith, h.0)

-- A 32-bit integer.
abbrev pub IsInt32 : ℤ → Type 0
IsInt32 z = (pos_part z < 2147483648) × (neg_part z ≤ 2147483648)

pub read_int-print_int :
    (z : ℤ) (c : ℕ) (rest : List ℕ)
    → IsInt32 z
    → is_digit c ≡ false
    → read_int (print_int z ++ c ∷ rest) ≡ some z
unfolding read_int print_int print_nat
read_int-print_int (pos n) c rest h other =
    let first = digits_cons 10 n (omega arith) (omega arith) in
    let digit = subst AllDigits first.2 (digits-AllDigits 10 n) in
    let number =
      ap (λ ds. read_nat (ds ++ c ∷ rest)) (sym first.2)
      ∙ read_nat-print_nat n c rest (omega arith) other in
    ap (λ ds. read_int (ds ++ c ∷ rest)) first.2
    ∙ read_int_digit first.0 (first.1 ++ c ∷ rest) n (digits_no_minus first.1 first.0 digit) number
read_int-print_int (negsuc n) c rest h other =
    rw (read_nat-print_nat (suc n) c rest (omega arith) other) (ap some (ground arith))

-- A number of at most `k + 1` digits.
length-digits_small : (f k n : ℕ) → n < limit (suc k) → length (digits f n) ≤ suc k
unfolding digits
length-digits_small zero k n h = omega arith
length-digits_small (suc f) zero n h =
    let small : ltb n 10 ≡ true = ground arith in rw small (omega arith)
length-digits_small (suc f) (suc k) n h = elim (Bool-cases (ltb n 10)) [
  | inl small ↦ rw small (omega arith)
  | inr large ↦ rw large (
      omega (
        arith,
        length-append (digits f (n / 10)) ((48 + n % 10) ∷ []),
        length-digits_small f k (n / 10) (omega arith),
      ))
]

pub length-print_nat_port : (n : ℕ) → n < 100000 → length (print_nat n) ≤ 5
unfolding print_nat
length-print_nat_port n h = length-digits_small 10 4 n (omega arith)

pub print_int_no_comma : (z : ℤ) → All (λ c. (c == 44) ≡ false) (print_int z)
unfolding print_int print_nat
print_int_no_comma (pos n) = digits_no_comma (digits 10 n) (digits-AllDigits 10 n)
print_int_no_comma (negsuc n) =
    (refl, digits_no_comma (digits 10 (suc n)) (digits-AllDigits 10 (suc n)))

pub length-print_int-le : (z : ℤ) → length (print_int z) ≤ 11
unfolding print_int print_nat
length-print_int-le (pos n) = omega (arith, length-digits-le 10 n)
length-print_int-le (negsuc n) = omega (arith, length-digits-le 10 (suc n))

pub print_nat-AllDigits : (n : ℕ) → AllDigits (print_nat n)
unfolding print_nat
print_nat-AllDigits n = digits-AllDigits 10 n

-- A number at the end of a text.
pub read_nat-print_nat_end : (n : ℕ) → n < 4294967296 → read_nat (print_nat n) ≡ some n
unfolding print_nat
read_nat-print_nat_end n h =
    let first = digits_cons 10 n (omega arith) (omega arith) in
    let digit = subst AllDigits first.2 (digits-AllDigits 10 n) in
    let number : read_digits 0 (digits 10 n ++ []) ≡ (n, []) =
      read_digits-digits 10 n 0 [] (omega arith) (omega arith)
      ∙ ap (λ m. read_digits m []) (shifted_zero 10 n (omega arith))
      ∙ read_digits-nil n in
    let spelled =
      ap (read_digits 0) (sym (append-nil (first.0 ∷ first.1)) ∙ ap (λ ds. ds ++ []) (sym first.2))
      ∙ number in
    ap read_nat first.2 ∙ read_nat_digit first.0 first.1 n [] digit.0 spelled
