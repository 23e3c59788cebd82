-- ===== src/Text.antt =====
-- Decimal numbers and separators in byte strings: `std::to_string`, `std::stoi`, `%d` of `snprintf`
-- and `sscanf`, and `std::getline` with a delimiter.
pub mod Laws
pub mod Lines
use plug_in_ml.Base.{
  ℕ, zero, suc, ◌+◌, ◌-◌, ◌*◌, ◌/◌, ◌%◌, Bool, true, false, ◌&&◌, Option, some, none, List, [], ◌∷◌,
  ◌++◌, ℤ, pos, negsuc, sub_ℕ, leb, ltb, ◌==◌, if◌then◌else◌,
}

abbrev pub is_digit : ℕ → Bool
is_digit c = leb 48 c && leb c 57

-- The digits of a number below 10 ^ fuel; ten are enough for 32 bits.
unfoldable pub digits : ℕ → ℕ → List ℕ
digits zero n = []
digits (suc fuel) n =
    let more = digits fuel (n / 10) ++ (48 + n % 10) ∷ [] in
    if ltb n 10 then (48 + n) ∷ [] else more

unfoldable pub print_nat : ℕ → List ℕ
unfolding digits
print_nat n = digits 10 n

unfoldable pub print_int : ℤ → List ℕ
unfolding print_nat
print_int (pos n) = print_nat n
print_int (negsuc n) = 45 ∷ print_nat (suc n)

-- The number that the leading digits spell, from `acc` on, and the rest.
unfoldable pub read_digits : ℕ → List ℕ → ℕ × List ℕ
read_digits acc [] = (acc, [])
read_digits acc (c ∷ cs) =
    let more = read_digits (acc * 10 + (c - 48)) cs in if is_digit c then more else (acc, c ∷ cs)

unfoldable pub read_nat : List ℕ → Option ℕ
read_nat [] = none
read_nat (c ∷ cs) = if is_digit c then some (read_digits 0 (c ∷ cs)).0 else none

-- `sscanf(text, "%d", …)` and `std::stoi` of a text that begins with the number.
unfoldable pub read_int : List ℕ → Option ℤ
unfolding read_nat
read_int [] = none
read_int (c ∷ cs) =
    if c == 45
    then elim (read_nat cs) [ none ↦ none | some n ↦ some (sub_ℕ 0 n) ]
    else elim (read_nat (c ∷ cs)) [ none ↦ none | some n ↦ some (pos n) ]

-- `std::getline(ss, part, separator)`: the text before the separator, and what follows it.
unfoldable pub get_line : ℕ → List ℕ → List ℕ × List ℕ
get_line separator [] = ([], [])
get_line separator (c ∷ cs) =
    let (part, rest) = get_line separator cs in
    if c == separator then ([], cs) else (c ∷ part, rest)

abbrev pub add_first : ℕ → List (List ℕ) → List (List ℕ)
add_first c [] = (c ∷ []) ∷ []
add_first c (p ∷ ps) = (c ∷ p) ∷ ps

-- All parts between separators.
unfoldable pub split : ℕ → List ℕ → List (List ℕ)
split separator [] = [] ∷ []
split separator (c ∷ cs) =
    let parts = split separator cs in if c == separator then [] ∷ parts else add_first c parts
