-- ===== src/Text/Lines.antt =====
-- `std::getline` with a delimiter.
use plug_in_ml.Base.{ℕ, ◌≡◌, refl, true, false, List, [], ◌∷◌, ◌++◌, All, All-map, ◌==◌, arith}
use plug_in_ml.Text.{get_line, is_digit, print_nat}
use plug_in_ml.Text.Laws.{print_nat-AllDigits}

-- No separator among the characters.
abbrev pub Without : ℕ → List ℕ → Type 0
Without separator = All (λ c. (c == separator) ≡ false)

-- The text up to the first separator, and what follows it.
pub get_line_lem :
    (separator : ℕ) (part rest : List ℕ)
    → Without separator part
    → get_line separator (part ++ separator ∷ rest) ≡ (part, rest)
unfolding get_line
get_line_lem separator [] rest h = ground arith
get_line_lem separator (c ∷ part) rest h = rw (h.0, get_line_lem separator part rest h.1) refl

-- The last line.
pub get_line_last :
    (separator : ℕ) (part : List ℕ) → Without separator part → get_line separator part ≡ (part, [])
unfolding get_line
get_line_last separator [] h = refl
get_line_last separator (c ∷ part) h = rw (h.0, get_line_last separator part h.1) refl

pub print_nat_no_colon : (n : ℕ) → Without 58 (print_nat n)
print_nat_no_colon n =
    All-map (λ c. is_digit c ≡ true) (λ c. (c == 58) ≡ false) (λ c d. ground (arith, d))
      (print_nat n) (print_nat-AllDigits n)
