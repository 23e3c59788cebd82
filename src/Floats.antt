-- ===== src/Floats.antt =====
-- The `float` arithmetic that the server does. Floats have no laws here: every theorem holds for
-- any type with these operations, rounding included.
use plug_in_ml.Base.{ℕ}

pub record FloatOps (F : Type 0) : Type 0 where
  pub zero_float : F
  pub add_float : F → F → F
  -- `x / n` for an integer `n`
  pub div_float : F → ℕ → F

module _ {F : Type 0} ⦃ops : FloatOps F⦄ where
  abbrev pub zero_value : F
  zero_value = ops.zero_float

  abbrev pub add_value : F → F → F
  add_value = ops.add_float

  abbrev pub div_value : F → ℕ → F
  div_value = ops.div_float
