-- ===== src/Server/KeyValueList.antt =====
-- src/server/key_value_list.h and key_value_list.cc: one update of an agent.
use plug_in_ml.Base.{ℕ, suc, Option, List, [], ◌∷◌, ◌++◌, ℤ, get_elem?}

pub record KeyValueList (F : Type 0) : Type 0 where
  pub length_field : ℕ
  pub keys : List ℤ
  pub values : List F

module _ {F : Type 0} where
  unfoldable pub new : KeyValueList F
  new = record { length_field = 0; keys = []; values = [] }

  unfoldable pub add_pair : ℤ → F → KeyValueList F → KeyValueList F
  add_pair key value l = record {
    length_field = suc l.length_field;
    keys = l.keys ++ key ∷ [];
    values = l.values ++ value ∷ [];
  }

  unfoldable pub key_at : KeyValueList F → ℕ → Option ℤ
  key_at l index = get_elem? l.keys index

  unfoldable pub value_at : KeyValueList F → ℕ → Option F
  value_at l index = get_elem? l.values index

  unfoldable pub size : KeyValueList F → ℕ
  size l = l.length_field
