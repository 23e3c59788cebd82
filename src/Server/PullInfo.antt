-- ===== src/Server/PullInfo.antt =====
-- src/server/pull_info.h and pull_info.cc: a pull request that waits.
use plug_in_ml.Base.{ℕ, suc, Option, List, [], ◌∷◌, ◌++◌, ℤ, pos, get_elem?}

pub record PullInfo : Type 0 where
  pub length_field : ℕ
  pub id : ℤ
  pub keys : List ℤ

unfoldable pub new : PullInfo
new = record { length_field = 0; id = pos 0; keys = [] }

unfoldable pub set_id : ℤ → PullInfo → PullInfo
set_id id p = record p { id = id }

unfoldable pub add_key : ℤ → PullInfo → PullInfo
add_key key p = record p { length_field = suc p.length_field; keys = p.keys ++ key ∷ [] }

unfoldable pub key_at : PullInfo → ℕ → Option ℤ
key_at p index = get_elem? p.keys index

unfoldable pub size : PullInfo → ℕ
size p = p.length_field
