-- ===== src/Json/Value.antt =====
-- `sj_value` of c/struple_json.h. A container holds its members in order, an object its keys beside its
-- values; a float is the bits of the double.
use struple.Prelude.{ℕ, Bool, List}

mutual
  pub data Value : Type 0 where
    sj_null : Value
    sj_bool : Bool → Value
    sj_int : List ℕ → Value
    sj_float : ℕ → Value
    sj_string : List ℕ → Value
    sj_array : Items → Value
    sj_object : Pairs → Value

  pub data Items : Type 0 where
    no_items : Items
    add_item : Value → Items → Items

  pub data Pairs : Type 0 where
    no_pairs : Pairs
    add_pair : List ℕ → Value → Pairs → Pairs
