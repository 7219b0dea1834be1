-- ===== src/View/Types.antt =====
-- `struple_view_head_type` and the predicates on it. `none` is the result -1.
use struple.Prelude.{ℕ, Bool, false, ◌||◌, Option, none, some, List, [], ◌∷◌, ◌==◌}
use struple.Codes.{
  nil_code, undef_code, bool_false, bool_true, int_neg_big, int_zero, int_pos_big, float32, float64,
  decimal_code, timestamp_code, uuid_code, string_code, bytes_code, array_code, map_code, set_code,
  is_fixed_neg, is_fixed_pos,
}

unfoldable pub view_head_type : List ℕ → Option ℕ
view_head_type [] = none
view_head_type (t ∷ bs) = some t

abbrev pub head_is : (ℕ → Bool) → List ℕ → Bool
head_is p v = elim (view_head_type v) [ none ↦ false | some t ↦ p t ]

unfoldable pub view_is_nil : List ℕ → Bool
view_is_nil = head_is (λ t. t == nil_code)

unfoldable pub view_is_undefined : List ℕ → Bool
view_is_undefined = head_is (λ t. t == undef_code)

unfoldable pub view_is_bool : List ℕ → Bool
view_is_bool = head_is (λ t. t == bool_false || t == bool_true)

unfoldable pub view_is_int : List ℕ → Bool
view_is_int =
    head_is (λ t.
      t == int_zero || t == int_neg_big || t == int_pos_big || is_fixed_neg t || is_fixed_pos t)

unfoldable pub view_is_float : List ℕ → Bool
view_is_float = head_is (λ t. t == float32 || t == float64)

unfoldable pub view_is_decimal : List ℕ → Bool
view_is_decimal = head_is (λ t. t == decimal_code)

unfoldable pub view_is_number : List ℕ → Bool
view_is_number v = view_is_int v || view_is_float v || view_is_decimal v

unfoldable pub view_is_timestamp : List ℕ → Bool
view_is_timestamp = head_is (λ t. t == timestamp_code)

unfoldable pub view_is_uuid : List ℕ → Bool
view_is_uuid = head_is (λ t. t == uuid_code)

unfoldable pub view_is_string : List ℕ → Bool
view_is_string = head_is (λ t. t == string_code)

unfoldable pub view_is_bytes : List ℕ → Bool
view_is_bytes = head_is (λ t. t == bytes_code)

unfoldable pub view_is_array : List ℕ → Bool
view_is_array = head_is (λ t. t == array_code)

unfoldable pub view_is_map : List ℕ → Bool
view_is_map = head_is (λ t. t == map_code)

unfoldable pub view_is_set : List ℕ → Bool
view_is_set = head_is (λ t. t == set_code)

unfoldable pub view_is_container : List ℕ → Bool
view_is_container = head_is (λ t. t == array_code || t == map_code || t == set_code)
