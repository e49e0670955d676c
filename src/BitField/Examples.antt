-- ===== src/BitField/Examples.antt =====
-- Runs of a bit field, the repository's own tests among them.
use resolver_addon.BitField.{
  BitField8, get, set_bit, write_bit, test_bit, with_values, first_index_of,
}
use resolver_addon.BitField.Access.{get-set_bit}
use resolver_addon.Prelude.{◌≡◌, refl, true, false, [], ◌∷◌, some, arith}

abbrev one_byte : BitField8
one_byte = record { len = 8; values = 0 ∷ [] }

abbrev watched : BitField8
watched = record { len = 16; values = 31 ∷ 0 ∷ [] }

-- TestSetBeyondCurrentLength
set_beyond : set_bit one_byte 16 true ≡ record { len = 24; values = 0 ∷ 0 ∷ 1 ∷ [] }
unfolding set_bit write_bit
set_beyond = refl

-- TestNewBitField8WithValuesGrowth
with_values_growth : with_values (0xFF ∷ []) 24 ≡ record { len = 24; values = 0xFF ∷ 0 ∷ 0 ∷ [] }
unfolding with_values
with_values_growth = refl

first_clear : first_index_of watched false ≡ some 5
unfolding first_index_of get test_bit
first_clear = refl

get-set_bit_example : get (set_bit one_byte 16 true) 16 ≡ true
get-set_bit_example = get-set_bit one_byte 16 16 true (omega arith)
