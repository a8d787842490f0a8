-- ===== src/Tests/Numbers.antt =====
-- The tokens that are numbers: tests and instances.
use u_forth.Prelude.{ℕ, ◌≡◌, refl, true, none, some, [], ◌∷◌, arith}
use u_forth.Builtins.{codes}
use u_forth.Numbers.{
  is_end, is_blank, skip_blanks, digit_of, scan_digits, is_x, has_hex_prefix, clamp, skip_sign,
  skip_prefix, convert, strtoll, number_base, to_word, xor, parse_behind_sign, parse_forth_number,
}
use u_forth.Strings.{first_char, next_chars}
use u_forth.Numbers.Literal.{
  Notation, value_from, write_number, write_sign, StandsFor, parse_number-write,
}

-- -$1F
parse_number-write_example :
    (x : ℕ) × (parse_forth_number (write_sign true (write_number Notation.dollar (1 ∷ 15 ∷ [])))
      ≡ some x)
    × StandsFor true (value_from 16 0 (1 ∷ 15 ∷ [])) x
parse_number-write_example =
    parse_number-write Notation.dollar true 1 (15 ∷ []) (omega arith, (omega arith, tt))
      (omega arith)

minus_1f : parse_forth_number (codes "-$1F") ≡ some 0xFFFFFFE1
unfolding parse_forth_number first_char next_chars parse_behind_sign number_base strtoll skip_blanks
    is_blank skip_sign skip_prefix has_hex_prefix is_x convert scan_digits digit_of clamp is_end xor
    to_word
minus_1f = refl

not_a_number : parse_forth_number (codes "12G") ≡ none
unfolding parse_forth_number first_char next_chars parse_behind_sign number_base strtoll skip_blanks
    is_blank skip_sign skip_prefix has_hex_prefix is_x convert scan_digits digit_of clamp is_end xor
    to_word
not_a_number = refl
