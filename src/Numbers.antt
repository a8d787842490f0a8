-- ===== src/Numbers.antt =====
-- parse_forth_number of forth_dict.c, with what it uses of `strtoll` of the C library: blanks, a sign,
-- the prefix 0x in base 16, digits, and the limits of a 64-bit result. A token is the list of its
-- characters, up to the NUL byte.
pub mod Literal
use u_forth.Prelude.{
  ℕ, ◌+◌, ◌-◌, ◌*◌, ◌%◌, ◌^◌, Bool, true, false, not, ◌&&◌, ◌||◌, Option, none, some, ltb, leb,
  ◌==◌, if◌then◌else◌, List, [], ◌∷◌,
}
use u_forth.Strings.{first_char, next_chars}

unfoldable pub is_end : List ℕ → Bool
is_end [] = true
is_end (c ∷ p) = false

-- `isspace` in the C locale.
unfoldable pub is_blank : ℕ → Bool
is_blank c = c == 0x20 || leb 9 c && leb c 13

unfoldable pub skip_blanks : List ℕ → List ℕ
skip_blanks [] = []
skip_blanks (c ∷ p) = if is_blank c then skip_blanks p else c ∷ p

-- The value of a digit or a letter, if it is a digit of the base.
unfoldable pub digit_of : ℕ → ℕ → Option ℕ
digit_of base c =
    let d =
      if leb b'0' c && leb c b'9'
      then c - b'0'
      else if leb b'a' c && leb c b'z'
      then c - b'a' + 10
      else if leb b'A' c && leb c b'Z'
      then c - b'A' + 10
      else base in
    if ltb d base then some d else none

-- The number that the leading digits spell behind `acc`, and the rest.
unfoldable pub scan_digits : ℕ → ℕ → List ℕ → ℕ × List ℕ
scan_digits base acc [] = (acc, [])
scan_digits base acc (c ∷ p) = elim (digit_of base c) [
  | none ↦ (acc, c ∷ p)
  | some d ↦ scan_digits base (acc * base + d) p
]

unfoldable pub is_x : ℕ → Bool
is_x c = c == b'x' || c == b'X'

-- `0x` before a digit of base 16.
unfoldable pub has_hex_prefix : List ℕ → Bool
has_hex_prefix (z ∷ x ∷ c ∷ p) =
    z == b'0' && is_x x && elim (digit_of 16 c) [ none ↦ false | some _ ↦ true ]
has_hex_prefix p = false

-- LLONG_MAX, and the magnitude of LLONG_MIN.
unfoldable pub clamp : Bool → ℕ → ℕ
clamp negative value =
    let limit = if negative then 2 ^ 63 else 2 ^ 63 - 1 in if ltb limit value then limit else value

-- Behind a sign, and behind a prefix of base 16.
unfoldable pub skip_sign : List ℕ → List ℕ
skip_sign p = if first_char p == b'-' || first_char p == b'+' then next_chars p else p

unfoldable pub skip_prefix : ℕ → List ℕ → List ℕ
skip_prefix base p = if base == 16 && has_hex_prefix p then next_chars (next_chars p) else p

unfoldable pub convert : ℕ → Bool → List ℕ → Option (Bool × ℕ × List ℕ)
convert base negative p = elim (digit_of base (first_char p)) [
  | none ↦ none
  | some _ ↦
      let scanned = scan_digits base 0 p in some (negative, clamp negative scanned.0, scanned.1)
]

-- `strtoll`: the sign and the magnitude of the result, and `endptr`; `none` where nothing is
-- converted, so that `endptr` is the start.
unfoldable pub strtoll : ℕ → List ℕ → Option (Bool × ℕ × List ℕ)
strtoll base nptr =
    let p = skip_blanks nptr in convert base (first_char p == b'-') (skip_prefix base (skip_sign p))

-- The three tests for a prefix: the base, and `num_ptr` behind the prefix.
unfoldable pub number_base : List ℕ → ℕ × List ℕ
number_base p =
    let q = next_chars p in
    if first_char p == b'$' && not (is_end q)
    then (16, q)
    else if first_char p == b'%' && not (is_end q)
    then (2, q)
    else if first_char p == b'0' && is_x (first_char q) && not (is_end (next_chars q))
    then (16, next_chars q)
    else (10, p)

-- The cast of a signed number to `uint32_t`.
unfoldable pub to_word : Bool → ℕ → ℕ
to_word negative value = if negative then (2 ^ 32 - value % 2 ^ 32) % 2 ^ 32 else value % 2 ^ 32

unfoldable pub xor : Bool → Bool → Bool
xor true b = not b
xor false b = b

-- `parse_forth_number` behind the minus sign, from `num_ptr` on.
unfoldable pub parse_behind_sign : Bool → List ℕ → Option ℕ
parse_behind_sign is_negative num_ptr =
    let based = number_base num_ptr in
    elim (strtoll based.0 based.1) [
      | none ↦ none
      | some (negative, parsed_val, endptr) ↦
          if is_end endptr then some (to_word (xor is_negative negative) parsed_val) else none
    ]

unfoldable pub parse_forth_number : List ℕ → Option ℕ
parse_forth_number token =
    if first_char token == b'-'
    then parse_behind_sign true (next_chars token)
    else parse_behind_sign false token
