-- ===== src/Numbers/Literal.antt =====
-- The notations of numbers, written as tokens and read by parse_forth_number.
use u_forth.Prelude.{
  ℕ, ◌+◌, ◌-◌, ◌*◌, ◌^◌, ◌%◌, ◌≤◌, ◌<◌, ◌≡◌, refl, Bool, Bool-cases, inl, inr, true, false, ◌&&◌,
  some, ltb, ◌==◌, if◌then◌else◌, List, [], ◌∷◌, arith,
}
use u_forth.Strings.{first_char, next_chars}
use u_forth.Numbers.{
  is_end, is_blank, skip_blanks, digit_of, scan_digits, is_x, has_hex_prefix, clamp, skip_sign,
  skip_prefix, convert, strtoll, number_base, to_word, xor, parse_behind_sign, parse_forth_number,
}

-- The character of a digit, the letters in upper case.
abbrev pub digit_char : ℕ → ℕ
digit_char d = if ltb d 10 then b'0' + d else b'A' + (d - 10)

abbrev pub digit_chars : List ℕ → List ℕ
digit_chars [] = []
digit_chars (d ∷ ds) = digit_char d ∷ digit_chars ds

-- The digits are below the base.
abbrev pub AllBelow : ℕ → List ℕ → Type 0
AllBelow base [] = Unit {0}
AllBelow base (d ∷ ds) = (d < base) × AllBelow base ds

-- The number that digits spell behind `acc`.
abbrev pub value_from : ℕ → ℕ → List ℕ → ℕ
value_from base acc [] = acc
value_from base acc (d ∷ ds) = value_from base (acc * base + d) ds

-- The notations of the source: 123, $1F, %101 and 0x1F.
pub data Notation : Type 0 where
  decimal dollar percent zero_x : Notation

abbrev pub base_of : Notation → ℕ
base_of Notation.decimal = 10
base_of Notation.dollar = 16
base_of Notation.percent = 2
base_of Notation.zero_x = 16

abbrev pub write_number : Notation → List ℕ → List ℕ
write_number Notation.decimal ds = digit_chars ds
write_number Notation.dollar ds = b'$' ∷ digit_chars ds
write_number Notation.percent ds = b'%' ∷ digit_chars ds
write_number Notation.zero_x ds = b'0' ∷ b'x' ∷ digit_chars ds

abbrev pub write_sign : Bool → List ℕ → List ℕ
write_sign true p = b'-' ∷ p
write_sign false p = p

digit_of-digit_char : (base d : ℕ) → base ≤ 16 → d < base → digit_of base (digit_char d) ≡ some d
unfolding digit_of
digit_of-digit_char base d small lt = ground arith

scan_digits-digit_chars :
    (base acc : ℕ) (ds : List ℕ)
    → base ≤ 16
    → AllBelow base ds
    → scan_digits base acc (digit_chars ds) ≡ (value_from base acc ds, [])
unfolding scan_digits
scan_digits-digit_chars base acc [] small h = refl
scan_digits-digit_chars base acc (d ∷ ds) small (lt, h) =
    rw (scan_digits, digit_of-digit_char base d small lt)
      (scan_digits-digit_chars base (acc * base + d) ds small h)

is_x-digit_char : (d : ℕ) → d < 16 → is_x (digit_char d) ≡ false
unfolding is_x
is_x-digit_char d lt = ground arith

no_hex_prefix :
    (d : ℕ) (ds : List ℕ) → AllBelow 16 (d ∷ ds) → has_hex_prefix (digit_chars (d ∷ ds)) ≡ false
unfolding has_hex_prefix
no_hex_prefix d [] h = refl
no_hex_prefix d (x ∷ []) h = refl
no_hex_prefix d (x ∷ c ∷ ds) h = rw (is_x-digit_char x h.1.0) (ground arith)

-- The first character of a number with no sign and no prefix.
record Starts (c : ℕ) : Type 0 where
  blank : is_blank c ≡ false
  minus : (c == b'-') ≡ false
  plus : (c == b'+') ≡ false
  dollar : (c == b'$') ≡ false
  percent : (c == b'%') ≡ false

digit_char-Starts : (d : ℕ) → d < 16 → Starts (digit_char d)
unfolding is_blank
digit_char-Starts d lt = record {
  blank = ground arith;
  minus = ground arith;
  plus = ground arith;
  dollar = ground arith;
  percent = ground arith;
}

AllBelow-le : (base limit : ℕ) (ds : List ℕ) → base ≤ limit → AllBelow base ds → AllBelow limit ds
AllBelow-le base limit [] h k = tt
AllBelow-le base limit (d ∷ ds) h (lt, k) = (omega arith, AllBelow-le base limit ds h k)

module _ (c : ℕ) (p : List ℕ) (s : Starts c) where
  skip_blanks-Starts : skip_blanks (c ∷ p) ≡ c ∷ p
  unfolding skip_blanks
  skip_blanks-Starts = rw s.blank

  skip_sign-Starts : skip_sign (c ∷ p) ≡ c ∷ p
  unfolding skip_sign first_char
  skip_sign-Starts = rw (s.minus, s.plus)

  first-minus : (first_char (c ∷ p) == b'-') ≡ false
  unfolding first_char
  first-minus = s.minus

module _ (base d : ℕ) (ds : List ℕ) (small : base ≤ 16) (h : AllBelow base (d ∷ ds)) where
  skip_prefix-digit_chars : skip_prefix base (digit_chars (d ∷ ds)) ≡ digit_chars (d ∷ ds)
  unfolding skip_prefix
  skip_prefix-digit_chars =
      let no_prefix = no_hex_prefix d ds (AllBelow-le base 16 (d ∷ ds) small h) in
      let no_skip : (base == 16 && has_hex_prefix (digit_chars (d ∷ ds))) ≡ false =
        rw no_prefix (ground arith) in
      rw no_skip

  first-digit : digit_of base (first_char (digit_chars (d ∷ ds))) ≡ some d
  unfolding first_char
  first-digit = digit_of-digit_char base d small h.0

  convert-digit_chars :
      value_from base 0 (d ∷ ds) < 2 ^ 63
      → convert base false (digit_chars (d ∷ ds)) ≡ some (false, value_from base 0 (d ∷ ds), [])
  unfolding convert clamp
  convert-digit_chars fits =
      let unclamped : ltb (2 ^ 63 - 1) (value_from base 0 (d ∷ ds)) ≡ false = ground arith in
      rw (convert, first-digit, scan_digits-digit_chars base 0 (d ∷ ds) small h, unclamped)

  strtoll-digit_chars :
      value_from base 0 (d ∷ ds) < 2 ^ 63
      → strtoll base (digit_chars (d ∷ ds)) ≡ some (false, value_from base 0 (d ∷ ds), [])
  unfolding strtoll
  strtoll-digit_chars fits =
      let s = digit_char-Starts d (omega (arith, h.0)) in
      rw
        (
          strtoll,
          skip_blanks-Starts (digit_char d) (digit_chars ds) s,
          skip_sign-Starts (digit_char d) (digit_chars ds) s,
          skip_prefix-digit_chars,
          first-minus (digit_char d) (digit_chars ds) s,
        )
        (convert-digit_chars fits)

number_base-decimal :
    (d : ℕ) (ds : List ℕ)
    → AllBelow 10 (d ∷ ds)
    → number_base (digit_chars (d ∷ ds)) ≡ (10, digit_chars (d ∷ ds))
unfolding number_base first_char next_chars is_x
number_base-decimal d ds h =
    let s = digit_char-Starts d (omega (arith, h.0)) in
    let no_x : is_x (first_char (digit_chars ds)) ≡ false =
      second ds (AllBelow-le 10 16 ds (omega arith) h.1) in
    rw (s.dollar, s.percent, no_x) (ground arith)
  where
    second : (ds : List ℕ) → AllBelow 16 ds → is_x (first_char (digit_chars ds)) ≡ false
    second [] h = refl
    second (x ∷ ds) h = is_x-digit_char x h.0

number_base-write :
    (n : Notation) (d : ℕ) (ds : List ℕ)
    → AllBelow (base_of n) (d ∷ ds)
    → number_base (write_number n (d ∷ ds)) ≡ (base_of n, digit_chars (d ∷ ds))
unfolding number_base first_char next_chars is_end is_x
number_base-write Notation.decimal d ds h = number_base-decimal d ds h
number_base-write Notation.dollar d ds h = refl
number_base-write Notation.percent d ds h = refl
number_base-write Notation.zero_x d ds h = refl

base-le : (n : Notation) → base_of n ≤ 16
base-le Notation.decimal = omega arith
base-le Notation.dollar = omega arith
base-le Notation.percent = omega arith
base-le Notation.zero_x = omega arith

no_minus :
    (n : Notation) (d : ℕ) (ds : List ℕ)
    → AllBelow (base_of n) (d ∷ ds)
    → (first_char (write_number n (d ∷ ds)) == b'-') ≡ false
unfolding first_char
no_minus Notation.decimal d ds h = (digit_char-Starts d (omega (arith, h.0))).minus
no_minus Notation.dollar d ds h = refl
no_minus Notation.percent d ds h = refl
no_minus Notation.zero_x d ds h = refl

-- The 32-bit word of a number, or of its negative: the word and the number add up to a multiple of
-- 2 ^ 32.
abbrev pub StandsFor : Bool → ℕ → ℕ → Type 0
StandsFor true value x = (x < 2 ^ 32) × ((x + value) % 2 ^ 32 ≡ 0)
StandsFor false value x = x ≡ value % 2 ^ 32

to_word-StandsFor :
    (negative : Bool) (value : ℕ) → StandsFor negative value (to_word negative value)
unfolding to_word
to_word-StandsFor true value = (omega arith, omega arith)
to_word-StandsFor false value = refl

module _ (n : Notation) (negative : Bool) (d : ℕ) (ds : List ℕ) where
  unsigned-write :
      AllBelow (base_of n) (d ∷ ds)
      → value_from (base_of n) 0 (d ∷ ds) < 2 ^ 63
      → strtoll (number_base (write_number n (d ∷ ds))).0 (number_base (write_number n (d ∷ ds))).1
        ≡ some (false, value_from (base_of n) 0 (d ∷ ds), [])
  unsigned-write h fits =
      rw (number_base-write n d ds h) (strtoll-digit_chars (base_of n) d ds (base-le n) h fits)

  behind_sign-write :
      (b : Bool)
      → AllBelow (base_of n) (d ∷ ds)
      → value_from (base_of n) 0 (d ∷ ds) < 2 ^ 63
      → parse_behind_sign b (write_number n (d ∷ ds))
        ≡ some (to_word b (value_from (base_of n) 0 (d ∷ ds)))
  unfolding parse_behind_sign is_end xor
  behind_sign-write true h fits = rw (parse_behind_sign, unsigned-write h fits)
  behind_sign-write false h fits = rw (parse_behind_sign, unsigned-write h fits)

  pub parse_number-to_word :
      AllBelow (base_of n) (d ∷ ds)
      → value_from (base_of n) 0 (d ∷ ds) < 2 ^ 63
      → parse_forth_number (write_sign negative (write_number n (d ∷ ds)))
        ≡ some (to_word negative (value_from (base_of n) 0 (d ∷ ds)))
  unfolding parse_forth_number first_char next_chars
  parse_number-to_word h fits = elim (Bool-cases negative) [
    | inl e ↦ rw e (behind_sign-write true h fits)
    | inr e ↦ rw (e, no_minus n d ds h) (behind_sign-write false h fits)
  ]

  -- Digits of the base of one of the four notations, one at least, which spell a number below 2 ^ 63,
  -- are read as that number modulo 2 ^ 32, and with a minus sign in front as the 32-bit word that is
  -- congruent to its negative.
  pub parse_number-write :
      AllBelow (base_of n) (d ∷ ds)
      → value_from (base_of n) 0 (d ∷ ds) < 2 ^ 63
      → (x : ℕ) × (parse_forth_number (write_sign negative (write_number n (d ∷ ds))) ≡ some x)
        × StandsFor negative (value_from (base_of n) 0 (d ∷ ds)) x
  parse_number-write h fits = (
    to_word negative (value_from (base_of n) 0 (d ∷ ds)),
    parse_number-to_word h fits,
    to_word-StandsFor negative (value_from (base_of n) 0 (d ∷ ds)),
  )
