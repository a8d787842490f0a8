-- ===== src/Strings/Parse.antt =====
-- The text of S" and .": what is written with escapes is read back, and fits its buffer.
use u_forth.Prelude.{
  ℕ, zero, suc, ◌≤◌, ◌≡◌, Bool, Bool-cases, inl, inr, true, false, not, ◌&&◌, ◌||◌, ◌==◌,
  if◌then◌else◌, refl, ◌∙◌, arith, List, [], ◌∷◌, ◌++◌, length,
}
use u_forth.Strings.{
  max_string_len, is_escapable, first_char, next_chars, skip_char, scan_quoted, parse_quoted,
}

-- A character that the text cannot hold bare.
abbrev is_special : ℕ → Bool
is_special c = c == 0x22 || c == 0x5C

-- The text with a backslash before each quote and each backslash.
unfoldable pub escape : List ℕ → List ℕ
escape [] = []
escape (c ∷ s) = if is_special c then 0x5C ∷ c ∷ escape s else c ∷ escape s

scan_quoted-length : (room : ℕ) (p : List ℕ) → length (scan_quoted room p).0 ≤ room
unfolding scan_quoted
scan_quoted-length zero p = omega arith
scan_quoted-length (suc room) [] = omega arith
scan_quoted-length (suc room) (c ∷ p) =
    let escaped = c == 0x5C && is_escapable p in
    let p' = if escaped then next_chars p else p in
    elim (Bool-cases (not escaped && c == 0x22)) [
      | inl e ↦ rw e (omega arith)
      | inr e ↦ rw e (omega (arith, scan_quoted-length room p'))
    ]

-- The text that is read never has more than 255 characters, so `str_buf` has room for it and for the
-- NUL byte behind it.
pub parse_quoted-length : (line : List ℕ) → length (parse_quoted line).0 ≤ max_string_len
unfolding parse_quoted
parse_quoted-length line = scan_quoted-length max_string_len (skip_char 0x20 line)

scan_escaped :
    (room c : ℕ) (p : List ℕ)
    → is_special c ≡ true
    → scan_quoted (suc room) (0x5C ∷ c ∷ p) ≡ (c ∷ (scan_quoted room p).0, (scan_quoted room p).1)
unfolding scan_quoted is_escapable first_char next_chars
scan_escaped room c p e = rw e refl

scan_plain :
    (room c : ℕ) (p : List ℕ)
    → is_special c ≡ false
    → scan_quoted (suc room) (c ∷ p) ≡ (c ∷ (scan_quoted room p).0, (scan_quoted room p).1)
unfolding scan_quoted
scan_plain room c p e =
    let not_quote : (c == 0x22) ≡ false = ground arith in
    let not_slash : (c == 0x5C) ≡ false = ground arith in rw (not_slash, not_quote) refl

scan_quoted-escape :
    (room : ℕ) (s rest : List ℕ)
    → length s ≤ room
    → scan_quoted room (escape s ++ (0x22 ∷ rest)) ≡ (s, 0x22 ∷ rest)
unfolding scan_quoted escape
scan_quoted-escape zero [] rest fit = refl
scan_quoted-escape zero (c ∷ s) rest fit = absurd (omega arith)
scan_quoted-escape (suc room) [] rest fit = refl
scan_quoted-escape (suc room) (c ∷ s) rest fit =
    let ih = scan_quoted-escape room s rest (omega (arith, fit)) in
    elim (Bool-cases (is_special c)) [
      | inl e ↦ rw e (scan_escaped room c (escape s ++ (0x22 ∷ rest)) e ∙ rw ih refl)
      | inr e ↦ rw e (scan_plain room c (escape s ++ (0x22 ∷ rest)) e ∙ rw ih refl)
    ]

-- A text of at most 255 characters, written behind a blank with a backslash before each quote and
-- each backslash and with a closing quote, is read back, and the line goes on behind that quote.
pub parse_quoted-escape :
    (s rest : List ℕ)
    → length s ≤ max_string_len
    → parse_quoted (0x20 ∷ (escape s ++ (0x22 ∷ rest))) ≡ (s, rest)
unfolding parse_quoted skip_char
parse_quoted-escape s rest fit = rw (scan_quoted-escape max_string_len s rest fit)
