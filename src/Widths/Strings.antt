-- ===== src/Widths/Strings.antt =====
-- The words of text, of characters and of variables.
use u_forth.Prelude.{
  ℕ, zero, suc, ◌+◌, ◌*◌, ◌/◌, ◌≤◌, inl, inr, Bool-cases, arith, ◌==◌, ◌||◌, ◌&&◌, leb,
  if◌then◌else◌, List, [], ◌∷◌, length,
}
use u_forth.Machine.{Action, get_vm, ◌>>=◌, set_vm}
use u_forth.Words.Arith.{add32}
use u_forth.Strings.{
  skip_char, is_escapable, first_char, next_chars, scan_quoted, parse_quoted, aligned_len,
  set_parse_line_ptr, compile_string, push_string, run_s_quote, forth_dual_s_quote,
  forth_primitive_p_s_quote, skip_line, forth_cmd_backslash, take_chars, dict_add_word,
  max_string_len, max_word_len,
}
use u_forth.Widths.{IsWord, IsByte, AreBytes, Keeps, KeepsFit}
use u_forth.Widths.Rules.{Keeps-set_vm, Keeps-if_vm, Keeps-by_state}
use u_forth.Widths.Blocks.{get_vm_then}
use u_forth.Widths.Compile.{registers, Keeps-compile_pair}

pub Keeps-set_parse_line_ptr : (p : List ℕ) → AreBytes p → KeepsFit (set_parse_line_ptr p)
unfolding set_parse_line_ptr
Keeps-set_parse_line_ptr p w = get_vm_then _ λ v h.
    Keeps-set_vm (record v { parse_line_ptr = p })
      (record {
        data_stack = h.data_stack;
        return_stack = h.return_stack;
        sp = h.sp;
        rp = h.rp;
        ip = h.ip;
        latest_word = h.latest_word;
        dict_free_ptr = h.dict_free_ptr;
        parse_line_ptr = w;
      })

-- The parts of a line that the scans give and leave.
skip_char-AreBytes : (ch : ℕ) (p : List ℕ) → AreBytes p → AreBytes (skip_char ch p)
unfolding skip_char AreBytes
skip_char-AreBytes ch [] h = tt
skip_char-AreBytes ch (c ∷ p) (b, h) = elim (Bool-cases (c == ch)) [
  | inl e ↦ rw e h
  | inr e ↦ rw e (b, h)
]

pub first_char-IsByte : (p : List ℕ) → AreBytes p → IsByte (first_char p)
unfolding first_char AreBytes IsByte
first_char-IsByte [] h = omega arith
first_char-IsByte (c ∷ p) (b, h) = b

next_chars-AreBytes : (p : List ℕ) → AreBytes p → AreBytes (next_chars p)
unfolding next_chars AreBytes
next_chars-AreBytes [] h = tt
next_chars-AreBytes (c ∷ p) (b, h) = h

scan_quoted-AreBytes :
    (room : ℕ) (p : List ℕ)
    → AreBytes p
    → AreBytes (scan_quoted room p).0 × AreBytes (scan_quoted room p).1
unfolding scan_quoted AreBytes
scan_quoted-AreBytes zero p h = (tt, h)
scan_quoted-AreBytes (suc room) [] h = (tt, tt)
scan_quoted-AreBytes (suc room) (c ∷ p) (b, h) = elim (Bool-cases (c == 0x5C && is_escapable p)) [
  | inl e ↦
      let (k, l) = scan_quoted-AreBytes room (next_chars p) (next_chars-AreBytes p h) in
      rw e ((first_char-IsByte p h, k), l)
  | inr e ↦ elim (Bool-cases (c == 0x22)) [
    | inl q ↦ rw (e, q) (tt, (b, h))
    | inr q ↦ let (k, l) = scan_quoted-AreBytes room p h in rw (e, q) ((b, k), l)
  ]
]

scan_quoted-length : (room : ℕ) (p : List ℕ) → length (scan_quoted room p).0 ≤ room
unfolding scan_quoted
scan_quoted-length zero p = omega arith
scan_quoted-length (suc room) [] = omega arith
scan_quoted-length (suc room) (c ∷ p) = elim (Bool-cases (c == 0x5C && is_escapable p)) [
  | inl e ↦ let le = scan_quoted-length room (next_chars p) in rw e (omega arith)
  | inr e ↦ elim (Bool-cases (c == 0x22)) [
    | inl q ↦ rw (e, q) (omega arith)
    | inr q ↦ let le = scan_quoted-length room p in rw (e, q) (omega arith)
  ]
]

parse_quoted-AreBytes :
    (line : List ℕ)
    → AreBytes line
    → AreBytes (parse_quoted line).0 × AreBytes (parse_quoted line).1
unfolding parse_quoted
parse_quoted-AreBytes line h =
    let (k, l) = scan_quoted-AreBytes max_string_len _ (skip_char-AreBytes 0x20 line h) in
    (k, skip_char-AreBytes 0x22 _ l)

pub parse_quoted-text : (line : List ℕ) → AreBytes line → AreBytes (parse_quoted line).0
parse_quoted-text line h = (parse_quoted-AreBytes line h).0

pub parse_quoted-rest : (line : List ℕ) → AreBytes line → AreBytes (parse_quoted line).1
parse_quoted-rest line h = (parse_quoted-AreBytes line h).1

parse_quoted-length : (line : List ℕ) → IsWord (length (parse_quoted line).0)
unfolding parse_quoted IsWord
parse_quoted-length line = omega (arith, scan_quoted-length 255 (skip_char 0x20 line))

skip_line-AreBytes : (p : List ℕ) → AreBytes p → AreBytes (skip_line p)
unfolding skip_line AreBytes
skip_line-AreBytes [] h = tt
skip_line-AreBytes (c ∷ p) (b, h) = elim (Bool-cases (c == 10 || c == 13)) [
  | inl e ↦ rw e (b, h)
  | inr e ↦ rw e (skip_line-AreBytes p h)
]

take_chars-AreBytes : (n : ℕ) (name : List ℕ) → AreBytes name → AreBytes (take_chars n name)
unfolding take_chars AreBytes
take_chars-AreBytes zero name h = tt
take_chars-AreBytes (suc n) [] h = tt
take_chars-AreBytes (suc n) (c ∷ name) (b, h) = (b, take_chars-AreBytes n name h)

pub aligned_len-IsWord : (len : ℕ) → IsWord (aligned_len len)
unfolding aligned_len IsWord
aligned_len-IsWord len = omega arith

aligned-IsWord : (a : ℕ) → IsWord (add32 a 3 / 4 * 4)
unfolding IsWord
aligned-IsWord a = omega arith

-- The address of the buffer at the end of the SPI-RAM.
buffer-IsWord : IsWord 0x600FFF00
unfolding IsWord
buffer-IsWord = omega arith

pub ruleset texts = (registers, Keeps-set_parse_line_ptr, aligned_len-IsWord)

pub Keeps-compile_string :
    (xt : ℕ) (str_buf : List ℕ) → AreBytes str_buf → KeepsFit (compile_string xt str_buf)
unfolding compile_string
Keeps-compile_string xt str_buf h = search texts depth 12

Keeps-push_string :
    (str_buf : List ℕ) → AreBytes str_buf → IsWord (length str_buf) → KeepsFit (push_string str_buf)
unfolding push_string
Keeps-push_string str_buf h w = search (texts, buffer-IsWord) depth 12

module _ (read : ℕ → Action ℕ) (fits : (addr : ℕ) → Keeps IsWord (read addr)) where
  Keeps-run_s_quote : KeepsFit (run_s_quote read)
  unfolding run_s_quote
  Keeps-run_s_quote = search texts depth 12

  pub Keeps-forth_dual_s_quote : KeepsFit (forth_dual_s_quote read)
  unfolding forth_dual_s_quote
  Keeps-forth_dual_s_quote = Keeps-if_vm _ (
      get_vm_then _ λ v h.
        let text = parse_quoted-text v.parse_line_ptr h.parse_line_ptr in
        let rest = parse_quoted-rest v.parse_line_ptr h.parse_line_ptr in
        Keeps-by_state v.state _ _ _ (search (texts, Keeps-push_string, parse_quoted-length))
          (search (texts, Keeps-compile_string)) Keeps-run_s_quote)

pub Keeps-forth_primitive_p_s_quote : KeepsFit forth_primitive_p_s_quote
unfolding forth_primitive_p_s_quote
Keeps-forth_primitive_p_s_quote = search texts depth 12

pub Keeps-forth_cmd_backslash : KeepsFit forth_cmd_backslash
unfolding forth_cmd_backslash
Keeps-forth_cmd_backslash = search (texts, skip_line-AreBytes)

-- What `dict_add_word` leaves at the end.
Keeps-set_latest :
    (latest free : ℕ)
    → IsWord latest
    → IsWord free
    → KeepsFit (get_vm >>= λ v. set_vm (record v { latest_word = latest; dict_free_ptr = free }))
Keeps-set_latest latest free p q = get_vm_then _ λ v h.
    Keeps-set_vm (record v { latest_word = latest; dict_free_ptr = free })
      (record {
        data_stack = h.data_stack;
        return_stack = h.return_stack;
        sp = h.sp;
        rp = h.rp;
        ip = h.ip;
        latest_word = p;
        dict_free_ptr = q;
        parse_line_ptr = h.parse_line_ptr;
      })

name_len-IsByte : (n : ℕ) → IsByte (if leb (max_word_len + 1) n then max_word_len else n)
unfolding IsByte
name_len-IsByte n = ground arith

pub Keeps-dict_add_word : (name : List ℕ) → AreBytes name → KeepsFit (dict_add_word name)
unfolding dict_add_word
Keeps-dict_add_word name h =
    search (texts, take_chars-AreBytes, name_len-IsByte, aligned-IsWord, Keeps-set_latest) depth 14
