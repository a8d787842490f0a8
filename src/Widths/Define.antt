-- ===== src/Widths/Define.antt =====
-- CHAR, [CHAR], the text of .", CONSTANT, VARIABLE and TO.
use u_forth.Prelude.{
  ℕ, zero, suc, inl, inr, Bool, Bool-cases, arith, ◌==◌, ◌||◌, none, some, List, [], ◌∷◌,
}
use u_forth.Machine.{Action, ◌>>◌, pure, branch, forth_push, forth_abort}
use u_forth.Compiler.{xt_lit, compile_pair, is_compile}
use u_forth.Outside.{Outside}
use u_forth.Strings.{first_char, set_parse_line_ptr}
use u_forth.Strings.Chars.{
  is_runtime, char_word, skip_spaces, get_next_char_from_line, forth_bracket_char, forth_dual_char,
  forth_dual_bracket_char, forth_cmd_dot_quote, print_bytes, forth_primitive_p_dot_quote,
  forth_dual_dot_quote,
}
use u_forth.Values.Define.{
  forth_dual_variable, forth_dual_constant, forth_primitive_var_runtime, run_to, forth_dual_to,
}
use u_forth.Widths.{IsWord, IsByte, AreBytes, Keeps, KeepsFit}
use u_forth.Widths.Rules.{Keeps-by_option, Keeps-branch, Keeps-pure}
use u_forth.Widths.Blocks.{widths, get_vm_then}
use u_forth.Widths.Compile.{Keeps-compile_pair}
use u_forth.Widths.Strings.{
  texts, first_char-IsByte, parse_quoted-text, parse_quoted-rest, Keeps-compile_string,
}
use u_forth.Widths.Calls.{CallsFit}

char_word-IsWord : (ch : ℕ) → IsByte ch → IsWord (char_word ch)
unfolding char_word IsByte IsWord
char_word-IsWord ch h = ground arith

skip_spaces-AreBytes : (p : List ℕ) → AreBytes p → AreBytes (skip_spaces p)
unfolding skip_spaces AreBytes
skip_spaces-AreBytes [] h = tt
skip_spaces-AreBytes (c ∷ p) (b, h) = elim (Bool-cases (c == 0x20 || c == 9)) [
  | inl e ↦ rw e (skip_spaces-AreBytes p h)
  | inr e ↦ rw e (b, h)
]

next_char-IsByte : (line : List ℕ) → AreBytes line → IsByte (get_next_char_from_line line).0
unfolding get_next_char_from_line
next_char-IsByte line h = first_char-IsByte _ (skip_spaces-AreBytes line h)

pub Keeps-forth_bracket_char : KeepsFit forth_bracket_char
unfolding forth_bracket_char
Keeps-forth_bracket_char = search (texts, char_word-IsWord, next_char-IsByte) depth 12

pub Keeps-forth_cmd_dot_quote :
    (line : List ℕ) → AreBytes line → Keeps AreBytes (forth_cmd_dot_quote line)
unfolding forth_cmd_dot_quote
Keeps-forth_cmd_dot_quote line h =
    search (texts, Keeps-compile_string, parse_quoted-text, parse_quoted-rest) depth 12

pub Keeps-forth_dual_dot_quote : KeepsFit forth_dual_dot_quote
unfolding forth_dual_dot_quote
Keeps-forth_dual_dot_quote = search (texts, Keeps-forth_cmd_dot_quote) depth 12

Keeps-print_bytes : (left addr : ℕ) → KeepsFit (print_bytes left addr)
unfolding print_bytes
Keeps-print_bytes zero addr = search widths
Keeps-print_bytes (suc left) addr =
    let rest = λ (a : ℕ). Keeps-print_bytes left a in search (widths, rest)

pub Keeps-forth_primitive_p_dot_quote : KeepsFit forth_primitive_p_dot_quote
unfolding forth_primitive_p_dot_quote
Keeps-forth_primitive_p_dot_quote = search (texts, Keeps-print_bytes) depth 12

var_rt-IsWord : IsWord 62
unfolding IsWord
var_rt-IsWord = omega arith

-- A character compiled or pushed, once the line is moved on.
Keeps-use_char :
    (compiles : Bool) (rest : List ℕ) (ch : ℕ)
    → AreBytes rest
    → IsWord ch
    → KeepsFit (set_parse_line_ptr rest >> branch compiles (compile_pair xt_lit ch) (forth_push ch))
Keeps-use_char compiles rest ch h w = search (texts, Keeps-compile_pair)

module _ (o : Outside) (calls : CallsFit o) where
  -- Behind a token, whose first character is used.
  Keeps-with_token :
      (line : List ℕ) (nothing : Action (Unit {0})) (next : List ℕ → Action (Unit {0}))
      → AreBytes line
      → KeepsFit nothing
      → ((token : List ℕ) → IsWord (char_word (first_char token)) → KeepsFit (next token))
      → KeepsFit (elim (o.extract_next_token line).0 as (λ _. Action (Unit {0})) [
        | none ↦ nothing
        | some token ↦ next token
      ])
  Keeps-with_token line nothing next h k l =
      Keeps-by_option (o.extract_next_token line).0 nothing next k λ token e.
        l token (
          char_word-IsWord _
            (first_char-IsByte token ((calls.extract_next_token line h).0 token e)))

  left_of-AreBytes : (line : List ℕ) → AreBytes line → AreBytes (o.extract_next_token line).1
  left_of-AreBytes line h = (calls.extract_next_token line h).1

  pub Keeps-forth_dual_char : KeepsFit (forth_dual_char o)
  unfolding forth_dual_char
  Keeps-forth_dual_char = get_vm_then _ λ v h.
      Keeps-branch (is_runtime v.state) (pure tt) _ (Keeps-pure tt tt) (
        Keeps-with_token v.parse_line_ptr forth_abort
          (λ token.
            set_parse_line_ptr (o.extract_next_token v.parse_line_ptr).1
            >> branch (is_compile v.state) (compile_pair xt_lit (char_word (first_char token)))
                (forth_push (char_word (first_char token))))
          h.parse_line_ptr (search widths)
          λ token. Keeps-use_char _ _ _ (left_of-AreBytes v.parse_line_ptr h.parse_line_ptr))

  pub Keeps-forth_dual_bracket_char : KeepsFit (forth_dual_bracket_char o)
  unfolding forth_dual_bracket_char
  Keeps-forth_dual_bracket_char =
      search (texts, Keeps-with_token, left_of-AreBytes, Keeps-compile_pair) depth 14

  name_of-AreBytes : (line : List ℕ) → AreBytes line → AreBytes (o.parse_next_token_to_buf line).0
  name_of-AreBytes line h = (calls.parse_next_token_to_buf line h).0

  rest_of-AreBytes : (line : List ℕ) → AreBytes line → AreBytes (o.parse_next_token_to_buf line).1
  rest_of-AreBytes line h = (calls.parse_next_token_to_buf line h).1

  ruleset names = (texts, name_of-AreBytes, rest_of-AreBytes, var_rt-IsWord, Keeps-compile_pair)

  pub Keeps-forth_dual_variable : KeepsFit (forth_dual_variable o)
  unfolding forth_dual_variable
  Keeps-forth_dual_variable = search (names, calls.dict_add_user_word) depth 14

  pub Keeps-forth_dual_constant : KeepsFit (forth_dual_constant o)
  unfolding forth_dual_constant
  Keeps-forth_dual_constant = search (names, calls.dict_add_user_word) depth 14

  pub Keeps-forth_primitive_var_runtime : KeepsFit (forth_primitive_var_runtime o)
  unfolding forth_primitive_var_runtime
  Keeps-forth_primitive_var_runtime = search (names, calls.hw_spi_ram_read32) depth 14

  Keeps-run_to : KeepsFit (run_to o)
  unfolding run_to
  Keeps-run_to = search (names, calls.hw_spi_ram_read32) depth 14

  pub Keeps-forth_dual_to : KeepsFit (forth_dual_to o)
  unfolding forth_dual_to
  Keeps-forth_dual_to = search (names, Keeps-run_to, calls.dict_find_variable_address) depth 14
