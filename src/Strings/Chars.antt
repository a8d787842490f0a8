-- ===== src/Strings/Chars.antt =====
-- CHAR, [CHAR], the text of .", and their primitive. A `char` is signed on the host.
use u_forth.Prelude.{
  ℕ, zero, suc, ◌+◌, not, ◌||◌, ltb, ◌==◌, if◌then◌else◌, Bool, true, false, none, some, List, [],
  ◌∷◌,
}
use u_forth.Vm.{ForthState}
use u_forth.Machine.{
  Action, Printed, pure, branch, ◌>>=◌, ◌>>◌, if_vm, get_vm, hw_read8, hw_read32, forth_push,
  forth_abort, print,
}
use u_forth.Outside.{Outside}
use u_forth.Words.Arith.{add32}
use u_forth.Compiler.{xt_lit, compile_pair, set_ip, is_compile}
use u_forth.Strings.{first_char, aligned_len, parse_quoted, compile_string, set_parse_line_ptr}

-- `(uint32_t)ch`
unfoldable pub char_word : ℕ → ℕ
char_word ch = if ltb ch 0x80 then ch else ch + 0xFFFFFF00

unfoldable pub skip_spaces : List ℕ → List ℕ
skip_spaces [] = []
skip_spaces (c ∷ p) = if c == 0x20 || c == 9 then skip_spaces p else c ∷ p

unfoldable pub skip_word : List ℕ → List ℕ
skip_word [] = []
skip_word (c ∷ p) = if c == 0x20 || c == 9 || c == 13 || c == 10 then c ∷ p else skip_word p

-- The character, 0 at the end of the line, and where `*line_ptr` is left.
unfoldable pub get_next_char_from_line : List ℕ → ℕ × List ℕ
get_next_char_from_line line = let p = skip_spaces line in (first_char p, skip_word p)

-- The pointer of the context is not moved.
unfoldable pub forth_bracket_char : Action (Unit {0})
forth_bracket_char = do
  v ← get_vm
  let ch = (get_next_char_from_line v.parse_line_ptr).0
  branch (ch == 0) forth_abort (forth_push (char_word ch))

unfoldable pub is_runtime : ForthState → Bool
is_runtime ForthState.runtime = true
is_runtime _ = false

unfoldable pub forth_dual_char : Outside → Action (Unit {0})
forth_dual_char o = do
  v ← get_vm
  branch (is_runtime v.state) (pure tt) (
      let extracted = o.extract_next_token v.parse_line_ptr in
      elim extracted.0 [
        | none ↦ forth_abort
        | some token ↦ do
          set_parse_line_ptr extracted.1
          let ch = char_word (first_char token)
          branch (is_compile v.state) (compile_pair xt_lit ch) (forth_push ch)
      ])

unfoldable pub forth_dual_bracket_char : Outside → Action (Unit {0})
forth_dual_bracket_char o = do
  v ← get_vm
  branch (not (is_compile v.state)) forth_abort (
      let extracted = o.extract_next_token v.parse_line_ptr in
      elim extracted.0 [
        | none ↦ forth_abort
        | some token ↦
            set_parse_line_ptr extracted.1 >> compile_pair xt_lit (char_word (first_char token))
      ])

-- XT_PRIMITIVE_P_DOT_QUOTE
abbrev pub xt_p_dot_quote : ℕ
xt_p_dot_quote = 42

-- `forth_cmd_dot_quote`: the result is where `*line_ptr` is left.
unfoldable pub forth_cmd_dot_quote : List ℕ → Action (List ℕ)
forth_cmd_dot_quote line = do
  v ← get_vm
  let parsed = parse_quoted line
  branch (is_compile v.state) (compile_string xt_p_dot_quote parsed.0)
      (print (Printed.text parsed.0))
  pure parsed.1

-- The printing loop from `ip + i` on, with `left` rounds to go.
unfoldable pub print_bytes : ℕ → ℕ → Action (Unit {0})
print_bytes zero addr = pure tt
print_bytes (suc left) addr = do
  ch ← hw_read8 addr
  print (Printed.char ch)
  print_bytes left (add32 addr 1)

unfoldable pub forth_primitive_p_dot_quote : Action (Unit {0})
forth_primitive_p_dot_quote = do
  v ← get_vm
  str_len ← hw_read32 v.ip
  set_ip (add32 v.ip 4)
  print_bytes str_len (add32 v.ip 4)
  v' ← get_vm
  set_ip (add32 v'.ip (aligned_len str_len))

-- `forth_dual_dot_quote`. Its `*current_forth_vm->parse_line_ptr = p` assigns a pointer to a constant
-- character, which C does not accept; it is taken for the assignment to `parse_line_ptr`.
unfoldable pub forth_dual_dot_quote : Action (Unit {0})
forth_dual_dot_quote =
    if_vm (do v ← get_vm; p ← forth_cmd_dot_quote v.parse_line_ptr; set_parse_line_ptr p)
