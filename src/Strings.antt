-- ===== src/Strings.antt =====
-- The words of forth_dict.c that read text from the line or lay it down in threaded code: S", \ and
-- dict_add_word, and the primitive (S"). A line is the list of what is left of it, up to its NUL byte.
pub mod Parse
pub mod Compile
pub mod Chars
use u_forth.Prelude.{
  ℕ, zero, suc, ◌+◌, ◌-◌, ◌*◌, ◌/◌, ◌%◌, ◌^◌, Bool, true, false, not, ◌&&◌, ◌||◌, leb, ◌==◌,
  if◌then◌else◌, List, [], ◌∷◌, length,
}
use u_forth.Bus.{ext_spi_ram_base, ext_spi_ram_size}
use u_forth.Vm.{Vm, ForthState}
use u_forth.Machine.{
  Action, pure, branch, ◌>>=◌, ◌>>◌, if_vm, get_vm, set_vm, hw_read32, hw_write8, hw_write32,
  hw_spi_ram_write_buf, forth_push,
}
use u_forth.Words.Arith.{add32}
use u_forth.Compiler.{set_dict_free_ptr, set_ip}

-- FORTH_MAX_STRING_LEN, STRING_BUFFER_SIZE, FORTH_MAX_WORD_LEN, XT_S_QUOTE
abbrev pub max_string_len : ℕ
max_string_len = 255

abbrev pub string_buffer_size : ℕ
string_buffer_size = max_string_len + 1

abbrev pub max_word_len : ℕ
max_word_len = 33

abbrev pub xt_s_quote : ℕ
xt_s_quote = 43

-- `if (*p == ' ') p++;` and `if (*p == '"') p++;`
unfoldable pub skip_char : ℕ → List ℕ → List ℕ
skip_char ch [] = []
skip_char ch (c ∷ p) = if c == ch then p else c ∷ p

-- `*(p + 1) == '"' || *(p + 1) == '\\'`, and the character and the text behind it.
unfoldable pub is_escapable : List ℕ → Bool
is_escapable [] = false
is_escapable (d ∷ p) = d == 0x22 || d == 0x5C

unfoldable pub first_char : List ℕ → ℕ
first_char [] = 0
first_char (d ∷ p) = d

unfoldable pub next_chars : List ℕ → List ℕ
next_chars [] = []
next_chars (d ∷ p) = p

-- The loop that fills `str_buf`, with room for so many characters: one more a round.
unfoldable pub scan_quoted : ℕ → List ℕ → List ℕ × List ℕ
scan_quoted zero p = ([], p)
scan_quoted (suc room) [] = ([], [])
scan_quoted (suc room) (c ∷ p) =
    let escaped = c == 0x5C && is_escapable p in
    let ch = if escaped then first_char p else c in
    let p' = if escaped then next_chars p else p in
    let rest = scan_quoted room p' in
    if not escaped && c == 0x22 then ([], c ∷ p) else (ch ∷ rest.0, rest.1)

-- The text of S" or .", and what is left of the line.
unfoldable pub parse_quoted : List ℕ → List ℕ × List ℕ
parse_quoted line =
    let scanned = scan_quoted max_string_len (skip_char 0x20 line) in
    (scanned.0, skip_char 0x22 scanned.1)

-- `(len + 3) & ~3`
unfoldable pub aligned_len : ℕ → ℕ
aligned_len len = add32 len 3 / 4 * 4

unfoldable pub set_parse_line_ptr : List ℕ → Action (Unit {0})
set_parse_line_ptr p = do v ← get_vm; set_vm (record v { parse_line_ptr = p })

-- The text in threaded code, behind its token and its length.
unfoldable pub compile_string : ℕ → List ℕ → Action (Unit {0})
compile_string xt str_buf = do
  v ← get_vm
  let free_ptr = v.dict_free_ptr
  let len = length str_buf
  hw_write32 free_ptr xt
  hw_write32 (add32 free_ptr 4) len
  hw_spi_ram_write_buf (add32 free_ptr 8) str_buf
  set_dict_free_ptr (add32 (add32 free_ptr 8) (aligned_len len))

-- The text in the buffer at the end of the SPI-RAM, and its address and length on the stack.
unfoldable pub push_string : List ℕ → Action (Unit {0})
push_string str_buf = do
  let temp_str_addr = ext_spi_ram_base + ext_spi_ram_size - string_buffer_size
  hw_spi_ram_write_buf temp_str_addr str_buf
  forth_push temp_str_addr
  forth_push (length str_buf)

-- The case FORTH_STATE_RUNTIME, with the function that the repository does not define.
unfoldable pub run_s_quote : (hw_spi_ram_read32 : ℕ → Action ℕ) → Action (Unit {0})
run_s_quote hw_spi_ram_read32 = do
  v ← get_vm
  len ← hw_spi_ram_read32 v.ip
  forth_push (add32 v.ip 4)
  forth_push len
  v' ← get_vm
  set_ip (add32 v'.ip (add32 4 (aligned_len len)))

unfoldable pub forth_dual_s_quote : (hw_spi_ram_read32 : ℕ → Action ℕ) → Action (Unit {0})
forth_dual_s_quote hw_spi_ram_read32 = if_vm (do
  v ← get_vm
  let parsed = parse_quoted v.parse_line_ptr
  elim v.state [
    | ForthState.runtime ↦ run_s_quote hw_spi_ram_read32
    | ForthState.compile ↦ set_parse_line_ptr parsed.1 >> compile_string xt_s_quote parsed.0
    | ForthState.repl ↦ set_parse_line_ptr parsed.1 >> push_string parsed.0
  ])

-- Nothing calls `forth_primitive_p_s_quote`; the token of S" runs `forth_dual_s_quote`.
unfoldable pub forth_primitive_p_s_quote : Action (Unit {0})
forth_primitive_p_s_quote = do
  v ← get_vm
  str_len ← hw_read32 v.ip
  set_ip (add32 v.ip 4)
  forth_push (add32 v.ip 4)
  forth_push str_len
  v' ← get_vm
  set_ip (add32 v'.ip (aligned_len str_len))

-- The text up to a line feed or a carriage return is passed over.
unfoldable pub skip_line : List ℕ → List ℕ
skip_line [] = []
skip_line (c ∷ p) = if c == 10 || c == 13 then c ∷ p else skip_line p

unfoldable pub forth_cmd_backslash : Action (Unit {0})
forth_cmd_backslash = do v ← get_vm; set_parse_line_ptr (skip_line v.parse_line_ptr)

-- The first `n` characters of a name.
unfoldable pub take_chars : ℕ → List ℕ → List ℕ
take_chars zero name = []
take_chars (suc n) [] = []
take_chars (suc n) (c ∷ name) = c ∷ take_chars n name

-- The header of a word: the link to the latest one, the length of the name in a byte and the name.
unfoldable pub dict_add_word : List ℕ → Action (Unit {0})
dict_add_word name = if_vm (do
  v ← get_vm
  let free_ptr = v.dict_free_ptr
  let name_len = if leb (max_word_len + 1) (length name) then max_word_len else length name
  hw_write32 free_ptr v.latest_word
  hw_write8 (add32 free_ptr 4) name_len
  hw_spi_ram_write_buf (add32 free_ptr 5) (take_chars name_len name)
  let body_ptr = add32 (add32 (add32 free_ptr 5) name_len) 3 / 4 * 4
  v' ← get_vm
  set_vm (record v' { latest_word = free_ptr; dict_free_ptr = body_ptr }))
