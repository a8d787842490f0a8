-- ===== src/Strings/Compile.antt =====
-- S" in a definition: the text that is laid down, and what S" makes of it when it runs.
use u_forth.Prelude.{
  ℕ, ◌+◌, ◌*◌, ◌/◌, ◌≤◌, ◌≡◌, true, some, refl, ap, ◌∙◌, arith, List, [], ◌∷◌, length,
}
use u_forth.Bus
use u_forth.Bus.{Bus, in_ext_spi_ram, ext_spi_ram_base, ext_spi_ram_size, ring_addr}
use u_forth.Bus.Access.{is_byte, is_word, load, store, poke}
use u_forth.Bus.Words.{load-store_self, load-store_ne}
use u_forth.Bus.Buffers.{poke_from, write_buf_from-poke_from, read_buf_from-poke_from}
use u_forth.Vm
use u_forth.Vm.{Vm, ForthState}
use u_forth.Machine.{
  Machine, Action, ok, ◌>>=◌, ◌>>◌, hw_spi_ram_write_buf, hw_spi_ram_read_buf, set_vm,
}
use u_forth.Machine.Laws.{with_vm, with_bus, write32_at, get_vm_at, push_at, if_vm_at}
use u_forth.Words.Arith.{add32}
use u_forth.Compiler.Layout.{HasSpace, set_ip_at, set_dict_free_ptr_at}
use u_forth.Strings.{
  xt_s_quote, max_string_len, parse_quoted, aligned_len, set_parse_line_ptr, compile_string,
  forth_dual_s_quote, run_s_quote,
}
use u_forth.Strings.Parse.{parse_quoted-length}

pub load-poke :
    (b : Bus) (a p v : ℕ)
    → is_word a ≡ true
    → is_byte p ≡ true
    → a + 4 ≤ p
    → load (poke b p v) a ≡ load b a
unfolding load poke
load-poke b a p v w h lt = ground arith

-- A text behind a word of the SPI-RAM, up to its end at most, leaves the word.
pub load-poke_from :
    (addr i : ℕ) (src : List ℕ) (b : Bus) (a : ℕ)
    → is_word a ≡ true
    → a + 4 ≤ addr
    → ext_spi_ram_base ≤ addr
    → addr + i + length src ≤ ext_spi_ram_base + ext_spi_ram_size
    → load (poke_from addr i src b) a ≡ load b a
unfolding poke_from ring_addr
load-poke_from addr i [] b a w lt low fit = refl
load-poke_from addr i (c ∷ src) b a w lt low fit =
    let at : ring_addr addr i ≡ addr + i = ground arith in
    load-poke_from addr (i + 1) src (poke b (ring_addr addr i) c) a w lt low (omega (arith, fit))
    ∙ rw at (load-poke b a (addr + i) c w (ground arith) (omega (arith, lt)))

module _ (m : Machine) (v : Vm) (s : List ℕ) (running : m.current_forth_vm ≡ some v)
    (h : HasSpace v.dict_free_ptr 264) (short : length s ≤ max_string_len) where
  abbrev start_at : ℕ
  start_at = v.dict_free_ptr

  abbrev header_bus : Bus
  header_bus = store (store m.bus start_at xt_s_quote) (start_at + 4) (length s)

  abbrev string_bus : Bus
  string_bus = poke_from (start_at + 8) 0 s header_bus

  abbrev end_at : ℕ
  end_at = start_at + 8 + (length s + 3) / 4 * 4

  token_word : is_word start_at ≡ true
  token_word = ground (arith, h.low, h.high, h.aligned)

  length_word : is_word (start_at + 4) ≡ true
  length_word = ground (arith, h.low, h.high, h.aligned)

  text_in_ext : in_ext_spi_ram (start_at + 8) ≡ true
  text_in_ext = ground (arith, h.low, h.high)

  fits : 0 + length s ≤ ext_spi_ram_size
  fits = omega (arith, short)

  load-string_bus :
      (a : ℕ) → is_word a ≡ true → a + 4 ≤ start_at + 8 → load string_bus a ≡ load header_bus a
  load-string_bus a w lt =
      load-poke_from (start_at + 8) 0 s header_bus a w lt (omega (arith, h.low))
        (omega (arith, h.high, short))

  string_bus-length : load string_bus (start_at + 4) ≡ length s
  string_bus-length =
      load-string_bus (start_at + 4) length_word (omega arith)
      ∙ load-store_self (store m.bus start_at xt_s_quote) (start_at + 4) (length s)
          (omega (arith, short))

  string_bus-token : load string_bus start_at ≡ xt_s_quote
  string_bus-token =
      load-string_bus start_at token_word (omega arith)
      ∙ load-store_ne (store m.bus start_at xt_s_quote) (start_at + 4) start_at (length s)
          length_word token_word (omega arith)
      ∙ load-store_self m.bus start_at xt_s_quote (omega arith)

  write_string :
      hw_spi_ram_write_buf (start_at + 8) s (with_bus m header_bus) ≡ ok tt (with_bus m string_bus)
  unfolding hw_spi_ram_write_buf Bus.hw_spi_ram_write_buf
  write_string = rw (write_buf_from-poke_from (start_at + 8) text_in_ext 0 s header_bus fits)

  read_string :
      (w : Vm)
      → hw_spi_ram_read_buf (start_at + 8) (length s) (with_vm (with_bus m string_bus) w)
        ≡ ok s (with_vm (with_bus m string_bus) w)
  unfolding hw_spi_ram_read_buf Bus.hw_spi_ram_read_buf
  read_string w = rw (read_buf_from-poke_from (start_at + 8) text_in_ext 0 s header_bus fits)

  compile_string_at :
      compile_string xt_s_quote s m
      ≡ ok tt (with_vm (with_bus m string_bus) (record v { dict_free_ptr = end_at }))
  unfolding compile_string aligned_len
  compile_string_at =
      let four : add32 start_at 4 ≡ start_at + 4 = omega (arith, h.high) in
      let eight : add32 start_at 8 ≡ start_at + 8 = omega (arith, h.high) in
      let end : add32 (start_at + 8) (add32 (length s) 3 / 4 * 4) ≡ end_at =
        omega (arith, h.high, short) in
      rw
        (
          compile_string,
          ◌>>◌,
          ◌>>=◌,
          get_vm_at m running,
          write32_at start_at m xt_s_quote token_word,
          four,
          write32_at (start_at + 4) (with_bus m (store m.bus start_at xt_s_quote)) (length s)
              length_word,
          eight,
          write_string,
          eight,
          end,
        )
        (set_dict_free_ptr_at (with_bus m string_bus) running end_at)

ip-push : (x : ℕ) (v : Vm) → (Vm.push x v).ip ≡ v.ip
unfolding Vm.push
ip-push x v = ground arith

-- The runtime case of S" at the cell that holds the length `len`.
run_s_quote_at :
    (read : ℕ → Action ℕ) (m : Machine) (w : Vm) (len : ℕ)
    → m.current_forth_vm ≡ some w
    → read w.ip m ≡ ok len m
    → run_s_quote read m
      ≡ ok tt (
          with_vm m (record (Vm.push len (Vm.push (add32 w.ip 4) w)) {
            ip = add32 w.ip (add32 4 (aligned_len len));
          }))
unfolding run_s_quote
run_s_quote_at read m w len e reads =
    let w₁ = Vm.push (add32 w.ip 4) w in
    let w₂ = Vm.push len w₁ in
    let same : w₂.ip ≡ w.ip = ip-push len w₁ ∙ ip-push (add32 w.ip 4) w in
    rw
      (
        run_s_quote,
        ◌>>◌,
        ◌>>=◌,
        get_vm_at m e,
        reads,
        push_at m e (add32 w.ip 4),
        push_at (with_vm m w₁) refl len,
        get_vm_at (with_vm m w₂) refl,
      )
      (set_ip_at (with_vm m w₂) refl (add32 w₂.ip (add32 4 (aligned_len len))))
    ∙ ap (λ p. ok tt (with_vm m (record w₂ { ip = add32 p (add32 4 (aligned_len len)) }))) same

s_quote-run_s_quote :
    (read : ℕ → Action ℕ) (m : Machine) (w : Vm)
    → m.current_forth_vm ≡ some w
    → w.state ≡ ForthState.runtime
    → forth_dual_s_quote read m ≡ run_s_quote read m
unfolding forth_dual_s_quote
s_quote-run_s_quote read m w e running = if_vm_at m e _ ∙ (rw (◌>>=◌, get_vm_at m e, running) refl)

set_parse_line_ptr_at :
    (m : Machine) (v : Vm) (p : List ℕ)
    → m.current_forth_vm ≡ some v
    → set_parse_line_ptr p m ≡ ok tt (with_vm m (record v { parse_line_ptr = p }))
unfolding set_parse_line_ptr set_vm
set_parse_line_ptr_at m v p e = rw (set_parse_line_ptr, ◌>>=◌, get_vm_at m e)

s_quote-compile_string :
    (read : ℕ → Action ℕ) (m : Machine) (v : Vm)
    → m.current_forth_vm ≡ some v
    → v.state ≡ ForthState.compile
    → forth_dual_s_quote read m
      ≡ compile_string xt_s_quote
          (parse_quoted v.parse_line_ptr).0
          (with_vm m (record v { parse_line_ptr = (parse_quoted v.parse_line_ptr).1 }))
unfolding forth_dual_s_quote
s_quote-compile_string read m v e compiling =
    let (s, rest) = parse_quoted v.parse_line_ptr in
    let to_branch : forth_dual_s_quote read m
        ≡ (set_parse_line_ptr rest >> compile_string xt_s_quote s) m =
      if_vm_at m e _ ∙ (rw (◌>>=◌, get_vm_at m e, compiling) refl) in
    to_branch ∙ (rw (◌>>◌, ◌>>=◌, set_parse_line_ptr_at m v rest e) refl)

-- The address of the text, and the cell behind it, from the cell of the length on.
text_at :
    (ip p len : ℕ)
    → ip ≡ p + 4
    → p + 264 ≤ ext_spi_ram_base + ext_spi_ram_size
    → len ≤ max_string_len
    → (add32 ip 4 ≡ p + 8) × (add32 ip (add32 4 (aligned_len len)) ≡ p + 8 + (len + 3) / 4 * 4)
unfolding aligned_len
text_at ip p len at high short = (omega (arith, at, high), omega (arith, at, high, short))

-- The context `w` after S" has run: the address and the length of the text are pushed, and the instruction
-- pointer is at `end`.
abbrev pub with_text : Vm → ℕ → ℕ → ℕ → Vm
with_text w addr len end = record (Vm.push len (Vm.push addr w)) { ip = end }

-- In compiling mode, with 264 bytes of space at the frontier, S" lays down its token, the length of
-- the text that it reads from the line and the text, and moves the frontier behind them, on a
-- multiple of 4. When S" is then run from threaded code with its instruction pointer behind the token,
-- and hw_spi_ram_read32 reads the cell there, it pushes the address and then the length of the text and
-- comes to that frontier, and the bytes there are the text.
pub s_quote-compiled :
    (read : ℕ → Action ℕ) (m : Machine) (v w : Vm)
    → ((a : ℕ) (m₁ : Machine) → is_word a ≡ true → read a m₁ ≡ ok (load m₁.bus a) m₁)
    → m.current_forth_vm ≡ some v
    → v.state ≡ ForthState.compile
    → HasSpace v.dict_free_ptr 264
    → w.state ≡ ForthState.runtime
    → w.ip ≡ v.dict_free_ptr + 4
    → let (s, rest) = parse_quoted v.parse_line_ptr in
      let text = v.dict_free_ptr + 8 in
      let end = text + (length s + 3) / 4 * 4 in
      (m' : Machine) × (forth_dual_s_quote read m ≡ ok tt m')
      × (m'.current_forth_vm ≡ some (record v { parse_line_ptr = rest; dict_free_ptr = end }))
      × (load m'.bus v.dict_free_ptr ≡ xt_s_quote)
      × (forth_dual_s_quote read (with_vm m' w)
          ≡ ok tt (with_vm m' (with_text w text (length s) end)))
      × (hw_spi_ram_read_buf text (length s) (with_vm m' w) ≡ ok s (with_vm m' w))
s_quote-compiled read m v w reads running compiling h runtime at =
    let (s, rest) = parse_quoted v.parse_line_ptr in
    let text = v.dict_free_ptr + 8 in
    let end = text + (length s + 3) / 4 * 4 in
    let short = parse_quoted-length v.parse_line_ptr in
    let v₁ : Vm = record v { parse_line_ptr = rest } in
    let m₁ = with_vm m v₁ in
    let b' = string_bus m₁ v₁ s refl h short in
    let m' = with_vm (with_bus m₁ b') (record v₁ { dict_free_ptr = end_at m₁ v₁ s refl h short }) in
    let len : load b' w.ip ≡ length s = rw at (string_bus-length m₁ v₁ s refl h short) in
    let cell : is_word w.ip ≡ true = rw at (length_word m₁ v₁ s refl h short) in
    let (address, step) = text_at w.ip v.dict_free_ptr (length s) at h.high short in
    (
      m',
      s_quote-compile_string read m v running compiling ∙ compile_string_at m₁ v₁ s refl h short,
      refl,
      string_bus-token m₁ v₁ s refl h short,
      s_quote-run_s_quote read (with_vm m' w) w refl runtime
          ∙ run_s_quote_at read (with_vm m' w) w (length s) refl
              (reads w.ip (with_vm m' w) cell ∙ ap (λ n. ok n (with_vm m' w)) len)
          ∙ ap
              (λ a. ok tt (
                with_vm m'
                  (with_text w a (length s) (add32 w.ip (add32 4 (aligned_len (length s)))))))
              address
          ∙ ap (λ p. ok tt (with_vm m' (with_text w text (length s) p))) step,
      read_string m₁ v₁ s refl h short w,
    )
