-- ===== src/Debug/Header.antt =====
-- The rows of the export on the dictionary, against the header that dict_add_word writes.
use u_forth.Prelude.{
  ℕ, ◌+◌, ◌*◌, ◌/◌, ◌%◌, ◌^◌, ◌<◌, ◌≡◌, ◌∙◌, refl, ap, true, false, leb, some, List, [], ◌∷◌,
  length, arith,
}
use u_forth.Bus.{Bus, in_ext_spi_ram, ext_spi_ram_base, ext_spi_ram_size, ring_addr}
use u_forth.Bus.Access.{is_byte, is_word, load, store, peek, poke}
use u_forth.Bus.Words.{load-store_self}
use u_forth.Bus.Bytes.{peek-poke}
use u_forth.Bus.Buffers.{poke_from, write_buf_from-poke_from}
use u_forth.Vm.{Vm}
use u_forth.Machine.{Machine, ok, ◌>>=◌, ◌>>◌, hw_read8, hw_read32, hw_spi_ram_write_buf, set_vm}
use u_forth.Machine.Laws.{with_bus, read8_at, write8_at, read32_at, write32_at, get_vm_at, if_vm_at}
use u_forth.Words.Arith.{add32}
use u_forth.Compiler.Layout.{HasSpace}
use u_forth.Strings.{max_word_len, take_chars, dict_add_word}
use u_forth.Strings.Compile.{load-poke, load-poke_from}
use u_forth.Debug.{read_bytes, WordRow, word_row}
use u_forth.Debug.Bytes.{Inside, peek-poke_from_before, read_bytes-Inside, read_bytes-poke_from}

take_all : (name : List ℕ) → take_chars (length name) name ≡ name
unfolding take_chars
take_all [] = refl
take_all (c ∷ name) = ap (λ s. c ∷ s) (take_all name)

module _ (m : Machine) (v : Vm) (name : List ℕ) (running : m.current_forth_vm ≡ some v)
    (h : HasSpace v.dict_free_ptr 64) (short : length name < 32) where
  abbrev header_at : ℕ
  header_at = v.dict_free_ptr

  abbrev link_bus : Bus
  link_bus = store m.bus header_at v.latest_word

  abbrev length_bus : Bus
  length_bus = poke link_bus (header_at + 4) (length name)

  abbrev named_bus : Bus
  named_bus = poke_from (header_at + 5) 0 name length_bus

  abbrev body_at : ℕ
  body_at = (header_at + 5 + length name + 3) / 4 * 4

  abbrev with_word : Machine
  with_word = record m {
    bus = named_bus;
    current_forth_vm = some (record v { latest_word = header_at; dict_free_ptr = body_at });
  }

  link-is_word : is_word header_at ≡ true
  link-is_word = ground (arith, h.low, h.high, h.aligned)

  length-is_byte : is_byte (header_at + 4) ≡ true
  length-is_byte = ground (arith, h.low, h.high, h.aligned)

  name-Inside : Inside (header_at + 5) (0 + length name)
  name-Inside = (omega (arith, h.low), omega (arith, h.high))

  write_name :
      (m' : Machine)
      → m'.bus ≡ length_bus
      → hw_spi_ram_write_buf (header_at + 5) name m' ≡ ok tt (with_bus m' named_bus)
  unfolding hw_spi_ram_write_buf u_forth.Bus.hw_spi_ram_write_buf
  write_name m' e =
      let inside : in_ext_spi_ram (header_at + 5) ≡ true = ground (arith, h.low, h.high) in
      rw
        (
          hw_spi_ram_write_buf,
          e,
          write_buf_from-poke_from (header_at + 5) inside 0 name length_bus (omega arith),
        )
        refl

  dict_add_word_at : dict_add_word name m ≡ ok tt with_word
  unfolding dict_add_word set_vm
  dict_add_word_at =
      let m₁ = with_bus m link_bus in
      let m₂ = with_bus m length_bus in
      let m₃ = with_bus m named_bus in
      let four : add32 header_at 4 ≡ header_at + 4 = omega (arith, h.high) in
      let five : add32 header_at 5 ≡ header_at + 5 = omega (arith, h.high) in
      let behind : add32 (header_at + 5) (length name) ≡ header_at + 5 + length name =
        omega (arith, h.high) in
      let rounded : add32 (header_at + 5 + length name) 3 ≡ header_at + 5 + length name + 3 =
        omega (arith, h.high) in
      let fits : leb (max_word_len + 1) (length name) ≡ false = ground arith in
      if_vm_at m running _
      ∙ (rw
          (
            ◌>>◌,
            ◌>>=◌,
            get_vm_at m running,
            write32_at header_at m v.latest_word link-is_word,
            four,
            fits,
            write8_at (header_at + 4) m₁ (length name) length-is_byte,
            five,
            fits,
            take_all name,
            write_name m₂ refl,
            get_vm_at m₃ running,
            five,
            fits,
            behind,
            rounded,
          )
          refl)

  read_link : v.latest_word < 2 ^ 32 → load named_bus header_at ≡ v.latest_word
  read_link lt =
      load-poke_from (header_at + 5) 0 name length_bus header_at link-is_word (omega arith)
        (omega (arith, h.low)) (omega (arith, h.high))
      ∙ load-poke link_bus header_at (header_at + 4) (length name) link-is_word length-is_byte
          (omega arith)
      ∙ load-store_self m.bus header_at v.latest_word lt

  read_length : peek named_bus (header_at + 4) ≡ length name
  read_length =
      peek-poke_from_before (header_at + 5) 0 name length_bus (header_at + 4) length-is_byte
        (omega arith) name-Inside
      ∙ ground (
        arith,
        peek-poke link_bus (header_at + 4) (header_at + 4) (length name) length-is_byte
            length-is_byte,
      )

  body-Inside : Inside body_at 16
  body-Inside = (omega (arith, h.low), omega (arith, h.high))

  read_row :
      v.latest_word < 2 ^ 32
      → (row : WordRow) × (word_row header_at with_word ≡ ok row with_word)
        × (row.prev_word_ptr ≡ v.latest_word)
        × (row.is_immediate ≡ false)
        × (row.name ≡ name)
        × (row.body_addr ≡ body_at)
  unfolding word_row
  read_row lt =
      let four : add32 header_at 4 ≡ header_at + 4 = omega (arith, h.high) in
      let five : add32 header_at 5 ≡ header_at + 5 = omega (arith, h.high) in
      let masked : length name % 32 ≡ length name = omega arith in
      let start : header_at + 5 + 0 ≡ header_at + 5 = omega arith in
      let behind : add32 (header_at + 5) (length name + 3) / 4 * 4 ≡ body_at =
        omega (arith, h.high) in
      let (body, read) = read_bytes-Inside 16 body_at with_word body-Inside in
      let chars : read_bytes (length name) (header_at + 5) with_word ≡ ok name with_word =
        rw start at
          (read_bytes-poke_from (header_at + 5) 0 name length_bus with_word name-Inside) in
      let link : hw_read32 header_at with_word ≡ ok v.latest_word with_word =
        read32_at header_at with_word link-is_word ∙ ap (λ x. ok x with_word) (read_link lt) in
      let byte : hw_read8 (header_at + 4) with_word ≡ ok (length name) with_word =
        read8_at (header_at + 4) with_word length-is_byte ∙ ap (λ x. ok x with_word) read_length in
      let plain : leb 128 (length name) ≡ false = ground arith in
      (
        record {
          curr_word = header_at;
          prev_word_ptr = v.latest_word;
          flags_len = length name;
          is_immediate = false;
          name = name;
          body_addr = body_at;
          body = body;
        },
        rw
            (
              word_row, ◌>>=◌, link, four, byte, five, masked, chars, five, masked, behind, read,
              plain, five, masked, behind,
            )
            refl,
        refl,
        refl,
        refl,
        refl,
      )

-- A word whose name has fewer than 32 characters, added where 64 bytes of the SPI-RAM are free, is shown
-- by the export with its name, the word before it, as no immediate word, and with the address of its
-- body where the compiler goes on.
pub dict_add_word-word_row :
    (m : Machine) (v : Vm) (name : List ℕ)
    → m.current_forth_vm ≡ some v
    → HasSpace v.dict_free_ptr 64
    → length name < 32
    → v.latest_word < 2 ^ 32
    → (m' : Machine) × (w : Vm) × (row : WordRow) × (dict_add_word name m ≡ ok tt m')
      × (m'.current_forth_vm ≡ some w)
      × (word_row w.latest_word m' ≡ ok row m')
      × (row.prev_word_ptr ≡ v.latest_word)
      × (row.is_immediate ≡ false)
      × (row.name ≡ name)
      × (row.body_addr ≡ w.dict_free_ptr)
dict_add_word-word_row m v name running h short lt =
    let (row, shown, prev, plain, same, body) = read_row m v name running h short lt in
    (
      with_word m v name running h short,
      _,
      row,
      dict_add_word_at m v name running h short,
      refl,
      shown,
      prev,
      plain,
      same,
      body,
    )
