-- ===== src/Widths/Streams.antt =====
-- The words of files.
use u_forth.Prelude.{
  ℕ, zero, suc, ◌+◌, ◌-◌, ◌≤◌, ◌≡◌, refl, inl, inr, Bool-cases, arith, ◌==◌, ltb, if◌then◌else◌,
  Option, none, some, List, [], ◌∷◌, length,
}
use u_forth.Machine.{
  Files, pure, branch, ◌>>◌, forth_push, forth_pop, forth_abort, hw_spi_ram_read_buf,
  hw_spi_ram_write_buf, Action, ◌>>=◌,
}
use u_forth.Outside.{Outside}
use u_forth.Files.{
  get_files, set_files, set_slot, c_string, close_slot, close_slots, purge_sys_file_table,
  find_slot, read_name, open_named, open_file, forth_primitive_f_open, forth_primitive_f_create,
  stream_of, limited, forth_primitive_f_write, forth_primitive_f_read, close_handle,
  forth_primitive_f_close, count_bits,
}
use u_forth.Widths.{IsWord, AreBytes, Keeps, KeepsFit}
use u_forth.Widths.Rules.{Keeps->>=, Keeps->>, Keeps-branch, Keeps-if_vm, Keeps-by_option}
use u_forth.Widths.Access.{Keeps-forth_pop, Keeps-forth_push}
use u_forth.Widths.Blocks.{
  widths, get_vm_then, word_then, bytes_then, hw_read8_then, mod-IsWord, Keeps-if_running,
}
use u_forth.Widths.Calls.{CallsFit}

abbrev pub FilesFit : Files → Type 0
FilesFit files = IsWord files.file_stack_ptr

pub Keeps-set_files : (files : Files) → FilesFit files → KeepsFit (set_files files)
Keeps-set_files files w = record {
  at = λ m h. (
    tt,
    record { bus = h.bus; vm = h.vm; cells = h.cells; chunks = h.chunks; file_stack_ptr = w },
  );
}

pub get_files_then :
    {B : Type 0} {Q : B → Type 0} (next : Files → Action B)
    → ((files : Files) → FilesFit files → Keeps Q (next files))
    → Keeps Q (get_files >>= next)
get_files_then next k =
    Keeps->>= {P = FilesFit} get_files next (record { at = λ m h. (h.file_stack_ptr, h) }) k

pub ruleset file_rules = (get_files_then, Keeps-set_files, widths)

c_string-AreBytes : (s : List ℕ) → AreBytes s → AreBytes (c_string s)
unfolding c_string AreBytes
c_string-AreBytes [] h = tt
c_string-AreBytes (c ∷ s) (b, h) = elim (Bool-cases (c == 0)) [
  | inl e ↦ rw e tt
  | inr e ↦ rw e (b, c_string-AreBytes s h)
]

Keeps-read_name : (name_addr name_len : ℕ) → Keeps AreBytes (read_name name_addr name_len)
unfolding read_name
Keeps-read_name name_addr name_len = search (widths, c_string-AreBytes)

find_slot-IsWord :
    (left i : ℕ) (table : ℕ → Option ℕ) → i + left ≤ 8 → IsWord (find_slot left i table)
unfolding find_slot IsWord
find_slot-IsWord zero i table le = omega arith
find_slot-IsWord (suc left) i table le = ground (arith, find_slot-IsWord left (i + 1) table)

slot-IsWord : (table : ℕ → Option ℕ) → IsWord (find_slot 4 0 table)
slot-IsWord table = find_slot-IsWord 4 0 table (omega arith)

Keeps-open_named :
    (fopen : List ℕ → Option ℕ) (filename : List ℕ) → KeepsFit (open_named fopen filename)
unfolding open_named
Keeps-open_named fopen filename = get_files_then _ λ files h.
    let slot_idx = find_slot 4 0 files.sys_file_table in
    let w : IsWord slot_idx = slot-IsWord files.sys_file_table in
    Keeps-branch (slot_idx == 0) (forth_push 0) _ (search widths) (
      Keeps-by_option (fopen filename) (forth_push 0)
        (λ f.
          set_files (record files {
            sys_file_table = set_slot files.sys_file_table (slot_idx - 1) (some f);
          })
          >> forth_push slot_idx)
        (search widths)
        λ f _. Keeps->> (set_files _) _ (Keeps-set_files _ h) λ _. Keeps-forth_push slot_idx w)

Keeps-open_file : (fopen : List ℕ → Option ℕ) → KeepsFit (open_file fopen)
unfolding open_file
Keeps-open_file fopen = search (widths, Keeps-read_name, Keeps-open_named) depth 14

pub Keeps-forth_primitive_f_open : (o : Outside) → KeepsFit (forth_primitive_f_open o)
unfolding forth_primitive_f_open
Keeps-forth_primitive_f_open o = Keeps-open_file _

pub Keeps-forth_primitive_f_create : (o : Outside) → KeepsFit (forth_primitive_f_create o)
unfolding forth_primitive_f_create
Keeps-forth_primitive_f_create o = Keeps-open_file _

-- The parts of F-WRITE and F-READ behind the values that they pop, with a stream.
Keeps-write_to :
    (o : Outside) (f buf_addr n : ℕ)
    → KeepsFit (
        hw_spi_ram_read_buf buf_addr n >>= λ bytes.
        branch (ltb (o.fwrite f bytes) n) forth_abort (pure tt))
Keeps-write_to o f buf_addr n = search widths

Keeps-read_from :
    (dest_buf_addr : ℕ) (bytes : List ℕ)
    → AreBytes bytes
    → IsWord (length bytes)
    → KeepsFit (
        branch (length bytes == 0) (pure tt) (hw_spi_ram_write_buf dest_buf_addr bytes)
        >> forth_push (length bytes))
Keeps-read_from dest_buf_addr bytes h w = search widths

pub Keeps-forth_primitive_f_write : (o : Outside) → KeepsFit (forth_primitive_f_write o)
unfolding forth_primitive_f_write
Keeps-forth_primitive_f_write o = Keeps-if_vm _ (
    word_then forth_pop _ Keeps-forth_pop λ slot_id _.
      word_then forth_pop _ Keeps-forth_pop λ buf_len _.
        word_then forth_pop _ Keeps-forth_pop λ buf_addr _. Keeps-if_running _ (
          get_files_then _ λ files h.
            Keeps-by_option (stream_of slot_id files) forth_abort
              (λ f. hw_spi_ram_read_buf buf_addr (limited buf_len) >>= λ bytes.
                branch (ltb (o.fwrite f bytes) (limited buf_len)) forth_abort (pure tt))
              (search widths) λ f _. Keeps-write_to o f buf_addr (limited buf_len)))

close_slot-stack :
    (i : ℕ) (files : Files) → (close_slot i files).file_stack_ptr ≡ files.file_stack_ptr
unfolding close_slot
close_slot-stack i files = by_slot (files.sys_file_table i)
  where
    by_slot :
        (o : Option ℕ)
        → (elim o as (λ _. Files) [
          | none ↦ files
          | some f ↦ record files {
            sys_file_table = λ k. if k == i then none else files.sys_file_table k;
            closed = f ∷ files.closed;
          }
        ]).file_stack_ptr
          ≡ files.file_stack_ptr
    by_slot none = refl
    by_slot (some f) = refl

close_slot-FilesFit : (i : ℕ) (files : Files) → FilesFit files → FilesFit (close_slot i files)
close_slot-FilesFit i files w = rw (close_slot-stack i files) w

close_slots-FilesFit :
    (left i : ℕ) (files : Files) → FilesFit files → FilesFit (close_slots left i files)
unfolding close_slots
close_slots-FilesFit zero i files w = w
close_slots-FilesFit (suc left) i files w =
    close_slots-FilesFit left (i + 1) (close_slot i files) (close_slot-FilesFit i files w)

pub purge_sys_file_table-FilesFit :
    (files : Files) → FilesFit files → FilesFit (purge_sys_file_table files)
unfolding purge_sys_file_table
purge_sys_file_table-FilesFit = close_slots-FilesFit 4 0

Keeps-close_handle : (slot_id : ℕ) → KeepsFit (close_handle slot_id)
unfolding close_handle
Keeps-close_handle slot_id = get_files_then _ λ files h.
    Keeps-by_option (stream_of slot_id files) (pure tt)
      (λ f. set_files (close_slot (slot_id - 1) files)) (search widths)
      λ f _. Keeps-set_files _ (close_slot-FilesFit _ files h)

pub Keeps-forth_primitive_f_close : KeepsFit forth_primitive_f_close
unfolding forth_primitive_f_close
Keeps-forth_primitive_f_close = search (widths, Keeps-close_handle) depth 10

limited-le : (n : ℕ) → limited n ≤ 255
unfolding limited
limited-le n = ground arith

count_bits-le : (left bit_idx b : ℕ) → count_bits left bit_idx b ≤ left
unfolding count_bits
count_bits-le zero bit_idx b = omega arith
count_bits-le (suc left) bit_idx b = ground (arith, count_bits-le left (bit_idx + 1) b)

module _ (o : Outside) (calls : CallsFit o) where
  fread-length : (f n : ℕ) → IsWord (length (o.fread f (limited n)))
  unfolding IsWord
  fread-length f n = omega (arith, (calls.fread f (limited n)).1, limited-le n)

  pub Keeps-forth_primitive_f_read : KeepsFit (forth_primitive_f_read o)
  unfolding forth_primitive_f_read
  Keeps-forth_primitive_f_read = Keeps-if_vm _ (
      word_then forth_pop _ Keeps-forth_pop λ slot_id _.
        word_then forth_pop _ Keeps-forth_pop λ max_bytes _.
          word_then forth_pop _ Keeps-forth_pop λ dest_buf_addr _. Keeps-if_running _ (
            get_files_then _ λ files h.
              Keeps-by_option (stream_of slot_id files) (forth_push 0)
                (λ f.
                  let bytes = o.fread f (limited max_bytes) in
                  branch (length bytes == 0) (pure tt) (hw_spi_ram_write_buf dest_buf_addr bytes)
                  >> forth_push (length bytes))
                (search widths)
                λ f _.
                  Keeps-read_from dest_buf_addr _ (calls.fread f (limited max_bytes)).0
                    (fread-length f max_bytes)))
