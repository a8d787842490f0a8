-- ===== src/Widths/Pools.antt =====
-- The cells, the chunks, and their words.
use u_forth.Prelude.{
  ℕ, zero, suc, ◌+◌, ◌-◌, ◌*◌, ◌/◌, ◌%◌, ◌^◌, ◌<◌, refl, Bool, true, false, arith, ◌==◌, ltb,
  if◌then◌else◌, Option, none, some, update,
}
use u_forth.Machine.{Machine, Cells, Chunks, Action, Run, ok, pure, ◌>>=◌, hw_write32, forth_push}
use u_forth.CellPool.{
  set_bit, clear_bit, find_free_cell, take_cell, forth_cmd_fast_cell, clear_cell, free_cell_at,
  forth_cmd_fast_cell_free, is_free_bit, cell_data_base,
}
use u_forth.CellPool.Bits.{set_bit-lt, clear_bit-lt}
use u_forth.CellPool.Scan.{IsPosition, find_free_cell-FirstFree}
use u_forth.ChunkPool.{
  get_chunks, set_chunks, link_chunks, clear_words, take_chunk, forth_cmd_alloc_chunk, put_chunk,
  free_chunk_at, forth_cmd_free_chunk,
}
use u_forth.Widths.{IsWord, IsByte, CellsFit, ChunksFit, Fits, EndsFit, Keeps, KeepsFit}
use u_forth.Widths.Rules.{Keeps-branch, Keeps->>=, Keeps->>}
use u_forth.Widths.Access.{Keeps-forth_push, Keeps-hw_write32}
use u_forth.Widths.Blocks.{widths, mod-IsWord}
use u_forth.Widths.Stacks.{zero-IsWord}

Keeps-get_chunks : Keeps ChunksFit get_chunks
Keeps-get_chunks = record { at = λ m h. (h.chunks, h) }

pub Keeps-set_chunks : (c : Chunks) → ChunksFit c → KeepsFit (set_chunks c)
Keeps-set_chunks c k = record {
  at = λ m h. (
    tt,
    record {
      bus = h.bus;
      vm = h.vm;
      cells = h.cells;
      chunks = k;
      file_stack_ptr = h.file_stack_ptr;
    },
  );
}

get_chunks_then :
    (next : Chunks → Action (Unit {0}))
    → ((c : Chunks) → ChunksFit c → KeepsFit (next c))
    → KeepsFit (get_chunks >>= next)
get_chunks_then next = Keeps->>= get_chunks next Keeps-get_chunks

Keeps-clear_words : (left addr i : ℕ) → KeepsFit (clear_words left addr i)
unfolding clear_words
Keeps-clear_words zero addr i = search widths
Keeps-clear_words (suc left) addr i =
    let rest = Keeps-clear_words left addr (i + 4) in search widths

taken-ChunksFit :
    (next n : ℕ)
    → IsWord next
    → ChunksFit (record { chunk_free_list_head = next; chunk_allocated_count = (n + 1) % 2 ^ 32 })
taken-ChunksFit next n w = record { chunk_free_list_head = w; chunk_allocated_count = mod-IsWord _ }

-- A counter that stops at 0.
less-IsWord : (n : ℕ) → IsWord n → IsWord (if ltb 0 n then n - 1 else n)
unfolding IsWord
less-IsWord n w = ground arith

given_back-ChunksFit :
    (addr : ℕ) (c : Chunks)
    → IsWord addr
    → ChunksFit c
    → ChunksFit (record {
      chunk_free_list_head = addr;
      chunk_allocated_count =
          if ltb 0 c.chunk_allocated_count
          then c.chunk_allocated_count - 1
          else c.chunk_allocated_count;
    })
given_back-ChunksFit addr c w h = record {
  chunk_free_list_head = w;
  chunk_allocated_count = less-IsWord _ h.chunk_allocated_count;
}

ruleset chunk_rules = (
  widths, get_chunks_then, Keeps-set_chunks, taken-ChunksFit, given_back-ChunksFit,
  Keeps-clear_words,
)

Keeps-take_chunk : (addr : ℕ) → IsWord addr → KeepsFit (take_chunk addr)
unfolding take_chunk
Keeps-take_chunk addr w = search chunk_rules depth 12

Keeps-put_chunk : (addr : ℕ) → IsWord addr → KeepsFit (put_chunk addr)
unfolding put_chunk
Keeps-put_chunk addr w = search chunk_rules depth 12

pub Keeps-forth_cmd_alloc_chunk : KeepsFit forth_cmd_alloc_chunk
unfolding forth_cmd_alloc_chunk
Keeps-forth_cmd_alloc_chunk = record {
  at = λ m h. by_head m h (m.chunks.chunk_free_list_head == 0);
}
  where
    by_head :
        (m : Machine)
        → Fits m
        → (t : Bool)
        → EndsFit
            (λ _. Unit {0})
            (if t then ok tt m else take_chunk m.chunks.chunk_free_list_head m)
    by_head m h true = (tt, h)
    by_head m h false = (Keeps-take_chunk _ h.chunks.chunk_free_list_head).at m h

Keeps-free_chunk_at : (addr : ℕ) → IsWord addr → KeepsFit (free_chunk_at addr)
unfolding free_chunk_at
Keeps-free_chunk_at addr w =
    Keeps-branch _ (pure tt) (put_chunk addr) (search widths) (Keeps-put_chunk addr w)

pub Keeps-forth_cmd_free_chunk : KeepsFit forth_cmd_free_chunk
unfolding forth_cmd_free_chunk
Keeps-forth_cmd_free_chunk = search (widths, Keeps-free_chunk_at)

pub Keeps-link_chunks : (left i : ℕ) → KeepsFit (link_chunks left i)
unfolding link_chunks
Keeps-link_chunks zero i = search widths
Keeps-link_chunks (suc left) i = let rest = Keeps-link_chunks left (i + 1) in search widths

-- The state of the cells, and an action that goes on from another one.
pub with_cells : (m : Machine) → Fits m → {c : Cells} → CellsFit c → Fits (record m { cells = c })
with_cells m h k = record {
  bus = h.bus;
  vm = h.vm;
  cells = k;
  chunks = h.chunks;
  file_stack_ptr = h.file_stack_ptr;
}

update-IsByte :
    (f : ℕ → ℕ) (k x : ℕ) → ((i : ℕ) → IsByte (f i)) → IsByte x → (i : ℕ) → IsByte (update f k x i)
unfolding IsByte
update-IsByte f k x g p i = ground (arith, g i)

set_bit-IsByte : (byte bit : ℕ) → IsByte byte → bit < 8 → IsByte (set_bit byte bit)
unfolding IsByte
set_bit-IsByte byte bit p q = set_bit-lt p q

clear_bit-IsByte : (byte bit : ℕ) → IsByte byte → bit < 8 → IsByte (clear_bit byte bit)
unfolding IsByte
clear_bit-IsByte byte bit p q = clear_bit-lt p q

cell_addr-IsWord :
    (byte_idx bit_idx : ℕ)
    → byte_idx < 32
    → bit_idx < 8
    → IsWord (cell_data_base + (byte_idx * 8 + bit_idx) * 4)
unfolding IsWord
cell_addr-IsWord byte_idx bit_idx p q = omega arith

Keeps-take_cell :
    (byte_idx bit_idx : ℕ) → byte_idx < 32 → bit_idx < 8 → KeepsFit (take_cell byte_idx bit_idx)
unfolding take_cell
Keeps-take_cell byte_idx bit_idx p q = record {
  at = λ m h.
      (Keeps->> (hw_write32 _ 0) _ (search widths)
          (λ _. Keeps-forth_push _ (cell_addr-IsWord byte_idx bit_idx p q))).at
        _
        (with_cells m h (record {
          cell_bitmap =
              update-IsByte m.cells.cell_bitmap byte_idx _ h.cells.cell_bitmap
                (set_bit-IsByte _ bit_idx (h.cells.cell_bitmap byte_idx) q);
          cell_allocated_count = mod-IsWord _;
        }));
}

pub Keeps-forth_cmd_fast_cell : KeepsFit forth_cmd_fast_cell
unfolding forth_cmd_fast_cell
Keeps-forth_cmd_fast_cell = record {
  at = λ m h.
      by_search m h (find_free_cell 32 0 m.cells.cell_bitmap)
        (find_free_cell-FirstFree m.cells.cell_bitmap 32 0 refl).1;
}
  where
    by_search :
        (m : Machine)
        → Fits m
        → (o : Option (ℕ × ℕ)) → IsPosition o
        → EndsFit
            (λ _. Unit {0})
            (elim o as (λ _. Run (Unit {0})) [
              | none ↦ forth_push 0 m
              | some (byte_idx, bit_idx) ↦ take_cell byte_idx bit_idx m
            ])
    by_search m h none p = (Keeps-forth_push 0 zero-IsWord).at m h
    by_search m h (some (i, b)) (p, q) = (Keeps-take_cell i b p q).at m h

Keeps-clear_cell :
    (addr byte_idx bit_idx : ℕ) → bit_idx < 8 → KeepsFit (clear_cell addr byte_idx bit_idx)
unfolding clear_cell
Keeps-clear_cell addr byte_idx bit_idx q = record {
  at = λ m h. (Keeps-hw_write32 addr 0).at _ (
      with_cells m h (record {
        cell_bitmap =
            update-IsByte m.cells.cell_bitmap byte_idx _ h.cells.cell_bitmap
              (clear_bit-IsByte _ bit_idx (h.cells.cell_bitmap byte_idx) q);
        cell_allocated_count = less-IsWord _ h.cells.cell_allocated_count;
      }));
}

Keeps-free_cell_at : (addr : ℕ) → KeepsFit (free_cell_at addr)
unfolding free_cell_at
Keeps-free_cell_at addr =
    let cell_idx = (addr - cell_data_base) / 4 in
    Keeps-branch _ (pure tt) _ (search widths) (record {
      at = λ m h.
          (Keeps-branch (is_free_bit (m.cells.cell_bitmap (cell_idx / 8)) (cell_idx % 8)) (pure tt)
              _ (search widths)
              (Keeps-clear_cell addr (cell_idx / 8) (cell_idx % 8) (omega arith))).at
            m h;
    })

pub Keeps-forth_cmd_fast_cell_free : KeepsFit forth_cmd_fast_cell_free
unfolding forth_cmd_fast_cell_free
Keeps-forth_cmd_fast_cell_free = search (widths, Keeps-free_cell_at)
