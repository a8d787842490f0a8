-- ===== src/Widths/Debug.antt =====
-- The exports of forth_debug.c leave everything as it was.
use u_forth.Prelude.{ℕ, zero, suc, ◌+◌}
use u_forth.Machine.{Action, Run, ok, stop, get_vm, ◌>>=◌, hw_read8, hw_read32}
use u_forth.Debug.{
  read_bytes, cell_rows, is_in_chain, chunk_rows, heap_rows, forth_export_memory_csv,
  forth_cmd_mem_dump, word_row, word_rows, forth_export_runtime_snapshot_csv,
}
use u_forth.Widths.{IsWord, IsByte, VmFits, EndsFit, Keeps, KeepsFit}
use u_forth.Widths.Rules.{Keeps->>=, Keeps-pure, Keeps-fail, Keeps-branch, Keeps-get_vm}
use u_forth.Widths.Access.{Keeps-hw_read8, Keeps-hw_read32}

weaken : {A : Type 0} (P : A → Type 0) (act : Action A) → Keeps P act → KeepsFit act
weaken P act k = record { at = λ m h. by_run P (act m) (k.at m h) }
  where
    by_run : {A : Type 0} (P : A → Type 0) (r : Run A) → EndsFit P r → EndsFit (λ _. Unit {0}) r
    by_run P (ok a m) (p, h) = (tt, h)
    by_run P (stop s) h = tt

pub result_then :
    {A B : Type 0} (act : Action A) (next : A → Action B)
    → KeepsFit act
    → ((a : A) → KeepsFit (next a))
    → KeepsFit (act >>= next)
result_then act next h k = Keeps->>= act next h (λ a _. k a)

read8-KeepsFit : (addr : ℕ) → KeepsFit (hw_read8 addr)
read8-KeepsFit addr = weaken IsByte _ (Keeps-hw_read8 addr)

read32-KeepsFit : (addr : ℕ) → KeepsFit (hw_read32 addr)
read32-KeepsFit addr = weaken IsWord _ (Keeps-hw_read32 addr)

vm-KeepsFit : KeepsFit get_vm
vm-KeepsFit = weaken VmFits _ Keeps-get_vm

ruleset reads = (
  result_then, Keeps-pure, Keeps-fail, Keeps-branch, read8-KeepsFit, read32-KeepsFit, vm-KeepsFit,
)

Keeps-read_bytes : (left addr : ℕ) → KeepsFit (read_bytes left addr)
unfolding read_bytes
Keeps-read_bytes zero addr = search reads
Keeps-read_bytes (suc left) addr =
    let rest = Keeps-read_bytes left (addr + 1) in search reads depth 8

Keeps-cell_rows : (left cell_idx : ℕ) → KeepsFit (cell_rows left cell_idx)
unfolding cell_rows
Keeps-cell_rows zero cell_idx = record { at = λ m h. (tt, h) }
Keeps-cell_rows (suc left) cell_idx = record {
  at = λ m h.
      let rest = Keeps-cell_rows left (cell_idx + 1) in
      (result_then (hw_read32 _) _ (search reads)
          (λ content. search (reads, Keeps-read_bytes) depth 8)).at
        m h;
}

Keeps-is_in_chain : (fuel chunk_addr curr : ℕ) → KeepsFit (is_in_chain fuel chunk_addr curr)
unfolding is_in_chain
Keeps-is_in_chain zero chunk_addr curr = search reads
Keeps-is_in_chain (suc fuel) chunk_addr curr =
    let rest = λ (a : ℕ). Keeps-is_in_chain fuel chunk_addr a in search (reads, rest) depth 10

Keeps-chunk_rows : (fuel left i : ℕ) → KeepsFit (chunk_rows fuel left i)
unfolding chunk_rows
Keeps-chunk_rows fuel zero i = record { at = λ m h. (tt, h) }
Keeps-chunk_rows fuel (suc left) i = record {
  at = λ m h.
      let rest = Keeps-chunk_rows fuel left (i + 1) in
      (result_then (is_in_chain fuel _ _) _ (Keeps-is_in_chain fuel _ _)
          λ is_free. search (reads, Keeps-read_bytes) depth 10).at
        m h;
}

Keeps-heap_rows : (fuel heap_curr : ℕ) → KeepsFit (heap_rows fuel heap_curr)
unfolding heap_rows
Keeps-heap_rows zero heap_curr = search reads
Keeps-heap_rows (suc fuel) heap_curr =
    let rest = λ (a : ℕ). Keeps-heap_rows fuel a in search (reads, rest) depth 10

pub Keeps-forth_export_memory_csv : (fuel : ℕ) → KeepsFit (forth_export_memory_csv fuel)
unfolding forth_export_memory_csv
Keeps-forth_export_memory_csv fuel =
    search (reads, Keeps-cell_rows, Keeps-chunk_rows, Keeps-heap_rows) depth 8

pub Keeps-forth_cmd_mem_dump : (fuel : ℕ) → KeepsFit (forth_cmd_mem_dump fuel)
unfolding forth_cmd_mem_dump
Keeps-forth_cmd_mem_dump fuel = search (reads, Keeps-forth_export_memory_csv)

Keeps-word_row : (curr_word : ℕ) → KeepsFit (word_row curr_word)
unfolding word_row
Keeps-word_row curr_word = search (reads, Keeps-read_bytes) depth 10

Keeps-word_rows : (fuel curr_word : ℕ) → KeepsFit (word_rows fuel curr_word)
unfolding word_rows
Keeps-word_rows zero curr_word = search reads
Keeps-word_rows (suc fuel) curr_word =
    let rest = λ (a : ℕ). Keeps-word_rows fuel a in search (reads, Keeps-word_row, rest) depth 10

pub Keeps-forth_export_runtime_snapshot_csv :
    (fuel : ℕ) → KeepsFit (forth_export_runtime_snapshot_csv fuel)
unfolding forth_export_runtime_snapshot_csv
Keeps-forth_export_runtime_snapshot_csv fuel = search (reads, Keeps-word_rows) depth 8
