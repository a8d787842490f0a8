-- ===== src/Widths/Heap.antt =====
-- The words of the heap.
use u_forth.Prelude.{ℕ, zero, suc, arith}
use u_forth.Heap.{
  take_block, find_block, forth_heap_allocate, coalesce, forth_heap_free, forth_cmd_allocate,
  forth_cmd_free, heap_init,
}
use u_forth.Widths.{IsWord, Keeps, KeepsFit}
use u_forth.Widths.Blocks.{widths}

pub Keeps-heap_init : KeepsFit heap_init
unfolding heap_init
Keeps-heap_init = search widths

Keeps-take_block :
    (curr_block required block_size next_block : ℕ)
    → Keeps IsWord (take_block curr_block required block_size next_block)
unfolding take_block
Keeps-take_block curr_block required block_size next_block = search widths depth 12

Keeps-find_block :
    (fuel required curr_block : ℕ) → Keeps IsWord (find_block fuel required curr_block)
unfolding find_block
Keeps-find_block zero required curr_block = search widths
Keeps-find_block (suc fuel) required curr_block =
    let rest = λ (a : ℕ). Keeps-find_block fuel required a in
    search (widths, Keeps-take_block, rest) depth 12

Keeps-forth_heap_allocate : (fuel size : ℕ) → Keeps IsWord (forth_heap_allocate fuel size)
unfolding forth_heap_allocate
Keeps-forth_heap_allocate fuel size = Keeps-find_block fuel _ _

Keeps-coalesce : (fuel curr_block : ℕ) → KeepsFit (coalesce fuel curr_block)
unfolding coalesce
Keeps-coalesce zero curr_block = search widths
Keeps-coalesce (suc fuel) curr_block =
    let rest = λ (a : ℕ). Keeps-coalesce fuel a in search (widths, rest) depth 14

one-IsWord : IsWord 1
unfolding IsWord
one-IsWord = omega arith

all_ones-IsWord : IsWord 0xFFFFFFFF
unfolding IsWord
all_ones-IsWord = omega arith

Keeps-forth_heap_free : (fuel addr : ℕ) → Keeps IsWord (forth_heap_free fuel addr)
unfolding forth_heap_free
Keeps-forth_heap_free fuel addr = search (widths, Keeps-coalesce, one-IsWord) depth 12

pub Keeps-forth_cmd_allocate : (fuel : ℕ) → KeepsFit (forth_cmd_allocate fuel)
unfolding forth_cmd_allocate
Keeps-forth_cmd_allocate fuel = search (widths, Keeps-forth_heap_allocate, all_ones-IsWord) depth 12

pub Keeps-forth_cmd_free : (fuel : ℕ) → KeepsFit (forth_cmd_free fuel)
unfolding forth_cmd_free
Keeps-forth_cmd_free fuel = search (widths, Keeps-forth_heap_free) depth 12
