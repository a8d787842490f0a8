-- ===== src/Widths/Words.antt =====
-- The words of the stack, the arithmetic, the memory and the output.
use native.Mathlib.Nat.{div-le_self}
use u_forth.Prelude.{ℕ, zero, suc, ◌^◌, inl, inr, Bool, Bool-cases, arith, leb, List, [], ◌∷◌}
use u_forth.Words.Arith.{
  flag, not32, lshift, rshift, arshift, shift_signed, signed_val, forth_add, forth_sub, forth_mul,
  forth_primitive_and, forth_primitive_or, forth_primitive_xor, forth_primitive_invert,
  forth_primitive_lshift, forth_primitive_rshift, forth_primitive_arshift, forth_0equal,
  forth_equal, forth_not_equal, forth_less_than, forth_greater_than,
}
use u_forth.Words.Memory.{
  forth_primitive_store, forth_primitive_fetch, forth_primitive_c_store, forth_primitive_c_fetch,
  forth_primitive_to_r, forth_primitive_from_r, forth_primitive_count,
}
use u_forth.Words.Print.{
  forth_dot, forth_primitive_dot_unsigned, forth_primitive_dot_hex, forth_cr, forth_primitive_emit,
  dot_binary_bits, print_binary_width, forth_primitive_dot_binary, print_radix,
  forth_primitive_dot_formatted, print_chars, type_pieces, forth_primitive_type,
}
use u_forth.Builtins.{forth_drop, forth_dup, forth_swap, forth_over, forth_primitive_abort}
use u_forth.Widths.{IsWord, KeepsFit}
use u_forth.Widths.Stacks.{drop-VmFits, dup-VmFits, swap-VmFits, over-VmFits}
use u_forth.Widths.Rules.{Keeps-on_vm}
use u_forth.Widths.Bits.{bit_and-IsWord, bit_or-IsWord, bit_xor-IsWord}
use u_forth.Widths.Blocks.{widths}

pub Keeps-forth_drop : KeepsFit forth_drop
unfolding forth_drop
Keeps-forth_drop = Keeps-on_vm _ drop-VmFits

pub Keeps-forth_dup : KeepsFit forth_dup
unfolding forth_dup
Keeps-forth_dup = Keeps-on_vm _ dup-VmFits

pub Keeps-forth_swap : KeepsFit forth_swap
unfolding forth_swap
Keeps-forth_swap = Keeps-on_vm _ swap-VmFits

pub Keeps-forth_over : KeepsFit forth_over
unfolding forth_over
Keeps-forth_over = Keeps-on_vm _ over-VmFits

flag-IsWord : (b : Bool) → IsWord (flag b)
unfolding IsWord
flag-IsWord b = ground arith

not32-IsWord : (a : ℕ) → IsWord (not32 a)
unfolding IsWord
not32-IsWord a = omega arith

lshift-IsWord : (a k : ℕ) → IsWord (lshift a k)
unfolding lshift IsWord
lshift-IsWord a k = ground arith

rshift-IsWord : (a k : ℕ) → IsWord a → IsWord (rshift a k)
unfolding rshift IsWord
rshift-IsWord a k p = ground (arith, div-le_self a (2 ^ k))

shift_signed-IsWord : (a k : ℕ) → IsWord a → IsWord (shift_signed a k)
unfolding IsWord
shift_signed-IsWord a k p = ground (arith, div-le_self a (2 ^ k))

signed_val-IsWord : (a : ℕ) → IsWord a → IsWord (signed_val a)
unfolding signed_val IsWord
signed_val-IsWord a p = ground arith

arshift-IsWord : (a k : ℕ) → IsWord a → IsWord (arshift a k)
unfolding arshift
arshift-IsWord a k p = elim (Bool-cases (leb 32 k)) [
  | inl e ↦ rw e (flag-IsWord _)
  | inr e ↦ rw e (shift_signed-IsWord (signed_val a) k (signed_val-IsWord a p))
]

ruleset results = (
  widths, flag-IsWord, not32-IsWord, lshift-IsWord, rshift-IsWord, arshift-IsWord, bit_and-IsWord,
  bit_or-IsWord, bit_xor-IsWord,
)

pub Keeps-forth_add : KeepsFit forth_add
unfolding forth_add
Keeps-forth_add = search results depth 12

pub Keeps-forth_sub : KeepsFit forth_sub
unfolding forth_sub
Keeps-forth_sub = search results depth 12

pub Keeps-forth_mul : KeepsFit forth_mul
unfolding forth_mul
Keeps-forth_mul = search results depth 12

pub Keeps-forth_primitive_and : KeepsFit forth_primitive_and
unfolding forth_primitive_and
Keeps-forth_primitive_and = search results depth 12

pub Keeps-forth_primitive_or : KeepsFit forth_primitive_or
unfolding forth_primitive_or
Keeps-forth_primitive_or = search results depth 12

pub Keeps-forth_primitive_xor : KeepsFit forth_primitive_xor
unfolding forth_primitive_xor
Keeps-forth_primitive_xor = search results depth 12

pub Keeps-forth_primitive_invert : KeepsFit forth_primitive_invert
unfolding forth_primitive_invert
Keeps-forth_primitive_invert = search results depth 12

pub Keeps-forth_primitive_lshift : KeepsFit forth_primitive_lshift
unfolding forth_primitive_lshift
Keeps-forth_primitive_lshift = search results depth 12

pub Keeps-forth_primitive_rshift : KeepsFit forth_primitive_rshift
unfolding forth_primitive_rshift
Keeps-forth_primitive_rshift = search results depth 12

pub Keeps-forth_primitive_arshift : KeepsFit forth_primitive_arshift
unfolding forth_primitive_arshift
Keeps-forth_primitive_arshift = search results depth 12

pub Keeps-forth_0equal : KeepsFit forth_0equal
unfolding forth_0equal
Keeps-forth_0equal = search results depth 12

pub Keeps-forth_equal : KeepsFit forth_equal
unfolding forth_equal
Keeps-forth_equal = search results depth 12

pub Keeps-forth_not_equal : KeepsFit forth_not_equal
unfolding forth_not_equal
Keeps-forth_not_equal = search results depth 12

pub Keeps-forth_less_than : KeepsFit forth_less_than
unfolding forth_less_than
Keeps-forth_less_than = search results depth 12

pub Keeps-forth_greater_than : KeepsFit forth_greater_than
unfolding forth_greater_than
Keeps-forth_greater_than = search results depth 12

pub Keeps-forth_primitive_store : KeepsFit forth_primitive_store
unfolding forth_primitive_store
Keeps-forth_primitive_store = search results depth 12

pub Keeps-forth_primitive_fetch : KeepsFit forth_primitive_fetch
unfolding forth_primitive_fetch
Keeps-forth_primitive_fetch = search results depth 12

pub Keeps-forth_primitive_c_store : KeepsFit forth_primitive_c_store
unfolding forth_primitive_c_store
Keeps-forth_primitive_c_store = search results depth 12

pub Keeps-forth_primitive_c_fetch : KeepsFit forth_primitive_c_fetch
unfolding forth_primitive_c_fetch
Keeps-forth_primitive_c_fetch = search results depth 12

pub Keeps-forth_primitive_to_r : KeepsFit forth_primitive_to_r
unfolding forth_primitive_to_r
Keeps-forth_primitive_to_r = search results depth 12

pub Keeps-forth_primitive_from_r : KeepsFit forth_primitive_from_r
unfolding forth_primitive_from_r
Keeps-forth_primitive_from_r = search results depth 12

pub Keeps-forth_primitive_count : KeepsFit forth_primitive_count
unfolding forth_primitive_count
Keeps-forth_primitive_count = search results depth 12

pub Keeps-forth_dot : KeepsFit forth_dot
unfolding forth_dot
Keeps-forth_dot = search results depth 12

pub Keeps-forth_primitive_dot_unsigned : KeepsFit forth_primitive_dot_unsigned
unfolding forth_primitive_dot_unsigned
Keeps-forth_primitive_dot_unsigned = search results depth 12

pub Keeps-forth_primitive_dot_hex : KeepsFit forth_primitive_dot_hex
unfolding forth_primitive_dot_hex
Keeps-forth_primitive_dot_hex = search results depth 12

pub Keeps-forth_cr : KeepsFit forth_cr
unfolding forth_cr
Keeps-forth_cr = search results depth 12

pub Keeps-forth_primitive_emit : KeepsFit forth_primitive_emit
unfolding forth_primitive_emit
Keeps-forth_primitive_emit = search results depth 12

Keeps-print_binary_width : (val i : ℕ) → KeepsFit (print_binary_width val i)
unfolding print_binary_width
Keeps-print_binary_width val zero = search widths
Keeps-print_binary_width val (suc i) = let rest = Keeps-print_binary_width val i in search widths

Keeps-dot_binary_bits : (val i : ℕ) → KeepsFit (dot_binary_bits val i)
unfolding dot_binary_bits
Keeps-dot_binary_bits val zero = search widths
Keeps-dot_binary_bits val (suc i) = let rest = Keeps-dot_binary_bits val i in search widths

pub Keeps-forth_primitive_dot_binary : KeepsFit forth_primitive_dot_binary
unfolding forth_primitive_dot_binary
Keeps-forth_primitive_dot_binary = search (widths, Keeps-dot_binary_bits) depth 12

Keeps-print_radix : (width_mode radix_mode w : ℕ) → KeepsFit (print_radix width_mode radix_mode w)
unfolding print_radix
Keeps-print_radix width_mode radix_mode w = search (widths, Keeps-print_binary_width) depth 12

pub Keeps-forth_primitive_dot_formatted : KeepsFit forth_primitive_dot_formatted
unfolding forth_primitive_dot_formatted
Keeps-forth_primitive_dot_formatted = search (widths, Keeps-print_radix) depth 12

Keeps-print_chars : (cs : List ℕ) → KeepsFit (print_chars cs)
unfolding print_chars
Keeps-print_chars [] = search widths
Keeps-print_chars (c ∷ cs) = let rest = Keeps-print_chars cs in search widths

Keeps-type_pieces : (fuel addr len : ℕ) → KeepsFit (type_pieces fuel addr len)
unfolding type_pieces
Keeps-type_pieces zero addr len = search widths
Keeps-type_pieces (suc fuel) addr len =
    let rest = λ (a n : ℕ). Keeps-type_pieces fuel a n in
    search (widths, Keeps-print_chars, rest) depth 8

pub Keeps-forth_primitive_type : KeepsFit forth_primitive_type
unfolding forth_primitive_type
Keeps-forth_primitive_type = search (widths, Keeps-type_pieces) depth 12

pub Keeps-forth_primitive_abort : KeepsFit forth_primitive_abort
unfolding forth_primitive_abort
Keeps-forth_primitive_abort = search widths
