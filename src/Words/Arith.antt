-- ===== src/Words/Arith.antt =====
-- The arithmetic, the bit operations and the comparisons. A value is the bit pattern of a 32-bit
-- word; a signed sum that overflows wraps, as it does in two's complement.
use Prim.Native.Nat.{bit_and, bit_or, bit_xor}
use u_forth.Prelude.{ℕ, ◌+◌, ◌-◌, ◌*◌, ◌/◌, ◌%◌, ◌^◌, Bool, not, ltb, leb, ◌==◌, if◌then◌else◌}
use u_forth.Prelude.Int.{ℤ, pos, negsuc, ltb_ℤ}
use u_forth.Machine.{Action}
use u_forth.Words.{unary, binary, guarded_unary, guarded_binary}

abbrev pub add32 : ℕ → ℕ → ℕ
add32 a b = (a + b) % 2 ^ 32

abbrev pub sub32 : ℕ → ℕ → ℕ
sub32 a b = (a + 2 ^ 32 - b) % 2 ^ 32

abbrev pub mul32 : ℕ → ℕ → ℕ
mul32 a b = a * b % 2 ^ 32

-- The number that the bit pattern of an `int32_t` stands for.
abbrev pub signed32 : ℕ → ℤ
signed32 w = if ltb w (2 ^ 31) then pos w else negsuc (2 ^ 32 - w - 1)

-- `-1` and `0` as words.
abbrev pub flag : Bool → ℕ
flag b = if b then 0xFFFFFFFF else 0

unfoldable pub forth_add : Action (Unit {0})
forth_add = binary add32

unfoldable pub forth_sub : Action (Unit {0})
forth_sub = binary sub32

unfoldable pub forth_mul : Action (Unit {0})
forth_mul = binary mul32

unfoldable pub forth_primitive_and : Action (Unit {0})
forth_primitive_and = guarded_binary bit_and

unfoldable pub forth_primitive_or : Action (Unit {0})
forth_primitive_or = guarded_binary bit_or

unfoldable pub forth_primitive_xor : Action (Unit {0})
forth_primitive_xor = guarded_binary bit_xor

-- `~a` in 32 bits
abbrev pub not32 : ℕ → ℕ
not32 a = 0xFFFFFFFF - a

unfoldable pub forth_primitive_invert : Action (Unit {0})
forth_primitive_invert = guarded_unary not32

unfoldable pub lshift : ℕ → ℕ → ℕ
lshift val shift_count = if leb 32 shift_count then 0 else val * 2 ^ shift_count % 2 ^ 32

unfoldable pub rshift : ℕ → ℕ → ℕ
rshift val shift_count = if leb 32 shift_count then 0 else val / 2 ^ shift_count

unfoldable pub forth_primitive_lshift : Action (Unit {0})
forth_primitive_lshift = guarded_binary lshift

unfoldable pub forth_primitive_rshift : Action (Unit {0})
forth_primitive_rshift = guarded_binary rshift

-- `>>` of a negative `int32_t` copies the sign bit.
abbrev pub shift_signed : ℕ → ℕ → ℕ
shift_signed w k = if ltb w (2 ^ 31) then w / 2 ^ k else 0xFFFFFFFF - (0xFFFFFFFF - w) / 2 ^ k

-- `signed_val`: the sign of a byte or of a 16-bit word is extended. `(val & 0xFFFFFF00) == 0` is
-- `val < 0x100`, and `val & 0x80` at such a value is `0x80 <= val`.
unfoldable pub signed_val : ℕ → ℕ
signed_val val =
    if ltb val 0x100
    then if leb 0x80 val then val + 0xFFFFFF00 else val
    else if ltb val 0x10000
    then if leb 0x8000 val then val + 0xFFFF0000 else val
    else val

unfoldable pub arshift : ℕ → ℕ → ℕ
unfolding signed_val
arshift val shift_count =
    if leb 32 shift_count
    then if leb 0x80000000 val then 0xFFFFFFFF else 0
    else shift_signed (signed_val val) shift_count

unfoldable pub forth_primitive_arshift : Action (Unit {0})
forth_primitive_arshift = guarded_binary arshift

unfoldable pub forth_0equal : Action (Unit {0})
forth_0equal = unary λ a. flag (a == 0)

unfoldable pub forth_equal : Action (Unit {0})
forth_equal = binary λ a b. flag (a == b)

unfoldable pub forth_not_equal : Action (Unit {0})
forth_not_equal = binary λ a b. flag (not (a == b))

abbrev pub less_than : ℕ → ℕ → ℕ
less_than a b = flag (ltb_ℤ (signed32 a) (signed32 b))

abbrev pub greater_than : ℕ → ℕ → ℕ
greater_than a b = flag (ltb_ℤ (signed32 b) (signed32 a))

unfoldable pub forth_less_than : Action (Unit {0})
forth_less_than = binary less_than

unfoldable pub forth_greater_than : Action (Unit {0})
forth_greater_than = binary greater_than
