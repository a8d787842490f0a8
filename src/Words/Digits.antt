-- ===== src/Words/Digits.antt =====
-- The digits that B. and Q. print, read back.
use u_forth.Prelude.{
  ℕ, zero, suc, ◌+◌, ◌-◌, ◌*◌, ◌/◌, ◌%◌, ◌^◌, ◌≤◌, ◌<◌, ◌≡◌, ◌∙◌, ◌⊎◌, inl, inr, some, Bool,
  Bool-cases, true, false, refl, sym, ap, arith, ◌==◌, fun_ext, if◌then◌else◌, List, [], ◌∷◌,
  length,
}
use native.Mathlib.Nat.{
  add-mul, mul_assoc, div-add-mod', mul-add-mod_self_right, mod-eq_of_lt, mod-lt, pow-suc,
}
use u_forth.Vm
use u_forth.Vm.{Vm}
use u_forth.Machine.{Action, Machine, Printed, print, ok, ◌>>=◌, ◌>>◌}
use u_forth.Machine.Laws.{with_vm, pop_at, if_vm_at}
use u_forth.Words.{if_running-runs}
use u_forth.Words.Print.{
  dot_binary_bits, forth_primitive_dot_binary, print_binary_width, print_radix, width_bits,
  forth_primitive_dot_formatted,
}

-- The number that a text of the digits 0 and 1 stands for, behind the digits read so far.
abbrev pub read_binary : ℕ → List ℕ → ℕ
read_binary acc [] = acc
read_binary acc (c ∷ cs) = read_binary (acc * 2 + (c - b'0')) cs

-- What is printed, the last print first.
abbrev pub prints : List ℕ → List Printed → List Printed
prints [] ps = ps
prints (c ∷ cs) ps = prints cs (Printed.char c ∷ ps)

bit-digit : (b : ℕ) → b < 2 → (if b == 0 then b'0' else b'1') - b'0' ≡ b
bit-digit b h = ground arith

pow-pos : (i : ℕ) → 0 < 2 ^ i
pow-pos zero = omega arith
pow-pos (suc i) = omega (arith, pow-pos i)

bit-le : (b p : ℕ) → b < 2 → b * p ≤ p
bit-le zero p h = omega arith
bit-le (suc zero) p h = omega arith
bit-le (suc (suc b)) p h = absurd (omega arith)

-- The bits below `i + 1` are the bit at `i` and the bits below `i`.
split_bit : (v p : ℕ) → 0 < p → v % (p * 2) ≡ v / p % 2 * p + v % p
split_bit v p pos =
    let q = v / p in
    let b = q % 2 in
    let h = q / 2 in
    let lt : b * p + v % p < p * 2 = omega (arith, bit-le b p (omega arith), mod-lt v pos) in
    let halves : q ≡ h * 2 + b = omega arith in
    let product : q * p ≡ h * (p * 2) + b * p =
      ap (λ x. x * p) halves
      ∙ add-mul (h * 2) b p
      ∙ ap (λ x. x + b * p) (mul_assoc h 2 p ∙ ap (λ x. h * x) (omega arith)) in
    let whole : v ≡ h * (p * 2) + (b * p + v % p) = omega (arith, div-add-mod' v p, product) in
    ap (λ x. x % (p * 2)) whole ∙ mul-add-mod_self_right h (p * 2) (b * p + v % p) ∙ mod-eq_of_lt lt

next_digit : (acc v p : ℕ) → 0 < p → (acc * 2 + v / p % 2) * p + v % p ≡ acc * (p * 2) + v % (p * 2)
next_digit acc v p pos =
    let b = v / p % 2 in
    let product : (acc * 2 + b) * p ≡ acc * (p * 2) + b * p =
      add-mul (acc * 2) b p
      ∙ ap (λ x. x + b * p) (mul_assoc acc 2 p ∙ ap (λ x. acc * x) (omega arith)) in
    omega (arith, product, split_bit v p pos)

-- The characters are digits of base 2.
abbrev pub AreBinary : List ℕ → Type 0
AreBinary [] = Unit {0}
AreBinary (c ∷ cs) = ((c ≡ b'0') ⊎ (c ≡ b'1')) × AreBinary cs

-- A text of `width` digits of base 2 for the value below that width.
pub record Spells (val width : ℕ) (cs : List ℕ) : Type 0 where
  pub binary : AreBinary cs
  pub long : length cs ≡ width
  pub reads : (acc : ℕ) → read_binary acc cs ≡ acc * 2 ^ width + val % 2 ^ width

digit-cases : (b : Bool) → let c : ℕ = if b then b'0' else b'1' in (c ≡ b'0') ⊎ (c ≡ b'1')
digit-cases true = inl refl
digit-cases false = inr refl

print_binary_width-Spells :
    (val i : ℕ) (m : Machine)
    → (cs : List ℕ) × (print_binary_width val i m
        ≡ ok tt (record m { printed = prints cs m.printed }))
      × Spells val i cs
unfolding print_binary_width print
print_binary_width-Spells val zero m =
    ([], refl, record { binary = tt; long = refl; reads = λ acc. omega arith })
print_binary_width-Spells val (suc i) m =
    let b = val / 2 ^ i % 2 in
    let c : ℕ = if b == 0 then b'0' else b'1' in
    let (cs, runs, s) =
      print_binary_width-Spells val i (record m { printed = Printed.char c ∷ m.printed }) in
    (
      c ∷ cs,
      runs,
      record {
        binary = (digit-cases (b == 0), s.binary);
        long = omega (arith, s.long);
        reads = λ acc.
            s.reads (acc * 2 + (c - b'0'))
            ∙ ap (λ x. (acc * 2 + x) * 2 ^ i + val % 2 ^ i) (bit-digit b (omega arith))
            ∙ next_digit acc val (2 ^ i) (pow-pos i)
            ∙ ap (λ p. acc * p + val % p) (sym (pow-suc 2 i));
      },
    )

-- The two loops over the bits print the same.
dot_binary_bits-print_binary_width :
    (val i : ℕ) (m : Machine) → dot_binary_bits val i m ≡ print_binary_width val i m
unfolding dot_binary_bits print_binary_width print
dot_binary_bits-print_binary_width val zero m = refl
dot_binary_bits-print_binary_width val (suc i) m = elim (Bool-cases (val / 2 ^ i % 2 == 0)) [
  | inl e ↦ rw e (dot_binary_bits-print_binary_width val i _)
  | inr e ↦ rw e (dot_binary_bits-print_binary_width val i _)
]

-- The run of `act` prints `%`, the digits of `val` in the given width and a blank, and leaves the
-- context `v`; nothing else changes.
abbrev pub PrintsBinary : Action (Unit {0}) → Machine → Vm → ℕ → ℕ → Type 0
PrintsBinary act m v val width =
    (cs : List ℕ) × (act m
      ≡ ok tt (record (with_vm m v) {
        printed = Printed.char 0x20 ∷ prints cs (Printed.char b'%' ∷ m.printed);
      }))
    × Spells val width cs

-- Between `%` and the blank.
abbrev in_marks : Action (Unit {0}) → Action (Unit {0})
in_marks act = do print (Printed.char b'%'); act; print (Printed.char 0x20)

marked_digits :
    (val width : ℕ) (m : Machine) (v : Vm)
    → PrintsBinary (λ m'. in_marks (print_binary_width val width) (with_vm m' v)) m v val width
unfolding print
marked_digits val width m v =
    let m₁ : Machine = record (with_vm m v) { printed = Printed.char b'%' ∷ m.printed } in
    let (cs, runs, s) = print_binary_width-Spells val width m₁ in
    (cs, rw (◌>>◌, ◌>>=◌, runs) refl, s)

-- While an item is on the stack and nothing has aborted, B. prints `%`, 32 binary digits that spell the
-- item modulo 2 ^ 32, and a blank; it takes the item from the stack, and nothing else changes.
pub dot_binary-read_binary :
    (m : Machine) (v : Vm)
    → m.current_forth_vm ≡ some v
    → (Vm.pop v).1.abort_flag ≡ 0
    → PrintsBinary forth_primitive_dot_binary m (Vm.pop v).1 (Vm.pop v).0 32
unfolding forth_primitive_dot_binary
dot_binary-read_binary m v running clean =
    let (val, v₁) = Vm.pop v in
    let (cs, runs, s) = marked_digits val 32 m v₁ in
    let same : in_marks (dot_binary_bits val 32) ≡ in_marks (print_binary_width val 32) =
      ap in_marks (fun_ext (dot_binary_bits-print_binary_width val 32)) in
    let run : forth_primitive_dot_binary m ≡ in_marks (dot_binary_bits val 32) (with_vm m v₁) =
      if_vm_at m running _
      ∙ (rw (◌>>=◌, pop_at m running)
          (if_running-runs (in_marks (dot_binary_bits val 32)) m v₁ clean)) in
    (cs, run ∙ ap (λ act. act (with_vm m v₁)) same ∙ runs, s)

-- The widths that Q. knows, the descriptors that ask for binary digits of them, and their bits.
pub data Width : Type 0 where
  nibble byte half word : Width

abbrev pub descriptor : Width → ℕ
descriptor Width.nibble = 0x13
descriptor Width.byte = 0x23
descriptor Width.half = 0x43
descriptor Width.word = 0x83

abbrev pub bits : Width → ℕ
bits Width.nibble = 4
bits Width.byte = 8
bits Width.half = 16
bits Width.word = 32

-- The digits of the bits below the width are those of the whole value.
Spells-mod :
    (val : ℕ) (w : Width) (cs : List ℕ)
    → Spells (val % 2 ^ bits w) (bits w) cs
    → Spells val (bits w) cs
Spells-mod val w cs s = record {
  binary = s.binary;
  long = s.long;
  reads = λ acc. s.reads acc ∙ ap (λ x. acc * 2 ^ bits w + x) (again w);
}
  where
    again : (w : Width) → val % 2 ^ bits w % 2 ^ bits w ≡ val % 2 ^ bits w
    again Width.nibble = omega arith
    again Width.byte = omega arith
    again Width.half = omega arith
    again Width.word = omega arith

print_radix-digits :
    (w : Width) (raw_val : ℕ)
    → print_radix
        (descriptor w / 2 ^ 4 % 2 ^ 4)
        (descriptor w % 2 ^ 4)
        (raw_val % 2 ^ width_bits (descriptor w / 2 ^ 4 % 2 ^ 4))
      ≡ in_marks (print_binary_width (raw_val % 2 ^ bits w) (bits w))
unfolding print_radix width_bits
print_radix-digits Width.nibble raw_val = refl
print_radix-digits Width.byte raw_val = refl
print_radix-digits Width.half raw_val = refl
print_radix-digits Width.word raw_val = refl

-- While two items are on the stack and nothing has aborted, Q. with a descriptor on top that asks for
-- binary digits of a nibble, a byte, a 16-bit word or a word prints `%`, as many digits as that width
-- has bits, which spell the item below modulo 2 to that width, and a blank; it takes both items from
-- the stack, and nothing else changes.
pub dot_formatted-read_binary :
    (m : Machine) (v : Vm) (w : Width)
    → m.current_forth_vm ≡ some v
    → (Vm.pop v).0 ≡ descriptor w
    → (Vm.pop (Vm.pop v).1).1.abort_flag ≡ 0
    → PrintsBinary forth_primitive_dot_formatted m
        (Vm.pop (Vm.pop v).1).1
        (Vm.pop (Vm.pop v).1).0
        (bits w)
unfolding forth_primitive_dot_formatted
dot_formatted-read_binary m v w running at clean =
    let v₁ = (Vm.pop v).1 in
    let (val, v₂) = Vm.pop v₁ in
    let (cs, runs, s) = marked_digits (val % 2 ^ bits w) (bits w) m v₂ in
    let shown : ℕ → Action (Unit {0}) =
      λ d. print_radix (d / 2 ^ 4 % 2 ^ 4) (d % 2 ^ 4) (val % 2 ^ width_bits (d / 2 ^ 4 % 2 ^ 4)) in
    let run : forth_primitive_dot_formatted m ≡ shown (Vm.pop v).0 (with_vm m v₂) =
      if_vm_at m running _
      ∙ (rw (◌>>=◌, pop_at m running, pop_at (with_vm m v₁) refl)
          (if_running-runs (shown (Vm.pop v).0) m v₂ clean)) in
    (
      cs,
      run
          ∙ ap (λ d. shown d (with_vm m v₂)) at
          ∙ ap (λ act. act (with_vm m v₂)) (print_radix-digits w val)
          ∙ runs,
      Spells-mod val w cs s,
    )
