-- ===== src/Compiler/Layout.antt =====
-- What compiling one token and its operand leaves in memory.
use u_forth.Prelude.{ℕ, ◌+◌, ◌%◌, ◌^◌, ◌≤◌, ◌<◌, ◌≡◌, true, some, arith, ◌∙◌}
use u_forth.Bus.{Bus, ext_spi_ram_base, ext_spi_ram_size}
use u_forth.Bus.Access.{is_word, load, store}
use u_forth.Bus.Words.{load-store_self, load-store_ne}
use u_forth.Vm.{Vm, ForthState}
use u_forth.Machine.{Machine, ok, ◌>>=◌, ◌>>◌, set_vm}
use u_forth.Machine.Laws.{with_vm, with_bus, write32_at, get_vm_at}
use u_forth.Words.Arith.{add32}
use u_forth.Compiler.{compile_pair, set_dict_free_ptr, set_ip, is_compile}

-- A frontier with room for `n` bytes in the SPI-RAM, on a word's boundary.
pub record HasSpace (p n : ℕ) : Type 0 where
  pub low : ext_spi_ram_base ≤ p
  pub high : p + n ≤ ext_spi_ram_base + ext_spi_ram_size
  pub aligned : p % 4 ≡ 0

module _ {p : ℕ} (h : HasSpace p 8) where
  pub first-is_word : is_word p ≡ true
  first-is_word = ground (arith, h.low, h.high, h.aligned)

  pub second-is_word : is_word (p + 4) ≡ true
  second-is_word = ground (arith, h.low, h.high, h.aligned)

  pub add32-four : add32 p 4 ≡ p + 4
  add32-four = omega (arith, h.high)

  pub add32-eight : add32 p 8 ≡ p + 8
  add32-eight = omega (arith, h.high)

-- The bus with a pair written at `p`.
unfoldable pub with_pair : Bus → ℕ → ℕ → ℕ → Bus
with_pair b p xt operand = store (store b p xt) (p + 4) operand

module _ (b : Bus) {p : ℕ} (h : HasSpace p 8) (xt operand : ℕ) where
  pub load-with_pair_operand : operand < 2 ^ 32 → load (with_pair b p xt operand) (p + 4) ≡ operand
  unfolding with_pair
  load-with_pair_operand lt = load-store_self (store b p xt) (p + 4) operand lt

  pub load-with_pair_token : xt < 2 ^ 32 → load (with_pair b p xt operand) p ≡ xt
  unfolding with_pair
  load-with_pair_token lt =
      load-store_ne (store b p xt) (p + 4) p operand (second-is_word h) (first-is_word h)
        (omega arith)
      ∙ load-store_self b p xt lt

module _ (m : Machine) {v : Vm} (e : m.current_forth_vm ≡ some v) where
  pub set_dict_free_ptr_at :
      (p : ℕ) → set_dict_free_ptr p m ≡ ok tt (with_vm m (record v { dict_free_ptr = p }))
  unfolding set_dict_free_ptr set_vm
  set_dict_free_ptr_at p = rw (set_dict_free_ptr, ◌>>=◌, get_vm_at m e)

  pub set_ip_at : (p : ℕ) → set_ip p m ≡ ok tt (with_vm m (record v { ip = p }))
  unfolding set_ip set_vm
  set_ip_at p = rw (set_ip, ◌>>=◌, get_vm_at m e)

module _ (m : Machine) {v : Vm} (running : m.current_forth_vm ≡ some v)
    (h : HasSpace v.dict_free_ptr 8) where
  pub compile_pair_at :
      (xt operand : ℕ)
      → compile_pair xt operand m
        ≡ ok tt (record m {
          bus = with_pair m.bus v.dict_free_ptr xt operand;
          current_forth_vm = some (record v { dict_free_ptr = v.dict_free_ptr + 8 });
        })
  unfolding compile_pair with_pair
  compile_pair_at xt operand =
      let p = v.dict_free_ptr in
      let m₁ = with_bus m (store m.bus p xt) in
      rw
        (
          compile_pair,
          ◌>>◌,
          ◌>>=◌,
          get_vm_at m running,
          write32_at p m xt (first-is_word h),
          add32-four h,
          write32_at (p + 4) m₁ operand (second-is_word h),
          add32-eight h,
        )
        (set_dict_free_ptr_at (with_bus m (with_pair m.bus p xt operand)) running (p + 8))

pub is_compile_at : {s : ForthState} → s ≡ ForthState.compile → is_compile s ≡ true
unfolding is_compile
is_compile_at e = rw e
