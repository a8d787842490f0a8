-- ===== src/Widths/Blocks.antt =====
-- The rules that walk along a do block: what an action gives fits, and so does the rest.
use u_forth.Prelude.{ℕ, ◌==◌, ◌%◌, ◌^◌, arith, List}
use u_forth.Vm.{Vm}
use u_forth.Machine.{Action, pure, ◌>>=◌, get_vm, hw_read8}
use u_forth.Compiler.{set_ip}
use u_forth.Words.{if_running}
use u_forth.Widths.{IsWord, IsByte, AreBytes, VmFits, Keeps, KeepsFit}
use u_forth.Widths.Stacks.{zero-IsWord}
use u_forth.Widths.Rules.{
  Keeps-pure, Keeps-fail, Keeps-branch, Keeps-by_state, Keeps-by_option, Keeps->>=, Keeps->>,
  Keeps-get_vm, Keeps-set_vm, Keeps-if_vm, Keeps-print,
}
use u_forth.Widths.Access.{
  Keeps-hw_read8, Keeps-hw_read32, Keeps-hw_write8, Keeps-hw_write32, Keeps-hw_spi_ram_read_buf,
  Keeps-hw_spi_ram_write_buf, Keeps-forth_push, Keeps-forth_pop, Keeps-forth_r_push,
  Keeps-forth_r_pop, Keeps-forth_abort,
}

module _ {B : Type 0} {Q : B → Type 0} where
  pub get_vm_then :
      (next : Vm → Action B) → ((v : Vm) → VmFits v → Keeps Q (next v)) → Keeps Q (get_vm >>= next)
  get_vm_then next = Keeps->>= get_vm next Keeps-get_vm

  pub hw_read8_then :
      (addr : ℕ) (next : ℕ → Action B)
      → ((x : ℕ) → IsByte x → Keeps Q (next x))
      → Keeps Q (hw_read8 addr >>= next)
  hw_read8_then addr next = Keeps->>= (hw_read8 addr) next (Keeps-hw_read8 addr)

  -- An action that gives a word, or an array of bytes.
  pub word_then :
      (act : Action ℕ) (next : ℕ → Action B)
      → Keeps IsWord act
      → ((x : ℕ) → IsWord x → Keeps Q (next x))
      → Keeps Q (act >>= next)
  word_then act next = Keeps->>= act next

  pub bytes_then :
      (act : Action (List ℕ)) (next : List ℕ → Action B)
      → Keeps AreBytes act
      → ((bytes : List ℕ) → AreBytes bytes → Keeps Q (next bytes))
      → Keeps Q (act >>= next)
  bytes_then act next = Keeps->>= act next

pub Keeps-if_running : (act : Action (Unit {0})) → KeepsFit act → KeepsFit (if_running act)
Keeps-if_running act h =
    get_vm_then _ λ v _. Keeps-branch (v.abort_flag == 0) act (pure tt) h (Keeps-pure tt tt)

pub ip-IsWord : (v : Vm) → VmFits v → IsWord v.ip
ip-IsWord v h = h.ip

pub latest_word-IsWord : (v : Vm) → VmFits v → IsWord v.latest_word
latest_word-IsWord v h = h.latest_word

pub dict_free_ptr-IsWord : (v : Vm) → VmFits v → IsWord v.dict_free_ptr
dict_free_ptr-IsWord v h = h.dict_free_ptr

pub parse_line_ptr-AreBytes : (v : Vm) → VmFits v → AreBytes v.parse_line_ptr
parse_line_ptr-AreBytes v h = h.parse_line_ptr

pub mod-IsWord : (a : ℕ) → IsWord (a % 2 ^ 32)
unfolding IsWord
mod-IsWord a = omega arith

pub mod-IsByte : (a : ℕ) → IsByte (a % 2 ^ 8)
unfolding IsByte
mod-IsByte a = omega arith

pub IsByte-IsWord : (a : ℕ) → IsByte a → IsWord a
unfolding IsByte IsWord
IsByte-IsWord a h = omega arith

pub Keeps-set_ip : (p : ℕ) → IsWord p → KeepsFit (set_ip p)
unfolding set_ip
Keeps-set_ip p w = get_vm_then _ λ v h.
    Keeps-set_vm (record v { ip = p })
      (record {
        data_stack = h.data_stack;
        return_stack = h.return_stack;
        sp = h.sp;
        rp = h.rp;
        ip = w;
        latest_word = h.latest_word;
        dict_free_ptr = h.dict_free_ptr;
        parse_line_ptr = h.parse_line_ptr;
      })

pub ruleset widths = (
  Keeps-pure, Keeps-fail, Keeps-branch, Keeps-by_state, Keeps-by_option, Keeps->>, Keeps-if_vm,
  Keeps-print, Keeps-hw_read32, Keeps-hw_write8, Keeps-hw_write32, Keeps-hw_spi_ram_read_buf,
  Keeps-hw_spi_ram_write_buf, Keeps-forth_push, Keeps-forth_r_push, Keeps-forth_pop,
  Keeps-forth_r_pop, Keeps-forth_abort, Keeps-set_ip, get_vm_then, hw_read8_then, word_then,
  bytes_then, ip-IsWord, latest_word-IsWord, dict_free_ptr-IsWord, parse_line_ptr-AreBytes,
  mod-IsWord, mod-IsByte, IsByte-IsWord, zero-IsWord,
)
