-- ===== src/Widths/Scripts.antt =====
-- INCLUDED: the lines of a script.
use u_forth.Prelude.{ℕ, zero, suc, ◌+◌, ◌≡◌, refl, Bool, true, false, arith, leb, List, [], ◌∷◌}
use u_forth.Vm.{ForthState}
use u_forth.Machine.{Files, Stop, fail, branch, forth_pop, forth_abort, Action, ◌>>=◌, set_vm}
use u_forth.Outside.{Outside}
use u_forth.Files.{
  Metrics, get_files, set_files, c_string, count_cells, get_current_mem_metrics, read_chars,
  run_lines, push_file, pop_file, set_quiet_mode, recover_root, start_script, end_script,
  run_script, forth_primitive_included,
}
use u_forth.Widths.{IsWord, AreBytes, Keeps, KeepsFit}
use u_forth.Widths.Rules.{Keeps->>=, Keeps->>, Keeps-by_option, Keeps-set_vm, Keeps-pure}
use u_forth.Widths.Access.{Keeps-forth_pop}
use u_forth.Widths.Blocks.{
  widths, get_vm_then, word_then, bytes_then, hw_read8_then, Keeps-if_running,
}
use u_forth.Words.Arith.{add32}
use u_forth.Widths.Streams.{Keeps-set_files, get_files_then, file_rules}
use u_forth.Widths.Calls.{CallsFit, AreLines}

-- The metrics leave the machine as it is.
Keeps-count_cells : (left byte_idx : ℕ) → Keeps (λ _. Unit {0}) (count_cells left byte_idx)
unfolding count_cells
Keeps-count_cells zero byte_idx = search widths
Keeps-count_cells (suc left) byte_idx =
    let rest = Keeps-count_cells left (byte_idx + 1) in
    hw_read8_then _ _
      λ b _. Keeps->>= (count_cells left (byte_idx + 1)) _ rest λ n _. Keeps-pure _ tt

Keeps-get_current_mem_metrics : KeepsFit get_current_mem_metrics
unfolding get_current_mem_metrics
Keeps-get_current_mem_metrics =
    Keeps->>= (count_cells 32 0) _ (Keeps-count_cells 32 0)
      λ n _. get_vm_then _ λ v _. record { at = λ m h. (tt, h) }

Keeps-read_chars : (left addr : ℕ) → Keeps AreBytes (read_chars left addr)
unfolding read_chars AreBytes
Keeps-read_chars zero addr = search widths
Keeps-read_chars (suc left) addr =
    let rest = Keeps-read_chars left (add32 addr 1) in
    hw_read8_then _ _
      λ c b. bytes_then (read_chars left (add32 addr 1)) _ rest λ cs h. Keeps-pure (c ∷ cs) (b, h)

pub Keeps-set_quiet_mode : (q : ℕ) → KeepsFit (set_quiet_mode q)
unfolding set_quiet_mode
Keeps-set_quiet_mode q = get_vm_then _ λ v h.
    Keeps-set_vm (record v { quiet_mode = q })
      (record {
        data_stack = h.data_stack;
        return_stack = h.return_stack;
        sp = h.sp;
        rp = h.rp;
        ip = h.ip;
        latest_word = h.latest_word;
        dict_free_ptr = h.dict_free_ptr;
        parse_line_ptr = h.parse_line_ptr;
      })

pushed-IsWord : (n : ℕ) → leb 4 n ≡ false → IsWord (n + 1)
unfolding IsWord
pushed-IsWord n e = ground arith

Keeps-push_file : KeepsFit push_file
unfolding push_file
Keeps-push_file = get_files_then _ λ files h. by_test files (leb 4 files.file_stack_ptr) refl
  where
    by_test :
        (files : Files) (t : Bool)
        → leb 4 files.file_stack_ptr ≡ t
        → KeepsFit (
            branch t
              (fail Stop.array_overrun)
              (set_files (record files { file_stack_ptr = files.file_stack_ptr + 1 })))
    by_test files true e = search widths
    by_test files false e = record {
      at =
          (Keeps-set_files (record files { file_stack_ptr = files.file_stack_ptr + 1 })
            (pushed-IsWord _ e)).at;
    }

Keeps-pop_file : (f : ℕ) → KeepsFit (pop_file f)
unfolding pop_file
Keeps-pop_file f = search file_rules

Keeps-clear_files :
    KeepsFit (get_files >>= λ files. set_files (record files { file_stack_ptr = 0 }))
Keeps-clear_files = search file_rules

Keeps-recover_root : KeepsFit recover_root
unfolding recover_root
Keeps-recover_root = get_vm_then _ λ v h.
    Keeps->> (set_vm (record v { state = ForthState.repl; quiet_mode = 0; abort_flag = 0 })) _
      (Keeps-set_vm _ (record {
        data_stack = h.data_stack;
        return_stack = h.return_stack;
        sp = h.sp;
        rp = h.rp;
        ip = h.ip;
        latest_word = h.latest_word;
        dict_free_ptr = h.dict_free_ptr;
        parse_line_ptr = h.parse_line_ptr;
      }))
      λ _. Keeps-clear_files

metrics_then :
    {B : Type 0} {Q : B → Type 0} (next : Metrics → Action B)
    → ((x : Metrics) → Keeps Q (next x))
    → Keeps Q (get_current_mem_metrics >>= next)
metrics_then next k =
    Keeps->>= get_current_mem_metrics next Keeps-get_current_mem_metrics λ x _. k x

ruleset script_rules = (widths, metrics_then, Keeps-set_quiet_mode, Keeps-recover_root)

Keeps-start_script : (is_root_file : Bool) → KeepsFit (start_script is_root_file)
unfolding start_script
Keeps-start_script is_root_file = search script_rules

Keeps-end_script : (is_root_file : Bool) → KeepsFit (end_script is_root_file)
unfolding end_script
Keeps-end_script is_root_file = search script_rules depth 10

module _ (interpret_line : List ℕ → Action (Unit {0}))
    (fits : (line : List ℕ) → AreBytes line → KeepsFit (interpret_line line)) where
  Keeps-run_lines :
      (lines : List (List ℕ)) → AreLines lines → KeepsFit (run_lines interpret_line lines)
  unfolding run_lines AreLines
  Keeps-run_lines [] h = search widths
  Keeps-run_lines (line ∷ lines) (b, h) =
      let first = fits line b in let rest = Keeps-run_lines lines h in search widths

  module _ (o : Outside) (calls : CallsFit o) where
    Keeps-run_script : (f : ℕ) → KeepsFit (run_script interpret_line o f)
    unfolding run_script
    Keeps-run_script f =
        let lines = Keeps-run_lines (o.fgets_lines f) (calls.fgets_lines f) in
        search (file_rules, Keeps-push_file, Keeps-start_script, Keeps-pop_file, Keeps-end_script)
          depth 8

    pub Keeps-forth_primitive_included : KeepsFit (forth_primitive_included interpret_line o)
    unfolding forth_primitive_included
    Keeps-forth_primitive_included = word_then forth_pop _ Keeps-forth_pop λ str_len _.
        word_then forth_pop _ Keeps-forth_pop λ str_addr _. Keeps-if_running _ (
          bytes_then (read_chars _ str_addr) _ (Keeps-read_chars _ str_addr) λ filename _.
            Keeps-by_option (o.fopen (c_string filename) (b'r' ∷ [])) forth_abort
              (run_script interpret_line o) (search widths) λ f _. Keeps-run_script f)
