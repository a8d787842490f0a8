-- ===== src/Vm.antt =====
-- forth_vm.c and forth_vm.h: the context of a Forth task and its two stacks. The functions here act
-- on the context that `current_forth_vm` points to; what they do at a null pointer is in Machine.
-- A stack is an array: a function of its index, of which the code reads and writes indices below
-- FORTH_STACK_CELLS.
pub mod Stacks
pub mod Refine
use u_forth.Prelude.{ℕ, ◌+◌, ◌-◌, ◌*◌, List, [], ltb, leb, ◌==◌, if◌then◌else◌, update}

-- FORTH_STACK_CELLS
abbrev pub stack_cells : ℕ
stack_cells = 64

-- ForthState_t
pub data ForthState : Type 0 where
  repl compile runtime : ForthState

-- ForthMachineState_t. `parse_line_ptr` is what is left of the line, up to its NUL byte.
pub record Vm : Type 0 where
  pub data_stack : ℕ → ℕ
  pub return_stack : ℕ → ℕ
  pub sp : ℕ
  pub rp : ℕ
  pub ip : ℕ
  pub state : ForthState
  pub latest_word : ℕ
  pub dict_free_ptr : ℕ
  pub parse_line_ptr : List ℕ
  pub abort_flag : ℕ
  pub quiet_mode : ℕ

unfoldable pub vm_init : Vm → Vm
vm_init v = record v {
  sp = 0;
  rp = 0;
  ip = 0;
  state = ForthState.repl;
  abort_flag = 0;
  quiet_mode = 0;
}

-- The context keeps the arrays and the parse pointer that it had.
unfoldable pub vm_context_init : Vm → ℕ → Vm
vm_context_init v dict_start_addr = record v {
  sp = 0;
  rp = 0;
  ip = 0;
  state = ForthState.repl;
  latest_word = 0;
  dict_free_ptr = dict_start_addr;
  abort_flag = 0;
  quiet_mode = 0;
}

-- `forth_abort_with_context`, less the message.
unfoldable pub abort : Vm → Vm
abort v = record v { sp = 0; rp = 0; abort_flag = 1; state = ForthState.repl }

unfoldable pub push : ℕ → Vm → Vm
unfolding abort
push val v =
    if v.abort_flag == 0
    then if leb stack_cells v.sp
      then abort v
      else record v { data_stack = update v.data_stack v.sp val; sp = v.sp + 1 }
    else v

unfoldable pub pop : Vm → ℕ × Vm
unfolding abort
pop v =
    if v.abort_flag == 0
    then if v.sp == 0 then (0, abort v) else (v.data_stack (v.sp - 1), record v { sp = v.sp - 1 })
    else (0, v)

unfoldable pub r_push : ℕ → Vm → Vm
unfolding abort
r_push val v =
    if v.abort_flag == 0
    then if leb stack_cells v.rp
      then abort v
      else record v { return_stack = update v.return_stack v.rp val; rp = v.rp + 1 }
    else v

unfoldable pub r_pop : Vm → ℕ × Vm
unfolding abort
r_pop v =
    if v.abort_flag == 0
    then if v.rp == 0 then (0, abort v) else (v.return_stack (v.rp - 1), record v { rp = v.rp - 1 })
    else (0, v)

unfoldable pub drop : Vm → Vm
unfolding pop
drop v = (pop v).1

unfoldable pub dup : Vm → Vm
unfolding abort push
dup v =
    if v.abort_flag == 0 then if v.sp == 0 then abort v else push (v.data_stack (v.sp - 1)) v else v

unfoldable pub swap : Vm → Vm
unfolding abort
swap v =
    if v.abort_flag == 0
    then if ltb v.sp 2
      then abort v
      else (let tmp = v.data_stack (v.sp - 1) in
          record v {
            data_stack =
                update (update v.data_stack (v.sp - 1) (v.data_stack (v.sp - 2))) (v.sp - 2) tmp;
          })
    else v

unfoldable pub over : Vm → Vm
unfolding abort push
over v =
    if v.abort_flag == 0
    then if ltb v.sp 2 then abort v else push (v.data_stack (v.sp - 2)) v
    else v

-- `>R` and `R>` of forth_dict.c.
unfoldable pub to_r : Vm → Vm
unfolding pop r_push
to_r v = let (val, v') = pop v in r_push val v'

unfoldable pub from_r : Vm → Vm
unfolding r_pop push
from_r v = let (val, v') = r_pop v in push val v'
