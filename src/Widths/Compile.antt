-- ===== src/Widths/Compile.antt =====
-- The compiling words, the primitives that run what they compile, and the words of text and values.
use u_forth.Prelude.{ℕ}
use u_forth.Vm.{ForthState}
use u_forth.Machine.{Action}
use u_forth.Compiler.{
  set_dict_free_ptr, set_state, compile_pair, compile_token, forth_primitive_exit,
  forth_primitive_lit, forth_primitive_branch, forth_primitive_0branch, forth_cmd_begin,
  forth_cmd_until, forth_cmd_again, forth_cmd_colon, forth_cmd_semicolon, forth_cmd_if,
  forth_cmd_then, forth_cmd_else,
}
use u_forth.Values.{
  forth_primitive_p_constant, forth_primitive_p_value, forth_primitive_p_to,
  forth_primitive_p_variable,
}
use u_forth.Widths.{IsWord, Keeps, KeepsFit}
use u_forth.Widths.Rules.{Keeps-set_vm}
use u_forth.Widths.Blocks.{widths, get_vm_then}

pub Keeps-set_dict_free_ptr : (p : ℕ) → IsWord p → KeepsFit (set_dict_free_ptr p)
unfolding set_dict_free_ptr
Keeps-set_dict_free_ptr p w = get_vm_then _ λ v h.
    Keeps-set_vm (record v { dict_free_ptr = p })
      (record {
        data_stack = h.data_stack;
        return_stack = h.return_stack;
        sp = h.sp;
        rp = h.rp;
        ip = h.ip;
        latest_word = h.latest_word;
        dict_free_ptr = w;
        parse_line_ptr = h.parse_line_ptr;
      })

pub Keeps-set_state : (s : ForthState) → KeepsFit (set_state s)
unfolding set_state
Keeps-set_state s = get_vm_then _ λ v h.
    Keeps-set_vm (record v { state = s })
      (record {
        data_stack = h.data_stack;
        return_stack = h.return_stack;
        sp = h.sp;
        rp = h.rp;
        ip = h.ip;
        latest_word = h.latest_word;
        dict_free_ptr = h.dict_free_ptr;
        parse_line_ptr = h.parse_line_ptr;
      })

pub ruleset registers = (widths, Keeps-set_dict_free_ptr, Keeps-set_state)

pub Keeps-compile_pair : (xt operand : ℕ) → KeepsFit (compile_pair xt operand)
unfolding compile_pair
Keeps-compile_pair xt operand = search registers depth 12

pub Keeps-compile_token : (xt_id : ℕ) → KeepsFit (compile_token xt_id)
unfolding compile_token
Keeps-compile_token xt_id = search registers depth 12

pub Keeps-forth_primitive_exit : KeepsFit forth_primitive_exit
unfolding forth_primitive_exit
Keeps-forth_primitive_exit = search registers depth 12

pub Keeps-forth_primitive_lit : KeepsFit forth_primitive_lit
unfolding forth_primitive_lit
Keeps-forth_primitive_lit = search registers depth 12

pub Keeps-forth_primitive_branch : KeepsFit forth_primitive_branch
unfolding forth_primitive_branch
Keeps-forth_primitive_branch = search registers depth 12

pub Keeps-forth_cmd_begin : KeepsFit forth_cmd_begin
unfolding forth_cmd_begin
Keeps-forth_cmd_begin = search registers depth 12

pub Keeps-forth_cmd_again : KeepsFit forth_cmd_again
unfolding forth_cmd_again
Keeps-forth_cmd_again = search registers depth 12

pub Keeps-forth_cmd_colon : KeepsFit forth_cmd_colon
unfolding forth_cmd_colon
Keeps-forth_cmd_colon = search registers depth 12

pub Keeps-forth_cmd_semicolon : KeepsFit forth_cmd_semicolon
unfolding forth_cmd_semicolon
Keeps-forth_cmd_semicolon = search registers depth 12

pub Keeps-forth_cmd_if : KeepsFit forth_cmd_if
unfolding forth_cmd_if
Keeps-forth_cmd_if = search registers depth 12

pub Keeps-forth_cmd_then : KeepsFit forth_cmd_then
unfolding forth_cmd_then
Keeps-forth_cmd_then = search registers depth 12

pub Keeps-forth_cmd_else : KeepsFit forth_cmd_else
unfolding forth_cmd_else
Keeps-forth_cmd_else = search registers depth 12

pub Keeps-forth_primitive_p_constant : KeepsFit forth_primitive_p_constant
unfolding forth_primitive_p_constant
Keeps-forth_primitive_p_constant = search registers depth 12

pub Keeps-forth_primitive_p_value : KeepsFit forth_primitive_p_value
unfolding forth_primitive_p_value
Keeps-forth_primitive_p_value = search registers depth 12

pub Keeps-forth_primitive_p_to : KeepsFit forth_primitive_p_to
unfolding forth_primitive_p_to
Keeps-forth_primitive_p_to = search registers depth 12

pub Keeps-forth_primitive_p_variable : KeepsFit forth_primitive_p_variable
unfolding forth_primitive_p_variable
Keeps-forth_primitive_p_variable = search registers depth 12

pub Keeps-forth_cmd_until : KeepsFit forth_cmd_until
unfolding forth_cmd_until
Keeps-forth_cmd_until = search (widths, Keeps-compile_pair) depth 12

pub Keeps-forth_primitive_0branch :
    (read : ℕ → Action ℕ)
    → ((addr : ℕ) → Keeps IsWord (read addr))
    → KeepsFit (forth_primitive_0branch read)
unfolding forth_primitive_0branch
Keeps-forth_primitive_0branch read fits = search widths depth 12
