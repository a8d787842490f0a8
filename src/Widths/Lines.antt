-- ===== src/Widths/Lines.antt =====
-- The interpreter of lines and the executor of threaded code.
use u_forth.Prelude.{
  ℕ, zero, suc, ◌≡◌, Bool, true, false, ◌&&◌, ltb, leb, ◌==◌, if◌then◌else◌, subst, Option, none,
  some, List,
}
use mathlib.Core.Option.{some-injective}
use u_forth.Vm.{Vm, ForthState}
use u_forth.Machine.{Action, pure, forth_abort, ◌>>◌}
use u_forth.Outside.{Outside}
use u_forth.Strings.{first_char, next_chars, set_parse_line_ptr}
use u_forth.Numbers.{
  is_end, to_word, xor, number_base, strtoll, parse_behind_sign, parse_forth_number,
}
use u_forth.Compiler.{process_number, xt_lit}
use u_forth.Builtins.{Builtin, find_builtin}
use u_forth.Builtins.Search.{find_builtin-named}
use u_forth.Interpreter.{
  dispatch, process_token, interpret_token, interpret_tokens, forth_interpret_line,
}
use u_forth.Executor.{
  kernel_primitive_handlers, execute_public, execute_native_id, execute_next, execute_loop,
  forth_execute_compiled_xt,
}
use u_forth.Widths.{IsWord, AreBytes, VmFits, KeepsFit}
use u_forth.Widths.Calls.{CallsFit}
use u_forth.Widths.Rules.{
  Keeps-branch, Keeps-by_option, Keeps-by_state, Keeps-pure, Keeps->>, Keeps-set_vm,
}
use u_forth.Widths.Access.{Keeps-forth_push}
use u_forth.Widths.Blocks.{widths, get_vm_then, Keeps-if_running, mod-IsWord}
use u_forth.Widths.Compile.{
  Keeps-compile_pair, Keeps-compile_token, Keeps-forth_primitive_lit, Keeps-forth_primitive_branch,
  Keeps-forth_primitive_0branch,
}
use u_forth.Widths.Strings.{Keeps-set_parse_line_ptr}
use u_forth.Widths.Table.{HandlersFit, HandlersFit-nth}

to_word-IsWord : (negative : Bool) (value : ℕ) → IsWord (to_word negative value)
unfolding to_word
to_word-IsWord true value = mod-IsWord _
to_word-IsWord false value = mod-IsWord _

parse_behind_sign-IsWord :
    (is_negative : Bool) (p : List ℕ) (n : ℕ) → parse_behind_sign is_negative p ≡ some n → IsWord n
unfolding parse_behind_sign
parse_behind_sign-IsWord is_negative p n e =
    by_result (strtoll (number_base p).0 (number_base p).1) e
  where
    by_end :
        (t negative : Bool) (value : ℕ)
        → (if t then some (to_word negative value) else none) ≡ some n
        → IsWord n
    by_end true negative value e =
        subst IsWord (some-injective _ n e) (to_word-IsWord negative value)
    by_end false negative value e = absurd (cc)

    by_result :
        (o : Option (Bool × ℕ × List ℕ))
        → (elim o as (λ _. Option ℕ) [
          | none ↦ none
          | some (negative, parsed_val, endptr) ↦
              if is_end endptr then some (to_word (xor is_negative negative) parsed_val) else none
        ])
          ≡ some n
        → IsWord n
    by_result none e = absurd (cc)
    by_result (some (negative, value, endptr)) e = by_end (is_end endptr) _ value e

pub parse_forth_number-IsWord :
    (token : List ℕ) (n : ℕ) → parse_forth_number token ≡ some n → IsWord n
unfolding parse_forth_number
parse_forth_number-IsWord token n e = by_sign (first_char token == b'-') e
  where
    by_sign :
        (t : Bool)
        → (if t then parse_behind_sign true (next_chars token) else parse_behind_sign false token)
          ≡ some n
        → IsWord n
    by_sign true e = parse_behind_sign-IsWord true _ n e
    by_sign false e = parse_behind_sign-IsWord false _ n e

Keeps-process_number : (n : ℕ) → IsWord n → KeepsFit (process_number n)
unfolding process_number
Keeps-process_number n w = get_vm_then _ λ v h.
    Keeps-by_state v.state _ _ _ (Keeps-forth_push n w) (Keeps-compile_pair xt_lit n)
      (Keeps-pure tt tt)

Keeps-dispatch : (w : Builtin) → KeepsFit w.handler → KeepsFit (dispatch w)
unfolding dispatch
Keeps-dispatch w h = search (widths, Keeps-compile_token)

module _ (words : List Builtin) (handlers : HandlersFit words) where
  Keeps-found :
      (token : List ℕ) (nothing : Action (Unit {0}))
      → KeepsFit nothing
      → KeepsFit (elim (find_builtin words token) as (λ _. Action (Unit {0})) [
        | none ↦ nothing
        | some word ↦ dispatch word
      ])
  Keeps-found token nothing h = Keeps-by_option (find_builtin words token) nothing dispatch h λ w e.
      let (i, at, named) = find_builtin-named words token w e in
      Keeps-dispatch w (HandlersFit-nth words i w handlers at)

  pub Keeps-process_token : (token : List ℕ) → KeepsFit (process_token words token)
  unfolding process_token
  Keeps-process_token token = Keeps-if_running _ (
      Keeps-found token _ (
        Keeps-by_option (parse_forth_number token) (pure tt) process_number (Keeps-pure tt tt)
          λ n e. Keeps-process_number n (parse_forth_number-IsWord token n e)))

  module _ (o : Outside) (calls : CallsFit o) where
    Keeps-interpret_token :
        (token : List ℕ) → AreBytes token → KeepsFit (interpret_token o words token)
    unfolding interpret_token
    Keeps-interpret_token token h = Keeps-found token _ (
        Keeps-by_option (o.try_parse_number token) (o.forth_abort_unknown_token token)
          o.process_numeric_token (calls.forth_abort_unknown_token token h)
          λ n e. calls.process_numeric_token n (calls.try_parse_number token n e))

    Keeps-interpret_tokens : (fuel : ℕ) → KeepsFit (interpret_tokens fuel o words)
    unfolding interpret_tokens
    Keeps-interpret_tokens zero = search widths
    Keeps-interpret_tokens (suc fuel) = get_vm_then _ λ v h.
        let (token_bytes, rest_bytes) =
          calls.extract_next_token v.parse_line_ptr h.parse_line_ptr in
        Keeps-branch (is_end v.parse_line_ptr) (pure tt) _ (Keeps-pure tt tt) (
          Keeps->> (set_parse_line_ptr (o.extract_next_token v.parse_line_ptr).1) _
            (Keeps-set_parse_line_ptr _ rest_bytes)
            λ _.
              Keeps-by_option (o.extract_next_token v.parse_line_ptr).0 (pure tt)
                (λ token. interpret_token o words token >> interpret_tokens fuel o words)
                (Keeps-pure tt tt)
                λ token e.
                  Keeps->> (interpret_token o words token) _
                    (Keeps-interpret_token token (token_bytes token e))
                    λ _. Keeps-interpret_tokens fuel)

    pub Keeps-forth_interpret_line :
        (fuel : ℕ) (line : List ℕ)
        → AreBytes line
        → KeepsFit (forth_interpret_line fuel o words line)
    unfolding forth_interpret_line
    Keeps-forth_interpret_line fuel line h =
        search (widths, Keeps-set_parse_line_ptr, Keeps-interpret_tokens)

-- The loop over the tokens of threaded code.
module _ (o : Outside) (calls : CallsFit o) where
  Keeps-execute_public : (xt : ℕ) → KeepsFit (execute_public o xt)
  unfolding execute_public
  Keeps-execute_public xt =
      Keeps-by_option (o.get_public_handler_by_id xt) forth_abort (λ handler. handler)
        (search widths) λ handler e. calls.get_public_handler_by_id xt handler e

  kernel_primitive_handlers-KeepsFit :
      (xt : ℕ) (handler : Action (Unit {0}))
      → kernel_primitive_handlers o xt ≡ some handler
      → KeepsFit handler
  unfolding kernel_primitive_handlers
  kernel_primitive_handlers-KeepsFit zero handler e = absurd (cc)
  kernel_primitive_handlers-KeepsFit (suc zero) handler e =
      subst KeepsFit (some-injective _ handler e) Keeps-forth_primitive_lit
  kernel_primitive_handlers-KeepsFit (suc (suc zero)) handler e =
      subst KeepsFit (some-injective _ handler e) Keeps-forth_primitive_branch
  kernel_primitive_handlers-KeepsFit (suc (suc (suc zero))) handler e =
      subst KeepsFit (some-injective _ handler e)
        (Keeps-forth_primitive_0branch o.hw_spi_ram_read32 calls.hw_spi_ram_read32)
  kernel_primitive_handlers-KeepsFit (suc (suc (suc (suc xt)))) handler e = absurd (cc)

  Keeps-execute_native_id : (xt : ℕ) → KeepsFit (execute_native_id o xt)
  unfolding execute_native_id
  Keeps-execute_native_id xt =
      let public = Keeps-execute_public xt in
      Keeps-branch (leb 1 xt && ltb xt 4) _ (execute_public o xt)
        (Keeps-by_option (kernel_primitive_handlers o xt) (execute_public o xt) (λ handler. handler)
          public λ handler e. kernel_primitive_handlers-KeepsFit xt handler e)
        public

  Keeps-execute_next : KeepsFit (execute_next o)
  unfolding execute_next
  Keeps-execute_next = search (widths, calls.hw_spi_ram_read32, Keeps-execute_native_id) depth 8

  Keeps-execute_loop : (fuel : ℕ) → KeepsFit (execute_loop fuel o)
  unfolding execute_loop
  Keeps-execute_loop zero = search widths
  Keeps-execute_loop (suc fuel) =
      let rest = Keeps-execute_loop fuel in search (widths, Keeps-execute_next)

  with_ip :
      (v : Vm)
      → VmFits v
      → (s : ForthState) (p : ℕ) → IsWord p
      → VmFits (record v { state = s; ip = p })
  with_ip v h s p w = record {
    data_stack = h.data_stack;
    return_stack = h.return_stack;
    sp = h.sp;
    rp = h.rp;
    ip = w;
    latest_word = h.latest_word;
    dict_free_ptr = h.dict_free_ptr;
    parse_line_ptr = h.parse_line_ptr;
  }

  -- From an address of 32 bits, forth_execute_compiled_xt keeps every variable of the program within the
  -- width of its C type, unless it stops, whatever the threaded code at that address holds. It is asked
  -- that hw_spi_ram_read32 gives words, and that the handlers of the public words do the same.
  Keeps-forth_execute_compiled_xt :
      (fuel xt_address : ℕ)
      → IsWord xt_address
      → KeepsFit (forth_execute_compiled_xt fuel o xt_address)
  unfolding forth_execute_compiled_xt
  Keeps-forth_execute_compiled_xt fuel xt_address w =
      search (widths, Keeps-set_vm, with_ip, Keeps-execute_loop) depth 8
