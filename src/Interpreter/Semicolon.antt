-- ===== src/Interpreter/Semicolon.antt =====
-- The word ; in a definition.
use u_forth.Prelude.{ℕ, ◌≡◌, ◌∙◌, refl, true, false, some, List}
use u_forth.Bus.Access.{is_word, store}
use u_forth.Vm.{Vm, ForthState}
use u_forth.Machine.{Machine, Action, ok, ◌>>=◌, ◌>>◌}
use u_forth.Machine.Laws.{with_bus, get_vm_at, write32_at}
use u_forth.Outside.{Outside}
use u_forth.Words.Arith.{add32}
use u_forth.Compiler.{compile_token, forth_cmd_semicolon}
use u_forth.Compiler.Layout.{set_dict_free_ptr_at}
use u_forth.Builtins.{Builtin, codes, strcmp, nth, bsearch, compare_builtin_nodes, find_builtin}
use u_forth.Builtins.Table.{builtin_words}
use u_forth.Interpreter.{is_repl, dispatch, interpret_token}

module _ (m : Machine) {v : Vm} (running : m.current_forth_vm ≡ some v)
    (h : is_word v.dict_free_ptr ≡ true) where
  pub compile_token_at :
      (xt_id : ℕ)
      → compile_token xt_id m
        ≡ ok tt (record m {
          bus = store m.bus v.dict_free_ptr xt_id;
          current_forth_vm = some (record v { dict_free_ptr = add32 v.dict_free_ptr 4 });
        })
  unfolding compile_token
  compile_token_at xt_id =
      let m' = with_bus m (store m.bus v.dict_free_ptr xt_id) in
      rw
        (
          compile_token,
          ◌>>◌,
          ◌>>=◌,
          get_vm_at m running,
          write32_at v.dict_free_ptr m xt_id h,
          get_vm_at m' running,
        )
        (set_dict_free_ptr_at m' running (add32 v.dict_free_ptr 4))

  dispatch-compile_token :
      (w : Builtin)
      → v.state ≡ ForthState.compile
      → w.is_immediate ≡ false
      → dispatch w m ≡ compile_token w.xt_id m
  unfolding dispatch is_repl
  dispatch-compile_token w s i = rw (dispatch, ◌>>=◌, get_vm_at m running, s, i)

module _ (interpret_line : List ℕ → Action (Unit {0})) (o : Outside) (heap_fuel : ℕ) where
  abbrev semicolon : Builtin
  semicolon = record {
    name = codes ";";
    handler = forth_cmd_semicolon;
    xt_id = 39;
    is_immediate = false;
  }

  semicolon_found :
      find_builtin (builtin_words interpret_line o heap_fuel) (codes ";") ≡ some semicolon
  unfolding find_builtin bsearch compare_builtin_nodes nth strcmp builtin_words
  semicolon_found = refl

  interpret_token-dispatch :
      (m : Machine)
      → interpret_token o (builtin_words interpret_line o heap_fuel) (codes ";") m
        ≡ dispatch semicolon m
  unfolding interpret_token
  interpret_token-dispatch m = rw (interpret_token, semicolon_found)

  -- In compiling mode the token ; is compiled as any other: the word 39 is laid down at the frontier,
  -- which moves on by 4, and nothing else changes, so the context stays in compiling mode. The handler
  -- that would end the definition is not called.
  pub interpret_token-semicolon :
      (m : Machine) (v : Vm)
      → m.current_forth_vm ≡ some v
      → v.state ≡ ForthState.compile
      → is_word v.dict_free_ptr ≡ true
      → interpret_token o (builtin_words interpret_line o heap_fuel) (codes ";") m
        ≡ ok tt (record m {
          bus = store m.bus v.dict_free_ptr 39;
          current_forth_vm = some (record v { dict_free_ptr = add32 v.dict_free_ptr 4 });
        })
  interpret_token-semicolon m v running s h =
      interpret_token-dispatch m
      ∙ dispatch-compile_token m running h semicolon s refl
      ∙ compile_token_at m running h 39
