-- ===== src/Executor/Layout.antt =====
-- What the compiler lays down for numbers and ;, and where.
use u_forth.Prelude.{
  ℕ, ◌+◌, ◌*◌, ◌^◌, ◌≤◌, ◌<◌, ◌≡◌, ◌∙◌, refl, true, some, List, [], ◌∷◌, length, arith,
}
use u_forth.Bus.{Bus}
use u_forth.Bus.Access.{is_word, load, store}
use u_forth.Bus.Words.{load-store_self, load-store_ne}
use u_forth.Vm.{Vm, ForthState}
use u_forth.Machine.{Action, Machine, ok, ◌>>=◌, ◌>>◌, set_vm}
use u_forth.Machine.Laws.{with_vm, with_bus, get_vm_at, write32_at, if_vm_at}
use u_forth.Words.Arith.{add32}
use u_forth.Compiler.{xt_lit, xt_exit, process_number, set_state, forth_cmd_semicolon}
use u_forth.Compiler.Layout.{
  second-is_word, with_pair, compile_pair_at, load-with_pair_operand, load-with_pair_token,
  set_dict_free_ptr_at,
}
use u_forth.Compiler.Literal.{process_number-compile_pair}
use u_forth.Executor.Literals.{Holds, Fits, Fits-rest, Fits-is_word, Fits-pair}

-- The numbers compiled, and ; behind them.
abbrev pub compile_literals : List ℕ → Action (Unit {0})
compile_literals [] = forth_cmd_semicolon
compile_literals (n ∷ ns) = process_number n >> compile_literals ns

-- The bus behind `compile_literals` from `p` on.
abbrev pub compiled : Bus → ℕ → List ℕ → Bus
compiled b p [] = store b p xt_exit
compiled b p (n ∷ ns) = compiled (with_pair b p xt_lit n) (p + 8) ns

abbrev pub AllWords : List ℕ → Type 0
AllWords [] = Unit {0}
AllWords (n ∷ ns) = (n < 2 ^ 32) × AllWords ns

compiled-load :
    (b : Bus) (p : ℕ) (ns : List ℕ) (a : ℕ)
    → Fits p ns
    → is_word a ≡ true
    → a + 4 ≤ p
    → load (compiled b p ns) a ≡ load b a
unfolding with_pair
compiled-load b p [] a fits w le =
    load-store_ne b p a xt_exit (Fits-is_word p [] fits) w (omega arith)
compiled-load b p (n ∷ ns) a fits w le =
    compiled-load (with_pair b p xt_lit n) (p + 8) ns a (Fits-rest p n ns fits) w (omega arith)
    ∙ load-store_ne (store b p xt_lit) (p + 4) a n (second-is_word (Fits-pair p n ns fits)) w
        (omega arith)
    ∙ load-store_ne b p a xt_lit (Fits-is_word p (n ∷ ns) fits) w (omega arith)

pub compiled-Holds :
    (b : Bus) (p : ℕ) (ns : List ℕ) → Fits p ns → AllWords ns → Holds (compiled b p ns) p ns
compiled-Holds b p [] fits lt = load-store_self b p xt_exit (omega arith)
compiled-Holds b p (n ∷ ns) fits (lt, lts) =
    let pair = Fits-pair p n ns fits in
    let b' = with_pair b p xt_lit n in
    let rest = Fits-rest p n ns fits in
    (
      compiled-load b' (p + 8) ns p rest (Fits-is_word p (n ∷ ns) fits) (omega arith)
          ∙ load-with_pair_token b pair xt_lit n (omega arith),
      compiled-load b' (p + 8) ns (p + 4) rest (second-is_word pair) (omega arith)
          ∙ load-with_pair_operand b pair xt_lit n lt,
      compiled-Holds b' (p + 8) ns rest lts,
    )

semicolon_at :
    (m : Machine) (v : Vm)
    → m.current_forth_vm ≡ some v
    → Fits v.dict_free_ptr []
    → forth_cmd_semicolon m
      ≡ ok tt (record m {
        bus = store m.bus v.dict_free_ptr xt_exit;
        current_forth_vm =
            some (record v { dict_free_ptr = v.dict_free_ptr + 4; state = ForthState.repl });
      })
unfolding forth_cmd_semicolon set_state set_vm
semicolon_at m v running fits =
    let p = v.dict_free_ptr in
    let m' = with_bus m (store m.bus p xt_exit) in
    let four : add32 p 4 ≡ p + 4 = omega (arith, fits.high) in
    let v' = record v { dict_free_ptr = p + 4 } in
    if_vm_at m running _
    ∙ (rw
        (
          ◌>>◌,
          ◌>>=◌,
          get_vm_at m running,
          write32_at p m xt_exit (Fits-is_word p [] fits),
          four,
          set_dict_free_ptr_at m' running (p + 4),
          get_vm_at (with_vm m' v') refl,
        )
        refl)

pub compile_literals_at :
    (ns : List ℕ) (m : Machine) (v : Vm)
    → m.current_forth_vm ≡ some v
    → v.state ≡ ForthState.compile
    → Fits v.dict_free_ptr ns
    → compile_literals ns m
      ≡ ok tt (record m {
        bus = compiled m.bus v.dict_free_ptr ns;
        current_forth_vm = some (record v {
          dict_free_ptr = v.dict_free_ptr + (8 * length ns + 4);
          state = ForthState.repl;
        });
      })
compile_literals_at [] m v running s fits = semicolon_at m v running fits
compile_literals_at (n ∷ ns) m v running s fits =
    let p = v.dict_free_ptr in
    let pair = Fits-pair p n ns fits in
    let v' = record v { dict_free_ptr = p + 8 } in
    let m' : Machine = record m { bus = with_pair m.bus p xt_lit n; current_forth_vm = some v' } in
    let total : p + 8 + (8 * length ns + 4) ≡ p + (8 * length (n ∷ ns) + 4) = omega arith in
    rw
      (
        ◌>>◌,
        ◌>>=◌,
        process_number-compile_pair m v n running s,
        compile_pair_at m running pair xt_lit n,
      )
      (compile_literals_at ns m' v' refl s (Fits-rest p n ns fits) ∙ (rw total refl))
