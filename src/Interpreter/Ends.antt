-- ===== src/Interpreter/Ends.antt =====
-- The fuel of the loop over the tokens of a line.
use u_forth.Prelude.{
  ℕ, zero, suc, ◌≤◌, ◌<◌, ◌≡◌, refl, inl, inr, Bool-cases, Option-cases, ◌||◌, Option, none, some,
  List, length, arith,
}
use u_forth.Vm.{Vm}
use u_forth.Machine.{Action, Machine, Run, Stop, ok, stop, ◌>>=◌, get_vm, set_vm}
use u_forth.Outside.{Outside}
use u_forth.Compiler.{compile_token}
use u_forth.Strings.{set_parse_line_ptr}
use u_forth.Numbers.{is_end}
use u_forth.Builtins.{Builtin, nth, find_builtin}
use u_forth.Builtins.Search.{find_builtin-named}
use u_forth.Interpreter.{is_repl, dispatch, interpret_token, interpret_tokens, forth_interpret_line}
use u_forth.Interpreter.Keeps.{
  line_length, Ends, Keeps, Ends-le, Ends->>=, Keeps->>=, Keeps-branch, Keeps-get_vm,
  Keeps-compile_token,
}

-- What `extract_next_token` promises: the rest of the line is no longer than the line, and shorter
-- after a token.
abbrev pub Extracts : (List ℕ → Option (List ℕ) × List ℕ) → Type 0
Extracts extract =
    (line : List ℕ)
    → (length (extract line).1 ≤ length line)
      × ((token : List ℕ) → (extract line).0 ≡ some token → length (extract line).1 < length line)

-- No handler of the table puts more on the line, or runs out of fuel.
abbrev pub HandlersKeep : List Builtin → Type 0
HandlersKeep words = (i : ℕ) (w : Builtin) → nth words i ≡ some w → Keeps w.handler

abbrev pub OutsideKeeps : Outside → Type 0
OutsideKeeps o =
    Extracts o.extract_next_token
    × ((n : ℕ) → Keeps (o.process_numeric_token n))
    × ((token : List ℕ) → Keeps (o.forth_abort_unknown_token token))

-- What comes after a read of the context knows the context.
Ends-at :
    {A : Type 0} (n : ℕ) (m : Machine) (next : Vm → Action A)
    → ((v : Vm) → m.current_forth_vm ≡ some v → Ends n (next v m))
    → Ends n ((get_vm >>= next) m)
unfolding get_vm
Ends-at {A} n m next h = by_vm m.current_forth_vm h
  where
    by_vm :
        (c : Option Vm)
        → ((v : Vm) → c ≡ some v → Ends n (next v m))
        → Ends n
            (elim (elim c as (λ _. Run Vm) [ none ↦ stop Stop.null_pointer | some v ↦ ok v m ])
              as (λ _. Run A) [ ok v m' ↦ next v m' | stop s ↦ stop s ])
    by_vm none h = λ e. cc
    by_vm (some v) h = h v refl

Ends-set_line : (line : List ℕ) (m : Machine) → Ends (length line) (set_parse_line_ptr line m)
unfolding set_parse_line_ptr set_vm
Ends-set_line line m = Ends-at (length line) m _ λ v e. omega arith

Keeps-dispatch : (w : Builtin) → Keeps w.handler → Keeps (dispatch w)
unfolding dispatch
Keeps-dispatch w h = Keeps->>= get_vm _ Keeps-get_vm λ v.
    Keeps-branch (w.is_immediate || is_repl v.state) w.handler (compile_token w.xt_id) h
      (Keeps-compile_token w.xt_id)

module _ (o : Outside) (words : List Builtin) (outside : OutsideKeeps o)
    (handlers : HandlersKeep words) where
  Keeps-interpret_token : (token : List ℕ) → Keeps (interpret_token o words token)
  unfolding interpret_token
  Keeps-interpret_token token = elim (Option-cases (find_builtin words token)) [
    | inr (w, e) ↦
        let (i, at, named) = find_builtin-named words token w e in
        rw (interpret_token, e) (Keeps-dispatch w (handlers i w at))
    | inl e ↦ elim (Option-cases (o.try_parse_number token)) [
      | inl k ↦ rw (interpret_token, e, k) (outside.2 token)
      | inr (n, k) ↦ rw (interpret_token, e, k) (outside.1 n)
    ]
  ]

  interpret_tokens-Ends :
      (fuel : ℕ) (m : Machine)
      → line_length m < fuel
      → Ends (line_length m) (interpret_tokens fuel o words m)
  unfolding interpret_tokens
  interpret_tokens-Ends zero m h = absurd (omega arith)
  interpret_tokens-Ends (suc fuel) m h = Ends-at (line_length m) m _ λ v e.
      elim (Bool-cases (is_end v.parse_line_ptr)) [
        | inl end ↦ rw end (omega arith)
        | inr more ↦
            let (no_longer, shorter) = outside.0 v.parse_line_ptr in
            let rest = (o.extract_next_token v.parse_line_ptr).1 in
            let fits : length rest ≤ line_length m = rw e no_longer in
            rw more (
              Ends-le _ fits (
                Ends->>= (set_parse_line_ptr rest) _ (length rest) m (Ends-set_line rest m)
                  λ _ m' le. elim (Option-cases (o.extract_next_token v.parse_line_ptr).0) [
                    | inl k ↦ rw k le
                    | inr (token, k) ↦
                        let less : length rest < line_length m = rw e (shorter token k) in
                        rw k (
                          Ends->>= (interpret_token o words token) _ (length rest) m'
                            (Ends-le _ le (Keeps-interpret_token token m'))
                            (λ _ m'' le'.
                              Ends-le _ le' (interpret_tokens-Ends fuel m'' (omega (arith, less)))))
                  ]))
      ]

-- With more fuel than the line has characters, forth_interpret_line does not run out of it: it returns
-- with no more of a line left than it was given, or stops on the bus or at NULL. It is asked that
-- extract_next_token leaves no more than it was given and less when it found a token, and that no
-- handler, process_numeric_token or forth_abort_unknown_token lengthens the line.
forth_interpret_line-Ends :
    (o : Outside) (words : List Builtin)
    → OutsideKeeps o
    → HandlersKeep words
    → (fuel : ℕ) (line : List ℕ) (m : Machine) → length line < fuel
    → Ends (length line) (forth_interpret_line fuel o words line m)
unfolding forth_interpret_line
forth_interpret_line-Ends o words outside handlers fuel line m h =
    Ends->>= (set_parse_line_ptr line) _ (length line) m (Ends-set_line line m)
      λ _ m' le. Ends-le _ le (interpret_tokens-Ends o words outside handlers fuel m' (omega arith))
