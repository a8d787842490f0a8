-- ===== src/Widths/Stacks.antt =====
-- The functions of forth_vm.c keep the context within its widths.
use u_forth.Prelude.{
  ℕ, ◌-◌, ◌≤◌, inl, inr, Bool-cases, Bool, true, false, if◌then◌else◌, arith, ltb, leb, ◌==◌,
  update,
}
use u_forth.Vm
use u_forth.Vm.{Vm}
use u_forth.Widths.{IsWord, VmFits}

update-IsWord :
    (f : ℕ → ℕ) (k x : ℕ) → ((i : ℕ) → IsWord (f i)) → IsWord x → (i : ℕ) → IsWord (update f k x i)
unfolding IsWord
update-IsWord f k x g p i = ground (arith, g i)

pub zero-IsWord : IsWord 0
unfolding IsWord
zero-IsWord = omega arith

module _ (v : Vm) (h : VmFits v) where
  pub abort-VmFits : VmFits (Vm.abort v)
  unfolding Vm.abort
  abort-VmFits = record {
    data_stack = h.data_stack;
    return_stack = h.return_stack;
    sp = omega arith;
    rp = omega arith;
    ip = h.ip;
    latest_word = h.latest_word;
    dict_free_ptr = h.dict_free_ptr;
    parse_line_ptr = h.parse_line_ptr;
  }

  with_data :
      (f : ℕ → ℕ) (n : ℕ)
      → ((i : ℕ) → IsWord (f i))
      → n ≤ 64
      → VmFits (record v { data_stack = f; sp = n })
  with_data f n g le = record {
    data_stack = g;
    return_stack = h.return_stack;
    sp = le;
    rp = h.rp;
    ip = h.ip;
    latest_word = h.latest_word;
    dict_free_ptr = h.dict_free_ptr;
    parse_line_ptr = h.parse_line_ptr;
  }

  with_return :
      (f : ℕ → ℕ) (n : ℕ)
      → ((i : ℕ) → IsWord (f i))
      → n ≤ 64
      → VmFits (record v { return_stack = f; rp = n })
  with_return f n g le = record {
    data_stack = h.data_stack;
    return_stack = g;
    sp = h.sp;
    rp = le;
    ip = h.ip;
    latest_word = h.latest_word;
    dict_free_ptr = h.dict_free_ptr;
    parse_line_ptr = h.parse_line_ptr;
  }

  module _ (x : ℕ) (p : IsWord x) where
    pub push-VmFits : VmFits (Vm.push x v)
    unfolding Vm.push
    push-VmFits = elim (Bool-cases (v.abort_flag == 0)) [
      | inr e ↦ rw e h
      | inl e ↦ elim (Bool-cases (leb 64 v.sp)) [
        | inl full ↦ rw (e, full) abort-VmFits
        | inr room ↦
            rw (e, room)
              (with_data _ _ (update-IsWord v.data_stack v.sp x h.data_stack p) (ground arith))
      ]
    ]

    pub r_push-VmFits : VmFits (Vm.r_push x v)
    unfolding Vm.r_push
    r_push-VmFits = elim (Bool-cases (v.abort_flag == 0)) [
      | inr e ↦ rw e h
      | inl e ↦ elim (Bool-cases (leb 64 v.rp)) [
        | inl full ↦ rw (e, full) abort-VmFits
        | inr room ↦
            rw (e, room)
              (with_return _ _ (update-IsWord v.return_stack v.rp x h.return_stack p)
                (ground arith))
      ]
    ]

  pub pop-VmFits : IsWord (Vm.pop v).0 × VmFits (Vm.pop v).1
  unfolding Vm.pop
  pop-VmFits = elim (Bool-cases (v.abort_flag == 0)) [
    | inr e ↦ rw e (zero-IsWord, h)
    | inl e ↦ elim (Bool-cases (v.sp == 0)) [
      | inl empty ↦ rw (e, empty) (zero-IsWord, abort-VmFits)
      | inr some' ↦
          let le : v.sp - 1 ≤ 64 = omega (arith, h.sp) in
          rw (e, some') (h.data_stack (v.sp - 1), with_data _ _ h.data_stack le)
    ]
  ]

  pub r_pop-VmFits : IsWord (Vm.r_pop v).0 × VmFits (Vm.r_pop v).1
  unfolding Vm.r_pop
  r_pop-VmFits = elim (Bool-cases (v.abort_flag == 0)) [
    | inr e ↦ rw e (zero-IsWord, h)
    | inl e ↦ elim (Bool-cases (v.rp == 0)) [
      | inl empty ↦ rw (e, empty) (zero-IsWord, abort-VmFits)
      | inr some' ↦
          let le : v.rp - 1 ≤ 64 = omega (arith, h.rp) in
          rw (e, some') (h.return_stack (v.rp - 1), with_return _ _ h.return_stack le)
    ]
  ]

  pub drop-VmFits : VmFits (Vm.drop v)
  unfolding Vm.drop
  drop-VmFits = pop-VmFits.1

  -- The two tests that the words of the data stack make first.
  guarded-VmFits :
      (running few : Bool) (w : Vm)
      → VmFits w
      → VmFits (if running then if few then Vm.abort v else w else v)
  guarded-VmFits false few w k = h
  guarded-VmFits true true w k = abort-VmFits
  guarded-VmFits true false w k = k

  pub dup-VmFits : VmFits (Vm.dup v)
  unfolding Vm.dup
  dup-VmFits = guarded-VmFits _ (v.sp == 0) _ (push-VmFits _ (h.data_stack (v.sp - 1)))

  pub over-VmFits : VmFits (Vm.over v)
  unfolding Vm.over
  over-VmFits = guarded-VmFits _ (ltb v.sp 2) _ (push-VmFits _ (h.data_stack (v.sp - 2)))

  pub swap-VmFits : VmFits (Vm.swap v)
  unfolding Vm.swap
  swap-VmFits = guarded-VmFits _ (ltb v.sp 2) _ (
      with_data _ _
        (update-IsWord _ (v.sp - 2) _
          (update-IsWord v.data_stack (v.sp - 1) _ h.data_stack (h.data_stack (v.sp - 2)))
          (h.data_stack (v.sp - 1)))
        h.sp)
