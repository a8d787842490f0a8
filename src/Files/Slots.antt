-- ===== src/Files/Slots.antt =====
-- The table of open files: closing all of it, and finding a free slot.
use u_forth.Prelude.{
  ℕ, zero, suc, ◌+◌, ◌-◌, ◌≤◌, ◌<◌, ◌≡◌, ◌⊎◌, ◌∙◌, refl, sym, ap, Bool-cases, Option-cases, inl,
  inr, ltb, leb, ◌&&◌, ◌==◌, if◌then◌else◌, Option, none, some, List, [], ◌∷◌, ◌++◌, arith,
}
use mathlib.Core.List.{append_assoc}
use u_forth.Machine.{Files}
use u_forth.Files.{close_slot, close_slots, purge_sys_file_table, find_slot}

abbrev pub stream_list : Option ℕ → List ℕ
stream_list none = []
stream_list (some f) = f ∷ []

-- The streams of `n` slots from `i` on, the last one first.
abbrev pub streams : (ℕ → Option ℕ) → ℕ → ℕ → List ℕ
streams table i zero = []
streams table i (suc n) = streams table (i + 1) n ++ stream_list (table i)

streams-above :
    (table table' : ℕ → Option ℕ) (i n : ℕ)
    → ((k : ℕ) → i ≤ k → table' k ≡ table k)
    → streams table' i n ≡ streams table i n
streams-above table table' i zero h = refl
streams-above table table' i (suc n) h =
    rw (h i (omega arith), streams-above table table' (i + 1) n (λ k le. h k (omega arith))) refl

module _ (i : ℕ) (files : Files) where
  pub close_slot-closed :
      (close_slot i files).closed ≡ stream_list (files.sys_file_table i) ++ files.closed
  unfolding close_slot
  close_slot-closed = elim (Option-cases (files.sys_file_table i)) [
    | inl e ↦ rw (close_slot, e) refl
    | inr (f, e) ↦ rw (close_slot, e) refl
  ]

  pub close_slot-table :
      (k : ℕ)
      → (close_slot i files).sys_file_table k ≡ (if k == i then none else files.sys_file_table k)
  unfolding close_slot
  close_slot-table k = elim (Option-cases (files.sys_file_table i)) [
    | inr (f, e) ↦ rw (close_slot, e) refl
    | inl e ↦ elim (Bool-cases (k == i)) [
      | inr other ↦ rw (close_slot, e, other) refl
      | inl same ↦
          (let at : k ≡ i = ground arith in
            rw (close_slot, e, same) (ap files.sys_file_table at ∙ e))
    ]
  ]

  pub close_slot-stack : (close_slot i files).file_stack_ptr ≡ files.file_stack_ptr
  unfolding close_slot
  close_slot-stack = elim (Option-cases (files.sys_file_table i)) [
    | inl e ↦ rw (close_slot, e) refl
    | inr (f, e) ↦ rw (close_slot, e) refl
  ]

close_slots-table :
    (left i k : ℕ) (files : Files)
    → (close_slots left i files).sys_file_table k
      ≡ (if leb i k && ltb k (i + left) then none else files.sys_file_table k)
unfolding close_slots
close_slots-table zero i k files = ground arith
close_slots-table (suc left) i k files =
    close_slots-table left (i + 1) k (close_slot i files)
    ∙ (rw (close_slot-table i files k) (ground arith))

close_slots-closed :
    (left i : ℕ) (files : Files)
    → (close_slots left i files).closed ≡ streams files.sys_file_table i left ++ files.closed
unfolding close_slots
close_slots-closed zero i files = refl
close_slots-closed (suc left) i files =
    let above =
      streams-above files.sys_file_table (close_slot i files).sys_file_table (i + 1) left
        (λ k le. close_slot-table i files k ∙ (ground arith)) in
    close_slots-closed left (i + 1) (close_slot i files)
    ∙ (rw (above, close_slot-closed i files)
        (sym (
          append_assoc (streams files.sys_file_table (i + 1) left)
            (stream_list (files.sys_file_table i)) files.closed)))

-- purge_sys_file_table leaves the four slots empty and any other as it is, and closes the streams that
-- stood in the four slots once each, in their order.
pub purge_sys_file_table-closes :
    (files : Files)
    → ((k : ℕ)
        → (purge_sys_file_table files).sys_file_table k
          ≡ (if ltb k 4 then none else files.sys_file_table k))
      × ((purge_sys_file_table files).closed ≡ streams files.sys_file_table 0 4 ++ files.closed)
unfolding purge_sys_file_table
purge_sys_file_table-closes files =
    (λ k. close_slots-table 4 0 k files ∙ (ground arith), close_slots-closed 4 0 files)

module _ (table : ℕ → Option ℕ) where
  pub find_slot-range :
      (left i : ℕ)
      → (find_slot left i table ≡ 0)
        ⊎ ((i < find_slot left i table)
            × (find_slot left i table ≤ i + left)
            × (table (find_slot left i table - 1) ≡ none))
  unfolding find_slot
  find_slot-range zero i = inl refl
  find_slot-range (suc left) i = elim (Option-cases (table i)) [
    | inl e ↦
        (let back : i + 1 - 1 ≡ i = omega arith in rw e (inr (omega arith, omega arith, rw back e)))
    | inr (f, e) ↦ rw e (elim (find_slot-range left (i + 1)) [
      | inl z ↦ inl z
      | inr (low, high, free) ↦ inr (omega (arith, low), omega (arith, high), free)
    ])
  ]
