-- ===== src/Files/Handles.antt =====
-- A handle that F-OPEN or F-CREATE gave out, and its release by F-CLOSE.
use u_forth.Prelude.{
  ℕ, ◌-◌, ◌≤◌, ◌<◌, ◌≡◌, ◌≢◌, ◌∙◌, refl, sym, Bool-cases, inl, inr, true, false, ltb, ◌||◌, ◌==◌,
  if◌then◌else◌, Option, none, some, List, [], ◌∷◌, ap, arith,
}
use u_forth.Vm
use u_forth.Vm.{Vm}
use u_forth.Vm.Refine.{HasRoom, view, pop-push}
use u_forth.Machine.{Action, Files, Machine, ok, ◌>>=◌, ◌>>◌}
use u_forth.Machine.Laws.{with_vm, push_at, pop_at, if_vm_at}
use u_forth.Outside.{Outside}
use u_forth.Words.{if_running, if_running-runs}
use u_forth.Files.{
  max_open_files, set_slot, close_slot, find_slot, open_named, stream_of, close_handle, open_file,
  read_name, forth_primitive_f_open, forth_primitive_f_create, forth_primitive_f_close,
}
use u_forth.Files.Slots.{close_slot-closed, close_slot-table, find_slot-range}

abbrev with_files : Machine → Files → Machine
with_files m f = record m { files = f }

-- The handle that the search for a free slot gives.
abbrev slot_for : Machine → ℕ
slot_for m = find_slot max_open_files 0 m.files.sys_file_table

module _ (files : Files) (slot f : ℕ) (low : 0 < slot) (high : slot ≤ 4)
    (free : files.sys_file_table (slot - 1) ≡ none) where
  abbrev pub opened : Files
  opened = record files { sys_file_table = set_slot files.sys_file_table (slot - 1) (some f) }

  opened-stream : stream_of slot opened ≡ some f
  unfolding stream_of
  opened-stream =
      let range : (slot == 0 || ltb max_open_files slot) ≡ false = ground arith in
      let same : (slot - 1 == slot - 1) ≡ true = ground arith in rw (stream_of, range, same) refl

  closed-table : (k : ℕ) → (close_slot (slot - 1) opened).sys_file_table k ≡ files.sys_file_table k
  closed-table k = close_slot-table (slot - 1) opened k ∙ by_slot k
    where
      by_slot :
          (k : ℕ)
          → (if k == slot - 1
              then none
              else if k == slot - 1
              then some f
              else files.sys_file_table k)
            ≡ files.sys_file_table k
      by_slot k = elim (Bool-cases (k == slot - 1)) [
        | inr other ↦ rw other refl
        | inl same ↦ (let at : slot - 1 ≡ k = ground arith in rw same (rw at at (sym free)))
      ]

  closed-closed : (close_slot (slot - 1) opened).closed ≡ f ∷ files.closed
  closed-closed =
      let same : (slot - 1 == slot - 1) ≡ true = ground arith in
      close_slot-closed (slot - 1) opened ∙ (rw same refl)

  close_handle-opened :
      (m : Machine)
      → close_handle slot (with_files m opened)
        ≡ ok tt (with_files m (close_slot (slot - 1) opened))
  unfolding close_handle
  close_handle-opened m = rw (close_handle, ◌>>=◌, opened-stream) refl

open_named-opened :
    (fopen : List ℕ → Option ℕ) (filename : List ℕ) (m : Machine) (v : Vm) (f : ℕ)
    (low : 0 < slot_for m) (high : slot_for m ≤ 4)
    (free : m.files.sys_file_table (slot_for m - 1) ≡ none)
    → m.current_forth_vm ≡ some v
    → fopen filename ≡ some f
    → open_named fopen filename m
      ≡ ok tt (
          with_vm
            (with_files m (opened m.files (slot_for m) f low high free))
            (Vm.push (slot_for m) v))
unfolding open_named
open_named-opened fopen filename m v f low high free running opens =
    let other : (slot_for m == 0) ≡ false = ground arith in
    rw (open_named, ◌>>=◌, ◌>>◌, other, opens)
      (push_at (with_files m (opened m.files (slot_for m) f low high free)) running (slot_for m))

-- F-OPEN and F-CREATE, and the mode that each of them gives to `fopen`.
pub data Opening : Type 0 where
  reading creating : Opening

abbrev pub opening_word : Opening → Outside → Action (Unit {0})
opening_word Opening.reading = forth_primitive_f_open
opening_word Opening.creating = forth_primitive_f_create

abbrev pub mode_of : Opening → List ℕ
mode_of Opening.reading = b'r' ∷ []
mode_of Opening.creating = b'w' ∷ b'+' ∷ []

opening_word-open_named :
    (k : Opening) (o : Outside) (filename : List ℕ) (m : Machine) (v v₂ : Vm)
    → m.current_forth_vm ≡ some v
    → (Vm.pop (Vm.pop v).1).1 ≡ v₂
    → v₂.abort_flag ≡ 0
    → read_name (Vm.pop (Vm.pop v).1).0 (Vm.pop v).0 (with_vm m v₂) ≡ ok filename (with_vm m v₂)
    → opening_word k o m ≡ open_named (λ name. o.fopen name (mode_of k)) filename (with_vm m v₂)
unfolding forth_primitive_f_open forth_primitive_f_create open_file
opening_word-open_named k o filename m v v₂ running popped clean name = by_word k
  where
    opens :
        (fopen : List ℕ → Option ℕ) → open_file fopen m ≡ open_named fopen filename (with_vm m v₂)
    opens fopen =
        let (len, v₁) = Vm.pop v in
        let addr = (Vm.pop v₁).0 in
        let named : Action (Unit {0}) = (do found ← read_name addr len; open_named fopen found) in
        if_vm_at m running _
        ∙ (rw (◌>>=◌, pop_at m running, pop_at (with_vm m v₁) refl)
            (ap (λ u. if_running named (with_vm m u)) popped
              ∙ if_running-runs named m v₂ clean
              ∙ (rw (◌>>=◌, name) refl)))

    by_word :
        (k : Opening)
        → opening_word k o m ≡ open_named (λ name. o.fopen name (mode_of k)) filename (with_vm m v₂)
    by_word Opening.reading = opens _
    by_word Opening.creating = opens _

pop-push_clean : (x : ℕ) {v : Vm} → HasRoom v → (Vm.pop (Vm.push x v)).1.abort_flag ≡ 0
unfolding Vm.pop Vm.push
pop-push_clean x h = ground arith

f_close-close_handle :
    (m : Machine) (slot : ℕ) {v : Vm}
    → m.current_forth_vm ≡ some (Vm.push slot v)
    → HasRoom v
    → forth_primitive_f_close m ≡ close_handle slot (with_vm m (Vm.pop (Vm.push slot v)).1)
unfolding forth_primitive_f_close
f_close-close_handle m slot {v} running room =
    let w = Vm.push slot v in
    let (same, kept) = pop-push slot room in
    if_vm_at m running _
    ∙ (rw (◌>>=◌, pop_at m running)
        (if_running-runs (close_handle (Vm.pop w).0) m (Vm.pop w).1 (pop-push_clean slot room)
          ∙ ap (λ s. close_handle s (with_vm m (Vm.pop w).1)) same))

-- While the name is read, a slot is free, `fopen` gives a stream for the name in the word's mode, and
-- the stack below the name has room without an abort, F-OPEN and F-CREATE push a handle from 1 to 4
-- whose slot was free, and an F-CLOSE that follows takes this handle, closes this stream and nothing
-- else, and leaves the table as it was and the stack below the name.
pub opening_word-f_close :
    (k : Opening) (o : Outside) (m : Machine) (v v₂ : Vm) (filename : List ℕ) (f : ℕ)
    → m.current_forth_vm ≡ some v
    → (Vm.pop (Vm.pop v).1).1 ≡ v₂
    → HasRoom v₂
    → read_name (Vm.pop (Vm.pop v).1).0 (Vm.pop v).0 (with_vm m v₂) ≡ ok filename (with_vm m v₂)
    → find_slot max_open_files 0 m.files.sys_file_table ≢ 0
    → o.fopen filename (mode_of k) ≡ some f
    → (slot : ℕ) × (m' m'' : Machine) × (w : Vm) × (0 < slot)
      × (slot ≤ 4)
      × (m.files.sys_file_table (slot - 1) ≡ none)
      × (opening_word k o m ≡ ok tt m')
      × (m'.current_forth_vm ≡ some (Vm.push slot v₂))
      × (stream_of slot m'.files ≡ some f)
      × (forth_primitive_f_close m' ≡ ok tt m'')
      × ((i : ℕ) → m''.files.sys_file_table i ≡ m.files.sys_file_table i)
      × (m''.files.closed ≡ f ∷ m.files.closed)
      × (m''.current_forth_vm ≡ some w)
      × (view w ≡ view v₂)
opening_word-f_close k o m v v₂ filename f running popped room name some_free opens =
    elim (find_slot-range m.files.sys_file_table 4 0) [
      | inl z ↦ absurd (some_free z)
      | inr (low, high, free) ↦
          let slot = find_slot max_open_files 0 m.files.sys_file_table in
          let opened_files = opened m.files slot f low high free in
          let m' = with_vm (with_files m opened_files) (Vm.push slot v₂) in
          let w = (Vm.pop (Vm.push slot v₂)).1 in
          (
            slot,
            m',
            _,
            w,
            low,
            high,
            free,
            opening_word-open_named k o filename m v v₂ running popped room.running name
                ∙ open_named-opened (λ name. o.fopen name (mode_of k)) filename (with_vm m v₂) v₂ f
                    low high free refl opens,
            refl,
            opened-stream m.files slot f low high free,
            f_close-close_handle m' slot refl room
                ∙ close_handle-opened m.files slot f low high free (with_vm m w),
            closed-table m.files slot f low high free,
            closed-closed m.files slot f low high free,
            refl,
            (pop-push slot room).1,
          )
    ]
