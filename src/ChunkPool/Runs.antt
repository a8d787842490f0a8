-- ===== src/ChunkPool/Runs.antt =====
-- Sequences of calls of the chunk pool, and the free list they act on.
use u_forth.Prelude.{ℕ, ◌+◌, ◌*◌, ◌≤◌, ◌<◌, ◌≡◌, ◌⊎◌, refl, some, List, [], ◌∷◌, length, ◌∙◌}
use u_forth.Vm
use u_forth.Vm.{Vm}
use u_forth.Machine.{Action, Machine, ok, pure, ◌>>◌, ◌>>=◌, forth_push}
use u_forth.Machine.Laws.{with_vm, push_at}
use u_forth.ChunkPool.{
  chunk_count, chunk_size, chunk_pool_base, forth_cmd_alloc_chunk, forth_cmd_free_chunk,
}
use u_forth.ChunkPool.Chain.{IsChunk, IsValid, NotIn}
use u_forth.ChunkPool.Alloc.{alloc_chunk-Takes, alloc_chunk_empty}
use u_forth.ChunkPool.Free.{free_chunk_at-IsValid, free_chunk_at-ignored, free_chunk-pop}

-- `ALLOC-CHUNK`, `FREE-CHUNK`, and an address put on the data stack.
pub data Call : Type 0 where
  alloc free : Call
  push : ℕ → Call

abbrev pub call : Call → Action (Unit {0})
call Call.alloc = forth_cmd_alloc_chunk
call Call.free = forth_cmd_free_chunk
call (Call.push x) = forth_push x

abbrev pub calls : List Call → Action (Unit {0})
calls [] = pure tt
calls (c ∷ cs) = call c >> calls cs

-- What the calls make of a list of free chunks and of the context: the first chunk is taken and its
-- address pushed, nothing happens where none is left, a chunk in use whose address is popped comes
-- to the head, and an address outside the pool is ignored.
pub data Serves : List ℕ → Vm → List Call → List ℕ → Vm → Type 0 where
  done : {xs : List ℕ} {v : Vm} → Serves xs v [] xs v
  takes :
      {x : ℕ} {xs ys : List ℕ} {cs : List Call} {v w : Vm}
      → Serves xs (Vm.push x v) cs ys w
      → Serves (x ∷ xs) v (Call.alloc ∷ cs) ys w
  empty :
      {ys : List ℕ} {cs : List Call} {v w : Vm}
      → Serves [] v cs ys w
      → Serves [] v (Call.alloc ∷ cs) ys w
  gives :
      {xs ys : List ℕ} {cs : List Call} {v w : Vm}
      → IsChunk (Vm.pop v).0
      → NotIn (Vm.pop v).0 xs
      → length xs < chunk_count
      → Serves ((Vm.pop v).0 ∷ xs) (Vm.pop v).1 cs ys w
      → Serves xs v (Call.free ∷ cs) ys w
  ignores :
      {xs ys : List ℕ} {cs : List Call} {v w : Vm}
      → ((Vm.pop v).0 < chunk_pool_base)
        ⊎ (chunk_pool_base + chunk_count * chunk_size ≤ (Vm.pop v).0)
      → Serves xs (Vm.pop v).1 cs ys w
      → Serves xs v (Call.free ∷ cs) ys w
  pushes :
      (x : ℕ) {xs ys : List ℕ} {cs : List Call} {v w : Vm}
      → Serves xs (Vm.push x v) cs ys w
      → Serves xs v (Call.push x ∷ cs) ys w

-- The free list and the context of a machine with a valid pool.
pub record Holds (m : Machine) (xs : List ℕ) (v : Vm) : Type 0 where
  pub pool : IsValid m xs
  pub running : m.current_forth_vm ≡ some v

with_vm-Holds : (m : Machine) {xs : List ℕ} (v : Vm) → IsValid m xs → Holds (with_vm m v) xs v
with_vm-Holds m v inv = record {
  pool = record { chain = inv.chain; counted = inv.counted };
  running = refl;
}

-- One call, and what is left of the contract behind it.
abbrev Goes : Call → List Call → Machine → List ℕ → Vm → Type 0
Goes c cs m ys w = (m' : Machine) × (calls (c ∷ cs) m ≡ ok tt m') × Holds m' ys w

and_then :
    (c : Call) (cs : List Call) (m m₁ : Machine) {ys : List ℕ} {w : Vm}
    → call c m ≡ ok tt m₁
    → (m' : Machine) × (calls cs m₁ ≡ ok tt m') × Holds m' ys w
    → Goes c cs m ys w
and_then c cs m m₁ first (m', rest, held) = (m', rw (◌>>◌, ◌>>=◌, first) rest, held)

-- Any sequence of ALLOC-CHUNK, FREE-CHUNK and pushed addresses, in which each FREE-CHUNK pops the
-- address of a chunk in use or one outside the pool, succeeds on a valid pool and acts on its free list
-- and on the context as the contract says; the pool is valid at the end.
pub calls-Serves :
    (xs ys : List ℕ) (v w : Vm) (cs : List Call)
    → Serves xs v cs ys w
    → (m : Machine) → Holds m xs v
    → (m' : Machine) × (calls cs m ≡ ok tt m') × Holds m' ys w
calls-Serves _ _ _ _ _ Serves.done m held = (m, refl, held)
calls-Serves _ ys _ w _ (Serves.takes {x} {xs} {cs} {v} s) m held =
    let (m₁, run, t, inv) = alloc_chunk-Takes m v held.running x xs held.pool in
    let next : Holds m₁ xs (Vm.push x v) = record { pool = inv; running = t.pushed } in
    and_then Call.alloc cs m m₁ run (calls-Serves xs ys (Vm.push x v) w cs s m₁ next)
calls-Serves _ ys _ w _ (Serves.empty {cs} {v} s) m held =
    and_then Call.alloc cs m m (alloc_chunk_empty m held.pool) (calls-Serves [] ys v w cs s m held)
calls-Serves _ ys _ w _ (Serves.gives {xs} {cs} {v} h out fit s) m held =
    let (a, popped) = Vm.pop v in
    let before = with_vm-Holds m popped held.pool in
    let (m₁, run, inv, same, kept) =
      free_chunk_at-IsValid (with_vm m popped) a xs h out fit before.pool in
    let next : Holds m₁ (a ∷ xs) popped = record { pool = inv; running = kept ∙ before.running } in
    and_then Call.free cs m m₁ (free_chunk-pop m held.running ∙ run)
      (calls-Serves (a ∷ xs) ys popped w cs s m₁ next)
calls-Serves _ ys _ w _ (Serves.ignores {xs} {cs} {v} outside s) m held =
    let (a, popped) = Vm.pop v in
    let m₁ = with_vm m popped in
    and_then Call.free cs m m₁ (free_chunk-pop m held.running ∙ free_chunk_at-ignored m₁ a outside)
      (calls-Serves xs ys popped w cs s m₁ (with_vm-Holds m popped held.pool))
calls-Serves _ ys _ w _ (Serves.pushes x {xs} {cs} {v} s) m held =
    let m₁ = with_vm m (Vm.push x v) in
    and_then (Call.push x) cs m m₁ (push_at m held.running x)
      (calls-Serves xs ys (Vm.push x v) w cs s m₁ (with_vm-Holds m (Vm.push x v) held.pool))
