-- ===== src/Words/Memory.antt =====
-- The words that read and write memory, and those that move values between the stacks.
use u_forth.Prelude.{◌+◌, ◌%◌, ◌^◌}
use u_forth.Machine.{
  Action, ◌>>=◌, ◌>>◌, if_vm, hw_read8, hw_write8, hw_read32, hw_write32, forth_push, forth_pop,
  forth_r_push, forth_r_pop,
}
use u_forth.Words.{if_running}

unfoldable pub forth_primitive_store : Action (Unit {0})
forth_primitive_store = do addr ← forth_pop; val ← forth_pop; hw_write32 addr val

unfoldable pub forth_primitive_fetch : Action (Unit {0})
forth_primitive_fetch = do addr ← forth_pop; val ← hw_read32 addr; forth_push val

unfoldable pub forth_primitive_c_store : Action (Unit {0})
forth_primitive_c_store = do addr ← forth_pop; val ← forth_pop; hw_write8 addr (val % 2 ^ 8)

unfoldable pub forth_primitive_c_fetch : Action (Unit {0})
forth_primitive_c_fetch = do addr ← forth_pop; val ← hw_read8 addr; forth_push val

unfoldable pub forth_primitive_to_r : Action (Unit {0})
forth_primitive_to_r = do val ← forth_pop; forth_r_push val

unfoldable pub forth_primitive_from_r : Action (Unit {0})
forth_primitive_from_r = do val ← forth_r_pop; forth_push val

unfoldable pub forth_primitive_count : Action (Unit {0})
forth_primitive_count = if_vm (do
  base_addr ← forth_pop
  if_running
      (do str_len ← hw_read8 base_addr; forth_push ((base_addr + 1) % 2 ^ 32); forth_push str_len))
