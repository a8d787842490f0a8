-- ===== src/Lib.antt =====
-- A model of uForth, a Forth system in C for a small machine with a fast SRAM and an external SPI-RAM,
-- and the theorems that make its parts correct.
--
-- The parts, from the bottom up. `hardware.c` is the bus: two byte memories that the rest reads and
-- writes by address. `forth_vm.c` keeps the context of a Forth task, two stacks of 64 cells and the
-- registers, behind the pointer `current_forth_vm`. `forth_cell_pool.c`, `forth_chunk_pool.c` and
-- `forth_heap.c` are three allocators whose blocks lie on the bus; their words take arguments from the
-- data stack and leave results there. `forth_dict.c` has the built-in words, the compiling words that
-- lay down threaded code on the bus, the primitives that run it, the table of built-in words with its
-- search, the interpreter of lines, and the words on files. `forth_debug.c` exports what the pools, the
-- stacks and the dictionary hold. `main.c` starts the parts in their order and then hands one line
-- after the other to the interpreter.
--
-- Which module models what:
--   Prelude     lists, lookups, Boolean tests and the integers over the native numbers
--   Bus         hardware.c: hw_init, hw_read8 .. hw_write32, hw_spi_ram_read_buf, hw_spi_ram_write_buf.
--               A fault (`exit(1)`) is `none`.
--   Vm          forth_vm.c and the type ForthMachineState_t of forth_vm.h. Vm/Stacks is the contract,
--               two bounded lists and an abort state; Vm/Refine relates the code to it.
--   Machine     the state of the whole program, and its functions as runs from a state to a result and
--               a state, or to a stop: the bus fault, a null pointer followed, the model's own fuel.
--               The functions of Bus and Vm are lifted to it; Machine/Laws has their equations.
--   CellPool    forth_cell_pool.c: FAST-CELL and FAST-CELL-FREE
--   ChunkPool   forth_chunk_pool.c: chunk_pool_init, ALLOC-CHUNK and FREE-CHUNK. ChunkPool/Runs has the
--               contract of the pool: what a sequence of calls makes of a list of free chunks.
--   Heap        forth_heap.c, and the words ALLOCATE and FREE of forth_dict.c
--   Words       forth_dict.c: arithmetic, comparisons, shifts, memory words and printing words
--   Compiler    forth_dict.c: the numeric branch of process_token, BEGIN UNTIL AGAIN IF ELSE THEN : ;
--               and the primitives LIT, BRANCH, 0BRANCH, EXIT
--   Strings     forth_dict.c: S" and its primitive, comments, the header that dict_add_word writes;
--               Strings/Chars has CHAR, [CHAR] and the words for ."
--   Values      forth_dict.c: the primitives (CONSTANT), (VALUE), (TO) and (VARIABLE); Values/Define has
--               the words CONSTANT, VARIABLE and TO
--   Outside     the functions that forth_dict.c calls and the repository does not define
--   Numbers     forth_dict.c: parse_forth_number, with strtoll of the C library
--   Files       forth_dict.c: F-OPEN, F-CREATE, F-READ, F-WRITE, F-CLOSE, the purge of the table of open
--               files, and INCLUDED
--   Debug       forth_debug.c: the rows of the two exports; MEM-DUMP of forth_dict.c
--   Builtins    forth_dict.c: find_builtin with bsearch of the C library, the test of the order, and in
--               Builtins/Table the table builtin_words; Builtins/Tokens has the enumeration forth_xt_t of
--               forth_dict.h, its repeated members counted once, and Builtins/Back leads a token back
--   Interpreter forth_dict.c: process_token and forth_interpret_line. Interpreter/Keeps has the actions
--               that leave the line alone.
--   Executor    forth_dict.c: execute_native_id and the loop of forth_execute_compiled_xt.
--               Executor/Steps has the loop as a step relation.
--   Main        main.c: the initialisation, the recovery from an abort and a round of the interactive
--               loop; dict_init of forth_dict.c and vm_dump_stack of forth_vm.c. Main/Program has main
--               as a whole.
--   Widths      the widths of the C variables of every part, and the rules by which an action keeps them
--   Tests       concrete machines, tests and instances of the theorems
--
-- Numbers are natural numbers; a 32-bit sum, difference or product is written with its wrap-around.
-- The signed sums of `+`, `-` and `*` wrap, as the compilers that the program is built with have it. A
-- stack is a function of its index, and a memory a function of its offset. C! reduces
-- what it stores to eight bits. Diagnostic messages of `printf` are left out; what a word prints is
-- recorded as the call with its argument.
--
-- Loops with a fixed number of rounds are recursion on the number of rounds that are left: 32 bytes
-- and 8 bits in a bitmap, 19 links, 8 words of a chunk. The loop of TYPE prints one byte a round at
-- least, so the length of its string is enough fuel. The walks of the heap go along a chain of blocks
-- in memory, which may be a cycle once a program has written over it: they take fuel, and running out
-- is a stop of its own.
--
-- The interpreter of lines takes a round of fuel for a token and one for the end of the line, so that the
-- length of the line and 1 are enough when every token has a character. The executor takes a round for
-- each token of threaded code and one for the end; a program may loop for ever, so no amount is enough
-- for all. The exports walk along the free chunks, the heap and the dictionary with fuel. The halving
-- search takes at most as many rounds as the table has rows.
--
-- Parameters: the record of Outside holds what forth_dict.c calls and the repository does not define:
-- hw_spi_ram_read32, extract_next_token, parse_next_token_to_buf, dict_add_user_word,
-- dict_find_variable_address, try_parse_number, process_numeric_token, forth_abort_unknown_token,
-- get_public_handler_by_id and dummy_xt; and the host's files: fopen, the lines of fgets, fread and
-- fwrite. A theorem says what it asks of them: that hw_spi_ram_read32 reads as hw_read32 does, that
-- extract_next_token gets on in the line, that a handler does not lengthen the line, that what they give
-- fits the C type of their results.
--
-- `bsearch` asks for a table in order and C leaves open what it does with another one; the model halves
-- as the GNU C library does. The handler of a row is the C function itself, so the interpreter that
-- INCLUDED calls is an argument of the table.
--
-- The line that is interpreted is a value. After INCLUDED the C leaves parse_line_ptr in a buffer that no
-- longer exists; the model keeps what was left of the script's last line.
--
-- Not modelled: the status dumps of the pools, the formats of the exports and of the messages, which
-- only print; a failure of malloc in hw_init, and of fopen in the exports; hw_free at the end of main;
-- dict_find and forth_cmd_included of forth_dict.c, which nothing live calls, and the parts of the
-- sources that the preprocessor leaves out.
pub mod Prelude
pub mod Bus
pub mod Vm
pub mod Machine
pub mod CellPool
pub mod ChunkPool
pub mod Heap
pub mod Words
pub mod Compiler
pub mod Strings
pub mod Values
pub mod Outside
pub mod Numbers
pub mod Files
pub mod Debug
pub mod Builtins
pub mod Interpreter
pub mod Executor
pub mod Main
pub mod Widths
pub mod Tests
