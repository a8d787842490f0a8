-- ===== src/Tests.antt =====
-- Tests of the definitions by evaluation, and the theorems at concrete inputs.
mod Fixtures
mod Outside
mod Interpreter
mod Executor
mod Main
mod Numbers
mod Bus
mod Stack
mod Pools
mod Widths
mod Words
mod Compiler
mod Heap
mod Strings
mod Values
