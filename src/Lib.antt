-- ===== src/Lib.antt =====
-- toywasm, a WebAssembly interpreter in C: a model of its core and what is proved of it.
--
-- The program reads a binary module (lib/module.c) with LEB128 integers (lib/leb128.c), validates
-- the code of its functions instruction by instruction (lib/insn_impl_*.h in their part for
-- validation, on the context of lib/validation.c), and then interprets the same bytes without an
-- intermediate form (lib/exec.c). Validation leaves hints for the interpreter: a jump table, bounds
-- on the stacks, and the sizes of operands that the code does not show. The interpreter trusts that
-- validated code needs no checks; its loads and stores go through lib/exec_insn_subr.c.
--
-- Base: errors as results (`Result`: a return of 0, a return of an error number, or a fault, which
--   is a failed assertion or undefined behaviour), lists over the native numbers, words, bits.
-- Leb: lib/leb128.c, and write_leb_u32 of lib/module_writer.c. A pointer is the list of the bytes
--   behind it. The writer has fuel for 5 rounds, which is what 32 bits take.
-- Types: lib/valtype.h and the types of lib/type.h, compared as in lib/type.c, with the sizes in
--   cells of lib/cell.c.
-- Validation: the context of lib/validation.c, function by function. The invariant cuts the stack of
--   value types into the segments of the open control frames.
-- Annotation: record_type_annotation of lib/validation.c and find_type_annotation of lib/exec.c.
-- Insn: the part for validation of the instructions of lib/insn_impl_control.h and of the
--   parametric, variable and table instructions of lib/insn_impl_base.h, their operands decoded.
-- Exec: lib/exec.c: jump_table_lookup (the fuel is the length of the table and one); in Exec/Blocks
--   block_exit and the cache of exits before it; in Exec/Frames calls of functions, frames, labels
--   and branches, with do_branch on top. An instance is its index in the store.
-- Cells: cells_move of lib/cell.c, which branches move the results with.
-- Locals: read_locals and the index of cells of lib/module.c, the lookups of lib/cell.c by that index
--   and without it, write_locals of lib/module_writer.c.
-- Tables: the tables of lib/exec_insn_subr.c. A value is its four cells, a pointer two of them.
-- Decode: lib/decode.c: numbers of a fixed size, and vectors with the reader of an element as argument.
-- Names: names in UTF-8: check_utf8 and read_name of lib/module.c (fuel: the number of bytes), write_name
--   of lib/module_writer.c, compare_name of lib/type.c.
-- Modules: struct module of lib/type.h, its reader lib/module.c and its writer lib/module_writer.c:
--   types, imports and exports, segments, sections, and the loop over the sections (fuel: the number of
--   bytes); module_find_export of lib/type.c (33 rounds, which are enough for 32 bits). The readers of
--   expressions in lib/expr_parser.c, the bytes of an expression and qsort of the C library are
--   parameters.
-- Fdtable: libwasi/wasi_table.c, and wasi_fdinfo_release of libwasi/wasi_fdinfo.c.
-- Mem: lib/mem.c, and array_extend of lib/util.c. What malloc and realloc answer is a parameter.
-- Vec, Idalloc: lib/vec.c and lib/idalloc.c.
-- Time: lib/timeutil.c. What clock_gettime answers is a parameter.
-- Bitmap: lib/bitmap.c.
-- Memory: memories that are not shared, memory_init and data_drop of lib/exec_insn_subr.c. What
--   mem_extend of lib/mem.c answers is a parameter, `room`.
--
-- The build options are the defaults of cmake/ToywasmConfig.cmake (small cells, SIMD, no exception
-- handling, no custom page sizes, no threads) on a host with 64 bits. Elsewhere heap allocation
-- succeeds, and reports and traces are left out. Not modelled: the reading of expressions
-- (lib/expr_parser.c), the name section (lib/name.c), instances and linking, host functions and
-- restarts, expressions outside of functions and without a jump table, numeric instructions, shared
-- memories and threads. The rest of the host's part (libwasi, libwasi_threads, libwasi_littlefs,
-- libdyld) and the command line (cli) are left aside.
pub mod Base
pub mod Leb
pub mod Types
pub mod Validation
pub mod Annotation
pub mod Insn
pub mod Bitmap
pub mod Memory
pub mod Decode
pub mod Names
pub mod Modules
pub mod Exec
pub mod Time
pub mod Mem
pub mod Vec
pub mod Idalloc
pub mod Locals
pub mod Cells
pub mod Tables
pub mod Fdtable
