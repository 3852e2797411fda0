-- ===== src/Lib.antt =====
-- A model of the programs of this repository (UC Irvine CS238P projects 1 to 5, in C), with the
-- theorems that make them correct.
--
-- project-3 keeps a tree of strings in a memory that is mapped from a file. `main.c` there reads
-- commands and calls `avl.c`, an AVL tree with a count for each item; its nodes and strings come
-- from `scm.c`, which hands out blocks of the mapped file and keeps the bytes used in the file's
-- first words.
--
-- How the C code is rendered:
--   * `int` is `ℤ` (Common/Int) where the values stay small; `uint64_t` and `size_t` are numbers
--     whose sums and differences are taken modulo 2 ^ 64 (Common/Word).
--   * a call that changes state is a function from the state to an `Outcome` (Common/Outcome): `ret`
--     for a return, `abort` for EXIT, a failed assertion and a fault. Messages of TRACE are left out.
--   * a C string is the list of its bytes; `strcmp` gives the sign only (Common/Bytes).
--   * a recursion or loop that is not structural takes fuel, and `out_of_fuel` is then a third
--     outcome: that it does not come up is a theorem for each, for states that are well-formed where
--     the code needs that.
--
-- project-1 is a calculator: `lexer.c` makes tokens of the text, `parser.c` a tree of the tokens,
-- and `main.c` writes a C function for the tree, which is compiled, loaded and called.
--
-- project-1/lexer.c is Calc/Lexer, project-1/parser.c is Calc/Parser, and the code generator of
-- project-1/main.c is Calc/Generate; `double` is an abstract type. The parser's recursion through
-- `expr` is given two units of fuel more than there are tokens, since every deeper call has read
-- one (Calc/Fuel). Calc/Grammar has the grammar of the parser's comments, with its own table of
-- operators; Calc/Position, Calc/Sound and Calc/Chains lead from the calls to derivations,
-- Calc/Reads and Calc/Complete back, and Calc/Parsing joins them. Calc/Printing writes a tree as
-- tokens, and Calc/Missing has the case of an operator without its operand, where the code reads
-- beyond a table; `abort` stands for this. Calc/Evaluate gives the lines
-- of C their meaning; a literal that `%f` prints as `inf` or `nan` has none. Calc/Compile has the
-- correctness of the generated function. Calc/Lexing and Calc/Spelling are about the lexer, whose
-- fuel is one more than there are characters. Calc/Calculate puts the three together, as `main`
-- does. `strtod`, `isspace`, `printf`'s `%f` and the arithmetic of `double` are arguments. Not
-- modelled: running out of memory, freeing, and the files, the compiler and the loader that
-- `main` calls.
--
-- project-3/avl.c is Avl and the modules below it. A `struct node *` is a `Node`, NULL included,
-- with the addresses of the node and of its string beside the string's bytes; node memory is
-- taken to be disjoint from all else, which the theorems on blocks below justify. Avl/Heap is the
-- interface to the persistent heap, and Scm/Reopen shows that `scm.c` meets it. Avl/Insert has
-- `update`, Avl/Delete has `find_min` and `delete`, Avl/Api the operations of `avl.h`. The
-- recursion of `delete` takes one more unit of fuel than the tree has nodes: each call goes to a
-- smaller tree. The proofs go through two functions without state, `graft` (Avl/Graft) and
-- `prune` (Avl/Prune), with one module for each aspect: Avl/Order and Avl/Lookup, Avl/Balance
-- with Avl/Growth and Avl/Shrink, Avl/Totals. Avl/Depth bounds the height by the number of items.
-- Not modelled: `avl_open` and `avl_close`, and the printing of a tree.
--
-- project-3/scm.c is Scm and the modules below it. The mapped memory is a function from addresses
-- to the words that the heap itself writes, with the strings that it copies beside it; what a
-- program stores in its blocks is left out. Of the file only the bytes below its size are kept.
-- The loops over the headers go on modulo 2 ^ 64, and an address below the mapping is a fault,
-- `abort`; they take one more unit of fuel than bytes are used, which is enough on a list of
-- blocks, since each round then moves on by 16 bytes or more. Scm/Chain relates the memory to a
-- list of blocks, Scm/Malloc and Scm/Allocation have `scm_malloc`, Scm/Free has `scm_free`,
-- Scm/Reopen has `scm_open`, `scm_close` and `scm_strdup`, and Scm/Overrun what the code does at
-- the end of the file and with its count of bytes. What `open`, `fstat` and `mmap` find is an
-- argument of `scm_open`; pages have 4096 bytes, and a string that `scm_strdup` would copy beyond
-- them is a fault. Not modelled: the fault of `scm_malloc` that stores a header behind the last
-- page, which less than 24 bytes from the end of a file of whole pages it can do.
--
-- project-4/index.c is Index and the modules below it: the hash, the probing of slots, and the
-- growth of the table. The two columns of the table are functions from slots, of which those
-- below the capacity are used; the pointer that `update` returns is the number of the slot, and
-- Index.store a store through it. The loop over the slots is counted by those left to try.
-- Index/Probe has the loop, Index/Update the table after `update`, Index/Grow the growth and
-- Index/Api the two operations that clients call. The quotient that is compared with LOAD is
-- taken as exact. Not modelled: running out of memory, and freeing.
--
-- project-4 is a database of keys and values on a device: `kvdb.c` has the operations, `kvraw.c`
-- puts records behind one another into a log, `logfs.c` keeps the log in blocks on a device, and
-- `device.c` has the calls of the operating system. All of it is Kv and the modules below it.
-- Kv/Log is the interface of the log that `kvraw.c` uses, with its laws. `Fails` there, and for a disk in
-- Kv/Device/Access, says whether a read of bytes that were written can fail or be short; it is
-- empty for the memory of Tests/Disks.
--
-- project-4/kvraw.c is Kv/Raw, and its `struct meta` Kv/Meta. Kv/Raw/Records has the log as a
-- list of records, Kv/Raw/Lookup and Kv/Raw/Append the two operations on it.
--
-- project-4/kvdb.c is Kv/Db. A record has the offset of the one before it with the same hash, so
-- the records of a hash are a chain, of which the index has the newest. Kv/Db/Chain has the loop
-- over a chain, which takes one more unit of fuel than the offset of its first record, since the
-- offsets go down. Kv/Db/History is the invariant: the database, and the records that were
-- written. Kv/Db/Contract says what `mutate` promises, Kv/Db/Write, Kv/Db/Branches and
-- Kv/Db/Mutate show it, Kv/Db/Lookup has `kvdb_lookup`, Kv/Db/Live the counters, Kv/Db/Open
-- `kvdb_open`, and Kv/Db/Api and Kv/Db/Refine the database as a map from keys to values, where a
-- key that is not in the map has the empty value. A pointer into the index is the number of its
-- slot, and a buffer of the caller its length.
--
-- project-4/device.c is Kv/Device, and project-4/logfs.c is Kv/Logfs. `pread`, `pwrite`, `open`,
-- `fstat` and `ioctl` are parameters. Kv/Logfs/Queue has the two threads of `logfs.c` as steps of
-- a system: a step is what a thread does while it has the lock, or between two times that it has
-- it. The operations of `logfs.h` take as an argument what the other thread does until the lock
-- is taken; a wait that this thread alone would not end is `out_of_fuel`. The loop of
-- `logfs_append` and that of `logfs_read` take one more unit of fuel than bytes. Kv/Logfs/Fifo is
-- about the order of the writes. Kv/Logfs/Blocks cuts the bytes into blocks, Kv/Logfs/State is
-- the invariant, Kv/Logfs/Rounds has the writing thread, Kv/Logfs/Put, Kv/Logfs/Fill,
-- Kv/Logfs/Forget and Kv/Logfs/Append the appends, Kv/Logfs/Read, Kv/Logfs/Load, Kv/Logfs/Cache
-- and Kv/Logfs/Reading the reads, and Kv/Logfs/Api fills the interface Kv/Log with them. In these
-- the writing thread does whole rounds: what it can do wrong between the release of the lock and
-- the write is in Tests/Logs. Kv/Device/Access says what is taken as known of `pread` and
-- `pwrite`. Kv/Stack puts all of project-4 together. Not modelled: running out of memory,
-- freeing, failures of the `pthread` calls, and `logfs_close` from the destruction of the lock
-- on.
pub mod Common
pub mod Avl
pub mod Calc
pub mod Index
pub mod Kv
pub mod Scm
mod Tests
