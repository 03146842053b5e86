-- ===== src/Lib.antt =====
-- A verification library for the three systems assignments of this repository: the malloc
-- laboratory (assignment-3/PA_3_handout), the thread barrier and the race of the hare and the
-- tortoise (assignment-2/PA2_2020), and the shell (assignment 1).
--
-- Malloc models the malloc laboratory. Malloc/Memlib is memlib.c: the region of the heap and the
-- break that `mem_sbrk` moves. Malloc/Package is the interface mm.h, a record of the four
-- operations of an allocation package, and Malloc/Mm is its naive implementation mm.c (mm1.c and
-- mm2.c have the same text). Malloc/Ranges is the range list of mdriver.c with `add_range` and
-- `remove_range`, Malloc/Trace is `read_trace` on the text of the file, Malloc/Driver is
-- `eval_mm_valid`, Malloc/Util is `eval_mm_util`, and Malloc/Speed is `eval_mm_speed`,
-- `eval_libc_valid` and `eval_libc_speed`. Malloc/Main is the flags and the team check of `main`,
-- Malloc/Main/Driving its loops over the trace files and the report, where each timed run is one of
-- the ten of `ftimer_gettod` in ftimer.c. The driver takes the package as an argument, as the
-- program is linked with one of several; the C library's allocator is an argument too. What a
-- package owes to memlib.c is the record `Honest` of Malloc/Driver/Verdict, which the theorems on
-- mm.c fill.
--
-- An address is a number, `NULL` is 0, and the bytes of memory are a function of the address. C
-- integers are read by Base/Words: `int` has 32 bits, `size_t` and pointers have 64, and `char` is
-- signed. A request's size is an `int`, an integer here, and is converted where the source converts
-- it. The totals of `eval_mm_util`, an `int` each, are integers here, so that the model is about runs
-- in which they do not overflow; a theorem on any package takes that as a hypothesis. The quotient
-- that `eval_mm_util` returns is left as its two parts. The driver's own small allocations are taken to
-- succeed. Messages are left out, and `malloc_error` counts the error.
--
-- Barrier models 2_barrier/barrier.c and barrier.h. Barrier/Threads has the threads: a step is one
-- access of the mutex or of the condition variable, and the change of the counter, which happens
-- with the mutex held, is one step. A schedule is any sequence of steps. `Reach` is without
-- spurious wakeups of `pthread_cond_wait`, `ReachSpurious` with them. The mutex and the condition
-- variable are those of POSIX: a broadcast wakes every thread that waits, and a woken thread takes
-- the mutex again.
--
-- Race models 3_race/hare_tortoise.c. The reporter wakes the randomizer, the turtle and the hare in
-- turn and waits for each of them, so that a round of its loop is the composition of what the three
-- threads do between their wakeup and their signal. Race/Handshake has the handshakes themselves: a
-- step is one access of the lock or of a condition variable by the reporter or by a thread, or what
-- a thread does in between, and `Reach` is any sequence of steps, without spurious wakeups. It
-- starts where `init` has brought the threads, each with its lock held and about to wait; the locks
-- of single variables are left out. Race/Runner is `parseInput` and `main` of
-- 3_race/hare_tortoise_runner.c, with the files as a function of their names. The loop takes fuel,
-- one unit for each round; as the turtle moves in each round and each entry of the randomizer is
-- applied once, the number of entries and one, times the length of the track and one, is enough.
-- Distances and times are integers that do not overflow. Characters are their codes.
--
-- Shell models assignment 1/myshell.c. Shell/Strings has the functions of string.h that it calls; a
-- string is the list of its bytes, a NULL pointer is `none`, and what `strtok` keeps between two
-- calls is an argument and a result. Shell/Tokens is `removeSpacesAndCreateTokens`,
-- `fileRemoveSpacesAndCreateTokens` and `checkIOParser`, Shell/Commands is `CommandsChecker`,
-- `checkCustomCommands`, the two removals of quotes and `commaChecker`. Shell/Execute is `executeCommand` without a pipe and Shell/Execute/Pipe with
-- one: the result is the list of the system calls of the shell and those of each child, for a
-- system (`Host`) that says what `open`, `dup2`, `fork`, `chdir` and `execvp` return.
-- Shell/Execute/Command goes from the string to these lists, and `program` in Shell/Execute/Calls
-- is what such a list does to the descriptors up to the program that it runs. Shell/Main is the
-- reading of a line, the dispatch of `main`, the loop over the file of `executeCommands`, which a
-- line that ends the process (`exit`, or a `fork` that fails) stops, and the signal handlers. Where the code reads an
-- indeterminate pointer or leaves a string, the outcome is `undefined`. The loops on strings take
-- fuel that grows with the length, or the bound of the source; each call of `strsep` but the last
-- shortens the string, so that its length and 2 more are enough. Flushes are left out.
--
-- Counters models threads.c, from the creation of the first thread on: the threads add to one
-- counter with a lock held, and are interleaved at each access of the lock and of the counter.
-- Counters/Array models nlocks.c in the same way: ten threads add to an entry of an array each, and
-- `main` to all of them, with a lock for each entry.
--
-- Wrappers models 3_race/cs_thread.h, which 2_barrier has too: a call of one thread returns,
-- blocks, ends the process in a check, or uses a mutex or a condition variable that is not set up.
--
-- Text has the conversions of `fscanf` that the readers of files use. A file is the list of its
-- bytes, and each conversion returns what it stores and the rest of the file. Malloc/Trace takes
-- the length of the text and 1 as fuel, as each round of its loop reads at least one byte; a word
-- of the trace is taken to fit its buffer.
--
-- Percentage models assignment 1/checkcpupercentage.c on what the two files hold at its two
-- readings: the buffers keep what a reading and `strsep` leave in them, and a percentage is a
-- fraction. The loop over the fields takes the length of the line and 2 as fuel, as each call of
-- `strsep` but the last shortens the string.
--
-- Timing models the K-best scheme of assignment-3/PA_3_handout/fcyc.c. A sample is a whole number
-- of cycles; what the counter gives for each run, and the comparison of the array's two ends, which
-- is arithmetic on `double`, are arguments. The loop takes `maxsamples` and 1 as fuel, as each
-- round counts one sample. The clearing of the cache is left out.
--
-- Base has what the parts share: tests on numbers, predicates on lists, integers, the conversions
-- of C, and families indexed by thread.
--
-- Not modelled: the tables that mdriver.c prints and the arithmetic of its performance index, the
-- other timing packages, and the test programs of the barrier. Of the shell, the line is taken to
-- end where its characters end, although the source writes no NUL behind it, and the sizes of its
-- small buffers are left out.
pub mod Base
pub mod Malloc
pub mod Barrier
pub mod Race
pub mod Shell
pub mod Text
pub mod Counters
pub mod Timing
pub mod Percentage
pub mod Wrappers
