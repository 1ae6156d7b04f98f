-- ===== src/Lib.antt =====
-- Verification of RATTLE: the table of chunks, the command line arguments, the configuration, the
-- registry of modules, the signals, the processors, the debugger and the start of the program.
--
-- RATTLE is a daemon made of modules. Every part of it keeps its state in growing tables of
-- chunks (modules/data/array): the arguments manager one table of entries for each section of the
-- command line, the configuration one table for each value that is a list, the module registry
-- tables of modules, of cores and of the hooks of each core. A part registers the options that it
-- understands with the arguments manager, declares the values that it needs to the configuration,
-- and attaches its modules. The signals component keeps a table of handlers for each signal. The
-- processor core passes the processes that are registered with it on to the processor module that
-- is attached: one runs them in turn, the other spreads them over threads. The debugger core
-- forks a process of its own and keeps a pipe to it.
--
-- Base: the names that all files share. Status is RATTOK and RATTFAIL; numbers are natural
-- numbers and the counters of type size_t wrap at 2 ^ 64 (inc_size, dec_size); subtraction stops
-- at 0 and is used where the code cannot go below. Lists are indexed with the behaviour out of
-- range written out.
--
-- Table: modules/data/array/data_array.c and array.h. `Table A` is struct ratt_table over the
-- type `A` of its chunks: a pointer to a chunk is a slot number, `head` and `frag_mask` are
-- lists, and `dangling` says that `head` was given back to the allocator. Table.Mask has the
-- macros on the mask of holes and is_frag(), frag_mask_set(), frag_mask_unset(); Table.State the
-- structure and the accessors of array.h; Table.Walk the ratt_table_next() family,
-- ratt_table_search() and the check of the constrains; Table.Update everything that fills, grows
-- and empties a table. A function that moves the cursor returns the table. `blank` is the zeroed
-- chunk, and `Alloc` what the allocator answers in one call and what fresh memory holds.
-- Callbacks are functions. The product of chunk count and chunk size is taken not to wrap.
-- Table.Valid states the invariant of the representation and the abstract view `lookup`, the
-- chunk in a slot; the files behind it show what each operation does to that view. Theorems that
-- need it say that fewer than 2 ^ 32 holes exist, because ratt_table_frag_count() returns an int,
-- and that a table which grows has a size at which all of the new mask is cleared (ClearsMask).
-- Table.Sizes shows that a table which starts with 1, 2 or 4 slots, as those of modules/ do, the
-- tests apart, whose size is not that of a list in a configuration file, has such sizes up to
-- 1034394552 slots; from 8 slots it has not, since it grows from 40 slots to 60. Table.Filling is
-- about these tables, from their creation on.
--
-- The rounds of a walk are bounded by the slots left behind the cursor, and those of a scan by
-- the slots of the table; as each round moves the cursor on, the bound is never met with a round
-- left to do.
--
-- Args: modules/args/args.c. `Sections` is l_sectab, and a pointer to a section its place there.
-- Args.Words has the tests of ctype.h, in the C locale; Args.Sections the entries and
-- insert_args(); Args.Parse parse_args() as a recursion on the words; Args.Register
-- args_register(), args_unregister() and bind_args(), whose calls back into the registrant are
-- returned as a list of effects. `Memory` is what the allocator answers to one call. Counts of
-- occurrences stay below 2 ^ 31, like argc.
--
-- Conf: modules/conf/conf.c. libconfig is a record of the functions that the code calls.
-- Conf.Numbers has the integers, check_num() and atoi(); Conf.Values set_value(), unset_value()
-- and the value lists; Conf.Decls the filling and release of one declaration; Conf.Parse the path
-- buffer, conf_parse() and conf_init(). The strings that a function frees are part of its result.
-- `junk` is what `retval` of conf_parse() holds before it is set, and `beyond` what follows its
-- path buffer in memory. The loop over the elements of an array runs on its length and one round
-- more, which is enough where config_setting_get_elem() answers NULL behind the last element.
--
-- Module: src/module.c. Module.Names has the comparisons of names and the full name that
-- ratt_module_attach() makes; Module.Attach attach_module() and detach_module(), with the calls
-- back into the module and its core as answers that are given and as a list of effects;
-- Module.Registry the tables of modules and cores, with module_core_attach() and
-- module_core_detach(); Module.Register registration, unregistration and module_fini();
-- Module.Opening module_init(); Module.Listing load_modules(), as the list of paths that dlopen()
-- is given, and the sorted list that show_modules() prints. qsort() is an insertion sort there;
-- where two names are the same C leaves the order open. A pointer to a core is the name of the
-- core. A read through a pointer that is NULL is an outcome of its own. A chunk of a hook table
-- is as short as the code makes it, and holds the pointer to the module only. Module.Restored and
-- Module.Undo follow a registration that fails through the tables of modules and of arguments.
-- Module.Listed follows a core from module_core_attach() to module_core_detach(), for the cores
-- that do so (Debug, Proc).
--
-- Signal: modules/signal/signal.c. Signal.Registry has the operations: a handler is a number, the
-- set of signals that are waited for a Boolean function, and a dispatch returns the list of calls
-- that it makes. The handlers leave the tables alone while they run. Signal.Waiting has the
-- operations as a step relation.
--
-- Proc: modules/proc. Proc.Process is a process as it is registered; Proc.Core proc.c, over the
-- state of the module behind its hook, where what is read behind the chunk of the hook is an
-- argument; Proc.Serial proc_serial.c, where a process is a function on the whole state, so that
-- it may register, unregister and stop. The passes of its on_start() and the rounds of each pass
-- are bounded by fuel, and running out of it is an outcome of its own; one round for each slot up
-- to the last one in use is enough where processes leave the table alone (Table.Ends).
-- Proc.Worker is proc_worker.c: Proc.Worker.Pool and Proc.Worker.Threads the calls on a pool of
-- workers, where a pointer to a worker is its place in a list; Proc.Worker.Monitor worker_loop()
-- and the calls that share a worker with it as a step relation, with any number of callers, whose
-- steps end where a lock is taken or released. Proc.Worker.Sharing has the calls of processes by
-- any number of workers, with the locks of the processes that are not thread-safe and with
-- cancellation; the attributes of a process are taken to stay as they are while it runs.
-- Proc.Spread puts the core and the pool together.
--
-- Debug: modules/debug/debug.c and trace/debug_trace.c. Debug.Pipe has the pipe: l_pipe_fd with
-- the word of memory in front of it, and the list of descriptors that the process has open, which
-- close() shortens; fork() is the answer that one of the two processes gets. Debug.Core has
-- debug_init() and debug_fini() on top of Conf and Module; `Host` is what these calls meet
-- outside of the program. waitpid() is taken to return.
--
-- Coretab: src/core.c, as far as it is a program: the table of cores, and the loop that starts
-- the parts of the program, over any state. dtor_register() answers for each part; an exit ends
-- the loop with the calls made so far.
--
-- TestEntries: modules/test/entry.c, the array of test names with the walk of it and the two
-- passes of tests_ar_register(). Version: src/rattle.c, over the integers of the caller.
--
-- The cursor of a table that a loop walks over is set to where the loop leaves it, but for tables
-- that are destroyed next.
--
-- Not modelled: in src/core.c what attaches and detaches cores, a copy of src/module.c with words
-- replaced that declares names twice and uses others that do not exist; the handles that dlopen()
-- answers in src/module.c, with which nothing is done; handle_oops() of signal.c, which ends the
-- program; where pthread_cancel() stops a worker that holds a lock of the pool; the logging
-- output; the tests of the table and modules/test/test.c, which is written against functions that
-- the tree does not have.
pub mod Base
pub mod Table
pub mod Args
pub mod Conf
pub mod Module
pub mod Signal
pub mod Proc
pub mod Debug
pub mod Coretab
pub mod TestEntries
pub mod Version
