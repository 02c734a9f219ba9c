-- ===== src/Lib.antt =====
-- Verification of the runtime of the Sparse Synchronous Model (src/, include/).
--
-- The program. A program of the model consists of routines, whose activation records carry a priority,
-- and of scheduled variables. The runtime keeps two binary heaps: the event queue, of variables by the
-- time of their delayed assignment, and the activation queue, of routines by priority. A tick moves the
-- clock to the next event time, updates the variables that are due, which schedules the routines that are
-- sensitive to them, and runs the scheduled routines in order of priority. Values are words that are
-- integers or pointers to reference-counted objects, which live in memory pools.
--
-- The files.
--   Base: numbers and tests, array writes, errors and results of calls.
--   Heap and below: the percolation routines of src/ssm-scheduler.c, over a key; Order has the heap order,
--     Count the multiset of entries, Search the linear search, Reposition, Root and Pop the uses.
--   Memory and below: the allocator of src/ssm-mem.c with its free lists and counters.
--   State: the structures of include/ssm.h and the static variables of src/ssm-scheduler.c, as one record
--     with a table for the objects of each type, indexed by address.
--   Queues and below: the two queues over the state, ssm_activate, ssm_unschedule, ssm_next_event_time, the
--     invariants (Acts, Events, Roster) and the consistency checks of the debug build (Checks).
--   Objects and below: allocation functions, ssm_dup, ssm_drop and ssm_drop_final.
--   Closures and below: src/ssm-closure.c and the closure macros: Clone, Apply and Partial for
--     ssm_closure_apply, Final for one call of ssm_closure_apply_final, Each for a call per argument.
--   Scheduler and below: ssm_assign, ssm_later, ssm_sensitize, ssm_desensitize, ssm_update, ssm_set_now,
--     ssm_enter, ssm_leave and ssm_tick, with their properties in a module per operation; src/ssm-top-act.c.
--     Contract and below: which operations a step function may call, as the tick asks of it; Join: parents
--     and children.
--   Simulation and below: the page handler and the main loop of platform/simulation/src/simulation-main.c;
--     CommandLine its arguments, with numbers as texts (Decimal) and the limit (Limit); Output the handler of
--     simulation-io.c.
--   Posix: the arithmetic on times and on ring buffer indices of platform/posix/src/posix-common.h; Main has
--     the start, the loop and the end of main of posix-main.c and the handlers of posix-io.c, with the end of
--     a round in Sleep, and the handlers of input and output in Keyboard and Output.
--   Inputs and below: the input ring buffer that the POSIX and the Zephyr platform have alike. Threads has
--     it between the handler and the main loop, whose accesses interleave; Poll and Consume what the loop does
--     with packets; Round a round of the loop up to where it sleeps, with what comes between rounds
--     (Insert) and the rounds while nothing comes (CatchUp).
--   Zephyr and below: platform/zephyr: Timer the clock and the alarm, Loop a round of tick_loop, Wakeups the
--     semaphore and the interrupts between its steps, Handler the input handler.
--   Examples and below: the programs of examples/simulation and examples/posix. The file has what their
--     records share, and Start the static data before a program starts. OneTwo, Clock, Fib, Hello,
--     Counter, Cons (list.c), Closure (closures.c, whose unoptimized build is below it), MapClosure and
--     Echo each have one program, from its enter and step functions to its start and end. Alone has the
--     operations of the runtime where there is just one routine or event. Below Clock: what the two
--     routines wait for (Beat), a turn of each (Turns), the rounds of a tick (Rounds) and what they do
--     (Stages), ticks (Ticks), a whole simulation (Run) and its command (Command). Below Cons: lists in
--     the heap (Lists), the start (Init), and the recursion of map_inc from call to return (Call, Next,
--     Resume, Return, Map).
--   Suite and below: the tests of test/test-scheduler.c over the model: Sort, Unscheduling and ActSort have
--     the ones that sort a text, for any text, over the loops that fill and empty the queues (Filling, Drain,
--     Activation, ActDrain), a count of times (Tally) and sorting as the reference (Sorting); Rounds has the
--     ones that tick, and Blobs test/test-mem.c.
--   Tests and below: a small program state and the properties at it; runs of the example programs and of the tests.
--
-- The correspondence. A function of C that changes the state is a function from state to result: the new
-- state, the error of SSM_THROW, which does not return, or lack of fuel. Names are those of C less the prefix
-- `ssm_`. Integers are natural numbers with the wrap-around of their C type written out where an operation
-- may reach it. The C casts between a header and the object that it heads are the identity, as the header is
-- the first field.
--
-- Fuel. ssm_drop follows references from object to object, so its fuel is a depth; the loops over
-- triggers, events and routines count rounds. `Limits` holds the four numbers. The theorems that a call
-- returns ask for more fuel than the rank of the dropped value, the length of the list, the number of
-- queued events and the number of routines. The percolation and search loops take their fuel from the
-- length of the queue. `program` of an example gives the step function at a pointer; a routine that leaves
-- may run its parent in turn, so its fuel is the depth of that nesting.
--
-- Records of routines. The variables of a routine of an example are words behind its header, at `field act i`,
-- and a pointer to a variable is such an address. Where the code passes a record to sizeof, `sizeof_routine`
-- counts its words.
--
-- Parameters. In the modules of the runtime, what the step functions of a program and the enter functions
-- of closures do is a parameter; the examples give them. Parameters are also the handlers for pages and
-- large blocks that a platform registers, the wall clock, and what the devices and the kernel of Zephyr
-- answer.
--
-- Threads. The indices of the ring buffer are atomic, so each access to them is one step; the packets between
-- them belong to one thread at a time, which is a theorem. A round of a main loop is one step for the
-- runtime, which no other thread touches. Indices do not reach the end of their type.
--
-- Not modelled: the system calls of the POSIX platform, its disabled second loop, and the drivers of
-- boards; zephyr-dev.c, which the preprocessor disables; the example blink1.c, which a compiler generated;
-- tracing and Valgrind calls, which do not change the state; and the build with CONFIG_MALLOC_HEAP.
pub mod Base
pub mod Heap
pub mod Memory
pub mod State
pub mod Queues
pub mod Objects
pub mod Closures
pub mod Examples
pub mod Scheduler
pub mod Simulation
pub mod Inputs
pub mod Posix
pub mod Zephyr
pub mod Suite
pub mod Tests
