-- ===== src/Lib.antt =====
-- Signal tests: small C++ programs that check how a kernel, or an emulator of one, handles signals.
--
-- Each file of src/ is one test. It sets handlers, makes system calls, and reports by its exit status
-- whether what it saw is right: `ASSERT` (src/common.h) exits with 1 on a false condition. The kernel
-- behind the calls is not part of the repository. It is a parameter here: a `Kernel` (Program/Defs.antt)
-- has a state, answers calls, says before it returns to the program whether a handler starts instead, and
-- takes back the frame that a handler has left. Nothing else is known of it.
--
-- Program/ says how a test runs. A test is a `Prog` over its globals, with its calls, `exit` and its
-- result; `run` follows `main` on a kernel and enters the handlers that the kernel asks for, before the
-- next step of the program, also inside handlers. The frames whose handlers have started are recorded in
-- that order. Bind.antt, Serving.antt, Verdict.antt, Script.antt and Checked.antt hold the rules for what
-- a passing run has seen, on any kernel. Meets.antt, Met.antt and Logged.antt are about answers: if
-- every path of a program that may pass leads through an answer of a kind, then a run that passes has had
-- one, as the log shows which the kernel `logged` keeps. Holds.antt, with HoldsRun.antt, is a condition to
-- verify for programs that write their globals, with rules for assertions, sequences and loops;
-- Witness.antt is its case of a handler that records that it ran; Steps.antt follows a run call by call.
--
-- Threads/ is for the tests of Inherit/ and Restart/, in which a process has a second thread or a child;
-- src/same-signal.cpp is followed there too, since its handler makes a call. A `Machine` is a process
-- with its globals, what `main` and the second thread have left to do, and the log of what has happened.
-- What the system does is a list of events: an answer to the call in which a thread waits, or a handler
-- that starts in a thread. A thread goes on from one call to the next without a break, so the list of
-- events is the order in which the threads go on; a data race between two calls is not seen. Of a system
-- it is asked only that it joins a thread that has returned, and creates the second thread once
-- (`admitted`). Conditions.antt has the condition to verify for a program of such a process, and
-- Standing.antt and Soundness.antt show that it is enough. In a test with fork(2) each process has its
-- own list of events and runs the same `main`, which the answer of fork(2) sends to one side; `TellsEnd`
-- (Inherit/Wait.antt) says that the status that waitpid(2) gives the parent is that of the child's end,
-- and what the parent sees thereby says something of the child.
--
-- Manual/ is a kernel of one process that can be run: it answers as the manual pages say, and makes a
-- choice where they leave one. It is what the examples run on, and no theorem about any kernel rests on
-- it. Manual/Beside.antt puts a second process beside the first one, with a shared lock; a list says how
-- many calls of the second one come before each call of the first, so that every interleaving of the two
-- is a list. The theorem on longjmp-no-overflow.cpp that the test ends, and the one on the two processes
-- of rt-order.cpp, name these kernels.
--
-- System/ has what the tests take from the headers of Linux on x86: numbers, structures, signal sets as
-- 64-bit masks, the macros on wait statuses, and the calls with their answers. `errno` is the value that
-- the variable has after a call, so a test's `errno = 0` before a call is not modelled.
--
-- The tests, each in a module of its name with `signal_handler`, `main` and the globals:
--   Queue/     src/multiple-realtime.cpp, multiple-standard.cpp, mask-all.cpp, rt-order.cpp,
--              rt-order-only-one.cpp, two-signals.cpp
--   Nesting/   src/same-signal.cpp, nodefer.cpp, resethand.cpp, longjmp-no-overflow.cpp
--   AltStack/  src/two-signals-alt-stack.cpp, two-signals-alt-stack-disarm.cpp, sigaltstack-query.cpp,
--              sigaltstack-errors.cpp, uc-stack-always.cpp, uc-stack-restore.cpp
--   Masks/     src/block-rtmin.cpp, uc_mask.cpp, uc-oldmask.cpp, sigsuspend-mask.cpp,
--              sigsuspend-multiple.cpp, sigwait-sigpending.cpp, rt-sigaction-oldact.cpp
--   Faults/    src/synchronous-*.cpp, segv-cr2.cpp, segv-trapno.cpp
--   Defaults/  src/sigdfl-all.cpp, with `get_behavior` and one round of the loop in `main`, sigdfl-segv.cpp,
--              sigdfl-usr1.cpp, sigdfl-urg.cpp; a `return` from the middle of `main` is an `exit`
--   Frames/    src/uc-flags.cpp, sigcontext-segments.cpp, segments.cpp, df-reset.cpp, xstate-bv-sse.cpp,
--              xstate-bv-x87.cpp, fpstate-x87-32.cpp, fpstate-legacy-32.cpp, frame-alignment.cpp,
--              illegal-cs.cpp
--   Stepping/  src/trap-flag.cpp, trap-flag-popf-clear.cpp, trap-flag-popf-repeat.cpp
--   Inherit/   src/fork-inherit.cpp, thread-inherit.cpp, execve-inherit.cpp, signal-table-fork.cpp,
--              signal-table-thread.cpp, syscall-sigign.cpp, sigqueueinfo.cpp
--   Restart/   src/pause-pc-rax.cpp, sigsuspend-pc-rax.cpp, restartable-read.cpp, restartable-write.cpp,
--              restartable-sem_wait.cpp
-- A test whose code differs by the target has the `Arch` as an argument of its definitions. Instructions
-- that read or write registers are calls; a body in assembly is a list of instructions, and signals may
-- come between any two of them. Handlers of longjmp-no-overflow.cpp never return, so that test is a state
-- machine over the kernel, with what longjmp(3) does to the registers as a parameter and the limit of its
-- count as another.
-- `steps` is the part of `main` before its last checks. The counters do not wrap: they stay far below
-- 2^31 in a run that passes. The fuel of `run` bounds how many handlers start one after the other and one
-- inside the other; it is arbitrary in the theorems about runs that pass. The busy wait of
-- src/rt-order.cpp has a bound on its rounds, which is arbitrary in the theorems. Addresses of functions
-- are parameters, or numbers that differ. What a lambda captures is a global; a `std::thread` that cannot
-- be created or joined ends the process with 134.
--
-- Not modelled: Makefile and run.sh, which hold no logic of the tests; the text that the tests print; of
-- the floating-point state, more than the words that a test looks at; what read(2) and write(2) transfer,
-- but for its length. Of segments.cpp there are the
-- definitions alone; of nodefer.cpp, two-signals-alt-stack.cpp, two-signals-alt-stack-disarm.cpp,
-- sigaltstack-query.cpp, uc-stack-always.cpp, uc-stack-restore.cpp, block-rtmin.cpp, uc_mask.cpp,
-- uc-oldmask.cpp and rt-sigaction-oldact.cpp the definitions, with a run on the kernel `manual`
-- (Tests/Passing.antt).
pub mod Base
pub mod System
pub mod Program
pub mod Manual
pub mod Queue
pub mod Nesting
pub mod AltStack
pub mod Masks
pub mod Faults
pub mod Defaults
pub mod Frames
pub mod Stepping
pub mod Threads
pub mod Inherit
pub mod Restart
mod Tests
