-- ===== src/Tests/Inherit.antt =====
-- Runs of one process and its threads.
use signal_tests.Base.{◌≡◌, refl, List, [], ◌∷◌, some, pos}
use signal_tests.System
use signal_tests.System.{Frame, Reply, Ucontext}
use signal_tests.Threads.{
  first, second, Event, reply, interrupt, Machine, fire_all, begin, Any, Answers,
}
use signal_tests.Tests.Setup.{some_registers, frame_of}
use signal_tests.Tests.Events.{last_of, ok, value, five}
use signal_tests.Program.{pure}
use signal_tests.Inherit.Mask.{Saw}
use signal_tests.Inherit.ThreadInherit
use signal_tests.Inherit.ThreadInherit.Masks as ThreadInheritMasks
use signal_tests.Inherit.SignalTableThread
use signal_tests.Inherit.SignalTableThread.Shared as SignalTableThreadShared
use signal_tests.Inherit.ExecveInherit
use signal_tests.Inherit.ExecveInherit.Masks as ExecveInheritMasks
use signal_tests.Inherit.SyscallSigign
use signal_tests.Inherit.SyscallSigign.Killed as SyscallSigignKilled

abbrev masks_events : List Event
masks_events =
    reply first ok
    ∷ reply first ok
    ∷ reply second ok
    ∷ reply second five
    ∷ reply first ok
    ∷ reply first five
    ∷ []

abbrev masks_end : Machine ThreadInherit.Globals
masks_end =
    last_of
      (begin ThreadInherit.no_handler ThreadInherit.thread_main ThreadInherit.main
        ThreadInherit.initial)
      (fire_all ThreadInherit.no_handler ThreadInherit.thread_main masks_events (
        begin ThreadInherit.no_handler ThreadInherit.thread_main ThreadInherit.main
          ThreadInherit.initial))

thread_inherit_masks-runs :
    fire_all ThreadInherit.no_handler ThreadInherit.thread_main masks_events (
      begin ThreadInherit.no_handler ThreadInherit.thread_main ThreadInherit.main
        ThreadInherit.initial)
    ≡ some masks_end
unfolding fire_all ThreadInherit.main ThreadInherit.thread_main ThreadInherit.no_handler
thread_inherit_masks-runs = refl

thread_inherit_masks-ends : masks_end.status ≡ some 0
unfolding fire_all ThreadInherit.main ThreadInherit.thread_main ThreadInherit.no_handler
thread_inherit_masks-ends = refl

thread_inherit_masks_example :
    Any (Answers (Saw first)) masks_end.log × Any (Answers (Saw second)) masks_end.log
thread_inherit_masks_example =
    ThreadInheritMasks.thread_inherit_masks masks_events masks_end thread_inherit_masks-runs
      thread_inherit_masks-ends

abbrev table_events : List Event
table_events =
    reply first (value 100)
    ∷ reply first ok
    ∷ reply first ok
    ∷ reply second ok
    ∷ reply second (value 101)
    ∷ reply second (record ok { old_act = record System.no_action { handler = System.function 1 } })
    ∷ reply second ok
    ∷ interrupt second (record (frame_of System.sigusr1 (pos 0) 0 some_registers) { target = 1 })
    ∷ reply second (value 101)
    ∷ reply second ok
    ∷ reply first ok
    ∷ reply first ok
    ∷ reply first (record ok { old_act = record System.no_action { handler = System.function 2 } })
    ∷ reply first ok
    ∷ interrupt first (record (frame_of System.sigusr1 (pos 0) 0 some_registers) { target = 2 })
    ∷ reply first (value 100)
    ∷ reply first ok
    ∷ []

abbrev table_end : Machine SignalTableThread.Globals
table_end =
    last_of
      (begin SignalTableThread.handlers SignalTableThread.thread_main SignalTableThread.main
        SignalTableThread.initial)
      (fire_all SignalTableThread.handlers SignalTableThread.thread_main table_events (
        begin SignalTableThread.handlers SignalTableThread.thread_main SignalTableThread.main
          SignalTableThread.initial))

signal_table_thread_shared-runs :
    fire_all SignalTableThread.handlers SignalTableThread.thread_main table_events (
      begin SignalTableThread.handlers SignalTableThread.thread_main SignalTableThread.main
        SignalTableThread.initial)
    ≡ some table_end
unfolding fire_all SignalTableThread.main SignalTableThread.thread_main SignalTableThread.handlers
signal_table_thread_shared-runs = refl

signal_table_thread_shared-ends : table_end.status ≡ some 0
unfolding fire_all SignalTableThread.main SignalTableThread.thread_main SignalTableThread.handlers
signal_table_thread_shared-ends = refl

signal_table_thread_shared_example :
    Any SignalTableThreadShared.ReadFirst table_end.log
    × Any SignalTableThreadShared.ReadSecond table_end.log
    × Any SignalTableThreadShared.RunsFirst table_end.log
    × Any SignalTableThreadShared.RunsSecond table_end.log
signal_table_thread_shared_example =
    SignalTableThreadShared.signal_table_thread_shared table_events table_end
      signal_table_thread_shared-runs signal_table_thread_shared-ends

abbrev execve_events : List Event
execve_events =
    reply first (record ok { address = 1 })
    ∷ reply first (record ok { old_mask = ExecveInherit.set })
    ∷ []

abbrev execve_end : Machine ExecveInherit.Globals
execve_end =
    last_of (begin ExecveInherit.signal_handler (pure 0) ExecveInherit.main ExecveInherit.initial) (
      fire_all ExecveInherit.signal_handler (pure 0) execve_events
        (begin ExecveInherit.signal_handler (pure 0) ExecveInherit.main ExecveInherit.initial))

execve_inherit_mask-runs :
    fire_all ExecveInherit.signal_handler
      (pure 0)
      execve_events
      (begin ExecveInherit.signal_handler (pure 0) ExecveInherit.main ExecveInherit.initial)
    ≡ some execve_end
unfolding fire_all ExecveInherit.main ExecveInherit.signal_handler
execve_inherit_mask-runs = refl

execve_inherit_mask-ends : execve_end.status ≡ some 0
unfolding fire_all ExecveInherit.main ExecveInherit.signal_handler
execve_inherit_mask-ends = refl

execve_inherit_mask_example :
    Any (Answers ExecveInheritMasks.IsExecuted) execve_end.log
    × Any (Answers ExecveInheritMasks.Saw) execve_end.log
execve_inherit_mask_example =
    ExecveInheritMasks.execve_inherit_mask execve_events execve_end execve_inherit_mask-runs
      execve_inherit_mask-ends

abbrev ignored_events : List Event
ignored_events =
    reply first ok
    ∷ reply first ok
    ∷ reply first ok
    ∷ reply first (value 42)
    ∷ reply first ok
    ∷ reply first ok
    ∷ reply first ok
    ∷ reply first ok
    ∷ reply first ok
    ∷ reply first (record (value 42) { status = 9 })
    ∷ []

abbrev ignored_end : Machine SyscallSigign.Globals
ignored_end =
    last_of (begin SyscallSigign.no_handler (pure 0) SyscallSigign.main SyscallSigign.initial) (
      fire_all SyscallSigign.no_handler (pure 0) ignored_events
        (begin SyscallSigign.no_handler (pure 0) SyscallSigign.main SyscallSigign.initial))

syscall_sigign-runs :
    fire_all SyscallSigign.no_handler
      (pure 0)
      ignored_events
      (begin SyscallSigign.no_handler (pure 0) SyscallSigign.main SyscallSigign.initial)
    ≡ some ignored_end
unfolding fire_all SyscallSigign.main SyscallSigign.no_handler
syscall_sigign-runs = refl

syscall_sigign-ends : ignored_end.status ≡ some 0
unfolding fire_all SyscallSigign.main SyscallSigign.no_handler
syscall_sigign-ends = refl

syscall_sigign-IsKilled_example :
    Any (Answers (SyscallSigignKilled.IsSent System.sigusr1)) ignored_end.log
    × Any (Answers (SyscallSigignKilled.IsSent System.sigurg)) ignored_end.log
    × Any (Answers (SyscallSigignKilled.IsSent System.sigkill)) ignored_end.log
    × Any (Answers SyscallSigignKilled.IsKilled) ignored_end.log
syscall_sigign-IsKilled_example =
    SyscallSigignKilled.syscall_sigign-IsKilled ignored_events ignored_end syscall_sigign-runs
      syscall_sigign-ends
