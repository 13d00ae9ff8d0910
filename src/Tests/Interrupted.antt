-- ===== src/Tests/Interrupted.antt =====
-- Runs in which a signal of another thread ends a call.
use signal_tests.Base.{◌≡◌, refl, List, [], ◌∷◌, some}
use signal_tests.System
use signal_tests.System.{Frame, Reply, Ucontext}
use signal_tests.Threads.{
  first, second, Event, reply, interrupt, Machine, fire_all, begin, Any, Answers, Clean,
}
use signal_tests.Tests.Events.{last_of, ok, value, call_frame}
use signal_tests.Restart.PausePcRax
use signal_tests.Restart.PausePcRax.Interrupted as PausePcRaxInterrupted
use signal_tests.Restart.SigsuspendPcRax
use signal_tests.Restart.SigsuspendPcRax.Interrupted as SigsuspendPcRaxInterrupted

abbrev pause_events : List Event
pause_events =
    reply first (value 1000)
    ∷ reply first ok
    ∷ reply first ok
    ∷ reply second ok
    ∷ reply second ok
    ∷ reply second ok
    ∷ reply second ok
    ∷ interrupt first (call_frame 0x401002 System.minus_eintr)
    ∷ reply first (System.failing System.eintr)
    ∷ reply first ok
    ∷ []

abbrev pause_end : Machine PausePcRax.Globals
pause_end =
    last_of
      (begin (PausePcRax.signal_handler System.x86_64) PausePcRax.thread_main PausePcRax.main
        PausePcRax.initial)
      (fire_all (PausePcRax.signal_handler System.x86_64) PausePcRax.thread_main pause_events (
        begin (PausePcRax.signal_handler System.x86_64) PausePcRax.thread_main PausePcRax.main
          PausePcRax.initial))

pause_pc_rax_ends-runs :
    fire_all (PausePcRax.signal_handler System.x86_64) PausePcRax.thread_main pause_events (
      begin
        (PausePcRax.signal_handler System.x86_64)
        PausePcRax.thread_main
        PausePcRax.main
        PausePcRax.initial)
    ≡ some pause_end
unfolding fire_all PausePcRax.main PausePcRax.thread_main PausePcRax.signal_handler
pause_pc_rax_ends-runs = refl

pause_pc_rax_ends-ends : pause_end.status ≡ some 0
unfolding fire_all PausePcRax.main PausePcRax.thread_main PausePcRax.signal_handler
pause_pc_rax_ends-ends = refl

pause_pc_rax_ends_example :
    Clean (PausePcRaxInterrupted.IsEnding System.x86_64) first pause_end.log
    × (Any (Answers PausePcRaxInterrupted.IsInterrupted) pause_end.log
        × Any (Answers PausePcRaxInterrupted.HasCalledKill) pause_end.log)
pause_pc_rax_ends_example =
    PausePcRaxInterrupted.pause_pc_rax_ends System.x86_64 pause_events pause_end
      pause_pc_rax_ends-runs pause_pc_rax_ends-ends

abbrev suspend_events : List Event
suspend_events =
    reply first (value 1000)
    ∷ reply first ok
    ∷ reply first ok
    ∷ reply first ok
    ∷ reply second ok
    ∷ reply second (record ok { old_mask = SigsuspendPcRax.blocked_word })
    ∷ reply second ok
    ∷ interrupt first (call_frame 0x401002 System.minus_eintr)
    ∷ reply first (System.failing System.eintr)
    ∷ reply first ok
    ∷ []

abbrev suspend_end : Machine SigsuspendPcRax.Globals
suspend_end =
    last_of
      (begin (SigsuspendPcRax.signal_handler System.x86_64) SigsuspendPcRax.thread_main
        SigsuspendPcRax.main SigsuspendPcRax.initial)
      (fire_all (SigsuspendPcRax.signal_handler System.x86_64) SigsuspendPcRax.thread_main
        suspend_events
        (begin (SigsuspendPcRax.signal_handler System.x86_64) SigsuspendPcRax.thread_main
          SigsuspendPcRax.main SigsuspendPcRax.initial))

sigsuspend_pc_rax_ends-runs :
    fire_all
      (SigsuspendPcRax.signal_handler System.x86_64)
      SigsuspendPcRax.thread_main
      suspend_events
      (begin
        (SigsuspendPcRax.signal_handler System.x86_64)
        SigsuspendPcRax.thread_main
        SigsuspendPcRax.main
        SigsuspendPcRax.initial)
    ≡ some suspend_end
unfolding fire_all SigsuspendPcRax.main SigsuspendPcRax.thread_main SigsuspendPcRax.signal_handler
sigsuspend_pc_rax_ends-runs = refl

sigsuspend_pc_rax_ends-ends : suspend_end.status ≡ some 0
unfolding fire_all SigsuspendPcRax.main SigsuspendPcRax.thread_main SigsuspendPcRax.signal_handler
sigsuspend_pc_rax_ends-ends = refl

sigsuspend_pc_rax_ends_example :
    Clean (SigsuspendPcRaxInterrupted.IsEnding System.x86_64) first suspend_end.log
    × (Any (Answers SigsuspendPcRaxInterrupted.IsInterrupted) suspend_end.log
        × (Any (Answers SigsuspendPcRaxInterrupted.HasCalledKill) suspend_end.log
            × Any (Answers SigsuspendPcRaxInterrupted.HasBlocked) suspend_end.log))
sigsuspend_pc_rax_ends_example =
    SigsuspendPcRaxInterrupted.sigsuspend_pc_rax_ends System.x86_64 suspend_events suspend_end
      sigsuspend_pc_rax_ends-runs sigsuspend_pc_rax_ends-ends
