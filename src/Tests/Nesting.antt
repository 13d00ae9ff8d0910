-- ===== src/Tests/Nesting.antt =====
-- A run of a handler that raises its own signal.
use signal_tests.Base.{◌≡◌, refl, List, [], ◌∷◌, some, pos}
use signal_tests.Program.{pure}
use signal_tests.System
use signal_tests.System.{Frame}
use signal_tests.Threads.{first, Event, reply, interrupt, Machine, fire_all, begin, starts}
use signal_tests.Nesting.SameSignal
use signal_tests.Nesting.SameSignal.Apart as SameSignalApart
use signal_tests.Tests.Setup.{some_registers, frame_of}
use signal_tests.Tests.Events.{last_of, ok}

abbrev usr1 : Frame
usr1 = frame_of System.sigusr1 (pos 0) 0 some_registers

-- The handler starts in the raise(3) of `main`, and again when it has ended.
abbrev same_events : List Event
same_events =
    reply first ok
    ∷ interrupt first usr1
    ∷ reply first ok
    ∷ interrupt first usr1
    ∷ reply first ok
    ∷ []

abbrev same_end : Machine SameSignal.Globals
same_end = last_of (begin SameSignal.signal_handler (pure 0) SameSignal.main SameSignal.initial) (
    fire_all SameSignal.signal_handler (pure 0) same_events
      (begin SameSignal.signal_handler (pure 0) SameSignal.main SameSignal.initial))

same_end-run :
    fire_all SameSignal.signal_handler
      (pure 0)
      same_events
      (begin SameSignal.signal_handler (pure 0) SameSignal.main SameSignal.initial)
    ≡ some same_end
unfolding fire_all SameSignal.main SameSignal.signal_handler
same_end-run = refl

same_end-status : same_end.status ≡ some 0
unfolding fire_all SameSignal.main SameSignal.signal_handler
same_end-status = refl

same_signal_apart_example : (starts same_end.log ≡ 2) × SameSignalApart.AreApart [] same_end.log
same_signal_apart_example =
    SameSignalApart.same_signal_apart same_events same_end same_end-run same_end-status
