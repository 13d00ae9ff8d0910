-- ===== src/Tests/Masks.antt =====
-- What runs of some tests of masks and stacks have seen, on the kernel `manual`.
use signal_tests.Base.{◌≡◌, ◌≢◌, refl, List, [], ◌∷◌, some, All}
use signal_tests.Program.{World, finished, run, start, Passes}
use signal_tests.Program.Met.{end_of}
use signal_tests.Program.Logged.{logged, IsIn}
use signal_tests.Manual.{manual, fresh, in_call, call_bytes, Process}
use signal_tests.System
use signal_tests.System.{Call, Reply, Frame}
use signal_tests.Masks.SigsuspendMask
use signal_tests.Masks.SigsuspendMask.Verdict as SigsuspendMaskVerdict
use signal_tests.Masks.SigsuspendMultiple
use signal_tests.Masks.SigsuspendMultiple.Verdict as SigsuspendMultipleVerdict
use signal_tests.Masks.SigwaitSigpending
use signal_tests.Masks.SigwaitSigpending.Verdict as SigwaitSigpendingVerdict
use signal_tests.AltStack.SigaltstackErrors
use signal_tests.AltStack.SigaltstackErrors.Verdict as SigaltstackErrorsVerdict
use signal_tests.Tests.Setup.{some_registers, no_bytes}
use signal_tests.Tests.Passing.{sigsuspend_mask_run, sigsuspend_multiple_run}

-- A process in a system call.
abbrev calling : Process
calling = fresh (in_call some_registers) (call_bytes System.i386 no_bytes)

sigsuspend_mask_frames_example :
    (w : World Process SigsuspendMask.Globals) × (run manual 4
        (SigsuspendMask.signal_handler System.i386)
        SigsuspendMask.main
        (start calling SigsuspendMask.initial)
      ≡ finished 0 w)
    × (w.served ≢ [])
    × All (SigsuspendMaskVerdict.IsExpected System.i386) w.served
sigsuspend_mask_frames_example =
    SigsuspendMaskVerdict.sigsuspend_mask_frames System.i386 manual 4 calling
      (sigsuspend_mask_run System.i386 some_registers no_bytes)

sigsuspend_multiple_once_example :
    (w : World Process SigsuspendMultiple.Globals) × (run manual 4
        (SigsuspendMultiple.signal_handler System.i386)
        SigsuspendMultiple.main
        (start calling SigsuspendMultiple.initial)
      ≡ finished 0 w)
    × ((f : Frame) × (w.served ≡ f ∷ []) × SigsuspendMultipleVerdict.IsInterrupted System.i386 f)
sigsuspend_multiple_once_example =
    SigsuspendMultipleVerdict.sigsuspend_multiple_once System.i386 manual 4 calling
      (sigsuspend_multiple_run System.i386 some_registers no_bytes)

sigwait_sigpending_answers-pass :
    Passes
      (logged manual)
      1
      SigwaitSigpending.no_handler
      SigwaitSigpending.main
      (fresh some_registers no_bytes, [])
      SigwaitSigpending.initial
unfolding run SigwaitSigpending.main SigwaitSigpending.no_handler
sigwait_sigpending_answers-pass = refl

sigwait_sigpending_answers_example :
    (w : World (Process × List (Call × Reply)) SigwaitSigpending.Globals) × (end_of (
        run
          (logged manual)
          1
          SigwaitSigpending.no_handler
          SigwaitSigpending.main
          (start (fresh some_registers no_bytes, []) SigwaitSigpending.initial))
      ≡ some w)
    × ((IsIn SigwaitSigpendingVerdict.IsPending w.kernel.1
          × IsIn SigwaitSigpendingVerdict.IsTaken w.kernel.1)
        × (IsIn SigwaitSigpendingVerdict.IsGone w.kernel.1
            × IsIn SigwaitSigpendingVerdict.IsTimedOut w.kernel.1))
sigwait_sigpending_answers_example =
    SigwaitSigpendingVerdict.sigwait_sigpending_answers manual 1 (fresh some_registers no_bytes)
      sigwait_sigpending_answers-pass
