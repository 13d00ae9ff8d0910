-- ===== src/Tests/Passing.antt =====
-- Runs of the tests on the kernel `manual`, from a fresh process.
use signal_tests.Base.{ℕ, refl, ==_refl}
use signal_tests.Program.{run, Passes}
use signal_tests.Manual.{manual, fresh, in_call, call_bytes}
use signal_tests.System
use signal_tests.System.{Ucontext, Arch}
use signal_tests.Queue.MultipleRealtime
use signal_tests.Queue.MultipleStandard
use signal_tests.Queue.MaskAll
use signal_tests.Queue.TwoSignals
use signal_tests.Nesting.SameSignal
use signal_tests.Nesting.Nodefer
use signal_tests.Nesting.Resethand
use signal_tests.AltStack.TwoSignalsAltStack
use signal_tests.AltStack.TwoSignalsAltStackDisarm
use signal_tests.AltStack.SigaltstackQuery
use signal_tests.AltStack.SigaltstackErrors
use signal_tests.AltStack.UcStackAlways
use signal_tests.AltStack.UcStackRestore
use signal_tests.Masks.BlockRtmin
use signal_tests.Masks.UcMask
use signal_tests.Masks.UcOldmask
use signal_tests.Masks.SigsuspendMask
use signal_tests.Masks.SigsuspendMultiple
use signal_tests.Masks.SigwaitSigpending
use signal_tests.Masks.RtSigactionOldact

pub multiple_realtime_run :
    (regs : Ucontext) (bytes : ℕ → ℕ)
    → Passes manual 64 MultipleRealtime.signal_handler MultipleRealtime.main
        (fresh regs bytes)
        MultipleRealtime.initial
unfolding run MultipleRealtime.signal_handler MultipleRealtime.main MultipleRealtime.steps
multiple_realtime_run regs bytes = refl

pub multiple_standard_run :
    (regs : Ucontext) (bytes : ℕ → ℕ)
    → Passes manual 4 MultipleStandard.signal_handler MultipleStandard.main
        (fresh regs bytes)
        MultipleStandard.initial
unfolding run MultipleStandard.signal_handler MultipleStandard.main MultipleStandard.steps
multiple_standard_run regs bytes = refl

pub mask_all_run :
    (regs : Ucontext) (bytes : ℕ → ℕ)
    → Passes manual 4 MaskAll.signal_handler MaskAll.main (fresh regs bytes) MaskAll.initial
unfolding run MaskAll.signal_handler MaskAll.main MaskAll.steps
mask_all_run regs bytes = refl

pub two_signals_run :
    (regs : Ucontext) (bytes : ℕ → ℕ)
    → Passes manual 4 TwoSignals.signal_handler TwoSignals.main
        (fresh regs bytes)
        TwoSignals.initial
unfolding run TwoSignals.signal_handler TwoSignals.main TwoSignals.steps
two_signals_run regs bytes = refl

pub same_signal_run :
    (regs : Ucontext) (bytes : ℕ → ℕ)
    → Passes manual 4 SameSignal.signal_handler SameSignal.main
        (fresh regs bytes)
        SameSignal.initial
unfolding run SameSignal.signal_handler SameSignal.main
same_signal_run regs bytes = refl

pub nodefer_run :
    (regs : Ucontext) (bytes : ℕ → ℕ)
    → Passes manual 8 Nodefer.signal_handler Nodefer.main (fresh regs bytes) Nodefer.initial
unfolding run Nodefer.signal_handler Nodefer.main
nodefer_run regs bytes = refl

pub resethand_run :
    (regs : Ucontext) (bytes : ℕ → ℕ)
    → Passes manual 4 Resethand.signal_handler Resethand.main (fresh regs bytes) Resethand.initial
unfolding run Resethand.signal_handler Resethand.main Resethand.steps
resethand_run regs bytes = refl

pub two_signals_alt_stack_run :
    (regs : Ucontext) (bytes : ℕ → ℕ)
    → Passes manual 4 TwoSignalsAltStack.signal_handler TwoSignalsAltStack.main
        (fresh regs bytes)
        TwoSignalsAltStack.initial
unfolding run TwoSignalsAltStack.signal_handler TwoSignalsAltStack.main TwoSignalsAltStack.steps
two_signals_alt_stack_run regs bytes = refl

pub two_signals_alt_stack_disarm_run :
    (regs : Ucontext) (bytes : ℕ → ℕ)
    → Passes manual 4 TwoSignalsAltStackDisarm.signal_handler TwoSignalsAltStackDisarm.main
        (fresh regs bytes)
        TwoSignalsAltStackDisarm.initial
unfolding run TwoSignalsAltStackDisarm.signal_handler TwoSignalsAltStackDisarm.main
two_signals_alt_stack_disarm_run regs bytes = refl

pub sigaltstack_query_run :
    (regs : Ucontext) (bytes : ℕ → ℕ)
    → Passes manual 4 SigaltstackQuery.signal_handler SigaltstackQuery.main
        (fresh regs bytes)
        SigaltstackQuery.initial
unfolding run SigaltstackQuery.signal_handler SigaltstackQuery.main
sigaltstack_query_run regs bytes = refl

pub sigaltstack_errors_run :
    (regs : Ucontext) (bytes : ℕ → ℕ)
    → Passes manual 4 SigaltstackErrors.no_handler SigaltstackErrors.main
        (fresh regs bytes)
        SigaltstackErrors.initial
unfolding run SigaltstackErrors.main SigaltstackErrors.no_handler
sigaltstack_errors_run regs bytes = refl

pub uc_stack_always_run :
    (regs : Ucontext) (bytes : ℕ → ℕ)
    → Passes manual 4 UcStackAlways.signal_handler UcStackAlways.main
        (fresh regs bytes)
        UcStackAlways.initial
unfolding run UcStackAlways.signal_handler UcStackAlways.main
uc_stack_always_run regs bytes = refl

pub uc_stack_restore_run :
    (regs : Ucontext) (bytes : ℕ → ℕ)
    → Passes manual 4 UcStackRestore.signal_handler UcStackRestore.main
        (fresh regs bytes)
        UcStackRestore.initial
unfolding run UcStackRestore.signal_handler UcStackRestore.main
uc_stack_restore_run regs bytes = refl

pub block_rtmin_run :
    (regs : Ucontext) (bytes : ℕ → ℕ)
    → Passes manual 1 BlockRtmin.no_handler BlockRtmin.main (fresh regs bytes) BlockRtmin.initial
unfolding run BlockRtmin.main BlockRtmin.no_handler
block_rtmin_run regs bytes = refl

pub uc_mask_run :
    (regs : Ucontext) (bytes : ℕ → ℕ)
    → Passes manual 4 UcMask.signal_handler UcMask.main (fresh regs bytes) UcMask.initial
unfolding run UcMask.signal_handler UcMask.main
uc_mask_run regs bytes = refl

pub uc_oldmask_run :
    (regs : Ucontext) (bytes : ℕ → ℕ)
    → Passes manual 4 UcOldmask.signal_handler UcOldmask.main (fresh regs bytes) UcOldmask.initial
unfolding run UcOldmask.signal_handler UcOldmask.main
uc_oldmask_run regs bytes = refl

pub sigsuspend_mask_run :
    (arch : Arch) (regs : Ucontext) (bytes : ℕ → ℕ)
    → Passes manual 4
        (SigsuspendMask.signal_handler arch)
        SigsuspendMask.main
        (fresh (in_call regs) (call_bytes arch bytes))
        SigsuspendMask.initial
unfolding run SigsuspendMask.signal_handler SigsuspendMask.main
sigsuspend_mask_run System.x86_64 regs bytes = refl
sigsuspend_mask_run System.i386 regs bytes = refl

pub sigsuspend_multiple_run :
    (arch : Arch) (regs : Ucontext) (bytes : ℕ → ℕ)
    → Passes manual 4
        (SigsuspendMultiple.signal_handler arch)
        SigsuspendMultiple.main
        (fresh (in_call regs) (call_bytes arch bytes))
        SigsuspendMultiple.initial
unfolding run SigsuspendMultiple.signal_handler SigsuspendMultiple.main
sigsuspend_multiple_run System.x86_64 regs bytes = refl
sigsuspend_multiple_run System.i386 regs bytes = refl

pub sigwait_sigpending_run :
    (regs : Ucontext) (bytes : ℕ → ℕ)
    → Passes manual 1 SigwaitSigpending.no_handler SigwaitSigpending.main
        (fresh regs bytes)
        SigwaitSigpending.initial
unfolding run SigwaitSigpending.main SigwaitSigpending.no_handler
sigwait_sigpending_run regs bytes = refl

pub rt_sigaction_oldact_run :
    (handler restorer : ℕ) (regs : Ucontext) (bytes : ℕ → ℕ)
    → Passes manual 1 RtSigactionOldact.no_handler
        (RtSigactionOldact.main handler restorer)
        (fresh regs bytes)
        RtSigactionOldact.initial
unfolding run RtSigactionOldact.main RtSigactionOldact.no_handler
rt_sigaction_oldact_run handler restorer regs bytes = rw (==_refl handler, ==_refl restorer)
