-- ===== src/Masks/SigwaitSigpending.antt =====
-- src/sigwait-sigpending.cpp: a blocked signal shows as pending, and can be taken without a handler.
pub mod Verdict
use signal_tests.Base.{ℕ, ◌+◌, ◌*◌, not, ◌==◌, pos, ◌=ℤ=◌}
use signal_tests.Program.{Prog, ◌>>=◌, ◌>>◌, pure, assert, succeed, sys}
use signal_tests.System
use signal_tests.System.{Ucontext, Frame, Call}

pub record Globals : Type 0 where

abbrev pub initial : Globals
initial = record {}

-- The test sets no handler.
unfoldable pub no_handler : Frame → Prog Globals Ucontext
no_handler f = pure f.ctx

abbrev pub rtsig : ℕ
rtsig = System.sigrtmin + 3

abbrev pub set : ℕ
set = System.sigaddset (System.sigaddset System.sigemptyset System.sigusr1) rtsig

abbrev pub timeout : ℕ
timeout = 20 * 1000 * 1000

unfoldable pub main : Prog Globals ℕ
main = do
  succeed (Call.sigprocmask System.sig_block set)
  self ← sys Call.getpid
  succeed (Call.sigqueue self.result rtsig 0x1234)
  pending ← sys Call.sigpending
  assert (pending.result =ℤ= pos 0)
  assert (System.sigismember pending.old_mask rtsig)
  assert (not (System.sigismember pending.old_mask System.sigusr1))
  si ← sys (Call.sigwaitinfo set)
  assert (si.result =ℤ= pos rtsig)
  assert (si.info.si_signo == rtsig)
  assert (si.info.si_code =ℤ= System.si_queue)
  assert (si.info.si_value == 0x1234)
  me ← sys Call.getpid
  assert (pos si.info.si_pid =ℤ= me.result)
  rest ← sys Call.sigpending
  assert (rest.result =ℤ= pos 0)
  assert (not (System.sigismember rest.old_mask rtsig))
  r ← sys (Call.sigtimedwait set timeout)
  assert (r.result =ℤ= System.minus_one)
  assert (r.errno == System.eagain)
  pure 0
