-- ===== src/AltStack/TwoSignalsAltStackDisarm.antt =====
-- src/two-signals-alt-stack-disarm.cpp: SS_AUTODISARM turns the alternate stack off while a handler
-- runs on it.
use signal_tests.Base.{ℕ, ◌+◌, ◌-◌, ◌*◌, Bool, false, not, ◌&&◌, ltb, leb, ◌==◌, if◌then◌else◌}
use signal_tests.Program.{Prog, ◌>>=◌, ◌>>◌, pure, assert, succeed, sys, globals, set_globals}
use signal_tests.System
use signal_tests.System.{Sigaction, Stack, Ucontext, Frame, Call}

abbrev altsz : ℕ
altsz = 1024 * 1024

pub record Globals : Type 0 where
  pub new_stack : ℕ
  pub signal_count : ℕ

abbrev pub initial : Globals
initial = record { new_stack = 0; signal_count = 0 }

-- The differences of addresses are of 64 bits; the first test makes this one a plain subtraction.
abbrev was_on_alt_stack : Globals → Frame → Bool
was_on_alt_stack g f = ltb g.new_stack f.ctx.rsp && leb (f.ctx.rsp - g.new_stack) altsz

unfoldable pub check : Globals → Frame → Stack → Prog Globals (Unit {0})
check g f old_stack =
    if g.signal_count == 1
    then (assert (old_stack.ss_sp == 0)
        >> (assert (f.ctx.uc_stack.ss_sp == 0) >> assert (was_on_alt_stack g f)))
    else if g.signal_count == 2
    then (assert (old_stack.ss_sp == 0)
        >> (assert (f.ctx.uc_stack.ss_sp == 0) >> assert (was_on_alt_stack g f)))
    else if g.signal_count == 3
    then (assert (old_stack.ss_sp == 0)
        >> (assert (f.ctx.uc_stack.ss_sp == g.new_stack) >> assert (not (was_on_alt_stack g f))))
    else assert false

unfoldable pub signal_handler : Frame → Prog Globals Ucontext
unfolding check
signal_handler f = do
  q ← sys Call.sigaltstack_query
  g ← globals
  set_globals (record g { signal_count = g.signal_count + 1 })
  h ← globals
  check h f q.old_stack
  pure f.ctx

abbrev sa : Sigaction
sa = record {
  handler = System.function 0;
  flags = System.sa_siginfo + System.sa_onstack;
  mask = System.sigemptyset;
  restorer = 0;
}

unfoldable pub main : Prog Globals ℕ
main = do
  m ← sys (Call.malloc altsz)
  g ← globals
  set_globals (record g { new_stack = m.address })
  succeed (
      Call.sigaltstack
        (record { ss_sp = m.address; ss_size = altsz; ss_flags = System.ss_autodisarm }))
  _ ← sys (Call.sigaction System.sigurg sa)
  _ ← sys (Call.sigaction System.sigpwr sa)
  _ ← sys (Call.sigaction System.sigusr1 sa)
  _ ← sys (Call.sigprocmask System.sig_block System.sigfillset)
  _ ← sys (Call.raise System.sigurg)
  _ ← sys (Call.raise System.sigpwr)
  _ ← sys (Call.raise System.sigusr1)
  _ ← sys (Call.sigprocmask System.sig_unblock System.sigfillset)
  pure 0
