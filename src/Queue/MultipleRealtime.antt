-- ===== src/Queue/MultipleRealtime.antt =====
-- src/multiple-realtime.cpp: real-time signals queue, in order, lower numbers first.
pub mod Order
use signal_tests.Base.{ℕ, ◌+◌, ◌-◌, ltb, ◌==◌, if◌then◌else◌, ℤ}
use signal_tests.System
use signal_tests.System.{Sigaction, Ucontext, Frame, Call, sigfillset}
use signal_tests.Program.{
  Prog, ret, call, ◌>>=◌, ◌>>◌, pure, assert, succeed, sys, globals, set_globals, for,
}

abbrev pub mysig : ℕ
mysig = 40

pub record Globals : Type 0 where
  pub count : ℕ

abbrev pub initial : Globals
initial = record { count = 0 }

-- The values of the signals count from here.
abbrev pub first_value : ℕ
first_value = 0xCAFE

-- The assertions on the signal that comes when `count` have been handled.
abbrev check : ℕ → Frame → Prog Globals (Unit {0})
check count f =
    if ltb count 32
    then (assert (f.sig == mysig) >> assert (f.info.si_value == first_value + count))
    else (assert (f.sig == mysig + 1) >> assert (f.info.si_value == first_value + (count - 32)))

unfoldable pub signal_handler : Frame → Prog Globals Ucontext
signal_handler f = do
  g ← globals
  check g.count f
  set_globals (record { count = g.count + 1 })
  pure f.ctx

abbrev sa : Sigaction
sa = record {
  handler = System.function 0;
  flags = System.sa_siginfo;
  mask = sigfillset;
  restorer = 0;
}

abbrev queue_both : ℕ → Prog Globals (Unit {0})
queue_both i = do
  pid ← sys Call.getpid
  succeed (Call.sigqueue pid.result (mysig + 1) (first_value + i))
  self ← sys Call.getpid
  succeed (Call.sigqueue self.result mysig (first_value + i))

-- The calls, before the count is checked.
unfoldable pub steps : Prog Globals (Unit {0})
steps = do
  _ ← sys (Call.sigprocmask System.sig_block sigfillset)
  succeed (Call.sigaction mysig sa)
  succeed (Call.sigaction (mysig + 1) sa)
  for 0 32 queue_both
  _ ← sys (Call.sigprocmask System.sig_unblock sigfillset)
  pure tt

unfoldable pub main : Prog Globals ℕ
unfolding steps
main = do steps; g ← globals; assert (g.count == 64); pure 0
