-- ===== src/AltStack/SigaltstackQuery.antt =====
-- src/sigaltstack-query.cpp: what sigaltstack(2) reports before, while and after there is a stack.
use signal_tests.Base.{ℕ, ◌+◌, ◌*◌, Bool, true, false, ◌==◌, pos, ◌=ℤ=◌}
use signal_tests.Program.{Prog, ◌>>=◌, ◌>>◌, pure, assert, succeed, sys, globals, set_globals}
use signal_tests.System
use signal_tests.System.{Sigaction, Stack, Ucontext, Frame, Call}

abbrev altsz : ℕ
altsz = 1024 * 1024

pub record Globals : Type 0 where
  pub alt : ℕ
  pub handler_ran : Bool

abbrev pub initial : Globals
initial = record { alt = 0; handler_ran = false }

-- `ASSERT(sigaltstack(nullptr, &q) == 0)` and the assertions on what `q` holds then.
abbrev query : Stack → Prog Globals (Unit {0})
query st = do
  q ← sys Call.sigaltstack_query
  assert (q.result =ℤ= pos 0)
  assert (q.old_stack.ss_sp == st.ss_sp)
  assert (q.old_stack.ss_size == st.ss_size)
  assert (q.old_stack.ss_flags == st.ss_flags)

unfoldable pub signal_handler : Frame → Prog Globals Ucontext
signal_handler f = do
  g ← globals
  set_globals (record g { handler_ran = true })
  query (record { ss_sp = g.alt; ss_size = altsz; ss_flags = System.ss_onstack })
  pure f.ctx

abbrev sa : Sigaction
sa = record {
  handler = System.function 0;
  flags = System.sa_siginfo + System.sa_onstack;
  mask = System.sigemptyset;
  restorer = 0;
}

unfoldable pub main : Prog Globals ℕ
main = do
  m ← sys (Call.malloc altsz)
  g ← globals
  set_globals (record g { alt = m.address })
  query (record { ss_sp = 0; ss_size = 0; ss_flags = System.ss_disable })
  succeed (Call.sigaltstack (record { ss_sp = m.address; ss_size = altsz; ss_flags = 0 }))
  query (record { ss_sp = m.address; ss_size = altsz; ss_flags = 0 })
  succeed (Call.sigaction System.sigusr1 sa)
  _ ← sys (Call.raise System.sigusr1)
  h ← globals
  assert h.handler_ran
  q ← sys Call.sigaltstack_query
  assert (q.result =ℤ= pos 0)
  assert (q.old_stack.ss_flags == 0)
  succeed (
      Call.sigaltstack
        (record { ss_sp = m.address; ss_size = altsz; ss_flags = System.ss_disable }))
  query (record { ss_sp = 0; ss_size = 0; ss_flags = System.ss_disable })
  pure 0
