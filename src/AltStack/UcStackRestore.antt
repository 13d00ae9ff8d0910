-- ===== src/AltStack/UcStackRestore.antt =====
-- src/uc-stack-restore.cpp: a handler that changes the stack in its frame changes the alternate stack.
use signal_tests.Base.{ℕ, ◌*◌, ◌==◌, pos, ◌=ℤ=◌}
use signal_tests.Program.{Prog, ◌>>=◌, ◌>>◌, pure, assert, succeed, sys, globals, set_globals}
use signal_tests.System
use signal_tests.System.{Sigaction, Stack, Ucontext, Frame, Call}

abbrev altsz : ℕ
altsz = 1024 * 1024

pub record Globals : Type 0 where
  pub alt : ℕ
  pub alt2 : ℕ

abbrev pub initial : Globals
initial = record { alt = 0; alt2 = 0 }

-- `ASSERT(sigaltstack(nullptr, &q) == 0)` and the assertions on what `q` holds then.
abbrev query : Stack → Prog Globals (Unit {0})
query st = do
  q ← sys Call.sigaltstack_query
  assert (q.result =ℤ= pos 0)
  assert (q.old_stack.ss_sp == st.ss_sp)
  assert (q.old_stack.ss_size == st.ss_size)
  assert (q.old_stack.ss_flags == st.ss_flags)

unfoldable pub signal_handler : Frame → Prog Globals Ucontext
signal_handler f = do
  g ← globals
  pure (record f.ctx { uc_stack = record { ss_sp = g.alt2; ss_size = altsz; ss_flags = 0 } })

abbrev sa : Sigaction
sa = record {
  handler = System.function 0;
  flags = System.sa_siginfo;
  mask = System.sigemptyset;
  restorer = 0;
}

unfoldable pub main : Prog Globals ℕ
main = do
  m ← sys (Call.malloc altsz)
  m2 ← sys (Call.malloc altsz)
  set_globals (record { alt = m.address; alt2 = m2.address })
  succeed (Call.sigaltstack (record { ss_sp = m.address; ss_size = altsz; ss_flags = 0 }))
  succeed (Call.sigaction System.sigusr1 sa)
  _ ← sys (Call.raise System.sigusr1)
  query (record { ss_sp = m2.address; ss_size = altsz; ss_flags = 0 })
  pure 0
