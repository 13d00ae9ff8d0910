-- ===== src/AltStack/SigaltstackErrors.antt =====
-- src/sigaltstack-errors.cpp: the errors of sigaltstack(2) leave the stack as it was.
pub mod Verdict
use signal_tests.Base.{ℕ, ◌*◌, ◌==◌, pos, ◌=ℤ=◌}
use signal_tests.Program.{Prog, ◌>>=◌, ◌>>◌, pure, assert, succeed, sys}
use signal_tests.System
use signal_tests.System.{Stack, Ucontext, Frame, Call}

abbrev pub altsz : ℕ
altsz = 1024 * 1024

pub record Globals : Type 0 where

abbrev pub initial : Globals
initial = record {}

-- `ASSERT(sigaltstack(nullptr, &q) == 0)` and the assertions on what `q` holds then.
abbrev pub query : Stack → Prog Globals (Unit {0})
query st = do
  q ← sys Call.sigaltstack_query
  assert (q.result =ℤ= pos 0)
  assert (q.old_stack.ss_sp == st.ss_sp)
  assert (q.old_stack.ss_size == st.ss_size)
  assert (q.old_stack.ss_flags == st.ss_flags)

-- The call fails with this error.
abbrev pub refused : Stack → ℕ → Prog Globals (Unit {0})
refused st e = do
  r ← sys (Call.sigaltstack st)
  assert (r.result =ℤ= System.minus_one)
  assert (r.errno == e)

abbrev pub small : ℕ → Stack
small alt = record { ss_sp = alt; ss_size = 1; ss_flags = 0 }

-- The test sets no handler.
unfoldable pub no_handler : Frame → Prog Globals Ucontext
no_handler f = pure f.ctx

unfoldable pub main : Prog Globals ℕ
main = do
  m ← sys (Call.malloc altsz)
  refused (small m.address) System.enomem
  refused (record { ss_sp = m.address; ss_size = altsz; ss_flags = 0x1234 }) System.einval
  query (record { ss_sp = 0; ss_size = 0; ss_flags = System.ss_disable })
  succeed (Call.sigaltstack (record { ss_sp = m.address; ss_size = altsz; ss_flags = 0 }))
  refused (small m.address) System.enomem
  query (record { ss_sp = m.address; ss_size = altsz; ss_flags = 0 })
  pure 0
