-- ===== src/Queue/RtOrder.antt =====
-- src/rt-order.cpp: real-time signals that wait are served from the lowest number up.
pub mod Order
pub mod Interleaving
use signal_tests.Base.{ℕ, zero, suc, ◌+◌, ◌&&◌, List, [], ◌∷◌, ◌==◌, if◌then◌else◌, ℤ, pos, ◌=ℤ=◌}
use signal_tests.Program.{
  Prog, spin, ◌>>=◌, ◌>>◌, pure, assert, succeed, sys, globals, set_globals, for,
}
use signal_tests.System
use signal_tests.System.{Sigaction, Ucontext, Frame, Call}

pub record Globals : Type 0 where
  pub now_servicing : ℕ
  pub serviced : ℕ

abbrev pub initial : Globals
initial = record { now_servicing = 34; serviced = 0 }

unfoldable pub signal_handler : Frame → Prog Globals Ucontext
signal_handler f = do
  g ← globals
  assert (g.now_servicing == f.sig)
  set_globals (record { now_servicing = g.now_servicing + 1; serviced = g.serviced + 1 })
  pure f.ctx

abbrev pub sa : Sigaction
sa = record {
  handler = System.function 0;
  flags = System.sa_siginfo;
  mask = System.sigfillset;
  restorer = 0;
}

-- `while (__atomic_exchange_n(lock, 1, __ATOMIC_SEQ_CST)) _mm_pause();` with a bound on the rounds.
-- The exchange answers the old value of the lock.
unfoldable pub wait_lock : ℕ → Prog Globals (Unit {0})
wait_lock zero = spin
wait_lock (suc rounds) = do
  old ← sys (Call.atomic_exchange 1)
  let rest = wait_lock rounds
  if old.result =ℤ= pos 0 then pure tt else rest

-- The child, before it checks what its handlers have done.
unfoldable pub child_steps : ℕ → Prog Globals (Unit {0})
unfolding wait_lock
child_steps rounds = do
  wait_lock rounds
  _ ← sys (Call.sigprocmask System.sig_unblock System.sigfillset)
  pure tt

unfoldable pub child : ℕ → Prog Globals ℕ
unfolding child_steps
child rounds = do
  child_steps rounds
  g ← globals
  assert (g.serviced == 6)
  h ← globals
  assert (h.now_servicing == 40)
  pure 0

abbrev pub send_all : ℤ → List ℕ → Prog Globals (Unit {0})
send_all pid [] = pure tt
send_all pid (sig ∷ sigs) = succeed (Call.kill pid sig) >> send_all pid sigs

-- The signals are sent out of order; then the child may go on, and must end well.
unfoldable pub parent : ℤ → Prog Globals ℕ
parent pid = do
  send_all pid (36 ∷ 34 ∷ 35 ∷ 37 ∷ 39 ∷ 38 ∷ [])
  _ ← sys (Call.atomic_store 0)
  w ← sys (Call.waitpid pid 0)
  if w.result =ℤ= System.minus_one
      then pure 1
      else (assert (System.wifexited w.status && (System.wexitstatus w.status == 0)) >> pure 0)

-- The lock is in memory that the two processes share, which `mmap` gives.
unfoldable pub main : ℕ → Prog Globals ℕ
unfolding child parent
main rounds = do
  _ ← sys (Call.mmap 4096)
  _ ← sys (Call.atomic_store 1)
  for 34 6 (λ i. succeed (Call.sigaction i sa))
  _ ← sys (Call.sigprocmask System.sig_block System.sigfillset)
  pid ← sys Call.fork
  if pid.result =ℤ= pos 0 then child rounds else parent pid.result
