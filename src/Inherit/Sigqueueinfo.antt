-- ===== src/Inherit/Sigqueueinfo.antt =====
-- src/sigqueueinfo.cpp: the information of rt_sigqueueinfo(2) reaches the handler as it was sent.
pub mod Sent
use signal_tests.Base.{ℕ, ℤ, pos, negsuc, ◌+◌, ◌-◌, ◌%◌, ◌^◌, ◌&&◌, ◌==◌, ◌=ℤ=◌, if◌then◌else◌}
use signal_tests.Program.{Prog, ◌>>=◌, ◌>>◌, pure, assert, sys, globals, set_globals}
use signal_tests.System
use signal_tests.System.{Sigaction, Ucontext, Frame, Call, Arch, same_handler}

pub record Globals : Type 0 where
  pub parent_pid : ℤ
  pub uid : ℤ

abbrev pub initial : Globals
initial = record { parent_pid = pos 0; uid = pos 0 }

abbrev pub magic : ℕ
magic = 0xabcdef0cafe1234

-- `(void*)magic`: a pointer has the width of the target.
abbrev pub magic_pointer : Arch → ℕ
magic_pointer System.x86_64 = magic % 2 ^ 64
magic_pointer System.i386 = magic % 2 ^ 32

abbrev pub mysig : ℕ
mysig = System.sigrtmin + 10

-- -0xcafe
abbrev pub code_sent : ℤ
code_sent = negsuc 0xcafd

-- The two bytes before the place where the frame returns to are the system call instruction.
abbrev pub after_syscall : Arch → Frame → Prog Globals (Unit {0})
after_syscall arch f = do
  assert (f.memory (f.ctx.rip - 2) == System.syscall_first arch)
  assert (f.memory (f.ctx.rip - 1) == System.syscall_second arch)

unfoldable pub signal_handler : Arch → Frame → Prog Globals Ucontext
signal_handler arch f = do
  assert (f.sig == mysig)
  assert (f.info.si_code =ℤ= code_sent)
  g ← globals
  assert (pos f.info.si_pid =ℤ= g.parent_pid)
  h ← globals
  assert (pos f.info.si_uid =ℤ= h.uid)
  assert (f.info.si_value == magic_pointer arch)
  assert (f.ctx.rax =ℤ= System.minus_eintr)
  after_syscall arch f
  pure f.ctx

abbrev pub sa : Sigaction
sa = record {
  handler = System.function 0;
  flags = System.sa_siginfo;
  mask = System.sigemptyset;
  restorer = 0;
}

unfoldable pub child : Prog Globals ℕ
child = do
  _ ← sys (Call.sigaction mysig sa)
  result ← sys (Call.sigsuspend (System.sigdelset System.sigfillset mysig))
  assert (result.result =ℤ= System.minus_one)
  assert (result.errno == System.eintr)
  pure 0

-- Pids and uids are not negative.
abbrev number : ℤ → ℕ
number (pos n) = n
number (negsuc n) = 0

unfoldable pub parent : Arch → ℤ → Prog Globals ℕ
parent arch pid = do
  g ← globals
  _ ← sys (
      Call.rt_sigqueueinfo pid mysig (record System.no_info {
        si_code = code_sent;
        si_pid = number g.parent_pid;
        si_uid = number g.uid;
        si_value = magic_pointer arch;
      }))
  w ← sys (Call.waitpid pid 0)
  if w.result =ℤ= System.minus_one
      then pure 1
      else (assert (System.wifexited w.status && (System.wexitstatus w.status == 0)) >> pure 0)

unfoldable pub main : Arch → Prog Globals ℕ
unfolding child parent
main arch = do
  uid ← sys Call.geteuid
  g ← globals
  set_globals (record g { uid = uid.result })
  pid ← sys Call.getpid
  h ← globals
  set_globals (record h { parent_pid = pid.result })
  _ ← sys (Call.sigprocmask System.sig_block System.sigfillset)
  child_pid ← sys Call.fork
  if child_pid.result =ℤ= pos 0 then child else parent arch child_pid.result
