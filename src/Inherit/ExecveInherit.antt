-- ===== src/Inherit/ExecveInherit.antt =====
-- src/execve-inherit.cpp: a program that is executed has the mask of the one before it.
pub mod Masks
use signal_tests.Base.{ℕ, pos, Bool, true, false, not, ◌==◌, ◌=ℤ=◌, if◌then◌else◌}
use signal_tests.Program.{Prog, ◌>>=◌, ◌>>◌, pure, assert, succeed, sys, set_globals}
use signal_tests.System
use signal_tests.System.{Sigaction, Ucontext, Frame, Call, Arch, same_handler}

pub record Globals : Type 0 where
  pub all_ok : Bool

abbrev pub initial : Globals
initial = record { all_ok = false }

-- No action is set to it.
unfoldable pub signal_handler : Frame → Prog Globals Ucontext
signal_handler f = do set_globals (record { all_ok = true }); pure f.ctx

abbrev pub set : ℕ
set =
    System.sigaddset
      (System.sigaddset
        (System.sigaddset
          (System.sigaddset
            (System.sigaddset (System.sigaddset System.sigemptyset System.sigusr1) System.sigurg)
            40)
          System.sigill)
        System.sigsegv)
      System.sigbus

-- With the variable in the environment: the program that is executed.
unfoldable pub executed : Prog Globals ℕ
executed = do
  current ← sys Call.sigprocmask_query
  assert (current.result =ℤ= pos 0)
  assert (System.sigismember current.old_mask System.sigusr1)
  assert (System.sigismember current.old_mask System.sigurg)
  assert (System.sigismember current.old_mask System.sigill)
  assert (System.sigismember current.old_mask System.sigsegv)
  assert (System.sigismember current.old_mask System.sigbus)
  assert (System.sigismember current.old_mask 40)
  assert (not (System.sigismember current.old_mask System.sigusr2))
  assert (not (System.sigismember current.old_mask System.sigfpe))
  pure 0

-- Without it. Only an execve(2) that fails returns.
unfoldable pub executing : Prog Globals ℕ
executing = do
  _ ← sys Call.setenv
  succeed (Call.sigprocmask System.sig_block set)
  _ ← sys Call.execve
  pure 1

-- `getenv` answers the address of the value, or the null pointer.
unfoldable pub main : Prog Globals ℕ
unfolding executed executing
main = do env ← sys Call.getenv; if env.address == 0 then executing else executed
