-- ===== src/Defaults/All.antt =====
-- src/sigdfl-all.cpp: every signal has its default action.
pub mod Report
use signal_tests.Base.{
  ℕ, ◌%◌, Bool, true, false, ◌&&◌, ◌||◌, List, [], ◌∷◌, ◌==◌, leb, if◌then◌else◌, ℤ, pos, negsuc,
  ◌=ℤ=◌, negative,
}
use signal_tests.Program.{Prog, exit, ◌>>=◌, ◌>>◌, pure, assert, sys, for}
use signal_tests.System
use signal_tests.System.{Call, Frame, Ucontext}

pub record Globals : Type 0 where

abbrev pub initial : Globals
initial = record {}

-- The test sets no handler.
unfoldable pub no_handler : Frame → Prog Globals Ucontext
no_handler f = pure f.ctx

pub data Behavior : Type 0 where
  ignore stop core terminate what : Behavior

-- Whether one of these labels of a `switch` is the value.
abbrev one_of : ℕ → List ℕ → Bool
one_of x [] = false
one_of x (y ∷ ys) = x == y || one_of x ys

-- The numbers of the labels are not negative.
unfoldable pub get_behavior : ℤ → Behavior
get_behavior (negsuc n) = what
get_behavior (pos sig) =
    if one_of sig (
        System.sighup ∷ System.sigalrm ∷ System.sigint ∷ System.sigio ∷ System.sigpipe
        ∷ System.sigprof ∷ System.sigpwr ∷ System.sigstkflt ∷ System.sigterm ∷ System.sigusr1
        ∷ System.sigusr2 ∷ System.sigvtalrm ∷ [])
      || (leb 32 sig && leb sig 64)
    then terminate
    else if one_of sig (
        System.sigabrt ∷ System.sigbus ∷ System.sigfpe ∷ System.sigill ∷ System.sigquit
        ∷ System.sigsegv ∷ System.sigsys ∷ System.sigtrap ∷ System.sigxcpu ∷ System.sigxfsz ∷ [])
    then core
    else if one_of sig (System.sigcont ∷ System.sigurg ∷ System.sigwinch ∷ System.sigchld ∷ [])
    then ignore
    else if one_of sig (System.sigtstp ∷ System.sigttin ∷ System.sigttou ∷ System.sigstop ∷ [])
    then stop
    else what

-- The exit status of a child that its signal has not ended.
abbrev pub exited_well : ℕ → Bool
exited_well status = System.wifexited status && (System.wexitstatus status % 256 == 42)

-- What `main` does with the status of the child: `return 1` ends the loop and the test.
unfoldable pub examine : Behavior → ℕ → ℤ → ℕ → Prog Globals (Unit {0})
examine terminate i pid status =
    if System.wifsignaled status && (System.wtermsig status == i) then pure tt else exit 1
examine core i pid status =
    if System.wifsignaled status && (System.wtermsig status == i) then pure tt else exit 1
examine stop i pid status =
    if System.wifstopped status && (System.wstopsig status == i)
    then (do
      _ ← sys (Call.kill pid System.sigcont)
      w ← sys (Call.waitpid pid 0)
      if w.result =ℤ= System.minus_one
          then exit 1
          else if exited_well w.status
          then pure tt
          else exit 1)
    else exit 1
examine ignore i pid status = if exited_well status then pure tt else exit 1
examine what i pid status = exit 1

-- The action of SIGSTOP cannot be set.
abbrev pub set_default : ℕ → Prog Globals (Unit {0})
set_default i = if i == System.sigstop then pure tt else (do
  r ← sys (Call.rt_sigaction i System.no_action)
  if r.result =ℤ= pos 0 then pure tt else exit 1)

-- The child sends itself the signal, and ends with 42 if it still can.
unfoldable pub child : ℕ → Prog Globals (Unit {0})
child i = do
  set_default i
  pid ← sys Call.getpid
  tid ← sys Call.gettid
  r ← sys (Call.tgkill pid.result tid.result i)
  assert (r.result =ℤ= pos 0)
  exit 42

unfoldable pub parent : ℕ → ℤ → Prog Globals (Unit {0})
unfolding examine
parent i pid = do
  w ← sys (Call.waitpid pid System.wuntraced)
  if w.result =ℤ= System.minus_one then exit 1 else examine (get_behavior (pos i)) i pid w.status

-- One round of the loop.
unfoldable pub round : ℕ → Prog Globals (Unit {0})
unfolding child parent
round i = if i == System.sigkill then pure tt else (do
  pid ← sys Call.fork
  if negative pid.result
      then exit 1
      else if pid.result =ℤ= pos 0
      then child i
      else parent i pid.result)

unfoldable pub main : Prog Globals ℕ
unfolding round
main = do for 1 64 round; pure 0
