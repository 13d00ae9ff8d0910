-- ===== src/Manual/State.antt =====
-- The part of a process that the manual pages speak of.
use signal_tests.Base.{
  ℕ, ◌+◌, ◌-◌, ◌/◌, ◌%◌, Bool, true, false, not, ◌&&◌, ◌||◌, List, [], ◌∷◌, ◌++◌, Option, none,
  some, ltb, leb, ◌==◌, if◌then◌else◌, bit_and, bit_or,
}
use signal_tests.System.{
  Handler, sig_dfl, sig_ign, function, Sigaction, Stack, Siginfo, Ucontext, sigismember, sigaddset,
  complement, blockable, no_action, no_stack, Arch, syscall_first, syscall_second, How, sig_block,
  sig_unblock, sig_setmask, sigchld, sigcont, sigurg, sigwinch,
}

-- `pending` is in the order of arrival. `saved` is the mask that sigsuspend(2) will restore.
-- `machine` are the registers of the interrupted program, and `memory` its bytes.
pub record Process : Type 0 where
  pub pid : ℕ
  pub mask : ℕ
  pub pending : List Siginfo
  pub actions : ℕ → Sigaction
  pub stack : Stack
  pub saved : Option ℕ
  pub machine : Ucontext
  pub memory : ℕ → ℕ
  pub free : ℕ

-- signal(7): the signals that are ignored by default.
abbrev pub default_ignored : ℕ → Bool
default_ignored sig = sig == sigchld || sig == sigcont || sig == sigurg || sig == sigwinch

abbrev pub has_flag : ℕ → ℕ → Bool
has_flag flags flag = flags / flag % 2 == 1

abbrev pub ignored_by : Handler → ℕ → Bool
ignored_by sig_dfl sig = default_ignored sig
ignored_by sig_ign sig = true
ignored_by (function a) sig = false

abbrev pub lethal_by : Handler → ℕ → Bool
lethal_by sig_dfl sig = not (default_ignored sig)
lethal_by sig_ign sig = false
lethal_by (function a) sig = false

abbrev pub blocked : Process → ℕ → Bool
blocked p sig = sigismember p.mask sig

-- SIGKILL and SIGSTOP cannot be blocked.
abbrev pub change_mask : How → ℕ → ℕ → ℕ
change_mask sig_block old set = bit_and (bit_or old set) blockable
change_mask sig_unblock old set = bit_and old (complement set)
change_mask sig_setmask old set = bit_and set blockable

abbrev pub set_action : (ℕ → Sigaction) → ℕ → Sigaction → ℕ → Sigaction
set_action f sig act n = if n == sig then act else f n

-- Whether a signal of this number waits.
abbrev pub waits : List Siginfo → ℕ → Bool
waits [] sig = false
waits (i ∷ is) sig = i.si_signo == sig || waits is sig

-- Standard signals do not queue, real-time signals do. An ignored signal is not kept, unless it is
-- blocked.
abbrev pub send : Siginfo → Process → Process
send i p =
    let sig = i.si_signo in
    if not (blocked p sig) && ignored_by (p.actions sig).handler sig
    then p
    else if ltb sig 32 && waits p.pending sig
    then p
    else record p { pending = p.pending ++ i ∷ [] }

-- The lowest number among the waiting signals that pass the test; the oldest of that number.
abbrev pub lower : Siginfo → Option Siginfo → Option Siginfo
lower i none = some i
lower i (some j) = if leb i.si_signo j.si_signo then some i else some j

abbrev pub lowest : (ℕ → Bool) → List Siginfo → Option Siginfo
lowest test [] = none
lowest test (i ∷ is) = let rest = lowest test is in if test i.si_signo then lower i rest else rest

abbrev pub take_out : ℕ → List Siginfo → List Siginfo
take_out sig [] = []
take_out sig (i ∷ is) = let rest = take_out sig is in if i.si_signo == sig then is else i ∷ rest

-- The set of the waiting signals that are blocked, as sigpending(2) shows it.
abbrev pub pending_set : Process → List Siginfo → ℕ
pending_set p [] = 0
pending_set p (i ∷ is) =
    let rest = pending_set p is in if blocked p i.si_signo then sigaddset rest i.si_signo else rest

-- sigaltstack(2)
abbrev pub on_stack : Process → Bool
on_stack p = ltb p.stack.ss_sp p.machine.rsp && leb p.machine.rsp (p.stack.ss_sp + p.stack.ss_size)

-- Unblocked signals that are ignored are dropped; one whose action ends or stops the process leaves
-- no process to speak of.
abbrev pub drop_ignored : Process → List Siginfo → List Siginfo
drop_ignored p [] = []
drop_ignored p (i ∷ is) =
    let rest = drop_ignored p is in
    if not (blocked p i.si_signo) && ignored_by (p.actions i.si_signo).handler i.si_signo
    then rest
    else i ∷ rest

abbrev pub some_lethal : Process → List Siginfo → Bool
some_lethal p [] = false
some_lethal p (i ∷ is) =
    not (blocked p i.si_signo) && lethal_by (p.actions i.si_signo).handler i.si_signo
    || some_lethal p is

abbrev pub survive {ℓ} : {A : Type ℓ} → A → Process → Option (A × Process)
survive r p =
    if some_lethal p p.pending
    then none
    else some (r, record p { pending = drop_ignored p p.pending })

-- A process that has just started: nothing blocked, nothing waiting, every action the default. Its
-- registers are any but the stack pointer, which is below the alternate stacks of the tests.
abbrev pub stack_top : ℕ
stack_top = 0x7f0000

abbrev pub first_free : ℕ
first_free = 0x1000000

abbrev pub own_pid : ℕ
own_pid = 1000

abbrev pub fresh : Ucontext → (ℕ → ℕ) → Process
fresh regs bytes = record {
  pid = own_pid;
  mask = 0;
  pending = [];
  actions = λ _. no_action;
  stack = no_stack;
  saved = none;
  machine = record regs { rsp = stack_top };
  memory = bytes;
  free = first_free;
}

-- Registers and bytes of a program that is in a system call of this target.
abbrev pub call_site : ℕ
call_site = 0x401002

abbrev pub in_call : Ucontext → Ucontext
in_call regs = record regs { rip = call_site }

abbrev pub call_bytes : Arch → (ℕ → ℕ) → ℕ → ℕ
call_bytes arch bytes a =
    if a == call_site - 2
    then syscall_first arch
    else if a == call_site - 1
    then syscall_second arch
    else bytes a
