-- ===== src/Manual/Answers.antt =====
-- What each call answers, and what it does to the process.
use signal_tests.Base.{
  ℕ, ◌+◌, ◌-◌, Bool, true, false, not, ◌&&◌, ◌||◌, Option, none, some, ltb, ◌==◌, if◌then◌else◌,
  bit_and, ℤ, pos, negsuc, ◌=ℤ=◌,
}
use signal_tests.System
use signal_tests.System.{Call, Reply, Stack, Siginfo, Sigaction, blockable, returning, failing}
use signal_tests.Manual.State.{
  Process, change_mask, set_action, send, lowest, take_out, pending_set, on_stack, survive,
  has_flag,
}

abbrev pub info_of : ℕ → ℤ → Process → ℕ → Siginfo
info_of sig code p value = record {
  si_signo = sig;
  si_code = code;
  si_addr = 0;
  si_pid = p.pid;
  si_uid = 0;
  si_value = value;
}

abbrev pub min_stack : ℕ
min_stack = 2048

-- What sigaltstack(2) reports: the flag says whether the program runs on the stack now.
abbrev pub reported_stack : Process → Stack
reported_stack p =
    if p.stack.ss_size == 0
    then record p.stack { ss_flags = System.ss_disable }
    else if on_stack p
    then record p.stack { ss_flags = p.stack.ss_flags + System.ss_onstack }
    else p.stack

-- The flag SS_AUTODISARM aside, the mode must be none, SS_ONSTACK or SS_DISABLE.
abbrev pub mode_of : ℕ → ℕ
mode_of flags = if has_flag flags System.ss_autodisarm then flags - System.ss_autodisarm else flags

abbrev pub no_alternate : Stack
no_alternate = record { ss_sp = 0; ss_size = 0; ss_flags = System.ss_disable }

-- The new alternate stack, or the error.
abbrev pub accept_stack : Process → Stack → Option Stack × ℕ
accept_stack p st =
    if on_stack p
    then (none, 1)
    else if not (
        mode_of st.ss_flags == 0
        || mode_of st.ss_flags == System.ss_onstack
        || mode_of st.ss_flags == System.ss_disable)
    then (none, System.einval)
    else if mode_of st.ss_flags == System.ss_disable
    then (some no_alternate, 0)
    else if ltb st.ss_size min_stack
    then (none, System.enomem)
    else (some st, 0)

abbrev pub install_stack : Process → Option Stack × ℕ → Option (Reply × Process)
install_stack p (none, e) = some (failing e, p)
install_stack p (some st, _) = some (returning (pos 0), record p { stack = st })

-- sigwaitinfo(2) and sigtimedwait(2), with the answer where none of the signals waits.
abbrev pub wait_for : Process → Option (Reply × Process) → Option Siginfo → Option (Reply × Process)
wait_for p absent none = absent
wait_for p absent (some i) = some (
  record (returning (pos i.si_signo)) { info = i },
  record p { pending = take_out i.si_signo p.pending },
)

-- The mask is replaced until a handler has run; the answer is an error in any case.
abbrev pub suspend : Process → ℕ → Option Siginfo → Option (Reply × Process)
suspend p set none = none
suspend p set (some _) = survive (failing System.eintr) (record p {
  mask = bit_and set blockable;
  saved = some p.mask;
  machine = record p.machine { rax = System.minus_eintr };
})

abbrev pub caught : Process → ℕ → ℕ → Bool
caught p set sig =
    not (System.sigismember set sig)
    && (elim (p.actions sig).handler [ System.function _ ↦ true | _ ↦ false ])

abbrev pub manual_answer : Process → Call → Option (Reply × Process)
manual_answer p (Call.sigaction sig act) =
    if sig == 0 || ltb 64 sig || sig == System.sigkill || sig == System.sigstop
    then some (failing System.einval, p)
    else some (
      returning (pos 0),
      record p {
        actions = set_action p.actions sig (record act { mask = bit_and act.mask blockable });
      },
    )
manual_answer p (Call.sigaction_query sig) =
    some (record (returning (pos 0)) { old_act = p.actions sig }, p)
manual_answer p (Call.sigprocmask how set) =
    survive (returning (pos 0)) (record p { mask = change_mask how p.mask set })
manual_answer p Call.sigprocmask_query = some (record (returning (pos 0)) { old_mask = p.mask }, p)
manual_answer p (Call.rt_sigprocmask how set) =
    survive (returning (pos 0)) (record p { mask = change_mask how p.mask set })
manual_answer p Call.rt_sigprocmask_query =
    some (record (returning (pos 0)) { old_mask = p.mask }, p)
manual_answer p (Call.raise sig) = survive (returning (pos 0)) (send (info_of sig (negsuc 5) p 0) p)
manual_answer p (Call.kill pid sig) =
    if pid =ℤ= pos p.pid
    then survive (returning (pos 0)) (send (info_of sig (pos 0) p 0) p)
    else none
manual_answer p (Call.sigqueue pid sig value) =
    if pid =ℤ= pos p.pid
    then survive (returning (pos 0)) (send (info_of sig System.si_queue p value) p)
    else none
manual_answer p (Call.sigsuspend set) = suspend p set (lowest (caught p set) p.pending)
manual_answer p (Call.sigaltstack st) = install_stack p (accept_stack p st)
manual_answer p Call.sigaltstack_query =
    some (record (returning (pos 0)) { old_stack = reported_stack p }, p)
manual_answer p Call.sigpending =
    some (record (returning (pos 0)) { old_mask = pending_set p p.pending }, p)
manual_answer p (Call.sigwaitinfo set) = wait_for p none (lowest (System.sigismember set) p.pending)
manual_answer p (Call.sigtimedwait set _) =
    wait_for p (some (failing System.eagain, p)) (lowest (System.sigismember set) p.pending)
manual_answer p Call.getpid = some (returning (pos p.pid), p)
manual_answer p (Call.malloc n) =
    some (record (returning (pos 0)) { address = p.free }, record p { free = p.free + n })
manual_answer p _ = none
