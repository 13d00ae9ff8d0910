-- ===== src/Manual/Delivery.antt =====
-- How a signal reaches its handler, and how the handler returns.
use signal_tests.Base.{
  ℕ, ◌-◌, ◌+◌, Bool, not, ◌&&◌, Option, none, some, if◌then◌else◌, bit_and, bit_or, ◌==◌,
}
use signal_tests.System
use signal_tests.System.{
  Handler, sig_dfl, sig_ign, function, Stack, Siginfo, Sigaction, Ucontext, Frame, blockable,
  bit_of, no_action, no_stack,
}
use signal_tests.Manual.State.{
  Process, has_flag, blocked, set_action, lowest, take_out, on_stack, drop_ignored,
}
use signal_tests.Manual.Answers.{no_alternate, accept_stack, manual_answer}
use signal_tests.Program.{Kernel}

-- A handler frame and its red zone.
abbrev frame_size : ℕ
frame_size = 1024

-- Whether the handler goes to the alternate stack: it asks for it, there is one, and the program is
-- not on it already.
abbrev switches : Process → Sigaction → Bool
switches p act =
    has_flag act.flags System.sa_onstack && not (p.stack.ss_size == 0) && not (on_stack p)

abbrev entry_sp : Process → Sigaction → ℕ
entry_sp p act =
    if switches p act
    then p.stack.ss_sp + p.stack.ss_size - frame_size
    else p.machine.rsp - frame_size

-- A handler starts with the trap, direction and resume flags clear.
abbrev kept_flags : ℕ
kept_flags = System.complement (0x100 + 0x400 + 0x10000)

-- The mask that the frame keeps for the return.
abbrev mask_to_restore : Process → ℕ
mask_to_restore p = elim p.saved [ none ↦ p.mask | some m ↦ m ]

-- The signal itself is blocked in its handler, unless SA_NODEFER; SA_RESETHAND resets the action;
-- SS_AUTODISARM turns the alternate stack off until the handler returns.
abbrev enter : Process → Siginfo → ℕ → Option (Frame × Process)
enter p i target =
    let sig = i.si_signo in
    let act = p.actions sig in
    let frame : Frame = record {
      target = target;
      sig = sig;
      info = i;
      ctx = record p.machine {
        uc_stack = p.stack;
        uc_sigmask = mask_to_restore p;
        oldmask = mask_to_restore p;
      };
      memory = p.memory;
      sp = entry_sp p act;
      efl = bit_and p.machine.efl kept_flags;
    } in
    some (
      frame,
      record p {
        mask =
            bit_and
              (bit_or (bit_or p.mask act.mask)
                (if has_flag act.flags System.sa_nodefer then 0 else bit_of sig))
              blockable;
        saved = none;
        pending = take_out sig p.pending;
        actions =
            if has_flag act.flags System.sa_resethand
            then set_action p.actions sig (record act { handler = sig_dfl })
            else p.actions;
        stack = if has_flag p.stack.ss_flags System.ss_autodisarm then no_alternate else p.stack;
        machine = record p.machine { rsp = entry_sp p act };
      },
    )

abbrev enter_by : Process → Siginfo → Handler → Option (Frame × Process)
enter_by p i (function target) = enter p i target
enter_by p i _ = none

abbrev next_signal : Process → Option Siginfo → Option (Frame × Process)
next_signal p none = none
next_signal p (some i) = enter_by p i (p.actions i.si_signo).handler

-- Of several signals the one with the lowest number comes first.
abbrev pub manual_deliver : Process → Option (Frame × Process)
manual_deliver p = next_signal p (lowest (λ sig. not (blocked p sig)) p.pending)

-- The mask, the registers and the alternate stack come back from the frame, as the handler left it.
abbrev pub manual_return : Process → Ucontext → Process
manual_return p c =
    let back = record p { machine = c; mask = bit_and c.uc_sigmask blockable } in
    let kept = record back { pending = drop_ignored back back.pending } in
    elim (accept_stack kept c.uc_stack).0 [ none ↦ kept | some st ↦ record kept { stack = st } ]

abbrev pub manual : Kernel
manual = record {
  State = Process;
  answer = manual_answer;
  deliver = manual_deliver;
  sigreturn = manual_return;
}
