-- ===== src/System/Structures.antt =====
-- The structures that the calls and the signal frames carry, with the fields that the tests read.
use signal_tests.Base.{ℕ, ℤ, List, Bool, true, false, ◌==◌}

-- What `sa_sigaction` holds: one of the two constants, or the address of a handler of the test.
pub data Handler : Type 0 where
  sig_dfl sig_ign : Handler
  function : ℕ → Handler

-- Whether they are equal.
abbrev pub same_handler : Handler → Handler → Bool
same_handler sig_dfl sig_dfl = true
same_handler sig_ign sig_ign = true
same_handler (function a) (function b) = a == b
same_handler _ _ = false

-- `struct sigaction`, and the kernel's own form of it with the restorer.
pub record Sigaction : Type 0 where
  pub handler : Handler
  pub flags : ℕ
  pub mask : ℕ
  pub restorer : ℕ

-- `stack_t`
pub record Stack : Type 0 where
  pub ss_sp : ℕ
  pub ss_size : ℕ
  pub ss_flags : ℕ

-- `siginfo_t`; `si_value` is `sival_int` or `sival_ptr`, whichever the test reads.
pub record Siginfo : Type 0 where
  pub si_signo : ℕ
  pub si_code : ℤ
  pub si_addr : ℕ
  pub si_pid : ℕ
  pub si_uid : ℕ
  pub si_value : ℕ

-- The floating-point state that a frame points to: the words before the registers, the ten bytes of
-- `st0`, the word that tells the format, and the words of `xmm0` and `xmm1`.
pub record Fpstate : Type 0 where
  pub cw : ℕ
  pub sw : ℕ
  pub tag : ℕ
  pub st : List ℕ
  pub magic : ℕ
  pub xmm : List ℕ

-- `ucontext_t`: the flags, the alternate stack, the mask to restore, and the registers.
pub record Ucontext : Type 0 where
  pub uc_flags : ℕ
  pub uc_stack : Stack
  pub uc_sigmask : ℕ
  pub oldmask : ℕ
  pub rip : ℕ
  pub rax : ℤ
  pub rsp : ℕ
  pub efl : ℕ
  pub csgsfs : ℕ
  pub cs : ℕ
  pub ss : ℕ
  pub ds : ℕ
  pub es : ℕ
  pub gs : ℕ
  pub fs : ℕ
  pub trapno : ℕ
  pub err : ℕ
  pub cr2 : ℕ
  pub xstate_bv : ℕ
  pub fpstate : ℕ
  pub fp : Fpstate

-- A signal as it reaches a handler: the three arguments of the handler, the address of the handler
-- that was registered, the bytes of the process that the handler may look at, and the stack pointer
-- and the flags with which the handler starts.
pub record Frame : Type 0 where
  pub target : ℕ
  pub sig : ℕ
  pub info : Siginfo
  pub ctx : Ucontext
  pub memory : ℕ → ℕ
  pub sp : ℕ
  pub efl : ℕ
