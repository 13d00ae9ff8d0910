-- ===== src/Tests/Setup.antt =====
-- Kernels and processes that the examples run on.
use signal_tests.Base.{ℕ, Option, none, some, List, [], ◌∷◌, ℤ, pos}
use signal_tests.Program.{Kernel}
use signal_tests.System
use signal_tests.System.{Ucontext, Frame, Call, Reply}

abbrev pub some_registers : Ucontext
some_registers = record {
  uc_flags = 7;
  uc_stack = System.no_stack;
  uc_sigmask = 0;
  oldmask = 0;
  rip = 0x401002;
  rax = pos 0;
  rsp = 0;
  efl = 0x202;
  csgsfs = 0x2b000000000033;
  cs = 0x33;
  ss = 0x2b;
  ds = 0;
  es = 0;
  gs = 0;
  fs = 0;
  trapno = 0;
  err = 0;
  cr2 = 0;
  xstate_bv = 3;
  fpstate = 0x7e0000;
  fp = record { cw = 0xffff037f; sw = 0xffff0000; tag = 0xffffffff; st = []; magic = 0; xmm = [] };
}

abbrev pub no_bytes : ℕ → ℕ
no_bytes a = 0

-- A frame of this signal, with what the tests look at.
abbrev pub frame_of : ℕ → ℤ → ℕ → Ucontext → Frame
frame_of sig code addr regs = record {
  target = 0;
  sig = sig;
  info = record System.no_info { si_signo = sig; si_code = code; si_addr = addr };
  ctx = regs;
  memory = no_bytes;
  sp = 0x7effb8;
  efl = 0x202;
}

-- A kernel on which every call succeeds, but sigsuspend(2), which is interrupted. It delivers the
-- frames as soon as it can, each before the handler of the one before it has started.
abbrev pub served_answer : Call → Reply
served_answer (Call.sigsuspend set) = System.failing System.eintr
served_answer _ = System.returning (pos 0)

abbrev pub first_frame : List Frame → Option (Frame × List Frame)
first_frame [] = none
first_frame (f ∷ fs) = some (f, fs)

abbrev pub serving : Kernel
serving = record {
  State = List Frame;
  answer = λ fs c. some (served_answer c, fs);
  deliver = first_frame;
  sigreturn = λ fs c. fs;
}
