-- ===== src/System/Calls.antt =====
-- The calls of the tests, and what else only the machine can answer: atomic accesses to memory that is
-- shared with another process, and instructions that the processor refuses. Each is answered by a
-- `Reply`, of which the test reads the fields that its call fills in; the others are 0.
use signal_tests.Base.{ℕ, ℤ, pos, negsuc, List, []}
use signal_tests.System.Structures.{Handler, Sigaction, Stack, Siginfo, sig_dfl}

pub data How : Type 0 where
  sig_block sig_unblock sig_setmask : How

-- The segment registers.
pub data Segment : Type 0 where
  es cs ss ds fs gs : Segment

-- Machine instructions of the tests: those that the kernel turns into signals, and those that read or
-- write registers which the language has no name for.
pub data Instruction : Type 0 where
  divide idivide : ℕ → ℕ → Instruction
  store_to : ℕ → ℕ → Instruction
  jump_to : ℕ → Instruction
  hlt ud2 int3 : Instruction
  read_flags : Instruction
  write_flags : ℕ → Instruction
  read_segment : Segment → Instruction
  load_xmm : List ℕ → Instruction
  store_xmm : Instruction
  fninit fld1 fnstcw fnstenv fstp : Instruction
  fldcw : ℕ → Instruction
  fld : List ℕ → Instruction
  far_jump : ℕ → Instruction
  label_address : Instruction
  pushf popf nop call_near return_near : Instruction
  or_top and_top : ℕ → Instruction

pub data Call : Type 0 where
  sigaction : ℕ → Sigaction → Call
  sigaction_query : ℕ → Call
  rt_sigaction : ℕ → Sigaction → Call
  signal : ℕ → Handler → Call
  sigprocmask : How → ℕ → Call
  sigprocmask_query : Call
  rt_sigprocmask : How → ℕ → Call
  rt_sigprocmask_query : Call
  raise : ℕ → Call
  kill : ℤ → ℕ → Call
  tgkill : ℤ → ℤ → ℕ → Call
  sigqueue : ℤ → ℕ → ℕ → Call
  sigsuspend : ℕ → Call
  sigaltstack : Stack → Call
  sigaltstack_query : Call
  sigpending : Call
  sigwaitinfo : ℕ → Call
  sigtimedwait : ℕ → ℕ → Call
  getpid gettid fork : Call
  waitpid : ℤ → ℕ → Call
  usleep : ℕ → Call
  malloc mmap : ℕ → Call
  atomic_exchange : ℕ → Call
  atomic_store : ℕ → Call
  mprotect : ℕ → ℕ → Call
  write_memory : ℕ → List ℕ → Call
  execute : Instruction → Call
  rt_sigqueueinfo : ℤ → ℕ → Siginfo → Call
  geteuid pause pipe : Call
  read write fcntl_setpipe_sz : ℕ → ℕ → Call
  sem_init : ℕ → Call
  sem_wait sem_post : Call
  getenv setenv execve : Call
  pthread_create pthread_join thread_start : Call

-- `result` is the value that the call returns, `errno` that variable after the call, and the others
-- are what the call writes through its pointers.
pub record Reply : Type 0 where
  pub result : ℤ
  pub errno : ℕ
  pub old_mask : ℕ
  pub old_act : Sigaction
  pub old_stack : Stack
  pub info : Siginfo
  pub status : ℕ
  pub address : ℕ
  pub words : List ℕ

abbrev pub no_action : Sigaction
no_action = record { handler = sig_dfl; flags = 0; mask = 0; restorer = 0 }

abbrev pub no_stack : Stack
no_stack = record { ss_sp = 0; ss_size = 0; ss_flags = 0 }

abbrev pub no_info : Siginfo
no_info = record {
  si_signo = 0;
  si_code = pos 0;
  si_addr = 0;
  si_pid = 0;
  si_uid = 0;
  si_value = 0;
}

-- A call that returns `r` and writes nothing.
abbrev pub returning : ℤ → Reply
returning r = record {
  result = r;
  errno = 0;
  old_mask = 0;
  old_act = no_action;
  old_stack = no_stack;
  info = no_info;
  status = 0;
  address = 0;
  words = [];
}

-- A call that fails: -1, and the reason in `errno`.
abbrev pub failing : ℕ → Reply
failing e = record (returning (negsuc 0)) { errno = e }
