-- ===== src/System/Signals.antt =====
-- The constants of the headers, as numbers: signals, flags, codes, errors.
use signal_tests.Base.{ℕ, ◌^◌, ℤ, pos, negsuc}

abbrev pub sighup : ℕ
sighup = 1

abbrev pub sigint : ℕ
sigint = 2

abbrev pub sigquit : ℕ
sigquit = 3

abbrev pub sigill : ℕ
sigill = 4

abbrev pub sigtrap : ℕ
sigtrap = 5

abbrev pub sigabrt : ℕ
sigabrt = 6

abbrev pub sigbus : ℕ
sigbus = 7

abbrev pub sigfpe : ℕ
sigfpe = 8

abbrev pub sigkill : ℕ
sigkill = 9

abbrev pub sigusr1 : ℕ
sigusr1 = 10

abbrev pub sigsegv : ℕ
sigsegv = 11

abbrev pub sigusr2 : ℕ
sigusr2 = 12

abbrev pub sigpipe : ℕ
sigpipe = 13

abbrev pub sigalrm : ℕ
sigalrm = 14

abbrev pub sigterm : ℕ
sigterm = 15

abbrev pub sigstkflt : ℕ
sigstkflt = 16

abbrev pub sigchld : ℕ
sigchld = 17

abbrev pub sigcont : ℕ
sigcont = 18

abbrev pub sigstop : ℕ
sigstop = 19

abbrev pub sigtstp : ℕ
sigtstp = 20

abbrev pub sigttin : ℕ
sigttin = 21

abbrev pub sigttou : ℕ
sigttou = 22

abbrev pub sigurg : ℕ
sigurg = 23

abbrev pub sigxcpu : ℕ
sigxcpu = 24

abbrev pub sigxfsz : ℕ
sigxfsz = 25

abbrev pub sigvtalrm : ℕ
sigvtalrm = 26

abbrev pub sigprof : ℕ
sigprof = 27

abbrev pub sigwinch : ℕ
sigwinch = 28

abbrev pub sigio : ℕ
sigio = 29

abbrev pub sigpwr : ℕ
sigpwr = 30

abbrev pub sigsys : ℕ
sigsys = 31

-- glibc keeps the first two real-time signals, 32 and 33, for itself.
abbrev pub sigrtmin : ℕ
sigrtmin = 34

abbrev pub sa_siginfo : ℕ
sa_siginfo = 4

abbrev pub sa_onstack : ℕ
sa_onstack = 2 ^ 27

abbrev pub sa_restart : ℕ
sa_restart = 2 ^ 28

abbrev pub sa_nodefer : ℕ
sa_nodefer = 2 ^ 30

abbrev pub sa_resethand : ℕ
sa_resethand = 2 ^ 31

abbrev pub sa_restorer : ℕ
sa_restorer = 2 ^ 26

abbrev pub ss_onstack : ℕ
ss_onstack = 1

abbrev pub ss_disable : ℕ
ss_disable = 2

abbrev pub ss_autodisarm : ℕ
ss_autodisarm = 2 ^ 31

abbrev pub eintr : ℕ
eintr = 4

abbrev pub eagain : ℕ
eagain = 11

abbrev pub enomem : ℕ
enomem = 12

abbrev pub einval : ℕ
einval = 22

abbrev pub si_queue : ℤ
si_queue = negsuc 0

abbrev pub si_kernel : ℤ
si_kernel = pos 0x80

abbrev pub fpe_intdiv : ℤ
fpe_intdiv = pos 1

abbrev pub segv_maperr : ℤ
segv_maperr = pos 1

abbrev pub ill_illopn : ℤ
ill_illopn = pos 2

abbrev pub trap_trace : ℤ
trap_trace = pos 2

-- The result of a call that failed.
abbrev pub minus_one : ℤ
minus_one = negsuc 0

-- `-EINTR`
abbrev pub minus_eintr : ℤ
minus_eintr = negsuc 3

abbrev pub wuntraced : ℕ
wuntraced = 2
