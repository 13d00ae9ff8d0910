-- ===== src/System/WaitStatus.antt =====
-- The macros of <sys/wait.h> on the status that waitpid(2) fills in, as glibc encodes it.
use signal_tests.Base.{ℕ, ◌/◌, ◌%◌, Bool, not, ◌&&◌, ◌==◌}

-- `WTERMSIG(status)`: the low seven bits.
abbrev pub wtermsig : ℕ → ℕ
wtermsig status = status % 128

abbrev pub wifexited : ℕ → Bool
wifexited status = wtermsig status == 0

abbrev pub wexitstatus : ℕ → ℕ
wexitstatus status = status / 256 % 256

-- The low byte of a stopped child's status is 0x7f.
abbrev pub wifstopped : ℕ → Bool
wifstopped status = status % 256 == 0x7f

abbrev pub wstopsig : ℕ → ℕ
wstopsig status = wexitstatus status

abbrev pub wifsignaled : ℕ → Bool
wifsignaled status = not (wtermsig status == 0) && not (wtermsig status == 0x7f)
