-- ===== src/System/Sigset.antt =====
-- `sigset_t`, and the masks that the tests pass as `u64`: signal n is bit n - 1.
use signal_tests.Base.{ℕ, ◌+◌, ◌-◌, ◌/◌, ◌%◌, ◌^◌, Bool, ◌==◌, bit_and, bit_or, if◌then◌else◌}
use signal_tests.System.Signals.{sigkill, sigstop}

-- `1ull << (sig - 1)`
abbrev pub bit_of : ℕ → ℕ
bit_of sig = 2 ^ (sig - 1)

-- `-1ull`
abbrev pub all_ones : ℕ
all_ones = 2 ^ 64 - 1

-- `~x` on 64 bits
abbrev pub complement : ℕ → ℕ
complement x = all_ones - x

abbrev pub sigemptyset : ℕ
sigemptyset = 0

-- glibc leaves its own two signals, 32 and 33, out of the full set.
abbrev pub sigfillset : ℕ
sigfillset = all_ones - bit_of 32 - bit_of 33

abbrev pub sigismember : ℕ → ℕ → Bool
sigismember set sig = set / bit_of sig % 2 == 1

abbrev pub sigaddset : ℕ → ℕ → ℕ
sigaddset set sig = if sigismember set sig then set else set + bit_of sig

abbrev pub sigdelset : ℕ → ℕ → ℕ
sigdelset set sig = if sigismember set sig then set - bit_of sig else set

-- `full & ~(kill_bit | stop_bit)`: a mask of all signals that can be blocked.
abbrev pub blockable : ℕ
blockable = bit_and all_ones (complement (bit_or (bit_of sigkill) (bit_of sigstop)))
