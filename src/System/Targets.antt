-- ===== src/System/Targets.antt =====
-- The two targets that the tests are compiled for, and the bytes of their system call instruction.
use signal_tests.Base.{ℕ}

pub data Arch : Type 0 where
  x86_64 i386 : Arch

abbrev pub syscall_first : Arch → ℕ
syscall_first x86_64 = 0x0f
syscall_first i386 = 0xcd

abbrev pub syscall_second : Arch → ℕ
syscall_second x86_64 = 0x05
syscall_second i386 = 0x80

-- The numbers of the system calls.
abbrev pub sys_read : Arch → ℕ
sys_read x86_64 = 0
sys_read i386 = 3

abbrev pub sys_write : Arch → ℕ
sys_write x86_64 = 1
sys_write i386 = 4

abbrev pub sys_futex : Arch → ℕ
sys_futex x86_64 = 202
sys_futex i386 = 240
