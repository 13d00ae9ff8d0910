-- ===== src/Tests/Events.antt =====
-- Answers and frames for runs of two threads.
use signal_tests.Base.{ℕ, ℤ, ◌==◌, if◌then◌else◌, Option, some, none, pos}
use signal_tests.System
use signal_tests.System.{Frame, Reply}
use signal_tests.Inherit.Mask.{set}
use signal_tests.Tests.Setup.{some_registers, frame_of}

abbrev pub last_of : {A : Type 0} → A → Option A → A
last_of a none = a
last_of a (some b) = b

abbrev pub ok : Reply
ok = System.returning (pos 0)

abbrev pub value : ℕ → Reply
value n = System.returning (pos n)

-- The two bytes of the system call instruction.
abbrev call_at : ℕ → ℕ
call_at a = if a == 0x401000 then 0x0f else 0x05

abbrev pub call_frame : ℕ → ℤ → Frame
call_frame rip rax =
    record (frame_of System.sigusr1 (pos 0) 0 (record some_registers { rip = rip; rax = rax })) {
      memory = call_at;
    }

abbrev pub five : Reply
five = record ok { old_mask = set }
