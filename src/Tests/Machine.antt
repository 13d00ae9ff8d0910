-- ===== src/Tests/Machine.antt =====
-- Kernels under which the machine answers as it should.
use signal_tests.Base.{
  ℕ, ◌+◌, ◌-◌, Option, none, some, List, [], ◌∷◌, ◌++◌, map, pos, if◌then◌else◌, ◌==◌,
}
use signal_tests.Program.{Kernel}
use signal_tests.System
use signal_tests.System.{Frame, Call, Reply}
use signal_tests.Tests.Setup.{some_registers, frame_of, first_frame}

-- One frame for each `raise` and each jump to another segment; these words where registers are stored,
-- and the control word of the tests.
abbrev machine_answer : List ℕ → Frame → List Frame → Call → Reply × List Frame
machine_answer words f fs (Call.raise sig) = (System.returning (pos 0), f ∷ fs)
machine_answer words f fs (Call.execute (System.far_jump s)) = (System.returning (pos 0), f ∷ fs)
machine_answer words f fs (Call.execute System.fnstcw) =
    (record (System.returning (pos 0)) { address = 0x027f }, fs)
machine_answer words f fs (Call.execute i) =
    (record (System.returning (pos 0)) { words = words }, fs)
machine_answer words f fs c = (System.returning (pos 0), fs)

abbrev pub raising : List ℕ → Frame → Kernel
raising words f = record {
  State = List Frame;
  answer = λ fs c. some (machine_answer words f fs c);
  deliver = first_frame;
  sigreturn = λ fs c. fs;
}

-- The answers and the frames that come behind them are given one by one.
abbrev scripted_answer :
    List (Reply × List Frame) × List Frame
    → Option (Reply × (List (Reply × List Frame) × List Frame))
scripted_answer ([], fs) = some (System.returning (pos 0), ([], fs))
scripted_answer ((r, gs) ∷ rest, fs) = some (r, (rest, gs ++ fs))

abbrev scripted_frame :
    List (Reply × List Frame) × List Frame
    → Option (Frame × (List (Reply × List Frame) × List Frame))
scripted_frame (rest, []) = none
scripted_frame (rest, f ∷ fs) = some (f, (rest, fs))

abbrev pub scripted : Kernel
scripted = record {
  State = List (Reply × List Frame) × List Frame;
  answer = λ s c. scripted_answer s;
  deliver = scripted_frame;
  sigreturn = λ s c. s;
}

abbrev pub label : ℕ
label = 0x401100

-- `popf` in front of the label, `nop` everywhere else.
abbrev code_bytes : ℕ → ℕ
code_bytes a = if a == label - 2 then 0x9d else 0x90

-- The trap so far behind the label.
abbrev pub trap_at : ℕ → ℕ → Frame
trap_at efl d =
    record (frame_of System.sigtrap System.trap_trace (label + d)
      (record some_registers { rip = label + d; trapno = 1; efl = efl })) { memory = code_bytes }

-- One trap behind each instruction, after the two calls that come before them.
abbrev pub traps : List Frame → List (Reply × List Frame)
traps fs =
    (System.returning (pos 0), [])
    ∷ (record (System.returning (pos 0)) { address = label }, [])
    ∷ map (λ f. (System.returning (pos 0), f ∷ [])) fs

-- Ten traps each time that the flags are read.
abbrev flags_answer : List Frame → List Frame → Call → List Frame
flags_answer ten fs (Call.execute System.read_flags) = ten ++ fs
flags_answer ten fs c = fs

abbrev pub trapping : List Frame → Kernel
trapping ten = record {
  State = List Frame;
  answer = λ fs c. some (System.returning (pos 0), flags_answer ten fs c);
  deliver = first_frame;
  sigreturn = λ fs c. fs;
}
