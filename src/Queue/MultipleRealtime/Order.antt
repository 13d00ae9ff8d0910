-- ===== src/Queue/MultipleRealtime/Order.antt =====
-- What passing runs of src/multiple-realtime.cpp say of the frames that its handler has seen.
use signal_tests.Base.{
  ℕ, ◌+◌, ◌-◌, ◌≡◌, refl, ◌↔◌, List, ◌++◌, map, some, none, ◌⊎◌, ltb, ◌==◌, ==_iff, if◌then◌else◌,
  range, arith,
}
use signal_tests.System.{Frame}
use signal_tests.Program.{Kernel, World, finished, run, start, Passes, for}
use signal_tests.Program.Bind.{
  IsQuiet, IsReader, IsReader-then, IsReader-succeed, IsReader-bind, IsReader-for, IsReader-check,
  Ends-check, after, settle,
}
use signal_tests.Program.Script.{Script, script_exact}
use signal_tests.Program.Checked.{passing_script}
use signal_tests.Queue.MultipleRealtime.{
  Globals, initial, mysig, first_value, queue_both, steps, signal_handler, main,
}

-- What the handler looks at.
abbrev pub message : Frame → ℕ × ℕ
message f = (f.sig, f.info.si_value)

-- All of the lower signal in the order of their values, then all of the higher one.
abbrev pub expected : List (ℕ × ℕ)
expected =
    map (λ i. (mysig, first_value + i)) (range 0 32)
    ++ map (λ i. (mysig + 1, first_value + i)) (range 0 32)

-- The message that passes as number `c`.
abbrev due : ℕ → ℕ × ℕ
due c = if ltb c 32 then (mysig, first_value + c) else (mysig + 1, first_value + (c - 32))

signal_handler-accepts :
    (f : Frame) (g : Globals)
    → message f ≡ due g.count
    → settle (signal_handler f) g ≡ some (f.ctx, record { count = g.count + 1 })
unfolding signal_handler
signal_handler-accepts f g e = ground arith

signal_handler-only :
    (f : Frame) (g : Globals) → (settle (signal_handler f) g ≡ none) ⊎ (message f ≡ due g.count)
unfolding signal_handler
signal_handler-only f g = ground arith

abbrev script : Script (ℕ × ℕ) signal_handler
script = record {
  message = message;
  due = due;
  count = λ g. g.count;
  next = λ g. record { count = g.count + 1 };
  value = λ f. f.ctx;
  counts = λ g. refl;
  accepts = signal_handler-accepts;
  only = signal_handler-only;
}

signal_handler-IsQuiet : (f : Frame) → IsQuiet (signal_handler f)
unfolding signal_handler
signal_handler-IsQuiet f g = ground arith

queue_both-IsReader : (i : ℕ) → IsReader (queue_both i)
queue_both-IsReader i r = IsReader-then _ (λ r'. IsReader-succeed Globals)

steps-IsReader : IsReader steps
unfolding steps
steps-IsReader r = IsReader-then _ (
    IsReader-then _ (
      IsReader-bind (for 0 32 queue_both) _ (IsReader-for 0 32 queue_both queue_both-IsReader)
        (λ _ r'. tt)))

-- The handler, entered with some frames one after the other, ends with a count of 64 exactly when they
-- are signal 40 with the values 0xCAFE, 0xCAFE + 1, … 32 times, and then signal 41 with the same values.
pub multiple_realtime_exact :
    (fs : List Frame)
    → (after signal_handler fs initial ≡ some (record { count = 64 })) ↔ (map message fs ≡ expected)
multiple_realtime_exact fs = script_exact signal_handler script fs initial 64

-- Whatever the kernel does, a run that passes has started the handler for exactly this sequence: signal
-- 40 with the values 0xCAFE, 0xCAFE + 1, … 32 times, and then signal 41 with the same values.
pub multiple_realtime_sequence :
    (kern : Kernel) (fuel : ℕ) (s : kern.State)
    → Passes kern fuel signal_handler main s initial
    → (w : World kern.State Globals) × (run kern fuel signal_handler main (start s initial)
        ≡ finished 0 w)
      × (map message w.served ≡ expected)
unfolding main
multiple_realtime_sequence kern fuel s passes =
    passing_script signal_handler script kern 64 fuel main s initial signal_handler-IsQuiet
      (IsReader-check (λ g. g.count == 64) steps steps-IsReader)
      (λ h.
        Ends-check (λ g. g.count ≡ 64) (λ g. g.count == 64) steps h steps-IsReader
          (λ i. (==_iff i.count 64).0))
      passes
