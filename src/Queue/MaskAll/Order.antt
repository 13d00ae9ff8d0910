-- ===== src/Queue/MaskAll/Order.antt =====
-- What a passing run of src/mask-all.cpp says of the signals that were handled.
use signal_tests.Base.{
  ℕ, ◌+◌, ◌≡◌, refl, ◌⊎◌, none, some, [], ◌∷◌, map, arith, ◌==◌, if◌then◌else◌, ==_iff,
}
use signal_tests.Program.{Kernel, World, finished, run, start, Passes}
use signal_tests.Program.Bind.{
  IsReader, IsQuiet, IsReader-succeed, IsReader-then, Ends-check, IsReader-check, settle,
}
use signal_tests.Program.Script.{Script}
use signal_tests.Program.Checked.{passing_script}
use signal_tests.System.{Frame}
use signal_tests.Queue.MaskAll.{Globals, initial, mysig, steps, signal_handler, main}

signal_handler-accepts :
    (f : Frame) (g : Globals)
    → f.sig ≡ (if g.count == 0 then mysig else mysig + 1)
    → settle (signal_handler f) g ≡ some (f.ctx, record { count = g.count + 1 })
unfolding signal_handler
signal_handler-accepts f g e = ground arith

signal_handler-only :
    (f : Frame) (g : Globals)
    → (settle (signal_handler f) g ≡ none) ⊎ (f.sig ≡ (if g.count == 0 then mysig else mysig + 1))
unfolding signal_handler
signal_handler-only f g = ground arith

abbrev script : Script ℕ signal_handler
script = record {
  message = λ f. f.sig;
  due = λ c. (if c == 0 then mysig else mysig + 1);
  count = λ g. g.count;
  next = λ g. record { count = g.count + 1 };
  value = λ f. f.ctx;
  counts = λ g. refl;
  accepts = signal_handler-accepts;
  only = signal_handler-only;
}

signal_handler-IsQuiet : (f : Frame) → IsQuiet (signal_handler f)
unfolding signal_handler
signal_handler-IsQuiet f g = ground arith

steps-IsReader : IsReader steps
unfolding steps
steps-IsReader r = IsReader-then _ (IsReader-then _ (λ r1 r2. IsReader-succeed Globals))

-- Whatever the kernel does, a run that passes has started the handler for signal 40 and then for
-- signal 41, and for no other.
pub mask_all_sequence :
    (kern : Kernel) (fuel : ℕ) (s : kern.State)
    → Passes kern fuel signal_handler main s initial
    → (w : World kern.State Globals) × (run kern fuel signal_handler main (start s initial)
        ≡ finished 0 w)
      × (map (λ f. f.sig) w.served ≡ 40 ∷ 41 ∷ [])
unfolding main
mask_all_sequence kern fuel s passes =
    passing_script signal_handler script kern 2 fuel main s initial signal_handler-IsQuiet
      (IsReader-check (λ g. g.count == 2) steps steps-IsReader)
      (λ h.
        Ends-check (λ g. g.count ≡ 2) (λ g. g.count == 2) steps h steps-IsReader
          (λ i. (==_iff i.count 2).0))
      passes
