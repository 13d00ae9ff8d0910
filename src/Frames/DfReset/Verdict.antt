-- ===== src/Frames/DfReset/Verdict.antt =====
-- What a passing run of src/df-reset.cpp says of the flags.
use signal_tests.Base.{
  ℕ, ◌≡◌, ◌≢◌, arith, true, inl, inr, some, not, List, [], ◌∷◌, ◌++◌, All, All-append, pos, ◌=ℤ=◌,
}
use signal_tests.Program.{Kernel, World, finished, run, start, Passes, pure}
use signal_tests.Program.Bind.{IsReader, IsQuiet, IsReader-assert, settle}
use signal_tests.Program.Witness.{IsChecked}
use signal_tests.Program.Holds.{Holds-mono, Holds-reader, IsStable, IsStable-step}
use signal_tests.Program.HoldsRun.{passing-Holds}
use signal_tests.System.{Frame, Ucontext}
use signal_tests.Frames.DfReset.{Globals, initial, signal_handler, direction_flag, main}

-- The direction flag is set in the program and clear in its handler.
abbrev pub IsCleared : Frame → Type 0
IsCleared f = (direction_flag f.efl ≢ true) × (direction_flag f.ctx.efl ≡ true)

signal_handler-IsChecked : IsChecked IsCleared signal_handler
unfolding signal_handler
signal_handler-IsChecked f g = ground arith

signal_handler-IsQuiet : (f : Frame) → IsQuiet (signal_handler f)
unfolding signal_handler
signal_handler-IsQuiet f = ground arith

abbrev AllCleared : Globals → List Frame → Type 0
AllCleared g fs = All IsCleared fs

AllCleared-IsStable : IsStable signal_handler AllCleared
AllCleared-IsStable = IsStable-step signal_handler AllCleared step
  where
    step :
        (g h : Globals) (fs : List Frame) (f : Frame) (c : Ucontext)
        → AllCleared g fs
        → settle (signal_handler f) g ≡ some (c, h)
        → AllCleared h (fs ++ f ∷ [])
    step g h fs f c all e = All-append IsCleared fs (f ∷ []) all (
      elim (signal_handler-IsChecked f g) [ inl refused ↦ absurd (cc (refused, e)) | inr p ↦ p ],
      tt,
    )

main-IsReader : IsReader main
unfolding main
main-IsReader = λ r.
    IsReader-assert (r.result =ℤ= pos 0) _
      λ _ _ _ flags. IsReader-assert (not (direction_flag flags.address)) (pure {A = ℕ} 0) tt

-- Whatever the kernel does, in a run that passes every handler has started with the direction flag clear,
-- in a program that had set it.
pub df_reset_frames :
    (kern : Kernel) (fuel : ℕ) (s : kern.State)
    → Passes kern fuel signal_handler main s initial
    → (w : World kern.State Globals) × (run kern fuel signal_handler main (start s initial)
        ≡ finished 0 w)
      × All IsCleared w.served
df_reset_frames kern fuel s passes =
    passing-Holds kern signal_handler signal_handler-IsQuiet AllCleared fuel main s initial
      (Holds-mono signal_handler (λ _. AllCleared) (λ a h fs. a ≡ 0 → AllCleared h fs) main initial
        [] (λ _ h fs all _. all)
        (Holds-reader signal_handler AllCleared AllCleared-IsStable main initial [] main-IsReader
          tt))
      passes
