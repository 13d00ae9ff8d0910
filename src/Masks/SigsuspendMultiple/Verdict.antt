-- ===== src/Masks/SigsuspendMultiple/Verdict.antt =====
-- What a passing run of src/sigsuspend-multiple.cpp says of its handlers.
use signal_tests.Base.{ℕ, ◌+◌, ◌-◌, ◌≡◌, refl, some, List, [], ◌∷◌, arith, ◌==◌, ==_iff, length}
use signal_tests.Program.{pure, Kernel, World, finished, run, start, Passes}
use signal_tests.Program.Bind.{
  IsReader, IsReader-then, Ends, IsReader-assert, Ends-assert, Ends-then, after,
}
use signal_tests.Program.Serving.{passing_run}
use signal_tests.System
use signal_tests.System.{Frame, Arch}
use signal_tests.Masks.SigsuspendMultiple.{Globals, initial, signal_handler, main}

after-count :
    (arch : Arch) (fs : List Frame) (g h : Globals)
    → after (signal_handler arch) fs g ≡ some h
    → h.count ≡ g.count + length fs
unfolding signal_handler
after-count arch [] g h e = ground arith
after-count arch (f ∷ fs) g h e =
    let next : Globals = record { count = g.count + 1 } in
    omega (arith, after-count arch fs next h (ground arith))

-- The frame of a system call that has failed with EINTR.
abbrev pub IsInterrupted : Arch → Frame → Type 0
IsInterrupted arch f =
    (f.ctx.rax ≡ System.minus_eintr)
    × (f.memory (f.ctx.rip - 2) ≡ System.syscall_first arch)
    × (f.memory (f.ctx.rip - 1) ≡ System.syscall_second arch)

one_frame :
    (arch : Arch) (fs : List Frame) (h : Globals)
    → after (signal_handler arch) fs initial ≡ some h
    → h.count ≡ 1
    → (f : Frame) × (fs ≡ f ∷ []) × IsInterrupted arch f
unfolding signal_handler
one_frame arch [] h e r = absurd (omega (arith, after-count arch [] initial h e))
one_frame arch (f ∷ []) h e r = (f, refl, ground arith)
one_frame arch (f ∷ f' ∷ fs) h e r =
    absurd (omega (arith, after-count arch (f ∷ f' ∷ fs) initial h e))

main-IsReader : IsReader main
unfolding main
main-IsReader = IsReader-then _ (
    IsReader-then _ (
      IsReader-then _ (
        IsReader-then _ (
          IsReader-then _ (
            IsReader-then _ (
              IsReader-then _ (
                IsReader-then _
                  (IsReader-then _ λ _ g. IsReader-assert (g.count == 1) (pure {A = ℕ} 0) tt))))))))

main-Ends : (h : Globals) → Ends (λ g. g.count ≡ 1) main h
unfolding main
main-Ends h = Ends-then _ _ λ _. Ends-then _ _ λ _. Ends-then _ _ λ _. Ends-then _ _ λ _.
    Ends-then _ _ λ _. Ends-then _ _ λ _. Ends-then _ _ λ _. Ends-then _ _ λ _.
      Ends-then _ _ λ _ _ g. Ends-assert _ (g.count == 1) (pure 0) g λ e _. (==_iff g.count 1).0 e

-- Whatever the kernel does, a run that passes has started the handler exactly once, with the frame of a
-- system call that has failed with EINTR.
pub sigsuspend_multiple_once :
    (arch : Arch) (kern : Kernel) (fuel : ℕ) (s : kern.State)
    → Passes kern fuel (signal_handler arch) main s initial
    → (w : World kern.State Globals) × (run kern fuel (signal_handler arch) main (start s initial)
        ≡ finished 0 w)
      × ((f : Frame) × (w.served ≡ f ∷ []) × IsInterrupted arch f)
unfolding signal_handler
sigsuspend_multiple_once arch kern fuel s passes =
    let (w, e, a, q) =
      passing_run kern (signal_handler arch) initial (λ f g. ground arith) (λ g. g.count ≡ 1) fuel
        main s main-IsReader main-Ends passes in
    (w, e, one_frame arch w.served w.globals a q)
