-- ===== src/Frames/IllegalCs/Order.antt =====
-- What a passing run of src/illegal-cs.cpp says of the fault.
use signal_tests.Base.{ℕ, ◌+◌, ◌≡◌, refl, some, List, [], ◌∷◌, arith, ◌==◌, ==_iff, length}
use signal_tests.Program.{pure, Kernel, World, finished, run, start, Passes}
use signal_tests.Program.Bind.{IsReader, Ends, IsReader-assert, Ends-assert, after}
use signal_tests.Program.Serving.{passing_run}
use signal_tests.System
use signal_tests.System.{Frame, Arch}
use signal_tests.Frames.IllegalCs.{Globals, initial, signal_handler, main}

after-count :
    (arch : Arch) (recovery : ℕ) (fs : List Frame) (g h : Globals)
    → after (signal_handler arch recovery) fs g ≡ some h
    → h.fault_count ≡ g.fault_count + length fs
unfolding signal_handler
after-count arch recovery [] g h e = ground arith
after-count arch recovery (f ∷ fs) g h e =
    let next : Globals = record {
      fault_count = g.fault_count + 1;
      fault_rip = f.ctx.rip;
      fault_sig = f.sig;
      fault_trapno = f.ctx.trapno;
      fault_err = f.ctx.err;
    } in
    omega (arith, after-count arch recovery fs next h e)

-- A general protection fault.
abbrev pub IsGeneralProtection : Frame → Type 0
IsGeneralProtection f = (f.sig ≡ System.sigsegv) × (f.ctx.trapno ≡ 13)

-- What the last assertions find.
abbrev IsRepaired : Globals → Type 0
IsRepaired g = (g.fault_count ≡ 1) × (g.fault_sig ≡ System.sigsegv) × (g.fault_trapno ≡ 13)

one_fault :
    (arch : Arch) (recovery : ℕ) (fs : List Frame) (h : Globals)
    → after (signal_handler arch recovery) fs initial ≡ some h
    → IsRepaired h
    → (f : Frame) × (fs ≡ f ∷ []) × IsGeneralProtection f
unfolding signal_handler
one_fault arch recovery [] h e r = absurd (omega (arith, after-count arch recovery [] initial h e))
one_fault arch recovery (f ∷ []) h e r = (f, refl, ground arith)
one_fault arch recovery (f ∷ f' ∷ fs) h e r =
    absurd (omega (arith, after-count arch recovery (f ∷ f' ∷ fs) initial h e))

main-IsReader : IsReader main
unfolding main
main-IsReader = λ _ _ _ g. IsReader-assert (g.fault_count == 1) _ λ h.
    IsReader-assert (h.fault_sig == System.sigsegv) _
      λ i. IsReader-assert (i.fault_trapno == 13) (pure {A = ℕ} 0) tt

main-Ends : (h : Globals) → Ends IsRepaired main h
unfolding main
main-Ends h = λ _ _ _ _ _ g. Ends-assert _ (g.fault_count == 1) _ g λ a.
    Ends-assert _ (g.fault_sig == System.sigsegv) _ g λ b.
      Ends-assert _ (g.fault_trapno == 13) (pure 0) g
        λ c _. ((==_iff _ 1).0 a, (==_iff _ System.sigsegv).0 b, (==_iff _ 13).0 c)

-- Whatever the kernel does, a run that passes has started the handler exactly once, for a general
-- protection fault.
pub illegal_cs_once :
    (arch : Arch) (recovery : ℕ) (kern : Kernel) (fuel : ℕ) (s : kern.State)
    → Passes kern fuel (signal_handler arch recovery) main s initial
    → (w : World kern.State Globals) × (run kern fuel
          (signal_handler arch recovery)
          main
          (start s initial)
        ≡ finished 0 w)
      × ((f : Frame) × (w.served ≡ f ∷ []) × IsGeneralProtection f)
unfolding signal_handler
illegal_cs_once arch recovery kern fuel s passes =
    let (w, e, a, q) =
      passing_run kern (signal_handler arch recovery) initial (λ f g. tt) IsRepaired fuel main s
        main-IsReader main-Ends passes in
    (w, e, one_fault arch recovery w.served w.globals a q)
