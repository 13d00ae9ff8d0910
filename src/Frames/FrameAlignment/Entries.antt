-- ===== src/Frames/FrameAlignment/Entries.antt =====
-- What a passing run of src/frame-alignment.cpp says of the stack pointers of its handlers.
use signal_tests.Base.{
  ℕ, ◌+◌, ◌-◌, ◌%◌, ◌≡◌, refl, sym, some, List, [], ◌∷◌, ◌++◌, arith, ◌==◌, pos, ◌=ℤ=◌, ==_iff,
  length, length-append, All,
}
use signal_tests.Program.{Kernel, World, finished, run, start, Passes, Prog, ◌>>◌}
use signal_tests.Program.Bind.{after}
use signal_tests.Program.Holds.{Holds, Holds-assert, Holds-test, Holds-bind}
use signal_tests.Program.HoldsRun.{passing-Holds}
use signal_tests.System.{Frame, Arch}
use mathlib.Core.List.{append-nil, append_assoc}
use signal_tests.Frames.FrameAlignment.{Globals, initial, signal_handler, word_size, check, main}

-- The stack pointer as a call leaves it: the return address below a multiple of 16.
abbrev pub IsAligned : Arch → Frame → Type 0
IsAligned arch f = f.sp % 16 ≡ 16 - word_size arch

-- The stack pointer of the last handler.
abbrev sp_after : List Frame → ℕ → ℕ
sp_after [] d = d
sp_after (f ∷ fs) d = sp_after fs f.sp

sp_after-append : (xs ys : List Frame) (d : ℕ) → sp_after (xs ++ ys) d ≡ sp_after ys (sp_after xs d)
sp_after-append [] ys d = refl
sp_after-append (x ∷ xs) ys d = sp_after-append xs ys x.sp

All-one :
    (P : Frame → Type 0) (pre new : List Frame)
    → length new ≡ 1
    → All P pre
    → (d : ℕ) → ((f : Frame) → f.sp ≡ sp_after new d → P f)
    → All P (pre ++ new)
All-one P [] [] e h d p = absurd (omega arith)
All-one P [] (f ∷ []) e h d p = (p f refl, tt)
All-one P [] (f ∷ f' ∷ fs) e h d p = absurd (omega arith)
All-one P (x ∷ pre) new e h d p = (h.0, All-one P pre new e h.1 d p)

after-entries :
    (gs : List Frame) (g h : Globals)
    → after signal_handler gs g ≡ some h
    → (h.count ≡ g.count + length gs) × (h.entry_sp ≡ sp_after gs g.entry_sp)
unfolding signal_handler
after-entries [] g h e = ground arith
after-entries (f ∷ gs) g h e =
    let (a, b) = after-entries gs (record { entry_sp = f.sp; count = g.count + 1 }) h e in
    (omega arith, b)

-- The first `k` handlers have been checked, and the globals tell of the ones since.
abbrev IsKnown : Arch → ℕ → Globals → List Frame → Type 0
IsKnown arch k g fs =
    (pre : List Frame) × (new : List Frame) × (d : ℕ) × (fs ≡ pre ++ new)
    × All (IsAligned arch) pre
    × (length pre ≡ k)
    × (g.count ≡ k + length new)
    × (g.entry_sp ≡ sp_after new d)

module _ (arch : Arch) (k : ℕ) where
  IsKnown-later :
      (g h : Globals) (fs gs : List Frame)
      → IsKnown arch k g fs
      → after signal_handler gs g ≡ some h
      → IsKnown arch k h (fs ++ gs)
  IsKnown-later g h fs gs (pre, new, d, e, all, n, c, s) a =
      let (c', s') = after-entries gs g h a in
      (
        pre,
        new ++ gs,
        d,
        rw (e, append_assoc pre new gs),
        all,
        n,
        omega (arith, length-append {0} new gs),
        rw (s', s, sp_after-append new gs d),
      )

  IsKnown-checked :
      (g : Globals) (fs : List Frame)
      → IsKnown arch k g fs
      → g.count ≡ k + 1
      → g.entry_sp % 16 ≡ 16 - word_size arch
      → IsKnown arch (k + 1) g fs
  IsKnown-checked g fs (pre, new, d, e, all, n, c, s) one aligned =
      let single : length new ≡ 1 = omega arith in
      (
        fs,
        [],
        g.entry_sp,
        sym (append-nil fs),
        rw e (All-one (IsAligned arch) pre new single all d (λ f q. rw (q, ← s) aligned)),
        rw e (omega (arith, length-append {0} pre new)),
        omega arith,
        refl,
      )

  Holds-check :
      (Q : ℕ → Globals → List Frame → Type 0) (rest : Prog Globals ℕ) (g : Globals)
      (fs : List Frame)
      → IsKnown arch k g fs
      → (IsKnown arch (k + 1) g fs → g.count ≡ k + 1 → Holds signal_handler Q rest g fs)
      → Holds signal_handler Q (check arch (k + 1) >> rest) g fs
  Holds-check Q rest g fs known next =
      Holds-bind signal_handler Q (check arch (k + 1)) (λ _. rest) g fs
        (Holds-assert signal_handler _ (g.count == k + 1) _ g fs λ e.
          Holds-test signal_handler _ (g.entry_sp % 16 == 16 - word_size arch) g fs λ a.
            let c = (==_iff g.count (k + 1)).0 e in
            next
              (IsKnown-checked g fs known c ((==_iff (g.entry_sp % 16) (16 - word_size arch)).0 a))
              c)

  -- All of them, if there are no more.
  IsKnown-complete :
      (g : Globals) (fs : List Frame)
      → IsKnown arch k g fs
      → g.count ≡ k
      → (length fs ≡ k) × All (IsAligned arch) fs
  IsKnown-complete g fs (pre, [], d, e, all, n, c, s) same = rw (e, append-nil pre) (n, all)
  IsKnown-complete g fs (pre, f ∷ new, d, e, all, n, c, s) same = absurd (omega arith)

-- A run that passes has checked three handlers.
main-Holds :
    (arch : Arch)
    → Holds signal_handler
        (λ a h fs. a ≡ 0 → (length fs ≡ 3) × All (IsAligned arch) fs)
        (main arch)
        initial
        []
unfolding main
main-Holds arch = λ m gs1 h1 a1 r1 gs2 h2 a2.
    Holds-assert signal_handler _ (r1.result =ℤ= pos 0) _ _ _ λ _ _ gs3 h3 a3.
      Holds-check arch 0 _ _ h3 _
        (IsKnown-later arch 0 h2 h3 _ gs3
          (IsKnown-later arch 0 h1 h2 _ gs2
            (IsKnown-later arch 0 initial h1 [] gs1 ([], [], 0, refl, tt, refl, refl, refl) a1) a2)
          a3)
        λ k3 _ r4 gs4 h4 a4.
          Holds-assert signal_handler _ (r4.result =ℤ= pos 0) _ _ _ λ _ r5 gs5 h5 a5.
            Holds-assert signal_handler _ (r5.result =ℤ= pos 0) _ _ _ λ _ _ gs6 h6 a6.
              Holds-check arch 1 _ _ h6 _
                (IsKnown-later arch 1 h5 h6 _ gs6
                  (IsKnown-later arch 1 h4 h5 _ gs5 (IsKnown-later arch 1 h3 h4 _ gs4 k3 a4) a5) a6)
                λ k6 _ r7 gs7 h7 a7.
                  Holds-assert signal_handler _ (r7.result =ℤ= pos 0) _ _ _ λ _ _ gs8 h8 a8.
                    Holds-check arch 2 _ _ h8 _
                      (IsKnown-later arch 2 h7 h8 _ gs8 (IsKnown-later arch 2 h6 h7 _ gs7 k6 a7) a8)
                      λ k8 c8 _. IsKnown-complete arch 3 h8 _ k8 c8

-- Whatever the kernel does, a run that passes has started the handler exactly three times, each time
-- with the stack pointer as a call leaves it.
pub frame_alignment_entries :
    (arch : Arch) (kern : Kernel) (fuel : ℕ) (s : kern.State)
    → Passes kern fuel signal_handler (main arch) s initial
    → (w : World kern.State Globals) × (run kern fuel signal_handler (main arch) (start s initial)
        ≡ finished 0 w)
      × ((length w.served ≡ 3) × All (IsAligned arch) w.served)
unfolding signal_handler
frame_alignment_entries arch kern fuel s passes =
    passing-Holds kern signal_handler (λ f g. tt)
      (λ h fs. (length fs ≡ 3) × All (IsAligned arch) fs) fuel (main arch) s initial
      (main-Holds arch) passes
