-- ===== src/Defaults/Killed.antt =====
-- What src/sigdfl-segv.cpp and src/sigdfl-usr1.cpp ask of the system.
use signal_tests.Base.{
  ℕ, List, [], some, Bool-cases, refl, ◌%◌, ◌≡◌, ◌≢◌, ◌⊎◌, inl, inr, arith, ℤ, ◌==◌, ◌=ℤ=◌, =ℤ=_iff,
  pos, ◌&&◌, negative, if◌then◌else◌,
}
use signal_tests.System
use signal_tests.System.{Call, Reply}
use signal_tests.Program.{Kernel, World, run, start, Passes, exit, pure}
use signal_tests.Program.Bind.{IsReader-if}
use signal_tests.Program.Meets.{Meets, Meets-later, Meets-found}
use signal_tests.Program.Met.{end_of}
use signal_tests.Program.Logged.{logged, IsIn, passing_answer}
use signal_tests.Defaults.Segv
use signal_tests.Defaults.Usr1

-- A child has been waited for, and this signal has ended it.
abbrev pub IsKill : ℕ → Call → Reply → Type 0
IsKill sig c r =
    (pid : ℤ) × (c ≡ Call.waitpid pid 0) × (r.result ≢ System.minus_one) × (r.status % 128 ≡ sig)

last_wait-IsKill :
    (G : Type 0) (sig : ℕ) (pid : ℤ) (w : Reply)
    → IsKill sig (Call.waitpid pid 0) w
      ⊎ (Meets {G = G} {A = ℕ} (IsKill sig) (
          if w.result =ℤ= System.minus_one
          then exit 1
          else if System.wifsignaled w.status && (System.wtermsig w.status == sig)
          then pure 0
          else exit 1))
last_wait-IsKill G sig pid w = elim (Bool-cases (w.result =ℤ= System.minus_one)) [
  | inl e ↦ rw e (inr (λ z. absurd (omega arith)))
  | inr e ↦ rw e (
      Meets-found (IsKill sig) (System.wifsignaled w.status && (System.wtermsig w.status == sig))
        (pure {A = ℕ} 0)
        λ h.
          (pid, refl, (λ same. cc ((=ℤ=_iff w.result System.minus_one).1 same, e)), ground arith))
]

segv-Meets : Meets (IsKill System.sigsegv) Segv.main
unfolding Segv.main Segv.child
segv-Meets r = inr (
    Meets-later (IsKill System.sigsegv)
      (if negative r.result then exit 1 else if r.result =ℤ= pos 0 then Segv.child else pure tt) _
      (IsReader-if (negative r.result) (exit 1) _ (λ z. absurd (omega arith))
        (IsReader-if (r.result =ℤ= pos 0) Segv.child (pure tt) (λ q p z. absurd (omega arith)) tt))
      (λ _ w. last_wait-IsKill Segv.Globals System.sigsegv r.result w))

-- Whatever the kernel does: at the end of a run that passes, the test has been told by waitpid(2) of a
-- child that SIGSEGV has killed.
pub sigdfl_segv_reports :
    (kern : Kernel) (fuel : ℕ) (s : kern.State)
    → Passes (logged kern) fuel Segv.no_handler Segv.main (s, []) Segv.initial
    → (w : World (kern.State × List (Call × Reply)) Segv.Globals) × (end_of
          (run (logged kern) fuel Segv.no_handler Segv.main (start (s, []) Segv.initial))
        ≡ some w)
      × IsIn (IsKill System.sigsegv) w.kernel.1
unfolding Segv.no_handler
sigdfl_segv_reports kern fuel s passes =
    passing_answer (IsKill System.sigsegv) kern fuel Segv.no_handler Segv.main s Segv.initial
      (λ f. tt) segv-Meets passes

usr1-Meets : Meets (IsKill System.sigusr1) Usr1.main
unfolding Usr1.main Usr1.child
usr1-Meets r = inr (
    Meets-later (IsKill System.sigusr1)
      (if negative r.result then exit 1 else if r.result =ℤ= pos 0 then Usr1.child else pure tt) _
      (IsReader-if (negative r.result) (exit 1) _ (λ z. absurd (omega arith))
        (IsReader-if (r.result =ℤ= pos 0) Usr1.child (pure tt) (λ q p z. absurd (omega arith)) tt))
      (λ _ w. last_wait-IsKill Usr1.Globals System.sigusr1 r.result w))

-- Whatever the kernel does: at the end of a run that passes, the test has been told by waitpid(2) of a
-- child that SIGUSR1 has killed.
pub sigdfl_usr1_reports :
    (kern : Kernel) (fuel : ℕ) (s : kern.State)
    → Passes (logged kern) fuel Usr1.no_handler Usr1.main (s, []) Usr1.initial
    → (w : World (kern.State × List (Call × Reply)) Usr1.Globals) × (end_of
          (run (logged kern) fuel Usr1.no_handler Usr1.main (start (s, []) Usr1.initial))
        ≡ some w)
      × IsIn (IsKill System.sigusr1) w.kernel.1
unfolding Usr1.no_handler
sigdfl_usr1_reports kern fuel s passes =
    passing_answer (IsKill System.sigusr1) kern fuel Usr1.no_handler Usr1.main s Usr1.initial
      (λ f. tt) usr1-Meets passes
