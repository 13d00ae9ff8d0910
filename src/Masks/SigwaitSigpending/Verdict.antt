-- ===== src/Masks/SigwaitSigpending/Verdict.antt =====
-- What src/sigwait-sigpending.cpp asks of the system.
use signal_tests.Base.{
  ℕ, ◌≡◌, ◌≢◌, refl, ◌⊎◌, inl, inr, Bool, true, false, not, List, [], some, pos, ◌==◌, ==_iff,
  ◌=ℤ=◌, =ℤ=_iff,
}
use signal_tests.System
use signal_tests.System.{Call, Reply}
use signal_tests.Program.{Kernel, World, run, start, Passes}
use signal_tests.Program.Meets.{Meets, Meets-test, Meets-assert}
use signal_tests.Program.Met.{end_of}
use signal_tests.Program.Logged.{logged, IsIn, four_answers}
use signal_tests.Masks.SigwaitSigpending.{Globals, initial, no_handler, rtsig, set, timeout, main}

-- sigpending(2) has told of the real-time signal, and of SIGUSR1 not.
abbrev pub IsPending : Call → Reply → Type 0
IsPending c r =
    (c ≡ Call.sigpending)
    × (System.sigismember r.old_mask rtsig ≡ true)
    × (System.sigismember r.old_mask System.sigusr1 ≢ true)

-- sigwaitinfo(2) has taken it, with the value that was sent.
abbrev pub IsTaken : Call → Reply → Type 0
IsTaken c r =
    (c ≡ Call.sigwaitinfo set)
    × (r.result ≡ pos rtsig)
    × (r.info.si_signo ≡ rtsig)
    × (r.info.si_code ≡ System.si_queue)
    × (r.info.si_value ≡ 0x1234)

-- sigpending(2) does not tell of it.
abbrev pub IsGone : Call → Reply → Type 0
IsGone c r = (c ≡ Call.sigpending) × (System.sigismember r.old_mask rtsig ≢ true)

-- sigtimedwait(2) has waited for nothing.
abbrev pub IsTimedOut : Call → Reply → Type 0
IsTimedOut c r =
    (c ≡ Call.sigtimedwait set timeout) × (r.result ≡ System.minus_one) × (r.errno ≡ System.eagain)

not-true : (b : Bool) → not b ≡ true → b ≢ true
not-true true e d = cc
not-true false e d = cc

IsPending-Meets : Meets IsPending main
unfolding main
IsPending-Meets b = inr (
    Meets-assert _ (b.result =ℤ= pos 0) _ λ _. inr (λ q. inr (
      Meets-assert _ (q.result =ℤ= pos 0) _ λ p. Meets-test _ (p.result =ℤ= pos 0) _ λ _.
        Meets-test _ (System.sigismember p.old_mask rtsig) _ λ e1.
          Meets-test _ (not (System.sigismember p.old_mask System.sigusr1)) _
            λ e2. inl (refl, e1, not-true _ e2))))

-- What is asked of sigwaitinfo(2), and of what comes behind it.
IsTaken-Meets : Meets IsTaken main
unfolding main
IsTaken-Meets b = inr (
    Meets-assert _ (b.result =ℤ= pos 0) _ λ _. inr (λ q. inr (
      Meets-assert _ (q.result =ℤ= pos 0) _ λ p. inr (
        Meets-assert _ (p.result =ℤ= pos 0) _ (
          Meets-assert _ (System.sigismember p.old_mask rtsig) _ (
            Meets-assert _ (not (System.sigismember p.old_mask System.sigusr1)) _ λ si.
              Meets-test _ (si.result =ℤ= pos rtsig) _ λ e1.
                Meets-test _ (si.info.si_signo == rtsig) _ λ e2.
                  Meets-test _ (si.info.si_code =ℤ= System.si_queue) _ λ e3.
                    Meets-test _ (si.info.si_value == 0x1234) _ λ e4. inl (
                      refl,
                      (=ℤ=_iff si.result (pos rtsig)).0 e1,
                      (==_iff si.info.si_signo rtsig).0 e2,
                      (=ℤ=_iff si.info.si_code System.si_queue).0 e3,
                      (==_iff si.info.si_value 0x1234).0 e4,
                    )))))))

-- Behind sigwaitinfo(2).
late-Meets :
    (P : Call → Reply → Type 0)
    → ((rest : Reply)
        → System.sigismember rest.old_mask rtsig ≢ true
        → P Call.sigpending rest
          ⊎ ((r : Reply)
              → r.result ≡ System.minus_one
              → r.errno ≡ System.eagain
              → P (Call.sigtimedwait set timeout) r))
    → Meets P main
unfolding main
late-Meets P found b = inr (
    Meets-assert _ (b.result =ℤ= pos 0) _ λ _. inr (λ q. inr (
      Meets-assert _ (q.result =ℤ= pos 0) _ λ p. inr (
        Meets-assert _ (p.result =ℤ= pos 0) _ (
          Meets-assert _ (System.sigismember p.old_mask rtsig) _ (
            Meets-assert _ (not (System.sigismember p.old_mask System.sigusr1)) _ λ si. inr (
              Meets-assert _ (si.result =ℤ= pos rtsig) _ (
                Meets-assert _ (si.info.si_signo == rtsig) _ (
                  Meets-assert _ (si.info.si_code =ℤ= System.si_queue) _ (
                    Meets-assert _ (si.info.si_value == 0x1234) _ λ me. inr (
                      Meets-assert _ (pos si.info.si_pid =ℤ= me.result) _ λ rest.
                        Meets-test _ (rest.result =ℤ= pos 0) _ λ _.
                          Meets-test _ (not (System.sigismember rest.old_mask rtsig)) _ λ e1.
                            elim (found rest (not-true _ e1)) [
                              | inl now ↦ inl now
                              | inr later ↦ inr (λ r.
                                  Meets-test _ (r.result =ℤ= System.minus_one) _ λ e2.
                                    Meets-test _ (r.errno == System.eagain) _ λ e3. inl (
                                      later r ((=ℤ=_iff r.result System.minus_one).0 e2)
                                        ((==_iff r.errno System.eagain).0 e3)))
                            ])))))))))))

-- Whatever the kernel does: in a run that passes sigpending(2) has told that the queued real-time signal
-- waits and SIGUSR1 does not; sigwaitinfo(2) has taken that signal, with SI_QUEUE and the value that was
-- sent; sigpending(2) has told that it does not wait; and sigtimedwait(2) has failed with EAGAIN.
pub sigwait_sigpending_answers :
    (kern : Kernel) (fuel : ℕ) (s : kern.State)
    → Passes (logged kern) fuel no_handler main (s, []) initial
    → (w : World (kern.State × List (Call × Reply)) Globals) × (end_of
          (run (logged kern) fuel no_handler main (start (s, []) initial))
        ≡ some w)
      × ((IsIn IsPending w.kernel.1 × IsIn IsTaken w.kernel.1)
          × (IsIn IsGone w.kernel.1 × IsIn IsTimedOut w.kernel.1))
unfolding no_handler
sigwait_sigpending_answers kern fuel s passes =
    four_answers IsPending IsTaken IsGone IsTimedOut kern fuel no_handler main s initial (λ f. tt)
      IsPending-Meets IsTaken-Meets (late-Meets IsGone λ rest e. inl (refl, e))
      (late-Meets IsTimedOut λ rest e. inr (λ r a b. (refl, a, b))) passes
