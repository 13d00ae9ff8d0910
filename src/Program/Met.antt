-- ===== src/Program/Met.antt =====
-- Runs of a program that leads through an answer: a run that passes has had it from the kernel.
use signal_tests.Base.{
  ℕ, zero, suc, [], ◌∷◌, ◌++◌, Option, none, some, ◌≡◌, ◌⊎◌, inl, inr, Option-cases,
}
use mathlib.Core.Option.{some-injective}
use signal_tests.System.{Call, Reply, Frame, Ucontext}
use signal_tests.Program.Defs.{
  Prog, ret, exit, call, get, put, spin, Kernel, Outcome, finished, exited, stopped, out_of_fuel,
  World, exec, interrupts, run, exit_status, start, Passes,
}
use signal_tests.Program.Bind.{IsQuiet, Ensures, Ensures-continue}
use signal_tests.Program.Meets.{Meets}

-- Where a run has ended.
abbrev pub end_of : {W A : Type 0} → Outcome W A → Option W
end_of (finished a w) = some w
end_of (exited n w) = some w
end_of stopped = none
end_of out_of_fuel = none

-- A predicate `H` on the kernel's state that nothing undoes, and that an answer with `P` brings about.
pub record History (kern : Kernel) (P : Call → Reply → Type 0) (H : kern.State → Type 0)
    : Type 0 where
  pub answers :
      (s : kern.State) (c : Call) (r : Reply) (s' : kern.State)
      → kern.answer s c ≡ some (r, s')
      → H s ⊎ P c r
      → H s'
  pub delivers :
      (s : kern.State) (f : Frame) (s' : kern.State) → kern.deliver s ≡ some (f, s') → H s → H s'
  pub returns : (s : kern.State) (ctx : Ucontext) → H s → H (kern.sigreturn s ctx)

module _ (kern : Kernel) (P : Call → Reply → Type 0) (H : kern.State → Type 0)
    (history : History kern P H) {G : Type 0} where
  open kern use {State, answer, deliver, sigreturn}
  open history use {answers, delivers, returns}

  abbrev Has : {A : Type 0} → A → World State G → Type 0
  Has a w = H w.kernel

  -- An exit with 0 comes after it.
  abbrev Late : ℕ → World State G → Type 0
  Late n w = n ≡ 0 → H w.kernel

  Ensures-Late :
      {A : Type 0} (o : Outcome (World State G) A) → Ensures Has Has o → Ensures Late Has o
  Ensures-Late (finished a w) h = h
  Ensures-Late (exited n w) h = λ _. h
  Ensures-Late stopped h = tt
  Ensures-Late out_of_fuel h = tt

  exec-Has :
      {A : Type 0} (ints : World State G → Outcome (World State G) (Unit {0}))
      → ((w : World State G) → H w.kernel → Ensures Has Has (ints w))
      → (p : Prog G A) (w : World State G) → H w.kernel
      → Ensures Has Has (exec kern ints p w)
  unfolding exec
  exec-Has ints keep (ret a) w h = h
  exec-Has ints keep (exit n) w h = h
  exec-Has ints keep (call c k) w h = elim (Option-cases (answer w.kernel c)) [
    | inl e ↦ rw (e, exec) tt
    | inr ((r, s), e) ↦
        rw (e, exec)
          (Ensures-continue Has Has Has (ints (record w { kernel = s })) _
            (keep (record w { kernel = s }) (answers w.kernel c r s e (inl h)))
            (λ _ w' h'. exec-Has ints keep (k r) w' h'))
  ]
  exec-Has ints keep (get k) w h = exec-Has ints keep (k w.globals) w h
  exec-Has ints keep (put g p) w h = exec-Has ints keep p (record w { globals = g }) h
  exec-Has ints keep spin w h = tt

  exec-Late :
      {A : Type 0} (ints : World State G → Outcome (World State G) (Unit {0})) (p : Prog G A)
      (w : World State G)
      → IsQuiet p
      → Ensures Late (λ _ _. Unit {0}) (exec kern ints p w)
  unfolding exec
  exec-Late ints (ret a) w h = tt
  exec-Late ints (exit n) w h = λ e. absurd (h e)
  exec-Late ints (call c k) w h = absurd h
  exec-Late ints (get k) w h = exec-Late ints (k w.globals) w (h w.globals)
  exec-Late ints (put g p) w h = exec-Late ints p (record w { globals = g }) h
  exec-Late ints spin w h = tt

  exec-met :
      {A : Type 0} (ints : World State G → Outcome (World State G) (Unit {0}))
      → ((w : World State G) → H w.kernel → Ensures Has Has (ints w))
      → ((w : World State G) → Ensures Late (λ _ _. Unit {0}) (ints w))
      → (p : Prog G A) (w : World State G) → Meets P p
      → Ensures Late Has (exec kern ints p w)
  unfolding exec
  exec-met ints keep late (ret a) w h = absurd h
  exec-met ints keep late (exit n) w h = λ e. absurd (h e)
  exec-met ints keep late (call c k) w h = elim (Option-cases (answer w.kernel c)) [
    | inl e ↦ rw (e, exec) tt
    | inr ((r, s), e) ↦ elim (h r) [
      | inl found ↦
          rw (e, exec)
            (Ensures-Late _ (
              Ensures-continue Has Has Has (ints (record w { kernel = s })) _
                (keep (record w { kernel = s }) (answers w.kernel c r s e (inr found)))
                (λ _ w' h'. exec-Has ints keep (k r) w' h')))
      | inr later ↦
          rw (e, exec)
            (Ensures-continue Late (λ _ _. Unit) Has (ints (record w { kernel = s })) _
              (late (record w { kernel = s })) (λ _ w' _. exec-met ints keep late (k r) w' later))
    ]
  ]
  exec-met ints keep late (get k) w h = exec-met ints keep late (k w.globals) w (h w.globals)
  exec-met ints keep late (put g p) w h = exec-met ints keep late p (record w { globals = g }) h
  exec-met ints keep late spin w h = tt

  module _ (code : Frame → Prog G Ucontext) where
    interrupts-Has :
        (n : ℕ) (w : World State G) → H w.kernel → Ensures Has Has (interrupts kern n code w)
    unfolding interrupts
    interrupts-Has zero w h = elim (Option-cases (deliver w.kernel)) [
      | inl e ↦ rw (e, interrupts) h
      | inr (_, e) ↦ rw (e, interrupts) tt
    ]
    interrupts-Has (suc n) w h = elim (Option-cases (deliver w.kernel)) [
      | inl e ↦ rw (e, interrupts) h
      | inr ((f, s), e) ↦
          rw (e, interrupts)
            (Ensures-continue Has Has Has (interrupts kern n code (record w { kernel = s })) _
              (interrupts-Has n (record w { kernel = s }) (delivers w.kernel f s e h))
              λ _ w1 h1.
                Ensures-continue Has Has Has
                  (exec kern (interrupts kern n code) (code f)
                    (record w1 { served = w1.served ++ f ∷ [] }))
                  _
                  (exec-Has (interrupts kern n code) (interrupts-Has n) (code f)
                    (record w1 { served = w1.served ++ f ∷ [] }) h1)
                  (λ ctx w2 h2.
                    interrupts-Has n (record w2 { kernel = sigreturn w2.kernel ctx })
                      (returns w2.kernel ctx h2)))
    ]

    interrupts-Late :
        ((f : Frame) → IsQuiet (code f))
        → (n : ℕ) (w : World State G) → Ensures Late (λ _ _. Unit {0}) (interrupts kern n code w)
    unfolding interrupts
    interrupts-Late quiet zero w = elim (Option-cases (deliver w.kernel)) [
      | inl e ↦ rw (e, interrupts) tt
      | inr (_, e) ↦ rw (e, interrupts) tt
    ]
    interrupts-Late quiet (suc n) w = elim (Option-cases (deliver w.kernel)) [
      | inl e ↦ rw (e, interrupts) tt
      | inr ((f, s), e) ↦
          rw (e, interrupts)
            (Ensures-continue Late (λ _ _. Unit) _
              (interrupts kern n code (record w { kernel = s })) _
              (interrupts-Late quiet n (record w { kernel = s }))
              λ _ w1 _.
                Ensures-continue Late (λ _ _. Unit) _
                  (exec kern (interrupts kern n code) (code f)
                    (record w1 { served = w1.served ++ f ∷ [] }))
                  _
                  (exec-Late (interrupts kern n code) (code f)
                    (record w1 { served = w1.served ++ f ∷ [] }) (quiet f))
                  (λ ctx w2 _.
                    interrupts-Late quiet n (record w2 { kernel = sigreturn w2.kernel ctx })))
    ]

    conclude :
        (o : Outcome (World State G) ℕ)
        → Ensures Late Has o
        → exit_status o ≡ some 0
        → (w : World State G) × (end_of o ≡ some w) × H w.kernel
    conclude (finished a w) h e = (w, cc, h)
    conclude (exited n w) h e = (w, cc, h (some-injective n 0 e))
    conclude stopped h e = cc
    conclude out_of_fuel h e = cc

    -- A run that passes has had the answer, whatever its signal handlers, which make no call.
    pub passing_history :
        (n : ℕ) (main : Prog G ℕ) (s : State) (g : G)
        → ((f : Frame) → IsQuiet (code f))
        → Meets P main
        → Passes kern n code main s g
        → (w : World State G) × (end_of (run kern n code main (start s g)) ≡ some w) × H w.kernel
    unfolding run
    passing_history n main s g quiet h passes =
        conclude (exec kern (interrupts kern n code) main (start s g))
          (exec-met (interrupts kern n code) (interrupts-Has n) (interrupts-Late quiet n) main
            (start s g) h)
          passes
