-- ===== src/Program/HoldsRun.antt =====
-- Runs of programs whose condition holds, under any kernel.
use signal_tests.Base.{
  ℕ, zero, suc, List, [], ◌∷◌, ◌++◌, some, ◌≡◌, refl, Option-cases, inl, inr, sym,
}
use mathlib.Core.Option.{some-injective}
use mathlib.Core.List.{append-nil, append_assoc}
use signal_tests.System.{Frame, Ucontext}
use signal_tests.Program.Defs.{
  Prog, ret, exit, call, get, put, spin, Kernel, Outcome, finished, exited, stopped, out_of_fuel,
  World, exec, interrupts, run, exit_status, start, Passes,
}
use signal_tests.Program.Bind.{IsQuiet, after, Ensures, Ensures-continue, Ensures-mono}
use signal_tests.Program.Serving.{Fails, exec-quiet}
use signal_tests.Program.Holds.{Holds, after-both}

module _ (kern : Kernel) {G : Type 0} (code : Frame → Prog G Ucontext)
    (quiet : (f : Frame) → IsQuiet (code f)) where
  open kern use {State, answer, deliver, sigreturn}

  -- What handlers have made of a world.
  abbrev Extends : World State G → World State G → Type 0
  Extends w w' =
      (gs : List Frame) × (after code gs w.globals ≡ some w'.globals) × (w'.served ≡ w.served ++ gs)

  Extends-trans : (u v w : World State G) → Extends u v → Extends v w → Extends u w
  Extends-trans u v w (gs, e, s) (hs, d, t) = (
    gs ++ hs,
    after-both code gs hs u.globals v.globals w.globals e d,
    rw (t, s, append_assoc u.served gs hs),
  )

  further :
      {A : Type 0} (u v : World State G)
      → Extends u v
      → (o : Outcome (World State G) A) → Ensures Fails (λ _ w. Extends v w) o
      → Ensures Fails (λ _ w. Extends u w) o
  further u v x o h = Ensures-mono Fails _ _ o h (λ _ w y. Extends-trans u v w x y)

  append-nil-back : (xs : List Frame) → xs ≡ xs ++ []
  append-nil-back xs = sym (append-nil xs)

  handler-Extends :
      (ints : World State G → Outcome (World State G) (Unit {0})) (f : Frame) (w : World State G)
      → Ensures Fails
          (λ _ w'. Extends w w')
          (exec kern ints (code f) (record w { served = w.served ++ f ∷ [] }))
  handler-Extends ints f w =
      Ensures-mono {W = World State G} {A = Ucontext} Fails _ (λ _ w'. Extends w w')
        (exec kern ints (code f) (record w { served = w.served ++ f ∷ [] }))
        (exec-quiet kern ints (code f) (record w { served = w.served ++ f ∷ [] }) (quiet f))
        (λ a w' h. (f ∷ [], rw (h.0) refl, h.1))

  interrupts-Extends :
      (n : ℕ) (w : World State G) → Ensures Fails (λ _ w'. Extends w w') (interrupts kern n code w)
  unfolding interrupts
  interrupts-Extends zero w = elim (Option-cases (deliver w.kernel)) [
    | inl e ↦ rw (e, interrupts) ([], refl, append-nil-back w.served)
    | inr (_, e) ↦ rw (e, interrupts) tt
  ]
  interrupts-Extends (suc n) w = elim (Option-cases (deliver w.kernel)) [
    | inl e ↦ rw (e, interrupts) ([], refl, append-nil-back w.served)
    | inr ((f, s), e) ↦
        rw (e, interrupts)
          (Ensures-continue Fails (λ _ v. Extends w v) (λ _ v. Extends w v)
            (interrupts kern n code (record w { kernel = s })) _
            (interrupts-Extends n (record w { kernel = s }))
            λ _ u x.
              Ensures-continue Fails (λ _ v. Extends w v) (λ _ v. Extends w v)
                (exec kern (interrupts kern n code) (code f)
                  (record u { served = u.served ++ f ∷ [] }))
                _ (further w u x _ (handler-Extends (interrupts kern n code) f u))
                λ ctx v y.
                  further w v y _
                    (interrupts-Extends n (record v { kernel = sigreturn v.kernel ctx })))
  ]

  module _ {A : Type 0} (Q : A → G → List Frame → Type 0)
      (ints : World State G → Outcome (World State G) (Unit {0}))
      (extends : (w : World State G) → Ensures Fails (λ _ w'. Extends w w') (ints w)) where
    -- A return has `Q`.
    abbrev Returns : A → World State G → Type 0
    Returns a w = Q a w.globals w.served

    exec-Holds :
        (p : Prog G A) (w : World State G)
        → Holds code Q p w.globals w.served
        → Ensures Fails Returns (exec kern ints p w)
    unfolding exec
    exec-Holds (ret a) w h = h
    exec-Holds (exit n) w h = h
    exec-Holds (call c k) w h = elim (Option-cases (answer w.kernel c)) [
      | inl e ↦ rw (e, exec) tt
      | inr ((r, s), e) ↦
          rw (e, exec)
            (Ensures-continue Fails (λ _ v. Extends w v) Returns (ints (record w { kernel = s })) _
              (extends (record w { kernel = s }))
              (λ _ v x. exec-Holds (k r) v (rw (x.2) (h r x.0 v.globals x.1))))
    ]
    exec-Holds (get k) w h = exec-Holds (k w.globals) w h
    exec-Holds (put g p) w h = exec-Holds p (record w { globals = g }) h
    exec-Holds spin w h = tt

  conclude :
      (R : G → List Frame → Type 0) (o : Outcome (World State G) ℕ)
      → Ensures Fails (λ a w. a ≡ 0 → R w.globals w.served) o
      → exit_status o ≡ some 0
      → (w : World State G) × (o ≡ finished 0 w) × R w.globals w.served
  conclude R (finished a w) h e = (w, cc, h (some-injective a 0 e))
  conclude R (exited n w) h e = absurd (h (some-injective n 0 e))
  conclude R stopped h e = cc
  conclude R out_of_fuel h e = cc

  -- What the condition says of `main` is true of a run that passes.
  pub passing-Holds :
      (R : G → List Frame → Type 0) (n : ℕ) (main : Prog G ℕ) (s : State) (g : G)
      → Holds code (λ a h fs. a ≡ 0 → R h fs) main g []
      → Passes kern n code main s g
      → (w : World State G) × (run kern n code main (start s g) ≡ finished 0 w)
        × R w.globals w.served
  unfolding run
  passing-Holds R n main s g h passes =
      conclude R (exec kern (interrupts kern n code) main (start s g))
        (exec-Holds (λ a i fs. a ≡ 0 → R i fs) (interrupts kern n code) (interrupts-Extends n) main
          (start s g) h)
        passes
