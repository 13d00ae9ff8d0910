-- ===== src/Program/Serving.antt =====
-- Handlers that make no call, under any kernel: a run that returns 0 has done to the globals what the
-- handlers do one after the other, in the order in which they started.
use signal_tests.Base.{
  ℕ, zero, suc, List, [], ◌∷◌, ◌++◌, some, ◌≡◌, ◌≢◌, refl, Option-cases, inl, inr,
}
use mathlib.Core.Option.{some-injective}
use signal_tests.System.{Frame, Ucontext}
use signal_tests.Program.Defs.{
  Prog, ret, exit, call, get, put, spin, Kernel, Outcome, finished, exited, stopped, out_of_fuel,
  World, exec, interrupts, run, exit_status, start, Passes,
}
use signal_tests.Program.Bind.{
  IsReader, IsQuiet, Ends, settle, after, after-append, Ensures, Ensures-continue, Ensures-mono,
}

-- A failing status.
abbrev pub Fails : {W : Type 0} → ℕ → W → Type 0
Fails n w = n ≢ 0

module _ (kern : Kernel) {G : Type 0} where
  open kern use {State, answer, deliver, sigreturn}

  -- A piece of quiet code under any interrupts.
  pub exec-quiet :
      {A : Type 0} (ints : World State G → Outcome (World State G) (Unit {0})) (p : Prog G A)
      (w : World State G)
      → IsQuiet p
      → Ensures Fails
          (λ a w'. (settle p w.globals ≡ some (a, w'.globals)) × (w'.served ≡ w.served))
          (exec kern ints p w)
  unfolding exec
  exec-quiet ints (ret a) w h = (refl, refl)
  exec-quiet ints (exit n) w h = h
  exec-quiet ints (call c k) w h = absurd h
  exec-quiet ints (get k) w h = exec-quiet ints (k w.globals) w (h w.globals)
  exec-quiet ints (put g p) w h = exec-quiet ints p (record w { globals = g }) h
  exec-quiet ints spin w h = tt

  -- A program that only reads keeps what the interrupts keep, and a return of 0 finds what its last
  -- reads require.
  exec-keeps :
      (P : G → List Frame → Type 0) (Q : G → Type 0)
      (ints : World State G → Outcome (World State G) (Unit {0}))
      → ((w : World State G)
          → P w.globals w.served
          → Ensures Fails (λ _ w'. P w'.globals w'.served) (ints w))
      → (p : Prog G ℕ) (w : World State G) → IsReader p
      → Ends Q p w.globals
      → P w.globals w.served
      → Ensures Fails (λ a w'. P w'.globals w'.served × (a ≡ 0 → Q w'.globals)) (exec kern ints p w)
  unfolding exec
  exec-keeps P Q ints keep (ret a) w h q i = (i, q)
  exec-keeps P Q ints keep (exit n) w h q i = h
  exec-keeps P Q ints keep (call c k) w h q i = elim (Option-cases (answer w.kernel c)) [
    | inl e ↦ rw (e, exec) tt
    | inr ((r, s), e) ↦
        rw (e, exec)
          (Ensures-continue Fails (λ _ w'. P w'.globals w'.served) _
            (ints (record w { kernel = s })) _ (keep (record w { kernel = s }) i)
            (λ _ w' i'. exec-keeps P Q ints keep (k r) w' (h r) (q r w'.globals) i'))
  ]
  exec-keeps P Q ints keep (get k) w h q i =
      exec-keeps P Q ints keep (k w.globals) w (h w.globals) q i
  exec-keeps P Q ints keep (put g p) w h q i = absurd h
  exec-keeps P Q ints keep spin w h q i = tt

  module _ (code : Frame → Prog G Ucontext) (g : G) (quiet : (f : Frame) → IsQuiet (code f)) where
    -- The globals are what the handlers that have started made of `g`.
    abbrev Served : G → List Frame → Type 0
    Served h fs = after code fs g ≡ some h

    handler-Served :
        (ints : World State G → Outcome (World State G) (Unit {0})) (f : Frame) (w : World State G)
        → Served w.globals w.served
        → Ensures Fails
            (λ _ w'. Served w'.globals w'.served)
            (exec kern ints (code f) (record w { served = w.served ++ f ∷ [] }))
    handler-Served ints f w i =
        Ensures-mono {W = World State G} {A = Ucontext} Fails
          (λ a w'.
            (settle (code f) w.globals ≡ some (a, w'.globals)) × (w'.served ≡ w.served ++ f ∷ []))
          (λ _ w'. Served w'.globals w'.served)
          (exec kern ints (code f) (record w { served = w.served ++ f ∷ [] }))
          (exec-quiet ints (code f) (record w { served = w.served ++ f ∷ [] }) (quiet f))
          (λ a w' h. rw (h.1) (after-append code w.served f g w.globals w'.globals a i h.0))

    interrupts-Served :
        (n : ℕ) (w : World State G)
        → Served w.globals w.served
        → Ensures Fails (λ _ w'. Served w'.globals w'.served) (interrupts kern n code w)
    unfolding interrupts
    interrupts-Served zero w i = elim (Option-cases (deliver w.kernel)) [
      | inl e ↦ rw (e, interrupts) i
      | inr (_, e) ↦ rw (e, interrupts) tt
    ]
    interrupts-Served (suc n) w i = elim (Option-cases (deliver w.kernel)) [
      | inl e ↦ rw (e, interrupts) i
      | inr ((f, s), e) ↦
          rw (e, interrupts)
            (Ensures-continue Fails (λ _ w'. Served w'.globals w'.served) _
              (interrupts kern n code (record w { kernel = s })) _
              (interrupts-Served n (record w { kernel = s }) i)
              λ _ w1 i1.
                Ensures-continue Fails (λ _ w2. Served w2.globals w2.served) _
                  (exec kern (interrupts kern n code) (code f)
                    (record w1 { served = w1.served ++ f ∷ [] }))
                  _ (handler-Served (interrupts kern n code) f w1 i1)
                  (λ ctx w2 i2.
                    interrupts-Served n (record w2 { kernel = sigreturn w2.kernel ctx }) i2))
    ]

    -- What is known of a run, split on its outcome.
    conclude :
        (Q : G → Type 0) (o : Outcome (World State G) ℕ)
        → Ensures Fails (λ a w. Served w.globals w.served × (a ≡ 0 → Q w.globals)) o
        → exit_status o ≡ some 0
        → (w : World State G) × (o ≡ finished 0 w)
          × (after code w.served g ≡ some w.globals)
          × Q w.globals
    conclude Q (finished a w) h e = (w, cc, h.0, h.1 (some-injective a 0 e))
    conclude Q (exited n w) h e = absurd (h (some-injective n 0 e))
    conclude Q stopped h e = cc
    conclude Q out_of_fuel h e = cc

    -- A test that returns 0, and whose code has no other way to end with 0, has the globals that its
    -- handlers made, and they are as its last reads require.
    pub passing_run :
        (Q : G → Type 0) (n : ℕ) (main : Prog G ℕ) (s : State)
        → IsReader main
        → ((h : G) → Ends Q main h)
        → Passes kern n code main s g
        → (w : World State G) × (run kern n code main (start s g) ≡ finished 0 w)
          × (after code w.served g ≡ some w.globals)
          × Q w.globals
    unfolding run
    passing_run Q n main s reads ends passes =
        conclude Q (exec kern (interrupts kern n code) main (start s g))
          (exec-keeps Served Q (interrupts kern n code) (interrupts-Served n) main (start s g) reads
            (ends g) refl)
          passes
