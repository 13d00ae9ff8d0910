-- ===== src/Program/Verdict.antt =====
-- Tests that pass only through `exit(0)` in a handler: whatever the kernel does, the last handler that
-- has started is one that the frame has satisfied.
use signal_tests.Base.{
  ℕ, zero, suc, Bool, true, false, List, [], ◌∷◌, ◌++◌, some, ◌≡◌, ◌≢◌, refl, arith, Option-cases,
  inl, inr,
}
use mathlib.Core.Option.{some-injective}
use signal_tests.System.{Frame, Reply, Ucontext}
use signal_tests.Program.Defs.{
  Prog, ret, exit, call, get, put, spin, ◌>>◌, assert, Kernel, Outcome, finished, exited, stopped,
  out_of_fuel, World, exec, interrupts, run, exit_status, start, Passes,
}
use signal_tests.Program.Bind.{Ensures, Ensures-continue}

-- Code that makes no call and exits with 0 only where `P` holds.
abbrev pub IsJudge : {G A : Type 0} → Type 0 → Prog G A → Type 0
IsJudge P (ret a) = Unit
IsJudge P (exit n) = n ≡ 0 → P
IsJudge P (call c k) = ⊥
IsJudge {G} P (get k) = (g : G) → IsJudge P (k g)
IsJudge P (put g p) = IsJudge P p
IsJudge P spin = Unit

-- The same of one state of the globals: code that exits with 0 only where `P` holds of the globals then.
abbrev pub JudgesAt : {G A : Type 0} → (G → Type 0) → Prog G A → G → Type 0
JudgesAt P (ret a) g = Unit
JudgesAt P (exit n) g = n ≡ 0 → P g
JudgesAt P (call c k) g = ⊥
JudgesAt P (get k) g = JudgesAt P (k g) g
JudgesAt P (put h p) g = JudgesAt P p h
JudgesAt P spin g = Unit

-- Code that never ends with 0 of its own.
abbrev pub NeverZero : {G : Type 0} → Prog G ℕ → Type 0
NeverZero (ret a) = a ≢ 0
NeverZero (exit n) = n ≢ 0
NeverZero (call c k) = (r : Reply) → NeverZero (k r)
NeverZero {G} (get k) = (g : G) → NeverZero (k g)
NeverZero (put g p) = NeverZero p
NeverZero spin = Unit

module _ {G : Type 0} where
  pub IsJudge-assert :
      {A : Type 0} (P : Type 0) (b : Bool) (q : Prog G A)
      → (b ≡ true → IsJudge P q)
      → IsJudge P (assert b >> q)
  IsJudge-assert P true q h = h refl
  IsJudge-assert P false q h = λ e. absurd (omega arith)

  pub JudgesAt-assert :
      {A : Type 0} (P : G → Type 0) (b : Bool) (q : Prog G A) (g : G)
      → (b ≡ true → JudgesAt P q g)
      → JudgesAt P (assert b >> q) g
  JudgesAt-assert P true q g h = h refl
  JudgesAt-assert P false q g h = λ e. absurd (omega arith)

  IsJudge-JudgesAt :
      {A : Type 0} (P : Type 0) (p : Prog G A) (g : G) → IsJudge P p → JudgesAt (λ _. P) p g
  IsJudge-JudgesAt P (ret a) g h = tt
  IsJudge-JudgesAt P (exit n) g h = h
  IsJudge-JudgesAt P (call c k) g h = h
  IsJudge-JudgesAt P (get k) g h = IsJudge-JudgesAt P (k g) g (h g)
  IsJudge-JudgesAt P (put i p) g h = IsJudge-JudgesAt P p i h
  IsJudge-JudgesAt P spin g h = tt

  pub NeverZero-assert : (b : Bool) (q : Prog G ℕ) → NeverZero q → NeverZero (assert b >> q)
  NeverZero-assert true q h = h
  NeverZero-assert false q h = λ e. absurd (omega arith)

-- The last frame whose handler has started satisfies `Good`, and there is one.
abbrev pub Convinced : {K G : Type 0} → (Frame → Type 0) → World K G → Type 0
Convinced Good w = (fs : List Frame) × (f : Frame) × (w.served ≡ fs ++ f ∷ []) × Good f

-- With the globals at the end.
abbrev pub ConvincedAt : {K G : Type 0} → (G → Frame → Type 0) → World K G → Type 0
ConvincedAt Good w = (fs : List Frame) × (f : Frame) × (w.served ≡ fs ++ f ∷ []) × Good w.globals f

abbrev Verdict : {K G : Type 0} → (G → Frame → Type 0) → ℕ → World K G → Type 0
Verdict Good n w = n ≡ 0 → ConvincedAt Good w

module _ (kern : Kernel) {G : Type 0} (Good : G → Frame → Type 0) where
  open kern use {State, answer, deliver, sigreturn}

  exec-judge :
      {A : Type 0} (ints : World State G → Outcome (World State G) (Unit {0})) (fs : List Frame)
      (f : Frame) (p : Prog G A) (w : World State G)
      → w.served ≡ fs ++ f ∷ []
      → JudgesAt (λ h. Good h f) p w.globals
      → Ensures (Verdict Good) (λ _ _. Unit {0}) (exec kern ints p w)
  unfolding exec
  exec-judge ints fs f (ret a) w e h = tt
  exec-judge ints fs f (exit n) w e h = λ z. (fs, f, e, h z)
  exec-judge ints fs f (call c k) w e h = absurd h
  exec-judge ints fs f (get k) w e h = exec-judge ints fs f (k w.globals) w e h
  exec-judge ints fs f (put g p) w e h = exec-judge ints fs f p (record w { globals = g }) e h
  exec-judge ints fs f spin w e h = tt

  exec-never :
      (ints : World State G → Outcome (World State G) (Unit {0}))
      → ((w : World State G) → Ensures (Verdict Good) (λ _ _. Unit {0}) (ints w))
      → (p : Prog G ℕ) (w : World State G) → NeverZero p
      → Ensures (Verdict Good) (λ a _. a ≢ 0) (exec kern ints p w)
  unfolding exec
  exec-never ints judged (ret a) w h = h
  exec-never ints judged (exit n) w h = λ z. absurd (h z)
  exec-never ints judged (call c k) w h = elim (Option-cases (answer w.kernel c)) [
    | inl e ↦ rw (e, exec) tt
    | inr ((r, s), e) ↦
        rw (e, exec)
          (Ensures-continue (Verdict Good) (λ _ _. Unit) _ (ints (record w { kernel = s })) _
            (judged (record w { kernel = s })) (λ _ w' _. exec-never ints judged (k r) w' (h r)))
  ]
  exec-never ints judged (get k) w h = exec-never ints judged (k w.globals) w (h w.globals)
  exec-never ints judged (put g p) w h = exec-never ints judged p (record w { globals = g }) h
  exec-never ints judged spin w h = tt

  module _ (code : Frame → Prog G Ucontext)
      (judges : (f : Frame) (g : G) → JudgesAt (λ h. Good h f) (code f) g) where
    interrupts-judged :
        (n : ℕ) (w : World State G)
        → Ensures (Verdict Good) (λ _ _. Unit {0}) (interrupts kern n code w)
    unfolding interrupts
    interrupts-judged zero w = elim (Option-cases (deliver w.kernel)) [
      | inl e ↦ rw (e, interrupts) tt
      | inr (_, e) ↦ rw (e, interrupts) tt
    ]
    interrupts-judged (suc n) w = elim (Option-cases (deliver w.kernel)) [
      | inl e ↦ rw (e, interrupts) tt
      | inr ((f, s), e) ↦
          rw (e, interrupts)
            (Ensures-continue (Verdict Good) (λ _ _. Unit) _
              (interrupts kern n code (record w { kernel = s })) _
              (interrupts-judged n (record w { kernel = s }))
              λ _ w1 _.
                Ensures-continue (Verdict Good) (λ _ _. Unit) _
                  (exec kern (interrupts kern n code) (code f)
                    (record w1 { served = w1.served ++ f ∷ [] }))
                  _
                  (exec-judge (interrupts kern n code) w1.served f (code f)
                    (record w1 { served = w1.served ++ f ∷ [] }) refl (judges f w1.globals))
                  (λ ctx w2 _.
                    interrupts-judged n (record w2 { kernel = sigreturn w2.kernel ctx })))
    ]

    conclude :
        (o : Outcome (World State G) ℕ)
        → Ensures (Verdict Good) (λ a _. a ≢ 0) o
        → exit_status o ≡ some 0
        → (w : World State G) × (o ≡ exited 0 w) × ConvincedAt Good w
    conclude (finished a w) h e = absurd (h (some-injective a 0 e))
    conclude (exited n w) h e = (w, cc, h (some-injective n 0 e))
    conclude stopped h e = cc
    conclude out_of_fuel h e = cc

    -- A run that passes has ended in a handler whose frame is good.
    pub passing_verdict_at :
        (n : ℕ) (main : Prog G ℕ) (s : State) (g : G)
        → NeverZero main
        → Passes kern n code main s g
        → (w : World State G) × (run kern n code main (start s g) ≡ exited 0 w) × ConvincedAt Good w
    unfolding run
    passing_verdict_at n main s g never passes =
        conclude (exec kern (interrupts kern n code) main (start s g))
          (exec-never (interrupts kern n code) (interrupts-judged n) main (start s g) never) passes

-- Where the globals do not matter.
pub passing_verdict :
    (kern : Kernel) {G : Type 0} (Good : Frame → Type 0) (code : Frame → Prog G Ucontext)
    → ((f : Frame) → IsJudge (Good f) (code f))
    → (n : ℕ) (main : Prog G ℕ) (s : kern.State) (g : G) → NeverZero main
    → Passes kern n code main s g
    → (w : World kern.State G) × (run kern n code main (start s g) ≡ exited 0 w) × Convinced Good w
passing_verdict kern Good code judges =
    passing_verdict_at kern (λ _. Good) code
      (λ f g. IsJudge-JudgesAt (Good f) (code f) g (judges f))
