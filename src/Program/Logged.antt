-- ===== src/Program/Logged.antt =====
-- A kernel that keeps its answers, the last one first.
use signal_tests.Base.{
  ℕ, ◌∙◌, List, [], ◌∷◌, Option, none, some, ◌≡◌, ◌⊎◌, inl, inr, ap, sym, subst,
}
use mathlib.Core.Option.{some-injective}
use signal_tests.System.{Call, Reply, Frame, Ucontext}
use signal_tests.Program.Defs.{Prog, Kernel, World, run, start, Passes}
use signal_tests.Program.Bind.{IsQuiet}
use signal_tests.Program.Meets.{Meets}
use signal_tests.Program.Met.{History, end_of, passing_history}

abbrev keep_answer :
    {S : Type 0}
    → Call
    → List (Call × Reply)
    → Option (Reply × S)
    → Option (Reply × (S × List (Call × Reply)))
keep_answer c log none = none
keep_answer c log (some (r, s)) = some (r, (s, (c, r) ∷ log))

abbrev keep_frame :
    {S : Type 0}
    → List (Call × Reply)
    → Option (Frame × S)
    → Option (Frame × (S × List (Call × Reply)))
keep_frame log none = none
keep_frame log (some (f, s)) = some (f, (s, log))

abbrev pub logged : Kernel → Kernel
logged kern = record {
  State = kern.State × List (Call × Reply);
  answer = λ s c. keep_answer c s.1 (kern.answer s.0 c);
  deliver = λ s. keep_frame s.1 (kern.deliver s.0);
  sigreturn = λ s ctx. (kern.sigreturn s.0 ctx, s.1);
}

-- One of these calls has an answer with `P`.
abbrev pub IsIn : (Call → Reply → Type 0) → List (Call × Reply) → Type 0
IsIn P [] = ⊥
IsIn P ((c, r) ∷ log) = P c r ⊎ IsIn P log

module _ (P : Call → Reply → Type 0) where
  keep_answer-IsIn :
      {S : Type 0} (c : Call) (log : List (Call × Reply)) (o : Option (Reply × S)) (r : Reply)
      (s : S × List (Call × Reply))
      → keep_answer c log o ≡ some (r, s)
      → IsIn P log ⊎ P c r
      → IsIn P s.1
  keep_answer-IsIn c log none r s e h = cc
  keep_answer-IsIn c log (some (q, t)) r s e h =
      let same = some-injective _ _ e in
      let found : IsIn P ((c, q) ∷ log) = elim h [
        | inl before ↦ inr before
        | inr now ↦ inl (subst (P c) (sym (ap (λ x. x.0) same)) now)
      ] in
      subst (λ x. IsIn P x.1) (ap (λ x. x.1) same) found

  keep_frame-IsIn :
      {S : Type 0} (log : List (Call × Reply)) (o : Option (Frame × S)) (f : Frame)
      (s : S × List (Call × Reply))
      → keep_frame log o ≡ some (f, s)
      → IsIn P log
      → IsIn P s.1
  keep_frame-IsIn log none f s e h = cc
  keep_frame-IsIn log (some (q, t)) f s e h =
      subst (λ x. IsIn P x.1) (ap (λ x. x.1) (some-injective _ _ e)) h

  log_history : (kern : Kernel) → History (logged kern) P (λ s. IsIn P s.1)
  log_history kern = record {
    answers = λ s c r s' e h. keep_answer-IsIn c s.1 (kern.answer s.0 c) r s' e h;
    delivers = λ s f s' e h. keep_frame-IsIn s.1 (kern.deliver s.0) f s' e h;
    returns = λ s ctx h. h;
  }

  -- In a run that passes a call has had an answer with `P`.
  pub passing_answer :
      {G : Type 0} (kern : Kernel) (n : ℕ) (code : Frame → Prog G Ucontext) (main : Prog G ℕ)
      (s : kern.State) (g : G)
      → ((f : Frame) → IsQuiet (code f))
      → Meets P main
      → Passes (logged kern) n code main (s, []) g
      → (w : World (kern.State × List (Call × Reply)) G) × (end_of
            (run (logged kern) n code main (start (s, []) g))
          ≡ some w)
        × IsIn P w.kernel.1
  passing_answer kern n code main s g quiet h passes =
      passing_history (logged kern) P (λ t. IsIn P t.1) (log_history kern) code n main (s, []) g
        quiet h passes

end-both :
    {W : Type 0} (X Y : W → Type 0) (o : Option W)
    → ((w : W) × (o ≡ some w) × X w)
    → ((w : W) × (o ≡ some w) × Y w)
    → (w : W) × (o ≡ some w) × (X w × Y w)
end-both X Y o (w, e, x) (v, d, y) = (w, e, (x, subst Y (some-injective v w (sym d ∙ e)) y))

-- Four answers of one run that passes.
pub four_answers :
    {G : Type 0} (P Q R S : Call → Reply → Type 0) (kern : Kernel) (n : ℕ)
    (code : Frame → Prog G Ucontext) (main : Prog G ℕ) (s : kern.State) (g : G)
    → ((f : Frame) → IsQuiet (code f))
    → Meets P main
    → Meets Q main
    → Meets R main
    → Meets S main
    → Passes (logged kern) n code main (s, []) g
    → (w : World (kern.State × List (Call × Reply)) G) × (end_of
          (run (logged kern) n code main (start (s, []) g))
        ≡ some w)
      × ((IsIn P w.kernel.1 × IsIn Q w.kernel.1) × (IsIn R w.kernel.1 × IsIn S w.kernel.1))
four_answers {G} P Q R S kern n code main s g quiet p q r t passes =
    let o = end_of (run (logged kern) n code main (start (s, []) g)) in
    end-both (λ w. IsIn P w.kernel.1 × IsIn Q w.kernel.1)
      (λ w. IsIn R w.kernel.1 × IsIn S w.kernel.1) o
      (end-both (λ w. IsIn P w.kernel.1) (λ w. IsIn Q w.kernel.1) o (answer P p) (answer Q q))
      (end-both (λ w. IsIn R w.kernel.1) (λ w. IsIn S w.kernel.1) o (answer R r) (answer S t))
  where
    answer :
        (T : Call → Reply → Type 0)
        → Meets T main
        → (w : World (kern.State × List (Call × Reply)) G) × (end_of
              (run (logged kern) n code main (start (s, []) g))
            ≡ some w)
          × IsIn T w.kernel.1
    answer T meets = passing_answer T kern n code main s g quiet meets passes
