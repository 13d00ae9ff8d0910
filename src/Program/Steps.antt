-- ===== src/Program/Steps.antt =====
-- One call of a program, when its answer is known.
use signal_tests.Base.{some, ◌≡◌, refl}
use signal_tests.System.{Call, Reply}
use signal_tests.Program.Defs.{Prog, call, Kernel, World, Outcome, finished, continue, exec}

module _ (kern : Kernel) {G A : Type 0} where
  open kern use {State, answer}

  pub exec-answered :
      (ints : World State G → Outcome (World State G) (Unit {0})) (c : Call) (k : Reply → Prog G A)
      (w w' : World State G) (r : Reply) (s : State)
      → answer w.kernel c ≡ some (r, s)
      → ints (record w { kernel = s }) ≡ finished tt w'
      → exec kern ints (call c k) w ≡ exec kern ints (k r) w'
  unfolding exec
  exec-answered ints c k w w' r s e f = rw (e, exec, f) refl

  pub exec-continues :
      (ints : World State G → Outcome (World State G) (Unit {0})) (c : Call) (k : Reply → Prog G A)
      (w : World State G) (r : Reply) (s : State)
      → answer w.kernel c ≡ some (r, s)
      → exec kern ints (call c k) w
        ≡ continue (ints (record w { kernel = s })) (λ _ w'. exec kern ints (k r) w')
  unfolding exec
  exec-continues ints c k w r s e = rw (e, exec) refl
