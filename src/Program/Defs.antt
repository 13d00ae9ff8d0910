-- ===== src/Program/Defs.antt =====
-- common.h: `ASSERT`. Programs, kernels, and the run of the one on the other.
use signal_tests.Base.{
  ℕ, zero, suc, Bool, true, false, List, [], ◌∷◌, ◌++◌, Option, none, some, ◌=ℤ=◌, pos, ◌+◌, ◌≡◌,
}
use signal_tests.System.{Call, Reply, Frame, Ucontext}

-- `G` are the globals of the test, `A` what the piece of code computes. `spin` stands for the rest of
-- a busy wait that has used up the rounds which the model gives it.
pub data Prog (G A : Type 0) : Type 0 where
  ret : A → Prog G A
  exit : ℕ → Prog G A
  call : Call → (Reply → Prog G A) → Prog G A
  get : (G → Prog G A) → Prog G A
  put : G → Prog G A → Prog G A
  spin : Prog G A

infixl 5 ◌>>=◌ ◌>>◌
abbrev pub ◌>>=◌ : {G A B : Type 0} → Prog G A → (A → Prog G B) → Prog G B
ret a >>= f = f a
exit n >>= f = exit n
call c k >>= f = call c (λ r. k r >>= f)
get k >>= f = get (λ g. k g >>= f)
put g p >>= f = put g (p >>= f)
spin >>= f = spin

abbrev pub ◌>>◌ : {G B : Type 0} → Prog G (Unit {0}) → Prog G B → Prog G B
p >> q = p >>= λ _. q

abbrev pub pure : {G A : Type 0} → A → Prog G A
pure a = ret a

-- `do { if (!(cond)) { printf(…); exit(1); } } while (0)`; what is printed is not modelled.
abbrev pub assert : {G : Type 0} → Bool → Prog G (Unit {0})
assert true = ret tt
assert false = exit 1

-- A call of the system, and reads and writes of the globals.
abbrev pub sys : {G : Type 0} → Call → Prog G Reply
sys c = call c ret

abbrev pub globals : {G : Type 0} → Prog G G
globals = get ret

abbrev pub set_globals : {G : Type 0} → G → Prog G (Unit {0})
set_globals g = put g (ret tt)

-- `ASSERT(call(…) == 0)`
abbrev pub succeed : {G : Type 0} → Call → Prog G (Unit {0})
succeed c = call c (λ r. assert (r.result =ℤ= pos 0))

-- `for (int i = start; i < start + count; i++)`
abbrev pub for : {G : Type 0} → (start count : ℕ) → (ℕ → Prog G (Unit {0})) → Prog G (Unit {0})
for start zero body = ret tt
for start (suc n) body = body start >> for (start + 1) n body

-- What the tests stand on. A call that has no answer never returns: it waits for ever, or a signal
-- has ended the process. `deliver` says whether the kernel, about to return to the program, starts a
-- handler instead; `sigreturn` takes the frame that a handler has left.
pub record Kernel : Type 1 where
  pub State : Type 0
  pub answer : State → Call → Option (Reply × State)
  pub deliver : State → Option (Frame × State)
  pub sigreturn : State → Ucontext → State

pub data Outcome (W A : Type 0) : Type 0 where
  finished : A → W → Outcome W A
  exited : ℕ → W → Outcome W A
  stopped : Outcome W A
  out_of_fuel : Outcome W A

abbrev pub continue : {W A B : Type 0} → Outcome W A → (A → W → Outcome W B) → Outcome W B
continue (finished a w) f = f a w
continue (exited n w) f = exited n w
continue stopped f = stopped
continue out_of_fuel f = out_of_fuel

-- The kernel's state, the test's globals, and the frames whose handlers have started, in that order.
pub record World (K G : Type 0) : Type 0 where
  pub kernel : K
  pub globals : G
  pub served : List Frame

module _ (kern : Kernel) {G : Type 0} where
  open kern use {State, answer, deliver, sigreturn}

  -- One piece of code; `interrupts` is what happens on the way back from a call.
  unfoldable pub exec :
      {A : Type 0}
      → (World State G → Outcome (World State G) (Unit {0}))
      → Prog G A
      → World State G
      → Outcome (World State G) A
  exec interrupts (ret a) w = finished a w
  exec interrupts (exit n) w = exited n w
  exec interrupts (call c k) w = elim (answer w.kernel c) [
    | none ↦ stopped
    | some (r, s) ↦
        continue (interrupts (record w { kernel = s })) (λ _ w'. exec interrupts (k r) w')
  ]
  exec interrupts (get k) w = exec interrupts (k w.globals) w
  exec interrupts (put g p) w = exec interrupts p (record w { globals = g })
  exec interrupts spin w = out_of_fuel

  -- Handlers run until the kernel has no more signals to deliver. Further frames may be pushed before
  -- a handler has started: those run first.
  unfoldable pub interrupts :
      ℕ → (Frame → Prog G Ucontext) → World State G → Outcome (World State G) (Unit {0})
  unfolding exec
  interrupts zero code w = elim (deliver w.kernel) [ none ↦ finished tt w | some _ ↦ out_of_fuel ]
  interrupts (suc n) code w = elim (deliver w.kernel) [
    | none ↦ finished tt w
    | some (f, s) ↦
        let started = interrupts n code (record w { kernel = s }) in
        continue started λ _ w1.
          continue (exec (interrupts n code) (code f) (record w1 { served = w1.served ++ f ∷ [] }))
            (λ ctx w2. interrupts n code (record w2 { kernel = sigreturn w2.kernel ctx }))
  ]

  -- At most `n` signals deep and `n` in a row at each depth.
  unfoldable pub run :
      {A : Type 0}
      → ℕ
      → (Frame → Prog G Ucontext)
      → Prog G A
      → World State G
      → Outcome (World State G) A
  unfolding exec interrupts
  run n code p w = exec (interrupts n code) p w

-- The exit status of a test whose `main` has returned it, or has called `exit`.
abbrev pub exit_status : {W : Type 0} → Outcome W ℕ → Option ℕ
exit_status (finished n w) = some n
exit_status (exited n w) = some n
exit_status stopped = none
exit_status out_of_fuel = none

-- How a run has ended, without the world that it leaves. `stopped` is a call that never returns, and
-- `out_of_fuel` a busy wait, or handlers, beyond the bound.
abbrev pub ending : {W A : Type 0} → Outcome W A → Outcome (Unit {0}) A
ending (finished a w) = finished a tt
ending (exited n w) = exited n tt
ending stopped = stopped
ending out_of_fuel = out_of_fuel

abbrev pub start : {K G : Type 0} → K → G → World K G
start s g = record { kernel = s; globals = g; served = [] }

-- The test ends with status 0 on this kernel, from this state of it and these globals.
abbrev pub Passes :
    (kern : Kernel) {G : Type 0}
    → ℕ
    → (Frame → Prog G Ucontext)
    → Prog G ℕ
    → kern.State
    → G
    → Type 0
Passes kern n code main s g = exit_status (run kern n code main (start s g)) ≡ some 0
