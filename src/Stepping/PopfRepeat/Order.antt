-- ===== src/Stepping/PopfRepeat/Order.antt =====
-- What a passing run of src/trap-flag-popf-repeat.cpp says of the traps.
use signal_tests.Base.{
  ℕ, zero, suc, ◌+◌, ◌*◌, ◌≡◌, ◌≢◌, ◌≤◌, refl, arith, inl, inr, List, [], ◌∷◌, ◌++◌, length,
  length-append, All, All-append, some, ◌==◌, ==_iff, true, not, pos, ◌=ℤ=◌,
}
use signal_tests.System
use signal_tests.System.{Frame, Ucontext, Instruction}
use signal_tests.Program.{
  Prog, Kernel, World, finished, start, Passes, for, assert, ◌>>=◌, ◌>>◌, globals,
}
use signal_tests.Program as Program
use signal_tests.Program.Bind.{IsReader, IsReader-bind, IsQuiet, settle}
use signal_tests.Program.Witness.{IsChecked}
use signal_tests.Program.Holds.{
  Holds, Holds-assert, Holds-test, Holds-bind, Holds-mono, Holds-for, Holds-reader, IsStable,
  IsStable-step,
}
use signal_tests.Program.HoldsRun.{passing-Holds}
use signal_tests.Stepping.Flags.{execute_all, get_tf, trap_flag}
use signal_tests.Stepping.PopfRepeat.{
  Globals, initial, signal_handler, code, body_code, body, run, round, main,
}

-- A trap of a single step, the trap flag clear in the handler.
abbrev pub IsStep : Frame → Type 0
IsStep f =
    (f.sig ≡ System.sigtrap)
    × (f.info.si_code ≡ System.trap_trace)
    × (f.info.si_addr ≡ f.ctx.rip)
    × (trap_flag f.efl ≢ true)

signal_handler-IsChecked : IsChecked IsStep signal_handler
unfolding signal_handler
signal_handler-IsChecked f g = ground arith

signal_handler-IsQuiet : (f : Frame) → IsQuiet (signal_handler f)
unfolding signal_handler
signal_handler-IsQuiet f = ground arith

settle-signal_handler :
    (g h : Globals) (f : Frame) (c : Ucontext)
    → settle (signal_handler f) g ≡ some (c, h)
    → h.count ≡ g.count + 1
unfolding signal_handler
settle-signal_handler g h f c e = ground arith

-- The count has gone up by one with each trap behind the first `base`.
abbrev IsCounted : ℕ → Globals → List Frame → Type 0
IsCounted base g fs = (base + g.count ≤ length fs) × All IsStep fs

IsCounted-IsStable : (base : ℕ) → IsStable signal_handler (IsCounted base)
IsCounted-IsStable base = IsStable-step signal_handler (IsCounted base) step
  where
    step :
        (g h : Globals) (fs : List Frame) (f : Frame) (c : Ucontext)
        → IsCounted base g fs
        → settle (signal_handler f) g ≡ some (c, h)
        → IsCounted base h (fs ++ f ∷ [])
    step g h fs f c (n, all) e =
        let m = settle-signal_handler g h f c e in
        let long = length-append {0} fs (f ∷ []) in
        (
          omega arith,
          All-append IsStep fs (f ∷ []) all (
            elim (signal_handler-IsChecked f g) [
              | inl refused ↦ absurd (cc (refused, e))
              | inr p ↦ p
            ],
            tt,
          ),
        )

execute_all-IsReader : (is : List Instruction) → IsReader (execute_all {G = Globals} is)
execute_all-IsReader [] = tt
execute_all-IsReader (i ∷ is) = λ r. execute_all-IsReader is

-- The traps behind the rounds so far.
abbrev IsRepeated : ℕ → Globals → List Frame → Type 0
IsRepeated i g fs = (10 * i ≤ length fs) × All IsStep fs

for-IsReader :
    (start count : ℕ) (p : Prog Globals (Unit {0}))
    → IsReader p
    → IsReader (for start count (λ j. p))
for-IsReader start zero p reads = tt
for-IsReader start (suc n) p reads =
    IsReader-bind p _ reads (λ _. for-IsReader (start + 1) n p reads)

full : Prog Globals (Unit {0})
full = do h ← globals; assert (h.count == 10)

last_half : ℕ → Prog Globals (Unit {0})
last_half n = for 0 n (λ j. body) >>= λ _. full

first_half : ℕ → Prog Globals (Unit {0})
first_half n = do tf ← get_tf; assert (not tf); g ← globals; assert (g.count == 10); last_half n

module _ (i : ℕ) where
  stable : IsStable signal_handler (IsCounted (10 * i))
  stable = IsCounted-IsStable (10 * i)

  full-Holds :
      (g : Globals) (fs : List Frame)
      → IsCounted (10 * i) g fs
      → Holds signal_handler (λ _. IsRepeated (i + 1)) full g fs
  unfolding full
  full-Holds g fs (n, all) =
      Holds-test signal_handler (λ _. IsRepeated (i + 1)) (g.count == 10) g fs
        λ c. let ten = (==_iff g.count 10).0 c in (omega arith, all)

  last_half-Holds :
      (n : ℕ) (g : Globals) (fs : List Frame)
      → IsCounted (10 * i) g fs
      → Holds signal_handler (λ _. IsRepeated (i + 1)) (last_half n) g fs
  unfolding last_half body
  last_half-Holds n g fs known =
      Holds-bind signal_handler (λ _. IsRepeated (i + 1)) (for 0 n (λ j. body)) (λ _. full) g fs
        (Holds-mono signal_handler (λ _. IsCounted (10 * i))
          (λ _. Holds signal_handler (λ _. IsRepeated (i + 1)) full) (for 0 n (λ j. body)) g fs
          (λ _. full-Holds)
          (Holds-reader signal_handler (IsCounted (10 * i)) stable (for 0 n (λ j. body)) g fs
            (for-IsReader 0 n body (execute_all-IsReader body_code)) known))

  first_half-Holds :
      (n : ℕ) (g : Globals) (fs : List Frame)
      → IsCounted (10 * i) g fs
      → Holds signal_handler (λ _. IsRepeated (i + 1)) (first_half n) g fs
  unfolding first_half
  first_half-Holds n g fs known flags gs h a =
      let after_flags = stable g h fs gs known a in
      Holds-assert signal_handler (λ _. IsRepeated (i + 1)) (not (trap_flag flags.address)) _ h
        (fs ++ gs)
        λ _.
          Holds-assert signal_handler (λ _. IsRepeated (i + 1)) (h.count == 10) (last_half n) h
            (fs ++ gs) λ _. last_half-Holds n h (fs ++ gs) after_flags

  round-Holds :
      (g : Globals) (fs : List Frame)
      → IsRepeated i g fs
      → Holds signal_handler (λ _. IsRepeated (i + 1)) round g fs
  unfolding round run first_half last_half full
  round-Holds g fs (n, all) =
      Holds-bind signal_handler (λ _. IsRepeated (i + 1)) run (λ _. first_half 1000) initial fs
        (Holds-mono signal_handler (λ _. IsCounted (10 * i))
          (λ _. Holds signal_handler (λ _. IsRepeated (i + 1)) (first_half 1000)) run initial fs
          (λ _. first_half-Holds 1000)
          (Holds-reader signal_handler (IsCounted (10 * i)) stable run initial fs
            (execute_all-IsReader code) (omega arith, all)))

-- Eighty single steps at least.
abbrev pub IsTraced : Globals → List Frame → Type 0
IsTraced g fs = (80 ≤ length fs) × All IsStep fs

main-Holds : Holds signal_handler (λ a h gs. a ≡ 0 → IsTraced h gs) main initial []
unfolding main
main-Holds r gs0 h0 a0 = Holds-assert signal_handler Q (r.result =ℤ= pos 0) _ h0 gs0 λ _.
    Holds-bind signal_handler Q (for 0 8 (λ i. round)) _ h0 gs0 (
      Holds-mono signal_handler (λ _. IsRepeated 8) _ (for 0 8 (λ i. round)) h0 gs0
        (λ _ h gs known _. known)
        (Holds-for signal_handler IsRepeated (λ i. round) round-Holds 0 8 8 h0 gs0 refl
          (omega arith, (IsCounted-IsStable 0 initial h0 [] gs0 (omega arith, tt) a0).1)))
  where
    Q : ℕ → Globals → List Frame → Type 0
    Q a h gs = a ≡ 0 → IsTraced h gs

-- Whatever the kernel does, a run that passes has started the handler for at least eighty traps, ten for
-- each round, all of them single steps with the trap flag clear in the handler.
pub popf_repeat_traps :
    (kern : Kernel) (fuel : ℕ) (s : kern.State)
    → Passes kern fuel signal_handler main s initial
    → (w : World kern.State Globals) × (Program.run kern fuel signal_handler main (start s initial)
        ≡ finished 0 w)
      × IsTraced w.globals w.served
popf_repeat_traps kern fuel s passes =
    passing-Holds kern signal_handler signal_handler-IsQuiet IsTraced fuel main s initial main-Holds
      passes
