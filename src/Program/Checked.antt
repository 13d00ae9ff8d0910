-- ===== src/Program/Checked.antt =====
-- Tests whose handler follows a script and whose `main` checks the count at its end.
use signal_tests.Base.{ℕ, ◌+◌, ◌≡◌, ap, map, range, arith, length}
use signal_tests.System.{Frame, Ucontext}
use signal_tests.Program.Defs.{Prog, Kernel, World, finished, run, start, Passes}
use signal_tests.Program.Bind.{IsReader, IsQuiet, Ends}
use signal_tests.Program.Serving.{passing_run}
use signal_tests.Program.Script.{Script, after-due, count-iterate}

module _ {G M : Type 0} (code : Frame → Prog G Ucontext) (script : Script M code) where
  open script use {message, due, count}

  -- A run that passes has delivered the messages that were due, in order, and no more.
  pub passing_script :
      (kern : Kernel) (n fuel : ℕ) (main : Prog G ℕ) (s : kern.State) (g : G)
      → ((f : Frame) → IsQuiet (code f))
      → IsReader main
      → ((h : G) → Ends (λ i. count i ≡ count g + n) main h)
      → Passes kern fuel code main s g
      → (w : World kern.State G) × (run kern fuel code main (start s g) ≡ finished 0 w)
        × (map message w.served ≡ map due (range (count g) n))
  passing_script kern n fuel main s g quiet reads ends passes =
      let (w, e, a, q) = passing_run kern code g quiet _ fuel main s reads ends passes in
      let (m, h) = after-due code script w.served g w.globals a in
      let same : length w.served ≡ n =
        omega (arith, count-iterate code script (length w.served) g, ap count h) in
      (w, e, rw (← same) m)
