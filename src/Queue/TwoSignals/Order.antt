-- ===== src/Queue/TwoSignals/Order.antt =====
-- What a passing run of src/two-signals.cpp says of the signals that were handled.
use signal_tests.Base.{
  ℕ, ◌≡◌, refl, sym, Bool, true, false, ◌&&◌, ◌||◌, some, List, [], ◌∷◌, arith, ◌==◌, if◌then◌else◌,
}
use signal_tests.Program.{Prog, get, pure, Kernel, World, finished, run, start, Passes}
use signal_tests.Program.Bind.{IsReader, IsQuiet, Ends, IsReader-bind, Ends-bind, settle, after}
use signal_tests.Program.Serving.{passing_run}
use signal_tests.System
use signal_tests.System.{Frame}
use signal_tests.Queue.TwoSignals.{Globals, initial, steps, signal_handler, main}

-- Whether one of the frames is of this signal.
abbrev pub seen : ℕ → List Frame → Bool
seen sig [] = false
seen sig (f ∷ fs) = f.sig == sig || seen sig fs

signal_handler-settle :
    (f : Frame) (g : Globals)
    → settle (signal_handler f) g
      ≡ some (
        f.ctx,
        record {
          sigurg_ok = f.sig == System.sigurg || g.sigurg_ok;
          sigpwr_ok = f.sig == System.sigpwr || g.sigpwr_ok;
        },
      )
unfolding signal_handler
signal_handler-settle f g = ground arith

-- The flags say which signals have come, whatever else has come and in whatever order.
flags_seen :
    (fs : List Frame) (g h : Globals)
    → after signal_handler fs g ≡ some h
    → (h.sigurg_ok ≡ (seen System.sigurg fs || g.sigurg_ok))
      × (h.sigpwr_ok ≡ (seen System.sigpwr fs || g.sigpwr_ok))
flags_seen [] g h e = ground arith
flags_seen (f ∷ fs) g h e =
    let rest = flags_seen fs _ h (rw (signal_handler-settle f g) at e) in ground (arith, rest)

signal_handler-IsQuiet : (f : Frame) → IsQuiet (signal_handler f)
unfolding signal_handler
signal_handler-IsQuiet f g = ground arith

steps-IsReader : IsReader steps
unfolding steps
steps-IsReader = λ r1 r2 r3 r4 r5 r6. tt

abbrev verdict : Bool → Prog Globals ℕ
verdict b = if b then pure 0 else pure 1

abbrev last : Prog Globals ℕ
last = get (λ g. verdict (g.sigurg_ok && g.sigpwr_ok))

verdict-Ends :
    (b : Bool) (g : Globals)
    → b ≡ (g.sigurg_ok && g.sigpwr_ok)
    → Ends (λ h. (h.sigurg_ok && h.sigpwr_ok) ≡ true) (verdict b) g
verdict-Ends true g e = λ _. sym e
verdict-Ends false g e = λ z. absurd (omega arith)

verdict-IsReader : (b : Bool) → IsReader (verdict b)
verdict-IsReader true = tt
verdict-IsReader false = tt

-- Whatever the kernel does, a run that returns 0 has started the handler for SIGURG and for SIGPWR.
pub two_signals_both :
    (kern : Kernel) (fuel : ℕ) (s : kern.State)
    → Passes kern fuel signal_handler main s initial
    → (w : World kern.State Globals) × (run kern fuel signal_handler main (start s initial)
        ≡ finished 0 w)
      × (seen System.sigurg w.served ≡ true)
      × (seen System.sigpwr w.served ≡ true)
unfolding main
two_signals_both kern fuel s passes =
    let (w, e, a, q) =
      passing_run kern signal_handler initial signal_handler-IsQuiet
        (λ h. (h.sigurg_ok && h.sigpwr_ok) ≡ true) fuel main s
        (IsReader-bind steps (λ _. last) steps-IsReader
          (λ _ g. verdict-IsReader (g.sigurg_ok && g.sigpwr_ok)))
        (λ h.
          Ends-bind _ steps (λ _. last) h steps-IsReader
            (λ _ g. verdict-Ends (g.sigurg_ok && g.sigpwr_ok) g refl))
        passes in
    let flags = flags_seen w.served initial w.globals a in
    (w, e, ground (arith, flags), ground (arith, flags))
