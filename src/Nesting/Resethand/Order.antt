-- ===== src/Nesting/Resethand/Order.antt =====
-- What a passing run of src/resethand.cpp says of the signals that were handled.
use signal_tests.Base.{◌+◌, ◌≡◌, refl, ◌⊎◌, none, some, arith}
use signal_tests.Program.Bind.{settle}
use signal_tests.Program.Script.{Script}
use signal_tests.System.{Frame}
use signal_tests.Nesting.Resethand.{Globals, signal_handler}

abbrev unit : Unit {0}
unit = tt

signal_handler-accepts :
    (f : Frame) (g : Globals)
    → unit ≡ unit
    → settle (signal_handler f) g ≡ some (f.ctx, record { count = g.count + 1 })
unfolding signal_handler
signal_handler-accepts f g e = ground arith

signal_handler-only :
    (f : Frame) (g : Globals) → (settle (signal_handler f) g ≡ none) ⊎ (unit ≡ unit)
unfolding signal_handler
signal_handler-only f g = ground arith

abbrev script : Script (Unit {0}) signal_handler
script = record {
  message = λ f. unit;
  due = λ c. unit;
  count = λ g. g.count;
  next = λ g. record { count = g.count + 1 };
  value = λ f. f.ctx;
  counts = λ g. refl;
  accepts = signal_handler-accepts;
  only = signal_handler-only;
}
