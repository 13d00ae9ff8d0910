-- ===== src/Nesting/LongjmpNoOverflow.antt =====
-- src/longjmp-no-overflow.cpp: handlers that never return, but jump back to `main`. The code is a state
-- machine, since a jump leaves the handler.
pub mod Count
pub mod Finish
use signal_tests.Base.{
  ℕ, zero, suc, ◌+◌, ◌*◌, ◌%◌, ◌^◌, List, [], ◌∷◌, ◌++◌, Option, none, some, ltb, ◌==◌,
  if◌then◌else◌, pos, ◌=ℤ=◌,
}
use signal_tests.Program.{Kernel}
use signal_tests.System
use signal_tests.System.{Sigaction, Frame, Call, Reply}

-- Where the program is: before sigaction(2); at the test behind setjmp(3); in the handler of this frame;
-- at the last assertion; ended with this status; or where nothing says how it goes on.
pub data Place : Type 0 where
  installing testing checking lost : Place
  handling : Frame → Place
  ended : ℕ → Place

-- `entered` are the frames whose handlers have started.
pub record Machine (S : Type 0) : Type 0 where
  pub place : Place
  pub count : ℕ
  pub kernel : S
  pub entered : List Frame

abbrev pub max : ℕ
max = 128 * 1024

abbrev sa : Sigaction
sa = record {
  handler = System.function 0;
  flags = System.sa_siginfo;
  mask = System.sigemptyset;
  restorer = 0;
}

-- `jump` is what longjmp(3) does to the registers.
module _ (kern : Kernel) (jump : kern.State → kern.State) (limit : ℕ) where
  open kern use {State, answer, deliver, sigreturn}

  -- Behind a call: the program goes on, or a handler starts.
  abbrev pub arrive : Machine State → Option (Frame × State) → Machine State
  arrive m none = m
  arrive m (some (f, s)) = record m {
    place = handling f;
    kernel = s;
    entered = m.entered ++ f ∷ [];
  }

  abbrev pub go_on :
      Machine State → (Reply → State → Machine State) → Option (Reply × State) → Machine State
  go_on m next none = record m { place = lost }
  go_on m next (some (r, s)) = next r s

  -- A handler before setjmp(3) has no place to jump to.
  abbrev pub install : Machine State → Option (Frame × State) → Machine State
  install m none = record m { place = testing }
  install m (some _) = record m { place = lost }

  -- `if (count++ < max) raise(SIGUSR1);`
  abbrev pub test : Machine State → Machine State
  test m =
      let counted : Machine State = record m { count = (m.count + 1) % 2 ^ 64; place = checking } in
      if ltb m.count limit
      then go_on counted (λ r s. arrive (record counted { kernel = s }) (deliver s))
          (answer m.kernel (Call.raise System.sigusr1))
      else counted

  -- The mask of the frame is restored, then longjmp(3) goes back to setjmp(3).
  abbrev pub leave : Machine State → State → Option (Frame × State) → Machine State
  leave m s none = record m { place = testing; kernel = jump s }
  leave m s (some e) = arrive m (some e)

  abbrev pub signal_handler : Machine State → Frame → Machine State
  signal_handler m f =
      go_on m (λ r s. leave m s (deliver s))
        (answer m.kernel (Call.sigprocmask System.sig_setmask f.ctx.uc_sigmask))

  unfoldable pub step : Machine State → Machine State
  step m = elim m.place [
    | installing ↦
        go_on m
          (λ r s.
            if r.result =ℤ= pos 0
            then install (record m { kernel = s }) (deliver s)
            else record m { place = ended 1 })
          (answer m.kernel (Call.sigaction System.sigusr1 sa))
    | testing ↦ test m
    | checking ↦ record m { place = ended (if m.count == (limit + 1) % 2 ^ 64 then 0 else 1) }
    | lost ↦ m
    | handling f ↦ signal_handler m f
    | ended n ↦ m
  ]

  unfoldable pub steps : ℕ → Machine State → Machine State
  steps zero m = m
  steps (suc n) m = steps n (step m)

  abbrev pub first : State → Machine State
  first s = record { place = installing; count = 0; kernel = s; entered = [] }
