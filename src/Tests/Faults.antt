-- ===== src/Tests/Faults.antt =====
-- Handlers that exit with 0, and the frames that they have seen.
use signal_tests.Base.{◌≡◌, refl, List, [], ◌∷◌, ◌+◌, pos}
use signal_tests.Program.{World, exited, run, start, Passes}
use signal_tests.Program.Verdict.{ConvincedAt}
use signal_tests.System
use signal_tests.System.{Frame, Reply}
use signal_tests.Faults.SynchronousRip
use signal_tests.Faults.SynchronousRip.Verdict as SynchronousRipVerdict
use signal_tests.Tests.Machine.{scripted, label}
use signal_tests.Tests.Setup.{some_registers, frame_of}

-- The undefined instruction comes behind the seven calls before the jump.
abbrev rip_frame : Frame
rip_frame =
    frame_of System.sigill System.ill_illopn (label + 10)
      (record some_registers { rip = label + 10 })

abbrev rip_script : List (Reply × List Frame)
rip_script =
    (System.returning (pos 0), [])
    ∷ (System.returning (pos 0), [])
    ∷ (System.returning (pos 0), [])
    ∷ (System.returning (pos 0), [])
    ∷ (record (System.returning (pos 0)) { address = label }, [])
    ∷ (System.returning (pos 0), [])
    ∷ (System.returning (pos 0), [])
    ∷ (System.returning (pos 0), rip_frame ∷ [])
    ∷ []

synchronous_rip_verdict-pass :
    Passes scripted 1 SynchronousRip.signal_handler SynchronousRip.main
      (rip_script, [])
      SynchronousRip.initial
unfolding run SynchronousRip.main SynchronousRip.signal_handler
synchronous_rip_verdict-pass = refl

synchronous_rip_verdict_example :
    (w : World (List (Reply × List Frame) × List Frame) SynchronousRip.Globals) × (run scripted 1
        SynchronousRip.signal_handler SynchronousRip.main
        (start (rip_script, []) SynchronousRip.initial)
      ≡ exited 0 w)
    × ConvincedAt SynchronousRipVerdict.IsExpected w
synchronous_rip_verdict_example =
    SynchronousRipVerdict.synchronous_rip_verdict scripted 1 (rip_script, [])
      synchronous_rip_verdict-pass
