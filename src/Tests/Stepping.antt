-- ===== src/Tests/Stepping.antt =====
-- Runs of the programs with traps and jumps.
use signal_tests.Base.{◌+◌, ◌*◌, ◌≡◌, ◌≤◌, refl, arith, List, [], ◌∷◌, map, length}
use signal_tests.Program.{World, finished, run, start, Passes}
use signal_tests.System.{Reply, Frame}
use signal_tests.Manual.{manual, fresh}
use signal_tests.Stepping.Flags.{behind}
use signal_tests.Stepping.TrapFlag
use signal_tests.Stepping.TrapFlag.Order as TrapFlagOrder
use signal_tests.Stepping.PopfClear
use signal_tests.Stepping.PopfClear.Order as PopfClearOrder
use signal_tests.Stepping.PopfRepeat
use signal_tests.Stepping.PopfRepeat.Order as PopfRepeatOrder
use signal_tests.Nesting.LongjmpNoOverflow
use signal_tests.Nesting.LongjmpNoOverflow.Count as LongjmpCount
use signal_tests.Nesting.LongjmpNoOverflow.Finish as LongjmpFinish
use signal_tests.Tests.Setup.{some_registers, no_bytes}
use signal_tests.Tests.Machine.{scripted, trapping, traps, trap_at}

abbrev ten_traps : List Frame
ten_traps = map (trap_at 0x302) (0 ∷ 1 ∷ 2 ∷ 3 ∷ 4 ∷ 5 ∷ 6 ∷ 7 ∷ 8 ∷ 9 ∷ [])

trap_flag_traps-pass :
    Passes scripted 3 TrapFlag.signal_handler TrapFlag.main (traps ten_traps, []) TrapFlag.initial
unfolding run TrapFlag.main TrapFlag.signal_handler
trap_flag_traps-pass = refl

trap_flag_traps_example :
    (w : World (List (Reply × List Frame) × List Frame) TrapFlag.Globals) × (run scripted 3
        TrapFlag.signal_handler TrapFlag.main
        (start (traps ten_traps, []) TrapFlag.initial)
      ≡ finished 0 w)
    × TrapFlagOrder.IsTraced w.globals w.served
trap_flag_traps_example =
    TrapFlagOrder.trap_flag_traps scripted 3 (traps ten_traps, []) trap_flag_traps-pass

-- Seven traps with the trap flag in the frame, and one without it.
abbrev eight_traps : List Frame
eight_traps =
    trap_at 0x302 0
    ∷ trap_at 0x302 1
    ∷ trap_at 0x302 2
    ∷ trap_at 0x302 3
    ∷ trap_at 0x302 4
    ∷ trap_at 0x302 5
    ∷ trap_at 0x302 12
    ∷ trap_at 0x202 13
    ∷ []

popf_clear_traps-pass :
    Passes scripted 3 PopfClear.signal_handler PopfClear.main
      (traps eight_traps, [])
      PopfClear.initial
unfolding run PopfClear.main PopfClear.signal_handler
popf_clear_traps-pass = refl

popf_clear_traps_example :
    (w : World (List (Reply × List Frame) × List Frame) PopfClear.Globals) × (run scripted 3
        PopfClear.signal_handler PopfClear.main
        (start (traps eight_traps, []) PopfClear.initial)
      ≡ finished 0 w)
    × (map PopfClearOrder.rip_of w.served
        ≡ map (behind w.globals.expected_rip) PopfClearOrder.distances)
popf_clear_traps_example =
    PopfClearOrder.popf_clear_traps scripted 3 (traps eight_traps, []) popf_clear_traps-pass

popf_repeat_traps-pass :
    Passes (trapping ten_traps) 11 PopfRepeat.signal_handler PopfRepeat.main [] PopfRepeat.initial
unfolding run PopfRepeat.main PopfRepeat.signal_handler
popf_repeat_traps-pass = refl

popf_repeat_traps_example :
    (w : World (List Frame) PopfRepeat.Globals) × (run
        (trapping ten_traps)
        11
        PopfRepeat.signal_handler
        PopfRepeat.main
        (start [] PopfRepeat.initial)
      ≡ finished 0 w)
    × PopfRepeatOrder.IsTraced w.globals w.served
popf_repeat_traps_example =
    PopfRepeatOrder.popf_repeat_traps (trapping ten_traps) 11 [] popf_repeat_traps-pass

longjmp_ends_example :
    (LongjmpNoOverflow.steps manual
      (LongjmpFinish.long_jump some_registers)
      LongjmpNoOverflow.max
      (2 * LongjmpNoOverflow.max + 3)
      (LongjmpNoOverflow.first manual
        (LongjmpFinish.long_jump some_registers)
        LongjmpNoOverflow.max
        (fresh some_registers no_bytes))).place
    ≡ LongjmpNoOverflow.ended 0
longjmp_ends_example =
    LongjmpFinish.longjmp_ends LongjmpNoOverflow.max some_registers no_bytes (omega arith)

longjmp_entered_example :
    LongjmpNoOverflow.max
    ≤ length
        (LongjmpNoOverflow.steps manual
          (LongjmpFinish.long_jump some_registers)
          LongjmpNoOverflow.max
          (2 * LongjmpNoOverflow.max + 3)
          (LongjmpNoOverflow.first manual
            (LongjmpFinish.long_jump some_registers)
            LongjmpNoOverflow.max
            (fresh some_registers no_bytes))).entered
longjmp_entered_example =
    LongjmpCount.longjmp_entered manual (LongjmpFinish.long_jump some_registers)
      LongjmpNoOverflow.max (2 * LongjmpNoOverflow.max + 3) (fresh some_registers no_bytes)
      (omega arith) longjmp_ends_example
