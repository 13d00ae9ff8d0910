-- ===== src/Tests/Sequences.antt =====
-- Runs that pass, and the signals that they have handled.
use signal_tests.Base.{◌≡◌, refl, ◌↔◌, true, some, List, [], ◌∷◌, map, pos}
use signal_tests.Program.{World, finished, run, start, Passes}
use signal_tests.Manual.{manual, fresh, Process}
use signal_tests.Program.Bind.{after}
use signal_tests.System
use signal_tests.System.{Frame}
use signal_tests.Tests.Passing.{multiple_realtime_run, mask_all_run, two_signals_run}
use signal_tests.Queue.MultipleRealtime
use signal_tests.Queue.MultipleRealtime.Order as MultipleRealtimeOrder
use signal_tests.Queue.MaskAll
use signal_tests.Queue.MaskAll.Order as MaskAllOrder
use signal_tests.Queue.TwoSignals
use signal_tests.Queue.TwoSignals.Order as TwoSignalsOrder
use signal_tests.Queue.RtOrder
use signal_tests.Queue.RtOrder.Order as RtOrderOrder
use signal_tests.Queue.RtOrderOnlyOne
use signal_tests.Queue.RtOrderOnlyOne.Order as RtOrderOnlyOneOrder
use signal_tests.Tests.Setup.{some_registers, no_bytes, frame_of, serving}
use signal_tests.Queue.MultipleStandard
use signal_tests.Queue.MultipleStandard.Order as MultipleStandardOrder
use signal_tests.Nesting.Resethand
use signal_tests.Nesting.Resethand.Order as ResethandOrder

abbrev rt_order_frames : List Frame
rt_order_frames =
    frame_of 39 (pos 0) 0 some_registers
    ∷ frame_of 38 (pos 0) 0 some_registers
    ∷ frame_of 37 (pos 0) 0 some_registers
    ∷ frame_of 36 (pos 0) 0 some_registers
    ∷ frame_of 35 (pos 0) 0 some_registers
    ∷ frame_of 34 (pos 0) 0 some_registers
    ∷ []

rt_order_frames-pass :
    Passes serving 8 RtOrder.signal_handler (RtOrder.child 1) rt_order_frames RtOrder.initial
unfolding run RtOrder.child RtOrder.child_steps RtOrder.wait_lock RtOrder.signal_handler
rt_order_frames-pass = refl

abbrev rt_order_only_one_frames : List Frame
rt_order_only_one_frames = frame_of 34 (pos 0) 0 some_registers ∷ []

rt_order_only_one_frames-pass :
    Passes serving 8 RtOrderOnlyOne.signal_handler
      (RtOrderOnlyOne.child 1)
      rt_order_only_one_frames
      RtOrderOnlyOne.initial
unfolding run RtOrderOnlyOne.child RtOrderOnlyOne.child_steps RtOrderOnlyOne.wait_lock
    RtOrderOnlyOne.signal_handler
rt_order_only_one_frames-pass = refl

multiple_realtime_exact_example :
    (after MultipleRealtime.signal_handler
        (frame_of 40 (pos 0) 0 some_registers ∷ [])
        MultipleRealtime.initial
      ≡ some (record { count = 64 }))
    ↔ (map MultipleRealtimeOrder.message (frame_of 40 (pos 0) 0 some_registers ∷ [])
        ≡ MultipleRealtimeOrder.expected)
multiple_realtime_exact_example =
    MultipleRealtimeOrder.multiple_realtime_exact (frame_of 40 (pos 0) 0 some_registers ∷ [])

multiple_realtime_sequence_example :
    (w : World Process MultipleRealtime.Globals) × (run manual 64 MultipleRealtime.signal_handler
        MultipleRealtime.main
        (start (fresh some_registers no_bytes) MultipleRealtime.initial)
      ≡ finished 0 w)
    × (map MultipleRealtimeOrder.message w.served ≡ MultipleRealtimeOrder.expected)
multiple_realtime_sequence_example =
    MultipleRealtimeOrder.multiple_realtime_sequence manual 64 (fresh some_registers no_bytes)
      (multiple_realtime_run some_registers no_bytes)

mask_all_sequence_example :
    (w : World Process MaskAll.Globals) × (run manual 4 MaskAll.signal_handler MaskAll.main
        (start (fresh some_registers no_bytes) MaskAll.initial)
      ≡ finished 0 w)
    × (map (λ f. f.sig) w.served ≡ 40 ∷ 41 ∷ [])
mask_all_sequence_example =
    MaskAllOrder.mask_all_sequence manual 4 (fresh some_registers no_bytes)
      (mask_all_run some_registers no_bytes)

two_signals_both_example :
    (w : World Process TwoSignals.Globals) × (run manual 4 TwoSignals.signal_handler TwoSignals.main
        (start (fresh some_registers no_bytes) TwoSignals.initial)
      ≡ finished 0 w)
    × (TwoSignalsOrder.seen System.sigurg w.served ≡ true)
    × (TwoSignalsOrder.seen System.sigpwr w.served ≡ true)
two_signals_both_example =
    TwoSignalsOrder.two_signals_both manual 4 (fresh some_registers no_bytes)
      (two_signals_run some_registers no_bytes)

rt_order_sequence_example :
    (w : World (List Frame) RtOrder.Globals) × (run serving 8 RtOrder.signal_handler
        (RtOrder.child 1)
        (start rt_order_frames RtOrder.initial)
      ≡ finished 0 w)
    × (map (λ f. f.sig) w.served ≡ 34 ∷ 35 ∷ 36 ∷ 37 ∷ 38 ∷ 39 ∷ [])
rt_order_sequence_example =
    RtOrderOrder.rt_order_sequence serving 1 8 rt_order_frames rt_order_frames-pass

rt_order_only_one_sequence_example :
    (w : World (List Frame) RtOrderOnlyOne.Globals) × (run serving 8 RtOrderOnlyOne.signal_handler
        (RtOrderOnlyOne.child 1)
        (start rt_order_only_one_frames RtOrderOnlyOne.initial)
      ≡ finished 0 w)
    × (map (λ f. f.sig) w.served ≡ 34 ∷ [])
rt_order_only_one_sequence_example =
    RtOrderOnlyOneOrder.rt_order_only_one_sequence serving 1 8 rt_order_only_one_frames
      rt_order_only_one_frames-pass
