-- ===== src/Tests/Interleaving.antt =====
-- Two processes, their calls in one order.
use signal_tests.Base.{◌≡◌, [], ◌∷◌}
use signal_tests.Program.{run, start, ending, finished}
use signal_tests.Manual.Beside.{beside}
use signal_tests.Queue.RtOrder
use signal_tests.Queue.RtOrder.{Globals}
use signal_tests.Queue.RtOrder.Interleaving as Interleaving
use signal_tests.Tests.Setup.{some_registers, no_bytes}

-- Four calls of the parent, then the three others.
rt_order_interleaved_example :
    ending (
      run
        (beside Globals)
        8
        RtOrder.signal_handler
        (RtOrder.main 2)
        (start (Interleaving.first_pair some_registers no_bytes, 4 ∷ 3 ∷ []) RtOrder.initial))
    ≡ finished 0 tt
rt_order_interleaved_example =
    Interleaving.rt_order_interleaved 2 (4 ∷ 3 ∷ []) some_registers no_bytes
