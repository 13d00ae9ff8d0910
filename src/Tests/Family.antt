-- ===== src/Tests/Family.antt =====
-- Runs of a process and its child.
use signal_tests.Base.{◌≡◌, refl, arith, List, [], ◌∷◌, some, pos}
use signal_tests.System
use signal_tests.System.{Frame, Reply, Ucontext}
use signal_tests.Threads.{
  first, Event, reply, interrupt, Machine, fire_all, begin, Any, Answers, Clean,
}
use signal_tests.Tests.Setup.{some_registers, frame_of}
use signal_tests.Tests.Events.{last_of, ok, value, call_frame, five}
use signal_tests.Program.{pure}
use signal_tests.Inherit.Mask.{Saw}
use signal_tests.Inherit.Wait.{HasWaited, IsChildSide, TellsEnd}
use signal_tests.Inherit.ForkInherit
use signal_tests.Inherit.ForkInherit.Family as ForkInheritFamily
use signal_tests.Inherit.Sigqueueinfo
use signal_tests.Inherit.Sigqueueinfo.Sent as SigqueueinfoSent
use signal_tests.Inherit.SignalTableFork
use signal_tests.Inherit.SignalTableFork.Family as SignalTableForkFamily

abbrev queue_frame : Frame
queue_frame = record (call_frame 0x401002 System.minus_eintr) {
  sig = Sigqueueinfo.mysig;
  info = record System.no_info {
    si_code = Sigqueueinfo.code_sent;
    si_pid = 1000;
    si_value = Sigqueueinfo.magic_pointer System.x86_64;
  };
}

abbrev fork_parent : List Event
fork_parent =
    reply first ok ∷ reply first (value 42) ∷ reply first five ∷ reply first (value 42) ∷ []

abbrev fork_child : List Event
fork_child = reply first ok ∷ reply first ok ∷ reply first five ∷ []

abbrev fork_parent_end : Machine ForkInherit.Globals
fork_parent_end =
    last_of (begin ForkInherit.no_handler (pure 0) ForkInherit.main ForkInherit.initial)
      (ForkInheritFamily.process fork_parent)

abbrev fork_child_end : Machine ForkInherit.Globals
fork_child_end =
    last_of (begin ForkInherit.no_handler (pure 0) ForkInherit.main ForkInherit.initial)
      (ForkInheritFamily.process fork_child)

fork_inherit_masks-parent : ForkInheritFamily.process fork_parent ≡ some fork_parent_end
unfolding fire_all ForkInherit.main ForkInherit.parent ForkInherit.child ForkInherit.no_handler
fork_inherit_masks-parent = refl

fork_inherit_masks-child : ForkInheritFamily.process fork_child ≡ some fork_child_end
unfolding fire_all ForkInherit.main ForkInherit.parent ForkInherit.child ForkInherit.no_handler
fork_inherit_masks-child = refl

fork_inherit_masks-side : ¬ Any (Answers IsChildSide) fork_parent_end.log
unfolding fire_all ForkInherit.main ForkInherit.parent ForkInherit.child ForkInherit.no_handler
fork_inherit_masks-side = ground arith

fork_inherit_masks-ended : fork_child_end.status ≡ some 0
unfolding fire_all ForkInherit.main ForkInherit.parent ForkInherit.child ForkInherit.no_handler
fork_inherit_masks-ended = refl

fork_inherit_masks-ends : fork_parent_end.status ≡ some 0
unfolding fire_all ForkInherit.main ForkInherit.parent ForkInherit.child ForkInherit.no_handler
fork_inherit_masks-ends = refl

fork_inherit_masks-tells : TellsEnd 0 fork_parent_end.log
unfolding fire_all ForkInherit.main ForkInherit.parent ForkInherit.child ForkInherit.no_handler
fork_inherit_masks-tells = ((λ _ _. refl), ((λ _ _. refl), ((λ _ _. refl), ((λ _ _. refl), tt))))

fork_inherit_masks_example :
    Any (Answers (Saw first)) fork_parent_end.log × Any (Answers (Saw first)) fork_child_end.log
fork_inherit_masks_example =
    ForkInheritFamily.fork_inherit_masks fork_parent fork_child fork_parent_end fork_child_end 0
      fork_inherit_masks-parent fork_inherit_masks-child fork_inherit_masks-side (omega arith)
      fork_inherit_masks-ended fork_inherit_masks-tells fork_inherit_masks-ends

abbrev queue_parent : List Event
queue_parent =
    reply first ok
    ∷ reply first (value 1000)
    ∷ reply first ok
    ∷ reply first (value 42)
    ∷ reply first ok
    ∷ reply first (value 42)
    ∷ []

abbrev queue_child : List Event
queue_child =
    reply first ok
    ∷ reply first (value 1000)
    ∷ reply first ok
    ∷ reply first ok
    ∷ reply first ok
    ∷ interrupt first queue_frame
    ∷ reply first (System.failing System.eintr)
    ∷ []

abbrev queue_parent_end : Machine Sigqueueinfo.Globals
queue_parent_end =
    last_of
      (begin (Sigqueueinfo.signal_handler System.x86_64) (pure 0) (Sigqueueinfo.main System.x86_64)
        Sigqueueinfo.initial)
      (SigqueueinfoSent.process System.x86_64 queue_parent)

abbrev queue_child_end : Machine Sigqueueinfo.Globals
queue_child_end =
    last_of
      (begin (Sigqueueinfo.signal_handler System.x86_64) (pure 0) (Sigqueueinfo.main System.x86_64)
        Sigqueueinfo.initial)
      (SigqueueinfoSent.process System.x86_64 queue_child)

sigqueueinfo-parent : SigqueueinfoSent.process System.x86_64 queue_parent ≡ some queue_parent_end
unfolding fire_all Sigqueueinfo.main Sigqueueinfo.parent Sigqueueinfo.child
    Sigqueueinfo.signal_handler
sigqueueinfo-parent = refl

sigqueueinfo-child : SigqueueinfoSent.process System.x86_64 queue_child ≡ some queue_child_end
unfolding fire_all Sigqueueinfo.main Sigqueueinfo.parent Sigqueueinfo.child
    Sigqueueinfo.signal_handler
sigqueueinfo-child = refl

sigqueueinfo-side : ¬ Any (Answers IsChildSide) queue_parent_end.log
unfolding fire_all Sigqueueinfo.main Sigqueueinfo.parent Sigqueueinfo.child
    Sigqueueinfo.signal_handler
sigqueueinfo-side = ground arith

sigqueueinfo-other : ¬ Any (Answers HasWaited) queue_child_end.log
unfolding fire_all Sigqueueinfo.main Sigqueueinfo.parent Sigqueueinfo.child
    Sigqueueinfo.signal_handler
sigqueueinfo-other = ground arith

sigqueueinfo-ended : queue_child_end.status ≡ some 0
unfolding fire_all Sigqueueinfo.main Sigqueueinfo.parent Sigqueueinfo.child
    Sigqueueinfo.signal_handler
sigqueueinfo-ended = refl

sigqueueinfo-ends : queue_parent_end.status ≡ some 0
unfolding fire_all Sigqueueinfo.main Sigqueueinfo.parent Sigqueueinfo.child
    Sigqueueinfo.signal_handler
sigqueueinfo-ends = refl

sigqueueinfo-tells : TellsEnd 0 queue_parent_end.log
unfolding fire_all Sigqueueinfo.main Sigqueueinfo.parent Sigqueueinfo.child
    Sigqueueinfo.signal_handler
sigqueueinfo-tells = (
  (λ _ _. refl),
  ((λ _ _. refl), ((λ _ _. refl), ((λ _ _. refl), ((λ _ _. refl), ((λ _ _. refl), tt))))),
)

sigqueueinfo-IsSent_example :
    Clean (SigqueueinfoSent.IsSent System.x86_64) first queue_child_end.log
    × Any (Answers SigqueueinfoSent.IsInterrupted) queue_child_end.log
sigqueueinfo-IsSent_example =
    SigqueueinfoSent.sigqueueinfo-IsSent System.x86_64 queue_parent queue_child queue_parent_end
      queue_child_end 0 sigqueueinfo-parent sigqueueinfo-child sigqueueinfo-side sigqueueinfo-other
      (omega arith) sigqueueinfo-ended sigqueueinfo-tells sigqueueinfo-ends

abbrev apart_parent : List Event
apart_parent =
    reply first (value 100)
    ∷ reply first ok
    ∷ reply first (value 42)
    ∷ reply first (value 42)
    ∷ reply first ok
    ∷ []

abbrev apart_child : List Event
apart_child =
    reply first (value 100)
    ∷ reply first ok
    ∷ reply first ok
    ∷ reply first (value 101)
    ∷ reply first (record ok { old_act = record System.no_action { handler = System.function 0 } })
    ∷ reply first ok
    ∷ interrupt first (record (frame_of System.sigusr1 (pos 0) 0 some_registers) { target = 0 })
    ∷ reply first (value 101)
    ∷ reply first ok
    ∷ []

abbrev apart_parent_end : Machine SignalTableFork.Globals
apart_parent_end =
    last_of
      (begin SignalTableFork.signal_handler (pure 0) SignalTableFork.main SignalTableFork.initial)
      (SignalTableForkFamily.process apart_parent)

abbrev apart_child_end : Machine SignalTableFork.Globals
apart_child_end =
    last_of
      (begin SignalTableFork.signal_handler (pure 0) SignalTableFork.main SignalTableFork.initial)
      (SignalTableForkFamily.process apart_child)

signal_table_fork_apart-parent : SignalTableForkFamily.process apart_parent ≡ some apart_parent_end
unfolding fire_all SignalTableFork.main SignalTableFork.parent SignalTableFork.child
    SignalTableFork.signal_handler
signal_table_fork_apart-parent = refl

signal_table_fork_apart-child : SignalTableForkFamily.process apart_child ≡ some apart_child_end
unfolding fire_all SignalTableFork.main SignalTableFork.parent SignalTableFork.child
    SignalTableFork.signal_handler
signal_table_fork_apart-child = refl

signal_table_fork_apart-side : ¬ Any (Answers IsChildSide) apart_parent_end.log
unfolding fire_all SignalTableFork.main SignalTableFork.parent SignalTableFork.child
    SignalTableFork.signal_handler
signal_table_fork_apart-side = ground arith

signal_table_fork_apart-other : ¬ Any (Answers HasWaited) apart_child_end.log
unfolding fire_all SignalTableFork.main SignalTableFork.parent SignalTableFork.child
    SignalTableFork.signal_handler
signal_table_fork_apart-other = ground arith

signal_table_fork_apart-ended : apart_child_end.status ≡ some 0
unfolding fire_all SignalTableFork.main SignalTableFork.parent SignalTableFork.child
    SignalTableFork.signal_handler
signal_table_fork_apart-ended = refl

signal_table_fork_apart-ends : apart_parent_end.status ≡ some 0
unfolding fire_all SignalTableFork.main SignalTableFork.parent SignalTableFork.child
    SignalTableFork.signal_handler
signal_table_fork_apart-ends = refl

signal_table_fork_apart-tells : TellsEnd 0 apart_parent_end.log
unfolding fire_all SignalTableFork.main SignalTableFork.parent SignalTableFork.child
    SignalTableFork.signal_handler
signal_table_fork_apart-tells =
    ((λ _ _. refl), ((λ _ _. refl), ((λ _ _. refl), ((λ _ _. refl), ((λ _ _. refl), tt)))))

signal_table_fork_apart_example :
    Any SignalTableForkFamily.ReadOwn apart_child_end.log
    × Any SignalTableForkFamily.Runs apart_child_end.log
    × Any SignalTableForkFamily.ReadDefault apart_parent_end.log
signal_table_fork_apart_example =
    SignalTableForkFamily.signal_table_fork_apart apart_parent apart_child apart_parent_end
      apart_child_end 0 signal_table_fork_apart-parent signal_table_fork_apart-child
      signal_table_fork_apart-side signal_table_fork_apart-other (omega arith)
      signal_table_fork_apart-ended signal_table_fork_apart-tells signal_table_fork_apart-ends
