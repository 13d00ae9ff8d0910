-- ===== src/Restart/PausePcRax/Interrupted.antt =====
-- What a passing run of src/pause-pc-rax.cpp says of the call that the signal ends.
use signal_tests.Base.{
  ℕ, ℤ, ◌≡◌, ◌-◌, refl, arith, List, [], ◌∷◌, ◌++◌, pos, ◌==◌, ==_iff, ◌=ℤ=◌, =ℤ=_iff, some,
}
use signal_tests.Program.{pure}
use signal_tests.System
use signal_tests.System.{Frame, Call, Reply, Arch, Ucontext}
use signal_tests.Threads.{
  Thread, first, second, Event, Entry, answered, started, Machine, fire_all, begin, Any, Any-more,
  Any-last, Answers, Later, Later-Any, Later-now, Later-Clean, Clean, Contract, Keeps, Keeps-assert,
  Keeps-guard, Keeps-bind, Keeps-test, Keeps-track, sound,
}
use signal_tests.Restart.PausePcRax.{
  Globals, initial, signal_handler, after_syscall, thread_main, main,
}

-- The frame of a call that a signal has ended: behind the system call instruction, with the error.
abbrev pub IsEnding : Arch → Frame → Type 0
IsEnding arch f =
    (f.ctx.rax ≡ System.minus_eintr)
    × (f.memory (f.ctx.rip - 2) ≡ System.syscall_first arch)
    × (f.memory (f.ctx.rip - 1) ≡ System.syscall_second arch)

-- The call of the first thread has failed with EINTR.
abbrev pub IsInterrupted : Thread → Call → Reply → Type 0
IsInterrupted t c r =
    (t ≡ first) × (c ≡ Call.pause) × (r.result ≡ System.minus_one) × (r.errno ≡ System.eintr)

-- The second thread has called kill(2) with SIGUSR1, whatever the pid and the answer.
abbrev pub HasCalledKill : Thread → Call → Reply → Type 0
HasCalledKill t c r = (t ≡ second) × ((pid : ℤ) × (c ≡ Call.kill pid System.sigusr1))

abbrev contract : Arch → Contract Globals
contract arch = record {
  Shared = λ g l. Unit;
  Good = IsEnding arch;
  Joined = λ l. Any (Answers HasCalledKill) l;
}

module _ (arch : Arch) where
  handles :
      (t : Thread) (f : Frame) (g : Globals) (l : List Entry)
      → Unit {0}
      → Keeps
          (contract arch)
          t
          (λ _ _. IsEnding arch f)
          (signal_handler arch f)
          g
          (l ++ started t f ∷ [])
  unfolding signal_handler
  handles t f g l _ =
      Keeps-assert (contract arch) t (λ _ _. IsEnding arch f) (f.ctx.rax =ℤ= System.minus_eintr) _ g
        l1
        λ e1.
          Keeps-bind (contract arch) t Bytes (λ _ _. IsEnding arch f) (after_syscall arch f)
            (λ _. pure f.ctx) g l1
            (Keeps-assert (contract arch) t Bytes
              (f.memory (f.ctx.rip - 2) == System.syscall_first arch) _ g l1
              λ e2.
                Keeps-test (contract arch) t Bytes
                  (f.memory (f.ctx.rip - 1) == System.syscall_second arch) g l1 tt
                  λ e3. (
                    (==_iff (f.memory (f.ctx.rip - 2)) (System.syscall_first arch)).0 e2,
                    (==_iff (f.memory (f.ctx.rip - 1)) (System.syscall_second arch)).0 e3,
                  ))
            (λ _ h l' s r. (s, ((=ℤ=_iff f.ctx.rax System.minus_eintr).0 e1, r.0, r.1)))
    where
      l1 : List Entry
      l1 = l ++ started t f ∷ []

      Bytes : Unit {0} → List Entry → Type 0
      Bytes _ _ =
          (f.memory (f.ctx.rip - 2) ≡ System.syscall_first arch)
          × (f.memory (f.ctx.rip - 1) ≡ System.syscall_second arch)

  threads :
      (g : Globals) (l : List Entry)
      → Unit {0}
      → Keeps (contract arch) second (λ _ l'. Any (Answers HasCalledKill) l') thread_main g l
  unfolding thread_main
  threads g l _ = (
    tt,
    λ _ _ _ _ _ _. (
      tt,
      λ r i m _ _ _. (
        tt,
        λ k j n _ _ _. (
          tt,
          Any-last (Answers HasCalledKill) n (answered second (Call.kill i.pid System.sigusr1) k)
              (refl, (i.pid, refl)),
        ),
      ),
    ),
  )

  Seen : ℕ → List Entry → Type 0
  Seen a l = a ≡ 0 → Any (Answers IsInterrupted) l × Any (Answers HasCalledKill) l

  main-Keeps : Keeps (contract arch) first Seen main initial []
  unfolding main Seen
  main-Keeps = (
    tt,
    λ _ g1 l1 _ _ _. (
      tt,
      λ r g2 l2 _ _ _. Keeps-assert (contract arch) first Seen (r.result =ℤ= pos 0) _ g2 _ λ _. (
        tt,
        λ c g3 l3 _ _ _.
            Keeps-guard (contract arch) first Seen (c.result =ℤ= pos 0) 134 _ g3 _ (omega arith)
              λ _. (
                tt,
                λ p g4 l4 _ _ _.
                    Keeps-assert (contract arch) first Seen (p.result =ℤ= System.minus_one) _ g4 _
                      λ e1.
                        Keeps-assert (contract arch) first Seen (p.errno == System.eintr) _ g4 _
                          λ e2.
                            let entry = answered first Call.pause p in
                            let has = Any-last (Answers IsInterrupted) l4 entry (
                              refl,
                              refl,
                              (=ℤ=_iff p.result System.minus_one).0 e1,
                              (==_iff p.errno System.eintr).0 e2,
                            ) in
                            (
                              tt,
                              λ j g5 l5 y _ tells.
                                  Keeps-guard (contract arch) first Seen (j.result =ℤ= pos 0) 134 _
                                    g5 _ (omega arith)
                                    λ z.
                                      let joined = answered first Call.pthread_join j ∷ [] in
                                      (
                                        tt,
                                        λ _. (
                                          Any-more (Answers IsInterrupted) l5 joined (
                                              Later-Any (IsEnding arch) first
                                                (Answers IsInterrupted) (l4 ++ entry ∷ []) l5 y
                                                has),
                                          Any-more (Answers HasCalledKill) l5 joined
                                              (tells refl ((=ℤ=_iff j.result (pos 0)).0 z)),
                                        ),
                                      ),
                            ),
              ),
      ),
    ),
  )

-- Whatever the system does and in whichever order the threads go on: in a run that ends with 0 the call
-- of the first thread has failed with EINTR; the second thread has called kill(2) with SIGUSR1, whatever
-- the answer; and every handler that has started in the first thread has found the frame of a call that
-- has ended so.
pub pause_pc_rax_ends :
    (arch : Arch) (vs : List Event) (m : Machine Globals)
    → fire_all
        (signal_handler arch)
        thread_main
        vs
        (begin (signal_handler arch) thread_main main initial)
      ≡ some m
    → m.status ≡ some 0
    → Clean (IsEnding arch) first m.log
      × (Any (Answers IsInterrupted) m.log × Any (Answers HasCalledKill) m.log)
unfolding Seen
pause_pc_rax_ends arch vs m e z =
    let (later, seen) =
      sound (contract arch) (λ a l. Later (IsEnding arch) first [] l × Seen arch a l)
        (λ g l e h. tt) (λ l l'. Any-more (Answers HasCalledKill) l l') (signal_handler arch)
        thread_main (handles arch) (threads arch) main initial vs m
        (Keeps-track (contract arch) first (Seen arch) main initial [] []
          (Later-now (IsEnding arch) first []) (main-Keeps arch))
        e z in
    (Later-Clean (IsEnding arch) first [] m.log later tt, seen refl)
