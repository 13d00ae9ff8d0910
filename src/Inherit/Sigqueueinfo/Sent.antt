-- ===== src/Inherit/Sigqueueinfo/Sent.antt =====
-- What passing runs of the two processes of src/sigqueueinfo.cpp say of the signal.
use signal_tests.Base.{
  ℕ, ℤ, ◌≡◌, ◌-◌, ◌<◌, ◌⊎◌, refl, arith, inl, inr, ◌&&◌, List, [], ◌∷◌, ◌++◌, pos, ◌==◌, ==_iff,
  ◌=ℤ=◌, =ℤ=_iff, some, Option, Bool-cases,
}
use signal_tests.Program.{pure}
use signal_tests.System
use signal_tests.System.{Frame, Call, Reply, Arch, Ucontext, Handler, same_handler}
use signal_tests.Threads.{
  Thread, first, Event, Entry, answered, started, Machine, fire_all, begin, Any, Any-more, Any-last,
  Answers, Later, Later-Any, Later-now, Later-Clean, Clean, Contract, Keeps, Keeps-assert,
  Keeps-bind, Keeps-test, Keeps-track, sound,
}
use signal_tests.Inherit.Wait.{HasWaited, IsChildSide, TellsEnd, status_of_child, exited_well}
use signal_tests.Inherit.Sigqueueinfo.{
  Globals, initial, magic_pointer, mysig, code_sent, after_syscall, signal_handler, child, parent,
  main,
}

-- The signal as it was sent, in a call that it has ended.
abbrev pub IsSent : Arch → Frame → Type 0
IsSent arch f =
    (f.sig ≡ mysig)
    × (f.info.si_code ≡ code_sent)
    × (f.info.si_value ≡ magic_pointer arch)
    × (f.ctx.rax ≡ System.minus_eintr)
    × (f.memory (f.ctx.rip - 2) ≡ System.syscall_first arch)
    × (f.memory (f.ctx.rip - 1) ≡ System.syscall_second arch)

-- sigsuspend(2) has failed with EINTR.
abbrev pub IsInterrupted : Thread → Call → Reply → Type 0
IsInterrupted t c r =
    (c ≡ Call.sigsuspend (System.sigdelset System.sigfillset mysig))
    × (r.result ≡ System.minus_one)
    × (r.errno ≡ System.eintr)

abbrev contract : Arch → Contract Globals
contract arch = record { Shared = λ g l. Unit; Good = IsSent arch; Joined = λ l. Unit }

module _ (arch : Arch) where
  handles :
      (t : Thread) (f : Frame) (g : Globals) (l : List Entry)
      → Unit {0}
      → Keeps
          (contract arch)
          t
          (λ _ _. IsSent arch f)
          (signal_handler arch f)
          g
          (l ++ started t f ∷ [])
  unfolding signal_handler
  handles t f g l _ = Keeps-assert (contract arch) t Good (f.sig == mysig) _ g l1 λ e1.
      Keeps-assert (contract arch) t Good (f.info.si_code =ℤ= code_sent) _ g l1 λ e2.
        Keeps-assert (contract arch) t Good (pos f.info.si_pid =ℤ= g.parent_pid) _ g l1 λ _.
          Keeps-assert (contract arch) t Good (pos f.info.si_uid =ℤ= g.uid) _ g l1 λ _.
            Keeps-assert (contract arch) t Good (f.info.si_value == magic_pointer arch) _ g l1 λ e3.
              Keeps-assert (contract arch) t Good (f.ctx.rax =ℤ= System.minus_eintr) _ g l1 λ e4.
                Keeps-bind (contract arch) t Bytes Good (after_syscall arch f) (λ _. pure f.ctx) g
                  l1
                  (Keeps-assert (contract arch) t Bytes
                    (f.memory (f.ctx.rip - 2) == System.syscall_first arch) _ g l1
                    λ b1.
                      Keeps-test (contract arch) t Bytes
                        (f.memory (f.ctx.rip - 1) == System.syscall_second arch) g l1 tt
                        λ b2. (
                          (==_iff (f.memory (f.ctx.rip - 2)) (System.syscall_first arch)).0 b1,
                          (==_iff (f.memory (f.ctx.rip - 1)) (System.syscall_second arch)).0 b2,
                        ))
                  (λ _ h l' s b. (
                    s,
                    (
                      (==_iff f.sig mysig).0 e1,
                      (=ℤ=_iff f.info.si_code code_sent).0 e2,
                      (==_iff f.info.si_value (magic_pointer arch)).0 e3,
                      (=ℤ=_iff f.ctx.rax System.minus_eintr).0 e4,
                      b.0,
                      b.1,
                    ),
                  ))
    where
      l1 : List Entry
      l1 = l ++ started t f ∷ []

      Good : Ucontext → List Entry → Type 0
      Good _ _ = IsSent arch f

      Bytes : Unit {0} → List Entry → Type 0
      Bytes _ _ =
          (f.memory (f.ctx.rip - 2) ≡ System.syscall_first arch)
          × (f.memory (f.ctx.rip - 1) ≡ System.syscall_second arch)

  -- A process is the child, and was interrupted, or has waited for a child that has ended well.
  Seen : ℕ → List Entry → Type 0
  Seen a l =
      a ≡ 0
      → (Any (Answers IsChildSide) l × Any (Answers IsInterrupted) l) ⊎ Any (Answers HasWaited) l

  child-Keeps :
      (g : Globals) (l : List Entry)
      → Any (Answers IsChildSide) l
      → Keeps (contract arch) first Seen child g l
  unfolding child Seen
  child-Keeps g l here = (
    tt,
    λ a g1 l1 y1 _ _. (
      tt,
      λ r g2 l2 y2 _ _.
          Keeps-assert (contract arch) first Seen (r.result =ℤ= System.minus_one) _ g2 _ λ e1.
            Keeps-assert (contract arch) first Seen (r.errno == System.eintr) (pure 0) g2 _ λ e2.
              let set = answered first (Call.sigaction mysig _) a in
              let entry =
                answered first (Call.sigsuspend (System.sigdelset System.sigfillset mysig)) r in
              (
                tt,
                λ _. inl (
                  Any-more (Answers IsChildSide) l2 (entry ∷ []) (
                      Later-Any (IsSent arch) first (Answers IsChildSide) (l1 ++ set ∷ []) l2 y2 (
                        Any-more (Answers IsChildSide) l1 (set ∷ [])
                          (Later-Any (IsSent arch) first (Answers IsChildSide) l l1 y1 here))),
                  Any-last (Answers IsInterrupted) l2 entry (
                    refl,
                    (=ℤ=_iff r.result System.minus_one).0 e1,
                    (==_iff r.errno System.eintr).0 e2,
                  ),
                ),
              ),
    ),
  )

  parent-Keeps :
      (pid : ℤ) (g : Globals) (l : List Entry)
      → Keeps (contract arch) first Seen (parent arch pid) g l
  unfolding parent Seen
  parent-Keeps pid g l = (
    tt,
    λ _ _ _ _ _ _. (
      tt,
      λ w i k _ _ _.
          let entry = answered first (Call.waitpid pid 0) w in
          elim (Bool-cases (w.result =ℤ= System.minus_one)) [
            | inl e ↦ rw e (tt, λ one. absurd (omega arith))
            | inr e ↦ rw e (
                Keeps-assert (contract arch) first Seen
                  (System.wifexited w.status && (System.wexitstatus w.status == 0)) (pure 0) i
                  (k ++ entry ∷ [])
                  λ well. (
                    tt,
                    λ _. inr (
                        Any-last (Answers HasWaited) k entry (
                          (pid, refl),
                          (exited_well w.status well).0,
                          (exited_well w.status well).1,
                        )),
                  ))
          ],
    ),
  )

  main-Keeps : Keeps (contract arch) first Seen (main arch) initial []
  unfolding main
  main-Keeps = (
    tt,
    λ _ _ _ _ _ _. (
      tt,
      λ _ _ _ _ _ _. (
        tt,
        λ _ _ _ _ _ _. (
          tt,
          λ pid g l _ _ _.
              let after = l ++ answered first Call.fork pid ∷ [] in
              elim (Bool-cases (pid.result =ℤ= pos 0)) [
                | inl e ↦ rw e (
                    child-Keeps g after (
                      Any-last (Answers IsChildSide) l (answered first Call.fork pid)
                        (refl, (=ℤ=_iff pid.result (pos 0)).0 e)))
                | inr e ↦ rw e (parent-Keeps pid.result g after)
              ],
        ),
      ),
    ),
  )

  -- One process.
  abbrev pub process : List Event → Option (Machine Globals)
  process vs =
      fire_all (signal_handler arch) (pure 0) vs
        (begin (signal_handler arch) (pure 0) (main arch) initial)

  process_seen :
      (vs : List Event) (m : Machine Globals)
      → process vs ≡ some m
      → m.status ≡ some 0
      → Clean (IsSent arch) first m.log
        × ((Any (Answers IsChildSide) m.log × Any (Answers IsInterrupted) m.log)
            ⊎ Any (Answers HasWaited) m.log)
  unfolding Seen
  process_seen vs m e z =
      let (later, seen) =
        sound (contract arch) (λ a l. Later (IsSent arch) first [] l × Seen a l) (λ g l e h. tt)
          (λ l l' h. tt) (signal_handler arch) (pure 0) handles (λ g l h. (tt, tt)) (main arch)
          initial vs m
          (Keeps-track (contract arch) first Seen (main arch) initial [] []
            (Later-now (IsSent arch) first []) main-Keeps)
          e z in
      (Later-Clean (IsSent arch) first [] m.log later tt, seen refl)

-- Two processes, whatever the system does to each of them: if the parent ends with 0, to which fork(2)
-- has not answered 0 and waitpid(2) has told how the child has ended, and the child has not waited for a
-- child of its own, then sigsuspend(2) has failed with EINTR in the child, and each handler that has
-- started there has found the signal number, the code and the value that were sent.
pub sigqueueinfo-IsSent :
    (arch : Arch) (vs us : List Event) (p c : Machine Globals) (n : ℕ)
    → process arch vs ≡ some p
    → process arch us ≡ some c
    → ¬ Any (Answers IsChildSide) p.log
    → ¬ Any (Answers HasWaited) c.log
    → n < 256
    → c.status ≡ some n
    → TellsEnd n p.log
    → p.status ≡ some 0
    → Clean (IsSent arch) first c.log × Any (Answers IsInterrupted) c.log
sigqueueinfo-IsSent arch vs us p c n e d side other small ended tells z =
    elim ((process_seen arch vs p e z).1) [
      | inl (here, _) ↦ absurd (side here)
      | inr waited ↦
          let zero_end : n ≡ 0 = status_of_child n p.log small tells waited in
          let (clean, which) = process_seen arch us c d (rw (ended, zero_end) refl) in
          (clean, elim which [ inl (_, has) ↦ has | inr waits ↦ absurd (other waits) ])
    ]
