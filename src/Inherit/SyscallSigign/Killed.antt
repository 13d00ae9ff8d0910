-- ===== src/Inherit/SyscallSigign/Killed.antt =====
-- What a passing run of src/syscall-sigign.cpp says of the child.
use signal_tests.Base.{
  ℕ, ℤ, ◌≡◌, refl, arith, inl, inr, true, List, [], ◌∷◌, ◌++◌, pos, ◌==◌, ==_iff, ◌=ℤ=◌, =ℤ=_iff,
  some, Bool-cases,
}
use signal_tests.Program.{pure}
use signal_tests.System
use signal_tests.System.{Frame, Call, Reply, Arch, Ucontext, Handler, same_handler}
use signal_tests.Threads.{
  Thread, first, Event, Entry, answered, Machine, fire_all, begin, Any, Any-more, Any-last, Answers,
  Later, Later-Any, Contract, Keeps, Keeps-assert, sound,
}
use signal_tests.Inherit.SyscallSigign.{Globals, initial, no_handler, child_main, parent, main}

-- The signal has been sent to the one thread of a process.
abbrev pub IsSent : ℕ → Thread → Call → Reply → Type 0
IsSent sig t c r = ((pid : ℤ) × (c ≡ Call.tgkill pid pid sig)) × (r.result ≡ pos 0)

-- SIGKILL has ended the child.
abbrev pub IsKilled : Thread → Call → Reply → Type 0
IsKilled t c r =
    ((pid : ℤ) × (c ≡ Call.waitpid pid 0) × (r.result ≡ pid))
    × (System.wifsignaled r.status ≡ true)
    × (System.wtermsig r.status ≡ System.sigkill)

abbrev contract : Contract Globals
contract = record { Shared = λ g l. Unit; Good = λ f. Unit; Joined = λ l. Unit }

-- The three signals were sent, and then the child had ended so.
abbrev Seen : ℕ → List Entry → Type 0
Seen a l =
    a ≡ 0
    → Any (Answers (IsSent System.sigusr1)) l
      × Any (Answers (IsSent System.sigurg)) l
      × Any (Answers (IsSent System.sigkill)) l
      × Any (Answers IsKilled) l

since :
    (P : Entry → Type 0) (e : Entry) (l m : List Entry)
    → Later (λ _. Unit) first (l ++ e ∷ []) m
    → Any P l
    → Any P m
since P e l m y h = Later-Any (λ _. Unit) first P (l ++ e ∷ []) m y (Any-more P l (e ∷ []) h)

now :
    (P : Entry → Type 0) (e : Entry) (l m : List Entry)
    → Later (λ _. Unit) first (l ++ e ∷ []) m
    → P e
    → Any P m
now P e l m y h = Later-Any (λ _. Unit) first P (l ++ e ∷ []) m y (Any-last P l e h)

abbrev Sent : ℕ → Entry → Type 0
Sent sig = Answers (IsSent sig)

parent-Keeps : (pid : ℤ) (g : Globals) (l : List Entry) → Keeps contract first Seen (parent pid) g l
unfolding parent
parent-Keeps pid g l = (
  tt,
  λ a g1 l1 _ _ _.
      let a' = answered first (Call.tgkill pid pid System.sigusr1) a in
      Keeps-assert contract first Seen (a.result =ℤ= pos 0) _ g1 _ λ ea. (
        tt,
        λ b g2 l2 y2 _ _.
            let b' = answered first (Call.usleep 10000) b in
            let one2 =
              now (Sent System.sigusr1) a' l1 l2 y2
                ((pid, refl), (=ℤ=_iff a.result (pos 0)).0 ea) in
            (
              tt,
              λ c g3 l3 y3 _ _.
                  let c' = answered first (Call.tgkill pid pid System.sigurg) c in
                  let one3 = since (Sent System.sigusr1) b' l2 l3 y3 one2 in
                  Keeps-assert contract first Seen (c.result =ℤ= pos 0) _ g3 _ λ ec. (
                    tt,
                    λ d g4 l4 y4 _ _.
                        let d' = answered first (Call.usleep 100000) d in
                        let one4 = since (Sent System.sigusr1) c' l3 l4 y4 one3 in
                        let two4 =
                          now (Sent System.sigurg) c' l3 l4 y4
                            ((pid, refl), (=ℤ=_iff c.result (pos 0)).0 ec) in
                        (
                          tt,
                          λ k g5 l5 y5 _ _.
                              let k' = answered first (Call.tgkill pid pid System.sigkill) k in
                              let one5 = since (Sent System.sigusr1) d' l4 l5 y5 one4 in
                              let two5 = since (Sent System.sigurg) d' l4 l5 y5 two4 in
                              Keeps-assert contract first Seen (k.result =ℤ= pos 0) _ g5 _ λ ek. (
                                tt,
                                λ w g6 l6 y6 _ _.
                                    let w' = answered first (Call.waitpid pid 0) w in
                                    let three6 =
                                      now (Sent System.sigkill) k' l5 l6 y6
                                        ((pid, refl), (=ℤ=_iff k.result (pos 0)).0 ek) in
                                    Keeps-assert contract first Seen (w.result =ℤ= pid) _ g6 _ λ e1.
                                      Keeps-assert contract first Seen (System.wifsignaled w.status)
                                        _ g6 _
                                        λ e2.
                                          Keeps-assert contract first Seen
                                            (System.wtermsig w.status == System.sigkill) (pure 0) g6
                                            _
                                            λ e3. (
                                              tt,
                                              λ _. (
                                                Any-more (Sent System.sigusr1) l6 (w' ∷ [])
                                                    (since (Sent System.sigusr1) k' l5 l6 y6 one5),
                                                Any-more (Sent System.sigurg) l6 (w' ∷ [])
                                                    (since (Sent System.sigurg) k' l5 l6 y6 two5),
                                                Any-more (Sent System.sigkill) l6 (w' ∷ []) three6,
                                                Any-last (Answers IsKilled) l6 w' (
                                                  (pid, refl, (=ℤ=_iff w.result pid).0 e1),
                                                  e2,
                                                  (==_iff (System.wtermsig w.status)
                                                        System.sigkill).0
                                                      e3,
                                                ),
                                              ),
                                            ),
                              ),
                        ),
                  ),
            ),
      ),
)

child_main-Keeps : (g : Globals) (l : List Entry) → Keeps contract first Seen child_main g l
unfolding child_main
child_main-Keeps g l = (tt, λ _ _ _ _ _ _. (tt, λ one. absurd (omega arith)))

main-Keeps : Keeps contract first Seen main initial []
unfolding main
main-Keeps = (
  tt,
  λ a g1 _ _ _ _. Keeps-assert contract first Seen (a.result =ℤ= pos 0) _ g1 _ λ _. (
    tt,
    λ b g2 _ _ _ _. Keeps-assert contract first Seen (b.result =ℤ= pos 0) _ g2 _ λ _. (
      tt,
      λ c g3 _ _ _ _. Keeps-assert contract first Seen (c.result =ℤ= pos 0) _ g3 _ λ _. (
        tt,
        λ pid g l _ _ _. elim (Bool-cases (pid.result =ℤ= pos 0)) [
          | inl e ↦ rw e (child_main-Keeps g (l ++ answered first Call.fork pid ∷ []))
          | inr e ↦ rw e (parent-Keeps pid.result g (l ++ answered first Call.fork pid ∷ []))
        ],
      ),
    ),
  ),
)

-- Whatever the system does: a run that ends with 0 is that of a parent, which has sent the two ignored
-- signals and SIGKILL, and to which waitpid(2) has told that SIGKILL has ended the child.
pub syscall_sigign-IsKilled :
    (vs : List Event) (m : Machine Globals)
    → fire_all no_handler (pure 0) vs (begin no_handler (pure 0) main initial) ≡ some m
    → m.status ≡ some 0
    → Any (Answers (IsSent System.sigusr1)) m.log
      × Any (Answers (IsSent System.sigurg)) m.log
      × Any (Answers (IsSent System.sigkill)) m.log
      × Any (Answers IsKilled) m.log
unfolding no_handler
syscall_sigign-IsKilled vs m e z =
    sound contract Seen (λ g l e h. tt) (λ l l' h. tt) no_handler (pure 0) (λ t f g l h. (tt, tt))
      (λ g l h. (tt, tt)) main initial vs m main-Keeps e z refl
