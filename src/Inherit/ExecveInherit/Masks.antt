-- ===== src/Inherit/ExecveInherit/Masks.antt =====
-- What a passing run of src/execve-inherit.cpp says of the mask.
use signal_tests.Base.{
  ℕ, ◌≡◌, ◌≢◌, refl, arith, inl, inr, not, Bool, true, List, [], ◌∷◌, ◌++◌, pos, ◌==◌, ==_iff,
  ◌=ℤ=◌, some, Bool-cases,
}
use signal_tests.Program.{pure}
use signal_tests.System
use signal_tests.System.{Frame, Call, Reply, Arch, Ucontext, Handler, same_handler}
use signal_tests.Threads.{
  Thread, first, Event, Entry, answered, Machine, fire_all, begin, Any, Any-more, Any-last, Answers,
  Later-Any, Contract, Keeps, Keeps-assert, sound,
}
use signal_tests.Inherit.ExecveInherit.{Globals, initial, signal_handler, executed, executing, main}

-- The mask of the program before is there, and no more of these.
abbrev pub HasSix : ℕ → Type 0
HasSix mask =
    (System.sigismember mask System.sigusr1 ≡ true)
    × (System.sigismember mask System.sigurg ≡ true)
    × (System.sigismember mask System.sigill ≡ true)
    × (System.sigismember mask System.sigsegv ≡ true)
    × (System.sigismember mask System.sigbus ≡ true)
    × (System.sigismember mask 40 ≡ true)
    × (System.sigismember mask System.sigusr2 ≢ true)
    × (System.sigismember mask System.sigfpe ≢ true)

abbrev pub Saw : Thread → Call → Reply → Type 0
Saw t c r = (c ≡ Call.sigprocmask_query) × HasSix r.old_mask

-- The variable is in the environment.
abbrev pub IsExecuted : Thread → Call → Reply → Type 0
IsExecuted t c r = (c ≡ Call.getenv) × (r.address ≢ 0)

abbrev contract : Contract Globals
contract = record { Shared = λ g l. Unit; Good = λ f. Unit; Joined = λ l. Unit }

abbrev Seen : ℕ → List Entry → Type 0
Seen a l = a ≡ 0 → Any (Answers IsExecuted) l × Any (Answers Saw) l

refused : (b : Bool) → not b ≡ true → b ≢ true
refused b e = ground arith

executed-Keeps :
    (g : Globals) (l : List Entry)
    → Any (Answers IsExecuted) l
    → Keeps contract first Seen executed g l
unfolding executed
executed-Keeps g l here = (
  tt,
  λ r h m y _ _.
      let entry = answered first Call.sigprocmask_query r in
      Keeps-assert contract first Seen (r.result =ℤ= pos 0) _ h _ λ _.
        Keeps-assert contract first Seen (System.sigismember r.old_mask System.sigusr1) _ h _ λ e1.
          Keeps-assert contract first Seen (System.sigismember r.old_mask System.sigurg) _ h _ λ e2.
            Keeps-assert contract first Seen (System.sigismember r.old_mask System.sigill) _ h _
              λ e3.
                Keeps-assert contract first Seen (System.sigismember r.old_mask System.sigsegv) _ h
                  _
                  λ e4.
                    Keeps-assert contract first Seen (System.sigismember r.old_mask System.sigbus) _
                      h _
                      λ e5.
                        Keeps-assert contract first Seen (System.sigismember r.old_mask 40) _ h _
                          λ e6.
                            Keeps-assert contract first Seen
                              (not (System.sigismember r.old_mask System.sigusr2)) _ h _
                              λ e7.
                                Keeps-assert contract first Seen
                                  (not (System.sigismember r.old_mask System.sigfpe)) (pure 0) h _
                                  λ e8. (
                                    tt,
                                    λ _. (
                                      Any-more (Answers IsExecuted) m (entry ∷ []) (
                                          Later-Any (λ _. Unit) first (Answers IsExecuted) l m y
                                            here),
                                      Any-last (Answers Saw) m entry (
                                        refl,
                                        (
                                          e1,
                                          e2,
                                          e3,
                                          e4,
                                          e5,
                                          e6,
                                          refused (System.sigismember r.old_mask System.sigusr2) e7,
                                          refused (System.sigismember r.old_mask System.sigfpe) e8,
                                        ),
                                      ),
                                    ),
                                  ),
)

executing-Keeps : (g : Globals) (l : List Entry) → Keeps contract first Seen executing g l
unfolding executing
executing-Keeps g l = (
  tt,
  λ _ _ _ _ _ _. (
    tt,
    λ b g2 l2 _ _ _.
        Keeps-assert contract first Seen (b.result =ℤ= pos 0) _ g2 _
          λ _. (tt, λ _ _ _ _ _ _. (tt, λ one. absurd (omega arith))),
  ),
)

main-Keeps : Keeps contract first Seen main initial []
unfolding main
main-Keeps = (
  tt,
  λ v g l _ _ _.
      let entry = answered first Call.getenv v in
      elim (Bool-cases (v.address == 0)) [
        | inl e ↦ rw e (executing-Keeps g (l ++ entry ∷ []))
        | inr e ↦ rw e (
            executed-Keeps g (l ++ entry ∷ []) (
              Any-last (Answers IsExecuted) l entry
                (refl, λ zero_value. absurd (cc (e, (==_iff v.address 0).1 zero_value)))))
      ],
)

-- Whatever the system does: a run that ends with 0 has found the variable in its environment, and has read
-- a mask with the six signals that the program blocks before execve(2), and without SIGUSR2 and SIGFPE.
pub execve_inherit_mask :
    (vs : List Event) (m : Machine Globals)
    → fire_all signal_handler (pure 0) vs (begin signal_handler (pure 0) main initial) ≡ some m
    → m.status ≡ some 0
    → Any (Answers IsExecuted) m.log × Any (Answers Saw) m.log
unfolding signal_handler
execve_inherit_mask vs m e z =
    sound contract Seen (λ g l e h. tt) (λ l l' h. tt) signal_handler (pure 0)
      (λ t f g l h. (tt, tt)) (λ g l h. (tt, tt)) main initial vs m main-Keeps e z refl
