-- ===== src/Inherit/ForkInherit/Family.antt =====
-- What passing runs of the two processes of src/fork-inherit.cpp say of the masks.
use signal_tests.Base.{
  ℕ, ℤ, ◌≡◌, ◌<◌, ◌⊎◌, refl, inl, inr, not, negative, List, [], ◌∷◌, ◌++◌, pos, ◌==◌, ==_iff, ◌=ℤ=◌,
  =ℤ=_iff, some, Option, Bool-cases,
}
use signal_tests.Program.{pure, ◌>>◌, Prog}
use signal_tests.System
use signal_tests.System.{Frame, Call, Reply, Ucontext}
use signal_tests.Threads.{
  first, Event, Entry, answered, Machine, fire_all, begin, Any, Any-more, Any-last, Answers, Later,
  Later-Any, Later-now, Contract, Keeps, Keeps-assert, Keeps-bind, Keeps-track, sound,
}
use signal_tests.Inherit.Mask.{Saw, check_mask, check_mask-Keeps}
use signal_tests.Inherit.Wait.{HasWaited, IsChildSide, TellsEnd, status_of_child}
use signal_tests.Inherit.ForkInherit.{Globals, initial, no_handler, child, parent, main}

abbrev contract : Contract Globals
contract = record { Shared = λ g l. Unit; Good = λ f. Unit; Joined = λ l. Unit }

-- A process has read the mask; it is the child, or has waited for a child that has ended well.
Seen : ℕ → List Entry → Type 0
Seen a l =
    a ≡ 0 → Any (Answers (Saw first)) l × (Any (Answers IsChildSide) l ⊎ Any (Answers HasWaited) l)

checked :
    (g : Globals) (l : List Entry) (q : Prog Globals ℕ)
    → ((h : Globals) (l' : List Entry)
        → Later (λ _. Unit) first l l'
        → Any (Answers (Saw first)) l'
        → Keeps contract first Seen q h l')
    → Keeps contract first Seen (check_mask >> q) g l
checked g l q next =
    Keeps-bind contract first (λ _ l'. Later (λ _. Unit) first l l' × Any (Answers (Saw first)) l')
      Seen check_mask (λ _. q) g l
      (Keeps-track contract first (λ _ l'. Any (Answers (Saw first)) l') check_mask g l l
        (Later-now (λ _. Unit) first l) (check_mask-Keeps contract (λ _ _. tt) first g l))
      (λ _ h l' s (y, has). next h l' y has)

child-Keeps :
    (g : Globals) (l : List Entry)
    → Any (Answers IsChildSide) l
    → Keeps contract first Seen child g l
unfolding child Seen
child-Keeps g l here = checked g l (pure 0) (λ h l' y has.
    (tt, λ _. (has, inl (Later-Any (λ _. Unit) first (Answers IsChildSide) l l' y here))))

parent-Keeps : (pid : ℤ) (g : Globals) (l : List Entry) → Keeps contract first Seen (parent pid) g l
unfolding parent Seen
parent-Keeps pid g l = checked g l _ (λ h l' _ has. (
  tt,
  λ w i k y _ _.
      let entry = answered first (Call.waitpid pid 0) w in
      let after = k ++ entry ∷ [] in
      Keeps-assert contract first Seen (w.result =ℤ= pid) _ i after λ _.
        Keeps-assert contract first Seen (System.wifexited w.status) _ i after λ e.
          Keeps-assert contract first Seen (System.wexitstatus w.status == 0) (pure 0) i after λ z.
            (
              tt,
              λ _. (
                Any-more (Answers (Saw first)) k (entry ∷ [])
                    (Later-Any (λ _. Unit) first (Answers (Saw first)) l' k y has),
                inr (
                    Any-last (Answers HasWaited) k entry
                      ((pid, refl), e, (==_iff (System.wexitstatus w.status) 0).0 z)),
              ),
            ),
))

main-Keeps : Keeps contract first Seen main initial []
unfolding main
main-Keeps = (
  tt,
  λ b g1 l1 _ _ _. Keeps-assert contract first Seen (b.result =ℤ= pos 0) _ g1 _ λ _. (
    tt,
    λ pid g2 l2 _ _ _.
        let after = l2 ++ answered first Call.fork pid ∷ [] in
        Keeps-assert contract first Seen (not (negative pid.result)) _ g2 after λ _.
          elim (Bool-cases (pid.result =ℤ= pos 0)) [
            | inl e ↦ rw e (
                child-Keeps g2 after (
                  Any-last (Answers IsChildSide) l2 (answered first Call.fork pid)
                    (refl, (=ℤ=_iff pid.result (pos 0)).0 e)))
            | inr e ↦ rw e (parent-Keeps pid.result g2 after)
          ],
  ),
)

-- One process.
abbrev pub process : List Event → Option (Machine Globals)
process vs = fire_all no_handler (pure 0) vs (begin no_handler (pure 0) main initial)

process_seen :
    (vs : List Event) (m : Machine Globals)
    → process vs ≡ some m
    → m.status ≡ some 0
    → Any (Answers (Saw first)) m.log
      × (Any (Answers IsChildSide) m.log ⊎ Any (Answers HasWaited) m.log)
unfolding Seen no_handler
process_seen vs m e z =
    sound contract Seen (λ g l e h. tt) (λ l l' h. tt) no_handler (pure 0) (λ t f g l h. (tt, tt))
      (λ g l h. (tt, tt)) main initial vs m main-Keeps e z refl

-- Two processes, whatever the system does to each of them: if the parent, to which fork(2) has not
-- answered 0, ends with 0, and waitpid(2) has told it how the child has ended, then both have read a
-- mask with the five signals.
pub fork_inherit_masks :
    (vs us : List Event) (p c : Machine Globals) (n : ℕ)
    → process vs ≡ some p
    → process us ≡ some c
    → ¬ Any (Answers IsChildSide) p.log
    → n < 256
    → c.status ≡ some n
    → TellsEnd n p.log
    → p.status ≡ some 0
    → Any (Answers (Saw first)) p.log × Any (Answers (Saw first)) c.log
fork_inherit_masks vs us p c n e d side small ended tells z =
    let (has, which) = process_seen vs p e z in
    elim which [
      | inl here ↦ absurd (side here)
      | inr waited ↦
          let zero_end : n ≡ 0 = status_of_child n p.log small tells waited in
          (has, (process_seen us c d (rw (ended, zero_end) refl)).0)
    ]
