-- ===== src/Inherit/SignalTableFork/Family.antt =====
-- What passing runs of the two processes of src/signal-table-fork.cpp say of the actions.
use signal_tests.Base.{
  ℕ, ℤ, ◌≡◌, ◌<◌, ◌⊎◌, refl, arith, inl, inr, true, ◌&&◌, List, [], ◌∷◌, ◌++◌, pos, ◌==◌, ◌=ℤ=◌,
  =ℤ=_iff, some, Option, Bool-cases, if◌then◌else◌,
}
use signal_tests.Program.{assert, pure, exit, ◌>>◌, ◌>>=◌, Prog, sys}
use signal_tests.System
use signal_tests.System.{Frame, Call, Reply, Arch, Ucontext, Handler, same_handler}
use signal_tests.Threads.{
  Thread, first, second, Event, Entry, answered, started, Machine, fire_all, begin, Any, Any-more,
  Any-last, Answers, Starts, Later, Later-Any, Contract, Keeps, Keeps-assert, Keeps-bind, sound,
}
use signal_tests.Inherit.Wait.{HasWaited, IsChildSide, TellsEnd, status_of_child, exited_well}
use signal_tests.Inherit.Table.{HasAction, same_handler-eq}
use signal_tests.Inherit.SignalTableFork.{
  Globals, initial, signal_handler, thread_main, child, parent, main, sa,
}

-- A handler has started.
abbrev pub Runs : Entry → Type 0
Runs = Starts (λ t f. Unit)

abbrev pub ReadOwn : Entry → Type 0
ReadOwn = Answers (HasAction first System.sigusr1 (System.function 0))

abbrev pub ReadDefault : Entry → Type 0
ReadDefault = Answers (HasAction first System.sigusr2 System.sig_dfl)

-- The flag tells of a handler.
abbrev contract : Contract Globals
contract = record {
  Shared = λ g l. g.is_ok ≡ true → Any Runs l;
  Good = λ f. Unit;
  Joined = λ l. Unit;
}

more :
    (g : Globals) (l : List Entry) (e : Entry)
    → contract.Shared g l
    → contract.Shared g (l ++ e ∷ [])
more g l e a = λ x. Any-more Runs l (e ∷ []) (a x)

since :
    (P : Entry → Type 0) (e : Entry) (l m : List Entry)
    → Later (λ _. Unit) first (l ++ e ∷ []) m
    → Any P l
    → Any P m
since P e l m y h = Later-Any (λ _. Unit) first P (l ++ e ∷ []) m y (Any-more P l (e ∷ []) h)

handles :
    (t : Thread) (f : Frame) (g : Globals) (l : List Entry)
    → contract.Shared g l
    → Keeps contract t (λ _ _. Unit) (signal_handler f) g (l ++ started t f ∷ [])
unfolding signal_handler
handles t f g l h = (
  more g l (started t f) h,
  λ r i l' y s _.
      Keeps-assert contract t (λ _ _. Unit) (i.child_tid =ℤ= r.result) _ i _
        λ _. (
          (λ _. Any-more Runs l' (answered t Call.gettid r ∷ []) (
              Later-Any (λ _. Unit) t Runs (l ++ started t f ∷ []) l' y
                (Any-last Runs l (started t f) tt))),
          tt,
        ),
)

-- A process is the child, and has read the action of its parent and seen its handler; or it has waited for
-- a child that has ended well, and has read the default action of the other signal.
abbrev Seen : ℕ → List Entry → Type 0
Seen a l =
    a ≡ 0
    → (Any (Answers IsChildSide) l × Any ReadOwn l × Any Runs l)
      ⊎ (Any (Answers HasWaited) l × Any ReadDefault l)

abbrev Told : Unit {0} → List Entry → Type 0
Told _ l = Any (Answers IsChildSide) l × Any ReadOwn l

thread_main-Keeps :
    (g : Globals) (l : List Entry)
    → contract.Shared g l
    → Any (Answers IsChildSide) l
    → Keeps contract first Told thread_main g l
unfolding thread_main
thread_main-Keeps g l s here = (
  s,
  λ t g1 l1 y1 s1 _. (
    more g1 l1 (answered first Call.gettid t) s1,
    λ o g2 l2 y2 s2 _. Keeps-assert contract first Told (o.result =ℤ= pos 0) _ g2 _ λ _.
        Keeps-assert contract first Told (same_handler o.old_act.handler (System.function 0)) _ g2 _
          λ e.
            let got = answered first Call.gettid t in
            let asked = answered first (Call.sigaction_query System.sigusr1) o in
            let read : ReadOwn asked =
              (refl, refl, same_handler-eq o.old_act.handler (System.function 0) e) in
            let here2 =
              since (Answers IsChildSide) got l1 l2 y2
                (Later-Any (λ _. Unit) first (Answers IsChildSide) l l1 y1 here) in
            (
              more g2 l2 asked s2,
              λ a g3 l3 y3 s3 _. Keeps-assert contract first Told (a.result =ℤ= pos 0) _ g3 _ λ _.
                  let set = answered first (Call.sigaction System.sigusr2 sa) a in
                  let read3 =
                    Later-Any (λ _. Unit) first ReadOwn (l2 ++ asked ∷ []) l3 y3
                      (Any-last ReadOwn l2 asked read) in
                  (
                    more g3 l3 set s3,
                    λ q g4 l4 y4 s4 _.
                        let raised = answered first (Call.raise System.sigusr1) q in
                        (
                          more g4 l4 raised s4,
                          (
                            Any-more (Answers IsChildSide) l4 (raised ∷ []) (
                                since (Answers IsChildSide) set l3 l4 y4
                                  (since (Answers IsChildSide) asked l2 l3 y3 here2)),
                            Any-more ReadOwn l4 (raised ∷ []) (since ReadOwn set l3 l4 y4 read3),
                          ),
                        ),
                  ),
            ),
  ),
)

child-Keeps :
    (g : Globals) (l : List Entry)
    → contract.Shared g l
    → Any (Answers IsChildSide) l
    → Keeps contract first Seen child g l
unfolding child
child-Keeps g l s here =
    Keeps-bind contract first Told Seen thread_main _ g l (thread_main-Keeps g l s here)
      (λ _ h m s' (side, own).
        Keeps-assert contract first Seen h.is_ok (pure 0) h m
          λ ok. (s', λ _. inl (side, own, s' ok)))

-- The parent behind its waitpid(2).
last_query : ℤ → Reply → Prog Globals ℕ
last_query pid w = do
  if w.result =ℤ= System.minus_one
      then exit 1
      else assert (System.wifexited w.status && (System.wexitstatus w.status == 0))
  old ← sys (Call.sigaction_query System.sigusr2)
  assert (old.result =ℤ= pos 0)
  assert (same_handler old.old_act.handler System.sig_dfl)
  pure 0

last_query-Keeps :
    (pid : ℤ) (w : Reply) (g : Globals) (l : List Entry)
    → contract.Shared g (l ++ answered first (Call.waitpid pid 0) w ∷ [])
    → Keeps contract first Seen
        (last_query pid w)
        g
        (l ++ answered first (Call.waitpid pid 0) w ∷ [])
unfolding last_query
last_query-Keeps pid w g l s = elim (Bool-cases (w.result =ℤ= System.minus_one)) [
  | inl e ↦ rw e (λ x. absurd (omega arith))
  | inr e ↦
      let waited = answered first (Call.waitpid pid 0) w in
      rw e (
        Keeps-assert contract first Seen
          (System.wifexited w.status && (System.wexitstatus w.status == 0)) _ g (l ++ waited ∷ [])
          λ well.
            let has : HasWaited first (Call.waitpid pid 0) w =
              ((pid, refl), (exited_well w.status well).0, (exited_well w.status well).1) in
            (
              s,
              λ o i m y s' _. Keeps-assert contract first Seen (o.result =ℤ= pos 0) _ i _ λ _.
                  Keeps-assert contract first Seen (same_handler o.old_act.handler System.sig_dfl)
                    (pure 0) i _
                    λ d.
                      let asked = answered first (Call.sigaction_query System.sigusr2) o in
                      (
                        more i m asked s',
                        λ _. inr (
                          Any-more (Answers HasWaited) m (asked ∷ []) (
                              Later-Any (λ _. Unit) first (Answers HasWaited) (l ++ waited ∷ []) m y
                                (Any-last (Answers HasWaited) l waited has)),
                          Any-last ReadDefault m asked
                              (refl, refl, same_handler-eq o.old_act.handler System.sig_dfl d),
                        ),
                      ),
            ))
]

parent-Keeps :
    (pid : ℤ) (g : Globals) (l : List Entry)
    → contract.Shared g l
    → Keeps contract first Seen (parent pid) g l
unfolding parent last_query
parent-Keeps pid g l s = (
  s,
  λ w i k _ s' _. last_query-Keeps pid w i k (more i k (answered first (Call.waitpid pid 0) w) s'),
)

main-Keeps : Keeps contract first Seen main initial []
unfolding main
main-Keeps = (
  (λ x. absurd (cc x)),
  λ t g1 l1 _ s1 _. (
    more g1 l1 (answered first Call.gettid t) s1,
    λ a g2 l2 _ s2 _. Keeps-assert contract first Seen (a.result =ℤ= pos 0) _ g2 _ λ _. (
      more g2 l2 (answered first (Call.sigaction System.sigusr1 sa) a) s2,
      λ pid g3 l3 _ s3 _.
          let forked = answered first Call.fork pid in
          let g4 : Globals = record g3 { child_tid = pid.result } in
          elim (Bool-cases (pid.result =ℤ= pos 0)) [
            | inl e ↦ rw e (
                child-Keeps g4 (l3 ++ forked ∷ []) (more g3 l3 forked s3) (
                  Any-last (Answers IsChildSide) l3 forked
                    (refl, (=ℤ=_iff pid.result (pos 0)).0 e)))
            | inr e ↦ rw e (parent-Keeps pid.result g4 (l3 ++ forked ∷ []) (more g3 l3 forked s3))
          ],
    ),
  ),
)

-- One process.
abbrev pub process : List Event → Option (Machine Globals)
process vs = fire_all signal_handler (pure 0) vs (begin signal_handler (pure 0) main initial)

process_seen :
    (vs : List Event) (m : Machine Globals)
    → process vs ≡ some m
    → m.status ≡ some 0
    → (Any (Answers IsChildSide) m.log × Any ReadOwn m.log × Any Runs m.log)
      ⊎ (Any (Answers HasWaited) m.log × Any ReadDefault m.log)
process_seen vs m e z =
    sound contract Seen (λ g l r. more g l (answered second Call.thread_start r)) (λ l l' h. tt)
      signal_handler (pure 0) handles (λ g l h. (h, tt)) main initial vs m main-Keeps e z refl

-- Two processes, whatever the system does to each of them: if the parent ends with 0, to which fork(2)
-- has not answered 0 and waitpid(2) has told how the child has ended, and the child has not waited for a
-- child of its own, then the child has read the action that the parent had set and a handler has started
-- in it, and the parent has read the default action of the signal that the child sets an action for.
pub signal_table_fork_apart :
    (vs us : List Event) (p c : Machine Globals) (n : ℕ)
    → process vs ≡ some p
    → process us ≡ some c
    → ¬ Any (Answers IsChildSide) p.log
    → ¬ Any (Answers HasWaited) c.log
    → n < 256
    → c.status ≡ some n
    → TellsEnd n p.log
    → p.status ≡ some 0
    → Any ReadOwn c.log × Any Runs c.log × Any ReadDefault p.log
signal_table_fork_apart vs us p c n e d side other small ended tells z =
    elim (process_seen vs p e z) [
      | inl (here, _, _) ↦ absurd (side here)
      | inr (waited, default) ↦
          let zero_end : n ≡ 0 = status_of_child n p.log small tells waited in
          elim (process_seen us c d (rw (ended, zero_end) refl)) [
            | inl (_, own, runs) ↦ (own, runs, default)
            | inr (waits, _) ↦ absurd (other waits)
          ]
    ]
