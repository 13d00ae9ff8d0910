-- ===== src/Inherit/SignalTableThread/Shared.antt =====
-- What a passing run of src/signal-table-thread.cpp says of the actions.
use signal_tests.Base.{
  ℕ, ◌≡◌, ◌≢◌, refl, inl, inr, true, List, [], ◌∷◌, ◌++◌, pos, ◌==◌, ==_iff, ◌=ℤ=◌, =ℤ=_iff, some,
  Bool-cases,
}
use signal_tests.Program.{pure}
use signal_tests.System
use signal_tests.System.{Frame, Call, Reply, Arch, Ucontext, Handler, same_handler}
use signal_tests.Threads.{
  Thread, first, second, Event, Entry, answered, started, Machine, fire_all, begin, Any, Any-more,
  Any-last, Answers, Starts, Later, Later-Any, Contract, Keeps, Keeps-assert, sound,
}
use signal_tests.Inherit.Table.{HasAction, same_handler-eq}
use signal_tests.Inherit.SignalTableThread.{
  Globals, initial, first_handler, second_handler, signal_handler, signal_handler2, handlers,
  thread_main, main, sa2,
}

-- A signal has reached the first of the handlers, or the other one.
abbrev pub RunsFirst : Entry → Type 0
RunsFirst = Starts (λ t f. f.target ≡ first_handler)

abbrev pub RunsSecond : Entry → Type 0
RunsSecond = Starts (λ t f. f.target ≢ first_handler)

abbrev pub ReadFirst : Entry → Type 0
ReadFirst = Answers (HasAction second System.sigusr1 (System.function first_handler))

abbrev pub ReadSecond : Entry → Type 0
ReadSecond = Answers (HasAction first System.sigusr2 (System.function second_handler))

-- The flags tell of the handlers.
abbrev contract : Contract Globals
contract = record {
  Shared = λ g l. (g.is_ok ≡ true → Any RunsFirst l) × (g.is_ok2 ≡ true → Any RunsSecond l);
  Good = λ f. Unit;
  Joined = λ l. Any ReadFirst l;
}

more :
    (g : Globals) (l : List Entry) (e : Entry)
    → contract.Shared g l
    → contract.Shared g (l ++ e ∷ [])
more g l e (a, b) =
    ((λ x. Any-more RunsFirst l (e ∷ []) (a x)), λ x. Any-more RunsSecond l (e ∷ []) (b x))

since :
    (P : Entry → Type 0) (t : Thread) (e : Entry) (l m : List Entry)
    → Later (λ _. Unit) t (l ++ e ∷ []) m
    → Any P l
    → Any P m
since P t e l m y h = Later-Any (λ _. Unit) t P (l ++ e ∷ []) m y (Any-more P l (e ∷ []) h)

now :
    (P : Entry → Type 0) (t : Thread) (e : Entry) (l m : List Entry)
    → Later (λ _. Unit) t (l ++ e ∷ []) m
    → P e
    → Any P m
now P t e l m y h = Later-Any (λ _. Unit) t P (l ++ e ∷ []) m y (Any-last P l e h)

first-Keeps :
    (t : Thread) (f : Frame) (g : Globals) (l : List Entry)
    → f.target ≡ first_handler
    → contract.Shared g l
    → Keeps contract t (λ _ _. Unit) (signal_handler f) g (l ++ started t f ∷ [])
unfolding signal_handler
first-Keeps t f g l here h = (
  more g l (started t f) h,
  λ r i l' y s _.
      Keeps-assert contract t (λ _ _. Unit) (i.child_tid =ℤ= r.result) _ i _
        λ _.
          let e = answered t Call.gettid r in
          (
            (
              (λ _. Any-more RunsFirst l' (e ∷ []) (now RunsFirst t (started t f) l l' y here)),
              (more i l' e s).1,
            ),
            tt,
          ),
)

second-Keeps :
    (t : Thread) (f : Frame) (g : Globals) (l : List Entry)
    → f.target ≢ first_handler
    → contract.Shared g l
    → Keeps contract t (λ _ _. Unit) (signal_handler2 f) g (l ++ started t f ∷ [])
unfolding signal_handler2
second-Keeps t f g l here h = (
  more g l (started t f) h,
  λ r i l' y s _.
      Keeps-assert contract t (λ _ _. Unit) (i.parent_tid =ℤ= r.result) _ i _
        λ _.
          let e = answered t Call.gettid r in
          (
            (
              (more i l' e s).0,
              λ _. Any-more RunsSecond l' (e ∷ []) (now RunsSecond t (started t f) l l' y here),
            ),
            tt,
          ),
)

handles :
    (t : Thread) (f : Frame) (g : Globals) (l : List Entry)
    → contract.Shared g l
    → Keeps contract t (λ _ _. Unit) (handlers f) g (l ++ started t f ∷ [])
unfolding handlers
handles t f g l h = elim (Bool-cases (f.target == first_handler)) [
  | inl e ↦ rw e (first-Keeps t f g l ((==_iff f.target first_handler).0 e) h)
  | inr e ↦
      rw e
        (second-Keeps t f g l (λ same. absurd (cc (e, (==_iff f.target first_handler).1 same))) h)
]

threads :
    (g : Globals) (l : List Entry)
    → contract.Shared g l
    → Keeps contract second (λ _ l'. Any ReadFirst l') thread_main g l
unfolding thread_main
threads g l h = (
  h,
  λ r g1 l1 _ s1 _. (
    more g1 l1 (answered second Call.gettid r) s1,
    λ o g2 l2 _ s2 _. Keeps-assert contract second Read (o.result =ℤ= pos 0) _ g2 _ λ _.
        Keeps-assert contract second Read
          (same_handler o.old_act.handler (System.function first_handler)) _ g2 _
          λ e.
            let asked = answered second (Call.sigaction_query System.sigusr1) o in
            let read : HasAction second System.sigusr1 (System.function first_handler) second
                (Call.sigaction_query System.sigusr1) o =
              (refl, refl, same_handler-eq o.old_act.handler (System.function first_handler) e) in
            (
              more g2 l2 asked s2,
              λ a g3 l3 y3 s3 _. Keeps-assert contract second Read (a.result =ℤ= pos 0) _ g3 _ λ _.
                  let set = answered second (Call.sigaction System.sigusr2 sa2) a in
                  (
                    more g3 l3 set s3,
                    λ q g4 l4 y4 s4 _.
                        let raised = answered second (Call.raise System.sigusr1) q in
                        (
                          more g4 l4 raised s4,
                          Any-more ReadFirst l4 (raised ∷ []) (
                              since ReadFirst second set l3 l4 y4
                                (now ReadFirst second asked l2 l3 y3 read)),
                        ),
                  ),
            ),
  ),
)
  where
    Read : ℕ → List Entry → Type 0
    Read _ l' = Any ReadFirst l'

-- The actions that were read, and the handlers that ran.
abbrev Seen : ℕ → List Entry → Type 0
Seen a l = a ≡ 0 → Any ReadFirst l × Any ReadSecond l × Any RunsFirst l × Any RunsSecond l

main-Keeps : Keeps contract first Seen main initial []
unfolding main
main-Keeps = (
  ((λ x. absurd (cc x)), λ x. absurd (cc x)),
  λ t g1 l1 _ s1 _. (
    more g1 l1 (answered first Call.gettid t) s1,
    λ a g2 l2 _ s2 _. Keeps-assert contract first Seen (a.result =ℤ= pos 0) _ g2 _ λ _. (
      more g2 l2 _ s2,
      λ c g3 l3 _ s3 _. Keeps-assert contract first Seen (c.result =ℤ= pos 0) _ g3 _ λ _. (
        more g3 l3 _ s3,
        λ b g4 l4 _ s4 _. Keeps-assert contract first Seen (b.result =ℤ= pos 0) _ g4 _ λ _. (
          more g4 l4 _ s4,
          λ j g5 l5 _ s5 tells. Keeps-assert contract first Seen (j.result =ℤ= pos 0) _ g5 _ λ z.
              let joined = answered first Call.pthread_join j in
              let one = tells refl ((=ℤ=_iff j.result (pos 0)).0 z) in
              (
                more g5 l5 joined s5,
                λ o g6 l6 y6 s6 _. Keeps-assert contract first Seen (o.result =ℤ= pos 0) _ g6 _ λ _.
                    Keeps-assert contract first Seen
                      (same_handler o.old_act.handler (System.function second_handler)) _ g6 _
                      λ e.
                        let asked = answered first (Call.sigaction_query System.sigusr2) o in
                        let two : HasAction first System.sigusr2 (System.function second_handler)
                            first (Call.sigaction_query System.sigusr2) o =
                          (
                            refl,
                            refl,
                            same_handler-eq o.old_act.handler (System.function second_handler) e,
                          ) in
                        let one6 = since ReadFirst first joined l5 l6 y6 one in
                        (
                          more g6 l6 asked s6,
                          λ u g7 l7 y7 s7 _.
                              Keeps-assert contract first Seen (u.result =ℤ= pos 0) _ g7 _ λ _.
                                let unblocked =
                                  answered first
                                    (Call.sigprocmask System.sig_unblock System.sigfillset) u in
                                let one7 = since ReadFirst first asked l6 l7 y7 one6 in
                                let two7 = now ReadSecond first asked l6 l7 y7 two in
                                (
                                  more g7 l7 unblocked s7,
                                  λ q g8 l8 y8 s8 _.
                                      let raised = answered first (Call.raise System.sigusr2) q in
                                      let s9 = more g8 l8 raised s8 in
                                      Keeps-assert contract first Seen g8.is_ok _ g8 _ λ ok.
                                        Keeps-assert contract first Seen g8.is_ok2 (pure 0) g8 _
                                          λ ok2. (
                                            s9,
                                            λ _. (
                                              Any-more ReadFirst l8 (raised ∷ [])
                                                  (since ReadFirst first unblocked l7 l8 y8 one7),
                                              Any-more ReadSecond l8 (raised ∷ [])
                                                  (since ReadSecond first unblocked l7 l8 y8 two7),
                                              s9.0 ok,
                                              s9.1 ok2,
                                            ),
                                          ),
                                ),
                        ),
              ),
        ),
      ),
    ),
  ),
)

-- Whatever the system does and in whichever order the threads go on: in a run that ends with 0 the second
-- thread has read the action that the first one had set, the first one has read the action that the
-- second one had set, and both handlers have started.
pub signal_table_thread_shared :
    (vs : List Event) (m : Machine Globals)
    → fire_all handlers thread_main vs (begin handlers thread_main main initial) ≡ some m
    → m.status ≡ some 0
    → Any ReadFirst m.log × Any ReadSecond m.log × Any RunsFirst m.log × Any RunsSecond m.log
signal_table_thread_shared vs m e z =
    sound contract Seen (λ g l r. more g l (answered second Call.thread_start r))
      (λ l l'. Any-more ReadFirst l l') handlers thread_main handles threads main initial vs m
      main-Keeps e z refl
