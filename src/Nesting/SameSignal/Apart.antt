-- ===== src/Nesting/SameSignal/Apart.antt =====
-- What passing runs of src/same-signal.cpp say of its handlers, one of which raises its own signal.
use signal_tests.Base.{
  ℕ, ◌+◌, ◌≡◌, ◌⊎◌, inl, inr, refl, arith, Bool, Bool-cases, subst, true, false, not, List, [], ◌∷◌,
  ◌++◌, some, ◌==◌, ==_iff,
}
use mathlib.Core.List.{append_assoc, append-nil}
use signal_tests.Program.{pure}
use signal_tests.System
use signal_tests.System.{Frame, Call, Reply, Ucontext}
use signal_tests.Threads.{
  Thread, first, Event, Entry, answered, started, Machine, fire_all, begin, Any, Any-more, Any-last,
  Answers, Contract, Keeps, Keeps-assert, starts, starts-append, sound,
}
use signal_tests.Nesting.SameSignal.{Globals, initial, signal_handler, main}

-- A raise(3) of the signal has returned.
abbrev pub IsRaised : Thread → Call → Reply → Type 0
IsRaised t c r = c ≡ Call.raise System.sigusr1

-- A handler may start: it is the first one, or a raise(3) has returned before it.
abbrev pub IsFree : List Entry → Type 0
IsFree past = (starts past ≡ 0) ⊎ Any (Answers IsRaised) past

-- Each handler of the second list has started so, when the first list had happened.
abbrev pub AreApart : List Entry → List Entry → Type 0
AreApart past [] = Unit
AreApart past (answered t c r ∷ l) = AreApart (past ++ answered t c r ∷ []) l
AreApart past (started t f ∷ l) = IsFree past × AreApart (past ++ started t f ∷ []) l

AreApart-start :
    (past l : List Entry) (t : Thread) (f : Frame)
    → AreApart past l
    → IsFree (past ++ l)
    → AreApart past (l ++ started t f ∷ [])
AreApart-start past [] t f h free = (subst IsFree (append-nil past) free, tt)
AreApart-start past (answered u c r ∷ l) t f h free =
    AreApart-start (past ++ answered u c r ∷ []) l t f h
      (rw (append_assoc past (answered u c r ∷ []) l) free)
AreApart-start past (started u g ∷ l) t f h free = (
  h.0,
  AreApart-start (past ++ started u g ∷ []) l t f h.1
      (rw (append_assoc past (started u g ∷ []) l) free),
)

AreApart-answer :
    (past l : List Entry) (t : Thread) (c : Call) (r : Reply)
    → AreApart past l
    → AreApart past (l ++ answered t c r ∷ [])
AreApart-answer past [] t c r h = tt
AreApart-answer past (answered u d q ∷ l) t c r h =
    AreApart-answer (past ++ answered u d q ∷ []) l t c r h
AreApart-answer past (started u g ∷ l) t c r h =
    (h.0, AreApart-answer (past ++ started u g ∷ []) l t c r h.1)

-- At every call the count is that of the handlers; while none of them is inside, another may start.
abbrev contract : Contract Globals
contract = record {
  Shared =
      λ g l. (g.count ≡ starts l) × AreApart [] l × ((g.inside_signal_handler ≡ true) ⊎ IsFree l);
  Good = λ f. Unit;
  Joined = λ l. Unit;
}

Shared-answer :
    (g : Globals) (l : List Entry) (t : Thread) (c : Call) (r : Reply)
    → contract.Shared g l
    → contract.Shared g (l ++ answered t c r ∷ [])
Shared-answer g l t c r (cnt, apart, gate) = (
  omega (arith, starts-append l (answered t c r ∷ [])),
  AreApart-answer [] l t c r apart,
  elim gate [
    | inl inside ↦ inl inside
    | inr (inl fresh) ↦ inr (inl (omega (arith, starts-append l (answered t c r ∷ []))))
    | inr (inr raised) ↦ inr (inr (Any-more (Answers IsRaised) l (answered t c r ∷ []) raised))
  ],
)

gate-opens : (b : Bool) (P : Type 0) → (b ≡ true) ⊎ P → not b ≡ true → P
gate-opens true P (inl e) out = cc
gate-opens true P (inr p) out = p
gate-opens false P (inl e) out = cc
gate-opens false P (inr p) out = p

handles :
    (t : Thread) (f : Frame) (g : Globals) (l : List Entry)
    → contract.Shared g l
    → Keeps contract t (λ _ _. Unit) (signal_handler f) g (l ++ started t f ∷ [])
unfolding signal_handler
handles t f g l (cnt, apart, gate) =
    let l1 = l ++ started t f ∷ [] in
    Keeps-assert contract t _ (not g.inside_signal_handler) _ g l1 λ out.
      let free = gate-opens g.inside_signal_handler (IsFree l) gate out in
      let grown : g.count + 1 ≡ starts l1 = omega (arith, starts-append l (started t f ∷ [])) in
      let apart1 = AreApart-start [] l t f apart free in
      elim (Bool-cases (g.count + 1 == 1)) [
        | inl e ↦
            rw (e, Keeps)
              (
                (grown, apart1, inl refl),
                λ r i l' _ s _.
                    let (cnt', apart', _) = Shared-answer i l' t (Call.raise System.sigusr1) r s in
                    (
                      (
                        cnt',
                        apart',
                        inr (
                            inr (
                              Any-last (Answers IsRaised) l'
                                (answered t (Call.raise System.sigusr1) r) refl)),
                      ),
                      tt,
                    ),
              )
        | inr e ↦
            rw (e, Keeps)
              (
                (
                  grown,
                  apart1,
                  inr (elim free [
                    | inl fresh ↦ absurd (ground arith)
                    | inr raised ↦ inr (Any-more (Answers IsRaised) l (started t f ∷ []) raised)
                  ]),
                ),
                tt,
              )
      ]

Seen : ℕ → List Entry → Type 0
Seen a l = a ≡ 0 → (starts l ≡ 2) × AreApart [] l

main-Keeps : Keeps contract first Seen main initial []
unfolding main Seen
main-Keeps = (
  (refl, tt, inr (inl refl)),
  λ a g1 l1 _ s1 _. (
    Shared-answer g1 l1 first _ a s1,
    λ r g2 l2 _ s2 _.
        let s3 = Shared-answer g2 l2 first (Call.raise System.sigusr1) r s2 in
        Keeps-assert contract first Seen (g2.count == 2) (pure 0) g2
          (l2 ++ answered first (Call.raise System.sigusr1) r ∷ [])
          λ e.
            let two : g2.count ≡ 2 = (==_iff g2.count 2).0 e in
            (s3, λ _. (omega (arith, s3.0), s3.1)),
  ),
)

-- Whatever the system does and whenever it starts handlers: in a run that ends with 0 the handler has
-- started exactly twice, the second time only when a raise(3) of the signal had returned.
pub same_signal_apart :
    (vs : List Event) (m : Machine Globals)
    → fire_all signal_handler (pure 0) vs (begin signal_handler (pure 0) main initial) ≡ some m
    → m.status ≡ some 0
    → (starts m.log ≡ 2) × AreApart [] m.log
unfolding Seen
same_signal_apart vs m e z =
    sound contract Seen (λ g l r s. Shared-answer g l _ Call.thread_start r s) (λ l l' h. tt)
      signal_handler (pure 0) handles (λ g l h. (h, tt)) main initial vs m main-Keeps e z refl
