-- ===== src/Threads/Soundness.antt =====
-- The conditions on the threads, the handlers and the end are enough, whatever the system does.
use signal_tests.Base.{
  ℕ, ◌≡◌, ◌≢◌, refl, Bool-cases, ◌&&◌, inl, inr, List, [], ◌∷◌, ◌++◌, Option, none, some, pos,
  ◌=ℤ=◌, sym, subst,
}
use mathlib.Core.List.{append_assoc}
use signal_tests.Program.{Prog, ret, exit, call, get, put, spin, ◌>>=◌}
use signal_tests.System.{Ucontext, Frame, Call, Reply}
use signal_tests.Threads.Model.{
  Thread, first, second, Event, reply, interrupt, Entry, answered, started, Machine, advance,
  admitted, is_create, birth, newborn, while_going, answer_main, answer_child, enter_main,
  enter_child, fire, fire_all, begin,
}
use signal_tests.Threads.Log.{Later, Later-now, Later-entry}
use signal_tests.Threads.Conditions.{Contract, Keeps, Keeps-track, Keeps-bind, Keeps-wait}
use signal_tests.Threads.Standing.{
  Waits, advance-Stops, advance-Keeps, Child, IsSoundAt, IsSound, Surely, Child-wait, Main-wait,
  settle_main-IsSound, settle_child-IsSound, tells,
}

other : first ≢ second
other e = cc

module _ {G : Type 0} (contract : Contract G) (Q : ℕ → List Entry → Type 0)
    (Shared-more : (g : G) (l : List Entry) (r : Reply)
      → contract.Shared g l
      → contract.Shared g (l ++ answered second Call.thread_start r ∷ []))
    (Joined-more : (l more : List Entry) → contract.Joined l → contract.Joined (l ++ more))
    (code : Frame → Prog G Ucontext) (thread_main : Prog G ℕ)
    (handles : (t : Thread) (f : Frame) (g : G) (l : List Entry)
      → contract.Shared g l
      → Keeps contract t (λ _ _. contract.Good f) (code f) g (l ++ started t f ∷ []))
    (threads : (g : G) (l : List Entry)
      → contract.Shared g l
      → Keeps contract second (λ _. contract.Joined) thread_main g l) where
  open contract use {Shared, Good, Joined}

  -- A thread that is interrupted while it waits.
  handler-Keeps :
      (t : Thread) (R : ℕ → List Entry → Type 0) (f : Frame) (c : Call) (k : Reply → Prog G ℕ)
      (g : G) (l : List Entry)
      → Shared g l
      → Keeps contract t R (call c k) g l
      → Keeps contract t R (code f >>= λ _. call c k) g (l ++ started t f ∷ [])
  handler-Keeps t R f c k g l s h =
      let l1 = l ++ started t f ∷ [] in
      Keeps-bind contract t (λ _ l'. Later Good t l1 l' × Good f) R (code f) (λ _. call c k) g l1
        (Keeps-track contract t (λ _ _. Good f) (code f) g l1 l1 (Later-now Good t l1)
          (handles t f g l s))
        (λ _ i l' s' ((m, e, clean), good).
          Keeps-wait contract t R c k g i l l'
            (started t f ∷ m, rw (e, append_assoc l (started t f ∷ []) m), ((λ _. good), clean)) s'
            h)

  newborn-Keeps :
      (g : G) (l : List Entry)
      → Shared g l
      → Keeps contract second (λ _. Joined) (newborn code thread_main) g l
  newborn-Keeps g l s = (
    s,
    λ r i l' y s' _.
        threads i (l' ++ answered second Call.thread_start r ∷ []) (Shared-more i l' r s'),
  )

  birth-Child :
      (c : Call) (r : Reply) (m : Machine G) (l : List Entry)
      → ((h : G) → Shared h l → Child contract m.child h l)
      → (h : G) → Shared h l
      → Child contract (birth code thread_main c r m).child h l
  birth-Child c r m l old h s = elim (Bool-cases (is_create c && r.result =ℤ= pos 0)) [
    | inl e ↦ rw e (tt, newborn-Keeps h l s)
    | inr e ↦ rw e (old h s)
  ]

  answer_main-IsSound :
      (m : Machine G) (r : Reply) (p : Prog G ℕ)
      → m.status ≡ none
      → Shared m.globals m.log
      → Keeps contract first Q p m.globals m.log
      → Child contract m.child m.globals m.log
      → Surely contract Q (answer_main code thread_main m r p)
  answer_main-IsSound m r (call c k) e s h o = elim (Bool-cases (admitted c r m.child)) [
    | inr refused ↦ rw refused tt
    | inl ok ↦
        let l' = m.log ++ answered first c r ∷ [] in
        let next =
          h.1 r m.globals m.log (Later-now Good first m.log) s
            (tells contract c r m.child m.globals m.log ok o) in
        let n : Machine G = record (birth code thread_main c r m) { log = l' } in
        rw ok (
          settle_main-IsSound contract Q n (advance (k r) m.globals).0 (advance (k r) m.globals).1 e
            (advance-Stops (k r) m.globals) (advance-Keeps contract first Q (k r) m.globals l' next)
            (birth-Child c r m l' (λ i s'.
              Child-wait contract Joined-more m.child m.globals i m.log l'
                (Later-entry Good second m.log (answered first c r) tt) s' o)))
  ]
  answer_main-IsSound m r (ret a) e s h o = tt
  answer_main-IsSound m r (exit n) e s h o = tt
  answer_main-IsSound m r (get k) e s h o = tt
  answer_main-IsSound m r (put i k) e s h o = tt
  answer_main-IsSound m r spin e s h o = tt

  answer_child-IsSound :
      (m : Machine G) (r : Reply) (o : Option (Prog G ℕ))
      → m.child ≡ o
      → m.status ≡ none
      → Shared m.globals m.log
      → Waits m.main × Keeps contract first Q m.main m.globals m.log
      → Child contract o m.globals m.log
      → Surely contract Q (answer_child code thread_main m r o)
  answer_child-IsSound m r none d e s h o = tt
  answer_child-IsSound m r (some (call c k)) d e s h o = elim (Bool-cases (admitted c r m.child)) [
    | inr refused ↦ rw refused tt
    | inl ok ↦
        let l' = m.log ++ answered second c r ∷ [] in
        let next =
          o.1.1 r m.globals m.log (Later-now Good second m.log) s
            (tells contract c r m.child m.globals m.log ok (rw d o)) in
        let n : Machine G = record m { log = l' } in
        rw ok (
          settle_child-IsSound contract Q n (advance (k r) m.globals).0 (advance (k r) m.globals).1
            e (advance-Stops (k r) m.globals)
            (advance-Keeps contract second (λ _. Joined) (k r) m.globals l' next)
            (λ i s'. (
              h.0,
              Main-wait contract Q m.main m.globals i m.log l'
                  (Later-entry Good first m.log (answered second c r) tt) s' h.0 h.1,
            )))
  ]
  answer_child-IsSound m r (some (ret a)) d e s h o = tt
  answer_child-IsSound m r (some (exit n)) d e s h o = tt
  answer_child-IsSound m r (some (get k)) d e s h o = tt
  answer_child-IsSound m r (some (put i k)) d e s h o = tt
  answer_child-IsSound m r (some spin) d e s h o = tt

  enter_main-IsSound :
      (m : Machine G) (f : Frame) (p : Prog G ℕ)
      → m.status ≡ none
      → Shared m.globals m.log
      → Keeps contract first Q p m.globals m.log
      → Child contract m.child m.globals m.log
      → Surely contract Q (enter_main code thread_main m f p)
  enter_main-IsSound m f (call c k) e s h o =
      let l' = m.log ++ started first f ∷ [] in
      let q = code f >>= λ _. call c k in
      settle_main-IsSound contract Q (record m { log = l' }) (advance q m.globals).0
        (advance q m.globals).1 e (advance-Stops q m.globals)
        (advance-Keeps contract first Q q m.globals l'
          (handler-Keeps first Q f c k m.globals m.log s h))
        (λ i s'.
          Child-wait contract Joined-more m.child m.globals i m.log l'
            (Later-entry Good second m.log (started first f) ((λ x. absurd (other x)), tt)) s' o)
  enter_main-IsSound m f (ret a) e s h o = tt
  enter_main-IsSound m f (exit n) e s h o = tt
  enter_main-IsSound m f (get k) e s h o = tt
  enter_main-IsSound m f (put i k) e s h o = tt
  enter_main-IsSound m f spin e s h o = tt

  enter_child-IsSound :
      (m : Machine G) (f : Frame) (o : Option (Prog G ℕ))
      → m.status ≡ none
      → Shared m.globals m.log
      → Waits m.main × Keeps contract first Q m.main m.globals m.log
      → Child contract o m.globals m.log
      → Surely contract Q (enter_child code thread_main m f o)
  enter_child-IsSound m f none e s h o = tt
  enter_child-IsSound m f (some (call c k)) e s h o =
      let l' = m.log ++ started second f ∷ [] in
      let q = code f >>= λ _. call c k in
      settle_child-IsSound contract Q (record m { log = l' }) (advance q m.globals).0
        (advance q m.globals).1 e (advance-Stops q m.globals)
        (advance-Keeps contract second (λ _. Joined) q m.globals l'
          (handler-Keeps second (λ _. Joined) f c k m.globals m.log s (o.1)))
        (λ i s'. (
          h.0,
          Main-wait contract Q m.main m.globals i m.log l'
              (Later-entry Good first m.log (started second f) ((λ x. absurd (other (sym x))), tt))
              s' h.0 h.1,
        ))
  enter_child-IsSound m f (some (ret a)) e s h o = tt
  enter_child-IsSound m f (some (exit n)) e s h o = tt
  enter_child-IsSound m f (some (get k)) e s h o = tt
  enter_child-IsSound m f (some (put i k)) e s h o = tt
  enter_child-IsSound m f (some spin) e s h o = tt

  fire-IsSound :
      (v : Event) (m : Machine G)
      → m.status ≡ none
      → Shared m.globals m.log
      → Waits m.main × Keeps contract first Q m.main m.globals m.log
      → Child contract m.child m.globals m.log
      → Surely contract Q (fire code thread_main v m)
  fire-IsSound (reply first r) m e s h o = answer_main-IsSound m r m.main e s h.1 o
  fire-IsSound (reply second r) m e s h o = answer_child-IsSound m r m.child refl e s h o
  fire-IsSound (interrupt first f) m e s h o = enter_main-IsSound m f m.main e s h.1 o
  fire-IsSound (interrupt second f) m e s h o = enter_child-IsSound m f m.child e s h o

  fire_all-IsSound :
      (vs : List Event) (m : Machine G)
      → IsSound contract Q m
      → Surely contract Q (fire_all code thread_main vs m)
  unfolding fire_all
  fire_all-IsSound [] m h = h
  fire_all-IsSound (v ∷ vs) m h = status m.status refl h λ e s main o.
      go (fire code thread_main v m) (fire-IsSound v m e s main o) (fire_all-IsSound vs)
    where
      go :
          (x : Option (Machine G))
          → Surely contract Q x
          → ((m' : Machine G)
              → IsSound contract Q m'
              → Surely contract Q (fire_all code thread_main vs m'))
          → Surely contract Q (elim x [ none ↦ none | some m' ↦ fire_all code thread_main vs m' ])
      go none k rest = tt
      go (some m') k rest = rest m' k

      status :
          (st : Option ℕ)
          → m.status ≡ st
          → IsSoundAt contract Q st m
          → (m.status ≡ none
              → Shared m.globals m.log
              → Waits m.main × Keeps contract first Q m.main m.globals m.log
              → Child contract m.child m.globals m.log
              → Surely contract Q (elim (fire code thread_main v m) [
                | none ↦ none
                | some m' ↦ fire_all code thread_main vs m'
              ]))
          → Surely contract Q (
              while_going st (elim (fire code thread_main v m) [
                | none ↦ none
                | some m' ↦ fire_all code thread_main vs m'
              ]))
      status none e k next = next e k.0 k.1 k.2
      status (some n) e k next = tt

  -- A run that ends with 0 has `Q` of what has happened.
  pub sound :
      (main : Prog G ℕ) (g : G) (vs : List Event) (m : Machine G)
      → Keeps contract first Q main g []
      → fire_all code thread_main vs (begin code thread_main main g) ≡ some m
      → m.status ≡ some 0
      → Q 0 m.log
  sound main g vs m h e z =
      let m0 : Machine G = record {
        globals = g;
        main = main;
        child = none;
        log = [];
        status = none;
      } in
      let at_first =
        settle_main-IsSound contract Q m0 (advance main g).0 (advance main g).1 refl
          (advance-Stops main g) (advance-Keeps contract first Q main g [] h) (λ i s. tt) in
      let known =
        subst (Surely contract Q) e
          (fire_all-IsSound vs (begin code thread_main main g) at_first) in
      (subst (λ x. IsSoundAt contract Q x m) z known) refl
