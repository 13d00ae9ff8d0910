-- ===== src/Threads/Standing.antt =====
-- Where the two threads of a process stand between two events, and what holds there.
use signal_tests.Base.{ℕ, ◌≡◌, arith, true, List, ◌++◌, Option, none, some, pos, ◌=ℤ=◌, =ℤ=_iff}
use signal_tests.Program.{Prog, ret, exit, call, get, put, spin}
use signal_tests.System.{Call, Reply}
use signal_tests.Threads.Model.{
  Thread, first, second, Entry, Machine, advance, settle_main, settle_child, admitted, is_join,
  has_returned,
}
use signal_tests.Threads.Log.{Later}
use signal_tests.Threads.Conditions.{Contract, Tells, Keeps, Keeps-wait}

admitted_join :
    {G : Type 0} (c : Call) (r : Reply) (o : Option (Prog G ℕ))
    → admitted c r o ≡ true
    → is_join c ≡ true
    → r.result =ℤ= pos 0 ≡ true
    → has_returned o ≡ true
admitted_join c r o e j z = ground arith

module _ {G : Type 0} where
  -- A thread stands at a call, at its end, or spins.
  abbrev pub Stops : Prog G ℕ → Type 0
  Stops (get k) = ⊥
  Stops (put g p) = ⊥
  Stops p = Unit

  -- The second thread may have returned.
  abbrev pub Stands : Prog G ℕ → Type 0
  Stands (ret a) = Unit
  Stands (call c k) = Unit
  Stands spin = Unit
  Stands p = ⊥

  -- `main` has not.
  abbrev pub Waits : Prog G ℕ → Type 0
  Waits (call c k) = Unit
  Waits spin = Unit
  Waits p = ⊥

  pub advance-Stops : (p : Prog G ℕ) (g : G) → Stops (advance p g).0
  advance-Stops (ret a) g = tt
  advance-Stops (exit n) g = tt
  advance-Stops (call c k) g = tt
  advance-Stops (get k) g = advance-Stops (k g) g
  advance-Stops (put h p) g = advance-Stops p h
  advance-Stops spin g = tt

module _ {G : Type 0} (contract : Contract G) where
  open contract use {Shared, Good, Joined}

  pub advance-Keeps :
      (t : Thread) (Q : ℕ → List Entry → Type 0) (p : Prog G ℕ) (g : G) (l : List Entry)
      → Keeps contract t Q p g l
      → Keeps contract t Q (advance p g).0 (advance p g).1 l
  advance-Keeps t Q (ret a) g l h = h
  advance-Keeps t Q (exit n) g l h = h
  advance-Keeps t Q (call c k) g l h = h
  advance-Keeps t Q (get k) g l h = advance-Keeps t Q (k g) g l h
  advance-Keeps t Q (put i p) g l h = advance-Keeps t Q p i l h
  advance-Keeps t Q spin g l h = h

  abbrev pub Child : Option (Prog G ℕ) → G → List Entry → Type 0
  Child none g l = Unit
  Child (some p) g l = Stands p × Keeps contract second (λ _. Joined) p g l

  pub returned-Joined :
      (o : Option (Prog G ℕ)) (g : G) (l : List Entry)
      → has_returned o ≡ true
      → Child o g l
      → Joined l
  returned-Joined none g l e k = cc
  returned-Joined (some (ret a)) g l e k = k.1.1
  returned-Joined (some (exit n)) g l e k = absurd (k.0)
  returned-Joined (some (call c q)) g l e k = cc
  returned-Joined (some (get q)) g l e k = absurd (k.0)
  returned-Joined (some (put i q)) g l e k = absurd (k.0)
  returned-Joined (some spin) g l e k = cc

  pub tells :
      (c : Call) (r : Reply) (o : Option (Prog G ℕ)) (g : G) (l : List Entry)
      → admitted c r o ≡ true
      → Child o g l
      → Tells contract c r l
  tells c r o g l e k =
      λ j z. returned-Joined o g l (admitted_join c r o e j ((=ℤ=_iff r.result (pos 0)).1 z)) k

  -- What the second thread has told stays true.
  module _ (Joined-more : (l more : List Entry) → Joined l → Joined (l ++ more)) where
    -- A thread that does nothing while the other one does.
    pub Child-wait :
        (o : Option (Prog G ℕ)) (g h : G) (l l' : List Entry)
        → Later Good second l l'
        → Shared h l'
        → Child o g l
        → Child o h l'
    Child-wait none g h l l' x s k = tt
    Child-wait (some (ret a)) g h l l' (m, e, _) s (_, (_, j)) = (tt, (s, rw e (Joined-more l m j)))
    Child-wait (some (exit n)) g h l l' x s k = absurd (k.0)
    Child-wait (some (call c q)) g h l l' x s (_, k) =
        (tt, Keeps-wait contract second (λ _. Joined) c q g h l l' x s k)
    Child-wait (some (get q)) g h l l' x s k = absurd (k.0)
    Child-wait (some (put i q)) g h l l' x s k = absurd (k.0)
    Child-wait (some spin) g h l l' x s k = (tt, s)

  module _ (Q : ℕ → List Entry → Type 0) where
    pub Main-wait :
        (p : Prog G ℕ) (g h : G) (l l' : List Entry)
        → Later Good first l l'
        → Shared h l'
        → Waits p
        → Keeps contract first Q p g l
        → Keeps contract first Q p h l'
    Main-wait (ret a) g h l l' x s w k = absurd w
    Main-wait (exit n) g h l l' x s w k = absurd w
    Main-wait (call c q) g h l l' x s w k = Keeps-wait contract first Q c q g h l l' x s k
    Main-wait (get q) g h l l' x s w k = absurd w
    Main-wait (put i q) g h l l' x s w k = absurd w
    Main-wait spin g h l l' x s w k = s

    abbrev pub IsSoundAt : Option ℕ → Machine G → Type 0
    IsSoundAt (some n) m = n ≡ 0 → Q 0 m.log
    IsSoundAt none m =
        Shared m.globals m.log
        × (Waits m.main × Keeps contract first Q m.main m.globals m.log)
        × Child m.child m.globals m.log

    abbrev pub IsSound : Machine G → Type 0
    IsSound m = IsSoundAt m.status m

    abbrev pub Surely : Option (Machine G) → Type 0
    Surely none = Unit
    Surely (some m) = IsSound m

    pub settle_main-IsSound :
        (m : Machine G) (p : Prog G ℕ) (g : G)
        → m.status ≡ none
        → Stops p
        → Keeps contract first Q p g m.log
        → ((h : G) → Shared h m.log → Child m.child h m.log)
        → IsSound (settle_main m (p, g))
    settle_main-IsSound m (ret a) g e st k c = λ z. rw (← z) (k.1)
    settle_main-IsSound m (exit n) g e st k c = λ z. absurd (k z)
    settle_main-IsSound m (call c' q) g e st k c = rw e (k.0, (tt, k), c g (k.0))
    settle_main-IsSound m (get q) g e st k c = absurd st
    settle_main-IsSound m (put i q) g e st k c = absurd st
    settle_main-IsSound m spin g e st k c = rw e (k, (tt, k), c g k)

    pub settle_child-IsSound :
        (m : Machine G) (p : Prog G ℕ) (g : G)
        → m.status ≡ none
        → Stops p
        → Keeps contract second (λ _. Joined) p g m.log
        → ((h : G) → Shared h m.log → Waits m.main × Keeps contract first Q m.main h m.log)
        → IsSound (settle_child m (p, g))
    settle_child-IsSound m (ret a) g e st k c = rw e (k.0, c g (k.0), (tt, k))
    settle_child-IsSound m (exit n) g e st k c = λ z. absurd (k z)
    settle_child-IsSound m (call c' q) g e st k c = rw e (k.0, c g (k.0), (tt, k))
    settle_child-IsSound m (get q) g e st k c = absurd st
    settle_child-IsSound m (put i q) g e st k c = absurd st
    settle_child-IsSound m spin g e st k c = rw e (k, c g k, (tt, k))
