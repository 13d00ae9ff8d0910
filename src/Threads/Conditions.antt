-- ===== src/Threads/Conditions.antt =====
-- A condition to verify for a thread: what it relies on at each call, and what it leaves to the others.
use signal_tests.Base.{
  ℕ, if◌then◌else◌, ◌≡◌, ◌≢◌, refl, arith, Bool, true, false, List, [], ◌∷◌, ◌++◌, pos,
}
use signal_tests.Program.{Prog, ret, exit, call, get, put, spin, ◌>>=◌, ◌>>◌, assert, pure}
use signal_tests.System.{Frame, Call, Reply}
use signal_tests.Threads.Model.{Thread, Entry, answered, is_join}
use signal_tests.Threads.Log.{Later, Later-entry, Later-trans}

-- What holds at every call whichever thread goes on; what a handler leaves behind in its thread; and
-- what is true of the log once the second thread has returned.
pub record Contract (G : Type 0) : Type 1 where
  pub Shared : G → List Entry → Type 0
  pub Good : Frame → Type 0
  pub Joined : List Entry → Type 0

module _ {G : Type 0} (contract : Contract G) where
  open contract use {Shared, Good, Joined}

  -- What an answer tells by itself.
  abbrev pub Tells : Call → Reply → List Entry → Type 0
  Tells c r l = is_join c ≡ true → r.result ≡ pos 0 → Joined l

  -- Thread `t` goes on with this piece of code, with these globals and this log: whatever the other
  -- thread, the handlers and the answers do, a return has `Q`.
  abbrev pub Keeps :
      {A : Type 0} → Thread → (A → List Entry → Type 0) → Prog G A → G → List Entry → Type 0
  Keeps t Q (ret a) g l = Shared g l × Q a l
  Keeps t Q (exit n) g l = n ≢ 0
  Keeps t Q (call c k) g l =
      Shared g l
      × ((r : Reply) (h : G) (l' : List Entry)
          → Later Good t l l'
          → Shared h l'
          → Tells c r l'
          → Keeps t Q (k r) h (l' ++ answered t c r ∷ []))
  Keeps t Q (get k) g l = Keeps t Q (k g) g l
  Keeps t Q (put h p) g l = Keeps t Q p h l
  Keeps t Q spin g l = Shared g l

  module _ (t : Thread) where
    -- At a return the log has grown.
    pub Keeps-track :
        {A : Type 0} (Q : A → List Entry → Type 0) (p : Prog G A) (g : G) (l m : List Entry)
        → Later Good t l m
        → Keeps t Q p g m
        → Keeps t (λ a l'. Later Good t l l' × Q a l') p g m
    Keeps-track Q (ret a) g l m x h = (h.0, (x, h.1))
    Keeps-track Q (exit n) g l m x h = h
    Keeps-track Q (call c k) g l m x (j, h) = (
      j,
      λ r i l' y s e.
          Keeps-track Q (k r) i l (l' ++ answered t c r ∷ [])
            (Later-trans Good t l l' (l' ++ answered t c r ∷ []) (Later-trans Good t l m l' x y)
              (Later-entry Good t l' (answered t c r) tt))
            (h r i l' y s e),
    )
    Keeps-track Q (get k) g l m x h = Keeps-track Q (k g) g l m x h
    Keeps-track Q (put i p) g l m x h = Keeps-track Q p i l m x h
    Keeps-track Q spin g l m x h = h

    pub Keeps-bind :
        {A B : Type 0} (R : A → List Entry → Type 0) (Q : B → List Entry → Type 0) (p : Prog G A)
        (f : A → Prog G B) (g : G) (l : List Entry)
        → Keeps t R p g l
        → ((a : A) (h : G) (l' : List Entry) → Shared h l' → R a l' → Keeps t Q (f a) h l')
        → Keeps t Q (p >>= f) g l
    Keeps-bind R Q (ret a) f g l h next = next a g l h.0 h.1
    Keeps-bind R Q (exit n) f g l h next = h
    Keeps-bind R Q (call c k) f g l (j, h) next = (
      j,
      λ r i l' y s e. Keeps-bind R Q (k r) f i (l' ++ answered t c r ∷ []) (h r i l' y s e) next,
    )
    Keeps-bind R Q (get k) f g l h next = Keeps-bind R Q (k g) f g l h next
    Keeps-bind R Q (put i p) f g l h next = Keeps-bind R Q p f i l h next
    Keeps-bind R Q spin f g l h next = h

    pub Keeps-assert :
        {A : Type 0} (Q : A → List Entry → Type 0) (b : Bool) (q : Prog G A) (g : G)
        (l : List Entry)
        → (b ≡ true → Keeps t Q q g l)
        → Keeps t Q (assert b >> q) g l
    Keeps-assert Q true q g l h = h refl
    Keeps-assert Q false q g l h = λ e. absurd (omega arith)

    pub Keeps-guard :
        {A : Type 0} (Q : A → List Entry → Type 0) (b : Bool) (n : ℕ) (q : Prog G A) (g : G)
        (l : List Entry)
        → n ≢ 0
        → (b ≡ true → Keeps t Q q g l)
        → Keeps t Q ((if b then pure tt else exit n) >> q) g l
    Keeps-guard Q true n q g l fails h = h refl
    Keeps-guard Q false n q g l fails h = fails

    pub Keeps-test :
        (Q : Unit {0} → List Entry → Type 0) (b : Bool) (g : G) (l : List Entry)
        → Shared g l
        → (b ≡ true → Q tt l)
        → Keeps t Q (assert b) g l
    Keeps-test Q true g l j h = (j, h refl)
    Keeps-test Q false g l j h = λ e. absurd (omega arith)

    -- A thread that waits, and has nothing of its own in the log since.
    pub Keeps-wait :
        {A : Type 0} (Q : A → List Entry → Type 0) (c : Call) (k : Reply → Prog G A) (g h : G)
        (l l' : List Entry)
        → Later Good t l l'
        → Shared h l'
        → Keeps t Q (call c k) g l
        → Keeps t Q (call c k) h l'
    Keeps-wait Q c k g h l l' x s (j, next) =
        (s, λ r i l'' y s' e. next r i l'' (Later-trans Good t l l' l'' x y) s' e)
