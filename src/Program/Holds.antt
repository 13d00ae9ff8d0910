-- ===== src/Program/Holds.antt =====
-- Programs that write their globals, under handlers that make no call: a condition to verify, step by
-- step, for what a passing run has seen.
use signal_tests.Base.{
  ℕ, ◌+◌, zero, suc, List, [], ◌∷◌, ◌++◌, Option, none, some, ◌≡◌, ◌≢◌, refl, arith, Bool, true,
  false,
}
use mathlib.Core.Option.{some-injective}
use mathlib.Core.List.{append-nil, append_assoc}
use signal_tests.System.{Frame, Reply, Ucontext}
use signal_tests.Program.Defs.{
  Prog, ret, exit, call, get, put, spin, start, ◌>>◌, ◌>>=◌, assert, for,
}
use signal_tests.Program.Bind.{IsReader, settle, after, then_after}

-- From these globals, where the handlers of `fs` have started: whatever the calls answer, and whichever
-- frames a call lets in, a return has `Q`.
abbrev pub Holds :
    {G A : Type 0}
    → (Frame → Prog G Ucontext)
    → (A → G → List Frame → Type 0)
    → Prog G A
    → G
    → List Frame
    → Type 0
Holds code Q (ret a) g fs = Q a g fs
Holds code Q (exit n) g fs = n ≢ 0
Holds {G} code Q (call c k) g fs =
    (r : Reply) (gs : List Frame) (h : G)
    → after code gs g ≡ some h
    → Holds code Q (k r) h (fs ++ gs)
Holds code Q (get k) g fs = Holds code Q (k g) g fs
Holds code Q (put h p) g fs = Holds code Q p h fs
Holds code Q spin g fs = Unit

module _ {G : Type 0} (code : Frame → Prog G Ucontext) where
  pub after-both :
      (xs ys : List Frame) (g h i : G)
      → after code xs g ≡ some h
      → after code ys h ≡ some i
      → after code (xs ++ ys) g ≡ some i
  after-both [] ys g h i e d = cc
  after-both (x ∷ xs) ys g h i e d = go (settle (code x) g) e (λ j c. after-both xs ys j h i c d)
    where
      go :
          (o : Option (Ucontext × G))
          → then_after o (after code xs) ≡ some h
          → ((j : G) → after code xs j ≡ some h → after code (xs ++ ys) j ≡ some i)
          → then_after o (after code (xs ++ ys)) ≡ some i
      go none c rest = cc
      go (some (b, j)) c rest = rest j c

  pub Holds-assert :
      {A : Type 0} (Q : A → G → List Frame → Type 0) (b : Bool) (q : Prog G A) (g : G)
      (fs : List Frame)
      → (b ≡ true → Holds code Q q g fs)
      → Holds code Q (assert b >> q) g fs
  Holds-assert Q true q g fs h = h refl
  Holds-assert Q false q g fs h = λ e. absurd (omega arith)

  pub Holds-test :
      (Q : Unit {0} → G → List Frame → Type 0) (b : Bool) (g : G) (fs : List Frame)
      → (b ≡ true → Q tt g fs)
      → Holds code Q (assert b) g fs
  Holds-test Q true g fs h = h refl
  Holds-test Q false g fs h = λ e. absurd (omega arith)

  pub Holds-bind :
      {A B : Type 0} (Q : B → G → List Frame → Type 0) (p : Prog G A) (f : A → Prog G B) (g : G)
      (fs : List Frame)
      → Holds code (λ a. Holds code Q (f a)) p g fs
      → Holds code Q (p >>= f) g fs
  Holds-bind Q (ret a) f g fs h = h
  Holds-bind Q (exit n) f g fs h = h
  Holds-bind Q (call c k) f g fs h = λ r gs i e. Holds-bind Q (k r) f i (fs ++ gs) (h r gs i e)
  Holds-bind Q (get k) f g fs h = Holds-bind Q (k g) f g fs h
  Holds-bind Q (put i p) f g fs h = Holds-bind Q p f i fs h
  Holds-bind Q spin f g fs h = tt

  pub Holds-mono :
      {A : Type 0} (Q R : A → G → List Frame → Type 0) (p : Prog G A) (g : G) (fs : List Frame)
      → ((a : A) (h : G) (gs : List Frame) → Q a h gs → R a h gs)
      → Holds code Q p g fs
      → Holds code R p g fs
  Holds-mono Q R (ret a) g fs to h = to a g fs h
  Holds-mono Q R (exit n) g fs to h = h
  Holds-mono Q R (call c k) g fs to h =
      λ r gs i e. Holds-mono Q R (k r) i (fs ++ gs) to (h r gs i e)
  Holds-mono Q R (get k) g fs to h = Holds-mono Q R (k g) g fs to h
  Holds-mono Q R (put i p) g fs to h = Holds-mono Q R p i fs to h
  Holds-mono Q R spin g fs to h = tt

  -- What handlers keep.
  abbrev pub IsStable : (G → List Frame → Type 0) → Type 0
  IsStable J = (g h : G) (fs gs : List Frame) → J g fs → after code gs g ≡ some h → J h (fs ++ gs)

  -- It is enough that each handler keeps it.
  pub IsStable-step :
      (J : G → List Frame → Type 0)
      → ((g h : G) (fs : List Frame) (f : Frame) (c : Ucontext)
          → J g fs
          → settle (code f) g ≡ some (c, h)
          → J h (fs ++ f ∷ []))
      → IsStable J
  IsStable-step J step g h fs [] j e =
      let same : g ≡ h = some-injective g h e in rw (append-nil fs, ← same) j
  IsStable-step J step g h fs (f ∷ gs) j e =
      rw (← append_assoc fs (f ∷ []) gs)
        (go (settle (code f) g) refl e (λ i d. IsStable-step J step i h (fs ++ f ∷ []) gs d))
    where
      go :
          (o : Option (Ucontext × G))
          → settle (code f) g ≡ o
          → then_after o (after code gs) ≡ some h
          → ((i : G) → J i (fs ++ f ∷ []) → after code gs i ≡ some h → J h ((fs ++ f ∷ []) ++ gs))
          → J h ((fs ++ f ∷ []) ++ gs)
      go none d e' rest = cc
      go (some (c, i)) d e' rest = rest i (step g i fs f c j d) e'

  pub Holds-reader :
      {A : Type 0} (J : G → List Frame → Type 0)
      → IsStable J
      → (p : Prog G A) (g : G) (fs : List Frame) → IsReader p
      → J g fs
      → Holds code (λ _. J) p g fs
  Holds-reader J stable (ret a) g fs reads h = h
  Holds-reader J stable (exit n) g fs reads h = reads
  Holds-reader J stable (call c k) g fs reads h =
      λ r gs i e. Holds-reader J stable (k r) i (fs ++ gs) (reads r) (stable g i fs gs h e)
  Holds-reader J stable (get k) g fs reads h = Holds-reader J stable (k g) g fs (reads g) h
  Holds-reader J stable (put i p) g fs reads h = absurd reads
  Holds-reader J stable spin g fs reads h = tt

  -- An invariant of a loop; the end is a variable with an equation.
  pub Holds-for :
      (I : ℕ → G → List Frame → Type 0) (body : ℕ → Prog G (Unit {0}))
      → ((i : ℕ) (g : G) (fs : List Frame) → I i g fs → Holds code (λ _. I (i + 1)) (body i) g fs)
      → (start count end : ℕ) (g : G) (fs : List Frame) → start + count ≡ end
      → I start g fs
      → Holds code (λ _. I end) (for start count body) g fs
  Holds-for I body keep start zero end g fs e h =
      let same : start ≡ end = omega arith in rw (← same) h
  Holds-for I body keep start (suc n) end g fs e h =
      Holds-bind (λ _. I end) (body start) (λ _. for (start + 1) n body) g fs
        (Holds-mono (λ _. I (start + 1)) _ (body start) g fs
          (λ _ h' fs' now. Holds-for I body keep (start + 1) n end h' fs' (omega arith) now)
          (keep start g fs h))
