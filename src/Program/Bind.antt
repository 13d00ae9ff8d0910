-- ===== src/Program/Bind.antt =====
-- What a run keeps, for code that says little: rules for each form of a program.
use signal_tests.Base.{
  if◌then◌else◌, ℕ, zero, suc, ◌+◌, refl, ◌=ℤ=◌, pos, Bool, true, false, List, [], ◌∷◌, ◌++◌,
  Option, none, some, ◌≡◌, ◌≢◌, arith,
}
use signal_tests.System.{Reply, Frame}
use signal_tests.Program.Defs.{
  Prog, ret, exit, call, get, put, ◌>>=◌, Outcome, finished, exited, stopped, out_of_fuel, continue,
  spin, assert, pure, for, ◌>>◌,
}

-- Code that only reads the globals, and fails by a status other than 0.
abbrev pub IsReader : {G A : Type 0} → Prog G A → Type 0
IsReader (ret a) = Unit
IsReader (exit n) = n ≢ 0
IsReader (call c k) = (r : Reply) → IsReader (k r)
IsReader {G} (get k) = (g : G) → IsReader (k g)
IsReader (put g p) = ⊥
IsReader spin = Unit

-- Code that makes no call.
abbrev pub IsQuiet : {G A : Type 0} → Prog G A → Type 0
IsQuiet (ret a) = Unit
IsQuiet (exit n) = n ≢ 0
IsQuiet (call c k) = ⊥
IsQuiet {G} (get k) = (g : G) → IsQuiet (k g)
IsQuiet (put g p) = IsQuiet p
IsQuiet spin = Unit

-- Whatever calls answer and handlers do, a return of 0 finds globals with `Q`.
abbrev pub Ends : {G : Type 0} → (G → Type 0) → Prog G ℕ → G → Type 0
Ends Q (ret a) g = a ≡ 0 → Q g
Ends Q (exit n) g = n ≢ 0
Ends {G} Q (call c k) g = (r : Reply) (h : G) → Ends Q (k r) h
Ends Q (get k) g = Ends Q (k g) g
Ends Q (put h p) g = Ends Q p h
Ends Q spin g = Unit

module _ {G A B : Type 0} where
  pub IsReader-bind :
      (p : Prog G A) (f : A → Prog G B)
      → IsReader p
      → ((a : A) → IsReader (f a))
      → IsReader (p >>= f)
  IsReader-bind (ret a) f hp hf = hf a
  IsReader-bind (exit n) f hp hf = hp
  IsReader-bind (call c k) f hp hf = λ r. IsReader-bind (k r) f (hp r) hf
  IsReader-bind (get k) f hp hf = λ g. IsReader-bind (k g) f (hp g) hf
  IsReader-bind (put g p) f hp hf = absurd hp
  IsReader-bind spin f hp hf = tt

module _ {G A : Type 0} where
  pub Ends-bind :
      (Q : G → Type 0) (p : Prog G A) (f : A → Prog G ℕ) (g : G)
      → IsReader p
      → ((a : A) (h : G) → Ends Q (f a) h)
      → Ends Q (p >>= f) g
  Ends-bind Q (ret a) f g hp hf = hf a g
  Ends-bind Q (exit n) f g hp hf = hp
  Ends-bind Q (call c k) f g hp hf = λ r h. Ends-bind Q (k r) f h (hp r) hf
  Ends-bind Q (get k) f g hp hf = Ends-bind Q (k g) f g (hp g) hf
  Ends-bind Q (put h p) f g hp hf = absurd hp
  Ends-bind Q spin f g hp hf = tt

module _ {G A : Type 0} where
  pub IsReader-assert : (b : Bool) (q : Prog G A) → IsReader q → IsReader (assert b >> q)
  IsReader-assert true q h = h
  IsReader-assert false q h = λ e. absurd (omega arith)

  pub IsQuiet-assert : (b : Bool) (q : Prog G A) → IsQuiet q → IsQuiet (assert b >> q)
  IsQuiet-assert true q h = h
  IsQuiet-assert false q h = λ e. absurd (omega arith)

pub IsReader-guard : (G : Type 0) (b : Bool) → IsReader (assert {G = G} b)
IsReader-guard G true = tt
IsReader-guard G false = λ e. absurd (omega arith)

pub IsReader-if :
    {G A : Type 0} (b : Bool) (p q : Prog G A)
    → IsReader p
    → IsReader q
    → IsReader (if b then p else q)
IsReader-if true p q h k = h
IsReader-if false p q h k = k

pub IsReader-succeed : (G : Type 0) (r : Reply) → IsReader (assert {G = G} (r.result =ℤ= pos 0))
IsReader-succeed G r = IsReader-guard G (r.result =ℤ= pos 0)

pub IsReader-then :
    {G A : Type 0} (q : Prog G A)
    → IsReader q
    → (r : Reply) → IsReader (assert (r.result =ℤ= pos 0) >> q)
IsReader-then q h r = IsReader-assert (r.result =ℤ= pos 0) q h

pub IsReader-for :
    {G : Type 0} (start count : ℕ) (body : ℕ → Prog G (Unit {0}))
    → ((i : ℕ) → IsReader (body i))
    → IsReader (for start count body)
IsReader-for start zero body h = tt
IsReader-for start (suc n) body h =
    IsReader-bind (body start) (λ _. for (start + 1) n body) (h start)
      (λ _. IsReader-for (start + 1) n body h)

pub Ends-assert :
    {G : Type 0} (Q : G → Type 0) (b : Bool) (q : Prog G ℕ) (g : G)
    → (b ≡ true → Ends Q q g)
    → Ends Q (assert b >> q) g
Ends-assert Q true q g h = h refl
Ends-assert Q false q g h = λ z. absurd (omega arith)

-- Behind `ASSERT(call(…) == 0)`.
pub Ends-then :
    {G : Type 0} (Q : G → Type 0) (q : Prog G ℕ)
    → ((h : G) → Ends Q q h)
    → (r : Reply) (h : G) → Ends Q (assert (r.result =ℤ= pos 0) >> q) h
Ends-then Q q next r h = Ends-assert Q (r.result =ℤ= pos 0) q h λ _. next h

-- The usual end of a test: a check of the globals, and 0.
pub Ends-check :
    {G : Type 0} (Q : G → Type 0) (b : G → Bool) (p : Prog G (Unit {0})) (g : G)
    → IsReader p
    → ((h : G) → b h ≡ true → Q h)
    → Ends Q (p >> get (λ h. assert (b h) >> pure 0)) g
Ends-check {G} Q b p g reads h =
    Ends-bind Q p (λ _. get (λ i. assert (b i) >> pure 0)) g reads λ _ i. checked i (b i) refl
  where
    checked : (i : G) (c : Bool) → b i ≡ c → Ends Q (assert c >> pure 0) i
    checked i true e = λ _. h i e
    checked i false e = λ z. absurd (omega arith)

pub IsReader-check :
    {G : Type 0} (b : G → Bool) (p : Prog G (Unit {0}))
    → IsReader p
    → IsReader (p >> get (λ h. assert (b h) >> pure {A = ℕ} 0))
IsReader-check {G} b p reads =
    IsReader-bind p (λ _. get (λ h. assert (b h) >> pure {A = ℕ} 0)) reads
      λ _ h. IsReader-assert {G = G} {A = ℕ} (b h) (pure 0) tt

-- Code that makes no call, as a function of the globals.
abbrev pub settle : {G A : Type 0} → Prog G A → G → Option (A × G)
settle (ret a) g = some (a, g)
settle (exit n) g = none
settle (call c k) g = none
settle (get k) g = settle (k g) g
settle (put h p) g = settle p h
settle spin g = none

abbrev pub then_after : {G A : Type 0} → Option (A × G) → (G → Option G) → Option G
then_after none f = none
then_after (some (a, g)) f = f g

-- The globals after handlers that make no call, entered with these frames one after the other.
abbrev pub after : {G A : Type 0} → (Frame → Prog G A) → List Frame → G → Option G
after code [] g = some g
after code (f ∷ fs) g = then_after (settle (code f) g) (after code fs)

pub after-append :
    {G A : Type 0} (code : Frame → Prog G A) (fs : List Frame) (f : Frame) (g h i : G) (a : A)
    → after code fs g ≡ some h
    → settle (code f) h ≡ some (a, i)
    → after code (fs ++ f ∷ []) g ≡ some i
after-append code [] f g h i a e s = ground arith
after-append {G} {A} code (x ∷ xs) f g h i a e s =
    go (settle (code x) g) e (λ j d. after-append code xs f j h i a d s)
  where
    go :
        (o : Option (A × G))
        → then_after o (after code xs) ≡ some h
        → ((j : G) → after code xs j ≡ some h → after code (xs ++ f ∷ []) j ≡ some i)
        → then_after o (after code (xs ++ f ∷ [])) ≡ some i
    go none d rest = cc
    go (some (b, j)) d rest = rest j d

-- What holds of an outcome: `E` of an exit, `Q` of a value. A run that stops has neither.
abbrev pub Ensures : {W A : Type 0} → (ℕ → W → Type 0) → (A → W → Type 0) → Outcome W A → Type 0
Ensures E Q (finished a w) = Q a w
Ensures E Q (exited n w) = E n w
Ensures E Q stopped = Unit
Ensures E Q out_of_fuel = Unit

pub Ensures-continue :
    {W A B : Type 0} (E : ℕ → W → Type 0) (P : A → W → Type 0) (Q : B → W → Type 0)
    (o : Outcome W A) (f : A → W → Outcome W B)
    → Ensures E P o
    → ((a : A) (w : W) → P a w → Ensures E Q (f a w))
    → Ensures E Q (continue o f)
Ensures-continue E P Q (finished a w) f h k = k a w h
Ensures-continue E P Q (exited n w) f h k = h
Ensures-continue E P Q stopped f h k = tt
Ensures-continue E P Q out_of_fuel f h k = tt

pub Ensures-mono :
    {W A : Type 0} (E : ℕ → W → Type 0) (P Q : A → W → Type 0) (o : Outcome W A)
    → Ensures E P o
    → ((a : A) (w : W) → P a w → Q a w)
    → Ensures E Q o
Ensures-mono E P Q (finished a w) h k = k a w h
Ensures-mono E P Q (exited n w) h k = h
Ensures-mono E P Q stopped h k = tt
Ensures-mono E P Q out_of_fuel h k = tt
