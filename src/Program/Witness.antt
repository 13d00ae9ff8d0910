-- ===== src/Program/Witness.antt =====
-- Tests that check in their handler and look at the end whether it has run: what every frame of a
-- passing run satisfies.
use signal_tests.Base.{
  ℕ, ◌≡◌, ◌≢◌, ◌⊎◌, inl, inr, refl, arith, ◌++◌, Bool, true, false, List, [], ◌∷◌, All, none, some,
  Option,
}
use signal_tests.System.{Reply, Frame, Ucontext}
use signal_tests.Program.Defs.{
  Prog, ret, exit, call, get, put, spin, ◌>>◌, assert, Kernel, World, finished, run, start, Passes,
}
use signal_tests.Program.Bind.{IsReader, IsQuiet, settle, after, then_after}
use signal_tests.Program.Holds.{Holds, after-both}
use signal_tests.Program.HoldsRun.{passing-Holds}

-- Every path that ends with 0 reads globals with `Q` on its way.
abbrev pub Sees : {G A : Type 0} → (G → Type 0) → Prog G A → Type 0
Sees Q (ret a) = ⊥
Sees Q (exit n) = n ≢ 0
Sees Q (call c k) = (r : Reply) → Sees Q (k r)
Sees {G} Q (get k) = (g : G) → Q g ⊎ Sees Q (k g)
Sees Q (put g p) = ⊥
Sees Q spin = Unit

module _ {G A : Type 0} (Q : G → Type 0) where
  pub Sees-assert : (b : Bool) (q : Prog G A) → Sees Q q → Sees Q (assert b >> q)
  Sees-assert true q h = h
  Sees-assert false q h = λ e. absurd (omega arith)

  pub Sees-check :
      (g : G) (b : Bool) (q : Prog G A) → (b ≡ true → Q g) → Q g ⊎ Sees Q (assert b >> q)
  Sees-check g true q h = inl (h refl)
  Sees-check g false q h = inr (λ e. absurd (omega arith))

append-ne-nil : (xs ys : List Frame) → xs ≢ [] → xs ++ ys ≢ []
append-ne-nil [] ys h e = h refl
append-ne-nil (x ∷ xs) ys h e = cc

module _ {G : Type 0} (Q : G → Type 0) (code : Frame → Prog G Ucontext) (g : G) where
  -- Handlers have run, and have made these globals of the first ones.
  abbrev Started : G → List Frame → Type 0
  Started h fs = (fs ≢ []) × (after code fs g ≡ some h)

  Holds-Started :
      (p : Prog G ℕ) (h : G) (fs : List Frame)
      → IsReader p
      → Started h fs
      → Holds code (λ a i gs. a ≡ 0 → Started i gs) p h fs
  Holds-Started (ret a) h fs reads st = λ _. st
  Holds-Started (exit n) h fs reads st = reads
  Holds-Started (call c k) h fs reads st = λ r gs i e.
      Holds-Started (k r) i (fs ++ gs) (reads r)
        (append-ne-nil fs gs st.0, after-both code fs gs g h i st.1 e)
  Holds-Started (get k) h fs reads st = Holds-Started (k h) h fs (reads h) st
  Holds-Started (put i p) h fs reads st = absurd reads
  Holds-Started spin h fs reads st = tt

  -- If globals with `Q` come of handlers alone, a passing run has started some.
  pub Holds-Sees :
      ((h : G) (fs : List Frame) → after code fs g ≡ some h → Q h → fs ≢ [])
      → (p : Prog G ℕ) (h : G) (fs : List Frame) → IsReader p
      → Sees Q p
      → after code fs g ≡ some h
      → Holds code (λ a i gs. a ≡ 0 → Started i gs) p h fs
  Holds-Sees by (ret a) h fs reads sees e = absurd sees
  Holds-Sees by (exit n) h fs reads sees e = reads
  Holds-Sees by (call c k) h fs reads sees e = λ r gs i d.
      Holds-Sees by (k r) i (fs ++ gs) (reads r) (sees r) (after-both code fs gs g h i e d)
  Holds-Sees by (get k) h fs reads sees e = elim (sees h) [
    | inl q ↦ Holds-Started (k h) h fs (reads h) (by h fs e q, e)
    | inr later ↦ Holds-Sees by (k h) h fs (reads h) later e
  ]
  Holds-Sees by (put i p) h fs reads sees e = absurd reads
  Holds-Sees by spin h fs reads sees e = tt

some-run :
    {G : Type 0} (code : Frame → Prog G Ucontext) (ran : G → Bool) (g : G)
    → ran g ≡ false
    → (h : G) (fs : List Frame) → after code fs g ≡ some h
    → ran h ≡ true
    → fs ≢ []
some-run code ran g fresh h [] e q z = cc
some-run code ran g fresh h (f ∷ fs) e q z = cc

-- A handler that fails unless the frame satisfies `P`.
abbrev pub IsChecked : {G : Type 0} → (Frame → Type 0) → (Frame → Prog G Ucontext) → Type 0
IsChecked {G} P code = (f : Frame) (g : G) → (settle (code f) g ≡ none) ⊎ P f

module _ {G : Type 0} (P : Frame → Type 0) (code : Frame → Prog G Ucontext)
    (checked : IsChecked P code) where
  pub All-after : (fs : List Frame) (g h : G) → after code fs g ≡ some h → All P fs
  All-after [] g h e = tt
  All-after (f ∷ fs) g h e = elim (checked f g) [
    | inl refused ↦ absurd (cc (rw refused at e))
    | inr p ↦ (p, go (settle (code f) g) e (λ i d. All-after fs i h d))
  ]
    where
      go :
          (o : Option (Ucontext × G))
          → then_after o (after code fs) ≡ some h
          → ((i : G) → after code fs i ≡ some h → All P fs)
          → All P fs
      go none d rest = cc
      go (some (c, i)) d rest = rest i d

  -- A run that passes has started handlers, on good frames only.
  pub passing_witness :
      (ran : G → Bool) (kern : Kernel) (fuel : ℕ) (main : Prog G ℕ) (s : kern.State) (g : G)
      → ((f : Frame) → IsQuiet (code f))
      → IsReader main
      → Sees (λ i. ran i ≡ true) main
      → ran g ≡ false
      → Passes kern fuel code main s g
      → (w : World kern.State G) × (run kern fuel code main (start s g) ≡ finished 0 w)
        × (w.served ≢ [])
        × All P w.served
  passing_witness ran kern fuel main s g quiet reads sees fresh passes =
      let (w, e, n) =
        passing-Holds kern code quiet (λ h fs. (fs ≢ []) × (after code fs g ≡ some h)) fuel main s g
          (Holds-Sees (λ i. ran i ≡ true) code g (some-run code ran g fresh) main g [] reads sees
            refl)
          passes in
      (w, e, n.0, All-after w.served g w.globals n.1)
