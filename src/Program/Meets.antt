-- ===== src/Program/Meets.antt =====
-- What every way of answering a program leads through, if the program ends with 0.
use signal_tests.Base.{
  ℕ, zero, suc, ◌+◌, ◌≤◌, ◌<◌, ◌≢◌, ◌≡◌, ◌⊎◌, inl, inr, refl, arith, Bool, true, false,
  if◌then◌else◌,
}
use signal_tests.System.{Call, Reply}
use signal_tests.Program.Defs.{Prog, ret, exit, call, get, put, spin, ◌>>=◌, ◌>>◌, assert, for}
use signal_tests.Program.Bind.{IsReader}

-- On every path of `p` that does not end with a failure some call `c` has an answer `r` with `P c r`.
abbrev pub Meets : {G A : Type 0} → (Call → Reply → Type 0) → Prog G A → Type 0
Meets P (ret a) = ⊥
Meets P (exit n) = n ≢ 0
Meets P (call c k) = (r : Reply) → P c r ⊎ Meets P (k r)
Meets {G} P (get k) = (g : G) → Meets P (k g)
Meets P (put g p) = Meets P p
Meets P spin = Unit

module _ (P : Call → Reply → Type 0) {G : Type 0} where
  pub Meets-bind : {A B : Type 0} (p : Prog G A) (f : A → Prog G B) → Meets P p → Meets P (p >>= f)
  Meets-bind (ret a) f h = absurd h
  Meets-bind (exit n) f h = h
  Meets-bind (call c k) f h =
      λ r. elim (h r) [ inl found ↦ inl found | inr later ↦ inr (Meets-bind (k r) f later) ]
  Meets-bind (get k) f h = λ g. Meets-bind (k g) f (h g)
  Meets-bind (put g p) f h = Meets-bind p f h
  Meets-bind spin f h = tt

  pub Meets-later :
      {A B : Type 0} (p : Prog G A) (f : A → Prog G B)
      → IsReader p
      → ((a : A) → Meets P (f a))
      → Meets P (p >>= f)
  Meets-later (ret a) f reads h = h a
  Meets-later (exit n) f reads h = reads
  Meets-later (call c k) f reads h = λ r. inr (Meets-later (k r) f (reads r) h)
  Meets-later (get k) f reads h = λ g. Meets-later (k g) f (reads g) h
  Meets-later (put g p) f reads h = absurd reads
  Meets-later spin f reads h = tt

  -- One round of a loop is enough.
  pub Meets-for :
      (start count i : ℕ) (body : ℕ → Prog G (Unit {0}))
      → start ≤ i
      → i < start + count
      → ((j : ℕ) → IsReader (body j))
      → Meets P (body i)
      → Meets P (for start count body)
  Meets-for start zero i body low high reads h = absurd (omega arith)
  Meets-for start (suc n) i body low high reads h = elim (first-or-later start i low) [
    | inl same ↦ Meets-bind (body start) (λ _. for (start + 1) n body) (rw (← same) h)
    | inr more ↦
        Meets-later (body start) (λ _. for (start + 1) n body) (reads start)
          (λ _. Meets-for (start + 1) n i body more (omega arith) reads h)
  ]
    where
      first-or-later : (a b : ℕ) → a ≤ b → (b ≡ a) ⊎ (a + 1 ≤ b)
      first-or-later a b h = ground arith

  -- A branch, with what its test says.
  pub Meets-if :
      {A : Type 0} (b : Bool) (p q : Prog G A)
      → (b ≡ true → Meets P p)
      → (b ≡ false → Meets P q)
      → Meets P (if b then p else q)
  Meets-if true p q h k = h refl
  Meets-if false p q h k = k refl

  -- A test that fails unless `R` holds.
  pub Meets-found :
      {A R : Type 0} (b : Bool) (p : Prog G A)
      → (b ≡ true → R)
      → R ⊎ Meets P (if b then p else exit 1)
  Meets-found true p h = inl (h refl)
  Meets-found false p h = inr (λ e. absurd (omega arith))

  -- A test that the answer is as `R` wants, with more behind it.
  pub Meets-test :
      {A R : Type 0} (b : Bool) (q : Prog G A)
      → (b ≡ true → R ⊎ Meets P q)
      → R ⊎ Meets P (assert b >> q)
  Meets-test true q h = h refl
  Meets-test false q h = inr (λ e. absurd (omega arith))

  pub Meets-assert : {A : Type 0} (b : Bool) (q : Prog G A) → Meets P q → Meets P (assert b >> q)
  Meets-assert true q h = h
  Meets-assert false q h = λ e. absurd (omega arith)

pub Meets-last :
    (P : Call → Reply → Type 0) (G : Type 0) {R : Type 0} (b : Bool)
    → (b ≡ true → R)
    → R ⊎ Meets P (assert {G = G} b)
Meets-last P G true h = inl (h refl)
Meets-last P G false h = inr (λ e. absurd (omega arith))
