-- ===== src/Nesting/LongjmpNoOverflow/Count.antt =====
-- What the count of src/longjmp-no-overflow.cpp says of the handlers that have started.
use signal_tests.Base.{
  ℕ, zero, suc, ◌+◌, ◌%◌, ◌^◌, ◌≡◌, ◌≤◌, ◌<◌, refl, subst, arith, inl, inr, List, [], ◌∷◌, length,
  length-append, Option, none, some, Bool-cases, ltb, ◌==◌, ==_iff, if◌then◌else◌, pos, ◌=ℤ=◌,
}
use signal_tests.Program.{Kernel}
use signal_tests.System
use signal_tests.System.{Frame, Call, Reply}
use signal_tests.Nesting.LongjmpNoOverflow.{
  Place, installing, testing, checking, lost, handling, ended, Machine, arrive, go_on, install,
  test, leave, step, steps, first,
}

-- How the count stands to the number of handlers that have started.
abbrev pub IsBounded : (limit : ℕ) → Place → (count started : ℕ) → Type 0
IsBounded limit installing count started = count ≡ 0
IsBounded limit testing count started = count ≤ started
IsBounded limit checking count started = count ≤ started + 1
IsBounded limit lost count started = Unit
IsBounded limit (handling f) count started = count ≤ started
IsBounded limit (ended n) count started = n ≡ 0 → limit ≤ started

abbrev pub IsCounted : {S : Type 0} → ℕ → Machine S → Type 0
IsCounted limit m = IsBounded limit m.place m.count (length m.entered)

module _ (kern : Kernel) (jump : kern.State → kern.State) (limit : ℕ) where
  open kern use {State, answer, deliver}

  arrive-IsCounted :
      (m : Machine State) (o : Option (Frame × State))
      → IsCounted limit m
      → m.count ≤ length m.entered + 1
      → IsCounted limit (arrive kern jump limit m o)
  arrive-IsCounted m none h l = h
  arrive-IsCounted m (some (f, s)) h l = omega (arith, length-append {0} m.entered (f ∷ []))

  leave-IsCounted :
      (m : Machine State) (s : State) (o : Option (Frame × State))
      → m.count ≤ length m.entered
      → IsCounted limit (leave kern jump limit m s o)
  leave-IsCounted m s none l = l
  leave-IsCounted m s (some (f, s')) l = omega (arith, length-append {0} m.entered (f ∷ []))

  install-IsCounted :
      (m : Machine State) (o : Option (Frame × State))
      → m.count ≡ 0
      → IsCounted limit (install kern jump limit m o)
  install-IsCounted m none h = omega arith
  install-IsCounted m (some x) h = tt

  go_on-IsCounted :
      (m : Machine State) (next : Reply → State → Machine State) (o : Option (Reply × State))
      → ((r : Reply) (s : State) → IsCounted limit (next r s))
      → IsCounted limit (go_on kern jump limit m next o)
  go_on-IsCounted m next none h = tt
  go_on-IsCounted m next (some (r, s)) h = h r s

  test-IsCounted :
      (m : Machine State) → m.count ≤ length m.entered → IsCounted limit (test kern jump limit m)
  test-IsCounted m l =
      let small : (m.count + 1) % 2 ^ 64 ≤ m.count + 1 = omega arith in
      let counted : Machine State = record m { count = (m.count + 1) % 2 ^ 64; place = checking } in
      elim (Bool-cases (ltb m.count limit)) [
        | inl e ↦ rw e (
            go_on-IsCounted counted _ (answer m.kernel (Call.raise System.sigusr1)) (λ r s.
              arrive-IsCounted (record counted { kernel = s }) (deliver s) (omega arith)
                (omega arith)))
        | inr e ↦ rw e (omega arith)
      ]

  module _ (fits : limit + 1 < 2 ^ 64) where
    end-IsCounted :
        (count started : ℕ)
        → count ≤ started + 1
        → IsBounded limit (ended (if count == (limit + 1) % 2 ^ 64 then 0 else 1)) count started
    end-IsCounted count started l = elim (Bool-cases (count == (limit + 1) % 2 ^ 64)) [
      | inl e ↦ rw e (λ _. let same = (==_iff count ((limit + 1) % 2 ^ 64)).0 e in omega arith)
      | inr e ↦ rw e (λ x. absurd (omega arith))
    ]

    step-IsCounted :
        (p : Place) (count : ℕ) (s : State) (es : List Frame)
        → IsBounded limit p count (length es)
        → IsCounted limit
            (step kern jump limit (record { place = p; count = count; kernel = s; entered = es }))
    unfolding step
    step-IsCounted installing count s es h =
        let m : Machine State = record {
          place = installing;
          count = count;
          kernel = s;
          entered = es;
        } in
        go_on-IsCounted m _ (answer s (Call.sigaction System.sigusr1 _)) (λ r s'.
          elim (Bool-cases (r.result =ℤ= pos 0)) [
            | inl e ↦ rw e (install-IsCounted (record m { kernel = s' }) (deliver s') h)
            | inr e ↦ rw e (λ x. absurd (omega arith))
          ])
    step-IsCounted testing count s es h =
        test-IsCounted (record { place = testing; count = count; kernel = s; entered = es }) h
    step-IsCounted checking count s es h = end-IsCounted count (length es) h
    step-IsCounted lost count s es h = tt
    step-IsCounted (handling f) count s es h =
        let m : Machine State = record {
          place = handling f;
          count = count;
          kernel = s;
          entered = es;
        } in
        go_on-IsCounted m _ (answer s (Call.sigprocmask System.sig_setmask f.ctx.uc_sigmask))
          (λ r s'. leave-IsCounted m s' (deliver s') h)
    step-IsCounted (ended n) count s es h = h

    steps-IsCounted :
        (n : ℕ) (m : Machine State)
        → IsCounted limit m
        → IsCounted limit (steps kern jump limit n m)
    unfolding steps
    steps-IsCounted zero m h = h
    steps-IsCounted (suc n) m h =
        steps-IsCounted n (step kern jump limit m)
          (step-IsCounted m.place m.count m.kernel m.entered h)

-- Whatever the kernel and the jump do, after any number of steps: if the program has ended with the status
-- 0, as many handlers have started as the limit says, where the limit is below the largest count.
pub longjmp_entered :
    (kern : Kernel) (jump : kern.State → kern.State) (limit : ℕ) (n : ℕ) (s : kern.State)
    → limit + 1 < 2 ^ 64
    → (steps kern jump limit n (first kern jump limit s)).place ≡ ended 0
    → limit ≤ length (steps kern jump limit n (first kern jump limit s)).entered
longjmp_entered kern jump limit n s fits e =
    let m = steps kern jump limit n (first kern jump limit s) in
    let known = steps-IsCounted kern jump limit fits n (first kern jump limit s) refl in
    (subst (λ p. IsBounded limit p m.count (length m.entered)) e known) refl
