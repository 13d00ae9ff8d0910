-- ===== src/Defaults/All/Report.antt =====
-- What src/sigdfl-all.cpp asks of the system.
use signal_tests.Base.{
  ℕ, true, List, [], some, Bool-cases, refl, ◌/◌, ◌%◌, ◌≡◌, ◌≢◌, ◌↔◌, ◌⊎◌, inl, inr, ◌<◌, ◌≤◌,
  arith, ℤ, negsuc, ◌==◌, ==_iff, ◌=ℤ=◌, =ℤ=_iff, pos, ◌&&◌, negative,
}
use signal_tests.System
use signal_tests.System.{Call, Reply}
use signal_tests.Program.{Kernel, World, run, start, Passes, exit, pure, for, assert}
use signal_tests.Program.Bind.{
  IsReader, IsReader-if, IsReader-bind, IsReader-assert, IsReader-guard,
}
use signal_tests.Program.Meets.{Meets, Meets-bind, Meets-for, Meets-if, Meets-found, Meets-later}
use signal_tests.Program.Met.{end_of}
use signal_tests.Program.Logged.{logged, IsIn, passing_answer}
use signal_tests.Defaults.All.{
  Globals, initial, no_handler, Behavior, set_default, get_behavior, ignore, stop, core, terminate,
  what, examine, exited_well, child, parent, round, main,
}

-- SIGCHLD, SIGCONT, SIGURG and SIGWINCH.
abbrev pub IsIgnored : ℕ → Type 0
IsIgnored i = (i ≡ 17) ⊎ (i ≡ 18) ⊎ (i ≡ 23) ⊎ (i ≡ 28)

-- SIGSTOP, SIGTSTP, SIGTTIN and SIGTTOU.
abbrev pub IsStopping : ℕ → Type 0
IsStopping i = (19 ≤ i) × (i ≤ 22)

-- SIGQUIT, SIGILL, SIGTRAP, SIGABRT, SIGBUS, SIGFPE, SIGSEGV, SIGXCPU, SIGXFSZ and SIGSYS.
abbrev pub IsCoring : ℕ → Type 0
IsCoring i = ((3 ≤ i) × (i ≤ 8)) ⊎ (i ≡ 11) ⊎ (i ≡ 24) ⊎ (i ≡ 25) ⊎ (i ≡ 31)

-- No signal that the test can send.
abbrev pub IsNone : ℕ → Type 0
IsNone i = (i ≡ 0) ⊎ (i ≡ 9) ⊎ (64 < i)

-- A class by numbers, none of them negative.
abbrev pub IsNumber : (ℕ → Type 0) → ℤ → Type 0
IsNumber P (pos n) = P n
IsNumber P (negsuc n) = ⊥

-- `get_behavior`, of any `int`: `Ignore`, `Stop` and `Core` are the signals of the numbers that these
-- classes list, which signal(7) gives on x86; `What` are the negative numbers, 0, SIGKILL and the numbers
-- above 64; and all others are `Terminate`.
pub get_behavior_classes :
    (sig : ℤ)
    → ((get_behavior sig ≡ ignore) ↔ IsNumber IsIgnored sig)
      × ((get_behavior sig ≡ stop) ↔ IsNumber IsStopping sig)
      × ((get_behavior sig ≡ core) ↔ IsNumber IsCoring sig)
      × ((get_behavior sig ≢ what) ↔ IsNumber (λ n. ¬ IsNone n) sig)
unfolding get_behavior
get_behavior_classes (pos n) = (ground arith, ground arith, ground arith, ground arith)
get_behavior_classes (negsuc n) = (ground arith, ground arith, ground arith, ground arith)

get_behavior-ignore : (i : ℕ) → get_behavior (pos i) ≡ ignore → IsIgnored i
unfolding get_behavior
get_behavior-ignore i e = ground arith

get_behavior-stop : (i : ℕ) → get_behavior (pos i) ≡ stop → IsStopping i
unfolding get_behavior
get_behavior-stop i e = ground arith

get_behavior-ends :
    (i : ℕ)
    → (get_behavior (pos i) ≡ terminate) ⊎ (get_behavior (pos i) ≡ core)
    → ¬ IsIgnored i × ¬ IsStopping i
unfolding get_behavior
get_behavior-ends i (inl e) = (λ h. ground arith, λ h. ground arith)
get_behavior-ends i (inr e) = (λ h. ground arith, λ h. ground arith)

-- How waitpid(2) writes the end of a child: an exit with 42, a stop, or a deadly signal.
abbrev pub IsExit : ℕ → Type 0
IsExit status = (status % 128 ≡ 0) × (status / 256 % 256 ≡ 42)

abbrev pub IsStop : ℕ → ℕ → Type 0
IsStop i status = (status % 256 ≡ 127) × (status / 256 % 256 ≡ i)

abbrev pub IsDeath : ℕ → ℕ → Type 0
IsDeath i status = (status % 128 ≡ i) × (i ≢ 0) × (i ≢ 127)

abbrev pub IsDefault : ℕ → ℕ → Type 0
IsDefault i status =
    (IsIgnored i × IsExit status)
    ⊎ (IsStopping i × IsStop i status)
    ⊎ (¬ IsIgnored i × ¬ IsStopping i × IsDeath i status)

-- A child has been waited for and its status is the one of the default action.
abbrev pub IsReport : ℕ → Call → Reply → Type 0
IsReport i c r =
    (pid : ℤ) × (c ≡ Call.waitpid pid System.wuntraced)
    × (r.result ≢ System.minus_one)
    × IsDefault i r.status

exited_well-IsExit : (status : ℕ) → exited_well status ≡ true → IsExit status
exited_well-IsExit status e = ground arith

stopped-IsStop :
    (i status : ℕ)
    → (System.wifstopped status && (System.wstopsig status == i)) ≡ true
    → IsStop i status
stopped-IsStop i status e = ground arith

killed-IsDeath :
    (i status : ℕ)
    → (System.wifsignaled status && (System.wtermsig status == i)) ≡ true
    → IsDeath i status
killed-IsDeath i status e = (ground arith, ground arith, ground arith)

examine-IsDefault :
    (P : Call → Reply → Type 0) (b : Behavior) (i : ℕ) (pid : ℤ) (status : ℕ)
    → get_behavior (pos i) ≡ b
    → IsDefault i status ⊎ Meets P (examine b i pid status)
unfolding examine
examine-IsDefault P ignore i pid status e =
    Meets-found P (exited_well status) _
      λ h. inl (get_behavior-ignore i e, exited_well-IsExit status h)
examine-IsDefault P stop i pid status e =
    Meets-found P (System.wifstopped status && (System.wstopsig status == i)) _
      λ h. inr (inl (get_behavior-stop i e, stopped-IsStop i status h))
examine-IsDefault P terminate i pid status e =
    Meets-found P (System.wifsignaled status && (System.wtermsig status == i)) _
      λ h. let (a, b) = get_behavior-ends i (inl e) in inr (inr (a, b, killed-IsDeath i status h))
examine-IsDefault P core i pid status e =
    Meets-found P (System.wifsignaled status && (System.wtermsig status == i)) _
      λ h. let (a, b) = get_behavior-ends i (inr e) in inr (inr (a, b, killed-IsDeath i status h))
examine-IsDefault P what i pid status e = inr (λ z. absurd (omega arith))

examine-IsReader : (b : Behavior) (i : ℕ) (pid : ℤ) (status : ℕ) → IsReader (examine b i pid status)
unfolding examine
examine-IsReader terminate i pid status =
    IsReader-if _ (pure tt) (exit 1) tt (λ z. absurd (omega arith))
examine-IsReader core i pid status = IsReader-if _ (pure tt) (exit 1) tt (λ z. absurd (omega arith))
examine-IsReader stop i pid status =
    IsReader-if (System.wifstopped status && (System.wstopsig status == i)) _ (exit 1)
      (λ r w.
        IsReader-if (w.result =ℤ= System.minus_one) (exit 1) _ (λ z. absurd (omega arith))
          (IsReader-if (exited_well w.status) (pure tt) (exit 1) tt (λ z. absurd (omega arith))))
      (λ z. absurd (omega arith))
examine-IsReader ignore i pid status =
    IsReader-if _ (pure tt) (exit 1) tt (λ z. absurd (omega arith))
examine-IsReader what i pid status = λ z. absurd (omega arith)

set_default-IsReader : (i : ℕ) → IsReader (set_default i)
set_default-IsReader i =
    IsReader-if (i == System.sigstop) _ _ tt
      λ r. IsReader-if (r.result =ℤ= pos 0) _ _ tt (λ z. absurd (omega arith))

child-IsReader : (i : ℕ) → IsReader (child i)
unfolding child
child-IsReader i =
    IsReader-bind (set_default i) _ (set_default-IsReader i)
      λ _ p t r. IsReader-assert (r.result =ℤ= pos 0) _ (λ z. absurd (omega arith))

-- The child does not get back to the loop.
child-Meets : (P : Call → Reply → Type 0) (i : ℕ) → Meets P (child i)
unfolding child
child-Meets P i = Meets-later P (set_default i) _ (set_default-IsReader i) λ _ p. inr (λ t.
    inr (λ r. inr (
      Meets-later P (assert (r.result =ℤ= pos 0)) _ (IsReader-guard Globals (r.result =ℤ= pos 0))
        (λ _ z. absurd (omega arith)))))

round-IsReader : (i : ℕ) → IsReader (round i)
unfolding round parent
round-IsReader i = IsReader-if (i == System.sigkill) _ _ tt λ r.
    IsReader-if (negative r.result) _ _ (λ z. absurd (omega arith))
      (IsReader-if (r.result =ℤ= pos 0) (child i) (parent i r.result) (child-IsReader i) (λ w.
        IsReader-if (w.result =ℤ= System.minus_one) _ _ (λ z. absurd (omega arith))
          (examine-IsReader (get_behavior (pos i)) i r.result w.status)))

parent-IsReport : (i : ℕ) (pid : ℤ) → Meets (IsReport i) (parent i pid)
unfolding parent
parent-IsReport i pid = λ w. elim (Bool-cases (w.result =ℤ= System.minus_one)) [
  | inl e ↦ rw e (inr (λ z. absurd (omega arith)))
  | inr e ↦ rw e (elim (examine-IsDefault (IsReport i) (get_behavior (pos i)) i pid w.status refl) [
    | inl d ↦ inl (pid, refl, (λ same. cc ((=ℤ=_iff w.result System.minus_one).1 same, e)), d)
    | inr later ↦ inr later
  ])
]

-- What every parent meets, the test meets.
main-Meets :
    (P : Call → Reply → Type 0) (i : ℕ)
    → 1 ≤ i
    → i ≤ 64
    → i ≢ 9
    → ((pid : ℤ) → Meets P (parent i pid))
    → Meets P main
unfolding main round
main-Meets P i low high other meets = Meets-bind P (for 1 64 round) _ (
    Meets-for P 1 64 i round low (omega arith) round-IsReader (
      Meets-if P (i == System.sigkill) _ _ (λ e. absurd (other ((==_iff i 9).0 e)))
        λ _ r. inr (
          Meets-if P (negative r.result) _ _ (λ _ z. absurd (omega arith))
            λ _.
              Meets-if P (r.result =ℤ= pos 0) (child i) (parent i r.result) (λ _. child-Meets P i)
                (λ _. meets r.result))))

-- Whatever the kernel does: at the end of a run that passes, for each signal from 1 to 64 but SIGKILL,
-- the test has been told by waitpid(2), with WUNTRACED, of a child that has stopped by it, that it has
-- killed, or that has exited with 42, as is the default action of that signal.
pub sigdfl_all_reports :
    (kern : Kernel) (fuel : ℕ) (s : kern.State)
    → Passes (logged kern) fuel no_handler main (s, []) initial
    → (i : ℕ) → 1 ≤ i
    → i ≤ 64
    → i ≢ 9
    → (w : World (kern.State × List (Call × Reply)) Globals) × (end_of
          (run (logged kern) fuel no_handler main (start (s, []) initial))
        ≡ some w)
      × IsIn (IsReport i) w.kernel.1
unfolding no_handler
sigdfl_all_reports kern fuel s passes i low high other =
    passing_answer (IsReport i) kern fuel no_handler main s initial (λ f. tt)
      (main-Meets (IsReport i) i low high other (parent-IsReport i)) passes
