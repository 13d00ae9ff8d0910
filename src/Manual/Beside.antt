-- ===== src/Manual/Beside.antt =====
-- Two processes, as the manual pages have it: the one whose run is followed, and one beside it that
-- sends it signals and shares a lock with it. The scheduler is a list: so many calls of the other
-- process come before each call of the first one.
use signal_tests.Base.{
  ℕ, zero, suc, Bool, true, List, [], ◌∷◌, Option, none, some, if◌then◌else◌, pos, ◌=ℤ=◌,
}
use signal_tests.System
use signal_tests.System.{Call, Reply, Frame, Siginfo, Ucontext, returning}
use signal_tests.Program.{Prog, call, Kernel}
use signal_tests.Manual.State.{Process, send}
use signal_tests.Manual.Answers.{manual_answer}
use signal_tests.Manual.Delivery.{manual_deliver, manual_return}

-- `other` is what the other process has left to do; it starts with the fork.
pub record Pair (G : Type 0) : Type 0 where
  pub process : Process
  pub lock : ℕ
  pub other : Prog G ℕ
  pub forked : Bool

abbrev pub other_pid : ℕ
other_pid = 999

abbrev kill_info : ℕ → Siginfo
kill_info sig = record System.no_info { si_signo = sig; si_code = pos 0; si_pid = other_pid }

abbrev pub head_turn : List ℕ → ℕ
head_turn [] = 0
head_turn (n ∷ turns) = n

abbrev pub later_turns : List ℕ → List ℕ
later_turns [] = []
later_turns (n ∷ turns) = turns

module _ {G : Type 0} where
  -- A call of the other process. It waits in waitpid(2) as long as the first process runs, and in any
  -- call that has no answer here.
  abbrev other_call : Pair G → Call → (Reply → Prog G ℕ) → Pair G
  other_call p (Call.kill pid sig) k =
      if pid =ℤ= pos p.process.pid
      then record p { process = send (kill_info sig) p.process; other = k (returning (pos 0)) }
      else p
  other_call p (Call.atomic_store v) k = record p { lock = v; other = k (returning (pos 0)) }
  other_call p c k = p

  abbrev pub other_step : Pair G → Pair G
  other_step p = elim p.other [ call c k ↦ other_call p c k | _ ↦ p ]

  abbrev pub other_steps : ℕ → Pair G → Pair G
  other_steps zero p = p
  other_steps (suc n) p = other_steps n (other_step p)

  abbrev with_process :
      Pair G → List ℕ → Option (Reply × Process) → Option (Reply × (Pair G × List ℕ))
  with_process p turns none = none
  with_process p turns (some (r, q)) = some (r, (record p { process = q }, turns))

  abbrev pub answer_now : Pair G → List ℕ → Call → Option (Reply × (Pair G × List ℕ))
  answer_now p turns (Call.mmap n) =
      some (record (returning (pos 0)) { address = p.process.free }, (p, turns))
  answer_now p turns (Call.atomic_store v) =
      some (returning (pos 0), (record p { lock = v }, turns))
  answer_now p turns (Call.atomic_exchange v) =
      some (returning (pos p.lock), (record p { lock = v }, turns))
  answer_now p turns Call.fork = some (returning (pos 0), (record p { forked = true }, turns))
  answer_now p turns c = with_process p turns (manual_answer p.process c)

  abbrev answer_beside : Pair G × List ℕ → Call → Option (Reply × (Pair G × List ℕ))
  answer_beside (p, turns) c =
      if p.forked
      then answer_now (other_steps (head_turn turns) p) (later_turns turns) c
      else answer_now p turns c

  abbrev with_frame :
      Pair G → List ℕ → Option (Frame × Process) → Option (Frame × (Pair G × List ℕ))
  with_frame p turns none = none
  with_frame p turns (some (f, q)) = some (f, (record p { process = q }, turns))

module _ (G : Type 0) where
  abbrev pub beside : Kernel
  beside = record {
    State = Pair G × List ℕ;
    answer = answer_beside;
    deliver = λ s. with_frame s.0 s.1 (manual_deliver s.0.process);
    sigreturn = λ s c. (record s.0 { process = manual_return s.0.process c }, s.1);
  }
