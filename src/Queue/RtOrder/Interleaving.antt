-- ===== src/Queue/RtOrder/Interleaving.antt =====
-- src/rt-order.cpp, the child and the parent together, in every order of their calls.
use signal_tests.Base.{
  ℕ, ◌∙◌, bit_and, pos, zero, suc, ◌+◌, ◌≤◌, ◌<◌, ◌≡◌, refl, ap, List, true, false, some, arith,
  leb, if◌then◌else◌,
}
use signal_tests.Program.{
  Prog, call, spin, finished, run, exec, interrupts, start, World, Outcome, out_of_fuel, ending,
}
use signal_tests.System
use signal_tests.System.{Call, Reply, Sigaction, Ucontext, returning}
use signal_tests.Manual.{fresh, set_action, change_mask, own_pid}
use signal_tests.Manual.Beside.{
  Pair, beside, other_step, other_steps, answer_now, head_turn, later_turns,
}
use native.Mathlib.Decide.{dec_lt}
use signal_tests.Program.Steps.{exec-answered, exec-continues}
use signal_tests.Queue.RtOrder.{Globals, initial, sa, child, parent, signal_handler, main}

-- Before the test starts.
abbrev pub first_pair : Ucontext → (ℕ → ℕ) → Pair Globals
first_pair regs bytes = record {
  process = fresh regs bytes;
  lock = 0;
  other = parent (pos own_pid);
  forked = false;
}

-- The calls that the parent makes up to the child's attempt with this number at the lock.
abbrev pub calls_in : ℕ → List ℕ → ℕ
calls_in zero turns = 0
calls_in (suc n) turns = head_turn turns + calls_in n (later_turns turns)

module _ (regs : Ucontext) (bytes : ℕ → ℕ) where
  abbrev action : Sigaction
  action = record sa { mask = bit_and sa.mask System.blockable }

  -- After the fork, with nothing that the parent has done since.
  abbrev forked_pair : Pair Globals
  forked_pair = record {
    process = record (fresh regs bytes) {
      mask = change_mask System.sig_block 0 System.sigfillset;
      actions =
          set_action
            (set_action
              (set_action
                (set_action (set_action (set_action (λ _. System.no_action) 34 action) 35 action) 36
                  action)
                37 action)
              38 action)
            39 action;
    };
    lock = 1;
    other = parent (pos own_pid);
    forked = true;
  }

  -- After so many calls of the parent.
  abbrev pair_at : ℕ → Pair Globals
  pair_at zero = forked_pair
  pair_at (suc k) = other_step (pair_at k)

  abbrev world_at : ℕ → List ℕ → World (Pair Globals × List ℕ) Globals
  world_at k turns = start (pair_at k, turns) initial

  abbrev ints :
      World (Pair Globals × List ℕ) Globals
      → Outcome (World (Pair Globals × List ℕ) Globals) (Unit {0})
  ints = interrupts (beside Globals) 8 signal_handler

  to_child :
      (rounds : ℕ) (turns : List ℕ)
      → run
          (beside Globals)
          8
          signal_handler
          (main rounds)
          (start (first_pair regs bytes, turns) initial)
        ≡ exec (beside Globals) ints (child rounds) (world_at 0 turns)
  unfolding run main exec interrupts
  to_child rounds turns = refl

  -- The parent has sent six signals and has released the lock after seven calls; then it waits.
  waiting : (m : ℕ) → pair_at (suc (suc (suc (suc (suc (suc (suc m))))))) ≡ pair_at 7
  unfolding parent
  waiting zero = refl
  waiting (suc m) = ap other_step (waiting m)

  busy :
      (j : ℕ) (turns : List ℕ)
      → j < 7
      → (answer_now (pair_at j) turns (System.atomic_exchange 1)
          ≡ some (System.returning (pos 1), (pair_at j, turns)))
        × (ints (world_at j turns) ≡ finished tt (world_at j turns))
  unfolding parent interrupts
  busy zero turns h = (refl, refl)
  busy (suc zero) turns h = (refl, refl)
  busy (suc (suc zero)) turns h = (refl, refl)
  busy (suc (suc (suc zero))) turns h = (refl, refl)
  busy (suc (suc (suc (suc zero)))) turns h = (refl, refl)
  busy (suc (suc (suc (suc (suc zero))))) turns h = (refl, refl)
  busy (suc (suc (suc (suc (suc (suc zero)))))) turns h = (refl, refl)
  busy (suc (suc (suc (suc (suc (suc (suc m))))))) turns h = absurd (omega arith)

  steps-add : (n k : ℕ) → other_steps n (pair_at k) ≡ pair_at (k + n)
  steps-add zero k = let e : k + 0 ≡ k = omega arith in rw e
  steps-add (suc n) k =
      let e : suc k + n ≡ k + suc n = omega arith in rw (← e) (steps-add n (suc k))

  pair_at-forked : (k : ℕ) → (pair_at k).forked ≡ true
  unfolding parent
  pair_at-forked zero = refl
  pair_at-forked (suc zero) = refl
  pair_at-forked (suc (suc zero)) = refl
  pair_at-forked (suc (suc (suc zero))) = refl
  pair_at-forked (suc (suc (suc (suc zero)))) = refl
  pair_at-forked (suc (suc (suc (suc (suc zero))))) = refl
  pair_at-forked (suc (suc (suc (suc (suc (suc zero)))))) = refl
  pair_at-forked (suc (suc (suc (suc (suc (suc (suc m))))))) = rw (waiting m)

  -- What a call of the child finds.
  asked :
      (k : ℕ) (turns : List ℕ) (c : Call)
      → (beside Globals).answer (pair_at k, turns) c
        ≡ answer_now (pair_at (k + head_turn turns)) (later_turns turns) c
  asked k turns c = rw (pair_at-forked k, steps-add (head_turn turns) k)

  waiting_at : (j : ℕ) → 7 ≤ j → pair_at j ≡ pair_at 7
  waiting_at (suc (suc (suc (suc (suc (suc (suc m))))))) h = waiting m
  waiting_at j h = absurd (omega arith)

  abbrev locked : Pair Globals
  locked = record (pair_at 7) { lock = 1 }

  locked-stays : (n : ℕ) → other_steps n locked ≡ locked
  unfolding parent
  locked-stays zero = refl
  locked-stays (suc n) = locked-stays n

  one_round :
      (rounds k : ℕ) (turns : List ℕ)
      → k + head_turn turns < 7
      → exec (beside Globals) ints (child (suc rounds)) (world_at k turns)
        ≡ exec
            (beside Globals)
            ints
            (child rounds)
            (world_at (k + head_turn turns) (later_turns turns))
  unfolding child
  one_round rounds k turns h =
      let (a, d) = busy (k + head_turn turns) (later_turns turns) h in
      exec-answered (beside Globals) ints (Call.atomic_exchange 1) _ (world_at k turns) _ _ _
        (asked k turns (Call.atomic_exchange 1) ∙ a) d

  -- The child after its attempt at the lock.
  abbrev after_lock : ℕ → Reply → Prog Globals ℕ
  unfolding child
  after_lock rounds r = elim (child (suc rounds)) [ call c k ↦ k r | _ ↦ spin ]

  abbrev unblock_all : Call
  unblock_all = Call.sigprocmask System.sig_unblock System.sigfillset

  abbrev after_unblock : Reply → Prog Globals ℕ
  unfolding child
  after_unblock r = elim (after_lock 0 (returning (pos 0))) [ call c k ↦ k r | _ ↦ spin ]

  abbrev opened : Pair Globals
  opened = record locked { process = record locked.process { mask = 0 } }

  -- Once the lock is free, the child serves its signals and passes.
  free_lock :
      (rounds k : ℕ) (turns : List ℕ)
      → 7 ≤ k + head_turn turns
      → ending (exec (beside Globals) ints (child (suc rounds)) (world_at k turns)) ≡ finished 0 tt
  unfolding exec interrupts child parent signal_handler
  free_lock rounds k turns h =
      let first =
        exec-answered (beside Globals) ints (Call.atomic_exchange 1) (λ r. after_lock rounds r)
          (world_at k turns) (start (locked, later_turns turns) initial) (returning (pos 0))
          (locked, later_turns turns)
          (asked k turns (Call.atomic_exchange 1)
            ∙ ap (λ p. answer_now p (later_turns turns) (Call.atomic_exchange 1))
                (waiting_at (k + head_turn turns) h))
          refl in
      let ts = later_turns turns in
      let second =
        exec-continues (beside Globals) ints unblock_all (λ r. after_unblock r)
          (start (locked, ts) initial) (returning (pos 0)) (opened, later_turns ts)
          (ap (λ p. answer_now p (later_turns ts) unblock_all) (locked-stays (head_turn ts))) in
      ap ending (first ∙ second)

  -- The child spins as long as the parent has not made its seven calls, and then passes.
  child_status :
      (rounds k : ℕ) (turns : List ℕ)
      → k < 7
      → ending (exec (beside Globals) ints (child rounds) (world_at k turns))
        ≡ (if leb 7 (k + calls_in rounds turns) then finished 0 tt else out_of_fuel)
  unfolding exec child
  child_status zero k turns h = let e : leb 7 (k + 0) ≡ false = ground arith in rw e
  child_status (suc rounds) k turns h = elim (dec_lt (k + head_turn turns) 7) [
    | yes more ↦
        let e : k + head_turn turns + calls_in rounds (later_turns turns)
            ≡ k + calls_in (suc rounds) turns =
          omega arith in
        rw (one_round rounds k turns more, ← e)
          (child_status rounds (k + head_turn turns) (later_turns turns) more)
    | no free ↦
        let e : leb 7 (k + calls_in (suc rounds) turns) ≡ true = ground arith in
        rw e (free_lock rounds k turns (omega arith))
  ]

-- The child and the parent together, their calls in any order, on the kernel `beside`: `main` returns 0
-- in the child exactly when the parent has sent its six signals and has released the lock, seven calls,
-- before the child's attempts at the lock end. Otherwise the run is out of attempts: it has not failed,
-- and no call has ended it.
pub rt_order_interleaved :
    (rounds : ℕ) (turns : List ℕ) (regs : Ucontext) (bytes : ℕ → ℕ)
    → ending (
        run
          (beside Globals)
          8
          signal_handler
          (main rounds)
          (start (first_pair regs bytes, turns) initial))
      ≡ (if leb 7 (calls_in rounds turns) then finished 0 tt else out_of_fuel)
rt_order_interleaved rounds turns regs bytes =
    let e : 0 + calls_in rounds turns ≡ calls_in rounds turns = omega arith in
    ap ending (to_child regs bytes rounds turns)
    ∙ child_status regs bytes rounds 0 turns (omega arith)
    ∙ ap (λ (n : ℕ). if leb 7 n then finished 0 tt else out_of_fuel) e
