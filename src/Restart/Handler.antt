-- ===== src/Restart/Handler.antt =====
-- The handler that src/restartable-read.cpp, restartable-write.cpp and restartable-sem_wait.cpp share but
-- for the number of the call.
use signal_tests.Base.{
  ℕ, ℤ, ◌+◌, ◌≡◌, Bool, true, List, [], ◌∷◌, ◌++◌, pos, ◌==◌, ==_iff, ◌=ℤ=◌, =ℤ=_iff,
}
use signal_tests.Program.{Prog, ◌>>=◌, ◌>>◌, pure, assert, sys, globals, set_globals}
use signal_tests.System
use signal_tests.System.{Frame, Call, Arch, Ucontext}
use signal_tests.Threads.{
  Thread, Entry, answered, started, Any, Any-more, Any-last, Starts, Later-Any, Contract, Keeps,
  Keeps-assert,
}

-- A restarted call: the frame returns to the system call instruction, with its number in the register.
-- `child_tid` and `mark` read the one global and set the other, `signal_got`.
abbrev pub restart_handler :
    {G : Type 0} → (G → ℤ) → (G → G) → (Arch → ℕ) → Arch → Frame → Prog G Ucontext
restart_handler child_tid mark number arch f = do
  t ← sys Call.gettid
  g ← globals
  assert (t.result =ℤ= child_tid g)
  assert (f.memory f.ctx.rip == System.syscall_first arch)
  assert (f.memory (f.ctx.rip + 1) == System.syscall_second arch)
  assert (f.ctx.rax =ℤ= pos (number arch))
  h ← globals
  set_globals (mark h)
  pure f.ctx

-- A frame that goes back to the call with this number.
abbrev pub IsRestarting : (Arch → ℕ) → Arch → Frame → Type 0
IsRestarting number arch f =
    (f.memory f.ctx.rip ≡ System.syscall_first arch)
    × (f.memory (f.ctx.rip + 1) ≡ System.syscall_second arch)
    × (f.ctx.rax ≡ pos (number arch))

-- A handler for such a frame has started.
abbrev pub Restarts : (Arch → ℕ) → Arch → Entry → Type 0
Restarts number arch = Starts (λ t f. IsRestarting number arch f)

module _ {G : Type 0} (child_tid : G → ℤ) (mark : G → G) (signal_got : G → Bool) (number : Arch → ℕ)
    (arch : Arch) (Joined : List Entry → Type 0) where
  -- `signal_got` tells of a handler.
  abbrev pub restart_contract : Contract G
  restart_contract = record {
    Shared = λ g l. signal_got g ≡ true → Any (Restarts number arch) l;
    Good = λ f. Unit;
    Joined = Joined;
  }

  pub restart-more :
      (g : G) (l : List Entry) (e : Entry)
      → restart_contract.Shared g l
      → restart_contract.Shared g (l ++ e ∷ [])
  restart-more g l e h = λ x. Any-more (Restarts number arch) l (e ∷ []) (h x)

  pub restart-handles :
      (t : Thread) (f : Frame) (g : G) (l : List Entry)
      → restart_contract.Shared g l
      → Keeps restart_contract t
          (λ _ _. Unit)
          (restart_handler child_tid mark number arch f)
          g
          (l ++ started t f ∷ [])
  restart-handles t f g l h = (
    restart-more g l (started t f) h,
    λ r i l' y s _. Keeps-assert restart_contract t _ (r.result =ℤ= child_tid i) _ i _ λ _.
        Keeps-assert restart_contract t _ (f.memory f.ctx.rip == System.syscall_first arch) _ i _
          λ e1.
            Keeps-assert restart_contract t _
              (f.memory (f.ctx.rip + 1) == System.syscall_second arch) _ i _
              λ e2. Keeps-assert restart_contract t _ (f.ctx.rax =ℤ= pos (number arch)) _ i _ λ e3.
                let found : IsRestarting number arch f = (
                  (==_iff (f.memory f.ctx.rip) (System.syscall_first arch)).0 e1,
                  (==_iff (f.memory (f.ctx.rip + 1)) (System.syscall_second arch)).0 e2,
                  (=ℤ=_iff f.ctx.rax (pos (number arch))).0 e3,
                ) in
                (
                  (λ _. Any-more (Restarts number arch) l' (answered t Call.gettid r ∷ []) (
                      Later-Any (λ _. Unit) t (Restarts number arch) (l ++ started t f ∷ []) l' y
                        (Any-last (Restarts number arch) l (started t f) found))),
                  tt,
                ),
  )
