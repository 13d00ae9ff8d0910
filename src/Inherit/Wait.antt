-- ===== src/Inherit/Wait.antt =====
-- A parent that waits for its child: what the status says, and on which side of fork(2) a process is.
use signal_tests.Base.{
  ℕ, ℤ, ◌≡◌, ◌*◌, ◌%◌, ◌<◌, arith, inl, inr, true, ◌&&◌, ◌==◌, List, [], ◌∷◌, pos,
}
use signal_tests.System
use signal_tests.System.{Call, Reply}
use signal_tests.Threads.{Thread, Entry, answered, started, Any, Answers}

-- waitpid(2) has told of a child that has exited with 0.
abbrev pub HasWaited : Thread → Call → Reply → Type 0
HasWaited t c r =
    ((pid : ℤ) × (c ≡ Call.waitpid pid 0))
    × (System.wifexited r.status ≡ true)
    × (System.wexitstatus r.status ≡ 0)

-- fork(2) has answered 0.
abbrev pub IsChildSide : Thread → Call → Reply → Type 0
IsChildSide t c r = (c ≡ Call.fork) × (r.result ≡ pos 0)

-- The status of a process that has exited.
abbrev pub exit_word : ℕ → ℕ
exit_word n = n % 256 * 256

pub wexitstatus-exit_word : (n : ℕ) → n < 256 → System.wexitstatus (exit_word n) ≡ n
wexitstatus-exit_word n h = omega arith

-- Each answer of waitpid(2) is the status of a process that has exited with `n`.
abbrev pub TellsEnd : ℕ → List Entry → Type 0
TellsEnd n [] = Unit
TellsEnd n (started t f ∷ l) = TellsEnd n l
TellsEnd n (answered t c r ∷ l) =
    ((pid : ℤ) → c ≡ Call.waitpid pid 0 → r.status ≡ exit_word n) × TellsEnd n l

pub status_of_child :
    (n : ℕ) (l : List Entry) → n < 256 → TellsEnd n l → Any (Answers HasWaited) l → n ≡ 0
status_of_child n [] small tells has = absurd has
status_of_child n (started t f ∷ l) small tells (inl has) = absurd has
status_of_child n (started t f ∷ l) small tells (inr has) = status_of_child n l small tells has
status_of_child n (answered t c r ∷ l) small tells (inl ((pid, same), exited, zero_end)) =
    let word : r.status ≡ exit_word n = tells.0 pid same in
    omega (arith, wexitstatus-exit_word n small)
status_of_child n (answered t c r ∷ l) small tells (inr has) = status_of_child n l small tells.1 has

-- What the assertion on the status says.
pub exited_well :
    (status : ℕ)
    → (System.wifexited status && (System.wexitstatus status == 0)) ≡ true
    → (System.wifexited status ≡ true) × (System.wexitstatus status ≡ 0)
exited_well status e = ground arith
