-- ===== src/Threads/Model.antt =====
-- A process of two threads. A thread goes on, without a break, from one call to the next; between that
-- the other thread and handlers run. What the system does is a list of events.
use signal_tests.Base.{
  ℕ, Bool, true, false, ◌&&◌, List, [], ◌∷◌, ◌++◌, Option, none, some, pos, ◌=ℤ=◌, if◌then◌else◌,
}
use signal_tests.Program.{Prog, ret, exit, call, get, put, ◌>>=◌}
use signal_tests.System.{Ucontext, Frame, Call, Reply}

-- The thread of `main`, and the one that it creates.
pub data Thread : Type 0 where
  first second : Thread

-- What the system does next: a thread gets the answer of the call in which it waits, or a handler
-- starts in it.
pub data Event : Type 0 where
  reply : Thread → Reply → Event
  interrupt : Thread → Frame → Event

-- What has happened.
pub data Entry : Type 0 where
  answered : Thread → Call → Reply → Entry
  started : Thread → Frame → Entry

-- The threads share the globals. `child` is none before it is created; `status` is how the process has
-- ended.
pub record Machine (G : Type 0) : Type 0 where
  pub globals : G
  pub main : Prog G ℕ
  pub child : Option (Prog G ℕ)
  pub log : List Entry
  pub status : Option ℕ

abbrev pub is_create : Call → Bool
is_create Call.pthread_create = true
is_create c = false

abbrev pub is_join : Call → Bool
is_join Call.pthread_join = true
is_join c = false

module _ {G : Type 0} where
  -- To the next call, or to the end.
  abbrev pub advance : Prog G ℕ → G → Prog G ℕ × G
  advance (get k) g = advance (k g) g
  advance (put h p) g = advance p h
  advance p g = (p, g)

  -- The end of `main` is the end of the process; `exit` is, in any thread.
  abbrev pub settle_main : Machine G → Prog G ℕ × G → Machine G
  settle_main m (ret n, g) = record m { globals = g; main = ret n; status = some n }
  settle_main m (exit n, g) = record m { globals = g; main = exit n; status = some n }
  settle_main m (p, g) = record m { globals = g; main = p }

  abbrev pub settle_child : Machine G → Prog G ℕ × G → Machine G
  settle_child m (exit n, g) = record m { globals = g; child = some (exit n); status = some n }
  settle_child m (p, g) = record m { globals = g; child = some p }

  abbrev pub resume : Thread → Machine G → Prog G ℕ → Machine G
  resume first m p = settle_main m (advance p m.globals)
  resume second m p = settle_child m (advance p m.globals)

  abbrev pub note : Entry → Machine G → Machine G
  note e m = record m { log = m.log ++ e ∷ [] }

  abbrev pub has_returned : Option (Prog G ℕ) → Bool
  has_returned (some (ret n)) = true
  has_returned _ = false

  abbrev pub is_absent : Option (Prog G ℕ) → Bool
  is_absent none = true
  is_absent (some p) = false

  -- A thread is created once, and is joined only when it has returned.
  abbrev pub admitted : Call → Reply → Option (Prog G ℕ) → Bool
  admitted c r child =
      if is_join c && r.result =ℤ= pos 0
      then has_returned child
      else if is_create c && r.result =ℤ= pos 0
      then is_absent child
      else true

abbrev pub while_going : {A : Type 0} → Option ℕ → Option A → Option A
while_going none o = o
while_going (some n) o = none

module _ {G : Type 0} (code : Frame → Prog G Ucontext) (thread_main : Prog G ℕ) where
  -- A thread that has been created waits for its turn.
  abbrev pub newborn : Prog G ℕ
  newborn = call Call.thread_start (λ _. thread_main)

  abbrev pub birth : Call → Reply → Machine G → Machine G
  birth c r m = record m {
    child = if is_create c && r.result =ℤ= pos 0 then some newborn else m.child;
  }

  abbrev pub answer_main : Machine G → Reply → Prog G ℕ → Option (Machine G)
  answer_main m r (call c k) =
      if admitted c r m.child
      then some (resume first (note (answered first c r) (birth c r m)) (k r))
      else none
  answer_main m r p = none

  abbrev pub answer_child : Machine G → Reply → Option (Prog G ℕ) → Option (Machine G)
  answer_child m r (some (call c k)) =
      if admitted c r m.child
      then some (resume second (note (answered second c r) m) (k r))
      else none
  answer_child m r p = none

  -- The handler runs, and then the thread goes on to wait.
  abbrev pub enter_main : Machine G → Frame → Prog G ℕ → Option (Machine G)
  enter_main m f (call c k) =
      some (resume first (note (started first f) m) (code f >>= λ _. call c k))
  enter_main m f p = none

  abbrev pub enter_child : Machine G → Frame → Option (Prog G ℕ) → Option (Machine G)
  enter_child m f (some (call c k)) =
      some (resume second (note (started second f) m) (code f >>= λ _. call c k))
  enter_child m f p = none

  abbrev pub fire : Event → Machine G → Option (Machine G)
  fire (reply first r) m = answer_main m r m.main
  fire (reply second r) m = answer_child m r m.child
  fire (interrupt first f) m = enter_main m f m.main
  fire (interrupt second f) m = enter_child m f m.child

  -- Nothing happens after the end. None: the list is no run of the program.
  unfoldable pub fire_all : List Event → Machine G → Option (Machine G)
  fire_all [] m = some m
  fire_all (e ∷ es) m =
      while_going m.status (elim (fire e m) [ none ↦ none | some m' ↦ fire_all es m' ])

  abbrev pub begin : Prog G ℕ → G → Machine G
  begin main g =
      settle_main (record { globals = g; main = main; child = none; log = []; status = none })
        (advance main g)
