-- ===== src/Threads/Log.antt =====
-- How the log grows, seen from one thread.
use signal_tests.Base.{ℕ, ◌+◌, arith, ◌≡◌, refl, sym, ◌⊎◌, inl, inr, List, [], ◌∷◌, ◌++◌}
use mathlib.Core.List.{append-nil, append_assoc}
use signal_tests.System.{Frame, Call, Reply}
use signal_tests.Threads.Model.{Thread, Entry, answered, started}

-- Some entry has `P`.
abbrev pub Any : (Entry → Type 0) → List Entry → Type 0
Any P [] = ⊥
Any P (e ∷ es) = P e ⊎ Any P es

pub Any-more : (P : Entry → Type 0) (l more : List Entry) → Any P l → Any P (l ++ more)
Any-more P [] more h = absurd h
Any-more P (e ∷ es) more (inl h) = inl h
Any-more P (e ∷ es) more (inr h) = inr (Any-more P es more h)

pub Any-last : (P : Entry → Type 0) (l : List Entry) (e : Entry) → P e → Any P (l ++ e ∷ [])
Any-last P [] e h = inl h
Any-last P (x ∷ l) e h = inr (Any-last P l e h)

-- An answer with `P`.
abbrev pub Answers : (Thread → Call → Reply → Type 0) → Entry → Type 0
Answers P (answered t c r) = P t c r
Answers P (started t f) = ⊥

-- A handler that has started with `P`.
abbrev pub Starts : (Thread → Frame → Type 0) → Entry → Type 0
Starts P (answered t c r) = ⊥
Starts P (started t f) = P t f

-- Every handler that has started in this thread has `Good`.
abbrev pub Clean : (Frame → Type 0) → Thread → List Entry → Type 0
Clean Good t [] = Unit
Clean Good t (answered u c r ∷ es) = Clean Good t es
Clean Good t (started u f ∷ es) = (u ≡ t → Good f) × Clean Good t es

-- How many handlers have started.
abbrev pub starts : List Entry → ℕ
starts [] = 0
starts (answered t c r ∷ l) = starts l
starts (started t f ∷ l) = starts l + 1

pub starts-append : (xs ys : List Entry) → starts (xs ++ ys) ≡ starts xs + starts ys
starts-append [] ys = omega arith
starts-append (answered t c r ∷ xs) ys = starts-append xs ys
starts-append (started t f ∷ xs) ys = omega (arith, starts-append xs ys)

module _ (Good : Frame → Type 0) (t : Thread) where
  pub Clean-append :
      (xs ys : List Entry) → Clean Good t xs → Clean Good t ys → Clean Good t (xs ++ ys)
  Clean-append [] ys h k = k
  Clean-append (answered u c r ∷ xs) ys h k = Clean-append xs ys h k
  Clean-append (started u f ∷ xs) ys h k = (h.0, Clean-append xs ys h.1 k)

  -- The log has grown, and the handlers that have started in this thread since then have `Good`.
  abbrev pub Later : List Entry → List Entry → Type 0
  Later l l' = (more : List Entry) × (l' ≡ l ++ more) × Clean Good t more

  pub Later-now : (l : List Entry) → Later l l
  Later-now l = ([], sym (append-nil l), tt)

  pub Later-entry : (l : List Entry) (e : Entry) → Clean Good t (e ∷ []) → Later l (l ++ e ∷ [])
  Later-entry l e h = (e ∷ [], refl, h)

  pub Later-trans : (a b c : List Entry) → Later a b → Later b c → Later a c
  Later-trans a b c (m, e, h) (n, d, k) =
      (m ++ n, rw (d, e, append_assoc a m n), Clean-append m n h k)

  pub Later-Any : (P : Entry → Type 0) (l l' : List Entry) → Later l l' → Any P l → Any P l'
  Later-Any P l l' (m, e, _) h = rw e (Any-more P l m h)

  pub Later-Clean : (l l' : List Entry) → Later l l' → Clean Good t l → Clean Good t l'
  Later-Clean l l' (m, e, k) h = rw e (Clean-append l m h k)
