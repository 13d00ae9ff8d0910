-- ===== src/Program/Script.antt =====
-- Handlers that wait for a given sequence of signals and fail on any other.
use signal_tests.Base.{
  ℕ, zero, suc, ◌+◌, ◌≡◌, refl, ◌↔◌, ◌⊎◌, inl, inr, ap, List, [], ◌∷◌, map, none, some, length,
  length-map, range, arith,
}
use signal_tests.System.{Frame}
use signal_tests.Program.Defs.{Prog}
use signal_tests.Program.Bind.{settle, after}

-- A handler that goes on, to `next`, exactly when the message is the one due at this count.
pub record Script {G A : Type 0} (M : Type 0) (code : Frame → Prog G A) : Type 0 where
  pub message : Frame → M
  pub due : ℕ → M
  pub count : G → ℕ
  pub next : G → G
  pub value : Frame → A
  pub counts : (g : G) → count (next g) ≡ count g + 1
  pub accepts :
      (f : Frame) (g : G) → message f ≡ due (count g) → settle (code f) g ≡ some (value f, next g)
  pub only : (f : Frame) (g : G) → (settle (code f) g ≡ none) ⊎ (message f ≡ due (count g))

abbrev head_or : {M : Type 0} → M → List M → M
head_or d [] = d
head_or d (x ∷ xs) = x

abbrev rest_of : {M : Type 0} → List M → List M
rest_of [] = []
rest_of (x ∷ xs) = xs

abbrev pub iterate : {G : Type 0} → (G → G) → ℕ → G → G
iterate f zero g = g
iterate f (suc n) g = iterate f n (f g)

module _ {G A M : Type 0} (code : Frame → Prog G A) (script : Script M code) where
  open script use {message, due, count, next, value, counts, accepts, only}

  -- The frames that the handler goes through carry the messages that were due, in order.
  pub after-due :
      (fs : List Frame) (g h : G)
      → after code fs g ≡ some h
      → (map message fs ≡ map due (range (count g) (length fs))) × (h ≡ iterate next (length fs) g)
  after-due [] g h e = (refl, cc)
  after-due (f ∷ fs) g h e = elim (only f g) [
    | inl refused ↦ absurd (cc (rw refused at e))
    | inr d ↦
        let rest = after-due fs (next g) h (rw (accepts f g d) at e) in
        (rw (d, rest.0, counts g), rest.1)
  ]

  -- And it goes through all of these.
  pub due-after :
      (fs : List Frame) (g : G)
      → map message fs ≡ map due (range (count g) (length fs))
      → after code fs g ≡ some (iterate next (length fs) g)
  due-after [] g e = refl
  due-after (f ∷ fs) g e =
      rw (accepts f g (ap (head_or (due 0)) e))
        (due-after fs (next g) (rw (counts g) (ap rest_of e)))

  pub count-iterate : (n : ℕ) (g : G) → count (iterate next n g) ≡ count g + n
  count-iterate zero g = omega arith
  count-iterate (suc n) g = omega (arith, count-iterate n (next g), counts g)

  length-due : (start n : ℕ) → length (map due (range start n)) ≡ n
  length-due start zero = refl
  length-due start (suc n) = ap suc (length-due (start + 1) n)

  -- A sequence of frames leads to the state after `n` messages exactly when it is those messages.
  pub script_exact :
      (fs : List Frame) (g : G) (n : ℕ)
      → (after code fs g ≡ some (iterate next n g)) ↔ (map message fs ≡ map due (range (count g) n))
  script_exact fs g n = (
    λ e.
        let (m, h) = after-due fs g (iterate next n g) e in
        let same : n ≡ length fs =
          omega (arith, count-iterate n g, count-iterate (length fs) g, ap count h) in
        rw same m,
    λ m.
        let same : length fs ≡ n =
          omega (arith, length-map fs message, ap length m, length-due (count g) n) in
        rw (← same) (due-after fs g (rw same m)),
  )
