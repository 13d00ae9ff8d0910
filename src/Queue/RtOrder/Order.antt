-- ===== src/Queue/RtOrder/Order.antt =====
-- What a passing run of src/rt-order.cpp says of the signals that were handled.
use signal_tests.Base.{
  ℕ, zero, suc, ◌+◌, ◌≡◌, refl, ◌⊎◌, inl, inr, none, some, [], ◌∷◌, map, arith, ◌==◌, ==_iff,
  Bool-cases, pos, ◌=ℤ=◌,
}
use signal_tests.Program.{
  Prog, get, ◌>>◌, pure, assert, Kernel, World, finished, run, start, Passes,
}
use signal_tests.Program.Bind.{
  IsReader, IsQuiet, Ends, IsReader-bind, Ends-bind, IsReader-assert, Ends-assert, settle,
}
use signal_tests.Program.Script.{Script}
use signal_tests.Program.Checked.{passing_script}
use signal_tests.System.{Frame}
use signal_tests.Queue.RtOrder.{Globals, initial, wait_lock, child_steps, child, signal_handler}

signal_handler-accepts :
    (f : Frame) (g : Globals)
    → f.sig ≡ g.now_servicing
    → settle (signal_handler f) g
      ≡ some (f.ctx, record { now_servicing = g.now_servicing + 1; serviced = g.serviced + 1 })
unfolding signal_handler
signal_handler-accepts f g e = ground arith

signal_handler-only :
    (f : Frame) (g : Globals) → (settle (signal_handler f) g ≡ none) ⊎ (f.sig ≡ g.now_servicing)
unfolding signal_handler
signal_handler-only f g = ground arith

abbrev script : Script ℕ signal_handler
script = record {
  message = λ f. f.sig;
  due = λ c. c;
  count = λ g. g.now_servicing;
  next = λ g. record { now_servicing = g.now_servicing + 1; serviced = g.serviced + 1 };
  value = λ f. f.ctx;
  counts = λ g. refl;
  accepts = signal_handler-accepts;
  only = signal_handler-only;
}

signal_handler-IsQuiet : (f : Frame) → IsQuiet (signal_handler f)
unfolding signal_handler
signal_handler-IsQuiet f g = ground arith

wait_lock-IsReader : (rounds : ℕ) → IsReader (wait_lock rounds)
unfolding wait_lock
wait_lock-IsReader zero = tt
wait_lock-IsReader (suc rounds) = λ r. elim (Bool-cases (r.result =ℤ= pos 0)) [
  | inl e ↦ rw e tt
  | inr e ↦ rw e (wait_lock-IsReader rounds)
]

child_steps-IsReader : (rounds : ℕ) → IsReader (child_steps rounds)
unfolding child_steps
child_steps-IsReader rounds =
    IsReader-bind (wait_lock rounds) _ (wait_lock-IsReader rounds) (λ _ r. tt)

-- The last checks of the child fail unless the count and the next signal are right.
abbrev checks : Globals → Prog Globals ℕ
checks g = assert (g.serviced == 6) >> get (λ h. assert (h.now_servicing == 40) >> pure 0)

checks-IsReader : (g : Globals) → IsReader (checks g)
checks-IsReader g =
    IsReader-assert (g.serviced == 6) _
      λ h. IsReader-assert (h.now_servicing == 40) (pure {A = ℕ} 0) tt

checks-Ends : (g : Globals) → Ends (λ i. i.now_servicing ≡ 40) (checks g) g
checks-Ends g =
    Ends-assert _ (g.serviced == 6) _ g
      λ _. Ends-assert _ (g.now_servicing == 40) (pure 0) g λ e _. (==_iff _ 40).0 e

-- Whatever the kernel does, a child that passes has started the handler for the signals 34 to 39, once
-- each and in this order, which is not the order in which the parent sends them.
pub rt_order_sequence :
    (kern : Kernel) (rounds fuel : ℕ) (s : kern.State)
    → Passes kern fuel signal_handler (child rounds) s initial
    → (w : World kern.State Globals) × (run kern fuel signal_handler
          (child rounds)
          (start s initial)
        ≡ finished 0 w)
      × (map (λ f. f.sig) w.served ≡ 34 ∷ 35 ∷ 36 ∷ 37 ∷ 38 ∷ 39 ∷ [])
unfolding child
rt_order_sequence kern rounds fuel s passes =
    passing_script signal_handler script kern 6 fuel (child rounds) s initial signal_handler-IsQuiet
      (IsReader-bind (child_steps rounds) (λ _. get checks) (child_steps-IsReader rounds)
        (λ _. checks-IsReader))
      (λ h.
        Ends-bind _ (child_steps rounds) (λ _. get checks) h (child_steps-IsReader rounds)
          (λ _. checks-Ends))
      passes
