-- ===== src/Stepping/TrapFlag/Order.antt =====
-- What a passing run of src/trap-flag.cpp says of the traps.
use signal_tests.Base.{
  ℕ, ◌∙◌, ◌+◌, ◌≡◌, ◌≢◌, ◌<◌, ◌⊎◌, inl, inr, refl, arith, List, [], ◌∷◌, ◌++◌, map, length,
  length-append, length-map, get_or, get_or-append_left, get_or-append_last, All, All-append, some,
  ◌==◌, ==_iff, bit_and, true, pos, ◌=ℤ=◌,
}
use native.Mathlib.Decide.{dec_lt}
use mathlib.Core.List.{map-append}
use signal_tests.System
use signal_tests.System.{Frame, Ucontext, Instruction}
use signal_tests.Program.{
  Prog, Kernel, World, finished, start, Passes, assert, pure, ◌>>=◌, ◌>>◌, globals,
}
use signal_tests.Program as Program
use signal_tests.Program.Bind.{IsReader, IsQuiet, settle}
use signal_tests.Program.Witness.{IsChecked}
use signal_tests.Program.Holds.{
  Holds, Holds-assert, Holds-bind, Holds-mono, Holds-reader, IsStable, IsStable-step,
}
use signal_tests.Program.HoldsRun.{passing-Holds}
use signal_tests.Stepping.Flags.{behind, before, execute_all, trap_flag}
use signal_tests.Stepping.TrapFlag.{Globals, initial, signal_handler, code, main}

abbrev pub rip_of : Frame → ℕ
rip_of f = f.ctx.rip

-- A trap behind a `nop`, with the trap flag set in the program and clear in the handler.
abbrev pub IsStep : Frame → Type 0
IsStep f =
    (f.info.si_code ≡ System.trap_trace)
    × (f.info.si_addr ≡ f.ctx.rip)
    × (bit_and f.ctx.efl 0x100 ≢ 0)
    × (f.ctx.err ≡ 0)
    × (f.ctx.trapno ≡ 1)
    × (trap_flag f.efl ≢ true)
    × (f.memory (before f.ctx.rip 1) ≡ 0x90)

signal_handler-IsChecked : IsChecked IsStep signal_handler
unfolding signal_handler
signal_handler-IsChecked f g = ground arith

signal_handler-IsQuiet : (f : Frame) → IsQuiet (signal_handler f)
unfolding signal_handler
signal_handler-IsQuiet f = ground arith

settle-signal_handler :
    (g h : Globals) (f : Frame) (c : Ucontext)
    → settle (signal_handler f) g ≡ some (c, h)
    → (h.count ≡ g.count + 1)
      × (h.expected_rip ≡ g.expected_rip)
      × (h.rip_ok ≡ true → g.rip_ok ≡ true)
      × (h.rip_ok ≡ true → f.ctx.rip ≡ before (behind g.expected_rip (g.count + 1)) 1)
unfolding signal_handler
settle-signal_handler g h f c e = (ground arith, ground arith, λ o. ground arith, λ o. ground arith)

-- Where the trap with this number comes: counted from the label, or, before the label is stored, from 0.
abbrev pub IsPlace : ℕ → List Frame → ℕ → Type 0
IsPlace label fs i =
    (get_or (map rip_of fs) i 0 ≡ behind 0 i) ⊎ (get_or (map rip_of fs) i 0 ≡ behind label i)

abbrev IsPlaced : ℕ → Globals → List Frame → Type 0
IsPlaced label g fs =
    (g.count ≡ length fs)
    × (g.expected_rip ≡ label)
    × (g.rip_ok ≡ true → (i : ℕ) → i < length fs → IsPlace label fs i)
    × All IsStep fs

behind-suc : (a n : ℕ) → before (behind a (n + 1)) 1 ≡ behind a n
behind-suc a n = omega arith

checked-IsStep :
    (g h : Globals) (f : Frame) (c : Ucontext)
    → settle (signal_handler f) g ≡ some (c, h)
    → IsStep f
checked-IsStep g h f c e = elim (signal_handler-IsChecked f g) [
  | inl refused ↦ absurd (cc (refused, e))
  | inr p ↦ p
]

module _ (label : ℕ) where
  IsPlace-old :
      (fs : List Frame) (f : Frame) (i : ℕ)
      → i < length fs
      → IsPlace label fs i
      → IsPlace label (fs ++ f ∷ []) i
  IsPlace-old fs f i l p =
      let same = length-map {0, 0} fs rip_of in
      rw
        (
          map-append rip_of fs (f ∷ []),
          get_or-append_left (map rip_of fs) (map rip_of (f ∷ [])) i 0 (omega arith),
        )
        p

  IsPlace-new :
      (fs : List Frame) (f : Frame) (i : ℕ)
      → i ≡ length fs
      → f.ctx.rip ≡ behind label i
      → IsPlace label (fs ++ f ∷ []) i
  IsPlace-new fs f i l p =
      let same = length-map {0, 0} fs rip_of in
      inr (
        rw (map-append rip_of fs (f ∷ []))
          (get_or-append_last (map rip_of fs) f.ctx.rip i 0 (omega arith) ∙ p))

  IsPlaced-IsStable : IsStable signal_handler (IsPlaced label)
  IsPlaced-IsStable = IsStable-step signal_handler (IsPlaced label) step
    where
      step :
          (g h : Globals) (fs : List Frame) (f : Frame) (c : Ucontext)
          → IsPlaced label g fs
          → settle (signal_handler f) g ≡ some (c, h)
          → IsPlaced label h (fs ++ f ∷ [])
      step g h fs f c (n, x, r, all) e =
          let (m, x', o, q) = settle-signal_handler g h f c e in
          let long = length-append {0} fs (f ∷ []) in
          (
            omega arith,
            x' ∙ x,
            λ ok i l. elim (dec_lt i (length fs)) [
              | yes old ↦ IsPlace-old fs f i old (r (o ok) i old)
              | no new ↦
                  let last : i ≡ g.count = omega arith in
                  IsPlace-new fs f i (omega arith)
                    (q ok ∙ behind-suc g.expected_rip g.count ∙ rw (x, ← last))
            ],
            All-append IsStep fs (f ∷ []) all (checked-IsStep g h f c e, tt),
          )

execute_all-IsReader : (is : List Instruction) → IsReader (execute_all {G = Globals} is)
execute_all-IsReader [] = tt
execute_all-IsReader (i ∷ is) = λ r. execute_all-IsReader is

-- Ten steps.
abbrev pub IsTraced : Globals → List Frame → Type 0
IsTraced g fs = (length fs ≡ 10) × ((i : ℕ) → i < 10 → IsPlace g.expected_rip fs i) × All IsStep fs

last_checks : Prog Globals ℕ
last_checks = do g ← globals; assert g.rip_ok; h ← globals; assert (h.count == 10); pure 0

last_checks-Holds :
    (label : ℕ) (g : Globals) (fs : List Frame)
    → IsPlaced label g fs
    → Holds signal_handler (λ a h gs. a ≡ 0 → IsTraced h gs) last_checks g fs
unfolding last_checks
last_checks-Holds label g fs (n, x, r, all) = Holds-assert signal_handler Q g.rip_ok _ g fs λ ok.
    Holds-assert signal_handler Q (g.count == 10) (pure 0) g fs λ c _.
      let ten = (==_iff g.count 10).0 c in (omega arith, λ i l. rw x (r ok i (omega arith)), all)
  where
    Q : ℕ → Globals → List Frame → Type 0
    Q a h gs = a ≡ 0 → IsTraced h gs

main-Holds : Holds signal_handler (λ a h gs. a ≡ 0 → IsTraced h gs) main initial []
unfolding main last_checks
main-Holds r gs0 h0 a0 =
    Holds-assert signal_handler Q (r.result =ℤ= pos 0) _ h0 _ λ _ label gs1 h1 a1.
      let (n, x, p, all) =
        stable 0 h0 h1 gs0 gs1
          (stable 0 initial h0 [] gs0 (refl, refl, λ ok i l. absurd (omega arith), tt) a0) a1 in
      let g1 : Globals = record h1 { expected_rip = label.address } in
      Holds-bind signal_handler Q (execute_all code) (λ _. last_checks) g1 (gs0 ++ gs1)
        (Holds-mono signal_handler (λ _. IsPlaced label.address)
          (λ _. Holds signal_handler Q last_checks) (execute_all code) g1 (gs0 ++ gs1)
          (λ _ h gs known. last_checks-Holds label.address h gs known)
          (Holds-reader signal_handler (IsPlaced label.address) (stable label.address)
            (execute_all code) g1 (gs0 ++ gs1) (execute_all-IsReader code)
            (n, refl, (λ ok i l. elim (p ok i l) [ inl a ↦ inl a | inr a ↦ inl a ]), all)))
  where
    Q : ℕ → Globals → List Frame → Type 0
    Q a h gs = a ≡ 0 → IsTraced h gs

    stable : (e : ℕ) → IsStable signal_handler (IsPlaced e)
    stable e = IsPlaced-IsStable e

-- Whatever the kernel does, a run that passes has started the handler for exactly ten traps, each behind
-- a `nop`, the trap flag set in the program and clear in the handler, and one after the other from the
-- label on, or from 0 as long as the address of the label is not stored.
pub trap_flag_traps :
    (kern : Kernel) (fuel : ℕ) (s : kern.State)
    → Passes kern fuel signal_handler main s initial
    → (w : World kern.State Globals) × (Program.run kern fuel signal_handler main (start s initial)
        ≡ finished 0 w)
      × IsTraced w.globals w.served
trap_flag_traps kern fuel s passes =
    passing-Holds kern signal_handler signal_handler-IsQuiet IsTraced fuel main s initial main-Holds
      passes
