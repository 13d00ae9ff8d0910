-- ===== src/Stepping/PopfClear/Order.antt =====
-- What a passing run of src/trap-flag-popf-clear.cpp says of the traps.
use signal_tests.Base.{
  ℕ, Bool, ap, sym, ◌∙◌, zero, suc, ◌+◌, ◌≡◌, ◌<◌, refl, arith, List, [], ◌∷◌, ◌++◌, map, length,
  length-append, length-map, get_or, get_or-append_left, get_or-append_last, list-ext, some, ltb,
  ◌==◌, if◌then◌else◌, ==_iff, bit_and, inl, inr, Bool-cases, true, not, pos, ◌=ℤ=◌,
}
use native.Mathlib.Decide.{dec_lt}
use mathlib.Core.List.{map-append}
use signal_tests.System.{Frame, Ucontext, Instruction}
use signal_tests.Program.{
  Prog, Kernel, World, finished, start, Passes, for, assert, pure, ◌>>=◌, ◌>>◌, sys,
}
use signal_tests.Program as Program
use signal_tests.Program.Bind.{IsReader, IsQuiet, settle}
use signal_tests.Program.Holds.{
  Holds, Holds-assert, Holds-bind, Holds-mono, Holds-reader, IsStable, IsStable-step,
}
use signal_tests.Program.HoldsRun.{passing-Holds}
use signal_tests.Stepping.Flags.{behind, execute_all, get_tf, trap_flag}
use signal_tests.Stepping.PopfClear.{
  Globals, initial, signal_handler, write_rip, checks, code, main,
}

abbrev pub rip_of : Frame → ℕ
rip_of f = f.ctx.rip

-- The array holds the places of the traps so far.
abbrev IsRecorded : Globals → List Frame → Type 0
IsRecorded g fs =
    (g.count ≡ length fs)
    × ((i : ℕ) → i < length fs → i < 16 → g.rips i ≡ get_or (map rip_of fs) i 0)

settle-signal_handler :
    (g h : Globals) (f : Frame) (c : Ucontext)
    → settle (signal_handler f) g ≡ some (c, h)
    → (h.count ≡ g.count + 1)
      × (h.rips ≡ (if ltb g.count 16 then write_rip g.rips g.count f.ctx.rip else g.rips))
unfolding signal_handler
settle-signal_handler g h f c e = ground arith

written-before :
    (rips : ℕ → ℕ) (c i rip : ℕ)
    → i < c
    → (if ltb c 16 then write_rip rips c rip else rips) i ≡ rips i
written-before rips c i rip h = elim (Bool-cases (ltb c 16)) [
  | inl e ↦ rw e (ground arith)
  | inr e ↦ rw e refl
]

written-now :
    (rips : ℕ → ℕ) (c i rip : ℕ)
    → i ≡ c
    → i < 16
    → (if ltb c 16 then write_rip rips c rip else rips) i ≡ rip
written-now rips c i rip h l = let e : ltb c 16 ≡ true = ground arith in rw e (ground arith)

IsRecorded-step :
    (g h : Globals) (fs : List Frame) (f : Frame) (c : Ucontext)
    → IsRecorded g fs
    → settle (signal_handler f) g ≡ some (c, h)
    → IsRecorded h (fs ++ f ∷ [])
IsRecorded-step g h fs f c (n, r) e =
    let (m, q) = settle-signal_handler g h f c e in
    let long = length-append {0} fs (f ∷ []) in
    let same = length-map {0, 0} fs rip_of in
    (
      omega arith,
      λ i l s.
          rw (ap (λ (x : ℕ → ℕ). x i) q, map-append rip_of fs (f ∷ []))
            (elim (dec_lt i (length fs)) [
              | yes old ↦
                  written-before g.rips g.count i f.ctx.rip (omega arith)
                  ∙ r i old s
                  ∙ sym (get_or-append_left (map rip_of fs) _ i 0 (omega arith))
              | no new ↦
                  written-now g.rips g.count i f.ctx.rip (omega arith) s
                  ∙ sym (get_or-append_last (map rip_of fs) f.ctx.rip i 0 (omega arith))
            ]),
    )

IsRecorded-IsStable : IsStable signal_handler IsRecorded
IsRecorded-IsStable = IsStable-step signal_handler IsRecorded IsRecorded-step

execute_all-IsReader : (is : List Instruction) → IsReader (execute_all {G = Globals} is)
execute_all-IsReader [] = tt
execute_all-IsReader (i ∷ is) = λ r. execute_all-IsReader is

-- The distances of the traps from the label.
abbrev pub distances : List ℕ
distances = 0 ∷ 1 ∷ 2 ∷ 3 ∷ 4 ∷ 5 ∷ 12 ∷ 13 ∷ []

-- Where the traps came.
abbrev IsTraced : Globals → List Frame → Type 0
IsTraced g fs = map rip_of fs ≡ map (behind g.expected_rip) distances

eight :
    (g : Globals) (fs : List Frame)
    → IsRecorded g fs
    → g.count ≡ 8
    → g.rips 0 ≡ behind g.expected_rip 0
    → g.rips 1 ≡ behind g.expected_rip 1
    → g.rips 2 ≡ behind g.expected_rip 2
    → g.rips 3 ≡ behind g.expected_rip 3
    → g.rips 4 ≡ behind g.expected_rip 4
    → g.rips 5 ≡ behind g.expected_rip 5
    → g.rips 6 ≡ behind g.expected_rip 12
    → g.rips 7 ≡ behind g.expected_rip 13
    → IsTraced g fs
eight g fs (n, r) c r0 r1 r2 r3 r4 r5 r6 r7 =
    let same = length-map {0, 0} fs rip_of in
    list-ext _ _ (omega arith) (λ i l. entry i (omega arith) (r i (omega arith) (omega arith)))
  where
    entry :
        (i : ℕ)
        → i < 8
        → g.rips i ≡ get_or (map rip_of fs) i 0
        → get_or (map rip_of fs) i 0 ≡ get_or (map (behind g.expected_rip) distances) i 0
    entry zero l e = sym e ∙ r0
    entry (suc zero) l e = sym e ∙ r1
    entry (suc (suc zero)) l e = sym e ∙ r2
    entry (suc (suc (suc zero))) l e = sym e ∙ r3
    entry (suc (suc (suc (suc zero)))) l e = sym e ∙ r4
    entry (suc (suc (suc (suc (suc zero))))) l e = sym e ∙ r5
    entry (suc (suc (suc (suc (suc (suc zero)))))) l e = sym e ∙ r6
    entry (suc (suc (suc (suc (suc (suc (suc zero))))))) l e = sym e ∙ r7
    entry (suc (suc (suc (suc (suc (suc (suc (suc i)))))))) l e = absurd (omega arith)

checks-Holds :
    (g : Globals) (fs : List Frame)
    → IsRecorded g fs
    → Holds signal_handler (λ a. λ h gs. a ≡ 0 → IsTraced h gs) checks g fs
checks-Holds g fs known = Holds-assert signal_handler Q (g.count == 8) _ g fs λ c.
    Holds-bind signal_handler Q (for 0 5 (λ i. assert (g.rips i == behind g.expected_rip i))) _ g fs
      (Holds-assert signal_handler _ (place 0 0) _ g fs λ e0.
        Holds-assert signal_handler _ (place 1 1) _ g fs λ e1.
          Holds-assert signal_handler _ (place 2 2) _ g fs λ e2.
            Holds-assert signal_handler _ (place 3 3) _ g fs λ e3.
              Holds-assert signal_handler _ (place 4 4) _ g fs λ e4.
                Holds-assert signal_handler Q (place 5 5) _ g fs λ e5.
                  Holds-assert signal_handler Q (place 6 12) _ g fs λ e6.
                    Holds-assert signal_handler Q (place 7 13) _ g fs λ e7.
                      Holds-assert signal_handler Q (bit_and g.last_efl 0x100 == 0) (pure 0) g fs
                        λ _ _.
                          eight g fs known ((==_iff g.count 8).0 c) (at 0 0 e0) (at 1 1 e1)
                            (at 2 2 e2) (at 3 3 e3) (at 4 4 e4) (at 5 5 e5) (at 6 12 e6)
                            (at 7 13 e7))
  where
    Q : ℕ → Globals → List Frame → Type 0
    Q a h gs = a ≡ 0 → IsTraced h gs

    place : ℕ → ℕ → Bool
    place i d = g.rips i == behind g.expected_rip d

    at : (i d : ℕ) → place i d ≡ true → g.rips i ≡ behind g.expected_rip d
    at i d e = (==_iff (g.rips i) (behind g.expected_rip d)).0 e

main-Holds : Holds signal_handler (λ a h gs. a ≡ 0 → IsTraced h gs) main initial []
unfolding main
main-Holds r gs0 h0 a0 =
    Holds-assert signal_handler Q (r.result =ℤ= pos 0) _ h0 _ λ _ label gs1 h1 a1.
      let known1 = stable h0 h1 gs0 gs1 (stable initial h0 [] gs0 none_yet a0) a1 in
      let g1 : Globals = record h1 { expected_rip = label.address } in
      Holds-bind signal_handler Q (execute_all code) (λ _. tested) g1 (gs0 ++ gs1)
        (Holds-mono signal_handler (λ _. IsRecorded) (λ _. Holds signal_handler Q tested)
          (execute_all code) g1 (gs0 ++ gs1)
          (λ _ h gs known flags gs' h' a'.
            Holds-assert signal_handler Q (not (trap_flag flags.address)) checks h' (gs ++ gs')
              λ _. checks-Holds h' (gs ++ gs') (stable h h' gs gs' known a'))
          (Holds-reader signal_handler IsRecorded stable (execute_all code) g1 (gs0 ++ gs1)
            (execute_all-IsReader code) known1))
  where
    Q : ℕ → Globals → List Frame → Type 0
    Q a h gs = a ≡ 0 → IsTraced h gs

    tested : Prog Globals ℕ
    tested = get_tf >>= λ tf. assert (not tf) >> checks

    stable : IsStable signal_handler IsRecorded
    stable = IsRecorded-IsStable

    none_yet : IsRecorded initial []
    none_yet = (refl, λ i l. absurd (omega arith))

signal_handler-IsQuiet : (f : Frame) → IsQuiet (signal_handler f)
unfolding signal_handler
signal_handler-IsQuiet f = ground arith

-- Whatever the kernel does, a run that passes has started the handler for exactly eight traps, at these
-- distances from the label: behind the first `nop`, the four behind the label, `pushf`, `and` and
-- `popf`. None comes behind the instructions after that.
pub popf_clear_traps :
    (kern : Kernel) (fuel : ℕ) (s : kern.State)
    → Passes kern fuel signal_handler main s initial
    → (w : World kern.State Globals) × (Program.run kern fuel signal_handler main (start s initial)
        ≡ finished 0 w)
      × (map rip_of w.served ≡ map (behind w.globals.expected_rip) distances)
popf_clear_traps kern fuel s passes =
    passing-Holds kern signal_handler signal_handler-IsQuiet IsTraced fuel main s initial main-Holds
      passes
