-- ===== src/Nesting/LongjmpNoOverflow/Finish.antt =====
-- src/longjmp-no-overflow.cpp on the kernel `manual`: the program comes to its end.
use signal_tests.Base.{
  ℕ, zero, suc, ◌+◌, ◌-◌, ◌*◌, bit_and, negsuc, ◌%◌, ◌^◌, ◌≡◌, ◌<◌, refl, ap, arith, List, [], ◌∷◌,
  ◌++◌, ltb, ==_iff, ◌==◌, true, false,
}
use signal_tests.System
use signal_tests.System.{Ucontext, Frame}
use signal_tests.Manual.{manual, Process, fresh, info_of}
use signal_tests.Nesting.LongjmpNoOverflow.{testing, ended, Machine, step, steps, first}

-- The registers of setjmp(3) come back.
abbrev pub long_jump : Ucontext → Process → Process
long_jump regs p = record p { machine = record regs { rsp = 0x7f0000 } }

module _ (limit : ℕ) (regs : Ucontext) (bytes : ℕ → ℕ) where
  at_first : Machine Process
  at_first = first manual (long_jump regs) limit (fresh regs bytes)

  -- The process behind setjmp(3).
  home : Process
  home = (step manual (long_jump regs) limit at_first).kernel

  -- The frame of each signal.
  arrived : Frame
  arrived = record {
    target = 0;
    sig = System.sigusr1;
    info = info_of System.sigusr1 (negsuc 5) (fresh regs bytes) 0;
    ctx = record regs { rsp = 0x7f0000; uc_stack = System.no_stack; uc_sigmask = 0; oldmask = 0 };
    memory = bytes;
    sp = 0x7f0000 - 1024;
    efl = bit_and regs.efl (System.complement 0x10500);
  }

  -- At setjmp(3), with this count.
  home_at : ℕ → List Frame → Machine Process
  home_at c es = record { place = testing; count = c; kernel = home; entered = es }

  -- Once around: the signal is raised, and its handler jumps back.
  around :
      (c : ℕ) (es : List Frame)
      → c < limit
      → c + 1 < 2 ^ 64
      → step manual (long_jump regs) limit (step manual (long_jump regs) limit (home_at c es))
        ≡ home_at (c + 1) (es ++ arrived ∷ [])
  unfolding arrived home_at home step at_first
  around c es l fits =
      let e : ltb c limit ≡ true = ground arith in
      let d : (c + 1) % 2 ^ 64 ≡ c + 1 = omega arith in
      rw e (ap (λ (n : ℕ). home_at n (es ++ arrived ∷ [])) d)

  -- The last test and the assertion.
  last :
      (es : List Frame)
      → limit + 1 < 2 ^ 64
      → (step manual
          (long_jump regs)
          limit
          (step manual (long_jump regs) limit (home_at limit es))).place
        ≡ ended 0
  unfolding home_at home step at_first
  last es fits =
      let e : ltb limit limit ≡ false = ground arith in
      let s : ((limit + 1) % 2 ^ 64 == (limit + 1) % 2 ^ 64) ≡ true =
        (==_iff _ ((limit + 1) % 2 ^ 64)).1 refl in
      rw (e, s) refl

  around_all :
      (k c : ℕ) (es : List Frame)
      → c + k ≡ limit
      → limit + 1 < 2 ^ 64
      → (steps manual (long_jump regs) limit (2 * k + 2) (home_at c es)).place ≡ ended 0
  unfolding steps
  around_all zero c es e fits = let same : c ≡ limit = omega arith in rw same (last es fits)
  around_all (suc k) c es e fits =
      let n : 2 * suc k + 2 ≡ suc (suc (2 * k + 2)) = omega arith in
      rw (n, steps, around c es (omega arith) (omega arith))
        (around_all k (c + 1) (es ++ arrived ∷ []) (omega arith) fits)

-- On the kernel `manual`, with longjmp(3) restoring the registers: the program ends with the
-- status 0 after at most two steps for each signal and three more, where the limit is below the largest
-- count.
pub longjmp_ends :
    (limit : ℕ) (regs : Ucontext) (bytes : ℕ → ℕ)
    → limit + 1 < 2 ^ 64
    → (steps manual
        (long_jump regs)
        limit
        (2 * limit + 3)
        (first manual (long_jump regs) limit (fresh regs bytes))).place
      ≡ ended 0
unfolding home home_at at_first steps step
longjmp_ends limit regs bytes fits =
    let n : 2 * limit + 3 ≡ suc (2 * limit + 2) = omega arith in
    rw n (around_all limit regs bytes limit 0 [] (omega arith) fits)
