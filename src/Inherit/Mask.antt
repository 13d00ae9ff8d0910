-- ===== src/Inherit/Mask.antt =====
-- The mask of src/fork-inherit.cpp and thread-inherit.cpp, and its check.
use signal_tests.Base.{ℕ, ◌≡◌, refl, true, List, [], ◌∷◌, ◌++◌, pos, ◌=ℤ=◌}
use signal_tests.Program.{Prog, ◌>>=◌, ◌>>◌, assert, sys}
use signal_tests.System
use signal_tests.System.{Call, Reply}
use signal_tests.Threads.{
  Thread, Entry, answered, Any, Any-last, Answers, Contract, Keeps, Keeps-assert, Keeps-test,
}

abbrev pub set : ℕ
set =
    System.sigaddset
      (System.sigaddset
        (System.sigaddset
          (System.sigaddset (System.sigaddset System.sigemptyset System.sigusr1) System.sigurg)
          System.sigsegv)
        System.sigbus)
      System.sigill

-- The mask is read, and has the five signals.
abbrev pub check_mask : {G : Type 0} → Prog G (Unit {0})
check_mask = do
  old ← sys Call.sigprocmask_query
  assert (old.result =ℤ= pos 0)
  assert (System.sigismember old.old_mask System.sigusr1)
  assert (System.sigismember old.old_mask System.sigurg)
  assert (System.sigismember old.old_mask System.sigsegv)
  assert (System.sigismember old.old_mask System.sigbus)
  assert (System.sigismember old.old_mask System.sigill)

-- The five signals are blocked.
abbrev pub HasFive : ℕ → Type 0
HasFive mask =
    (System.sigismember mask System.sigusr1 ≡ true)
    × (System.sigismember mask System.sigurg ≡ true)
    × (System.sigismember mask System.sigsegv ≡ true)
    × (System.sigismember mask System.sigbus ≡ true)
    × (System.sigismember mask System.sigill ≡ true)

-- This thread has read such a mask.
abbrev pub Saw : Thread → Thread → Call → Reply → Type 0
Saw u t c r = (t ≡ u) × (c ≡ Call.sigprocmask_query) × HasFive r.old_mask

module _ {G : Type 0} (contract : Contract G)
    (shared : (g : G) (l : List Entry) → contract.Shared g l) (t : Thread) where
  pub check_mask-Keeps :
      (g : G) (l : List Entry) → Keeps contract t (λ _ l'. Any (Answers (Saw t)) l') check_mask g l
  check_mask-Keeps g l = (
    shared g l,
    λ r h l' _ _ _.
        let entry = answered t Call.sigprocmask_query r in
        let after = l' ++ entry ∷ [] in
        Keeps-assert contract t Found (r.result =ℤ= pos 0) _ h after λ _.
          Keeps-assert contract t Found (System.sigismember r.old_mask System.sigusr1) _ h after
            λ e1.
              Keeps-assert contract t Found (System.sigismember r.old_mask System.sigurg) _ h after
                λ e2.
                  Keeps-assert contract t Found (System.sigismember r.old_mask System.sigsegv) _ h
                    after
                    λ e3.
                      Keeps-assert contract t Found (System.sigismember r.old_mask System.sigbus) _
                        h after
                        λ e4.
                          Keeps-test contract t Found (System.sigismember r.old_mask System.sigill)
                            h after (shared h after)
                            λ e5.
                              Any-last (Answers (Saw t)) l' entry
                                (refl, refl, (e1, e2, e3, e4, e5)),
  )
    where
      Found : Unit {0} → List Entry → Type 0
      Found _ l' = Any (Answers (Saw t)) l'
