-- ===== src/Restart/RestartableWrite/Restarted.antt =====
-- What a passing run of src/restartable-write.cpp says of the interrupted call.
use signal_tests.Base.{ℕ, ◌≡◌, refl, true, List, [], ◌∷◌, ◌++◌, pos, ◌=ℤ=◌, =ℤ=_iff, some, get_or}
use signal_tests.Program.{assert, pure, globals, ◌>>◌, ◌>>=◌}
use signal_tests.System
use signal_tests.System.{Frame, Call, Reply, Arch, Ucontext}
use signal_tests.Threads.{
  Thread, first, second, Event, Entry, answered, started, Machine, fire_all, begin, Any, Any-more,
  Any-last, Answers, Contract, Keeps, Keeps-assert, sound,
}
use signal_tests.Restart.Handler.{Restarts, restart_contract, restart-more, restart-handles}
use signal_tests.Restart.RestartableWrite.{Globals, initial, signal_handler, thread_main, main}

-- The second thread has written its sixteen bytes.
abbrev pub HasWritten : Thread → Call → Reply → Type 0
HasWritten t c r = (t ≡ second) × ((fd : ℕ) × (c ≡ Call.write fd 16)) × (r.result ≡ pos 16)

abbrev contract : Arch → Contract Globals
contract arch =
    restart_contract (λ g. g.child_tid) (λ g. record g { signal_got = true }) (λ g. g.signal_got)
      System.sys_write arch (Any (Answers HasWritten))

module _ (arch : Arch) where
  more :
      (g : Globals) (l : List Entry) (e : Entry)
      → (contract arch).Shared g l
      → (contract arch).Shared g (l ++ e ∷ [])
  more =
      restart-more (λ g. g.child_tid) (λ g. record g { signal_got = true }) (λ g. g.signal_got)
        System.sys_write arch (Any (Answers HasWritten))

  handles :
      (t : Thread) (f : Frame) (g : Globals) (l : List Entry)
      → (contract arch).Shared g l
      → Keeps (contract arch) t (λ _ _. Unit) (signal_handler arch f) g (l ++ started t f ∷ [])
  unfolding signal_handler
  handles =
      restart-handles (λ g. g.child_tid) (λ g. record g { signal_got = true }) (λ g. g.signal_got)
        System.sys_write arch (Any (Answers HasWritten))

  threads :
      (g : Globals) (l : List Entry)
      → (contract arch).Shared g l
      → Keeps (contract arch) second (λ _ l'. Any (Answers HasWritten) l') thread_main g l
  unfolding thread_main
  threads g l h = (
    h,
    λ r i l' y s _. (
      more i l' (answered second Call.gettid r) s,
      λ n j m y' s' _. Keeps-assert (contract arch) second _ (n.result =ℤ= pos 16) _ j _ λ e.
          let entry = answered second (Call.write i.write_end 16) n in
          (
            more j m entry s',
            Any-last (Answers HasWritten) m entry
                (refl, (i.write_end, refl), (=ℤ=_iff n.result (pos 16)).0 e),
          ),
    ),
  )

  -- What a passing run has seen.
  abbrev Seen : ℕ → List Entry → Type 0
  Seen a l = a ≡ 0 → Any (Restarts System.sys_write arch) l × Any (Answers HasWritten) l

  -- The end of `main`: the thread has returned, and the flag is set.
  end-Seen :
      (r : Reply) (g : Globals) (l : List Entry)
      → (r.result ≡ pos 0 → Any (Answers HasWritten) l)
      → (contract arch).Shared g l
      → Keeps
          (contract arch)
          first
          Seen
          (assert (r.result =ℤ= pos 0) >> (globals >>= λ j. assert j.signal_got >> pure 0))
          g
          (l ++ answered first Call.pthread_join r ∷ [])
  end-Seen r g l joined s =
      let e = answered first Call.pthread_join r in
      Keeps-assert (contract arch) first Seen (r.result =ℤ= pos 0) _ g _ λ z.
        Keeps-assert (contract arch) first Seen g.signal_got (pure 0) g _ λ got. (
          more g l e s,
          λ _. (
            Any-more (Restarts System.sys_write arch) l (e ∷ []) (s got),
            Any-more (Answers HasWritten) l (e ∷ []) (joined ((=ℤ=_iff r.result (pos 0)).0 z)),
          ),
        )

  main-Keeps : Keeps (contract arch) first Seen main initial []
  unfolding main
  main-Keeps = (
    (λ x. absurd (cc x)),
    λ r1 g1 l1 y1 s1 t1.
        Keeps-assert (contract arch) first Seen (r1.result =ℤ= pos 0) _
          (record g1 { read_end = get_or r1.words 0 0; write_end = get_or r1.words 1 0 }) _
          λ _. (
            more g1 l1 _ s1,
            λ r2 g2 l2 y2 s2 t2.
                Keeps-assert (contract arch) first Seen (r2.result =ℤ= pos 4096) _ g2 _ λ _. (
                  more g2 l2 _ s2,
                  λ r3 g3 l3 y3 s3 t3.
                      Keeps-assert (contract arch) first Seen (r3.result =ℤ= pos 4096) _ g3 _ λ _. (
                        more g3 l3 _ s3,
                        λ r4 g4 l4 y4 s4 t4.
                            Keeps-assert (contract arch) first Seen (r4.result =ℤ= pos 0) _ g4 _
                              λ _. (
                                more g4 l4 _ s4,
                                λ r5 g5 l5 y5 s5 t5.
                                    Keeps-assert (contract arch) first Seen (r5.result =ℤ= pos 0) _
                                      g5 _
                                      λ _. (
                                        more g5 l5 _ s5,
                                        λ r6 g6 l6 y6 s6 t6. (
                                          more g6 l6 _ s6,
                                          λ r7 g7 l7 y7 s7 t7. (
                                            more g7 l7 _ s7,
                                            λ r8 g8 l8 y8 s8 t8. (
                                              more g8 l8 _ s8,
                                              λ r9 g9 l9 y9 s9 t9. (
                                                more g9 l9 _ s9,
                                                λ r10 g10 l10 y10 s10 t10.
                                                    Keeps-assert (contract arch) first Seen
                                                      (r10.result =ℤ= pos 4096) _ g10 _
                                                      λ _. (
                                                        more g10 l10 _ s10,
                                                        λ r11 g11 l11 y11 s11 t11.
                                                            end-Seen r11 g11 l11 (t11 refl) s11,
                                                      ),
                                              ),
                                            ),
                                          ),
                                        ),
                                      ),
                              ),
                      ),
                ),
          ),
  )

-- Whatever the system does and in whichever order the threads go on: in a run that ends with 0 a
-- handler has started whose frame goes back to a write(2), and the second thread has written all its
-- bytes.
pub restartable_write-Restarts :
    (arch : Arch) (vs : List Event) (m : Machine Globals)
    → fire_all
        (signal_handler arch)
        thread_main
        vs
        (begin (signal_handler arch) thread_main main initial)
      ≡ some m
    → m.status ≡ some 0
    → Any (Restarts System.sys_write arch) m.log × Any (Answers HasWritten) m.log
restartable_write-Restarts arch vs m e z =
    sound (contract arch) (Seen arch) (λ g l r. more arch g l (answered second Call.thread_start r))
      (λ l l'. Any-more (Answers HasWritten) l l') (signal_handler arch) thread_main (handles arch)
      (threads arch) main initial vs m (main-Keeps arch) e z refl
