-- ===== src/Inherit/ThreadInherit/Masks.antt =====
-- What a passing run of src/thread-inherit.cpp says of the masks.
use signal_tests.Base.{ℕ, ◌≡◌, refl, arith, List, [], ◌∷◌, ◌++◌, pos, ◌=ℤ=◌, =ℤ=_iff, some}
use signal_tests.Program.{pure, ◌>>◌}
use signal_tests.System.{Call}
use signal_tests.Threads.{
  first, second, Event, Entry, answered, Machine, fire_all, begin, Any, Any-more, Answers, Later,
  Later-Any, Later-now, Contract, Keeps, Keeps-assert, Keeps-guard, Keeps-bind, Keeps-track, sound,
}
use signal_tests.Inherit.Mask.{Saw, check_mask, check_mask-Keeps}
use signal_tests.Inherit.ThreadInherit.{Globals, initial, no_handler, thread_main, main}

abbrev contract : Contract Globals
contract = record {
  Shared = λ g l. Unit;
  Good = λ f. Unit;
  Joined = λ l. Any (Answers (Saw second)) l;
}

threads :
    (g : Globals) (l : List Entry)
    → Unit {0}
    → Keeps contract second (λ _ l'. Any (Answers (Saw second)) l') thread_main g l
unfolding thread_main
threads g l _ =
    Keeps-bind contract second (λ _ l'. Any (Answers (Saw second)) l') _ check_mask (λ _. pure 0) g
      l (check_mask-Keeps contract (λ _ _. tt) second g l) (λ _ h l' s has. (s, has))

-- Both threads have read the mask.
Seen : ℕ → List Entry → Type 0
Seen a l = a ≡ 0 → Any (Answers (Saw first)) l × Any (Answers (Saw second)) l

end-Seen :
    (g : Globals) (l : List Entry)
    → Any (Answers (Saw second)) l
    → Keeps contract first Seen (check_mask >> pure 0) g l
unfolding Seen
end-Seen g l told =
    Keeps-bind contract first (λ _ l'. Later (λ _. Unit) first l l' × Any (Answers (Saw first)) l')
      Seen check_mask (λ _. pure 0) g l
      (Keeps-track contract first (λ _ l'. Any (Answers (Saw first)) l') check_mask g l l
        (Later-now (λ _. Unit) first l) (check_mask-Keeps contract (λ _ _. tt) first g l))
      (λ _ h l' s (y, has).
        (s, λ _. (has, Later-Any (λ _. Unit) first (Answers (Saw second)) l l' y told)))

main-Keeps : Keeps contract first Seen main initial []
unfolding main
main-Keeps = (
  tt,
  λ b g1 l1 _ _ _. Keeps-assert contract first Seen (b.result =ℤ= pos 0) _ g1 _ λ _. (
    tt,
    λ c g2 l2 _ _ _.
        Keeps-guard contract first Seen (c.result =ℤ= pos 0) 134 _ g2 _ (omega arith) λ _. (
          tt,
          λ j g3 l3 _ _ tells.
              Keeps-guard contract first Seen (j.result =ℤ= pos 0) 134 _ g3 _ (omega arith) λ z.
                end-Seen g3 (l3 ++ answered first Call.pthread_join j ∷ []) (
                  Any-more (Answers (Saw second)) l3 (answered first Call.pthread_join j ∷ [])
                    (tells refl ((=ℤ=_iff j.result (pos 0)).0 z))),
        ),
  ),
)

-- Whatever the system does and in whichever order the threads go on: in a run that ends with 0 both
-- threads have read a mask with the five signals.
pub thread_inherit_masks :
    (vs : List Event) (m : Machine Globals)
    → fire_all no_handler thread_main vs (begin no_handler thread_main main initial) ≡ some m
    → m.status ≡ some 0
    → Any (Answers (Saw first)) m.log × Any (Answers (Saw second)) m.log
unfolding Seen no_handler
thread_inherit_masks vs m e z =
    sound contract Seen (λ g l e h. tt) (λ l l'. Any-more (Answers (Saw second)) l l') no_handler
      thread_main (λ t f g l h. (tt, tt)) threads main initial vs m main-Keeps e z refl
