-- ===== src/CleanList/Tests.antt =====
-- The clean lists of cleanList.c at a concrete state.
use msst2015_ftl.Base.{ℕ, ◌≡◌, refl, arith, List, [], ◌∷◌, length, update}
use msst2015_ftl.Base.Run.{ok, Yields, Yields-result}
use msst2015_ftl.CleanList.{ListData, clean_list_init, clean_list_push, clean_list_pop}
use msst2015_ftl.Layout.{clean_list}
use msst2015_ftl.CleanList.Queue.{HasQueues}
use msst2015_ftl.CleanList.Init.{clean_list_init-HasQueues}
use msst2015_ftl.CleanList.Push.{clean_list_push-HasQueues}
use msst2015_ftl.CleanList.Pop.{clean_list_pop-HasQueues}

abbrev nothing : ListData
nothing = record {
  dram = λ _. 0;
  banks = λ _. record {
    clean_list_head = 0;
    clean_list_tail = 0;
    clean_list_unused_nodes = 0;
    size = 0;
  };
}

-- One node for each bank, from CleanList(0) on.
abbrev started : ListData
started = clean_list_init nothing (clean_list 0) 1

abbrev no_numbers : ℕ → List ℕ
no_numbers _ = []

started-HasQueues : HasQueues (clean_list 0) 1 started no_numbers
unfolding clean_list
started-HasQueues =
    clean_list_init-HasQueues (clean_list 0) 1 (omega arith) (omega arith) nothing (omega arith)
      (omega arith)

abbrev five : ℕ → List ℕ
five = update no_numbers 3 (5 ∷ [])

after_push :
    (s : ListData) × (clean_list_push started 3 5 ≡ ok s) × HasQueues (clean_list 0) 1 s five
unfolding length
after_push = Yields-result (
    clean_list_push-HasQueues (clean_list 0) 1 started no_numbers started-HasQueues 3 (omega arith)
      5 (omega arith))

abbrev pushed : ListData
pushed = after_push.0

clean_list_init-HasQueues_example :
    HasQueues (clean_list 0) 73 (clean_list_init nothing (clean_list 0) 73) no_numbers
unfolding clean_list
clean_list_init-HasQueues_example =
    clean_list_init-HasQueues (clean_list 0) 73 (omega arith) (omega arith) nothing (omega arith)
      (omega arith)

clean_list_push-HasQueues_example :
    Yields (λ s'. HasQueues (clean_list 0) 1 s' five) (clean_list_push started 3 5)
unfolding length
clean_list_push-HasQueues_example =
    clean_list_push-HasQueues (clean_list 0) 1 started no_numbers started-HasQueues 3 (omega arith)
      5 (omega arith)

clean_list_pop-HasQueues_example :
    Yields
      (λ r. (r.0 ≡ 5) × HasQueues (clean_list 0) 1 r.1 (update five 3 []))
      (clean_list_pop pushed 3)
clean_list_pop-HasQueues_example =
    clean_list_pop-HasQueues (clean_list 0) 1 pushed five after_push.2 3 (omega arith) 5 [] refl
