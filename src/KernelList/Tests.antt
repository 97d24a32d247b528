-- ===== src/KernelList/Tests.antt =====
-- The list theorems at a list of two elements.
use loong_os.Prelude.{◌≡◌, refl, true, false, some, [], ◌∷◌, arith, ◌==◌, if◌then◌else◌}
use loong_os.KernelList.{
  Memory, KList, list_init, list_push, list_append, list_remove, list_pop, elem_find, list_len,
  list_empty, list_traversal,
}
use loong_os.KernelList.Chain.{Holds}
use loong_os.KernelList.Effects.{Becomes, list_insert_lem, list_delete_lem}
use loong_os.KernelList.Walk.{walks_lem, first_that}

-- Sentinels at 10 and 18, and two elements at 100 and 200.
abbrev ready : KList
ready = record { head = 10; tail = 18 }

abbrev blank : Memory
blank = record { prev = λ q. 0; next = λ q. 0; intr_on = true }

abbrev two : Memory
two = record {
  prev = λ q. if q == 18 then 200 else if q == 200 then 100 else if q == 100 then 10 else 0;
  next = λ q. if q == 10 then 100 else if q == 100 then 200 else if q == 200 then 18 else 0;
  intr_on = true;
}

two-Holds : Holds two ready (100 ∷ 200 ∷ [])
two-Holds = record {
  chain = (refl, refl, (refl, refl, (refl, refl, tt)));
  distinct = (refl, (refl, (refl, (refl, tt))));
}

init_then_push :
    (list_pop ready (list_append ready 200 (list_push ready 100 (list_init ready blank)))).0 ≡ 100
unfolding list_pop list_append list_push list_init
init_then_push = refl

list_insert_example :
    Becomes two ready (300 ∷ 100 ∷ 200 ∷ []) (300 ∷ 100 ∷ 200 ∷ []) (list_push ready 300 two)
    × Becomes two ready (100 ∷ 200 ∷ 300 ∷ []) (100 ∷ 200 ∷ 300 ∷ []) (list_append ready 300 two)
list_insert_example = list_insert_lem ready two (100 ∷ 200 ∷ []) 300 two-Holds refl

list_delete_example :
    Becomes two ready (200 ∷ []) (200 ∷ []) (list_remove 100 two)
    × ((list_pop ready two).0 ≡ 100)
    × Becomes two ready (200 ∷ []) (200 ∷ []) (list_pop ready two).1
list_delete_example = list_delete_lem ready two [] (200 ∷ []) 100 two-Holds

walks_example :
    (elem_find 5 ready 200 two ≡ some true)
    × (list_len 5 ready two ≡ some 2)
    × (list_empty ready two ≡ false)
    × (list_traversal 5 ready (λ q. q == 200) two ≡ some 200)
unfolding first_that
walks_example =
    walks_lem ready two (100 ∷ 200 ∷ []) 5 200 (λ q. q == 200) two-Holds (omega arith) (omega arith)
