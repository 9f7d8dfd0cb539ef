-- ===== src/Links/Tests.antt =====
-- Runs of the lists, and instances of the theorems.
use nocturne_os_base.Prelude.{◌≡◌, refl, [], ◌∷◌, ◌==◌, if◌then◌else◌, arith}
use nocturne_os_base.Links.{Links, list_init, list_add, list_remove}
use nocturne_os_base.Links.Edit.{Holds, list_add-Holds}
use nocturne_os_base.Links.Removal.{list_remove-Holds}
use nocturne_os_base.Links.Other.{list_add-list_remove_ignored}

-- A list at 1 with the items 10, 20 and 30.
abbrev three : Links
three = record {
  prev = λ x. if x == 10 then 30 else if x == 20 then 10 else 20;
  next = λ x. if x == 10 then 20 else if x == 20 then 30 else 10;
  owner = λ x. if x == 40 then 0 else 1;
  first = λ l. 10;
  count = λ l. 3;
}

abbrev blank : Links
blank = record { prev = λ x. 0; next = λ x. 0; owner = λ x. 0; first = λ x. 0; count = λ x. 7 }

-- Two items in a new list, then the first one out.
one_left : (list_remove (list_add (list_add (list_init blank 1) 1 10) 1 20) 10).first 1 ≡ 20
unfolding list_init list_add list_remove
one_left = refl

one_counted : (list_remove (list_add (list_add (list_init blank 1) 1 10) 1 20) 10).count 1 ≡ 1
unfolding list_init list_add list_remove
one_counted = refl

three-Holds : Holds three 1 (10 ∷ 20 ∷ 30 ∷ [])
three-Holds = record {
  shape = omega arith;
  distinct = omega arith;
  real = omega arith;
  owned = omega arith;
  counted = refl;
}

list_add-Holds_example : Holds (list_add three 1 40) 1 (10 ∷ 20 ∷ 30 ∷ 40 ∷ [])
list_add-Holds_example =
    list_add-Holds three 1 40 (omega arith) (omega arith) refl (10 ∷ 20 ∷ 30 ∷ []) three-Holds
      (omega arith)

list_remove-Holds_example : Holds (list_remove three 10) 1 (20 ∷ 30 ∷ [])
list_remove-Holds_example = list_remove-Holds three 1 10 [] (20 ∷ 30 ∷ []) (omega arith) three-Holds

list_add-list_remove_ignored_example : list_add (list_remove three 20) 1 20 ≡ list_remove three 20
list_add-list_remove_ignored_example = list_add-list_remove_ignored three 20 1 (omega arith)
