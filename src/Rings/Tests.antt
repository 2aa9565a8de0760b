-- ===== src/Rings/Tests.antt =====
-- Runs of the rings and instances of their theorems.
use crts.Prelude.{◌≡◌, refl, none, some, [], ◌∷◌, arith}
use crts.Rings.{
  Links, list_init, list_null, list_head, list_prev, list_next, link_after, link_before,
  insert_after, insert_before, prepend, append, delete, pop, join,
}
use crts.Rings.Chains.{IsRing}
use crts.Rings.Refines.{delete-IsRing}
use crts.Rings.Join.{join-IsRing}

-- Two heads, 1 and 2, and the elements 11 and 12 in the list of the first.
abbrev heads : Links
heads = list_init (list_init (record { next = λ i. 0; prev = λ i. 0 }) 1) 2

abbrev two : Links
two = append (append heads 1 11) 1 12

two-IsRing : IsRing two 1 (11 ∷ 12 ∷ [])
unfolding append link_before list_init
two-IsRing = ((refl, refl, (refl, refl, (refl, refl))), λ k. ground arith)

second-IsRing : IsRing (append two 2 13) 2 (13 ∷ [])
unfolding append link_before list_init
second-IsRing = ((refl, refl, (refl, refl)), λ k. ground arith)

first-IsRing : IsRing (append two 2 13) 1 (11 ∷ 12 ∷ [])
unfolding append link_before list_init
first-IsRing = ((refl, refl, (refl, refl, (refl, refl))), λ k. ground arith)

delete-IsRing_example : IsRing (delete two 11) 1 (12 ∷ [])
delete-IsRing_example = delete-IsRing two 1 [] 11 (12 ∷ []) two-IsRing

join-IsRing_example :
    IsRing (join (append two 2 13) 1 2) 1 (11 ∷ 12 ∷ 13 ∷ [])
    × IsRing (join (append two 2 13) 1 2) 2 []
join-IsRing_example =
    join-IsRing (append two 2 13) 1 2 (11 ∷ 12 ∷ []) (13 ∷ []) first-IsRing second-IsRing
      (λ k. ground arith)

insert_runs : list_next (insert_before (insert_after two 11 14) 14 15) 1 11 ≡ some 15
unfolding insert_before insert_after append link_before link_after list_init list_next
insert_runs = refl

prepend_runs : list_head (prepend two 1 16) 1 ≡ some 16
unfolding prepend append link_before link_after list_init list_head list_null
prepend_runs = refl

prev_runs : list_prev two 1 11 ≡ none
unfolding append link_before list_init list_prev
prev_runs = refl

pop_runs : (pop two 1).0 ≡ 11
unfolding pop append link_before list_init
pop_runs = refl
