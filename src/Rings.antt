-- ===== src/Rings.antt =====
-- native/generic/list.h, doubly linked lists in rings through their elements, without a length.
mod Chains
mod Refines
mod Join
pub mod Tests
use crts.Prelude.{ℕ, Bool, true, false, Option, none, some, ◌==◌, if◌then◌else◌}

-- The links of all elements and heads, by their addresses. An element is the address of its link.
pub record Links : Type 0 where
  pub next : ℕ → ℕ
  pub prev : ℕ → ℕ

abbrev pub set : (ℕ → ℕ) → ℕ → ℕ → ℕ → ℕ
set f k v i = if i == k then v else f i

-- `k->next = v` and `k->prev = v`.
abbrev pub set_next : Links → ℕ → ℕ → Links
set_next s k v = record s { next = set s.next k v }

abbrev pub set_prev : Links → ℕ → ℕ → Links
set_prev s k v = record s { prev = set s.prev k v }

unfoldable pub list_init : Links → ℕ → Links
list_init s l = set_next (set_prev s l l) l l

unfoldable pub list_null : Links → ℕ → Bool
list_null s l = l == s.next l

unfoldable pub list_head : Links → ℕ → Option ℕ
list_head s l = if list_null s l then none else some (s.next l)

unfoldable pub list_prev : Links → ℕ → ℕ → Option ℕ
list_prev s l e = if s.prev e == l then none else some (s.prev e)

unfoldable pub list_next : Links → ℕ → ℕ → Option ℕ
list_next s l e = if s.next e == l then none else some (s.next e)

-- `a->next = a->next->prev = b` assigns from the right.
unfoldable pub link_after : Links → ℕ → ℕ → Links
link_after s a b =
    let s1 = set_prev s b a in
    let s2 = set_next s1 b (s1.next a) in let s3 = set_prev s2 (s2.next a) b in set_next s3 a b

unfoldable pub link_before : Links → ℕ → ℕ → Links
link_before s a b =
    let s1 = set_next s b a in
    let s2 = set_prev s1 b (s1.prev a) in let s3 = set_next s2 (s2.prev a) b in set_prev s3 a b

unfoldable pub insert_after : Links → ℕ → ℕ → Links
insert_after s a b = link_after s a b

unfoldable pub insert_before : Links → ℕ → ℕ → Links
insert_before s a b = link_before s a b

unfoldable pub prepend : Links → ℕ → ℕ → Links
prepend s l e = link_after s l e

unfoldable pub append : Links → ℕ → ℕ → Links
append s l e = link_before s l e

unfoldable pub delete : Links → ℕ → Links
delete s k = let s1 = set_prev s (s.next k) (s.prev k) in set_next s1 (s1.prev k) (s1.next k)

-- The source asserts that the list is not empty.
unfoldable pub pop : Links → ℕ → ℕ × Links
pop s l = (s.next l, delete s (s.next l))

unfoldable pub join : Links → ℕ → ℕ → Links
join s a b =
    let s1 = set_prev s (s.next b) (s.prev a) in
    let s2 = set_next s1 (s1.prev b) a in
    let s3 = set_next s2 (s2.prev a) (s2.next b) in
    let s4 = set_prev s3 a (s3.prev b) in if list_null s b then s else list_init s4 b
