-- ===== src/Rings/Refines.antt =====
-- The operations on a ring are those on its list of elements.
use mathlib.Core.List.{append_assoc, append-nil}
use crts.Prelude.{
  ℕ, ◌≤◌, ◌≡◌, ◌≢◌, ◌↔◌, refl, sym, ap, subst, ◌∙◌, true, Option, none, some, List, [], ◌∷◌, ◌++◌,
  arith, ◌==◌, ==_iff, Bool-cases, inl, inr, if◌then◌else◌, pick_true, pick_false,
}
use crts.Prelude.Counts.{bit, count-append}
use crts.Rings.{
  Links, list_init, list_null, list_next, link_after, link_before, insert_after, insert_before,
  prepend, append, delete, pop,
}
use crts.Rings.Chains.{
  times, Chain, IsRing, last_of, first_of, Spliced, Removed, Chain-Spliced, Chain-Removed,
  differs_by, times-last_of,
}

link_after-Spliced :
    (s : Links) (a b : ℕ) → b ≢ a → b ≢ s.next a → Spliced s (link_after s a b) a b (s.next a)
unfolding link_after
link_after-Spliced s a b ba bq = record {
  next_p = ground arith;
  next_b = ground arith;
  prev_b = ground arith;
  prev_q = ground arith;
  nexts = λ k ka kb. ground arith;
  prevs = λ k kq kb. ground arith;
}

link_before-Spliced :
    (s : Links) (a b : ℕ) → b ≢ a → b ≢ s.prev a → Spliced s (link_before s a b) (s.prev a) b a
unfolding link_before
link_before-Spliced s a b ba bp = record {
  next_p = ground arith;
  next_b = ground arith;
  prev_b = ground arith;
  prev_q = ground arith;
  nexts = λ k kp kb. ground arith;
  prevs = λ k ka kb. ground arith;
}

delete-Removed : (s : Links) (k : ℕ) → Removed s (delete s k) (s.prev k) (s.next k)
unfolding delete
delete-Removed s k = record {
  next_p = ground arith;
  prev_q = ground arith;
  nexts = λ j jp. ground arith;
  prevs = λ j jq. ground arith;
}

-- Between two parts of a chain there is one link.
pub Chain-gap :
    (s : Links) (a : ℕ) (xs ys : List ℕ) (l : ℕ)
    → Chain s a (xs ++ ys) l
    → (s.next (last_of a xs) ≡ first_of ys l) × (s.prev (first_of ys l) ≡ last_of a xs)
Chain-gap s a [] [] l c = c
Chain-gap s a [] (y ∷ ys) l (n, p, rest) = (n, p)
Chain-gap s a (x ∷ xs) ys l (n, p, rest) = Chain-gap s x xs ys l rest

last_of-append : (a : ℕ) (xs : List ℕ) (k : ℕ) → last_of a (xs ++ k ∷ []) ≡ k
last_of-append a [] k = refl
last_of-append a (x ∷ xs) k = last_of-append x xs k

new_once :
    (k b : ℕ) (xs ys : List ℕ)
    → times k (xs ++ ys) ≤ 1
    → times b (xs ++ ys) ≡ 0
    → times k (xs ++ b ∷ ys) ≤ 1
new_once k b xs ys once fresh =
    let counts = count-append (λ x. x == k) xs ys in
    let more = count-append (λ x. x == k) xs (b ∷ ys) in
    elim (Bool-cases (b == k)) [
      | inl e ↦
          omega (arith, counts, more, ap bit e, ap (λ x. times x (xs ++ ys)) ((==_iff b k).0 e))
      | inr e ↦ omega (arith, counts, more, ap bit e)
    ]

IsRing-Spliced :
    (s s' : Links) (l : ℕ) (xs ys : List ℕ) (b : ℕ)
    → IsRing s l (xs ++ ys)
    → times b (l ∷ (xs ++ ys)) ≡ 0
    → Spliced s s' (last_of l xs) b (first_of ys l)
    → IsRing s' l (xs ++ b ∷ ys)
IsRing-Spliced s s' l xs ys b (c, once) fresh t =
    let one : bit (l == l) ≡ 1 = ap bit ((==_iff l l).1 refl) in
    let no_l : times l (xs ++ ys) ≡ 0 = omega (arith, once l) in
    let other = differs_by b l (l ∷ (xs ++ ys)) fresh (omega arith) in
    (
      Chain-Spliced s s' l xs ys l b (λ k. omega (arith, once k)) no_l no_l (omega arith) other
          other t c,
      λ k. new_once k b (l ∷ xs) ys (once k) fresh,
    )

-- A fresh element is not where a chain starts or ends.
fresh_apart : (b l : ℕ) (xs : List ℕ) → times b (l ∷ xs) ≡ 0 → b ≢ l
fresh_apart b l xs fresh =
    differs_by b l (l ∷ xs) fresh (omega (arith, ap bit ((==_iff l l).1 refl)))

fresh_first : (b l : ℕ) (xs ys : List ℕ) → times b (l ∷ (xs ++ ys)) ≡ 0 → b ≢ first_of ys l
fresh_first b l xs [] fresh = fresh_apart b l (xs ++ []) fresh
fresh_first b l xs (y ∷ ys) fresh =
    differs_by b y (y ∷ ys) (omega (arith, count-append (λ x. x == b) xs (y ∷ ys)))
      (omega (arith, ap bit ((==_iff y y).1 refl)))

fresh_last : (b l : ℕ) (xs ys : List ℕ) → times b (l ∷ (xs ++ ys)) ≡ 0 → b ≢ last_of l xs
fresh_last b l xs ys fresh =
    differs_by b (last_of l xs) (l ∷ xs) (omega (arith, count-append (λ x. x == b) xs ys))
      (times-last_of l xs)

-- Inserting a new element after one of the list.
pub insert_after-IsRing :
    (s : Links) (l : ℕ) (xs : List ℕ) (a b : ℕ) (ys : List ℕ)
    → IsRing s l (xs ++ a ∷ ys)
    → times b (l ∷ (xs ++ a ∷ ys)) ≡ 0
    → IsRing (insert_after s a b) l (xs ++ a ∷ b ∷ ys)
unfolding insert_after
insert_after-IsRing s l xs a b ys ring fresh =
    let assoc = append_assoc xs (a ∷ []) ys in
    let ring' : IsRing s l ((xs ++ a ∷ []) ++ ys) = subst (IsRing s l) (sym assoc) ring in
    let fresh' : times b (l ∷ ((xs ++ a ∷ []) ++ ys)) ≡ 0 =
      subst (λ k. times b (l ∷ k) ≡ 0) (sym assoc) fresh in
    let last = last_of-append l xs a in
    let after : s.next a ≡ first_of ys l =
      ap (s.next) (sym last) ∙ (Chain-gap s l (xs ++ a ∷ []) ys l ring'.0).0 in
    let other : b ≢ a = subst (λ k. b ≢ k) last (fresh_last b l (xs ++ a ∷ []) ys fresh') in
    let other' : b ≢ s.next a =
      subst (λ k. b ≢ k) (sym after) (fresh_first b l (xs ++ a ∷ []) ys fresh') in
    let spliced : Spliced s (link_after s a b) (last_of l (xs ++ a ∷ [])) b (first_of ys l) =
      subst (λ p. Spliced s (link_after s a b) p b (first_of ys l)) (sym last)
        (subst (λ q. Spliced s (link_after s a b) a b q) after
          (link_after-Spliced s a b other other')) in
    subst (IsRing (link_after s a b) l) (append_assoc xs (a ∷ []) (b ∷ ys))
      (IsRing-Spliced s (link_after s a b) l (xs ++ a ∷ []) ys b ring' fresh' spliced)

-- Inserting a new element in front of the list.
pub prepend-IsRing :
    (s : Links) (l b : ℕ) (xs : List ℕ)
    → IsRing s l xs
    → times b (l ∷ xs) ≡ 0
    → IsRing (prepend s l b) l (b ∷ xs)
unfolding prepend
prepend-IsRing s l b xs ring fresh =
    let after : s.next l ≡ first_of xs l = (Chain-gap s l [] xs l ring.0).0 in
    let other : b ≢ s.next l = subst (λ k. b ≢ k) (sym after) (fresh_first b l [] xs fresh) in
    IsRing-Spliced s (link_after s l b) l [] xs b ring fresh (
      subst (λ q. Spliced s (link_after s l b) l b q) after
        (link_after-Spliced s l b (fresh_apart b l xs fresh) other))

-- Inserting a new element before one of the list.
pub insert_before-IsRing :
    (s : Links) (l : ℕ) (xs : List ℕ) (a b : ℕ) (ys : List ℕ)
    → IsRing s l (xs ++ a ∷ ys)
    → times b (l ∷ (xs ++ a ∷ ys)) ≡ 0
    → IsRing (insert_before s a b) l (xs ++ b ∷ a ∷ ys)
unfolding insert_before
insert_before-IsRing s l xs a b ys ring fresh =
    let before : s.prev a ≡ last_of l xs = (Chain-gap s l xs (a ∷ ys) l ring.0).1 in
    let other : b ≢ s.prev a = subst (λ k. b ≢ k) (sym before) (fresh_last b l xs (a ∷ ys) fresh) in
    IsRing-Spliced s (link_before s a b) l xs (a ∷ ys) b ring fresh (
      subst (λ p. Spliced s (link_before s a b) p b a) before
        (link_before-Spliced s a b (fresh_first b l xs (a ∷ ys) fresh) other))

-- Inserting a new element at the end of the list.
pub append-IsRing :
    (s : Links) (l b : ℕ) (xs : List ℕ)
    → IsRing s l xs
    → times b (l ∷ xs) ≡ 0
    → IsRing (append s l b) l (xs ++ b ∷ [])
unfolding append
append-IsRing s l b xs ring fresh =
    let same = append-nil xs in
    let ring' : IsRing s l (xs ++ []) = subst (IsRing s l) (sym same) ring in
    let fresh' : times b (l ∷ (xs ++ [])) ≡ 0 = subst (λ k. times b (l ∷ k) ≡ 0) (sym same) fresh in
    let before : s.prev l ≡ last_of l xs = (Chain-gap s l xs [] l ring'.0).1 in
    let other : b ≢ s.prev l = subst (λ k. b ≢ k) (sym before) (fresh_last b l xs [] fresh') in
    IsRing-Spliced s (link_before s l b) l xs [] b ring' fresh' (
      subst (λ p. Spliced s (link_before s l b) p b l) before
        (link_before-Spliced s l b (fresh_apart b l xs fresh) other))

-- Deleting an element takes it out of the list, wherever it stands.
pub delete-IsRing :
    (s : Links) (l : ℕ) (xs : List ℕ) (k : ℕ) (ys : List ℕ)
    → IsRing s l (xs ++ k ∷ ys)
    → IsRing (delete s k) l (xs ++ ys)
delete-IsRing s l xs k ys (c, once) =
    let one : bit (l == l) ≡ 1 = ap bit ((==_iff l l).1 refl) in
    let no_l : times l (xs ++ k ∷ ys) ≡ 0 = omega (arith, once l) in
    let before : s.prev k ≡ last_of l xs = (Chain-gap s l xs (k ∷ ys) l c).1 in
    let c' : Chain s l ((xs ++ k ∷ []) ++ ys) l =
      subst (λ zs. Chain s l zs l) (sym (append_assoc xs (k ∷ []) ys)) c in
    let after : s.next k ≡ first_of ys l =
      ap (s.next) (sym (last_of-append l xs k)) ∙ (Chain-gap s l (xs ++ k ∷ []) ys l c').0 in
    let removed : Removed s (delete s k) (last_of l xs) (first_of ys l) =
      subst (λ p. Removed s (delete s k) p (first_of ys l)) before
        (subst (λ q. Removed s (delete s k) (s.prev k) q) after (delete-Removed s k)) in
    (
      Chain-Removed s (delete s k) l xs k ys l (λ j. omega (arith, once j)) no_l no_l removed c,
      λ j.
          omega (
            arith,
            once j,
            count-append (λ x. x == j) xs (k ∷ ys),
            count-append (λ x. x == j) xs ys,
          ),
    )

-- The first element is popped.
pub pop-IsRing :
    (s : Links) (l x : ℕ) (xs : List ℕ)
    → IsRing s l (x ∷ xs)
    → ((pop s l).0 ≡ x) × IsRing ((pop s l).1) l xs
unfolding pop
pop-IsRing s l x xs ring =
    let first = (ring.0).0 in
    (first, subst (λ k. IsRing (delete s k) l xs) (sym first) (delete-IsRing s l [] x xs ring))

-- A head that is linked to itself is an empty list, and no other is.
pub list_init-IsRing : (s : Links) (l : ℕ) → IsRing (list_init s l) l []
unfolding list_init
list_init-IsRing s l = ((ground arith, ground arith), λ k. ground arith)

pub list_null_iff :
    (s : Links) (l : ℕ) (xs : List ℕ) → IsRing s l xs → (list_null s l ≡ true) ↔ (xs ≡ [])
unfolding list_null
list_null_iff s l [] (c, once) = (λ _. refl, λ _. (==_iff _ _).1 (sym c.0))
list_null_iff s l (x ∷ xs) (c, once) = (
  λ e. absurd (
      let same : l ≡ x = (==_iff _ _).0 e ∙ c.0 in
      omega (arith, once x, ap bit ((==_iff l x).1 same), ap bit ((==_iff x x).1 refl))),
  λ e. absurd cc,
)

abbrev head_of : List ℕ → Option ℕ
head_of [] = none
head_of (x ∷ xs) = some x

-- The element after one of the list, if there is one.
pub list_next-IsRing :
    (s : Links) (l : ℕ) (xs : List ℕ) (k : ℕ) (ys : List ℕ)
    → IsRing s l (xs ++ k ∷ ys)
    → list_next s l k ≡ head_of ys
unfolding list_next
list_next-IsRing s l xs k ys (c, once) =
    let c' : Chain s l ((xs ++ k ∷ []) ++ ys) l =
      subst (λ zs. Chain s l zs l) (sym (append_assoc xs (k ∷ []) ys)) c in
    let after : s.next k ≡ first_of ys l =
      ap (s.next) (sym (last_of-append l xs k)) ∙ (Chain-gap s l (xs ++ k ∷ []) ys l c').0 in
    ap (λ n. if n == l then none else some n) after
    ∙ ends_at ys (
        omega (arith, once l, count-append (λ x. x == l) xs (k ∷ ys), ap bit ((==_iff l l).1 refl)))
  where
    ends_at :
        (zs : List ℕ)
        → times l zs ≡ 0
        → (if first_of zs l == l then none else some (first_of zs l)) ≡ head_of zs
    ends_at [] no_l = pick_true _ _ ((==_iff l l).1 refl)
    ends_at (z ∷ zs) no_l = elim (Bool-cases (z == l)) [
      | inl e ↦ absurd (omega (arith, ap bit e))
      | inr e ↦ pick_false _ _ e
    ]
