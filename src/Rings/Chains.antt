-- ===== src/Rings/Chains.antt =====
-- Chains of links, and how a link is put into one or taken out of it.
use crts.Prelude.{
  ℕ, ◌≤◌, ◌≡◌, ◌≢◌, refl, sym, ap, ◌∙◌, false, List, [], ◌∷◌, ◌++◌, arith, ◌==◌, ==_iff,
}
use crts.Prelude.Counts.{bit, count, count-append}
use crts.Rings.{Links}

abbrev pub times : ℕ → List ℕ → ℕ
times k xs = count (λ x. x == k) xs

-- From `a` the links lead through `xs` to `b`, and back.
abbrev pub Chain : Links → ℕ → List ℕ → ℕ → Type 0
Chain s a [] b = (s.next a ≡ b) × (s.prev b ≡ a)
Chain s a (x ∷ xs) b = (s.next a ≡ x) × (s.prev x ≡ a) × Chain s x xs b

-- The list with the head `l` has the elements `xs`.
abbrev pub IsRing : Links → ℕ → List ℕ → Type 0
IsRing s l xs = Chain s l xs l × ((k : ℕ) → times k (l ∷ xs) ≤ 1)

abbrev pub last_of : ℕ → List ℕ → ℕ
last_of a [] = a
last_of a (x ∷ xs) = last_of x xs

abbrev pub first_of : List ℕ → ℕ → ℕ
first_of [] b = b
first_of (x ∷ xs) b = x

-- `b` is linked between `p` and `q`, and all other links stay.
pub record Spliced (s s' : Links) (p b q : ℕ) : Type 0 where
  pub next_p : s'.next p ≡ b
  pub next_b : s'.next b ≡ q
  pub prev_b : s'.prev b ≡ p
  pub prev_q : s'.prev q ≡ b
  pub nexts : (k : ℕ) → k ≢ p → k ≢ b → s'.next k ≡ s.next k
  pub prevs : (k : ℕ) → k ≢ q → k ≢ b → s'.prev k ≡ s.prev k

-- What stood between `p` and `q` is no longer linked, and all other links stay.
pub record Removed (s s' : Links) (p q : ℕ) : Type 0 where
  pub next_p : s'.next p ≡ q
  pub prev_q : s'.prev q ≡ p
  pub nexts : (k : ℕ) → k ≢ p → s'.next k ≡ s.next k
  pub prevs : (k : ℕ) → k ≢ q → s'.prev k ≡ s.prev k

pub times-first : (k : ℕ) (xs : List ℕ) → 1 ≤ times k (k ∷ xs)
times-first k xs = omega (arith, ap bit ((==_iff k k).1 refl))

-- What occurs another number of times is another.
pub differs_by : (k j : ℕ) (xs : List ℕ) → times k xs ≡ 0 → 1 ≤ times j xs → k ≢ j
differs_by k j xs none one e = absurd (omega (arith, ap (λ x. times x xs) e))

pub times-last_of : (a : ℕ) (xs : List ℕ) → 1 ≤ times (last_of a xs) (a ∷ xs)
times-last_of a [] = times-first a []
times-last_of a (x ∷ xs) = omega (arith, times-last_of x xs)

not_first : (x : ℕ) (ys : List ℕ) (l : ℕ) → times x ys ≡ 0 → x ≢ l → x ≢ first_of ys l
not_first x [] l none other = other
not_first x (y ∷ ys) l none other = differs_by x y (y ∷ ys) none (times-first y ys)

-- A chain that no link of is changed.
pub Chain-kept :
    (s s' : Links) (a : ℕ) (xs : List ℕ) (b : ℕ)
    → Chain s a xs b
    → ((k : ℕ) → 1 ≤ times k (a ∷ xs) → s'.next k ≡ s.next k)
    → ((k : ℕ) → 1 ≤ times k (xs ++ b ∷ []) → s'.prev k ≡ s.prev k)
    → Chain s' a xs b
Chain-kept s s' a [] b (n, p) nexts prevs =
    (nexts a (times-first a []) ∙ n, prevs b (times-first b []) ∙ p)
Chain-kept s s' a (x ∷ xs) b (n, p, rest) nexts prevs = (
  nexts a (times-first a (x ∷ xs)) ∙ n,
  prevs x (times-first x (xs ++ b ∷ [])) ∙ p,
  Chain-kept s s' x xs b rest (λ k one. nexts k (omega (arith, one)))
      (λ k one. prevs k (omega (arith, one))),
)

-- What does not occur differs from what does.
unlike : (k j : ℕ) (xs : List ℕ) → times k xs ≡ 0 → 1 ≤ times j xs → j ≢ k
unlike k j xs none one e = differs_by k j xs none one (sym e)

pub alone_first : (x : ℕ) (xs : List ℕ) → times x (x ∷ xs) ≤ 1 → times x xs ≡ 0
alone_first x xs once = omega (arith, ap bit ((==_iff x x).1 refl))

ends : (k : ℕ) (xs : List ℕ) (l : ℕ) → times k xs ≡ 0 → l ≢ k → times k (xs ++ l ∷ []) ≡ 0
ends k xs l none other =
    let no : (l == k) ≡ false = ground arith in
    omega (arith, count-append (λ x. x == k) xs (l ∷ []), ap bit no)

-- A link is put into a chain.
pub Chain-Spliced :
    (s s' : Links) (a : ℕ) (xs ys : List ℕ) (l b : ℕ)
    → ((k : ℕ) → times k (xs ++ ys) ≤ 1)
    → times a (xs ++ ys) ≡ 0
    → times l (xs ++ ys) ≡ 0
    → times b (xs ++ ys) ≡ 0
    → b ≢ a
    → b ≢ l
    → Spliced s s' (last_of a xs) b (first_of ys l)
    → Chain s a (xs ++ ys) l
    → Chain s' a (xs ++ b ∷ ys) l
Chain-Spliced s s' a [] [] l b once no_a no_l no_b ba bl t (n, p) =
    (t.next_p, t.prev_b, (t.next_b, t.prev_q))
Chain-Spliced s s' a [] (y ∷ ys) l b once no_a no_l no_b ba bl t (n, p, rest) =
    let no_y : times y (ys ++ l ∷ []) ≡ 0 =
      ends y ys l (alone_first y ys (once y)) (differs_by l y (y ∷ ys) no_l (times-first y ys)) in
    let no_b' : times b (ys ++ l ∷ []) ≡ 0 = ends b ys l (omega arith) (λ e. bl (sym e)) in
    (
      t.next_p,
      t.prev_b,
      (
        t.next_b,
        t.prev_q,
        Chain-kept s s' y ys l rest
            (λ k one. t.nexts k (unlike a k (y ∷ ys) no_a one) (unlike b k (y ∷ ys) no_b one))
            (λ k one.
              t.prevs k (unlike y k (ys ++ l ∷ []) no_y one) (unlike b k (ys ++ l ∷ []) no_b' one)),
      ),
    )
Chain-Spliced s s' a (x ∷ xs) ys l b once no_a no_l no_b ba bl t (n, p, rest) =
    let no_x = alone_first x (xs ++ ys) (once x) in
    let x_here = times-first x (xs ++ ys) in
    let b_no_x = differs_by b x (x ∷ (xs ++ ys)) no_b x_here in
    let l_no_x = differs_by l x (x ∷ (xs ++ ys)) no_l x_here in
    let last = times-last_of x xs in
    let a_no_last : times a (x ∷ xs) ≡ 0 = omega (arith, count-append (λ k. k == a) (x ∷ xs) ys) in
    let x_no_ys : times x ys ≡ 0 = omega (arith, count-append (λ k. k == x) xs ys) in
    (
      t.nexts a (differs_by a (last_of x xs) (x ∷ xs) a_no_last last) (λ e. ba (sym e)) ∙ n,
      t.prevs x (not_first x ys l x_no_ys (λ e. l_no_x (sym e))) (λ e. b_no_x (sym e)) ∙ p,
      Chain-Spliced s s' x xs ys l b (λ k. omega (arith, once k)) no_x (omega arith) (omega arith)
          b_no_x bl t rest,
    )

-- A link is taken out of a chain.
pub Chain-Removed :
    (s s' : Links) (a : ℕ) (xs : List ℕ) (k : ℕ) (ys : List ℕ) (l : ℕ)
    → ((j : ℕ) → times j (xs ++ k ∷ ys) ≤ 1)
    → times a (xs ++ k ∷ ys) ≡ 0
    → times l (xs ++ k ∷ ys) ≡ 0
    → Removed s s' (last_of a xs) (first_of ys l)
    → Chain s a (xs ++ k ∷ ys) l
    → Chain s' a (xs ++ ys) l
Chain-Removed s s' a [] k [] l once no_a no_l t c = (t.next_p, t.prev_q)
Chain-Removed s s' a [] k (y ∷ ys) l once no_a no_l t c =
    let no_y : times y (ys ++ l ∷ []) ≡ 0 =
      ends y ys l (alone_first y ys (omega (arith, once y)))
        (differs_by l y (y ∷ ys) (omega arith) (times-first y ys)) in
    (
      t.next_p,
      t.prev_q,
      Chain-kept s s' y ys l c.2.2 (λ j one. t.nexts j (unlike a j (y ∷ ys) (omega arith) one))
          (λ j one. t.prevs j (unlike y j (ys ++ l ∷ []) no_y one)),
    )
Chain-Removed s s' a (x ∷ xs) k ys l once no_a no_l t (n, p, rest) =
    let no_x = alone_first x (xs ++ k ∷ ys) (once x) in
    let l_no_x = differs_by l x (x ∷ (xs ++ k ∷ ys)) no_l (times-first x (xs ++ k ∷ ys)) in
    let a_no_last : times a (x ∷ xs) ≡ 0 =
      omega (arith, count-append (λ j. j == a) (x ∷ xs) (k ∷ ys)) in
    let x_no_ys : times x ys ≡ 0 = omega (arith, count-append (λ j. j == x) xs (k ∷ ys)) in
    (
      t.nexts a (differs_by a (last_of x xs) (x ∷ xs) a_no_last (times-last_of x xs)) ∙ n,
      t.prevs x (not_first x ys l x_no_ys (λ e. l_no_x (sym e))) ∙ p,
      Chain-Removed s s' x xs k ys l (λ j. omega (arith, once j)) no_x (omega arith) t rest,
    )
