-- ===== src/Rings/Join.antt =====
-- Joining two rings.
use mathlib.Core.List.{append-nil}
use crts.Prelude.{
  ℕ, ◌+◌, ◌≤◌, ◌≡◌, ◌≢◌, refl, sym, ap, subst, ◌∙◌, List, [], ◌∷◌, ◌++◌, arith, ◌==◌, pick_true,
}
use crts.Prelude.Counts.{count-append}
use crts.Rings.{Links, list_init, list_null, join}
use crts.Rings.Chains.{
  times, Chain, IsRing, last_of, differs_by, times-last_of, times-first, alone_first,
}
use crts.Rings.Refines.{list_null_iff}

-- The links after joining: from `p`, the end of the first list, to `y`, the start of the second, and
-- from its end `z` to the head `a`; the head `b` is linked to itself.
record Joined (s s' : Links) (a b p y z : ℕ) : Type 0 where
  next_p : s'.next p ≡ y
  prev_y : s'.prev y ≡ p
  next_z : s'.next z ≡ a
  prev_a : s'.prev a ≡ z
  next_b : s'.next b ≡ b
  prev_b : s'.prev b ≡ b
  nexts : (k : ℕ) → k ≢ p → k ≢ z → k ≢ b → s'.next k ≡ s.next k
  prevs : (k : ℕ) → k ≢ y → k ≢ a → k ≢ b → s'.prev k ≡ s.prev k

join-Joined :
    (s : Links) (a b p y z : ℕ)
    → s.prev a ≡ p
    → s.next b ≡ y
    → s.prev b ≡ z
    → y ≢ a
    → y ≢ b
    → z ≢ b
    → p ≢ b
    → p ≢ z
    → a ≢ b
    → Joined s (join s a b) a b p y z
unfolding join list_null list_init
join-Joined s a b p y z ep ey ez ya yb zb pb pz ab = record {
  next_p = ground arith;
  prev_y = ground arith;
  next_z = ground arith;
  prev_a = ground arith;
  next_b = ground arith;
  prev_b = ground arith;
  nexts = λ k kp kz kb. ground arith;
  prevs = λ k ky ka kb. ground arith;
}

-- The second list ends at the head of the first.
Chain-ended :
    (s s' : Links) (a b p y z u : ℕ) (us : List ℕ)
    → Joined s s' a b p y z
    → last_of u us ≡ z
    → ((k : ℕ) → times k (u ∷ us) ≤ 1)
    → times p (u ∷ us) ≡ 0
    → times b (u ∷ us) ≡ 0
    → times a us ≡ 0
    → times y us ≡ 0
    → Chain s u us b
    → Chain s' u us a
Chain-ended s s' a b p y z u [] j e once no_p no_b no_a no_y c =
    (ap (s'.next) e ∙ j.next_z, j.prev_a ∙ sym e)
Chain-ended s s' a b p y z u (v ∷ us) j e once no_p no_b no_a no_y (n, q, rest) =
    let here = times-first v us in
    let u_here = times-first u (v ∷ us) in
    let not_last : u ≢ z =
      subst (λ k. u ≢ k) e
        (differs_by u (last_of v us) (v ∷ us) (alone_first u (v ∷ us) (once u))
          (times-last_of v us)) in
    (
      j.nexts u (λ e. differs_by p u (u ∷ v ∷ us) no_p u_here (sym e)) not_last
            (λ e. differs_by b u (u ∷ v ∷ us) no_b u_here (sym e))
          ∙ n,
      j.prevs v (λ e. differs_by y v (v ∷ us) no_y here (sym e))
            (λ e. differs_by a v (v ∷ us) no_a here (sym e))
            (λ e. differs_by b v (v ∷ us) (omega arith) here (sym e))
          ∙ q,
      Chain-ended s s' a b p y z v us j e (λ k. omega (arith, once k)) (omega arith) (omega arith)
          (omega arith) (omega arith) rest,
    )

Chain-Joined :
    (s s' : Links) (a b y z : ℕ) (ys : List ℕ) (u : ℕ) (us : List ℕ)
    → Joined s s' a b (last_of u us) y z
    → ((k : ℕ) → times k (u ∷ us) ≤ 1)
    → times z (u ∷ us) ≡ 0
    → times b (u ∷ us) ≡ 0
    → times a us ≡ 0
    → times y (u ∷ us) ≡ 0
    → Chain s u us a
    → Chain s' y ys a
    → Chain s' u (us ++ y ∷ ys) a
Chain-Joined s s' a b y z ys u [] j once no_z no_b no_a no_y c second = (j.next_p, j.prev_y, second)
Chain-Joined s s' a b y z ys u (v ∷ us) j once no_z no_b no_a no_y (n, q, rest) second =
    let here = times-first v us in
    let u_here = times-first u (v ∷ us) in
    let not_last : u ≢ last_of v us =
      differs_by u (last_of v us) (v ∷ us) (alone_first u (v ∷ us) (once u)) (times-last_of v us) in
    (
      j.nexts u not_last (λ e. differs_by z u (u ∷ v ∷ us) no_z u_here (sym e))
            (λ e. differs_by b u (u ∷ v ∷ us) no_b u_here (sym e))
          ∙ n,
      j.prevs v (λ e. differs_by y v (v ∷ us) (omega arith) here (sym e))
            (λ e. differs_by a v (v ∷ us) no_a here (sym e))
            (λ e. differs_by b v (v ∷ us) (omega arith) here (sym e))
          ∙ q,
      Chain-Joined s s' a b y z ys v us j (λ k. omega (arith, once k)) (omega arith) (omega arith)
          (omega arith) (omega arith) rest second,
    )

Chain-end : (s : Links) (a : ℕ) (xs : List ℕ) (b : ℕ) → Chain s a xs b → s.prev b ≡ last_of a xs
Chain-end s a [] b (n, p) = p
Chain-end s a (x ∷ xs) b (n, p, rest) = Chain-end s x xs b rest

-- Joining two lists without a common element appends the second to the first and empties it.
pub join-IsRing :
    (s : Links) (a b : ℕ) (xs ys : List ℕ)
    → IsRing s a xs
    → IsRing s b ys
    → ((k : ℕ) → times k (a ∷ xs) + times k (b ∷ ys) ≤ 1)
    → IsRing (join s a b) a (xs ++ ys) × IsRing (join s a b) b []
unfolding join list_null
join-IsRing s a b xs [] (c, once) (d, once') apart =
    let empty = (list_null_iff s b [] (d, once')).1 refl in
    let same : join s a b ≡ s = pick_true _ _ empty in
    (
      subst (λ t. IsRing t a (xs ++ [])) (sym same)
          (subst (IsRing s a) (sym (append-nil xs)) (c, once)),
      subst (λ t. IsRing t b []) (sym same) (d, once'),
    )
join-IsRing s a b xs (y ∷ ys) (c, once) (d, once') apart =
    let p = last_of a xs in
    let z = last_of y ys in
    let rest = y ∷ ys in
    let a_here = times-first a xs in
    let b_here = times-first b rest in
    let y_here = times-first y ys in
    let p_here = times-last_of a xs in
    let z_here = times-last_of y ys in
    let no_b = alone_first b rest (once' b) in
    let lists_differ = λ (k j : ℕ) (first : 1 ≤ times k (a ∷ xs)) (second : 1 ≤ times j (b ∷ rest)).
      differs_by k j (b ∷ rest) (omega (arith, apart k)) second in
    let j =
      join-Joined s a b p y z (Chain-end s a xs a c) d.0 (Chain-end s y ys b d.2)
        (λ e. lists_differ a y a_here (omega arith) (sym e))
        (λ e. differs_by b y rest no_b y_here (sym e))
        (λ e. differs_by b z rest no_b z_here (sym e)) (lists_differ p b p_here b_here)
        (lists_differ p z p_here (omega arith)) (lists_differ a b a_here b_here) in
    let second =
      Chain-ended s (join s a b) a b p y z y ys j refl (λ k. omega (arith, once' k))
        (omega (arith, apart p)) no_b (omega (arith, apart a))
        (alone_first y ys (omega (arith, once' y))) d.2 in
    (
      (
        Chain-Joined s (join s a b) a b y z ys a xs j once (omega (arith, apart z))
            (omega (arith, apart b)) (alone_first a xs (once a)) (omega (arith, apart y)) c second,
        λ k. omega (arith, apart k, count-append (λ x. x == k) xs rest),
      ),
      ((j.next_b, j.prev_b), λ k. omega (arith, once' k)),
    )
