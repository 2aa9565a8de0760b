-- ===== src/Hashes/Next.antt =====
-- The iteration over the entries of a table.
use crts.Prelude.{
  ℕ, zero, suc, ◌+◌, ◌≤◌, ◌<◌, ◌≡◌, refl, ap, ◌∙◌, inl, inr, Bool, true, false, Option, none, some,
  List, [], ◌∷◌, arith, subst, length, ℕ_discrete, drop, get_or, Bool-cases,
}
use crts.Prelude.Counts.{bit, count}
use crts.Hashes.{EntryType, HtHash, next_from}
use crts.Hashes.Valid.{occupied, get_or_out}

module _ {ℓ} {A : Type ℓ} (test : A → Bool) (d : A) where
  count-drop :
      (xs : List A) (i : ℕ)
      → i < length xs
      → count test (drop i xs) ≡ bit (test (get_or xs i d)) + count test (drop (i + 1) xs)
  count-drop [] i h = absurd (omega arith)
  count-drop (x ∷ xs) zero h = refl
  count-drop (x ∷ xs) (suc i) h =
      let e : suc i + 1 ≡ suc (i + 1) = omega arith in rw e (count-drop xs i (omega arith))

  count-drop_all : (xs : List A) (i : ℕ) → length xs ≤ i → count test (drop i xs) ≡ 0
  count-drop_all [] zero h = refl
  count-drop_all [] (suc i) h = refl
  count-drop_all (x ∷ xs) zero h = absurd (omega arith)
  count-drop_all (x ∷ xs) (suc i) h = count-drop_all xs i (omega arith)

  pub count-le : (xs : List A) → count test xs ≤ length xs
  count-le [] = omega arith
  count-le (x ∷ xs) = elim (Bool-cases (test x)) [
    | inl p ↦ omega (arith, count-le xs, ap bit p)
    | inr p ↦ omega (arith, count-le xs, ap bit p)
  ]

module _ (t : EntryType) where
  open t use {Entry, Key, zeroed, exists, key, hash, zeroed_lem}

  -- What the iteration over the entries returns.
  pub data NextIs (h : HtHash t) (from : ℕ) : Option ℕ → Type 0 where
    there :
        (e : ℕ)
        → from ≤ e
        → e < h.capacity
        → occupied t h e ≡ true
        → ((s : ℕ) → from ≤ s → s < e → occupied t h s ≡ false)
        → count exists (drop from h.entry) ≡ 1 + count exists (drop (e + 1) h.entry)
        → NextIs h from (some e)
    over :
        ((s : ℕ) → from ≤ s → occupied t h s ≡ false)
        → count exists (drop from h.entry) ≡ 0
        → NextIs h from none

  later :
      (h : HtHash t) (from : ℕ) (r : Option ℕ)
      → from < length h.entry
      → occupied t h from ≡ false
      → NextIs h (from + 1) r
      → NextIs h from r
  later h from r low free (NextIs.there e le lt full skipped n) =
      there e (omega arith) lt full
        (λ s a b. elim (ℕ_discrete from s) [
          | yes same ↦ subst (λ i. occupied t h i ≡ false) same free
          | no ne ↦ skipped s (omega arith) b
        ])
        (omega (arith, count-drop exists zeroed h.entry from low, ap bit free))
  later h from r low free (NextIs.over skipped n) =
      over
        (λ s a. elim (ℕ_discrete from s) [
          | yes same ↦ subst (λ i. occupied t h i ≡ false) same free
          | no ne ↦ skipped s (omega arith)
        ])
        (omega (arith, count-drop exists zeroed h.entry from low, ap bit free))

  pub next_from_lem :
      (left : ℕ) (h : HtHash t) (from : ℕ)
      → length h.entry ≡ h.capacity
      → left + from ≡ h.capacity
      → NextIs h from (next_from t left h from)
  unfolding next_from
  next_from_lem zero h from size all =
      over (λ s a. ap exists (get_or_out h.entry s zeroed (omega arith)) ∙ zeroed_lem)
        (count-drop_all exists zeroed h.entry from (omega arith))
  next_from_lem (suc left) h from size all = elim (Bool-cases (occupied t h from)) [
    | inl full ↦ rw full (
        there from (omega arith) (omega arith) full (λ s a b. absurd (omega arith))
          (omega (arith, count-drop exists zeroed h.entry from (omega arith), ap bit full)))
    | inr free ↦
        rw free
          (later h from _ (omega arith) free (next_from_lem left h (from + 1) size (omega arith)))
  ]
