-- ===== src/Settings/Strings.antt =====
-- The string functions of native/strutil.h end within strings that are terminated.
use crts.Prelude.{
  ℕ, zero, suc, ◌+◌, ◌≤◌, ◌<◌, ◌≡◌, ◌⊎◌, refl, ◌∙◌, true, false, ◌||◌, Option, none, some, List, [],
  ◌∷◌, length, arith, ◌==◌, Bool-cases, inl, inr, pick_true, pick_false, if◌then◌else◌,
}
use crts.Settings.{
  Parsed, parsed, fails, invalid_choice, strchrnul, string_of, equals, strskip, strsplit,
  choice_from, parse_choice,
}

-- There is a zero in the memory.
abbrev pub Terminated : List ℕ → Type 0
Terminated [] = ⊥
Terminated (x ∷ s) = (x ≡ 0) ⊎ Terminated s

-- There is a zero in the memory, and a cell after it.
abbrev pub Padded : List ℕ → Type 0
Padded [] = ⊥
Padded (x ∷ s) = ((x ≡ 0) × (0 < length s)) ⊎ Padded s

pub zero_there : (s : List ℕ) → Padded s → Terminated s
zero_there [] p = p
zero_there (x ∷ s) (inl z) = inl z.0
zero_there (x ∷ s) (inr p) = inr (zero_there s p)

pub past_zero : (x : ℕ) (s : List ℕ) → (x == 0) ≡ false → Padded (x ∷ s) → Padded s
past_zero x s e (inl z) = absurd (ground (arith, z.0))
past_zero x s e (inr p) = p

past_end : (x : ℕ) (s : List ℕ) → (x == 0) ≡ false → Terminated (x ∷ s) → Terminated s
past_end x s e (inl z) = absurd (ground (arith, z))
past_end x s e (inr t) = t

-- The separators before the end of a string.
abbrev pub separators : ℕ → List ℕ → ℕ
separators c [] = 0
separators c (x ∷ s) =
    let rest = separators c s in if x == 0 then 0 else if x == c then suc rest else rest

-- What strchrnul finds.
pub record Splits (c : ℕ) (s : List ℕ) : Type 0 where
  pub before : List ℕ
  pub stop : ℕ
  pub beyond : List ℕ
  pub found : strchrnul c s ≡ parsed (before, stop ∷ beyond)
  pub stops : ((stop == 0) || (stop == c)) ≡ true
  pub ends : Terminated (stop ∷ beyond)
  pub padded : Padded s → Padded (stop ∷ beyond)
  pub sizes : length before + suc (length beyond) ≡ length s
  pub counted : separators c s ≡ separators c (stop ∷ beyond)

pub strchrnul-Splits : (c : ℕ) (s : List ℕ) → Terminated s → Splits c s
unfolding strchrnul
strchrnul-Splits c [] t = absurd t
strchrnul-Splits c (x ∷ s) t = elim (Bool-cases ((x == 0) || (x == c))) [
  | inl e ↦ record {
    before = [];
    stop = x;
    beyond = s;
    found = pick_true _ _ e;
    stops = e;
    ends = t;
    padded = λ p. p;
    sizes = omega arith;
    counted = refl;
  }
  | inr e ↦
      let e0 : (x == 0) ≡ false = ground arith in
      let ec : (x == c) ≡ false = ground arith in
      let r = strchrnul-Splits c s (past_end x s e0 t) in
      let found = r.found in
      let sizes = r.sizes in
      record {
        before = x ∷ r.before;
        stop = r.stop;
        beyond = r.beyond;
        found = pick_false _ _ e ∙ rw found refl;
        stops = r.stops;
        ends = r.ends;
        padded = λ p. r.padded (past_zero x s e0 p);
        sizes = omega arith;
        counted = rw (e0, ec) (r.counted);
      }
]

pub string_of-ends : (s : List ℕ) → Terminated s → (v : List ℕ) × (string_of s ≡ parsed v)
unfolding string_of
string_of-ends s t =
    let r = strchrnul-Splits 0 s t in let found = r.found in (r.before, rw found refl)

-- What is left of a string is terminated, is shorter, and has fewer separators.
abbrev Left : ℕ → List ℕ → Option (List ℕ) → Type 0
Left sep s none = Unit
Left sep s (some rest) =
    Terminated rest × (length rest < length s) × (separators sep rest < separators sep s)

-- strsplit ends on fuel that is more than the string is long.
abbrev SplitEnds : ℕ → List ℕ → Parsed (Option (List ℕ × Option (List ℕ))) → Type 0
SplitEnds sep s r =
    (r ≡ parsed none)
    ⊎ ((token : List ℕ) × (next : Option (List ℕ)) × (r ≡ parsed (some (token, next)))
        × Left sep s next)

weaken_rest :
    (sep : ℕ) (s s' : List ℕ) (next : Option (List ℕ))
    → length s' < length s
    → separators sep s' < separators sep s
    → Left sep s' next
    → Left sep s next
weaken_rest sep s s' none a b l = tt
weaken_rest sep s s' (some rest) a b l = (l.0, omega (arith, l.1), omega (arith, l.2))

strsplit-none : (fuel sep : ℕ) → 0 < fuel → strsplit fuel none sep ≡ parsed none
unfolding strsplit
strsplit-none zero sep pos = absurd (omega arith)
strsplit-none (suc fuel) sep pos = refl

pub strsplit-ends :
    (fuel sep : ℕ) (s : List ℕ)
    → (sep == 0) ≡ false
    → Terminated s
    → length s < fuel
    → SplitEnds sep s (strsplit fuel (some s) sep)
unfolding strsplit
strsplit-ends zero sep s nz t lt = absurd (omega arith)
strsplit-ends (suc fuel) sep [] nz t lt = absurd t
strsplit-ends (suc fuel) sep (x ∷ s) nz t lt =
    let r = strchrnul-Splits sep (x ∷ s) t in
    let found = r.found in
    let sizes = r.sizes in
    let counted = r.counted in
    elim (Bool-cases (x == 0)) [
      | inl e0 ↦ inl (rw e0 refl)
      | inr e0 ↦ elim (Bool-cases (r.stop == sep)) [
        | inl at ↦
            let nz' : (r.stop == 0) ≡ false = ground arith in
            let ends = past_end r.stop r.beyond nz' r.ends in
            let fewer : separators sep (r.stop ∷ r.beyond) ≡ suc (separators sep r.beyond) =
              rw (nz', at) refl in
            let less : separators sep r.beyond < separators sep (x ∷ s) =
              omega (arith, counted, fewer) in
            elim (Bool-cases (length r.before == 0)) [
              | inl empty ↦ elim (strsplit-ends fuel sep r.beyond nz ends (omega (arith, sizes))) [
                | inl misses ↦ inl (rw (e0, found, at, empty) misses)
                | inr (token, next, hit, left) ↦ inr (
                  token,
                  next,
                  rw (e0, found, at, empty) hit,
                  weaken_rest sep (x ∷ s) r.beyond next (omega (arith, sizes)) less left,
                )
              ]
              | inr full ↦ inr (
                r.before,
                some r.beyond,
                rw (e0, found, at, full) refl,
                (ends, omega (arith, sizes), less),
              )
            ]
        | inr at ↦ elim (Bool-cases (length r.before == 0)) [
          | inl empty ↦ inl (rw (e0, found, at, empty) (strsplit-none fuel sep (omega arith)))
          | inr full ↦ inr (r.before, none, rw (e0, found, at, full) refl, tt)
        ]
      ]
    ]

-- The index of a choice is at most the number of separators.
abbrev ChoiceEnds : ℕ → ℕ → Parsed ℕ → Type 0
ChoiceEnds i n r = (r ≡ fails invalid_choice) ⊎ ((j : ℕ) × (r ≡ parsed j) × (j ≤ i + n))

choice_from-none :
    (fuel : ℕ) (val : List ℕ) (i : ℕ)
    → 0 < fuel
    → choice_from fuel none val i ≡ fails invalid_choice
unfolding choice_from
choice_from-none zero val i pos = absurd (omega arith)
choice_from-none (suc fuel) val i pos = rw (strsplit-none (suc (suc fuel)) 44 (omega arith)) refl

next_choice :
    (fuel x : ℕ) (s val : List ℕ) (i : ℕ) (next : Option (List ℕ))
    → suc (length s) ≤ fuel
    → Left 44 (x ∷ s) next
    → ((rest : List ℕ)
        → Terminated rest
        → length rest < fuel
        → ChoiceEnds (suc i) (separators 44 rest) (choice_from fuel (some rest) val (suc i)))
    → ChoiceEnds i (separators 44 (x ∷ s)) (choice_from fuel next val (suc i))
next_choice fuel x s val i none le left ih = inl (choice_from-none fuel val (suc i) (omega arith))
next_choice fuel x s val i (some rest) le (ends, shorter, fewer) ih =
    elim (ih rest ends (omega arith)) [
      | inl misses ↦ inl misses
      | inr (j, hit, low) ↦ inr (j, hit, omega arith)
    ]

pub choice_from-ends :
    (fuel : ℕ) (s val : List ℕ) (i : ℕ)
    → Terminated s
    → length s < fuel
    → ChoiceEnds i (separators 44 s) (choice_from fuel (some s) val i)
unfolding choice_from
choice_from-ends zero s val i t lt = absurd (omega arith)
choice_from-ends (suc fuel) [] val i t lt = absurd t
choice_from-ends (suc fuel) (x ∷ s) val i t lt =
    elim (strsplit-ends (suc (suc fuel)) 44 (x ∷ s) refl t (omega arith)) [
      | inl misses ↦ inl (rw misses refl)
      | inr (token, next, hit, left) ↦ elim (Bool-cases (equals (strskip token 32) val)) [
        | inl e ↦ inr (i, rw hit (pick_true _ _ e), omega arith)
        | inr e ↦ rw hit (
            rw e (
              next_choice fuel x s val i next (omega arith) left
                (λ rest ends lower. choice_from-ends fuel rest val (suc i) ends lower)))
      ]
    ]

-- For strings that are terminated, parseChoice ends: it refuses the value, or gives an index that
-- is at most the number of commas among the choices.
pub parse_choice-ends :
    (val choices : List ℕ)
    → Terminated val
    → Terminated choices
    → ChoiceEnds 0 (separators 44 choices) (parse_choice val choices)
unfolding parse_choice
parse_choice-ends val choices t tc =
    let (v, ends) = string_of-ends val t in
    rw ends (choice_from-ends (suc (length choices)) choices v 0 tc (omega arith))
