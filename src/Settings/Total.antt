-- ===== src/Settings/Total.antt =====
-- Reading an option ends, within memory that goes on for a cell after each string.
use crts.Prelude.{
  ℕ, ◌+◌, ◌-◌, ◌*◌, ◌^◌, ◌≡◌, ◌⊎◌, refl, Bool, true, false, not, ◌&&◌, ◌||◌, Option, none, some,
  List, [], ◌∷◌, length, get_elem?, drop, arith, leb, ltb, ◌==◌, Bool-cases, inl, inr, Option-cases,
  if◌then◌else◌,
}
use crts.Num.{refused, got, is_digit, read_from, finish, read_uint}
use crts.Settings.{
  Parsed, parsed, fails, Complaint, check, equals, parse_int, parse_suffix, parse_size, OptionType,
  flag, uint32, uint64, size, string, choice, OptionSpec, Setting, Settings, OptionResult,
  parse_value, find_option, value_of, is_help, is_option, apply_option, parse_named, parse_option,
  settle, error, or_fault, empty_argument, ◌>>=◌,
}
use crts.Settings.Strings.{
  Padded, zero_there, past_zero, strchrnul-Splits, string_of-ends, parse_choice-ends,
}
use crts.Settings.Fits.{IsType, IsTable, find_option-listed}

-- A result or a complaint: nothing is read out of bounds, and no loop goes on for ever.
pub data Answers {ℓ} {A : Type ℓ} : Parsed A → Type ℓ where
  refuses : (c : Complaint) → Answers (fails c)
  answers : (a : A) → Answers (parsed a)

bind_ends {ℓ κ} :
    {A : Type ℓ} {B : Type κ} (m : Parsed A) (f : A → Parsed B)
    → Answers m
    → ((a : A) → Answers (f a))
    → Answers (m >>= f)
bind_ends _ f (refuses c) k = refuses c
bind_ends _ f (answers a) k = k a

if_ends {ℓ} :
    {A : Type ℓ} (b : Bool) (x y : Parsed A) → Answers x → Answers y → Answers (if b then x else y)
if_ends true x y hx hy = hx
if_ends false x y hx hy = hy

check-Answers : (b : Bool) (c : Complaint) → Answers (check b c)
check-Answers true c = answers tt
check-Answers false c = refuses c

first_cell : (s : List ℕ) → Padded s → (c : ℕ) × (get_elem? s 0 ≡ some c)
first_cell [] p = absurd p
first_cell (x ∷ s) p = (x, refl)

second_cell : (s : List ℕ) → Padded s → (c : ℕ) × (get_elem? s 1 ≡ some c)
second_cell [] p = absurd p
second_cell (x ∷ []) (inl z) = absurd (omega (arith, z.1))
second_cell (x ∷ []) (inr p) = absurd p
second_cell (x ∷ y ∷ s) p = (y, refl)

read_from-ends :
    (bits : ℕ) (s : List ℕ) (r : ℕ)
    → Padded s
    → (read_from bits s r ≡ refused)
      ⊎ ((n : ℕ) × (rest : List ℕ) × (read_from bits s r ≡ got n rest) × Padded rest)
unfolding read_from
read_from-ends bits [] r p = absurd p
read_from-ends bits (c ∷ s) r p = elim (Bool-cases (is_digit c)) [
  | inl e ↦
      let ends = past_zero c s (ground arith) p in
      elim (Bool-cases (leb (2 ^ bits) (r * 10))) [
        | inl e1 ↦ inl (rw (e, e1) refl)
        | inr e1 ↦ elim (Bool-cases (leb (2 ^ bits) (r * 10 + (c - 48)))) [
          | inl e2 ↦ inl (rw (e, e1, e2) refl)
          | inr e2 ↦ rw (e, e1, e2) (read_from-ends bits s (r * 10 + (c - 48)) ends)
        ]
      ]
  | inr e ↦ inr (r, c ∷ s, rw e refl, p)
]

read_uint-ends :
    (bits : ℕ) (s : List ℕ)
    → Padded s
    → (read_uint bits s ≡ refused)
      ⊎ ((n : ℕ) × (rest : List ℕ) × (read_uint bits s ≡ got n rest) × Padded rest)
unfolding read_uint finish
read_uint-ends bits s p = elim (read_from-ends bits s 0 p) [
  | inl e ↦ inl (rw e refl)
  | inr (n, rest, e, q) ↦ elim (Bool-cases (length rest == length s)) [
    | inl same ↦ inl (rw (e, same) refl)
    | inr less ↦ inr (n, rest, rw (e, less) refl, q)
  ]
]

parse_int-Answers :
    (val : List ℕ) (least most : ℕ) → Padded val → Answers (parse_int val least most)
unfolding parse_int
parse_int-Answers val least most p = elim (read_uint-ends 64 val p) [
  | inl e ↦ rw e (refuses _)
  | inr (n, rest, e, q) ↦
      let (c, at) = first_cell rest q in
      rw (e, at)
        (bind_ends (check (c == 0) _) _ (check-Answers (c == 0) _) (λ _.
          bind_ends (check (not (ltb n least || ltb most n)) _) _
            (check-Answers (not (ltb n least || ltb most n)) _) (λ _. answers _)))
]

parse_suffix-Answers : (rest : List ℕ) → Padded rest → Answers (parse_suffix rest)
unfolding parse_suffix
parse_suffix-Answers rest p =
    let (c, first) = first_cell rest p in
    let (d, second) = second_cell rest p in
    rw (first, second)
      (if_ends ((d == 0) && ((c == 107) || (c == 75))) _ _ (answers 1024) (
        if_ends ((d == 0) && ((c == 109) || (c == 77))) _ _ (answers 1048576) (
          if_ends ((d == 0) && ((c == 103) || (c == 71))) _ _ (answers 1073741824)
            (if_ends (c == 0) _ _ (answers 1) (refuses _)))))

parse_size-Answers :
    (val : List ℕ) (least most : ℕ) → Padded val → Answers (parse_size val least most)
unfolding parse_size
parse_size-Answers val least most p = elim (read_uint-ends 64 val p) [
  | inl e ↦ rw e (refuses _)
  | inr (n, rest, e, q) ↦ rw e (
      bind_ends (parse_suffix rest) _ (parse_suffix-Answers rest q) (λ factor.
        bind_ends
          (check
            (not (leb (2 ^ 64) (n * factor) || (ltb (n * factor) least || ltb most (n * factor))))
            _)
          _
          (check-Answers
            (not (leb (2 ^ 64) (n * factor) || (ltb (n * factor) least || ltb most (n * factor))))
            _)
          (λ _. answers _)))
]

-- A value within the memory, or none.
abbrev IsValue : Option (List ℕ) → Type 0
IsValue none = Unit
IsValue (some val) = Padded val

parse_value-Answers :
    (t : OptionType) (val : Option (List ℕ)) (cb : Bool)
    → IsType t
    → IsValue val
    → Answers (parse_value t val cb)
unfolding parse_value
parse_value-Answers flag none cb ty p = answers _
parse_value-Answers flag (some val) cb ty p =
    let (v, e) = string_of-ends val (zero_there val p) in
    rw e (
      if_ends (equals v (116 ∷ [])) _ _ (answers _)
        (if_ends (equals v (102 ∷ [])) _ _ (answers _) (refuses _)))
parse_value-Answers (uint32 least most) (some val) cb ty p =
    bind_ends (parse_int val least most) _ (parse_int-Answers val least most p) (λ n. answers _)
parse_value-Answers (uint64 least most) (some val) cb ty p =
    bind_ends (parse_int val least most) _ (parse_int-Answers val least most p) (λ n. answers _)
parse_value-Answers (size least most) (some val) cb ty p =
    bind_ends (parse_size val least most) _ (parse_size-Answers val least most p) (λ n. answers _)
parse_value-Answers (string room) (some val) cb ty p =
    let (v, e) = string_of-ends val (zero_there val p) in
    let fits = cb || leb (length v + 1) room in
    rw e (bind_ends (check fits _) _ (check-Answers fits _) (λ _. answers _))
parse_value-Answers (choice cs) (some val) cb ty p =
    elim (parse_choice-ends val cs (zero_there val p) ty) [
      | inl e ↦ rw e (refuses _)
      | inr (i, e, low) ↦ rw e (answers _)
    ]
parse_value-Answers (uint32 least most) none cb ty p = refuses _
parse_value-Answers (uint64 least most) none cb ty p = refuses _
parse_value-Answers (size least most) none cb ty p = refuses _
parse_value-Answers (string room) none cb ty p = refuses _
parse_value-Answers (choice cs) none cb ty p = refuses _

value_of-ends :
    (x : ℕ) (s : List ℕ)
    → Padded (x ∷ s)
    → (value_of (x ∷ s) ≡ fails empty_argument)
      ⊎ ((val : Option (List ℕ)) × (value_of (x ∷ s) ≡ parsed val) × IsValue val)
unfolding value_of
value_of-ends x s p = elim (Bool-cases (x == 61)) [
  | inl e ↦
      let q = past_zero x s (ground arith) p in
      let (c, first) = first_cell s q in
      elim (Bool-cases (c == 0)) [
        | inl z ↦ inl (rw (e, first, z) refl)
        | inr nz ↦ inr (some s, rw (e, first, nz) refl, q)
      ]
  | inr e ↦ inr (none, rw e refl, tt)
]

-- Whether an argument is an option, and that the option is within the memory.
pub is_option-ends :
    (arg : List ℕ)
    → Padded arg
    → (is_option arg ≡ parsed false) ⊎ ((is_option arg ≡ parsed true) × Padded (drop 2 arg))
unfolding is_option
is_option-ends [] p = absurd p
is_option-ends (x ∷ s) p = elim (Bool-cases (x == 45)) [
  | inl e ↦ rw e (after_dash s (past_zero x s (ground arith) p))
  | inr e ↦ inl (rw e refl)
]
  where
    after_dash :
        (s : List ℕ)
        → Padded s
        → ((or_fault (get_elem? s 0) >>= λ second. parsed (second == 82)) ≡ parsed false)
          ⊎ (((or_fault (get_elem? s 0) >>= λ second. parsed (second == 82)) ≡ parsed true)
              × Padded (drop 1 s))
    after_dash [] p = absurd p
    after_dash (y ∷ s) p = elim (Bool-cases (y == 82)) [
      | inl e ↦ inr (rw e refl, past_zero y s (ground arith) p)
      | inr e ↦ inl (rw e refl)
    ]

module _ (opts : List OptionSpec) (call : OptionSpec → Setting → Settings → OptionResult × Settings)
    (table : IsTable opts call) where
  parse_named-Answers :
      (name : List ℕ) (val : Option (List ℕ)) (σ : Settings)
      → IsValue val
      → Answers (parse_named opts call name val σ)
  unfolding parse_named apply_option
  parse_named-Answers name val σ p = elim (Option-cases (find_option name opts)) [
    | inl e ↦ rw e (refuses _)
    | inr (o, e) ↦
        let (i, g) = find_option-listed name opts e in
        rw e (
          bind_ends (parse_value o.type val o.cb) _
            (parse_value-Answers o.type val o.cb (table.types i o g) p)
            (λ v. if_ends o.cb _ _ (answers _) (answers _)))
  ]

  settle-parsed :
      (σ : Settings) (m : Parsed (OptionResult × Settings))
      → Answers m
      → (r : OptionResult × Settings) × (settle σ m ≡ parsed r)
  settle-parsed σ _ (refuses c) = ((error c, σ), refl)
  settle-parsed σ _ (answers r) = (r, refl)

  -- Within memory that goes on for a cell after the argument, parseOption ends with a result.
  pub parse_option-ends :
      (arg : List ℕ) (σ : Settings)
      → Padded arg
      → (r : OptionResult × Settings) × (parse_option opts call arg σ ≡ parsed r)
  unfolding parse_option
  parse_option-ends arg σ p =
      let s = strchrnul-Splits 61 arg (zero_there arg p) in
      let found = s.found in
      settle-parsed σ _ (
        rw found (elim (value_of-ends s.stop s.beyond (s.padded p)) [
          | inl e ↦ rw e (refuses _)
          | inr (val, e, q) ↦ rw e (
              if_ends (is_help s.before val) _ _ (answers _) (parse_named-Answers s.before val σ q))
        ]))
