-- ===== src/Settings/Fits.antt =====
-- Every setting fits the type of its option, whatever the arguments are.
use native.Mathlib.Nat.{mod-eq_of_lt}
use crts.Prelude.{
  ℕ, suc, ◌+◌, ◌*◌, ◌%◌, ◌^◌, ◌≤◌, ◌<◌, ◌≡◌, refl, sym, ap, subst, ◌∙◌, Bool, true, false, not,
  ◌||◌, Option, none, some, List, [], ◌∷◌, length, get_elem?, arith, leb, leb→le, ltb, ◌==◌, ==_iff,
  Bool-cases, inl, inr, if◌then◌else◌,
}
use crts.Num.{read_uint}
use crts.Settings.Strings.{Terminated, separators, choice_from-ends}
use crts.Settings.{
  Parsed, parsed, fails, fault, stuck, Complaint, or_fault, or_invalid, check, string_of, equals,
  parse_int, parse_suffix, parse_size, parse_choice, OptionType, flag, uint32, uint64, size, string,
  choice, OptionSpec, Setting, switch, number, text, Settings, update, OptionResult, parse_value,
  find_option, apply_option, out_of_range, ◌>>=◌,
}

-- Inversion of a step that succeeds.
pub >>=-parsed {ℓ κ} :
    {A : Type ℓ} {B : Type κ} (m : Parsed A) (f : A → Parsed B) {b : B}
    → (m >>= f) ≡ parsed b
    → (a : A) × (m ≡ parsed a) × (f a ≡ parsed b)
>>=-parsed fault f h = absurd cc
>>=-parsed stuck f h = absurd cc
>>=-parsed (fails c) f h = absurd cc
>>=-parsed (parsed a) f h = (a, refl, h)

pub check-parsed : (b : Bool) (c : Complaint) {u : Unit {0}} → check b c ≡ parsed u → b ≡ true
check-parsed true c h = refl
check-parsed false c h = absurd cc

pub parsed_inj {ℓ} : {A : Type ℓ} {a b : A} → parsed a ≡ parsed b → a ≡ b
parsed_inj h = cc

pub if_true {ℓ} :
    {A : Type ℓ} {b : Bool} (x y : A) {z : A} → b ≡ true → (if b then x else y) ≡ z → x ≡ z
if_true {b = true} x y e h = h
if_true {b = false} x y e h = absurd cc

pub if_false {ℓ} :
    {A : Type ℓ} {b : Bool} (x y : A) {z : A} → b ≡ false → (if b then x else y) ≡ z → y ≡ z
if_false {b = false} x y e h = h
if_false {b = true} x y e h = absurd cc

-- What fits: a number within the bounds, a text that has room with its zero, the index of a choice.
abbrev pub Fits : OptionType → Setting → Type 0
Fits flag (switch b) = Unit
Fits (uint32 least most) (number n) = (least ≤ n) × (n ≤ most)
Fits (uint64 least most) (number n) = (least ≤ n) × (n ≤ most)
Fits (size least most) (number n) = (least ≤ n) × (n ≤ most) × (n < 2 ^ 64)
Fits (string room) (text s) = length s + 1 ≤ room
Fits (choice cs) (number i) = i ≤ separators 44 cs
Fits t v = ⊥

-- The bounds of an option of 32 bits have 32 bits, and the choices are a string.
abbrev pub IsType : OptionType → Type 0
IsType (uint32 least most) = most < 2 ^ 32
IsType (choice cs) = Terminated cs
IsType t = Unit

parse_int-bounds :
    (val : List ℕ) (least most : ℕ) {n : ℕ}
    → parse_int val least most ≡ parsed n
    → (least ≤ n) × (n ≤ most)
unfolding parse_int
parse_int-bounds val least most h =
    let (r, _, h1) = >>=-parsed (or_invalid (read_uint 64 val)) _ h in
    let (c, _, h2) = >>=-parsed (or_fault (get_elem? r.1 0)) _ h1 in
    let (_, _, h3) = >>=-parsed (check (c == 0) _) _ h2 in
    let (_, ranged, h4) =
      >>=-parsed (check (not (ltb r.0 least || ltb most r.0)) out_of_range) _ h3 in
    let inside = check-parsed (not (ltb r.0 least || ltb most r.0)) out_of_range ranged in
    (ground arith, ground arith)

parse_size-bounds :
    (val : List ℕ) (least most : ℕ) {n : ℕ}
    → parse_size val least most ≡ parsed n
    → (least ≤ n) × (n ≤ most) × (n < 2 ^ 64)
unfolding parse_size
parse_size-bounds val least most h =
    let (r, _, h1) = >>=-parsed (or_invalid (read_uint 64 val)) _ h in
    let (factor, _, h2) = >>=-parsed (parse_suffix r.1) _ h1 in
    let s = r.0 * factor in
    let test = not (leb (2 ^ 64) s || (ltb s least || ltb most s)) in
    let (_, ranged, h3) = >>=-parsed (check test out_of_range) _ h2 in
    let inside = check-parsed test out_of_range ranged in (ground arith, ground arith, ground arith)

parse_choice-bound :
    (val cs : List ℕ) {i : ℕ}
    → Terminated cs
    → parse_choice val cs ≡ parsed i
    → i ≤ separators 44 cs
unfolding parse_choice
parse_choice-bound val cs t h =
    let (v, _, h1) = >>=-parsed (string_of val) _ h in
    elim (choice_from-ends (suc (length cs)) cs v 0 t (omega arith)) [
      | inl misses ↦ absurd (let wrong = sym misses ∙ h1 in cc)
      | inr (j, hit, low) ↦ let same = parsed_inj (sym hit ∙ h1) in omega (arith, low, same)
    ]

-- A value that is accepted for a setting fits the option's type. (A callback gets its text
-- whatever its length.)
parse_value-Fits :
    (t : OptionType) (val : Option (List ℕ)) {v : Setting}
    → IsType t
    → parse_value t val false ≡ parsed v
    → Fits t v
unfolding parse_value
parse_value-Fits flag none ty h = subst (Fits flag) (parsed_inj h) tt
parse_value-Fits flag (some val) ty h =
    let (s, _, h1) = >>=-parsed (string_of val) _ h in
    elim (Bool-cases (equals s (116 ∷ []))) [
      | inl e ↦ subst (Fits flag) (parsed_inj (if_true _ _ e h1)) tt
      | inr e ↦ elim (Bool-cases (equals s (102 ∷ []))) [
        | inl e' ↦ subst (Fits flag) (parsed_inj (if_true _ _ e' (if_false _ _ e h1))) tt
        | inr e' ↦ absurd (let none = if_false _ _ e' (if_false _ _ e h1) in cc)
      ]
    ]
parse_value-Fits (uint32 least most) (some val) ty h =
    let (n, h1, h2) = >>=-parsed (parse_int val least most) _ h in
    let (lo, hi) = parse_int-bounds val least most h1 in
    let same : n % 2 ^ 32 ≡ n = mod-eq_of_lt (omega arith) in
    subst (Fits (uint32 least most)) (parsed_inj h2) (rw same lo, rw same hi)
parse_value-Fits (uint64 least most) (some val) ty h =
    let (n, h1, h2) = >>=-parsed (parse_int val least most) _ h in
    subst (Fits (uint64 least most)) (parsed_inj h2) (parse_int-bounds val least most h1)
parse_value-Fits (size least most) (some val) ty h =
    let (n, h1, h2) = >>=-parsed (parse_size val least most) _ h in
    subst (Fits (size least most)) (parsed_inj h2) (parse_size-bounds val least most h1)
parse_value-Fits (string room) (some val) ty h =
    let (s, _, h1) = >>=-parsed (string_of val) _ h in
    let (_, checked, h2) = >>=-parsed (check (leb (length s + 1) room) _) _ h1 in
    subst (Fits (string room)) (parsed_inj h2)
      (leb→le _ _ (check-parsed (leb (length s + 1) room) _ checked))
parse_value-Fits (choice cs) (some val) ty h =
    let (i, chosen, h1) = >>=-parsed (parse_choice val cs) _ h in
    subst (Fits (choice cs)) (parsed_inj h1) (parse_choice-bound val cs ty chosen)
parse_value-Fits (uint32 least most) none ty h = absurd cc
parse_value-Fits (uint64 least most) none ty h = absurd cc
parse_value-Fits (size least most) none ty h = absurd cc
parse_value-Fits (string room) none ty h = absurd cc
parse_value-Fits (choice cs) none ty h = absurd cc

-- The option that is found is one of the list.
pub find_option-listed :
    (name : List ℕ) (opts : List OptionSpec) {o : OptionSpec}
    → find_option name opts ≡ some o
    → (i : ℕ) × (get_elem? opts i ≡ some o)
unfolding find_option
find_option-listed name [] h = absurd cc
find_option-listed name (p ∷ opts) h = elim (Bool-cases (equals name p.name)) [
  | inl e ↦ (0, ground arith)
  | inr e ↦ let (i, g) = find_option-listed name opts (ground arith) in (suc i, g)
]

module _ (opts : List OptionSpec)
    (call : OptionSpec → Setting → Settings → OptionResult × Settings) where
  -- The settings of the options without a callback fit their types.
  abbrev pub IsValid : Settings → Type 0
  IsValid σ =
      (i : ℕ) (o : OptionSpec) → get_elem? opts i ≡ some o → o.cb ≡ false → Fits o.type (σ o.field)

  -- Options that share a setting have one type, and the types are well formed.
  pub record IsTable : Type 0 where
    pub types : (i : ℕ) (o : OptionSpec) → get_elem? opts i ≡ some o → IsType o.type
    pub shared :
        (i j : ℕ) (o p : OptionSpec)
        → get_elem? opts i ≡ some o
        → get_elem? opts j ≡ some p
        → o.cb ≡ false
        → p.cb ≡ false
        → o.field ≡ p.field
        → o.type ≡ p.type

  -- The callbacks keep what holds of the settings.
  abbrev pub CallsKeep : Type 0
  CallsKeep = (o : OptionSpec) (v : Setting) (σ : Settings) → IsValid σ → IsValid (call o v σ).1

  update-IsValid :
      (table : IsTable) (i : ℕ) (o : OptionSpec) (v : Setting) (σ : Settings)
      → get_elem? opts i ≡ some o
      → o.cb ≡ false
      → Fits o.type v
      → IsValid σ
      → IsValid (update σ o.field v)
  update-IsValid table i o v σ g cb fits valid j p gj cbj = elim (Bool-cases (p.field == o.field)) [
    | inl e ↦
        rw e
          (subst (λ t. Fits t v) (table.shared i j o p g gj cb cbj (sym ((==_iff _ _).0 e))) fits)
    | inr e ↦ rw e (valid j p gj cbj)
  ]

  pub apply-IsValid :
      (table : IsTable) (keep : CallsKeep) (i : ℕ) (o : OptionSpec) (val : Option (List ℕ))
      (σ : Settings) (r : OptionResult × Settings)
      → get_elem? opts i ≡ some o
      → apply_option opts call o val σ ≡ parsed r
      → IsValid σ
      → IsValid r.1
  unfolding apply_option
  apply-IsValid table keep i o val σ r g h valid = elim (Bool-cases (o.cb)) [
    | inl e ↦
        let (v, _, h1) = >>=-parsed (parse_value o.type val o.cb) _ h in
        subst (λ (q : OptionResult × Settings). IsValid q.1) (parsed_inj (if_true _ _ e h1))
          (keep o v σ valid)
    | inr e ↦
        let (v, hv, h1) = >>=-parsed (parse_value o.type val o.cb) _ h in
        let fits =
          parse_value-Fits o.type val (table.types i o g)
            (ap (parse_value o.type val) (sym e) ∙ hv) in
        subst (λ (q : OptionResult × Settings). IsValid q.1) (parsed_inj (if_false _ _ e h1))
          (update-IsValid table i o v σ g e fits valid)
  ]
