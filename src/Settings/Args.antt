-- ===== src/Settings/Args.antt =====
-- The options of a command line.
use crts.Prelude.{
  ℕ, ◌≡◌, ap, refl, subst, Bool, true, false, ◌&&◌, Option, none, some, List, [], ◌∷◌, ◌==◌,
  Bool-cases, inl, inr, if◌then◌else◌, drop,
}
use crts.Settings.{
  Parsed, parsed, fault, stuck, fails, or_complain, strchrnul, OptionSpec, Setting, Settings,
  OptionResult, find_option, parse_named, value_of, is_help, parse_option, is_option, settle, go_on,
  option_args, ok, exit, help, error, invalid_option,
}
use crts.Settings.Strings.{Padded}
use crts.Settings.Fits.{
  >>=-parsed, parsed_inj, if_true, if_false, find_option-listed, IsValid, IsTable, CallsKeep,
  apply-IsValid,
}
use crts.Settings.Total.{is_option-ends, parse_option-ends}

or_complain-some {ℓ} :
    {A : Type ℓ} (o : Option A) {a : A} → or_complain o invalid_option ≡ parsed a → o ≡ some a
or_complain-some none h = absurd cc
or_complain-some (some b) h = ap some (parsed_inj h)

-- Whether an argument begins with "-R".
abbrev pub begins : List ℕ → Bool
begins (x ∷ y ∷ s) = (x == 45) && (y == 82)
begins s = false

-- The arguments that do not begin with "-R".
abbrev pub others : List (List ℕ) → List (List ℕ)
others [] = []
others (arg ∷ args) = let rest = others args in if begins arg then rest else arg ∷ rest

is_option_lem : (arg : List ℕ) {b : Bool} → is_option arg ≡ parsed b → begins arg ≡ b
unfolding is_option
is_option_lem [] h = absurd cc
is_option_lem (x ∷ []) h = elim (Bool-cases (x == 45)) [
  | inl e ↦ absurd (let wrong = if_true _ _ e h in cc)
  | inr e ↦ parsed_inj (if_false _ _ e h)
]
is_option_lem (x ∷ y ∷ s) h = elim (Bool-cases (x == 45)) [
  | inl e ↦ rw e (parsed_inj (if_true _ _ e h))
  | inr e ↦ rw e (parsed_inj (if_false _ _ e h))
]

-- The memory goes on for a cell after each argument.
abbrev pub AllPadded : List (List ℕ) → Type 0
AllPadded [] = Unit
AllPadded (arg ∷ args) = Padded arg × AllPadded args

module _ (opts : List OptionSpec) (call : OptionSpec → Setting → Settings → OptionResult × Settings)
    (table : IsTable opts call) (keep : CallsKeep opts call) where
  parse_named-IsValid :
      (name : List ℕ) (val : Option (List ℕ)) (σ : Settings) (r : OptionResult × Settings)
      → parse_named opts call name val σ ≡ parsed r
      → IsValid opts call σ
      → IsValid opts call r.1
  unfolding parse_named
  parse_named-IsValid name val σ r h valid =
      let (o, found, h1) = >>=-parsed (or_complain (find_option name opts) invalid_option) _ h in
      let (i, g) = find_option-listed name opts (or_complain-some (find_option name opts) found) in
      apply-IsValid opts call table keep i o val σ r g h1 valid

  settle-IsValid :
      (σ : Settings) (m : Parsed (OptionResult × Settings)) (r : OptionResult × Settings)
      → settle σ m ≡ parsed r
      → ((q : OptionResult × Settings) → m ≡ parsed q → IsValid opts call q.1)
      → IsValid opts call σ
      → IsValid opts call r.1
  settle-IsValid σ fault r h kept valid = absurd cc
  settle-IsValid σ stuck r h kept valid = absurd cc
  settle-IsValid σ (fails c) r h kept valid =
      subst (λ (q : OptionResult × Settings). IsValid opts call q.1) (parsed_inj h) valid
  settle-IsValid σ (parsed q) r h kept valid =
      subst (λ (q : OptionResult × Settings). IsValid opts call q.1) (parsed_inj h) (kept q refl)

  -- Each option keeps the settings valid.
  pub parse_option-IsValid :
      (arg : List ℕ) (σ : Settings) (r : OptionResult × Settings)
      → parse_option opts call arg σ ≡ parsed r
      → IsValid opts call σ
      → IsValid opts call r.1
  unfolding parse_option
  parse_option-IsValid arg σ r h valid =
      settle-IsValid σ _ r h
        (λ q hq.
          (let (s, _, h1) = >>=-parsed (strchrnul 61 arg) _ hq in
            let (val, _, h2) = >>=-parsed (value_of s.1) _ h1 in
            elim (Bool-cases (is_help s.0 val)) [
              | inl e ↦
                  subst (λ (q : OptionResult × Settings). IsValid opts call q.1)
                    (parsed_inj (if_true _ _ e h2)) valid
              | inr e ↦ parse_named-IsValid s.0 val σ q (if_false _ _ e h2) valid
            ]))
        valid

  -- The result of chiOptionArgs, with the arguments that are to be kept.
  abbrev Ended : List (List ℕ) → Parsed (OptionResult × Settings × List (List ℕ)) → Type 0
  Ended kept m =
      (r : OptionResult × Settings × List (List ℕ)) × (m ≡ parsed r)
      × IsValid opts call r.1
      × (r.0 ≡ ok → r.2 ≡ kept)

  go_on-Ended :
      (q : OptionResult) (σ : Settings) (args kept : List (List ℕ))
      (more : Parsed (OptionResult × Settings × List (List ℕ)))
      → IsValid opts call σ
      → Ended kept more
      → Ended kept (go_on q more (parsed (q, σ, args)))
  go_on-Ended ok σ args kept more valid ended = ended
  go_on-Ended exit σ args kept more valid ended = ((exit, σ, args), refl, valid, λ e. absurd cc)
  go_on-Ended help σ args kept more valid ended = ((help, σ, args), refl, valid, λ e. absurd cc)
  go_on-Ended (error c) σ args kept more valid ended =
      ((error c, σ, args), refl, valid, λ e. absurd cc)

  -- If the options that share a setting have one type, the callbacks keep the settings valid, and
  -- the memory goes on for a cell after each argument, then chiOptionArgs ends. Whatever its result
  -- is, an error included, the settings are valid if they were at the start: that of each option
  -- without a callback is within the bounds, the room or the number of the choices of the option.
  -- If the result is ok, the arguments left are those that do not begin with "-R", in their order.
  pub option_args-IsValid :
      (args : List (List ℕ)) (σ : Settings)
      → AllPadded args
      → IsValid opts call σ
      → (r : OptionResult × Settings × List (List ℕ)) × (option_args opts call args σ ≡ parsed r)
        × IsValid opts call r.1
        × (r.0 ≡ ok → r.2 ≡ others args)
  unfolding option_args
  option_args-IsValid [] σ p valid = ((ok, σ, []), refl, valid, λ _. refl)
  option_args-IsValid (arg ∷ args) σ p valid = elim (is_option-ends arg p.0) [
    | inl e ↦
        let (q, ends, kept, left) = option_args-IsValid args σ p.1 valid in
        let plain : begins arg ≡ false = is_option_lem arg e in
        (
          (q.0, q.1, arg ∷ q.2),
          rw (e, ends) refl,
          kept,
          λ done. rw plain (ap (◌∷◌ arg) (left done)),
        )
    | inr (e, within) ↦
        let (q, read) = parse_option-ends opts call table (drop 2 arg) σ within in
        let kept = parse_option-IsValid (drop 2 arg) σ q read valid in
        let mine : begins arg ≡ true = is_option_lem arg e in
        rw (e, mine, read)
          (go_on-Ended q.0 q.1 args (others args) (option_args opts call args q.1) kept
            (option_args-IsValid args q.1 p.1 kept))
  ]
