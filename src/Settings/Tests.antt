-- ===== src/Settings/Tests.antt =====
-- The options on concrete command lines.
use crts.Prelude.{
  ℕ, zero, suc, ◌≡◌, refl, subst, inl, inr, true, false, some, List, [], ◌∷◌, ◌++◌, arith,
  get_elem?,
}
use crts.Num.{read_uint, read_from, finish}
use crts.Settings.{
  parsed, fault, equals, strskip, strsplit, strchrnul, string_of, parse_int, parse_size,
  choice_from, parse_choice, flag, uint32, OptionSpec, Setting, switch, number, Settings, update,
  OptionResult, parse_value, find_option, apply_option, parse_named, value_of, parse_option,
  is_option, option_args, option_env, ok, error, invalid_option, out_of_range,
}
use crts.Settings.Numbers.{parse_int-number, parse_size-overread, in_range}
use crts.Settings.Fits.{IsValid, IsTable, CallsKeep, Fits, IsType}
use crts.Settings.Args.{AllPadded, others, option_args-IsValid}

abbrev thirty : List ℕ
thirty = 51 ∷ 48 ∷ []

-- "help", "n=30" and the like, with the zero at the end.
abbrev n_name : List ℕ
n_name = 110 ∷ []

abbrev f_name : List ℕ
f_name = 102 ∷ []

abbrev n_option : OptionSpec
n_option = record { name = n_name; type = uint32 1 64; cb = false; field = 0 }

abbrev f_option : OptionSpec
f_option = record { name = f_name; type = flag; cb = false; field = 1 }

abbrev table : List OptionSpec
table = n_option ∷ f_option ∷ []

abbrev no_calls : OptionSpec → Setting → Settings → OptionResult × Settings
no_calls o v σ = (error invalid_option, σ)

abbrev defaults : Settings
defaults zero = number 2
defaults (suc i) = switch false

-- "-Rn=30" "x" "-Rf"
abbrev line : List (List ℕ)
line =
    (45 ∷ 82 ∷ 110 ∷ 61 ∷ 51 ∷ 48 ∷ 0 ∷ 0 ∷ [])
    ∷ (120 ∷ 0 ∷ 0 ∷ [])
    ∷ (45 ∷ 82 ∷ 102 ∷ 0 ∷ 0 ∷ [])
    ∷ []

parse_int_example : parse_int (51 ∷ 48 ∷ 0 ∷ []) 1 64 ≡ parsed 30
unfolding parse_int read_uint read_from finish
parse_int_example = refl

abbrev ended : OptionResult × Settings × List (List ℕ)
ended = (ok, update (update defaults 0 (number 30)) 1 (switch true), (120 ∷ 0 ∷ 0 ∷ []) ∷ [])

line_ends : option_args table no_calls line defaults ≡ parsed ended
unfolding option_args parse_option parse_named find_option apply_option parse_value parse_int
    strchrnul value_of is_option string_of equals read_uint read_from finish
line_ends = refl

some_inj : {o p : OptionSpec} → some o ≡ some p → o ≡ p
some_inj h = cc

table_types : (i : ℕ) (o : OptionSpec) → get_elem? table i ≡ some o → IsType o.type
table_types zero o h = subst (λ (p : OptionSpec). IsType p.type) (some_inj h) (omega arith)
table_types (suc zero) o h = subst (λ (p : OptionSpec). IsType p.type) (some_inj h) tt
table_types (suc (suc i)) o h = absurd cc

table_shared :
    (i j : ℕ) (o p : OptionSpec)
    → get_elem? table i ≡ some o
    → get_elem? table j ≡ some p
    → o.cb ≡ false
    → p.cb ≡ false
    → o.field ≡ p.field
    → o.type ≡ p.type
table_shared zero zero o p g h a b same = cc
table_shared (suc zero) (suc zero) o p g h a b same = cc
table_shared zero (suc zero) o p g h a b same = absurd cc
table_shared (suc zero) zero o p g h a b same = absurd cc
table_shared zero (suc (suc j)) o p g h a b same = absurd cc
table_shared (suc i) (suc (suc j)) o p g h a b same = absurd cc
table_shared (suc (suc i)) j o p g h a b same = absurd cc

table-IsTable : IsTable table no_calls
table-IsTable = record { types = table_types; shared = table_shared }

no_calls-CallsKeep : CallsKeep table no_calls
no_calls-CallsKeep o v σ valid = valid

defaults-IsValid : IsValid table no_calls defaults
defaults-IsValid zero o h cb =
    subst (λ (p : OptionSpec). Fits p.type (defaults p.field)) (some_inj h)
      (omega arith, omega arith)
defaults-IsValid (suc zero) o h cb =
    subst (λ (p : OptionSpec). Fits p.type (defaults p.field)) (some_inj h) tt
defaults-IsValid (suc (suc i)) o h cb = absurd cc

-- The zeros of the three arguments are followed by a cell.
line-AllPadded : AllPadded line
line-AllPadded = (
  inr (inr (inr (inr (inr (inr (inl (refl, omega arith))))))),
  (inr (inl (refl, omega arith)), (inr (inr (inr (inl (refl, omega arith)))), tt)),
)

option_args-IsValid_example :
    (r : OptionResult × Settings × List (List ℕ)) × (option_args table no_calls line defaults
      ≡ parsed r)
    × IsValid table no_calls r.1
    × (r.0 ≡ ok → r.2 ≡ others line)
option_args-IsValid_example =
    option_args-IsValid table no_calls table-IsTable no_calls-CallsKeep line defaults line-AllPadded
      defaults-IsValid

-- "-Rf" "-Rn=99": the flag is set, the number is out of range.
error_ends :
    option_args table no_calls
      ((45 ∷ 82 ∷ 102 ∷ 0 ∷ []) ∷ (45 ∷ 82 ∷ 110 ∷ 61 ∷ 57 ∷ 57 ∷ 0 ∷ []) ∷ [])
      defaults
    ≡ parsed (error out_of_range, update defaults 1 (switch true), [])
unfolding option_args parse_option parse_named find_option apply_option parse_value parse_int
    strchrnul value_of is_option string_of equals read_uint read_from finish
error_ends = refl

parse_int-number_example : parse_int (thirty ++ 0 ∷ []) 1 64 ≡ in_range 30 1 64
parse_int-number_example = parse_int-number thirty [] 1 64 refl (omega arith)

parse_size-overread_example : parse_size (thirty ++ 0 ∷ []) 1 64 ≡ fault
parse_size-overread_example = parse_size-overread thirty 1 64 refl (omega arith) (omega arith)

-- The choices "off,on"; "on" is the second.
choice_on : parse_choice (111 ∷ 110 ∷ 0 ∷ []) (111 ∷ 102 ∷ 102 ∷ 44 ∷ 111 ∷ 110 ∷ 0 ∷ []) ≡ parsed 1
unfolding parse_choice choice_from strsplit strskip strchrnul string_of equals
choice_on = refl

-- The environment "-Rf -Rn=30", with a zero at the end.
env_ends :
    option_env table no_calls 3
      (some (45 ∷ 82 ∷ 102 ∷ 32 ∷ 45 ∷ 82 ∷ 110 ∷ 61 ∷ 51 ∷ 48 ∷ 0 ∷ []))
      defaults
    ≡ parsed (ok, update (update defaults 1 (switch true)) 0 (number 30))
unfolding option_env strsplit option_args parse_option parse_named find_option apply_option
    parse_value parse_int strchrnul value_of is_option string_of equals read_uint read_from finish
env_ends = refl
