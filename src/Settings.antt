-- ===== src/Settings.antt =====
-- native/option.c, the options of the runtime, with the string functions of native/strutil.h.
mod Numbers
mod Strings
mod Fits
mod Total
mod Args
pub mod Tests
use crts.Prelude.{
  ℕ, zero, suc, ◌+◌, ◌-◌, ◌*◌, ◌%◌, ◌^◌, ◌≤◌, ◌≡◌, Bool, true, false, not, ◌&&◌, ◌||◌, Option, none,
  some, List, [], ◌∷◌, ◌++◌, length, get_elem?, drop, leb, ltb, ◌==◌, if◌then◌else◌,
}
use crts.Num.{Read, got, read_uint}
use crts.Num

-- A pointer to characters is the memory from there on; a zero ends a string. A read past the end
-- of the memory is a fault.
pub data Complaint : Type 0 where
  invalid_argument out_of_range invalid_choice invalid_suffix needs_value empty_argument : Complaint
  too_long invalid_option : Complaint

-- `stuck` is a loop that has run out of its fuel.
pub data Parsed {ℓ} (A : Type ℓ) : Type ℓ where
  fault stuck : Parsed A
  fails : Complaint → Parsed A
  parsed : A → Parsed A

infixl 5 ◌>>=◌
abbrev pub ◌>>=◌ {ℓ κ} : {A : Type ℓ} {B : Type κ} → Parsed A → (A → Parsed B) → Parsed B
fault >>= f = fault
stuck >>= f = stuck
fails c >>= f = fails c
parsed a >>= f = f a

abbrev pub or_fault {ℓ} : {A : Type ℓ} → Option A → Parsed A
or_fault none = fault
or_fault (some a) = parsed a

abbrev pub or_complain {ℓ} : {A : Type ℓ} → Option A → Complaint → Parsed A
or_complain none c = fails c
or_complain (some a) c = parsed a

-- `strchrnul`: the characters before `c` or the end of the string, and the memory from there on.
unfoldable pub strchrnul : ℕ → List ℕ → Parsed (List ℕ × List ℕ)
strchrnul c [] = fault
strchrnul c (x ∷ s) =
    let rest = strchrnul c s in
    if (x == 0) || (x == c) then parsed ([], x ∷ s) else (rest >>= λ r. parsed (x ∷ r.0, r.1))

-- The characters of a string.
unfoldable pub string_of : List ℕ → Parsed (List ℕ)
string_of s = strchrnul 0 s >>= λ r. parsed r.0

unfoldable pub equals : List ℕ → List ℕ → Bool
equals [] [] = true
equals [] (y ∷ t) = false
equals (x ∷ s) [] = false
equals (x ∷ s) (y ∷ t) = (x == y) && equals s t

unfoldable pub strskip : List ℕ → ℕ → List ℕ
strskip [] c = []
strskip (x ∷ s) c = if x == c then strskip s c else x ∷ s

-- `strsplit`, on fuel; no rest is the null pointer. It skips empty tokens.
unfoldable pub strsplit : ℕ → Option (List ℕ) → ℕ → Parsed (Option (List ℕ × Option (List ℕ)))
strsplit zero rest sep = stuck
strsplit (suc fuel) none sep = parsed none
strsplit (suc fuel) (some s) sep =
    let again = strsplit fuel in
    or_fault (get_elem? s 0) >>= λ first.
    if first == 0
    then parsed none
    else (strchrnul sep s >>= λ r. or_fault (get_elem? r.1 0) >>= λ stop.
        let next = if stop == sep then some (drop 1 r.1) else none in
        if length r.0 == 0 then again next sep else parsed (some (r.0, next)))

abbrev pub after : Option (List ℕ) → List ℕ
after none = []
after (some s) = s

abbrev pub check : Bool → Complaint → Parsed (Unit {0})
check true c = parsed tt
check false c = fails c

-- What chiReadUInt64 reads, and the memory after it; a refusal is an invalid argument.
abbrev pub or_invalid : Read → Parsed (ℕ × List ℕ)
or_invalid Num.fault = fault
or_invalid Num.refused = fails invalid_argument
or_invalid (got n rest) = parsed (n, rest)

unfoldable pub parse_int : List ℕ → ℕ → ℕ → Parsed ℕ
parse_int val least most = or_invalid (read_uint 64 val) >>= λ r.
    or_fault (get_elem? r.1 0) >>= λ stop. check (stop == 0) invalid_argument >>= λ _.
    check (not (ltb r.0 least || ltb most r.0)) out_of_range >>= λ _. parsed r.0

-- The second character after the number is read first, also where the string ends before it.
unfoldable pub parse_suffix : List ℕ → Parsed ℕ
parse_suffix rest = or_fault (get_elem? rest 1) >>= λ second.
    or_fault (get_elem? rest 0) >>= λ first.
    if (second == 0) && ((first == 107) || (first == 75))
    then parsed 1024
    else if (second == 0) && ((first == 109) || (first == 77))
    then parsed 1048576
    else if (second == 0) && ((first == 103) || (first == 71))
    then parsed 1073741824
    else if first == 0
    then parsed 1
    else fails invalid_suffix

unfoldable pub parse_size : List ℕ → ℕ → ℕ → Parsed ℕ
parse_size val least most = or_invalid (read_uint 64 val) >>= λ r. parse_suffix r.1 >>= λ factor.
    let size = r.0 * factor in
    check (not (leb (2 ^ 64) size || (ltb size least || ltb most size))) out_of_range >>= λ _.
    parsed size

-- The index of the choice; the fuel is for the tokens, of which each takes a character.
unfoldable pub choice_from : ℕ → Option (List ℕ) → List ℕ → ℕ → Parsed ℕ
choice_from zero rest val i = stuck
choice_from (suc fuel) rest val i =
    let again = choice_from fuel in
    strsplit (suc (suc fuel)) rest 44 >>= λ split. elim split [
      | none ↦ fails invalid_choice
      | some (token, next) ↦
          if equals (strskip token 32) val then parsed i else again next val (suc i)
    ]

unfoldable pub parse_choice : List ℕ → List ℕ → Parsed ℕ
parse_choice val choices =
    string_of val >>= λ v. choice_from (suc (length choices)) (some choices) v 0

pub data OptionType : Type 0 where
  flag : OptionType
  uint32 uint64 size : ℕ → ℕ → OptionType
  string : ℕ → OptionType
  choice : List ℕ → OptionType

-- An option; `field` is its place among the settings, and `cb` says that it has a callback.
pub record OptionSpec : Type 0 where
  pub name : List ℕ
  pub type : OptionType
  pub cb : Bool
  pub field : ℕ

pub data Setting : Type 0 where
  switch : Bool → Setting
  number : ℕ → Setting
  text : List ℕ → Setting

abbrev pub Settings : Type 0
Settings = ℕ → Setting

abbrev pub update : Settings → ℕ → Setting → Settings
update σ f v i = if i == f then v else σ i

pub data OptionResult : Type 0 where
  ok exit help : OptionResult
  error : Complaint → OptionResult

-- The value that an argument gives to an option; without `=` there is none.
unfoldable pub parse_value : OptionType → Option (List ℕ) → Bool → Parsed Setting
parse_value flag none cb = parsed (switch true)
parse_value flag (some val) cb = string_of val >>= λ v.
    if equals v (116 ∷ [])
    then parsed (switch true)
    else if equals v (102 ∷ [])
    then parsed (switch false)
    else fails invalid_argument
parse_value (uint32 least most) (some val) cb =
    parse_int val least most >>= λ n. parsed (number (n % 2 ^ 32))
parse_value (uint64 least most) (some val) cb = parse_int val least most >>= λ n. parsed (number n)
parse_value (size least most) (some val) cb = parse_size val least most >>= λ n. parsed (number n)
parse_value (string room) (some val) cb =
    string_of val >>= λ v. check (cb || leb (length v + 1) room) too_long >>= λ _. parsed (text v)
parse_value (choice choices) (some val) cb = parse_choice val choices >>= λ i. parsed (number i)
parse_value t none cb = fails needs_value

-- The first option of a name.
unfoldable pub find_option : List ℕ → List OptionSpec → Option OptionSpec
find_option name [] = none
find_option name (o ∷ opts) =
    let rest = find_option name opts in if equals name o.name then some o else rest

-- The value after `=`, which must not be empty.
unfoldable pub value_of : List ℕ → Parsed (Option (List ℕ))
value_of rest = or_fault (get_elem? rest 0) >>= λ stop.
    if stop == 61
    then (or_fault (get_elem? rest 1) >>= λ first.
        check (not (first == 0)) empty_argument >>= λ _. parsed (some (drop 1 rest)))
    else parsed none

abbrev pub is_help : List ℕ → Option (List ℕ) → Bool
is_help name none = equals name (104 ∷ 101 ∷ 108 ∷ 112 ∷ [])
is_help name (some val) = false

-- `argv[i][0] == '-' && argv[i][1] == 'R'`, the second read only after the first.
unfoldable pub is_option : List ℕ → Parsed Bool
is_option arg = or_fault (get_elem? arg 0) >>= λ first.
    if first == 45
    then (or_fault (get_elem? arg 1) >>= λ second. parsed (second == 82))
    else parsed false

-- What follows a result that is ok; any other result is returned.
abbrev pub go_on {ℓ} : {A : Type ℓ} → OptionResult → A → A → A
go_on ok more stop = more
go_on exit more stop = stop
go_on help more stop = stop
go_on (error c) more stop = stop

-- An option that is refused has not changed the settings.
abbrev pub settle : Settings → Parsed (OptionResult × Settings) → Parsed (OptionResult × Settings)
settle σ fault = fault
settle σ stuck = stuck
settle σ (fails c) = parsed (error c, σ)
settle σ (parsed r) = parsed r

-- The options of all groups, in their order; `call` are the callbacks.
module _ (opts : List OptionSpec)
    (call : OptionSpec → Setting → Settings → OptionResult × Settings) where
  unfoldable pub apply_option :
      OptionSpec → Option (List ℕ) → Settings → Parsed (OptionResult × Settings)
  apply_option o val σ = parse_value o.type val o.cb >>= λ v.
      if o.cb then parsed (call o v σ) else parsed (ok, update σ o.field v)

  unfoldable pub parse_named :
      List ℕ → Option (List ℕ) → Settings → Parsed (OptionResult × Settings)
  parse_named name val σ =
      or_complain (find_option name opts) invalid_option >>= λ o. apply_option o val σ

  unfoldable pub parse_option : List ℕ → Settings → Parsed (OptionResult × Settings)
  parse_option arg σ = settle σ (
      strchrnul 61 arg >>= λ r.
      value_of r.1 >>= λ val. if is_help r.0 val then parsed (help, σ) else parse_named r.0 val σ)

  -- chiOptionArgs; the arguments that are kept are written in place, in their order. At a result
  -- other than ok the settings are as far as they are set; `argc` is not set then, and the list
  -- has the arguments kept so far and those not read.
  unfoldable pub option_args :
      List (List ℕ) → Settings → Parsed (OptionResult × Settings × List (List ℕ))
  option_args [] σ = parsed (ok, σ, [])
  option_args (arg ∷ args) σ =
      let again = option_args args in
      is_option arg >>= λ mine.
      if mine
      then (parse_option (drop 2 arg) σ >>= λ r. go_on r.0 (again r.1) (parsed (r.0, r.1, args)))
      else (again σ >>= λ r. parsed (r.0, r.1, arg ∷ r.2))

  -- chiOptionEnv, for the value of the variable; a token ends in a zero, which replaces the space.
  unfoldable pub option_env : ℕ → Option (List ℕ) → Settings → Parsed (OptionResult × Settings)
  option_env zero rest σ = stuck
  option_env (suc fuel) rest σ =
      let again = option_env fuel in
      strsplit (suc (suc fuel)) rest 32 >>= λ split. elim split [
        | none ↦ parsed (ok, σ)
        | some (token, next) ↦ is_option (token ++ 0 ∷ []) >>= λ mine.
            if mine
            then (parse_option (drop 2 token ++ 0 ∷ after next) σ >>= λ r.
                go_on r.0 (again next r.1) (parsed r))
            else parsed (error invalid_argument, σ)
      ]
