-- ===== src/Unicode/Valid.antt =====
-- The check of UTF-8 accepts what the encoder writes.
use crts.Prelude.{
  ℕ, ◌+◌, ◌/◌, ◌%◌, ◌^◌, ◌≡◌, inl, inr, refl, Bool, true, false, ◌||◌, List, [], ◌∷◌, ◌++◌, arith,
  leb, le→leb, ltb, ◌==◌, ==_iff, every_below, every_below_at, Bool-cases, ◌&&◌,
}
use crts.Unicode.{utf8_step, utf8_run, utf8_valid, utf8_encode}
use crts.Unicode.Bytes.{low_6, low_6-value, lead}
use crts.Unicode.Text.{IsScalar, IsText, bytes_8}

-- One byte of a character, or two of its bytes; states 24 and 36 wait for one and for two more.
ascii_test : ℕ → Bool
ascii_test k = utf8_step 0 k == 0

last_test : ℕ → Bool
last_test k = utf8_step 24 (128 + k) == 0

next_test : ℕ → Bool
next_test k = utf8_step 36 (128 + k) == 24

two_test : ℕ → Bool
two_test k = ltb k 2 || (utf8_step 0 (192 + k) == 24)

three_test : ℕ → Bool
three_test k =
    ltb k 32
    || (leb 864 k && ltb k 896)
    || (utf8_step (utf8_step 0 (224 + k / 64)) (128 + k % 64) == 24)

four_test : ℕ → Bool
four_test k = ltb k 16 || (utf8_step (utf8_step 0 (240 + k / 64)) (128 + k % 64) == 36)

ascii : every_below 128 ascii_test ≡ true
unfolding ascii_test utf8_step
ascii = refl

last : every_below 64 last_test ≡ true
unfolding last_test utf8_step
last = refl

next : every_below 64 next_test ≡ true
unfolding next_test utf8_step
next = refl

two : every_below 32 two_test ≡ true
unfolding two_test utf8_step
two = refl

three : every_below 1024 three_test ≡ true
unfolding three_test utf8_step
three = refl

four : every_below 272 four_test ≡ true
unfolding four_test utf8_step
four = refl

run-append :
    (state : ℕ) (xs ys : List ℕ) → utf8_run state (xs ++ ys) ≡ utf8_run (utf8_run state xs) ys
unfolding utf8_run
run-append state [] ys = refl
run-append state (x ∷ xs) ys = run-append (utf8_step state x) xs ys

step_last : (c : ℕ) → utf8_step 24 (low_6 c) ≡ 0
unfolding last_test
step_last c =
    rw (low_6-value c) ((==_iff _ _).0 (every_below_at 64 last_test last (c % 64) (omega arith)))

step_next : (c : ℕ) → utf8_step 36 (low_6 c) ≡ 24
unfolding next_test
step_next c =
    rw (low_6-value c) ((==_iff _ _).0 (every_below_at 64 next_test next (c % 64) (omega arith)))

-- A character leads the automaton back to its start.
run-encode : (c : ℕ) → IsScalar c → utf8_run 0 (utf8_encode c) ≡ 0
unfolding utf8_encode utf8_run ascii_test two_test three_test four_test
run-encode c h = elim (Bool-cases (leb c 127)) [
  | inl e1 ↦
      let same : c % 2 ^ 8 ≡ c = ground arith in
      rw (e1, same) ((==_iff _ _).0 (every_below_at 128 ascii_test ascii c (ground arith)))
  | inr e1 ↦ elim (Bool-cases (leb c 2047)) [
    | inl e2 ↦
        let k = c / 2 ^ 6 in
        let all_ok : two_test k ≡ true = every_below_at 32 two_test two k (ground arith) in
        let small : ltb k 2 ≡ false = ground arith in
        let first : utf8_step 0 (192 + k) ≡ 24 = (==_iff _ _).0 (grind arith) in
        rw (e1, e2, lead 6 5 k (omega arith) (ground arith), first) (step_last c)
    | inr e2 ↦ elim (Bool-cases (leb c 65535)) [
      | inl e3 ↦
          let k = c / 2 ^ 6 in
          let all_ok : three_test k ≡ true =
            every_below_at 1024 three_test three k (ground arith) in
          let small : ltb k 32 ≡ false = ground arith in
          let pair : (leb 864 k && ltb k 896) ≡ false = ground arith in
          let q : k / 64 ≡ c / 2 ^ 12 = omega arith in
          let first : utf8_step (utf8_step 0 (224 + k / 64)) (128 + k % 64) ≡ 24 =
            (==_iff _ _).0 (grind arith) in
          let first' : utf8_step (utf8_step 0 (224 + c / 2 ^ 12)) (128 + k % 64) ≡ 24 =
            rw (← q) first in
          rw
            (e1, e2, e3, lead 14 4 (c / 2 ^ 12) (omega arith) (ground arith), low_6-value k, first')
            (step_last c)
      | inr e3 ↦
          let k = c / 2 ^ 12 in
          let all_ok : four_test k ≡ true = every_below_at 272 four_test four k (omega arith) in
          let small : ltb k 16 ≡ false = ground arith in
          let q : k / 64 ≡ c / 2 ^ 18 = omega arith in
          let first : utf8_step (utf8_step 0 (240 + k / 64)) (128 + k % 64) ≡ 36 =
            (==_iff _ _).0 (grind arith) in
          let first' : utf8_step (utf8_step 0 (240 + c / 2 ^ 18)) (128 + k % 64) ≡ 36 =
            rw (← q) first in
          rw
            (
              e1,
              e2,
              e3,
              le→leb c 2097151 (omega arith),
              lead 30 3 (c / 2 ^ 18) (omega arith) (omega arith),
              low_6-value k,
              first',
              step_next (c / 2 ^ 6),
            )
            (step_last c)
    ]
  ]
]

run-text : (cs : List ℕ) → IsText cs → utf8_run 0 (bytes_8 cs) ≡ 0
unfolding utf8_run
run-text [] h = refl
run-text (c ∷ cs) h =
    rw (run-append 0 (utf8_encode c) (bytes_8 cs), run-encode c h.0) (run-text cs h.1)

-- chiUtf8Valid accepts the UTF-8 of every text of Unicode characters of which none is zero.
pub utf8_valid-text : (cs : List ℕ) → IsText cs → utf8_valid (bytes_8 cs) ≡ true
unfolding utf8_valid
utf8_valid-text cs h = rw (run-text cs h) refl
