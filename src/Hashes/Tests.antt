-- ===== src/Hashes/Tests.antt =====
-- Runs of a small hash table, and instances of the theorems about hash tables.
use crts.Prelude.{
  ℕ, zero, suc, ◌+◌, ◌%◌, ◌<◌, ◌≡◌, refl, sym, ap, ◌∙◌, if◌then◌else◌, Bool, true, not, Option,
  some, [], ◌∷◌, arith, ◌==◌, ==_iff, inr,
}
use crts.Hashes.{
  EntryType, HtHash, create, delete, find, grow, cell, find_pos, find_pos_from, place, shift_back,
  behind, zero_entry, rehash, next, next_from, insert_pos, insert_pos_from,
}
use crts.Hashes.Cyclic.{power-IsSize}
use crts.Hashes.Valid.{occupied, Near, IsValid}
use crts.Hashes.Find.{Search, find_lem}
use crts.Hashes.Create.{Created, create-Created}
use crts.Hashes.Grow.{Grown, grow-Grown}
use crts.Hashes.Delete.{Deleted, delete-Deleted}

-- Keys alone, of which four have one hash each.
abbrev numbers : EntryType
numbers = record {
  Entry = ℕ;
  Key = ℕ;
  zeroed = 0;
  exists = λ e. not (e == 0);
  key = λ e. e;
  key_eq = λ a b. a == b;
  hash = λ k. k % 4;
  zeroed_lem = refl;
  key_eq_iff = ==_iff;
  hash_word = λ k. omega arith;
}

abbrev three : HtHash numbers
three = record { entry = 4 ∷ 8 ∷ 1 ∷ 0 ∷ []; used = 3; capacity = 4 }

-- The entries behind the deleted one move back.
delete_moves :
    delete numbers three 4
    ≡ some (record { entry = 8 ∷ 1 ∷ 0 ∷ 0 ∷ []; used = 2; capacity = 4 }, true)
unfolding delete find_pos find_pos_from place shift_back behind zero_entry
delete_moves = refl

find_behind : find numbers three 1 ≡ some (some 2)
unfolding find find_pos find_pos_from place
find_behind = refl

grow_moves :
    grow numbers three
    ≡ some (record { entry = 4 ∷ 8 ∷ 1 ∷ 0 ∷ 0 ∷ 0 ∷ 0 ∷ 0 ∷ []; used = 3; capacity = 8 })
unfolding grow rehash next next_from insert_pos insert_pos_from place
grow_moves = refl

three-Near : (s : ℕ) → occupied numbers three s ≡ true → Near numbers three s
three-Near zero h = (0, omega arith, refl, λ m low. absurd (omega arith))
three-Near (suc zero) h = (1, omega arith, refl, one_before)
  where
    one_before : (m : ℕ) → m < 1 → occupied numbers three ((8 % 4 + m) % 4) ≡ true
    one_before zero low = refl
    one_before (suc m) low = absurd (omega arith)
three-Near (suc (suc zero)) h = (1, omega arith, refl, one_before)
  where
    one_before : (m : ℕ) → m < 1 → occupied numbers three ((1 % 4 + m) % 4) ≡ true
    one_before zero low = refl
    one_before (suc m) low = absurd (omega arith)
three-Near (suc (suc (suc zero))) h = cc
three-Near (suc (suc (suc (suc s)))) h = cc

-- The index of a key.
abbrev index : ℕ → ℕ
index k = if k == 4 then 0 else if k == 8 then 1 else 2

three-index : (s : ℕ) → occupied numbers three s ≡ true → index (cell numbers three s) ≡ s
three-index zero h = refl
three-index (suc zero) h = refl
three-index (suc (suc zero)) h = refl
three-index (suc (suc (suc zero))) h = cc
three-index (suc (suc (suc (suc s)))) h = cc

three-IsValid : IsValid numbers three
three-IsValid = record {
  placed = record {
    size = refl;
    sized = power-IsSize 2 (omega arith);
    near = three-Near;
    distinct = λ s u k. sym (three-index s k.0) ∙ ap index k.2 ∙ three-index u k.1;
  };
  counted = refl;
  room = omega arith;
}

find_lem_example : (r : Option ℕ) × (find numbers three 1 ≡ some r) × Search numbers three 1 r
find_lem_example = find_lem numbers three 1 three-IsValid

create-Created_example :
    (o : HtHash numbers × ℕ × Bool) × (create numbers three 5 ≡ some o) × Created numbers three 5 o
create-Created_example = create-Created numbers three 5 refl (inr three-IsValid) (omega arith)

grow-Grown_example : (g : HtHash numbers) × (grow numbers three ≡ some g) × Grown numbers three g
grow-Grown_example = grow-Grown numbers three three-IsValid (omega arith)

delete-Deleted_example :
    (o : HtHash numbers × Bool) × (delete numbers three 4 ≡ some o) × Deleted numbers three 4 o
delete-Deleted_example = delete-Deleted numbers three 4 (inr three-IsValid)
