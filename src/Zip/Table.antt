-- ===== src/Zip/Table.antt =====
-- One record of the directory, added to the table of files.
use crts.Prelude.{
  ℕ, ◌+◌, ◌*◌, ◌^◌, ◌≤◌, ◌<◌, ◌≡◌, ◌↔◌, refl, ◌⊎◌, inl, inr, Bool, true, false, some, List, arith,
}
use crts.Hashes.{HtHash, create, store, is_full}
use crts.Hashes.Valid.{Has}
use crts.Hashes.Create.{Ready, Widens, Created, create-Created}
use crts.Zip.{error_duplicate, ZipFile, Outcome, fails, done, files, add_file, named, is_named}

module _ (hash_c_string : List ℕ → ℕ) (word : (k : List ℕ) → hash_c_string k < 2 ^ 64) where
  abbrev pub Table : Type 0
  Table = HtHash (files hash_c_string word)

  -- A table that its files fill well.
  pub record IsTidy (z : Table) : Type 0 where
    pub ready : Ready (files hash_c_string word) z
    pub filled : z.capacity ≤ 4 * z.used + 256

  -- Adding a file fails if its name is there, and adds it otherwise.
  pub data Added (z : Table) (f : ZipFile) (rest : List ℕ) : Outcome (Table × List ℕ) → Type 0 where
    duplicate :
        (y : ZipFile)
        → Has (files hash_c_string word) z y
        → named y.name ≡ named f.name
        → Added z f rest (fails error_duplicate)
    added :
        (g : Table)
        → IsTidy g
        → g.used ≡ z.used + 1
        → ((y : ZipFile)
            → Has (files hash_c_string word) g y ↔ (Has (files hash_c_string word) z y ⊎ (f ≡ y)))
        → Added z f rest (done (g, rest))

  tidy_grows :
      (z g : Table)
      → IsTidy z
      → z.used < 2 ^ 32
      → Widens (files hash_c_string word) z g
      → g.used ≡ z.used + 1
      → g.capacity ≤ 4 * g.used + 256
  unfolding is_full
  tidy_grows z g t low (inl same) more = omega (arith, t.filled)
  tidy_grows z g t low (inr (full, wide)) more = ground (arith, t.filled)

  pub add_file-Added :
      (z : Table) (f : ZipFile) (rest : List ℕ)
      → IsTidy z
      → z.used < 2 ^ 32
      → is_named f.name ≡ true
      → Added z f rest
          (add_file hash_c_string word f rest (create (files hash_c_string word) z (named f.name)))
  unfolding add_file
  add_file-Added z f rest t low own =
      let (o, ends, c) =
        create-Created (files hash_c_string word) z f own t.ready (omega (arith, t.filled)) in
      rw ends (go o c)
    where
      go :
          (o : Table × ℕ × Bool)
          → Created (files hash_c_string word) z f o
          → Added z f rest (add_file hash_c_string word f rest (some o))
      go (_, e, false) (Created.present _ full same) = duplicate _ (e, full, refl) same
      go (g, e, true) (Created.made _ _ absent valid more widens held) =
          added (store (files hash_c_string word) g e f)
            (record { ready = inr valid; filled = tidy_grows z g t low widens more }) more held
