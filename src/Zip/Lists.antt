-- ===== src/Zip/Lists.antt =====
-- The loop over the records of a directory lists their files.
use crts.Prelude.{
  ℕ, suc, ◌+◌, ◌^◌, ◌<◌, ◌≡◌, ◌↔◌, refl, sym, ap, ◌∙◌, ◌⊎◌, inl, inr, true, false, List, [], ◌∷◌,
  length, arith, Bool-cases,
}
use crts.Hashes.{create}
use crts.Hashes.Valid.{Has}
use crts.Zip.{ZipFile, Outcome, done, files, add_file, parse_records, c_string, named}
use crts.Zip.Format.{Item, IsItem, AllItems, is_dir, stored, directory, Among, Distinct, listing}
use crts.Zip.Written.{parse_file_record-item}
use crts.Zip.Table.{Table, IsTidy, Added, add_file-Added}

module _ (hash_c_string : List ℕ → ℕ) (word : (k : List ℕ) → hash_c_string k < 2 ^ 64) where
  -- A file with a new name is added.
  new_file :
      (z : Table hash_c_string word) (f : ZipFile) (rest : List ℕ)
      (o : Outcome (Table hash_c_string word × List ℕ))
      → ¬ ((y : ZipFile) × Has (files hash_c_string word) z y × (named y.name ≡ named f.name))
      → Added hash_c_string word z f rest o
      → (g : Table hash_c_string word) × (o ≡ done (g, rest))
        × IsTidy hash_c_string word g
        × (g.used ≡ z.used + 1)
        × ((y : ZipFile)
            → Has (files hash_c_string word) g y ↔ (Has (files hash_c_string word) z y ⊎ (f ≡ y)))
  new_file z f rest _ fresh (Added.duplicate y hy same) = absurd (fresh (y, hy, same))
  new_file z f rest _ fresh (Added.added g tidy more held) = (g, refl, tidy, more, held)

  -- No file of the table has the name of one in the list.
  abbrev pub Apart : Table hash_c_string word → List ZipFile → Type 0
  Apart z fs = ¬ (
      (y : ZipFile) × (f : ZipFile) × Has (files hash_c_string word) z y
      × Among f fs
      × (named y.name ≡ named f.name))

  -- What reading the records comes to.
  pub record Lists (z g : Table hash_c_string word) (fs : List ZipFile) : Type 0 where
    pub tidy : IsTidy hash_c_string word g
    pub held :
        (y : ZipFile)
        → Has (files hash_c_string word) g y ↔ (Has (files hash_c_string word) z y ⊎ Among y fs)

  refl_done : (z : Table hash_c_string word) → parse_records hash_c_string word 0 z [] ≡ done z
  unfolding parse_records
  refl_done z = refl

  next_apart :
      (z g : Table hash_c_string word) (f : ZipFile) (fs : List ZipFile)
      → Apart z (f ∷ fs)
      → ¬ ((y : ZipFile) × Among y fs × (named y.name ≡ named f.name))
      → ((y : ZipFile)
          → Has (files hash_c_string word) g y ↔ (Has (files hash_c_string word) z y ⊎ (f ≡ y)))
      → Apart g fs
  next_apart z g f fs apart single held (y, x, hy, hx, same) = go ((held y).0 hy)
    where
      go : Has (files hash_c_string word) z y ⊎ (f ≡ y) → ⊥
      go (inl old) = apart (y, x, old, inr hx, same)
      go (inr new) = single (x, hx, sym same ∙ ap (λ k. named k.name) (sym new))

  no_more : (z : Table hash_c_string word) → IsTidy hash_c_string word z → Lists z z []
  no_more z t = record { tidy = t; held = λ y. (inl, λ e. left e) }
    where
      left : {X : Type 0} → X ⊎ ⊥ → X
      left (inl x) = x
      left (inr e) = absurd e

  more :
      (z g h : Table hash_c_string word) (f : ZipFile) (fs : List ZipFile)
      → ((y : ZipFile)
          → Has (files hash_c_string word) g y ↔ (Has (files hash_c_string word) z y ⊎ (f ≡ y)))
      → Lists g h fs
      → Lists z h (f ∷ fs)
  more z g h f fs held l = record {
    tidy = l.tidy;
    held = λ y. (λ hy. to y ((l.held y).0 hy), λ e. (l.held y).1 (from y e));
  }
    where
      step :
          (y : ZipFile)
          → Has (files hash_c_string word) z y ⊎ (f ≡ y)
          → Has (files hash_c_string word) z y ⊎ ((f ≡ y) ⊎ Among y fs)
      step y (inl old) = inl old
      step y (inr new) = inr (inl new)

      to :
          (y : ZipFile)
          → Has (files hash_c_string word) g y ⊎ Among y fs
          → Has (files hash_c_string word) z y ⊎ ((f ≡ y) ⊎ Among y fs)
      to y (inl now) = step y ((held y).0 now)
      to y (inr later) = inr (inr later)

      from :
          (y : ZipFile)
          → Has (files hash_c_string word) z y ⊎ ((f ≡ y) ⊎ Among y fs)
          → Has (files hash_c_string word) g y ⊎ Among y fs
      from y (inl old) = inl ((held y).1 (inl old))
      from y (inr (inl new)) = inl ((held y).1 (inr new))
      from y (inr (inr later)) = inr later

  -- The first record is a directory, which is not listed.
  skip :
      (z : Table hash_c_string word) (it : Item) (its : List Item)
      → IsItem it
      → is_dir it ≡ true
      → parse_records hash_c_string word (suc (length its)) z (directory (it ∷ its))
        ≡ parse_records hash_c_string word (length its) z (directory its)
  unfolding parse_records
  skip z it its i dir =
      rw (parse_file_record-item hash_c_string word z it (directory its) i, dir) refl

  -- The first record is a file that is added.
  add :
      (z g : Table hash_c_string word) (it : Item) (its : List Item)
      → IsItem it
      → is_dir it ≡ false
      → add_file hash_c_string word
          (stored it)
          (directory its)
          (create (files hash_c_string word) z (c_string it.name))
        ≡ done (g, directory its)
      → parse_records hash_c_string word (suc (length its)) z (directory (it ∷ its))
        ≡ parse_records hash_c_string word (length its) g (directory its)
  unfolding parse_records
  add z g it its i file ends =
      rw (parse_file_record-item hash_c_string word z it (directory its) i, file, ends) refl

  pub parse_records-Lists :
      (items : List Item) (z : Table hash_c_string word)
      → AllItems items
      → IsTidy hash_c_string word z
      → z.used + length items < 2 ^ 32
      → Distinct (listing items)
      → Apart z (listing items)
      → (g : Table hash_c_string word) × (parse_records hash_c_string word
            (length items)
            z
            (directory items)
          ≡ done g)
        × Lists z g (listing items)
  parse_records-Lists [] z all t low d apart = (z, refl_done z, no_more z t)
  parse_records-Lists (it ∷ its) z all t low d apart = elim (Bool-cases (is_dir it)) [
    | inl dir ↦
        let d' : Distinct (listing its) = rw dir at d in
        let apart' : Apart z (listing its) = rw dir at apart in
        let (g, ends, l) = parse_records-Lists its z all.1 t (omega arith) d' apart' in
        rw dir (g, skip z it its all.0 dir ∙ ends, l)
    | inr file ↦
        let f = stored it in
        let d' : Distinct (f ∷ listing its) = rw file at d in
        let apart' : Apart z (f ∷ listing its) = rw file at apart in
        let (g, now, tidy, one, held) =
          new_file z f (directory its) _ (λ k. apart' (k.0, f, k.1, inl refl, k.2))
            (add_file-Added hash_c_string word z f (directory its) t (omega arith) refl) in
        let (h, ends, l) =
          parse_records-Lists its g all.1 tidy (omega arith) d'.1
            (next_apart z g f (listing its) apart' d'.0 held) in
        rw file (h, add z g it its all.0 file now ∙ ends, more z g h f _ held l)
  ]
