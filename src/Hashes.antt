-- ===== src/Hashes.antt =====
-- The hash tables that every instantiation of native/generic/hashtable.h makes: linear probing in
-- an array of entries whose capacity is a power of two, and deletion by shifting entries back.
mod Cyclic
pub mod Valid
mod Probe
pub mod Find
mod Insert
mod Next
mod Grow
pub mod Create
mod Hole
mod Close
mod Shift
mod Delete
mod Tests
use Prim.Native.Nat.{bit_and}
use crts.Prelude.{
  ℕ, zero, suc, ◌+◌, ◌-◌, ◌*◌, ◌/◌, ◌%◌, ◌^◌, ◌<◌, ◌≡◌, ◌↔◌, Bool, true, false, not, Option, none,
  some, List, [], ◌∷◌, set, get_or, replicate, leb, ◌==◌, if◌then◌else◌, ◌>>=◌,
}

-- HT_ENTRY, HT_KEY, HT_EXISTS, HT_KEYEQ and HT_HASHFN of an instantiation. An entry that is all
-- zero does not exist. A ChiHash is a size_t.
pub record EntryType : Type 1 where
  pub Entry : Type 0
  pub Key : Type 0
  pub zeroed : Entry
  pub exists : Entry → Bool
  pub key : Entry → Key
  pub key_eq : Key → Key → Bool
  pub hash : Key → ℕ
  pub zeroed_lem : exists zeroed ≡ false
  pub key_eq_iff : (a b : Key) → (key_eq a b ≡ true) ↔ (a ≡ b)
  pub hash_word : (k : Key) → hash k < 2 ^ 64

-- The values of a size_t.
abbrev pub size_mod : ℕ
size_mod = 2 ^ 64

-- CHI_HT_MAXFILL and CHI_HT_INITSHIFT.
abbrev pub max_fill : ℕ
max_fill = 80

abbrev pub init_shift : ℕ
init_shift = 8

abbrev pub found {ℓ κ} : {A : Type ℓ} {B : Type κ} → Option A → B → (A → B) → B
found none b f = b
found (some a) b f = f a

abbrev pub null {ℓ} : {A : Type ℓ} → List A → Bool
null [] = true
null (x ∷ xs) = false

-- `none` is a loop that has run out of its fuel. A pointer to an entry is its index.
module _ (t : EntryType) where
  open t use {Entry, Key, zeroed, exists, key, key_eq, hash}

  -- The array is [] exactly while the source's pointer is null.
  pub record HtHash : Type 0 where
    pub entry : List Entry
    pub used : ℕ
    pub capacity : ℕ

  abbrev pub cell : HtHash → ℕ → Entry
  cell h e = get_or h.entry e zeroed

  -- CHI_HT_INIT
  unfoldable pub empty : HtHash
  empty = record { entry = []; used = 0; capacity = 0 }

  -- HT_FULL
  unfoldable pub is_full : HtHash → Bool
  is_full h = leb (max_fill * h.capacity % size_mod / 100) h.used

  -- HT_FREE
  unfoldable pub free : HtHash → HtHash
  free h = empty

  -- The index of the n-th entry that is probed from a hash index.
  unfoldable pub place : HtHash → ℕ → ℕ → ℕ
  place h i n = bit_and ((i + n) % size_mod) (h.capacity - 1)

  -- The first entry at or after an index that exists; the fuel is the number of entries left.
  unfoldable pub next_from : ℕ → HtHash → ℕ → Option ℕ
  next_from zero h e = none
  next_from (suc left) h e =
      let again = next_from left h (e + 1) in if exists (cell h e) then some e else again

  unfoldable pub next : HtHash → ℕ → Option ℕ
  next h e = next_from (h.capacity - e) h e

  unfoldable pub insert_pos_from : ℕ → HtHash → ℕ → ℕ → Option ℕ
  insert_pos_from zero h i n = none
  insert_pos_from (suc fuel) h i n =
      let again = insert_pos_from fuel h i (n + 1) in
      let e = place h i n in if not (exists (cell h e)) then some e else again

  -- HT_INSERTPOS
  unfoldable pub insert_pos : HtHash → ℕ → Option ℕ
  insert_pos h i = insert_pos_from h.capacity h i 0

  abbrev pub store : HtHash → ℕ → Entry → HtHash
  store h e x = record h { entry = set h.entry e x }

  -- CHI_HT_FOREACH in HT_GROW, from an index on.
  unfoldable pub rehash : ℕ → HtHash → HtHash → ℕ → Option HtHash
  rehash zero h l from = none
  rehash (suc fuel) h l from = found (next h from) (some l) (λ e.
      insert_pos l (hash (key (cell h e))) >>= λ r. rehash fuel h (store l r (cell h e)) (e + 1))

  unfoldable pub fresh : HtHash → HtHash
  fresh h =
      let size = if h.capacity == 0 then 2 ^ init_shift else 2 * h.capacity % size_mod in
      record { entry = replicate size zeroed; used = h.used; capacity = size }

  -- HT_GROW
  unfoldable pub grow : HtHash → Option HtHash
  unfolding fresh
  grow h = rehash (h.capacity + 1) h (fresh h) 0

  abbrev pub used_more : HtHash → HtHash
  used_more h = record h { used = (h.used + 1) % size_mod }

  -- HT_INSERT
  unfoldable pub insert : HtHash → ℕ → Option (HtHash × ℕ)
  insert h i = (if is_full h then grow h else some h) >>= λ g.
      insert_pos (used_more g) i >>= λ e. some (used_more g, e)

  unfoldable pub find_pos_from : ℕ → HtHash → Key → ℕ → ℕ → Option (Bool × ℕ)
  find_pos_from zero h k i n = none
  find_pos_from (suc fuel) h k i n =
      let again = find_pos_from fuel h k i (n + 1) in
      let e = place h i n in
      let x = cell h e in
      if not (exists x) then some (false, e) else if key_eq (key x) k then some (true, e) else again

  -- HT_FINDPOS
  unfoldable pub find_pos : HtHash → Key → ℕ → Option (Bool × ℕ)
  find_pos h k i = find_pos_from h.capacity h k i 0

  -- HT_FIND
  unfoldable pub find : HtHash → Key → Option (Option ℕ)
  find h k =
      if null h.entry
      then some none
      else find_pos h k (hash k) >>= λ r. some (if r.0 then some r.1 else none)

  -- How far an entry at an index is behind its hash index.
  unfoldable pub behind : HtHash → ℕ → ℕ → ℕ
  behind h f i = bit_and ((f + size_mod - i) % size_mod) (h.capacity - 1)

  -- The loop of HT_DELETE: the entry `e` is the one to overwrite, and `f` goes ahead of it.
  unfoldable pub shift_back : ℕ → HtHash → ℕ → ℕ → ℕ → Option (HtHash × ℕ)
  shift_back zero h e f shift = none
  shift_back (suc fuel) h e f shift =
      let g = bit_and ((f + 1) % size_mod) (h.capacity - 1) in
      let x = cell h g in
      let moved = shift_back fuel (store h e x) g g 1 in
      let kept = shift_back fuel h e g (shift + 1) in
      if not (exists x)
      then some (h, e)
      else if leb shift (behind h g (hash (key x)))
      then moved
      else kept

  unfoldable pub zero_entry : HtHash × ℕ → HtHash
  zero_entry (h, e) = record h {
    used = (h.used + size_mod - 1) % size_mod;
    entry = set h.entry e zeroed;
  }

  unfoldable pub delete_at : HtHash → Bool × ℕ → Option (HtHash × Bool)
  delete_at h (false, e) = some (h, false)
  delete_at h (true, e) = shift_back h.capacity h e e 1 >>= λ s. some (zero_entry s, true)

  -- HT_DELETE
  unfoldable pub delete : HtHash → Key → Option (HtHash × Bool)
  unfolding delete_at
  delete h k = if null h.entry then some (h, false) else find_pos h k (hash k) >>= delete_at h

  -- HT_CREATE: the table, the entry for the caller to fill, and whether it is new.
  unfoldable pub create : HtHash → Key → Option (HtHash × ℕ × Bool)
  create h k =
      let inserted = insert h (hash k) >>= λ r. some (r.0, r.1, true) in
      if null h.entry
      then inserted
      else find_pos h k (hash k) >>= λ r.
          if r.0
          then some (h, r.1, false)
          else if not (is_full h)
          then some (used_more h, r.1, true)
          else inserted
