-- ===== src/Chunk/Unmap/Emergency.antt =====
-- Freeing all chunks of the list when there is no memory.
use crts.Prelude.{
  ℕ, suc, ◌≡◌, refl, sym, ap, ◌∙◌, Bool, false, Option, none, some, List, [], ◌∷◌, ◌++◌, subst,
  ◌>>=◌, Option-cases, inl, inr, pick_false,
}
use crts.Chunk.Valid.{IsArena}
use crts.Chunk.Free.{insert_free-IsArena}
use crts.Chunk.{Config, Chunk, VirtAllocator, free_chunk, new_chunk}
use crts.Chunk.Unmap.{
  UnmapAllocator, reuse, is_chunk, free_popped, free_emergency, or_emergency, or_new, try_new_chunk,
  unmap_new_chunk,
}

>>=-some {ℓ κ} :
    {A : Type ℓ} {B : Type κ} (m : Option A) (f : A → Option B) {b : B}
    → (m >>= f) ≡ some b
    → (a : A) × (m ≡ some a) × (f a ≡ some b)
>>=-some none f h = absurd cc
>>=-some (some a) f h = (a, refl, h)

some_inj {ℓ} : {A : Type ℓ} {a b : A} → some a ≡ some b → a ≡ b
some_inj h = cc

free_popped-none :
    (cfg : Config) (va : VirtAllocator) (hs : List ℕ) (r : VirtAllocator × Option ℕ)
    → free_popped cfg va hs ≡ some r
    → r.1 ≡ none
unfolding free_popped
free_popped-none cfg va [] r e = sym (ap (λ (q : VirtAllocator × Option ℕ). q.1) (some_inj e))
free_popped-none cfg va (h ∷ hs) r e =
    let (va', _, rest) = >>=-some (free_chunk cfg va h) _ e in free_popped-none cfg va' hs r rest

-- uaFreeEmergency says that it freed nothing, whatever it freed.
free_emergency-false :
    (cfg : Config) (ua : UnmapAllocator) (r : UnmapAllocator × Bool)
    → free_emergency cfg ua ≡ some r
    → r.1 ≡ false
unfolding free_emergency
free_emergency-false cfg ua r e =
    let (q, popped, result) = >>=-some (free_popped cfg ua.va ua.list) _ e in
    sym (ap (λ (p : UnmapAllocator × Bool). p.1) (some_inj result))
    ∙ ap is_chunk (free_popped-none cfg ua.va ua.list q popped)

or_emergency-false :
    (cfg : Config) (ua : UnmapAllocator) (chunk : Option ℕ) (t : UnmapAllocator × Option ℕ × Bool)
    → or_emergency cfg ua chunk ≡ some t
    → t.2 ≡ false
or_emergency-false cfg ua (some h) t e =
    sym (ap (λ (p : UnmapAllocator × Option ℕ × Bool). p.2) (some_inj e))
or_emergency-false cfg ua none t e =
    let (r, freed, result) = >>=-some (free_emergency cfg ua) _ e in
    sym (ap (λ (p : UnmapAllocator × Option ℕ × Bool). p.2) (some_inj result))
    ∙ free_emergency-false cfg ua r freed

or_new-false :
    (cfg : Config) (mem : Option ℕ) (commit : ℕ → ℕ → Bool → Bool) (ua : UnmapAllocator)
    (chunk : Option ℕ) (size align : ℕ) (t : UnmapAllocator × Option ℕ × Bool)
    → or_new cfg mem commit ua chunk size align ≡ some t
    → t.2 ≡ false
or_new-false cfg mem commit ua (some h) size align t e =
    sym (ap (λ (p : UnmapAllocator × Option ℕ × Bool). p.2) (some_inj e))
or_new-false cfg mem commit ua none size align t e =
    let (n, _, rest) = >>=-some (new_chunk cfg mem commit ua.va size align) _ e in
    or_emergency-false cfg (record ua { va = n.0 }) n.1 t rest

try-false :
    (cfg : Config) (mem : Option ℕ) (commit : ℕ → ℕ → Bool → Bool) (ua : UnmapAllocator)
    (size align : ℕ) (t : UnmapAllocator × Option ℕ × Bool)
    → try_new_chunk cfg mem commit ua size align ≡ some t
    → t.2 ≡ false
unfolding try_new_chunk
try-false cfg mem commit ua size align t e =
    let (r, _, rest) = >>=-some (reuse ua size align) _ e in
    or_new-false cfg mem commit r.0 r.1 size align t rest

-- uaNewChunk does not try again.
pub one_try :
    (fuel : ℕ) (cfg : Config) (mem : ℕ → Option ℕ) (commit : ℕ → ℕ → Bool → Bool)
    (ua : UnmapAllocator) (size align : ℕ)
    → unmap_new_chunk (suc fuel) cfg mem commit ua size align
      ≡ (try_new_chunk cfg (mem fuel) commit ua size align >>= λ t. some (t.0, t.1))
unfolding unmap_new_chunk
one_try fuel cfg mem commit ua size align =
    elim (Option-cases (try_new_chunk cfg (mem fuel) commit ua size align)) [
      | inl e ↦ rw e refl
      | inr (t, e) ↦ rw e (pick_false _ _ (try-false cfg (mem fuel) commit ua size align t e))
    ]

-- The chunks in use that are left when those with these handles are freed in turn.
abbrev pub Frees : List Chunk → List ℕ → List Chunk → Type 0
Frees live [] left = live ≡ left
Frees live (h ∷ hs) left =
    (ls : List Chunk) × (c : Chunk) × (rs : List Chunk) × (live ≡ ls ++ c ∷ rs)
    × (c.handle ≡ h)
    × Frees (ls ++ rs) hs left

free_popped-IsArena :
    (cfg : Config) (lo hi : ℕ) (va : VirtAllocator) (objs : List ℕ) (live left : List Chunk)
    (hs : List ℕ)
    → IsArena cfg lo hi va objs live
    → Frees live hs left
    → (va' : VirtAllocator) × (objs' : List ℕ) × (free_popped cfg va hs ≡ some (va', none))
      × IsArena cfg lo hi va' objs' left
unfolding free_popped
free_popped-IsArena cfg lo hi va objs live left [] arena frees =
    (va, objs, refl, subst (λ l. IsArena cfg lo hi va objs l) frees arena)
free_popped-IsArena cfg lo hi va objs live left (h ∷ hs) arena (ls, c, rs, split, same, frees) =
    let (va1, objs1, freed, arena1) =
      insert_free-IsArena cfg lo hi va objs ls c rs
        (subst (λ l. IsArena cfg lo hi va objs l) split arena) in
    let (va2, objs2, all_freed, arena2) =
      free_popped-IsArena cfg lo hi va1 objs1 (ls ++ rs) left hs arena1 frees in
    let freed' : free_chunk cfg va h ≡ some va1 = ap (free_chunk cfg va) (sym same) ∙ freed in
    (va2, objs2, rw freed' all_freed, arena2)

-- If the chunks of the list are in use, uaFreeEmergency frees them all and ends in a valid arena
-- with an empty list; yet it returns false.
pub free_emergency-IsArena :
    (cfg : Config) (lo hi : ℕ) (ua : UnmapAllocator) (objs : List ℕ) (live left : List Chunk)
    → IsArena cfg lo hi ua.va objs live
    → Frees live ua.list left
    → (va' : VirtAllocator) × (objs' : List ℕ) × (free_emergency cfg ua
        ≡ some (record ua { va = va'; list = [] }, false))
      × IsArena cfg lo hi va' objs' left
unfolding free_emergency
free_emergency-IsArena cfg lo hi ua objs live left arena frees =
    let (va', objs', popped, arena') =
      free_popped-IsArena cfg lo hi ua.va objs live left ua.list arena frees in
    (va', objs', rw popped refl, arena')
