-- ===== src/Pool/Loops.antt =====
-- Growing a pool keeps the objects that it still had.
use native.Mathlib.Nat.{div-lt_iff_lt-mul, le-div_iff_mul-le, mul-le-mul_left}
use crts.Prelude.{
  ℕ, zero, suc, ◌+◌, ◌*◌, ◌/◌, ◌≤◌, ◌<◌, ◌≡◌, refl, sym, subst, true, false, some, List, [], ◌∷◌,
  ◌++◌, arith,
}
use crts.Prelude.Counts.{count-append, SameElements}
use crts.Pool.{Pool, pool_alloc, pool_put, pool_flush, pool_grow, has_room}
use crts.Pool.Stores.{Stores, row}

-- The loop ends, and moves what was left to the free objects.
flush_lem :
    (fuel fresh : ℕ) (p : Pool)
    → p.next + fresh * p.object ≤ p.limit
    → p.limit < p.next + suc fresh * p.object
    → fresh < fuel
    → (p' : Pool) × (pool_flush fuel p ≡ some p')
      × (p'.object ≡ p.object)
      × SameElements (p'.free) (p.free ++ row p.object p.next fresh)
unfolding pool_flush
flush_lem zero fresh p room no_more h = absurd (omega arith)
flush_lem (suc fuel) zero p room no_more h =
    let full : has_room p ≡ false = ground arith in
    (p, rw full refl, refl, λ test. omega (arith, count-append test p.free []))
flush_lem (suc fuel) (suc k) p room no_more h =
    let more : has_room p ≡ true = ground arith in
    let q : Pool = record p { next = p.next + p.object; free = p.next ∷ p.free } in
    let opened : pool_put (pool_alloc p).1 (pool_alloc p).0 ≡ q =
      unfold pool_put pool_alloc in refl in
    let (p', result, same, counts) = flush_lem fuel k q (omega arith) (omega arith) (omega arith) in
    (
      p',
      rw (more, opened) result,
      same,
      λ test. omega (
        arith,
        counts test,
        count-append test (p.next ∷ p.free) (row p.object (p.next + p.object) k),
        count-append test p.free (p.next ∷ row p.object (p.next + p.object) k),
      ),
    )

-- Growing ends; afterwards the pool has the objects that it had, as often, and those of the new
-- memory, as many as fit.
pub pool_grow-Stores :
    (p : Pool) (objs : List ℕ) (start size : ℕ)
    → Stores p objs
    → (p' : Pool) × (kept : List ℕ) × (pool_grow p start size ≡ some p')
      × SameElements kept objs
      × Stores p' (kept ++ row p.object start (size / p.object))
unfolding pool_grow
pool_grow-Stores p objs start size s =
    let o = s.some_object in
    let room = s.room in
    let fits : s.fresh * 1 ≤ s.fresh * p.object = mul-le-mul_left (s.fresh) o in
    let (q, result, same, counts) =
      flush_lem (suc p.limit) (s.fresh) p (s.room) (s.no_more) (omega arith) in
    let low : size / p.object * p.object ≤ size = (le-div_iff_mul-le o).0 (omega arith) in
    let high : size < suc (size / p.object) * p.object = (div-lt_iff_lt-mul o).0 (omega arith) in
    (
      record q { next = start; limit = start + size },
      q.free,
      rw result refl,
      subst (λ l. SameElements (q.free) l) (sym (s.objects)) counts,
      record {
        fresh = size / p.object;
        some_object = rw same o;
        room = rw same (omega arith);
        no_more = rw same (omega arith);
        objects = rw same refl;
      },
    )
