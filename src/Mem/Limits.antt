-- ===== src/Mem/Limits.antt =====
-- lib/mem.c: reservations and allocations against the limits.
use toywasm.Base.{ℕ, ◌+◌, ◌-◌, ◌≤◌, ◌≡◌, refl, arith, Bool, true, false, ◌&&◌, [], ◌∷◌, All}
use toywasm.Base.{ltb, leb, if◌then◌else◌, Result, ok, Bool-cases, inl, inr}
use toywasm.Mem.{
  Counter, MemContext, mem_reserve_one, mem_unreserve_one, mem_reserve, mem_unreserve,
}
use toywasm.Mem.{Reserved, allocate, mem_alloc, mem_free}

-- No context is over its limit.
abbrev pub IsLimited : Counter → Type 0
IsLimited c = c.allocated ≤ c.limit

-- Whether every context has that much left.
abbrev pub has_left : (diff : ℕ) → MemContext → Bool
has_left diff [] = true
has_left diff (c ∷ parent) = leb diff (c.limit - c.allocated) && has_left diff parent

-- Every context with so much more.
abbrev pub charge : (diff : ℕ) → MemContext → MemContext
charge diff [] = []
charge diff (c ∷ parent) = record c { allocated = c.allocated + diff } ∷ charge diff parent

-- A reservation succeeds exactly if every context from this to the outermost has that much left, and
-- then is counted in each of them. Else every context is as it was. No assertion fails.
pub mem_reserve-eq :
    (diff : ℕ) (ctx : MemContext)
    → All IsLimited ctx
    → mem_reserve diff ctx
      ≡ ok (has_left diff ctx, if has_left diff ctx then charge diff ctx else ctx)
unfolding mem_reserve mem_reserve_one mem_unreserve_one
mem_reserve-eq diff [] h = refl
mem_reserve-eq diff (c ∷ parent) (hc, h) = elim (Bool-cases (has_left diff parent)) [
  | inl left ↦ rw (mem_reserve-eq diff parent h, left) (ground (arith, hc))
  | inr none_left ↦ rw (mem_reserve-eq diff parent h, none_left) (ground (arith, hc))
]

pub charge-IsLimited :
    (diff : ℕ) (ctx : MemContext)
    → All IsLimited ctx
    → has_left diff ctx ≡ true
    → All IsLimited (charge diff ctx)
charge-IsLimited diff [] h e = tt
charge-IsLimited diff (c ∷ parent) (hc, h) e =
    (ground (arith, hc), charge-IsLimited diff parent h (ground arith))

pub mem_unreserve-charge :
    (diff : ℕ) (ctx : MemContext)
    → All IsLimited ctx
    → has_left diff ctx ≡ true
    → mem_unreserve diff (charge diff ctx) ≡ ok ctx
unfolding mem_unreserve mem_unreserve_one
mem_unreserve-charge diff [] h e = refl
mem_unreserve-charge diff (c ∷ parent) (hc, h) e =
    rw (mem_unreserve-charge diff parent h (ground arith)) (ground (arith, hc))

-- What an allocation does, by whether it succeeds.
abbrev pub Allocates : (sz : ℕ) (ctx : MemContext) → Result Reserved → (fits : Bool) → Type 0
Allocates sz ctx r true =
    (ctx' : MemContext) × (r ≡ ok (true, ctx'))
    × (ctx' ≡ charge sz ctx)
    × All IsLimited ctx'
    × (mem_free false sz ctx' ≡ ok ctx)
Allocates sz ctx r false = r ≡ ok (false, ctx)

-- An allocation of some bytes in contexts within their limits fails no assertion. If every context has
-- that much left and the allocator succeeds, every context counts it and is within its limit, and
-- freeing it gives the contexts back as they were; else they are as they were.
pub mem_alloc-Allocates :
    (room : Bool) (sz : ℕ) (ctx : MemContext)
    → All IsLimited ctx
    → 1 ≤ sz
    → Allocates sz ctx (mem_alloc room sz ctx) (has_left sz ctx && room)
unfolding mem_alloc mem_free
mem_alloc-Allocates room sz ctx h some_bytes =
    rw (positive, mem_reserve-eq sz ctx h) (by_outcome (has_left sz ctx) refl room)
  where
    positive : ltb 0 sz ≡ true
    positive = ground arith

    by_outcome :
        (left : Bool)
        → has_left sz ctx ≡ left
        → (room : Bool)
        → Allocates sz ctx
            (allocate room sz (left, if left then charge sz ctx else ctx))
            (left && room)
    by_outcome false e room = refl
    by_outcome true e true = (
      charge sz ctx,
      refl,
      refl,
      charge-IsLimited sz ctx h e,
      ground (arith, mem_unreserve-charge sz ctx h e),
    )
    by_outcome true e false = rw (mem_unreserve-charge sz ctx h e) refl
