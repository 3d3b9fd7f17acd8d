-- ===== src/Mem.antt =====
-- lib/mem.c: memory contexts, which count what is allocated under a limit, each in its parent too
-- (heap tracking, as in the default build, without the peak). A context is the list of the counters
-- from it to the outermost parent. `room` is whether the C library's allocator succeeds.
mod Limits
mod Tests
use toywasm.Base.{
  ℕ, ◌+◌, ◌-◌, ◌*◌, ◌^◌, Bool, true, false, not, ◌||◌, List, [], ◌∷◌, ltb, leb, ◌==◌,
}
use toywasm.Base.{
  if◌then◌else◌, Result, ok, err, fault, enomem, eoverflow, ◌>>=◌, ◌>>◌, assert, check,
}

pub record Counter : Type 0 where
  pub allocated : ℕ
  pub limit : ℕ

abbrev pub MemContext : Type 0
MemContext = List Counter

-- SIZE_MAX.
abbrev pub size_max : ℕ
size_max = 2 ^ 64 - 1

-- A fresh context in the context of `parent`.
unfoldable pub mem_context_init : (parent : MemContext) → MemContext
mem_context_init parent = record { allocated = 0; limit = size_max } ∷ parent

unfoldable pub mem_context_setlimit : (limit : ℕ) → MemContext → Result MemContext
mem_context_setlimit limit [] = fault
mem_context_setlimit limit (c ∷ parent) = do
  check (leb c.allocated limit) enomem
  ok (record c { limit = limit } ∷ parent)

unfoldable pub mem_unreserve_one : (diff : ℕ) → Counter → Result Counter
mem_unreserve_one diff c = do
  assert (leb c.allocated c.limit)
  assert (leb diff c.allocated)
  ok (record c { allocated = c.allocated - diff })

unfoldable pub mem_reserve_one : (diff : ℕ) → Counter → Result Counter
mem_reserve_one diff c = do
  assert (leb c.allocated c.limit)
  check (leb diff (c.limit - c.allocated)) enomem
  ok (record c { allocated = c.allocated + diff })

unfoldable pub mem_unreserve : (diff : ℕ) → MemContext → Result MemContext
mem_unreserve diff [] = ok []
mem_unreserve diff (c ∷ parent) = do
  c' ← mem_unreserve_one diff c
  parent' ← mem_unreserve diff parent
  ok (c' ∷ parent')

-- What is returned, and the context after it.
abbrev pub Reserved : Type 0
Reserved = Bool × MemContext

-- On a failure further out the reservation is undone.
abbrev pub undo : (diff : ℕ) → Counter → (outer : Reserved) → Result Reserved
undo diff c (true, parent) = ok (true, c ∷ parent)
undo diff c (false, parent) = do c' ← mem_unreserve_one diff c; ok (false, c' ∷ parent)

-- ENOMEM of `mem_reserve` is `false` here: the context comes back with it.
unfoldable pub mem_reserve : (diff : ℕ) → MemContext → Result Reserved
mem_reserve diff [] = ok (true, [])
mem_reserve diff (c ∷ parent) = do
  assert (leb c.allocated c.limit)
  let outside : Result Reserved = do
    reserved ← mem_reserve_one diff c
    outer ← mem_reserve diff parent
    undo diff reserved outer
  if ltb (c.limit - c.allocated) diff then ok (false, c ∷ parent) else outside

-- The reservation undone if the allocator fails.
abbrev pub allocate : (room : Bool) (sz : ℕ) → Reserved → Result Reserved
allocate room sz (false, ctx) = ok (false, ctx)
allocate true sz (true, ctx) = ok (true, ctx)
allocate false sz (true, ctx) = do ctx' ← mem_unreserve sz ctx; ok (false, ctx')

unfoldable pub mem_alloc : (room : Bool) (sz : ℕ) → MemContext → Result Reserved
mem_alloc room sz ctx = do
  assert (ltb 0 sz)
  reserved ← mem_reserve sz ctx
  allocate room sz reserved

unfoldable pub mem_calloc : (room : Bool) (a b : ℕ) → MemContext → Result Reserved
mem_calloc room a b ctx = do
  assert (ltb 0 a)
  assert (ltb 0 b)
  let zeroed = mem_alloc room (a * b) ctx
  if ltb size_max (a * b) then ok (false, ctx) else zeroed

-- `null` is whether the pointer is null.
unfoldable pub mem_free : (null : Bool) (sz : ℕ) → MemContext → Result MemContext
mem_free null sz ctx =
    let freed = assert (ltb 0 sz) >> mem_unreserve sz ctx in if null then ok ctx else freed

unfoldable pub mem_extend : (room null : Bool) (oldsz newsz : ℕ) → MemContext → Result Reserved
mem_extend room null oldsz newsz ctx = do
  assert (if null then oldsz == 0 else ltb 0 oldsz)
  assert (ltb oldsz newsz)
  reserved ← mem_reserve (newsz - oldsz) ctx
  allocate room (newsz - oldsz) reserved

unfoldable pub mem_shrink : (room : Bool) (oldsz newsz : ℕ) → MemContext → Result Reserved
mem_shrink room oldsz newsz ctx = do
  assert (ltb newsz oldsz)
  let shrunk : Result Reserved = do ctx' ← mem_unreserve (oldsz - newsz) ctx; ok (true, ctx')
  if room then shrunk else ok (false, ctx)

-- `array_extend` of lib/util.c, of an array that has elements exactly if it has a pointer.
unfoldable pub array_extend :
    (room : Bool) (elem_size old_elem_count new_elem_count : ℕ)
    → MemContext
    → Result (Result (Unit {0}) × MemContext)
array_extend room elem_size old_elem_count new_elem_count ctx = do
  assert (ltb 0 elem_size)
  assert (ltb old_elem_count new_elem_count)
  let extended : Result (Result (Unit {0}) × MemContext) = do
    (got, ctx') ←
        mem_extend room (old_elem_count == 0) (elem_size * old_elem_count)
          (elem_size * new_elem_count) ctx
    ok (check got enomem, ctx')
  if ltb size_max (elem_size * new_elem_count) then ok (err eoverflow, ctx) else extended
