-- ===== src/Types.antt =====
-- lib/valtype.h, lib/type.h and lib/type.c: value types and function types; the sizes of values in
-- cells from lib/cell.c. The build options are the defaults of cmake/ToywasmConfig.cmake: small
-- cells, SIMD, no exception handling; the host has pointers of 64 bits, two cells.
pub mod Laws
mod Tests
use toywasm.Base.{ℕ, ◌+◌, ◌≡◌, Bool, true, false, not, ◌||◌, List, [], ◌∷◌, if◌then◌else◌}
use toywasm.Base.{Result, ok, err, fault, ◌>>=◌, einval, ◌==◌}

-- The value types, and the two pseudo types of the validation.
pub data Valtype : Type 0 where
  i32 i64 f32 f64 v128 exnref funcref externref anyref unknown : Valtype

-- The values of `enum valtype`.
abbrev pub valtype_code : Valtype → ℕ
valtype_code i32 = 0x7f
valtype_code i64 = 0x7e
valtype_code f32 = 0x7d
valtype_code f64 = 0x7c
valtype_code v128 = 0x7b
valtype_code exnref = 0x69
valtype_code funcref = 0x70
valtype_code externref = 0x6f
valtype_code anyref = 0xfe
valtype_code unknown = 0xff

-- The cast of a byte to `enum valtype`. A byte that is no value type is `unknown` here.
unfoldable pub valtype_of_code : ℕ → Valtype
valtype_of_code n =
    if n == 0x7f
    then i32
    else if n == 0x7e
    then i64
    else if n == 0x7d
    then f32
    else if n == 0x7c
    then f64
    else if n == 0x7b
    then v128
    else if n == 0x69
    then exnref
    else if n == 0x70
    then funcref
    else if n == 0x6f
    then externref
    else if n == 0xfe
    then anyref
    else unknown

-- `a == b` on value types.
unfoldable pub eq_valtype : Valtype → Valtype → Bool
eq_valtype a b = valtype_code a == valtype_code b

abbrev pub is_numtype : Valtype → Bool
is_numtype i32 = true
is_numtype i64 = true
is_numtype f32 = true
is_numtype f64 = true
is_numtype _ = false

abbrev pub is_vectype : Valtype → Bool
is_vectype v128 = true
is_vectype _ = false

abbrev pub is_reftype : Valtype → Bool
is_reftype funcref = true
is_reftype externref = true
is_reftype _ = false

abbrev pub is_valtype : Valtype → Bool
is_valtype vt = is_numtype vt || is_vectype vt || is_reftype vt

abbrev pub Resulttype : Type 0
Resulttype = List Valtype

pub record Functype : Type 0 where
  pub parameter : Resulttype
  pub result : Resulttype

-- The number of cells of a value; `xassert(false)` on anything else, and 0.
abbrev pub valtype_cellsize : Valtype → ℕ
valtype_cellsize i32 = 1
valtype_cellsize f32 = 1
valtype_cellsize i64 = 2
valtype_cellsize f64 = 2
valtype_cellsize v128 = 4
valtype_cellsize funcref = 2
valtype_cellsize externref = 2
valtype_cellsize _ = 0

-- The slow path of `resulttype_cellidx`: the cells before the value `idx`, an exact sum. The source asserts
-- that the 32-bit sum does not wrap; the functions that take a size from here assert it.
abbrev pub resulttype_cellidx : Resulttype → ℕ → ℕ
resulttype_cellidx [] idx = 0
resulttype_cellidx (t ∷ ts) ℕ.zero = 0
resulttype_cellidx (t ∷ ts) (ℕ.suc idx) = valtype_cellsize t + resulttype_cellidx ts idx

abbrev pub resulttype_cellsize : Resulttype → ℕ
resulttype_cellsize [] = 0
resulttype_cellsize (t ∷ ts) = valtype_cellsize t + resulttype_cellsize ts

-- 0 if equal, else 1.
unfoldable pub compare_resulttype : Resulttype → Resulttype → ℕ
unfolding eq_valtype
compare_resulttype [] [] = 0
compare_resulttype [] (y ∷ ys) = 1
compare_resulttype (x ∷ xs) [] = 1
compare_resulttype (x ∷ xs) (y ∷ ys) = if not (eq_valtype x y) then 1 else compare_resulttype xs ys

unfoldable pub compare_functype : Functype → Functype → ℕ
unfolding compare_resulttype
compare_functype a b =
    if not (compare_resulttype a.parameter b.parameter == 0)
    then 1
    else compare_resulttype a.result b.result
