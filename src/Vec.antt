-- ===== src/Vec.antt =====
-- lib/vec.h and lib/vec.c: vectors. `elems` are the elements up to `lsize`, and the room behind them is not
-- read. `room` is whether `array_extend` of lib/util.c succeeds, for a size that does not overflow.
pub mod Resize
use toywasm.Base.{
  ℕ, ◌+◌, ◌-◌, ◌*◌, ◌^◌, Bool, true, false, not, List, [], ◌++◌, length, take, replicate, ltb, leb,
}
use toywasm.Base.{
  ◌||◌, if◌then◌else◌, Result, ok, err, enomem, eoverflow, ◌>>=◌, ◌>>◌, assert, check,
}
use toywasm.Mem.{size_max}

pub record Vec (A : Type 0) : Type 0 where
  pub elems : List A
  pub psize : ℕ

-- The test of VEC_PREALLOC alone, for vectors that are lists: EOVERFLOW if the vector would get more elements than 32 bits count.
abbrev pub prealloc : (lsize count : ℕ) → Result (Unit {0})
prealloc lsize count = check (leb (lsize + count) (2 ^ 32 - 1)) eoverflow

module _ {A : Type 0} where
  -- The size after `array_extend` to `count` elements, if there are not so many yet.
  unfoldable pub ensure : (room : Bool) (elem_size count : ℕ) → Vec A → Result (Vec A)
  ensure room elem_size count v = do
    check (leb count v.psize || not (ltb size_max (elem_size * count))) eoverflow
    check (leb count v.psize || room) enomem
    ok (record v { psize = if leb count v.psize then v.psize else count })

  -- `zero` is an element of zero bytes.
  unfoldable pub vec_resize :
      (room : Bool) (elem_size : ℕ) (zero : A) (count : ℕ) → Vec A → Result (Vec A)
  vec_resize room elem_size zero count v = do
    assert (leb (length v.elems) v.psize)
    v' ← ensure room elem_size count v
    ok (record v' { elems = take count (v.elems ++ replicate (count - length v.elems) zero) })

  unfoldable pub vec_prealloc : (room : Bool) (elem_size count : ℕ) → Vec A → Result (Vec A)
  vec_prealloc room elem_size count v = do
    check (leb count (2 ^ 32 - 1 - length v.elems)) eoverflow
    ensure room elem_size (length v.elems + count) v

  unfoldable pub vec_free : Vec A → Vec A
  vec_free v = record { elems = []; psize = 0 }
