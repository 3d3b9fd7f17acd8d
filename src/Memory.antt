-- ===== src/Memory.antt =====
-- lib/exec_insn_subr.c: linear memories that are not shared (`struct meminst` of lib/type.h). The
-- pages have 2^16 bytes, as without custom page sizes. `bytes` (`data` there) has those that are allocated so far,
-- `allocated` of them. Each function that allocates takes `room`, whether `mem_extend` succeeds.
pub mod Contents
mod Access
mod Grow
mod Init
mod Tests
use toywasm.Base.{
  ℕ, ◌+◌, ◌-◌, ◌*◌, ◌/◌, ◌^◌, Bool, true, false, not, ◌||◌, ◌&&◌, List, [], ◌∷◌, ◌++◌,
}
use toywasm.Base.{
  length, get_elem?, set, take, drop, replicate, ltb, leb, ◌==◌, if◌then◌else◌, Option, none, some,
  u32,
}
use toywasm.Base.{Result, ok, err, fault, einval, enomem, etoywasmtrap, ◌>>=◌, ◌>>◌, assert, check}
use toywasm.Bitmap.{bitmap_test, bitmap_set}

-- WASM_PAGE_SHIFT.
abbrev pub page_shift : ℕ
page_shift = 16

pub record Meminst : Type 0 where
  pub bytes : List ℕ
  pub size_in_pages : ℕ
  pub max : ℕ

-- `ADD_U32_OVERFLOW`: nothing on overflow.
abbrev pub add_u32 : ℕ → ℕ → Option ℕ
add_u32 a b = if ltb (2 ^ 32 - 1 - a) b then none else some (u32 (a + b))

-- The memory with its first `need` bytes allocated.
unfoldable pub extend : (need : ℕ) → Meminst → Meminst
extend need mi = record mi { bytes = mi.bytes ++ replicate (need - length mi.bytes) 0 }

-- An access of no bytes still has its address checked.
unfoldable pub access_nothing : (ea : ℕ) → Meminst → Result (ℕ × Meminst)
access_nothing ea mi =
    if ltb 0 ea && leb mi.size_in_pages ((ea - 1) / 2 ^ page_shift)
    then err etoywasmtrap
    else ok (ea, mi)

-- The address `ea`, once the bytes up to `last_byte` are allocated.
unfoldable pub access_up_to : (room : Bool) (ea last_byte : ℕ) → Meminst → Result (ℕ × Meminst)
access_up_to room ea last_byte mi =
    let need_in_pages = u32 (last_byte / 2 ^ page_shift + 1) in
    if not (leb (length mi.bytes) last_byte)
    then ok (ea, mi)
    else if ltb mi.size_in_pages need_in_pages
    then err etoywasmtrap
    else if not room
    then err enomem
    else ok (ea, extend (last_byte + 1) mi)

-- The address in `data`, and the memory, which may have grown.
unfoldable pub memory_instance_getptr2 :
    (room : Bool) (ptr offset size : ℕ) → Meminst → Result (ℕ × Meminst)
memory_instance_getptr2 room ptr offset size mi = do
  assert (leb (length mi.bytes) (mi.size_in_pages * 2 ^ page_shift))
  elim (add_u32 ptr offset) [
    | none ↦ err etoywasmtrap
    | some ea ↦ if size == 0 then access_nothing ea mi else elim (add_u32 ea (size - 1)) [
      | none ↦ err etoywasmtrap
      | some last_byte ↦ access_up_to room ea last_byte mi
    ]
  ]

-- The new size, if it is in the limits.
unfoldable pub grown_size : (sz : ℕ) → Meminst → Option ℕ
grown_size sz mi = elim (add_u32 mi.size_in_pages sz) [
  | none ↦ none
  | some new_size ↦ if ltb mi.max new_size then none else some new_size
]

-- `(uint32_t)-1`, on failure.
abbrev pub minus_one : ℕ
minus_one = 2 ^ 32 - 1

-- The growth to `new_size`; under 4 pages the allocation is left to the accesses.
unfoldable pub grow_to : (room : Bool) (new_size : ℕ) → Meminst → Result (ℕ × Meminst)
grow_to room new_size mi =
    let orig_size = mi.size_in_pages in
    let do_realloc = not (new_size == orig_size) && leb 4 new_size in
    let new_size_in_bytes = new_size * 2 ^ page_shift in
    let resized : Meminst = record mi { size_in_pages = new_size } in
    if not do_realloc
    then ok (orig_size, resized)
    else if not (ltb (length mi.bytes / 2 ^ page_shift) new_size)
    then fault
    else if not room
    then ok (minus_one, mi)
    else ok (orig_size, extend new_size_in_bytes resized)

unfoldable pub memory_grow : (room : Bool) (sz : ℕ) → Meminst → Result (ℕ × Meminst)
memory_grow room sz mi = do
  assert (leb mi.max (2 ^ 32 / 2 ^ page_shift))
  elim (grown_size sz mi) [ none ↦ ok (minus_one, mi) | some new_size ↦ grow_to room new_size mi ]

-- `memcpy(&data[at], bytes, n)`: out of bounds undefined, of no bytes nothing.
unfoldable pub write_bytes : (at : ℕ) (bytes dst : List ℕ) → Result (List ℕ)
write_bytes at [] dst = ok dst
write_bytes at (b ∷ bytes) dst = do
  assert (leb (at + length (b ∷ bytes)) (length dst))
  ok (take at dst ++ ((b ∷ bytes) ++ drop (at + length (b ∷ bytes)) dst))

-- What memory_init and data_drop use of an instance: its memories, the data segments of its module,
-- and the bitmap of the dropped ones.
pub record Instance : Type 0 where
  pub mems : List Meminst
  pub datas : List (List ℕ)
  pub data_dropped : List ℕ

abbrev pub copy_init : (room : Bool) (d s n : ℕ) (init : List ℕ) → Meminst → Result Meminst
copy_init room d s n init mi = do
  (p, mi') ← memory_instance_getptr2 room d 0 n mi
  written ← write_bytes p (take n (drop s init)) mi'.bytes
  ok (record mi' { bytes = written })

unfoldable pub memory_init : (room : Bool) (memidx dataidx d s n : ℕ) → Instance → Result Instance
memory_init room memidx dataidx d s n inst = elim (get_elem? inst.mems memidx) [
  | none ↦ fault
  | some mi ↦ elim (get_elem? inst.datas dataidx) [
    | none ↦ fault
    | some init ↦ do
      dropped ← bitmap_test inst.data_dropped dataidx
      check (not (dropped && not (s == 0 && n == 0))) etoywasmtrap
      check (not (ltb (length init) s)) etoywasmtrap
      check (not (ltb (length init - s) n)) etoywasmtrap
      mi' ← copy_init room d s n init mi
      ok (record inst { mems = set inst.mems memidx mi' })
  ]
]

unfoldable pub data_drop : (dataidx : ℕ) → Instance → Result Instance
data_drop dataidx inst = do
  assert (ltb dataidx (length inst.datas))
  dropped ← bitmap_set inst.data_dropped dataidx
  ok (record inst { data_dropped = dropped })
