-- ===== src/Idalloc.antt =====
-- lib/idalloc.c: identifiers in a range, each with a pointer of its user. A slot of the vector is free
-- (the pointer 1) or has the user's pointer, 0 for null.
mod Alloc
mod Tests
use toywasm.Base.{
  ℕ, zero, suc, ◌+◌, ◌-◌, ◌*◌, Bool, true, false, not, ◌||◌, ◌&&◌, List, [], ◌∷◌, length, get_elem?,
  set,
}
use toywasm.Base.{ltb, leb, ◌==◌, u32, if◌then◌else◌, Option, none, some}
use toywasm.Base.{Result, ok, err, fault, erange, ◌>>=◌, ◌>>◌, assert, check}
use toywasm.Vec.{Vec, vec_resize}

pub data Slot : Type 0 where
  free : Slot
  user : (data_ : ℕ) → Slot

abbrev pub is_free : Slot → Bool
is_free free = true
is_free (user _) = false

pub record Idalloc : Type 0 where
  pub vec : Vec Slot
  pub base : ℕ
  pub maxid : ℕ

unfoldable pub idalloc_init : (minid maxid : ℕ) → Result Idalloc
idalloc_init minid maxid = do
  assert (leb minid maxid)
  ok (record { vec = record { elems = []; psize = 0 }; base = minid; maxid = maxid - minid })

unfoldable pub idalloc_test : Idalloc → (id : ℕ) → Bool
idalloc_test ida id =
    if ltb id ida.base
    then false
    else if leb (u32 (ida.base + length ida.vec.elems)) id
    then false
    else elim (get_elem? ida.vec.elems (id - ida.base)) [
      | none ↦ false
      | some slot ↦ not (is_free slot)
    ]

-- `*idalloc_getptr(ida, id) = slot`.
unfoldable pub put : (id : ℕ) (slot : Slot) → Idalloc → Result Idalloc
put id slot ida = do
  let vec = ida.vec
  assert (leb ida.base id)
  assert (ltb (id - ida.base) (length vec.elems))
  ok (record ida { vec = record vec { elems = set vec.elems (id - ida.base) slot } })

-- The scan for a free slot from index `i` on.
unfoldable pub first_free : (i : ℕ) → List Slot → Option ℕ
first_free i [] = none
first_free i (slot ∷ slots) = if is_free slot then some i else first_free (suc i) slots

-- The identifier behind the last one.
unfoldable pub extend_ids : (room : Bool) → Idalloc → Result (ℕ × Idalloc)
extend_ids room ida = do
  let id = length ida.vec.elems
  check (leb id ida.maxid) erange
  vec ← vec_resize room 8 (user 0) (id + 1) ida.vec
  ok (ida.base + id, record ida { vec = record vec { elems = set vec.elems id (user 0) } })

unfoldable pub idalloc_alloc : (room : Bool) → Idalloc → Result (ℕ × Idalloc)
idalloc_alloc room ida = elim (first_free 0 ida.vec.elems) [
  | none ↦ extend_ids room ida
  | some i ↦
      let vec = ida.vec in
      ok (ida.base + i, record ida { vec = record vec { elems = set vec.elems i (user 0) } })
]

unfoldable pub idalloc_free : (id : ℕ) → Idalloc → Result Idalloc
idalloc_free id ida = do assert (idalloc_test ida id); put id free ida

unfoldable pub idalloc_set_user : (id data_ : ℕ) → Idalloc → Result Idalloc
idalloc_set_user id data_ ida = do
  assert (idalloc_test ida id)
  assert (not (data_ == 1))
  put id (user data_) ida

unfoldable pub idalloc_get_user : (id : ℕ) → Idalloc → Result ℕ
idalloc_get_user id ida = do
  assert (idalloc_test ida id)
  elim (get_elem? ida.vec.elems (id - ida.base)) [
    | none ↦ fault
    | some free ↦ fault
    | some (user data_) ↦ ok data_
  ]
