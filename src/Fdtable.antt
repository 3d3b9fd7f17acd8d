-- ===== src/Fdtable.antt =====
-- libwasi/wasi_table.c, and wasi_fdinfo_release of libwasi/wasi_fdinfo.c: the table of file descriptors. A
-- `struct wasi_fdinfo` is its index in the list of reference counts, where 0 is one that is freed or
-- not in the table so far. The lock is held, threads are off, and `room` is whether the table can grow.
mod Add
mod Lookup
mod Tests
use toywasm.Base.{
  ℕ, zero, suc, ◌+◌, ◌-◌, ◌*◌, ◌^◌, Bool, true, false, not, ◌&&◌, List, [], ◌∷◌, length, get_elem?,
  set,
}
use toywasm.Base.{read_elem, ltb, leb, ◌==◌, if◌then◌else◌, Option, none, some}
use toywasm.Base.{Result, ok, err, fault, ebadf, ◌>>=◌, ◌>>◌, assert}
use toywasm.Vec.{Vec, vec_resize}

-- `struct wasi_table` and the counts.
pub record Fdtable : Type 0 where
  pub reserved_slots : ℕ
  pub table : Vec (Option ℕ)
  pub refcounts : List ℕ

abbrev pub is_null : Option ℕ → Bool
is_null none = true
is_null (some f) = false

-- `fdinfo->refcount++`.
unfoldable pub add_reference : (fdinfo : ℕ) → Fdtable → Result Fdtable
add_reference fdinfo w = do
  refcount ← read_elem (get_elem? w.refcounts fdinfo)
  assert (ltb refcount (2 ^ 32 - 1))
  ok (record w { refcounts = set w.refcounts fdinfo (refcount + 1) })

unfoldable pub wasi_table_affix : (wasifd fdinfo : ℕ) → Fdtable → Result Fdtable
wasi_table_affix wasifd fdinfo w = do
  ofdinfo ← read_elem (get_elem? w.table.elems wasifd)
  assert (is_null ofdinfo)
  w' ← add_reference fdinfo w
  let table = w'.table
  ok (record w' { table = record table { elems = set table.elems wasifd (some fdinfo) } })

-- What a descriptor refers to, if it is open.
abbrev pub fdinfo_at : Option (Option ℕ) → Option ℕ
fdinfo_at none = none
fdinfo_at (some fdinfo) = fdinfo

abbrev pub with_reference : Option ℕ → Fdtable → Result (ℕ × Fdtable)
with_reference none w = err ebadf
with_reference (some fdinfo) w = do w' ← add_reference fdinfo w; ok (fdinfo, w')

unfoldable pub wasi_table_lookup_locked : (wasifd : ℕ) → Fdtable → Result (ℕ × Fdtable)
wasi_table_lookup_locked wasifd w = with_reference (fdinfo_at (get_elem? w.table.elems wasifd)) w

-- Without threads there is nothing to wait for.
unfoldable pub wasi_table_lookup_locked_for_close : (wasifd : ℕ) → Fdtable → Result (ℕ × Fdtable)
wasi_table_lookup_locked_for_close wasifd w = do
  (fdinfo, w') ← wasi_table_lookup_locked wasifd w
  refcount ← read_elem (get_elem? w'.refcounts fdinfo)
  assert (leb 2 refcount)
  assert (leb refcount 2)
  ok (fdinfo, w')

-- The resize zeroes the new slots.
unfoldable pub wasi_table_expand : (room : Bool) (maxfd : ℕ) → Fdtable → Result Fdtable
wasi_table_expand room maxfd w = do
  let resized : Result Fdtable = do
    table ← vec_resize room 8 none (maxfd + 1) w.table
    ok (record w { table = table })
  if ltb maxfd (length w.table.elems) then ok w else resized

-- The scan from slot `i` on, past the reserved slots.
unfoldable pub first_null : (reserved i : ℕ) → List (Option ℕ) → Option ℕ
first_null reserved i [] = none
first_null reserved i (slot ∷ slots) =
    let later = first_null reserved (suc i) slots in
    if leb reserved i && is_null slot then some i else later

-- A slot behind the table and the reserved ones.
unfoldable pub slot_behind : (room : Bool) → Fdtable → Result (ℕ × Fdtable)
slot_behind room w = do
  let lsize = length w.table.elems
  let wasifd = if ltb lsize w.reserved_slots then w.reserved_slots else lsize
  w' ← wasi_table_expand room wasifd w
  fdinfo ← read_elem (get_elem? w'.table.elems wasifd)
  assert (is_null fdinfo)
  ok (wasifd, w')

abbrev pub slot_or :
    (found : Option ℕ) (behind : Result (ℕ × Fdtable)) → Fdtable → Result (ℕ × Fdtable)
slot_or none behind w = behind
slot_or (some wasifd) behind w = ok (wasifd, w)

unfoldable pub wasi_table_alloc_slot : (room : Bool) → Fdtable → Result (ℕ × Fdtable)
wasi_table_alloc_slot room w =
    slot_or (first_null w.reserved_slots 0 w.table.elems) (slot_behind room w) w

unfoldable pub wasi_table_fdinfo_add : (room : Bool) (fdinfo : ℕ) → Fdtable → Result (ℕ × Fdtable)
wasi_table_fdinfo_add room fdinfo w = do
  (wasifd, w') ← wasi_table_alloc_slot room w
  w'' ← wasi_table_affix wasifd fdinfo w'
  ok (wasifd, w'')

unfoldable pub wasi_fdinfo_release : (fdinfo : ℕ) → Fdtable → Result Fdtable
wasi_fdinfo_release fdinfo w = do
  refcount ← read_elem (get_elem? w.refcounts fdinfo)
  assert (ltb 0 refcount)
  ok (record w { refcounts = set w.refcounts fdinfo (refcount - 1) })
