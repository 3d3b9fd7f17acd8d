-- ===== src/Tables/Values.antt =====
-- What table_get gives after table_set.
use toywasm.Base.{
  ℕ, suc, ◌+◌, ◌*◌, ◌^◌, ◌≤◌, ◌<◌, ◌≡◌, ◌≢◌, refl, sym, ◌∙◌, subst, arith, List, length, take,
}
use toywasm.Base.{ok, leb, true, inl, inr, ◌⊎◌, length-take}
use toywasm.Types.{
  Valtype, i32, i64, f32, f64, v128, funcref, externref, exnref, anyref, unknown, valtype_cellsize,
}
use toywasm.Tables.{
  Tableinst, cell_of, read_cells, val_to_cells, val_from_cells, table_set, table_get,
}
use toywasm.Tables.Contents.{write_cells-IsWritten, read_cells_cong, read_cells-write_cells}
use native.Mathlib.Nat.{mul-le-mul_right}

-- The cells are those of the elements, fewer than 2^32.
pub record IsTable (t : Tableinst) : Type 0 where
  pub cells : length t.cells ≡ t.size * valtype_cellsize t.et
  pub few : length t.cells < 2 ^ 32

abbrev pub with_cells : Tableinst → (cells : List ℕ) → Tableinst
with_cells t cells = record t { cells = cells }

-- `cells'` are the cells of `t` with `val` as element `i`, as table_get sees it.
pub record IsStored (i : ℕ) (val : List ℕ) (t : Tableinst) (cells' : List ℕ) : Type 0 where
  pub length_cells : length cells' ≡ length t.cells
  pub element : table_get i (with_cells t cells') ≡ ok (take (valtype_cellsize t.et) val)
  pub others :
      (j : ℕ)
      → j ≢ i
      → j * valtype_cellsize t.et + valtype_cellsize t.et ≤ length t.cells
      → table_get j (with_cells t cells') ≡ table_get j t

-- The index of an element in such a table does not wrap.
pub unwrapped :
    (i : ℕ) (t : Tableinst)
    → i * valtype_cellsize t.et + valtype_cellsize t.et ≤ length t.cells
    → length t.cells < 2 ^ 32
    → cell_of i t ≡ i * valtype_cellsize t.et
unwrapped i t fits few = omega (arith, fits, few)

cellsize_le : (et : Valtype) → valtype_cellsize et ≤ 4
cellsize_le i32 = omega arith
cellsize_le i64 = omega arith
cellsize_le f32 = omega arith
cellsize_le f64 = omega arith
cellsize_le v128 = omega arith
cellsize_le exnref = omega arith
cellsize_le anyref = omega arith
cellsize_le funcref = omega arith
cellsize_le externref = omega arith
cellsize_le unknown = omega arith

-- The cells of two elements do not overlap.
apart : (i j csz k : ℕ) → j ≢ i → k < csz → (j * csz + k < i * csz) ⊎ (i * csz + csz ≤ j * csz + k)
apart i j csz k ne lt = elim (lt_or_gt i j ne) [
  | inl above ↦ let le : suc i * csz ≤ j * csz = mul-le-mul_right csz above in inr (omega arith)
  | inr below ↦ let le : suc j * csz ≤ i * csz = mul-le-mul_right csz below in inl (omega arith)
]
  where
    lt_or_gt : (i j : ℕ) → j ≢ i → (suc i ≤ j) ⊎ (suc j ≤ i)
    lt_or_gt i j ne = omega arith

-- Of any table with room for the cells of element `i`.
pub table_set-IsStored :
    (i : ℕ) (val : List ℕ) (t : Tableinst)
    → length val ≡ 4
    → i * valtype_cellsize t.et + valtype_cellsize t.et ≤ length t.cells
    → length t.cells < 2 ^ 32
    → (cells' : List ℕ) × (table_set i val t ≡ ok (with_cells t cells')) × IsStored i val t cells'
unfolding table_set table_get val_to_cells val_from_cells
table_set-IsStored i val t four room few =
    let csz = valtype_cellsize t.et in
    let le = cellsize_le t.et in
    let src = take csz val in
    let len : length src ≡ csz = omega (arith, length-take csz val, four, le) in
    let (cells', e, h) = write_cells-IsWritten (i * csz) src t.cells (omega (arith, len, room)) in
    let read : read_cells (i * csz) csz cells' ≡ ok src =
      subst (λ n. read_cells (i * csz) n cells' ≡ ok src) len
        (read_cells-write_cells (i * csz) src t.cells cells' (omega (arith, len, room)) h) in
    (
      cells',
      rw (allowed le, unwrapped i t room few, e) refl,
      record {
        length_cells = h.size;
        element = rw (allowed le, unwrapped i t room few) read;
        others = λ j ne fits.
            rw (allowed le, unwrapped j t fits few)
              (read_cells_cong (j * csz) csz t.cells cells' fits (omega (arith, fits, h.size))
                (λ k lt. h.kept (j * csz + k) (
                  subst (λ n. (j * csz + k < i * csz) ⊎ (i * csz + n ≤ j * csz + k)) (sym len)
                    (apart i j csz k ne lt))));
      },
    )
  where
    allowed : valtype_cellsize t.et ≤ 4 → leb (valtype_cellsize t.et) 4 ≡ true
    allowed le = ground (arith, le)

pub element_fits :
    (size : ℕ) (t : Tableinst)
    → length t.cells ≡ size * valtype_cellsize t.et
    → (i : ℕ) → i < size
    → i * valtype_cellsize t.et + valtype_cellsize t.et ≤ length t.cells
element_fits size t e i lt =
    let le : suc i * valtype_cellsize t.et ≤ size * valtype_cellsize t.et =
      mul-le-mul_right (valtype_cellsize t.et) lt in
    omega (arith, le, e)

-- Setting an element of a table of fewer than 2^32 cells fails no assertion and faults nowhere; table_get then gives the cells of
-- the value that the type of the elements has, and every other element is as it was.
pub table_get-table_set :
    (i : ℕ) (val : List ℕ) (t : Tableinst)
    → IsTable t
    → length val ≡ 4
    → i < t.size
    → (t' : Tableinst) × (table_set i val t ≡ ok t')
      × IsTable t'
      × (table_get i t' ≡ ok (take (valtype_cellsize t.et) val))
      × ((j : ℕ) → j ≢ i → j < t.size → table_get j t' ≡ table_get j t)
table_get-table_set i val t h four lt =
    let csz = valtype_cellsize t.et in
    let (cells', e, s) =
      table_set-IsStored i val t four (element_fits t.size t h.cells i lt) h.few in
    (
      with_cells t cells',
      e,
      record { cells = s.length_cells ∙ h.cells; few = omega (arith, s.length_cells, h.few) },
      s.element,
      λ j ne lt. s.others j ne (element_fits t.size t h.cells j lt),
    )
