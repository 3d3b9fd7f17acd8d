-- ===== src/Tables/Grow.antt =====
-- What a grown table contains.
use toywasm.Base.{
  ℕ, zero, suc, ◌+◌, ◌-◌, ◌*◌, ◌^◌, ◌≤◌, ◌<◌, ◌≡◌, refl, ap, ◌∙◌, arith, List, ◌++◌, length, take,
}
use toywasm.Base.{
  Bool, true, false, not, ◌||◌, ◌&&◌, ltb, leb, ◌==◌, Result, ok, ◌>>◌, assert, inl, inr,
  length-append, lt_or_le,
}
use toywasm.Base.{get_elem?-append_left, Bool-cases}
use toywasm.Types.{valtype_cellsize}
use toywasm.Tables.{Tableinst, val_from_cells, table_get, fill_table, table_grow}
use toywasm.Tables.Contents.{read_cells_cong}
use toywasm.Tables.Values.{IsTable, with_cells, table_set-IsStored, element_fits, unwrapped}

record IsFilled (count i : ℕ) (val : List ℕ) (t : Tableinst) (cells' : List ℕ) : Type 0 where
  length_cells : length cells' ≡ length t.cells
  elements :
      (j : ℕ)
      → i ≤ j
      → j < i + count
      → table_get j (with_cells t cells') ≡ ok (take (valtype_cellsize t.et) val)
  others : (j : ℕ) → j < i → table_get j (with_cells t cells') ≡ table_get j t

fill_table-IsFilled :
    (size count i : ℕ) (val : List ℕ) (t : Tableinst)
    → length val ≡ 4
    → length t.cells ≡ size * valtype_cellsize t.et
    → i + count ≤ size
    → length t.cells < 2 ^ 32
    → (cells' : List ℕ) × (fill_table count i val t ≡ ok (with_cells t cells'))
      × IsFilled count i val t cells'
unfolding fill_table
fill_table-IsFilled size zero i val t four e le few = (
  t.cells,
  refl,
  record {
    length_cells = refl;
    elements = λ j low high. absurd (omega arith);
    others = λ j lt. refl;
  },
)
fill_table-IsFilled size (suc count) i val t four e le few =
    let (cells1, set_i, s) =
      table_set-IsStored i val t four (element_fits size t e i (omega arith)) few in
    let (cells', filled, h) =
      fill_table-IsFilled size count (i + 1) val (with_cells t cells1) four (s.length_cells ∙ e)
        (omega arith) (omega (arith, s.length_cells, few)) in
    (
      cells',
      rw set_i filled,
      record {
        length_cells = h.length_cells ∙ s.length_cells;
        elements = λ j low high. elim (lt_or_le i j) [
          | inl after ↦ h.elements j (omega (arith, after)) (omega (arith, high))
          | inr at ↦
              let same : j ≡ i = omega (arith, at, low) in
              rw same (h.others i (omega arith) ∙ s.element)
        ];
        others = λ j lt.
            h.others j (omega (arith, lt))
            ∙ s.others j (omega (arith, lt)) (element_fits size t e j (omega (arith, lt)));
      },
    )

-- The table `t` grown by `n` elements `val`.
pub record IsGrown (n : ℕ) (val : List ℕ) (t t' : Tableinst) : Type 0 where
  pub table : IsTable t'
  pub size : t'.size ≡ t.size + n
  pub old : (j : ℕ) → j < t.size → table_get j t' ≡ table_get j t
  pub new :
      (j : ℕ) → t.size ≤ j → j < t.size + n → table_get j t' ≡ ok (take (valtype_cellsize t.et) val)

-- -1 and the table as it was, or the old size and the table grown.
abbrev pub Grows :
    (n : ℕ) (val : List ℕ) (t : Tableinst) (grows : Bool) → Result (ℕ × Tableinst) → Type 0
Grows n val t false r = r ≡ ok (2 ^ 32 - 1, t)
Grows n val t true r = (t' : Tableinst) × (r ≡ ok (t.size, t')) × IsGrown n val t t'

-- Old elements in more cells.
old-fresh :
    (t : Tableinst) (fresh : List ℕ) (j : ℕ)
    → IsTable t
    → j < t.size
    → table_get j (with_cells t (t.cells ++ fresh)) ≡ table_get j t
unfolding table_get val_from_cells
old-fresh t fresh j h lt =
    let csz = valtype_cellsize t.et in
    let fits = element_fits t.size t h.cells j lt in
    rw (unwrapped j t fits h.few) (
      ap (λ (r : Result (List ℕ)). assert (leb csz 4) >> r)
        (read_cells_cong (j * csz) csz t.cells (t.cells ++ fresh) fits
          (omega (arith, fits, length-append t.cells fresh))
          (λ k lt. get_elem?-append_left t.cells fresh (j * csz + k) (omega (arith, fits, lt)))))

-- Whether the size stays under 2^32 and the limit, and there is room.
abbrev pub may_grow : (room : Bool) (n : ℕ) → Tableinst → Bool
may_grow room n t = leb n (2 ^ 32 - 1 - t.size) && leb (t.size + n) t.max && room

refused-may_grow :
    (room : Bool) (n : ℕ) (t : Tableinst)
    → (ltb (2 ^ 32 - 1 - t.size) n || ltb t.max (t.size + n) || not room) ≡ not (may_grow room n t)
refused-may_grow true n t = ground arith
refused-may_grow false n t = ground arith

filled-IsGrown :
    (n : ℕ) (val fresh cells' : List ℕ) (t : Tableinst)
    → IsTable t
    → length fresh ≡ n * valtype_cellsize t.et
    → (t.size + n) * valtype_cellsize t.et < 2 ^ 32
    → IsFilled n t.size val (with_cells t (t.cells ++ fresh)) cells'
    → IsGrown n val t (record t { cells = cells'; size = t.size + n })
unfolding table_get
filled-IsGrown n val fresh cells' t h new_cells few filled = record {
  table = record {
    cells = omega (arith, filled.length_cells, length-append t.cells fresh, h.cells, new_cells);
    few = omega (arith, filled.length_cells, length-append t.cells fresh, h.cells, new_cells, few);
  };
  size = refl;
  old = λ j lt. filled.others j lt ∙ old-fresh t fresh j h lt;
  new = filled.elements;
}

-- Where the cells of a table, and of the grown one if it may grow, are fewer than 2^32: growing it by
-- no elements or within its limits returns the old size; the old elements are as they
-- were and the new ones have the given value. Else -1 is returned and nothing changes. No
-- assertion fails.
pub table_grow-Grows :
    (room : Bool) (fresh val : List ℕ) (n : ℕ) (t : Tableinst)
    → IsTable t
    → length val ≡ 4
    → length fresh ≡ n * valtype_cellsize t.et
    → (may_grow room n t ≡ true → (t.size + n) * valtype_cellsize t.et < 2 ^ 32)
    → Grows n val t (n == 0 || may_grow room n t) (table_grow room fresh val n t)
unfolding table_grow
table_grow-Grows room fresh val zero t h four new_cells few = (
  t,
  refl,
  record {
    table = h;
    size = omega arith;
    old = λ j lt. refl;
    new = λ j low high. absurd (omega arith);
  },
)
table_grow-Grows room fresh val (suc n) t h four new_cells few =
    let csz = valtype_cellsize t.et in
    let extended = with_cells t (t.cells ++ fresh) in
    let len : length (t.cells ++ fresh) ≡ (t.size + suc n) * csz =
      omega (arith, length-append t.cells fresh, h.cells, new_cells) in
    elim (Bool-cases (may_grow room (suc n) t)) [
      | inl grows ↦
          let (cells', e, filled) =
            fill_table-IsFilled (t.size + suc n) (suc n) t.size val extended four len (omega arith)
              (omega (arith, len, few grows)) in
          rw (some_more, refused-may_grow room (suc n) t, grows, e)
            (
              record t { cells = cells'; size = t.size + suc n },
              refl,
              filled-IsGrown (suc n) val fresh cells' t h new_cells (few grows) filled,
            )
      | inr refused ↦ rw (some_more, refused-may_grow room (suc n) t, refused) refl
    ]
  where
    some_more : (suc n == 0) ≡ false
    some_more = ground arith
