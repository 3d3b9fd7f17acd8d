-- ===== src/Tables/Contents.antt =====
-- What a run of cells is after a write of some.
use toywasm.Base.{
  ℕ, zero, suc, ◌+◌, ◌≤◌, ◌<◌, ◌≡◌, refl, sym, ap, ◌∙◌, arith, List, [], ◌∷◌, length, get_elem?,
  set, some,
}
use toywasm.Base.{ok, inl, ◌⊎◌, lt→ltb, list_ext}
use toywasm.Base.{get_elem?-some, length-set, get_elem?-set_self, get_elem?-set_ne}
use toywasm.Tables.{write_cells, read_cells}

-- `cells'` is `cells` with `src` from `at` on.
pub record IsWritten (at : ℕ) (src cells cells' : List ℕ) : Type 0 where
  pub size : length cells' ≡ length cells
  pub written : (k : ℕ) → k < length src → get_elem? cells' (at + k) ≡ get_elem? src k
  pub kept : (k : ℕ) → (k < at) ⊎ (at + length src ≤ k) → get_elem? cells' k ≡ get_elem? cells k

IsWritten-∷ :
    (at cell : ℕ) (src cells cells' : List ℕ)
    → at < length cells
    → IsWritten (at + 1) src (set cells at cell) cells'
    → IsWritten at (cell ∷ src) cells cells'
IsWritten-∷ at cell src cells cells' room h = record {
  size = h.size ∙ length-set cells at cell;
  written = λ k lt. written k lt;
  kept = λ k out.
      h.kept k (omega (arith, out)) ∙ get_elem?-set_ne cells at k cell (omega (arith, out));
}
  where
    written :
        (k : ℕ) → k < length (cell ∷ src) → get_elem? cells' (at + k) ≡ get_elem? (cell ∷ src) k
    written zero lt =
        let z : at + 0 ≡ at = omega arith in
        rw z (h.kept at (inl (omega arith)) ∙ get_elem?-set_self cells at cell room)
    written (suc k) lt =
        let s : at + suc k ≡ at + 1 + k = omega arith in rw s (h.written k (omega arith))

pub write_cells-IsWritten :
    (at : ℕ) (src cells : List ℕ)
    → at + length src ≤ length cells
    → (cells' : List ℕ) × (write_cells at src cells ≡ ok cells') × IsWritten at src cells cells'
unfolding write_cells
write_cells-IsWritten at [] cells room = (
  cells,
  refl,
  record { size = refl; written = λ k lt. absurd (omega arith); kept = λ k out. refl },
)
write_cells-IsWritten at (cell ∷ src) cells room =
    let fits : at < length cells = omega arith in
    let (cells', e, h) =
      write_cells-IsWritten (at + 1) src (set cells at cell)
        (omega (arith, length-set cells at cell)) in
    (cells', rw (lt→ltb at (length cells) fits) e, IsWritten-∷ at cell src cells cells' fits h)

-- `val` is the `n` cells from `at` on.
pub record IsRead (at n : ℕ) (cells val : List ℕ) : Type 0 where
  pub size : length val ≡ n
  pub same : (k : ℕ) → k < n → get_elem? val k ≡ get_elem? cells (at + k)

pub read_cells-IsRead :
    (at n : ℕ) (cells : List ℕ)
    → at + n ≤ length cells
    → (val : List ℕ) × (read_cells at n cells ≡ ok val) × IsRead at n cells val
unfolding read_cells
read_cells-IsRead at zero cells room =
    ([], refl, record { size = refl; same = λ k lt. absurd (omega arith) })
read_cells-IsRead at (suc n) cells room =
    let (cell, there) = get_elem?-some cells at (omega arith) in
    let (val, e, h) = read_cells-IsRead (at + 1) n cells (omega arith) in
    (
      cell ∷ val,
      rw (there, e) refl,
      record { size = ap suc h.size; same = λ k lt. same val cell there h k lt },
    )
  where
    same :
        (val : List ℕ) (cell : ℕ)
        → get_elem? cells at ≡ some cell
        → IsRead (at + 1) n cells val
        → (k : ℕ) → k < suc n
        → get_elem? (cell ∷ val) k ≡ get_elem? cells (at + k)
    same val cell there h zero lt = let z : at + 0 ≡ at = omega arith in rw z (sym there)
    same val cell there h (suc k) lt =
        let s : at + suc k ≡ at + 1 + k = omega arith in rw s (h.same k (omega arith))

-- Reads that see the same cells give the same.
pub read_cells_cong :
    (at n : ℕ) (cells cells' : List ℕ)
    → at + n ≤ length cells
    → at + n ≤ length cells'
    → ((k : ℕ) → k < n → get_elem? cells' (at + k) ≡ get_elem? cells (at + k))
    → read_cells at n cells' ≡ read_cells at n cells
read_cells_cong at n cells cells' room room' same =
    let (val, e, h) = read_cells-IsRead at n cells room in
    let (val', e', h') = read_cells-IsRead at n cells' room' in
    e'
    ∙ ap ok (
        list_ext val' val (h'.size ∙ sym h.size) (λ k lt.
          h'.same k (omega (arith, lt, h'.size))
          ∙ same k (omega (arith, lt, h'.size))
          ∙ sym (h.same k (omega (arith, lt, h'.size)))))
    ∙ sym e

-- A read of what was written.
pub read_cells-write_cells :
    (at : ℕ) (src cells cells' : List ℕ)
    → at + length src ≤ length cells
    → IsWritten at src cells cells'
    → read_cells at (length src) cells' ≡ ok src
read_cells-write_cells at src cells cells' room h =
    let (val, e, r) = read_cells-IsRead at (length src) cells' (omega (arith, room, h.size)) in
    e
    ∙ ap ok (
        list_ext val src r.size
          (λ k lt. r.same k (omega (arith, lt, r.size)) ∙ h.written k (omega (arith, lt, r.size))))
