-- ===== src/Cells/Move.antt =====
-- Moves of cells that may overlap: lib/cell.c, cells_move.
use toywasm.Base.{
  ℕ, zero, suc, ◌+◌, ◌≤◌, ◌<◌, ◌≡◌, refl, sym, ◌∙◌, arith, List, length, get_elem?, set, some,
}
use toywasm.Base.{leb, Result, ok, inl, inr, ◌⊎◌, true, false, lt_or_le, lt→ltb}
use toywasm.Base.{get_elem?-some, length-set, get_elem?-set_self, get_elem?-set_ne}
use toywasm.Cells.{move_up, move_down, cells_move}

-- `cells'` is `cells` with the `n` cells from `src` on also from `dst` on.
pub record IsMoved (dst src n : ℕ) (cells cells' : List ℕ) : Type 0 where
  pub size : length cells' ≡ length cells
  pub moved : (k : ℕ) → k < n → get_elem? cells' (dst + k) ≡ get_elem? cells (src + k)
  pub kept : (k : ℕ) → (k < dst) ⊎ (dst + n ≤ k) → get_elem? cells' k ≡ get_elem? cells k

abbrev pub Moves : Result (List ℕ) → (dst src n : ℕ) (cells : List ℕ) → Type 0
Moves r dst src n cells = (cells' : List ℕ) × (r ≡ ok cells') × IsMoved dst src n cells cells'

IsMoved-zero : (dst src : ℕ) (cells : List ℕ) → IsMoved dst src 0 cells cells
IsMoved-zero dst src cells = record {
  size = refl;
  moved = λ k lt. absurd (omega arith);
  kept = λ k out. refl;
}

-- The first cell, then the others.
IsMoved-move_up :
    (dst src n cell : ℕ) (cells cells' : List ℕ)
    → dst ≤ src
    → dst < length cells
    → get_elem? cells src ≡ some cell
    → IsMoved (dst + 1) (src + 1) n (set cells dst cell) cells'
    → IsMoved dst src (suc n) cells cells'
IsMoved-move_up dst src n cell cells cells' le room at h = record {
  size = h.size ∙ length-set cells dst cell;
  moved = λ k lt. moved k lt;
  kept = λ k out.
      h.kept k (omega (arith, out)) ∙ get_elem?-set_ne cells dst k cell (omega (arith, out));
}
  where
    moved : (k : ℕ) → k < suc n → get_elem? cells' (dst + k) ≡ get_elem? cells (src + k)
    moved zero lt =
        let d : dst + 0 ≡ dst = omega arith in
        let s : src + 0 ≡ src = omega arith in
        rw (d, s) (h.kept dst (inl (omega arith)) ∙ get_elem?-set_self cells dst cell room ∙ sym at)
    moved (suc k) lt =
        let d : dst + suc k ≡ dst + 1 + k = omega arith in
        let s : src + suc k ≡ src + 1 + k = omega arith in
        rw (d, s)
          (h.moved k (omega arith) ∙ get_elem?-set_ne cells dst (src + 1 + k) cell (omega arith))

move_up-Moves :
    (n dst src : ℕ) (cells : List ℕ)
    → dst ≤ src
    → src + n ≤ length cells
    → Moves (move_up n dst src cells) dst src n cells
unfolding move_up
move_up-Moves zero dst src cells le room = (cells, refl, IsMoved-zero dst src cells)
move_up-Moves (suc n) dst src cells le room =
    let (cell, at) = get_elem?-some cells src (omega arith) in
    let fits : dst < length cells = omega arith in
    let (cells', e, h) =
      move_up-Moves n (dst + 1) (src + 1) (set cells dst cell) (omega arith)
        (omega (arith, length-set cells dst cell)) in
    (
      cells',
      rw (at, lt→ltb dst (length cells) fits) e,
      IsMoved-move_up dst src n cell cells cells' le fits at h,
    )

-- The last cell, then the others.
IsMoved-move_down :
    (dst src n cell : ℕ) (cells cells' : List ℕ)
    → src ≤ dst
    → dst + n < length cells
    → get_elem? cells (src + n) ≡ some cell
    → IsMoved dst src n (set cells (dst + n) cell) cells'
    → IsMoved dst src (suc n) cells cells'
IsMoved-move_down dst src n cell cells cells' le room at h = record {
  size = h.size ∙ length-set cells (dst + n) cell;
  moved = λ k lt. elim (lt_or_le k n) [
    | inl before ↦
        h.moved k before ∙ get_elem?-set_ne cells (dst + n) (src + k) cell (omega (arith, before))
    | inr last ↦
        let same : k ≡ n = omega (arith, last, lt) in
        rw same (
          h.kept (dst + n) (inr (omega arith))
          ∙ get_elem?-set_self cells (dst + n) cell room
          ∙ sym at)
  ];
  kept = λ k out.
      h.kept k (omega (arith, out)) ∙ get_elem?-set_ne cells (dst + n) k cell (omega (arith, out));
}

move_down-Moves :
    (n dst src : ℕ) (cells : List ℕ)
    → src ≤ dst
    → dst + n ≤ length cells
    → Moves (move_down n dst src cells) dst src n cells
unfolding move_down
move_down-Moves zero dst src cells le room = (cells, refl, IsMoved-zero dst src cells)
move_down-Moves (suc n) dst src cells le room =
    let (cell, at) = get_elem?-some cells (src + n) (omega arith) in
    let fits : dst + n < length cells = omega arith in
    let (cells', e, h) =
      move_down-Moves n dst src (set cells (dst + n) cell) le
        (omega (arith, length-set cells (dst + n) cell)) in
    (
      cells',
      rw (at, lt→ltb (dst + n) (length cells) fits) e,
      IsMoved-move_down dst src n cell cells cells' le fits at h,
    )

-- When the source and the destination lie in the array, also when they overlap, the move ends with the
-- source's cells as they were before in the destination, and every cell outside of it as it was.
pub cells_move-Moves :
    (dst src n : ℕ) (cells : List ℕ)
    → src + n ≤ length cells
    → dst + n ≤ length cells
    → Moves (cells_move dst src n cells) dst src n cells
unfolding cells_move
cells_move-Moves dst src n cells s d = elim (lt_or_le src dst) [
  | inl after ↦ rw (is_after after) (move_down-Moves n dst src cells (omega (arith, after)) d)
  | inr before ↦ rw (is_before before) (move_up-Moves n dst src cells before s)
]
  where
    is_after : src < dst → leb dst src ≡ false
    is_after h = ground arith

    is_before : dst ≤ src → leb dst src ≡ true
    is_before h = ground arith
