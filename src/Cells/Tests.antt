-- ===== src/Cells/Tests.antt =====
-- An overlapping move.
use toywasm.Base.{◌≡◌, refl, arith, List, ℕ, [], ◌∷◌, ok}
use toywasm.Cells.{cells_move, move_up, move_down}
use toywasm.Cells.Move.{Moves, cells_move-Moves}

abbrev four : List ℕ
four = 1 ∷ 2 ∷ 3 ∷ 4 ∷ []

backwards : cells_move 1 0 3 four ≡ ok (1 ∷ 1 ∷ 2 ∷ 3 ∷ [])
unfolding cells_move move_up move_down
backwards = refl

cells_move-Moves_example : Moves (cells_move 0 1 3 four) 0 1 3 four
cells_move-Moves_example = cells_move-Moves 0 1 3 four (omega arith) (omega arith)
