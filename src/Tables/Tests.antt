-- ===== src/Tables/Tests.antt =====
-- A table of two functions.
use toywasm.Base.{
  ℕ, ◌<◌, ◌≡◌, ◌≢◌, refl, arith, true, [], ◌∷◌, take, ok, err, etoywasmtrap, ◌==◌, ◌||◌,
}
use toywasm.Types.{Functype, i32, funcref, valtype_cellsize, eq_valtype}
use toywasm.Tables.{
  Tableinst, table_get, table_set, table_grow, table_get_func, val_from_cells, read_cells,
}
use toywasm.Tables.Values.{IsTable, table_get-table_set}
use toywasm.Tables.Grow.{Grows, may_grow, table_grow-Grows}
use toywasm.Tables.Calls.{Calls, table_get_func-Calls}

-- A function at 7 and a null reference.
abbrev two_elements : Tableinst
two_elements = record { et = funcref; max = 4; size = 2; cells = 7 ∷ 0 ∷ 0 ∷ 0 ∷ [] }

two_elements-IsTable : IsTable two_elements
two_elements-IsTable = record { cells = refl; few = omega arith }

abbrev takes_i32 : ℕ → Functype
takes_i32 p = record { parameter = i32 ∷ []; result = [] }

null_trap : table_get_func takes_i32 two_elements 1 (takes_i32 0) ≡ err etoywasmtrap
unfolding table_get_func eq_valtype table_get val_from_cells read_cells
null_trap = refl

table_get-table_set_example :
    (t' : Tableinst) × (table_set 1 (9 ∷ 1 ∷ 0 ∷ 0 ∷ []) two_elements ≡ ok t')
    × IsTable t'
    × (table_get 1 t' ≡ ok (take (valtype_cellsize two_elements.et) (9 ∷ 1 ∷ 0 ∷ 0 ∷ [])))
    × ((j : ℕ) → j ≢ 1 → j < two_elements.size → table_get j t' ≡ table_get j two_elements)
table_get-table_set_example =
    table_get-table_set 1 (9 ∷ 1 ∷ 0 ∷ 0 ∷ []) two_elements two_elements-IsTable refl (omega arith)

table_grow-Grows_example :
    Grows 2
      (9 ∷ 1 ∷ 0 ∷ 0 ∷ [])
      two_elements
      (2 == 0 || may_grow true 2 two_elements)
      (table_grow true (5 ∷ 5 ∷ 5 ∷ 5 ∷ []) (9 ∷ 1 ∷ 0 ∷ 0 ∷ []) 2 two_elements)
table_grow-Grows_example =
    table_grow-Grows true (5 ∷ 5 ∷ 5 ∷ 5 ∷ []) (9 ∷ 1 ∷ 0 ∷ 0 ∷ []) 2 two_elements
      two_elements-IsTable refl refl (λ grows. omega arith)

table_get_func-Calls_example :
    Calls takes_i32 two_elements 0
      (takes_i32 0)
      (table_get_func takes_i32 two_elements 0 (takes_i32 0))
table_get_func-Calls_example =
    table_get_func-Calls takes_i32 two_elements 0 (takes_i32 0) two_elements-IsTable refl
