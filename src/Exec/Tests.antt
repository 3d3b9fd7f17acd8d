-- ===== src/Exec/Tests.antt =====
-- A jump table of three blocks.
use toywasm.Base.{zero, suc, ◌≡◌, refl, arith, List, [], ◌∷◌, ok, fault}
use toywasm.Validation.{Jump}
use toywasm.Exec.{jump_table_lookup, search_jump}
use toywasm.Exec.Lookup.{IsSorted, jump_table_lookup-finds}

abbrev three_blocks : List Jump
three_blocks =
    record { pc = 4; targetpc = 90 }
    ∷ record { pc = 9; targetpc = 40 }
    ∷ record { pc = 21; targetpc = 30 }
    ∷ []

absent : jump_table_lookup three_blocks 10 ≡ fault
unfolding jump_table_lookup search_jump
absent = refl

three_blocks-IsSorted : IsSorted three_blocks
three_blocks-IsSorted zero zero a b e f h = absurd (omega arith)
three_blocks-IsSorted zero (suc zero) a b e f h = ground (arith, e, f)
three_blocks-IsSorted zero (suc (suc zero)) a b e f h = ground (arith, e, f)
three_blocks-IsSorted zero (suc (suc (suc j))) a b e f h = absurd (cc f)
three_blocks-IsSorted (suc zero) zero a b e f h = absurd (omega arith)
three_blocks-IsSorted (suc zero) (suc zero) a b e f h = absurd (omega arith)
three_blocks-IsSorted (suc zero) (suc (suc zero)) a b e f h = ground (arith, e, f)
three_blocks-IsSorted (suc zero) (suc (suc (suc j))) a b e f h = absurd (cc f)
three_blocks-IsSorted (suc (suc zero)) zero a b e f h = absurd (omega arith)
three_blocks-IsSorted (suc (suc zero)) (suc zero) a b e f h = absurd (omega arith)
three_blocks-IsSorted (suc (suc zero)) (suc (suc zero)) a b e f h = absurd (omega arith)
three_blocks-IsSorted (suc (suc zero)) (suc (suc (suc j))) a b e f h = absurd (cc f)
three_blocks-IsSorted (suc (suc (suc i))) j a b e f h = absurd (cc e)

jump_table_lookup-finds_example : jump_table_lookup three_blocks 9 ≡ ok 1
jump_table_lookup-finds_example =
    jump_table_lookup-finds three_blocks three_blocks-IsSorted 1 (record { pc = 9; targetpc = 40 })
      refl (omega arith)
