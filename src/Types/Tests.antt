-- ===== src/Types/Tests.antt =====
-- Two function types that differ in a result.
use toywasm.Base.{◌≡◌, refl, [], ◌∷◌}
use toywasm.Types.{Functype, i32, i64, f64, compare_functype}

abbrev returns_i32 : Functype
returns_i32 = record { parameter = i64 ∷ f64 ∷ []; result = i32 ∷ [] }

abbrev returns_i64 : Functype
returns_i64 = record { parameter = i64 ∷ f64 ∷ []; result = i64 ∷ [] }

differ : compare_functype returns_i32 returns_i64 ≡ 1
unfolding compare_functype
differ = refl
