-- ===== src/Annotation/Tests.antt =====
-- A `drop` of an `i64` at 30, after one of an `i32` at 10.
use toywasm.Base.{◌≡◌, refl, [], ◌∷◌, ok}
use toywasm.Types.{i64}
use toywasm.Validation.{ExprInfo}
use toywasm.Annotation.{annotate}
use toywasm.Annotation.Lookup.{Annotates, find_type_annotation-annotate}

abbrev dropped_i32 : ExprInfo
dropped_i32 = record { jumps = []; maxlabels = 1; maxcells = 2; default_size = 1; types = [] }

find_type_annotation-annotate_example :
    (ei' : ExprInfo) × (annotate 30 i64 dropped_i32 ≡ ok ei') × Annotates 30 i64 dropped_i32 ei'
find_type_annotation-annotate_example =
    find_type_annotation-annotate 30 i64 dropped_i32 tt refl (λ none_yet. refl)

abbrev dropped_i64 : ExprInfo
dropped_i64 = record dropped_i32 { types = record { pc = 30; size = 2 } ∷ [] }

-- A second `i64` gets an annotation of its own, although the last one has its size: the size is
-- compared with the code of the type.
repeated :
    annotate 40 i64 dropped_i64
    ≡ ok (record dropped_i32 {
      types = record { pc = 30; size = 2 } ∷ record { pc = 40; size = 2 } ∷ [];
    })
unfolding annotate
repeated = refl
