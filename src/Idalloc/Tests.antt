-- ===== src/Idalloc/Tests.antt =====
-- Identifiers from 5 to 6, both in use.
use toywasm.Base.{◌≡◌, refl, arith, true, [], ◌∷◌, err, erange}
use toywasm.Idalloc.{Idalloc, free, user, idalloc_alloc, extend_ids, first_free}
use toywasm.Idalloc.Alloc.{IsIdalloc, GivesId, idalloc_alloc-GivesId}

abbrev in_use : Idalloc
in_use = record { vec = record { elems = user 11 ∷ user 12 ∷ []; psize = 2 }; base = 5; maxid = 1 }

abbrev one_free : Idalloc
one_free = record in_use { vec = record { elems = user 11 ∷ free ∷ []; psize = 2 } }

one_free-IsIdalloc : IsIdalloc one_free
one_free-IsIdalloc = record { size = omega arith; ids = omega arith; range = omega arith }

no_id : idalloc_alloc true in_use ≡ err erange
unfolding idalloc_alloc extend_ids first_free
no_id = refl

idalloc_alloc-GivesId_example : GivesId one_free (idalloc_alloc true one_free)
idalloc_alloc-GivesId_example = idalloc_alloc-GivesId one_free one_free-IsIdalloc
