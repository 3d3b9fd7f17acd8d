-- ===== src/Locals/Tests.antt =====
-- Locals of three types, and what a declaration of no locals does.
use toywasm.Base.{
  sym, ◌≡◌, refl, arith, List, [], ◌∷◌, ◌++◌, length, none, some, All, ℕ, true, false, ok, err,
  einval,
}
use toywasm.Types.{Resulttype, i32, i64, resulttype_cellsize, valtype_of_code, is_valtype}
use toywasm.Leb.{
  read_u8, read_leb_u32, read_leb, read_loop, check_group, add_group, extend, mask, write_leb_u32,
  write_leb_loop,
}
use toywasm.Locals.{read_locals, read_chunks, write_locals, write_chunks}
use toywasm.Locals.RoundTrip.{IsDeclaration, read_locals-write_locals}
use toywasm.Locals.{
  Localtype, Localchunk, zero_chunk, populate_localtype_cellidx, populate_resulttype_cellidx,
}
use toywasm.Locals.{
  frame_locals_cellidx_fast, frame_locals_cellidx_slow, index_types, index_chunks, index_run,
}
use toywasm.Locals.Index.{IsUsed, nlocals_of, IsBoth, frame_locals_cellidx_fast_eq_slow}

abbrev two_params : Resulttype
two_params = i64 ∷ i32 ∷ []

abbrev three_locals : List Localchunk
three_locals = record { n = 2; type = 0x7e } ∷ record { n = 1; type = 0x7f } ∷ []

three_locals-IsUsed : All IsUsed three_locals
three_locals-IsUsed = (omega arith, (omega arith, tt))

params_index : populate_resulttype_cellidx two_params ≡ some (0 ∷ 2 ∷ 3 ∷ [])
unfolding populate_resulttype_cellidx index_types
params_index = refl

locals_index :
    populate_localtype_cellidx (three_locals ++ zero_chunk ∷ []) ≡ some (0 ∷ 2 ∷ 4 ∷ 5 ∷ [])
unfolding populate_localtype_cellidx index_chunks index_run valtype_of_code
locals_index = refl

frame_locals_cellidx_fast_eq_slow_example :
    IsBoth
      (frame_locals_cellidx_fast
        (0 ∷ 2 ∷ 3 ∷ [])
        (0 ∷ 2 ∷ 4 ∷ 5 ∷ [])
        (length two_params)
        (resulttype_cellsize two_params)
        4)
      (frame_locals_cellidx_slow two_params
        (record {
          localchunks = three_locals ++ zero_chunk ∷ [];
          nlocals = nlocals_of three_locals;
          cellidx = none;
        })
        4)
frame_locals_cellidx_fast_eq_slow_example =
    frame_locals_cellidx_fast_eq_slow two_params three_locals (zero_chunk ∷ []) (0 ∷ 2 ∷ 3 ∷ [])
      (0 ∷ 2 ∷ 4 ∷ 5 ∷ []) 4 three_locals-IsUsed params_index locals_index (omega arith)

-- A declaration of no locals, and one of an i64.
read_no_locals :
    read_locals false (2 ∷ 0 ∷ 0x7f ∷ 1 ∷ 0x7e ∷ [])
    ≡ ok (
      record {
        localchunks = record { n = 1; type = 0x7e } ∷ zero_chunk ∷ [];
        nlocals = 1;
        cellidx = none;
      },
      [],
    )
unfolding read_locals read_chunks read_u8 read_leb_u32 read_leb read_loop check_group add_group
    extend mask valtype_of_code
read_no_locals = refl

-- What is written of them is refused.
write_no_locals :
    read_locals false (
      write_locals
        (record {
          localchunks = record { n = 1; type = 0x7e } ∷ zero_chunk ∷ [];
          nlocals = 1;
          cellidx = none;
        })
        [])
    ≡ err einval
unfolding read_locals read_chunks read_u8 read_leb_u32 read_leb read_loop check_group add_group
    extend mask valtype_of_code write_locals write_chunks write_leb_u32 write_leb_loop
write_no_locals = refl

abbrev three_localtype : Localtype
three_localtype = record {
  localchunks = three_locals;
  nlocals = 3;
  cellidx = some (0 ∷ 2 ∷ 4 ∷ 5 ∷ []);
}

three_locals_index : populate_localtype_cellidx three_locals ≡ some (0 ∷ 2 ∷ 4 ∷ 5 ∷ [])
unfolding populate_localtype_cellidx index_chunks index_run valtype_of_code
three_locals_index = refl

i64_valtype : is_valtype (valtype_of_code 0x7e) ≡ true
unfolding valtype_of_code
i64_valtype = refl

i32_valtype : is_valtype (valtype_of_code 0x7f) ≡ true
unfolding valtype_of_code
i32_valtype = refl

three_locals-IsDeclaration : All IsDeclaration three_locals
three_locals-IsDeclaration = (
  record {
    some_locals = omega arith;
    fits = omega arith;
    byte = omega arith;
    valtype = i64_valtype;
  },
  (
    record {
      some_locals = omega arith;
      fits = omega arith;
      byte = omega arith;
      valtype = i32_valtype;
    },
    tt,
  ),
)

read_locals-write_locals_example :
    (front : List ℕ) × (write_locals three_localtype (1 ∷ 2 ∷ []) ≡ (1 ∷ 2 ∷ []) ++ front)
    × (read_locals true (front ++ 3 ∷ []) ≡ ok (three_localtype, 3 ∷ []))
read_locals-write_locals_example =
    read_locals-write_locals true three_localtype (1 ∷ 2 ∷ []) (3 ∷ []) three_locals-IsDeclaration
      (omega arith) refl (omega arith) (sym three_locals_index)
