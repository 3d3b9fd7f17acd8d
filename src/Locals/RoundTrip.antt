-- ===== src/Locals/RoundTrip.antt =====
-- write_locals of lib/module_writer.c against read_locals of lib/module.c.
use toywasm.Base.{
  ℕ, ◌+◌, ◌-◌, ◌^◌, ◌≤◌, ◌<◌, ◌≡◌, refl, sym, ap, ◌∙◌, arith, true, false, List, [], ◌∷◌, ◌++◌,
  length,
}
use toywasm.Base.{
  Bool, Option, ltb, if◌then◌else◌, leb, ◌==◌, ok, All, u8, append_assoc, append-nil, none,
}
use toywasm.Types.{is_valtype, valtype_of_code}
use toywasm.Leb.{read_u8, write_leb_u32}
use toywasm.Leb.Write.{read_leb_u32-write_leb_u32}
use toywasm.Locals.{
  populate_localtype_cellidx, Localchunk, Localtype, read_chunks, read_locals, write_chunks,
  write_locals,
}
use toywasm.Locals.Index.{nlocals_of}

-- A declaration as a module has it: of some locals, of the code of a value type.
pub record IsDeclaration (chunk : Localchunk) : Type 0 where
  pub some_locals : 1 ≤ chunk.n
  pub fits : chunk.n < 2 ^ 32
  pub byte : chunk.type < 256
  pub valtype : is_valtype (valtype_of_code chunk.type) ≡ true

-- Chunk by chunk: `front` is what the writer appends for the chunks.
read_chunks-write_chunks :
    (chunks : List Localchunk) (before : ℕ) (out rest : List ℕ)
    → All IsDeclaration chunks
    → before + nlocals_of chunks < 2 ^ 32
    → (front : List ℕ) × (write_chunks chunks out ≡ out ++ front)
      × (read_chunks (length chunks) before (front ++ rest)
          ≡ ok (chunks, before + nlocals_of chunks, rest))
unfolding read_chunks write_chunks read_u8
read_chunks-write_chunks [] before out rest h few =
    let z : before + 0 ≡ before = omega arith in ([], sym (append-nil out), rw z refl)
read_chunks-write_chunks (chunk ∷ chunks) before out rest (hc, h) few =
    let tail = chunk.type ∷ [] in
    let byte : u8 chunk.type ≡ chunk.type = omega (arith, hc.byte) in
    let (front, wrote, more_read) =
      read_chunks-write_chunks chunks (before + chunk.n) (write_leb_u32 chunk.n out ++ tail) rest h
        (omega (arith, few)) in
    let (count, wrote_count, count_read) =
      read_leb_u32-write_leb_u32 chunk.n out (chunk.type ∷ front ++ rest) hc.fits in
    let sum : before + (chunk.n + nlocals_of chunks) ≡ before + chunk.n + nlocals_of chunks =
      omega arith in
    (
      count ++ chunk.type ∷ front,
      glue count front byte wrote_count wrote,
      rw
          (
            append_assoc count (chunk.type ∷ front) rest,
            count_read,
            room,
            hc.valtype,
            more_read,
            nonzero,
            sum,
          )
          refl,
    )
  where
    glue :
        (count front : List ℕ)
        → u8 chunk.type ≡ chunk.type
        → write_leb_u32 chunk.n out ≡ out ++ count
        → write_chunks chunks (write_leb_u32 chunk.n out ++ chunk.type ∷ [])
          ≡ write_leb_u32 chunk.n out ++ chunk.type ∷ [] ++ front
        → write_chunks chunks (write_leb_u32 chunk.n out ++ u8 chunk.type ∷ [])
          ≡ out ++ (count ++ chunk.type ∷ front)
    glue count front byte wrote_count wrote = rw byte (
        wrote
        ∙ ap (λ o. o ++ chunk.type ∷ [] ++ front) wrote_count
        ∙ append_assoc (out ++ count) (chunk.type ∷ []) front
        ∙ append_assoc out count (chunk.type ∷ front))

    room : leb chunk.n (2 ^ 32 - 1 - before) ≡ true
    room = ground (arith, few)

    nonzero : (chunk.n == 0) ≡ false
    nonzero = ground (arith, hc.some_locals)

-- The index of cells that the loader makes, by the option generate_localtype_cellidx.
abbrev pub cellidx_of : (generate_cellidx : Bool) → Localtype → Option (List ℕ)
cellidx_of generate_cellidx lt =
    let index = if ltb 0 lt.nlocals then populate_localtype_cellidx lt.localchunks else none in
    if generate_cellidx then index else none

-- Under either setting of generate_localtype_cellidx: locals that read_locals can make from declarations of some locals each, at most 2^32 - 1 in all and of
-- value types, are read back from what write_locals writes, with the same chunks, the same number
-- and the index of cells of that setting; the reader stops where the writer stopped; what was written before stays.
pub read_locals-write_locals :
    (generate_cellidx : Bool) (lt : Localtype) (out rest : List ℕ)
    → All IsDeclaration lt.localchunks
    → length lt.localchunks < 2 ^ 32
    → lt.nlocals ≡ nlocals_of lt.localchunks
    → lt.nlocals < 2 ^ 32
    → lt.cellidx ≡ cellidx_of generate_cellidx lt
    → (front : List ℕ) × (write_locals lt out ≡ out ++ front)
      × (read_locals generate_cellidx (front ++ rest) ≡ ok (lt, rest))
unfolding read_locals write_locals
read_locals-write_locals generate_cellidx lt out rest h chunks count few index =
    let n = length lt.localchunks in
    let total : 0 + nlocals_of lt.localchunks ≡ lt.nlocals = omega (arith, count) in
    let (front, wrote, chunks_read) =
      read_chunks-write_chunks lt.localchunks 0 (write_leb_u32 n out) rest h
        (omega (arith, total, few)) in
    let (vec_count, wrote_count, count_read) =
      read_leb_u32-write_leb_u32 n out (front ++ rest) chunks in
    let none_left : n - n ≡ 0 = omega arith in
    (
      vec_count ++ front,
      wrote ∙ ap (λ o. o ++ front) wrote_count ∙ append_assoc out vec_count front,
      rw
          (
            append_assoc vec_count front rest,
            count_read,
            chunks_read,
            none_left,
            append-nil lt.localchunks,
            total,
          )
          (ap (λ index. ok (record lt { cellidx = index }, rest)) (sym index)),
    )
