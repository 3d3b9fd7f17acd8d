-- ===== src/Locals.antt =====
-- The locals of a function: read_locals of lib/module.c and write_locals of lib/module_writer.c, and where
-- the cells of a local are, in lib/cell.c: by a walk over the chunks of equal locals (slow) or by an
-- index that the loader makes (fast). A type is the byte in the module. Heap allocation succeeds.
mod Runs
mod Index
mod RoundTrip
mod Tests
use toywasm.Base.{
  ℕ, zero, suc, ◌+◌, ◌-◌, ◌*◌, ◌^◌, Bool, true, false, not, List, [], ◌∷◌, ◌++◌, length, get_elem?,
}
use toywasm.Base.{
  read_elem, replicate, min, ltb, leb, ◌==◌, if◌then◌else◌, Option, none, some, u8, u32,
}
use toywasm.Base.{Result, ok, err, fault, einval, e2big, ◌>>=◌, ◌>>◌, assert, check}
use toywasm.Types.{
  Valtype, Resulttype, is_valtype, valtype_of_code, valtype_cellsize, resulttype_cellidx,
}
use toywasm.Types.{resulttype_cellsize}
use toywasm.Leb.{read_u8, read_leb_u32, write_leb_u32}
use mathlib.Core.Option

-- `struct localchunk`: `n` locals of one type.
pub record Localchunk : Type 0 where
  pub n : ℕ
  pub type : ℕ

-- `struct localtype`; the chunks are as many as the module has, those behind the last one in use zero.
pub record Localtype : Type 0 where
  pub localchunks : List Localchunk
  pub nlocals : ℕ
  pub cellidx : Option (List ℕ)

abbrev pub chunk_cellsize : Localchunk → ℕ
chunk_cellsize chunk = valtype_cellsize (valtype_of_code chunk.type)

-- The `n` further indices of a chunk, each the end of a local; `rest` is what follows. A chunk of no
-- locals, which an assertion excludes before the last local, is passed over.
unfoldable pub index_run : (n csz off : ℕ) (rest : ℕ → Option (List ℕ)) → Option (List ℕ)
index_run zero csz off rest = rest off
index_run (suc n) csz off rest =
    let more = index_run n csz (off + csz) rest in
    if ltb (2 ^ 16 - 1 - off) csz then none else Option.map (λ is. (off + csz) ∷ is) more

unfoldable pub index_chunks : (off : ℕ) → List Localchunk → Option (List ℕ)
index_chunks off [] = some []
index_chunks off (chunk ∷ chunks) =
    index_run chunk.n (chunk_cellsize chunk) off (λ off'. index_chunks off' chunks)

-- Nothing if an index does not fit in 16 bits.
unfoldable pub populate_localtype_cellidx : List Localchunk → Option (List ℕ)
populate_localtype_cellidx chunks = Option.map (λ is. 0 ∷ is) (index_chunks 0 chunks)

unfoldable pub index_types : (off : ℕ) → Resulttype → Option (List ℕ)
index_types off [] = some []
index_types off (t ∷ types) =
    let off' = off + valtype_cellsize t in
    let more = index_types off' types in
    if ltb (2 ^ 16 - 1 - off) (valtype_cellsize t) then none else Option.map (λ is. off' ∷ is) more

unfoldable pub populate_resulttype_cellidx : Resulttype → Option (List ℕ)
populate_resulttype_cellidx types = Option.map (λ is. 0 ∷ is) (index_types 0 types)

-- The chunks of a vector of `count`; chunks of no locals are checked and dropped.
unfoldable pub read_chunks : (count nlocals : ℕ) → List ℕ → Result (List Localchunk × ℕ × List ℕ)
read_chunks zero nlocals bytes = ok ([], nlocals, bytes)
read_chunks (suc count) nlocals bytes = do
  (n, behind) ← read_leb_u32 bytes
  check (leb n (2 ^ 32 - 1 - nlocals)) e2big
  (type, behind_type) ← read_u8 true behind
  check (is_valtype (valtype_of_code type)) einval
  (chunks, total, rest) ← read_chunks count (nlocals + n) behind_type
  ok ((if n == 0 then chunks else record { n = n; type = type } ∷ chunks), total, rest)

abbrev pub zero_chunk : Localchunk
zero_chunk = record { n = 0; type = 0 }

unfoldable pub read_locals : (generate_cellidx : Bool) → List ℕ → Result (Localtype × List ℕ)
read_locals generate_cellidx bytes = do
  (vec_count, behind) ← read_leb_u32 bytes
  (used, nlocals, rest) ← read_chunks vec_count 0 behind
  let chunks = used ++ replicate (vec_count - length used) zero_chunk
  let index = if ltb 0 nlocals then populate_localtype_cellidx chunks else none
  let lt : Localtype = record {
    localchunks = chunks;
    nlocals = nlocals;
    cellidx = if generate_cellidx then index else none;
  }
  ok (lt, rest)

unfoldable pub write_chunks : List Localchunk → (out : List ℕ) → List ℕ
write_chunks [] out = out
write_chunks (chunk ∷ chunks) out =
    write_chunks chunks (write_leb_u32 chunk.n out ++ u8 chunk.type ∷ [])

unfoldable pub write_locals : Localtype → (out : List ℕ) → List ℕ
write_locals lt out = write_chunks lt.localchunks (write_leb_u32 (length lt.localchunks) out)

-- An index and the next one make the index and the size of a local.
abbrev pub cidx_pair : (cidx next_cidx : Option ℕ) → Result (ℕ × ℕ)
cidx_pair none next_cidx = fault
cidx_pair (some cidx) none = fault
cidx_pair (some cidx) (some next_cidx) = ok (cidx, next_cidx - cidx)

unfoldable pub cellidx_lookup : (cellidxes : List ℕ) (idx : ℕ) → Result (ℕ × ℕ)
cellidx_lookup cellidxes idx = cidx_pair (get_elem? cellidxes idx) (get_elem? cellidxes (idx + 1))

-- The walk of `localchunk_cellidx`, with the chunks from the current one on. The assertions divide by
-- `n`, and say that neither the product nor the sum wraps.
unfoldable pub walk_chunks :
    (chunks : List Localchunk) (localidx cellidx : ℕ) → Result (ℕ × List Localchunk)
walk_chunks [] zero cellidx = ok (cellidx, [])
walk_chunks [] (suc localidx) cellidx = fault
walk_chunks (chunk ∷ chunks) localidx cellidx = do
  let n = min chunk.n localidx
  let cellidx' = cellidx + n * chunk_cellsize chunk
  let further = walk_chunks chunks (localidx - n) cellidx'
  if localidx == 0
      then ok (cellidx, chunk ∷ chunks)
      else if n == 0
      then fault
      else if ltb (2 ^ 32 - 1) (cellidx + n * chunk_cellsize chunk)
      then fault
      else if n == chunk.n
      then further
      else ok (cellidx', chunk ∷ chunks)

unfoldable pub localchunk_cellidx : List Localchunk → (localidx : ℕ) → Result (ℕ × ℕ)
localchunk_cellidx chunks localidx = do
  (cellidx, current) ← walk_chunks chunks localidx 0
  elim current [ [] ↦ fault | chunk ∷ _ ↦ ok (cellidx, chunk_cellsize chunk) ]

unfoldable pub localtype_cellidx : Localtype → (idx : ℕ) → Result (ℕ × ℕ)
localtype_cellidx lt idx = do
  assert (ltb idx lt.nlocals)
  elim lt.cellidx [
    | none ↦ localchunk_cellidx lt.localchunks idx
    | some cellidxes ↦ cellidx_lookup cellidxes idx
  ]

unfoldable pub localtype_cellsize : Localtype → Result ℕ
localtype_cellsize lt = elim lt.cellidx [
  | none ↦ do (cellidx, _) ← walk_chunks lt.localchunks lt.nlocals 0; ok cellidx
  | some cellidxes ↦ read_elem (get_elem? cellidxes lt.nlocals)
]

abbrev pub parameter_at : Option Valtype → (cidx : ℕ) → Result (ℕ × ℕ)
parameter_at none cidx = fault
parameter_at (some t) cidx = ok (cidx, valtype_cellsize t)

-- The index and the size of a parameter, without the index of cells. The sum of the sizes before it fits
-- in 32 bits if every partial sum does.
unfoldable pub parameter_cellidx : Resulttype → (idx : ℕ) → Result (ℕ × ℕ)
parameter_cellidx rt idx = do
  assert (leb (resulttype_cellidx rt idx) (2 ^ 32 - 1))
  parameter_at (get_elem? rt idx) (resulttype_cellidx rt idx)

abbrev pub offset_by : ℕ → Result (ℕ × ℕ) → Result (ℕ × ℕ)
offset_by base r = do (cidx, csz) ← r; ok (base + cidx, csz)

unfoldable pub frame_locals_cellidx_slow : Resulttype → Localtype → (localidx : ℕ) → Result (ℕ × ℕ)
frame_locals_cellidx_slow paramtype localtype localidx =
    let nparams = length paramtype in
    if ltb localidx nparams
    then parameter_cellidx paramtype localidx
    else assert (leb (resulttype_cellsize paramtype) (2 ^ 32 - 1))
      >> offset_by (resulttype_cellsize paramtype)
          (localtype_cellidx localtype (localidx - nparams))

unfoldable pub frame_locals_cellidx_fast :
    (paramtype_cellidxes localtype_cellidxes : List ℕ) (nparams paramcsz localidx : ℕ)
    → Result (ℕ × ℕ)
frame_locals_cellidx_fast paramtype_cellidxes localtype_cellidxes nparams paramcsz localidx =
    if ltb localidx nparams
    then cellidx_lookup paramtype_cellidxes localidx
    else offset_by paramcsz (cellidx_lookup localtype_cellidxes (localidx - nparams))
