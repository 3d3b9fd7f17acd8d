-- ===== src/Locals/Index.antt =====
-- The index of cells against the walk over the chunks.
use toywasm.Base.{
  ℕ, zero, suc, ◌+◌, ◌-◌, ◌*◌, ◌^◌, ◌≤◌, ◌<◌, ◌≡◌, refl, sym, ap, ◌∙◌, subst, arith, true, false,
}
use toywasm.Base.{List, [], ◌∷◌, ◌++◌, length, get_elem?, ltb, Option, none, some}
use toywasm.Base.{lt_or_le, Result, ok, fault, ◌>>=◌, All, inl, inr, min}
use toywasm.Base.{leb}
use toywasm.Types.{valtype_cellsize}
use toywasm.Locals.{Localchunk, chunk_cellsize, index_chunks, populate_localtype_cellidx}
use toywasm.Locals.{
  cellidx_lookup, walk_chunks, localchunk_cellidx, index_types, parameter_cellidx, offset_by,
}
use toywasm.Locals.{
  frame_locals_cellidx_fast, frame_locals_cellidx_slow, populate_resulttype_cellidx,
  localtype_cellidx,
}
use toywasm.Types.{Resulttype, resulttype_cellsize, resulttype_cellidx}
use toywasm.Types.{Valtype}
use toywasm.Locals.{parameter_at}
use native.Mathlib.Nat.{mul-le-mul_right}
use toywasm.Locals.Runs.{Option-map-some, index_run-IsRun}

abbrev pub nlocals_of : List Localchunk → ℕ
nlocals_of [] = 0
nlocals_of (chunk ∷ chunks) = chunk.n + nlocals_of chunks

-- `idx` is an index of one of the locals in chunks that each have one.
abbrev pub IsUsed : Localchunk → Type 0
IsUsed chunk = 1 ≤ chunk.n

abbrev lookup_end : ℕ × List Localchunk → Result (ℕ × ℕ)
lookup_end (cellidx, []) = fault
lookup_end (cellidx, chunk ∷ _) = ok (cellidx, chunk_cellsize chunk)

cellidx_lookup-ok :
    (cellidxes : List ℕ) (idx a b : ℕ)
    → get_elem? cellidxes idx ≡ some a
    → get_elem? cellidxes (idx + 1) ≡ some b
    → cellidx_lookup cellidxes idx ≡ ok (a, b - a)
unfolding cellidx_lookup
cellidx_lookup-ok cellidxes idx a b e f = rw (e, f) refl

cellidx_lookup_shift :
    (xs ys : List ℕ) (n idx : ℕ)
    → ((j : ℕ) → get_elem? xs (n + j) ≡ get_elem? ys j)
    → n ≤ idx
    → cellidx_lookup xs idx ≡ cellidx_lookup ys (idx - n)
unfolding cellidx_lookup
cellidx_lookup_shift xs ys n idx behind le =
    let a : n + (idx - n) ≡ idx = omega arith in
    let b : n + (idx - n + 1) ≡ idx + 1 = omega arith in
    rw (sym (behind (idx - n)), sym (behind (idx - n + 1)), a, b) refl

walk_inside :
    (chunk : Localchunk) (chunks : List Localchunk) (idx off : ℕ)
    → idx < chunk.n
    → off + idx * chunk_cellsize chunk ≤ 2 ^ 32 - 1
    → (walk_chunks (chunk ∷ chunks) idx off >>= lookup_end)
      ≡ ok (off + idx * chunk_cellsize chunk, chunk_cellsize chunk)
unfolding walk_chunks
walk_inside chunk chunks idx off lt le =
    let m : min chunk.n idx ≡ idx = omega arith in rw m (ground (arith, lt, le))

walk_past :
    (chunk : Localchunk) (chunks : List Localchunk) (idx off : ℕ)
    → 1 ≤ chunk.n
    → chunk.n ≤ idx
    → off + chunk.n * chunk_cellsize chunk ≤ 2 ^ 16 - 1
    → walk_chunks (chunk ∷ chunks) idx off
      ≡ walk_chunks chunks (idx - chunk.n) (off + chunk.n * chunk_cellsize chunk)
unfolding walk_chunks
walk_past chunk chunks idx off pos past le =
    let m : min chunk.n idx ≡ chunk.n = omega arith in rw m (ground (arith, pos, past, le))

-- Both lookups find the same local.
abbrev pub IsBoth : (fast slow : Result (ℕ × ℕ)) → Type 0
IsBoth fast slow = (found : ℕ × ℕ) × (fast ≡ ok found) × (slow ≡ ok found)

-- From a chunk on, where the offset is `off`.
cellidx_lookup-walk_chunks :
    (used behind : List Localchunk) (off idx : ℕ) (is : List ℕ)
    → All IsUsed used
    → off ≤ 2 ^ 16 - 1
    → index_chunks off (used ++ behind) ≡ some is
    → idx < nlocals_of used
    → IsBoth (cellidx_lookup (off ∷ is) idx) (walk_chunks (used ++ behind) idx off >>= lookup_end)
unfolding index_chunks
cellidx_lookup-walk_chunks [] behind off idx is h small e lt = absurd (omega arith)
cellidx_lookup-walk_chunks (chunk ∷ used) behind off idx is (hc, h) small e lt =
    let csz = chunk_cellsize chunk in
    let run =
      index_run-IsRun chunk.n csz off (λ off'. index_chunks off' (used ++ behind)) is small e in
    elim (lt_or_le idx chunk.n) [
      | inl inside ↦
          let bound : idx * csz ≤ chunk.n * csz = mul-le-mul_right csz (omega arith) in
          let size : off + (idx + 1) * csz - (off + idx * csz) ≡ csz = omega arith in
          (
            (off + idx * csz, csz),
            cellidx_lookup-ok (off ∷ is) idx (off + idx * csz) (off + (idx + 1) * csz)
                  (run.at_chunk idx (omega arith)) (run.at_chunk (idx + 1) (omega arith))
                ∙ ap (λ sz. ok (off + idx * csz, sz)) size,
            walk_inside chunk (used ++ behind) idx off inside (omega (arith, bound, run.fits)),
          )
      | inr past ↦
          let (found, fast, slow) =
            cellidx_lookup-walk_chunks used behind (off + chunk.n * csz) (idx - chunk.n) run.later h
              run.fits run.rest_later (omega arith) in
          (
            found,
            cellidx_lookup_shift (off ∷ is) ((off + chunk.n * csz) ∷ run.later) chunk.n idx
                  run.behind past
                ∙ fast,
            ap (λ r. r >>= lookup_end) (walk_past chunk (used ++ behind) idx off hc past run.fits)
                ∙ slow,
          )
    ]

parameter_at_shift :
    (o : Option Valtype) (k cidx a csz : ℕ)
    → parameter_at o cidx ≡ ok (a, csz)
    → parameter_at o (k + cidx) ≡ ok (k + a, csz)
parameter_at_shift none k cidx a csz e = absurd (cc)
parameter_at_shift (some t) k cidx a csz e = ap (offset_by k) e

abbrev IsParameter : (types : Resulttype) (off idx : ℕ) (is : List ℕ) → Type 0
IsParameter types off idx is =
    (cidx : ℕ) × (csz : ℕ) × (cellidx_lookup (off ∷ is) idx ≡ ok (off + cidx, csz))
    × (parameter_at (get_elem? types idx) (resulttype_cellidx types idx) ≡ ok (cidx, csz))
    × (off + cidx < 2 ^ 16)
    × (resulttype_cellidx types idx ≡ cidx)

cellidx_lookup-IsParameter :
    (types : Resulttype) (off idx : ℕ) (is : List ℕ)
    → index_types off types ≡ some is
    → off < 2 ^ 16
    → idx < length types
    → IsParameter types off idx is
unfolding index_types cellidx_lookup
cellidx_lookup-IsParameter [] off idx is e low lt = absurd (omega arith)
cellidx_lookup-IsParameter (t ∷ types) off idx is e low lt =
    elim (lt_or_le (2 ^ 16 - 1 - off) (valtype_cellsize t)) [
      | inl over ↦ ground (arith, over)
      | inr room ↦
          let off' = off + valtype_cellsize t in
          let (js, more, split) =
            Option-map-some off' (index_types off' types) is (ground (arith, room)) in
          subst (IsParameter (t ∷ types) off idx) (sym split) (
            at js idx lt (λ idx lt.
              cellidx_lookup-IsParameter types off' idx js more (omega (arith, room, low)) lt))
    ]
  where
    at :
        (js : List ℕ) (idx : ℕ)
        → idx < length (t ∷ types)
        → ((idx : ℕ) → idx < length types → IsParameter types (off + valtype_cellsize t) idx js)
        → IsParameter (t ∷ types) off idx ((off + valtype_cellsize t) ∷ js)
    at js zero lt ih =
        let z : off + 0 ≡ off = omega arith in
        let s : off + valtype_cellsize t - off ≡ valtype_cellsize t = omega arith in
        (0, valtype_cellsize t, rw (z, s) refl, refl, omega (arith, low), refl)
    at js (suc idx) lt ih =
        let (cidx, csz, fast, slow, small, same) = ih idx (omega arith) in
        let s : suc idx + 1 ≡ suc (idx + 1) = omega arith in
        let o : off + (valtype_cellsize t + cidx) ≡ off + valtype_cellsize t + cidx = omega arith in
        (
          valtype_cellsize t + cidx,
          csz,
          rw (s, o) fast,
          parameter_at_shift (get_elem? types idx) (valtype_cellsize t)
              (resulttype_cellidx types idx) cidx csz slow,
          omega (arith, small),
          ap (λ n. valtype_cellsize t + n) same,
        )

index_types-total :
    (types : Resulttype) (off : ℕ) (is : List ℕ)
    → index_types off types ≡ some is
    → off < 2 ^ 16
    → off + resulttype_cellsize types < 2 ^ 16
unfolding index_types
index_types-total [] off is e low = omega (arith, low)
index_types-total (t ∷ types) off is e low =
    elim (lt_or_le (2 ^ 16 - 1 - off) (valtype_cellsize t)) [
      | inl over ↦ ground (arith, over)
      | inr room ↦
          let off' = off + valtype_cellsize t in
          let (js, more, split) =
            Option-map-some off' (index_types off' types) is (ground (arith, room)) in
          omega (arith, index_types-total types off' js more (omega (arith, room, low)))
    ]

-- The index of the loader and the walk agree on every local of a function: the fast and the slow lookup
-- give the same index and size for each parameter and each local, when the indices fit in 16 bits,
-- every chunk before those that are not counted has a local. Neither faults.
pub frame_locals_cellidx_fast_eq_slow :
    (types : Resulttype) (used behind : List Localchunk) (ps ls : List ℕ) (localidx : ℕ)
    → All IsUsed used
    → populate_resulttype_cellidx types ≡ some ps
    → populate_localtype_cellidx (used ++ behind) ≡ some ls
    → localidx < length types + nlocals_of used
    → IsBoth (frame_locals_cellidx_fast ps ls (length types) (resulttype_cellsize types) localidx) (
        frame_locals_cellidx_slow types
          (record { localchunks = used ++ behind; nlocals = nlocals_of used; cellidx = none })
          localidx)
unfolding frame_locals_cellidx_fast frame_locals_cellidx_slow parameter_cellidx
    populate_resulttype_cellidx populate_localtype_cellidx localtype_cellidx localchunk_cellidx
frame_locals_cellidx_fast_eq_slow types used behind ps ls localidx h ep el lt =
    let (is, more, split) = Option-map-some 0 (index_types 0 types) ps ep in
    let total : leb (resulttype_cellsize types) (2 ^ 32 - 1) ≡ true =
      ground (arith, index_types-total types 0 is more (omega arith)) in
    let (js, mores, splits) = Option-map-some 0 (index_chunks 0 (used ++ behind)) ls el in
    elim (lt_or_le localidx (length types)) [
      | inl low ↦
          let (cidx, csz, fast, slow, small, same) =
            cellidx_lookup-IsParameter types 0 localidx is more (omega arith) low in
          (
            (cidx, csz),
            rw (below low, split) (fast ∙ ap (λ c. ok (c, csz)) (zero_add cidx)),
            rw (below low, fits (resulttype_cellidx types localidx) cidx same small) slow,
          )
      | inr high ↦
          let i = localidx - length types in
          let ((cidx, csz), fast, slow) =
            cellidx_lookup-walk_chunks used behind 0 i js h (omega arith) mores (omega arith) in
          (
            (resulttype_cellsize types + cidx, csz),
            rw (above high, splits, fast) refl,
            rw (above high, total, counted high) (ap (offset_by (resulttype_cellsize types)) slow),
          )
    ]
  where
    below : localidx < length types → ltb localidx (length types) ≡ true
    below low = ground arith

    above : length types ≤ localidx → ltb localidx (length types) ≡ false
    above high = ground arith

    counted : length types ≤ localidx → ltb (localidx - length types) (nlocals_of used) ≡ true
    counted high = ground (arith, high)

    fits : (n cidx : ℕ) → n ≡ cidx → 0 + cidx < 2 ^ 16 → leb n (2 ^ 32 - 1) ≡ true
    fits n cidx e small = ground (arith, e, small)

    zero_add : (n : ℕ) → 0 + n ≡ n
    zero_add n = omega arith
