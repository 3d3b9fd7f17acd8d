-- ===== src/Modules/TypesBack.antt =====
-- The types in a module: the readers of lib/module.c against the writers of lib/module_writer.c.
use toywasm.Base.{ℕ, ◌-◌, ◌^◌, ◌≤◌, ◌≡◌, inl, inr, refl, sym, ap, ◌∙◌, arith, Bool, true, false}
use toywasm.Base.{List, [], ◌∷◌, ◌++◌, length, All, ◌==◌, if◌then◌else◌, u8}
use toywasm.Base.{ok, IsU32, append_assoc, Bool-cases}
use toywasm.Types.{
  Valtype, valtype_code, valtype_of_code, is_valtype, is_reftype, Resulttype, Functype, i32, i64,
  f32, f64, v128, exnref, funcref, externref, anyref, unknown,
}
use toywasm.Insn.{Globaltype}
use toywasm.Leb.{read_u8, write_leb_u32}
use toywasm.Leb.Write.{write_leb_u32-append, read_leb_u32_written}
use toywasm.Decode.Vectors.{IsReadBack, read_vec-write_vec}
use toywasm.Modules.{Limits, Memtype, Tabletype}
use toywasm.Modules.Types.{
  read_valtype, write_valtype, read_resulttype, write_resulttype, read_functype, write_functype,
  read_max, read_limits, write_limits, read_memtype, write_memtype, read_tabletype, write_tabletype,
  read_globaltype, write_globaltype,
}

abbrev pub IsValtype : Valtype → Type 0
IsValtype vt = is_valtype vt ≡ true

valtype_byte :
    (vt : Valtype)
    → IsValtype vt
    → (u8 (valtype_code vt) ≡ valtype_code vt) × (valtype_of_code (valtype_code vt) ≡ vt)
unfolding valtype_of_code
valtype_byte i32 h = (refl, refl)
valtype_byte i64 h = (refl, refl)
valtype_byte f32 h = (refl, refl)
valtype_byte f64 h = (refl, refl)
valtype_byte v128 h = (refl, refl)
valtype_byte exnref h = (refl, refl)
valtype_byte funcref h = (refl, refl)
valtype_byte externref h = (refl, refl)
valtype_byte anyref h = (refl, refl)
valtype_byte unknown h = (refl, refl)

pub read_valtype-write_valtype :
    (vt : Valtype) → IsValtype vt → IsReadBack read_valtype write_valtype vt
unfolding read_valtype write_valtype read_u8
read_valtype-write_valtype vt h =
    let (byte, back) = valtype_byte vt h in
    (u8 (valtype_code vt) ∷ [], λ out. rw h refl, λ rest. rw (byte, back, h) refl)

abbrev pub IsResulttype : Resulttype → Type 0
IsResulttype rt = All IsValtype rt × IsU32 (length rt)

All-IsReadBack :
    (rt : Resulttype) → All IsValtype rt → All (IsReadBack read_valtype write_valtype) rt
All-IsReadBack [] h = tt
All-IsReadBack (vt ∷ rt) (hv, h) = (read_valtype-write_valtype vt hv, All-IsReadBack rt h)

pub read_resulttype-write_resulttype :
    (rt : Resulttype) → IsResulttype rt → IsReadBack read_resulttype write_resulttype rt
unfolding read_resulttype write_resulttype
read_resulttype-write_resulttype rt (h, few) =
    read_vec-write_vec read_valtype write_valtype rt (All-IsReadBack rt h) few

abbrev pub IsFunctype : Functype → Type 0
IsFunctype ft = IsResulttype ft.parameter × IsResulttype ft.result

-- A function type of value types, fewer than 2^32 of each kind, is read back from what write_functype
-- writes behind anything, and the reader stops where the writer stopped.
pub read_functype-write_functype :
    (ft : Functype) → IsFunctype ft → IsReadBack read_functype write_functype ft
unfolding read_functype write_functype read_u8
read_functype-write_functype ft (hp, hr) =
    let (front, wrote, back) = read_resulttype-write_resulttype ft.parameter hp in
    let (more, wrote_more, back_more) = read_resulttype-write_resulttype ft.result hr in
    (
      0x60 ∷ (front ++ more),
      λ out.
          rw (wrote (out ++ 0x60 ∷ []), wrote_more (out ++ 0x60 ∷ [] ++ front))
            (ap ok (
              append_assoc (out ++ 0x60 ∷ []) front more
              ∙ append_assoc out (0x60 ∷ []) (front ++ more))),
      λ rest. rw (append_assoc front more rest, back (more ++ rest), back_more rest) refl,
    )

-- Limits within what the type allows.
abbrev pub IsLimits : (typemax : ℕ) → Limits → Type 0
IsLimits typemax lim = (lim.min ≤ lim.max) × (lim.max ≤ typemax)

-- What write_limits writes where there are no flags.
limits_bytes : Limits → List ℕ
limits_bytes lim =
    if lim.max == 2 ^ 32 - 1
    then 0x00 ∷ write_leb_u32 lim.min []
    else 0x01 ∷ (write_leb_u32 lim.min [] ++ write_leb_u32 lim.max [])

write_limits-limits_bytes :
    (lim : Limits) (shift : ℕ) (out : List ℕ)
    → write_limits lim 0 shift out ≡ out ++ limits_bytes lim
unfolding write_limits limits_bytes
write_limits-limits_bytes lim shift out = elim (Bool-cases (lim.max == 2 ^ 32 - 1)) [
  | inl no_max ↦
      rw no_max (write_leb_u32-append lim.min (out ++ 0x00 ∷ []) ∙ append_assoc out (0x00 ∷ []) _)
  | inr has_max ↦ rw has_max (
      write_leb_u32-append lim.max (write_leb_u32 lim.min (out ++ 0x01 ∷ []))
      ∙ ap (λ o. o ++ write_leb_u32 lim.max []) (write_leb_u32-append lim.min (out ++ 0x01 ∷ []))
      ∙ append_assoc (out ++ 0x01 ∷ []) _ _
      ∙ append_assoc out (0x01 ∷ []) _)
]

read_limits-limits_bytes_table :
    (lim : Limits) (rest : List ℕ)
    → IsLimits (2 ^ 32 - 1) lim
    → read_limits 0 (2 ^ 32 - 1) (limits_bytes lim ++ rest) ≡ ok (lim, rest)
unfolding read_limits limits_bytes read_u8 read_max
read_limits-limits_bytes_table lim rest (ordered, fits) =
    elim (Bool-cases (lim.max == 2 ^ 32 - 1)) [
      | inl no_max ↦ rw (no_max, read_leb_u32_written lim.min rest (omega arith)) (ground arith)
      | inr has_max ↦
          rw
            (
              has_max,
              append_assoc (write_leb_u32 lim.min []) (write_leb_u32 lim.max []) rest,
              read_leb_u32_written lim.min (write_leb_u32 lim.max [] ++ rest) (omega arith),
              read_leb_u32_written lim.max rest (omega arith),
            )
            (ground arith)
    ]

read_limits-limits_bytes_memory :
    (lim : Limits) (rest : List ℕ)
    → IsLimits 65536 lim
    → read_limits 16 0x100000000 (limits_bytes lim ++ rest) ≡ ok (lim, rest)
unfolding read_limits limits_bytes read_u8 read_max
read_limits-limits_bytes_memory lim rest (ordered, fits) =
    let has_max : (lim.max == 2 ^ 32 - 1) ≡ false = ground arith in
    rw
      (
        has_max,
        append_assoc (write_leb_u32 lim.min []) (write_leb_u32 lim.max []) rest,
        read_leb_u32_written lim.min (write_leb_u32 lim.max [] ++ rest) (omega arith),
        read_leb_u32_written lim.max rest (omega arith),
      )
      (ground arith)

-- A memory of 64 KiB pages, with no flags.
abbrev pub IsMemtype : Memtype → Type 0
IsMemtype mt = IsLimits 65536 mt.lim × (mt.flags ≡ 0)

pub read_memtype-write_memtype :
    (mt : Memtype) → IsMemtype mt → IsReadBack read_memtype write_memtype mt
unfolding read_memtype write_memtype
read_memtype-write_memtype mt (h, flags) = (
  limits_bytes mt.lim,
  λ out. ap ok (
      ap (λ flags. write_limits mt.lim flags 0 out) flags ∙ write_limits-limits_bytes mt.lim 0 out),
  λ rest.
      let back = read_limits-limits_bytes_memory mt.lim rest h in
      rw back (ap (λ flags. ok (record mt { flags = flags }, rest)) (sym flags)),
)

abbrev pub IsTabletype : Tabletype → Type 0
IsTabletype tt = (is_reftype tt.et ≡ true) × IsLimits (2 ^ 32 - 1) tt.lim

-- A table type of a reference type, whose minimum is not above its maximum and whose maximum fits in 32
-- bits, is read back from what write_tabletype writes behind anything, and the reader stops where the
-- writer stopped; this includes the maximum 2^32 - 1, which is not written.
pub read_tabletype-write_tabletype :
    (tt : Tabletype) → IsTabletype tt → IsReadBack read_tabletype write_tabletype tt
unfolding read_tabletype write_tabletype
read_tabletype-write_tabletype tt (reftype, h) =
    let valtype : IsValtype tt.et = ground (arith, reftype) in
    let (front, wrote, back) = read_valtype-write_valtype tt.et valtype in
    (
      front ++ limits_bytes tt.lim,
      λ out.
          rw (wrote out, write_limits-limits_bytes tt.lim 0 (out ++ front))
            (ap ok (append_assoc out front (limits_bytes tt.lim))),
      λ rest.
          rw
            (
              append_assoc front (limits_bytes tt.lim) rest,
              back (limits_bytes tt.lim ++ rest),
              reftype,
              read_limits-limits_bytes_table tt.lim rest h,
            )
            refl,
    )

mut_byte : (const : Bool) → u8 (if const then 0x00 else 0x01) ≡ (if const then 0x00 else 0x01)
mut_byte true = refl
mut_byte false = refl

pub read_globaltype-write_globaltype :
    (gt : Globaltype) → IsValtype gt.t → IsReadBack read_globaltype write_globaltype gt
unfolding read_globaltype write_globaltype read_u8
read_globaltype-write_globaltype gt h =
    let (front, wrote, back) = read_valtype-write_valtype gt.t h in
    (
      front ++ (if gt.const then 0x00 else 0x01) ∷ [],
      λ out. rw (wrote out, mut_byte gt.const) (ap ok (append_assoc out front _)),
      λ rest. elim (Bool-cases gt.const) [
        | inl const ↦ rw (const, append_assoc front (0x00 ∷ []) rest, back (0x00 ∷ rest)) cc
        | inr mut ↦ rw (mut, append_assoc front (0x01 ∷ []) rest, back (0x01 ∷ rest)) cc
      ],
    )
