-- ===== src/Modules/EntriesBack.antt =====
-- Imports and exports: the readers of lib/module.c against the writers of lib/module_writer.c.
use toywasm.Base.{ℕ, ◌+◌, ◌%◌, ◌^◌, ◌<◌, ◌≡◌, refl, ap, ◌∙◌, arith, true}
use toywasm.Base.{List, [], ◌∷◌, ◌++◌, length, ltb, Result, ok, IsU32, append_assoc}
use toywasm.Types.{Functype}
use toywasm.Leb.{read_u8, write_leb_u32}
use toywasm.Leb.Write.{write_leb_u32-append, read_leb_u32_written}
use toywasm.Decode.Vectors.{Appends, IsReadBackIn}
use toywasm.Names.RoundTrip.{IsName, read_name-write_name}
use toywasm.Modules.{
  Module, LoadContext, Importdesc, import_func, import_table, import_memory, import_global, Import,
}
use toywasm.Modules.Types.{write_tabletype, write_memtype, write_globaltype, write_u8}
use toywasm.Modules.TypesBack.{
  IsTabletype, IsMemtype, IsValtype, read_tabletype-write_tabletype, read_memtype-write_memtype,
  read_globaltype-write_globaltype,
}
use toywasm.Modules.Entries.{read_importdesc, read_import, write_importdesc, write_import}

module _ {E : Type 0} where
  -- What an import does to the counts.
  abbrev pub count_import : Importdesc → Module E → Module E
  count_import (import_func typeidx) m = record m { nimportedfuncs = m.nimportedfuncs + 1 }
  count_import (import_table tt) m = record m { nimportedtables = m.nimportedtables + 1 }
  count_import (import_memory mt) m = record m { nimportedmems = m.nimportedmems + 1 }
  count_import (import_global gt) m = record m { nimportedglobals = m.nimportedglobals + 1 }

  abbrev pub count_in : Import → LoadContext E → LoadContext E
  count_in im ctx = record ctx { m = count_import im.desc ctx.m }

-- A description that a module with these types can have.
abbrev pub IsImportdesc : (types : List Functype) → Importdesc → Type 0
IsImportdesc types (import_func typeidx) = (typeidx < length types) × IsU32 typeidx
IsImportdesc types (import_table tt) = IsTabletype tt
IsImportdesc types (import_memory mt) = IsMemtype mt
IsImportdesc types (import_global gt) = IsValtype gt.t

abbrev pub IsImport : (types : List Functype) → Import → Type 0
IsImport types im = IsName im.module_name × IsName im.name × IsImportdesc types im.desc

-- A byte and what another writer appends.
behind_byte :
    {A : Type 0} (write : A → List ℕ → Result (List ℕ)) (a : A) (front : List ℕ) (byte : ℕ)
    → Appends write a front
    → byte < 256
    → (out : List ℕ) → write a (write_u8 byte out) ≡ ok (out ++ (byte ∷ front))
behind_byte write a front byte wrote small out =
    let same : byte % 2 ^ 8 ≡ byte = omega arith in
    rw (same, wrote (out ++ byte ∷ [])) (ap ok (append_assoc out (byte ∷ []) front))

module _ {E : Type 0} (types : List Functype) where
  abbrev pub HasTypes : LoadContext E → Type 0
  HasTypes ctx = ctx.m.types ≡ types

  read_importdesc-write_importdesc :
      (desc : Importdesc)
      → IsImportdesc types desc
      → (front : List ℕ) × Appends write_importdesc desc front
        × ((ctx : LoadContext E) (rest : List ℕ)
            → HasTypes ctx
            → read_importdesc ctx (front ++ rest)
              ≡ ok (desc, record ctx { m = count_import desc ctx.m }, rest))
  unfolding read_importdesc write_importdesc read_u8
  read_importdesc-write_importdesc (import_func typeidx) (known, small) = (
    0x00 ∷ write_leb_u32 typeidx [],
    λ out. ap ok (
        write_leb_u32-append typeidx (out ++ 0x00 ∷ [])
        ∙ append_assoc out (0x00 ∷ []) (write_leb_u32 typeidx [])),
    λ ctx rest e.
        let found : ltb typeidx (length ctx.m.types) ≡ true = rw e (ground arith) in
        rw (read_leb_u32_written typeidx rest small, found) refl,
  )
  read_importdesc-write_importdesc (import_table tt) h =
      let (front, wrote, back) = read_tabletype-write_tabletype tt h in
      (
        0x01 ∷ front,
        behind_byte write_tabletype tt front 0x01 wrote (omega arith),
        λ ctx rest e. rw (back rest) refl,
      )
  read_importdesc-write_importdesc (import_memory mt) h =
      let (front, wrote, back) = read_memtype-write_memtype mt h in
      (
        0x02 ∷ front,
        behind_byte write_memtype mt front 0x02 wrote (omega arith),
        λ ctx rest e. rw (back rest) refl,
      )
  read_importdesc-write_importdesc (import_global gt) h =
      let (front, wrote, back) = read_globaltype-write_globaltype gt h in
      (
        0x03 ∷ front,
        behind_byte write_globaltype gt front 0x03 wrote (omega arith),
        λ ctx rest e. rw (back rest) refl,
      )

  count_import-HasTypes :
      (desc : Importdesc) (ctx : LoadContext E)
      → HasTypes ctx
      → HasTypes (record ctx { m = count_import desc ctx.m })
  count_import-HasTypes (import_func typeidx) ctx h = h
  count_import-HasTypes (import_table tt) ctx h = h
  count_import-HasTypes (import_memory mt) ctx h = h
  count_import-HasTypes (import_global gt) ctx h = h

  pub read_import-IsReadBackIn :
      (im : Import) → IsImport types im → IsReadBackIn HasTypes count_in read_import write_import im
  unfolding read_import write_import
  read_import-IsReadBackIn im (module_name, name, desc) =
      let (f, wrote_f, back_f) = read_name-write_name im.module_name module_name in
      let (g, wrote_g, back_g) = read_name-write_name im.name name in
      let (h, wrote_h, back_h) = read_importdesc-write_importdesc im.desc desc in
      (
        f ++ (g ++ h),
        λ out.
            rw (wrote_f out, wrote_g (out ++ f), wrote_h (out ++ f ++ g))
              (ap ok (append_assoc (out ++ f) g h ∙ append_assoc out f (g ++ h))),
        λ idx ctx rest e.
            rw
              (
                append_assoc f (g ++ h) rest,
                append_assoc g h rest,
                back_f (g ++ (h ++ rest)),
                back_g (h ++ rest),
                back_h ctx rest e,
              )
              refl,
        λ ctx e. count_import-HasTypes im.desc ctx e,
      )
