-- ===== src/Modules/Entries.antt =====
-- Imports and exports: their readers in lib/module.c and their writers in lib/module_writer.c. Reading
-- one changes the counts of the imports or the set of the functions that may be referred to.
use toywasm.Base.{ℕ, ◌+◌, true, List, length, ltb, ◌==◌, if◌then◌else◌}
use toywasm.Base.{u32, Result, ok, err, einval, ◌>>=◌, ◌>>◌, check}
use toywasm.Leb.{read_u8, read_leb_u32, write_leb_u32}
use toywasm.Bitmap.{bitmap_set}
use toywasm.Names.{read_name, write_name}
use toywasm.Modules.{
  Module, LoadContext, Importdesc, import_func, import_table, import_memory, import_global, Import,
  Externtype, extern_func, extern_table, extern_memory, extern_global, Exportdesc, WasmExport,
}
use toywasm.Modules.Types.{
  read_tabletype, write_tabletype, read_memtype, write_memtype, read_globaltype, write_globaltype,
  write_u8,
}

abbrev pub externtype_of_byte : (byte : ℕ) → Result Externtype
externtype_of_byte byte =
    if byte == 0x00
    then ok extern_func
    else if byte == 0x01
    then ok extern_table
    else if byte == 0x02
    then ok extern_memory
    else if byte == 0x03
    then ok extern_global
    else err einval

module _ {E : Type 0} where
  unfoldable pub read_importdesc :
      LoadContext E → List ℕ → Result (Importdesc × LoadContext E × List ℕ)
  unfolding read_u8
  read_importdesc ctx bytes = do
    (byte, p) ← read_u8 true bytes
    let m = ctx.m
    let func = do
      (typeidx, rest) ← read_leb_u32 p
      check (ltb typeidx (length m.types)) einval
      let m' = record m { nimportedfuncs = m.nimportedfuncs + 1 }
      ok (import_func typeidx, record ctx { m = m' }, rest)
    let table = do
      (tt, rest) ← read_tabletype p
      let m' = record m { nimportedtables = m.nimportedtables + 1 }
      ok (import_table tt, record ctx { m = m' }, rest)
    let memory = do
      (mt, rest) ← read_memtype p
      let m' = record m { nimportedmems = m.nimportedmems + 1 }
      ok (import_memory mt, record ctx { m = m' }, rest)
    let global = do
      (gt, rest) ← read_globaltype p
      let m' = record m { nimportedglobals = m.nimportedglobals + 1 }
      ok (import_global gt, record ctx { m = m' }, rest)
    if byte == 0x00
        then func
        else if byte == 0x01
        then table
        else if byte == 0x02
        then memory
        else if byte == 0x03
        then global
        else err einval

  unfoldable pub read_import :
      (idx : ℕ) → LoadContext E → List ℕ → Result (Import × LoadContext E × List ℕ)
  read_import idx ctx bytes = do
    (module_name, p) ← read_name bytes
    (name, p') ← read_name p
    (desc, ctx', rest) ← read_importdesc ctx p'
    ok (record { module_name = module_name; name = name; desc = desc }, ctx', rest)

  -- The functions, tables, memories or globals that the module has so far, the imported ones included.
  abbrev pub extern_count : Module E → Externtype → ℕ
  extern_count m extern_func = u32 (m.nimportedfuncs + length m.functypeidxes)
  extern_count m extern_table = u32 (m.nimportedtables + length m.tables)
  extern_count m extern_memory = u32 (m.nimportedmems + length m.mems)
  extern_count m extern_global = u32 (m.nimportedglobals + length m.globals)

  -- `bitmap_set(&ctx->refs, idx)` for a function.
  abbrev pub set_ref : LoadContext E → Externtype → (idx : ℕ) → Result (LoadContext E)
  set_ref ctx extern_func idx = do refs ← bitmap_set ctx.refs idx; ok (record ctx { refs = refs })
  set_ref ctx _ idx = ok ctx

  unfoldable pub read_exportdesc :
      LoadContext E → List ℕ → Result (Exportdesc × LoadContext E × List ℕ)
  unfolding read_u8
  read_exportdesc ctx bytes = do
    (byte, p) ← read_u8 true bytes
    type ← externtype_of_byte byte
    (idx, rest) ← read_leb_u32 p
    check (ltb idx (extern_count ctx.m type)) einval
    ctx' ← set_ref ctx type idx
    ok (record { type = type; idx = idx }, ctx', rest)

  unfoldable pub read_export :
      (idx : ℕ) → LoadContext E → List ℕ → Result (WasmExport × LoadContext E × List ℕ)
  read_export idx ctx bytes = do
    (name, p) ← read_name bytes
    (desc, ctx', rest) ← read_exportdesc ctx p
    ok (record { name = name; desc = desc }, ctx', rest)

unfoldable pub write_importdesc : Importdesc → (out : List ℕ) → Result (List ℕ)
write_importdesc (import_func typeidx) out = ok (write_leb_u32 typeidx (write_u8 0x00 out))
write_importdesc (import_table tt) out = write_tabletype tt (write_u8 0x01 out)
write_importdesc (import_memory mt) out = write_memtype mt (write_u8 0x02 out)
write_importdesc (import_global gt) out = write_globaltype gt (write_u8 0x03 out)

unfoldable pub write_import : Import → (out : List ℕ) → Result (List ℕ)
write_import im out = do
  out' ← write_name im.module_name out
  out'' ← write_name im.name out'
  write_importdesc im.desc out''

-- The values of `enum externtype`.
abbrev pub externtype_byte : Externtype → ℕ
externtype_byte extern_func = 0x00
externtype_byte extern_table = 0x01
externtype_byte extern_memory = 0x02
externtype_byte extern_global = 0x03

unfoldable pub write_exportdesc : Exportdesc → (out : List ℕ) → Result (List ℕ)
write_exportdesc desc out = ok (write_leb_u32 desc.idx (write_u8 (externtype_byte desc.type) out))

unfoldable pub write_export : WasmExport → (out : List ℕ) → Result (List ℕ)
write_export ex out = do out' ← write_name ex.name out; write_exportdesc ex.desc out'
