-- ===== src/Modules/Sections.antt =====
-- The sections of a module: the functions read_*_section of lib/module.c. Each reads from the start of
-- the section and gives what is left of it.
use toywasm.Base.{ℕ, List, [], ◌∷◌, length, ltb, ◌==◌, if◌then◌else◌}
use toywasm.Base.{some, not, ◌||◌}
use toywasm.Base.{Result, ok, einval, ◌>>=◌, ◌>>◌, assert, check}
use toywasm.Types.{Valtype, Functype}
use toywasm.Leb.{read_leb_u32}
use toywasm.Bitmap.{bitmap_alloc}
use toywasm.Decode.{read_vec, read_vec_u32, read_vec_with_ctx}
use toywasm.Locals.{Localtype}
use toywasm.Names.{compare_name, read_name}
use toywasm.Modules.{LoadContext, extern_func}
use toywasm.Modules.Types.{read_functype, read_tabletype, read_memtype}
use toywasm.Modules.Entries.{read_import, read_export, extern_count}
use toywasm.Modules.Lookup.{is_same, module_functype}
use toywasm.Modules.Segments.{read_global, read_func, read_element, read_data}

-- A reader that does not change the context.
abbrev pub keep_ctx :
    {A S : Type 0} (read_elem : List ℕ → Result (A × List ℕ)) (idx : ℕ)
    → S
    → List ℕ
    → Result (A × S × List ℕ)
keep_ctx read_elem idx ctx bytes = do (elem, rest) ← read_elem bytes; ok (elem, ctx, rest)

-- `p != ep` after a section is an error.
unfoldable pub read_section :
    {S : Type 0} (read_fn : S → List ℕ → Result (S × List ℕ)) → S → List ℕ → Result S
read_section read_fn ctx bytes = do
  (ctx', rest) ← read_fn ctx bytes
  check (length rest == 0) einval
  ok ctx'

-- "name"
abbrev pub name_section_name : List ℕ
name_section_name = b'n' ∷ b'a' ∷ b'm' ∷ b'e' ∷ []

-- Every function type is there.
abbrev pub check_typeidxs : (ntypes : ℕ) → List ℕ → Result (Unit {0})
check_typeidxs ntypes [] = ok tt
check_typeidxs ntypes (idx ∷ idxs) = do check (ltb idx ntypes) einval; check_typeidxs ntypes idxs

module _ {E : Type 0} where
  unfoldable pub read_type_section : LoadContext E → List ℕ → Result (LoadContext E × List ℕ)
  read_type_section ctx bytes = do
    let m = ctx.m
    (types, ctx', rest) ← read_vec_with_ctx (keep_ctx read_functype) m.types ctx bytes
    ok (record ctx { m = record m { types = types } }, rest)

  -- The references get room for the imported functions.
  unfoldable pub read_import_section : LoadContext E → List ℕ → Result (LoadContext E × List ℕ)
  read_import_section ctx bytes = do
    (imports, ctx', rest) ← read_vec_with_ctx read_import ctx.m.imports ctx bytes
    let m = record ctx'.m { imports = imports }
    let n = m.nimportedfuncs
    ok (
      (if ltb 0 n
          then record ctx' { m = m; refs = bitmap_alloc n; refs_size = n }
          else record ctx' { m = m }),
      rest,
    )

  -- The references get room for all functions.
  unfoldable pub read_function_section : LoadContext E → List ℕ → Result (LoadContext E × List ℕ)
  read_function_section ctx bytes = do
    (functypeidxes, rest) ← read_vec_u32 bytes
    let m = record ctx.m { functypeidxes = functypeidxes }
    let n = extern_count m extern_func
    check_typeidxs (length m.types) functypeidxes
    assert (m.nimportedfuncs == ctx.refs_size)
    ok (
      (if ltb 0 (length functypeidxes)
          then record ctx { m = m; refs = bitmap_alloc n; refs_size = n }
          else record ctx { m = m }),
      rest,
    )

  unfoldable pub read_table_section : LoadContext E → List ℕ → Result (LoadContext E × List ℕ)
  read_table_section ctx bytes = do
    (tables, rest) ← read_vec read_tabletype bytes
    ok (record ctx { m = record ctx.m { tables = tables } }, rest)

  unfoldable pub read_memory_section : LoadContext E → List ℕ → Result (LoadContext E × List ℕ)
  read_memory_section ctx bytes = do
    (mems, ctx', rest) ← read_vec_with_ctx (keep_ctx read_memtype) ctx.m.mems ctx bytes
    ok (record ctx { m = record ctx.m { mems = mems } }, rest)

  unfoldable pub read_export_section : LoadContext E → List ℕ → Result (LoadContext E × List ℕ)
  read_export_section ctx bytes = do
    (exports, ctx', rest) ← read_vec_with_ctx read_export ctx.m.exports ctx bytes
    ok (record ctx' { m = record ctx'.m { exports = exports } }, rest)

  unfoldable pub read_start_section : LoadContext E → List ℕ → Result (LoadContext E × List ℕ)
  read_start_section ctx bytes = do
    (start, rest) ← read_leb_u32 bytes
    let m = record ctx.m { start = some start }
    check (ltb start (extern_count m extern_func)) einval
    ft ← module_functype m start
    check (not (ltb 0 (length ft.parameter) || ltb 0 (length ft.result))) einval
    ok (record ctx { m = m }, rest)

  -- The section ends where its data does, whatever is left behind the count.
  unfoldable pub read_datacount_section : LoadContext E → List ℕ → Result (LoadContext E × List ℕ)
  read_datacount_section ctx bytes = do
    (count, p) ← read_leb_u32 bytes
    ok (record ctx { datacount = some count }, [])

  -- The bytes of the name section are kept, and not read.
  unfoldable pub read_name_section : LoadContext E → List ℕ → Result (LoadContext E × List ℕ)
  read_name_section ctx bytes =
      ok (record ctx { m = record ctx.m { name_section = some bytes } }, [])

  unfoldable pub read_custom_section : LoadContext E → List ℕ → Result (LoadContext E × List ℕ)
  unfolding read_section read_name_section
  read_custom_section ctx bytes = do
    (name, p) ← read_name bytes
    let known = do ctx' ← read_section read_name_section ctx p; ok (ctx', [])
    if is_same (compare_name name name_section_name) then known else ok (ctx, [])

module _ {E : Type 0}
    (read_const_expr : Valtype → LoadContext E → List ℕ → Result (E × LoadContext E × List ℕ))
    (read_expr : Localtype
      → Functype
      → LoadContext E
      → List ℕ
      → Result (E × LoadContext E × List ℕ)) where
  unfoldable pub read_global_section : LoadContext E → List ℕ → Result (LoadContext E × List ℕ)
  read_global_section ctx bytes = do
    (globals, ctx', rest) ←
        read_vec_with_ctx (read_global read_const_expr read_expr) ctx.m.globals ctx bytes
    ok (record ctx' { m = record ctx'.m { globals = globals } }, rest)

  unfoldable pub read_element_section : LoadContext E → List ℕ → Result (LoadContext E × List ℕ)
  read_element_section ctx bytes = do
    (elems, ctx', rest) ←
        read_vec_with_ctx (read_element read_const_expr read_expr) ctx.m.elems ctx bytes
    ok (record ctx' { m = record ctx'.m { elems = elems } }, rest)

  unfoldable pub read_code_section : LoadContext E → List ℕ → Result (LoadContext E × List ℕ)
  read_code_section ctx bytes = do
    assert (length ctx.m.funcs == 0)
    (functions, ctx', rest) ← read_vec_with_ctx (read_func read_const_expr read_expr) [] ctx bytes
    check (length functions == length ctx'.m.functypeidxes) einval
    ok (record ctx' { m = record ctx'.m { funcs = functions } }, rest)

  unfoldable pub read_data_section : LoadContext E → List ℕ → Result (LoadContext E × List ℕ)
  read_data_section ctx bytes = do
    (datas, ctx', rest) ←
        read_vec_with_ctx (read_data read_const_expr read_expr) ctx.m.datas ctx bytes
    ok (record ctx' { m = record ctx'.m { datas = datas } }, rest)
