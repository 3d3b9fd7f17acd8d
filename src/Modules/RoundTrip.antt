-- ===== src/Modules/RoundTrip.antt =====
-- Modules of types, imports, tables and memories alone: what module_write1 of lib/module_writer.c writes
-- for them, read by module_load_into of lib/module.c.
use toywasm.Base.{ℕ, ◌+◌, false}
use toywasm.Base.{List, [], ◌∷◌, ltb, if◌then◌else◌}
use toywasm.Types.{Functype}
use toywasm.Bitmap.{bitmap_alloc}
use toywasm.Modules.{
  Module, LoadContext, Import, Tabletype, Memtype, Externtype, extern_func, extern_table,
  extern_memory, extern_global,
}
use toywasm.Modules.Load.{empty_module, start_context}
use toywasm.Modules.Lookup.{eq_externtype, importdesc_type}

-- How many of the imports are of a type.
abbrev pub count_of : Externtype → List Import → ℕ
count_of type [] = 0
count_of type (im ∷ imports) =
    (if eq_externtype (importdesc_type im.desc) type then 1 else 0) + count_of type imports

module _ {E : Type 0} where
  abbrev with_counts : LoadContext E → (f t e g : ℕ) → LoadContext E
  with_counts ctx f t e g = record ctx {
    m = record ctx.m {
      nimportedfuncs = f;
      nimportedtables = t;
      nimportedmems = e;
      nimportedglobals = g;
    };
  }

  abbrev counted : LoadContext E → List Import → LoadContext E
  counted ctx imports =
      with_counts ctx (ctx.m.nimportedfuncs + count_of extern_func imports)
        (ctx.m.nimportedtables + count_of extern_table imports)
        (ctx.m.nimportedmems + count_of extern_memory imports)
        (ctx.m.nimportedglobals + count_of extern_global imports)

-- The module and the context of the loader on the way to it.
abbrev pub plain_module :
    {E : Type 0} → List Functype → List Import → List Tabletype → List Memtype → Module E
plain_module types imports tables mems = record empty_module {
  types = types;
  nimportedfuncs = count_of extern_func imports;
  nimportedtables = count_of extern_table imports;
  tables = tables;
  nimportedmems = count_of extern_memory imports;
  mems = mems;
  nimportedglobals = count_of extern_global imports;
  imports = imports;
}

abbrev after_types : {E : Type 0} → List Functype → LoadContext E
after_types types = record (start_context false) { m = record empty_module { types = types } }

abbrev with_refs : {E : Type 0} → (n : ℕ) → Module E → LoadContext E
with_refs n m =
    if ltb 0 n
    then record (start_context false) { m = m; refs = bitmap_alloc n; refs_size = n }
    else record (start_context false) { m = m }

abbrev after_imports : {E : Type 0} → List Functype → List Import → LoadContext E
after_imports types imports =
    with_refs (count_of extern_func imports) (plain_module types imports [] [])

abbrev importing : {E : Type 0} → List Functype → List Import → (f t e g : ℕ) → LoadContext E
importing types imports f t e g = with_refs f (record (plain_module types imports [] []) {
  nimportedfuncs = f;
  nimportedtables = t;
  nimportedmems = e;
  nimportedglobals = g;
})

abbrev with_tables : {E : Type 0} → LoadContext E → List Tabletype → LoadContext E
with_tables ctx tables = record ctx { m = record ctx.m { tables = tables } }

abbrev with_mems : {E : Type 0} → LoadContext E → List Memtype → LoadContext E
with_mems ctx mems = record ctx { m = record ctx.m { mems = mems } }

abbrev plain_context :
    {E : Type 0} → List Functype → List Import → List Tabletype → List Memtype → LoadContext E
plain_context types imports tables mems =
    with_mems (with_tables (after_imports types imports) tables) mems
