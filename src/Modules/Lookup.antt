-- ===== src/Modules/Lookup.antt =====
-- lib/type.c: what a module says of a function, table, memory or global, imported or its own, and of an
-- export.
use toywasm.Base.{
  ℕ, zero, suc, ◌+◌, ◌-◌, ◌/◌, Bool, true, false, ◌&&◌, List, [], ◌∷◌, length, get_elem?,
}
use toywasm.Base.{ltb, if◌then◌else◌}
use toywasm.Base.{Result, ok, err, fault, enoent, ◌>>=◌, ◌>>◌, assert, read_elem}
use toywasm.Types.{Functype}
use toywasm.Names.{Order, before, same, behind, compare_name}
use toywasm.Modules.{
  Module, Importdesc, import_func, import_table, import_memory, import_global, Import, Tabletype,
  Externtype, extern_func, extern_table, extern_memory, extern_global, WasmExport,
}

-- `!compare_name(...)`
abbrev pub is_same : Order → Bool
is_same same = true
is_same _ = false

abbrev pub importdesc_type : Importdesc → Externtype
importdesc_type (import_func typeidx) = extern_func
importdesc_type (import_table tt) = extern_table
importdesc_type (import_memory mt) = extern_memory
importdesc_type (import_global gt) = extern_global

-- `a == b` on external types.
abbrev pub eq_externtype : (a b : Externtype) → Bool
eq_externtype extern_func extern_func = true
eq_externtype extern_table extern_table = true
eq_externtype extern_memory extern_memory = true
eq_externtype extern_global extern_global = true
eq_externtype _ _ = false

-- The import of the type with `idx` of them before it, by a walk over the imports.
unfoldable pub module_import : List Import → Externtype → (idx : ℕ) → Result Import
module_import [] type idx = fault
module_import (im ∷ imports) type zero =
    if eq_externtype (importdesc_type im.desc) type then ok im else module_import imports type zero
module_import (im ∷ imports) type (suc idx) =
    module_import imports type
      (if eq_externtype (importdesc_type im.desc) type then idx else suc idx)

-- The member of the union; another one is undefined.
abbrev pub typeidx_of : Importdesc → Result ℕ
typeidx_of (import_func typeidx) = ok typeidx
typeidx_of _ = fault

abbrev pub tabletype_of : Importdesc → Result Tabletype
tabletype_of (import_table tt) = ok tt
tabletype_of _ = fault

module _ {E : Type 0} where
  unfoldable pub module_importdesc : Module E → Externtype → (idx : ℕ) → Result Importdesc
  module_importdesc m type idx = do im ← module_import m.imports type idx; ok im.desc

  unfoldable pub module_functype : Module E → (idx : ℕ) → Result Functype
  module_functype m idx = do
    let imported = do desc ← module_importdesc m extern_func idx; typeidx_of desc
    let own = read_elem (get_elem? m.functypeidxes (idx - m.nimportedfuncs))
    functypeidx ← if ltb idx m.nimportedfuncs then imported else own
    assert (ltb functypeidx (length m.types))
    read_elem (get_elem? m.types functypeidx)

  unfoldable pub module_tabletype : Module E → (idx : ℕ) → Result Tabletype
  module_tabletype m idx = do
    let imported = do desc ← module_importdesc m extern_table idx; tabletype_of desc
    let own = read_elem (get_elem? m.tables (idx - m.nimportedtables))
    if ltb idx m.nimportedtables then imported else own

-- The body of the loop at the export `mid`.
abbrev pub found_export : WasmExport → Externtype → Result ℕ
found_export ex type = if eq_externtype ex.desc.type type then ok ex.desc.idx else err enoent

-- The branches on the result of compare_name: less than 0, 0, greater than 0.
abbrev pub by_order : Order → (upper here lower : Result ℕ) → Result ℕ
by_order before upper here lower = upper
by_order same upper here lower = here
by_order behind upper here lower = lower

-- The binary search between `left` and `right`; a round halves what is between them.
unfoldable pub find_export_loop :
    (fuel : ℕ) (exports : List WasmExport) (name : List ℕ) (type : Externtype) (left right : ℕ)
    → Result ℕ
find_export_loop zero exports name type left right = if ltb left right then fault else err enoent
find_export_loop (suc fuel) exports name type left right = do
  let mid = left + (right - left) / 2
  let lower = find_export_loop fuel exports name type left mid
  let upper = find_export_loop fuel exports name type (mid + 1) right
  let round = do
    ex ← read_elem (get_elem? exports mid)
    by_order (compare_name ex.name name) upper (found_export ex type) lower
  if ltb left right then round else err enoent

-- 33 rounds are enough for a 32-bit number of exports.
unfoldable pub module_find_export :
    {E : Type 0} (m : Module E) (name : List ℕ) (type : Externtype) → Result ℕ
unfolding find_export_loop
module_find_export m name type = find_export_loop 33 m.exports name type 0 (length m.exports)

-- The linear search of the build without sorted exports.
unfoldable pub find_export_linear :
    (exports : List WasmExport) (name : List ℕ) (type : Externtype) → Result ℕ
find_export_linear [] name type = err enoent
find_export_linear (ex ∷ exports) name type =
    let rest = find_export_linear exports name type in
    if is_same (compare_name ex.name name) && eq_externtype ex.desc.type type
    then ok ex.desc.idx
    else rest
