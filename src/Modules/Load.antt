-- ===== src/Modules/Load.antt =====
-- Loading a module: section_load, get_section_type, read_section and module_load_into of lib/module.c.
-- `sort_exports` stands for the qsort of the C library with cmp_export. The allocation of `struct module`
-- succeeds; on an error the caller destroys the module, so no state is given with it.
use toywasm.Base.{ℕ, zero, suc, ◌+◌, Bool, true, not, ◌&&◌, List, [], ◌∷◌, length, take}
use toywasm.Base.{drop, leb, ◌==◌, if◌then◌else◌, Option, none, some, u32}
use toywasm.Base.{Result, ok, err, fault, einval, ◌>>=◌, ◌>>◌, check}
use toywasm.Types.{Valtype, Functype}
use toywasm.Leb.{read_u8, read_leb_u32}
use toywasm.Decode.{read_u32}
use toywasm.Locals.{Localtype}
use toywasm.Names.{compare_name}
use toywasm.Modules.{Module, LoadContext, WasmExport}
use toywasm.Modules.Lookup.{is_same}
use toywasm.Modules.Sections.{
  read_section, read_type_section, read_import_section, read_function_section, read_table_section,
  read_memory_section, read_export_section, read_start_section, read_datacount_section,
  read_custom_section, read_global_section, read_element_section, read_code_section,
  read_data_section,
}

-- `struct section`: the id and the bytes from `data` on.
pub record Section : Type 0 where
  pub id : ℕ
  pub contents : List ℕ

unfoldable pub section_load : List ℕ → Result (Section × List ℕ)
unfolding read_u8
section_load bytes = do
  (id, p) ← read_u8 true bytes
  (size, p') ← read_leb_u32 p
  check (leb size (length p')) einval
  ok (record { id = id; contents = take size p' }, drop size p')

-- The field `order` of `section_types`; NULL for an id that has no entry.
unfoldable pub section_order : (id : ℕ) → Option ℕ
section_order id =
    if id == 0
    then some 0
    else if id == 1
    then some 1
    else if id == 2
    then some 2
    else if id == 3
    then some 3
    else if id == 4
    then some 4
    else if id == 5
    then some 5
    else if id == 6
    then some 7
    else if id == 7
    then some 8
    else if id == 8
    then some 9
    else if id == 9
    then some 10
    else if id == 10
    then some 12
    else if id == 11
    then some 13
    else if id == 12
    then some 11
    else none

-- The sections except the custom ones come in order, each at most once; the new maximum.
abbrev pub check_order : (seen id : ℕ) → Option ℕ → Result ℕ
check_order seen id none = err einval
check_order seen id (some order) =
    if not (id == 0) && leb order seen then err einval else ok (if id == 0 then seen else order)

-- `while (p < ep)`, with `read` for the functions that `section_types` points to. A section has two bytes
-- at least, so as many rounds as there are bytes are enough.
unfoldable pub load_sections :
    {S : Type 0} (read : (id : ℕ) → S → List ℕ → Result (S × List ℕ)) (fuel seen : ℕ)
    → S
    → List ℕ
    → Result S
load_sections read fuel seen ctx [] = ok ctx
load_sections read zero seen ctx (b ∷ bytes) = fault
load_sections read (suc fuel) seen ctx (b ∷ bytes) = do
  (s, rest) ← section_load (b ∷ bytes)
  seen' ← check_order seen s.id (section_order s.id)
  ctx' ← read_section (read s.id) ctx s.contents
  load_sections read fuel seen' ctx' rest

-- The uniqueness of the names of sorted exports.
unfoldable pub check_unique : List WasmExport → Result (Unit {0})
check_unique [] = ok tt
check_unique (a ∷ []) = ok tt
check_unique (a ∷ b ∷ exports) = do
  check (not (is_same (compare_name a.name b.name))) einval
  check_unique (b ∷ exports)

abbrev pub datacount_fits : Option ℕ → (ndatas : ℕ) → Bool
datacount_fits none ndatas = true
datacount_fits (some count) ndatas = count == ndatas

abbrev pub empty_module : {E : Type 0} → Module E
empty_module = record {
  types = [];
  nimportedfuncs = 0;
  functypeidxes = [];
  funcs = [];
  nimportedtables = 0;
  tables = [];
  nimportedmems = 0;
  mems = [];
  nimportedglobals = 0;
  globals = [];
  elems = [];
  datas = [];
  start = none;
  imports = [];
  exports = [];
  name_section = none;
}

-- What follows the sections.
unfoldable pub finish_module :
    {E : Type 0} (sort_exports : List WasmExport → List WasmExport)
    → LoadContext E
    → Result (Module E)
unfolding check_unique
finish_module sort_exports ctx = do
  let m = ctx.m
  check (leb (u32 (m.nimportedmems + length m.mems)) 1) einval
  let no_functions = length m.functypeidxes == 0
  check (if length m.funcs == 0 then no_functions else not no_functions) einval
  check (datacount_fits ctx.datacount (length m.datas)) einval
  check_unique (sort_exports m.exports)
  ok (record m { exports = sort_exports m.exports })

-- `ctx` as load_context_init leaves it; the options are kept.
abbrev pub start_context : {E : Type 0} → (generate_cellidx : Bool) → LoadContext E
start_context generate_cellidx = record {
  m = empty_module;
  refs = [];
  refs_size = 0;
  datacount = none;
  generate_localtype_cellidx = generate_cellidx;
}

-- WASM_MAGIC and the version 1.
unfoldable pub read_header : List ℕ → Result (List ℕ)
unfolding read_u32
read_header bytes = do
  (magic, p) ← read_u32 bytes
  check (magic == 0x6d736100) einval
  (version, body) ← read_u32 p
  check (version == 1) einval
  ok body

module _ {E : Type 0}
    (read_const_expr : Valtype → LoadContext E → List ℕ → Result (E × LoadContext E × List ℕ))
    (read_expr : Localtype
      → Functype
      → LoadContext E
      → List ℕ
      → Result (E × LoadContext E × List ℕ))
    (sort_exports : List WasmExport → List WasmExport) where
  -- The field `read` of `section_types`.
  unfoldable pub section_reader :
      (id : ℕ) → LoadContext E → List ℕ → Result (LoadContext E × List ℕ)
  section_reader id =
      if id == 0
      then read_custom_section
      else if id == 1
      then read_type_section
      else if id == 2
      then read_import_section
      else if id == 3
      then read_function_section
      else if id == 4
      then read_table_section
      else if id == 5
      then read_memory_section
      else if id == 6
      then read_global_section read_const_expr read_expr
      else if id == 7
      then read_export_section
      else if id == 8
      then read_start_section
      else if id == 9
      then read_element_section read_const_expr read_expr
      else if id == 10
      then read_code_section read_const_expr read_expr
      else if id == 11
      then read_data_section read_const_expr read_expr
      else if id == 12
      then read_datacount_section
      else λ ctx bytes. fault

  unfoldable pub module_load_into : (generate_cellidx : Bool) → List ℕ → Result (Module E)
  unfolding section_reader finish_module
  module_load_into generate_cellidx bytes = do
    body ← read_header bytes
    ctx ← load_sections section_reader (length body) 0 (start_context generate_cellidx) body
    finish_module sort_exports ctx
