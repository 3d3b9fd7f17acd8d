-- ===== src/Modules/Tests.antt =====
-- Runs of the module reader and writer, and instances of the theorems about them.
use toywasm.Base.{ℕ, ◌^◌, ◌<◌, ◌≡◌, ◌↔◌, refl, List, [], ◌∷◌, length, All}
use toywasm.Base.{arith, ◌-◌, false, ok}
use toywasm.Types.{i32, funcref, Functype}
use toywasm.Leb.{read_leb_u32, write_leb_u32}
use toywasm.Decode.{read_vec_u32, write_vec, write_u32_elem}
use toywasm.Decode.Vectors.{IsReadBack, read_vec_u32-write_vec}
use toywasm.Names.{check_utf8, read_name, write_name}
use toywasm.Modules.{
  Module, LoadContext, Limits, Tabletype, Import, import_func, import_table, extern_func,
  WasmExport, Externtype,
}
use toywasm.Modules.Types.{read_functype, write_functype, read_tabletype, write_tabletype}
use toywasm.Modules.TypesBack.{read_functype-write_functype, read_tabletype-write_tabletype}
use toywasm.Modules.Entries.{read_import, write_import}
use toywasm.Modules.Lookup.{module_find_export, find_export_linear}
use toywasm.Modules.Load.{
  Section, load_sections, section_load, section_order, section_reader, finish_module, read_header,
  empty_module, module_load_into,
}
use toywasm.Modules.Sections.{
  read_section, read_type_section, read_import_section, read_export_section,
}
use toywasm.Modules.Order.{AreSections, IsKnown, places, IsIncreasing}
use toywasm.Modules.Accepts.{IsAccepted, module_load_into_iff}
use toywasm.Modules.Find.{IsSortedByName}
use toywasm.Modules.Unique.{module_load_into-module_find_export}
use toywasm.Modules.Write.{module_write1, section_writers}
use toywasm.Modules.Written.{AreWritten, module_write1-AreSections}
use toywasm.Modules.Samples.{
  no_const_expr, no_expr, insertion_sort, insertion_sort-IsQsorted, small_file,
}

abbrev small_type : Functype
small_type = record { parameter = i32 ∷ []; result = [] }

abbrev small_import : Import
small_import = record { module_name = b'm' ∷ []; name = b'f' ∷ []; desc = import_func 0 }

-- The exports are sorted.
abbrev small_module : Module ℕ
small_module = record empty_module {
  types = small_type ∷ [];
  nimportedfuncs = 1;
  imports = small_import ∷ [];
  exports =
      record { name = b'a' ∷ []; desc = record { type = extern_func; idx = 0 } }
      ∷ record { name = b'b' ∷ []; desc = record { type = extern_func; idx = 0 } }
      ∷ [];
}

small_file_loads :
    module_load_into no_const_expr no_expr insertion_sort false small_file ≡ ok small_module
unfolding module_load_into read_header load_sections section_load read_leb_u32 section_order
    read_section read_type_section toywasm.Decode.read_vec_with_ctx read_functype
    toywasm.Modules.Types.read_resulttype toywasm.Modules.Types.read_valtype read_import_section
    read_import read_name check_utf8 toywasm.Names.utf8_char toywasm.Modules.Entries.read_importdesc
    read_export_section toywasm.Modules.Entries.read_export toywasm.Modules.Entries.read_exportdesc
    toywasm.Bitmap.bitmap_alloc toywasm.Bitmap.bitmap_set toywasm.Modules.Load.check_unique
    finish_module section_reader toywasm.Names.compare_name toywasm.Modules.Samples.insert_export
    insertion_sort
small_file_loads = refl

module_load_into_iff_example :
    (module_load_into no_const_expr no_expr insertion_sort false small_file ≡ ok small_module)
    ↔ IsAccepted no_const_expr no_expr insertion_sort false small_file small_module
module_load_into_iff_example =
    module_load_into_iff no_const_expr no_expr insertion_sort false small_file small_module
      (omega arith)

module_load_into-module_find_export_example :
    IsSortedByName small_module.exports
    × ((name : List ℕ) (type : Externtype)
        → module_find_export small_module name type
          ≡ find_export_linear small_module.exports name type)
module_load_into-module_find_export_example =
    module_load_into-module_find_export no_const_expr no_expr insertion_sort false small_file
      small_module insertion_sort-IsQsorted (omega arith) small_file_loads (omega arith)

read_functype-write_functype_example : IsReadBack read_functype write_functype small_type
read_functype-write_functype_example =
    read_functype-write_functype small_type (((refl, tt), omega arith), (tt, omega arith))

abbrev small_table : Tabletype
small_table = record { et = funcref; lim = record { min = 1; max = 2 ^ 32 - 1 } }

read_tabletype-write_tabletype_example : IsReadBack read_tabletype write_tabletype small_table
read_tabletype-write_tabletype_example =
    read_tabletype-write_tabletype small_table (refl, (omega arith, omega arith))

read_vec_u32-write_vec_example : IsReadBack read_vec_u32 (write_vec write_u32_elem) (5 ∷ 300 ∷ [])
read_vec_u32-write_vec_example =
    read_vec_u32-write_vec (5 ∷ 300 ∷ []) (omega arith, (omega arith, tt)) (omega arith)

abbrev small_written : List ℕ
small_written =
    0x00 ∷ 0x61 ∷ 0x73 ∷ 0x6d ∷ 1 ∷ 0 ∷ 0 ∷ 0 ∷ 1 ∷ 5 ∷ 1 ∷ 0x60 ∷ 1 ∷ 0x7f ∷ 0 ∷ 2 ∷ 7 ∷ 1 ∷ 1
    ∷ b'm' ∷ 1 ∷ b'f' ∷ 0 ∷ 0 ∷ 7 ∷ 9 ∷ 2 ∷ 1 ∷ b'a' ∷ 0 ∷ 0 ∷ 1 ∷ b'b' ∷ 0 ∷ 0 ∷ []

no_bytes : ℕ → List ℕ
no_bytes e = []

small_module_writes : module_write1 no_bytes small_module ≡ ok small_written
unfolding module_write1 write_leb_u32 write_functype write_import write_name
    toywasm.Modules.Write.write_sections toywasm.Modules.Write.write_vec_section
    toywasm.Modules.Write.counter_size toywasm.Modules.Types.write_resulttype
    toywasm.Modules.Types.write_valtype toywasm.Modules.Entries.write_importdesc write_vec
    toywasm.Modules.Entries.write_export toywasm.Modules.Entries.write_exportdesc
    toywasm.Decode.write_u32
small_module_writes = refl

module_write1-AreSections_example :
    (sections : List Section) × (body : List ℕ) × (small_written
      ≡ 0x00 ∷ 0x61 ∷ 0x73 ∷ 0x6d ∷ 1 ∷ 0 ∷ 0 ∷ 0 ∷ body)
    × AreSections body sections
    × All IsKnown sections
    × IsIncreasing 0 (places sections)
    × AreWritten (section_writers no_bytes small_module) sections
    × (length small_written < 2 ^ 32)
module_write1-AreSections_example =
    module_write1-AreSections no_bytes small_module small_written small_module_writes

abbrev plain_written : List ℕ
plain_written =
    0x00 ∷ 0x61 ∷ 0x73 ∷ 0x6d ∷ 1 ∷ 0 ∷ 0 ∷ 0 ∷ 1 ∷ 5 ∷ 1 ∷ 0x60 ∷ 1 ∷ 0x7f ∷ 0 ∷ 2 ∷ 7 ∷ 1 ∷ 1
    ∷ b'm' ∷ 1 ∷ b'f' ∷ 0 ∷ 0 ∷ 4 ∷ 4 ∷ 1 ∷ 0x70 ∷ 0 ∷ 1 ∷ []
