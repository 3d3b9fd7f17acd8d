-- ===== src/Modules.antt =====
-- The module of lib/type.h as lib/module.c reads it and lib/module_writer.c writes it, and the context
-- of the loader of lib/load_context.h. `E` is what the loader keeps of an expression; the functions of
-- lib/expr_parser.c that read one are parameters where they are called. The build options are the
-- defaults of cmake/ToywasmConfig.cmake: no threads, no custom page sizes, no multi-memory, no
-- exception handling; the name section and the sorting of the exports are on.
pub mod Types
pub mod TypesBack
pub mod Entries
pub mod EntriesBack
pub mod Lookup
pub mod Segments
pub mod Sections
pub mod Load
pub mod Order
pub mod Accepts
pub mod Find
pub mod Unique
pub mod Write
pub mod Appenders
pub mod SegmentAppenders
pub mod Written
pub mod Rows
pub mod RoundTrip
mod Samples
mod Tests
use toywasm.Base.{ℕ, Bool, List, Option}
use toywasm.Types.{Valtype, Functype}
use toywasm.Insn.{Globaltype}
use toywasm.Locals.{Localtype}

pub record Limits : Type 0 where
  pub min : ℕ
  pub max : ℕ

pub record Memtype : Type 0 where
  pub lim : Limits
  pub flags : ℕ

pub record Tabletype : Type 0 where
  pub et : Valtype
  pub lim : Limits

-- `struct importdesc`: the type and the union.
pub data Importdesc : Type 0 where
  import_func : (typeidx : ℕ) → Importdesc
  import_table : (tabletype : Tabletype) → Importdesc
  import_memory : (memtype : Memtype) → Importdesc
  import_global : (globaltype : Globaltype) → Importdesc

pub record Import : Type 0 where
  pub module_name : List ℕ
  pub name : List ℕ
  pub desc : Importdesc

pub data Externtype : Type 0 where
  extern_func extern_table extern_memory extern_global : Externtype

pub record Exportdesc : Type 0 where
  pub type : Externtype
  pub idx : ℕ

pub record WasmExport : Type 0 where
  pub name : List ℕ
  pub desc : Exportdesc

pub record Global (E : Type 0) : Type 0 where
  pub type : Globaltype
  pub init : E

pub record Func (E : Type 0) : Type 0 where
  pub localtype : Localtype
  pub e : E

pub data ElementMode : Type 0 where
  elem_active elem_passive elem_declarative : ElementMode

-- What an element segment holds: `funcs` or `init_exprs`.
pub data ElementInit (E : Type 0) : Type 0 where
  funcs : List ℕ → ElementInit E
  init_exprs : List E → ElementInit E

-- `offset` is there in an active segment.
pub record Element (E : Type 0) : Type 0 where
  pub init : ElementInit E
  pub type : Valtype
  pub mode : ElementMode
  pub table : ℕ
  pub offset : Option E

-- `offset` is there in an active segment, and its absence is DATA_MODE_PASSIVE.
pub record DataSegment (E : Type 0) : Type 0 where
  pub init : List ℕ
  pub memory : ℕ
  pub offset : Option E

-- A count such as `ntypes` is the length of its list; `nfuncs` is that of `functypeidxes`. `funcs` is
-- what the code section gave.
pub record Module (E : Type 0) : Type 0 where
  pub types : List Functype
  pub nimportedfuncs : ℕ
  pub functypeidxes : List ℕ
  pub funcs : List (Func E)
  pub nimportedtables : ℕ
  pub tables : List Tabletype
  pub nimportedmems : ℕ
  pub mems : List Memtype
  pub nimportedglobals : ℕ
  pub globals : List (Global E)
  pub elems : List (Element E)
  pub datas : List (DataSegment E)
  pub start : Option ℕ
  pub imports : List Import
  pub exports : List WasmExport
  pub name_section : Option (List ℕ)

-- `refs` is a bitmap; `datacount` is there after a datacount section.
pub record LoadContext (E : Type 0) : Type 0 where
  pub m : Module E
  pub refs : List ℕ
  pub refs_size : ℕ
  pub datacount : Option ℕ
  pub generate_localtype_cellidx : Bool
