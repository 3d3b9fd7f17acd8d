-- ===== src/Modules/Write.antt =====
-- Writing a module: the sections of lib/module_writer.c and module_write1. `expr_bytes` gives the bytes
-- from the start of an expression to expr_end. A write to the file succeeds; the sizes are counted as in
-- the source, and a failed assertion is a fault.
use toywasm.Base.{ℕ, ◌-◌, ◌^◌, not, ◌||◌, List, [], ◌∷◌, ◌++◌, length, leb}
use toywasm.Base.{ltb, ◌==◌, if◌then◌else◌, Option, none, some}
use toywasm.Base.{Result, ok, fault, eoverflow, ◌>>=◌, ◌>>◌, assert, check}
use toywasm.Types.{Valtype, valtype_code, funcref, is_reftype, eq_valtype}
use toywasm.Leb.{write_leb_u32}
use toywasm.Decode.{write_u32, write_vec, write_u32_elem}
use toywasm.Locals.{write_locals}
use toywasm.Modules.{
  Module, Global, Func, ElementMode, elem_active, elem_passive, elem_declarative, ElementInit,
  funcs, init_exprs, Element, DataSegment,
}
use toywasm.Modules.Types.{
  write_u8, write_functype, write_tabletype, write_memtype, write_globaltype,
}
use toywasm.Modules.Entries.{write_import, write_export}

-- The first 4 bits of an element segment. A segment of no elements has null pointers for both arrays,
-- which fails the assertion.
abbrev pub element_kind :
    {E : Type 0} → ElementInit E → ElementMode → (table : ℕ) → Valtype → Result ℕ
element_kind (funcs []) mode table type = fault
element_kind (init_exprs []) mode table type = fault
element_kind (funcs idxs) elem_active table type =
    ok (if not (table == 0) || not (eq_valtype type funcref) then 2 else 0)
element_kind (funcs idxs) elem_passive table type = do assert (eq_valtype type funcref); ok 1
element_kind (funcs idxs) elem_declarative table type = ok 3
element_kind (init_exprs exprs) elem_active table type =
    ok (if not (table == 0) || not (eq_valtype type funcref) then 6 else 4)
element_kind (init_exprs exprs) elem_passive table type = ok 5
element_kind (init_exprs exprs) elem_declarative table type = ok 7

-- The element kind or the reference type, where the segment has it.
abbrev pub write_element_type : (kind : ℕ) → Valtype → List ℕ → Result (List ℕ)
write_element_type kind type out = do
  let elemkind = do assert (eq_valtype type funcref); ok (write_u8 0x00 out)
  let reftype = do assert (is_reftype type); ok (write_u8 (valtype_code type) out)
  if kind == 1 || kind == 2 || kind == 3
      then elemkind
      else if kind == 5 || kind == 6 || kind == 7
      then reftype
      else ok out

-- The counter of a section or a function: what the writer writes is counted first.
unfoldable pub counter_size : (written : List ℕ) → Result ℕ
counter_size written = do check (leb (length written) (2 ^ 32 - 1)) eoverflow; ok (length written)

-- A writer that is run on the counter, then behind its own size.
unfoldable pub write_counted :
    (write : List ℕ → Result (List ℕ)) (header : (size : ℕ) → List ℕ → List ℕ)
    → List ℕ
    → Result (List ℕ)
unfolding counter_size
write_counted write header out = do
  counted ← write []
  size ← counter_size counted
  write (header size out)

-- `if (n == 0) return;`, the number and the loop.
unfoldable pub write_vec_section :
    {A : Type 0} (write_elem : A → List ℕ → Result (List ℕ)) → List A → List ℕ → Result (List ℕ)
write_vec_section write_elem [] out = ok out
write_vec_section write_elem (a ∷ elems) out = write_vec write_elem (a ∷ elems) out

abbrev pub write_start_section : Option ℕ → List ℕ → Result (List ℕ)
write_start_section none out = ok out
write_start_section (some start) out = ok (write_leb_u32 start out)

abbrev pub write_datacount_section : {E : Type 0} → List (DataSegment E) → List ℕ → Result (List ℕ)
write_datacount_section [] out = ok out
write_datacount_section (d ∷ datas) out = ok (write_leb_u32 (length (d ∷ datas)) out)

module _ {E : Type 0} (expr_bytes : E → List ℕ) where
  abbrev pub write_expr : E → List ℕ → Result (List ℕ)
  write_expr e out = ok (out ++ expr_bytes e)

  unfoldable pub write_global : Global E → List ℕ → Result (List ℕ)
  write_global g out = do out' ← write_globaltype g.type out; write_expr g.init out'

  -- The offset, where the kind has one.
  abbrev pub write_offset : (kind : ℕ) → Option E → List ℕ → Result (List ℕ)
  write_offset kind none out =
      if kind == 0 || kind == 2 || kind == 4 || kind == 6 then fault else ok out
  write_offset kind (some offset) out =
      if kind == 0 || kind == 2 || kind == 4 || kind == 6 then write_expr offset out else ok out

  -- The expressions are written, and then the default branch is entered, which asserts.
  abbrev pub write_element_init : ElementInit E → List ℕ → Result (List ℕ)
  write_element_init (funcs idxs) out = write_vec write_u32_elem idxs out
  write_element_init (init_exprs exprs) out = do out' ← write_vec write_expr exprs out; fault

  unfoldable pub write_element : Element E → List ℕ → Result (List ℕ)
  write_element e out = do
    kind ← element_kind e.init e.mode e.table e.type
    let out₁ = write_leb_u32 kind out
    let out₂ = if kind == 2 || kind == 6 then write_leb_u32 e.table out₁ else out₁
    out₃ ← write_offset kind e.offset out₂
    out₄ ← write_element_type kind e.type out₃
    write_element_init e.init out₄

  unfoldable pub write_code : Func E → List ℕ → Result (List ℕ)
  write_code func out = write_expr func.e (write_locals func.localtype out)

  unfoldable pub write_func : Func E → List ℕ → Result (List ℕ)
  unfolding write_counted write_code
  write_func func out = write_counted (write_code func) write_leb_u32 out

  -- `offset` is none in a passive segment.
  abbrev pub write_data_place : (memory : ℕ) → Option E → List ℕ → Result (List ℕ)
  write_data_place memory none out = ok (write_leb_u32 0x01 out)
  write_data_place memory (some offset) out = write_expr offset (
      if memory == 0 then write_leb_u32 0x00 out else write_leb_u32 memory (write_leb_u32 0x02 out))

  unfoldable pub write_data : DataSegment E → List ℕ → Result (List ℕ)
  write_data segment out = do
    out' ← write_data_place segment.memory segment.offset out
    ok (write_leb_u32 (length segment.init) out' ++ segment.init)

  -- The table `sections`: the ids and the writers, in the order of the file. In a loaded module there are
  -- as many functions as function types.
  abbrev pub section_writers : Module E → List (ℕ × (List ℕ → Result (List ℕ)))
  section_writers m =
      (1, write_vec_section write_functype m.types)
      ∷ (2, write_vec_section write_import m.imports)
      ∷ (3, write_vec_section write_u32_elem m.functypeidxes)
      ∷ (4, write_vec_section write_tabletype m.tables)
      ∷ (5, write_vec_section write_memtype m.mems)
      ∷ (6, write_vec_section write_global m.globals)
      ∷ (7, write_vec_section write_export m.exports)
      ∷ (8, write_start_section m.start)
      ∷ (9, write_vec_section write_element m.elems)
      ∷ (12, write_datacount_section m.datas)
      ∷ (10, write_vec_section write_func m.funcs)
      ∷ (11, write_vec_section write_data m.datas)
      ∷ []

abbrev pub write_section_header : (id size : ℕ) → List ℕ → List ℕ
write_section_header id size out = write_leb_u32 size (write_u8 id out)

-- Nothing is written for a section of size 0.
unfoldable pub write_section :
    (id : ℕ) (write : List ℕ → Result (List ℕ)) → List ℕ → Result (List ℕ)
unfolding counter_size
write_section id write out = do
  counted ← write []
  size ← counter_size counted
  if ltb 0 size then write (write_section_header id size out) else ok out

-- The loop over the table.
unfoldable pub write_sections : List (ℕ × (List ℕ → Result (List ℕ))) → List ℕ → Result (List ℕ)
unfolding write_section
write_sections [] out = ok out
write_sections ((id, write) ∷ sections) out = do
  out' ← write_section id write out
  write_sections sections out'

-- WASM_MAGIC, the version 1, and the sections. The size of the file is counted, too.
unfoldable pub module_write1 : {E : Type 0} (expr_bytes : E → List ℕ) → Module E → Result (List ℕ)
unfolding counter_size
module_write1 expr_bytes m = do
  written ← write_sections (section_writers expr_bytes m) (write_u32 1 (write_u32 0x6d736100 []))
  size ← counter_size written
  ok written
