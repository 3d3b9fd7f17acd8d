-- ===== src/Modules/Segments.antt =====
-- Globals, functions, elements and data of a module: their readers in lib/module.c. The functions of
-- lib/expr_parser.c that read and validate an expression are the parameters of the section.
use toywasm.Base.{ℕ, ◌+◌, true, ◌||◌, List, [], ◌∷◌, length, take, drop}
use toywasm.Base.{get_elem?, leb, ltb, ◌==◌, if◌then◌else◌, Option, none, some, u32}
use toywasm.Base.{Result, ok, err, einval, e2big, ◌>>=◌, ◌>>◌, assert, check, read_elem}
use toywasm.Types.{Valtype, i32, funcref, is_reftype, valtype_of_code, eq_valtype, Functype}
use toywasm.Leb.{read_u8, read_leb_u32}
use toywasm.Decode.{read_vec_count, read_vec_u32, read_vec_with_ctx}
use toywasm.Locals.{Localtype, read_locals}
use toywasm.Modules.{
  Module, LoadContext, Global, Func, ElementMode, elem_active, elem_passive, elem_declarative,
  ElementInit, funcs, init_exprs, Element, DataSegment, extern_func, extern_table, extern_memory,
}
use toywasm.Modules.Types.{read_globaltype}
use toywasm.Modules.Entries.{extern_count, set_ref}
use toywasm.Modules.Lookup.{module_tabletype}

-- The table of the segment kinds 2 and 6 is written.
abbrev pub element_table : (kind : ℕ) → List ℕ → Result (ℕ × List ℕ)
element_table kind bytes = if kind == 2 || kind == 6 then read_leb_u32 bytes else ok (0, bytes)

-- The element kind or the reference type, where it is written.
abbrev pub element_type : (kind : ℕ) → List ℕ → Result (Valtype × List ℕ)
element_type kind bytes = do
  let elemkind = do (byte, p) ← read_u8 true bytes; check (byte == 0) einval; ok (funcref, p)
  let reftype = do
    (byte, p) ← read_u8 true bytes
    check (is_reftype (valtype_of_code byte)) einval
    ok (valtype_of_code byte, p)
  if kind == 1 || kind == 2 || kind == 3
      then elemkind
      else if kind == 5 || kind == 6 || kind == 7
      then reftype
      else ok (funcref, bytes)

module _ {E : Type 0}
    (read_const_expr : Valtype → LoadContext E → List ℕ → Result (E × LoadContext E × List ℕ))
    (read_expr : Localtype
      → Functype
      → LoadContext E
      → List ℕ
      → Result (E × LoadContext E × List ℕ)) where
  unfoldable pub read_global :
      (idx : ℕ) → LoadContext E → List ℕ → Result (Global E × LoadContext E × List ℕ)
  read_global idx ctx bytes = do
    (type, p) ← read_globaltype bytes
    (init, ctx', rest) ← read_const_expr type.t ctx p
    ok (record { type = type; init = init }, ctx', rest)

  -- `cep` is the end of the code of `size` bytes.
  unfoldable pub read_func :
      (idx : ℕ) → LoadContext E → List ℕ → Result (Func E × LoadContext E × List ℕ)
  read_func idx ctx bytes = do
    let m = ctx.m
    check (ltb (u32 (m.nimportedfuncs + idx)) (extern_count m extern_func)) einval
    functypeidx ← read_elem (get_elem? m.functypeidxes idx)
    assert (ltb functypeidx (length m.types))
    ft ← read_elem (get_elem? m.types functypeidx)
    (size, p) ← read_leb_u32 bytes
    check (leb size (length p)) einval
    (lt, p') ← read_locals ctx.generate_localtype_cellidx (take size p)
    (e, ctx', rest) ← read_expr lt ft ctx p'
    check (length rest == 0) einval
    ok (record { localtype = lt; e = e }, ctx', drop size p)

  -- The loop over the functions of a segment: each must be there and may be referred to.
  unfoldable pub element_refs : List ℕ → LoadContext E → Result (LoadContext E)
  element_refs [] ctx = ok ctx
  element_refs (idx ∷ idxs) ctx = do
    check (ltb idx (extern_count ctx.m extern_func)) einval
    ctx' ← set_ref ctx extern_func idx
    element_refs idxs ctx'

  unfoldable pub read_element_init_expr :
      Valtype → (idx : ℕ) → LoadContext E → List ℕ → Result (E × LoadContext E × List ℕ)
  read_element_init_expr type idx ctx bytes = read_const_expr type ctx bytes

  -- The mode, and the offset of an active segment.
  unfoldable pub element_mode :
      (kind : ℕ) → LoadContext E → List ℕ → Result (ElementMode × Option E × LoadContext E × List ℕ)
  element_mode kind ctx bytes = do
    let active = do
      (offset, ctx', p) ← read_const_expr i32 ctx bytes
      ok (elem_active, some offset, ctx', p)
    if kind == 0 || kind == 2 || kind == 4 || kind == 6
        then active
        else if kind == 1 || kind == 5
        then ok (elem_passive, none, ctx, bytes)
        else ok (elem_declarative, none, ctx, bytes)

  unfoldable pub element_init :
      (kind : ℕ) (type : Valtype)
      → LoadContext E
      → List ℕ
      → Result (ElementInit E × LoadContext E × List ℕ)
  unfolding element_refs read_element_init_expr
  element_init kind type ctx bytes = do
    let functions = do
      assert (eq_valtype type funcref)
      (idxs, p) ← read_vec_u32 bytes
      ctx' ← element_refs idxs ctx
      ok (funcs idxs, ctx', p)
    let expressions = do
      (exprs, ctx', p) ← read_vec_with_ctx (read_element_init_expr type) [] ctx bytes
      ok (init_exprs exprs, ctx', p)
    if ltb kind 4 then functions else expressions

  -- An active segment is for a table of its type.
  unfoldable pub check_element : Module E → ElementMode → (table : ℕ) → Valtype → Result (Unit {0})
  check_element m elem_active table type = do
    check (ltb table (extern_count m extern_table)) einval
    tt ← module_tabletype m table
    check (eq_valtype tt.et type) einval
  check_element m _ table type = ok tt

  unfoldable pub read_element :
      (idx : ℕ) → LoadContext E → List ℕ → Result (Element E × LoadContext E × List ℕ)
  unfolding element_mode element_init check_element
  read_element idx ctx bytes = do
    (kind, p) ← read_leb_u32 bytes
    check (leb kind 7) einval
    (table, p₁) ← element_table kind p
    (mode, offset, ctx₁, p₂) ← element_mode kind ctx p₁
    (type, p₃) ← element_type kind p₂
    (init, ctx₂, rest) ← element_init kind type ctx₁ p₃
    check_element ctx₂.m mode table type
    ok (
      record { init = init; type = type; mode = mode; table = table; offset = offset },
      ctx₂,
      rest,
    )

  -- The memory and the offset of a segment: `kind` 1 is passive, 2 names a memory, 0 means memory 0.
  unfoldable pub data_place :
      (kind : ℕ) → LoadContext E → List ℕ → Result (ℕ × Option E × LoadContext E × List ℕ)
  data_place kind ctx bytes = do
    let active = do
      (memory, p) ← if kind == 2 then read_leb_u32 bytes else ok (0, bytes)
      check (ltb memory (extern_count ctx.m extern_memory)) einval
      (offset, ctx', rest) ← read_const_expr i32 ctx p
      ok (memory, some offset, ctx', rest)
    if kind == 1
        then ok (0, none, ctx, bytes)
        else if kind == 0 || kind == 2
        then active
        else err einval

  unfoldable pub read_data :
      (idx : ℕ) → LoadContext E → List ℕ → Result (DataSegment E × LoadContext E × List ℕ)
  unfolding data_place read_vec_count
  read_data idx ctx bytes = do
    (kind, p) ← read_leb_u32 bytes
    (memory, offset, ctx', p₁) ← data_place kind ctx p
    (vec_count, p₂) ← read_vec_count p₁
    check (leb vec_count (length p₂)) e2big
    ok (
      record { init = take vec_count p₂; memory = memory; offset = offset },
      ctx',
      drop vec_count p₂,
    )
