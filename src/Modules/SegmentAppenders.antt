-- ===== src/Modules/SegmentAppenders.antt =====
-- The writers of globals, elements, functions and data of lib/module_writer.c only append; so does every
-- writer of the table of sections.
use toywasm.Base.{ℕ, refl, ◌||◌, List, [], ◌∷◌}
use toywasm.Base.{length, All, ◌==◌, if◌then◌else◌, u8, Option, none, some}
use toywasm.Base.{Bool-cases, inl, inr, Result, ok, err, fault, ◌>>=◌}
use toywasm.Types.{Valtype, valtype_code, is_reftype, eq_valtype, funcref}
use toywasm.Leb.{write_leb_u32}
use toywasm.Decode.{write_vec, write_u32_elem}
use toywasm.Locals.{Localchunk, write_chunks, write_locals}
use toywasm.Modules.{Module, Global, Func, ElementInit, funcs, init_exprs, Element, DataSegment}
use toywasm.Modules.Types.{write_functype, write_tabletype, write_memtype, write_globaltype}
use toywasm.Modules.Entries.{write_import, write_export}
use toywasm.Modules.Write.{
  element_kind, write_element_type, counter_size, write_counted, write_expr, write_global,
  write_offset, write_element_init, write_element, write_code, write_func, write_data_place,
  write_data, write_start_section, write_datacount_section, section_writers,
}
use toywasm.Modules.Appenders.{
  IsAppender, bytes-IsAppender, leb-IsAppender, nothing-IsAppender, then-IsAppender, if-IsAppender,
  assert-IsAppender, write_vec-IsAppender, write_vec_section-IsAppender, write_u32_elem-IsAppender,
  write_functype-IsAppender, byte_then, leb_then, write_memtype-IsAppender,
  write_tabletype-IsAppender, write_globaltype-IsAppender, write_import-IsAppender,
  write_export-IsAppender,
}

fault-IsAppender : IsAppender (λ out. fault)
fault-IsAppender out = refl

write_chunks-IsAppender :
    (chunks : List Localchunk) → IsAppender (λ out. ok (write_chunks chunks out))
unfolding write_chunks
write_chunks-IsAppender [] = nothing-IsAppender
write_chunks-IsAppender (chunk ∷ chunks) =
    leb_then chunk.n _ (byte_then chunk.type _ (write_chunks-IsAppender chunks))

-- A result that is known before the writing.
given-IsAppender :
    {A : Type 0} (r : Result A) (f : A → List ℕ → Result (List ℕ))
    → ((a : A) → IsAppender (f a))
    → IsAppender (λ out. r >>= λ a. f a out)
given-IsAppender (ok a) f h out = h a out
given-IsAppender (err e) f h out = refl
given-IsAppender fault f h out = refl

write_counted-IsAppender :
    (write : List ℕ → Result (List ℕ))
    → IsAppender write
    → IsAppender (write_counted write write_leb_u32)
unfolding write_counted
write_counted-IsAppender write h =
    given-IsAppender (write []) _
      (λ counted. given-IsAppender (counter_size counted) _ (λ size. leb_then size write h))

-- A row of the table of sections.
abbrev pub IsSectionWriter : ℕ × (List ℕ → Result (List ℕ)) → Type 0
IsSectionWriter row = IsAppender row.1

module _ {E : Type 0} (expr_bytes : E → List ℕ) where
  write_global-IsAppender : (g : Global E) → IsAppender (write_global expr_bytes g)
  unfolding write_global
  write_global-IsAppender g =
      then-IsAppender (write_globaltype g.type) (write_expr expr_bytes g.init)
        (write_globaltype-IsAppender g.type) (bytes-IsAppender (expr_bytes g.init))

  write_offset-IsAppender :
      (kind : ℕ) (offset : Option E) → IsAppender (write_offset expr_bytes kind offset)
  write_offset-IsAppender kind none =
      if-IsAppender (kind == 0 || kind == 2 || kind == 4 || kind == 6) _ _ fault-IsAppender
        nothing-IsAppender
  write_offset-IsAppender kind (some offset) =
      if-IsAppender (kind == 0 || kind == 2 || kind == 4 || kind == 6) _ _
        (bytes-IsAppender (expr_bytes offset)) nothing-IsAppender

  write_element_type-IsAppender :
      (kind : ℕ) (type : Valtype) → IsAppender (write_element_type kind type)
  write_element_type-IsAppender kind type =
      if-IsAppender (kind == 1 || kind == 2 || kind == 3) _ _
        (assert-IsAppender (eq_valtype type funcref) _ (bytes-IsAppender (0x00 ∷ [])))
        (if-IsAppender (kind == 5 || kind == 6 || kind == 7) _ _
          (assert-IsAppender (is_reftype type) _ (bytes-IsAppender (u8 (valtype_code type) ∷ [])))
          nothing-IsAppender)

  write_element_init-IsAppender :
      (init : ElementInit E) → IsAppender (write_element_init expr_bytes init)
  write_element_init-IsAppender (funcs idxs) =
      write_vec-IsAppender write_u32_elem write_u32_elem-IsAppender idxs
  write_element_init-IsAppender (init_exprs exprs) =
      then-IsAppender (write_vec (write_expr expr_bytes) exprs) (λ out. fault)
        (write_vec-IsAppender (write_expr expr_bytes) (λ e. bytes-IsAppender (expr_bytes e)) exprs)
        fault-IsAppender

  write_table_index-IsAppender :
      (kind table : ℕ)
      → IsAppender (λ out. ok (if kind == 2 || kind == 6 then write_leb_u32 table out else out))
  write_table_index-IsAppender kind table out = elim (Bool-cases (kind == 2 || kind == 6)) [
    | inl has_table ↦ rw has_table (leb-IsAppender table out)
    | inr no_table ↦ rw no_table (nothing-IsAppender out)
  ]

  write_element-IsAppender : (e : Element E) → IsAppender (write_element expr_bytes e)
  unfolding write_element
  write_element-IsAppender e =
      given-IsAppender (element_kind e.init e.mode e.table e.type) _ (λ kind. leb_then kind _ (
        then-IsAppender _ _ (write_table_index-IsAppender kind e.table) (
          then-IsAppender (write_offset expr_bytes kind e.offset) _
            (write_offset-IsAppender kind e.offset)
            (then-IsAppender (write_element_type kind e.type) _
              (write_element_type-IsAppender kind e.type) (write_element_init-IsAppender e.init)))))

  write_code-IsAppender : (func : Func E) → IsAppender (write_code expr_bytes func)
  unfolding write_code write_locals
  write_code-IsAppender func = leb_then (length func.localtype.localchunks) _ (
      then-IsAppender _ (write_expr expr_bytes func.e)
        (write_chunks-IsAppender func.localtype.localchunks) (bytes-IsAppender (expr_bytes func.e)))

  write_func-IsAppender : (func : Func E) → IsAppender (write_func expr_bytes func)
  unfolding write_func
  write_func-IsAppender func =
      write_counted-IsAppender (write_code expr_bytes func) (write_code-IsAppender func)

  write_data_place-IsAppender :
      (memory : ℕ) (offset : Option E) → IsAppender (write_data_place expr_bytes memory offset)
  write_data_place-IsAppender memory none out = leb-IsAppender 0x01 out
  write_data_place-IsAppender memory (some offset) out = elim (Bool-cases (memory == 0)) [
    | inl first ↦ rw first (leb_then 0x00 _ (bytes-IsAppender (expr_bytes offset)) out)
    | inr other ↦
        rw other (leb_then 0x02 _ (leb_then memory _ (bytes-IsAppender (expr_bytes offset))) out)
  ]

  write_data-IsAppender : (segment : DataSegment E) → IsAppender (write_data expr_bytes segment)
  unfolding write_data
  write_data-IsAppender segment =
      then-IsAppender (write_data_place expr_bytes segment.memory segment.offset) _
        (write_data_place-IsAppender segment.memory segment.offset)
        (leb_then (length segment.init) _ (bytes-IsAppender segment.init))

  write_start_section-IsAppender : (start : Option ℕ) → IsAppender (write_start_section start)
  write_start_section-IsAppender none = nothing-IsAppender
  write_start_section-IsAppender (some start) = leb-IsAppender start

  write_datacount_section-IsAppender :
      (datas : List (DataSegment E)) → IsAppender (write_datacount_section datas)
  write_datacount_section-IsAppender [] = nothing-IsAppender
  write_datacount_section-IsAppender (d ∷ datas) = leb-IsAppender (length (d ∷ datas))

  pub section_writers-IsSectionWriter :
      (m : Module E) → All IsSectionWriter (section_writers expr_bytes m)
  section_writers-IsSectionWriter m = (
    write_vec_section-IsAppender write_functype write_functype-IsAppender m.types,
    (
      write_vec_section-IsAppender write_import write_import-IsAppender m.imports,
      (
        write_vec_section-IsAppender write_u32_elem write_u32_elem-IsAppender m.functypeidxes,
        (
          write_vec_section-IsAppender write_tabletype write_tabletype-IsAppender m.tables,
          (
            write_vec_section-IsAppender write_memtype write_memtype-IsAppender m.mems,
            (
              write_vec_section-IsAppender (write_global expr_bytes) write_global-IsAppender
                  m.globals,
              (
                write_vec_section-IsAppender write_export write_export-IsAppender m.exports,
                (
                  write_start_section-IsAppender m.start,
                  (
                    write_vec_section-IsAppender (write_element expr_bytes) write_element-IsAppender
                        m.elems,
                    (
                      write_datacount_section-IsAppender m.datas,
                      (
                        write_vec_section-IsAppender (write_func expr_bytes) write_func-IsAppender
                            m.funcs,
                        (
                          write_vec_section-IsAppender (write_data expr_bytes) write_data-IsAppender
                              m.datas,
                          tt,
                        ),
                      ),
                    ),
                  ),
                ),
              ),
            ),
          ),
        ),
      ),
    ),
  )
