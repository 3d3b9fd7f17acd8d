-- ===== src/Modules/Accepts.antt =====
-- module_load_into of lib/module.c as a whole: the header, the sections, and the tests at the end.
use toywasm.Base.{ℕ, ◌≡◌, ◌↔◌, refl, arith, Bool}
use toywasm.Base.{List, [], ◌∷◌, length, All, IsByte, Result, ok}
use toywasm.Base.{>>=-eq-ok}
use toywasm.Types.{Valtype, Functype}
use toywasm.Locals.{Localtype}
use toywasm.Modules.{Module, LoadContext, WasmExport}
use toywasm.Modules.Load.{
  load_sections, finish_module, section_reader, read_header, start_context, module_load_into,
}
use toywasm.Modules.Order.{IsLoaded, load_sections_iff}

-- The file begins with the magic number and the version.
abbrev IsHeader : (bytes body : List ℕ) → Type 0
IsHeader bytes body = bytes ≡ 0x00 ∷ 0x61 ∷ 0x73 ∷ 0x6d ∷ 1 ∷ 0 ∷ 0 ∷ 0 ∷ body

read_header_sound :
    (bytes body : List ℕ) → All IsByte bytes → read_header bytes ≡ ok body → IsHeader bytes body
unfolding read_header
read_header_sound [] body h e = absurd (cc e)
read_header_sound (a ∷ []) body h e = absurd (cc e)
read_header_sound (a ∷ b ∷ []) body h e = absurd (cc e)
read_header_sound (a ∷ b ∷ c ∷ []) body h e = absurd (cc e)
read_header_sound (a ∷ b ∷ c ∷ d ∷ []) body h e = ground arith
read_header_sound (a ∷ b ∷ c ∷ d ∷ v ∷ []) body h e = ground arith
read_header_sound (a ∷ b ∷ c ∷ d ∷ v ∷ w ∷ []) body h e = ground arith
read_header_sound (a ∷ b ∷ c ∷ d ∷ v ∷ w ∷ x ∷ []) body h e = ground arith
read_header_sound (a ∷ b ∷ c ∷ d ∷ v ∷ w ∷ x ∷ y ∷ bytes) body h e = ground arith

read_header_complete :
    (body : List ℕ) → read_header (0x00 ∷ 0x61 ∷ 0x73 ∷ 0x6d ∷ 1 ∷ 0 ∷ 0 ∷ 0 ∷ body) ≡ ok body
unfolding read_header
read_header_complete body = refl

module _ {E : Type 0}
    (read_const_expr : Valtype → LoadContext E → List ℕ → Result (E × LoadContext E × List ℕ))
    (read_expr : Localtype
      → Functype
      → LoadContext E
      → List ℕ
      → Result (E × LoadContext E × List ℕ))
    (sort_exports : List WasmExport → List WasmExport) where
  -- The file is the magic number and the version, then sections that make the context `ctx`.
  abbrev pub IsAccepted : (generate_cellidx : Bool) → (bytes : List ℕ) → Module E → Type 0
  IsAccepted generate_cellidx bytes m =
      (body : List ℕ) × (ctx : LoadContext E) × IsHeader bytes body
      × IsLoaded (section_reader read_const_expr read_expr sort_exports) 0
          (start_context generate_cellidx) body ctx
      × (finish_module sort_exports ctx ≡ ok m)

  module_load_into_sound :
      (generate_cellidx : Bool) (bytes : List ℕ) (m : Module E)
      → All IsByte bytes
      → module_load_into read_const_expr read_expr sort_exports generate_cellidx bytes ≡ ok m
      → IsAccepted generate_cellidx bytes m
  unfolding module_load_into
  module_load_into_sound generate_cellidx bytes m h e =
      let (body, header, loaded) = >>=-eq-ok (read_header bytes) _ e in
      let (ctx, sections, finished) = >>=-eq-ok (load_sections _ (length body) 0 _ body) _ loaded in
      let is_header = read_header_sound bytes body h header in
      let (b0, (b1, (b2, (b3, (b4, (b5, (b6, (b7, body_bytes)))))))) : All IsByte
          (0x00 ∷ 0x61 ∷ 0x73 ∷ 0x6d ∷ 1 ∷ 0 ∷ 0 ∷ 0 ∷ body) =
        rw is_header at h in
      let layout =
        (load_sections_iff (section_reader read_const_expr read_expr sort_exports) (length body) 0
            (start_context generate_cellidx) ctx body body_bytes (omega arith)).0
          sections in
      (body, ctx, is_header, layout, finished)

  module_load_into_complete :
      (generate_cellidx : Bool) (bytes : List ℕ) (m : Module E)
      → All IsByte bytes
      → IsAccepted generate_cellidx bytes m
      → module_load_into read_const_expr read_expr sort_exports generate_cellidx bytes ≡ ok m
  unfolding module_load_into
  module_load_into_complete generate_cellidx bytes m h (body, ctx, is_header, layout, finished) =
      let (b0, (b1, (b2, (b3, (b4, (b5, (b6, (b7, body_bytes)))))))) : All IsByte
          (0x00 ∷ 0x61 ∷ 0x73 ∷ 0x6d ∷ 1 ∷ 0 ∷ 0 ∷ 0 ∷ body) =
        rw is_header at h in
      let sections =
        (load_sections_iff (section_reader read_const_expr read_expr sort_exports) (length body) 0
            (start_context generate_cellidx) ctx body body_bytes (omega arith)).1
          layout in
      rw (is_header, read_header_complete body, sections) finished

  -- Whatever the readers of expressions and the sort of the C library do, module_load_into loads the
  -- module `m` from some bytes exactly if they are the magic number and the version 1, then sections of
  -- known ids one behind the other, those that are not custom in their order and none of them twice,
  -- where each reader in turn reads its section to the end, and the tests at the end make `m` of the
  -- context that the readers leave.
  pub module_load_into_iff :
      (generate_cellidx : Bool) (bytes : List ℕ) (m : Module E)
      → All IsByte bytes
      → (module_load_into read_const_expr read_expr sort_exports generate_cellidx bytes ≡ ok m)
        ↔ IsAccepted generate_cellidx bytes m
  module_load_into_iff generate_cellidx bytes m h = (
    module_load_into_sound generate_cellidx bytes m h,
    module_load_into_complete generate_cellidx bytes m h,
  )
