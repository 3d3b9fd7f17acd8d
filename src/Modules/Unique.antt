-- ===== src/Modules/Unique.antt =====
-- The exports of a loaded module: the sorting and the test of their names in module_load_into of
-- lib/module.c, and module_find_export of lib/type.c on what they leave.
use toywasm.Base.{ℕ, zero, suc, ◌+◌, ◌^◌, ◌<◌, ◌≡◌, ◌≢◌, arith, inl, inr, Bool, List, [], ◌∷◌}
use toywasm.Base.{length, All, IsByte, get_elem?, some, Result, ok, einval, >>=-eq-ok, check}
use toywasm.Base.{lt_or_le, get_elem?-some, get_elem?_lt, not, ◌==◌, leb, if◌then◌else◌, u32}
use toywasm.Types.{Valtype, Functype}
use toywasm.Locals.{Localtype}
use toywasm.Names.{same, behind, compare_name}
use toywasm.Names.Ordered.{IsBefore, IsBefore-trans}
use toywasm.Modules.{Module, LoadContext, WasmExport, Externtype}
use toywasm.Modules.Lookup.{is_same, module_find_export, find_export_linear}
use toywasm.Modules.Load.{check_unique, datacount_fits, finish_module, module_load_into}
use toywasm.Modules.Accepts.{module_load_into_iff}
use toywasm.Modules.Find.{IsSortedByName, Order-cases, module_find_export-find_export_linear}

-- As qsort leaves an array: of two neighbours the first is not behind the second.
abbrev pub IsQsorted : List WasmExport → Type 0
IsQsorted exports =
    (i : ℕ) (a b : WasmExport)
    → get_elem? exports i ≡ some a
    → get_elem? exports (suc i) ≡ some b
    → compare_name a.name b.name ≢ behind

-- Neighbours that pass the test of uniqueness.
check_unique_neighbours :
    (exports : List WasmExport) (i : ℕ) (a b : WasmExport)
    → check_unique exports ≡ ok tt
    → get_elem? exports i ≡ some a
    → get_elem? exports (suc i) ≡ some b
    → compare_name a.name b.name ≢ same
unfolding check_unique
check_unique_neighbours [] i a b e ea eb = absurd (cc ea)
check_unique_neighbours (x ∷ []) i a b e ea eb = absurd (cc eb)
check_unique_neighbours (x ∷ y ∷ exports) zero a b e ea eb =
    let (done, differ, later) =
      >>=-eq-ok (check (not (is_same (compare_name x.name y.name))) einval) _ e in
    let first : x ≡ a = cc ea in
    let second : y ≡ b = cc eb in
    λ equal.
      let equal' : compare_name x.name y.name ≡ same = rw (first, second) equal in
      let refused = rw equal' at differ in cc refused
check_unique_neighbours (x ∷ y ∷ exports) (suc i) a b e ea eb =
    let (done, differ, later) =
      >>=-eq-ok (check (not (is_same (compare_name x.name y.name))) einval) _ e in
    check_unique_neighbours (y ∷ exports) i a b later ea eb

-- From neighbours to any two.
neighbours-IsSortedByName :
    (exports : List WasmExport)
    → ((i : ℕ) (a b : WasmExport)
        → get_elem? exports i ≡ some a
        → get_elem? exports (suc i) ≡ some b
        → IsBefore a.name b.name)
    → IsSortedByName exports
neighbours-IsSortedByName exports step i zero a b lt ea eb = absurd (omega arith)
neighbours-IsSortedByName exports step i (suc j) a b lt ea eb = elim (lt_or_le i j) [
  | inr last ↦ let same_index : i ≡ j = omega arith in step j a b (rw same_index at ea) eb
  | inl further ↦
      let inside = get_elem?_lt exports (suc j) eb in
      let (c, ec) = get_elem?-some exports j (omega arith) in
      IsBefore-trans a.name c.name b.name
        (neighbours-IsSortedByName exports step i j a c further ea ec) (step j c b ec eb)
]

check_unique-IsSortedByName :
    (exports : List WasmExport)
    → IsQsorted exports
    → check_unique exports ≡ ok tt
    → IsSortedByName exports
check_unique-IsSortedByName exports sorted unique =
    neighbours-IsSortedByName exports (λ i a b ea eb.
      elim (Order-cases (compare_name a.name b.name)) [
        | inl e ↦ e
        | inr (inl e) ↦ absurd (check_unique_neighbours exports i a b unique ea eb e)
        | inr (inr e) ↦ absurd (sorted i a b ea eb e)
      ])

finish_module-IsSortedByName :
    {E : Type 0} (sort_exports : List WasmExport → List WasmExport) (ctx : LoadContext E)
    (m : Module E)
    → ((exports : List WasmExport) → IsQsorted (sort_exports exports))
    → finish_module sort_exports ctx ≡ ok m
    → IsSortedByName m.exports
unfolding finish_module
finish_module-IsSortedByName sort_exports ctx m qsort e =
    let (d₁, e₁, f₁) =
      >>=-eq-ok (check (leb (u32 (ctx.m.nimportedmems + length ctx.m.mems)) 1) einval) _ e in
    let no_functions = length ctx.m.functypeidxes == 0 in
    let (d₂, e₂, f₂) =
      >>=-eq-ok (check (if length ctx.m.funcs == 0 then no_functions else not no_functions) einval)
        _ f₁ in
    let (d₃, e₃, f₃) =
      >>=-eq-ok (check (datacount_fits ctx.datacount (length ctx.m.datas)) einval) _ f₂ in
    let (d₄, unique, f₄) = >>=-eq-ok (check_unique (sort_exports ctx.m.exports)) _ f₃ in
    let same_exports : sort_exports ctx.m.exports ≡ m.exports = cc f₄ in
    rw (← same_exports)
      (check_unique-IsSortedByName (sort_exports ctx.m.exports) (qsort ctx.m.exports) unique)

module _ {E : Type 0}
    (read_const_expr : Valtype → LoadContext E → List ℕ → Result (E × LoadContext E × List ℕ))
    (read_expr : Localtype
      → Functype
      → LoadContext E
      → List ℕ
      → Result (E × LoadContext E × List ℕ))
    (sort_exports : List WasmExport → List WasmExport) where
  -- If the C library's qsort leaves no export behind its right neighbour, a module that loads has exports
  -- with increasing names, so no two of the same name, and where 32 bits count them module_find_export
  -- returns for every name and type what a linear search of the exports returns.
  pub module_load_into-module_find_export :
      (generate_cellidx : Bool) (bytes : List ℕ) (m : Module E)
      → ((exports : List WasmExport) → IsQsorted (sort_exports exports))
      → All IsByte bytes
      → module_load_into read_const_expr read_expr sort_exports generate_cellidx bytes ≡ ok m
      → length m.exports < 2 ^ 32
      → IsSortedByName m.exports
        × ((name : List ℕ) (type : Externtype)
            → module_find_export m name type ≡ find_export_linear m.exports name type)
  module_load_into-module_find_export generate_cellidx bytes m qsort h e few =
      let (body, ctx, header, loaded, finished) =
        (module_load_into_iff read_const_expr read_expr sort_exports generate_cellidx bytes m h).0
          e in
      let sorted = finish_module-IsSortedByName sort_exports ctx m qsort finished in
      (sorted, λ name type. module_find_export-find_export_linear m name type sorted few)
