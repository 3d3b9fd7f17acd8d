-- ===== src/Modules/Samples.antt =====
-- Parameters for the tests: no expressions, and a sort by insertion.
use toywasm.Base.{ℕ, zero, suc, ◌≡◌, ◌≢◌, List, [], ◌∷◌, Result, err}
use toywasm.Base.{einval, inl, inr}
use toywasm.Types.{Valtype, Functype}
use toywasm.Locals.{Localtype}
use toywasm.Names.{Order, before, same, behind, compare_name}
use toywasm.Names.Ordered.{compare_name-behind}
use toywasm.Modules.{LoadContext, WasmExport}
use toywasm.Modules.Find.{Order-cases}
use toywasm.Modules.Unique.{IsQsorted}

abbrev pub no_const_expr : Valtype → LoadContext ℕ → List ℕ → Result (ℕ × LoadContext ℕ × List ℕ)
no_const_expr type ctx bytes = err einval

abbrev pub no_expr :
    Localtype → Functype → LoadContext ℕ → List ℕ → Result (ℕ × LoadContext ℕ × List ℕ)
no_expr lt ft ctx bytes = err einval

abbrev pub insert_by : Order → (here there : List WasmExport) → List WasmExport
insert_by before here there = here
insert_by same here there = here
insert_by behind here there = there

unfoldable pub insert_export : WasmExport → List WasmExport → List WasmExport
insert_export x [] = x ∷ []
insert_export x (y ∷ ys) =
    insert_by (compare_name x.name y.name) (x ∷ y ∷ ys) (y ∷ insert_export x ys)

unfoldable pub insertion_sort : List WasmExport → List WasmExport
unfolding insert_export
insertion_sort [] = []
insertion_sort (x ∷ xs) = insert_export x (insertion_sort xs)

-- Of two neighbours the first is not behind the second.
abbrev IsChain : List WasmExport → Type 0
IsChain [] = Unit {0}
IsChain (x ∷ []) = Unit {0}
IsChain (x ∷ y ∷ ys) = (compare_name x.name y.name ≢ behind) × IsChain (y ∷ ys)

behind_flip :
    (x y : WasmExport) → compare_name x.name y.name ≡ behind → compare_name y.name x.name ≢ behind
behind_flip x y e e' =
    let flipped = compare_name-behind x.name y.name e in absurd (cc (flipped, e'))

insert-IsChain : (x : WasmExport) (ys : List WasmExport) → IsChain ys → IsChain (insert_export x ys)
unfolding insert_export
insert-IsChain x [] h = tt
insert-IsChain x (y ∷ []) h = elim (Order-cases (compare_name x.name y.name)) [
  | inl e ↦ rw e ((λ e'. absurd (cc (e, e'))), tt)
  | inr (inl e) ↦ rw e ((λ e'. absurd (cc (e, e'))), tt)
  | inr (inr e) ↦ rw e (behind_flip x y e, tt)
]
insert-IsChain x (y ∷ z ∷ ys) (hy, h) = elim (Order-cases (compare_name x.name y.name)) [
  | inl e ↦ rw e ((λ e'. absurd (cc (e, e'))), (hy, h))
  | inr (inl e) ↦ rw e ((λ e'. absurd (cc (e, e'))), (hy, h))
  | inr (inr e) ↦ rw e (behind_then (behind_flip x y e) (insert-IsChain x (z ∷ ys) h))
]
  where
    behind_then :
        compare_name y.name x.name ≢ behind
        → IsChain (insert_export x (z ∷ ys))
        → IsChain (y ∷ insert_export x (z ∷ ys))
    behind_then other chain = elim (Order-cases (compare_name x.name z.name)) [
      | inl e ↦ let c = rw e at chain in rw e (other, c)
      | inr (inl e) ↦ let c = rw e at chain in rw e (other, c)
      | inr (inr e) ↦ let c = rw e at chain in rw e (hy, c)
    ]

insertion_sort-IsChain : (xs : List WasmExport) → IsChain (insertion_sort xs)
unfolding insertion_sort
insertion_sort-IsChain [] = tt
insertion_sort-IsChain (x ∷ xs) = insert-IsChain x (insertion_sort xs) (insertion_sort-IsChain xs)

IsChain-IsQsorted : (xs : List WasmExport) → IsChain xs → IsQsorted xs
IsChain-IsQsorted [] h i a b ea eb = absurd (cc ea)
IsChain-IsQsorted (x ∷ []) h i a b ea eb = absurd (cc eb)
IsChain-IsQsorted (x ∷ y ∷ ys) (hx, h) zero a b ea eb =
    let first : x ≡ a = cc ea in let second : y ≡ b = cc eb in rw (← first, ← second) hx
IsChain-IsQsorted (x ∷ y ∷ ys) (hx, h) (suc i) a b ea eb = IsChain-IsQsorted (y ∷ ys) h i a b ea eb

pub insertion_sort-IsQsorted : (xs : List WasmExport) → IsQsorted (insertion_sort xs)
insertion_sort-IsQsorted xs = IsChain-IsQsorted (insertion_sort xs) (insertion_sort-IsChain xs)

-- A file with a type section, an import section with a function, and an export section with that function
-- under the names "b" and "a".
abbrev pub small_file : List ℕ
small_file =
    0x00 ∷ 0x61 ∷ 0x73 ∷ 0x6d ∷ 1 ∷ 0 ∷ 0 ∷ 0 ∷ 1 ∷ 5 ∷ 1 ∷ 0x60 ∷ 1 ∷ 0x7f ∷ 0 ∷ 2 ∷ 7 ∷ 1 ∷ 1
    ∷ b'm' ∷ 1 ∷ b'f' ∷ 0 ∷ 0 ∷ 7 ∷ 9 ∷ 2 ∷ 1 ∷ b'b' ∷ 0 ∷ 0 ∷ 1 ∷ b'a' ∷ 0 ∷ 0 ∷ []
