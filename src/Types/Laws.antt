-- ===== src/Types/Laws.antt =====
-- Equality of types as the code tests it, and sizes in cells.
use toywasm.Base.{==_self, ◌+◌, ◌≡◌, ◌↔◌, refl, ap, arith, true, [], ◌∷◌, ◌++◌}
use toywasm.Types.{Valtype, i32}
use toywasm.Types.{
  valtype_code, valtype_of_code, eq_valtype, Resulttype, resulttype_cellsize, compare_resulttype,
}
use toywasm.Types.{Functype, compare_functype}

valtype_of_code-valtype_code : (a : Valtype) → valtype_of_code (valtype_code a) ≡ a
unfolding valtype_of_code
valtype_of_code-valtype_code i32 = refl
valtype_of_code-valtype_code _ = refl

pub valtype_code_injective : (a b : Valtype) → valtype_code a ≡ valtype_code b → a ≡ b
valtype_code_injective a b h =
    cc (valtype_of_code-valtype_code a, valtype_of_code-valtype_code b, ap valtype_of_code h)

pub eq_valtype_iff : (a b : Valtype) → (eq_valtype a b ≡ true) ↔ (a ≡ b)
unfolding eq_valtype
eq_valtype_iff a b = (λ h. valtype_code_injective a b (ground arith), λ e. rw e (==_self _))

pub resulttype_cellsize-append :
    (xs ys : Resulttype)
    → resulttype_cellsize (xs ++ ys) ≡ resulttype_cellsize xs + resulttype_cellsize ys
resulttype_cellsize-append [] ys = omega arith
resulttype_cellsize-append (x ∷ xs) ys = omega (arith, resulttype_cellsize-append xs ys)

compare_resulttype-eq : (a b : Resulttype) → compare_resulttype a b ≡ 0 → a ≡ b
unfolding compare_resulttype
compare_resulttype-eq [] [] h = refl
compare_resulttype-eq [] (y ∷ ys) h = absurd (omega arith)
compare_resulttype-eq (x ∷ xs) [] h = absurd (omega arith)
compare_resulttype-eq (x ∷ xs) (y ∷ ys) h =
    ground (arith, eq_valtype_iff x y, compare_resulttype-eq xs ys)

compare_resulttype_self : (a : Resulttype) → compare_resulttype a a ≡ 0
unfolding compare_resulttype
compare_resulttype_self [] = refl
compare_resulttype_self (x ∷ xs) = ground (arith, eq_valtype_iff x x, compare_resulttype_self xs)

compare_functype-eq : (a b : Functype) → compare_functype a b ≡ 0 → a ≡ b
unfolding compare_functype
compare_functype-eq a b h =
    ground (
      arith,
      compare_resulttype-eq a.parameter b.parameter,
      compare_resulttype-eq a.result b.result,
    )

compare_functype_self : (a : Functype) → compare_functype a a ≡ 0
unfolding compare_functype
compare_functype_self a =
    rw (compare_resulttype_self a.parameter) (compare_resulttype_self a.result)

-- `compare_functype` returns 0 exactly for two equal function types.
pub compare_functype_iff : (a b : Functype) → (compare_functype a b ≡ 0) ↔ (a ≡ b)
compare_functype_iff a b = (compare_functype-eq a b, λ e. rw e (compare_functype_self b))
