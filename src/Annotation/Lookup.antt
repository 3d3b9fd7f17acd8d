-- ===== src/Annotation/Lookup.antt =====
-- What validation annotates, execution finds.
use toywasm.Base.{ℕ, zero, suc, ◌-◌, ◌≤◌, ◌<◌, ◌≡◌, refl, ap, ◌∙◌, sym, arith, true}
use toywasm.Base.{List, [], ◌∷◌, ◌++◌, length, get_elem?, All, ltb, ◌==◌, if◌then◌else◌, none, some}
use toywasm.Base.{Result, assert, ◌>>◌, subst, ok, inl, inr, ◌⊎◌, lt_or_le, Bool-cases}
use toywasm.Base.{lt→ltb, le→not_ltb, get_elem?-some}
use toywasm.Types.{Valtype, i32, i64, f32, f64, v128, funcref, externref, exnref, anyref, unknown}
use toywasm.Types.{is_valtype, valtype_code, valtype_cellsize}
use toywasm.Validation.{TypeAnnotation, ExprInfo}
use toywasm.Annotation.{annotate, scan, find_type_annotation}

-- The annotations made before `pc`: sizes are not 0 and at most those of a vector.
abbrev pub IsBefore : ℕ → TypeAnnotation → Type 0
IsBefore pc a = (a.pc < pc) × (1 ≤ a.size) × (a.size ≤ 4)

abbrev pub IsAnnotated : ℕ → ExprInfo → Type 0
IsAnnotated pc ei = All (IsBefore pc) ei.types

All-append :
    (pc : ℕ) (anns : List TypeAnnotation) (a : TypeAnnotation)
    → All (IsBefore pc) anns
    → IsBefore pc a
    → All (IsBefore pc) (anns ++ a ∷ [])
All-append pc [] a h b = (b, tt)
All-append pc (x ∷ rest) a (p, h) b = (p, All-append pc rest a h b)

All-later :
    (pc pc' : ℕ) (anns : List TypeAnnotation)
    → pc ≤ pc'
    → All (IsBefore pc) anns
    → All (IsBefore pc') anns
All-later pc pc' [] le h = tt
All-later pc pc' (a ∷ rest) le ((x, low, y), h) =
    ((omega (arith, x, le), low, y), All-later pc pc' rest le h)

-- A later annotation does not change what is found before it.
scan_before :
    (q size : ℕ) (anns : List TypeAnnotation) (a : TypeAnnotation)
    → q < a.pc
    → scan q size (anns ++ a ∷ []) ≡ scan q size anns
unfolding scan
scan_before q size [] a h = rw (lt→ltb q a.pc h) refl
scan_before q size (b ∷ rest) a h =
    ap (λ (r : Result ℕ). if ltb q b.pc then assert (ltb 0 size) >> ok size else r)
      (scan_before q b.size rest a h)

All-last :
    (pc : ℕ) (anns : List TypeAnnotation) (i : ℕ) (a : TypeAnnotation)
    → All (IsBefore pc) anns
    → get_elem? anns i ≡ some a
    → IsBefore pc a
All-last pc [] i a h e = absurd (cc)
All-last pc (x ∷ rest) zero a (p, h) e = subst (IsBefore pc) (some_inj e) p
  where
    some_inj : some x ≡ some a → x ≡ a
    some_inj e = cc
All-last pc (x ∷ rest) (suc i) a (p, h) e = All-last pc rest i a h e

size_of :
    (t : Valtype)
    → is_valtype t ≡ true
    → (1 ≤ valtype_cellsize t) × (valtype_cellsize t ≤ 4) × (4 < valtype_code t)
size_of i32 h = (omega arith, omega arith, omega arith)
size_of i64 h = (omega arith, omega arith, omega arith)
size_of f32 h = (omega arith, omega arith, omega arith)
size_of f64 h = (omega arith, omega arith, omega arith)
size_of v128 h = (omega arith, omega arith, omega arith)
size_of funcref h = (omega arith, omega arith, omega arith)
size_of externref h = (omega arith, omega arith, omega arith)
size_of exnref h = absurd (cc)
size_of anyref h = absurd (cc)
size_of unknown h = absurd (cc)

scan-append_self :
    (pc size : ℕ) (anns : List TypeAnnotation) (a : TypeAnnotation)
    → All (IsBefore pc) anns
    → a.pc ≡ pc
    → 1 ≤ a.size
    → scan pc size (anns ++ a ∷ []) ≡ ok a.size
unfolding scan
scan-append_self pc size [] a h e low =
    rw (le→not_ltb pc a.pc (omega arith), lt→ltb 0 a.size (omega arith)) refl
scan-append_self pc size (b ∷ rest) a ((lt, _, le), h) e low =
    rw (le→not_ltb pc b.pc (omega (arith, lt))) (scan-append_self pc b.size rest a h e low)

find_of_scan :
    (pc : ℕ) (ei : ExprInfo) (r : Result ℕ)
    → 1 ≤ ei.default_size
    → scan pc ei.default_size ei.types ≡ r
    → find_type_annotation pc ei ≡ r
unfolding find_type_annotation
find_of_scan pc ei r h e = rw (lt→ltb 0 ei.default_size (omega arith), e) refl

-- What an annotation at `pc` achieves.
abbrev pub Annotates : (pc : ℕ) → Valtype → (ei ei' : ExprInfo) → Type 0
Annotates pc t ei ei' =
    (find_type_annotation pc ei' ≡ ok (valtype_cellsize t))
    × ((q : ℕ)
        → q < pc
        → 1 ≤ ei.default_size
        → find_type_annotation q ei' ≡ find_type_annotation q ei)
    × ((pc' : ℕ) → pc < pc' → IsAnnotated pc' ei')

module _ (pc : ℕ) (t : Valtype) (ei : ExprInfo) (before : IsAnnotated pc ei)
    (valid : is_valtype t ≡ true) where
  abbrev appended : ExprInfo
  appended = record ei { types = ei.types ++ record { pc = pc; size = valtype_cellsize t } ∷ [] }

  appended-Annotates : 1 ≤ ei.default_size → Annotates pc t ei appended
  appended-Annotates d =
      let (low, high, _) = size_of t valid in
      let a : TypeAnnotation = record { pc = pc; size = valtype_cellsize t } in
      (
        find_of_scan pc appended _ d
            (scan-append_self pc ei.default_size ei.types a before refl low),
        (λ q lt d'.
            find_of_scan q appended _ d (scan_before q ei.default_size ei.types a lt)
            ∙ sym (find_of_scan q ei _ d refl)),
        λ pc' lt.
            All-append pc' ei.types a (All-later pc pc' ei.types (omega arith) before)
              (omega arith, low, high),
      )

  first-Annotates :
      ei.types ≡ []
      → ei.default_size ≡ 0
      → Annotates pc t ei (record ei { default_size = valtype_cellsize t })
  first-Annotates none_yet d =
      let (low, high, _) = size_of t valid in
      let ei' : ExprInfo = record ei { default_size = valtype_cellsize t } in
      (
        find_of_scan pc ei' _ low (
            ap (λ (anns : List TypeAnnotation). scan pc (valtype_cellsize t) anns) none_yet
            ∙ scan_nil low),
        (λ q lt d'. absurd (omega arith)),
        λ pc' lt. All-later pc pc' ei.types (omega arith) before,
      )
    where
      scan_nil : 1 ≤ valtype_cellsize t → scan pc (valtype_cellsize t) [] ≡ ok (valtype_cellsize t)
      scan_nil low = unfold scan in rw (lt→ltb 0 (valtype_cellsize t) (omega arith)) refl

  default-Annotates :
      ei.types ≡ []
      → 1 ≤ ei.default_size
      → ei.default_size ≡ valtype_cellsize t
      → Annotates pc t ei ei
  default-Annotates none_yet d same = (
    find_of_scan pc ei _ d (
        ap (λ (anns : List TypeAnnotation). scan pc ei.default_size anns) none_yet
        ∙ scan_nil
        ∙ ap ok same),
    (λ q lt d'. refl),
    λ pc' lt. All-later pc pc' ei.types (omega arith) before,
  )
    where
      scan_nil : scan pc ei.default_size [] ≡ ok ei.default_size
      scan_nil = unfold scan in rw (lt→ltb 0 ei.default_size (omega arith)) refl

  List-end :
      (anns : List TypeAnnotation)
      → (anns ≡ []) ⊎ ((last : TypeAnnotation) × (get_elem? anns (length anns - 1) ≡ some last))
  List-end [] = inl refl
  List-end (a ∷ rest) = inr (get_elem?-some (a ∷ rest) (suc (length rest) - 1) (omega arith))

  -- Annotations are made at increasing program counters and of sizes from 1 to 4, the default size by
  -- the first. Then an
  -- annotation fails no assertion, the instruction at `pc` finds the size of its type, all
  -- instructions before it find what they found, and the annotations are ready for a later one.
  pub find_type_annotation-annotate :
      (ei.default_size ≡ 0 → ei.types ≡ [])
      → (ei' : ExprInfo) × (annotate pc t ei ≡ ok ei') × Annotates pc t ei ei'
  unfolding annotate
  find_type_annotation-annotate unset = elim (lt_or_le 0 ei.default_size) [
    | inr zero_size ↦ (
      record ei { default_size = valtype_cellsize t },
      rw valid (ground arith),
      first-Annotates (unset (omega arith)) (omega arith),
    )
    | inl d ↦ elim (List-end ei.types) [
      | inl none_yet ↦
          let e : get_elem? ei.types (length ei.types - 1) ≡ none =
            ap (λ (anns : List TypeAnnotation). get_elem? anns (length anns - 1)) none_yet in
          elim (Bool-cases (ei.default_size == valtype_cellsize t)) [
            | inl same ↦
                (ei, ground (arith, valid, e, same), default-Annotates none_yet d (ground arith))
            | inr differs ↦ (appended, ground (arith, valid, e, differs), appended-Annotates d)
          ]
      | inr (last, e) ↦
          let (earlier, _, small) = All-last pc ei.types (length ei.types - 1) last before e in
          let (_, _, large) = size_of t valid in
          (appended, ground (arith, valid, e, earlier, small, large), appended-Annotates d)
    ]
  ]
