-- ===== src/Annotation.antt =====
-- The type annotations of lib/validation.c and lib/exec.c: for instructions such as `drop`, whose
-- operand has a size that the code does not show, validation records the size in cells and execution
-- looks it up by the program counter.
mod Lookup
mod Tests
use toywasm.Base.{ℕ, ◌-◌, Bool, true, false, List, [], ◌∷◌, ◌++◌, length, get_elem?, ltb, ◌==◌, not}
use toywasm.Base.{if◌then◌else◌, ◌||◌, none, some, Result, ok, fault, ◌>>=◌, ◌>>◌, assert}
use toywasm.Types.{Valtype, unknown, is_valtype, eq_valtype, valtype_code, valtype_cellsize}
use toywasm.Validation.{TypeAnnotation, ExprInfo, Context, current_frame}

-- What is appended for a reachable value of type `t`. The test for a repetition compares the size
-- with the type, as the code does.
unfoldable pub annotate : (pc : ℕ) → Valtype → ExprInfo → Result ExprInfo
annotate pc t ei = do
  assert (is_valtype t)
  let csz = valtype_cellsize t
  let appended : ExprInfo = record ei { types = ei.types ++ record { pc = pc; size = csz } ∷ [] }
  if ei.default_size == 0
      then ok (record ei { default_size = csz })
      else elim (get_elem? ei.types (length ei.types - 1)) [
        | none ↦ ok (if ei.default_size == csz then ei else appended)
        | some last ↦ do
          assert (ltb last.pc pc)
          ok (if last.size == valtype_code t then ei else appended)
      ]

unfoldable pub record_type_annotation : (pc : ℕ) → Valtype → Context → Result Context
record_type_annotation pc t ctx = do
  cframe ← current_frame ctx
  let unreached : Result Context = do assert (is_valtype t || eq_valtype t unknown); ok ctx
  let reached : Result Context = do ei ← annotate pc t ctx.ei; ok (record ctx { ei = ei })
  if cframe.unreachable then unreached else reached

-- The scan for the first annotation past `pc`; `size` is that of the annotation before, which is not 0.
unfoldable pub scan : (pc size : ℕ) → List TypeAnnotation → Result ℕ
scan pc size [] = assert (ltb 0 size) >> ok size
scan pc size (a ∷ rest) =
    let later = scan pc a.size rest in if ltb pc a.pc then assert (ltb 0 size) >> ok size else later

unfoldable pub find_type_annotation : (pc : ℕ) → ExprInfo → Result ℕ
find_type_annotation pc ei = do assert (ltb 0 ei.default_size); scan pc ei.default_size ei.types
