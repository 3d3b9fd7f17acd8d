-- ===== src/Insn/Sound.antt =====
-- Every instruction that validation accepts leaves a well-formed context.
use toywasm.Base.{ℕ, ◌-◌, ◌≡◌, refl, sym, ◌∙◌, subst, Bool, true, false, not, ◌&&◌}
use toywasm.Base.{List, [], ◌∷◌, length, get_elem?, All, none, some, Option, if◌then◌else◌}
use toywasm.Base.{leb, ltb, ◌==◌, ok, ◌>>◌, assert}
use toywasm.Types.{Valtype, i32, unknown, is_valtype, valtype_of_code}
use toywasm.Validation.{block, loop, Ctrlframe, Context, ExprInfo, current_frame}
use toywasm.Validation.{TypeAnnotation}
use toywasm.Base.{◌++◌}
use toywasm.Types.{valtype_cellsize, valtype_code}
use toywasm.Insn.{
  validate_drop, validate_select, validate_select_t, validate_local_get, validate_local_set,
}
use toywasm.Insn.{
  validate_local_tee, validate_global_get, validate_global_set, validate_table_get,
  validate_table_set,
}
use toywasm.Insn.{
  Insn, unreachable, nop, else_insn, end_insn, return_insn, drop, select, block_insn, loop_insn,
  if_insn,
}
use toywasm.Insn.{
  br, br_if, br_table, call, call_indirect, select_t, local_get, local_set, local_tee,
}
use toywasm.Insn.{global_get, global_set, table_get, table_set, validate_insn}
use toywasm.Validation.Invariant.{IsValtype, IsWf}
use toywasm.Validation.Wf.{push_valtype-IsWf}
use toywasm.Validation.Wf.{MayPushOn}
use toywasm.Validation.FramesWf.{All-get_elem?}
use toywasm.Annotation.{annotate, record_type_annotation}
use toywasm.Insn.{Module}
use toywasm.Insn.Returns.{GlobalHasValtype, IsModule, Returns, bind, pass, stop}
use toywasm.Insn.Returns.{test, asserts, branch, lookup, pushes_value, pops_value}
use toywasm.Insn.Returns.{marks, labels, FitsWf, fitting}
use toywasm.Insn.Control.{StartsFit}
use toywasm.Validation.Bounds.{Fits}
use toywasm.Insn.Control.{
  validate_else-IsWf, validate_end-IsWf, validate_br-IsWf, validate_br_if-IsWf,
}
use toywasm.Insn.Control.{validate_br_table-IsWf, validate_return-IsWf}
use toywasm.Insn.Control.{validate_call-IsWf, validate_call_indirect-IsWf}
use toywasm.Insn.Control.{enter_block-IsWf, validate_if-IsWf}

-- Annotations are no part of what well-formedness speaks of.
abbrev SameBounds : ExprInfo → ExprInfo → Type 0
SameBounds ei ei' = (ei'.maxcells ≡ ei.maxcells) × (ei'.maxlabels ≡ ei.maxlabels)

annotate-SameBounds :
    (pc : ℕ) (t : Valtype) (ei : ExprInfo) → Returns (SameBounds ei) (annotate pc t ei)
unfolding annotate
annotate-SameBounds pc t ei = bind (asserts (is_valtype t)) (λ _ _.
    branch (ei.default_size == 0)
      (pass (record ei { default_size = valtype_cellsize t }) (refl, refl))
      (last (record ei { types = ei.types ++ record { pc = pc; size = valtype_cellsize t } ∷ [] })
        (refl, refl) (get_elem? ei.types (length ei.types - 1))))
  where
    keep :
        (b : Bool) (x : ExprInfo)
        → SameBounds ei x
        → Returns (SameBounds ei) (ok (if b then ei else x))
    keep true x h = pass ei (refl, refl)
    keep false x h = pass x h

    last :
        (x : ExprInfo)
        → SameBounds ei x
        → (o : Option TypeAnnotation)
        → Returns (SameBounds ei) (elim o [
          | none ↦ ok (if ei.default_size == valtype_cellsize t then ei else x)
          | some a ↦ do assert (ltb a.pc pc); ok (if a.size == valtype_code t then ei else x)
        ])
    last x h none = keep (ei.default_size == valtype_cellsize t) x h
    last x h (some a) = bind (asserts (ltb a.pc pc)) (λ _ _. keep (a.size == valtype_code t) x h)

abbrev SameFrames : Context → Context → Type 0
SameFrames ctx ctx' = IsWf ctx' × (ctx'.cframes ≡ ctx.cframes)

record_type_annotation-IsWf :
    (pc : ℕ) (t : Valtype) {ctx : Context}
    → IsWf ctx
    → Returns (SameFrames ctx) (record_type_annotation pc t ctx)
unfolding record_type_annotation
record_type_annotation-IsWf pc t {ctx} w =
    bind {P = λ _. Unit {0}} {m = current_frame ctx} (record { run = λ _ _. tt })
      (λ (f : Ctrlframe) _. branch f.unreachable (bind (asserts _) (λ _ _. pass ctx (w, refl))) (
        bind (annotate-SameBounds pc t ctx.ei) (λ (ei : ExprInfo) (cells, labels).
          pass (record ctx { ei = ei })
            (
              record { stack = w.stack; cells = rw cells w.cells; labels = rw labels w.labels },
              refl,
            ))))

validate_drop-IsWf : (pc : ℕ) {ctx : Context} → IsWf ctx → Returns IsWf (validate_drop pc ctx)
unfolding validate_drop
validate_drop-IsWf pc w = bind (pops_value unknown w) (λ (t, c) (w1, _, _). record {
  run = λ c2 e. ((record_type_annotation-IsWf pc t w1).run c2 e).0;
})

validate_select-IsWf : (pc : ℕ) {ctx : Context} → IsWf ctx → Returns FitsWf (validate_select pc ctx)
unfolding validate_select
validate_select-IsWf pc w = bind (pops_value i32 w) (λ (t1, c1) (w1, _, _).
    bind (pops_value unknown w1) (λ (t2, c2) (w2, m, _).
      bind (pops_value t2 w2) (λ (t3, c3) (w3, _, same).
        bind (record_type_annotation-IsWf pc t2 w3) (λ c4 (w4, same'). bind (test _) (λ _ _.
          record {
            run = λ c e fits.
                (push_valtype-IsWf t2 c4 c w4
                  (subst (λ (cs : List Ctrlframe). MayPushOn cs t2) (sym (same' ∙ same)) m) e
                  fits).0;
          })))))

validate_select_t-IsWf :
    (types : List ℕ) {ctx : Context} → IsWf ctx → Returns FitsWf (validate_select_t types ctx)
unfolding validate_select_t
validate_select_t-IsWf [] w = stop
validate_select_t-IsWf (u8 ∷ []) w =
    let t = valtype_of_code u8 in
    bind (test (is_valtype t)) (λ _ v. bind (pops_value i32 w) (λ (t1, c1) (w1, _, _).
      bind (pops_value t w1) (λ (t2, c2) (w2, _, _).
        bind (pops_value t w2) (λ (t3, c3) (w3, _, _). pushes_value t w3 v))))
validate_select_t-IsWf (u8 ∷ u8' ∷ types) w = stop

module _ (localidx : ℕ) {ctx : Context} (w : IsWf ctx) (locals : All IsValtype ctx.locals) where
  local_valtype : (t : Valtype) → get_elem? ctx.locals localidx ≡ some t → IsValtype t
  local_valtype t e = All-get_elem? IsValtype ctx.locals localidx t locals e

  validate_local_get-IsWf : Returns FitsWf (validate_local_get localidx ctx)
  unfolding validate_local_get
  validate_local_get-IsWf =
      lookup (get_elem? ctx.locals localidx) _ (λ t e. pushes_value t w (local_valtype t e))

  validate_local_set-IsWf : Returns IsWf (validate_local_set localidx ctx)
  unfolding validate_local_set
  validate_local_set-IsWf =
      lookup (get_elem? ctx.locals localidx) _
        (λ t e. bind (pops_value t w) (λ (t1, c1) (w1, _, _). pass c1 w1))

  validate_local_tee-IsWf : Returns FitsWf (validate_local_tee localidx ctx)
  unfolding validate_local_tee
  validate_local_tee-IsWf =
      lookup (get_elem? ctx.locals localidx) _ (λ t e.
        bind (pops_value t w) (λ (t1, c1) (w1, _, _). pushes_value t w1 (local_valtype t e)))

module _ (m : Module) (idx : ℕ) {ctx : Context} (h : IsModule m) (w : IsWf ctx) where
  validate_global_get-IsWf : Returns FitsWf (validate_global_get m idx ctx)
  unfolding validate_global_get
  validate_global_get-IsWf = lookup (get_elem? m.globals idx) _ (λ g e.
      bind (test (not (ctx.const_expr && leb m.nimportedglobals idx))) (λ _ _.
        bind (test (not (ctx.const_expr && not g.const)))
          (λ _ _. pushes_value g.t w (All-get_elem? GlobalHasValtype m.globals idx g h.globals e))))

  validate_global_set-IsWf : Returns IsWf (validate_global_set m idx ctx)
  unfolding validate_global_set
  validate_global_set-IsWf =
      lookup (get_elem? m.globals idx) _
        (λ g e. bind (test _) (λ _ _. bind (pops_value g.t w) (λ (t1, c1) (w1, _, _). pass c1 w1)))

  validate_table_get-IsWf : Returns FitsWf (validate_table_get m idx ctx)
  unfolding validate_table_get
  validate_table_get-IsWf = lookup (get_elem? m.tables idx) _ (λ et e.
      bind (pops_value i32 w) (λ (t1, c1) (w1, _, _).
        pushes_value et w1 (All-get_elem? IsValtype m.tables idx et h.tables e)))

  validate_table_set-IsWf : Returns IsWf (validate_table_set m idx ctx)
  unfolding validate_table_set
  validate_table_set-IsWf = lookup (get_elem? m.tables idx) _ (λ et e.
      bind (pops_value et w)
        (λ (t1, c1) (w1, _, _). bind (pops_value i32 w1) (λ (t2, c2) (w2, _, _). pass c2 w2)))

validate_insn-Returns :
    (m : Module) (pc : ℕ) (insn : Insn) {ctx : Context}
    → IsModule m
    → IsWf ctx
    → All IsValtype ctx.locals
    → StartsFit ctx
    → Returns FitsWf (validate_insn m pc insn ctx)
unfolding validate_insn
validate_insn-Returns m pc unreachable h w l starts = fitting (marks w)
validate_insn-Returns m pc nop h w l starts = fitting (pass _ w)
validate_insn-Returns m pc else_insn h w l starts = validate_else-IsWf pc w
validate_insn-Returns m pc end_insn h w l starts = validate_end-IsWf pc w starts
validate_insn-Returns m pc return_insn h w l starts = fitting (validate_return-IsWf w)
validate_insn-Returns m pc drop h w l starts = fitting (validate_drop-IsWf pc w)
validate_insn-Returns m pc select h w l starts = validate_select-IsWf pc w
validate_insn-Returns m pc (block_insn b) h w l starts = enter_block-IsWf m pc block b h w refl
validate_insn-Returns m pc (loop_insn b) h w l starts = enter_block-IsWf m pc loop b h w refl
validate_insn-Returns m pc (if_insn b) h w l starts = validate_if-IsWf m pc b h w
validate_insn-Returns m pc (br i) h w l starts = fitting (validate_br-IsWf i w)
validate_insn-Returns m pc (br_if i) h w l starts = validate_br_if-IsWf i w
validate_insn-Returns m pc (br_table is i) h w l starts = fitting (validate_br_table-IsWf is i w)
validate_insn-Returns m pc (call i) h w l starts = validate_call-IsWf m i h w
validate_insn-Returns m pc (call_indirect i j) h w l starts = validate_call_indirect-IsWf m i j h w
validate_insn-Returns m pc (select_t ts) h w l starts = validate_select_t-IsWf ts w
validate_insn-Returns m pc (local_get i) h w l starts = validate_local_get-IsWf i w l
validate_insn-Returns m pc (local_set i) h w l starts = fitting (validate_local_set-IsWf i w l)
validate_insn-Returns m pc (local_tee i) h w l starts = validate_local_tee-IsWf i w l
validate_insn-Returns m pc (global_get i) h w l starts = validate_global_get-IsWf m i h w
validate_insn-Returns m pc (global_set i) h w l starts = fitting (validate_global_set-IsWf m i h w)
validate_insn-Returns m pc (table_get i) h w l starts = validate_table_get-IsWf m i h w
validate_insn-Returns m pc (table_set i) h w l starts = fitting (validate_table_set-IsWf m i h w)

-- If one of the modelled instructions is accepted in a well-formed context, of a module and locals with
-- value types, the context that validation goes on with is well-formed: the stack is cut into the
-- segments of the open frames, `ncells` counts its reachable cells, and the bounds cover it. This holds
-- while 32 bits count the cells: those of the stack behind the instruction, and those before it with
-- the start types of the last frame.
pub validate_insn-IsWf :
    (m : Module) (pc : ℕ) (insn : Insn) (ctx ctx' : Context)
    → IsModule m
    → IsWf ctx
    → All IsValtype ctx.locals
    → StartsFit ctx
    → validate_insn m pc insn ctx ≡ ok ctx'
    → Fits ctx'
    → IsWf ctx'
validate_insn-IsWf m pc insn ctx ctx' h w l starts e fits =
    (validate_insn-Returns m pc insn h w l starts).run ctx' e fits
