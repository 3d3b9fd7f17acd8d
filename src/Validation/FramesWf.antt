-- ===== src/Validation/FramesWf.antt =====
-- The operations on frames keep the context well-formed, seen from outside, and what they return has the
-- types of values.
use toywasm.Base.{ℕ, zero, suc, ◌≡◌, ap, ◌∙◌, subst, arith, Bool, true, false, ◌||◌, ◌==◌}
use toywasm.Base.{List, [], ◌∷◌, All, some, get_elem?, inl, inr, fault}
use toywasm.Base.{sym, if◌then◌else◌, ok, err, einval}
use toywasm.Base.{◌+◌, ◌<◌, ◌≤◌, ◌^◌}
use toywasm.Types.{Valtype, Resulttype, resulttype_cellsize}
use toywasm.Validation.Pop.{IsSegment-cells}
use toywasm.Validation.{CtrlframeOp, Jump, Ctrlframe, Context}
use toywasm.Validation.{is_else_op}
use toywasm.Validation.{push_ctrlframe, pop_ctrlframe, mark_unreachable, label_types}
use toywasm.Validation.{target_label_types, is_loop}
use toywasm.Validation.Invariant.{IsValtype, IsStackOf, IsWf, InFrame-IsWf, IsWf-InFrame}
use toywasm.Validation.Bounds.{push_ctrlframe-room}
use toywasm.Validation.Frames.{
  push_ctrlframe_extended, pop_ctrlframe-Closes, Closes, mark_unreachable-InFrame,
}
use toywasm.Validation.{returntype}
use toywasm.Validation.Frames.{pop_ctrlframe-close, close_frame_ok}
use toywasm.Base.{Option-cases, ◌-◌, length}
use toywasm.Validation.Wf.{List-cases}

pub mark_unreachable-IsWf :
    (ctx ctx' : Context) → IsWf ctx → mark_unreachable ctx ≡ ok ctx' → IsWf ctx'
mark_unreachable-IsWf ctx ctx' w e = elim (List-cases ctx.cframes) [
  | inl empty ↦ absurd (cc (mark_no_frame ctx empty))
  | inr (f, fs, top) ↦
      let (seg, below, h) = IsWf-InFrame top w in
      let (c, e', h') = mark_unreachable-InFrame f fs seg below ctx h in
      let same : c ≡ ctx' = cc in subst IsWf same (InFrame-IsWf h')
]
  where
    mark_no_frame : (ctx : Context) → ctx.cframes ≡ [] → mark_unreachable ctx ≡ fault
    mark_no_frame ctx e = unfold mark_unreachable in ground arith

pub push_ctrlframe-IsWf :
    (pc : ℕ) (op : CtrlframeOp) (jumpslot : ℕ) (start_types end_types : Resulttype)
    (ctx ctx' : Context)
    → IsWf ctx
    → All IsValtype start_types
    → All IsValtype end_types
    → (is_else_op op || jumpslot == 0) ≡ true
    → push_ctrlframe pc op jumpslot start_types end_types ctx ≡ ok ctx'
    → ctx.ncells + resulttype_cellsize start_types < 2 ^ 32
    → IsWf ctx'
push_ctrlframe-IsWf pc op jumpslot start_types end_types ctx ctx' w a b slot e few =
    let (frames, values, extended) =
      push_ctrlframe-room pc op jumpslot start_types end_types ctx ctx' e in
    let r =
      push_ctrlframe_extended pc op jumpslot start_types end_types ctx w a b slot
        (ground (arith, frames)) (ground (arith, values)) few extended in
    let same : r.1 ≡ ctx' = cc (r.2) in subst IsWf same (InFrame-IsWf r.3)

-- The types of the frames of a well-formed context are value types.
abbrev pub HasTypes : Ctrlframe → Type 0
HasTypes f = All IsValtype f.start_types × All IsValtype f.end_types

All-HasTypes :
    (fs : List Ctrlframe) (vs : List Valtype) (n : ℕ) → IsStackOf fs vs n → All HasTypes fs
All-HasTypes [] vs n s = tt
All-HasTypes (f ∷ fs) vs n s = ((s.5, s.6), All-HasTypes fs s.1 f.height_cell s.7)

pub All-get_elem? :
    {A : Type 0} (P : A → Type 0) (xs : List A) (i : ℕ) (x : A)
    → All P xs
    → get_elem? xs i ≡ some x
    → P x
All-get_elem? P [] i x a e = absurd (cc)
All-get_elem? P (y ∷ ys) zero x (p, a) e = subst P (ground arith) p
All-get_elem? P (y ∷ ys) (suc i) x (p, a) e = All-get_elem? P ys i x a e

-- What closing its last frame gives of a context.
abbrev pub Left : Context → Ctrlframe × Context → Type 0
Left ctx (f, ctx') =
    IsWf ctx' × HasTypes f × (ctx'.ncells ≤ ctx.ncells) × (ctx.cframes ≡ f ∷ ctx'.cframes)

pub pop_ctrlframe-IsWf :
    (pc : ℕ) (is_else : Bool) (ctx ctx' : Context) (f : Ctrlframe)
    → IsWf ctx
    → pop_ctrlframe pc is_else ctx ≡ ok (f, ctx')
    → Left ctx (f, ctx')
pop_ctrlframe-IsWf pc is_else ctx ctx' f w e = elim (List-cases ctx.cframes) [
  | inl empty ↦ absurd (cc (pop_no_frame empty))
  | inr (g, fs, top) ↦
      let closed = sym (pop_ctrlframe-close pc is_else ctx g fs top) ∙ e in
      let (pair, jumps, resolved) = close_frame_ok pc is_else g fs ctx (f, ctx') closed in
      let (seg, below, h) = IsWf-InFrame top w in
      of_Closes g fs below jumps _
        (pop_ctrlframe-Closes pc is_else g fs seg below jumps ctx h pair resolved) h.starts h.ends
        (IsSegment-cells g.unreachable g.height_cell seg ctx.ncells h.segment) top
]
  where
    pop_no_frame : ctx.cframes ≡ [] → pop_ctrlframe pc is_else ctx ≡ err einval
    pop_no_frame e = unfold pop_ctrlframe in ground arith

    of_Closes :
        (g : Ctrlframe) (fs : List Ctrlframe) (below : List Valtype) (jumps : List Jump) (b : Bool)
        → Closes g fs below jumps (pop_ctrlframe pc is_else ctx) b
        → All IsValtype g.start_types
        → All IsValtype g.end_types
        → g.height_cell ≤ ctx.ncells
        → ctx.cframes ≡ g ∷ fs
        → Left ctx (f, ctx')
    of_Closes g fs below jumps false c s t le top = absurd (cc)
    of_Closes g fs below jumps true (c, e', w', c1, c2, c3, c4) s t le top =
        let same : ◌≡◌ {A = Ctrlframe × Context} (g, c) (f, ctx') = ground (arith, e, e') in
        subst (Left ctx) same (w', (s, t), omega (arith, c3, le), top ∙ ap (λ gs. g ∷ gs) (sym c1))

pub target_label_types-All :
    (ctx : Context) (labelidx : ℕ) (rt : Resulttype)
    → IsWf ctx
    → target_label_types ctx labelidx ≡ ok rt
    → All IsValtype rt
unfolding target_label_types
target_label_types-All ctx labelidx rt w e = elim (Option-cases (get_elem? ctx.cframes labelidx)) [
  | inl missing ↦ absurd (cc)
  | inr (f, found) ↦
      let (s, t) =
        All-get_elem? HasTypes ctx.cframes labelidx f
          (All-HasTypes ctx.cframes ctx.valtypes ctx.ncells w.stack) found in
      let types : label_types f ≡ rt = ground (arith, e, found) in
      subst (All IsValtype) types (label (is_loop f.op) f.start_types f.end_types s t)
]
  where
    label :
        (b : Bool) (xs ys : Resulttype)
        → All IsValtype xs
        → All IsValtype ys
        → All IsValtype (if b then xs else ys)
    label true xs ys s t = s
    label false xs ys s t = t

returntype-All :
    (ctx : Context) (rt : Resulttype) → IsWf ctx → returntype ctx ≡ ok rt → All IsValtype rt
unfolding returntype
returntype-All ctx rt w e = elim (Option-cases (get_elem? ctx.cframes (length ctx.cframes - 1))) [
  | inl missing ↦ absurd (cc)
  | inr (f, found) ↦
      let (s, t) =
        All-get_elem? HasTypes ctx.cframes (length ctx.cframes - 1) f
          (All-HasTypes ctx.cframes ctx.valtypes ctx.ncells w.stack) found in
      let types : f.end_types ≡ rt = ground (arith, e, found) in subst (All IsValtype) types t
]
