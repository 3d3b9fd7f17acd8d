-- ===== src/Validation/Bounds.antt =====
-- What pushes put on the stack, where they returned, and how it bounds the count of cells.
use toywasm.Base.{ℕ, ◌+◌, ◌-◌, ◌<◌, ◌≤◌, ◌^◌, ◌≡◌, refl, sym, ap, ◌∙◌, arith, Bool, true, false}
use toywasm.Base.{List, [], ◌∷◌, ◌++◌, length, not, ◌||◌, ◌==◌, leb}
use toywasm.Base.{ok, eoverflow, >>=-eq-ok, check, assert}
use toywasm.Types.{Valtype, anyref, unknown, Resulttype, resulttype_cellsize, eq_valtype}
use toywasm.Types.Laws.{resulttype_cellsize-append}
use toywasm.Vec.{prealloc}
use toywasm.Validation.{CtrlframeOp, Ctrlframe, Context, current_frame, count_push}
use toywasm.Validation.{push_valtype_common, push_loop, push_valtypes, push_ctrlframe}
use toywasm.Validation.{extend_jumps, slots_for, is_else_op}
use toywasm.Validation.Invariant.{IsSegment, IsStackOf, IsWf}

-- The cells of the whole stack are fewer than 2^32.
abbrev pub Fits : Context → Type 0
Fits ctx = resulttype_cellsize ctx.valtypes < 2 ^ 32

pub cells_le_stack :
    (fs : List Ctrlframe) (vs : List Valtype) (n : ℕ)
    → IsStackOf fs vs n
    → n ≤ resulttype_cellsize vs
cells_le_stack [] vs n (_, e) = omega (arith, e)
cells_le_stack (f ∷ fs) vs n (seg, below, cut, _, segment, _, _, outer) = rw cut (
    segment_cells f.unreachable f.height_cell seg n (resulttype_cellsize (seg ++ below))
      (resulttype_cellsize below) (resulttype_cellsize-append seg below)
      (cells_le_stack fs below f.height_cell outer) segment)
  where
    segment_cells :
        (u : Bool) (hc : ℕ) (seg : List Valtype) (n all rest : ℕ)
        → all ≡ resulttype_cellsize seg + rest
        → hc ≤ rest
        → IsSegment u hc seg n
        → n ≤ all
    segment_cells true hc seg n all rest e le (at, _) = omega (arith, e, le, at)
    segment_cells false hc seg n all rest e le (at, _) = omega (arith, e, le, at)

pub prealloc_passed :
    (lsize count : ℕ) (done : Unit {0})
    → prealloc lsize count ≡ ok done
    → leb (lsize + count) (2 ^ 32 - 1) ≡ true
prealloc_passed lsize count done e = checked (leb (lsize + count) (2 ^ 32 - 1)) e
  where
    checked : (b : Bool) → check b eoverflow ≡ ok done → b ≡ true
    checked true e = refl
    checked false e = absurd (cc)

-- What a push has put on the stack, if it returned.
pub push_common-valtypes :
    (t : Valtype) (f : Ctrlframe) (ctx ctx' : Context)
    → push_valtype_common t f ctx ≡ ok ctx'
    → ctx'.valtypes ≡ t ∷ ctx.valtypes
unfolding push_valtype_common count_push
push_common-valtypes t f ctx ctx' e =
    let (_, _, e1) = >>=-eq-ok (assert (not (eq_valtype t anyref))) _ e in
    let (_, _, e2) = >>=-eq-ok (assert (not (eq_valtype t unknown) || f.unreachable)) _ e1 in
    let pushed : (count_push t f ctx).valtypes ≡ t ∷ ctx.valtypes = ground arith in
    sym (valtypes_of e2) ∙ pushed
  where
    valtypes_of : {c : Context} → ok c ≡ ok ctx' → c.valtypes ≡ ctx'.valtypes
    valtypes_of e = cc

push_loop-cells :
    (ts : Resulttype) (f : Ctrlframe) (ctx ctx' : Context)
    → push_loop ts f ctx ≡ ok ctx'
    → resulttype_cellsize ctx'.valtypes ≡ resulttype_cellsize ts + resulttype_cellsize ctx.valtypes
unfolding push_loop
push_loop-cells [] f ctx ctx' e = omega (arith, ap resulttype_cellsize (valtypes_of e))
  where
    valtypes_of : ok ctx ≡ ok ctx' → ctx.valtypes ≡ ctx'.valtypes
    valtypes_of e = cc
push_loop-cells (t ∷ ts) f ctx ctx' e =
    let (c, e1, e2) = >>=-eq-ok (push_valtype_common t f ctx) _ e in
    omega (
      arith,
      push_loop-cells ts f c ctx' e2,
      ap resulttype_cellsize (push_common-valtypes t f ctx c e1),
    )

pub push_valtypes-cells :
    (ts : Resulttype) (ctx ctx' : Context)
    → push_valtypes ts ctx ≡ ok ctx'
    → resulttype_cellsize ctx'.valtypes ≡ resulttype_cellsize ts + resulttype_cellsize ctx.valtypes
unfolding push_valtypes
push_valtypes-cells ts ctx ctx' e =
    let (_, _, e1) = >>=-eq-ok (prealloc (length ctx.valtypes) (length ts)) _ e in
    let (f, _, e2) = >>=-eq-ok (current_frame ctx) _ e1 in push_loop-cells ts f ctx ctx' e2

-- What a push of a frame has passed and put on the stack, if it returned.
pub push_ctrlframe-room :
    (pc : ℕ) (op : CtrlframeOp) (jumpslot : ℕ) (start_types end_types : Resulttype)
    (ctx ctx' : Context)
    → push_ctrlframe pc op jumpslot start_types end_types ctx ≡ ok ctx'
    → (leb (length ctx.cframes + 1) (2 ^ 32 - 1) ≡ true)
      × (leb (length ctx.valtypes + length start_types) (2 ^ 32 - 1) ≡ true)
      × (extend_jumps (length ctx.ei.jumps) (slots_for ctx.generate_jump_table op) ≡ ok tt)
unfolding push_ctrlframe push_valtypes
push_ctrlframe-room pc op jumpslot start_types end_types ctx ctx' e =
    let (_, frames, e1) = >>=-eq-ok (prealloc (length ctx.cframes) 1) _ e in
    let (_, _, e2) = >>=-eq-ok (assert (is_else_op op || jumpslot == 0)) _ e1 in
    let nslots = slots_for ctx.generate_jump_table op in
    let (_, extended, e3) = >>=-eq-ok (extend_jumps (length ctx.ei.jumps) nslots) _ e2 in
    let (_, values, _) = >>=-eq-ok (prealloc (length ctx.valtypes) (length start_types)) _ e3 in
    (
      prealloc_passed (length ctx.cframes) 1 tt frames,
      prealloc_passed (length ctx.valtypes) (length start_types) tt values,
      extended,
    )

push_ctrlframe-cells :
    (pc : ℕ) (op : CtrlframeOp) (jumpslot : ℕ) (start_types end_types : Resulttype)
    (ctx ctx' : Context)
    → push_ctrlframe pc op jumpslot start_types end_types ctx ≡ ok ctx'
    → resulttype_cellsize ctx'.valtypes
      ≡ resulttype_cellsize start_types + resulttype_cellsize ctx.valtypes
unfolding push_ctrlframe
push_ctrlframe-cells pc op jumpslot start_types end_types ctx ctx' e =
    let (_, _, e1) = >>=-eq-ok (prealloc (length ctx.cframes) 1) _ e in
    let (_, _, e2) = >>=-eq-ok (assert (is_else_op op || jumpslot == 0)) _ e1 in
    let nslots = slots_for ctx.generate_jump_table op in
    let (_, _, e3) = >>=-eq-ok (extend_jumps (length ctx.ei.jumps) nslots) _ e2 in
    push_valtypes-cells start_types _ ctx' e3

pub push_ctrlframe_few :
    (pc : ℕ) (op : CtrlframeOp) (jumpslot : ℕ) (start_types end_types : Resulttype)
    (ctx ctx' : Context)
    → IsWf ctx
    → push_ctrlframe pc op jumpslot start_types end_types ctx ≡ ok ctx'
    → Fits ctx'
    → ctx.ncells + resulttype_cellsize start_types < 2 ^ 32
push_ctrlframe_few pc op jumpslot start_types end_types ctx ctx' w e fits = omega (
  arith,
  cells_le_stack ctx.cframes ctx.valtypes ctx.ncells w.stack,
  push_ctrlframe-cells pc op jumpslot start_types end_types ctx ctx' e,
  fits,
)
