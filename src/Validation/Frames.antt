-- ===== src/Validation/Frames.antt =====
-- Control frames: pushing, closing, and marking the rest of a block unreachable.
use toywasm.Base.{
  ℕ, zero, suc, fault, ◌+◌, ◌-◌, ◌≡◌, refl, ap, arith, Bool, true, false, not, ◌||◌, ◌&&◌,
}
use toywasm.Base.{List, [], ◌∷◌, ◌++◌, length, length-append, All, Option, none, some, drop}
use toywasm.Base.{
  Result, ok, err, einval, ◌>>=◌, ◌>>◌, >>=-eq-ok, check, assert, ltb, ◌==◌, if◌then◌else◌,
}
use toywasm.Base.{◌^◌, ◌<◌, leb, u32, Bool-cases, inl, inr}
use toywasm.Validation.{extend_jumps}
use toywasm.Types.{Valtype, Resulttype, resulttype_cellsize}
use toywasm.Validation.{CtrlframeOp, Jump, Ctrlframe, Context, is_if, is_else_op}
use toywasm.Validation.{push_ctrlframe, resolve_jump, close_frame, pop_ctrlframe}
use toywasm.Validation.{slots_for, new_slots, mark_unreachable}
use toywasm.Validation.Invariant.{IsValtype, InFrame, IsWf}
use toywasm.Validation.Push.{push_valtypes-InFrame, push_all}
use toywasm.Validation.Pop.{
  pop_segment, Leaves, pop_valtypes-Leaves, IsSegment-nil, IsSegment-cells,
}
use mathlib.Core.List.{reverse}

-- The frame that is pushed, and the context with it, before its start types.
abbrev new_frame :
    CtrlframeOp → (slot : ℕ) → (start_types end_types : Resulttype) → Context → Ctrlframe
new_frame op slot start_types end_types ctx = record {
  op = op;
  jumpslot = slot;
  start_types = start_types;
  end_types = end_types;
  unreachable = false;
  height = length ctx.valtypes;
  height_cell = ctx.ncells;
}

abbrev with_frame : Ctrlframe → List Jump → Context → Context
with_frame f jumps ctx =
    let ei = ctx.ei in
    let nlabels = length ctx.cframes + 1 in
    record ctx {
      cframes = f ∷ ctx.cframes;
      ei = record ei {
        jumps = jumps;
        maxlabels = if ltb ei.maxlabels nlabels then nlabels else ei.maxlabels;
      };
    }

with_frame-InFrame :
    (op : CtrlframeOp) (slot : ℕ) (start_types end_types : Resulttype) (jumps : List Jump)
    (ctx : Context)
    → IsWf ctx
    → All IsValtype start_types
    → All IsValtype end_types
    → let f = new_frame op slot start_types end_types ctx in
      InFrame f ctx.cframes [] ctx.valtypes (with_frame f jumps ctx)
with_frame-InFrame op slot start_types end_types jumps ctx w a b = record {
  top = refl;
  stack = refl;
  height = refl;
  segment = (omega arith, tt);
  starts = a;
  ends = b;
  outer = w.stack;
  cells = w.cells;
  labels = ground arith;
}

extend_jumps-ok :
    (njumps nslots : ℕ) → njumps + nslots < 2 ^ 32 → extend_jumps njumps nslots ≡ ok tt
extend_jumps-ok njumps nslots few = elim (Bool-cases (nslots == 0)) [
  | inl none_new ↦ rw none_new refl
  | inr some_new ↦
      let unwrapped : u32 (njumps + nslots) ≡ njumps + nslots = omega (arith, few) in
      ground (arith, some_new, unwrapped)
]

pub push_ctrlframe_extended :
    (pc : ℕ) (op : CtrlframeOp) (jumpslot : ℕ) (start_types end_types : Resulttype) (ctx : Context)
    → IsWf ctx
    → All IsValtype start_types
    → All IsValtype end_types
    → (is_else_op op || jumpslot == 0) ≡ true
    → length ctx.cframes + 1 < 2 ^ 32
    → length ctx.valtypes + length start_types < 2 ^ 32
    → ctx.ncells + resulttype_cellsize start_types < 2 ^ 32
    → extend_jumps (length ctx.ei.jumps) (slots_for ctx.generate_jump_table op) ≡ ok tt
    → (f : Ctrlframe) × (ctx' : Context) × (push_ctrlframe pc op jumpslot start_types end_types ctx
        ≡ ok ctx')
      × InFrame f ctx.cframes (push_all start_types []) ctx.valtypes ctx'
      × (f.op ≡ op)
      × (f.start_types ≡ start_types)
      × (f.end_types ≡ end_types)
      × (f.unreachable ≡ false)
      × (f.height_cell ≡ ctx.ncells)
unfolding push_ctrlframe
push_ctrlframe_extended pc op jumpslot start_types end_types ctx w a b slot few_frames few_values
      few extends =
    let nslots = slots_for ctx.generate_jump_table op in
    let s = if nslots == 0 then jumpslot else length ctx.ei.jumps in
    let f : Ctrlframe = new_frame op s start_types end_types ctx in
    let jumps = ctx.ei.jumps ++ new_slots nslots pc in
    let (ctx', e, h) =
      push_valtypes-InFrame start_types f ctx.cframes [] ctx.valtypes (with_frame f jumps ctx) a
        few_values few (with_frame-InFrame op s start_types end_types jumps ctx w a b) in
    let fits : leb (length ctx.cframes + 1) (2 ^ 32 - 1) ≡ true = ground (arith, few_frames) in
    (f, ctx', simp (fits, slot, extends) e, h, refl, refl, refl, refl, refl)

-- A frame on top of a well-formed context, where the numbers of frames, of values, of their cells
-- and of jumps stay under 2^32: nothing fails, the frame starts reachable and owns its
-- start types, the rest of the context is as it was, and `maxlabels` and `maxcells` still bound it.
pub push_ctrlframe-InFrame :
    (pc : ℕ) (op : CtrlframeOp) (jumpslot : ℕ) (start_types end_types : Resulttype) (ctx : Context)
    → IsWf ctx
    → All IsValtype start_types
    → All IsValtype end_types
    → (is_else_op op || jumpslot == 0) ≡ true
    → length ctx.cframes + 1 < 2 ^ 32
    → length ctx.valtypes + length start_types < 2 ^ 32
    → ctx.ncells + resulttype_cellsize start_types < 2 ^ 32
    → length ctx.ei.jumps + slots_for ctx.generate_jump_table op < 2 ^ 32
    → (f : Ctrlframe) × (ctx' : Context) × (push_ctrlframe pc op jumpslot start_types end_types ctx
        ≡ ok ctx')
      × InFrame f ctx.cframes (push_all start_types []) ctx.valtypes ctx'
      × (f.op ≡ op)
      × (f.start_types ≡ start_types)
      × (f.end_types ≡ end_types)
      × (f.unreachable ≡ false)
      × (f.height_cell ≡ ctx.ncells)
push_ctrlframe-InFrame pc op jumpslot start_types end_types ctx w a b slot few_frames few_values few
      few_jumps =
    push_ctrlframe_extended pc op jumpslot start_types end_types ctx w a b slot few_frames
      few_values few
      (extend_jumps-ok (length ctx.ei.jumps) (slots_for ctx.generate_jump_table op) few_jumps)

-- What a frame leaves when it is closed: `empties` says that its end types are all of its segment.
abbrev pub empties : Option (List Valtype) → Bool
empties none = false
empties (some []) = true
empties (some (t ∷ ts)) = false

abbrev pub Closes :
    (f : Ctrlframe) (fs : List Ctrlframe) (below : List Valtype) (jumps : List Jump)
    (r : Result (Ctrlframe × Context))
    → Bool
    → Type 0
Closes f fs below jumps r false = r ≡ err einval
Closes f fs below jumps r true =
    (ctx' : Context) × (r ≡ ok (f, ctx'))
    × IsWf ctx'
    × (ctx'.cframes ≡ fs)
    × (ctx'.valtypes ≡ below)
    × (ctx'.ncells ≡ f.height_cell)
    × (ctx'.ei.jumps ≡ jumps)

module _ (pc : ℕ) (is_else : Bool) (f : Ctrlframe) (fs : List Ctrlframe) (seg below : List Valtype)
    (jumps : List Jump) where
  abbrev resolved : Context → Context
  resolved ctx = let ei = ctx.ei in record ctx { ei = record ei { jumps = jumps } }

  resolved-InFrame :
      (ctx : Context) → InFrame f fs seg below ctx → InFrame f fs seg below (resolved ctx)
  resolved-InFrame ctx h = record {
    top = h.top;
    stack = h.stack;
    height = h.height;
    segment = h.segment;
    starts = h.starts;
    ends = h.ends;
    outer = h.outer;
    cells = h.cells;
    labels = h.labels;
  }

  -- The part of `close_frame` behind the pops, by what is left of the segment.
  abbrev finish : Result Context → Result (Ctrlframe × Context)
  finish r = do
    ctx' ← r
    check (length ctx'.valtypes == f.height) einval
    assert (ctx'.ncells == f.height_cell)
    ok (f, record ctx' { cframes = fs })

  finish-Closes :
      (ctx : Context) (r : Result Context) (left : Option (List Valtype))
      → Leaves f fs below (resolved ctx) r left
      → Closes f fs below jumps (finish r) (empties left)
  finish-Closes ctx r none e = rw e
  finish-Closes ctx r (some (t ∷ ts)) (ctx', e, h, same) = rw e (
      ground
        (arith, ap (λ (vs : List Valtype). length vs) h.stack, length-append ts below, h.height))
  finish-Closes ctx r (some []) (ctx', e, h, same) =
      let cells : ctx'.ncells ≡ f.height_cell =
        IsSegment-nil f.unreachable f.height_cell ctx'.ncells h.segment in
      (
        record ctx' { cframes = fs },
        rw e (ground (arith, cells, ap (λ (vs : List Valtype). length vs) h.stack, h.height)),
        record {
          stack = simp (h.stack, cells) h.outer;
          cells = h.cells;
          labels = ground (arith, h.labels, ap (λ (cs : List Ctrlframe). length cs) h.top);
        },
        refl,
        h.stack,
        cells,
        ap (λ (c : Context). c.ei.jumps) same,
      )

pub pop_ctrlframe-close :
    (pc : ℕ) (is_else : Bool) (ctx : Context) (f : Ctrlframe) (fs : List Ctrlframe)
    → ctx.cframes ≡ f ∷ fs
    → pop_ctrlframe pc is_else ctx ≡ close_frame pc is_else f fs ctx
unfolding pop_ctrlframe
pop_ctrlframe-close pc is_else ctx f fs e = ap close e
  where
    close : List Ctrlframe → Result (Ctrlframe × Context)
    close = elim [ [] ↦ err einval | g ∷ gs ↦ close_frame pc is_else g gs ctx ]

-- Closing the last frame of a well-formed context, once its jump is resolved: EINVAL exactly if its
-- end types are not all of its segment. Else the frame is returned, and what is left is a
-- well-formed context with the frames and the value types below it.
pub pop_ctrlframe-Closes :
    (pc : ℕ) (is_else : Bool) (f : Ctrlframe) (fs : List Ctrlframe) (seg below : List Valtype)
    (jumps : List Jump) (ctx : Context)
    → InFrame f fs seg below ctx
    → (is_else && not (is_if f.op)) ≡ false
    → resolve_jump pc is_else f ctx.ei.jumps ≡ ok jumps
    → Closes f fs below jumps
        (pop_ctrlframe pc is_else ctx)
        (empties (pop_segment f.unreachable (reverse f.end_types) seg))
unfolding close_frame
pop_ctrlframe-Closes pc is_else f fs seg below jumps ctx h pair e =
    simp (pop_ctrlframe-close pc is_else ctx f fs h.top, pair, e)
      (finish-Closes pc is_else f fs seg below jumps ctx _ _ (
        pop_valtypes-Leaves f fs below f.end_types seg
          (resolved pc is_else f fs seg below jumps ctx)
          (resolved-InFrame pc is_else f fs seg below jumps ctx h)))

-- What a successful close has passed.
pub close_frame_ok :
    (pc : ℕ) (is_else : Bool) (f : Ctrlframe) (fs : List Ctrlframe) (ctx : Context)
    (r : Ctrlframe × Context)
    → close_frame pc is_else f fs ctx ≡ ok r
    → ((is_else && not (is_if f.op)) ≡ false)
      × (jumps : List Jump) × (resolve_jump pc is_else f ctx.ei.jumps ≡ ok jumps)
unfolding close_frame
close_frame_ok pc is_else f fs ctx r e =
    let (_, pair, e') = >>=-eq-ok (check (not (is_else && not (is_if f.op))) einval) _ e in
    let (jumps, resolved, _) = >>=-eq-ok (resolve_jump pc is_else f ctx.ei.jumps) _ e' in
    (check_passed (is_else && not (is_if f.op)) pair, jumps, resolved)
  where
    check_passed : (b : Bool) → check (not b) einval ≡ ok tt → b ≡ false
    check_passed true e = absurd (cc)
    check_passed false e = refl

-- An `else` that closes anything but an `if` is refused.
pub pop_ctrlframe_mismatch :
    (pc : ℕ) (ctx : Context) (f : Ctrlframe) (fs : List Ctrlframe)
    → ctx.cframes ≡ f ∷ fs
    → is_if f.op ≡ false
    → pop_ctrlframe pc true ctx ≡ err einval
unfolding close_frame
pop_ctrlframe_mismatch pc ctx f fs e n = simp (pop_ctrlframe-close pc true ctx f fs e, n)

drop_front : (seg below : List Valtype) (n : ℕ) → n ≡ length seg → drop n (seg ++ below) ≡ below
drop_front [] below zero e = refl
drop_front [] below (suc n) e = absurd (omega arith)
drop_front (t ∷ seg) below zero e = absurd (omega arith)
drop_front (t ∷ seg) below (suc n) e = drop_front seg below n (omega arith)

-- After an unconditional branch the frame has an empty segment that gives any type.
pub mark_unreachable-InFrame :
    (f : Ctrlframe) (fs : List Ctrlframe) (seg below : List Valtype) (ctx : Context)
    → InFrame f fs seg below ctx
    → (ctx' : Context) × (mark_unreachable ctx ≡ ok ctx')
      × InFrame (record f { unreachable = true }) fs [] below ctx'
unfolding mark_unreachable
mark_unreachable-InFrame f fs seg below ctx h = (
  record ctx {
    cframes = record f { unreachable = true } ∷ fs;
    valtypes = drop (length ctx.valtypes - f.height) ctx.valtypes;
    ncells = f.height_cell;
  },
  ap mark h.top,
  record {
    top = refl;
    stack =
        simp h.stack (drop_front seg below _ (omega (arith, length-append seg below, h.height)));
    height = h.height;
    segment = (refl, tt);
    starts = h.starts;
    ends = h.ends;
    outer = h.outer;
    cells =
        omega
          (arith, IsSegment-cells f.unreachable f.height_cell seg ctx.ncells h.segment, h.cells);
    labels = ground (arith, h.labels, ap (λ (cs : List Ctrlframe). length cs) h.top);
  },
)
  where
    mark : List Ctrlframe → Result Context
    mark = elim [
      | [] ↦ fault
      | g ∷ gs ↦ ok (record ctx {
        cframes = record g { unreachable = true } ∷ gs;
        valtypes = drop (length ctx.valtypes - g.height) ctx.valtypes;
        ncells = g.height_cell;
      })
    ]
