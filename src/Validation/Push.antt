-- ===== src/Validation/Push.antt =====
-- Pushes on a well-formed context: no assertion fails, and the new value types join the segment.
use toywasm.Base.{ℕ, ◌+◌, ◌≤◌, ◌≡◌, refl, ap, ◌∙◌, arith, Bool, true, false, List, [], ◌∷◌, All}
use toywasm.Base.{ok, not, ◌||◌, if◌then◌else◌}
use toywasm.Base.{u32, ◌^◌, ◌-◌, ◌<◌, leb, length}
use toywasm.Types.{
  Valtype, anyref, unknown, Resulttype, valtype_cellsize, resulttype_cellsize, eq_valtype,
}
use toywasm.Validation.{Ctrlframe, Context, count_push, push_valtype_common}
use toywasm.Validation.{push_loop, push_valtypes}
use toywasm.Validation.Invariant.{MayPush, InFrame, IsSegment, at_frame}

pub MayPush-ne_anyref : (u : Bool) (t : Valtype) → MayPush u t → eq_valtype t anyref ≡ false
unfolding eq_valtype
MayPush-ne_anyref true t h = ground arith
MayPush-ne_anyref false t h = ground arith

pub MayPush-unknown :
    (u : Bool) (t : Valtype) → MayPush u t → (not (eq_valtype t unknown) || u) ≡ true
unfolding eq_valtype
MayPush-unknown true t h = ground arith
MayPush-unknown false t h = ground arith

pub push_valtype_common-ok :
    (t : Valtype) (f : Ctrlframe) (ctx : Context)
    → MayPush f.unreachable t
    → push_valtype_common t f ctx ≡ ok (count_push t f ctx)
unfolding push_valtype_common
push_valtype_common-ok t f ctx h =
    rw (MayPush-ne_anyref f.unreachable t h, MayPush-unknown f.unreachable t h)

IsSegment-cons :
    (u : Bool) (hc : ℕ) (seg : List Valtype) (t : Valtype) (n : ℕ)
    → MayPush u t
    → IsSegment u hc seg n
    → IsSegment u hc (t ∷ seg) (if u then n else n + valtype_cellsize t)
IsSegment-cons true hc seg t n m (e, a) = (e, (m, a))
IsSegment-cons false hc seg t n m (e, a) = (omega arith, (m, a))

count_push_fields :
    (t : Valtype) (f : Ctrlframe) (ctx : Context)
    → ctx.ncells + valtype_cellsize t < 2 ^ 32
    → ((count_push t f ctx).cframes ≡ ctx.cframes)
      × ((count_push t f ctx).valtypes ≡ t ∷ ctx.valtypes)
      × ((count_push t f ctx).ncells
          ≡ (if f.unreachable then ctx.ncells else ctx.ncells + valtype_cellsize t))
      × ((count_push t f ctx).ei.maxlabels ≡ ctx.ei.maxlabels)
unfolding count_push
count_push_fields t f ctx few =
    let unwrapped : u32 (ctx.ncells + valtype_cellsize t) ≡ ctx.ncells + valtype_cellsize t =
      omega (arith, few) in
    ground (arith, unwrapped)

count_push_cells :
    (t : Valtype) (f : Ctrlframe) (ctx : Context)
    → ctx.ncells ≤ ctx.ei.maxcells
    → (count_push t f ctx).ncells ≤ (count_push t f ctx).ei.maxcells
unfolding count_push
count_push_cells t f ctx h = ground arith

count_push_ncells :
    (t : Valtype) (f : Ctrlframe) (ctx : Context)
    → (count_push t f ctx).ncells ≤ ctx.ncells + valtype_cellsize t
unfolding count_push
count_push_ncells t f ctx =
    let wrapped : u32 (ctx.ncells + valtype_cellsize t) ≤ ctx.ncells + valtype_cellsize t =
      omega arith in
    ground (arith, wrapped)

pub InFrame-count_push :
    (t : Valtype) {f : Ctrlframe} {fs : List Ctrlframe} {seg below : List Valtype} {ctx : Context}
    → MayPush f.unreachable t
    → ctx.ncells + valtype_cellsize t < 2 ^ 32
    → InFrame f fs seg below ctx
    → InFrame f fs (t ∷ seg) below (count_push t f ctx)
InFrame-count_push t {f} {fs} {seg} {below} {ctx} m few h =
    let (ef, ev, en, el) = count_push_fields t f ctx few in
    record {
      top = ef ∙ h.top;
      stack = ev ∙ ap (λ (vs : List Valtype). t ∷ vs) h.stack;
      height = h.height;
      segment = rw en (IsSegment-cons f.unreachable f.height_cell seg t ctx.ncells m h.segment);
      starts = h.starts;
      ends = h.ends;
      outer = h.outer;
      cells = count_push_cells t f ctx h.cells;
      labels = rw (ef, el) h.labels;
    }

-- The context after pushes of the types, the first one first.
pub count_pushes : Resulttype → Ctrlframe → Context → Context
count_pushes [] f ctx = ctx
count_pushes (t ∷ ts) f ctx = count_pushes ts f (count_push t f ctx)

-- The segment after them.
abbrev pub push_all : List Valtype → List Valtype → List Valtype
push_all [] seg = seg
push_all (t ∷ ts) seg = push_all ts (t ∷ seg)

pub push_loop-ok :
    (ts : Resulttype) {f : Ctrlframe} {fs : List Ctrlframe} {seg below : List Valtype}
    (ctx : Context)
    → All (MayPush f.unreachable) ts
    → ctx.ncells + resulttype_cellsize ts < 2 ^ 32
    → InFrame f fs seg below ctx
    → (push_loop ts f ctx ≡ ok (count_pushes ts f ctx))
      × InFrame f fs (push_all ts seg) below (count_pushes ts f ctx)
unfolding push_loop count_pushes
push_loop-ok [] ctx a few h = (refl, h)
push_loop-ok (t ∷ ts) {f} ctx (m, a) few h = rw (push_valtype_common-ok t f ctx m) (
    push_loop-ok ts (count_push t f ctx) a (omega (arith, few, count_push_ncells t f ctx))
      (InFrame-count_push t m (omega (arith, few)) h))

-- In a well-formed context pushes of value types that the frame allows, the stack and its cells staying
-- under 2^32, end without a failed
-- assertion, put the types on the segment of the frame and leave what is below alone.
pub push_valtypes-InFrame :
    (ts : Resulttype) (f : Ctrlframe) (fs : List Ctrlframe) (seg below : List Valtype)
    (ctx : Context)
    → All (MayPush f.unreachable) ts
    → length ctx.valtypes + length ts < 2 ^ 32
    → ctx.ncells + resulttype_cellsize ts < 2 ^ 32
    → InFrame f fs seg below ctx
    → (ctx' : Context) × (push_valtypes ts ctx ≡ ok ctx')
      × InFrame f fs (push_all ts seg) below ctx'
unfolding push_valtypes
push_valtypes-InFrame ts f fs seg below ctx a few_values few h =
    let (e, h') = push_loop-ok ts ctx a few h in
    let fits : leb (length ctx.valtypes + length ts) (2 ^ 32 - 1) ≡ true =
      ground (arith, few_values) in
    (
      count_pushes ts f ctx,
      rw fits (at_frame (λ (g : Ctrlframe). push_loop ts g ctx) ctx h.top ∙ e),
      h',
    )
