-- ===== src/Validation/Invariant.antt =====
-- The well-formed validation contexts: each frame owns the part of the stack above its height, and
-- `ncells` is the size of what reachable code has pushed.
use toywasm.Base.{ℕ, ◌+◌, ◌≤◌, ◌≡◌, ◌⊎◌, Bool, true, false, List, [], ◌∷◌, ◌++◌, length, All}
use toywasm.Types.{Valtype, unknown, is_valtype, resulttype_cellsize}
use toywasm.Validation.{Ctrlframe, Context, current_frame}
use toywasm.Base.{Result, ok, fault, ◌>>=◌, ap}

abbrev pub IsValtype : Valtype → Type 0
IsValtype t = is_valtype t ≡ true

abbrev pub IsValtypeOrUnknown : Valtype → Type 0
IsValtypeOrUnknown t = (is_valtype t ≡ true) ⊎ (t ≡ unknown)

-- What may stand on the stack of a frame.
abbrev pub MayPush : (unreachable : Bool) → Valtype → Type 0
MayPush true t = IsValtypeOrUnknown t
MayPush false t = IsValtype t

-- `seg` is what stands above the height of a frame that was pushed at `height_cell` cells.
abbrev pub IsSegment :
    (unreachable : Bool) (height_cell : ℕ) (seg : List Valtype) (ncells : ℕ) → Type 0
IsSegment true height_cell seg ncells = (ncells ≡ height_cell) × All IsValtypeOrUnknown seg
IsSegment false height_cell seg ncells =
    (ncells ≡ height_cell + resulttype_cellsize seg) × All IsValtype seg

-- The stack is cut into the segments of the frames, from the last frame to the first.
abbrev pub IsStackOf : List Ctrlframe → List Valtype → ℕ → Type 0
IsStackOf [] valtypes ncells = (valtypes ≡ []) × (ncells ≡ 0)
IsStackOf (f ∷ fs) valtypes ncells =
    (seg : List Valtype) × (below : List Valtype) × (valtypes ≡ seg ++ below)
    × (length below ≡ f.height)
    × IsSegment f.unreachable f.height_cell seg ncells
    × All IsValtype f.start_types
    × All IsValtype f.end_types
    × IsStackOf fs below f.height_cell

-- `maxcells` and `maxlabels` bound the stacks, for the frame that execution allocates.
pub record IsWf (ctx : Context) : Type 0 where
  pub stack : IsStackOf ctx.cframes ctx.valtypes ctx.ncells
  pub cells : ctx.ncells ≤ ctx.ei.maxcells
  pub labels : length ctx.cframes ≤ ctx.ei.maxlabels

-- A well-formed context seen from its last frame `f`: `seg` is its segment, `below` the rest.
pub record InFrame (f : Ctrlframe) (fs : List Ctrlframe) (seg below : List Valtype) (ctx : Context)
    : Type 0 where
  pub top : ctx.cframes ≡ f ∷ fs
  pub stack : ctx.valtypes ≡ seg ++ below
  pub height : length below ≡ f.height
  pub segment : IsSegment f.unreachable f.height_cell seg ctx.ncells
  pub starts : All IsValtype f.start_types
  pub ends : All IsValtype f.end_types
  pub outer : IsStackOf fs below f.height_cell
  pub cells : ctx.ncells ≤ ctx.ei.maxcells
  pub labels : length ctx.cframes ≤ ctx.ei.maxlabels

pub InFrame-IsWf :
    {f : Ctrlframe} {fs : List Ctrlframe} {seg below : List Valtype} {ctx : Context}
    → InFrame f fs seg below ctx
    → IsWf ctx
InFrame-IsWf {f} {fs} {seg} {below} {ctx} h = record {
  stack = rw h.top (seg, below, h.stack, h.height, h.segment, h.starts, h.ends, h.outer);
  cells = h.cells;
  labels = h.labels;
}

-- The other way: a well-formed context that has a frame.
pub IsWf-InFrame :
    {f : Ctrlframe} {fs : List Ctrlframe} {ctx : Context}
    → ctx.cframes ≡ f ∷ fs
    → IsWf ctx
    → (seg : List Valtype) × (below : List Valtype) × InFrame f fs seg below ctx
IsWf-InFrame {f} {fs} {ctx} e w =
    let stack : IsStackOf (f ∷ fs) ctx.valtypes ctx.ncells = rw e at w.stack in
    (
      stack.0,
      stack.1,
      record {
        top = e;
        stack = stack.2;
        height = stack.3;
        segment = stack.4;
        starts = stack.5;
        ends = stack.6;
        outer = stack.7;
        cells = w.cells;
        labels = w.labels;
      },
    )

-- `current_frame` is the last frame.
pub at_frame :
    {A : Type 0} (k : Ctrlframe → Result A) (ctx : Context) {f : Ctrlframe} {fs : List Ctrlframe}
    → ctx.cframes ≡ f ∷ fs
    → (current_frame ctx >>= k) ≡ k f
at_frame k ctx e = ap (λ (cs : List Ctrlframe). first cs >>= k) e
  where
    first : List Ctrlframe → Result Ctrlframe
    first = elim [ [] ↦ fault | f ∷ fs ↦ ok f ]
