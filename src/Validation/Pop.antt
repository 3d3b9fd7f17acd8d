-- ===== src/Validation/Pop.antt =====
-- Pops on a well-formed context: no assertion fails, and the outcome depends on the segment of the
-- last frame alone.
use toywasm.Base.{ℕ, ◌-◌, ◌≤◌, ◌≡◌, refl, ap, arith, Bool, true, false, ◌||◌}
use toywasm.Base.{List, [], ◌∷◌, ◌++◌, length, length-append, Option, none, some}
use toywasm.Base.{Result, ok, err, einval, leb, if◌then◌else◌, inl, inr, Bool-cases}
use toywasm.Base.{not, sym, ◌∙◌}
use toywasm.Types.{
  Valtype, i32, i64, f32, f64, v128, funcref, externref, exnref, anyref, unknown, Resulttype,
  valtype_cellsize, eq_valtype,
}
use toywasm.Validation.{Ctrlframe, Context, mismatch, pop_top, pop_valtype_common}
use toywasm.Validation.{pop_loop, pop_valtypes}
use toywasm.Validation.Invariant.{MayPush, InFrame, IsSegment, at_frame}
use toywasm.Validation.Push.{MayPush-ne_anyref, MayPush-unknown}
use mathlib.Core.List.{reverse}

IsSegment-head :
    (u : Bool) (hc : ℕ) (t : Valtype) (seg : List Valtype) (n : ℕ)
    → IsSegment u hc (t ∷ seg) n
    → MayPush u t × ((u || leb (valtype_cellsize t) n) ≡ true)
IsSegment-head true hc t seg n (e, (m, a)) = (m, refl)
IsSegment-head false hc t seg n (e, (m, a)) = (m, ground arith)

IsSegment-tail :
    (u : Bool) (hc : ℕ) (t : Valtype) (seg : List Valtype) (n : ℕ)
    → IsSegment u hc (t ∷ seg) n
    → IsSegment u hc seg (if u then n else n - valtype_cellsize t)
IsSegment-tail true hc t seg n (e, (m, a)) = (e, a)
IsSegment-tail false hc t seg n (e, (m, a)) = (omega arith, a)

pub IsSegment-cells :
    (u : Bool) (hc : ℕ) (seg : List Valtype) (n : ℕ) → IsSegment u hc seg n → hc ≤ n
IsSegment-cells true hc seg n (e, a) = omega arith
IsSegment-cells false hc seg n (e, a) = omega arith

pub IsSegment-nil : (u : Bool) (hc : ℕ) (n : ℕ) → IsSegment u hc [] n → n ≡ hc
IsSegment-nil true hc n (e, a) = e
IsSegment-nil false hc n (e, a) = omega arith

-- The context without its top.
pub popped : (t : Valtype) (rest : List Valtype) (f : Ctrlframe) → Context → Context
popped t rest f ctx = record ctx {
  valtypes = rest;
  ncells = if f.unreachable then ctx.ncells else ctx.ncells - valtype_cellsize t;
}

pop_top-eq :
    (e t : Valtype) (rest : List Valtype) (f : Ctrlframe) (ctx : Context) (hc : ℕ)
    (seg : List Valtype)
    → IsSegment f.unreachable hc (t ∷ seg) ctx.ncells
    → pop_top e t rest f ctx ≡ (if mismatch e t then err einval else ok (t, popped t rest f ctx))
unfolding pop_top popped
pop_top-eq e t rest f ctx hc seg s =
    let (m, c) = IsSegment-head f.unreachable hc t seg ctx.ncells s in
    rw (MayPush-ne_anyref f.unreachable t m, MayPush-unknown f.unreachable t m, c) (ground arith)

module _ (f : Ctrlframe) (fs : List Ctrlframe) (below : List Valtype) (ctx : Context) where
  pub pop-cons :
      (e t : Valtype) (seg : List Valtype)
      → InFrame f fs (t ∷ seg) below ctx
      → pop_valtype_common e f ctx
        ≡ (if mismatch e t then err einval else ok (t, popped t (seg ++ below) f ctx))
  unfolding pop_valtype_common
  pop-cons e t seg h = ground (
    arith,
    pop_top-eq e t (seg ++ below) f ctx f.height_cell seg h.segment,
    IsSegment-cells f.unreachable f.height_cell (t ∷ seg) ctx.ncells h.segment,
    length-append seg below,
    ap (λ (vs : List Valtype). length vs) h.stack,
    h.stack,
    h.height,
  )

  pub pop-nil :
      (e : Valtype)
      → InFrame f fs [] below ctx
      → pop_valtype_common e f ctx ≡ (if f.unreachable then ok (unknown, ctx) else err einval)
  unfolding pop_valtype_common
  pop-nil e h = ground (
    arith,
    IsSegment-nil f.unreachable f.height_cell ctx.ncells h.segment,
    ap (λ (vs : List Valtype). length vs) h.stack,
    h.height,
  )

  pub InFrame-popped :
      (t : Valtype) (seg : List Valtype)
      → InFrame f fs (t ∷ seg) below ctx
      → InFrame f fs seg below (popped t (seg ++ below) f ctx)
  unfolding popped
  InFrame-popped t seg h = record {
    top = h.top;
    stack = refl;
    height = h.height;
    segment = IsSegment-tail f.unreachable f.height_cell t seg ctx.ncells h.segment;
    starts = h.starts;
    ends = h.ends;
    outer = h.outer;
    cells = ground (arith, h.cells);
    labels = h.labels;
  }

-- Which values a pop accepts: of the expected type or of one that is not known, any value where
-- nothing is known of the expected one, and any reference where a reference is expected.
abbrev pub accepts : (expected t : Valtype) → Bool
accepts expected unknown = true
accepts unknown t = true
accepts anyref funcref = true
accepts anyref externref = true
accepts i32 i32 = true
accepts i64 i64 = true
accepts f32 f32 = true
accepts f64 f64 = true
accepts v128 v128 = true
accepts funcref funcref = true
accepts externref externref = true
accepts exnref exnref = true
accepts anyref anyref = true
accepts expected t = false

abbrev EveryValtype : (Valtype → Type 0) → Type 0
EveryValtype P =
    P i32
    × P i64
    × P f32
    × P f64
    × P v128
    × P funcref
    × P externref
    × P exnref
    × P anyref
    × P unknown

every : (P : Valtype → Type 0) → EveryValtype P → (t : Valtype) → P t
every P h i32 = h.0
every P h i64 = h.1
every P h f32 = h.2
every P h f64 = h.3
every P h v128 = h.4
every P h funcref = h.5
every P h externref = h.6
every P h exnref = h.7
every P h anyref = h.8
every P h unknown = h.9

-- The code's test is this one.
mismatch-accepts : (expected t : Valtype) → mismatch expected t ≡ not (accepts expected t)
unfolding mismatch eq_valtype
mismatch-accepts i32 = every _ (refl, refl, refl, refl, refl, refl, refl, refl, refl, refl)
mismatch-accepts i64 = every _ (refl, refl, refl, refl, refl, refl, refl, refl, refl, refl)
mismatch-accepts f32 = every _ (refl, refl, refl, refl, refl, refl, refl, refl, refl, refl)
mismatch-accepts f64 = every _ (refl, refl, refl, refl, refl, refl, refl, refl, refl, refl)
mismatch-accepts v128 = every _ (refl, refl, refl, refl, refl, refl, refl, refl, refl, refl)
mismatch-accepts funcref = every _ (refl, refl, refl, refl, refl, refl, refl, refl, refl, refl)
mismatch-accepts externref = every _ (refl, refl, refl, refl, refl, refl, refl, refl, refl, refl)
mismatch-accepts exnref = every _ (refl, refl, refl, refl, refl, refl, refl, refl, refl, refl)
mismatch-accepts anyref = every _ (refl, refl, refl, refl, refl, refl, refl, refl, refl, refl)
mismatch-accepts unknown = every _ (refl, refl, refl, refl, refl, refl, refl, refl, refl, refl)

-- The typing rule of a pop, on the segment alone: `expected` is the types from the top down. An
-- unreachable segment gives any type below its bottom.
abbrev pub pop_segment : (unreachable : Bool) (expected seg : List Valtype) → Option (List Valtype)
pop_segment u [] seg = some seg
pop_segment u (e ∷ es) [] = if u then pop_segment u es [] else none
pop_segment u (e ∷ es) (t ∷ seg) = if accepts e t then pop_segment u es seg else none

-- `r` is the error, or a context whose last frame has the segment that is left; but for the stack it
-- is `ctx`.
abbrev pub Leaves :
    (f : Ctrlframe) (fs : List Ctrlframe) (below : List Valtype) (ctx : Context)
    → Result Context
    → Option (List Valtype)
    → Type 0
Leaves f fs below ctx r none = r ≡ err einval
Leaves f fs below ctx r (some seg') =
    (ctx' : Context) × (r ≡ ok ctx')
    × InFrame f fs seg' below ctx'
    × (record ctx' { valtypes = ctx.valtypes; ncells = ctx.ncells } ≡ ctx)

module _ (f : Ctrlframe) (fs : List Ctrlframe) (below : List Valtype) where
  Leaves-popped :
      (ctx : Context) (t : Valtype) (rest : List Valtype) (r : Result Context)
      (left : Option (List Valtype))
      → Leaves f fs below (popped t rest f ctx) r left
      → Leaves f fs below ctx r left
  unfolding popped
  Leaves-popped ctx t rest r none e = e
  Leaves-popped ctx t rest r (some seg) (ctx', e, h, same) = (
    ctx',
    e,
    h,
    ap (λ (c : Context). record c { valtypes = ctx.valtypes; ncells = ctx.ncells }) same,
  )

  not-true : (b : Bool) → not b ≡ true → b ≡ false
  not-true true e = absurd (cc)
  not-true false e = refl

  not-false : (b : Bool) → not b ≡ false → b ≡ true
  not-false true e = refl
  not-false false e = absurd (cc)

  pop_loop-Leaves :
      (es seg : List Valtype) (ctx : Context)
      → InFrame f fs seg below ctx
      → Leaves f fs below ctx (pop_loop es f ctx) (pop_segment f.unreachable es seg)
  unfolding pop_loop popped
  pop_loop-Leaves [] seg ctx h = (ctx, refl, h, refl)
  pop_loop-Leaves (e ∷ es) [] ctx h = elim (Bool-cases f.unreachable) [
    | inl u ↦ simp (pop-nil f fs below ctx e h, u) (pop_loop-Leaves es [] ctx h)
    | inr r ↦ simp (pop-nil f fs below ctx e h, r)
  ]
  pop_loop-Leaves (e ∷ es) (t ∷ seg) ctx h = elim (Bool-cases (mismatch e t)) [
    | inl bad ↦
        let refused : not (accepts e t) ≡ true = sym (mismatch-accepts e t) ∙ bad in
        rw (pop-cons f fs below ctx e t seg h, bad, not-true (accepts e t) refused) refl
    | inr good ↦
        let accepted : not (accepts e t) ≡ false = sym (mismatch-accepts e t) ∙ good in
        rw (pop-cons f fs below ctx e t seg h, good, not-false (accepts e t) accepted)
          (Leaves-popped ctx t (seg ++ below) _ _ (
            pop_loop-Leaves es seg (popped t (seg ++ below) f ctx)
              (InFrame-popped f fs below ctx t seg h)))
  ]

  -- In a well-formed context `pop_valtypes` fails no assertion. It returns EINVAL exactly where the
  -- typing rule refuses the segment of the last frame; else it leaves a well-formed context with
  -- the segment that the rule leaves; what is below it and the rest of the context are unchanged.
  pub pop_valtypes-Leaves :
      (types : Resulttype) (seg : List Valtype) (ctx : Context)
      → InFrame f fs seg below ctx
      → Leaves f fs below ctx
          (pop_valtypes types ctx)
          (pop_segment f.unreachable (reverse types) seg)
  unfolding pop_valtypes
  pop_valtypes-Leaves types seg ctx h =
      simp (at_frame (λ (g : Ctrlframe). pop_loop (reverse types) g ctx) ctx h.top)
        (pop_loop-Leaves (reverse types) seg ctx h)
