-- ===== src/Validation/Peek.antt =====
-- peek_valtypes looks and leaves the context alone; a push and a pop of the same types cancel.
use toywasm.Base.{◌≡◌, refl, ap, ◌∙◌, Bool, List, [], ◌∷◌, ◌++◌, All, Option, none, some}
use toywasm.Base.{ok, err, einval}
use toywasm.Types.{Valtype, Resulttype}
use toywasm.Validation.{Ctrlframe, Context, push_valtypes, pop_valtypes, peek_valtypes}
use toywasm.Validation.Invariant.{MayPush, InFrame}
use toywasm.Validation.Push.{push_all, push_valtypes-InFrame}
use toywasm.Base.{true, length, ◌+◌, ◌<◌, ◌^◌}
use toywasm.Types.{resulttype_cellsize}
use toywasm.Types.{i32, i64, f32, f64, v128, funcref, externref, exnref, anyref, unknown}
use toywasm.Validation.Pop.{accepts, pop_segment, Leaves, pop_valtypes-Leaves}
use mathlib.Core.List.{reverse, reverse_aux, reverse_aux-eq}

accepts_self : (t : Valtype) → accepts t t ≡ true
accepts_self i32 = refl
accepts_self i64 = refl
accepts_self f32 = refl
accepts_self f64 = refl
accepts_self v128 = refl
accepts_self funcref = refl
accepts_self externref = refl
accepts_self exnref = refl
accepts_self anyref = refl
accepts_self unknown = refl

pop_segment_self : (u : Bool) (ts seg : List Valtype) → pop_segment u ts (ts ++ seg) ≡ some seg
pop_segment_self u [] seg = refl
pop_segment_self u (t ∷ ts) seg = rw (accepts_self t) (pop_segment_self u ts seg)

push_all-reverse_aux : (ts seg : List Valtype) → push_all ts seg ≡ reverse_aux ts seg
push_all-reverse_aux [] seg = refl
push_all-reverse_aux (t ∷ ts) seg = push_all-reverse_aux ts (t ∷ seg)

push_all-reverse : (ts seg : List Valtype) → push_all ts seg ≡ reverse ts ++ seg
push_all-reverse ts seg = push_all-reverse_aux ts seg ∙ reverse_aux-eq ts seg

module _ (f : Ctrlframe) (fs : List Ctrlframe) (seg below : List Valtype) (ctx : Context)
    (h : InFrame f fs seg below ctx) where
  -- In a well-formed context pushes of types that the frame allows, under 2^32 values and cells, and then pops of the same types,
  -- give back the segment that was there.
  pub pop_valtypes-push_valtypes :
      (ts : Resulttype)
      → All (MayPush f.unreachable) ts
      → length ctx.valtypes + length ts < 2 ^ 32
      → ctx.ncells + resulttype_cellsize ts < 2 ^ 32
      → (pushed : Context) × (popped : Context) × (push_valtypes ts ctx ≡ ok pushed)
        × (pop_valtypes ts pushed ≡ ok popped)
        × InFrame f fs seg below popped
  pop_valtypes-push_valtypes ts a few_values few =
      let (pushed, e, h') = push_valtypes-InFrame ts f fs seg below ctx a few_values few h in
      let left : pop_segment f.unreachable (reverse ts) (push_all ts seg) ≡ some seg =
        rw (push_all-reverse ts seg) (pop_segment_self f.unreachable (reverse ts) seg) in
      let pops : Leaves f fs below pushed (pop_valtypes ts pushed) (some seg) =
        rw left at (pop_valtypes-Leaves f fs below ts (push_all ts seg) pushed h') in
      (pushed, pops.0, e, pops.1, pops.2)

  abbrev pub Peeks : Resulttype → Option (List Valtype) → Type 0
  Peeks ts none = peek_valtypes ts ctx ≡ err einval
  Peeks ts (some _) = peek_valtypes ts ctx ≡ ok ctx

  peek_of_pop :
      (ts : Resulttype) (left : Option (List Valtype))
      → Leaves f fs below ctx (pop_valtypes ts ctx) left
      → Peeks ts left
  unfolding peek_valtypes
  peek_of_pop ts none e = rw e
  peek_of_pop ts (some seg') (ctx', e, h', same) = rw e (ap ok same)

  -- `peek_valtypes` returns EINVAL exactly where the pops would, and otherwise the very context that
  -- it was given.
  pub peek_valtypes-Peeks :
      (ts : Resulttype) → Peeks ts (pop_segment f.unreachable (reverse ts) seg)
  peek_valtypes-Peeks ts = peek_of_pop ts _ (pop_valtypes-Leaves f fs below ts seg ctx h)
